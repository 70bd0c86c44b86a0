-- ===== src/Ledis/Zset/Items.antt =====
-- A sorted set as a map from members to scores, and its records in the store (ledis/t_zset.go).
use ledisdb.Base.{
  ℕ, ◌+◌, ◌<◌, ◌≡◌, refl, ap, Bool, true, false, ◌&&◌, Option, none, some, List, [], ◌∷◌, length,
  ◌^◌, ◌==◌, if◌then◌else◌, arith,
}
use ledisdb.Base.Int.{ℤ, pos, IsInt64, eqb_ℤ, eq_of_parts}
use ledisdb.Error.{ok}
use ledisdb.Bytes.{Bytes, equal_bytes}
use ledisdb.Bytes.Compare.{equal_bytes_iff}
use ledisdb.Key.{Db, check_key_size}
use ledisdb.Key.Plain.{z_encode_size_key}
use ledisdb.Key.Member.{z_encode_set_key}
use ledisdb.Key.Sorted.{z_encode_score_key}
use ledisdb.Key.RoundTrip.Members.{check_key_size-lt}
use ledisdb.Key.Record.{Record, Fits, encode, zset_member, zset_score, zset_size}
use ledisdb.Key.Record.Distinct.{encode-injective, equal_bytes-encode_ne}
use ledisdb.Store.{Driver}
use ledisdb.Store.Map.{IsOrderedMap}
use ledisdb.Store.Scan.{same_bool, both, and_left, and_right}
use ledisdb.Ledis.{Env, State}
use ledisdb.Ledis.Commit.{look}
use ledisdb.Ledis.Value.{put_int64}
use ledisdb.Ledis.Kv.{is_some}

-- The abstract sorted set: members with their scores, each member once.
abbrev pub Items : Type 0
Items = List (Bytes × ℤ)

abbrev pub score_of_item : Bytes → Items → Option ℤ
score_of_item m [] = none
score_of_item m ((k, x) ∷ ks) = if equal_bytes k m then some x else score_of_item m ks

unfoldable pub put_item : Bytes → ℤ → Items → Items
put_item m x [] = (m, x) ∷ []
put_item m x ((k, y) ∷ ks) =
    let rest = (k, y) ∷ put_item m x ks in if equal_bytes k m then (k, x) ∷ ks else rest

unfoldable pub drop_item : Bytes → Items → Items
drop_item m [] = []
drop_item m ((k, y) ∷ ks) =
    let rest = (k, y) ∷ drop_item m ks in if equal_bytes k m then ks else rest

abbrev pub IsDistinct : Items → Type 0
IsDistinct [] = Unit {0}
IsDistinct ((k, x) ∷ ks) = (score_of_item k ks ≡ none) × IsDistinct ks

abbrev pub has_score : Option ℤ → Bool
has_score none = false
has_score (some x) = true

abbrev pub is_score : Option ℤ → ℤ → Bool
is_score none x = false
is_score (some y) x = eqb_ℤ y x

abbrev pub score_value : Option ℤ → Option Bytes
score_value none = none
score_value (some x) = some (put_int64 x)

pub score-put_item :
    (m k : Bytes) (x : ℤ) (items : Items)
    → score_of_item k (put_item m x items)
      ≡ (if equal_bytes m k then some x else score_of_item k items)
unfolding put_item
score-put_item m k x [] = refl
score-put_item m k x ((j, y) ∷ items) = ground (
  arith,
  score-put_item m k x items,
  equal_bytes_iff m k,
  equal_bytes_iff j k,
  equal_bytes_iff j m,
)

pub put_item-IsDistinct :
    (m : Bytes) (x : ℤ) (items : Items) → IsDistinct items → IsDistinct (put_item m x items)
unfolding put_item
put_item-IsDistinct m x [] h = (refl, tt)
put_item-IsDistinct m x ((j, y) ∷ items) h = ground (
  arith,
  put_item-IsDistinct m x items h.1,
  score-put_item m j x items,
  equal_bytes_iff m j,
  equal_bytes_iff j m,
)

pub length-put_item :
    (m : Bytes) (x : ℤ) (items : Items)
    → length (put_item m x items)
      ≡ (if has_score (score_of_item m items) then length items else length items + 1)
unfolding put_item
length-put_item m x [] = refl
length-put_item m x ((j, y) ∷ items) = ground (arith, length-put_item m x items)

pub score-drop_item :
    (m k : Bytes) (items : Items)
    → IsDistinct items
    → score_of_item k (drop_item m items)
      ≡ (if equal_bytes m k then none else score_of_item k items)
unfolding drop_item
score-drop_item m k [] h = ground arith
score-drop_item m k ((j, y) ∷ items) h = ground (
  arith,
  score-drop_item m k items h.1,
  equal_bytes_iff m k,
  equal_bytes_iff j k,
  equal_bytes_iff j m,
)

pub drop_item-IsDistinct :
    (m : Bytes) (items : Items) → IsDistinct items → IsDistinct (drop_item m items)
unfolding drop_item
drop_item-IsDistinct m [] h = tt
drop_item-IsDistinct m ((j, y) ∷ items) h =
    ground (arith, drop_item-IsDistinct m items h.1, score-drop_item m j items h.1)

pub length-drop_item :
    (m : Bytes) (items : Items)
    → length items ≡ (
        if has_score (score_of_item m items)
        then length (drop_item m items) + 1
        else length (drop_item m items))
unfolding drop_item
length-drop_item m [] = refl
length-drop_item m ((j, y) ∷ items) = ground (arith, length-drop_item m items)

-- A member that is there is counted.
pub has_score-length :
    (m : Bytes) (x : ℤ) (items : Items) → score_of_item m items ≡ some x → 0 < length items
has_score-length m x [] h = cc
has_score-length m x ((j, y) ∷ items) h = omega arith

abbrev pub size_value : ℕ → Option Bytes
size_value n = if n == 0 then none else some (put_int64 (pos n))

module _ {S I : Type 0} {d : Driver S I} (m : IsOrderedMap d) (e : Env) (key : Bytes) where
  -- The store holds the items as the sorted set `key`: the score of each member under the member, an
  -- empty record under its score and no other score, and the number of the members.
  pub record IsZset (s : State S) (items : Items) : Type 0 where
    pub distinct : IsDistinct items
    pub fits : (k : Bytes) (x : ℤ) → score_of_item k items ≡ some x → IsInt64 x
    pub members :
        (k : Bytes) → look m s (z_encode_set_key e.db key k) ≡ score_value (score_of_item k items)
    pub scores :
        (k : Bytes) (x : ℤ)
        → IsInt64 x
        → is_some (look m s (z_encode_score_key e.db key k x)) ≡ is_score (score_of_item k items) x
    pub size : look m s (z_encode_size_key e.db key) ≡ size_value (length items)

-- Whether two records are the same one is whether their keys are.
pub equal_bytes-encode :
    (db : Db) (r t : Record) (b : Bool)
    → Fits r
    → Fits t
    → (r ≡ t → b ≡ true)
    → (b ≡ true → r ≡ t)
    → equal_bytes (encode db r) (encode db t) ≡ b
equal_bytes-encode db r t b f g to from =
    same_bool _ b
      (λ h. to (encode-injective db r t f g ((equal_bytes_iff (encode db r) (encode db t)).0 h)))
      (λ h. (equal_bytes_iff (encode db r) (encode db t)).1 (ap (encode db) (from h)))

abbrev member_of : Record → Bytes
member_of (zset_member k n) = n
member_of (zset_score k n x) = n
member_of r = []

abbrev number_of : Record → ℤ
number_of (zset_score k n x) = x
number_of r = pos 0

module _ (db : Db) (key : Bytes) (short : check_key_size key ≡ ok tt) where
  abbrev len : length key < 2 ^ 16
  len = check_key_size-lt key short

  pub set_key-set_key :
      (a b : Bytes)
      → equal_bytes (z_encode_set_key db key a) (z_encode_set_key db key b) ≡ equal_bytes a b
  unfolding encode
  set_key-set_key a b =
      equal_bytes-encode db (zset_member key a) (zset_member key b) (equal_bytes a b) len len
        (λ p. (equal_bytes_iff a b).1 (ap member_of p))
        (λ h. ap (zset_member key) ((equal_bytes_iff a b).0 h))

  pub score_key-score_key :
      (a b : Bytes) (x y : ℤ)
      → IsInt64 x
      → IsInt64 y
      → equal_bytes (z_encode_score_key db key a x) (z_encode_score_key db key b y)
        ≡ (equal_bytes a b && eqb_ℤ x y)
  unfolding encode
  score_key-score_key a b x y hx hy =
      equal_bytes-encode db (zset_score key a x) (zset_score key b y) (equal_bytes a b && eqb_ℤ x y)
        (len, hx) (len, hy)
        (λ p. both ((equal_bytes_iff a b).1 (ap member_of p)) (eqb_refl x y (ap number_of p)))
        (λ h. cc (
          (equal_bytes_iff a b).0 (and_left (equal_bytes a b) (eqb_ℤ x y) h),
          same_number x y (and_right (equal_bytes a b) (eqb_ℤ x y) h),
        ))
    where
      eqb_refl : (x y : ℤ) → x ≡ y → eqb_ℤ x y ≡ true
      eqb_refl x y h = rw h (ground arith)

      same_number : (x y : ℤ) → eqb_ℤ x y ≡ true → x ≡ y
      same_number x y h = eq_of_parts x y (ground arith)

  pub set_key-score_key :
      (a b : Bytes) (x : ℤ)
      → IsInt64 x
      → equal_bytes (z_encode_set_key db key a) (z_encode_score_key db key b x) ≡ false
  unfolding encode
  set_key-score_key a b x h =
      equal_bytes-encode_ne db (zset_member key a) (zset_score key b x) len (len, h) (λ p. cc)

  pub score_key-set_key :
      (a b : Bytes) (x : ℤ)
      → IsInt64 x
      → equal_bytes (z_encode_score_key db key a x) (z_encode_set_key db key b) ≡ false
  unfolding encode
  score_key-set_key a b x h =
      equal_bytes-encode_ne db (zset_score key a x) (zset_member key b) (len, h) len (λ p. cc)

  pub size_key-set_key :
      (b : Bytes) → equal_bytes (z_encode_size_key db key) (z_encode_set_key db key b) ≡ false
  unfolding encode
  size_key-set_key b = equal_bytes-encode_ne db (zset_size key) (zset_member key b) tt len (λ p. cc)

  pub set_key-size_key :
      (b : Bytes) → equal_bytes (z_encode_set_key db key b) (z_encode_size_key db key) ≡ false
  unfolding encode
  set_key-size_key b = equal_bytes-encode_ne db (zset_member key b) (zset_size key) len tt (λ p. cc)

  pub size_key-score_key :
      (b : Bytes) (x : ℤ)
      → IsInt64 x
      → equal_bytes (z_encode_size_key db key) (z_encode_score_key db key b x) ≡ false
  unfolding encode
  size_key-score_key b x h =
      equal_bytes-encode_ne db (zset_size key) (zset_score key b x) tt (len, h) (λ p. cc)

  pub score_key-size_key :
      (b : Bytes) (x : ℤ)
      → IsInt64 x
      → equal_bytes (z_encode_score_key db key b x) (z_encode_size_key db key) ≡ false
  unfolding encode
  score_key-size_key b x h =
      equal_bytes-encode_ne db (zset_score key b x) (zset_size key) (len, h) tt (λ p. cc)
