-- ===== src/Ledis/Sets/Algebra.antt =====
-- The union, difference and intersection of ledis/t_set.go against the Boolean operations.
use ledisdb.Base.{
  ◌≡◌, ◌⊎◌, refl, ◌∙◌, true, false, not, ◌&&◌, ◌||◌, List, [], ◌∷◌, ◌++◌, All, Bool-cases, inl, inr,
  arith,
}
use ledisdb.Error.{ok}
use ledisdb.Bytes.{Bytes, equal_bytes}
use ledisdb.Bytes.Compare.{equal_bytes_iff}
use ledisdb.Key.{check_key_size}
use ledisdb.Ledis.Sets.{has, add_key, delete_key, add_keys, delete_keys, select}

has-append : (m : Bytes) (xs ys : List Bytes) → has m (xs ++ ys) ≡ (has m xs || has m ys)
has-append m [] ys = refl
has-append m (x ∷ xs) ys = ground (arith, has-append m xs ys)

has-add_key : (m k : Bytes) (ks : List Bytes) → has m (add_key k ks) ≡ (has m ks || equal_bytes k m)
has-add_key m k ks = elim (Bool-cases (has k ks)) [
  | inl p ↦ rw p (there p (Bool-cases (equal_bytes k m)))
  | inr p ↦ rw p (has-append m ks (k ∷ []) ∙ ground arith)
]
  where
    there :
        has k ks ≡ true
        → (equal_bytes k m ≡ true) ⊎ (equal_bytes k m ≡ false)
        → has m ks ≡ (has m ks || equal_bytes k m)
    there p (inl q) =
        let same : k ≡ m = (equal_bytes_iff k m).0 q in
        let in_it : has m ks ≡ true = rw (← same) p in rw (q, in_it)
    there p (inr q) = rw q (ground arith)

has-delete_key :
    (m k : Bytes) (ks : List Bytes) → has m (delete_key k ks) ≡ (has m ks && not (equal_bytes k m))
unfolding delete_key
has-delete_key m k [] = refl
has-delete_key m k (j ∷ ks) =
    ground
      (arith, has-delete_key m k ks, equal_bytes_iff j k, equal_bytes_iff j m, equal_bytes_iff k m)

pub has-add_keys :
    (m : Bytes) (ms ks : List Bytes) → has m (add_keys ms ks) ≡ (has m ks || has m ms)
unfolding add_keys
has-add_keys m [] ks = ground arith
has-add_keys m (k ∷ ms) ks = ground (arith, has-add_keys m ms (add_key k ks), has-add_key m k ks)

pub has-delete_keys :
    (m : Bytes) (ms ks : List Bytes) → has m (delete_keys ms ks) ≡ (has m ks && not (has m ms))
unfolding delete_keys
has-delete_keys m [] ks = ground arith
has-delete_keys m (k ∷ ms) ks =
    ground (arith, has-delete_keys m ms (delete_key k ks), has-delete_key m k ks)

-- Each key once
abbrev pub IsOnce : List Bytes → Type 0
IsOnce [] = Unit {0}
IsOnce (k ∷ ks) = (has k ks ≡ false) × IsOnce ks

snoc-IsOnce : (k : Bytes) (ks : List Bytes) → has k ks ≡ false → IsOnce ks → IsOnce (ks ++ k ∷ [])
snoc-IsOnce k [] h o = (refl, tt)
snoc-IsOnce k (j ∷ ks) h o = (
  has-append j ks (k ∷ []) ∙ ground (arith, equal_bytes_iff j k, equal_bytes_iff k j),
  snoc-IsOnce k ks (ground arith) o.1,
)

add_key-IsOnce : (k : Bytes) (ks : List Bytes) → IsOnce ks → IsOnce (add_key k ks)
add_key-IsOnce k ks o = elim (Bool-cases (has k ks)) [
  | inl p ↦ rw p o
  | inr p ↦ rw p (snoc-IsOnce k ks p o)
]

delete_key-IsOnce : (k : Bytes) (ks : List Bytes) → IsOnce ks → IsOnce (delete_key k ks)
unfolding delete_key
delete_key-IsOnce k [] o = tt
delete_key-IsOnce k (j ∷ ks) o = ground (arith, delete_key-IsOnce k ks o.1, has-delete_key j k ks)

pub add_keys-IsOnce : (ms ks : List Bytes) → IsOnce ks → IsOnce (add_keys ms ks)
unfolding add_keys
add_keys-IsOnce [] ks o = o
add_keys-IsOnce (m ∷ ms) ks o = add_keys-IsOnce ms (add_key m ks) (add_key-IsOnce m ks o)

pub delete_keys-IsOnce : (ms ks : List Bytes) → IsOnce ks → IsOnce (delete_keys ms ks)
unfolding delete_keys
delete_keys-IsOnce [] ks o = o
delete_keys-IsOnce (m ∷ ms) ks o =
    delete_keys-IsOnce ms (delete_key m ks) (delete_key-IsOnce m ks o)

abbrev pub AllShort : List Bytes → Type 0
AllShort = All (λ m. check_key_size m ≡ ok tt)

-- What is selected of a set: its members that are in another one.
pub select_lem :
    (ms dst temp : List Bytes)
    → AllShort ms
    → IsOnce temp
    → (r : List Bytes) × (select ms dst temp ≡ ok r)
      × IsOnce r
      × ((m : Bytes) → has m r ≡ (has m temp || has m dst && has m ms))
unfolding select
select_lem [] dst temp h o = (temp, refl, o, λ m. ground arith)
select_lem (k ∷ ms) dst temp h o = elim (Bool-cases (has k dst)) [
  | inl p ↦
      (let (r, run, once, all) = select_lem ms dst (add_key k temp) h.1 (add_key-IsOnce k temp o) in
        (r, rw (h.0, p, select) run, once, λ m. all m ∙ rw (has-add_key m k temp) (inside m p)))
  | inr p ↦
      (let (r, run, once, all) = select_lem ms dst temp h.1 o in
        (r, rw (h.0, p, select) run, once, λ m. all m ∙ outside m p))
]
  where
    inside :
        (m : Bytes)
        → has k dst ≡ true
        → (has m temp || equal_bytes k m || has m dst && has m ms)
          ≡ (has m temp || has m dst && has m (k ∷ ms))
    inside m p = ground (arith, equal_bytes_iff k m)

    outside :
        (m : Bytes)
        → has k dst ≡ false
        → (has m temp || has m dst && has m ms) ≡ (has m temp || has m dst && has m (k ∷ ms))
    outside m p = ground (arith, equal_bytes_iff k m)
