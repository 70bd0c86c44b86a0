-- ===== src/Ledis/Zset/Puts.antt =====
-- A member of a sorted set whose records are put over those of a store (ledis/t_zset.go).
use ledisdb.Base.{
  ℕ, ◌+◌, ◌^◌, ◌<◌, ◌≡◌, refl, sym, ap, ◌∙◌, Bool, true, false, ◌&&◌, Option, none, some, [],
  length, ◌==◌, if◌then◌else◌, Bool-cases, inl, inr, arith,
}
use ledisdb.Base.Int.{ℤ, pos, IsInt64, eqb_ℤ, ◌<ℤ◌}
use ledisdb.Error.{ok}
use ledisdb.Bytes.{Bytes, equal_bytes}
use ledisdb.Bytes.Compare.{equal_bytes_iff, equal_bytes_refl}
use ledisdb.Key.{check_key_size}
use ledisdb.Key.Plain.{z_encode_size_key}
use ledisdb.Key.Member.{z_encode_set_key}
use ledisdb.Key.Sorted.{z_encode_score_key}
use ledisdb.Store.{Driver}
use ledisdb.Store.Map.{IsOrderedMap}
use ledisdb.Ledis.{Env, State}
use ledisdb.Ledis.Commit.{look}
use ledisdb.Ledis.Value.{put_int64, int64, int64-put_int64}
use ledisdb.Ledis.Kv.{is_some}
use ledisdb.Ledis.Zset.{min_score, max_score}
use ledisdb.Ledis.Zset.Items.{
  Items, IsZset, score_of_item, put_item, has_score, is_score, score_value, size_value,
  score-put_item, put_item-IsDistinct, length-put_item, has_score-length, set_key-set_key,
  score_key-score_key, set_key-score_key, score_key-set_key, size_key-set_key, size_key-score_key,
}

abbrev pub OptFits : Option ℤ → Type 0
OptFits none = Unit {0}
OptFits (some x) = IsInt64 x

-- One more member if it is a new one.
abbrev pub grown : Option ℤ → ℕ → ℕ
grown old n = if has_score old then n else n + 1

pub grown_some :
    (old : Option ℤ) (items : Items) (k : Bytes)
    → score_of_item k items ≡ old
    → 0 < grown old (length items)
grown_some none items k h = omega arith
grown_some (some y) items k h = has_score-length k y items h

pub int64_size : (n : ℕ) → n < 2 ^ 63 → int64 (ok (size_value n)) ≡ ok (pos n)
int64_size n h = elim (Bool-cases (n == 0)) [
  | inl p ↦ let zero_size : n ≡ 0 = ground arith in rw zero_size (unfold int64 in refl)
  | inr p ↦ rw p (int64-put_int64 (pos n) (omega arith))
]

pub bounds-IsInt64 : (x : ℤ) → min_score <ℤ x → x <ℤ max_score → IsInt64 x
bounds-IsInt64 x lo hi = ground arith

module _ (e : Env) (key : Bytes) where
  abbrev pub sk : Bytes → ℤ → Bytes
  sk = z_encode_score_key e.db key

  abbrev pub ek : Bytes → Bytes
  ek = z_encode_set_key e.db key

  abbrev pub zk : Bytes
  zk = z_encode_size_key e.db key

  abbrev pub dropped : Option ℤ → Bytes → Bytes → Bool
  dropped none k j = false
  dropped (some y) k j = equal_bytes (sk k y) j

  pub dropped-ek :
      check_key_size key ≡ ok tt
      → (old : Option ℤ) (k j : Bytes) → OptFits old
      → dropped old k (ek j) ≡ false
  dropped-ek kh none k j f = refl
  dropped-ek kh (some y) k j f = score_key-set_key e.db key kh k j y f

  pub dropped-sk :
      check_key_size key ≡ ok tt
      → (old : Option ℤ) (k j : Bytes) (y : ℤ) → OptFits old
      → IsInt64 y
      → dropped old k (sk j y) ≡ (equal_bytes k j && is_score old y)
  dropped-sk kh none k j y f h = ground arith
  dropped-sk kh (some x) k j y f h = score_key-score_key e.db key kh k j x y f h

module _ {S I : Type 0} {d : Driver S I} (m : IsOrderedMap d) (e : Env) (key : Bytes) where
  -- Any state in which the records of one member are put over those of a sorted set.
  abbrev pub IsPut : (s t : State S) (old : Option ℤ) (x : ℤ) (k : Bytes) (n : ℕ) → Type 0
  IsPut s t old x k n =
      (j : Bytes)
      → look m t j ≡ (
          if equal_bytes (zk e key) j
          then some (put_int64 (pos n))
          else if equal_bytes (sk e key k x) j
          then some []
          else if equal_bytes (ek e key k) j
          then some (put_int64 x)
          else if dropped e key old k j
          then none
          else look m s j)

  pub put-IsZset :
      (s t : State S) (items : Items) (x : ℤ) (k : Bytes)
      → IsZset m e key s items
      → check_key_size key ≡ ok tt
      → IsInt64 x
      → IsPut s t (score_of_item k items) x k (grown (score_of_item k items) (length items))
      → IsZset m e key t (put_item k x items)
  put-IsZset s t items x k z kh hx chain = record {
    distinct = put_item-IsDistinct k x items z.distinct;
    fits = λ j y h. fits (equal_bytes k j) j y (sym (score-put_item k j x items) ∙ h);
    members = λ j.
        chain (ek e key j)
        ∙ rw
            (
              size_key-set_key e.db key kh j,
              score_key-set_key e.db key kh k j x hx,
              set_key-set_key e.db key kh k j,
              dropped-ek e key kh (score_of_item k items) k j
                  (old_fits (score_of_item k items) refl),
              z.members j,
              score-put_item k j x items,
            )
            (value_if (equal_bytes k j) (score_of_item j items));
    scores = λ j y h.
        ap is_some (chain (sk e key j y))
        ∙ rw
            (
              size_key-score_key e.db key kh j y h,
              score_key-score_key e.db key kh k j x y hx h,
              set_key-score_key e.db key kh k j y h,
              dropped-sk e key kh (score_of_item k items) k j y
                  (old_fits (score_of_item k items) refl) h,
              score-put_item k j x items,
            )
            (score_if (equal_bytes k j) (eqb_ℤ x y) (score_of_item k items) (score_of_item j items)
              y (look m s (sk e key j y)) x refl
              (λ p. ap (λ i. score_of_item i items) (sym ((equal_bytes_iff k j).0 p)))
              (z.scores j y h));
    size =
        chain (zk e key)
        ∙ rw (equal_bytes_refl (zk e key), length-put_item k x items)
            (size_of (score_of_item k items) refl);
  }
    where
      old_fits : (old : Option ℤ) → score_of_item k items ≡ old → OptFits old
      old_fits none h = tt
      old_fits (some y) h = z.fits k y h

      fits :
          (b : Bool) (j : Bytes) (y : ℤ)
          → (if b then some x else score_of_item j items) ≡ some y
          → IsInt64 y
      fits true j y h = let same : y ≡ x = cc in rw same hx
      fits false j y h = z.fits j y h

      value_if :
          (b : Bool) (o : Option ℤ)
          → (if b then some (put_int64 x) else score_value o)
            ≡ score_value (if b then some x else o)
      value_if true o = refl
      value_if false o = refl

      score_if :
          (a b : Bool) (old o : Option ℤ) (y : ℤ) (v : Option Bytes) (x : ℤ)
          → eqb_ℤ x y ≡ b
          → (a ≡ true → o ≡ old)
          → is_some v ≡ is_score o y
          → is_some (if a && b then some [] else if a && is_score old y then none else v)
            ≡ is_score (if a then some x else o) y
      score_if false b old o y v x p q h = h
      score_if true true old o y v x p q h = sym p
      score_if true false old o y v x p q h = elim (Bool-cases (is_score old y)) [
        | inl w ↦ rw w (sym p)
        | inr w ↦ rw w (h ∙ ap (λ u. is_score u y) (q refl) ∙ w ∙ sym p)
      ]

      size_of :
          (old : Option ℤ)
          → score_of_item k items ≡ old
          → some (put_int64 (pos (grown old (length items))))
            ≡ size_value (grown old (length items))
      size_of old h =
          let some_left : (grown old (length items) == 0) ≡ false =
            ground (arith, grown_some old items k h) in
          rw some_left
