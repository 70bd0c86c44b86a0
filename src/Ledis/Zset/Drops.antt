-- ===== src/Ledis/Zset/Drops.antt =====
-- A member of a sorted set whose records are deleted from a store (ledis/t_zset.go).
use ledisdb.Base.{
  ◌≡◌, refl, sym, ap, ◌∙◌, Bool, true, false, ◌||◌, ◌&&◌, Option, none, some, length, if◌then◌else◌,
  Bool-cases, inl, inr, arith,
}
use ledisdb.Base.Int.{ℤ, IsInt64}
use ledisdb.Error.{ok}
use ledisdb.Bytes.{Bytes, equal_bytes}
use ledisdb.Bytes.Compare.{equal_bytes_iff, equal_bytes_refl}
use ledisdb.Key.{check_key_size}
use ledisdb.Store.{Driver}
use ledisdb.Store.Map.{IsOrderedMap}
use ledisdb.Ledis.{Env, State}
use ledisdb.Ledis.Commit.{look}
use ledisdb.Ledis.Kv.{is_some}
use ledisdb.Ledis.Zset.Items.{
  Items, IsZset, score_of_item, drop_item, has_score, is_score, score_value, size_value,
  score-drop_item, drop_item-IsDistinct, set_key-set_key, score_key-score_key, set_key-score_key,
  score_key-set_key, size_key-set_key, size_key-score_key,
}
use ledisdb.Ledis.Zset.Puts.{sk, ek, zk, OptFits}

module _ (e : Env) (key : Bytes) where
  abbrev pub gone : Option ℤ → Bytes → Bytes → Bool
  gone none k j = false
  gone (some y) k j = equal_bytes (ek e key k) j || equal_bytes (sk e key k y) j

module _ {S I : Type 0} {d : Driver S I} (m : IsOrderedMap d) (e : Env) (key : Bytes) where
  gone-ek :
      check_key_size key ≡ ok tt
      → (old : Option ℤ) (k j : Bytes) → OptFits old
      → gone e key old k (ek e key j) ≡ (equal_bytes k j && has_score old)
  gone-ek kh none k j f = ground arith
  gone-ek kh (some y) k j f =
      rw (set_key-set_key e.db key kh k j, score_key-set_key e.db key kh k j y f) (ground arith)

  gone-sk :
      check_key_size key ≡ ok tt
      → (old : Option ℤ) (k j : Bytes) (x : ℤ) → OptFits old
      → IsInt64 x
      → gone e key old k (sk e key j x) ≡ (equal_bytes k j && is_score old x)
  gone-sk kh none k j x f h = ground arith
  gone-sk kh (some y) k j x f h =
      rw (set_key-score_key e.db key kh k j x h, score_key-score_key e.db key kh k j y x f h)

  pub drop-IsZset :
      (s t : State S) (items : Items) (k : Bytes) (old : Option ℤ)
      → IsZset m e key s items
      → check_key_size key ≡ ok tt
      → score_of_item k items ≡ old
      → ((j : Bytes)
          → look m t j ≡ (
              if equal_bytes (zk e key) j
              then size_value (length (drop_item k items))
              else if gone e key old k j
              then none
              else look m s j))
      → IsZset m e key t (drop_item k items)
  drop-IsZset s t items k old z kh o chain = record {
    distinct = drop_item-IsDistinct k items z.distinct;
    fits = λ j y h. kept (equal_bytes k j) j y (sym (score-drop_item k j items z.distinct) ∙ h);
    members = λ j.
        chain (ek e key j)
        ∙ rw
            (
              size_key-set_key e.db key kh j,
              gone-ek kh old k j (old_fits old o),
              z.members j,
              score-drop_item k j items z.distinct,
            )
            (value_if (equal_bytes k j) old (score_of_item j items) (same j));
    scores = λ j y h.
        ap is_some (chain (sk e key j y))
        ∙ rw
            (
              size_key-score_key e.db key kh j y h,
              gone-sk kh old k j y (old_fits old o) h,
              score-drop_item k j items z.distinct,
            )
            (score_if (equal_bytes k j) old (score_of_item j items) y (look m s (sk e key j y))
              (same j) (z.scores j y h));
    size = chain (zk e key) ∙ rw (equal_bytes_refl (zk e key));
  }
    where
      old_fits : (old : Option ℤ) → score_of_item k items ≡ old → OptFits old
      old_fits none h = tt
      old_fits (some y) h = z.fits k y h

      same : (j : Bytes) → equal_bytes k j ≡ true → score_of_item j items ≡ old
      same j p = ap (λ i. score_of_item i items) (sym ((equal_bytes_iff k j).0 p)) ∙ o

      kept :
          (b : Bool) (j : Bytes) (y : ℤ)
          → (if b then none else score_of_item j items) ≡ some y
          → IsInt64 y
      kept true j y h = cc
      kept false j y h = z.fits j y h

      value_if :
          (b : Bool) (old now : Option ℤ)
          → (b ≡ true → now ≡ old)
          → (if b && has_score old then none else score_value now)
            ≡ score_value (if b then none else now)
      value_if false old now h = refl
      value_if true none now h = ap score_value (h refl)
      value_if true (some y) now h = refl

      score_if :
          (b : Bool) (old now : Option ℤ) (y : ℤ) (v : Option Bytes)
          → (b ≡ true → now ≡ old)
          → is_some v ≡ is_score now y
          → is_some (if b && is_score old y then none else v) ≡ is_score (if b then none else now) y
      score_if false old now y v h p = p
      score_if true old now y v h p = elim (Bool-cases (is_score old y)) [
        | inl w ↦ rw w
        | inr w ↦ rw w (p ∙ ap (λ u. is_score u y) (h refl) ∙ w)
      ]
