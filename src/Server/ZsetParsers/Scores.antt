-- ===== src/Server/ZsetParsers/Scores.antt =====
-- `zparseScoreRange` (server/cmd_zset.go): which arguments it accepts, and when Go panics.
use ledisdb.Base.{
  ◌≡◌, ◌≢◌, refl, ◌↔◌, ◌⊎◌, inl, inr, false, ◌||◌, [], ◌∷◌, arith, Bool-cases, if◌then◌else◌,
}
use ledisdb.Base.Int.{ℤ, leb_ℤ, ◌<ℤ◌}
use ledisdb.Error.{Result, ok, err, err_value, err_score_range, panic, ◌>>=◌, ◌>>◌, reject_if}
use ledisdb.Bytes.{Bytes}
use ledisdb.Ledis.Zset.{min_score, max_score}
use ledisdb.Server.{or_err_value}
use ledisdb.Server.Text.{Text, is_lower_word}
use ledisdb.Server.ZsetParsers.{
  min_int64, max_int64, range_score, lower_score, second_bracket, upper_score, zparse_score_range,
}

module _ (t : Text) where
  -- Inside the scores that a member can have
  abbrev IsInside : ℤ → Type 0
  IsInside n = (min_score <ℤ n) × (n <ℤ max_score)

  range_score-cases :
      (buf : Bytes)
      → (range_score t buf ≡ err err_value)
        ⊎ ((range_score t buf ≡ err err_score_range)
            ⊎ ((n : ℤ) × (range_score t buf ≡ ok n) × IsInside n))
  unfolding range_score
  range_score-cases buf = cases (t.parse_int64 buf)
    where
      cases :
          (r : Result ℤ)
          → let s = or_err_value r >>= λ n.
              reject_if (leb_ℤ n min_score || leb_ℤ max_score n) err_score_range >> ok n in
            (s ≡ err err_value) ⊎ ((s ≡ err err_score_range) ⊎ ((n : ℤ) × (s ≡ ok n) × IsInside n))
      cases (err x) = inl refl
      cases (ok n) = elim (Bool-cases (leb_ℤ n min_score || leb_ℤ max_score n)) [
        | inl e ↦ inr (inl (rw e refl))
        | inr e ↦ inr (inr (n, rw e refl, ground (arith, e)))
      ]

  -- A lower bound is what is accepted of it: a score, or the one above it behind a bracket.
  lower_score-calm : (buf : Bytes) → lower_score t buf ≢ err panic
  unfolding lower_score
  lower_score-calm [] e = ground (arith, e)
  lower_score-calm (c ∷ buf) e =
      ground (arith, e, range_score-cases buf, range_score-cases (c ∷ buf))

  upper_score_panic : (buf : Bytes) → (upper_score t buf ≡ err panic) ↔ (buf ≡ b'(' ∷ [])
  unfolding upper_score second_bracket
  upper_score_panic [] = ground arith
  upper_score_panic (c ∷ []) = ground (arith, range_score-cases (c ∷ []))
  upper_score_panic (c ∷ e ∷ buf) =
      ground
        (arith, range_score-cases (c ∷ e ∷ buf), range_score-cases buf, range_score-cases (e ∷ buf))

  abbrev pub lower_bound : Bytes → Result ℤ
  lower_bound buf = if is_lower_word t "-inf" buf then ok min_int64 else lower_score t buf

  abbrev pub upper_bound : Bytes → Result ℤ
  upper_bound buf = if is_lower_word t "+inf" buf then ok max_int64 else upper_score t buf

  lower_bound-calm : (buf : Bytes) → lower_bound buf ≢ err panic
  lower_bound-calm buf e = ground (arith, e, lower_score-calm buf)

  upper_bound_panic :
      (buf : Bytes)
      → (upper_bound buf ≡ err panic) ↔ ((buf ≡ b'(' ∷ []) × (is_lower_word t "+inf" buf ≡ false))
  upper_bound_panic buf = elim (Bool-cases (is_lower_word t "+inf" buf)) [
    | inl e ↦ rw e (ground arith)
    | inr e ↦
        rw e ((λ p. ((upper_score_panic buf).0 p, refl), λ h. (upper_score_panic buf).1 (h.0)))
  ]

  abbrev both_bounds : Result ℤ → Result ℤ → Result (ℤ × ℤ)
  both_bounds low high = do min ← low; max ← high; ok (min, max)

  both_panic :
      (low high : Result ℤ)
      → low ≢ err panic
      → (both_bounds low high ≡ err panic) ↔ (((n : ℤ) × (low ≡ ok n)) × (high ≡ err panic))
  both_panic (err x) high calm =
      (λ e. absurd (calm (ground (arith, e))), λ h. ground (arith, h.0.1))
  both_panic (ok n) (err x) calm = (λ e. ((n, refl), ground (arith, e)), λ h. ground (arith, h.1))
  both_panic (ok n) (ok k) calm = (λ e. ground (arith, e), λ h. ground (arith, h.1))

  -- A range of scores makes Go panic exactly if its lower bound is accepted and its upper bound is an opening
  -- bracket alone, which is not the word for no bound.
  pub zparse_score_range_panic :
      (min_buf max_buf : Bytes)
      → (zparse_score_range t min_buf max_buf ≡ err panic) ↔ (
          ((n : ℤ) × (lower_bound min_buf ≡ ok n))
          × ((max_buf ≡ b'(' ∷ []) × (is_lower_word t "+inf" max_buf ≡ false)))
  unfolding zparse_score_range
  zparse_score_range_panic min_buf max_buf =
      let both =
        both_panic (lower_bound min_buf) (upper_bound max_buf) (lower_bound-calm min_buf) in
      let upper = upper_bound_panic max_buf in
      (λ e. let h = both.0 e in (h.0, upper.0 h.1), λ h. both.1 (h.0, upper.1 h.1))
