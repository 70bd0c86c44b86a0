-- ===== src/Server/ZsetParsers/Options.antt =====
-- The loop of `zparseZsetoptStore` (server/cmd_zset.go) over the options of ZUNIONSTORE and ZINTERSTORE.
use ledisdb.Base.{
  ℕ, zero, suc, ◌≤◌, ◌≡◌, ◌≢◌, refl, ◌↔◌, inl, inr, true, false, Option, none, some, List, [], ◌∷◌,
  length, take, drop, length-drop, arith, Bool-cases, ltb, if◌then◌else◌,
}
use ledisdb.Base.Int.{ℤ, pos, negsuc, ltb_ℤ, pos_part}
use ledisdb.Error.{Result, ok, err, err_syntax, panic, ◌>>=◌, ◌>>◌, reject_if}
use ledisdb.Bytes.{Bytes}
use ledisdb.Server.{or_err_value}
use ledisdb.Server.Text.{Text, is_lower_word}
use ledisdb.Server.ZsetParsers.{read_weights, read_aggregate, store_options, zparse_zsetopt_store}

-- Neither a panic of Go nor the end of the fuel
abbrev IsCalm : {A : Type 0} → Result A → Type 0
IsCalm r = r ≢ err panic

or_err_value-IsCalm : {A : Type 0} (r : Result A) → IsCalm (or_err_value r)
or_err_value-IsCalm (ok a) e = ground (arith, e)
or_err_value-IsCalm (err x) e = ground (arith, e)

bind-IsCalm :
    {A B : Type 0} (r : Result A) (k : A → Result B)
    → IsCalm r
    → ((a : A) → IsCalm (k a))
    → IsCalm (r >>= k)
bind-IsCalm (ok a) k h calm e = calm a e
bind-IsCalm (err x) k h calm e = h (ground (arith, e))

module _ (t : Text) where
  read_weights-IsCalm : (args : List Bytes) → IsCalm (read_weights t args)
  unfolding read_weights
  read_weights-IsCalm [] e = ground (arith, e)
  read_weights-IsCalm (arg ∷ args) e =
      ground (arith, e, or_err_value-IsCalm (t.parse_int64 arg), read_weights-IsCalm args)

  read_aggregate-IsCalm : (w : Bytes) → IsCalm (read_aggregate t w)
  unfolding read_aggregate
  read_aggregate-IsCalm w e = ground (arith, e)

  weights_IsCalm :
      (fuel n : ℕ) (args : List Bytes) (ws : Option (List ℤ)) (ag : Option ℕ)
      → ((a : List ℤ) → IsCalm (store_options t fuel n (drop n args) (some a) ag))
      → IsCalm (elim ws [
        | some a ↦ err err_syntax
        | none ↦
            if ltb (length args) n
            then err err_syntax
            else (read_weights t (take n args) >>= λ a.
                store_options t fuel n (drop n args) (some a) ag)
      ])
  weights_IsCalm fuel n args (some a) ag calm = λ e. ground (arith, e)
  weights_IsCalm fuel n args none ag calm = elim (Bool-cases (ltb (length args) n)) [
    | inl short ↦ rw short (λ e. ground (arith, e))
    | inr long ↦
        rw long
          (bind-IsCalm (read_weights t (take n args)) _ (read_weights-IsCalm (take n args)) calm)
  ]

  aggregate_IsCalm :
      (fuel n : ℕ) (args : List Bytes) (ws : Option (List ℤ)) (ag : Option ℕ)
      → ((b : ℕ) (rest : List Bytes)
          → length rest ≤ length args
          → IsCalm (store_options t fuel n rest ws (some b)))
      → IsCalm (elim ag [
        | some a ↦ err err_syntax
        | none ↦ elim args [
          | [] ↦ err err_syntax
          | a ∷ rest ↦ (read_aggregate t a >>= λ b. store_options t fuel n rest ws (some b))
        ]
      ])
  aggregate_IsCalm fuel n args ws (some a) calm = λ e. ground (arith, e)
  aggregate_IsCalm fuel n [] ws none calm = λ e. ground (arith, e)
  aggregate_IsCalm fuel n (a ∷ rest) ws none calm =
      bind-IsCalm (read_aggregate t a) _ (read_aggregate-IsCalm a) (λ b. calm b rest (omega arith))

  store_options-IsCalm :
      (fuel n : ℕ) (args : List Bytes) (ws : Option (List ℤ)) (ag : Option ℕ)
      → length args ≤ fuel
      → IsCalm (store_options t fuel n args ws ag)
  unfolding store_options
  store_options-IsCalm fuel n [] ws none h = λ e. ground (arith, e)
  store_options-IsCalm fuel n [] ws (some a) h = λ e. ground (arith, e)
  store_options-IsCalm zero n (w ∷ args) ws ag h = absurd (omega (arith, h))
  store_options-IsCalm (suc fuel) n (w ∷ args) ws ag h =
      let after_weights = λ (a : List ℤ).
        store_options-IsCalm fuel n (drop n args) (some a) ag
          (omega (arith, length-drop n args, h)) in
      let after_aggregate = λ (b : ℕ) (rest : List Bytes) (k : length rest ≤ length args).
        store_options-IsCalm fuel n rest ws (some b) (omega (arith, h, k)) in
      elim (Bool-cases (is_lower_word t "weights" w)) [
        | inl e ↦ rw e (weights_IsCalm fuel n args ws ag after_weights)
        | inr e ↦ rw e (elim (Bool-cases (is_lower_word t "aggregate" w)) [
          | inl f ↦ rw f (aggregate_IsCalm fuel n args ws ag after_aggregate)
          | inr f ↦ rw f (λ g. ground (arith, g))
        ])
      ]

  abbrev counted : Bytes → List Bytes → ℤ → Result (Bytes × List Bytes × Option (List ℤ) × ℕ)
  counted dest_key args n_keys = do
    reject_if (ltb_ℤ (pos (length args)) n_keys) err_syntax
    reject_if (ltb_ℤ n_keys (pos 0)) panic
    let n = pos_part n_keys
    (weights, aggregate) ← store_options t (length args) n (drop n args) none none
    ok (dest_key, take n args, weights, aggregate)

  ltb_ℤ-zero : (n : ℕ) → ltb_ℤ (pos n) (pos 0) ≡ false
  ltb_ℤ-zero n = ground arith

  counted-IsCalm :
      (dest_key : Bytes) (args : List Bytes) (n : ℕ) → IsCalm (counted dest_key args (pos n))
  counted-IsCalm dest_key args n = elim (Bool-cases (ltb_ℤ (pos (length args)) (pos n))) [
    | inl short ↦ rw short (λ e. ground (arith, e))
    | inr long ↦
        rw (long, ltb_ℤ-zero n)
          (bind-IsCalm (store_options t (length args) n (drop n args) none none)
            (λ x. ok (dest_key, take n args, x.0, x.1))
            (store_options-IsCalm (length args) n (drop n args) none none
              (omega (arith, length-drop n args)))
            (λ x e. ground (arith, e)))
  ]

  counted_negative :
      (dest_key : Bytes) (args : List Bytes) (n : ℕ) → counted dest_key args (negsuc n) ≡ err panic
  counted_negative dest_key args n = ground arith

  panics_negative :
      (dest_key : Bytes) (args : List Bytes) (r : Result ℤ)
      → ((or_err_value r >>= counted dest_key args) ≡ err panic)
        ↔ ((n : ℤ) × (r ≡ ok n) × (ltb_ℤ n (pos 0) ≡ true))
  panics_negative dest_key args (err x) = (λ e. ground (arith, e), λ h. ground (arith, h.1))
  panics_negative dest_key args (ok (pos n)) =
      (λ e. absurd (counted-IsCalm dest_key args n e), λ h. ground (arith, h.1, h.2))
  panics_negative dest_key args (ok (negsuc n)) =
      (λ e. (negsuc n, refl, ground arith), λ h. counted_negative dest_key args n)

  -- The loop over the options of ZUNIONSTORE and ZINTERSTORE comes to its end within as many rounds as there are
  -- arguments: whatever follows the destination and the number of the keys, they are read, or refused with an
  -- error. Go's panic for a slice out of range is what is left, exactly if the number of the keys is negative.
  pub zparse_zsetopt_store_panic :
      (dest_key arg : Bytes) (args : List Bytes)
      → (zparse_zsetopt_store t (dest_key ∷ arg ∷ args) ≡ err panic)
        ↔ ((n : ℤ) × (t.atoi arg ≡ ok n) × (ltb_ℤ n (pos 0) ≡ true))
  unfolding zparse_zsetopt_store
  zparse_zsetopt_store_panic dest_key arg args = panics_negative dest_key args (t.atoi arg)
