-- ===== src/Server/ZsetParsers.antt =====
-- server/cmd_zset.go: the arguments that stand for ranges of scores, of ranks and of members, and those of
-- ZUNIONSTORE and ZINTERSTORE.
pub mod Options
pub mod Scores
use Prim.Native.Nat.{suc}
use ledisdb.Base.{
  ℕ, zero, ◌-◌, ◌^◌, Bool, true, false, Option, none, some, List, [], ◌∷◌, ◌||◌, length, take, drop,
  ltb, ◌==◌, if◌then◌else◌,
}
use ledisdb.Base.Int.{ℤ, pos, negsuc, ◌+ℤ◌, ◌-ℤ◌, leb_ℤ, ltb_ℤ, pos_part}
use ledisdb.Error.{
  Result, ok, err, err_cmd_params, err_score_range, err_syntax, panic, ◌>>=◌, ◌>>◌, reject_if,
}
use ledisdb.Bytes.{Bytes}
use ledisdb.Store.Iterator.{RangeType, range_close, range_l_open, range_r_open, range_open}
use ledisdb.Ledis.Zset.{min_score, max_score}
use ledisdb.Server.{or_err_value}
use ledisdb.Server.Text.{Text, is_lower_word}

abbrev pub min_int64 : ℤ
min_int64 = negsuc (2 ^ 63 - 1)

abbrev pub max_int64 : ℤ
max_int64 = pos (2 ^ 63 - 1)

module _ (t : Text) where
  -- A score of a range: it lies strictly between `MinScore` and `MaxScore`.
  unfoldable pub range_score : Bytes → Result ℤ
  range_score buf = do
    score ← or_err_value (t.parse_int64 buf)
    reject_if (leb_ℤ score min_score || leb_ℤ max_score score) err_score_range
    ok score

  unfoldable pub lower_score : Bytes → Result ℤ
  unfolding range_score
  lower_score [] = err err_cmd_params
  lower_score (c ∷ buf) =
      if c == b'(' then (do score ← range_score buf; ok (score +ℤ pos 1)) else range_score (c ∷ buf)

  -- The first byte is tested a second time, behind a bracket: Go panics if there is none.
  unfoldable pub second_bracket : Bytes → Result ℤ
  unfolding range_score
  second_bracket [] = err panic
  second_bracket (c ∷ buf) = do
    score ← range_score (if c == b'(' then buf else c ∷ buf)
    ok (score -ℤ pos 1)

  unfoldable pub upper_score : Bytes → Result ℤ
  unfolding range_score second_bracket
  upper_score [] = err err_cmd_params
  upper_score (c ∷ buf) = if c == b'(' then second_bracket buf else range_score (c ∷ buf)

  unfoldable pub zparse_score_range : Bytes → Bytes → Result (ℤ × ℤ)
  unfolding lower_score upper_score
  zparse_score_range min_buf max_buf = do
    min ← (if is_lower_word t "-inf" min_buf then ok min_int64 else lower_score min_buf)
    max ← (if is_lower_word t "+inf" max_buf then ok max_int64 else upper_score max_buf)
    ok (min, max)

  unfoldable pub zparse_range : Bytes → Bytes → Result (ℤ × ℤ)
  zparse_range a1 a2 = do start ← t.atoi a1; stop ← t.atoi a2; ok (start, stop)

  -- `LIMIT offset count`
  unfoldable pub limit_args : Bytes → Bytes → Bytes → Result (ℤ × ℤ)
  limit_args w a b = do
    reject_if (if is_lower_word t "limit" w then false else true) err_syntax
    offset ← or_err_value (t.atoi a)
    count ← or_err_value (t.atoi b)
    ok (offset, count)

  -- One bound of a range of members: whether it is open, and its member.
  unfoldable pub member_bound : Bytes → Result (Bool × Bytes)
  member_bound [] = err err_cmd_params
  member_bound (c ∷ buf) =
      if c == b'('
      then ok (true, buf)
      else if c == b'['
      then ok (false, buf)
      else err err_cmd_params

  abbrev pub range_type : Bool → Bool → RangeType
  range_type false false = range_close
  range_type true false = range_l_open
  range_type false true = range_r_open
  range_type true true = range_open

  abbrev pub bound_or_nil : Bool → Bytes → Result (Bool × Option Bytes)
  bound_or_nil true buf = ok (false, none)
  bound_or_nil false buf = do (o, m) ← member_bound buf; ok (o, some m)

  unfoldable pub zparse_member_range :
      Bytes → Bytes → Result (Option Bytes × Option Bytes × RangeType)
  unfolding member_bound
  zparse_member_range min_buf max_buf = do
    (lopen, min) ← bound_or_nil (is_lower_word t "-" min_buf) min_buf
    (ropen, max) ← bound_or_nil (is_lower_word t "+" max_buf) max_buf
    ok (min, max, range_type lopen ropen)

  unfoldable pub read_weights : List Bytes → Result (List ℤ)
  read_weights [] = ok []
  read_weights (arg ∷ args) =
      let rest = read_weights args in
      elim (or_err_value (t.parse_int64 arg)) [
        | err x ↦ err x
        | ok w ↦ elim rest [ err x ↦ err x | ok ws ↦ ok (w ∷ ws) ]
      ]

  -- `AggregateSum`, `AggregateMin`, `AggregateMax`
  unfoldable pub read_aggregate : Bytes → Result ℕ
  read_aggregate w =
      if is_lower_word t "sum" w
      then ok 0
      else if is_lower_word t "min" w
      then ok 1
      else if is_lower_word t "max" w
      then ok 2
      else err err_syntax

  -- The loop over what follows the keys. Each round takes an argument at least, so the number of the
  -- arguments is fuel enough; `weights` and `aggregate` are `none` as long as their flags are not set.
  unfoldable pub store_options :
      ℕ → ℕ → List Bytes → Option (List ℤ) → Option ℕ → Result (Option (List ℤ) × ℕ)
  unfolding read_weights read_aggregate
  store_options fuel n [] weights none = ok (weights, 0)
  store_options fuel n [] weights (some a) = ok (weights, a)
  store_options zero n (w ∷ args) weights aggregate = err panic
  store_options (suc fuel) n (w ∷ args) weights aggregate =
      let with_weights = λ (ws : List ℤ). store_options fuel n (drop n args) (some ws) aggregate in
      let with_aggregate =
        λ (a : ℕ) (rest : List Bytes). store_options fuel n rest weights (some a) in
      if is_lower_word t "weights" w
      then elim weights [
        | some ws ↦ err err_syntax
        | none ↦
            if ltb (length args) n
            then err err_syntax
            else (read_weights (take n args) >>= with_weights)
      ]
      else if is_lower_word t "aggregate" w
      then elim aggregate [
        | some a ↦ err err_syntax
        | none ↦ elim args [
          | [] ↦ err err_syntax
          | a ∷ rest ↦ (read_aggregate a >>= λ b. with_aggregate b rest)
        ]
      ]
      else err err_syntax

  -- The destination, the sources, the weights and the aggregate. A negative number of keys passes the test
  -- on the length and makes the slice panic.
  unfoldable pub zparse_zsetopt_store :
      List Bytes → Result (Bytes × List Bytes × Option (List ℤ) × ℕ)
  unfolding store_options
  zparse_zsetopt_store (dest_key ∷ arg ∷ args) = do
    n_keys ← or_err_value (t.atoi arg)
    reject_if (ltb_ℤ (pos (length args)) n_keys) err_syntax
    reject_if (ltb_ℤ n_keys (pos 0)) panic
    let n = pos_part n_keys
    (weights, aggregate) ← store_options (length args) n (drop n args) none none
    ok (dest_key, take n args, weights, aggregate)
  zparse_zsetopt_store args = err panic
