-- ===== src/Server/ZsetRanges.antt =====
-- server/cmd_zset.go: the commands on ranges of a sorted set, and those that join sorted sets.
use ledisdb.Base.{Bool, true, false, List, [], ◌∷◌, if◌then◌else◌}
use ledisdb.Base.Int.{ℤ, pos, negsuc, ltb_ℤ}
use ledisdb.Error.{Result, ok, err, err_cmd_params, err_value, err_syntax, panic}
use ledisdb.Bytes.{Bytes}
use ledisdb.Store.{Driver}
use ledisdb.Ledis.{Env, M, pure, raise, lift, ◌>>=◌}
use ledisdb.Ledis.Zset.Ranges.{
  z_count, z_range, z_rem_range_by_rank, z_rem_range_by_score, z_range_generic, z_range_by_lex,
  z_rem_range_by_lex, z_lex_count,
}
use ledisdb.Ledis.Zset.Stores.{z_union_store, z_inter_store}
use ledisdb.Server.{
  Reply, integer, score_pair_array, empty_array, write_integer, write_slice_array, or_err_value,
}
use ledisdb.Server.Text.{Text, is_lower_word}
use ledisdb.Server.ZsetParsers.{
  zparse_score_range, zparse_range, limit_args, zparse_member_range, zparse_zsetopt_store,
}

module _ {S I : Type 0} (d : Driver S I) (e : Env) (t : Text) where
  abbrev count_between : Bytes → ℤ × ℤ → M S Reply
  count_between key (min, max) =
      if ltb_ℤ max min then pure (integer (pos 0)) else write_integer (z_count d e key min max)

  abbrev range_or_err_value : Result (ℤ × ℤ) → Result (ℤ × ℤ)
  range_or_err_value (ok range) = ok range
  range_or_err_value (err panic) = err panic
  range_or_err_value (err x) = err err_value

  -- Any error of the range is `ErrValue` here.
  unfoldable pub zcount_command : List Bytes → M S Reply
  unfolding zparse_score_range
  zcount_command (key ∷ a ∷ b ∷ []) = (do
    range ← lift (range_or_err_value (zparse_score_range t a b))
    count_between key range)
  zcount_command args = raise err_cmd_params

  unfoldable pub zremrangebyrank_command : List Bytes → M S Reply
  zremrangebyrank_command (key ∷ a ∷ b ∷ []) = (do
    (start, stop) ← lift (or_err_value (zparse_range t a b))
    write_integer (z_rem_range_by_rank d e key start stop))
  zremrangebyrank_command args = raise err_cmd_params

  unfoldable pub zremrangebyscore_command : List Bytes → M S Reply
  zremrangebyscore_command (key ∷ a ∷ b ∷ []) = (do
    (min, max) ← lift (zparse_score_range t a b)
    write_integer (z_rem_range_by_score d e key min max))
  zremrangebyscore_command args = raise err_cmd_params

  abbrev write_pairs : Bool → M S (List (ℤ × Bytes)) → M S Reply
  write_pairs with_scores m = do pairs ← m; pure (score_pair_array pairs with_scores)

  -- Nothing, or the word `withscores`
  unfoldable pub with_scores_args : List Bytes → Result Bool
  with_scores_args [] = ok false
  with_scores_args (w ∷ []) = if is_lower_word t "withscores" w then ok true else err err_syntax
  with_scores_args args = err err_cmd_params

  unfoldable pub zrange_generic : Bool → List Bytes → M S Reply
  unfolding with_scores_args
  zrange_generic reverse (key ∷ a ∷ b ∷ args) = (do
    (start, stop) ← lift (or_err_value (zparse_range t a b))
    with_scores ← lift (with_scores_args args)
    write_pairs with_scores (z_range_generic d e key start stop reverse))
  zrange_generic reverse args = raise err_cmd_params

  unfoldable pub zrange_command : List Bytes → M S Reply
  unfolding zrange_generic
  zrange_command = zrange_generic false

  unfoldable pub zrevrange_command : List Bytes → M S Reply
  unfolding zrange_generic
  zrevrange_command = zrange_generic true

  unfoldable pub take_with_scores : List Bytes → Bool × List Bytes
  take_with_scores [] = (false, [])
  take_with_scores (w ∷ args) =
      if is_lower_word t "withscores" w then (true, args) else (false, w ∷ args)

  unfoldable pub optional_limit : List Bytes → Result (ℤ × ℤ)
  optional_limit [] = ok (pos 0, negsuc 0)
  optional_limit (w ∷ a ∷ b ∷ []) = limit_args t w a b
  optional_limit args = err err_cmd_params

  unfoldable pub zrangebyscore_generic : Bool → List Bytes → M S Reply
  unfolding take_with_scores optional_limit
  zrangebyscore_generic reverse (key ∷ a ∷ b ∷ args) = (do
    (min, max) ← lift (if reverse then zparse_score_range t b a else zparse_score_range t a b)
    let (with_scores, rest) = take_with_scores args
    (offset, count) ← lift (optional_limit rest)
    if ltb_ℤ offset (pos 0)
        then pure empty_array
        else write_pairs with_scores (z_range d e key min max offset count reverse))
  zrangebyscore_generic reverse args = raise err_cmd_params

  unfoldable pub zrangebyscore_command : List Bytes → M S Reply
  unfolding zrangebyscore_generic
  zrangebyscore_command = zrangebyscore_generic false

  unfoldable pub zrevrangebyscore_command : List Bytes → M S Reply
  unfolding zrangebyscore_generic
  zrevrangebyscore_command = zrangebyscore_generic true

  unfoldable pub zunionstore_command : List Bytes → M S Reply
  zunionstore_command (a ∷ b ∷ args) = (do
    (dest_key, keys, weights, aggregate) ← lift (zparse_zsetopt_store t (a ∷ b ∷ args))
    write_integer (z_union_store d e dest_key keys weights aggregate))
  zunionstore_command args = raise err_cmd_params

  unfoldable pub zinterstore_command : List Bytes → M S Reply
  zinterstore_command (a ∷ b ∷ args) = (do
    (dest_key, keys, weights, aggregate) ← lift (zparse_zsetopt_store t (a ∷ b ∷ args))
    write_integer (z_inter_store d e dest_key keys weights aggregate))
  zinterstore_command args = raise err_cmd_params

  unfoldable pub zrangebylex_command : List Bytes → M S Reply
  zrangebylex_command (key ∷ a ∷ b ∷ []) = (do
    (min, max, type) ← lift (zparse_member_range t a b)
    write_slice_array (z_range_by_lex d e key min max type (pos 0) (negsuc 0)))
  zrangebylex_command (key ∷ a ∷ b ∷ w ∷ o ∷ c ∷ []) = (do
    (min, max, type) ← lift (zparse_member_range t a b)
    (offset, count) ← lift (limit_args t w o c)
    write_slice_array (z_range_by_lex d e key min max type offset count))
  zrangebylex_command args = raise err_cmd_params

  unfoldable pub zremrangebylex_command : List Bytes → M S Reply
  zremrangebylex_command (key ∷ a ∷ b ∷ []) = (do
    (min, max, type) ← lift (zparse_member_range t a b)
    write_integer (z_rem_range_by_lex d e key min max type))
  zremrangebylex_command args = raise err_cmd_params

  unfoldable pub zlexcount_command : List Bytes → M S Reply
  zlexcount_command (key ∷ a ∷ b ∷ []) = (do
    (min, max, type) ← lift (zparse_member_range t a b)
    write_integer (z_lex_count d e key min max type))
  zlexcount_command args = raise err_cmd_params
