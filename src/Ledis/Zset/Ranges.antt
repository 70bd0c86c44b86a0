-- ===== src/Ledis/Zset/Ranges.antt =====
-- ledis/t_zset.go: the operations that scan a sorted set by score, by rank or by member.
use ledisdb.Base.{
  Bool, true, false, not, ◌&&◌, ◌||◌, Option, none, some, List, [], ◌∷◌, ◌++◌, length, ltb,
  if◌then◌else◌,
}
use ledisdb.Base.Int.{ℤ, pos, negsuc, ◌+ℤ◌, ◌-ℤ◌, leb_ℤ, ltb_ℤ, eqb_ℤ, wrap64}
use ledisdb.Error.{Result, ok, err, err_key_size, reject_if}
use ledisdb.Bytes.{Bytes, equal_bytes}
use ledisdb.Key.{max_key_size, check_key_size, check_z_set_km_size}
use ledisdb.Key.Member.{
  z_encode_set_key, z_encode_start_set_key, z_encode_stop_set_key, z_decode_set_key,
}
use ledisdb.Key.Sorted.{
  z_encode_score_key, z_encode_start_score_key, z_encode_stop_score_key, z_decode_score_key,
}
use ledisdb.Store.{Driver}
use ledisdb.Store.Iterator.{
  find, range_close, RangeType, new_range_iterator, new_rev_range_iterator, range_rows, forward,
  backward, no_limit,
}
use ledisdb.Ledis.{Env, State, M, pure, lift, delete, locked, commit, ◌>>=◌, ◌>>◌}
use ledisdb.Ledis.Sized.{rows_of, rows_between, delete_rows}
use ledisdb.Ledis.Value.{int64}
use ledisdb.Ledis.Zset.{min_score, max_score, z_incr_size, z_del_item, z_card}

-- The part of `zParseLimit` behind the call of `ZCard`, whose result stands in for `llen`; without
-- a negative index it is not called.
unfoldable pub limit_from : ℤ → ℤ → ℤ → ℤ × ℤ
limit_from llen start stop =
    let negative = ltb_ℤ start (pos 0) || ltb_ℤ stop (pos 0) in
    let start1 = if ltb_ℤ start (pos 0) then wrap64 (llen +ℤ start) else start in
    let stop1 = if ltb_ℤ stop (pos 0) then wrap64 (llen +ℤ stop) else stop in
    let start2 = if ltb_ℤ start1 (pos 0) then pos 0 else start1 in
    if (negative && leb_ℤ llen start2) || ltb_ℤ stop1 start2
    then (negsuc 0, pos 0)
    else (start2, wrap64 (wrap64 (stop1 -ℤ start2) +ℤ pos 1))

module _ {S I : Type 0} (d : Driver S I) (e : Env) where
  unfoldable pub z_count : Bytes → ℤ → ℤ → M S ℤ
  unfolding rows_between
  z_count key min max = do
    lift (check_key_size key)
    (λ s.
        let rows =
          rows_between d e (z_encode_start_score_key e.db key min)
            (z_encode_stop_score_key e.db key max) s in
        (ok (pos (length rows)), s))

  abbrev last_key : List (Bytes × Bytes) → Bytes
  last_key [] = []
  last_key ((k, v) ∷ []) = k
  last_key (row ∷ r ∷ rows) = last_key (r ∷ rows)

  -- The rows up to the member's own score record, in one direction; their count is one more than the
  -- rank if the last of them is that of the member.
  unfoldable pub rank_rows : I → Bytes → Bytes → ℤ → Bool → List (Bytes × Bytes)
  rank_rows it key member s reverse =
      let sk = z_encode_score_key e.db key member s in
      range_rows d e.fuel (
        if reverse
        then new_rev_range_iterator d it (record {
          min = some sk;
          max = some (z_encode_stop_score_key e.db key max_score);
          type = range_close;
        })
        else new_range_iterator d it (record {
          min = some (z_encode_start_score_key e.db key min_score);
          max = some sk;
          type = range_close;
        }))

  unfoldable pub rank_of : List (Bytes × Bytes) → Bytes → ℤ
  rank_of rows member = elim (z_decode_score_key e.db (last_key rows)) [
    | err x ↦ negsuc 0
    | ok (key, m, s) ↦ if equal_bytes m member then pos (length rows) -ℤ pos 1 else negsuc 0
  ]

  unfoldable pub z_rank_found : I → Bytes → Bytes → Bool → Option Bytes → Result ℤ
  unfolding rank_of rank_rows
  z_rank_found it key member reverse none = ok (negsuc 0)
  z_rank_found it key member reverse (some v) = elim (int64 (ok (some v))) [
    | err x ↦ err x
    | ok s ↦ ok (rank_of (rank_rows it key member s reverse) member)
  ]

  -- `zrank`
  unfoldable pub z_rank : Bytes → Bytes → Bool → M S ℤ
  unfolding z_rank_found
  z_rank key member reverse = do
    lift (check_z_set_km_size key member)
    (λ s.
        let (it, v) = find d (d.new_iterator s.store) (z_encode_set_key e.db key member) in
        (z_rank_found it key member reverse v, s))

  unfoldable pub z_iterator : Bytes → ℤ → ℤ → ℤ → ℤ → Bool → State S → List (Bytes × Bytes)
  unfolding rows_of
  z_iterator key min max offset count reverse =
      rows_of d e (z_encode_start_score_key e.db key min) (z_encode_stop_score_key e.db key max)
        range_close (record { offset = offset; count = count })
        (if reverse then backward else forward)

  -- A row that is no score record is passed over.
  unfoldable pub rem_rows : Bytes → ℤ → List (Bytes × Bytes) → M S ℤ
  rem_rows key num [] = pure num
  rem_rows key num ((sk, v) ∷ rows) = elim (z_decode_score_key e.db sk) [
    | err x ↦ rem_rows key num rows
    | ok (k, m, s) ↦ (do
      n ← z_del_item d e key m true
      delete sk
      rem_rows key (if eqb_ℤ n (pos 1) then num +ℤ pos 1 else num) rows)
  ]

  unfoldable pub z_rem_range : Bytes → ℤ → ℤ → ℤ → ℤ → M S ℤ
  unfolding z_iterator rem_rows
  z_rem_range key min max offset count = do
    lift (reject_if (ltb max_key_size (length key)) err_key_size)
    num ← (λ s. rem_rows key (pos 0) (z_iterator key min max offset count false s) s)
    _ ← z_incr_size d e key (pos 0 -ℤ num)
    pure num

  unfoldable pub score_pairs : List (Bytes × Bytes) → List (ℤ × Bytes)
  score_pairs [] = []
  score_pairs ((k, v) ∷ rows) =
      let rest = score_pairs rows in
      elim (z_decode_score_key e.db k) [ err x ↦ rest | ok (key, m, s) ↦ (s, m) ∷ rest ]

  abbrev reversed : List (ℤ × Bytes) → List (ℤ × Bytes)
  reversed [] = []
  reversed (p ∷ ps) = reversed ps ++ p ∷ []

  -- Without an offset and a count, a reverse range is a forward one that is turned round.
  unfoldable pub z_range_rows : Bytes → ℤ → ℤ → ℤ → ℤ → Bool → State S → List (ℤ × Bytes)
  unfolding score_pairs z_iterator
  z_range_rows key min max offset count reverse s =
      let whole = eqb_ℤ offset (pos 0) && ltb_ℤ count (pos 0) in
      let pairs = score_pairs (z_iterator key min max offset count (reverse && not whole) s) in
      if reverse && whole then reversed pairs else pairs

  -- `zRange` and `ZRangeByScoreGeneric`
  unfoldable pub z_range : Bytes → ℤ → ℤ → ℤ → ℤ → Bool → M S (List (ℤ × Bytes))
  unfolding z_range_rows
  z_range key min max offset count reverse = do
    lift (reject_if (ltb max_key_size (length key)) err_key_size)
    (λ s. (
      ok (if ltb_ℤ offset (pos 0) then [] else z_range_rows key min max offset count reverse s),
      s,
    ))

  unfoldable pub z_parse_limit : Bytes → ℤ → ℤ → M S (ℤ × ℤ)
  unfolding limit_from
  z_parse_limit key start stop =
      if ltb_ℤ start (pos 0) || ltb_ℤ stop (pos 0)
      then (do size ← z_card d e key; pure (limit_from size start stop))
      else pure (limit_from (pos 0) start stop)

  unfoldable pub z_clear : Bytes → M S ℤ
  unfolding z_rem_range
  z_clear key =
      locked (do n ← z_rem_range key min_score max_score (pos 0) (negsuc 0); commit d e.now; pure n)

  unfoldable pub z_clear_keys : List Bytes → M S (Unit {0})
  unfolding z_rem_range
  z_clear_keys [] = pure tt
  z_clear_keys (key ∷ keys) = do
    _ ← z_rem_range key min_score max_score (pos 0) (negsuc 0)
    z_clear_keys keys

  unfoldable pub z_m_clear : List Bytes → M S ℤ
  unfolding z_clear_keys
  z_m_clear keys = locked (do z_clear_keys keys; commit d e.now; pure (pos (length keys)))

  unfoldable pub z_rem_range_by_rank : Bytes → ℤ → ℤ → M S ℤ
  unfolding z_parse_limit z_rem_range
  z_rem_range_by_rank key start stop = do
    (offset, count) ← z_parse_limit key start stop
    locked (do n ← z_rem_range key min_score max_score offset count; commit d e.now; pure n)

  unfoldable pub z_rem_range_by_score : Bytes → ℤ → ℤ → M S ℤ
  unfolding z_rem_range
  z_rem_range_by_score key min max =
      locked (do n ← z_rem_range key min max (pos 0) (negsuc 0); commit d e.now; pure n)

  -- `ZRangeGeneric`, and with it `ZRange` and `ZRevRange`
  unfoldable pub z_range_generic : Bytes → ℤ → ℤ → Bool → M S (List (ℤ × Bytes))
  unfolding z_parse_limit z_range
  z_range_generic key start stop reverse = do
    (offset, count) ← z_parse_limit key start stop
    z_range key min_score max_score offset count reverse

  -- A bound that is nil is that of all members.
  abbrev lex_min : Bytes → Option Bytes → Bytes
  lex_min key none = z_encode_start_set_key e.db key
  lex_min key (some min) = z_encode_set_key e.db key min

  abbrev lex_max : Bytes → Option Bytes → Bytes
  lex_max key none = z_encode_stop_set_key e.db key
  lex_max key (some max) = z_encode_set_key e.db key max

  unfoldable pub lex_members : List (Bytes × Bytes) → List Bytes
  lex_members [] = []
  lex_members ((k, v) ∷ rows) =
      let rest = lex_members rows in
      elim (z_decode_set_key e.db k) [ err x ↦ rest | ok (key, m) ↦ m ∷ rest ]

  unfoldable pub z_range_by_lex :
      Bytes → Option Bytes → Option Bytes → RangeType → ℤ → ℤ → M S (List Bytes)
  unfolding rows_of lex_members
  z_range_by_lex key min max type offset count s = (
    ok (
        lex_members (
          rows_of d e (lex_min key min) (lex_max key max) type
            (record { offset = offset; count = count }) forward s)),
    s,
  )

  -- Only the members' own records are deleted.
  unfoldable pub z_rem_range_by_lex : Bytes → Option Bytes → Option Bytes → RangeType → M S ℤ
  unfolding rows_of
  z_rem_range_by_lex key min max type = locked (λ s.
      (do
        n ←
            delete_rows 0
              (rows_of d e (lex_min key min) (lex_max key max) type (no_limit d) forward s)
        commit d e.now
        pure (pos n))
        s)

  unfoldable pub z_lex_count : Bytes → Option Bytes → Option Bytes → RangeType → M S ℤ
  unfolding rows_of
  z_lex_count key min max type s = (
    ok (pos (length (rows_of d e (lex_min key min) (lex_max key max) type (no_limit d) forward s))),
    s,
  )
