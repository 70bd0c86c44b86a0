-- ===== src/Server/ListCommands.antt =====
-- server/cmd_list.go: the commands on lists that do not wait for an element.
use ledisdb.Base.{none, some, List, [], ◌∷◌, if◌then◌else◌}
use ledisdb.Base.Int.{ℤ, pos, negsuc, wrap32, eqb_ℤ, ltb_ℤ}
use ledisdb.Error.{ok, err, err_cmd_params, err_value}
use ledisdb.Bytes.{Bytes, equal_bytes}
use ledisdb.Store.{Driver}
use ledisdb.Ledis.{Env, M, pure, raise, lift, ◌>>=◌}
use ledisdb.Ledis.Lists.{head, tail, Where, l_push, l_pop, l_len, l_index, l_key_exists}
use ledisdb.Ledis.Lists.Trims.{
  l_trim, l_trim_side, l_range, l_clear, l_m_clear, l_expire, l_expire_at_time, l_ttl, l_persist,
}
use ledisdb.Server.{
  Reply, bulk, write_bulk, write_ok, write_integer, write_slice_array, or_err_value,
}
use ledisdb.Server.Text.{Text}

module _ {S I : Type 0} (d : Driver S I) (e : Env) where
  abbrev push_command : Where → List Bytes → M S Reply
  push_command side (key ∷ arg ∷ args) = write_integer (l_push d e key side (arg ∷ args))
  push_command side args = raise err_cmd_params

  unfoldable pub lpush_command : List Bytes → M S Reply
  lpush_command = push_command head

  unfoldable pub rpush_command : List Bytes → M S Reply
  rpush_command = push_command tail

  abbrev pop_command : Where → List Bytes → M S Reply
  pop_command side (key ∷ []) = write_bulk (l_pop d e key side)
  pop_command side args = raise err_cmd_params

  unfoldable pub lpop_command : List Bytes → M S Reply
  lpop_command = pop_command head

  unfoldable pub rpop_command : List Bytes → M S Reply
  rpop_command = pop_command tail

  unfoldable pub llen_command : List Bytes → M S Reply
  llen_command (key ∷ []) = write_integer (l_len d e key)
  llen_command args = raise err_cmd_params

  unfoldable pub lclear_command : List Bytes → M S Reply
  lclear_command (key ∷ []) = write_integer (l_clear d e key)
  lclear_command args = raise err_cmd_params

  unfoldable pub lmclear_command : List Bytes → M S Reply
  lmclear_command (key ∷ keys) = write_integer (l_m_clear d e (key ∷ keys))
  lmclear_command args = raise err_cmd_params

  unfoldable pub lttl_command : List Bytes → M S Reply
  lttl_command (key ∷ []) = write_integer (l_ttl d e key)
  lttl_command args = raise err_cmd_params

  unfoldable pub lpersist_command : List Bytes → M S Reply
  lpersist_command (key ∷ []) = write_integer (l_persist d e key)
  lpersist_command args = raise err_cmd_params

  unfoldable pub lkeyexists_command : List Bytes → M S Reply
  lkeyexists_command (key ∷ []) = write_integer (l_key_exists d e key)
  lkeyexists_command args = raise err_cmd_params

  -- What is left of a move when the popped value is at hand. A failed push is undone by a push back, and
  -- neither the result of that nor that of the new expiry is looked at.
  unfoldable pub push_popped : Bytes → Bytes → ℤ → Bytes → M S Reply
  push_popped source dest ttl value s =
      let (r, s1) = l_push d e dest head (value ∷ []) s in
      elim r [
        | err x ↦ (err x, (l_push d e source tail (value ∷ []) s1).1)
        | ok n ↦ (
          ok (bulk (some value)),
          if eqb_ℤ ttl (negsuc 0) then s1 else (l_expire d e source ttl s1).1,
        )
      ]

  unfoldable pub rpoplpush_command : List Bytes → M S Reply
  unfolding push_popped
  rpoplpush_command (source ∷ dest ∷ []) = (do
    ttl ← (if equal_bytes source dest then l_ttl d e source else pure (negsuc 0))
    v ← l_pop d e source tail
    elim v [ none ↦ pure (bulk none) | some value ↦ push_popped source dest ttl value ])
  rpoplpush_command args = raise err_cmd_params

module _ {S I : Type 0} (d : Driver S I) (e : Env) (t : Text) where
  -- The numbers of 64 bits are cut to 32.
  unfoldable pub lindex_command : List Bytes → M S Reply
  lindex_command (key ∷ arg ∷ []) = (do
    index ← lift (or_err_value (t.parse_int64 arg))
    write_bulk (l_index d e key (wrap32 index)))
  lindex_command args = raise err_cmd_params

  unfoldable pub lrange_command : List Bytes → M S Reply
  lrange_command (key ∷ a ∷ b ∷ []) = (do
    start ← lift (or_err_value (t.parse_int64 a))
    stop ← lift (or_err_value (t.parse_int64 b))
    write_slice_array (l_range d e key (wrap32 start) (wrap32 stop)))
  lrange_command args = raise err_cmd_params

  unfoldable pub lexpire_command : List Bytes → M S Reply
  lexpire_command (key ∷ arg ∷ []) = (do
    duration ← lift (or_err_value (t.parse_int64 arg))
    write_integer (l_expire d e key duration))
  lexpire_command args = raise err_cmd_params

  unfoldable pub lexpire_at_command : List Bytes → M S Reply
  lexpire_at_command (key ∷ arg ∷ []) = (do
    when ← lift (or_err_value (t.parse_int64 arg))
    write_integer (l_expire_at_time d e key when))
  lexpire_at_command args = raise err_cmd_params

  unfoldable pub l_trim_command : List Bytes → M S Reply
  l_trim_command (key ∷ a ∷ b ∷ []) = (do
    start ← lift (or_err_value (t.parse_int64 a))
    stop ← lift (or_err_value (t.parse_int64 b))
    write_ok (l_trim d e key start stop))
  l_trim_command args = raise err_cmd_params

  abbrev trim_side_command : Where → List Bytes → M S Reply
  trim_side_command side (key ∷ arg ∷ []) = (do
    trim_size ← lift (or_err_value (t.parse_int32 arg))
    if ltb_ℤ trim_size (pos 0)
        then raise err_value
        else write_integer (l_trim_side d e key trim_size side))
  trim_side_command side args = raise err_cmd_params

  unfoldable pub l_trim_front_command : List Bytes → M S Reply
  l_trim_front_command = trim_side_command head

  unfoldable pub l_trim_back_command : List Bytes → M S Reply
  l_trim_back_command = trim_side_command tail
