-- ===== src/Server/HashCommands.antt =====
-- server/cmd_hash.go: the commands on hashes.
use ledisdb.Base.{Option, none, some, List, [], ◌∷◌, if◌then◌else◌}
use ledisdb.Base.Int.{ℤ, pos}
use ledisdb.Error.{Result, err_cmd_params}
use ledisdb.Bytes.{Bytes}
use ledisdb.Store.{Driver}
use ledisdb.Ledis.{Env, M, pure, raise, lift, ◌>>=◌, ◌>>◌}
use ledisdb.Ledis.Kv.{is_some}
use ledisdb.Ledis.Hash.{
  h_set, h_get, h_len, h_m_set, h_m_get, h_del, h_get_all, h_keys, h_values, h_clear, h_m_clear,
  h_expire, h_expire_at_time, h_ttl, h_persist, h_key_exists,
}
use ledisdb.Ledis.Hash.Increments.{h_incr_by}
use ledisdb.Server.{
  Reply, slice_array, bulk, fv_pair_array, status_ok, integer, write_integer, write_slice_array,
  or_err_value,
}

-- Fields and values in turn; an odd one out is an error.
unfoldable pub fv_pairs : List Bytes → Option (List (Bytes × Bytes))
fv_pairs [] = some []
fv_pairs (f ∷ []) = none
fv_pairs (f ∷ v ∷ args) =
    let rest = fv_pairs args in elim rest [ none ↦ none | some ps ↦ some ((f, v) ∷ ps) ]

module _ {S I : Type 0} (d : Driver S I) (e : Env) where
  unfoldable pub hset_command : List Bytes → M S Reply
  hset_command (key ∷ field ∷ value ∷ []) = write_integer (h_set d e key field value)
  hset_command args = raise err_cmd_params

  unfoldable pub hget_command : List Bytes → M S Reply
  hget_command (key ∷ field ∷ []) = do v ← h_get d e key field; pure (bulk v)
  hget_command args = raise err_cmd_params

  unfoldable pub hexists_command : List Bytes → M S Reply
  hexists_command (key ∷ field ∷ []) = do
    v ← h_get d e key field
    pure (integer (if is_some v then pos 1 else pos 0))
  hexists_command args = raise err_cmd_params

  unfoldable pub hdel_command : List Bytes → M S Reply
  hdel_command (key ∷ arg ∷ args) = write_integer (h_del d e key (arg ∷ args))
  hdel_command args = raise err_cmd_params

  unfoldable pub hlen_command : List Bytes → M S Reply
  hlen_command (key ∷ []) = write_integer (h_len d e key)
  hlen_command args = raise err_cmd_params

  unfoldable pub hmset_command : List Bytes → M S Reply
  unfolding fv_pairs
  hmset_command (key ∷ f ∷ v ∷ args) = elim (fv_pairs (f ∷ v ∷ args)) [
    | none ↦ raise err_cmd_params
    | some kvs ↦ (do h_m_set d e key kvs; pure status_ok)
  ]
  hmset_command args = raise err_cmd_params

  unfoldable pub hmget_command : List Bytes → M S Reply
  hmget_command (key ∷ arg ∷ args) = do v ← h_m_get d e key (arg ∷ args); pure (slice_array v)
  hmget_command args = raise err_cmd_params

  unfoldable pub hgetall_command : List Bytes → M S Reply
  hgetall_command (key ∷ []) = do v ← h_get_all d e key; pure (fv_pair_array v)
  hgetall_command args = raise err_cmd_params

  unfoldable pub hkeys_command : List Bytes → M S Reply
  hkeys_command (key ∷ []) = write_slice_array (h_keys d e key)
  hkeys_command args = raise err_cmd_params

  unfoldable pub hvals_command : List Bytes → M S Reply
  hvals_command (key ∷ []) = write_slice_array (h_values d e key)
  hvals_command args = raise err_cmd_params

  unfoldable pub hclear_command : List Bytes → M S Reply
  hclear_command (key ∷ []) = write_integer (h_clear d e key)
  hclear_command args = raise err_cmd_params

  unfoldable pub hmclear_command : List Bytes → M S Reply
  hmclear_command (key ∷ keys) = write_integer (h_m_clear d e (key ∷ keys))
  hmclear_command args = raise err_cmd_params

  unfoldable pub httl_command : List Bytes → M S Reply
  httl_command (key ∷ []) = write_integer (h_ttl d e key)
  httl_command args = raise err_cmd_params

  unfoldable pub hpersist_command : List Bytes → M S Reply
  hpersist_command (key ∷ []) = write_integer (h_persist d e key)
  hpersist_command args = raise err_cmd_params

  unfoldable pub hkeyexists_command : List Bytes → M S Reply
  hkeyexists_command (key ∷ []) = write_integer (h_key_exists d e key)
  hkeyexists_command args = raise err_cmd_params

module _ {S I : Type 0} (d : Driver S I) (e : Env) (parse_int : Bytes → Result ℤ)
    (format_int : ℤ → Bytes) where
  unfoldable pub hincrby_command : List Bytes → M S Reply
  hincrby_command (key ∷ field ∷ arg ∷ []) = (do
    delta ← lift (or_err_value (parse_int arg))
    write_integer (h_incr_by d e parse_int format_int key field delta))
  hincrby_command args = raise err_cmd_params

  unfoldable pub hexpire_command : List Bytes → M S Reply
  hexpire_command (key ∷ arg ∷ []) = (do
    duration ← lift (or_err_value (parse_int arg))
    write_integer (h_expire d e key duration))
  hexpire_command args = raise err_cmd_params

  unfoldable pub hexpire_at_command : List Bytes → M S Reply
  hexpire_at_command (key ∷ arg ∷ []) = (do
    when ← lift (or_err_value (parse_int arg))
    write_integer (h_expire_at_time d e key when))
  hexpire_at_command args = raise err_cmd_params
