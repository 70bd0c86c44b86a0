-- ===== src/Server/SetCommands.antt =====
-- server/cmd_set.go: the commands on sets.
use ledisdb.Base.{some, map, List, [], ◌∷◌}
use ledisdb.Base.Int.{ℤ}
use ledisdb.Error.{Result, err_cmd_params}
use ledisdb.Bytes.{Bytes}
use ledisdb.Store.{Driver}
use ledisdb.Ledis.{Env, M, pure, raise, lift, ◌>>=◌}
use ledisdb.Ledis.Sets.{
  OptType, union, diff, inter, generic, s_store_generic, s_add, s_card, s_is_member, s_members,
  s_rem, s_clear, s_m_clear, s_expire, s_expire_at_time, s_ttl, s_persist, s_key_exists,
}
use ledisdb.Server.{Reply, slice_array, nil_array, write_integer, write_slice_array, or_err_value}

-- `SDiff` and `SInter` return nil when no member is left behind a further set.
abbrev set_reply : OptType → List Bytes → List Bytes → Reply
set_reply union keys members = slice_array (map some members)
set_reply opt_type [] members = slice_array (map some members)
set_reply opt_type (key ∷ keys) [] = nil_array
set_reply opt_type (key ∷ keys) (m ∷ ms) = slice_array (map some (m ∷ ms))

module _ {S I : Type 0} (d : Driver S I) (e : Env) where
  unfoldable pub sadd_command : List Bytes → M S Reply
  sadd_command (key ∷ arg ∷ args) = write_integer (s_add d e key (arg ∷ args))
  sadd_command args = raise err_cmd_params

  unfoldable pub sopt_generic : OptType → List Bytes → M S Reply
  sopt_generic opt_type [] = raise err_cmd_params
  sopt_generic opt_type (key ∷ keys) = do
    members ← generic d e opt_type (key ∷ keys)
    pure (set_reply opt_type keys members)

  unfoldable pub sopt_store_generic : OptType → List Bytes → M S Reply
  sopt_store_generic opt_type (dst_key ∷ key ∷ keys) =
      write_integer (s_store_generic d e dst_key opt_type (key ∷ keys))
  sopt_store_generic opt_type args = raise err_cmd_params

  unfoldable pub scard_command : List Bytes → M S Reply
  scard_command (key ∷ []) = write_integer (s_card d e key)
  scard_command args = raise err_cmd_params

  unfoldable pub sdiff_command : List Bytes → M S Reply
  unfolding sopt_generic
  sdiff_command = sopt_generic diff

  unfoldable pub sdiffstore_command : List Bytes → M S Reply
  unfolding sopt_store_generic
  sdiffstore_command = sopt_store_generic diff

  unfoldable pub sinter_command : List Bytes → M S Reply
  unfolding sopt_generic
  sinter_command = sopt_generic inter

  unfoldable pub sinterstore_command : List Bytes → M S Reply
  unfolding sopt_store_generic
  sinterstore_command = sopt_store_generic inter

  unfoldable pub sismember_command : List Bytes → M S Reply
  sismember_command (key ∷ member ∷ []) = write_integer (s_is_member d e key member)
  sismember_command args = raise err_cmd_params

  unfoldable pub smembers_command : List Bytes → M S Reply
  smembers_command (key ∷ []) = write_slice_array (s_members d e key)
  smembers_command args = raise err_cmd_params

  unfoldable pub srem_command : List Bytes → M S Reply
  srem_command (key ∷ arg ∷ args) = write_integer (s_rem d e key (arg ∷ args))
  srem_command args = raise err_cmd_params

  unfoldable pub sunion_command : List Bytes → M S Reply
  unfolding sopt_generic
  sunion_command = sopt_generic union

  unfoldable pub sunionstore_command : List Bytes → M S Reply
  unfolding sopt_store_generic
  sunionstore_command = sopt_store_generic union

  unfoldable pub sclear_command : List Bytes → M S Reply
  sclear_command (key ∷ []) = write_integer (s_clear d e key)
  sclear_command args = raise err_cmd_params

  unfoldable pub smclear_command : List Bytes → M S Reply
  smclear_command [] = raise err_cmd_params
  smclear_command (key ∷ keys) = write_integer (s_m_clear d e (key ∷ keys))

  unfoldable pub sttl_command : List Bytes → M S Reply
  sttl_command (key ∷ []) = write_integer (s_ttl d e key)
  sttl_command args = raise err_cmd_params

  unfoldable pub spersist_command : List Bytes → M S Reply
  spersist_command (key ∷ []) = write_integer (s_persist d e key)
  spersist_command args = raise err_cmd_params

  unfoldable pub skeyexists_command : List Bytes → M S Reply
  skeyexists_command (key ∷ []) = write_integer (s_key_exists d e key)
  skeyexists_command args = raise err_cmd_params

module _ {S I : Type 0} (d : Driver S I) (e : Env) (parse_int : Bytes → Result ℤ) where
  unfoldable pub sexpire_command : List Bytes → M S Reply
  sexpire_command (key ∷ arg ∷ []) = do
    duration ← lift (or_err_value (parse_int arg))
    write_integer (s_expire d e key duration)
  sexpire_command args = raise err_cmd_params

  unfoldable pub sexpire_at_command : List Bytes → M S Reply
  sexpire_at_command (key ∷ arg ∷ []) = do
    when ← lift (or_err_value (parse_int arg))
    write_integer (s_expire_at_time d e key when)
  sexpire_at_command args = raise err_cmd_params
