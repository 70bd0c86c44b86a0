-- ===== src/Server/KvCommands.antt =====
-- server/cmd_kv.go: the commands on plain values.
use ledisdb.Base.{none, some, List, [], ◌∷◌, if◌then◌else◌}
use ledisdb.Base.Int.{ℤ, pos, negsuc}
use ledisdb.Error.{err_cmd_params}
use ledisdb.Bytes.{Bytes}
use ledisdb.Store.{Driver}
use ledisdb.Ledis.{Env, M, pure, raise, lift, ◌>>=◌}
use ledisdb.Ledis.Kv.{
  set, get, get_set, set_nx, set_ex, exists, del, m_get, m_set, append, set_range, get_range_of,
  str_len, expire, expire_at_time, ttl_of, persist,
}
use ledisdb.Ledis.Kv.Bits.{
  BitOp, bit_op_and, bit_op_or, bit_op_xor, bit_op_not, bit_op_other, incr, decr_by, bit_op,
  bit_count, bit_pos, set_bit, get_bit,
}
use ledisdb.Server.{Reply, slice_array, write_bulk, write_ok, write_integer, or_err_value}
use ledisdb.Server.Text.{Text, is_lower_word}
use ledisdb.Server.HashCommands.{fv_pairs}

module _ {S I : Type 0} (d : Driver S I) (e : Env) where
  unfoldable pub get_command : List Bytes → M S Reply
  get_command (key ∷ []) = write_bulk (get d e key)
  get_command args = raise err_cmd_params

  unfoldable pub set_command : List Bytes → M S Reply
  set_command (key ∷ value ∷ []) = write_ok (set d e key value)
  set_command args = raise err_cmd_params

  unfoldable pub getset_command : List Bytes → M S Reply
  getset_command (key ∷ value ∷ []) = write_bulk (get_set d e key value)
  getset_command args = raise err_cmd_params

  unfoldable pub setnx_command : List Bytes → M S Reply
  setnx_command (key ∷ value ∷ []) = write_integer (set_nx d e key value)
  setnx_command args = raise err_cmd_params

  unfoldable pub exists_command : List Bytes → M S Reply
  exists_command (key ∷ []) = write_integer (exists d e key)
  exists_command args = raise err_cmd_params

  unfoldable pub del_command : List Bytes → M S Reply
  del_command (key ∷ keys) = write_integer (del d e (key ∷ keys))
  del_command args = raise err_cmd_params

  unfoldable pub mset_command : List Bytes → M S Reply
  unfolding fv_pairs
  mset_command (k ∷ v ∷ args) = elim (fv_pairs (k ∷ v ∷ args)) [
    | none ↦ raise err_cmd_params
    | some kvs ↦ write_ok (m_set d e kvs)
  ]
  mset_command args = raise err_cmd_params

  unfoldable pub mget_command : List Bytes → M S Reply
  mget_command (key ∷ keys) = do v ← m_get d e (key ∷ keys); pure (slice_array v)
  mget_command args = raise err_cmd_params

  unfoldable pub ttl_command : List Bytes → M S Reply
  ttl_command (key ∷ []) = write_integer (ttl_of d e key)
  ttl_command args = raise err_cmd_params

  unfoldable pub persist_command : List Bytes → M S Reply
  persist_command (key ∷ []) = write_integer (persist d e key)
  persist_command args = raise err_cmd_params

  unfoldable pub append_command : List Bytes → M S Reply
  append_command (key ∷ value ∷ []) = write_integer (append d e key value)
  append_command args = raise err_cmd_params

  unfoldable pub strlen_command : List Bytes → M S Reply
  strlen_command (key ∷ []) = write_integer (str_len d e key)
  strlen_command args = raise err_cmd_params

module _ {S I : Type 0} (d : Driver S I) (e : Env) (t : Text) where
  unfoldable pub setex_command : List Bytes → M S Reply
  setex_command (key ∷ arg ∷ value ∷ []) = (do
    sec ← lift (or_err_value (t.parse_int64 arg))
    write_ok (set_ex d e key sec value))
  setex_command args = raise err_cmd_params

  unfoldable pub incr_command : List Bytes → M S Reply
  incr_command (key ∷ []) = write_integer (incr d e t.parse_int64 t.format_int key (pos 1))
  incr_command args = raise err_cmd_params

  unfoldable pub decr_command : List Bytes → M S Reply
  decr_command (key ∷ []) = write_integer (incr d e t.parse_int64 t.format_int key (negsuc 0))
  decr_command args = raise err_cmd_params

  unfoldable pub incrby_command : List Bytes → M S Reply
  incrby_command (key ∷ arg ∷ []) = (do
    delta ← lift (or_err_value (t.parse_int64 arg))
    write_integer (incr d e t.parse_int64 t.format_int key delta))
  incrby_command args = raise err_cmd_params

  unfoldable pub decrby_command : List Bytes → M S Reply
  decrby_command (key ∷ arg ∷ []) = (do
    delta ← lift (or_err_value (t.parse_int64 arg))
    write_integer (decr_by d e t.parse_int64 t.format_int key delta))
  decrby_command args = raise err_cmd_params

  unfoldable pub expire_command : List Bytes → M S Reply
  expire_command (key ∷ arg ∷ []) = (do
    duration ← lift (or_err_value (t.parse_int64 arg))
    write_integer (expire d e key duration))
  expire_command args = raise err_cmd_params

  unfoldable pub expire_at_command : List Bytes → M S Reply
  expire_at_command (key ∷ arg ∷ []) = (do
    when ← lift (or_err_value (t.parse_int64 arg))
    write_integer (expire_at_time d e key when))
  expire_at_command args = raise err_cmd_params

  -- The errors of `strconv.Atoi` are returned as they are.
  unfoldable pub getrange_command : List Bytes → M S Reply
  getrange_command (key ∷ a ∷ b ∷ []) = (do
    start ← lift (t.atoi a)
    end ← lift (t.atoi b)
    write_bulk (get_range_of d e key start end))
  getrange_command args = raise err_cmd_params

  unfoldable pub setrange_command : List Bytes → M S Reply
  setrange_command (key ∷ a ∷ value ∷ []) = (do
    offset ← lift (t.atoi a)
    write_integer (set_range d e key offset value))
  setrange_command args = raise err_cmd_params

  -- The end is read if there are two arguments; further ones are not looked at.
  unfoldable pub parse_bit_range : List Bytes → M S (ℤ × ℤ)
  parse_bit_range [] = pure (pos 0, negsuc 0)
  parse_bit_range (a ∷ b ∷ []) = do
    start ← lift (t.atoi a)
    end ← lift (t.atoi b)
    pure (start, end)
  parse_bit_range (a ∷ args) = do start ← lift (t.atoi a); pure (start, negsuc 0)

  abbrev bitcount : Bytes → List Bytes → M S Reply
  bitcount key args = do
    (start, end) ← parse_bit_range args
    write_integer (bit_count d e key start end)

  unfoldable pub bitcount_command : List Bytes → M S Reply
  unfolding parse_bit_range
  bitcount_command (key ∷ []) = bitcount key []
  bitcount_command (key ∷ a ∷ []) = bitcount key (a ∷ [])
  bitcount_command (key ∷ a ∷ b ∷ []) = bitcount key (a ∷ b ∷ [])
  bitcount_command args = raise err_cmd_params

  -- `BitOP` compares the word in lower case with `BitAND`, `BitOR`, `BitXOR` and `BitNot`.
  abbrev pub bit_op_of : Bytes → BitOp
  bit_op_of op =
      if is_lower_word t "and" op
      then bit_op_and
      else if is_lower_word t "or" op
      then bit_op_or
      else if is_lower_word t "xor" op
      then bit_op_xor
      else if is_lower_word t "not" op
      then bit_op_not
      else bit_op_other

  unfoldable pub bitop_command : List Bytes → M S Reply
  bitop_command (op ∷ dest_key ∷ key ∷ keys) =
      write_integer (bit_op d e (bit_op_of op) dest_key (key ∷ keys))
  bitop_command args = raise err_cmd_params

  unfoldable pub bitpos_command : List Bytes → M S Reply
  unfolding parse_bit_range
  bitpos_command (key ∷ b ∷ args) = (do
    bit ← lift (t.atoi b)
    (start, end) ← parse_bit_range args
    write_integer (bit_pos d e key bit start end))
  bitpos_command args = raise err_cmd_params

  unfoldable pub getbit_command : List Bytes → M S Reply
  getbit_command (key ∷ a ∷ []) = (do
    offset ← lift (t.atoi a)
    write_integer (get_bit d e key offset))
  getbit_command args = raise err_cmd_params

  unfoldable pub setbit_command : List Bytes → M S Reply
  setbit_command (key ∷ a ∷ b ∷ []) = (do
    offset ← lift (t.atoi a)
    value ← lift (t.atoi b)
    write_integer (set_bit d e key offset value))
  setbit_command args = raise err_cmd_params
