-- ===== src/Key/Plain.antt =====
-- The keys that are a type byte and the user's key: values of ledis/t_kv.go, and the meta or size
-- records of ledis/t_list.go, ledis/t_hash.go, ledis/t_set.go and ledis/t_zset.go.
use ledisdb.Base.{ℕ, ◌+◌, [], ◌∷◌, ◌++◌, length, set, ◌-◌}
use ledisdb.Error.{
  Error, Result, ◌>>=◌, ◌>>◌, reject_if, err_kv_key, err_lmeta_key, err_h_size_key, err_s_size_key,
  err_z_size_key,
}
use ledisdb.Bytes.{Bytes, slice_from}
use ledisdb.Key.{
  Db, check_key_index, lacks_type, kv_type, l_meta_type, h_size_type, s_size_type, z_size_type,
}

unfoldable pub plain_key : ℕ → Db → Bytes → Bytes
plain_key t db key = db.index_var_buf ++ t ∷ key

unfoldable pub decode_plain_key : ℕ → Error → Db → Bytes → Result Bytes
decode_plain_key t e db ek = do
  pos ← check_key_index db ek
  reject_if (lacks_type ek pos t) e
  slice_from ek (pos + 1)

unfoldable pub encode_kv_key : Db → Bytes → Bytes
unfolding plain_key
encode_kv_key = plain_key kv_type

unfoldable pub decode_kv_key : Db → Bytes → Result Bytes
unfolding decode_plain_key
decode_kv_key = decode_plain_key kv_type err_kv_key

unfoldable pub encode_kv_min_key : Db → Bytes
unfolding encode_kv_key
encode_kv_min_key db = encode_kv_key db []

-- `ek[len(ek)-1] = KVType + 1`
unfoldable pub encode_kv_max_key : Db → Bytes
unfolding encode_kv_key
encode_kv_max_key db = let ek = encode_kv_key db [] in set ek (length ek - 1) (kv_type + 1)

unfoldable pub l_encode_meta_key : Db → Bytes → Bytes
unfolding plain_key
l_encode_meta_key = plain_key l_meta_type

unfoldable pub l_decode_meta_key : Db → Bytes → Result Bytes
unfolding decode_plain_key
l_decode_meta_key = decode_plain_key l_meta_type err_lmeta_key

unfoldable pub l_encode_min_key : Db → Bytes
unfolding l_encode_meta_key
l_encode_min_key db = l_encode_meta_key db []

unfoldable pub l_encode_max_key : Db → Bytes
unfolding l_encode_meta_key
l_encode_max_key db = let ek = l_encode_meta_key db [] in set ek (length ek - 1) (l_meta_type + 1)

unfoldable pub h_encode_size_key : Db → Bytes → Bytes
unfolding plain_key
h_encode_size_key = plain_key h_size_type

unfoldable pub h_decode_size_key : Db → Bytes → Result Bytes
unfolding decode_plain_key
h_decode_size_key = decode_plain_key h_size_type err_h_size_key

unfoldable pub s_encode_size_key : Db → Bytes → Bytes
unfolding plain_key
s_encode_size_key = plain_key s_size_type

unfoldable pub s_decode_size_key : Db → Bytes → Result Bytes
unfolding decode_plain_key
s_decode_size_key = decode_plain_key s_size_type err_s_size_key

unfoldable pub z_encode_size_key : Db → Bytes → Bytes
unfolding plain_key
z_encode_size_key = plain_key z_size_type

unfoldable pub z_decode_size_key : Db → Bytes → Result Bytes
unfolding decode_plain_key
z_decode_size_key = decode_plain_key z_size_type err_z_size_key
