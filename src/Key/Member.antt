-- ===== src/Key/Member.antt =====
-- The keys of a hash field, a set member and a zset member (ledis/t_hash.go, ledis/t_set.go,
-- ledis/t_zset.go): type, length of the user's key in two bytes, the key, a separator, the member.
use ledisdb.Base.{ℕ, ◌+◌, ◌%◌, ◌^◌, ◌-◌, not, [], ◌∷◌, ◌++◌, length, set, ltb, ◌==◌}
use ledisdb.Error.{
  Error, Result, ok, ◌>>=◌, ◌>>◌, reject_if, err_hash_key, err_set_key, err_z_set_key,
}
use ledisdb.Bytes.{Bytes, big_endian, read_big_endian, byte_at, slice_from, slice}
use ledisdb.Key.{Db, check_key_index, lacks_type, hash_type, set_type, z_set_type}

abbrev pub start_sep : ℕ
start_sep = b':'

abbrev pub stop_sep : ℕ
stop_sep = start_sep + 1

-- `uint16(len(key))` in two bytes, and the key
unfoldable pub sized_key : Bytes → Bytes
sized_key key = big_endian 2 (length key % 2 ^ 16) ++ key

unfoldable pub member_key : ℕ → Db → Bytes → Bytes → Bytes
unfolding sized_key
member_key t db key member = db.index_var_buf ++ t ∷ (sized_key key ++ start_sep ∷ member)

-- A key that ends right after the user's key passes the length test, and `ek[pos]` panics.
unfoldable pub decode_member_key : ℕ → Error → Db → Bytes → Result (Bytes × Bytes)
decode_member_key t e db ek = do
  p ← check_key_index db ek
  reject_if (lacks_type ek p t) e
  let pos = p + 1
  reject_if (ltb (length ek) (pos + 2)) e
  rest ← slice_from ek pos
  key_len ← read_big_endian 2 rest
  reject_if (ltb (length ek) (key_len + (pos + 2))) e
  key ← slice ek (pos + 2) (pos + 2 + key_len)
  sep ← byte_at ek (pos + 2 + key_len)
  reject_if (not (sep == start_sep)) e
  member ← slice_from ek (pos + 2 + key_len + 1)
  ok (key, member)

-- `k[len(k)-1] = sep + 1` on the key of the empty member
unfoldable pub member_stop_key : ℕ → Db → Bytes → Bytes
unfolding member_key
member_stop_key t db key = let k = member_key t db key [] in set k (length k - 1) stop_sep

unfoldable pub h_encode_hash_key : Db → Bytes → Bytes → Bytes
unfolding member_key
h_encode_hash_key = member_key hash_type

unfoldable pub h_decode_hash_key : Db → Bytes → Result (Bytes × Bytes)
unfolding decode_member_key
h_decode_hash_key = decode_member_key hash_type err_hash_key

unfoldable pub h_encode_start_key : Db → Bytes → Bytes
unfolding h_encode_hash_key
h_encode_start_key db key = h_encode_hash_key db key []

unfoldable pub h_encode_stop_key : Db → Bytes → Bytes
unfolding member_stop_key
h_encode_stop_key = member_stop_key hash_type

unfoldable pub s_encode_set_key : Db → Bytes → Bytes → Bytes
unfolding member_key
s_encode_set_key = member_key set_type

unfoldable pub s_decode_set_key : Db → Bytes → Result (Bytes × Bytes)
unfolding decode_member_key
s_decode_set_key = decode_member_key set_type err_set_key

unfoldable pub s_encode_start_key : Db → Bytes → Bytes
unfolding s_encode_set_key
s_encode_start_key db key = s_encode_set_key db key []

unfoldable pub s_encode_stop_key : Db → Bytes → Bytes
unfolding member_stop_key
s_encode_stop_key = member_stop_key set_type

unfoldable pub z_encode_set_key : Db → Bytes → Bytes → Bytes
unfolding member_key
z_encode_set_key = member_key z_set_type

unfoldable pub z_encode_start_set_key : Db → Bytes → Bytes
unfolding z_encode_set_key
z_encode_start_set_key db key = z_encode_set_key db key []

unfoldable pub z_encode_stop_set_key : Db → Bytes → Bytes
unfolding member_stop_key
z_encode_stop_set_key = member_stop_key z_set_type

-- Here the length is tested before `pos` moves past its two bytes, so the slice may panic.
unfoldable pub z_decode_set_key : Db → Bytes → Result (Bytes × Bytes)
z_decode_set_key db ek = do
  p ← check_key_index db ek
  reject_if (lacks_type ek p z_set_type) err_z_set_key
  let pos = p + 1
  reject_if (ltb (length ek) (pos + 2)) err_z_set_key
  rest ← slice_from ek pos
  key_len ← read_big_endian 2 rest
  reject_if (ltb (length ek) (key_len + pos)) err_z_set_key
  key ← slice ek (pos + 2) (pos + 2 + key_len)
  sep ← byte_at ek (pos + 2 + key_len)
  reject_if (not (sep == start_sep)) err_z_set_key
  member ← slice_from ek (pos + 2 + 1 + key_len)
  ok (key, member)
