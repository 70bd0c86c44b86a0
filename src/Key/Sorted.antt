-- ===== src/Key/Sorted.antt =====
-- The keys whose order carries a number: a list's elements by sequence (ledis/t_list.go), a zset's
-- members by score (ledis/t_zset.go), and what expires by its time (ledis/t_ttl.go).
use ledisdb.Base.{
  ℕ, ◌+◌, ◌-◌, not, ◌&&◌, ◌||◌, [], ◌∷◌, ◌++◌, length, set, ltb, ◌==◌, if◌then◌else◌,
}
use ledisdb.Base.Int.{ℤ, pos, ltb_ℤ, to_u32, of_u32, to_u64, of_u64}
use ledisdb.Error.{
  Result, ok, ◌>>=◌, ◌>>◌, reject_if, err_list_key, err_z_score_key, err_exp_meta_key,
  err_exp_time_key,
}
use ledisdb.Bytes.{Bytes, big_endian, read_big_endian, byte_at, slice_from, slice}
use ledisdb.Key.{
  Db, check_key_index, lacks_type, list_type, z_score_type, exp_meta_type, exp_time_type,
}
use ledisdb.Key.Member.{sized_key, start_sep, stop_sep}

unfoldable pub l_encode_list_key : Db → Bytes → ℤ → Bytes
unfolding sized_key to_u32
l_encode_list_key db key seq =
    db.index_var_buf ++ list_type ∷ (sized_key key ++ big_endian 4 (to_u32 seq))

unfoldable pub l_decode_list_key : Db → Bytes → Result (Bytes × ℤ)
unfolding of_u32
l_decode_list_key db ek = do
  p ← check_key_index db ek
  reject_if (lacks_type ek p list_type) err_list_key
  let q = p + 1
  reject_if (ltb (length ek) (q + 2)) err_list_key
  rest ← slice_from ek q
  key_len ← read_big_endian 2 rest
  reject_if (not (key_len + (q + 2) + 4 == length ek)) err_list_key
  key ← slice ek (q + 2) (q + 2 + key_len)
  tail ← slice_from ek (q + 2 + key_len)
  seq ← read_big_endian 4 tail
  ok (key, of_u32 seq)

abbrev pub n_score_sep : ℕ
n_score_sep = b'<'

abbrev pub p_score_sep : ℕ
p_score_sep = n_score_sep + 1

abbrev pub score_sep : ℤ → ℕ
score_sep score = if ltb_ℤ score (pos 0) then n_score_sep else p_score_sep

unfoldable pub z_encode_score_key : Db → Bytes → Bytes → ℤ → Bytes
unfolding sized_key to_u64
z_encode_score_key db key member score =
    db.index_var_buf
    ++ z_score_type
      ∷ (sized_key key ++ score_sep score ∷ (big_endian 8 (to_u64 score) ++ start_sep ∷ member))

unfoldable pub z_encode_start_score_key : Db → Bytes → ℤ → Bytes
unfolding z_encode_score_key
z_encode_start_score_key db key score = z_encode_score_key db key [] score

unfoldable pub z_encode_stop_score_key : Db → Bytes → ℤ → Bytes
unfolding z_encode_score_key
z_encode_stop_score_key db key score =
    let k = z_encode_score_key db key [] score in set k (length k - 1) stop_sep

unfoldable pub z_decode_score_key : Db → Bytes → Result (Bytes × Bytes × ℤ)
unfolding of_u64
z_decode_score_key db ek = do
  p ← check_key_index db ek
  reject_if (lacks_type ek p z_score_type) err_z_score_key
  let q = p + 1
  reject_if (ltb (length ek) (q + 2)) err_z_score_key
  rest ← slice_from ek q
  key_len ← read_big_endian 2 rest
  reject_if (ltb (length ek) (key_len + (q + 2))) err_z_score_key
  key ← slice ek (q + 2) (q + 2 + key_len)
  let at = q + 2 + key_len
  reject_if (ltb (length ek) (at + 10)) err_z_score_key
  sign ← byte_at ek at
  reject_if (not (sign == n_score_sep) && not (sign == p_score_sep)) err_z_score_key
  tail ← slice_from ek (at + 1)
  score ← read_big_endian 8 tail
  sep ← byte_at ek (at + 1 + 8)
  reject_if (not (sep == start_sep)) err_z_score_key
  member ← slice_from ek (at + 1 + 8 + 1)
  ok (key, member, of_u64 score)

unfoldable pub exp_encode_time_key : Db → ℕ → Bytes → ℤ → Bytes
unfolding to_u64
exp_encode_time_key db data_type key when =
    db.index_var_buf ++ exp_time_type ∷ (big_endian 8 (to_u64 when) ++ data_type ∷ key)

unfoldable pub exp_encode_meta_key : Db → ℕ → Bytes → Bytes
exp_encode_meta_key db data_type key = db.index_var_buf ++ exp_meta_type ∷ data_type ∷ key

unfoldable pub exp_decode_meta_key : Db → Bytes → Result (ℕ × Bytes)
exp_decode_meta_key db mk = do
  p ← check_key_index db mk
  reject_if (ltb (length mk) (p + 2) || lacks_type mk p exp_meta_type) err_exp_meta_key
  data_type ← byte_at mk (p + 1)
  key ← slice_from mk (p + 2)
  ok (data_type, key)

unfoldable pub exp_decode_time_key : Db → Bytes → Result (ℕ × Bytes × ℤ)
unfolding of_u64
exp_decode_time_key db tk = do
  p ← check_key_index db tk
  reject_if (ltb (length tk) (p + 10) || lacks_type tk p exp_time_type) err_exp_time_key
  data_type ← byte_at tk (p + 9)
  key ← slice_from tk (p + 10)
  rest ← slice_from tk (p + 1)
  when ← read_big_endian 8 rest
  ok (data_type, key, of_u64 when)
