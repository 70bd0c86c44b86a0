-- ===== src/Key/Record.antt =====
-- ledis/event.go: the kinds of stored keys as one type, and how a key of the store is recognised.
pub mod Distinct
pub mod Event
use ledisdb.Base.{ℕ, ◌^◌, ◌<◌, length, ltb, ◌==◌, if◌then◌else◌}
use ledisdb.Base.Int.{ℤ, IsInt32, IsInt64}
use ledisdb.Error.{Result, ok, ◌>>=◌, ◌>>◌, reject_if, err, invalid_event}
use ledisdb.Bytes.{Bytes, byte_at}
use ledisdb.Key.{
  Db, set_index, decode_db_index, kv_type, l_meta_type, list_type, h_size_type, hash_type,
  s_size_type, set_type, z_size_type, z_set_type, z_score_type, exp_meta_type, exp_time_type,
}
use ledisdb.Key.Plain.{
  encode_kv_key, decode_kv_key, l_encode_meta_key, l_decode_meta_key, h_encode_size_key,
  h_decode_size_key, s_encode_size_key, s_decode_size_key, z_encode_size_key, z_decode_size_key,
}
use ledisdb.Key.Member.{
  h_encode_hash_key, h_decode_hash_key, s_encode_set_key, s_decode_set_key, z_encode_set_key,
  z_decode_set_key,
}
use ledisdb.Key.Sorted.{
  l_encode_list_key, l_decode_list_key, z_encode_score_key, z_decode_score_key, exp_encode_meta_key,
  exp_decode_meta_key, exp_encode_time_key, exp_decode_time_key,
}

-- What a key of the store stands for: the types of ledis/const.go with their parts.
pub data Record : Type 0 where
  kv_value list_meta hash_size set_size zset_size : Bytes → Record
  list_item : Bytes → ℤ → Record
  hash_field set_member zset_member : Bytes → Bytes → Record
  zset_score : Bytes → Bytes → ℤ → Record
  exp_meta : ℕ → Bytes → Record
  exp_time : ℕ → Bytes → ℤ → Record

unfoldable pub encode : Db → Record → Bytes
unfolding encode_kv_key l_encode_meta_key h_encode_size_key s_encode_size_key z_encode_size_key
    l_encode_list_key h_encode_hash_key s_encode_set_key z_encode_set_key z_encode_score_key
    exp_encode_meta_key exp_encode_time_key
encode db (kv_value key) = encode_kv_key db key
encode db (list_meta key) = l_encode_meta_key db key
encode db (hash_size key) = h_encode_size_key db key
encode db (set_size key) = s_encode_size_key db key
encode db (zset_size key) = z_encode_size_key db key
encode db (list_item key seq) = l_encode_list_key db key seq
encode db (hash_field key field) = h_encode_hash_key db key field
encode db (set_member key member) = s_encode_set_key db key member
encode db (zset_member key member) = z_encode_set_key db key member
encode db (zset_score key member score) = z_encode_score_key db key member score
encode db (exp_meta t key) = exp_encode_meta_key db t key
encode db (exp_time t key when) = exp_encode_time_key db t key when

-- A user's key and the numbers fit their fields of the key.
abbrev pub Fits : Record → Type 0
Fits (list_item key seq) = (length key < 2 ^ 16) × IsInt32 seq
Fits (hash_field key field) = length key < 2 ^ 16
Fits (set_member key member) = length key < 2 ^ 16
Fits (zset_member key member) = length key < 2 ^ 16
Fits (zset_score key member score) = (length key < 2 ^ 16) × IsInt64 score
Fits (exp_time t key when) = IsInt64 when
Fits _ = Unit {0}

-- The switch of `formatEventKey` on the type byte, with what each case decodes.
unfoldable pub decode_as : ℕ → Db → Bytes → Result Record
decode_as t db k =
    if t == kv_type
    then (do key ← decode_kv_key db k; ok (kv_value key))
    else if t == hash_type
    then (do (key, field) ← h_decode_hash_key db k; ok (hash_field key field))
    else if t == h_size_type
    then (do key ← h_decode_size_key db k; ok (hash_size key))
    else if t == list_type
    then (do (key, seq) ← l_decode_list_key db k; ok (list_item key seq))
    else if t == l_meta_type
    then (do key ← l_decode_meta_key db k; ok (list_meta key))
    else if t == z_set_type
    then (do (key, m) ← z_decode_set_key db k; ok (zset_member key m))
    else if t == z_size_type
    then (do key ← z_decode_size_key db k; ok (zset_size key))
    else if t == z_score_type
    then (do (key, m, score) ← z_decode_score_key db k; ok (zset_score key m score))
    else if t == set_type
    then (do (key, member) ← s_decode_set_key db k; ok (set_member key member))
    else if t == s_size_type
    then (do key ← s_decode_size_key db k; ok (set_size key))
    else if t == exp_time_type
    then (do (tp, key, when) ← exp_decode_time_key db k; ok (exp_time tp key when))
    else if t == exp_meta_type
    then (do (tp, key) ← exp_decode_meta_key db k; ok (exp_meta tp key))
    else err invalid_event

-- The type byte is taken from `k[1]`, behind the first byte of the database's index.
unfoldable pub format_event_key : Bytes → Result Record
format_event_key k = do
  reject_if (ltb (length k) 2) invalid_event
  t ← byte_at k 1
  (index, n) ← decode_db_index k
  decode_as t (set_index index) k
