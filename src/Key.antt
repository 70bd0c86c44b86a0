-- ===== src/Key.antt =====
-- ledis/const.go and ledis/ledis_db.go: the type bytes, the sizes that are allowed, the database's
-- index as a varint, and the check that a stored key belongs to a database.
pub mod Plain
pub mod Member
pub mod Sorted
pub mod RoundTrip
pub mod Range
pub mod Order
pub mod Record
use ledisdb.Base.{
  ℕ, zero, suc, ◌+◌, ◌*◌, ◌/◌, ◌%◌, ◌^◌, Bool, true, false, ◌&&◌, ◌||◌, not, none, some, List, [],
  ◌∷◌, ◌++◌, length, take, get_elem?, ltb, ◌==◌, if◌then◌else◌,
}
use ledisdb.Error.{
  Error, Result, ok, err, ◌>>=◌, ◌>>◌, reject_if, key_too_small, invalid_db_index, err_key_size,
  err_value_size, err_hash_field_size, err_set_member_size, err_zset_member_size,
  db_index_too_small, db_index_too_wide, db_index_too_large,
}
use ledisdb.Bytes.{Bytes, equal_bytes}

-- The type bytes of the backend store.
abbrev pub none_type : ℕ
none_type = 0

abbrev pub kv_type : ℕ
kv_type = 1

abbrev pub hash_type : ℕ
hash_type = 2

abbrev pub h_size_type : ℕ
h_size_type = 3

abbrev pub list_type : ℕ
list_type = 4

abbrev pub l_meta_type : ℕ
l_meta_type = 5

abbrev pub z_set_type : ℕ
z_set_type = 6

abbrev pub z_size_type : ℕ
z_size_type = 7

abbrev pub z_score_type : ℕ
z_score_type = 8

abbrev pub set_type : ℕ
set_type = 11

abbrev pub s_size_type : ℕ
s_size_type = 12

abbrev pub max_data_type : ℕ
max_data_type = 100

abbrev pub exp_meta_type : ℕ
exp_meta_type = 102

abbrev pub exp_time_type : ℕ
exp_time_type = 103

abbrev pub max_databases : ℕ
max_databases = 10240

abbrev pub max_key_size : ℕ
max_key_size = 1024

abbrev pub max_hash_field_size : ℕ
max_hash_field_size = 1024

abbrev pub max_z_set_member_size : ℕ
max_z_set_member_size = 1024

abbrev pub max_set_member_size : ℕ
max_set_member_size = 1024

abbrev pub max_value_size : ℕ
max_value_size = 1024 * 1024 * 1024

bad_size : ℕ → Bytes → Bool
bad_size max bs = ltb max (length bs) || length bs == 0

unfoldable pub check_key_size : Bytes → Result (Unit {0})
unfolding bad_size
check_key_size key = reject_if (bad_size max_key_size key) err_key_size

unfoldable pub check_value_size : Bytes → Result (Unit {0})
check_value_size value = reject_if (ltb max_value_size (length value)) err_value_size

unfoldable pub check_hash_kf_size : Bytes → Bytes → Result (Unit {0})
unfolding bad_size
check_hash_kf_size key field = do
  reject_if (bad_size max_key_size key) err_key_size
  reject_if (bad_size max_hash_field_size field) err_hash_field_size

unfoldable pub check_set_km_size : Bytes → Bytes → Result (Unit {0})
unfolding bad_size
check_set_km_size key member = do
  reject_if (bad_size max_key_size key) err_key_size
  reject_if (bad_size max_set_member_size member) err_set_member_size

unfoldable pub check_z_set_km_size : Bytes → Bytes → Result (Unit {0})
unfolding bad_size
check_z_set_km_size key member = do
  reject_if (bad_size max_key_size key) err_key_size
  reject_if (bad_size max_z_set_member_size member) err_zset_member_size

-- binary.PutUvarint into a buffer of `k` bytes: 7 bits a byte, `x | 0x80` while more follow.
unfoldable pub put_uvarint : ℕ → ℕ → Bytes
put_uvarint zero x = []
put_uvarint (suc k) x =
    let rest = put_uvarint k (x / 128) in if ltb x 128 then x ∷ [] else (x % 128 + 128) ∷ rest

-- binary.Uvarint: the value and the count of bytes read; 0 bytes for a short buffer, and a negative
-- count, here `overflow`, for a value above 64 bits.
pub data Uvarint : Type 0 where
  value : ℕ → ℕ → Uvarint
  short overflow : Uvarint

-- `i` bytes are read, and `x | b << s` is a sum, since the bits from `s` on are still clear.
unfoldable pub uvarint_loop : ℕ → ℕ → ℕ → Bytes → Uvarint
uvarint_loop i x s [] = short
uvarint_loop i x s (b ∷ buf) =
    let rest = uvarint_loop (i + 1) ((x + b % 128 * 2 ^ s) % 2 ^ 64) (s + 7) buf in
    if ltb b 128
    then (if ltb 9 i || i == 9 && ltb 1 b
        then overflow
        else value ((x + b * 2 ^ s) % 2 ^ 64) (i + 1))
    else rest

unfoldable pub decode_db_index : Bytes → Result (ℕ × ℕ)
unfolding uvarint_loop
decode_db_index buf = elim (uvarint_loop 0 0 0 buf) [
  | short ↦ err db_index_too_small
  | overflow ↦ err db_index_too_wide
  | value index n ↦ if ltb max_databases index then err db_index_too_large else ok (index, n)
]

-- The fields of `DB` that its keys depend on.
pub record Db : Type 0 where
  pub index : ℕ
  pub index_var_buf : Bytes

unfoldable pub set_index : ℕ → Db
unfolding put_uvarint
set_index index = record { index = index; index_var_buf = put_uvarint 10 index }

unfoldable pub check_key_index : Db → Bytes → Result ℕ
check_key_index db buf =
    if ltb (length buf) (length db.index_var_buf)
    then err key_too_small
    else if not (equal_bytes db.index_var_buf (take (length db.index_var_buf) buf))
    then err invalid_db_index
    else ok (length db.index_var_buf)

-- `pos+1 > len(ek) || ek[pos] != t`
unfoldable pub lacks_type : Bytes → ℕ → ℕ → Bool
lacks_type ek pos t = elim (get_elem? ek pos) [ none ↦ true | some b ↦ not (b == t) ]
