-- ===== src/Ledis/Value.antt =====
-- ledis/util.go: how a 64-bit integer is stored as a value.
use ledisdb.Base.{◌≡◌, not, Option, none, some, length, ◌==◌, if◌then◌else◌}
use ledisdb.Base.Int.{ℤ, pos, to_u64, of_u64, IsInt64, to_u64-lt, of_u64-to_u64}
use ledisdb.Error.{Result, ok, err, err_int_number}
use ledisdb.Bytes.{Bytes, little_endian, little_endian_value}
use ledisdb.Bytes.Endian.{length-little_endian, little_endian_round}

unfoldable pub put_int64 : ℤ → Bytes
unfolding to_u64
put_int64 v = little_endian 8 (to_u64 v)

abbrev pub int64_value : Bytes → Result ℤ
int64_value v =
    if length v == 0
    then ok (pos 0)
    else if not (length v == 8)
    then err err_int_number
    else ok (of_u64 (little_endian_value v))

-- `Int64(v, err)`: a missing value is 0.
unfoldable pub int64 : Result (Option Bytes) → Result ℤ
unfolding of_u64
int64 (err e) = err e
int64 (ok none) = ok (pos 0)
int64 (ok (some v)) = int64_value v

-- An integer of 64 bits that was put is read back.
pub int64-put_int64 : (v : ℤ) → IsInt64 v → int64 (ok (some (put_int64 v))) ≡ ok v
unfolding int64 put_int64
int64-put_int64 v h = rw (
  length-little_endian 8 (to_u64 v),
  little_endian_round 8 (to_u64 v) (to_u64-lt v),
  of_u64-to_u64 v h,
)
