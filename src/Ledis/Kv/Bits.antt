-- ===== src/Ledis/Kv/Bits.antt =====
-- ledis/t_kv.go: counters in decimal digits, and values as arrays of bits. The parsing and the printing of
-- numbers are strconv's and the package num's, and are parameters.
use Prim.Native.Nat.{bit_and, bit_or, bit_xor}
use ledisdb.Base.{
  ℕ, zero, suc, ◌+◌, ◌-◌, ◌*◌, ◌/◌, ◌%◌, ◌^◌, Bool, not, ◌&&◌, ◌||◌, Option, none, some, List, [],
  ◌∷◌, ◌++◌, length, replicate, set, get_elem?, ltb, ◌==◌, if◌then◌else◌,
}
use ledisdb.Base.Int.{ℤ, pos, negsuc, ◌+ℤ◌, ◌-ℤ◌, ◌*ℤ◌, eqb_ℤ, to_u32, wrap64}
use ledisdb.Error.{Result, ok, err, err_bit_op_not, err_bit_op_type, err_bit_value, reject_if}
use ledisdb.Bytes.{Bytes, big_endian_from, byte_at}
use ledisdb.Key.{check_key_size}
use ledisdb.Key.Plain.{encode_kv_key}
use ledisdb.Store.{Driver}
use ledisdb.Ledis.{Env, M, pure, raise, lift, put, locked, bucket_get, commit, ◌>>=◌, ◌>>◌}
use ledisdb.Ledis.Kv.{get_range, slice_between, bytes_of}

-- `BitAND`, `BitOR`, `BitXOR`, `BitNot`, and any other word
pub data BitOp : Type 0 where
  bit_op_and bit_op_or bit_op_xor bit_op_not bit_op_other : BitOp

-- A byte of the longer value with one of the shorter value
abbrev pub op_byte : BitOp → ℕ → ℕ → ℕ
op_byte bit_op_and a b = bit_and a b
op_byte bit_op_or a b = bit_or a b
op_byte bit_op_xor a b = bit_xor a b
op_byte op a b = a

unfoldable pub join_bytes : BitOp → Bytes → Bytes → Bytes
join_bytes op [] os = []
join_bytes op (v ∷ vs) [] = op_byte op v 0 ∷ join_bytes op vs []
join_bytes op (v ∷ vs) (o ∷ os) = op_byte op v o ∷ join_bytes op vs os

-- An unknown operation is found when there is a byte to do it on.
unfoldable pub join_values : BitOp → Bytes → Bytes → Result Bytes
unfolding join_bytes
join_values bit_op_other value [] = ok value
join_values bit_op_other [] other = ok other
join_values bit_op_other (v ∷ vs) (o ∷ os) = err err_bit_op_type
join_values op value other =
    if ltb (length value) (length other)
    then ok (join_bytes op other value)
    else ok (join_bytes op value other)

-- The table `bitsInByte`, by its rule
abbrev pub bits_in_byte : ℕ → ℕ
bits_in_byte b =
    b % 2 + b / 2 % 2 + b / 4 % 2 + b / 8 % 2 + b / 16 % 2 + b / 32 % 2 + b / 64 % 2 + b / 128 % 2

unfoldable pub number_bit_count : ℕ → ℕ
number_bit_count i =
    let a = i - bit_and (i / 2) 0x55555555 in
    let b = bit_and a 0x33333333 + bit_and (a / 4) 0x33333333 in
    bit_and (b + b / 16) 0x0F0F0F0F * 0x01010101 % 2 ^ 32 / 2 ^ 24

-- Four bytes at a time, and the rest one by one
unfoldable pub count_bits : Bytes → ℕ
unfolding number_bit_count
count_bits (a ∷ b ∷ c ∷ d ∷ bytes) =
    number_bit_count (big_endian_from 0 (a ∷ b ∷ c ∷ d ∷ [])) + count_bits bytes
count_bits (a ∷ bytes) = bits_in_byte a + count_bits bytes
count_bits [] = 0

-- The first bit of a byte, from the highest one on, that is set or, for false, not set
unfoldable pub first_bit : Bool → ℕ → ℕ → Option ℕ
first_bit on v zero = none
first_bit on v (suc left) =
    let rest = first_bit on v left in
    let is_null = bit_and v (2 ^ left) == 0 in
    if (on && not is_null) || (not on && is_null) then some (7 - left) else rest

unfoldable pub bit_pos_from : Bool → ℤ → Bytes → ℤ
unfolding first_bit
bit_pos_from on at [] = negsuc 0
bit_pos_from on at (v ∷ bytes) =
    let rest = bit_pos_from on (at +ℤ pos 1) bytes in
    if v == (if on then 0 else 255)
    then rest
    else elim (first_bit on v 8) [ none ↦ rest | some j ↦ at *ℤ pos 8 +ℤ pos j ]

abbrev is_set : ℕ → ℕ → ℤ
is_set byte bit = if bit_and byte (2 ^ bit) == 0 then pos 0 else pos 1

-- `byteVal &= ^(1 << bit)` and `byteVal |= (uint8(on&0x1) << bit)`
abbrev pub with_bit : ℕ → ℕ → ℕ → ℕ
with_bit byte bit on = bit_or (byte - bit_and byte (2 ^ bit)) (on * 2 ^ bit)

module _ {S I : Type 0} (d : Driver S I) (e : Env) (parse_int : Bytes → Result ℤ)
    (format_int : ℤ → Bytes) where
  abbrev pub str_int64 : Option Bytes → Result ℤ
  str_int64 none = ok (pos 0)
  str_int64 (some v) = parse_int v

  -- `incr`, which `Incr`, `IncrBy`, `Decr` and `DecrBy` call
  unfoldable pub incr : Bytes → ℤ → M S ℤ
  incr key delta = do
    lift (check_key_size key)
    locked (do
      v ← bucket_get d (encode_kv_key e.db key)
      n ← lift (str_int64 v)
      put (encode_kv_key e.db key) (format_int (wrap64 (n +ℤ delta)))
      commit d e.now
      pure (wrap64 (n +ℤ delta)))

  unfoldable pub decr_by : Bytes → ℤ → M S ℤ
  unfolding incr
  decr_by key decrement = incr key (wrap64 (pos 0 -ℤ decrement))

module _ {S I : Type 0} (d : Driver S I) (e : Env) where
  unfoldable pub join_keys : BitOp → Bytes → List Bytes → M S Bytes
  unfolding join_values
  join_keys op value [] = pure value
  join_keys op value (key ∷ keys) = do
    lift (check_key_size key)
    v ← bucket_get d (encode_kv_key e.db key)
    joined ← lift (join_values op value (bytes_of v))
    join_keys op joined keys

  -- The first source's key is not checked. With one source nothing is done, and NOT has no other number.
  unfoldable pub bit_op : BitOp → Bytes → List Bytes → M S ℤ
  unfolding join_keys
  bit_op op dest_key [] = do lift (check_key_size dest_key); pure (pos 0)
  bit_op op dest_key (key ∷ []) = do lift (check_key_size dest_key); pure (pos 0)
  bit_op bit_op_not dest_key (key ∷ k ∷ keys) = do
    lift (check_key_size dest_key)
    raise err_bit_op_not
  bit_op op dest_key (key ∷ k ∷ keys) = do
    lift (check_key_size dest_key)
    v ← bucket_get d (encode_kv_key e.db key)
    value ← join_keys op (bytes_of v) (k ∷ keys)
    locked (do put (encode_kv_key e.db dest_key) value; commit d e.now; pure (pos (length value)))

  -- The slice panics if the range ends before it starts.
  unfoldable pub bit_count : Bytes → ℤ → ℤ → M S ℤ
  unfolding count_bits
  bit_count key start end = do
    lift (check_key_size key)
    v ← bucket_get d (encode_kv_key e.db key)
    let (from, to) = get_range start end (pos (length (bytes_of v)))
    value ← lift (slice_between (bytes_of v) from to)
    pure (pos (count_bits value))

  unfoldable pub bit_pos : Bytes → ℤ → ℤ → ℤ → M S ℤ
  unfolding bit_pos_from
  bit_pos key on start end = do
    lift (check_key_size key)
    lift (reject_if (not (eqb_ℤ on (pos 0) || eqb_ℤ on (pos 1))) err_bit_value)
    v ← bucket_get d (encode_kv_key e.db key)
    let (from, to) = get_range start end (pos (length (bytes_of v)))
    value ← lift (slice_between (bytes_of v) from to)
    pure (bit_pos_from (eqb_ℤ on (pos 1)) from value)

  unfoldable pub set_bit : Bytes → ℤ → ℤ → M S ℤ
  set_bit key offset on = do
    lift (check_key_size key)
    lift (reject_if (not (eqb_ℤ on (pos 0) || eqb_ℤ on (pos 1))) err_bit_value)
    locked (do
      v ← bucket_get d (encode_kv_key e.db key)
      let byte_offset = to_u32 offset / 8
      let bit = 7 - to_u32 offset % 8
      let value = bytes_of v ++ replicate (byte_offset + 1 - length (bytes_of v)) 0
      byte_val ← lift (byte_at value byte_offset)
      put (encode_kv_key e.db key)
          (set value byte_offset (with_bit byte_val bit (if eqb_ℤ on (pos 1) then 1 else 0)))
      commit d e.now
      pure (is_set byte_val bit))

  unfoldable pub get_bit : Bytes → ℤ → M S ℤ
  get_bit key offset = do
    lift (check_key_size key)
    v ← bucket_get d (encode_kv_key e.db key)
    let bit = 7 - to_u32 offset % 8
    elim (get_elem? (bytes_of v) (to_u32 offset / 8)) [
      | none ↦ pure (pos 0)
      | some b ↦ pure (is_set b bit)
    ]
