-- ===== src/Bytes.antt =====
-- Go's byte slices as lists of numbers below 256: the equality and the order of package bytes, the
-- fixed-width integers of encoding/binary, and slicing with its run-time panic.
pub mod Compare
pub mod Endian
pub mod Slices
use Prim.Native.Nat.{compare, Ordering}
use ledisdb.Base.{
  ℕ, zero, suc, ◌+◌, ◌-◌, ◌*◌, ◌/◌, ◌%◌, ◌<◌, ◌≤◌, Bool, true, false, ◌&&◌, List, [], ◌∷◌, ◌++◌,
  length, take, drop, get_elem?, ltb, ◌==◌, if◌then◌else◌, All,
}
use ledisdb.Error.{Result, ok, err, panic, or_panic}

abbrev pub Bytes : Type 0
Bytes = List ℕ

abbrev pub IsBytes : Bytes → Type 0
IsBytes = All (λ b. b < 256)

-- bytes.Compare
unfoldable pub compare_bytes : Bytes → Bytes → Ordering
compare_bytes [] [] = Ordering.eq
compare_bytes [] (y ∷ ys) = Ordering.lt
compare_bytes (x ∷ xs) [] = Ordering.gt
compare_bytes (x ∷ xs) (y ∷ ys) =
    let rest = compare_bytes xs ys in
    elim (compare x y) [
      | Ordering.lt ↦ Ordering.lt
      | Ordering.eq ↦ rest
      | Ordering.gt ↦ Ordering.gt
    ]

-- bytes.Equal
unfoldable pub equal_bytes : Bytes → Bytes → Bool
equal_bytes [] [] = true
equal_bytes [] (y ∷ ys) = false
equal_bytes (x ∷ xs) [] = false
equal_bytes (x ∷ xs) (y ∷ ys) = x == y && equal_bytes xs ys

-- `PutUint16`, `PutUint32` and `PutUint64` of binary.BigEndian at k = 2, 4, 8
unfoldable pub big_endian : ℕ → ℕ → Bytes
big_endian zero n = []
big_endian (suc k) n = big_endian k (n / 256) ++ n % 256 ∷ []

unfoldable pub big_endian_from : ℕ → Bytes → ℕ
big_endian_from acc [] = acc
big_endian_from acc (b ∷ bs) = big_endian_from (acc * 256 + b) bs

-- `Uint16`, `Uint32`, `Uint64` of binary.BigEndian: the first k bytes, and a panic on a shorter slice
unfoldable pub read_big_endian : ℕ → Bytes → Result ℕ
unfolding big_endian_from
read_big_endian k bs = if ltb (length bs) k then err panic else ok (big_endian_from 0 (take k bs))

unfoldable pub little_endian : ℕ → ℕ → Bytes
little_endian zero n = []
little_endian (suc k) n = (n % 256) ∷ little_endian k (n / 256)

unfoldable pub little_endian_value : Bytes → ℕ
little_endian_value [] = 0
little_endian_value (b ∷ bs) = b + 256 * little_endian_value bs

-- `b[i]`
unfoldable pub byte_at : Bytes → ℕ → Result ℕ
byte_at bs i = or_panic (get_elem? bs i)

-- `b[i:]`
unfoldable pub slice_from : Bytes → ℕ → Result Bytes
slice_from bs i = if ltb (length bs) i then err panic else ok (drop i bs)

-- `b[i:j]`
unfoldable pub slice : Bytes → ℕ → ℕ → Result Bytes
slice bs i j =
    if ltb (length bs) j
    then err panic
    else if ltb j i
    then err panic
    else ok (take (j - i) (drop i bs))
