-- ===== src/Store/Map.antt =====
-- What the code relies on of a storage driver: an ordered map from keys to values, whose batches are
-- applied in order and whose iterators walk the rows that it had when they were made.
use Prim.Native.Nat.{Ordering}
use ledisdb.Base.{◌≡◌, Bool, true, false, not, Option, none, some, List, [], ◌∷◌, if◌then◌else◌}
use ledisdb.Error.{ok}
use ledisdb.Bytes.{Bytes, compare_bytes, equal_bytes}
use ledisdb.Store.{Op, Driver, replay}

abbrev pub Row : Type 0
Row = Bytes × Bytes

-- The rows are in strictly ascending order: each is below all that follow.
abbrev pub Below : Bytes → List Row → Type 0
Below k [] = Unit {0}
Below k ((j, v) ∷ rows) = (compare_bytes k j ≡ Ordering.lt) × Below k rows

abbrev pub IsSorted : List Row → Type 0
IsSorted [] = Unit {0}
IsSorted ((k, v) ∷ rows) = Below k rows × IsSorted rows

unfoldable pub find_row : Bytes → List Row → Option Bytes
find_row k [] = none
find_row k ((j, v) ∷ rows) = if equal_bytes j k then some v else find_row k rows

-- The rows from the first whose key is not below `k`.
unfoldable pub rows_from : Bytes → List Row → List Row
rows_from k [] = []
rows_from k ((j, v) ∷ rows) = elim (compare_bytes j k) [
  | Ordering.lt ↦ rows_from k rows
  | _ ↦ (j, v) ∷ rows
]

abbrev pub is_nil : List Row → Bool
is_nil [] = true
is_nil (r ∷ rows) = false

abbrev pub row_key : List Row → Option Bytes
row_key [] = none
row_key ((k, v) ∷ rows) = some k

abbrev pub row_value : List Row → Option Bytes
row_value [] = none
row_value ((k, v) ∷ rows) = some v

abbrev pub tail_rows : List Row → List Row
tail_rows [] = []
tail_rows (r ∷ rows) = rows

-- A driver that does not fail. `rows s` are the contents of a database, `all i` the contents that an
-- iterator was made from, and `rest i` the rows from its position on.
pub record IsOrderedMap {S I : Type 0} (d : Driver S I) : Type 0 where
  pub rows : S → List Row
  pub sorted : (s : S) → IsSorted (rows s)
  pub get_row : (s : S) (k : Bytes) → d.get s k ≡ ok (find_row k (rows s))
  pub written : S → List Op → S
  pub write_ok : (s : S) (ops : List Op) → d.write s ops ≡ ok (written s ops)
  pub find_written :
      (s : S) (ops : List Op) (k : Bytes)
      → find_row k (rows (written s ops)) ≡ replay ops k (find_row k (rows s))
  pub load_dump : (ops : List Op) → d.load (d.dump ops) ≡ ok tt
  pub load_ops_dump : (ops : List Op) → d.load_ops (d.dump ops) ≡ ops
  pub all : I → List Row
  pub rest : I → List Row
  pub all_new : (s : S) → all (d.new_iterator s) ≡ rows s
  pub all_first : (i : I) → all (d.first i) ≡ all i
  pub rest_first : (i : I) → rest (d.first i) ≡ all i
  pub all_seek : (i : I) (k : Bytes) → all (d.seek i k) ≡ all i
  pub rest_seek : (i : I) (k : Bytes) → rest (d.seek i k) ≡ rows_from k (all i)
  pub all_next : (i : I) → all (d.next i) ≡ all i
  pub rest_next : (i : I) → rest (d.next i) ≡ tail_rows (rest i)
  pub valid_rest : (i : I) → d.valid i ≡ not (is_nil (rest i))
  pub key_rest : (i : I) → d.key i ≡ row_key (rest i)
  pub value_rest : (i : I) → d.value i ≡ row_value (rest i)
