-- ===== src/Samples/Stores.antt =====
-- The range iterator over the rows of a small store, and commits into it.
use ledisdb.Base.{◌≡◌, refl, some, List, [], ◌∷◌, drop, arith}
use ledisdb.Base.Int.{pos}
use ledisdb.Bytes.{compare_bytes}
use ledisdb.Store.Map.{Row, IsSorted}
use ledisdb.Store.Iterator.{Range, range_r_open, range_limit_iterator, range_rows, forward}
use ledisdb.Store.Rows.{rows_in_range, cap}
use ledisdb.Store.Range.{range_rows_lem}
use ledisdb.Samples.Memory.{memory, memory-IsOrderedMap, Cursor}

abbrev four : List Row
four = (1 ∷ [], 10 ∷ []) ∷ (2 ∷ [], 20 ∷ []) ∷ (2 ∷ 0 ∷ [], 21 ∷ []) ∷ (3 ∷ [], 30 ∷ []) ∷ []

abbrev over_four : Cursor
over_four = record { from = four; ahead = [] }

abbrev from_two : Range
from_two = record { min = some (2 ∷ []); max = some (3 ∷ []); type = range_r_open }

four-IsSorted : IsSorted four
unfolding compare_bytes
four-IsSorted = ((refl, (refl, (refl, tt))), ((refl, (refl, tt)), ((refl, tt), (tt, tt))))

range_rows_lem_example :
    range_rows memory 4 (
      range_limit_iterator memory over_four from_two
        (record { offset = pos 1; count = pos 5 })
        forward)
    ≡ cap (pos 5) 0 (drop 1 (rows_in_range from_two four))
unfolding memory memory-IsOrderedMap
range_rows_lem_example =
    range_rows_lem memory memory-IsOrderedMap over_four from_two 1 (pos 5) 4 four-IsSorted
      (omega arith)
