-- ===== src/Ledis/Scans/Cursor.antt =====
-- What is left of the rows of a range behind one of them: where a scan (ledis/scan.go) goes on from a cursor.
use Prim.Native.Nat.{Ordering}
use ledisdb.Base.{
  ◌≤◌, ◌≡◌, refl, sym, ap, ◌∙◌, inl, inr, true, false, ◌&&◌, none, some, List, [], ◌∷◌, ◌++◌,
  length, Bool-cases, arith,
}
use ledisdb.Bytes.{Bytes, compare_bytes, equal_bytes}
use ledisdb.Bytes.Compare.{compare_refl, equal-compare}
use ledisdb.Store.Map.{Row, Below, IsSorted, find_row}
use ledisdb.Store.Iterator.{Range, range_open, range_r_open, above, below}
use ledisdb.Store.Rows.{rows_in_range, lower_test, upper_test, lower_up}
use ledisdb.Store.Scan.{swap_lt, and_left}

-- The bounds are left out on both sides.
abbrev pub between : Bytes → Bytes → Range
between low high = record { min = some low; max = some high; type = range_open }

abbrev pub from : Bytes → Bytes → Range
from low high = record { min = some low; max = some high; type = range_r_open }

above_lt : (k low : Bytes) → compare_bytes low k ≡ Ordering.lt → above k low ≡ true
above_lt k low h = ground (arith, swap_lt low k h)

above_not : (k low : Bytes) → compare_bytes k low ≡ Ordering.lt → above k low ≡ false
above_not k low h = ground arith

above_self : (k : Bytes) → above k k ≡ false
above_self k = ground (arith, compare_refl k)

-- Behind a row that is above `low` all rows are.
same_above :
    (low k high : Bytes) (rows : List Row)
    → above k low ≡ true
    → Below k rows
    → rows_in_range (between low high) rows ≡ rows_in_range (between k high) rows
unfolding rows_in_range
same_above low k high [] h b = refl
same_above low k high ((j, w) ∷ rows) h (lt, b) =
    let up = lower_up range_open k j (some low) lt h in
    let up' = above_lt j k lt in rw (up, up', same_above low k high rows h b) refl

rows_in_range-Below :
    (r : Range) (j : Bytes) (rows : List Row) → Below j rows → Below j (rows_in_range r rows)
unfolding rows_in_range
rows_in_range-Below r j [] b = tt
rows_in_range-Below r j ((i, w) ∷ rows) (lt, b) =
    elim (Bool-cases (lower_test r.type i r.min && upper_test r.type i r.max)) [
      | inl e ↦ rw e (lt, rows_in_range-Below r j rows b)
      | inr e ↦ rw e (rows_in_range-Below r j rows b)
    ]

Below-middle :
    (j k v : Bytes) (front behind : List Row)
    → Below j (front ++ ((k, v) ∷ behind))
    → compare_bytes j k ≡ Ordering.lt
Below-middle j k v [] behind b = b.0
Below-middle j k v (f ∷ front) behind b = Below-middle j k v front behind b.1

found-Below :
    (r : Range) (j k v : Bytes) (front behind rows : List Row)
    → Below j rows
    → rows_in_range r rows ≡ front ++ ((k, v) ∷ behind)
    → compare_bytes j k ≡ Ordering.lt
found-Below r j k v front behind rows b e =
    Below-middle j k v front behind (rw (sym e) (rows_in_range-Below r j rows b))

skipped :
    (low high j w : Bytes) (rows : List Row)
    → (above j low && below j high) ≡ false
    → rows_in_range (between low high) ((j, w) ∷ rows) ≡ rows_in_range (between low high) rows
unfolding rows_in_range
skipped low high j w rows h = rw h refl

kept :
    (low high j w : Bytes) (rows : List Row)
    → (above j low && below j high) ≡ true
    → rows_in_range (between low high) ((j, w) ∷ rows)
      ≡ (j, w) ∷ rows_in_range (between low high) rows
unfolding rows_in_range
kept low high j w rows h = rw h refl

not_above :
    (j k high w : Bytes) (rows : List Row)
    → above j k ≡ false
    → rows_in_range (between k high) ((j, w) ∷ rows) ≡ rows_in_range (between k high) rows
unfolding rows_in_range
not_above j k high w rows h = rw h refl

abbrev head_of : Row → List Row → Row
head_of d [] = d
head_of d (r ∷ rows) = r

abbrev tail_of : List Row → List Row
tail_of [] = []
tail_of (r ∷ rows) = rows

-- The rows behind a row of a range are those of the range that starts at it.
pub rest_after :
    (low high k v : Bytes) (front behind rows : List Row)
    → IsSorted rows
    → rows_in_range (between low high) rows ≡ front ++ ((k, v) ∷ behind)
    → rows_in_range (between k high) rows ≡ behind
unfolding rows_in_range
rest_after low high k v [] behind [] s e = ground (arith, e)
rest_after low high k v (f ∷ front) behind [] s e = ground (arith, e)
rest_after low high k v [] behind ((j, w) ∷ rows) (b, s) e =
    elim (Bool-cases (above j low && below j high)) [
      | inr out ↦
          let later = sym (skipped low high j w rows out) ∙ e in
          let lt = found-Below (between low high) j k v [] behind rows b later in
          not_above j k high w rows (above_not j k lt)
          ∙ rest_after low high k v [] behind rows s later
      | inl inside ↦
          let same = sym (kept low high j w rows inside) ∙ e in
          let key : j ≡ k = ap (λ l. (head_of (j, w) l).0) same in
          let tail : rows_in_range (between low high) rows ≡ behind = ap tail_of same in
          ap (λ l. rows_in_range (between l high) ((j, w) ∷ rows)) (sym key)
          ∙ not_above j j high w rows (above_self j)
          ∙ sym (same_above low j high rows (and_left _ _ inside) b)
          ∙ tail
    ]
rest_after low high k v (f ∷ front) behind ((j, w) ∷ rows) (b, s) e =
    elim (Bool-cases (above j low && below j high)) [
      | inr out ↦
          let later = sym (skipped low high j w rows out) ∙ e in
          let lt = found-Below (between low high) j k v (f ∷ front) behind rows b later in
          not_above j k high w rows (above_not j k lt)
          ∙ rest_after low high k v (f ∷ front) behind rows s later
      | inl inside ↦
          let later = ap tail_of (sym (kept low high j w rows inside) ∙ e) in
          let lt = found-Below (between low high) j k v front behind rows b later in
          not_above j k high w rows (above_not j k lt)
          ∙ rest_after low high k v front behind rows s later
    ]

-- A range that is closed at its start has no further row if there is none at its start.
pub open_at_start :
    (low high : Bytes) (rows : List Row)
    → find_row low rows ≡ none
    → rows_in_range (between low high) rows ≡ rows_in_range (from low high) rows
unfolding rows_in_range find_row
open_at_start low high [] h = refl
open_at_start low high ((j, w) ∷ rows) h = elim (Bool-cases (equal_bytes j low)) [
  | inl same ↦ ground (arith, h, same)
  | inr other ↦
      let later : find_row low rows ≡ none = ground (arith, h, other) in
      ground (arith, other, open_at_start low high rows later, equal-compare j low)
]

pub length-rows_in_range :
    (r : Range) (rows : List Row) → length (rows_in_range r rows) ≤ length rows
unfolding rows_in_range
length-rows_in_range r [] = omega arith
length-rows_in_range r ((j, w) ∷ rows) = ground (arith, length-rows_in_range r rows)
