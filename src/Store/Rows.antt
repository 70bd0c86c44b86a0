-- ===== src/Store/Rows.antt =====
-- The rows of a range, and what the two ends of a range iterator (store/iterator.go) do to rows in
-- ascending order.
use Prim.Native.Nat.{Ordering}
use ledisdb.Base.{
  ℕ, zero, suc, ◌+◌, ◌-◌, ◌≤◌, ◌≡◌, refl, Bool, true, false, not, ◌&&◌, Option, none, some, List,
  [], ◌∷◌, length, drop, take, if◌then◌else◌, ◌⊎◌, Bool-cases, inl, inr, arith,
}
use native.Mathlib.Decide.{dec_lt}
use ledisdb.Base.Int.{ℤ, pos, negsuc, leb_ℤ}
use ledisdb.Bytes.{Bytes, compare_bytes, equal_bytes}
use ledisdb.Bytes.Compare.{compare_above, equal-compare, equal-compare_ne}
use ledisdb.Store.Map.{Row, Below, IsSorted, rows_from, is_nil, row_key, tail_rows}
use ledisdb.Store.Iterator.{
  Range, RangeType, is_l_open, is_r_open, at_least, above, at_most, below, raw, upper_ok,
}

-- Inside a range at both ends, whatever the direction: [min, max], (min, max], [min, max), (min, max).
abbrev pub lower_test : RangeType → Bytes → Option Bytes → Bool
lower_test t k none = true
lower_test t k (some min) = if is_l_open t then above k min else at_least k min

abbrev pub upper_test : RangeType → Bytes → Option Bytes → Bool
upper_test t k none = true
upper_test t k (some max) = if is_r_open t then below k max else at_most k max

unfoldable pub rows_in_range : Range → List Row → List Row
rows_in_range r [] = []
rows_in_range r ((k, v) ∷ rows) =
    let rest = rows_in_range r rows in
    if lower_test r.type k r.min && upper_test r.type k r.max then (k, v) ∷ rest else rest

-- What the two halves of the iterator do to the rows.
unfoldable pub from_lower : RangeType → Option Bytes → List Row → List Row
from_lower t min [] = []
from_lower t min ((k, v) ∷ rows) =
    let rest = from_lower t min rows in if lower_test t k min then (k, v) ∷ rows else rest

unfoldable pub to_upper : RangeType → Option Bytes → List Row → List Row
to_upper t max [] = []
to_upper t max ((k, v) ∷ rows) =
    let rest = (k, v) ∷ to_upper t max rows in if upper_test t k max then rest else []

pub lower_up :
    (t : RangeType) (k j : Bytes) (min : Option Bytes)
    → compare_bytes k j ≡ Ordering.lt
    → lower_test t k min ≡ true
    → lower_test t j min ≡ true
lower_up t k j none lt h = refl
lower_up t k j (some min) lt h = ground (arith, compare_above k j min)

pub upper_up :
    (t : RangeType) (k j : Bytes) (max : Option Bytes)
    → compare_bytes k j ≡ Ordering.lt
    → upper_test t k max ≡ false
    → upper_test t j max ≡ false
upper_up t k j none lt h = cc
upper_up t k j (some max) lt h = ground (arith, compare_above k j max)

pub none_left :
    (r : Range) (k : Bytes) (rows : List Row)
    → Below k rows
    → upper_test r.type k r.max ≡ false
    → rows_in_range r rows ≡ []
unfolding rows_in_range
none_left r k [] b h = refl
none_left r k ((j, v) ∷ rows) (lt, b) h =
    rw (none_left r k rows b h, upper_up r.type k j r.max lt h) (ground arith)

pub upper_rows :
    (r : Range) (k : Bytes) (rows : List Row)
    → Below k rows
    → IsSorted rows
    → lower_test r.type k r.min ≡ true
    → rows_in_range r rows ≡ to_upper r.type r.max rows
unfolding rows_in_range to_upper
upper_rows r k [] b s h = refl
upper_rows r k ((j, v) ∷ rows) (lt, b) (bj, s) h =
    ground (arith, lower_up r.type k j r.min lt h, upper_rows r k rows b s h, none_left r j rows bj)

pub rows_in_range-split :
    (r : Range) (rows : List Row)
    → IsSorted rows
    → rows_in_range r rows ≡ to_upper r.type r.max (from_lower r.type r.min rows)
unfolding rows_in_range from_lower to_upper
rows_in_range-split r [] s = refl
rows_in_range-split r ((k, v) ∷ rows) (b, s) =
    ground (arith, rows_in_range-split r rows s, upper_rows r k rows b s, none_left r k rows b)

pub above_all :
    (t : RangeType) (m : Bytes) (k : Bytes) (rows : List Row)
    → Below k rows
    → compare_bytes k m ≡ Ordering.eq
    → from_lower t (some m) rows ≡ rows
unfolding from_lower
above_all t m k [] b e = refl
above_all t m k ((j, v) ∷ rows) (lt, b) e = ground (arith, compare_above k j m lt (λ p. cc))

-- After `Seek` the iterator may stand at the bound, which an open end passes over.
abbrev pub seek_open : Bytes → List Row → List Row
seek_open m rows =
    if not (is_nil rows) && equal_bytes (raw (row_key rows)) m then tail_rows rows else rows

pub seek_lower :
    (t : RangeType) (m : Bytes) (rows : List Row)
    → IsSorted rows
    → (if is_l_open t then seek_open m (rows_from m rows) else rows_from m rows)
      ≡ from_lower t (some m) rows
unfolding rows_from from_lower
seek_lower t m [] s = ground arith
seek_lower t m ((k, v) ∷ rows) (b, s) =
    ground (
      arith,
      seek_lower t m rows s,
      above_all t m k rows b,
      equal-compare k m,
      equal-compare_ne k m,
    )

pub from_lower-IsSorted :
    (t : RangeType) (min : Option Bytes) (rows : List Row)
    → IsSorted rows
    → IsSorted (from_lower t min rows)
unfolding from_lower
from_lower-IsSorted t min [] s = tt
from_lower-IsSorted t min ((k, v) ∷ rows) (b, s) = elim (Bool-cases (lower_test t k min)) [
  | inl e ↦ rw e (b, s)
  | inr e ↦ rw e (from_lower-IsSorted t min rows s)
]

pub length-from_lower :
    (t : RangeType) (min : Option Bytes) (rows : List Row)
    → length (from_lower t min rows) ≤ length rows
unfolding from_lower
length-from_lower t min [] = omega arith
length-from_lower t min ((k, v) ∷ rows) = ground (arith, length-from_lower t min rows)

pub to_upper_none :
    (t : RangeType) (k : Bytes) (max : Option Bytes) (n : ℕ) (rows : List Row)
    → Below k rows
    → upper_test t k max ≡ false
    → to_upper t max (drop n rows) ≡ []
unfolding to_upper
to_upper_none t k max zero [] b h = refl
to_upper_none t k max (suc n) [] b h = refl
to_upper_none t k max zero ((j, v) ∷ rows) (lt, b) h = rw (upper_up t k j max lt h)
to_upper_none t k max (suc n) ((j, v) ∷ rows) (lt, b) h = to_upper_none t k max n rows b h

pub to_upper-drop :
    (t : RangeType) (max : Option Bytes) (n : ℕ) (rows : List Row)
    → IsSorted rows
    → to_upper t max (drop n rows) ≡ drop n (to_upper t max rows)
unfolding to_upper
to_upper-drop t max zero rows s = refl
to_upper-drop t max (suc n) [] s = refl
to_upper-drop t max (suc n) ((k, v) ∷ rows) (b, s) = elim (Bool-cases (upper_test t k max)) [
  | inl e ↦ rw e (to_upper-drop t max n rows s)
  | inr e ↦ rw e (to_upper_none t k max n rows b e)
]

-- `count` rows at most, `step` of which are behind; a negative count is no limit.
unfoldable pub cap : ℤ → ℕ → List Row → List Row
cap (pos count) step rows = take (count - step) rows
cap (negsuc n) step rows = rows

pub cap-nil : (c : ℤ) (step : ℕ) → cap c step [] ≡ []
unfolding cap
cap-nil (pos count) step = take-nil (count - step)
  where
    take-nil : (n : ℕ) → take {A = Row} n [] ≡ []
    take-nil zero = refl
    take-nil (suc n) = refl
cap-nil (negsuc n) step = refl

pub cap-cons :
    (c : ℤ) (step : ℕ) (row : Row) (rows : List Row)
    → cap c step (row ∷ rows)
      ≡ (if leb_ℤ (pos 0) c && leb_ℤ c (pos step) then [] else row ∷ cap c (step + 1) rows)
unfolding cap
cap-cons (pos count) step row rows = elim (dec_lt step count) [
  | yes p ↦ let e : count - step ≡ suc (count - (step + 1)) = omega arith in rw e (ground arith)
  | no p ↦ let e : count - step ≡ 0 = omega arith in rw e (ground arith)
]
cap-cons (negsuc n) step row rows = ground arith

pub upper_ok-test :
    (t : RangeType) (k : Bytes) (max : Option Bytes) → upper_ok t k max ≡ upper_test t k max
upper_ok-test t k none = refl
upper_ok-test t k (some max) = ground arith

pub drop-nil : (n : ℕ) → drop {A = Row} n [] ≡ []
drop-nil zero = refl
drop-nil (suc n) = refl

pub Rows-cases :
    (rows : List Row) → (rows ≡ []) ⊎ ((r : Row) × (rest : List Row) × (rows ≡ r ∷ rest))
Rows-cases [] = inl refl
Rows-cases (r ∷ rows) = inr (r, rows, refl)
