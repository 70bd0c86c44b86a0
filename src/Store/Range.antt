-- ===== src/Store/Range.antt =====
-- A forward range iterator visits the rows whose keys lie in the range, in order, from the offset on
-- and at most as many as the limit says.
use ledisdb.Base.{
  ℕ, zero, suc, ◌+◌, ◌≤◌, ◌≡◌, refl, sym, ap, ◌∙◌, Bool, true, false, not, ◌&&◌, Option, none, some,
  List, [], ◌∷◌, length, drop, if◌then◌else◌, length-drop, inl, inr, arith,
}
use ledisdb.Base.Int.{ℤ, pos, ltb_ℤ}
use ledisdb.Bytes.{Bytes, equal_bytes}
use ledisdb.Store.{Driver}
use ledisdb.Store.Map.{Row, IsSorted, IsOrderedMap, rows_from, is_nil, row_key, tail_rows}
use ledisdb.Store.Iterator.{
  Range, Limit, RangeType, is_l_open, forward, raw, range_valid, range_next, range_limit_iterator,
  range_rows, move, start_forward, skip, stands_at,
}
use ledisdb.Store.Rows.{
  rows_in_range, from_lower, to_upper, rows_in_range-split, seek_open, seek_lower,
  from_lower-IsSorted, length-from_lower, to_upper-drop, cap, cap-nil, cap-cons, upper_ok-test,
  drop-nil, Rows-cases,
}

module _ {S I : Type 0} (d : Driver S I) (m : IsOrderedMap d) where
  stands_rest :
      (i : I) (b : Bytes)
      → stands_at d i b ≡ (not (is_nil (m.rest i)) && equal_bytes (raw (row_key (m.rest i))) b)
  stands_rest i b = rw (m.valid_rest i, m.key_rest i)

  open_end :
      (k : Bytes) (t : Bool) (i : I)
      → m.rest (if t && stands_at d (d.seek i k) k then d.next (d.seek i k) else d.seek i k)
        ≡ (if t then seek_open k (rows_from k (m.all i)) else rows_from k (m.all i))
  open_end k false i = m.rest_seek i k
  open_end k true i =
      ground (arith, stands_rest (d.seek i k) k, m.rest_next (d.seek i k), m.rest_seek i k)

  start_rest :
      (t : RangeType) (min : Option Bytes) (i : I)
      → IsSorted (m.all i)
      → m.rest (start_forward d t min i) ≡ from_lower t min (m.all i)
  unfolding start_forward
  start_rest t none i s = m.rest_first i ∙ sym (from_none (m.all i))
    where
      from_none : (rows : List Row) → from_lower t none rows ≡ rows
      from_none [] = unfold from_lower in refl
      from_none ((k, v) ∷ rows) = unfold from_lower in refl
  start_rest t (some k) i s = open_end k (is_l_open t) i ∙ seek_lower t k (m.all i) s

  skip_rest : (n : ℕ) (i : I) → m.rest (skip d forward n i) ≡ drop n (m.rest i)
  unfolding skip move
  skip_rest zero i = refl
  skip_rest (suc n) i = elim (Rows-cases (m.rest i)) [
    | inl e ↦ rw (m.valid_rest i, e) (skip_rest n i ∙ rw (e, drop-nil) refl)
    | inr (row, rows, e) ↦
        rw (m.valid_rest i, e) (skip_rest n (d.next i) ∙ rw (m.rest_next i, e) refl)
  ]

  -- The loop from a position on.
  walk :
      (r : Range) (l : Limit) (fuel : ℕ) (i : I) (step : ℕ) (rows : List Row)
      → ltb_ℤ l.offset (pos 0) ≡ false
      → m.rest i ≡ rows
      → length rows ≤ fuel
      → range_rows d fuel (record { it = i; r = r; l = l; step = step; direction = forward })
        ≡ cap l.count step (to_upper r.type r.max rows)
  unfolding range_rows range_valid range_next move to_upper
  walk r l zero i step [] o e h = rw cap-nil
  walk r l (suc fuel) i step [] o e h = rw (o, m.valid_rest i, e, cap-nil)
  walk r l zero i step (row ∷ rows) o e h = absurd (omega arith)
  walk r l (suc fuel) i step ((k, v) ∷ rows) o e h =
      rw
        (
          o,
          m.valid_rest i,
          m.key_rest i,
          m.value_rest i,
          e,
          upper_ok-test r.type k r.max,
          walk r l fuel (d.next i) (step + 1) rows o (m.rest_next i ∙ ap tail_rows e) (omega arith),
        )
        (ground
          (arith, cap-nil l.count step, cap-cons l.count step (k, v) (to_upper r.type r.max rows)))

  -- On rows in ascending order, a forward iterator over a range, run to its end, visits exactly the rows whose keys lie in the
  -- range, in the order of the store, without the first `offset` of them, and `count` at most if
  -- `count` is not negative. A round for each row of the store is fuel enough.
  pub range_rows_lem :
      (i : I) (r : Range) (offset : ℕ) (count : ℤ) (fuel : ℕ)
      → IsSorted (m.all i)
      → length (m.all i) ≤ fuel
      → range_rows d fuel
          (range_limit_iterator d i r (record { offset = pos offset; count = count }) forward)
        ≡ cap count 0 (drop offset (rows_in_range r (m.all i)))
  unfolding range_limit_iterator
  range_rows_lem i r offset count fuel s h =
      let lower = from_lower r.type r.min (m.all i) in
      let at : m.rest (skip d forward offset (start_forward d r.type r.min i)) ≡ drop offset lower =
        skip_rest offset (start_forward d r.type r.min i)
        ∙ ap (drop offset) (start_rest r.type r.min i s) in
      let no_neg : ltb_ℤ (pos offset) (pos 0) ≡ false = ground arith in
      rw no_neg (
        walk r (record { offset = pos offset; count = count }) fuel _ 0 (drop offset lower) no_neg
          at (omega (arith, length-drop offset lower, length-from_lower r.type r.min (m.all i)))
        ∙ ap (cap count 0) (
            to_upper-drop r.type r.max offset lower (from_lower-IsSorted r.type r.min (m.all i) s)
            ∙ ap (drop offset) (sym (rows_in_range-split r (m.all i) s))))
