-- ===== src/Ledis/Zset/Limits.antt =====
-- Which rows `zParseLimit` of ledis/t_zset.go selects.
use ledisdb.Base.{
  ℕ, suc, ◌+◌, ◌-◌, ◌^◌, ◌<◌, ◌≤◌, ltb, leb, ◌==◌, ◌≡◌, refl, ◌∙◌, Bool, true, false, not, ◌&&◌,
  ◌||◌, Bool-cases, inl, inr, if◌then◌else◌, arith,
}
use ledisdb.Base.Int.{ℤ, pos, negsuc, IsInt64, ◌+ℤ◌, ◌-ℤ◌, leb_ℤ, ltb_ℤ, wrap64, wrap64-id}
use ledisdb.Error.{ok}
use ledisdb.Bytes.{Bytes}
use ledisdb.Key.{check_key_size}
use ledisdb.Key.Plain.{z_encode_size_key}
use ledisdb.Store.{Driver}
use ledisdb.Store.Map.{IsOrderedMap}
use ledisdb.Ledis.{Env, State}
use ledisdb.Ledis.Commit.{look}
use ledisdb.Ledis.Value.{int64}
use ledisdb.Ledis.Zset.{z_card}
use ledisdb.Ledis.Zset.Ranges.{limit_from, z_parse_limit}

-- The row that an index of a client means: a negative one counts from the end.
abbrev pub row_of : ℕ → ℤ → ℤ
row_of n i = if ltb_ℤ i (pos 0) then pos n +ℤ i else i

-- Whether a scan with an offset and a count gives the row `i`; a negative count is no limit.
abbrev pub selects : ℤ × ℤ → ℕ → Bool
selects (offset, count) i =
    not (ltb_ℤ offset (pos 0))
    && (leb_ℤ offset (pos i) && (ltb_ℤ count (pos 0) || ltb_ℤ (pos i) (offset +ℤ count)))

unwrapped :
    (n : ℕ) (i : ℤ)
    → n < 2 ^ 63
    → IsInt64 i
    → (if ltb_ℤ i (pos 0) then wrap64 (pos n +ℤ i) else i) ≡ row_of n i
unwrapped n (pos k) h b = let up : ltb (k + 0) 0 ≡ false = ground arith in rw up
unwrapped n (negsuc k) h b =
    let down : ltb 0 (0 + suc k) ≡ true = ground arith in
    rw down (wrap64-id (pos n +ℤ negsuc k) (unfold ◌+ℤ◌ in ground arith))

wrap64_at_end : wrap64 (pos (2 ^ 63)) ≡ negsuc (2 ^ 63 - 1)
unfolding wrap64
wrap64_at_end = refl

-- The rows from the row `a` to the row `b`, as an offset and a count
count_selects :
    (a b i : ℕ)
    → a ≤ b
    → b < 2 ^ 63
    → i < 2 ^ 63
    → selects (pos a, wrap64 (wrap64 (pos b -ℤ pos a) +ℤ pos 1)) i ≡ (leb a i && leb i b)
count_selects a b i le h hi =
    let d : pos b -ℤ pos a ≡ pos (b - a) = (unfold ◌-ℤ◌ in ground arith) in
    let e : pos (b - a) +ℤ pos 1 ≡ pos (b - a + 1) = (unfold ◌+ℤ◌ in ground arith) in
    rw (d, wrap64-id (pos (b - a)) (omega arith), e)
      (elim (Bool-cases (b - a + 1 == 2 ^ 63)) [
        | inl p ↦
            (let whole : b - a + 1 ≡ 2 ^ 63 = ground arith in
              rw (whole, wrap64_at_end) (ground arith))
        | inr p ↦ rw (wrap64-id (pos (b - a + 1)) (ground arith)) (unfold ◌+ℤ◌ in ground arith)
      ])

-- The selection from rows that are counted from the front, where a start before the first row is that.
abbrev from_rows : Bool → ℕ → ℤ → ℤ → ℤ × ℤ
from_rows negative n a b =
    let start = if ltb_ℤ a (pos 0) then pos 0 else a in
    if (negative && leb_ℤ (pos n) start) || ltb_ℤ b start
    then (negsuc 0, pos 0)
    else (start, wrap64 (wrap64 (b -ℤ start) +ℤ pos 1))

from_row :
    (negative : Bool) (n i a : ℕ) (b : ℤ)
    → n < 2 ^ 63
    → i < n
    → IsInt64 b
    → selects
        (if (negative && leb_ℤ (pos n) (pos a)) || ltb_ℤ b (pos a)
          then (negsuc 0, pos 0)
          else (pos a, wrap64 (wrap64 (b -ℤ pos a) +ℤ pos 1)))
        i
      ≡ (leb_ℤ (pos a) (pos i) && leb_ℤ (pos i) b)
from_row negative n i a (negsuc b) h lt hb =
    let before : ltb_ℤ (negsuc b) (pos a) ≡ true = ground arith in rw before (ground arith)
from_row negative n i a (pos b) h lt hb =
    elim (Bool-cases ((negative && leb_ℤ (pos n) (pos a)) || ltb_ℤ (pos b) (pos a))) [
      | inl p ↦ rw p (ground arith)
      | inr p ↦ rw p (count_selects a b i (ground arith) (omega arith) (omega arith) ∙ ground arith)
    ]

from_rows_lem :
    (negative : Bool) (n i : ℕ) (a b : ℤ)
    → n < 2 ^ 63
    → i < n
    → IsInt64 b
    → selects (from_rows negative n a b) i ≡ (leb_ℤ a (pos i) && leb_ℤ (pos i) b)
from_rows_lem negative n i (pos a) b h lt hb =
    let up : ltb_ℤ (pos a) (pos 0) ≡ false = ground arith in
    rw up (from_row negative n i a b h lt hb)
from_rows_lem negative n i (negsuc a) b h lt hb =
    let down : ltb_ℤ (negsuc a) (pos 0) ≡ true = ground arith in
    rw down (from_row negative n i 0 b h lt hb ∙ ground arith)

row_of-IsInt64 : (n : ℕ) (i : ℤ) → n < 2 ^ 63 → IsInt64 i → IsInt64 (row_of n i)
row_of-IsInt64 n (pos k) h b = let up : ltb (k + 0) 0 ≡ false = ground arith in rw up b
row_of-IsInt64 n (negsuc k) h b =
    let down : ltb 0 (0 + suc k) ≡ true = ground arith in rw down (unfold ◌+ℤ◌ in ground arith)

limit_from-rows :
    (n i : ℕ) (start stop : ℤ)
    → n < 2 ^ 63
    → i < n
    → IsInt64 start
    → IsInt64 stop
    → selects (limit_from (pos n) start stop) i
      ≡ (leb_ℤ (row_of n start) (pos i) && leb_ℤ (pos i) (row_of n stop))
unfolding limit_from
limit_from-rows n i start stop h lt hs he =
    rw (unwrapped n start h hs, unwrapped n stop h he)
      (from_rows_lem (ltb_ℤ start (pos 0) || ltb_ℤ stop (pos 0)) n i (row_of n start)
        (row_of n stop) h lt (row_of-IsInt64 n stop h he))

module _ {S I : Type 0} {d : Driver S I} (m : IsOrderedMap d) (e : Env) (key : Bytes)
    (s : State S) where
  limit_run :
      (n : ℕ) (start stop : ℤ)
      → check_key_size key ≡ ok tt
      → int64 (ok (look m s (z_encode_size_key e.db key))) ≡ ok (pos n)
      → z_parse_limit d e key start stop s ≡ (ok (limit_from (pos n) start stop), s)
  unfolding z_parse_limit z_card
  limit_run n start stop kh size = elim (Bool-cases (ltb_ℤ start (pos 0) || ltb_ℤ stop (pos 0))) [
    | inl p ↦ rw (p, kh, m.get_row s.store (z_encode_size_key e.db key), size)
    | inr p ↦
        (let first : ltb_ℤ start (pos 0) ≡ false = ground arith in
          let last : ltb_ℤ stop (pos 0) ≡ false = ground arith in
          rw p (unfold limit_from in rw (first, last)))
  ]

  -- For a key of an allowed size whose size record says n, below 2 ^ 63, and 64-bit indexes of either
  -- sign: zParseLimit changes nothing, and a scan with the offset and the count that it returns gives
  -- exactly those of the n rows that lie between the two that the indexes mean, the count's overflow
  -- and indexes out of range included.
  pub z_parse_limit_lem :
      (n : ℕ) (start stop : ℤ)
      → check_key_size key ≡ ok tt
      → int64 (ok (look m s (z_encode_size_key e.db key))) ≡ ok (pos n)
      → n < 2 ^ 63
      → IsInt64 start
      → IsInt64 stop
      → (limit : ℤ × ℤ) × (z_parse_limit d e key start stop s ≡ (ok limit, s))
        × ((i : ℕ)
            → i < n
            → selects limit i ≡ (leb_ℤ (row_of n start) (pos i) && leb_ℤ (pos i) (row_of n stop)))
  z_parse_limit_lem n start stop kh size h hs he = (
    limit_from (pos n) start stop,
    limit_run n start stop kh size,
    λ i lt. limit_from-rows n i start stop h lt hs he,
  )
