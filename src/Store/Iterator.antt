-- ===== src/Store/Iterator.antt =====
-- store/iterator.go: seeking one key, and iterators over a range with a limit.
use Prim.Native.Nat.{Ordering}
use ledisdb.Base.{
  ℕ, zero, suc, ◌+◌, Bool, true, false, not, ◌&&◌, Option, none, some, List, [], ◌∷◌, if◌then◌else◌,
}
use ledisdb.Base.Int.{ℤ, pos, pos_part, negsuc, ltb_ℤ, leb_ℤ}
use ledisdb.Bytes.{Bytes, compare_bytes, equal_bytes}
use ledisdb.Store.{Driver}

pub data Direction : Type 0 where
  forward backward : Direction

-- `RangeClose`, `RangeLOpen`, `RangeROpen` and `RangeOpen`
pub data RangeType : Type 0 where
  range_close range_l_open range_r_open range_open : RangeType

-- `Type&RangeLOpen > 0` and `Type&RangeROpen > 0`
abbrev pub is_l_open : RangeType → Bool
is_l_open range_close = false
is_l_open range_l_open = true
is_l_open range_r_open = false
is_l_open range_open = true

abbrev pub is_r_open : RangeType → Bool
is_r_open range_close = false
is_r_open range_l_open = false
is_r_open range_r_open = true
is_r_open range_open = true

pub record Range : Type 0 where
  pub min : Option Bytes
  pub max : Option Bytes
  pub type : RangeType

pub record Limit : Type 0 where
  pub offset : ℤ
  pub count : ℤ

-- bytes.Compare(k, b) >= 0, > 0, <= 0, < 0
abbrev pub at_least : Bytes → Bytes → Bool
at_least k b = elim (compare_bytes k b) [ Ordering.lt ↦ false | _ ↦ true ]

abbrev pub above : Bytes → Bytes → Bool
above k b = elim (compare_bytes k b) [ Ordering.gt ↦ true | _ ↦ false ]

abbrev pub at_most : Bytes → Bytes → Bool
at_most k b = elim (compare_bytes k b) [ Ordering.gt ↦ false | _ ↦ true ]

abbrev pub below : Bytes → Bytes → Bool
below k b = elim (compare_bytes k b) [ Ordering.lt ↦ true | _ ↦ false ]

-- A nil slice is an empty one for package bytes.
abbrev pub raw : Option Bytes → Bytes
raw none = []
raw (some k) = k

pub record RangeLimitIterator (I : Type 0) : Type 0 where
  pub it : I
  pub r : Range
  pub l : Limit
  pub step : ℕ
  pub direction : Direction

abbrev pub upper_ok : RangeType → Bytes → Option Bytes → Bool
upper_ok t k none = true
upper_ok t k (some max) = if is_r_open t then not (at_least k max) else not (above k max)

abbrev pub lower_ok : RangeType → Bytes → Option Bytes → Bool
lower_ok t k none = true
lower_ok t k (some min) = if is_l_open t then not (at_most k min) else not (below k min)

abbrev pub bound_ok : Direction → Range → Bytes → Bool
bound_ok forward r k = upper_ok r.type k r.max
bound_ok backward r k = lower_ok r.type k r.min

module _ {S I : Type 0} (d : Driver S I) where
  abbrev found_at : I → Bytes → Option Bytes → Option Bytes
  found_at it key none = none
  found_at it key (some k) = if equal_bytes k key then d.value it else none

  -- `Find` and `RawFind`, with the iterator that they leave.
  unfoldable pub find : I → Bytes → I × Option Bytes
  find it key = let i = d.seek it key in (i, if d.valid i then found_at i key (d.key i) else none)

  unfoldable pub range_valid : RangeLimitIterator I → Bool
  range_valid it =
      if ltb_ℤ it.l.offset (pos 0)
      then false
      else if not (d.valid it.it)
      then false
      else if leb_ℤ (pos 0) it.l.count && leb_ℤ it.l.count (pos it.step)
      then false
      else bound_ok it.direction it.r (raw (d.key it.it))

  unfoldable pub move : Direction → I → I
  move forward i = d.next i
  move backward i = d.prev i

  unfoldable pub range_next : RangeLimitIterator I → RangeLimitIterator I
  unfolding move
  range_next it = record it { it = move it.direction it.it; step = it.step + 1 }

  -- `it.it.Valid() && bytes.Equal(it.it.RawKey(), b)`
  abbrev pub stands_at : I → Bytes → Bool
  stands_at i b = d.valid i && equal_bytes (raw (d.key i)) b

  unfoldable pub start_forward : RangeType → Option Bytes → I → I
  start_forward t none i = d.first i
  start_forward t (some min) i =
      let j = d.seek i min in if is_l_open t && stands_at j min then d.next j else j

  unfoldable pub start_backward : RangeType → Option Bytes → I → I
  start_backward t none i = d.last i
  start_backward t (some max) i =
      let j = d.seek i max in
      let k =
        if not (d.valid j)
        then d.last j
        else if not (equal_bytes (raw (d.key j)) max)
        then d.prev j
        else j in
      if is_r_open t && stands_at k max then d.prev k else k

  -- the loop over the offset
  unfoldable pub skip : Direction → ℕ → I → I
  skip dir zero i = i
  skip dir (suc n) i = skip dir n (if d.valid i then move dir i else i)

  unfoldable pub start : Direction → Range → I → I
  unfolding start_forward start_backward
  start forward r i = start_forward r.type r.min i
  start backward r i = start_backward r.type r.max i

  unfoldable pub range_limit_iterator : I → Range → Limit → Direction → RangeLimitIterator I
  unfolding start skip
  range_limit_iterator i r l direction =
      let at =
        if ltb_ℤ l.offset (pos 0)
        then i
        else skip direction (pos_part l.offset) (start direction r i) in
      record { it = at; r = r; l = l; step = 0; direction = direction }

  -- `NewRangeLimitIterator`, `NewRevRangeLimitIterator`, `NewRangeIterator`, `NewRevRangeIterator`
  unfoldable pub new_range_limit_iterator : I → Range → Limit → RangeLimitIterator I
  unfolding range_limit_iterator
  new_range_limit_iterator i r l = range_limit_iterator i r l forward

  unfoldable pub new_rev_range_limit_iterator : I → Range → Limit → RangeLimitIterator I
  unfolding range_limit_iterator
  new_rev_range_limit_iterator i r l = range_limit_iterator i r l backward

  abbrev pub no_limit : Limit
  no_limit = record { offset = pos 0; count = negsuc 0 }

  unfoldable pub new_range_iterator : I → Range → RangeLimitIterator I
  unfolding range_limit_iterator
  new_range_iterator i r = range_limit_iterator i r no_limit forward

  unfoldable pub new_rev_range_iterator : I → Range → RangeLimitIterator I
  unfolding range_limit_iterator
  new_rev_range_iterator i r = range_limit_iterator i r no_limit backward

  -- `for ; it.Valid(); it.Next()` with the key and the value of each round; at most `fuel` rounds.
  unfoldable pub range_rows : ℕ → RangeLimitIterator I → List (Bytes × Bytes)
  range_rows zero it = []
  range_rows (suc fuel) it =
      let rest = (raw (d.key it.it), raw (d.value it.it)) ∷ range_rows fuel (range_next it) in
      if range_valid it then rest else []
