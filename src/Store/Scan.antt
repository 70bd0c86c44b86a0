-- ===== src/Store/Scan.antt =====
-- Looking up a key among the rows that a scan (store/iterator.go) gives, and a batch that deletes them.
use Prim.Native.Nat.{Ordering}
use ledisdb.Base.{
  ◌≡◌, ◌≢◌, ◌↔◌, refl, sym, ◌∙◌, Bool, true, ◌&&◌, Option, none, some, List, [], ◌∷◌, ◌++◌,
  if◌then◌else◌, Bool-cases, inl, inr, arith,
}
use ledisdb.Bytes.{Bytes, compare_bytes, equal_bytes}
use ledisdb.Bytes.Compare.{
  compare_swap, compare_above, compare_refl, equal_bytes_iff, equal_bytes_refl,
}
use ledisdb.Store.{Op, put, delete, WriteBatch, replay, batch_delete}
use ledisdb.Store.Map.{Row, find_row}
use ledisdb.Store.Iterator.{Range, at_least, below}
use ledisdb.Store.Rows.{rows_in_range, lower_test, upper_test}
use ledisdb.Ledis.Kv.{is_some}

abbrev pub in_range : Range → Bytes → Bool
in_range r k = lower_test r.type k r.min && upper_test r.type k r.max

pub find_rows_in_range :
    (r : Range) (k : Bytes) (rows : List Row)
    → find_row k (rows_in_range r rows) ≡ (if in_range r k then find_row k rows else none)
unfolding rows_in_range find_row
find_rows_in_range r k [] = ground arith
find_rows_in_range r k ((j, v) ∷ rows) = elim (Bool-cases (equal_bytes j k)) [
  | inl e ↦
      rw ((equal_bytes_iff j k).0 e)
        (ground (arith, find_rows_in_range r k rows, equal_bytes_refl k))
  | inr e ↦ rw e (ground (arith, find_rows_in_range r k rows, e))
]

pub swap_lt : (a b : Bytes) → compare_bytes a b ≡ Ordering.lt → compare_bytes b a ≡ Ordering.gt
swap_lt a b h = compare_above a b a h (rw (compare_refl a) (λ p. cc))

pub at_least_iff : (a b : Bytes) → (at_least a b ≡ true) ↔ (compare_bytes b a ≢ Ordering.gt)
at_least_iff a b = ground (arith, compare_swap b a, swap_lt a b)

pub below_lt : (a b : Bytes) → below a b ≡ true → compare_bytes a b ≡ Ordering.lt
below_lt a b h = ground arith

pub lt_below : (a b : Bytes) → compare_bytes a b ≡ Ordering.lt → below a b ≡ true
lt_below a b h = ground arith

pub and_left : (a b : Bool) → (a && b) ≡ true → a ≡ true
and_left a b h = ground arith

pub and_right : (a b : Bool) → (a && b) ≡ true → b ≡ true
and_right a b h = ground arith

pub both : {a b : Bool} → a ≡ true → b ≡ true → (a && b) ≡ true
both p q = rw (p, q)

pub same_bool : (a b : Bool) → (a ≡ true → b ≡ true) → (b ≡ true → a ≡ true) → a ≡ b
same_bool a b f g = elim (Bool-cases a) [
  | inl h ↦ h ∙ sym (f h)
  | inr h ↦ elim (Bool-cases b) [ inl k ↦ g k ∙ sym k | inr k ↦ h ∙ sym k ]
]

pub replay-delete :
    (ops : List Op) (j k : Bytes) (v : Option Bytes)
    → replay (ops ++ delete j ∷ []) k v ≡ (if equal_bytes j k then none else replay ops k v)
unfolding replay
replay-delete [] j k v = refl
replay-delete (put i w ∷ ops) j k v = replay-delete ops j k (if equal_bytes i k then some w else v)
replay-delete (delete i ∷ ops) j k v = replay-delete ops j k (if equal_bytes i k then none else v)

abbrev pub drop_rows : List Row → WriteBatch → WriteBatch
drop_rows [] b = b
drop_rows ((k, v) ∷ rows) b = drop_rows rows (batch_delete k b)

pub replay-drop_rows :
    (rows : List Row) (b : WriteBatch) (k : Bytes) (v : Option Bytes)
    → replay (drop_rows rows b).ops k v
      ≡ (if is_some (find_row k rows) then none else replay b.ops k v)
unfolding find_row
replay-drop_rows [] b k v = refl
replay-drop_rows ((j, w) ∷ rows) b k v =
    replay-drop_rows rows (batch_delete j b) k v
    ∙ unfold batch_delete in rw (replay-delete b.ops j k v) (ground arith)
