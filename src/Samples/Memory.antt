-- ===== src/Samples/Memory.antt =====
-- A storage driver over a sorted list of rows, which is an ordered map that does not fail.
use Prim.Native.Nat.{Ordering}
use ledisdb.Base.{
  ℕ, zero, suc, ◌≤◌, ◌≡◌, refl, ap, ◌∙◌, not, none, some, List, [], ◌∷◌, ◌++◌, length, take, drop,
  length-append, take-append, drop-append, if◌then◌else◌, arith,
}
use ledisdb.Error.{ok}
use ledisdb.Bytes.{Bytes, compare_bytes, equal_bytes}
use ledisdb.Bytes.Compare.{
  compare_trans, compare_swap, compare-eq, equal-compare_ne, equal_bytes_iff,
}
use ledisdb.Store.{Op, Driver, put, delete, replay}
use ledisdb.Store.Map.{
  Row, Below, IsSorted, find_row, rows_from, IsOrderedMap, is_nil, row_key, row_value, tail_rows,
}

unfoldable pub insert_row : Bytes → Bytes → List Row → List Row
insert_row k v [] = (k, v) ∷ []
insert_row k v ((j, w) ∷ rows) =
    let rest = (j, w) ∷ insert_row k v rows in
    elim (compare_bytes k j) [
      | Ordering.lt ↦ (k, v) ∷ (j, w) ∷ rows
      | Ordering.eq ↦ (k, v) ∷ rows
      | Ordering.gt ↦ rest
    ]

unfoldable pub delete_row : Bytes → List Row → List Row
delete_row k [] = []
delete_row k ((j, w) ∷ rows) =
    let rest = delete_row k rows in if equal_bytes k j then rest else (j, w) ∷ rest

unfoldable pub apply : Op → List Row → List Row
unfolding insert_row delete_row
apply (put k v) rows = insert_row k v rows
apply (delete k) rows = delete_row k rows

unfoldable pub apply_all : List Op → List Row → List Row
unfolding apply
apply_all [] rows = rows
apply_all (op ∷ ops) rows = apply_all ops (apply op rows)

Below-trans :
    (i j : Bytes) (rows : List Row) → compare_bytes i j ≡ Ordering.lt → Below j rows → Below i rows
Below-trans i j [] lt b = tt
Below-trans i j ((k, v) ∷ rows) lt (b, bs) = (compare_trans i j k lt b, Below-trans i j rows lt bs)

Below-insert :
    (i k v : Bytes) (rows : List Row)
    → compare_bytes i k ≡ Ordering.lt
    → Below i rows
    → Below i (insert_row k v rows)
unfolding insert_row
Below-insert i k v [] lt b = (lt, tt)
Below-insert i k v ((j, w) ∷ rows) lt (b, bs) = ground (arith, Below-insert i k v rows lt bs)

Below-delete : (i k : Bytes) (rows : List Row) → Below i rows → Below i (delete_row k rows)
unfolding delete_row
Below-delete i k [] b = tt
Below-delete i k ((j, w) ∷ rows) (b, bs) = ground (arith, Below-delete i k rows bs)

Below-eq :
    (k j : Bytes) (rows : List Row) → compare_bytes k j ≡ Ordering.eq → Below j rows → Below k rows
Below-eq k j rows e b = rw (compare-eq k j e) b

insert-IsSorted : (k v : Bytes) (rows : List Row) → IsSorted rows → IsSorted (insert_row k v rows)
unfolding insert_row
insert-IsSorted k v [] s = (tt, tt)
insert-IsSorted k v ((j, w) ∷ rows) (b, s) = ground (
  arith,
  Below-trans k j rows,
  Below-insert j k v rows,
  compare_swap k j,
  insert-IsSorted k v rows s,
  Below-eq k j rows,
)

delete-IsSorted : (k : Bytes) (rows : List Row) → IsSorted rows → IsSorted (delete_row k rows)
unfolding delete_row
delete-IsSorted k [] s = tt
delete-IsSorted k ((j, w) ∷ rows) (b, s) =
    ground (arith, Below-delete j k rows b, delete-IsSorted k rows s)

pub apply_all-IsSorted :
    (ops : List Op) (rows : List Row) → IsSorted rows → IsSorted (apply_all ops rows)
unfolding apply_all
apply_all-IsSorted [] rows s = s
apply_all-IsSorted (put k v ∷ ops) rows s =
    apply_all-IsSorted ops (insert_row k v rows) (insert-IsSorted k v rows s)
apply_all-IsSorted (delete k ∷ ops) rows s =
    apply_all-IsSorted ops (delete_row k rows) (delete-IsSorted k rows s)

find_insert :
    (k v j : Bytes) (rows : List Row)
    → find_row j (insert_row k v rows) ≡ (if equal_bytes k j then some v else find_row j rows)
unfolding find_row insert_row
find_insert k v j [] = refl
find_insert k v j ((i, w) ∷ rows) = ground (
  arith,
  find_insert k v j rows,
  compare-eq k i,
  equal_bytes_iff k j,
  equal_bytes_iff i j,
  equal-compare_ne k i,
  equal_bytes_iff k i,
)

find_delete :
    (k j : Bytes) (rows : List Row)
    → find_row j (delete_row k rows) ≡ (if equal_bytes k j then none else find_row j rows)
unfolding find_row delete_row
find_delete k j [] = ground arith
find_delete k j ((i, w) ∷ rows) =
    ground
      (arith, find_delete k j rows, equal_bytes_iff k j, equal_bytes_iff i j, equal_bytes_iff k i)

pub find_apply_all :
    (ops : List Op) (rows : List Row) (k : Bytes)
    → find_row k (apply_all ops rows) ≡ replay ops k (find_row k rows)
unfolding apply_all replay
find_apply_all [] rows k = refl
find_apply_all (put j v ∷ ops) rows k =
    find_apply_all ops (insert_row j v rows) k ∙ ap (replay ops k) (find_insert j v k rows)
find_apply_all (delete j ∷ ops) rows k =
    find_apply_all ops (delete_row j rows) k ∙ ap (replay ops k) (find_delete j k rows)

pub record Table : Type 0 where
  pub table : List Row
  pub in_order : IsSorted table

-- The rows that the iterator was made from, and those from its position on. It starts at no row, and
-- its steps backwards, on which the assumptions say nothing, leave it where it is.
pub record Cursor : Type 0 where
  pub from : List Row
  pub ahead : List Row

abbrev pub empty : Table
empty = record { table = []; in_order = tt }

-- Batches as bytes: a tag, and the lengths before the keys and values.
unfoldable pub dump_ops : List Op → Bytes
dump_ops [] = []
dump_ops (put k v ∷ ops) = 1 ∷ length k ∷ length v ∷ (k ++ (v ++ dump_ops ops))
dump_ops (delete k ∷ ops) = 0 ∷ length k ∷ (k ++ dump_ops ops)

unfoldable pub parse_ops : ℕ → Bytes → List Op
parse_ops zero bs = []
parse_ops (suc f) (zero ∷ n ∷ bs) = delete (take n bs) ∷ parse_ops f (drop n bs)
parse_ops (suc f) (suc t ∷ n ∷ m ∷ bs) =
    put (take n bs) (take m (drop n bs)) ∷ parse_ops f (drop m (drop n bs))
parse_ops (suc f) bs = []

pub parse-dump : (f : ℕ) (ops : List Op) → length ops ≤ f → parse_ops f (dump_ops ops) ≡ ops
unfolding dump_ops parse_ops
parse-dump zero [] h = refl
parse-dump (suc f) [] h = refl
parse-dump zero (op ∷ ops) h = absurd (omega arith)
parse-dump (suc f) (put k v ∷ ops) h =
    rw (take-append, drop-append, take-append, drop-append, parse-dump f ops (omega arith))
parse-dump (suc f) (delete k ∷ ops) h =
    rw (take-append, drop-append, parse-dump f ops (omega arith))

pub length-dump : (ops : List Op) → length ops ≤ length (dump_ops ops)
unfolding dump_ops
length-dump [] = omega arith
length-dump (put k v ∷ ops) =
    omega
      (arith, length-append k (v ++ dump_ops ops), length-append v (dump_ops ops), length-dump ops)
length-dump (delete k ∷ ops) = omega (arith, length-append k (dump_ops ops), length-dump ops)

unfoldable pub memory : Driver Table Cursor
unfolding find_row apply_all rows_from dump_ops parse_ops
memory = record {
  get = λ s k. ok (find_row k s.table);
  write = λ s ops. ok (record {
    table = apply_all ops s.table;
    in_order = apply_all-IsSorted ops s.table s.in_order;
  });
  dump = dump_ops;
  load = λ bs. ok tt;
  load_ops = λ bs. parse_ops (length bs) bs;
  new_iterator = λ s. record { from = s.table; ahead = [] };
  first = λ i. record i { ahead = i.from };
  last = λ i. i;
  seek = λ i k. record i { ahead = rows_from k i.from };
  next = λ i. record i { ahead = tail_rows i.ahead };
  prev = λ i. i;
  valid = λ i. not (is_nil i.ahead);
  key = λ i. row_key i.ahead;
  value = λ i. row_value i.ahead;
}

unfoldable pub memory-IsOrderedMap : IsOrderedMap memory
unfolding memory
memory-IsOrderedMap = record {
  rows = λ s. s.table;
  sorted = λ s. s.in_order;
  get_row = λ s k. refl;
  written = λ s ops. record {
    table = apply_all ops s.table;
    in_order = apply_all-IsSorted ops s.table s.in_order;
  };
  write_ok = λ s ops. refl;
  find_written = λ s ops k. find_apply_all ops s.table k;
  load_dump = λ ops. refl;
  load_ops_dump = λ ops. parse-dump (length (dump_ops ops)) ops (length-dump ops);
  all = λ i. i.from;
  rest = λ i. i.ahead;
  all_new = λ s. refl;
  all_first = λ i. refl;
  rest_first = λ i. refl;
  all_seek = λ i k. refl;
  rest_seek = λ i k. refl;
  all_next = λ i. refl;
  rest_next = λ i. refl;
  valid_rest = λ i. refl;
  key_rest = λ i. refl;
  value_rest = λ i. refl;
}
