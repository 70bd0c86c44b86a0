-- ===== src/Samples/Queues.antt =====
-- The theorems on lists, at a store with a list of two elements.
use ledisdb.Base.{ℕ, zero, suc, ◌+◌, ◌<◌, ◌≡◌, refl, some, [], ◌∷◌, get_elem?, arith}
use ledisdb.Base.Int.{pos}
use ledisdb.Error.{ok}
use ledisdb.Bytes.{Bytes, equal_bytes, compare_bytes, big_endian}
use ledisdb.Key.{set_index}
use ledisdb.Key.Plain.{l_encode_meta_key}
use ledisdb.Key.Sorted.{l_encode_list_key}
use ledisdb.Store.Map.{find_row, IsSorted}
use ledisdb.Ledis.{State}
use ledisdb.Ledis.Commit.{IsReady, look}
use ledisdb.Rpl.{last_id}
use ledisdb.Ledis.Lists.{head, tail, meta_value, l_push, l_pop}
use ledisdb.Ledis.Lists.Queue.{IsQueue, r_push_lem}
use ledisdb.Ledis.Lists.Pop.{l_pop_lem}
use ledisdb.Samples.Memory.{memory, memory-IsOrderedMap, Table}
use ledisdb.Samples.States.{env, key, fresh, key_fits}

abbrev item : ℕ → Bytes
item n = l_encode_list_key (set_index 0) key (pos n)

rows-IsSorted : IsSorted (
    (item 2000, 120 ∷ [])
    ∷ (item 2001, 121 ∷ [])
    ∷ (l_encode_meta_key (set_index 0) key, meta_value (pos 2000) (pos 2001))
    ∷ [])
unfolding compare_bytes l_encode_list_key l_encode_meta_key set_index big_endian
rows-IsSorted = ((refl, (refl, tt)), ((refl, tt), (tt, tt)))

-- A list of two elements.
abbrev two : State Table
two = record fresh {
  store = record {
    table =
        (item 2000, 120 ∷ [])
        ∷ (item 2001, 121 ∷ [])
        ∷ (l_encode_meta_key (set_index 0) key, meta_value (pos 2000) (pos 2001))
        ∷ [];
    in_order = rows-IsSorted;
  };
}

two-IsReady : IsReady two
unfolding last_id
two-IsReady = record { can_commit = record { writable = refl; caught_up = refl }; idle = refl }

two-IsQueue : IsQueue memory-IsOrderedMap env key two 2000 ((120 ∷ []) ∷ (121 ∷ []) ∷ [])
unfolding memory-IsOrderedMap find_row equal_bytes l_encode_list_key l_encode_meta_key set_index
    big_endian
two-IsQueue = record {
  some_items = omega arith;
  meta = refl;
  items = items;
  low = omega arith;
  high = omega arith;
}
  where
    items :
        (i : ℕ)
        → i < 2
        → look memory-IsOrderedMap two (item (2000 + i))
          ≡ get_elem? ((120 ∷ []) ∷ (121 ∷ []) ∷ []) i
    items zero h = refl
    items (suc zero) h = refl
    items (suc (suc i)) h = absurd (omega arith)

r_push_lem_example :
    ((l_push memory env key tail ((122 ∷ []) ∷ []) two).0 ≡ ok (pos 3))
    × IsQueue memory-IsOrderedMap env key
        (l_push memory env key tail ((122 ∷ []) ∷ []) two).1
        2000
        ((120 ∷ []) ∷ (121 ∷ []) ∷ (122 ∷ []) ∷ [])
    × IsReady (l_push memory env key tail ((122 ∷ []) ∷ []) two).1
r_push_lem_example =
    r_push_lem memory-IsOrderedMap env key two 2000 ((120 ∷ []) ∷ (121 ∷ []) ∷ []) (122 ∷ [])
      two-IsReady key_fits two-IsQueue (omega arith)

l_pop_lem_example :
    ((l_pop memory env key head two).0 ≡ ok (some (120 ∷ [])))
    × IsQueue memory-IsOrderedMap env key (l_pop memory env key head two).1 2001 ((121 ∷ []) ∷ [])
    × IsReady (l_pop memory env key head two).1
l_pop_lem_example =
    l_pop_lem memory-IsOrderedMap env key two 2000 (120 ∷ []) (121 ∷ []) [] two-IsReady key_fits
      two-IsQueue
