-- ===== src/Samples/SetAlgebra.antt =====
-- The theorem on the set operations, at a store with one set.
use ledisdb.Base.{◌≡◌, refl, List, [], ◌∷◌}
use ledisdb.Error.{ok}
use ledisdb.Bytes.{
  Bytes, equal_bytes, compare_bytes, read_big_endian, big_endian, slice_from, byte_at, slice,
}
use ledisdb.Key.{set_index, check_key_size}
use ledisdb.Key.Member.{s_encode_set_key, s_decode_set_key, s_encode_start_key, s_encode_stop_key}
use ledisdb.Ledis.{State}
use ledisdb.Ledis.Sets.{inter, generic, s_members, has}
use ledisdb.Ledis.Sets.Algebra.{IsOnce}
use ledisdb.Ledis.Sets.Operations.{combined, generic_lem}
use ledisdb.Samples.Memory.{memory, Table}
use ledisdb.Samples.States.{env, key, fresh, key_fits}

abbrev member : Bytes
member = 109 ∷ []

abbrev one_member : State Table
one_member = record fresh {
  store = record {
    table = (s_encode_set_key (set_index 0) key member, []) ∷ [];
    in_order = (tt, tt);
  };
}

member_fits : check_key_size member ≡ ok tt
unfolding check_key_size
member_fits = refl

members : s_members memory env key one_member ≡ (ok (member ∷ []), one_member)
unfolding s_members memory set_index s_encode_set_key s_decode_set_key s_encode_start_key
    s_encode_stop_key equal_bytes compare_bytes check_key_size ledisdb.Ledis.Sets.decode_members
    ledisdb.Ledis.Sets.set_rows ledisdb.Store.Iterator.range_rows ledisdb.Store.Iterator.range_valid
    ledisdb.Store.Iterator.range_limit_iterator big_endian ledisdb.Key.check_key_index
    ledisdb.Key.lacks_type slice_from read_big_endian slice byte_at
    ledisdb.Store.Iterator.range_next
members = refl

generic_lem_example :
    (r : List Bytes) × (generic memory env inter (key ∷ key ∷ []) one_member ≡ (ok r, one_member))
    × IsOnce r
    × ((m : Bytes) → has m r ≡ combined inter m (member ∷ []) ((member ∷ []) ∷ []))
generic_lem_example =
    generic_lem memory env one_member inter key (key ∷ []) (member ∷ []) ((member ∷ []) ∷ [])
      (key_fits, members, (key_fits, members, tt)) ((member_fits, tt), tt)
