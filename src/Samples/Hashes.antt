-- ===== src/Samples/Hashes.antt =====
-- The theorems on hashes, at a store with one field.
use ledisdb.Base.{◌≤◌, ◌≡◌, refl, some, none, [], ◌∷◌, length, arith}
use ledisdb.Base.Int.{pos}
use ledisdb.Error.{ok}
use ledisdb.Bytes.{Bytes, equal_bytes}
use ledisdb.Key.{set_index, check_hash_kf_size}
use ledisdb.Key.Plain.{h_encode_size_key}
use ledisdb.Key.Member.{h_encode_hash_key}
use ledisdb.Key.Sorted.{exp_encode_meta_key}
use ledisdb.Key.Record.{encode, hash_field}
use ledisdb.Store.Map.{find_row}
use ledisdb.Ledis.{State}
use ledisdb.Ledis.Commit.{IsReady, look}
use ledisdb.Rpl.{last_id}
use ledisdb.Ledis.Value.{int64}
use ledisdb.Ledis.Hash.{h_set, h_get, h_len, h_clear, hash_rows}
use ledisdb.Ledis.Hash.Fields.{h_clear_lem, hash_rows_lem}
use ledisdb.Ledis.Hash.Items.{h_set_lem}
use ledisdb.Samples.Memory.{memory, memory-IsOrderedMap, Table}
use ledisdb.Samples.States.{env, key, value, fresh, fresh-IsReady, key_fits, value_fits}

abbrev field : Bytes
field = 102 ∷ []

field_fits : check_hash_kf_size key field ≡ ok tt
unfolding check_hash_kf_size
field_fits = refl

-- One field of a hash.
abbrev one_field : State Table
one_field = record fresh {
  store = record {
    table = (h_encode_hash_key (set_index 0) key field, value) ∷ [];
    in_order = (tt, tt);
  };
}

one_field-IsReady : IsReady one_field
unfolding last_id
one_field-IsReady = record {
  can_commit = record { writable = refl; caught_up = refl };
  idle = refl;
}

no_time : look memory-IsOrderedMap one_field (exp_encode_meta_key (set_index 0) 2 key) ≡ none
unfolding memory-IsOrderedMap find_row equal_bytes h_encode_hash_key exp_encode_meta_key set_index
no_time = refl

fuel : length (memory-IsOrderedMap.rows one_field.store) ≤ 10
unfolding memory-IsOrderedMap
fuel = omega arith

h_clear_lem_example :
    (look memory-IsOrderedMap
        (h_clear memory env key one_field).1
        (encode (set_index 0) (hash_field key field))
      ≡ none)
    × IsReady (h_clear memory env key one_field).1
unfolding equal_bytes
h_clear_lem_example =
    h_clear_lem memory-IsOrderedMap env key one_field (hash_field key field) one_field-IsReady
      key_fits (omega arith) fuel no_time

hash_rows_lem_example :
    find_row (encode (set_index 0) (hash_field key field)) (hash_rows memory env key one_field)
    ≡ look memory-IsOrderedMap one_field (encode (set_index 0) (hash_field key field))
unfolding equal_bytes
hash_rows_lem_example =
    hash_rows_lem memory-IsOrderedMap env key one_field (hash_field key field) key_fits
      (omega arith) fuel

no_field : look memory-IsOrderedMap fresh (h_encode_hash_key (set_index 0) key field) ≡ none
unfolding memory-IsOrderedMap find_row
no_field = refl

no_size :
    int64 (ok (look memory-IsOrderedMap fresh (h_encode_size_key (set_index 0) key))) ≡ ok (pos 0)
unfolding memory-IsOrderedMap find_row int64
no_size = refl

h_set_lem_example :
    ((h_set memory env key field value fresh).0 ≡ ok (pos 1))
    × ((h_get memory env key field (h_set memory env key field value fresh).1).0 ≡ ok (some value))
    × ((h_len memory env key (h_set memory env key field value fresh).1).0 ≡ ok (pos 1))
    × IsReady (h_set memory env key field value fresh).1
h_set_lem_example =
    h_set_lem memory-IsOrderedMap env key field fresh value none 0 fresh-IsReady key_fits field_fits
      value_fits no_field no_size (omega arith)
