-- ===== src/Samples/Values.antt =====
-- The theorems on plain values and expirations, at a small store with a replication log.
use ledisdb.Base.{
  ◌≡◌, ◌≢◌, refl, ap, true, some, none, [], ◌∷◌, if◌then◌else◌, arith, ℕ, Option, ◌==◌,
}
use ledisdb.Base.Int.{pos, pos_part, ℤ}
use ledisdb.Error.{ok, err, err_write_in_r_only, Result}
use ledisdb.Bytes.{Bytes, equal_bytes}
use ledisdb.Key.{set_index, check_key_size, kv_type}
use ledisdb.Key.Record.{encode, kv_value, hash_size}
use ledisdb.Key.Record.Distinct.{type_of}
use ledisdb.Ledis.{State, M}
use ledisdb.Ledis.Commit.{IsReady, look}
use ledisdb.Ledis.Value.{put_int64}
use ledisdb.Ledis.Ttl.{expire_row}
use ledisdb.Ledis.Kv.{set, get, set_nx, set_expire_at, delete_kv, persist}
use ledisdb.Ledis.Kv.Values.{set_lem, set_nx_lem, set_nx_readonly}
use ledisdb.Ledis.Kv.Expiry.{kv, mk, tk, set_expire_at_lem, expire_row_lem}
use ledisdb.Ledis.Ttl.{check_rows}
use ledisdb.Ledis.Kv.Stale.{stale_time_record}
use ledisdb.Samples.Memory.{memory, memory-IsOrderedMap, Table}
use ledisdb.Samples.States.{
  env, fresh, fresh-IsReady, key, value, key_fits, value_fits, one_value, one-IsReady, there, dying,
  dying-IsReady, dying_time,
}

other : hash_size key ≢ kv_value key
unfolding type_of
other p = omega (arith, ap type_of p)

set_lem_example :
    ((set memory env key value fresh).0 ≡ ok tt)
    × ((get memory env key (set memory env key value fresh).1).0 ≡ ok (some value))
    × (look memory-IsOrderedMap
          (set memory env key value fresh).1
          (encode (set_index 0) (hash_size key))
        ≡ look memory-IsOrderedMap fresh (encode (set_index 0) (hash_size key)))
    × IsReady (set memory env key value fresh).1
set_lem_example =
    set_lem memory-IsOrderedMap env fresh fresh-IsReady key value (hash_size key) key_fits
      value_fits tt other

absent : (get memory env key fresh).0 ≡ ok none
unfolding get memory check_key_size
absent = refl

set_nx_lem_example :
    set_nx memory env key value fresh ≡ (ok (pos 1), (set memory env key value fresh).1)
set_nx_lem_example =
    set_nx_lem memory-IsOrderedMap env fresh fresh-IsReady key value none key_fits value_fits absent

abbrev slave : State Table
slave = record fresh { readonly = true }

absent_slave : (get memory env key slave).0 ≡ ok none
unfolding get memory check_key_size
absent_slave = refl

set_nx_readonly_example :
    ((set memory env key value slave).0 ≡ err err_write_in_r_only)
    × ((set memory env key value slave).1.store ≡ slave.store)
    × ((set_nx memory env key value slave).0 ≡ ok (pos 1))
    × ((set_nx memory env key value slave).1.store ≡ slave.store)
set_nx_readonly_example =
    set_nx_readonly memory env slave refl key value key_fits value_fits absent_slave

set_expire_at_lem_example :
    ((set_expire_at memory env key (pos 200) one_value).0 ≡ ok (pos 1))
    × ((k : Bytes)
        → look memory-IsOrderedMap (set_expire_at memory env key (pos 200) one_value).1 k ≡ (
            if equal_bytes (mk memory-IsOrderedMap env key) k
            then some (put_int64 (pos 200))
            else if equal_bytes (tk memory-IsOrderedMap env key (pos 200)) k
            then some (mk memory-IsOrderedMap env key)
            else look memory-IsOrderedMap one_value k))
    × IsReady (set_expire_at memory env key (pos 200) one_value).1
set_expire_at_lem_example =
    set_expire_at_lem memory-IsOrderedMap env key (pos 200) one_value (some value) one-IsReady
      key_fits there

expire_row_lem_example :
    look memory-IsOrderedMap
      (expire_row memory
        (record env { now = pos 300 })
        (delete_kv memory env)
        (tk memory-IsOrderedMap env key (pos 200))
        (mk memory-IsOrderedMap env key)
        key
        dying).1
      (1 ∷ [])
    ≡ (if equal_bytes (mk memory-IsOrderedMap env key) (1 ∷ [])
        then none
        else if equal_bytes (tk memory-IsOrderedMap env key (pos 200)) (1 ∷ [])
        then none
        else if equal_bytes (kv memory-IsOrderedMap env key) (1 ∷ [])
        then none
        else look memory-IsOrderedMap dying (1 ∷ []))
expire_row_lem_example =
    expire_row_lem memory-IsOrderedMap env key (pos 300) (pos 200) (pos 200) dying (1 ∷ [])
      dying-IsReady (omega arith) dying_time

abbrev persisted : State Table
persisted =
    (persist memory env key
      (set_expire_at memory env key (pos 300)
        (set_expire_at memory env key (pos 200) one_value).1).1).1

abbrev callbacks : ℕ → Option (Bytes → M Table (Unit {0}))
callbacks t = if t == kv_type then some (delete_kv memory env) else none

abbrev checked : Result ℤ × State Table
checked =
    check_rows memory (record env { now = pos 201 }) callbacks (pos 3801)
      ((tk memory-IsOrderedMap env key (pos 200), mk memory-IsOrderedMap env key) ∷ []) persisted

stale_time_record_example :
    (look memory-IsOrderedMap persisted (kv memory-IsOrderedMap env key) ≡ some value)
    × (look memory-IsOrderedMap persisted (mk memory-IsOrderedMap env key) ≡ none)
    × (look memory-IsOrderedMap persisted (tk memory-IsOrderedMap env key (pos 200))
        ≡ some (mk memory-IsOrderedMap env key))
    × (look memory-IsOrderedMap checked.1 (kv memory-IsOrderedMap env key) ≡ none)
    × (checked.0 ≡ ok (pos 3801))
stale_time_record_example =
    stale_time_record memory-IsOrderedMap env key one_value one-IsReady key_fits value there
      (pos 200) (pos 300) (omega arith) (omega arith) (λ p. omega (arith, ap pos_part p)) callbacks
      refl (pos 3801) (pos 201) refl
