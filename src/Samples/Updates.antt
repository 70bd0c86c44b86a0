-- ===== src/Samples/Updates.antt =====
-- The theorems on changes of a value and on its expiration, at small stores.
use ledisdb.Key.{check_value_size}
use ledisdb.Base.{◌≡◌, ◌≢◌, arith, refl, some, [], ◌∷◌}
use ledisdb.Base.Int.{pos, negsuc, ◌-ℤ◌}
use ledisdb.Error.{ok, err, panic}
use ledisdb.Ledis.Kv.{get_range_of, ttl_of, set_expire_at, append, set}
use ledisdb.Ledis.Kv.Updates.{append_lem, ttl_of-set_expire_at, get_range_of_no_panic}
use ledisdb.Samples.Memory.{memory, memory-IsOrderedMap}
use ledisdb.Samples.States.{env, key, value, key_fits, one_value, one-IsReady, there}

two_fit : check_value_size (118 ∷ 119 ∷ []) ≡ ok tt
unfolding check_value_size
two_fit = refl

append_lem_example :
    append memory env key (119 ∷ []) one_value
    ≡ (ok (pos 2), (set memory env key (118 ∷ 119 ∷ []) one_value).1)
append_lem_example =
    append_lem memory-IsOrderedMap env one_value key 119 [] (some value) one-IsReady key_fits
      two_fit there

ttl_of-set_expire_at_example :
    (ttl_of memory
      (record env { now = pos 150 })
      key
      (set_expire_at memory env key (pos 200) one_value).1).0
    ≡ ok (pos 50)
unfolding ◌-ℤ◌
ttl_of-set_expire_at_example =
    ttl_of-set_expire_at memory-IsOrderedMap env one_value key value (pos 200) (pos 150) one-IsReady
      key_fits there (omega arith) (omega arith) (omega arith)

get_range_of_no_panic_example :
    (get_range_of memory env key (negsuc 8) (pos 100) one_value).0 ≢ err panic
get_range_of_no_panic_example =
    get_range_of_no_panic memory-IsOrderedMap env one_value key (negsuc 8) (pos 100) key_fits
