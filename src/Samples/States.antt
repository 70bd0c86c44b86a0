-- ===== src/Samples/States.antt =====
-- Small stores with a replication log that the theorems are applied at.
use ledisdb.Base.{◌≡◌, refl, false, some, [], ◌∷◌}
use ledisdb.Base.Int.{pos}
use ledisdb.Error.{ok}
use ledisdb.Bytes.{Bytes, equal_bytes}
use ledisdb.Key.{set_index, check_key_size, check_value_size}
use ledisdb.Key.Plain.{encode_kv_key}
use ledisdb.Bytes.Compare.{equal_bytes_refl}
use ledisdb.Store.Map.{find_row}
use ledisdb.Rpl.{last_id}
use ledisdb.Ledis.{State, Env}
use ledisdb.Ledis.Commit.{IsReady, look}
use ledisdb.Ledis.Value.{put_int64}
use ledisdb.Ledis.Kv.Expiry.{kv, mk}
use ledisdb.Samples.Memory.{memory-IsOrderedMap, empty, Table}

abbrev pub env : Env
env = record { db = set_index 0; now = pos 100; fuel = 10 }

abbrev pub fresh : State Table
fresh = record {
  store = empty;
  batch = record { ops = []; put_num = 0; delete_num = 0 };
  next_check = pos 0;
  readonly = false;
  rpl = some (record { logs = []; commit_id = 0 });
}

pub fresh-IsReady : IsReady fresh
unfolding last_id
fresh-IsReady = record { can_commit = record { writable = refl; caught_up = refl }; idle = refl }

abbrev pub key : Bytes
key = 107 ∷ []

abbrev pub value : Bytes
value = 118 ∷ []

pub key_fits : check_key_size key ≡ ok tt
unfolding check_key_size
key_fits = refl

pub value_fits : check_value_size value ≡ ok tt
unfolding check_value_size
value_fits = refl

-- One value in the store.
abbrev pub one_value : State Table
one_value = record fresh {
  store = record { table = (encode_kv_key (set_index 0) key, value) ∷ []; in_order = (tt, tt) };
}

pub one-IsReady : IsReady one_value
unfolding last_id
one-IsReady = record { can_commit = record { writable = refl; caught_up = refl }; idle = refl }

pub there : look memory-IsOrderedMap one_value (kv memory-IsOrderedMap env key) ≡ some value
unfolding memory-IsOrderedMap find_row encode_kv_key equal_bytes set_index
there = refl

-- The expiration of a value at 200.
abbrev pub dying : State Table
dying = record fresh {
  store = record {
    table = (mk memory-IsOrderedMap env key, put_int64 (pos 200)) ∷ [];
    in_order = (tt, tt);
  };
}

pub dying-IsReady : IsReady dying
unfolding last_id
dying-IsReady = record { can_commit = record { writable = refl; caught_up = refl }; idle = refl }

pub dying_time :
    look memory-IsOrderedMap dying (mk memory-IsOrderedMap env key) ≡ some (put_int64 (pos 200))
unfolding memory-IsOrderedMap find_row
dying_time = rw (equal_bytes_refl (mk memory-IsOrderedMap env key))
