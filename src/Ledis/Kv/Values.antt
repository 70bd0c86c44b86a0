-- ===== src/Ledis/Kv/Values.antt =====
-- Reading and writing plain values: what each operation of ledis/t_kv.go returns, and what it leaves in
-- the store.
use ledisdb.Base.{◌≡◌, ◌≢◌, refl, sym, ◌∙◌, true, false, Option, none, some, if◌then◌else◌}
use ledisdb.Base.Int.{pos}
use ledisdb.Error.{Result, ok, err, err_write_in_r_only}
use ledisdb.Bytes.{Bytes, equal_bytes}
use ledisdb.Bytes.Compare.{equal_bytes_refl}
use ledisdb.Key.{Db, check_key_size, check_value_size}
use ledisdb.Key.Plain.{encode_kv_key}
use ledisdb.Key.Record.{Record, Fits, encode, kv_value}
use ledisdb.Key.Record.Distinct.{equal_bytes-encode_ne}
use ledisdb.Store.{Driver, replay, batch_put, batch_rollback}
use ledisdb.Store.Map.{IsOrderedMap}
use ledisdb.Ledis.{Env, State}
use ledisdb.Ledis.Commit.{
  CanCommit, IsReady, commit_ok, look, finished, look-finished, finished-IsReady, commit_readonly,
}
use ledisdb.Ledis.Kv.{set, get, get_set, set_nx, is_some}

-- The key of a value is that of no other record.
pub kv_key_ne :
    (db : Db) (key : Bytes) (r : Record)
    → Fits r
    → r ≢ kv_value key
    → equal_bytes (encode_kv_key db key) (encode db r) ≡ false
unfolding encode
kv_key_ne db key r f ne = same
  where
    same : equal_bytes (encode_kv_key db key) (encode db r) ≡ false
    same = equal_bytes-encode_ne db (kv_value key) r tt f (λ p. ne (sym p))

-- What a read returns is what the driver has.
pub bucket_value :
    {S I : Type 0} (d : Driver S I) (e : Env) (s : State S) (key : Bytes)
    {v : Result (Option Bytes)}
    → check_key_size key ≡ ok tt
    → (get d e key s).0 ≡ v
    → d.get s.store (encode_kv_key e.db key) ≡ v
unfolding get
bucket_value d e s key kh h = rw kh at h

module _ {S I : Type 0} {d : Driver S I} (m : IsOrderedMap d) (e : Env) (s : State S)
    (ready : IsReady s) where
  abbrev pending : Bytes → Bytes → State S
  pending key value = record s { batch = batch_put (encode_kv_key e.db key) value s.batch }

  still : (key value : Bytes) → CanCommit (pending key value)
  still key value = record {
    writable = ready.can_commit.writable;
    caught_up = ready.can_commit.caught_up;
  }

  pub set_run :
      (key value : Bytes)
      → check_key_size key ≡ ok tt
      → check_value_size value ≡ ok tt
      → set d e key value s ≡ (ok tt, finished m e.now (pending key value))
  unfolding set
  set_run key value kh vh = rw (kh, vh, commit_ok d m e.now (pending key value) (still key value))

  look-pending :
      (key value k : Bytes)
      → look m (finished m e.now (pending key value)) k
        ≡ (if equal_bytes (encode_kv_key e.db key) k then some value else look m s k)
  look-pending key value k =
      look-finished m e.now (pending key value) k ∙ unfold batch_put replay in rw ready.idle

  -- Between two handlers, a value of an allowed size is written under a key of an allowed size: `Set` succeeds, a read gives
  -- the value, any other record of the database is as before, and the next handler can run.
  pub set_lem :
      (key value : Bytes) (r : Record)
      → check_key_size key ≡ ok tt
      → check_value_size value ≡ ok tt
      → Fits r
      → r ≢ kv_value key
      → ((set d e key value s).0 ≡ ok tt)
        × ((get d e key (set d e key value s).1).0 ≡ ok (some value))
        × (look m (set d e key value s).1 (encode e.db r) ≡ look m s (encode e.db r))
        × IsReady (set d e key value s).1
  set_lem key value r kh vh f ne = rw (set_run key value kh vh) (
    refl,
    read_back,
    look-pending key value (encode e.db r) ∙ rw (kv_key_ne e.db key r f ne),
    finished-IsReady m e.now (pending key value) (still key value),
  )
    where
      read_back : (get d e key (finished m e.now (pending key value))).0 ≡ ok (some value)
      read_back =
          unfold get in
          rw (kh, m.get_row, look-pending key value (encode_kv_key e.db key), equal_bytes_refl)

  -- Between two handlers, for a key and a value of allowed sizes, `GetSet` returns what a read would have returned, and leaves the store as `Set` does.
  pub get_set_lem :
      (key value : Bytes)
      → check_key_size key ≡ ok tt
      → check_value_size value ≡ ok tt
      → get_set d e key value s ≡ ((get d e key s).0, (set d e key value s).1)
  unfolding get_set get
  get_set_lem key value kh vh = rw (
    set_run key value kh vh,
    kh,
    vh,
    m.get_row,
    commit_ok d m e.now (pending key value) (still key value),
  )

  -- Between two handlers, for a key and a value of allowed sizes: `SetNX` of a key that has a value
  -- returns 0 and changes nothing but that the pending batch is
  -- rolled back; of a key without a value it returns 1 and leaves the state that `Set` leaves.
  pub set_nx_lem :
      (key value : Bytes) (old : Option Bytes)
      → check_key_size key ≡ ok tt
      → check_value_size value ≡ ok tt
      → (get d e key s).0 ≡ ok old
      → set_nx d e key value s ≡ (
          if is_some old
          then (ok (pos 0), record s { batch = batch_rollback s.batch })
          else (ok (pos 1), (set d e key value s).1))
  set_nx_lem key value (some old) kh vh h =
      unfold set_nx in rw (kh, vh, bucket_value d e s key kh h)
  set_nx_lem key value none kh vh h = rw (set_run key value kh vh) (
      unfold set_nx in
      rw (
        kh,
        vh,
        bucket_value d e s key kh h,
        commit_ok d m e.now (pending key value) (still key value),
      ))

module _ {S I : Type 0} (d : Driver S I) (e : Env) (s : State S)
    (readonly : s.readonly ≡ true) where
  -- In read-only mode, for a key and a value of allowed sizes and a key without a value, `Set` fails with the read-only error, while `SetNX`
  -- reports a write; both leave the store as it was.
  pub set_nx_readonly :
      (key value : Bytes)
      → check_key_size key ≡ ok tt
      → check_value_size value ≡ ok tt
      → (get d e key s).0 ≡ ok none
      → ((set d e key value s).0 ≡ err err_write_in_r_only)
        × ((set d e key value s).1.store ≡ s.store)
        × ((set_nx d e key value s).0 ≡ ok (pos 1))
        × ((set_nx d e key value s).1.store ≡ s.store)
  unfolding set set_nx
  set_nx_readonly key value kh vh h =
      let s' : State S = record s { batch = batch_put (encode_kv_key e.db key) value s.batch } in
      rw (kh, vh, bucket_value d e s key kh h, commit_readonly d e.now s' readonly)
        (refl, refl, refl, refl)
