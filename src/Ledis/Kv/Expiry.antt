-- ===== src/Ledis/Kv/Expiry.antt =====
-- Expirations of plain values: what `Expire` and `Persist` of ledis/t_kv.go leave in the store, what the
-- checker of ledis/t_ttl.go then does, and the time records that are left behind.
use ledisdb.Base.{
  ◌≡◌, ◌≢◌, refl, ◌∙◌, true, false, Option, none, some, if◌then◌else◌, Bool-cases, inl, inr,
}
use ledisdb.Base.Int.{ℤ, pos, IsInt64, leb_ℤ, ltb_ℤ}
use ledisdb.Error.{ok}
use ledisdb.Bytes.{Bytes, equal_bytes}
use ledisdb.Key.{check_key_size, kv_type}
use ledisdb.Key.Plain.{encode_kv_key}
use ledisdb.Key.Sorted.{exp_encode_meta_key, exp_encode_time_key}
use ledisdb.Key.Record.{Record, Fits, encode, kv_value, exp_meta, exp_time}
use ledisdb.Key.Record.Distinct.{equal_bytes-encode_ne}
use ledisdb.Store.{Driver, replay, batch_put, batch_delete, batch_rollback}
use ledisdb.Store.Map.{IsOrderedMap}
use ledisdb.Ledis.{Env, State}
use ledisdb.Ledis.Commit.{
  CanCommit, IsReady, commit_ok, look, finished, look-finished, finished-IsReady,
}
use ledisdb.Ledis.Value.{put_int64, int64, int64-put_int64}
use ledisdb.Ledis.Ttl.{set_next_check_time, expire_at, rm_expire, expire_row}
use ledisdb.Ledis.Kv.{exists, is_some, set_expire_at, persist, delete_kv}

module _ {S I : Type 0} {d : Driver S I} (m : IsOrderedMap d) (e : Env) (key : Bytes) where
  abbrev pub kv : Bytes
  kv = encode_kv_key e.db key

  abbrev pub mk : Bytes
  mk = exp_encode_meta_key e.db kv_type key

  abbrev pub tk : ℤ → Bytes
  tk when = exp_encode_time_key e.db kv_type key when

  -- What `Expire` of a key that is there has pending.
  abbrev pub expiring : ℤ → State S → State S
  expiring when s = record s {
    batch = batch_put mk (put_int64 when) (batch_put (tk when) mk s.batch);
    next_check = if ltb_ℤ when s.next_check then when else s.next_check;
  }

  pub expiring-CanCommit : (when : ℤ) (s : State S) → IsReady s → CanCommit (expiring when s)
  expiring-CanCommit when s r = record {
    writable = r.can_commit.writable;
    caught_up = r.can_commit.caught_up;
  }

  pub set_expire_run :
      (when : ℤ) (s : State S) (v : Bytes)
      → IsReady s
      → check_key_size key ≡ ok tt
      → look m s kv ≡ some v
      → set_expire_at d e key when s ≡ (ok (pos 1), finished m e.now (expiring when s))
  unfolding set_expire_at exists expire_at set_next_check_time
  set_expire_run when s v r kh h =
      rw (kh, m.get_row, h, commit_ok d m e.now (expiring when s) (expiring-CanCommit when s r))

  pub look-expiring :
      (when : ℤ) (s : State S) (k : Bytes)
      → IsReady s
      → look m (finished m e.now (expiring when s)) k ≡ (
          if equal_bytes mk k
          then some (put_int64 when)
          else if equal_bytes (tk when) k
          then some mk
          else look m s k)
  look-expiring when s k r =
      look-finished m e.now (expiring when s) k ∙ unfold batch_put replay in rw r.idle

  -- What `Persist` of a key with an expiration has pending.
  abbrev pub persisting : ℤ → State S → State S
  persisting when s = record s { batch = batch_delete (tk when) (batch_delete mk s.batch) }

  pub persisting-CanCommit : (when : ℤ) (s : State S) → IsReady s → CanCommit (persisting when s)
  persisting-CanCommit when s r = record {
    writable = r.can_commit.writable;
    caught_up = r.can_commit.caught_up;
  }

  pub persist_run :
      (when : ℤ) (s : State S)
      → IsReady s
      → check_key_size key ≡ ok tt
      → IsInt64 when
      → look m s mk ≡ some (put_int64 when)
      → persist d e key s ≡ (ok (pos 1), finished m e.now (persisting when s))
  unfolding persist rm_expire
  persist_run when s r kh i h = rw (
    kh,
    m.get_row,
    h,
    int64-put_int64 when i,
    commit_ok d m e.now (persisting when s) (persisting-CanCommit when s r),
  )

  pub look-persisting :
      (when : ℤ) (s : State S) (k : Bytes)
      → IsReady s
      → look m (finished m e.now (persisting when s)) k
        ≡ (if equal_bytes (tk when) k then none else if equal_bytes mk k then none else look m s k)
  look-persisting when s k r =
      look-finished m e.now (persisting when s) k ∙ unfold batch_delete replay in rw r.idle

  record_ne :
      (r t : Record) → Fits r → Fits t → r ≢ t → equal_bytes (encode e.db r) (encode e.db t) ≡ false
  record_ne = equal_bytes-encode_ne e.db

  pub mk-tk : (w : ℤ) → IsInt64 w → equal_bytes mk (tk w) ≡ false
  unfolding encode
  mk-tk w i = record_ne (exp_meta kv_type key) (exp_time kv_type key w) tt i (λ p. cc)

  pub mk-kv : equal_bytes mk kv ≡ false
  unfolding encode
  mk-kv = record_ne (exp_meta kv_type key) (kv_value key) tt tt (λ p. cc)

  pub tk-mk : (w : ℤ) → IsInt64 w → equal_bytes (tk w) mk ≡ false
  unfolding encode
  tk-mk w i = record_ne (exp_time kv_type key w) (exp_meta kv_type key) i tt (λ p. cc)

  pub tk-kv : (w : ℤ) → IsInt64 w → equal_bytes (tk w) kv ≡ false
  unfolding encode
  tk-kv w i = record_ne (exp_time kv_type key w) (kv_value key) i tt (λ p. cc)

  pub tk-tk : (w x : ℤ) → IsInt64 w → IsInt64 x → w ≢ x → equal_bytes (tk w) (tk x) ≡ false
  unfolding encode
  tk-tk w x i j ne = record_ne (exp_time kv_type key w) (exp_time kv_type key x) i j (λ p. ne (cc))

  -- Between two handlers, for a key of an allowed size: `Expire` of a key that is there returns 1, writes its time to the meta record, files the meta
  -- record under the time, and changes no other key of the store; of a key that is not there it
  -- returns 0 and changes no key. The next handler can run.
  pub set_expire_at_lem :
      (when : ℤ) (s : State S) (v : Option Bytes)
      → IsReady s
      → check_key_size key ≡ ok tt
      → look m s kv ≡ v
      → ((set_expire_at d e key when s).0 ≡ ok (if is_some v then pos 1 else pos 0))
        × ((k : Bytes)
            → look m (set_expire_at d e key when s).1 k ≡ (
                if is_some v
                then (if equal_bytes mk k
                    then some (put_int64 when)
                    else if equal_bytes (tk when) k
                    then some mk
                    else look m s k)
                else look m s k))
        × IsReady (set_expire_at d e key when s).1
  set_expire_at_lem when s none r kh h =
      unfold set_expire_at exists in
      rw (kh, m.get_row, h)
        (
          refl,
          (λ k. refl),
          record {
            can_commit = record {
              writable = r.can_commit.writable;
              caught_up = r.can_commit.caught_up;
            };
            idle = unfold batch_rollback in refl;
          },
        )
  set_expire_at_lem when s (some v) r kh h = rw (set_expire_run when s v r kh h) (
    refl,
    (λ k. look-expiring when s k r),
    finished-IsReady m e.now (expiring when s) (expiring-CanCommit when s r),
  )

  -- The state in which the checker has a row's deletions pending.
  abbrev pub dropping : ℤ → State S → State S
  dropping w s = record s {
    batch = batch_delete mk (batch_delete (tk w) (batch_delete kv s.batch));
  }

  dropping-CanCommit : (w : ℤ) (s : State S) → IsReady s → CanCommit (dropping w s)
  dropping-CanCommit w s r = record {
    writable = r.can_commit.writable;
    caught_up = r.can_commit.caught_up;
  }

  pub look-dropping :
      (now w : ℤ) (s : State S) (k : Bytes)
      → IsReady s
      → look m (finished m now (dropping w s)) k ≡ (
          if equal_bytes mk k
          then none
          else if equal_bytes (tk w) k
          then none
          else if equal_bytes kv k
          then none
          else look m s k)
  look-dropping now w s k r =
      look-finished m now (dropping w s) k ∙ unfold batch_delete replay in rw r.idle

  pub drop_run :
      (later w exp : ℤ) (s : State S)
      → IsReady s
      → int64 (d.get s.store mk) ≡ ok exp
      → leb_ℤ exp later ≡ true
      → expire_row d (record e { now = later }) (delete_kv d e) (tk w) mk key s
        ≡ (ok tt, finished m later (dropping w s))
  unfolding expire_row delete_kv
  drop_run later w exp s r h due =
      rw (h, due, commit_ok d m later (dropping w s) (dropping-CanCommit w s r))

  keep_run :
      (later w exp : ℤ) (s : State S)
      → int64 (d.get s.store mk) ≡ ok exp
      → leb_ℤ exp later ≡ false
      → expire_row d (record e { now = later }) (delete_kv d e) (tk w) mk key s
        ≡ (ok tt, record s { batch = batch_rollback s.batch })
  unfolding expire_row
  keep_run later w exp s h due = rw (h, due)

  -- Between two handlers, at a time record that has come, the checker reads the time in the meta record again. If that is past, the value,
  -- the meta record and the time record are removed, and no other key changes; if it is still to come,
  -- no key changes.
  pub expire_row_lem :
      (later w exp : ℤ) (s : State S) (k : Bytes)
      → IsReady s
      → IsInt64 exp
      → look m s mk ≡ some (put_int64 exp)
      → look m (expire_row d (record e { now = later }) (delete_kv d e) (tk w) mk key s).1 k ≡ (
          if leb_ℤ exp later
          then (if equal_bytes mk k
              then none
              else if equal_bytes (tk w) k
              then none
              else if equal_bytes kv k
              then none
              else look m s k)
          else look m s k)
  expire_row_lem later w exp s k r i h = elim (Bool-cases (leb_ℤ exp later)) [
    | inl due ↦ rw (drop_run later w exp s r time due, due) (look-dropping later w s k r)
    | inr due ↦ rw (keep_run later w exp s time due, due) refl
  ]
    where
      time : int64 (d.get s.store mk) ≡ ok exp
      time = rw (m.get_row, h) (int64-put_int64 exp i)
