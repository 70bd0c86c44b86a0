-- ===== src/Ledis/Replicas/Cluster/Synced.antt =====
-- What a master and a slave have in common after any steps (ledis/batch.go, ledis/replication.go).
use ledisdb.Base.{
  ℕ, ◌+◌, ◌^◌, ◌<◌, ◌≡◌, refl, sym, ap, ◌∙◌, true, Bool-cases, inl, inr, Option, some, List, [],
  ◌∷◌, ◌++◌, length, All, arith,
}
use ledisdb.Base.Int.{ℤ, to_u32, to_u32-lt}
use ledisdb.Error.{Result, ok}
use ledisdb.Bytes.{Bytes}
use ledisdb.Store.{Op, Driver, WriteBatch}
use ledisdb.Store.Map.{IsOrderedMap, find_row}
use ledisdb.Rpl.{Log, Replication, last_id}
use ledisdb.Rpl.RoundTrip.{FitsHead}
use ledisdb.Ledis.{State, commit}
use ledisdb.Ledis.Commit.{logged, commit_ok, commit_readonly, look}
use ledisdb.Ledis.Replicas.{handle_replication, read_logs_to, store_logs_from_reader}
use ledisdb.Ledis.Replicas.Replay.{
  IsNumbered, last_id-length, AllDumps, IsNumbered-older, replay_logs, rev_onto, rev_onto-append,
  at, replay_run,
}
use ledisdb.Ledis.Replicas.Transfer.{transfer_lem, length-rev_onto}
use ledisdb.Ledis.Replicas.Cluster.{
  Cluster, last_of, Step, write, transfer, replays, Reaches, here, step,
}

module _ {S I : Type 0} {d : Driver S I} (m : IsOrderedMap d) where
  -- The master has the logs that the slave has not, those that it has not replayed, and those that it
  -- has; each store is the common one of the beginning with the logs of its database replayed.
  pub record IsSynced (base : Bytes → Option Bytes) (c : Cluster S) : Type 0 where
    pub unsent : List Log
    pub pending : List Log
    pub applied : List Log
    pub numbered : IsNumbered (rev_onto unsent (rev_onto pending applied))
    pub fits : All FitsHead unsent
    pub unsent_dumps : AllDumps d unsent
    pub pending_dumps : AllDumps d pending
    pub master_log :
        c.master.rpl
        ≡ some (
            at
              (rev_onto unsent (rev_onto pending applied))
              (last_id (rev_onto unsent (rev_onto pending applied))))
    pub slave_log : c.rpl ≡ at (rev_onto pending applied) (last_id applied)
    pub master_store :
        (k : Bytes)
        → look m c.master k ≡ replay_logs d (rev_onto unsent (rev_onto pending applied)) k (base k)
    pub slave_store : (k : Bytes) → find_row k (m.rows c.store) ≡ replay_logs d applied k (base k)

rev_onto_parts : (xs ys logs : List Log) → rev_onto (xs ++ ys) logs ≡ rev_onto ys (rev_onto xs logs)
rev_onto_parts [] ys logs = refl
rev_onto_parts (x ∷ xs) ys logs = rev_onto_parts xs ys (x ∷ logs)

All-parts : (xs ys : List Log) → All FitsHead (xs ++ ys) → All FitsHead ys
All-parts [] ys h = h
All-parts (x ∷ xs) ys h = All-parts xs ys h.1

All-snoc : (xs : List Log) (y : Log) → All FitsHead xs → FitsHead y → All FitsHead (xs ++ y ∷ [])
All-snoc [] y h g = (g, tt)
All-snoc (x ∷ xs) y h g = (h.0, All-snoc xs y h.1 g)

module _ {S I : Type 0} {d : Driver S I} (m : IsOrderedMap d) (decompress : Bytes → Result Bytes)
    (base : Bytes → Option Bytes) where
  AllDumps-append : (xs ys : List Log) → AllDumps d xs → AllDumps d ys → AllDumps d (xs ++ ys)
  AllDumps-append [] ys h g = g
  AllDumps-append (x ∷ xs) ys h g = (h.0, AllDumps-append xs ys h.1 g)

  AllDumps-parts : (xs ys : List Log) → AllDumps d (xs ++ ys) → AllDumps d xs × AllDumps d ys
  AllDumps-parts [] ys h = (tt, h)
  AllDumps-parts (x ∷ xs) ys h = let (a, b) = AllDumps-parts xs ys h.1 in ((h.0, a), b)

  replays-IsSynced :
      (c : Cluster S) (fuel : ℕ) (result : Result (Unit {0})) (log : Replication)
      (left : WriteBatch) (store : S)
      → IsSynced m base c
      → last_id c.rpl.logs < fuel
      → handle_replication d decompress fuel c.rbatch c.rpl c.store ≡ some (result, (log, store))
      → IsSynced m base (record c { rpl = log; rbatch = left; store = store })
  replays-IsSynced c fuel result log left store h lt run =
      let n_slave : IsNumbered (rev_onto h.pending h.applied) =
        IsNumbered-older (rev_onto h.unsent []) (rev_onto h.pending h.applied)
          (rw (← rev_onto-append h.unsent (rev_onto h.pending h.applied)) h.numbered) in
      let short : length h.pending < fuel = omega (
        arith,
        ap (λ (l : Replication). last_id l.logs) h.slave_log,
        last_id-length (rev_onto h.pending h.applied) n_slave,
        length-rev_onto h.pending h.applied,
      ) in
      let (st, runs, holds) =
        replay_run m decompress base fuel c.rbatch h.pending h.applied c.store n_slave
          h.pending_dumps h.slave_store short in
      let same : some (result, (log, store))
          ≡ some (
            ok tt,
            (at (rev_onto h.pending h.applied) (last_id (rev_onto h.pending h.applied)), st),
          ) =
        sym run
        ∙ ap (λ r. handle_replication d decompress fuel c.rbatch r c.store) h.slave_log
        ∙ runs in
      record {
        unsent = h.unsent;
        pending = [];
        applied = rev_onto h.pending h.applied;
        numbered = h.numbered;
        fits = h.fits;
        unsent_dumps = h.unsent_dumps;
        pending_dumps = tt;
        master_log = h.master_log;
        slave_log = cc same;
        master_store = h.master_store;
        slave_store = λ k. (let st_eq : store ≡ st = cc same in rw st_eq (holds k));
      }

  transfer-IsSynced :
      (c : Cluster S) (fuel : ℕ) (result : Result (Unit {0})) (log : Replication)
      → IsSynced m base c
      → last_of c.master.rpl < fuel
      → store_logs_from_reader fuel true
          (read_logs_to (last_id c.rpl.logs + 1) c.master.rpl).written
          (some c.rpl)
        ≡ some (result, some log)
      → IsSynced m base (record c { rpl = log })
  transfer-IsSynced c fuel result log h lt run =
      let old = rev_onto h.pending h.applied in
      let all = rev_onto h.unsent old in
      let short : length h.unsent < fuel = omega (
        arith,
        ap last_of h.master_log,
        last_id-length all h.numbered,
        length-rev_onto h.unsent old,
      ) in
      let (sent, rest, parts, _, _, _, stored) =
        transfer_lem h.unsent old (last_id all) (last_id h.applied) fuel h.numbered h.fits short in
      let same : some (result, some log)
          ≡ some (ok tt, some (at (rev_onto sent old) (last_id h.applied))) =
        sym run
        ∙ ap
            (λ r.
              store_logs_from_reader fuel true
                (read_logs_to (last_id r.logs + 1) c.master.rpl).written (some r))
            h.slave_log
        ∙ ap
            (λ r.
              store_logs_from_reader fuel true (read_logs_to (last_id old + 1) r).written
                (some (at old (last_id h.applied))))
            h.master_log
        ∙ stored in
      let logs : rev_onto rest (rev_onto (h.pending ++ sent) h.applied) ≡ all =
        ap (rev_onto rest) (rev_onto_parts h.pending sent h.applied)
        ∙ sym (rev_onto_parts sent rest old)
        ∙ ap (λ u. rev_onto u old) (sym parts) in
      let (sent_dumps, rest_dumps) = AllDumps-parts sent rest (rw (← parts) h.unsent_dumps) in
      let log_eq : log ≡ at (rev_onto sent old) (last_id h.applied) = cc same in
      record {
        unsent = rest;
        pending = h.pending ++ sent;
        applied = h.applied;
        numbered = rw logs h.numbered;
        fits = All-parts sent rest (rw (← parts) h.fits);
        unsent_dumps = rest_dumps;
        pending_dumps = AllDumps-append h.pending sent h.pending_dumps sent_dumps;
        master_log = rw logs h.master_log;
        slave_log =
            log_eq
            ∙ ap (λ l. at l (last_id h.applied)) (sym (rev_onto_parts h.pending sent h.applied));
        master_store = λ k. rw logs (h.master_store k);
        slave_store = h.slave_store;
      }

  -- The log that a commit of the master writes.
  abbrev new_log : ℤ → List Op → ℕ → Log
  new_log now ops last = record {
    id = last + 1;
    create_time = to_u32 now;
    compression = 0;
    log_data = d.dump ops;
  }

  write-IsSynced :
      (c : Cluster S) (now : ℤ) (batch : WriteBatch)
      → IsSynced m base c
      → length (d.dump batch.ops) < 2 ^ 32
      → last_of c.master.rpl + 1 < 2 ^ 64
      → IsSynced m base (record c { master = (commit d now (record c.master { batch = batch })).1 })
  write-IsSynced c now batch h size id =
      let old = rev_onto h.pending h.applied in
      let all = rev_onto h.unsent old in
      let l = new_log now batch.ops (last_id all) in
      let s : State S = record c.master { batch = batch } in
      elim (Bool-cases c.master.readonly) [
        | inl p ↦ rw (commit_readonly d now s p) (record {
          unsent = h.unsent;
          pending = h.pending;
          applied = h.applied;
          numbered = h.numbered;
          fits = h.fits;
          unsent_dumps = h.unsent_dumps;
          pending_dumps = h.pending_dumps;
          master_log = h.master_log;
          slave_log = h.slave_log;
          master_store = h.master_store;
          slave_store = h.slave_store;
        })
        | inr p ↦
            rw (commit_ok d m now s (record { writable = p; caught_up = rw h.master_log refl })) (
              let more : rev_onto (h.unsent ++ l ∷ []) old ≡ l ∷ all =
                rev_onto_parts h.unsent (l ∷ []) old in
              record {
                unsent = h.unsent ++ l ∷ [];
                pending = h.pending;
                applied = h.applied;
                numbered = rw more (refl, h.numbered);
                fits = All-snoc h.unsent l h.fits (record {
                  id = omega (arith, ap last_of h.master_log);
                  create_time = to_u32-lt now;
                  compression = omega arith;
                  size = size;
                });
                unsent_dumps =
                    AllDumps-append h.unsent (l ∷ []) h.unsent_dumps
                      (record { plain = refl; ops = batch.ops; dumped = refl }, tt);
                pending_dumps = h.pending_dumps;
                master_log =
                    rw more
                      (ap (logged now (d.dump batch.ops)) h.master_log ∙ (unfold last_id in refl));
                slave_log = h.slave_log;
                master_store = λ k. rw more (
                    m.find_written c.master.store batch.ops k
                    ∙ rw (h.master_store k, m.load_ops_dump batch.ops));
                slave_store = h.slave_store;
              })
      ]

  pub Step-IsSynced :
      {a b : Cluster S} → Step d decompress a b → IsSynced m base a → IsSynced m base b
  Step-IsSynced (write now batch size id) h = write-IsSynced _ now batch h size id
  Step-IsSynced (transfer fuel result log lt run) h = transfer-IsSynced _ fuel result log h lt run
  Step-IsSynced (replays fuel result log left store lt run) h =
      replays-IsSynced _ fuel result log left store h lt run

  pub Reaches-IsSynced :
      {a b : Cluster S} → Reaches d decompress a b → IsSynced m base a → IsSynced m base b
  Reaches-IsSynced here h = h
  Reaches-IsSynced (step path next) h = Step-IsSynced next (Reaches-IsSynced path h)
