-- ===== src/Ledis/Replicas/Cluster/CatchUp.antt =====
-- A slave can catch up with its master from every state that they reach.
use ledisdb.Base.{
  ℕ, zero, suc, ◌+◌, ◌-◌, ◌<◌, ◌≤◌, ◌≡◌, refl, sym, ap, ◌∙◌, Option, some, [], length, true, arith,
}
use ledisdb.Error.{Result, ok}
use ledisdb.Bytes.{Bytes}
use ledisdb.Store.{Driver}
use ledisdb.Store.Map.{IsOrderedMap}
use ledisdb.Rpl.{Replication, last_id}
use ledisdb.Ledis.Commit.{look}
use ledisdb.Ledis.Replicas.{handle_replication, read_logs_to, store_logs_from_reader}
use ledisdb.Ledis.Replicas.Replay.{
  IsNumbered, IsNumbered-older, last_id-length, rev_onto, rev_onto-append, at, replay_run,
}
use ledisdb.Ledis.Replicas.Transfer.{transfer_lem, length-rev_onto, IsNumbered-sent}
use ledisdb.Ledis.Replicas.Cluster.{Cluster, Reaches, transfer, replays, here, step, last_of}
use ledisdb.Ledis.Replicas.Cluster.Synced.{IsSynced, Step-IsSynced, Reaches-IsSynced}
use ledisdb.Ledis.Replicas.Cluster.Agreement.{
  StartsAlike, Agrees, StartsAlike-IsSynced, IsSynced-Agrees,
}

module _ {S I : Type 0} {d : Driver S I} (m : IsOrderedMap d)
    (decompress : Bytes → Result Bytes) where
  Reaches-trans :
      {a b c : Cluster S}
      → Reaches d decompress a b
      → Reaches d decompress b c
      → Reaches d decompress a c
  Reaches-trans path here = path
  Reaches-trans path (step rest next) = step (Reaches-trans path rest) next

  slave-IsNumbered :
      (base : Bytes → Option Bytes) (c : Cluster S) (h : IsSynced m base c)
      → IsNumbered (rev_onto h.pending h.applied)
  slave-IsNumbered base c h =
      let old = rev_onto h.pending h.applied in
      IsNumbered-older (rev_onto h.unsent []) old (rw (← rev_onto-append h.unsent old) h.numbered)

  -- The slave replays all that it has stored.
  replay_rest :
      (base : Bytes → Option Bytes) (c : Cluster S)
      → IsSynced m base c
      → (st : S) × (handle_replication d decompress
            (suc (last_id c.rpl.logs))
            c.rbatch
            c.rpl
            c.store
          ≡ some (ok tt, (at c.rpl.logs (last_id c.rpl.logs), st)))
  replay_rest base c h =
      let n = slave-IsNumbered base c h in
      let short : length h.pending < suc (last_id (rev_onto h.pending h.applied)) = omega (
        arith,
        last_id-length (rev_onto h.pending h.applied) n,
        length-rev_onto h.pending h.applied,
      ) in
      let (st, run, holds) =
        replay_run m decompress base (suc (last_id (rev_onto h.pending h.applied))) c.rbatch
          h.pending h.applied c.store n h.pending_dumps h.slave_store short in
      (
        st,
        ap
              (λ (r : Replication).
                handle_replication d decompress (suc (last_id r.logs)) c.rbatch r c.store)
              h.slave_log
            ∙ run
            ∙ ap (λ (r : Replication). some (ok tt, (at r.logs (last_id r.logs), st)))
                (sym h.slave_log),
      )

  -- The slave stores at least one log if there is one to be sent.
  store_next :
      (base : Bytes → Option Bytes) (c : Cluster S)
      → IsSynced m base c
      → (log : Replication) × (store_logs_from_reader
            (suc (last_of c.master.rpl))
            true
            (read_logs_to (last_id c.rpl.logs + 1) c.master.rpl).written
            (some c.rpl)
          ≡ some (ok tt, some log))
        × (last_of c.master.rpl - last_id log.logs ≤ last_of c.master.rpl - last_id c.rpl.logs - 1)
  store_next base c h =
      let old = rev_onto h.pending h.applied in
      let all = rev_onto h.unsent old in
      let whole : last_id all ≡ length h.unsent + length old =
        last_id-length all h.numbered ∙ length-rev_onto h.unsent old in
      let short : length h.unsent < suc (last_id all) = omega (arith, whole) in
      let (sent, rest, parts, one, _, _, stored) =
        transfer_lem h.unsent old (last_id all) (last_id h.applied) (suc (last_id all)) h.numbered
          h.fits short in
      let n_sent : IsNumbered (rev_onto sent old) =
        IsNumbered-sent sent rest old (rw (← parts) h.numbered) in
      let stored_length : last_id (rev_onto sent old) ≡ length sent + length old =
        last_id-length (rev_onto sent old) n_sent ∙ length-rev_onto sent old in
      let had : last_id old ≡ length old = last_id-length old (slave-IsNumbered base c h) in
      (
        at (rev_onto sent old) (last_id h.applied),
        rw (h.slave_log, h.master_log) stored,
        omega (
          arith,
          ap (λ (l : Replication). last_id l.logs) h.slave_log,
          ap last_of h.master_log,
          whole,
          stored_length,
          had,
          fewer (length h.unsent) (length sent) (length old) one,
        ),
      )
    where
      fewer : (u s o : ℕ) → (0 < u → 0 < s) → u + o - (s + o) ≤ u + o - o - 1
      fewer zero s o one = omega arith
      fewer (suc u) s o one = omega (arith, one (omega arith))

  slave_le :
      (base : Bytes → Option Bytes) (c : Cluster S)
      → IsSynced m base c
      → last_id c.rpl.logs ≤ last_of c.master.rpl
  slave_le base c h =
      let old = rev_onto h.pending h.applied in
      rw (h.slave_log, h.master_log)
        (omega (
          arith,
          last_id-length (rev_onto h.unsent old) h.numbered,
          length-rev_onto h.unsent old,
          last_id-length old (slave-IsNumbered base c h),
        ))

  catch_up :
      (base : Bytes → Option Bytes) (n : ℕ) (c : Cluster S)
      → IsSynced m base c
      → last_of c.master.rpl - last_id c.rpl.logs ≤ n
      → (b : Cluster S) × Reaches d decompress c b × (b.master ≡ c.master) × Agrees m b
  catch_up base zero c h le =
      let (st, run) = replay_rest base c h in
      let next =
        replays (suc (last_id c.rpl.logs)) (ok tt) (at c.rpl.logs (last_id c.rpl.logs)) c.rbatch st
          (omega arith) run in
      let b : Cluster S = record c { rpl = at c.rpl.logs (last_id c.rpl.logs); store = st } in
      let synced : IsSynced m base b = Step-IsSynced m decompress base next h in
      (b, step here next, refl, IsSynced-Agrees m base b synced (omega (arith, slave_le base c h)))
  catch_up base (suc n) c h le =
      let (log, run, fewer) = store_next base c h in
      let next = transfer (suc (last_of c.master.rpl)) (ok tt) log (omega arith) run in
      let c' : Cluster S = record c { rpl = log } in
      let (b, path, same, agrees) =
        catch_up base n c' (Step-IsSynced m decompress base next h) (omega (arith, fewer)) in
      (b, Reaches-trans (step here next) path, same, agrees)

  -- From every state that a master and a slave reach by commits whose dumps and ids fit the head of a
  -- log, transfers of logs and replays, from databases without logs whose stores hold the same values,
  -- further steps lead to a state in which the master is as it was and the
  -- stores hold the same value, or none, under every key.
  pub Reaches-catch_up :
      (a c : Cluster S)
      → StartsAlike m a
      → Reaches d decompress a c
      → (b : Cluster S) × Reaches d decompress c b × (b.master ≡ c.master) × Agrees m b
  Reaches-catch_up a c h path =
      let base = look m a.master in
      catch_up base (last_of c.master.rpl - last_id c.rpl.logs) c
        (Reaches-IsSynced m decompress base path (StartsAlike-IsSynced m a h)) (omega arith)
