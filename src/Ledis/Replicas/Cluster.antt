-- ===== src/Ledis/Replicas/Cluster.antt =====
-- A master and a slave (ledis/batch.go, ledis/replication.go), with the steps that they take in any order:
-- the master commits a batch, the slave asks for logs and stores them, the slave replays its logs.
pub mod Synced
pub mod Agreement
pub mod CatchUp
use ledisdb.Base.{
  ℕ, suc, ◌+◌, ◌^◌, ◌%◌, ◌<◌, ◌≡◌, refl, sym, ap, ◌∙◌, Bool, true, false, Bool-cases, inl, inr,
  Option, none, some, List, [], ◌∷◌, ◌++◌, length, All, arith,
}
use ledisdb.Base.Int.{ℤ, to_u32, to_u32-lt}
use ledisdb.Error.{Result, ok, err}
use ledisdb.Bytes.{Bytes}
use ledisdb.Store.{Op, Driver, WriteBatch, empty_batch, replay}
use ledisdb.Store.Map.{IsOrderedMap, find_row}
use ledisdb.Rpl.{Log, Replication, last_id}
use ledisdb.Rpl.RoundTrip.{FitsHead}
use ledisdb.Ledis.{State, commit}
use ledisdb.Ledis.Commit.{logged, commit_ok, commit_readonly, look}
use ledisdb.Ledis.Replicas.{handle_replication, read_logs_to, store_logs_from_reader}
use ledisdb.Ledis.Replicas.Replay.{
  IsNumbered, last_id-length, IsDump, AllDumps, IsNumbered-older, replay_logs, rev_onto,
  rev_onto-append, at, replay_run,
}
use ledisdb.Ledis.Replicas.Transfer.{transfer_lem, length-rev_onto}

pub record Cluster (S : Type 0) : Type 0 where
  pub master : State S
  -- the slave's log, the batch that it replays into, and its store
  pub rpl : Replication
  pub rbatch : WriteBatch
  pub store : S

abbrev pub last_of : Option Replication → ℕ
last_of none = 0
last_of (some r) = last_id r.logs

module _ {S I : Type 0} (d : Driver S I) (decompress : Bytes → Result Bytes) where
  pub data Step (c : Cluster S) : Cluster S → Type 0 where
    -- The master commits whatever batch is pending, and its dump and its id fit the head of a log.
    write :
        (now : ℤ) (batch : WriteBatch)
        → length (d.dump batch.ops) < 2 ^ 32
        → last_of c.master.rpl + 1 < 2 ^ 64
        → Step c (record c { master = (commit d now (record c.master { batch = batch })).1 })
    -- The slave reads from its next id on, and stores what comes.
    transfer :
        (fuel : ℕ) (result : Result (Unit {0})) (log : Replication)
        → last_of c.master.rpl < fuel
        → store_logs_from_reader fuel true
            (read_logs_to (last_id c.rpl.logs + 1) c.master.rpl).written
            (some c.rpl)
          ≡ some (result, some log)
        → Step c (record c { rpl = log })
    -- The slave replays what it has not committed, and leaves something in its batch.
    replays :
        (fuel : ℕ) (result : Result (Unit {0})) (log : Replication) (left : WriteBatch) (store : S)
        → last_id c.rpl.logs < fuel
        → handle_replication d decompress fuel c.rbatch c.rpl c.store ≡ some (result, (log, store))
        → Step c (record c { rpl = log; rbatch = left; store = store })

  pub data Reaches (c : Cluster S) : Cluster S → Type 0 where
    here : Reaches c c
    step : {a b : Cluster S} → Reaches c a → Step a b → Reaches c b
