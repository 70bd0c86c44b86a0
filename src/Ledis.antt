-- ===== src/Ledis.antt =====
-- ledis/ledis.go, ledis/ledis_db.go and ledis/batch.go: the state of a database, the actions on it, and
-- the commit of a batch. Every handler holds the lock of its type's batch from its first write to its
-- end, so one pending batch is the state that it works on, and `unlock` is the rollback of it.
pub mod Commit
pub mod Value
pub mod Ttl
pub mod Kv
pub mod Sized
pub mod Hash
pub mod Sets
pub mod Zset
pub mod Lists
pub mod Replicas
pub mod Scans
pub mod Flushes
pub mod Failures
use ledisdb.Base.{ℕ, Bool, true, false, Option, none, some, List, [], ◌∷◌, if◌then◌else◌}
use ledisdb.Base.Int.{ℤ, to_u32}
use ledisdb.Error.{Error, Result, ok, err, err_write_in_r_only}
use ledisdb.Bytes.{Bytes}
use ledisdb.Key.{Db}
use ledisdb.Store.{
  Driver, WriteBatch, empty_batch, batch_put, batch_delete, batch_rollback, batch_committed,
}
use ledisdb.Rpl.{Log, Replication, log, update_commit_id}

-- The database, the clock's reading of a call, and a bound on the rows that a scan walks.
pub record Env : Type 0 where
  pub db : Db
  pub now : ℤ
  pub fuel : ℕ

pub record State (S : Type 0) : Type 0 where
  pub store : S
  pub batch : WriteBatch
  -- `nc` of the ttlChecker
  pub next_check : ℤ
  pub readonly : Bool
  pub rpl : Option Replication

-- What was written before an error stays written, so the state comes back beside the error too.
abbrev pub M : Type 0 → Type 0 → Type 0
M S A = State S → Result A × State S

module _ {S A : Type 0} where
  abbrev pub pure : A → M S A
  pure a s = (ok a, s)

  abbrev pub raise : Error → M S A
  raise e s = (err e, s)

  abbrev pub lift : Result A → M S A
  lift r s = (r, s)

module _ {S A B : Type 0} where
  abbrev pub continue : Result A → (A → M S B) → M S B
  continue (ok a) f s = f a s
  continue (err e) f s = (err e, s)

  infixl 5 ◌>>=◌
  abbrev pub ◌>>=◌ : M S A → (A → M S B) → M S B
  ◌>>=◌ m f s = let (r, s') = m s in continue r f s'

infixl 5 ◌>>◌
abbrev pub ◌>>◌ : {S B : Type 0} → M S (Unit {0}) → M S B → M S B
m >> k = m >>= λ _. k

module _ {S : Type 0} where
  abbrev pub put : Bytes → Bytes → M S (Unit {0})
  put key value s = (ok tt, record s { batch = batch_put key value s.batch })

  abbrev pub delete : Bytes → M S (Unit {0})
  delete key s = (ok tt, record s { batch = batch_delete key s.batch })

-- `t.Lock()` and the deferred `t.Unlock()` around a handler
abbrev pub locked : {S A : Type 0} → M S A → M S A
locked m s = let (r, s') = m s in (r, record s' { batch = batch_rollback s'.batch })

module _ {S I : Type 0} (d : Driver S I) where
  -- `db.bucket.Get`
  abbrev pub bucket_get : Bytes → M S (Option Bytes)
  bucket_get key s = (d.get s.store key, s)

  abbrev pub write_store : Result S → M S (Unit {0})
  write_store (err e) s = (err e, s)
  write_store (ok st) s = (ok tt, record s { store = st; batch = batch_committed s.batch })

  abbrev pub committed_id :
      ℕ → Replication → Result (Unit {0}) × State S → Result (Unit {0}) × State S
  committed_id id r (err e, s) = (err e, record s { rpl = some r })
  committed_id id r (ok u, s) = (ok u, record s { rpl = some (update_commit_id id r) })

  unfoldable pub commit_logged : Result (Log × Replication) → M S (Unit {0})
  commit_logged (err e) s = (err e, s)
  commit_logged (ok (l, r)) s = committed_id l.id r (write_store (d.write s.store s.batch.ops) s)

  unfoldable pub commit_with : Option Replication → ℤ → M S (Unit {0})
  unfolding commit_logged
  commit_with none now s = write_store (d.write s.store s.batch.ops) s
  commit_with (some r) now s = commit_logged (log (to_u32 now) (d.dump s.batch.ops) r) s

  -- `handleCommit`: the log is written first. If the store fails after that, the log stays, ahead of the commit
  -- id, and the error is returned; `noticeReplication` then wakes the goroutine that runs `handleReplication`, which is
  -- a step of its own. An error of the write of the commit id itself is left out.
  unfoldable pub handle_commit : ℤ → M S (Unit {0})
  unfolding commit_with
  handle_commit now s = commit_with s.rpl now s

  unfoldable pub commit : ℤ → M S (Unit {0})
  unfolding handle_commit
  commit now s = if s.readonly then (err err_write_in_r_only, s) else handle_commit now s
