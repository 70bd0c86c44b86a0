-- ===== src/Ledis/Commit.antt =====
-- When a commit goes through, and what it leaves: the lemmas that the handlers' proofs rest on.
use ledisdb.Base.{
  ℕ, ◌+◌, ◌≡◌, refl, sym, ap, ◌∙◌, true, false, Option, none, some, [], ◌∷◌, if◌then◌else◌, arith,
}
use ledisdb.Base.Int.{ℤ, to_u32}
use ledisdb.Error.{Result, ok, err, err_write_in_r_only}
use ledisdb.Bytes.{Bytes}
use ledisdb.Store.{Driver, replay, batch_committed, batch_rollback}
use ledisdb.Store.Map.{IsOrderedMap, find_row}
use ledisdb.Rpl.{Replication, Log, log, last_id, update_commit_id}
use ledisdb.Ledis.{State, commit_with, handle_commit, commit}

-- The log, if there is one, has nothing that is not committed.
abbrev pub IsCaughtUp : Option Replication → Type 0
IsCaughtUp none = Unit {0}
IsCaughtUp (some r) = last_id r.logs ≡ r.commit_id

pub record CanCommit {S : Type 0} (s : State S) : Type 0 where
  pub writable : s.readonly ≡ false
  pub caught_up : IsCaughtUp s.rpl

-- The log after one more committed batch.
abbrev pub logged : ℤ → Bytes → Option Replication → Option Replication
logged now bytes none = none
logged now bytes (some r) = some (record {
  logs =
      record { id = r.commit_id + 1; create_time = to_u32 now; compression = 0; log_data = bytes }
      ∷ r.logs;
  commit_id = r.commit_id + 1;
})

-- A log that is caught up takes the next batch under the next id.
pub log_ok :
    (now : ℕ) (bytes : Bytes) (r : Replication)
    → last_id r.logs ≡ r.commit_id
    → log now bytes r ≡ (
        let l : Log = record {
          id = r.commit_id + 1;
          create_time = now;
          compression = 0;
          log_data = bytes;
        } in
        ok (l, record r { logs = l ∷ r.logs }))
unfolding log
log_ok now bytes r h = rw h (ground (arith, h))

module _ {S I : Type 0} (d : Driver S I) (m : IsOrderedMap d) where
  abbrev pub committed : ℤ → State S → State S
  committed now s = record s {
    store = m.written s.store s.batch.ops;
    batch = batch_committed s.batch;
    rpl = logged now (d.dump s.batch.ops) s.rpl;
  }

  commit_with_ok :
      (now : ℤ) (s : State S) (r : Option Replication)
      → IsCaughtUp r
      → s.rpl ≡ r
      → commit_with d r now s ≡ (ok tt, committed now s)
  unfolding commit_with update_commit_id
  commit_with_ok now s r h e = go r h e ∙ ap leave (ap (logged now (d.dump s.batch.ops)) (sym e))
    where
      leave : Option Replication → Result (Unit {0}) × State S
      leave r' = (ok tt, record (committed now s) { rpl = r' })

      go :
          (r' : Option Replication)
          → IsCaughtUp r'
          → s.rpl ≡ r'
          → commit_with d r' now s ≡ leave (logged now (d.dump s.batch.ops) r')
      go none h' e' = rw (m.write_ok s.store s.batch.ops) (ap leave e')
      go (some r') h' e' =
          rw (log_ok (to_u32 now) (d.dump s.batch.ops) r' h', m.write_ok s.store s.batch.ops)

  -- Where writes are allowed and the log is caught up, a commit applies the batch, and logs it under the next id.
  pub commit_ok : (now : ℤ) (s : State S) → CanCommit s → commit d now s ≡ (ok tt, committed now s)
  unfolding commit handle_commit
  commit_ok now s c =
      ap (λ b. if b then (err err_write_in_r_only, s) else commit_with d s.rpl now s) c.writable
      ∙ commit_with_ok now s s.rpl c.caught_up refl

module _ {S I : Type 0} (d : Driver S I) where
  -- In read-only mode a commit fails and changes nothing.
  pub commit_readonly :
      (now : ℤ) (s : State S) → s.readonly ≡ true → commit d now s ≡ (err err_write_in_r_only, s)
  unfolding commit handle_commit
  commit_readonly now s h =
      ap (λ b. if b then (err err_write_in_r_only, s) else commit_with d s.rpl now s) h

-- Between two handlers: writes are allowed, the log is caught up, and no batch is pending.
pub record IsReady {S : Type 0} (s : State S) : Type 0 where
  pub can_commit : CanCommit s
  pub idle : s.batch.ops ≡ []

logged-IsCaughtUp :
    (now : ℤ) (bytes : Bytes) (r : Option Replication) → IsCaughtUp (logged now bytes r)
unfolding last_id
logged-IsCaughtUp now bytes none = tt
logged-IsCaughtUp now bytes (some r) = refl

module _ {S I : Type 0} {d : Driver S I} (m : IsOrderedMap d) where
  -- The value of a key in the store of a state.
  abbrev pub look : State S → Bytes → Option Bytes
  look s k = find_row k (m.rows s.store)

  -- The state after the commit of the pending batch and the rollback of `Unlock`.
  abbrev pub finished : ℤ → State S → State S
  finished now s = record (committed d m now s) { batch = batch_rollback (batch_committed s.batch) }

  pub look-finished :
      (now : ℤ) (s : State S) (k : Bytes)
      → look (finished now s) k ≡ replay s.batch.ops k (look s k)
  look-finished now s k = m.find_written s.store s.batch.ops k

  pub finished-IsReady : (now : ℤ) (s : State S) → CanCommit s → IsReady (finished now s)
  unfolding batch_rollback
  finished-IsReady now s c = record {
    can_commit = record {
      writable = c.writable;
      caught_up = logged-IsCaughtUp now (d.dump s.batch.ops) s.rpl;
    };
    idle = refl;
  }
