-- ===== src/Ledis/Replicas/Replay.antt =====
-- What a slave's store holds after `handleReplication` (ledis/replication.go).
use ledisdb.Base.{
  ℕ, zero, suc, ◌+◌, ◌<◌, ◌≡◌, refl, sym, ap, ◌∙◌, true, false, Option, some, List, [], ◌∷◌, ◌++◌,
  length, length-append, ◌==◌, leb, append_assoc, append-nil, arith,
}
use ledisdb.Error.{Result, ok, err, err_no_behind_log}
use ledisdb.Bytes.{Bytes}
use ledisdb.Store.{
  Op, put, delete, Driver, WriteBatch, replay, batch_put, batch_delete, batch_rollback,
}
use ledisdb.Store.Map.{IsOrderedMap, find_row}
use ledisdb.Rpl.{Log, Replication, last_id, get_log, update_commit_id, next_need_commit_log}
use ledisdb.Ledis.Replicas.{replay_into, log_bytes, replay_log, handle_replication}

-- The ids of the logs, the newest first, follow on each other, from 1.
abbrev pub IsNumbered : List Log → Type 0
IsNumbered [] = Unit {0}
IsNumbered (l ∷ logs) = (l.id ≡ last_id logs + 1) × IsNumbered logs

pub last_id-length : (logs : List Log) → IsNumbered logs → last_id logs ≡ length logs
unfolding last_id
last_id-length [] n = refl
last_id-length (l ∷ logs) n = omega (arith, last_id-length logs n.1, n.0)

pub IsNumbered-older : (newer logs : List Log) → IsNumbered (newer ++ logs) → IsNumbered logs
IsNumbered-older [] logs n = n
IsNumbered-older (l ∷ newer) logs n = IsNumbered-older newer logs n.1

-- A log is found under its id among newer ones.
pub get_log-numbered :
    (newer : List Log) (l : Log) (logs : List Log)
    → IsNumbered (newer ++ l ∷ logs)
    → get_log (last_id logs + 1) (newer ++ l ∷ logs) ≡ ok l
unfolding get_log
get_log-numbered [] l logs n =
    let found : (l.id == last_id logs + 1) ≡ true = ground (arith, n.0) in rw found
get_log-numbered (j ∷ newer) l logs n =
    let other : (j.id == last_id logs + 1) ≡ false = ground (
      arith,
      n.0,
      last_id-length (newer ++ l ∷ logs) n.1,
      last_id-length logs (IsNumbered-older newer (l ∷ logs) n.1).1,
      length-append newer (l ∷ logs),
    ) in
    rw other (get_log-numbered newer l logs n.1)

-- Logs in the order of their ids, put on older ones.
abbrev pub rev_onto : List Log → List Log → List Log
rev_onto [] logs = logs
rev_onto (l ∷ todo) logs = rev_onto todo (l ∷ logs)

pub rev_onto-append : (todo logs : List Log) → rev_onto todo logs ≡ rev_onto todo [] ++ logs
rev_onto-append [] logs = refl
rev_onto-append (l ∷ todo) logs =
    rev_onto-append todo (l ∷ logs)
    ∙ sym (append_assoc (rev_onto todo []) (l ∷ []) logs)
    ∙ ap (λ newer. newer ++ logs) (sym (rev_onto-append todo (l ∷ [])))

abbrev pub at : List Log → ℕ → Replication
at logs id = record { logs = logs; commit_id = id }

replay_into-ops : (ops : List Op) (b : WriteBatch) → (replay_into ops b).ops ≡ b.ops ++ ops
unfolding replay_into batch_put batch_delete
replay_into-ops [] b = sym (append-nil b.ops)
replay_into-ops (put k v ∷ ops) b =
    replay_into-ops ops (batch_put k v b) ∙ append_assoc b.ops (put k v ∷ []) ops
replay_into-ops (delete k ∷ ops) b =
    replay_into-ops ops (batch_delete k b) ∙ append_assoc b.ops (delete k ∷ []) ops

pub ops-rollback : (ops : List Op) (b : WriteBatch) → (replay_into ops (batch_rollback b)).ops ≡ ops
unfolding batch_rollback
ops-rollback ops b = replay_into-ops ops (record { ops = []; put_num = 0; delete_num = 0 })

module _ {S I : Type 0} (d : Driver S I) where
  -- The logs of a database that writes them: a dump of a batch, not compressed.
  pub record IsDump (l : Log) : Type 0 where
    pub plain : l.compression ≡ 0
    pub ops : List Op
    pub dumped : l.log_data ≡ d.dump ops

  abbrev pub AllDumps : List Log → Type 0
  AllDumps [] = Unit {0}
  AllDumps (l ∷ logs) = IsDump l × AllDumps logs

  -- The value of a key after the logs, the newest first, by the value before them.
  abbrev pub replay_logs : List Log → Bytes → Option Bytes → Option Bytes
  replay_logs [] k v = v
  replay_logs (l ∷ logs) k v = replay (d.load_ops l.log_data) k (replay_logs logs k v)

  pub replay_logs-append :
      (newer logs : List Log) (k : Bytes) (v : Option Bytes)
      → replay_logs (newer ++ logs) k v ≡ replay_logs newer k (replay_logs logs k v)
  replay_logs-append [] logs k v = refl
  replay_logs-append (l ∷ newer) logs k v =
      ap (replay (d.load_ops l.log_data) k) (replay_logs-append newer logs k v)

module _ {S I : Type 0} {d : Driver S I} (m : IsOrderedMap d)
    (decompress : Bytes → Result Bytes) where
  replay_log-IsDump :
      (l : Log) (b : WriteBatch)
      → IsDump d l
      → replay_log d decompress l b ≡ ok (replay_into (d.load_ops l.log_data) (batch_rollback b))
  unfolding replay_log log_bytes
  replay_log-IsDump l b h = rw (h.plain, h.dumped, m.load_dump h.ops)

  next_log :
      (l : Log) (todo applied : List Log)
      → IsNumbered (rev_onto (l ∷ todo) applied)
      → next_need_commit_log (at (rev_onto (l ∷ todo) applied) (last_id applied)) ≡ ok l
  unfolding next_need_commit_log
  next_log l todo applied n =
      let same : rev_onto todo (l ∷ applied) ≡ rev_onto todo [] ++ l ∷ applied =
        rev_onto-append todo (l ∷ applied) in
      let n' : IsNumbered (rev_onto todo [] ++ l ∷ applied) = rw (← same) n in
      let behind : leb (last_id (rev_onto todo [] ++ l ∷ applied)) (last_id applied) ≡ false =
        ground (
          arith,
          last_id-length (rev_onto todo [] ++ l ∷ applied) n',
          last_id-length applied (IsNumbered-older (rev_onto todo []) (l ∷ applied) n').1,
          length-append (rev_onto todo []) (l ∷ applied),
        ) in
      rw (same, behind, get_log-numbered (rev_onto todo []) l applied n')

  no_log : (logs : List Log) → next_need_commit_log (at logs (last_id logs)) ≡ err err_no_behind_log
  unfolding next_need_commit_log
  no_log logs = ground arith

  -- One round of the loop: the log behind the committed ones is replayed.
  replay_step :
      (l : Log) (todo applied : List Log) (fuel : ℕ) (b : WriteBatch) (s : S)
      → IsNumbered (rev_onto (l ∷ todo) applied)
      → IsDump d l
      → handle_replication d decompress
          (suc fuel)
          b
          (at (rev_onto (l ∷ todo) applied) (last_id applied))
          s
        ≡ (let rb = replay_into (d.load_ops l.log_data) (batch_rollback b) in
            handle_replication d decompress fuel rb
              (at (rev_onto todo (l ∷ applied)) (last_id (l ∷ applied)))
              (m.written s rb.ops))
  unfolding handle_replication update_commit_id last_id
  replay_step l todo applied fuel b s n dump = rw (
    next_log l todo applied n,
    replay_log-IsDump l b dump,
    m.write_ok s (replay_into (d.load_ops l.log_data) (batch_rollback b)).ops,
    handle_replication,
  )

  pub replay_run :
      (base : Bytes → Option Bytes) (fuel : ℕ) (b : WriteBatch) (todo applied : List Log) (s : S)
      → IsNumbered (rev_onto todo applied)
      → AllDumps d todo
      → ((k : Bytes) → find_row k (m.rows s) ≡ replay_logs d applied k (base k))
      → length todo < fuel
      → (st : S) × (handle_replication d decompress fuel b
            (at (rev_onto todo applied) (last_id applied))
            s
          ≡ some (ok tt, (at (rev_onto todo applied) (last_id (rev_onto todo applied)), st)))
        × ((k : Bytes) → find_row k (m.rows st) ≡ replay_logs d (rev_onto todo applied) k (base k))
  unfolding handle_replication
  replay_run base zero b todo applied s n dumps h lt = absurd (omega arith)
  replay_run base (suc fuel) b [] applied s n dumps h lt =
      (s, rw (no_log applied, handle_replication), h)
  replay_run base (suc fuel) b (l ∷ todo) applied s n dumps h lt =
      let rb = replay_into (d.load_ops l.log_data) (batch_rollback b) in
      let all_ops : rb.ops ≡ d.load_ops l.log_data = ops-rollback (d.load_ops l.log_data) b in
      let (st, run, holds) =
        replay_run base fuel rb todo (l ∷ applied) (m.written s rb.ops) n dumps.1
          (λ k. m.find_written s rb.ops k ∙ rw (all_ops, h k)) (omega arith) in
      (st, replay_step l todo applied fuel b s n dumps.0 ∙ run, holds)
