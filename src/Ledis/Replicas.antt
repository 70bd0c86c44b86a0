-- ===== src/Ledis/Replicas.antt =====
-- ledis/replication.go: logs are read out for a slave, stored by it, and replayed into its store.
pub mod Replay
pub mod Transfer
pub mod Cluster
use ledisdb.Base.{
  ℕ, zero, suc, ◌+◌, ◌-◌, ◌*◌, Bool, true, false, not, Option, none, some, List, [], ◌∷◌, ◌++◌, ltb,
  ◌==◌, if◌then◌else◌,
}
use ledisdb.Error.{
  Result, ok, err, ◌>>=◌, ◌>>◌, eof, err_no_behind_log, err_rpl_not_support, err_rpl_in_rdwr,
  err_log_missed,
}
use ledisdb.Bytes.{Bytes}
use ledisdb.Store.{Op, put, delete, Driver, WriteBatch, batch_put, batch_delete, batch_rollback}
use ledisdb.Rpl.{
  Log, Replication, last_id, first_id, get_log, store_log, update_commit_id, next_need_commit_log,
}
use ledisdb.Rpl.Codec.{encode_log, decode_log, log_size}

abbrev pub max_repl_log_size : ℕ
max_repl_log_size = 1 * 1024 * 1024

-- What `ReadLogsTo` has written and returns.
pub record Reading : Type 0 where
  pub written : Bytes
  pub num : ℕ
  pub next_log_id : ℕ
  pub result : Result (Unit {0})

abbrev pub reading : Bytes → ℕ → ℕ → Result (Unit {0}) → Reading
reading written num next result = record {
  written = written;
  num = num;
  next_log_id = next;
  result = result;
}

abbrev pub before : Bytes → Reading → Reading
before bytes r = record r { written = bytes ++ r.written }

-- The loop of `ReadLogsTo` from the id `i` on, over the ids that are left.
unfoldable pub read_logs : ℕ → ℕ → ℕ → List Log → Reading
unfolding encode_log log_size
read_logs zero i num logs = reading [] num i (ok tt)
read_logs (suc left) i num logs = elim (get_log i logs) [
  | err e ↦ reading [] num i (err e)
  | ok l ↦
      (let rest = before (encode_log l) (read_logs left (i + 1) (num + log_size l) logs) in
        if ltb max_repl_log_size (num + log_size l)
        then reading (encode_log l) (num + log_size l) (i + 1) (ok tt)
        else rest)
]

unfoldable pub read_logs_to : ℕ → Option Replication → Reading
unfolding read_logs
read_logs_to start none = reading [] 0 0 (err err_rpl_not_support)
read_logs_to start (some r) =
    if ltb start (first_id r.logs)
    then reading [] 0 0 (err err_log_missed)
    else read_logs (last_id r.logs + 1 - start) start 0 r.logs

-- The loop of `StoreLogsFromReader`; `none` is a loop that has not ended. What was stored before an error
-- stays.
unfoldable pub store_logs : ℕ → Bytes → Replication → Option (Result (Unit {0}) × Replication)
store_logs zero rb r = none
store_logs (suc fuel) rb r = elim (decode_log rb) [
  | err eof ↦ some (ok tt, r)
  | err e ↦ some (err e, r)
  | ok (l, rest) ↦ elim (store_log l r.logs) [
    | err e ↦ some (err e, r)
    | ok logs ↦ store_logs fuel rest (record r { logs = logs })
  ]
]

unfoldable pub store_logs_from_reader :
    ℕ → Bool → Bytes → Option Replication → Option (Result (Unit {0}) × Option Replication)
unfolding store_logs
store_logs_from_reader fuel readonly rb none = some (err err_rpl_not_support, none)
store_logs_from_reader fuel false rb (some r) = some (err err_rpl_in_rdwr, some r)
store_logs_from_reader fuel true rb (some r) = elim (store_logs fuel rb r) [
  | none ↦ none
  | some (result, r') ↦ some (result, some r')
]

-- `Replay` of a batch's data into another batch
unfoldable pub replay_into : List Op → WriteBatch → WriteBatch
replay_into [] b = b
replay_into (put k v ∷ ops) b = replay_into ops (batch_put k v b)
replay_into (delete k ∷ ops) b = replay_into ops (batch_delete k b)

module _ {S I : Type 0} (d : Driver S I) (decompress : Bytes → Result Bytes) where
  unfoldable pub log_bytes : Log → Result Bytes
  log_bytes l = if l.compression == 1 then decompress l.log_data else ok l.log_data

  -- An error of `Replay` is logged only, and what it has handed over is committed.
  unfoldable pub replay_log : Log → WriteBatch → Result WriteBatch
  unfolding log_bytes replay_into
  replay_log l rbatch = do
    bytes ← log_bytes l
    d.load bytes
    ok (replay_into (d.load_ops bytes) (batch_rollback rbatch))

  -- The loop of `handleReplication`; `none` is a loop that has not ended.
  unfoldable pub handle_replication :
      ℕ → WriteBatch → Replication → S → Option (Result (Unit {0}) × (Replication × S))
  unfolding replay_log
  handle_replication zero rbatch r s = none
  handle_replication (suc fuel) rbatch r s = elim (next_need_commit_log r) [
    | err err_no_behind_log ↦ some (ok tt, (r, s))
    | err e ↦ some (err e, (r, s))
    | ok l ↦ elim (replay_log l rbatch) [
      | err e ↦ some (err e, (r, s))
      | ok rb ↦ elim (d.write s rb.ops) [
        | err e ↦ some (err e, (r, s))
        | ok st ↦ handle_replication fuel rb (update_commit_id l.id r) st
      ]
    ]
  ]
