-- ===== src/Rpl.antt =====
-- rpl/rpl.go and rpl/goleveldb_store.go: the replication log, its ids, and the id that is committed,
-- where logs are written without compression. The log's database is the list of its logs, the newest
-- first. A log's data is the dump of the batch that it carries.
pub mod Codec
pub mod RoundTrip
use ledisdb.Base.{ℕ, ◌+◌, Bool, not, List, [], ◌∷◌, ltb, leb, ◌==◌, if◌then◌else◌}
use ledisdb.Base.Int.{ℤ, pos, ◌-ℤ◌, leb_ℤ, to_u32}
use ledisdb.Error.{
  err_expired_time, Result, ok, err, ◌>>=◌, ◌>>◌, reject_if, err_commit_id_behind, err_store_log_id,
  err_no_behind_log, err_log_not_found,
}
use ledisdb.Bytes.{Bytes}

pub record Log : Type 0 where
  pub id : ℕ
  pub create_time : ℕ
  pub compression : ℕ
  pub log_data : Bytes

pub record Replication : Type 0 where
  pub logs : List Log
  pub commit_id : ℕ

-- `InvalidLogID` for an empty log
unfoldable pub last_id : List Log → ℕ
last_id [] = 0
last_id (l ∷ logs) = l.id

unfoldable pub store_log : Log → List Log → Result (List Log)
unfolding last_id
store_log log logs =
    if not (log.id == last_id logs + 1) then err err_store_log_id else ok (log ∷ logs)

-- `FirstID` of a log that is not empty
unfoldable pub first_id : List Log → ℕ
first_id [] = 0
first_id (l ∷ []) = l.id
first_id (l ∷ j ∷ logs) = first_id (j ∷ logs)

unfoldable pub get_log : ℕ → List Log → Result Log
get_log id [] = err err_log_not_found
get_log id (l ∷ logs) = let rest = get_log id logs in if l.id == id then ok l else rest

-- `Replication.Log`
unfoldable pub log : ℕ → Bytes → Replication → Result (Log × Replication)
unfolding store_log last_id
log now bytes r = do
  reject_if (ltb r.commit_id (last_id r.logs)) err_commit_id_behind
  let last = if ltb (last_id r.logs) r.commit_id then r.commit_id else last_id r.logs
  let l : Log = record { id = last + 1; create_time = now; compression = 0; log_data = bytes }
  logs ← store_log l r.logs
  ok (l, record r { logs = logs })

unfoldable pub update_commit_id : ℕ → Replication → Replication
update_commit_id id r = record r { commit_id = id }

unfoldable pub commit_id_behind : Replication → Bool
unfolding last_id
commit_id_behind r = ltb r.commit_id (last_id r.logs)

unfoldable pub next_need_commit_log : Replication → Result Log
unfolding last_id get_log
next_need_commit_log r = do
  reject_if (leb (last_id r.logs) r.commit_id) err_no_behind_log
  get_log (r.commit_id + 1) r.logs

-- The logs, the newest first, without the oldest ones up to the first that is newer than a time
unfoldable pub purge_logs : ℕ → List Log → List Log
purge_logs t [] = []
purge_logs t (l ∷ logs) = elim (purge_logs t logs) [
  | [] ↦ if leb l.create_time t then [] else l ∷ []
  | j ∷ js ↦ l ∷ j ∷ js
]

-- `PurgeExpired`: n seconds before the clock's reading
unfoldable pub purge_expired : ℤ → ℤ → Replication → Result Replication
unfolding purge_logs
purge_expired now n r = do
  reject_if (leb_ℤ n (pos 0)) err_expired_time
  ok (record r { logs = purge_logs (to_u32 (now -ℤ n)) r.logs })

unfoldable pub clear_with_commit_id : ℕ → Replication → Replication
clear_with_commit_id id r = record { logs = []; commit_id = id }
