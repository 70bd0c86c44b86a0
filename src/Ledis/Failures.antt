-- ===== src/Ledis/Failures.antt =====
-- What is left behind when the store fails to write a batch that is in the log (ledis/batch.go, rpl/rpl.go).
use ledisdb.Base.{◌+◌, ◌∷◌}
use ledisdb.Base.Int.{ℤ, to_u32}
use ledisdb.Error.{Error}
use ledisdb.Bytes.{Bytes}
use ledisdb.Store.{Driver}
use ledisdb.Rpl.{Log, Replication}
use ledisdb.Ledis.{State}

module _ {S I : Type 0} (d : Driver S I) (now : ℤ) (s : State S) (r : Replication) where
  -- The log with the entry of the batch, and the old commit id.
  abbrev pub ahead : Replication
  ahead = record r {
    logs =
        record {
          id = r.commit_id + 1;
          create_time = to_u32 now;
          compression = 0;
          log_data = d.dump s.batch.ops;
        }
        ∷ r.logs;
  }

  abbrev entry : Log
  entry = record {
    id = r.commit_id + 1;
    create_time = to_u32 now;
    compression = 0;
    log_data = d.dump s.batch.ops;
  }

  -- The log once the entry is committed
  abbrev pub behind_no_more : Replication
  behind_no_more = record ahead { commit_id = r.commit_id + 1 }
