-- ===== src/Samples/Replicas.antt =====
-- The theorems on the replication log and on a master and a slave, at one log and one written value.
use ledisdb.Base.{
  ℕ, ◌+◌, ◌<◌, ◌^◌, ◌≡◌, refl, true, Option, none, some, List, [], ◌∷◌, ◌++◌, length, take,
  if◌then◌else◌, ◌==◌, arith,
}
use ledisdb.Base.Int.{pos}
use ledisdb.Error.{Result, ok, err, eof, unexpected_eof}
use ledisdb.Bytes.{Bytes, big_endian, read_big_endian, slice_from, byte_at}
use ledisdb.Store.{WriteBatch, empty_batch, put}
use ledisdb.Rpl.{
  Log, Replication, last_id, first_id, get_log, store_log, next_need_commit_log, update_commit_id,
}
use ledisdb.Rpl.Codec.{encode_log, decode_log, decode_head_buf, read_full, log_size}
use ledisdb.Rpl.RoundTrip.{FitsHead, decode-encode_log, decode_log_cut}
use ledisdb.Ledis.{commit}
use ledisdb.Ledis.Replicas.{read_logs_to, store_logs_from_reader, handle_replication}
use ledisdb.Ledis.Replicas.Replay.{at, rev_onto}
use ledisdb.Ledis.Replicas.Transfer.{transfer_lem}
use ledisdb.Ledis.Replicas.Cluster.{Cluster, Step, Reaches, write, transfer, replays, here, step}
use ledisdb.Ledis.Replicas.Cluster.Agreement.{StartsAlike, Agrees, Reaches-Agrees}
use ledisdb.Ledis.Replicas.Cluster.CatchUp.{Reaches-catch_up}
use ledisdb.Samples.Memory.{
  memory, memory-IsOrderedMap, empty, Table, dump_ops, parse_ops, apply_all,
}
use ledisdb.Store.Map.{find_row}
use ledisdb.Samples.States.{key, value, fresh}

abbrev one_log : Log
one_log = record { id = 1; create_time = 7; compression = 0; log_data = 3 ∷ 4 ∷ [] }

one_log-FitsHead : FitsHead one_log
one_log-FitsHead = record {
  id = omega arith;
  create_time = omega arith;
  compression = omega arith;
  size = omega arith;
}

decode-encode_log_example : decode_log (encode_log one_log ++ 9 ∷ []) ≡ ok (one_log, 9 ∷ [])
decode-encode_log_example = decode-encode_log one_log (9 ∷ []) one_log-FitsHead

decode_log_cut_example :
    decode_log (take 17 (encode_log one_log)) ≡ err (if 17 == 17 then eof else unexpected_eof)
unfolding log_size
decode_log_cut_example = decode_log_cut one_log 17 one_log-FitsHead (omega arith) (omega arith)

transfer_lem_example :
    (sent : List Log) × (unsent : List Log) × ((one_log ∷ []) ≡ sent ++ unsent)
    × (0 < 1 → 0 < length sent)
    × ((read_logs_to 1 (some (at (one_log ∷ []) 1))).result ≡ ok tt)
    × ((read_logs_to 1 (some (at (one_log ∷ []) 1))).next_log_id ≡ last_id (rev_onto sent []) + 1)
    × (store_logs_from_reader 2 true
          (read_logs_to 1 (some (at (one_log ∷ []) 1))).written
          (some (at [] 0))
        ≡ some (ok tt, some (at (rev_onto sent []) 0)))
unfolding last_id
transfer_lem_example =
    transfer_lem (one_log ∷ []) [] 1 0 2 (refl, tt) (one_log-FitsHead, tt) (omega arith)

abbrev beginning : Cluster Table
beginning = record { master = fresh; rpl = at [] 0; rbatch = empty_batch; store = empty }

beginning-StartsAlike : StartsAlike memory-IsOrderedMap beginning
unfolding memory-IsOrderedMap
beginning-StartsAlike = record { master_log = refl; slave_log = refl; same_store = λ k. refl }

abbrev unpack : Bytes → Result Bytes
unpack bytes = ok bytes

abbrev one_put : WriteBatch
one_put = record { ops = put key value ∷ []; put_num = 1; delete_num = 0 }

abbrev written_one : Cluster Table
written_one = record beginning {
  master = (commit memory (pos 100) (record fresh { batch = one_put })).1;
}

write_one : Reaches memory unpack beginning written_one
unfolding memory dump_ops last_id
write_one = step here (write (pos 100) one_put (omega arith) (omega arith))

Reaches-catch_up_example :
    (b : Cluster Table) × Reaches memory unpack written_one b
    × (b.master ≡ written_one.master)
    × Agrees memory-IsOrderedMap b
Reaches-catch_up_example =
    Reaches-catch_up memory-IsOrderedMap unpack beginning written_one beginning-StartsAlike
      write_one

-- The slave stores and replays the log of that value.
abbrev sent_one : Replication
sent_one =
    at (record { id = 1; create_time = 100; compression = 0; log_data = dump_ops one_put.ops } ∷ [])
      0

abbrev caught_up : Cluster Table
caught_up = record written_one {
  rpl = record sent_one { commit_id = 1 };
  store = record { table = (key, value) ∷ []; in_order = (tt, tt) };
}

send_one : Step memory unpack written_one (record written_one { rpl = sent_one })
unfolding memory dump_ops parse_ops apply_all find_row last_id first_id get_log store_log
    next_need_commit_log commit ledisdb.Rpl.log update_commit_id read_logs_to store_logs_from_reader
    handle_replication encode_log decode_log decode_head_buf read_full big_endian read_big_endian
    slice_from byte_at log_size ledisdb.Base.Int.to_u32 ledisdb.Store.batch_put
    ledisdb.Store.batch_rollback
send_one = transfer 3 (ok tt) sent_one (omega arith) refl

replay_one : Step memory unpack (record written_one { rpl = sent_one }) caught_up
unfolding memory dump_ops parse_ops apply_all find_row last_id first_id get_log store_log
    next_need_commit_log commit ledisdb.Rpl.log update_commit_id read_logs_to store_logs_from_reader
    handle_replication encode_log decode_log decode_head_buf read_full big_endian read_big_endian
    slice_from byte_at log_size ledisdb.Base.Int.to_u32 ledisdb.Store.batch_put
    ledisdb.Store.batch_rollback
replay_one =
    replays 3 (ok tt) (record sent_one { commit_id = 1 }) empty_batch
      (record { table = (key, value) ∷ []; in_order = (tt, tt) }) (omega arith) refl

Reaches-Agrees_example : Agrees memory-IsOrderedMap caught_up
unfolding commit ledisdb.Rpl.log memory last_id update_commit_id store_log
Reaches-Agrees_example =
    Reaches-Agrees memory-IsOrderedMap unpack beginning caught_up beginning-StartsAlike
      (step (step write_one send_one) replay_one) refl
