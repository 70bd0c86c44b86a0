-- ===== src/Lib.antt =====
-- LedisDB, a key-value store with the data types of Redis over an ordered key-value engine.
--
-- The program. Each of 10240 databases keeps its data in one ordered map of byte strings (store/). A
-- database encodes a record of a data type, of a value, a list, a hash, a set, a sorted set or an
-- expiration, in a key of that map (the Encode and Decode functions of ledis/t_*.go), the handlers of
-- ledis/ read and write such records in a batch under a lock, and ledis/batch.go commits the batch:
-- into the replication log first (rpl/), then into the map. Scans run over a range of keys
-- (store/iterator.go), and a checker deletes what has expired (ledis/t_ttl.go).
--
-- The files.
--   Base, Base/Lists, Base/Tests, Base/Int: lists, Boolean tests and the integers of Go.
--   Error: the errors of ledis/ and store/, a panic among them, and the
--     results that a fallible function returns.
--   Bytes, Bytes/*: bytes.Compare, bytes.Equal, encoding/binary and slices.
--   Key: ledis/const.go and ledis/ledis_db.go (setIndex, decodeDBIndex, checkKeyIndex). Key/Plain,
--     Key/Member and Key/Sorted: the encoders and decoders of ledis/t_kv.go, t_list.go, t_hash.go,
--     t_set.go, t_zset.go and t_ttl.go, a Go name as in lEncodeListKey being l_encode_list_key here.
--     Key/Record: the records as a data type, and formatEventKey of ledis/event.go. Key/RoundTrip,
--     Key/Order, Key/Range, Key/Record/Distinct and Key/Record/Event: what is proved of them.
--   Store: store/writebatch.go, and a storage engine as a record of functions (store/driver/driver.go).
--     Store/Map: what is relied on of an engine. Store/Iterator: store/iterator.go. Store/Rows,
--     Store/Range and Store/Scan: the range iterator against the rows of a range.
--   Rpl: rpl/rpl.go and rpl/goleveldb_store.go. Rpl/Codec: rpl/log.go. Rpl/RoundTrip: what is proved of it.
--   Ledis: ledis/batch.go, a handler being a function from a state to a result and a state.
--     Ledis/Value: ledis/util.go. Ledis/Ttl: ledis/t_ttl.go. Ledis/Kv: ledis/t_kv.go. Ledis/Hash:
--     ledis/t_hash.go. Ledis/Lists: ledis/t_list.go. Ledis/Sets: ledis/t_set.go. Ledis/Zset,
--     Ledis/Zset/Ranges and Ledis/Zset/Stores: ledis/t_zset.go. Ledis/Kv/Bits,
--     Ledis/Hash/Increments and Ledis/Lists/Trims: more of ledis/t_kv.go, ledis/t_hash.go and
--     ledis/t_list.go. Ledis/Scans: ledis/scan.go. Ledis/Flushes: the flushes of ledis/ledis_db.go.
--     Ledis/Sized: the size records and the scans that hashes, sets and sorted sets have in common
--     (hIncrSize, sIncrSize and zIncrSize, and RangeLimitIterator of store/db.go). Ledis/Replicas:
--     ledis/replication.go. Ledis/Commit, Ledis/Failures and the modules of Ledis/Kv, Ledis/Hash, Ledis/Lists,
--     Ledis/Sized, Ledis/Sets, Ledis/Zset, Ledis/Scans and Ledis/Replicas that are not named here: what is
--     proved of them, Ledis/Replicas/Cluster being a master and a slave with their steps.
--   Server: the replies to commands. Server/Text: what the commands take from strconv, strings and
--     num. Server/KvCommands, Server/ListCommands, Server/HashCommands, Server/SetCommands,
--     Server/ZsetCommands and Server/ZsetRanges: server/cmd_kv.go, cmd_list.go, cmd_hash.go, cmd_set.go
--     and cmd_zset.go, a Go name as in zrankCommand being zrank_command here. Server/ZsetParsers: the
--     arguments of server/cmd_zset.go that stand for ranges and options. Server/ScanParsers and
--     Server/ScanCommands: server/cmd_scan.go. Server/Registry: the init functions of these files.
--     Server/Client: server/client.go, client_resp.go, command.go, util.go and cmd_server.go, from the
--     words of a request to its answer. Server/Resp: the writer of server/client_resp.go, and in
--     Server/Resp/Reader a reader of the protocol to compare it with. Server/Access,
--     Server/Sessions, Server/Resp/Parts, Server/Resp/RoundTrip, Server/ZsetParsers/Options,
--     Server/ZsetParsers/Scores, Server/ScanCursor and Server/ScanWalk: what is proved of them, the
--     last with Ledis/Scans/Cursor and Ledis/Scans/Pages. A Go panic is an error of the model, which
--     ends the connection of the client.
--   Samples: a sorted list as an engine, and the theorems at concrete inputs.
--
-- Bounds and fuel. Lengths and ids are natural numbers; a number that Go stores in 32 or 64 bits wraps
-- around in its bytes, and IsInt32 and IsInt64 are the bounds. A length of a user's key takes two bytes,
-- which Fits asks for and checkKeySize grants. The loop over a range runs on fuel: a round for each row
-- of the store is enough. For the loops of the replication a round
-- for each log and one more is enough, for the options of ZUNIONSTORE a round for each argument,
-- for a walk with a cursor a round for each row and one more. The loop of a flush that has not ended returns none.
--
-- Not modelled. Storage engines, compression and dumps are third-party code. Goroutines, timers and
-- locks are not modelled: a handler holds the lock of its batch, so it is one step, and the replay of the
-- log that `noticeReplication` wakes is a step of its own. The clock is an
-- argument. Go's order of a map's keys is left to be the one in which they came in. Decimal integers are
-- read and printed by functions that are parameters, and so is the compilation of regular expressions.
-- Lower and upper case are parameters too. log.Fatalf writes a line and goes on, so nothing stands for it.
-- Blocking pops, the text of events, scripts, migration, HTTP, the file store of the log and the
-- connections of the replication are left out: they wait for other clients, format text, or use files
-- and sockets.
pub mod Base
pub mod Error
pub mod Bytes
pub mod Key
pub mod Store
pub mod Rpl
pub mod Ledis
pub mod Server
mod Samples
