-- ===== src/Rpl/Codec.antt =====
-- rpl/log.go: a log in bytes, as it is sent to a slave. A head of 17 bytes holds the id, the time of the
-- log, whether it is compressed, and the length of the data that follow. A reader is the list of the
-- bytes that are still to come.
use ledisdb.Base.{ℕ, zero, suc, ◌+◌, [], ◌∷◌, ◌++◌, length, take, drop, ltb, ◌%◌, if◌then◌else◌}
use ledisdb.Error.{Result, ok, err, ◌>>=◌, eof, unexpected_eof}
use ledisdb.Bytes.{Bytes, big_endian, read_big_endian, slice_from, byte_at}
use ledisdb.Rpl.{Log}

abbrev pub log_head_size : ℕ
log_head_size = 17

unfoldable pub encode_log : Log → Bytes
encode_log l =
    big_endian 8 l.id
    ++ (big_endian 4 l.create_time
        ++ (l.compression % 256) ∷ (big_endian 4 (length l.log_data) ++ l.log_data))

unfoldable pub log_size : Log → ℕ
log_size l = log_head_size + length l.log_data

-- io.ReadFull: the next n bytes and the reader behind them. No byte at all is io.EOF.
unfoldable pub read_full : ℕ → Bytes → Result (Bytes × Bytes)
read_full zero bs = ok ([], bs)
read_full (suc n) [] = err eof
read_full (suc n) (b ∷ bs) =
    if ltb (length bs) n
    then err unexpected_eof
    else ok (take (suc n) (b ∷ bs), drop (suc n) (b ∷ bs))

-- A log without its data, and the length of the data
unfoldable pub decode_head_buf : Bytes → Result (Log × ℕ)
decode_head_buf buf = do
  id ← read_big_endian 8 buf
  after_id ← slice_from buf 8
  create_time ← read_big_endian 4 after_id
  compression ← byte_at buf 12
  after_compression ← slice_from buf 13
  size ← read_big_endian 4 after_compression
  ok (record { id = id; create_time = create_time; compression = compression; log_data = [] }, size)

unfoldable pub decode_log : Bytes → Result (Log × Bytes)
unfolding read_full decode_head_buf
decode_log r = do
  (buf, r1) ← read_full log_head_size r
  (l, size) ← decode_head_buf buf
  (bytes, r2) ← read_full size r1
  ok (record l { log_data = bytes }, r2)
