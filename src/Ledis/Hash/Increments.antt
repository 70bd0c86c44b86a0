-- ===== src/Ledis/Hash/Increments.antt =====
-- ledis/t_hash.go: a field as a counter. The parsing and the printing of numbers are parameters.
use ledisdb.Base.Int.{ℤ, ◌+ℤ◌, wrap64}
use ledisdb.Error.{Result}
use ledisdb.Bytes.{Bytes}
use ledisdb.Key.{check_hash_kf_size}
use ledisdb.Key.Member.{h_encode_hash_key}
use ledisdb.Store.{Driver}
use ledisdb.Ledis.{Env, M, pure, lift, locked, bucket_get, commit, ◌>>=◌, ◌>>◌}
use ledisdb.Ledis.Hash.{h_set_item}
use ledisdb.Ledis.Kv.Bits.{str_int64}

module _ {S I : Type 0} (d : Driver S I) (e : Env) (parse_int : Bytes → Result ℤ)
    (format_int : ℤ → Bytes) where
  unfoldable pub h_incr_by : Bytes → Bytes → ℤ → M S ℤ
  h_incr_by key field delta = do
    lift (check_hash_kf_size key field)
    locked (do
      v ← bucket_get d (h_encode_hash_key e.db key field)
      n ← lift (str_int64 d e parse_int format_int v)
      _ ← h_set_item d e key field (format_int (wrap64 (n +ℤ delta)))
      commit d e.now
      pure (wrap64 (n +ℤ delta)))
