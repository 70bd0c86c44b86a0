-- ===== src/Ledis/Sized.antt =====
-- What hashes, sets and sorted sets share (ledis/t_hash.go, ledis/t_set.go, ledis/t_zset.go): the number
-- of the members is kept in a size record, and the members lie between two keys of the store.
pub mod Counts
use ledisdb.Base.{ℕ, ◌+◌, some, List, [], ◌∷◌, if◌then◌else◌}
use ledisdb.Base.Int.{ℤ, pos, ◌+ℤ◌, leb_ℤ, wrap64}
use ledisdb.Bytes.{Bytes}
use ledisdb.Key.{Db}
use ledisdb.Store.{Driver}
use ledisdb.Store.Iterator.{
  range_r_open, range_limit_iterator, forward, no_limit, range_rows, RangeType, Limit, Direction,
}
use ledisdb.Ledis.{Env, State, M, pure, put, delete, ◌>>=◌, ◌>>◌}
use ledisdb.Ledis.Value.{put_int64}
use ledisdb.Ledis.Ttl.{rm_expire, ignore, get_int64}

-- The type under which the expiration of such a key is filed, and the key of its size record.
pub record Sized : Type 0 where
  pub data_type : ℕ
  pub size_key : Db → Bytes → Bytes

module _ {S I : Type 0} (d : Driver S I) (e : Env) (k : Sized) where
  -- A size that falls to 0 takes its record and the expiration away.
  unfoldable pub store_size : Bytes → ℤ → M S ℤ
  store_size key size =
      if leb_ℤ size (pos 0)
      then (do delete (k.size_key e.db key); ignore d (rm_expire d e k.data_type key); pure (pos 0))
      else (do put (k.size_key e.db key) (put_int64 size); pure size)

  unfoldable pub incr_size : Bytes → ℤ → M S ℤ
  unfolding store_size
  incr_size key delta = do
    size ← get_int64 d (k.size_key e.db key)
    store_size key (wrap64 (size +ℤ delta))

module _ {S I : Type 0} (d : Driver S I) (e : Env) where
  -- `db.bucket.RangeLimitIterator` and its reverse, run to the end
  unfoldable pub rows_of :
      Bytes → Bytes → RangeType → Limit → Direction → State S → List (Bytes × Bytes)
  rows_of min max type limit direction s = range_rows d e.fuel (
      range_limit_iterator d (d.new_iterator s.store)
        (record { min = some min; max = some max; type = type }) limit direction)

  unfoldable pub rows_between : Bytes → Bytes → State S → List (Bytes × Bytes)
  unfolding rows_of
  rows_between min max = rows_of min max range_r_open (no_limit d) forward

module _ {S : Type 0} where
  unfoldable pub delete_rows : ℕ → List (Bytes × Bytes) → M S ℕ
  delete_rows num [] = pure num
  delete_rows num ((k, v) ∷ rows) = do delete k; delete_rows (num + 1) rows
