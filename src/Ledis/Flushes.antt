-- ===== src/Ledis/Flushes.antt =====
-- ledis/ledis_db.go: flushing the keys of a type, or of all types, 1024 keys at a time.
use ledisdb.Base.{ℕ, zero, suc, Bool, false, Option, none, some, List, [], ◌∷◌, length}
use ledisdb.Base.Int.{ℤ, pos, negsuc, ◌+ℤ◌}
use ledisdb.Error.{Result, err_invalid_data_type}
use ledisdb.Bytes.{Bytes}
use ledisdb.Key.{
  kv_type, hash_type, h_size_type, list_type, l_meta_type, set_type, s_size_type, z_set_type,
  z_size_type,
}
use ledisdb.Store.{Driver}
use ledisdb.Ledis.{Env, M, pure, raise, locked, commit, ◌>>=◌, ◌>>◌}
use ledisdb.Ledis.Ttl.{rm_expire, ignore}
use ledisdb.Ledis.Kv.{delete_kv}
use ledisdb.Ledis.Hash.{h_delete}
use ledisdb.Ledis.Lists.Trims.{l_delete}
use ledisdb.Ledis.Sets.{s_delete}
use ledisdb.Ledis.Zset.{min_score, max_score}
use ledisdb.Ledis.Zset.Ranges.{z_rem_range}
use ledisdb.Ledis.Scans.{DataType, kv, list, hash, set_of, zset, other_type, scan_generic}

-- The type of a key's expiration, and that of its meta record
abbrev pub data_type_of : DataType → ℕ
data_type_of kv = kv_type
data_type_of list = list_type
data_type_of hash = hash_type
data_type_of set_of = set_type
data_type_of zset = z_set_type
data_type_of other_type = 0

abbrev pub meta_type_of : DataType → ℕ
meta_type_of kv = kv_type
meta_type_of list = l_meta_type
meta_type_of hash = h_size_type
meta_type_of set_of = s_size_type
meta_type_of zset = z_size_type
meta_type_of other_type = 0

module _ {S I : Type 0} (d : Driver S I) (e : Env) (compile : Bytes → Result (Bytes → Bool)) where
  -- `zDelete`: an error of `zRemRange` is dropped.
  unfoldable pub z_delete : Bytes → M S (Unit {0})
  z_delete key = ignore d (z_rem_range d e key min_score max_score (pos 0) (negsuc 0))

  abbrev pub delete_of : DataType → Bytes → M S (Unit {0})
  delete_of kv key = delete_kv d e key
  delete_of list key = do _ ← l_delete d e key; pure tt
  delete_of hash key = do _ ← h_delete d e key; pure tt
  delete_of set_of key = do _ ← s_delete d e key; pure tt
  delete_of zset key = z_delete key
  delete_of other_type key = pure tt

  unfoldable pub delete_all : DataType → List Bytes → M S (Unit {0})
  unfolding z_delete
  delete_all t [] = pure tt
  delete_all t (key ∷ keys) = do
    delete_of t key
    ignore d (rm_expire d e (data_type_of t) key)
    delete_all t keys

  -- The loop of `flushType`; `none` is a loop that has not ended. A scan of a type that is known, without a
  -- pattern, does not fail.
  unfoldable pub flush_rounds : ℕ → DataType → ℤ → M S (Option ℤ)
  unfolding delete_all scan_generic
  flush_rounds zero t drop = pure none
  flush_rounds (suc fuel) t drop = do
    keys ← scan_generic d e compile (meta_type_of t) [] (pos 1024) false [] false
    elim keys [
      | [] ↦ pure (some drop)
      | key ∷ rest ↦ (do
        delete_all t (key ∷ rest)
        commit d e.now
        flush_rounds fuel t (drop +ℤ pos (length (key ∷ rest))))
    ]

  unfoldable pub flush_type : ℕ → DataType → M S (Option ℤ)
  unfolding flush_rounds
  flush_type fuel other_type = raise err_invalid_data_type
  flush_type fuel t = flush_rounds fuel t (pos 0)

  -- `flush`, `lFlush`, `hFlush`, `zFlush` and `sFlush`
  unfoldable pub flush : ℕ → DataType → M S (Option ℤ)
  unfolding flush_type
  flush fuel t = locked (flush_type fuel t)

  unfoldable pub flush_each : ℕ → List DataType → ℤ → M S (Option ℤ)
  unfolding flush
  flush_each fuel [] drop = pure (some drop)
  flush_each fuel (t ∷ ts) drop = do
    n ← flush fuel t
    elim n [ none ↦ pure none | some m ↦ flush_each fuel ts (drop +ℤ m) ]

  unfoldable pub flush_all : ℕ → M S (Option ℤ)
  unfolding flush_each
  flush_all fuel = flush_each fuel (kv ∷ list ∷ hash ∷ zset ∷ set_of ∷ []) (pos 0)
