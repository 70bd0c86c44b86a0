-- ===== src/Ledis/Zset.antt =====
-- ledis/t_zset.go: sorted sets. A member has a record that holds its score, and an empty record under a
-- key that is ordered by the score; the number of members is kept in a size record.
pub mod Items
pub mod Puts
pub mod Adds
pub mod Ranges
pub mod Drops
pub mod Removes
pub mod Increments
pub mod Limits
pub mod Stores
use ledisdb.Base.{
  ℕ, ◌^◌, ◌-◌, Bool, true, false, ◌||◌, Option, none, some, List, [], ◌∷◌, length, if◌then◌else◌,
}
use ledisdb.Base.Int.{ℤ, pos, negsuc, ◌+ℤ◌, ◌-ℤ◌, leb_ℤ, eqb_ℤ, wrap64}
use ledisdb.Error.{Result, ok, err, err_score_overflow, err_score_miss, err_expire_value, reject_if}
use ledisdb.Bytes.{Bytes}
use ledisdb.Key.{z_set_type, check_key_size, check_z_set_km_size}
use ledisdb.Key.Plain.{z_encode_size_key}
use ledisdb.Key.Member.{z_encode_set_key}
use ledisdb.Key.Sorted.{z_encode_score_key}
use ledisdb.Store.{Driver}
use ledisdb.Ledis.{
  Env, State, M, pure, raise, lift, put, delete, locked, bucket_get, commit, ◌>>=◌, ◌>>◌,
}
use ledisdb.Ledis.Sized.{Sized, incr_size}
use ledisdb.Ledis.Value.{put_int64, int64}
use ledisdb.Ledis.Ttl.{expire_at, rm_expire, ttl, ignore, get_int64}
use ledisdb.Ledis.Kv.{is_some}

-- -1<<63 + 1
abbrev pub min_score : ℤ
min_score = negsuc (2 ^ 63 - 2)

abbrev pub max_score : ℤ
max_score = pos (2 ^ 63 - 1)

abbrev pub zset_sized : Sized
zset_sized = record { data_type = z_set_type; size_key = z_encode_size_key }

module _ {S I : Type 0} (d : Driver S I) (e : Env) where
  unfoldable pub z_incr_size : Bytes → ℤ → M S ℤ
  unfolding incr_size
  z_incr_size = incr_size d e zset_sized

  -- The score record of the score that the member has in the store goes, and its two records are put.
  unfoldable pub z_move_item : Bytes → ℤ → Bytes → Option Bytes → M S ℤ
  z_move_item key score member none = do
    put (z_encode_set_key e.db key member) (put_int64 score)
    put (z_encode_score_key e.db key member score) []
    pure (pos 0)
  z_move_item key score member (some v) = do
    s ← lift (int64 (ok (some v)))
    delete (z_encode_score_key e.db key member s)
    put (z_encode_set_key e.db key member) (put_int64 score)
    put (z_encode_score_key e.db key member score) []
    pure (pos 1)

  unfoldable pub z_set_item : Bytes → ℤ → Bytes → M S ℤ
  unfolding z_move_item
  z_set_item key score member = do
    lift (reject_if (leb_ℤ score min_score || leb_ℤ max_score score) err_score_overflow)
    v ← bucket_get d (z_encode_set_key e.db key member)
    z_move_item key score member v

  unfoldable pub z_drop_item : Bytes → Bytes → Bool → Option Bytes → M S ℤ
  z_drop_item key member skip_del_score none = pure (pos 0)
  z_drop_item key member true (some v) = do delete (z_encode_set_key e.db key member); pure (pos 1)
  z_drop_item key member false (some v) = do
    s ← lift (int64 (ok (some v)))
    delete (z_encode_score_key e.db key member s)
    delete (z_encode_set_key e.db key member)
    pure (pos 1)

  unfoldable pub z_del_item : Bytes → Bytes → Bool → M S ℤ
  unfolding z_drop_item
  z_del_item key member skip_del_score = do
    v ← bucket_get d (z_encode_set_key e.db key member)
    z_drop_item key member skip_del_score v

  -- The count of the members that are not in the store, once for each time they are given.
  unfoldable pub add_items : Bytes → ℤ → List (ℤ × Bytes) → M S ℤ
  unfolding z_set_item
  add_items key num [] = pure num
  add_items key num ((score, member) ∷ args) = do
    lift (check_z_set_km_size key member)
    n ← z_set_item key score member
    add_items key (if eqb_ℤ n (pos 0) then num +ℤ pos 1 else num) args

  unfoldable pub z_add : Bytes → List (ℤ × Bytes) → M S ℤ
  unfolding add_items z_incr_size
  z_add key [] = pure (pos 0)
  z_add key (arg ∷ args) = locked (do
    num ← add_items key (pos 0) (arg ∷ args)
    _ ← z_incr_size key num
    commit d e.now
    pure num)

  unfoldable pub z_card : Bytes → M S ℤ
  z_card key = do lift (check_key_size key); get_int64 d (z_encode_size_key e.db key)

  abbrev score_of : Option Bytes → Result ℤ
  score_of none = err err_score_miss
  score_of (some v) = int64 (ok (some v))

  unfoldable pub z_score : Bytes → Bytes → M S ℤ
  z_score key member = do
    lift (check_z_set_km_size key member)
    v ← bucket_get d (z_encode_set_key e.db key member)
    lift (score_of v)

  unfoldable pub rem_items : Bytes → ℤ → List Bytes → M S ℤ
  unfolding z_del_item
  rem_items key num [] = pure num
  rem_items key num (member ∷ members) = do
    lift (check_z_set_km_size key member)
    n ← z_del_item key member false
    rem_items key (if eqb_ℤ n (pos 1) then num +ℤ pos 1 else num) members

  unfoldable pub z_rem : Bytes → List Bytes → M S ℤ
  unfolding rem_items z_incr_size
  z_rem key [] = pure (pos 0)
  z_rem key (member ∷ members) = locked (do
    num ← rem_items key (pos 0) (member ∷ members)
    _ ← z_incr_size key (pos 0 -ℤ num)
    commit d e.now
    pure num)

  -- An error of the count is ignored for a new member, whose old score is 0.
  unfoldable pub old_score : Bytes → Option Bytes → M S ℤ
  unfolding z_incr_size
  old_score key none s = (ok (pos 0), (z_incr_size key (pos 1) s).1)
  old_score key (some v) s = (int64 (ok (some v)), s)

  -- The record of the old score is deleted after that of the new score is put, equal or not.
  unfoldable pub z_incr_by : Bytes → ℤ → Bytes → M S ℤ
  unfolding old_score
  z_incr_by key delta member = do
    lift (check_z_set_km_size key member)
    locked (do
      let ek = z_encode_set_key e.db key member
      v ← bucket_get d ek
      old ← old_score key v
      let new = wrap64 (old +ℤ delta)
      lift (reject_if (leb_ℤ max_score new || leb_ℤ new min_score) err_score_overflow)
      put (z_encode_score_key e.db key member new) []
      put ek (put_int64 new)
      (if is_some v then delete (z_encode_score_key e.db key member old) else pure tt)
      commit d e.now
      pure new)

  unfoldable pub z_expire_at : Bytes → ℤ → M S ℤ
  z_expire_at key when = locked (do
    n ← z_card key
    if eqb_ℤ n (pos 0)
        then pure (pos 0)
        else do expire_at e z_set_type key when; commit d e.now; pure (pos 1))

  unfoldable pub z_expire : Bytes → ℤ → M S ℤ
  z_expire key duration = do
    lift (reject_if (leb_ℤ duration (pos 0)) err_expire_value)
    z_expire_at key (wrap64 (e.now +ℤ duration))

  unfoldable pub z_expire_at_time : Bytes → ℤ → M S ℤ
  z_expire_at_time key when = do
    lift (reject_if (leb_ℤ when e.now) err_expire_value)
    z_expire_at key when

  unfoldable pub z_ttl : Bytes → M S ℤ
  z_ttl key = do lift (check_key_size key); ttl d e z_set_type key

  unfoldable pub z_persist : Bytes → M S ℤ
  z_persist key = do
    lift (check_key_size key)
    locked (do n ← rm_expire d e z_set_type key; commit d e.now; pure n)

  unfoldable pub z_key_exists : Bytes → M S ℤ
  z_key_exists key = do
    lift (check_key_size key)
    v ← bucket_get d (z_encode_size_key e.db key)
    pure (if is_some v then pos 1 else pos 0)
