-- ===== src/Ledis/Hash.antt =====
-- ledis/t_hash.go: hashes. A field has a record of its own, and the number of fields is kept in a size
-- record, which every change of the fields adjusts.
pub mod Fields
pub mod Items
pub mod Increments
use ledisdb.Base.{ℕ, ◌+◌, Option, none, some, List, [], ◌∷◌, length, if◌then◌else◌}
use ledisdb.Base.Int.{ℤ, pos, ◌+ℤ◌, ◌-ℤ◌, leb_ℤ, eqb_ℤ, wrap64}
use ledisdb.Error.{Result, ok, err, err_expire_value, reject_if}
use ledisdb.Bytes.{Bytes}
use ledisdb.Key.{hash_type, check_key_size, check_value_size, check_hash_kf_size}
use ledisdb.Key.Plain.{h_encode_size_key}
use ledisdb.Key.Member.{h_encode_hash_key, h_decode_hash_key, h_encode_start_key, h_encode_stop_key}
use ledisdb.Store.{Driver}
use ledisdb.Store.Iterator.{find, range_r_open, range_limit_iterator, forward, no_limit, range_rows}
use ledisdb.Ledis.{Env, State, M, pure, lift, put, delete, locked, bucket_get, commit, ◌>>=◌, ◌>>◌}
use ledisdb.Ledis.Sized.{Sized, incr_size, rows_between, delete_rows}
use ledisdb.Ledis.Value.{put_int64}
use ledisdb.Ledis.Ttl.{expire_at, rm_expire, ttl, ignore, get_int64}
use ledisdb.Ledis.Kv.{is_some}

abbrev pub hash_sized : Sized
hash_sized = record { data_type = hash_type; size_key = h_encode_size_key }

module _ {S I : Type 0} (d : Driver S I) (e : Env) where
  unfoldable pub h_incr_size : Bytes → ℤ → M S ℤ
  unfolding incr_size
  h_incr_size = incr_size d e hash_sized

  -- An error of this read is ignored, and its value is nil then.
  abbrev pub value_or_nil : Result (Option Bytes) → Option Bytes
  value_or_nil (err x) = none
  value_or_nil (ok v) = v

  unfoldable pub h_set_item : Bytes → Bytes → Bytes → M S ℤ
  unfolding h_incr_size
  h_set_item key field value s =
      let ek = h_encode_hash_key e.db key field in
      if is_some (value_or_nil (d.get s.store ek))
      then (do put ek value; pure (pos 0)) s
      else (do _ ← h_incr_size key (pos 1); put ek value; pure (pos 1)) s

  unfoldable pub h_set : Bytes → Bytes → Bytes → M S ℤ
  unfolding h_set_item
  h_set key field value = do
    lift (check_hash_kf_size key field)
    lift (check_value_size value)
    locked (do n ← h_set_item key field value; commit d e.now; pure n)

  unfoldable pub h_get : Bytes → Bytes → M S (Option Bytes)
  h_get key field = do
    lift (check_hash_kf_size key field)
    bucket_get d (h_encode_hash_key e.db key field)

  unfoldable pub h_len : Bytes → M S ℤ
  h_len key = do lift (check_key_size key); get_int64 d (h_encode_size_key e.db key)

  -- The count of the fields that have no value in the store, once for each time they are given.
  put_fields : Bytes → ℤ → List (Bytes × Bytes) → M S ℤ
  put_fields key num [] = pure num
  put_fields key num ((field, value) ∷ args) = do
    lift (check_hash_kf_size key field)
    lift (check_value_size value)
    let ek = h_encode_hash_key e.db key field
    v ← bucket_get d ek
    put ek value
    put_fields key (if is_some v then num else num +ℤ pos 1) args

  unfoldable pub h_m_set : Bytes → List (Bytes × Bytes) → M S (Unit {0})
  unfolding put_fields h_incr_size
  h_m_set key args =
      locked (do num ← put_fields key (pos 0) args; _ ← h_incr_size key num; commit d e.now)

  unfoldable pub h_m_get_from : I → Bytes → List Bytes → M S (List (Option Bytes))
  h_m_get_from it key [] = pure []
  h_m_get_from it key (field ∷ args) = do
    lift (check_hash_kf_size key field)
    let (it', v) = find d it (h_encode_hash_key e.db key field)
    vs ← h_m_get_from it' key args
    pure (v ∷ vs)

  unfoldable pub h_m_get : Bytes → List Bytes → M S (List (Option Bytes))
  unfolding h_m_get_from
  h_m_get key args s = h_m_get_from (d.new_iterator s.store) key args s

  delete_fields : I → Bytes → ℤ → List Bytes → M S ℤ
  delete_fields it key num [] = pure num
  delete_fields it key num (field ∷ args) = do
    lift (check_hash_kf_size key field)
    let ek = h_encode_hash_key e.db key field
    let (it', v) = find d it ek
    (if is_some v then delete ek else pure tt)
    delete_fields it' key (if is_some v then num +ℤ pos 1 else num) args

  unfoldable pub h_del : Bytes → List Bytes → M S ℤ
  unfolding delete_fields h_incr_size
  h_del key args = locked (λ s.
      (do
        num ← delete_fields (d.new_iterator s.store) key (pos 0) args
        _ ← h_incr_size key (pos 0 -ℤ num)
        commit d e.now
        pure num)
        s)

  -- The rows of the hash, from `:` up to but not `;` behind the key.
  unfoldable pub hash_rows : Bytes → State S → List (Bytes × Bytes)
  unfolding rows_between
  hash_rows key = rows_between d e (h_encode_start_key e.db key) (h_encode_stop_key e.db key)

  unfoldable pub h_delete : Bytes → M S ℤ
  h_delete key s =
      (do
        num ← delete_rows 0 (hash_rows key s)
        delete (h_encode_size_key e.db key)
        pure (pos num))
        s

  decode_fields : List (Bytes × Bytes) → Result (List (Bytes × Bytes))
  decode_fields [] = ok []
  decode_fields ((k, v) ∷ rows) =
      let rest = decode_fields rows in
      elim (h_decode_hash_key e.db k) [
        | err x ↦ err x
        | ok (key, f) ↦ elim rest [ err x ↦ err x | ok fs ↦ ok ((f, v) ∷ fs) ]
      ]

  unfoldable pub h_get_all : Bytes → M S (List (Bytes × Bytes))
  unfolding decode_fields
  h_get_all key = do lift (check_key_size key); (λ s. (decode_fields (hash_rows key s), s))

  abbrev firsts : List (Bytes × Bytes) → List Bytes
  firsts [] = []
  firsts ((f, v) ∷ fs) = f ∷ firsts fs

  abbrev seconds : List (Bytes × Bytes) → List Bytes
  seconds [] = []
  seconds ((f, v) ∷ fs) = v ∷ seconds fs

  unfoldable pub h_keys : Bytes → M S (List Bytes)
  unfolding h_get_all
  h_keys key = do fs ← h_get_all key; pure (firsts fs)

  unfoldable pub h_values : Bytes → M S (List Bytes)
  unfolding h_get_all
  h_values key = do fs ← h_get_all key; pure (seconds fs)

  unfoldable pub h_clear : Bytes → M S ℤ
  h_clear key = do
    lift (check_key_size key)
    locked (do num ← h_delete key; ignore d (rm_expire d e hash_type key); commit d e.now; pure num)

  clear_keys : List Bytes → M S (Unit {0})
  clear_keys [] = pure tt
  clear_keys (key ∷ keys) = do
    lift (check_key_size key)
    _ ← h_delete key
    ignore d (rm_expire d e hash_type key)
    clear_keys keys

  unfoldable pub h_m_clear : List Bytes → M S ℤ
  unfolding clear_keys
  h_m_clear keys = locked (do clear_keys keys; commit d e.now; pure (pos (length keys)))

  unfoldable pub h_expire_at : Bytes → ℤ → M S ℤ
  unfolding h_len
  h_expire_at key when = locked (do
    n ← h_len key
    if eqb_ℤ n (pos 0)
        then pure (pos 0)
        else do expire_at e hash_type key when; commit d e.now; pure (pos 1))

  unfoldable pub h_expire : Bytes → ℤ → M S ℤ
  unfolding h_expire_at
  h_expire key duration = do
    lift (reject_if (leb_ℤ duration (pos 0)) err_expire_value)
    h_expire_at key (wrap64 (e.now +ℤ duration))

  unfoldable pub h_expire_at_time : Bytes → ℤ → M S ℤ
  unfolding h_expire_at
  h_expire_at_time key when = do
    lift (reject_if (leb_ℤ when e.now) err_expire_value)
    h_expire_at key when

  unfoldable pub h_ttl : Bytes → M S ℤ
  h_ttl key = do lift (check_key_size key); ttl d e hash_type key

  unfoldable pub h_persist : Bytes → M S ℤ
  h_persist key = do
    lift (check_key_size key)
    locked (do n ← rm_expire d e hash_type key; commit d e.now; pure n)

  unfoldable pub h_key_exists : Bytes → M S ℤ
  h_key_exists key = do
    lift (check_key_size key)
    v ← bucket_get d (h_encode_size_key e.db key)
    pure (if is_some v then pos 1 else pos 0)
