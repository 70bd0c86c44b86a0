-- ===== src/Ledis/Kv.antt =====
-- ledis/t_kv.go: the operations on plain values.
pub mod Bits
pub mod Values
pub mod Expiry
pub mod Stale
pub mod Updates
use ledisdb.Base.{
  ℕ, ◌+◌, ◌-◌, Bool, true, false, not, ◌&&◌, ◌||◌, Option, none, some, List, [], ◌∷◌, ◌++◌, length,
  take, drop, replicate, ltb, leb, ◌==◌, if◌then◌else◌,
}
use ledisdb.Base.Int.{ℤ, pos, negsuc, pos_part, ◌+ℤ◌, ◌-ℤ◌, ltb_ℤ, leb_ℤ, eqb_ℤ, wrap64}
use ledisdb.Error.{Result, ok, err, panic, err_expire_value, err_value_size, reject_if}
use ledisdb.Bytes.{Bytes, slice}
use ledisdb.Key.{kv_type, check_key_size, check_value_size, max_value_size}
use ledisdb.Key.Plain.{encode_kv_key}
use ledisdb.Store.{Driver}
use ledisdb.Store.Iterator.{find}
use ledisdb.Ledis.{
  Env, State, M, pure, raise, lift, put, delete, locked, bucket_get, commit, ◌>>=◌, ◌>>◌,
}
use ledisdb.Ledis.Ttl.{expire_at, rm_expire, ttl, ignore}

-- A missing value is an empty slice to Go's `len`, `append` and `copy`.
abbrev pub bytes_of : Option Bytes → Bytes
bytes_of none = []
bytes_of (some v) = v

abbrev pub is_some : Option Bytes → Bool
is_some none = false
is_some (some v) = true

-- `copy(bs[at:], value)`
unfoldable pub copy_at : ℕ → Bytes → Bytes → Bytes
copy_at at value bs = take at bs ++ (take (length bs - at) value ++ drop (at + length value) bs)

-- `getRange`: both ends counted from the back if negative, and clamped.
unfoldable pub get_range : ℤ → ℤ → ℤ → ℤ × ℤ
get_range start end val_len =
    let start = if ltb_ℤ start (pos 0) then val_len +ℤ start else start in
    let end = if ltb_ℤ end (pos 0) then val_len +ℤ end else end in
    let start = if ltb_ℤ start (pos 0) then pos 0 else start in
    let end = if ltb_ℤ end (pos 0) then pos 0 else end in
    (start, if leb_ℤ val_len end then val_len -ℤ pos 1 else end)

-- `value[start : end+1]`
unfoldable pub slice_between : Bytes → ℤ → ℤ → Result Bytes
slice_between value start end =
    if ltb_ℤ start (pos 0) || ltb_ℤ (end +ℤ pos 1) (pos 0)
    then err panic
    else slice value (pos_part start) (pos_part (end +ℤ pos 1))

module _ {S I : Type 0} (d : Driver S I) (e : Env) where
  abbrev kv_key : Bytes → Bytes
  kv_key = encode_kv_key e.db

  -- `db.delete`, the deletion without the expiration
  unfoldable pub delete_kv : Bytes → M S (Unit {0})
  delete_kv key = delete (kv_key key)

  unfoldable pub set : Bytes → Bytes → M S (Unit {0})
  set key value = do
    lift (check_key_size key)
    lift (check_value_size value)
    locked (do put (kv_key key) value; commit d e.now)

  unfoldable pub get : Bytes → M S (Option Bytes)
  get key = do lift (check_key_size key); bucket_get d (kv_key key)

  unfoldable pub get_set : Bytes → Bytes → M S (Option Bytes)
  get_set key value = do
    lift (check_key_size key)
    lift (check_value_size value)
    locked (do old ← bucket_get d (kv_key key); put (kv_key key) value; commit d e.now; pure old)

  -- The error of the commit is assigned to a variable of the inner scope, and is lost.
  unfoldable pub set_nx : Bytes → Bytes → M S ℤ
  set_nx key value = do
    lift (check_key_size key)
    lift (check_value_size value)
    locked (do
      v ← bucket_get d (kv_key key)
      if is_some v
          then pure (pos 0)
          else do put (kv_key key) value; ignore d (commit d e.now); pure (pos 1))

  unfoldable pub set_ex : Bytes → ℤ → Bytes → M S (Unit {0})
  set_ex key duration value = do
    lift (check_key_size key)
    lift (check_value_size value)
    lift (reject_if (leb_ℤ duration (pos 0)) err_expire_value)
    locked (do
      put (kv_key key) value
      expire_at e kv_type key (wrap64 (e.now +ℤ duration))
      commit d e.now)

  unfoldable pub exists : Bytes → M S ℤ
  exists key = do
    lift (check_key_size key)
    v ← bucket_get d (kv_key key)
    pure (if is_some v then pos 1 else pos 0)

  del_keys : List Bytes → M S (Unit {0})
  del_keys [] = pure tt
  del_keys (key ∷ keys) = do
    delete (kv_key key)
    ignore d (rm_expire d e kv_type key)
    del_keys keys

  -- The sizes of the keys are not tested, and the count is that of the arguments.
  unfoldable pub del : List Bytes → M S ℤ
  unfolding del_keys
  del [] = pure (pos 0)
  del (key ∷ keys) =
      locked (do del_keys (key ∷ keys); commit d e.now; pure (pos (length (key ∷ keys))))

  unfoldable pub m_get_from : I → List Bytes → M S (List (Option Bytes))
  m_get_from it [] = pure []
  m_get_from it (key ∷ keys) = do
    lift (check_key_size key)
    let (it', v) = find d it (kv_key key)
    vs ← m_get_from it' keys
    pure (v ∷ vs)

  unfoldable pub m_get : List Bytes → M S (List (Option Bytes))
  unfolding m_get_from
  m_get keys s = m_get_from (d.new_iterator s.store) keys s

  put_pairs : List (Bytes × Bytes) → M S (Unit {0})
  put_pairs [] = pure tt
  put_pairs ((key, value) ∷ args) = do
    lift (check_key_size key)
    lift (check_value_size value)
    put (kv_key key) value
    put_pairs args

  unfoldable pub m_set : List (Bytes × Bytes) → M S (Unit {0})
  unfolding put_pairs
  m_set [] = pure tt
  m_set (arg ∷ args) = locked (do put_pairs (arg ∷ args); commit d e.now)

  -- An error of the commit is dropped: 0 and no error are returned.
  unfoldable pub append_done : ℕ → M S ℤ
  append_done n s =
      let (r, s') = commit d e.now s in
      elim r [ err x ↦ (ok (pos 0), s') | ok u ↦ (ok (pos n), s') ]

  unfoldable pub append : Bytes → Bytes → M S ℤ
  append key [] = pure (pos 0)
  append key (b ∷ value) = do
    lift (check_key_size key)
    locked (do
      old ← bucket_get d (kv_key key)
      lift (
          reject_if (ltb max_value_size (length (bytes_of old) + length (b ∷ value)))
            err_value_size)
      let new = bytes_of old ++ b ∷ value
      put (kv_key key) new
      append_done (length new))

  unfoldable pub set_range : Bytes → ℤ → Bytes → M S ℤ
  set_range key offset [] = pure (pos 0)
  set_range key offset (b ∷ value) = do
    lift (check_key_size key)
    lift
        (reject_if (ltb_ℤ (pos max_value_size) (pos (length (b ∷ value)) +ℤ offset)) err_value_size)
    locked (do
      old ← bucket_get d (kv_key key)
      let extra = offset +ℤ pos (length (b ∷ value)) -ℤ pos (length (bytes_of old))
      let grown = bytes_of old ++ replicate (pos_part extra) 0
      lift (reject_if (ltb_ℤ offset (pos 0)) panic)
      let new = copy_at (pos_part offset) (b ∷ value) grown
      put (kv_key key) new
      commit d e.now
      pure (pos (length new)))

  unfoldable pub get_range_of : Bytes → ℤ → ℤ → M S (Option Bytes)
  get_range_of key start end = do
    lift (check_key_size key)
    value ← bucket_get d (kv_key key)
    let (from, to) = get_range start end (pos (length (bytes_of value)))
    if ltb_ℤ to from
        then pure none
        else do v ← lift (slice_between (bytes_of value) from to); pure (some v)

  -- A missing value is a nil interface, whose `Size` makes Go panic.
  unfoldable pub str_len : Bytes → M S ℤ
  str_len key = do
    lift (check_key_size key)
    v ← bucket_get d (kv_key key)
    elim v [ none ↦ raise panic | some value ↦ pure (pos (length value)) ]

  unfoldable pub set_expire_at : Bytes → ℤ → M S ℤ
  set_expire_at key when = locked (do
    exist ← exists key
    if eqb_ℤ exist (pos 0)
        then pure (pos 0)
        else do expire_at e kv_type key when; commit d e.now; pure (pos 1))

  unfoldable pub expire : Bytes → ℤ → M S ℤ
  expire key duration = do
    lift (reject_if (leb_ℤ duration (pos 0)) err_expire_value)
    set_expire_at key (wrap64 (e.now +ℤ duration))

  unfoldable pub expire_at_time : Bytes → ℤ → M S ℤ
  expire_at_time key when = do
    lift (reject_if (leb_ℤ when e.now) err_expire_value)
    set_expire_at key when

  unfoldable pub ttl_of : Bytes → M S ℤ
  ttl_of key = do lift (check_key_size key); ttl d e kv_type key

  unfoldable pub persist : Bytes → M S ℤ
  persist key = do
    lift (check_key_size key)
    locked (do n ← rm_expire d e kv_type key; commit d e.now; pure n)
