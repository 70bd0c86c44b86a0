-- ===== src/Ledis/Sets.antt =====
-- ledis/t_set.go: sets. A member has a record of its own with no value, and the number of members is
-- kept in a size record.
pub mod Algebra
pub mod Operations
use ledisdb.Base.{Bool, true, false, List, [], ◌∷◌, ◌++◌, length, if◌then◌else◌}
use ledisdb.Base.Int.{ℤ, pos, ◌+ℤ◌, ◌-ℤ◌, leb_ℤ, eqb_ℤ, wrap64}
use ledisdb.Error.{Result, ok, err, panic, err_expire_value, reject_if}
use ledisdb.Bytes.{Bytes, equal_bytes}
use ledisdb.Key.{set_type, check_key_size, check_set_km_size}
use ledisdb.Key.Plain.{s_encode_size_key}
use ledisdb.Key.Member.{s_encode_set_key, s_decode_set_key, s_encode_start_key, s_encode_stop_key}
use ledisdb.Store.{Driver}
use ledisdb.Store.Iterator.{find}
use ledisdb.Ledis.{
  Env, State, M, pure, raise, lift, put, delete, locked, bucket_get, commit, ◌>>=◌, ◌>>◌,
}
use ledisdb.Ledis.Sized.{Sized, incr_size, rows_between, delete_rows}
use ledisdb.Ledis.Value.{put_int64}
use ledisdb.Ledis.Ttl.{expire_at, rm_expire, ttl, ignore, get_int64}
use ledisdb.Ledis.Kv.{is_some}
use ledisdb.Ledis.Hash.{value_or_nil}

-- The keys of a Go `map[string]bool` whose values are all true, each once. Go's iteration takes any
-- order of them; here it is the order in which they came in.
abbrev pub has : Bytes → List Bytes → Bool
has m [] = false
has m (k ∷ ks) = if equal_bytes k m then true else has m ks

abbrev pub add_key : Bytes → List Bytes → List Bytes
add_key m ks = if has m ks then ks else ks ++ m ∷ []

unfoldable pub delete_key : Bytes → List Bytes → List Bytes
delete_key m [] = []
delete_key m (k ∷ ks) = let rest = delete_key m ks in if equal_bytes k m then rest else k ∷ rest

unfoldable pub add_keys : List Bytes → List Bytes → List Bytes
add_keys [] ks = ks
add_keys (m ∷ ms) ks = add_keys ms (add_key m ks)

unfoldable pub delete_keys : List Bytes → List Bytes → List Bytes
unfolding delete_key
delete_keys [] ks = ks
delete_keys (m ∷ ms) ks = delete_keys ms (delete_key m ks)

abbrev pub set_sized : Sized
set_sized = record { data_type = set_type; size_key = s_encode_size_key }

-- `UnionType`, `DiffType` and `InterType`
pub data OptType : Type 0 where
  union diff inter : OptType

-- The members of a further set that are selected already. The size of each is tested as that of a key.
unfoldable pub select : List Bytes → List Bytes → List Bytes → Result (List Bytes)
select [] dst temp = ok temp
select (m ∷ ms) dst temp =
    let rest = select ms dst (if has m dst then add_key m temp else temp) in
    elim (check_key_size m) [ err x ↦ err x | ok u ↦ rest ]

module _ {S I : Type 0} (d : Driver S I) (e : Env) where
  -- The rows of the set, from `:` up to but not `;` behind the key.
  unfoldable pub set_rows : Bytes → State S → List (Bytes × Bytes)
  unfolding rows_between
  set_rows key = rows_between d e (s_encode_start_key e.db key) (s_encode_stop_key e.db key)

  unfoldable pub s_delete : Bytes → M S ℤ
  s_delete key s =
      (do num ← delete_rows 0 (set_rows key s); delete (s_encode_size_key e.db key); pure (pos num))
        s

  unfoldable pub s_incr_size : Bytes → ℤ → M S ℤ
  unfolding incr_size
  s_incr_size = incr_size d e set_sized

  unfoldable pub s_set_item : Bytes → Bytes → M S ℤ
  unfolding s_incr_size
  s_set_item key member s =
      let ek = s_encode_set_key e.db key member in
      if is_some (value_or_nil d e (d.get s.store ek))
      then (do put ek []; pure (pos 0)) s
      else (do _ ← s_incr_size key (pos 1); put ek []; pure (pos 1)) s

  -- The count of the members that are not in the store, once for each time they are given. The value
  -- that is put is Go's nil, which a store gives back as an empty one.
  unfoldable pub put_members : Bytes → ℤ → List Bytes → M S ℤ
  put_members key num [] = pure num
  put_members key num (arg ∷ args) = do
    lift (check_set_km_size key arg)
    let ek = s_encode_set_key e.db key arg
    v ← bucket_get d ek
    put ek []
    put_members key (if is_some v then num else num +ℤ pos 1) args

  unfoldable pub s_add : Bytes → List Bytes → M S ℤ
  s_add key args =
      locked
        (do num ← put_members key (pos 0) args; _ ← s_incr_size key num; commit d e.now; pure num)

  unfoldable pub s_card : Bytes → M S ℤ
  s_card key = do lift (check_key_size key); get_int64 d (s_encode_size_key e.db key)

  unfoldable pub decode_members : List (Bytes × Bytes) → Result (List Bytes)
  decode_members [] = ok []
  decode_members ((k, v) ∷ rows) =
      let rest = decode_members rows in
      elim (s_decode_set_key e.db k) [
        | err x ↦ err x
        | ok (key, m) ↦ elim rest [ err x ↦ err x | ok ms ↦ ok (m ∷ ms) ]
      ]

  unfoldable pub s_members : Bytes → M S (List Bytes)
  s_members key = do lift (check_key_size key); (λ s. (decode_members (set_rows key s), s))

  unfoldable pub s_is_member : Bytes → Bytes → M S ℤ
  s_is_member key member = do
    v ← bucket_get d (s_encode_set_key e.db key member)
    pure (if is_some v then pos 1 else pos 0)

  unfoldable pub remove_members : I → Bytes → ℤ → List Bytes → M S ℤ
  remove_members it key num [] = pure num
  remove_members it key num (arg ∷ args) = do
    lift (check_set_km_size key arg)
    let ek = s_encode_set_key e.db key arg
    let (it', v) = find d it ek
    (if is_some v then delete ek else pure tt)
    remove_members it' key (if is_some v then num +ℤ pos 1 else num) args

  unfoldable pub s_rem : Bytes → List Bytes → M S ℤ
  s_rem key args = locked (λ s.
      (do
        num ← remove_members (d.new_iterator s.store) key (pos 0) args
        _ ← s_incr_size key (pos 0 -ℤ num)
        commit d e.now
        pure num)
        s)

  unfoldable pub union_from : List Bytes → List Bytes → M S (List Bytes)
  union_from [] dst = pure dst
  union_from (key ∷ keys) dst = do
    lift (check_key_size key)
    members ← s_members key
    union_from keys (add_keys members dst)

  unfoldable pub s_union_generic : List Bytes → M S (List Bytes)
  s_union_generic keys = union_from keys []

  -- The members that are left when those of a further set are taken away; nothing left ends the loop.
  unfoldable pub diff_from : List Bytes → List Bytes → M S (List Bytes)
  diff_from [] dst = pure dst
  diff_from (key ∷ keys) dst = do
    members ← s_members key
    elim (delete_keys members dst) [ [] ↦ pure [] | m ∷ ms ↦ diff_from keys (m ∷ ms) ]

  -- `keys[0]` panics without keys.
  unfoldable pub s_diff_generic : List Bytes → M S (List Bytes)
  s_diff_generic [] = raise panic
  s_diff_generic (key ∷ keys) = do members ← s_members key; diff_from keys (add_keys members [])

  unfoldable pub inter_from : List Bytes → List Bytes → M S (List Bytes)
  inter_from [] dst = pure dst
  inter_from (key ∷ keys) dst = do
    lift (check_key_size key)
    members ← s_members key
    elim members [
      | [] ↦ pure []
      | m ∷ ms ↦ (do
        temp ← lift (select (m ∷ ms) dst [])
        elim temp [ [] ↦ pure [] | t ∷ ts ↦ inter_from keys (t ∷ ts) ])
    ]

  unfoldable pub s_inter_generic : List Bytes → M S (List Bytes)
  s_inter_generic [] = raise panic
  s_inter_generic (key ∷ keys) = do members ← s_members key; inter_from keys (add_keys members [])

  unfoldable pub generic : OptType → List Bytes → M S (List Bytes)
  generic union = s_union_generic
  generic diff = s_diff_generic
  generic inter = s_inter_generic

  unfoldable pub put_all : Bytes → List Bytes → M S (Unit {0})
  put_all dst [] = pure tt
  put_all dst (m ∷ ms) = do
    lift (check_set_km_size dst m)
    let ek = s_encode_set_key e.db dst m
    _ ← bucket_get d ek
    put ek []
    put_all dst ms

  -- The sources are read from the store, which the pending deletions have not reached.
  unfoldable pub s_store_generic : Bytes → OptType → List Bytes → M S ℤ
  s_store_generic dst_key opt_type keys = do
    lift (check_key_size dst_key)
    locked (do
      _ ← s_delete dst_key
      v ← generic opt_type keys
      put_all dst_key v
      put (s_encode_size_key e.db dst_key) (put_int64 (pos (length v)))
      commit d e.now
      pure (pos (length v)))

  unfoldable pub s_clear : Bytes → M S ℤ
  s_clear key = do
    lift (check_key_size key)
    locked (do num ← s_delete key; ignore d (rm_expire d e set_type key); commit d e.now; pure num)

  unfoldable pub s_clear_keys : List Bytes → M S (Unit {0})
  s_clear_keys [] = pure tt
  s_clear_keys (key ∷ keys) = do
    lift (check_key_size key)
    _ ← s_delete key
    ignore d (rm_expire d e set_type key)
    s_clear_keys keys

  unfoldable pub s_m_clear : List Bytes → M S ℤ
  s_m_clear keys = locked (do s_clear_keys keys; commit d e.now; pure (pos (length keys)))

  unfoldable pub s_expire_at : Bytes → ℤ → M S ℤ
  s_expire_at key when = locked (do
    n ← s_card key
    if eqb_ℤ n (pos 0)
        then pure (pos 0)
        else do expire_at e set_type key when; commit d e.now; pure (pos 1))

  unfoldable pub s_expire : Bytes → ℤ → M S ℤ
  s_expire key duration = do
    lift (reject_if (leb_ℤ duration (pos 0)) err_expire_value)
    s_expire_at key (wrap64 (e.now +ℤ duration))

  unfoldable pub s_expire_at_time : Bytes → ℤ → M S ℤ
  s_expire_at_time key when = do
    lift (reject_if (leb_ℤ when e.now) err_expire_value)
    s_expire_at key when

  unfoldable pub s_ttl : Bytes → M S ℤ
  s_ttl key = do lift (check_key_size key); ttl d e set_type key

  unfoldable pub s_persist : Bytes → M S ℤ
  s_persist key = do
    lift (check_key_size key)
    locked (do n ← rm_expire d e set_type key; commit d e.now; pure n)

  unfoldable pub s_key_exists : Bytes → M S ℤ
  s_key_exists key = do
    lift (check_key_size key)
    v ← bucket_get d (s_encode_size_key e.db key)
    pure (if is_some v then pos 1 else pos 0)
