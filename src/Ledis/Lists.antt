-- ===== src/Ledis/Lists.antt =====
-- ledis/t_list.go: lists. The elements are records under consecutive sequence numbers, and the first
-- and the last of these are kept in a meta record; a list without one is empty.
pub mod MetaRecord
pub mod Queue
pub mod Pop
pub mod Trims
use ledisdb.Base.{
  ℕ, suc, ◌-◌, ◌*◌, ◌^◌, ◌||◌, Option, none, some, List, [], ◌∷◌, ◌++◌, length, take, drop, ltb,
  if◌then◌else◌,
}
use ledisdb.Base.Int.{ℤ, pos, negsuc, ◌+ℤ◌, ◌-ℤ◌, leb_ℤ, ltb_ℤ, eqb_ℤ, wrap32, to_u32, of_u32}
use ledisdb.Error.{Result, ok, err, panic, err_list_seq, err_list_index, reject_if}
use ledisdb.Bytes.{Bytes, little_endian, little_endian_value}
use ledisdb.Key.{list_type, check_key_size}
use ledisdb.Key.Plain.{l_encode_meta_key}
use ledisdb.Key.Sorted.{l_encode_list_key}
use ledisdb.Store.{Driver}
use ledisdb.Store.Iterator.{find}
use ledisdb.Ledis.{Env, M, pure, raise, lift, put, delete, locked, bucket_get, commit, ◌>>=◌, ◌>>◌}
use ledisdb.Ledis.Ttl.{rm_expire, ignore}
use ledisdb.Ledis.Kv.{is_some}

abbrev pub list_min_seq : ℤ
list_min_seq = pos 1000

abbrev pub list_max_seq : ℤ
list_max_seq = pos (2 ^ 31 - 1000)

-- listMinSeq + (listMaxSeq-listMinSeq)/2
abbrev pub list_initial_seq : ℤ
list_initial_seq = pos 1073741824

-- `listHeadSeq` and `listTailSeq`
pub data Where : Type 0 where
  head tail : Where

abbrev pub on_side : Where → ℤ → ℤ → ℤ
on_side head h t = h
on_side tail h t = t

-- The first and the last sequence number, and their distance.
pub record Meta : Type 0 where
  pub head_seq : ℤ
  pub tail_seq : ℤ
  pub size : ℤ

unfoldable pub meta_value : ℤ → ℤ → Bytes
unfolding to_u32
meta_value head_seq tail_seq =
    little_endian 4 (to_u32 head_seq) ++ little_endian 4 (to_u32 tail_seq)

-- A value of less than 8 bytes makes the slices panic.
unfoldable pub decode_meta : Option Bytes → Result Meta
unfolding of_u32
decode_meta none =
    ok (record { head_seq = list_initial_seq; tail_seq = list_initial_seq; size = pos 0 })
decode_meta (some v) =
    if ltb (length v) 8
    then err panic
    else (let h = of_u32 (little_endian_value (take 4 v)) in
        let t = of_u32 (little_endian_value (take 4 (drop 4 v))) in
        ok (record { head_seq = h; tail_seq = t; size = wrap32 (wrap32 (t -ℤ h) +ℤ pos 1) }))

module _ {S I : Type 0} (d : Driver S I) (e : Env) where
  -- `lGetMeta(nil, ek)`, and with an iterator
  unfoldable pub l_get_meta : Bytes → M S Meta
  unfolding decode_meta
  l_get_meta ek = do v ← bucket_get d ek; lift (decode_meta v)

  unfoldable pub l_find_meta : I → Bytes → I × Result Meta
  unfolding decode_meta
  l_find_meta it ek = let (it', v) = find d it ek in (it', decode_meta v)

  -- A range that ends before it starts is told to the log of the server, and nothing is written.
  unfoldable pub l_set_meta : Bytes → ℤ → ℤ → M S ℤ
  unfolding meta_value
  l_set_meta ek head_seq tail_seq =
      let size = wrap32 (wrap32 (tail_seq -ℤ head_seq) +ℤ pos 1) in
      if ltb_ℤ size (pos 0)
      then pure size
      else if eqb_ℤ size (pos 0)
      then (do delete ek; pure size)
      else (do put ek (meta_value head_seq tail_seq); pure size)

  unfoldable pub put_elements : Bytes → ℤ → ℤ → List Bytes → M S (Unit {0})
  put_elements key seq delta [] = pure tt
  put_elements key seq delta (arg ∷ args) = do
    put (l_encode_list_key e.db key seq) arg
    put_elements key (wrap32 (seq +ℤ delta)) delta args

  abbrev pub times : ℕ → ℤ → ℤ
  times n (pos d) = pos (n * d)
  times n (negsuc d) = pos 0 -ℤ pos (n * suc d)

  unfoldable pub push_elements : Bytes → Where → Meta → List Bytes → M S ℤ
  unfolding put_elements l_set_meta
  push_elements key side meta args =
      let at = on_side side (meta.head_seq) (meta.tail_seq) in
      let delta = on_side side (negsuc 0) (pos 1) in
      let first = if ltb_ℤ (pos 0) meta.size then wrap32 (at +ℤ delta) else at in
      let last = wrap32 (first +ℤ wrap32 (times (length args - 1) delta)) in
      do
        put_elements key first delta args
        lift (reject_if (leb_ℤ last list_min_seq || leb_ℤ list_max_seq last) err_list_seq)
        let head_seq = on_side side (last) (meta.head_seq)
        let tail_seq = on_side side (meta.tail_seq) (last)
        _ ← l_set_meta (l_encode_meta_key e.db key) head_seq tail_seq
        commit d e.now
        pure (meta.size +ℤ pos (length args))

  -- Waking the clients that wait for the list is left out: it changes nothing of the store.
  unfoldable pub l_push : Bytes → Where → List Bytes → M S ℤ
  unfolding push_elements
  l_push key side args = do
    lift (check_key_size key)
    locked (do
      meta ← l_get_meta (l_encode_meta_key e.db key)
      elim args [ [] ↦ pure meta.size | arg ∷ rest ↦ push_elements key side meta (arg ∷ rest) ])

  unfoldable pub pop_element : Bytes → Where → Meta → M S (Option Bytes)
  unfolding l_set_meta
  pop_element key side meta =
      let seq = on_side side (meta.head_seq) (meta.tail_seq) in
      let item_key = l_encode_list_key e.db key seq in
      do
        value ← bucket_get d item_key
        let head_seq = on_side side (wrap32 (meta.head_seq +ℤ pos 1)) (meta.head_seq)
        let tail_seq = on_side side (meta.tail_seq) (wrap32 (meta.tail_seq -ℤ pos 1))
        delete item_key
        size ← l_set_meta (l_encode_meta_key e.db key) head_seq tail_seq
        (if eqb_ℤ size (pos 0) then ignore d (rm_expire d e list_type key) else pure tt)
        commit d e.now
        pure value

  unfoldable pub l_pop : Bytes → Where → M S (Option Bytes)
  unfolding pop_element
  l_pop key side = do
    lift (check_key_size key)
    locked (do
      meta ← l_get_meta (l_encode_meta_key e.db key)
      if eqb_ℤ meta.size (pos 0) then pure none else pop_element key side meta)

  unfoldable pub l_len : Bytes → M S ℤ
  l_len key = do
    lift (check_key_size key)
    meta ← l_get_meta (l_encode_meta_key e.db key)
    pure meta.size

  abbrev index_seq : Meta → ℤ → ℤ
  index_seq meta index =
      if leb_ℤ (pos 0) index
      then wrap32 (meta.head_seq +ℤ index)
      else wrap32 (wrap32 (meta.tail_seq +ℤ index) +ℤ pos 1)

  unfoldable pub l_index : Bytes → ℤ → M S (Option Bytes)
  unfolding l_find_meta
  l_index key index = do
    lift (check_key_size key)
    (λ s.
        let (it, r) = l_find_meta (d.new_iterator s.store) (l_encode_meta_key e.db key) in
        elim r [
          | err x ↦ (err x, s)
          | ok meta ↦ (ok (find d it (l_encode_list_key e.db key (index_seq meta index))).1, s)
        ])

  unfoldable pub l_set : Bytes → ℤ → Bytes → M S (Unit {0})
  l_set key index value = do
    lift (check_key_size key)
    locked (do
      meta ← l_get_meta (l_encode_meta_key e.db key)
      let seq = index_seq meta index
      lift (reject_if (ltb_ℤ seq meta.head_seq || ltb_ℤ meta.tail_seq seq) err_list_index)
      put (l_encode_list_key e.db key seq) value
      commit d e.now)

  unfoldable pub l_key_exists : Bytes → M S ℤ
  l_key_exists key = do
    lift (check_key_size key)
    v ← bucket_get d (l_encode_meta_key e.db key)
    pure (if is_some v then pos 1 else pos 0)
