-- ===== src/Ledis/Lists/Trims.antt =====
-- ledis/t_list.go: trimming, reading and clearing lists, and their expirations.
use ledisdb.Base.{ℕ, zero, suc, none, some, List, [], ◌∷◌, ◌||◌, length, map, if◌then◌else◌}
use ledisdb.Base.Int.{ℤ, pos, ◌+ℤ◌, ◌-ℤ◌, leb_ℤ, ltb_ℤ, eqb_ℤ, pos_part, wrap32, wrap64}
use ledisdb.Error.{ok, err, err_expire_value, reject_if}
use ledisdb.Bytes.{Bytes}
use ledisdb.Key.{list_type, check_key_size}
use ledisdb.Key.Plain.{l_encode_meta_key}
use ledisdb.Key.Sorted.{l_encode_list_key}
use ledisdb.Store.{Driver}
use ledisdb.Store.Iterator.{range_close, new_range_iterator, new_range_limit_iterator, range_rows}
use ledisdb.Ledis.{Env, M, pure, lift, delete, locked, commit, ◌>>=◌, ◌>>◌}
use ledisdb.Ledis.Sized.{delete_rows}
use ledisdb.Ledis.Ttl.{expire_at, rm_expire, ttl, ignore}
use ledisdb.Ledis.Lists.{Where, on_side, Meta, l_get_meta, l_find_meta, l_set_meta, l_len}

-- The rounds of a loop from one sequence number to another one, both included.
abbrev pub rounds : ℤ → ℤ → ℕ
rounds first last = pos_part (last -ℤ first +ℤ pos 1)

abbrev pub min_ℤ : ℤ → ℤ → ℤ
min_ℤ a b = if leb_ℤ a b then a else b

abbrev pub max_ℤ : ℤ → ℤ → ℤ
max_ℤ a b = if leb_ℤ a b then b else a

module _ {S I : Type 0} (d : Driver S I) (e : Env) where
  unfoldable pub delete_elements : Bytes → ℤ → ℕ → M S (Unit {0})
  delete_elements key seq zero = pure tt
  delete_elements key seq (suc left) = do
    delete (l_encode_list_key e.db key seq)
    delete_elements key (wrap32 (seq +ℤ pos 1)) left

  -- The elements are those in the store between the first and the last one.
  unfoldable pub l_delete : Bytes → M S ℤ
  l_delete key s =
      let mk = l_encode_meta_key e.db key in
      let (it, r) = l_find_meta d e (d.new_iterator s.store) mk in
      elim r [
        | err x ↦ (err x, s)
        | ok meta ↦
            (do
              num ← delete_rows 0 (
                  range_rows d e.fuel (
                    new_range_iterator d it (record {
                      min = some (l_encode_list_key e.db key meta.head_seq);
                      max = some (l_encode_list_key e.db key meta.tail_seq);
                      type = range_close;
                    })))
              delete mk
              pure (pos num))
              s
      ]

  -- `ltrim2` behind its locks, by the first and the last index that stay
  unfoldable pub trim_to : Bytes → Meta → ℤ → ℤ → M S (Unit {0})
  unfolding delete_elements l_delete
  trim_to key meta start stop =
      let llen = meta.size in
      let from = if ltb_ℤ start (pos 0) then wrap32 (llen +ℤ start) else start in
      let to = if ltb_ℤ stop (pos 0) then wrap32 (llen +ℤ stop) else stop in
      if leb_ℤ llen from || ltb_ℤ to from
      then (do _ ← l_delete key; ignore d (rm_expire d e list_type key); commit d e.now)
      else (let first = if ltb_ℤ from (pos 0) then pos 0 else from in
          let last = if leb_ℤ llen to then wrap32 (llen -ℤ pos 1) else to in
          do
            delete_elements key meta.head_seq (rounds (pos 0) (first -ℤ pos 1))
            delete_elements key (wrap32 (meta.head_seq +ℤ wrap32 (last +ℤ pos 1)))
                (rounds (last +ℤ pos 1) (llen -ℤ pos 1))
            _ ←
                l_set_meta d e (l_encode_meta_key e.db key) (wrap32 (meta.head_seq +ℤ first))
                  (wrap32 (meta.head_seq +ℤ last))
            commit d e.now)

  -- `ltrim2`, and with it `LTrim`
  unfoldable pub l_trim : Bytes → ℤ → ℤ → M S (Unit {0})
  unfolding trim_to
  l_trim key start stop = do
    lift (check_key_size key)
    locked (do
      meta ← l_get_meta d e (l_encode_meta_key e.db key)
      trim_to key meta (wrap32 start) (wrap32 stop))

  unfoldable pub trim_side : Bytes → ℤ → Where → Meta → M S ℤ
  unfolding delete_elements
  trim_side key trim_size side meta =
      let far_end = min_ℤ (wrap32 (wrap32 (meta.head_seq +ℤ trim_size) -ℤ pos 1)) meta.tail_seq in
      let near_end = max_ℤ (wrap32 (wrap32 (meta.tail_seq -ℤ trim_size) +ℤ pos 1)) meta.head_seq in
      let first = on_side side (meta.head_seq) near_end in
      let last = on_side side far_end (meta.tail_seq) in
      do
        delete_elements key first (rounds first last)
        let head_seq = on_side side (wrap32 (last +ℤ pos 1)) (meta.head_seq)
        let tail_seq = on_side side (meta.tail_seq) (wrap32 (first -ℤ pos 1))
        size ← l_set_meta d e (l_encode_meta_key e.db key) head_seq tail_seq
        (if eqb_ℤ size (pos 0) then ignore d (rm_expire d e list_type key) else pure tt)
        commit d e.now
        pure (wrap32 (wrap32 (last -ℤ first) +ℤ pos 1))

  -- `ltrim`, and with it `LTrimFront` and `LTrimBack`
  unfoldable pub l_trim_side : Bytes → ℤ → Where → M S ℤ
  unfolding trim_side
  l_trim_side key trim_size side = do
    lift (check_key_size key)
    if eqb_ℤ trim_size (pos 0)
        then pure (pos 0)
        else locked (do
          meta ← l_get_meta d e (l_encode_meta_key e.db key)
          if eqb_ℤ meta.size (pos 0) then pure (pos 0) else trim_side key trim_size side meta)

  abbrev values : List (Bytes × Bytes) → List Bytes
  values = map (λ row. row.1)

  -- The elements are the rows from the first one on, as many as there are in the range.
  unfoldable pub range_of : Bytes → I → Meta → ℤ → ℤ → List Bytes
  range_of key it meta start stop =
      let llen = meta.size in
      let from = if ltb_ℤ start (pos 0) then wrap32 (llen +ℤ start) else start in
      let to = if ltb_ℤ stop (pos 0) then wrap32 (llen +ℤ stop) else stop in
      let first = if ltb_ℤ from (pos 0) then pos 0 else from in
      let last = if leb_ℤ llen to then wrap32 (llen -ℤ pos 1) else to in
      let limit = wrap32 (wrap32 (last -ℤ first) +ℤ pos 1) in
      if ltb_ℤ to first || leb_ℤ llen first
      then []
      else values (
          range_rows d e.fuel (
            new_range_limit_iterator d it
              (record {
                min = some (l_encode_list_key e.db key (wrap32 (meta.head_seq +ℤ first)));
                max = none;
                type = range_close;
              })
              (record { offset = pos 0; count = limit })))

  unfoldable pub l_range : Bytes → ℤ → ℤ → M S (List Bytes)
  unfolding range_of
  l_range key start stop = do
    lift (check_key_size key)
    (λ s.
        let (it, r) = l_find_meta d e (d.new_iterator s.store) (l_encode_meta_key e.db key) in
        elim r [ err x ↦ (err x, s) | ok meta ↦ (ok (range_of key it meta start stop), s) ])

  unfoldable pub l_clear : Bytes → M S ℤ
  unfolding l_delete
  l_clear key = do
    lift (check_key_size key)
    locked (do num ← l_delete key; ignore d (rm_expire d e list_type key); commit d e.now; pure num)

  unfoldable pub l_clear_keys : List Bytes → M S (Unit {0})
  unfolding l_delete
  l_clear_keys [] = pure tt
  l_clear_keys (key ∷ keys) = do
    lift (check_key_size key)
    _ ← l_delete key
    ignore d (rm_expire d e list_type key)
    l_clear_keys keys

  unfoldable pub l_m_clear : List Bytes → M S ℤ
  unfolding l_clear_keys
  l_m_clear keys = locked (do l_clear_keys keys; commit d e.now; pure (pos (length keys)))

  unfoldable pub l_expire_at : Bytes → ℤ → M S ℤ
  l_expire_at key when = locked (do
    n ← l_len d e key
    if eqb_ℤ n (pos 0)
        then pure (pos 0)
        else do expire_at e list_type key when; commit d e.now; pure (pos 1))

  unfoldable pub l_expire : Bytes → ℤ → M S ℤ
  l_expire key duration = do
    lift (reject_if (leb_ℤ duration (pos 0)) err_expire_value)
    l_expire_at key (wrap64 (e.now +ℤ duration))

  unfoldable pub l_expire_at_time : Bytes → ℤ → M S ℤ
  l_expire_at_time key when = do
    lift (reject_if (leb_ℤ when e.now) err_expire_value)
    l_expire_at key when

  unfoldable pub l_ttl : Bytes → M S ℤ
  l_ttl key = do lift (check_key_size key); ttl d e list_type key

  unfoldable pub l_persist : Bytes → M S ℤ
  l_persist key = do
    lift (check_key_size key)
    locked (do n ← rm_expire d e list_type key; commit d e.now; pure n)
