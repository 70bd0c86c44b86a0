-- ===== src/Ledis/Zset/Removes.antt =====
-- What `ZRem` of ledis/t_zset.go does to the sorted set that the store holds.
use ledisdb.Base.{
  ℕ, ◌+◌, ◌^◌, ◌<◌, ◌≡◌, refl, ap, ◌∙◌, Bool, true, false, Option, none, some, [], ◌∷◌, length,
  ◌==◌, if◌then◌else◌, Bool-cases, inl, inr, arith,
}
use ledisdb.Base.Int.{ℤ, pos, ◌+ℤ◌, ◌-ℤ◌, eqb_ℤ, wrap64, wrap64-id}
use ledisdb.Error.{ok}
use ledisdb.Bytes.{Bytes, equal_bytes}
use ledisdb.Key.{z_set_type, check_key_size, check_z_set_km_size}
use ledisdb.Key.Sorted.{exp_encode_meta_key}
use ledisdb.Store.{Driver, WriteBatch, replay, batch_put, batch_delete}
use ledisdb.Store.Map.{IsOrderedMap}
use ledisdb.Ledis.{Env, State}
use ledisdb.Ledis.Commit.{IsReady, commit_ok, look, finished, look-finished, finished-IsReady}
use ledisdb.Ledis.Value.{put_int64, int64, int64-put_int64}
use ledisdb.Ledis.Sized.Counts.{incr_size_some, incr_size-none}
use ledisdb.Ledis.Zset.{zset_sized, z_incr_size, z_drop_item, z_del_item, rem_items, z_rem}
use ledisdb.Ledis.Zset.Items.{
  Items, IsZset, score_of_item, drop_item, has_score, score_value, size_value, length-drop_item,
}
use ledisdb.Ledis.Zset.Drops.{gone, drop-IsZset}
use ledisdb.Ledis.Zset.Puts.{sk, ek, zk, int64_size}

less_wrap :
    (old : Option ℤ) (n left : ℕ)
    → n < 2 ^ 63
    → n ≡ (if has_score old then left + 1 else left)
    → wrap64 (pos n +ℤ (pos 0 -ℤ (if has_score old then pos 0 +ℤ pos 1 else pos 0))) ≡ pos left
less_wrap none n left h e =
    let less : pos n +ℤ (pos 0 -ℤ pos 0) ≡ pos left = (unfold ◌+ℤ◌ ◌-ℤ◌ in ground arith) in
    rw less (wrap64-id (pos left) (omega arith))
less_wrap (some y) n left h e =
    let less : pos n +ℤ (pos 0 -ℤ (pos 0 +ℤ pos 1)) ≡ pos left =
      (unfold ◌+ℤ◌ ◌-ℤ◌ in ground arith) in
    rw less (wrap64-id (pos left) (omega arith))

module _ (e : Env) (key : Bytes) where
  -- The batch with the records of one member deleted.
  abbrev leaving : Option ℤ → Bytes → WriteBatch → WriteBatch
  leaving none k b = b
  leaving (some y) k b = batch_delete (ek e key k) (batch_delete (sk e key k y) b)

  abbrev sizing : ℕ → WriteBatch → WriteBatch
  sizing n b =
      if n == 0 then batch_delete (zk e key) b else batch_put (zk e key) (put_int64 (pos n)) b

module _ {S I : Type 0} {d : Driver S I} (m : IsOrderedMap d) (e : Env) (key : Bytes) where
  -- What `ZRem` of one member has pending.
  abbrev removing : Option ℤ → Bytes → ℕ → State S → State S
  removing old k n s = record s { batch = sizing e key n (leaving e key old k s.batch) }

  del_run :
      (s : State S) (items : Items) (k : Bytes) (old : Option ℤ)
      → IsZset m e key s items
      → score_of_item k items ≡ old
      → z_del_item d e key k false s ≡ (
        ok (if has_score old then pos 1 else pos 0),
        record s { batch = leaving e key old k s.batch },
      )
  unfolding z_del_item z_drop_item
  del_run s items k none z h =
      rw (m.get_row s.store (ek e key k) ∙ ap ok (z.members k ∙ ap score_value h))
  del_run s items k (some y) z h = rw (
    m.get_row s.store (ek e key k) ∙ ap ok (z.members k ∙ ap score_value h),
    int64-put_int64 y (z.fits k y h),
  )

  size_run :
      (t : State S) (n left : ℕ) (delta : ℤ)
      → int64 (ok (look m t (zk e key))) ≡ ok (pos n)
      → wrap64 (pos n +ℤ delta) ≡ pos left
      → look m t (exp_encode_meta_key e.db z_set_type key) ≡ none
      → z_incr_size d e key delta t
        ≡ (ok (pos left), record t { batch = sizing e key left t.batch })
  unfolding z_incr_size
  size_run t n left delta size w no_time = elim (Bool-cases (left == 0)) [
    | inl p ↦
        (let zero_left : left ≡ 0 = ground arith in
          rw zero_left
            (incr_size-none m e zset_sized key t (pos n) delta size (w ∙ ap pos zero_left) no_time))
    | inr p ↦ rw p (incr_size_some m e zset_sized key t (pos n) delta left size w (ground arith))
  ]

  rem_run :
      (s : State S) (items : Items) (k : Bytes) (old : Option ℤ)
      → IsReady s
      → IsZset m e key s items
      → score_of_item k items ≡ old
      → check_z_set_km_size key k ≡ ok tt
      → look m s (exp_encode_meta_key e.db z_set_type key) ≡ none
      → length items < 2 ^ 63
      → z_rem d e key (k ∷ []) s ≡ (
        ok (if has_score old then pos 1 else pos 0),
        finished m e.now (removing old k (length (drop_item k items)) s),
      )
  unfolding z_rem rem_items
  rem_run s items k old r z h km no_time room =
      let left = length (drop_item k items) in
      let t : State S = record s { batch = leaving e key old k s.batch } in
      let size : int64 (ok (look m s (zk e key))) ≡ ok (pos (length items)) =
        ap (λ v. int64 (ok v)) z.size ∙ int64_size (length items) room in
      let less : length items ≡ (if has_score old then left + 1 else left) =
        length-drop_item k items ∙ ap (λ o. if has_score o then left + 1 else left) h in
      rw (
        km,
        del_run s items k old z h,
        num old,
        size_run t (length items) left (pos 0 -ℤ (if has_score old then pos 0 +ℤ pos 1 else pos 0))
            size (less_wrap old (length items) left room less) no_time,
        commit_ok d m e.now (removing old k left s)
            (record { writable = r.can_commit.writable; caught_up = r.can_commit.caught_up }),
        result old,
      )
    where
      num :
          (old : Option ℤ)
          → (if eqb_ℤ (if has_score old then pos 1 else pos 0) (pos 1)
              then pos 0 +ℤ pos 1
              else pos 0)
            ≡ (if has_score old then pos 0 +ℤ pos 1 else pos 0)
      num none = refl
      num (some y) = refl

      result :
          (old : Option ℤ)
          → (if has_score old then pos 0 +ℤ pos 1 else pos 0)
            ≡ (if has_score old then pos 1 else pos 0)
      result none = refl
      result (some y) = unfold ◌+ℤ◌ in refl

  look-removing :
      (s : State S) (old : Option ℤ) (k : Bytes) (n : ℕ) (j : Bytes)
      → IsReady s
      → look m (finished m e.now (removing old k n s)) j ≡ (
          if equal_bytes (zk e key) j
          then size_value n
          else if gone e key old k j
          then none
          else look m s j)
  unfolding batch_put batch_delete replay
  look-removing s old k n j r = look-finished m e.now (removing old k n s) j ∙ sizes old (n == 0)
    where
      sizes :
          (old : Option ℤ) (b : Bool)
          → replay
              (if b
                then batch_delete (zk e key) (leaving e key old k s.batch)
                else batch_put (zk e key) (put_int64 (pos n)) (leaving e key old k s.batch)).ops
              j
              (look m s j)
            ≡ (if equal_bytes (zk e key) j
                then if b then none else some (put_int64 (pos n))
                else if gone e key old k j
                then none
                else look m s j)
      sizes none true = rw r.idle (ground arith)
      sizes none false = rw r.idle (ground arith)
      sizes (some y) true = rw r.idle (ground arith)
      sizes (some y) false = rw r.idle (ground arith)

  -- `ZRem` of one member, between two handlers, for a key and a member of allowed sizes and a sorted set
  -- without an expiration and of fewer than 2 ^ 63 members: it returns 1 for a member that is there and 0
  -- for one that is not, the store holds the sorted set without the member, and the next handler can run.
  pub z_rem_lem :
      (s : State S) (items : Items) (k : Bytes)
      → IsReady s
      → IsZset m e key s items
      → check_key_size key ≡ ok tt
      → check_z_set_km_size key k ≡ ok tt
      → look m s (exp_encode_meta_key e.db z_set_type key) ≡ none
      → length items < 2 ^ 63
      → ((z_rem d e key (k ∷ []) s).0
          ≡ ok (if has_score (score_of_item k items) then pos 1 else pos 0))
        × IsZset m e key (z_rem d e key (k ∷ []) s).1 (drop_item k items)
        × IsReady (z_rem d e key (k ∷ []) s).1
  z_rem_lem s items k r z kh km no_time room =
      let old = score_of_item k items in
      let n = length (drop_item k items) in
      rw (rem_run s items k old r z refl km no_time room) (
        refl,
        drop-IsZset m e key s (finished m e.now (removing old k n s)) items k old z kh refl
            (λ j. look-removing s old k n j r),
        finished-IsReady m e.now (removing old k n s)
            (record { writable = r.can_commit.writable; caught_up = r.can_commit.caught_up }),
      )
