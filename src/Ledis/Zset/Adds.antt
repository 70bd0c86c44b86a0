-- ===== src/Ledis/Zset/Adds.antt =====
-- What `ZAdd` of ledis/t_zset.go does to the sorted set that the store holds.
use ledisdb.Base.{
  ℕ, ◌+◌, ◌^◌, ◌<◌, ◌≡◌, refl, ap, ◌∙◌, false, ◌||◌, Option, none, some, [], ◌∷◌, length,
  if◌then◌else◌, arith,
}
use ledisdb.Base.Int.{ℤ, pos, ◌+ℤ◌, leb_ℤ, eqb_ℤ, wrap64, wrap64-id, ◌<ℤ◌}
use ledisdb.Error.{ok}
use ledisdb.Bytes.{Bytes, equal_bytes}
use ledisdb.Key.{check_key_size, check_z_set_km_size}
use ledisdb.Store.{Driver, WriteBatch, replay, batch_put, batch_delete}
use ledisdb.Store.Map.{IsOrderedMap}
use ledisdb.Ledis.{Env, State}
use ledisdb.Ledis.Commit.{
  CanCommit, IsReady, commit_ok, look, finished, look-finished, finished-IsReady,
}
use ledisdb.Ledis.Value.{put_int64, int64, int64-put_int64}
use ledisdb.Ledis.Sized.Counts.{incr_size_some}
use ledisdb.Ledis.Zset.{
  min_score, max_score, zset_sized, z_incr_size, z_move_item, z_set_item, add_items, z_add,
}
use ledisdb.Ledis.Zset.Items.{Items, IsZset, score_of_item, put_item, has_score, score_value}
use ledisdb.Ledis.Zset.Puts.{
  sk, ek, zk, int64_size, dropped, grown, grown_some, bounds-IsInt64, put-IsZset,
}

pub plus_pos : (a b : ℕ) → pos a +ℤ pos b ≡ pos (a + b)
unfolding ◌+ℤ◌
plus_pos a b = ground arith

module _ {S I : Type 0} {d : Driver S I} (m : IsOrderedMap d) (e : Env) (key : Bytes) where
  -- The batch with the records of one member put, and its old score record deleted.
  abbrev moving : Option ℤ → ℤ → Bytes → WriteBatch → WriteBatch
  moving none x k b = batch_put (sk e key k x) [] (batch_put (ek e key k) (put_int64 x) b)
  moving (some y) x k b =
      batch_put (sk e key k x) []
        (batch_put (ek e key k) (put_int64 x) (batch_delete (sk e key k y) b))

  -- What `ZAdd` of one member has pending.
  abbrev adding : Option ℤ → ℤ → Bytes → ℕ → State S → State S
  adding old x k n s = record s {
    batch = batch_put (zk e key) (put_int64 (pos n)) (moving old x k s.batch);
  }

  adding-CanCommit :
      (old : Option ℤ) (x : ℤ) (k : Bytes) (n : ℕ) (s : State S)
      → IsReady s
      → CanCommit (adding old x k n s)
  adding-CanCommit old x k n s r = record {
    writable = r.can_commit.writable;
    caught_up = r.can_commit.caught_up;
  }

  set_item_run :
      (s : State S) (items : Items) (x : ℤ) (k : Bytes) (old : Option ℤ)
      → IsZset m e key s items
      → score_of_item k items ≡ old
      → min_score <ℤ x
      → x <ℤ max_score
      → z_set_item d e key x k s
        ≡ (ok (if has_score old then pos 1 else pos 0), record s { batch = moving old x k s.batch })
  unfolding z_set_item z_move_item
  set_item_run s items x k none z h lo hi =
      let inside : (leb_ℤ x min_score || leb_ℤ max_score x) ≡ false = ground arith in
      rw (inside, m.get_row s.store (ek e key k) ∙ ap ok (z.members k ∙ ap score_value h))
  set_item_run s items x k (some y) z h lo hi =
      let inside : (leb_ℤ x min_score || leb_ℤ max_score x) ≡ false = ground arith in
      rw (
        inside,
        m.get_row s.store (ek e key k) ∙ ap ok (z.members k ∙ ap score_value h),
        int64-put_int64 y (z.fits k y h),
      )

  grown_wrap :
      (old : Option ℤ) (n : ℕ)
      → n + 1 < 2 ^ 63
      → wrap64 (
          pos n
          +ℤ (if eqb_ℤ (if has_score old then pos 1 else pos 0) (pos 0)
              then pos 0 +ℤ pos 1
              else pos 0))
        ≡ pos (grown old n)
  grown_wrap none n h =
      ap (λ t. wrap64 (pos n +ℤ t)) (plus_pos 0 1)
      ∙ ap wrap64 (plus_pos n 1)
      ∙ wrap64-id (pos (n + 1)) (omega arith)
  grown_wrap (some y) n h =
      ap wrap64 (plus_pos n 0 ∙ ap pos (omega arith)) ∙ wrap64-id (pos n) (omega arith)

  add_run :
      (s : State S) (items : Items) (x : ℤ) (k : Bytes) (old : Option ℤ)
      → IsReady s
      → IsZset m e key s items
      → score_of_item k items ≡ old
      → check_z_set_km_size key k ≡ ok tt
      → min_score <ℤ x
      → x <ℤ max_score
      → length items + 1 < 2 ^ 63
      → z_add d e key ((x, k) ∷ []) s ≡ (
        ok (if has_score old then pos 0 else pos 1),
        finished m e.now (adding old x k (grown old (length items)) s),
      )
  unfolding z_add add_items z_incr_size
  add_run s items x k old r z h km lo hi room =
      let t : State S = record s { batch = moving old x k s.batch } in
      let size : int64 (ok (look m s (zk e key))) ≡ ok (pos (length items)) =
        ap (λ v. int64 (ok v)) z.size ∙ int64_size (length items) (omega arith) in
      let num : (if eqb_ℤ (if has_score old then pos 1 else pos 0) (pos 0)
            then pos 0 +ℤ pos 1
            else pos 0)
          ≡ (if has_score old then pos 0 else pos 1) =
        new_count old in
      rw (
        km,
        set_item_run s items x k old z h lo hi,
        incr_size_some m e zset_sized key t (pos (length items))
            (if eqb_ℤ (if has_score old then pos 1 else pos 0) (pos 0)
              then pos 0 +ℤ pos 1
              else pos 0)
            (grown old (length items)) size (grown_wrap old (length items) room)
            (grown_some old items k h),
        commit_ok d m e.now (adding old x k (grown old (length items)) s)
            (adding-CanCommit old x k (grown old (length items)) s r),
        num,
      )
    where
      new_count :
          (old : Option ℤ)
          → (if eqb_ℤ (if has_score old then pos 1 else pos 0) (pos 0)
              then pos 0 +ℤ pos 1
              else pos 0)
            ≡ (if has_score old then pos 0 else pos 1)
      new_count none = unfold ◌+ℤ◌ in refl
      new_count (some y) = refl

  look-adding :
      (s : State S) (old : Option ℤ) (x : ℤ) (k : Bytes) (n : ℕ) (j : Bytes)
      → IsReady s
      → look m (finished m e.now (adding old x k n s)) j ≡ (
          if equal_bytes (zk e key) j
          then some (put_int64 (pos n))
          else if equal_bytes (sk e key k x) j
          then some []
          else if equal_bytes (ek e key k) j
          then some (put_int64 x)
          else if dropped e key old k j
          then none
          else look m s j)
  look-adding s none x k n j r =
      look-finished m e.now (adding none x k n s) j
      ∙ unfold batch_put replay in rw r.idle (ground arith)
  look-adding s (some y) x k n j r =
      look-finished m e.now (adding (some y) x k n s) j
      ∙ unfold batch_put batch_delete replay in rw r.idle (ground arith)

  -- `ZAdd` of one member with a score inside the bounds, between two handlers, for a key and a member
  -- of allowed sizes and a sorted set of fewer than 2 ^ 63 - 1 members: it returns 1 for a new member and 0 for one that is there, the store holds the
  -- sorted set in which the member has the score, and the next handler can run.
  pub z_add_lem :
      (s : State S) (items : Items) (x : ℤ) (k : Bytes)
      → IsReady s
      → IsZset m e key s items
      → check_key_size key ≡ ok tt
      → check_z_set_km_size key k ≡ ok tt
      → min_score <ℤ x
      → x <ℤ max_score
      → length items + 1 < 2 ^ 63
      → ((z_add d e key ((x, k) ∷ []) s).0
          ≡ ok (if has_score (score_of_item k items) then pos 0 else pos 1))
        × IsZset m e key (z_add d e key ((x, k) ∷ []) s).1 (put_item k x items)
        × IsReady (z_add d e key ((x, k) ∷ []) s).1
  z_add_lem s items x k r z kh km lo hi room =
      let old = score_of_item k items in
      let n = grown old (length items) in
      rw (add_run s items x k old r z refl km lo hi room) (
        refl,
        put-IsZset m e key s (finished m e.now (adding old x k n s)) items x k z kh
            (bounds-IsInt64 x lo hi) (λ j. look-adding s old x k n j r),
        finished-IsReady m e.now (adding old x k n s) (adding-CanCommit old x k n s r),
      )
