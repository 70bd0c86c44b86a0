-- ===== src/Ledis/Zset/Increments.antt =====
-- What `ZIncrBy` of ledis/t_zset.go does to the sorted set that the store holds.
use ledisdb.Base.{
  ℕ, ◌+◌, ◌^◌, ◌<◌, ◌≡◌, refl, sym, ap, ◌∙◌, Bool, true, false, ◌||◌, Option, none, some, [],
  length, ◌==◌, if◌then◌else◌, arith,
}
use ledisdb.Base.Int.{ℤ, pos, IsInt64, ◌+ℤ◌, ◌<ℤ◌, leb_ℤ, wrap64, wrap64-id}
use ledisdb.Error.{ok}
use ledisdb.Bytes.{Bytes, equal_bytes}
use ledisdb.Bytes.Compare.{equal_bytes_iff, equal_bytes_refl}
use ledisdb.Key.{check_key_size, check_z_set_km_size}
use ledisdb.Store.{Driver, WriteBatch, replay, batch_put, batch_delete}
use ledisdb.Store.Map.{IsOrderedMap}
use ledisdb.Ledis.{Env, State}
use ledisdb.Ledis.Commit.{
  CanCommit, IsReady, commit_ok, look, finished, look-finished, finished-IsReady,
}
use ledisdb.Ledis.Value.{put_int64, int64, int64-put_int64}
use ledisdb.Ledis.Sized.Counts.{incr_size_some}
use ledisdb.Ledis.Zset.{min_score, max_score, zset_sized, z_incr_size, old_score, z_incr_by}
use ledisdb.Ledis.Zset.Items.{
  Items, IsZset, score_of_item, put_item, is_score, score_value, size_value, set_key-score_key,
  score_key-set_key, score_key-score_key, set_key-size_key, score_key-size_key,
}
use ledisdb.Ledis.Zset.Puts.{
  sk, ek, zk, int64_size, grown, grown_some, bounds-IsInt64, IsPut, put-IsZset,
}
use ledisdb.Ledis.Zset.Adds.{plus_pos}

-- The score that an increment starts from
abbrev pub score_or_zero : Option ℤ → ℤ
score_or_zero none = pos 0
score_or_zero (some y) = y

module _ {S I : Type 0} {d : Driver S I} (m : IsOrderedMap d) (e : Env) (key : Bytes) where
  -- The batch with the records of the new score put, and the record of the old one deleted behind them.
  abbrev incring : Option ℤ → ℤ → Bytes → ℕ → WriteBatch → WriteBatch
  incring none x k n b =
      batch_put (ek e key k) (put_int64 x)
        (batch_put (sk e key k x) [] (batch_put (zk e key) (put_int64 (pos (n + 1))) b))
  incring (some y) x k n b =
      batch_delete (sk e key k y)
        (batch_put (ek e key k) (put_int64 x) (batch_put (sk e key k x) [] b))

  abbrev incred : Option ℤ → ℤ → Bytes → ℕ → State S → State S
  incred old x k n s = record s { batch = incring old x k n s.batch }

  incr_run :
      (s : State S) (items : Items) (delta x : ℤ) (k : Bytes) (old : Option ℤ)
      → IsReady s
      → IsZset m e key s items
      → score_of_item k items ≡ old
      → check_z_set_km_size key k ≡ ok tt
      → wrap64 (score_or_zero old +ℤ delta) ≡ x
      → min_score <ℤ x
      → x <ℤ max_score
      → length items + 1 < 2 ^ 63
      → z_incr_by d e key delta k s ≡ (ok x, finished m e.now (incred old x k (length items) s))
  unfolding z_incr_by old_score z_incr_size
  incr_run s items delta x k none r z h km w lo hi room =
      let inside : (leb_ℤ max_score x || leb_ℤ x min_score) ≡ false = ground arith in
      let size : int64 (ok (look m s (zk e key))) ≡ ok (pos (length items)) =
        ap (λ v. int64 (ok v)) z.size ∙ int64_size (length items) (omega arith) in
      let more : wrap64 (pos (length items) +ℤ pos 1) ≡ pos (length items + 1) =
        ap wrap64 (plus_pos (length items) 1) ∙ wrap64-id (pos (length items + 1)) (omega arith) in
      rw (
        km,
        m.get_row s.store (ek e key k) ∙ ap ok (z.members k ∙ ap score_value h),
        incr_size_some m e zset_sized key s (pos (length items)) (pos 1) (length items + 1) size
            more (omega arith),
        w,
        inside,
        commit_ok d m e.now (incred none x k (length items) s)
            (record { writable = r.can_commit.writable; caught_up = r.can_commit.caught_up }),
      )
  incr_run s items delta x k (some y) r z h km w lo hi room =
      let inside : (leb_ℤ max_score x || leb_ℤ x min_score) ≡ false = ground arith in
      rw (
        km,
        m.get_row s.store (ek e key k) ∙ ap ok (z.members k ∙ ap score_value h),
        int64-put_int64 y (z.fits k y h),
        w,
        inside,
        commit_ok d m e.now (incred (some y) x k (length items) s)
            (record { writable = r.can_commit.writable; caught_up = r.can_commit.caught_up }),
      )

  look-incred :
      (s : State S) (x y : ℤ) (k : Bytes) (n : ℕ) (j : Bytes)
      → IsReady s
      → look m (finished m e.now (incred (some y) x k n s)) j ≡ (
          if equal_bytes (sk e key k y) j
          then none
          else if equal_bytes (ek e key k) j
          then some (put_int64 x)
          else if equal_bytes (sk e key k x) j
          then some []
          else look m s j)
  unfolding batch_put batch_delete replay
  look-incred s x y k n j r =
      look-finished m e.now (incred (some y) x k n s) j ∙ rw r.idle (ground arith)

  look-incred_new :
      (s : State S) (x : ℤ) (k : Bytes) (n : ℕ) (j : Bytes)
      → IsReady s
      → look m (finished m e.now (incred none x k n s)) j ≡ (
          if equal_bytes (ek e key k) j
          then some (put_int64 x)
          else if equal_bytes (sk e key k x) j
          then some []
          else if equal_bytes (zk e key) j
          then some (put_int64 (pos (n + 1)))
          else look m s j)
  unfolding batch_put batch_delete replay
  look-incred_new s x k n j r =
      look-finished m e.now (incred none x k n s) j ∙ rw r.idle (ground arith)

  -- `ZIncrBy` by 0 of a member that is there, between two handlers, for a key and a member of allowed sizes
  -- and fewer than 2 ^ 63 - 1 members, with a score inside the bounds: it returns the score, keeps the
  -- member's own record, and deletes the record under its score.
  pub z_incr_by_zero :
      (s : State S) (items : Items) (y : ℤ) (k : Bytes)
      → IsReady s
      → IsZset m e key s items
      → check_key_size key ≡ ok tt
      → check_z_set_km_size key k ≡ ok tt
      → score_of_item k items ≡ some y
      → min_score <ℤ y
      → y <ℤ max_score
      → length items + 1 < 2 ^ 63
      → ((z_incr_by d e key (pos 0) k s).0 ≡ ok y)
        × (look m (z_incr_by d e key (pos 0) k s).1 (ek e key k) ≡ some (put_int64 y))
        × (look m (z_incr_by d e key (pos 0) k s).1 (sk e key k y) ≡ none)
  z_incr_by_zero s items y k r z kh km h lo hi room =
      let hy : IsInt64 y = bounds-IsInt64 y lo hi in
      let same : wrap64 (y +ℤ pos 0) ≡ y = ap wrap64 (plus_zero y) ∙ wrap64-id y hy in
      rw (incr_run s items (pos 0) y k (some y) r z h km same lo hi room) (
        refl,
        look-incred s y y k (length items) (ek e key k) r
            ∙ rw (score_key-set_key e.db key kh k k y hy, equal_bytes_refl (ek e key k)),
        look-incred s y y k (length items) (sk e key k y) r ∙ rw (equal_bytes_refl (sk e key k y)),
      )
    where
      plus_zero : (y : ℤ) → y +ℤ pos 0 ≡ y
      plus_zero y = unfold ◌+ℤ◌ in ground arith

-- A key that is equal to the first of two different ones is not equal to the other.
apart : (a b j : Bytes) → equal_bytes b a ≡ false → equal_bytes a j ≡ true → equal_bytes b j ≡ false
apart a b j ne p = let same : a ≡ j = (equal_bytes_iff a j).0 p in rw (← same) ne

-- The order of four writes does not matter where they are to different keys.
puts_first :
    (z s e o : Bool) (size item score v : Option Bytes)
    → (z ≡ true → (s || (e || o)) ≡ false)
    → (z ≡ true → v ≡ size)
    → (s ≡ true → (e || o) ≡ false)
    → (e ≡ true → o ≡ false)
    → (if o then none else if e then item else if s then score else v)
      ≡ (if z then size else if s then score else if e then item else if o then none else v)
puts_first z s e o size item score v hz hv hs he = ground arith

puts_first_new :
    (z s e : Bool) (size item score v : Option Bytes)
    → (z ≡ true → (s || e) ≡ false)
    → (s ≡ true → e ≡ false)
    → (if e then item else if s then score else if z then size else v)
      ≡ (if z then size else if s then score else if e then item else if false then none else v)
puts_first_new z s e size item score v hz hs = ground arith

module _ {S I : Type 0} {d : Driver S I} (m : IsOrderedMap d) (e : Env) (key : Bytes)
    (kh : check_key_size key ≡ ok tt) where
  incred-IsPut :
      (s : State S) (items : Items) (x : ℤ) (k : Bytes) (old : Option ℤ)
      → IsReady s
      → IsZset m e key s items
      → score_of_item k items ≡ old
      → is_score old x ≡ false
      → IsInt64 x
      → IsPut m e key s
          (finished m e.now (incred m e key old x k (length items) s))
          old
          x
          k
          (grown old (length items))
  incred-IsPut s items x k none r z h new hx j =
      look-incred_new m e key s x k (length items) j r
      ∙ puts_first_new (equal_bytes (zk e key) j) (equal_bytes (sk e key k x) j)
          (equal_bytes (ek e key k) j) _ _ _ _
          (λ p. rw (
            apart (zk e key) (sk e key k x) j (score_key-size_key e.db key kh k x hx) p,
            apart (zk e key) (ek e key k) j (set_key-size_key e.db key kh k) p,
          ))
          (λ p. apart (sk e key k x) (ek e key k) j (set_key-score_key e.db key kh k k x hx) p)
  incred-IsPut s items x k (some y) r z h new hx j =
      let hy : IsInt64 y = z.fits k y h in
      let changed : equal_bytes (sk e key k y) (sk e key k x) ≡ false =
        score_key-score_key e.db key kh k k y x hy hx ∙ rw new (ground arith) in
      let counted : size_value (length items) ≡ some (put_int64 (pos (length items))) =
        (let some_there : (length items == 0) ≡ false =
            ground (arith, grown_some (some y) items k h) in
          rw some_there) in
      look-incred m e key s x y k (length items) j r
      ∙ puts_first (equal_bytes (zk e key) j) (equal_bytes (sk e key k x) j)
          (equal_bytes (ek e key k) j) (equal_bytes (sk e key k y) j) _ _ _ _
          (λ p. rw (
            apart (zk e key) (sk e key k x) j (score_key-size_key e.db key kh k x hx) p,
            apart (zk e key) (ek e key k) j (set_key-size_key e.db key kh k) p,
            apart (zk e key) (sk e key k y) j (score_key-size_key e.db key kh k y hy) p,
          ))
          (λ p. ap (look m s) (sym ((equal_bytes_iff (zk e key) j).0 p)) ∙ z.size ∙ counted)
          (λ p. rw (
            apart (sk e key k x) (ek e key k) j (set_key-score_key e.db key kh k k x hx) p,
            apart (sk e key k x) (sk e key k y) j changed p,
          ))
          (λ p. apart (ek e key k) (sk e key k y) j (score_key-set_key e.db key kh k k y hy) p)

  -- `ZIncrBy`, between two handlers, for a key and a member of allowed sizes and fewer than 2 ^ 63 - 1
  -- members, where the sum with the score that is there, or with 0, is inside the bounds and is not that
  -- score: it returns the sum, the store holds the sorted set in which the member has it, and the next
  -- handler can run.
  pub z_incr_by_lem :
      (s : State S) (items : Items) (delta x : ℤ) (k : Bytes)
      → IsReady s
      → IsZset m e key s items
      → check_z_set_km_size key k ≡ ok tt
      → wrap64 (score_or_zero (score_of_item k items) +ℤ delta) ≡ x
      → is_score (score_of_item k items) x ≡ false
      → min_score <ℤ x
      → x <ℤ max_score
      → length items + 1 < 2 ^ 63
      → ((z_incr_by d e key delta k s).0 ≡ ok x)
        × IsZset m e key (z_incr_by d e key delta k s).1 (put_item k x items)
        × IsReady (z_incr_by d e key delta k s).1
  z_incr_by_lem s items delta x k r z km w new lo hi room =
      let old = score_of_item k items in
      rw (incr_run m e key s items delta x k old r z refl km w lo hi room) (
        refl,
        put-IsZset m e key s (finished m e.now (incred m e key old x k (length items) s)) items x k
            z kh (bounds-IsInt64 x lo hi)
            (incred-IsPut s items x k old r z refl new (bounds-IsInt64 x lo hi)),
        finished-IsReady m e.now (incred m e key old x k (length items) s) (ready old),
      )
    where
      ready : (old : Option ℤ) → CanCommit (incred m e key old x k (length items) s)
      ready old = record { writable = r.can_commit.writable; caught_up = r.can_commit.caught_up }
