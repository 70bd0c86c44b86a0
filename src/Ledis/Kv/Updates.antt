-- ===== src/Ledis/Kv/Updates.antt =====
-- Appending to a value, reading a part of it, and what is left of an expiration (ledis/t_kv.go).
use ledisdb.Base.{
  ℕ, ◌+◌, ◌≡◌, ◌≢◌, refl, sym, ap, ltb, ◌∙◌, false, Option, none, some, ◌∷◌, ◌++◌, length,
  length-append, if◌then◌else◌, Bool-cases, inl, inr, arith,
}
use ledisdb.Base.Int.{
  ℤ, pos, negsuc, IsInt64, ◌-ℤ◌, ◌≤ℤ◌, ◌<ℤ◌, -ℤ_parts, +ℤ_parts, neg_part, leb_ℤ, eqb_ℤ, ltb_ℤ,
  wrap64-id, pos_part,
}
use ledisdb.Error.{Result, ok, err, panic, err_value_size, reject_if}
use ledisdb.Bytes.{Bytes, equal_bytes, slice}
use ledisdb.Bytes.Compare.{equal_bytes_refl}
use ledisdb.Key.{max_value_size, check_key_size, check_value_size}
use ledisdb.Store.{Driver, batch_put}
use ledisdb.Store.Map.{IsOrderedMap}
use ledisdb.Ledis.{Env, State, lift, pure, ◌>>=◌}
use ledisdb.Ledis.Commit.{CanCommit, IsReady, commit_ok, look, committed, finished-IsReady}
use ledisdb.Ledis.Value.{put_int64, int64-put_int64}
use ledisdb.Ledis.Ttl.{ttl, remaining}
use ledisdb.Ledis.Kv.{
  append, append_done, set, get_range, get_range_of, slice_between, bytes_of, persist, ttl_of,
  set_expire_at,
}
use ledisdb.Ledis.Kv.Expiry.{
  kv, mk, tk, set_expire_run, look-expiring, persisting, persisting-CanCommit, persist_run,
  look-persisting,
}

-- What `getRange` gives starts at 0 or later, and ends before the end of the value.
get_range_bounds :
    (start end : ℤ) (n : ℕ)
    → (pos 0 ≤ℤ (get_range start end (pos n)).0)
      × (negsuc 0 ≤ℤ (get_range start end (pos n)).1)
      × ((get_range start end (pos n)).1 <ℤ pos n)
unfolding get_range
get_range_bounds start end n = ground (arith, -ℤ_parts (pos n) (pos 1))

slice_no_panic :
    (v : Bytes) (start end : ℤ)
    → pos 0 ≤ℤ start
    → negsuc 0 ≤ℤ end
    → end <ℤ pos (length v)
    → ltb_ℤ end start ≡ false
    → slice_between v start end ≢ err panic
unfolding slice_between slice
slice_no_panic v start end p q lt le = ground (arith, +ℤ_parts end (pos 1))

module _ {S I : Type 0} {d : Driver S I} (m : IsOrderedMap d) (e : Env) (s : State S) where
  append_done_ok :
      (n : ℕ) (t : State S)
      → CanCommit t
      → append_done d e n t ≡ (ok (pos n), committed d m e.now t)
  unfolding append_done
  append_done_ok n t can =
      ap
        (λ p. elim p.0 as (λ r. Result ℤ × State S) [
          | err x ↦ (ok (pos 0), p.1)
          | ok u ↦ (ok (pos n), p.1)
        ])
        (commit_ok d m e.now t can)

  -- Between two handlers, to append one byte or more to the value of a key of an allowed size, or to
  -- none, when the result is not too long, returns the length of the
  -- result and leaves the state that `Set` of the old value followed by the new bytes leaves.
  pub append_lem :
      (key : Bytes) (b : ℕ) (value : Bytes) (old : Option Bytes)
      → IsReady s
      → check_key_size key ≡ ok tt
      → check_value_size (bytes_of old ++ b ∷ value) ≡ ok tt
      → look m s (kv m e key) ≡ old
      → append d e key (b ∷ value) s ≡ (
        ok (pos (length (bytes_of old ++ b ∷ value))),
        (set d e key (bytes_of old ++ b ∷ value) s).1,
      )
  unfolding append set check_value_size
  append_lem key b value old r kh vh h =
      let new = bytes_of old ++ b ∷ value in
      let s' : State S = record s { batch = batch_put (kv m e key) new s.batch } in
      let can : CanCommit s' = record {
        writable = r.can_commit.writable;
        caught_up = r.can_commit.caught_up;
      } in
      let room : reject_if (ltb max_value_size (length (bytes_of old) + length (b ∷ value)))
            err_value_size
          ≡ ok tt =
        ap (λ n. reject_if (ltb max_value_size n) err_value_size)
          (sym (length-append {0} (bytes_of old) (b ∷ value)))
        ∙ vh in
      let found : d.get s.store (kv m e key) ≡ ok old = m.get_row s.store (kv m e key) ∙ ap ok h in
      rw (kh, found, room, vh, append_done_ok (length new) s' can, commit_ok d m e.now s' can)

  -- Between two handlers, `Persist` of a key of an allowed size that has an expiration returns 1, removes the meta record and the time record,
  -- and changes no other key of the store; the next handler can run.
  pub persist_lem :
      (key : Bytes) (when : ℤ)
      → IsReady s
      → check_key_size key ≡ ok tt
      → IsInt64 when
      → look m s (mk m e key) ≡ some (put_int64 when)
      → ((persist d e key s).0 ≡ ok (pos 1))
        × ((k : Bytes)
            → look m (persist d e key s).1 k ≡ (
                if equal_bytes (tk m e key when) k
                then none
                else if equal_bytes (mk m e key) k
                then none
                else look m s k))
        × IsReady (persist d e key s).1
  persist_lem key when r kh i h = rw (persist_run m e key when s r kh i h) (
    refl,
    (λ k. look-persisting m e key when s k r),
    finished-IsReady m e.now (persisting m e key when s) (persisting-CanCommit m e key when s r),
  )

  -- After an expiration is set between two handlers on a key of an allowed size that is there, and
  -- from 1970 on until it comes, `TTL` returns the seconds
  -- that are left.
  pub ttl_of-set_expire_at :
      (key v : Bytes) (when later : ℤ)
      → IsReady s
      → check_key_size key ≡ ok tt
      → look m s (kv m e key) ≡ some v
      → IsInt64 when
      → pos 0 ≤ℤ later
      → later <ℤ when
      → (ttl_of d (record e { now = later }) key (set_expire_at d e key when s).1).0
        ≡ ok (when -ℤ later)
  unfolding ttl_of ttl
  ttl_of-set_expire_at key v when later r kh h i p lt = rw (
    set_expire_run m e key when s v r kh h,
    kh,
    m.get_row,
    look-expiring m e key when s (mk m e key) r,
    equal_bytes_refl (mk m e key),
    int64-put_int64 when i,
    left when later i p lt,
  )
    where
      fits :
          (when later : ℤ) → IsInt64 when → pos 0 ≤ℤ later → later <ℤ when → IsInt64 (when -ℤ later)
      fits (pos w) (pos l) i p lt = unfold ◌-ℤ◌ in ground arith
      fits when (negsuc l) i p lt = absurd (omega arith)
      fits (negsuc w) (pos l) i p lt = absurd (omega arith)

      later_than :
          (when later n : ℤ)
          → pos 0 ≤ℤ later
          → later <ℤ when
          → pos_part n + neg_part when + pos_part later
            ≡ neg_part n + pos_part when + neg_part later
          → (if eqb_ℤ when (pos 0) then negsuc 0 else if leb_ℤ n (pos 0) then negsuc 0 else n) ≡ n
      later_than when later n p lt parts = ground arith

      left :
          (when later : ℤ)
          → IsInt64 when
          → pos 0 ≤ℤ later
          → later <ℤ when
          → remaining later when ≡ when -ℤ later
      left when later i p lt =
          rw (wrap64-id (when -ℤ later) (fits when later i p lt))
            (later_than when later (when -ℤ later) p lt (-ℤ_parts when later))

  -- `GetRange` of a key of an allowed size never panics, whatever the two indexes are.
  pub get_range_of_no_panic :
      (key : Bytes) (start end : ℤ)
      → check_key_size key ≡ ok tt
      → (get_range_of d e key start end s).0 ≢ err panic
  unfolding get_range_of
  get_range_of_no_panic key start end kh =
      let v = bytes_of (look m s (kv m e key)) in
      let n = pos (length v) in
      let (from, to, last) = get_range_bounds start end (length v) in
      rw (kh, m.get_row)
        (elim (Bool-cases (ltb_ℤ (get_range start end n).1 (get_range start end n).0)) [
          | inl e ↦ rw e (λ p. cc)
          | inr e ↦ rw e (
              kept _ (
                slice_no_panic v (get_range start end n).0 (get_range start end n).1 from to last
                  e))
        ])
    where
      kept : (r : Result Bytes) → r ≢ err panic → ((lift r >>= λ v. pure (some v)) s).0 ≢ err panic
      kept (ok v) ne p = cc
      kept (err x) ne p = ne (cc)
