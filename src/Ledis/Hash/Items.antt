-- ===== src/Ledis/Hash/Items.antt =====
-- What `HSet` of ledis/t_hash.go returns, and what `HGet` and `HLen` then see.
use ledisdb.Base.{
  ℕ, ◌+◌, ◌^◌, ◌<◌, ◌≡◌, refl, ap, ◌∙◌, false, Option, none, some, if◌then◌else◌, arith,
}
use ledisdb.Base.Int.{pos, ◌+ℤ◌, leb_ℤ, wrap64, wrap64-id}
use ledisdb.Error.{ok}
use ledisdb.Bytes.{Bytes, equal_bytes}
use ledisdb.Bytes.Compare.{equal_bytes_refl}
use ledisdb.Key.{check_key_size, check_value_size, check_hash_kf_size}
use ledisdb.Key.Plain.{h_encode_size_key}
use ledisdb.Key.Member.{h_encode_hash_key}
use ledisdb.Key.RoundTrip.Members.{check_key_size-lt}
use ledisdb.Key.Record.{encode, hash_field, hash_size}
use ledisdb.Key.Record.Distinct.{equal_bytes-encode_ne}
use ledisdb.Store.{Driver, replay, batch_put}
use ledisdb.Store.Map.{IsOrderedMap}
use ledisdb.Ledis.{Env, State}
use ledisdb.Ledis.Commit.{
  CanCommit, IsReady, commit_ok, look, finished, look-finished, finished-IsReady,
}
use ledisdb.Ledis.Value.{put_int64, int64, int64-put_int64}
use ledisdb.Ledis.Kv.{is_some}
use ledisdb.Ledis.Hash.{h_set, h_set_item, h_incr_size, h_get, h_len}

add_one : (n : ℕ) → n + 1 < 2 ^ 63 → wrap64 (pos n +ℤ pos 1) ≡ pos (n + 1)
unfolding ◌+ℤ◌
add_one n h = rw (wrap64-id (pos n +ℤ pos 1) (unfold ◌+ℤ◌ in ground arith)) (ground arith)

module _ {S I : Type 0} {d : Driver S I} (m : IsOrderedMap d) (e : Env) (key field : Bytes) where
  abbrev field_key : Bytes
  field_key = h_encode_hash_key e.db key field

  abbrev size_key : Bytes
  size_key = h_encode_size_key e.db key

  -- What `HSet` has pending for a field that is there, and for a new one.
  abbrev replacing : Bytes → State S → State S
  replacing value s = record s { batch = batch_put field_key value s.batch }

  abbrev adding : Bytes → ℕ → State S → State S
  adding value n s = record s {
    batch = batch_put field_key value (batch_put size_key (put_int64 (pos (n + 1))) s.batch);
  }

  replacing-CanCommit : (value : Bytes) (s : State S) → IsReady s → CanCommit (replacing value s)
  replacing-CanCommit value s r = record {
    writable = r.can_commit.writable;
    caught_up = r.can_commit.caught_up;
  }

  adding-CanCommit :
      (value : Bytes) (n : ℕ) (s : State S) → IsReady s → CanCommit (adding value n s)
  adding-CanCommit value n s r = record {
    writable = r.can_commit.writable;
    caught_up = r.can_commit.caught_up;
  }

  replace_run :
      (s : State S) (value old : Bytes)
      → IsReady s
      → check_hash_kf_size key field ≡ ok tt
      → check_value_size value ≡ ok tt
      → look m s field_key ≡ some old
      → h_set d e key field value s ≡ (ok (pos 0), finished m e.now (replacing value s))
  unfolding h_set h_set_item
  replace_run s value old r kf vh h = rw (
    kf,
    vh,
    m.get_row s.store field_key ∙ ap ok h,
    commit_ok d m e.now (replacing value s) (replacing-CanCommit value s r),
  )

  add_run :
      (s : State S) (value : Bytes) (n : ℕ)
      → IsReady s
      → check_hash_kf_size key field ≡ ok tt
      → check_value_size value ≡ ok tt
      → look m s field_key ≡ none
      → int64 (ok (look m s size_key)) ≡ ok (pos n)
      → n + 1 < 2 ^ 63
      → h_set d e key field value s ≡ (ok (pos 1), finished m e.now (adding value n s))
  unfolding h_set h_set_item h_incr_size
  add_run s value n r kf vh h size room =
      let more : leb_ℤ (pos (n + 1)) (pos 0) ≡ false = ground arith in
      rw (
        kf,
        vh,
        m.get_row s.store field_key ∙ ap ok h,
        m.get_row s.store size_key,
        size,
        add_one n room,
        more,
        commit_ok d m e.now (adding value n s) (adding-CanCommit value n s r),
      )

  field-size : check_key_size key ≡ ok tt → equal_bytes field_key size_key ≡ false
  unfolding encode
  field-size kh =
      equal_bytes-encode_ne e.db (hash_field key field) (hash_size key) (check_key_size-lt key kh)
        tt (λ p. cc)

  -- Between two handlers, `HSet` of a field that is there returns 0 and keeps the length of the hash; of a new one it
  -- returns 1, and the length is one more. `HGet` then gives the value, and the next handler can run.
  -- The keys and the value have allowed sizes, and the length does not overflow.
  pub h_set_lem :
      (s : State S) (value : Bytes) (old : Option Bytes) (n : ℕ)
      → IsReady s
      → check_key_size key ≡ ok tt
      → check_hash_kf_size key field ≡ ok tt
      → check_value_size value ≡ ok tt
      → look m s field_key ≡ old
      → int64 (ok (look m s size_key)) ≡ ok (pos n)
      → n + 1 < 2 ^ 63
      → ((h_set d e key field value s).0 ≡ ok (if is_some old then pos 0 else pos 1))
        × ((h_get d e key field (h_set d e key field value s).1).0 ≡ ok (some value))
        × ((h_len d e key (h_set d e key field value s).1).0
            ≡ ok (pos (if is_some old then n else n + 1)))
        × IsReady (h_set d e key field value s).1
  unfolding h_get h_len
  h_set_lem s value (some old) n r kh kf vh h size room = rw (replace_run s value old r kf vh h) (
    refl,
    rw (kf, m.get_row, seen field_key, equal_bytes_refl field_key),
    rw (kh, m.get_row, seen size_key, field-size kh, size),
    finished-IsReady m e.now (replacing value s) (replacing-CanCommit value s r),
  )
    where
      seen :
          (k : Bytes)
          → look m (finished m e.now (replacing value s)) k
            ≡ (if equal_bytes field_key k then some value else look m s k)
      seen k = look-finished m e.now (replacing value s) k ∙ unfold batch_put replay in rw r.idle
  h_set_lem s value none n r kh kf vh h size room = rw (add_run s value n r kf vh h size room) (
    refl,
    rw (kf, m.get_row, seen field_key, equal_bytes_refl field_key),
    rw (kh, m.get_row, seen size_key, field-size kh, equal_bytes_refl size_key)
        (int64-put_int64 (pos (n + 1)) (omega arith)),
    finished-IsReady m e.now (adding value n s) (adding-CanCommit value n s r),
  )
    where
      seen :
          (k : Bytes)
          → look m (finished m e.now (adding value n s)) k ≡ (
              if equal_bytes field_key k
              then some value
              else if equal_bytes size_key k
              then some (put_int64 (pos (n + 1)))
              else look m s k)
      seen k = look-finished m e.now (adding value n s) k ∙ unfold batch_put replay in rw r.idle
