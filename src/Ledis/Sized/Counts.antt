-- ===== src/Ledis/Sized/Counts.antt =====
-- What a change of a size record leaves pending.
use ledisdb.Base.{ℕ, ◌<◌, ◌≡◌, ap, ◌∙◌, false, none, arith}
use ledisdb.Base.Int.{ℤ, pos, ◌+ℤ◌, leb_ℤ, wrap64}
use ledisdb.Error.{ok}
use ledisdb.Bytes.{Bytes}
use ledisdb.Key.Sorted.{exp_encode_meta_key}
use ledisdb.Store.{Driver, batch_put, batch_delete}
use ledisdb.Store.Map.{IsOrderedMap}
use ledisdb.Ledis.{Env, State}
use ledisdb.Ledis.Commit.{look}
use ledisdb.Ledis.Value.{put_int64, int64}
use ledisdb.Ledis.Ttl.{rm_expire}
use ledisdb.Ledis.Sized.{Sized, store_size, incr_size}

module _ {S I : Type 0} {d : Driver S I} (m : IsOrderedMap d) (e : Env) (k : Sized) (key : Bytes)
    (s : State S) where
  pub incr_size_some :
      (n delta : ℤ) (more : ℕ)
      → int64 (ok (look m s (k.size_key e.db key))) ≡ ok n
      → wrap64 (n +ℤ delta) ≡ pos more
      → 0 < more
      → incr_size d e k key delta s ≡ (
        ok (pos more),
        record s { batch = batch_put (k.size_key e.db key) (put_int64 (pos more)) s.batch },
      )
  unfolding incr_size store_size
  incr_size_some n delta more h w lt =
      let left : leb_ℤ (pos more) (pos 0) ≡ false = ground arith in
      rw (m.get_row s.store (k.size_key e.db key), h, w, left)

  pub incr_size-none :
      (n delta : ℤ)
      → int64 (ok (look m s (k.size_key e.db key))) ≡ ok n
      → wrap64 (n +ℤ delta) ≡ pos 0
      → look m s (exp_encode_meta_key e.db k.data_type key) ≡ none
      → incr_size d e k key delta s
        ≡ (ok (pos 0), record s { batch = batch_delete (k.size_key e.db key) s.batch })
  unfolding incr_size store_size rm_expire
  incr_size-none n delta h w no_time = rw (
    m.get_row s.store (k.size_key e.db key),
    h,
    w,
    m.get_row s.store (exp_encode_meta_key e.db k.data_type key) ∙ ap ok no_time,
  )
