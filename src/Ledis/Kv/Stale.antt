-- ===== src/Ledis/Kv/Stale.antt =====
-- A second `Expire` leaves the time record of the first one behind (ledis/t_ttl.go, `expireAt`), and
-- the checker reads a missing meta record as a time that is past.
use ledisdb.Base.{
  ◌≡◌, ◌≢◌, refl, sym, ap, ◌∙◌, true, Option, none, some, [], ◌∷◌, ℕ, false, Bool-cases, inl, inr,
  arith, if◌then◌else◌,
}
use ledisdb.Base.Int.{ℤ, pos, IsInt64, leb_ℤ, ltb_ℤ}
use ledisdb.Error.{Result, ok}
use ledisdb.Bytes.{Bytes, equal_bytes}
use ledisdb.Bytes.Compare.{equal_bytes_refl}
use ledisdb.Key.{check_key_size, kv_type}
use ledisdb.Key.RoundTrip.Numbers.{exp_time_round}
use ledisdb.Store.{Driver}
use ledisdb.Store.Map.{IsOrderedMap}
use ledisdb.Ledis.{Env, State, M}
use ledisdb.Ledis.Commit.{IsReady, look, finished, finished-IsReady}
use ledisdb.Ledis.Value.{int64, put_int64}
use ledisdb.Ledis.Ttl.{check_rows, run_callback}
use ledisdb.Ledis.Kv.{set_expire_at, persist, delete_kv}
use ledisdb.Ledis.Kv.Expiry.{
  kv, mk, tk, mk-kv, tk-kv, tk-mk, mk-tk, tk-tk, expiring, expiring-CanCommit, set_expire_run,
  look-expiring, persisting, persisting-CanCommit, persist_run, look-persisting, drop_run, dropping,
  look-dropping,
}

module _ {S I : Type 0} {d : Driver S I} (m : IsOrderedMap d) (e : Env) (key : Bytes) (s : State S)
    (ready : IsReady s) (kh : check_key_size key ≡ ok tt) (v : Bytes)
    (there : look m s (kv m e key) ≡ some v) (w x : ℤ) (w_fits : IsInt64 w) (x_fits : IsInt64 x)
    (other : w ≢ x) where
  -- The states after `EXPIREAT key w`, `EXPIREAT key x` and `PERSIST key`.
  abbrev once : State S
  once = (set_expire_at d e key w s).1

  abbrev twice : State S
  twice = (set_expire_at d e key x once).1

  abbrev persisted : State S
  persisted = (persist d e key twice).1

  abbrev once' : State S
  once' = finished m e.now (expiring m e key w s)

  abbrev twice' : State S
  twice' = finished m e.now (expiring m e key x once')

  abbrev persisted' : State S
  persisted' = finished m e.now (persisting m e key x twice')

  once-IsReady : IsReady once'
  once-IsReady = finished-IsReady m e.now _ (expiring-CanCommit m e key w s ready)

  once_kv : look m once' (kv m e key) ≡ some v
  once_kv =
      look-expiring m e key w s (kv m e key) ready
      ∙ rw (mk-kv m e key, tk-kv m e key w w_fits, there)

  twice-IsReady : IsReady twice'
  twice-IsReady = finished-IsReady m e.now _ (expiring-CanCommit m e key x once' once-IsReady)

  twice_mk : look m twice' (mk m e key) ≡ some (put_int64 x)
  twice_mk =
      look-expiring m e key x once' (mk m e key) once-IsReady ∙ rw (equal_bytes_refl (mk m e key))

  persisted-IsReady : IsReady persisted'
  persisted-IsReady =
      finished-IsReady m e.now _ (persisting-CanCommit m e key x twice' twice-IsReady)

  run : persisted ≡ persisted'
  run =
      ap (λ t. (persist d e key (set_expire_at d e key x t.1).1).1)
        (set_expire_run m e key w s v ready kh there)
      ∙ ap (λ t. (persist d e key t.1).1) (set_expire_run m e key x once' v once-IsReady kh once_kv)
      ∙ ap (λ t. t.1) (persist_run m e key x twice' twice-IsReady kh x_fits twice_mk)

  look_twice :
      (k : Bytes)
      → look m twice' k ≡ (
          if equal_bytes (mk m e key) k
          then some (put_int64 x)
          else if equal_bytes (tk m e key x) k
          then some (mk m e key)
          else look m once' k)
  look_twice k = look-expiring m e key x once' k once-IsReady

  -- `Persist` removes the time record of the second time only.
  persisted_mk : look m persisted' (mk m e key) ≡ none
  persisted_mk =
      look-persisting m e key x twice' (mk m e key) twice-IsReady
      ∙ rw (tk-mk m e key x x_fits, equal_bytes_refl (mk m e key))

  persisted_tk : look m persisted' (tk m e key w) ≡ some (mk m e key)
  persisted_tk =
      look-persisting m e key x twice' (tk m e key w) twice-IsReady
      ∙ rw (
        tk-tk m e key x w x_fits w_fits (λ p. other (sym p)),
        mk-tk m e key w w_fits,
        look_twice (tk m e key w),
        mk-tk m e key w w_fits,
        tk-tk m e key x w x_fits w_fits (λ p. other (sym p)),
        look-expiring m e key w s (tk m e key w) ready,
        mk-tk m e key w w_fits,
        equal_bytes_refl (tk m e key w),
      )

  persisted_kv : look m persisted' (kv m e key) ≡ some v
  persisted_kv =
      look-persisting m e key x twice' (kv m e key) twice-IsReady
      ∙ rw (
        tk-kv m e key x x_fits,
        mk-kv m e key,
        look_twice (kv m e key),
        mk-kv m e key,
        tk-kv m e key x x_fits,
        once_kv,
      )

  module _ (cbs : ℕ → Option (Bytes → M S (Unit {0})))
      (callback : cbs kv_type ≡ some (delete_kv d e)) (nc later : ℤ) where
    -- The loop of the checker, at the time `later` and at the time record of the first expiration
    abbrev round : State S → Result ℤ × State S
    round = check_rows d (record e { now = later }) cbs nc ((tk m e key w, mk m e key) ∷ [])

    round_before : (t : State S) → ltb_ℤ later w ≡ true → round t ≡ (ok w, t)
    unfolding check_rows
    round_before t early = ground (arith, exp_time_round e.db kv_type key w w_fits, early)

    round_from :
        ltb_ℤ later w ≡ false
        → leb_ℤ (pos 0) later ≡ true
        → round persisted' ≡ (ok nc, finished m later (dropping m e key w persisted'))
    unfolding check_rows run_callback
    round_from due past =
        let zero_time : int64 (d.get persisted'.store (mk m e key)) ≡ ok (pos 0) =
          rw (m.get_row, persisted_mk) (unfold int64 in refl) in
        ground (
          arith,
          exp_time_round e.db kv_type key w w_fits,
          due,
          callback,
          drop_run m e key later w (pos 0) persisted' persisted-IsReady zero_time past,
        )

    dropped_kv : look m (finished m later (dropping m e key w persisted')) (kv m e key) ≡ none
    dropped_kv =
        look-dropping m e key later w persisted' (kv m e key) persisted-IsReady
        ∙ rw (mk-kv m e key, tk-kv m e key w w_fits, equal_bytes_refl (kv m e key))

    -- For a key of an allowed size with a value, after two expirations at different times and a `Persist`, the value is
    -- there and has no expiration any more, but the time record of the first expiration is left. The loop of
    -- the checker over that one record, at a time from 1970 on, with the callback that deletes values: before the time of
    -- the first expiration it leaves the value, and gives that time for the next check; from that time on it
    -- deletes the value.
    pub stale_time_record :
        leb_ℤ (pos 0) later ≡ true
        → (look m persisted (kv m e key) ≡ some v)
          × (look m persisted (mk m e key) ≡ none)
          × (look m persisted (tk m e key w) ≡ some (mk m e key))
          × (look m (round persisted).1 (kv m e key) ≡ (if ltb_ℤ later w then some v else none))
          × ((round persisted).0 ≡ ok (if ltb_ℤ later w then w else nc))
    stale_time_record past = elim (Bool-cases (ltb_ℤ later w)) [
      | inl early ↦
          rw (run, round_before persisted' early, early)
            (persisted_kv, persisted_mk, persisted_tk, persisted_kv, refl)
      | inr due ↦
          rw (run, round_from due past, due)
            (persisted_kv, persisted_mk, persisted_tk, dropped_kv, refl)
    ]
