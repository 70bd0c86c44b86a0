-- ===== src/Ledis/Ttl.antt =====
-- ledis/t_ttl.go: expirations. A key that expires has a meta record with its time, and a record sorted
-- by the time that names the meta record; the checker walks the latter.
use ledisdb.Base.{ℕ, Bool, true, false, Option, none, some, List, [], ◌∷◌, if◌then◌else◌}
use ledisdb.Base.Int.{ℤ, pos, negsuc, ◌+ℤ◌, ◌-ℤ◌, ltb_ℤ, leb_ℤ, eqb_ℤ, wrap64}
use ledisdb.Error.{ok, err}
use ledisdb.Bytes.{Bytes}
use ledisdb.Key.{none_type, max_data_type}
use ledisdb.Key.Sorted.{exp_encode_time_key, exp_encode_meta_key, exp_decode_time_key}
use ledisdb.Store.{Driver}
use ledisdb.Store.Iterator.{range_r_open, range_limit_iterator, forward, no_limit, range_rows}
use ledisdb.Ledis.{Env, M, pure, lift, put, delete, locked, bucket_get, commit, ◌>>=◌, ◌>>◌}
use ledisdb.Ledis.Value.{put_int64, int64}

module _ {S : Type 0} where
  -- `setNextCheckTime`
  unfoldable pub set_next_check_time : ℤ → Bool → M S (Unit {0})
  set_next_check_time when force s = (
    ok tt,
    record s {
      next_check = if force then when else if ltb_ℤ when s.next_check then when else s.next_check;
    },
  )

  unfoldable pub expire_at : Env → ℕ → Bytes → ℤ → M S (Unit {0})
  unfolding set_next_check_time
  expire_at e data_type key when = do
    let mk = exp_encode_meta_key e.db data_type key
    let tk = exp_encode_time_key e.db data_type key when
    put tk mk
    put mk (put_int64 when)
    set_next_check_time when false

-- What the clock leaves of an expiration: -1 without one, or after it.
abbrev pub remaining : ℤ → ℤ → ℤ
remaining now t =
    let left = wrap64 (t -ℤ now) in
    if eqb_ℤ t (pos 0) then negsuc 0 else if leb_ℤ left (pos 0) then negsuc 0 else left

module _ {S I : Type 0} (d : Driver S I) where
  -- `Int64(db.bucket.Get(key))`
  abbrev pub get_int64 : Bytes → M S ℤ
  get_int64 key s = (int64 (d.get s.store key), s)

  unfoldable pub ttl : Env → ℕ → Bytes → M S ℤ
  ttl e data_type key = do
    t ← get_int64 (exp_encode_meta_key e.db data_type key)
    pure (remaining e.now t)

  remove_both : Bytes → Bytes → M S ℤ
  remove_both mk tk = do delete mk; delete tk; pure (pos 1)

  rm_found : Env → ℕ → Bytes → Bytes → Option Bytes → M S ℤ
  unfolding remove_both
  rm_found e data_type key mk none = pure (pos 0)
  rm_found e data_type key mk (some v) = do
    when ← lift (int64 (ok (some v)))
    remove_both mk (exp_encode_time_key e.db data_type key when)

  -- Only the time record of the time in the meta record is removed.
  unfoldable pub rm_expire : Env → ℕ → Bytes → M S ℤ
  unfolding rm_found
  rm_expire e data_type key = do
    let mk = exp_encode_meta_key e.db data_type key
    v ← bucket_get d mk
    rm_found e data_type key mk v

  -- The handlers ignore an error of `rmExpire` where they delete.
  abbrev pub ignore : {A : Type 0} → M S A → M S (Unit {0})
  ignore m s = (ok tt, (m s).1)

  -- At a record whose time has come: the meta record is read again, and the callback of the type deletes.
  unfoldable pub expire_row :
      Env → (Bytes → M S (Unit {0})) → Bytes → Bytes → Bytes → M S (Unit {0})
  expire_row e cb tk mk key = locked (λ s. elim (int64 (d.get s.store mk)) [
    | err x ↦ (ok tt, s)
    | ok exp ↦
        if leb_ℤ exp e.now
        then (do cb key; delete tk; delete mk; ignore (commit d e.now)) s
        else (ok tt, s)
  ])

  unfoldable pub run_callback :
      Env → Option (Bytes → M S (Unit {0})) → Bytes → Bytes → Bytes → M S (Unit {0})
  unfolding expire_row
  run_callback e none tk mk key = pure tt
  run_callback e (some cb) tk mk key = expire_row e cb tk mk key

  -- The loop over the time records: it ends at the first that is still to come, and gives the time of
  -- the next check.
  unfoldable pub check_rows :
      Env → (ℕ → Option (Bytes → M S (Unit {0}))) → ℤ → List (Bytes × Bytes) → M S ℤ
  unfolding run_callback
  check_rows e cbs nc [] = pure nc
  check_rows e cbs nc ((tk, mk) ∷ rows) =
      let rest = check_rows e cbs nc rows in
      elim (exp_decode_time_key e.db tk) [
        | err x ↦ rest
        | ok (dt, key, nt) ↦
            if ltb_ℤ e.now nt then pure nt else (run_callback e (cbs dt) tk mk key >> rest)
      ]

  -- `check`, with the callbacks that are registered for the types.
  unfoldable pub check : Env → (ℕ → Option (Bytes → M S (Unit {0}))) → M S (Unit {0})
  unfolding check_rows
  check e cbs s =
      if ltb_ℤ e.now s.next_check
      then (ok tt, s)
      else (do
        let nc = wrap64 (e.now +ℤ pos 3600)
        let min = exp_encode_time_key e.db none_type [] (pos 0)
        let max = exp_encode_time_key e.db max_data_type [] nc
        let rows = range_rows d e.fuel (
            range_limit_iterator d (d.new_iterator s.store)
              (record { min = some min; max = some max; type = range_r_open }) (no_limit d) forward)
        next ← check_rows e cbs nc rows
        set_next_check_time next true)
          s
