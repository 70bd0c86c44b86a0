-- ===== src/Ledis/Hash/Fields.antt =====
-- The scan over the fields of a hash, and what `HClear` of ledis/t_hash.go removes.
use ledisdb.Base.{
  ℕ, ◌+◌, ◌≤◌, ◌≡◌, ◌↔◌, refl, sym, ap, ◌∙◌, Bool, true, false, ◌||◌, Option, none, some, List, [],
  ◌∷◌, length, if◌then◌else◌, arith,
}
use ledisdb.Base.Int.{pos, negsuc}
use ledisdb.Error.{ok}
use ledisdb.Bytes.{Bytes, equal_bytes}
use ledisdb.Bytes.Compare.{equal_bytes_iff, equal_bytes_refl}
use ledisdb.Key.{check_key_size, hash_type}
use ledisdb.Key.Plain.{h_encode_size_key}
use ledisdb.Key.Member.{
  h_encode_hash_key, h_encode_start_key, h_encode_stop_key, member_key, member_stop_key,
}
use ledisdb.Key.Range.{member_range}
use ledisdb.Key.Sorted.{exp_encode_meta_key}
use ledisdb.Key.RoundTrip.Members.{check_key_size-lt}
use ledisdb.Key.Record.{Record, Fits, encode, hash_field, hash_size}
use ledisdb.Key.Record.Distinct.{encode-injective}
use ledisdb.Store.{Driver, replay, batch_delete}
use ledisdb.Store.Map.{Row, IsOrderedMap, find_row}
use ledisdb.Store.Iterator.{Range, range_r_open}
use ledisdb.Store.Rows.{rows_in_range, cap}
use ledisdb.Store.Range.{range_rows_lem}
use ledisdb.Ledis.{Env, State}
use ledisdb.Ledis.Commit.{
  CanCommit, IsReady, commit_ok, look, finished, look-finished, finished-IsReady,
}
use ledisdb.Ledis.Ttl.{rm_expire}
use ledisdb.Ledis.Kv.{is_some}
use ledisdb.Ledis.Sized.{delete_rows}
use ledisdb.Ledis.Hash.{hash_rows, h_delete, h_clear}
use ledisdb.Store.Scan.{
  in_range, find_rows_in_range, at_least_iff, below_lt, lt_below, and_left, and_right, both,
  same_bool, replay-delete, drop_rows, replay-drop_rows,
}

-- The records of one hash: its fields and its size.
abbrev is_field : Bytes → Record → Bool
is_field key (hash_field k f) = equal_bytes k key
is_field key r = false

abbrev is_size : Bytes → Record → Bool
is_size key (hash_size k) = equal_bytes k key
is_size key r = false

abbrev pub of_hash : Bytes → Record → Bool
of_hash key r = is_size key r || is_field key r

is_field-shape :
    (key : Bytes) (r : Record) → is_field key r ≡ true → (f : Bytes) × (r ≡ hash_field key f)
is_field-shape key (hash_field k f) h = (f, ap (λ x. hash_field x f) ((equal_bytes_iff k key).0 h))
is_field-shape key r h = absurd (cc)

is_size-shape : (key : Bytes) (r : Record) → is_size key r ≡ true → r ≡ hash_size key
is_size-shape key (hash_size k) h = ap (λ x. hash_size x) ((equal_bytes_iff k key).0 h)
is_size-shape key r h = absurd (cc)

module _ {S I : Type 0} {d : Driver S I} (m : IsOrderedMap d) (e : Env) (key : Bytes) where
  abbrev fields : Range
  fields = record {
    min = some (h_encode_start_key e.db key);
    max = some (h_encode_stop_key e.db key);
    type = range_r_open;
  }

  in_range_iff :
      (ek : Bytes)
      → (in_range fields ek ≡ true) ↔ ((f : Bytes) × (ek ≡ h_encode_hash_key e.db key f))
  unfolding h_encode_start_key h_encode_stop_key h_encode_hash_key
  in_range_iff ek =
      let (to, back) = at_least_iff ek (member_key hash_type e.db key []) in
      let (inside, outside) = member_range hash_type e.db key ek in
      (
        (λ h. inside (
          to (and_left _ _ h),
          below_lt ek (member_stop_key hash_type e.db key) (and_right _ _ h),
        )),
        (λ h.
            both (back (outside h).0)
              (lt_below ek (member_stop_key hash_type e.db key) (outside h).1)),
      )

  delete_rows_run :
      (n : ℕ) (rows : List Row) (t : State S)
      → delete_rows n rows t ≡ (ok (n + length rows), record t { batch = drop_rows rows t.batch })
  unfolding delete_rows
  delete_rows_run n [] t = ap (λ l. (ok l, t)) (omega arith)
  delete_rows_run n ((k, v) ∷ rows) t =
      delete_rows_run (n + 1) rows (record t { batch = batch_delete k t.batch })
      ∙ ap (λ l. (ok l, record t { batch = drop_rows rows (batch_delete k t.batch) })) (omega arith)

  module _ (short : check_key_size key ≡ ok tt) (r : Record) (fits : Fits r) where
    in_range-encode : in_range fields (encode e.db r) ≡ is_field key r
    in_range-encode = same_bool _ _ found there
      where
        found : in_range fields (encode e.db r) ≡ true → is_field key r ≡ true
        found h =
            let (f, q) = (in_range_iff (encode e.db r)).0 h in
            rw
              (encode-injective e.db r (hash_field key f) fits (check_key_size-lt key short)
                (unfold encode in q))
              (equal_bytes_refl key)

        there : is_field key r ≡ true → in_range fields (encode e.db r) ≡ true
        there g =
            let (f, q) = is_field-shape key r g in
            (in_range_iff (encode e.db r)).1 (f, ap (encode e.db) q ∙ unfold encode in refl)

    size-encode : equal_bytes (h_encode_size_key e.db key) (encode e.db r) ≡ is_size key r
    size-encode = same_bool _ _ found there
      where
        size_key : encode e.db (hash_size key) ≡ h_encode_size_key e.db key
        size_key = unfold encode in refl

        found :
            equal_bytes (h_encode_size_key e.db key) (encode e.db r) ≡ true → is_size key r ≡ true
        found h =
            rw
              (encode-injective e.db r (hash_size key) fits tt (
                sym
                  (size_key ∙ (equal_bytes_iff (h_encode_size_key e.db key) (encode e.db r)).0 h)))
              (equal_bytes_refl key)

        there :
            is_size key r ≡ true → equal_bytes (h_encode_size_key e.db key) (encode e.db r) ≡ true
        there g =
            rw (is_size-shape key r g, size_key) (equal_bytes_refl (h_encode_size_key e.db key))

  -- What `HClear` has pending.
  abbrev clearing : State S → State S
  clearing s = record s {
    batch = batch_delete (h_encode_size_key e.db key) (drop_rows (hash_rows d e key s) s.batch);
  }

  clearing-CanCommit : (s : State S) → IsReady s → CanCommit (clearing s)
  clearing-CanCommit s r = record {
    writable = r.can_commit.writable;
    caught_up = r.can_commit.caught_up;
  }

  h_delete_run :
      (s : State S) → h_delete d e key s ≡ (ok (pos (length (hash_rows d e key s))), clearing s)
  unfolding h_delete
  h_delete_run s =
      let zero_rows : 0 + length (hash_rows d e key s) ≡ length (hash_rows d e key s) =
        omega arith in
      rw (delete_rows_run 0 (hash_rows d e key s) s, zero_rows)

  h_clear_run :
      (s : State S)
      → IsReady s
      → check_key_size key ≡ ok tt
      → look m s (exp_encode_meta_key e.db hash_type key) ≡ none
      → h_clear d e key s ≡ (ok (pos (length (hash_rows d e key s))), finished m e.now (clearing s))
  unfolding h_clear rm_expire
  h_clear_run s r kh h = rw (
    kh,
    h_delete_run s,
    m.get_row s.store (exp_encode_meta_key e.db hash_type key) ∙ ap ok h,
    commit_ok d m e.now (clearing s) (clearing-CanCommit s r),
  )

  hash_rows_run :
      (s : State S)
      → length (m.rows s.store) ≤ e.fuel
      → hash_rows d e key s ≡ rows_in_range fields (m.rows s.store)
  unfolding hash_rows cap
  hash_rows_run s h =
      let i = d.new_iterator s.store in
      range_rows_lem d m i fields 0 (negsuc 0) e.fuel (rw (m.all_new s.store) (m.sorted s.store))
        (rw (m.all_new s.store) h)
      ∙ ap (rows_in_range fields) (m.all_new s.store)

  -- For a key of an allowed size, the scan behind `HGetAll`, with fuel for each row of the store, holds the fields of its hash with
  -- their values, and no other record of the database.
  pub hash_rows_lem :
      (s : State S) (r : Record)
      → check_key_size key ≡ ok tt
      → Fits r
      → length (m.rows s.store) ≤ e.fuel
      → find_row (encode e.db r) (hash_rows d e key s)
        ≡ (if is_field key r then look m s (encode e.db r) else none)
  hash_rows_lem s r kh fits h =
      rw (hash_rows_run s h) (
        find_rows_in_range fields (encode e.db r) (m.rows s.store) ∙ rw (in_range-encode kh r fits))

  -- Between two handlers, `HClear` of a hash without an expiration and with a key of an allowed size, with fuel for each row of the store, removes the fields
  -- and the size of that hash, and changes no other record of the database; the next handler can run.
  pub h_clear_lem :
      (s : State S) (r : Record)
      → IsReady s
      → check_key_size key ≡ ok tt
      → Fits r
      → length (m.rows s.store) ≤ e.fuel
      → look m s (exp_encode_meta_key e.db hash_type key) ≡ none
      → (look m (h_clear d e key s).1 (encode e.db r)
          ≡ (if of_hash key r then none else look m s (encode e.db r)))
        × IsReady (h_clear d e key s).1
  h_clear_lem s r ready kh fits fuel h =
      rw (h_clear_run s ready kh h)
        (gone, finished-IsReady m e.now (clearing s) (clearing-CanCommit s ready))
    where
      collapse :
          (a b : Bool) (v : Option Bytes)
          → (if a then none else if is_some (if b then v else none) then none else v)
            ≡ (if a || b then none else v)
      collapse a b none = ground arith
      collapse a b (some v) = ground arith

      gone :
          look m (finished m e.now (clearing s)) (encode e.db r)
          ≡ (if of_hash key r then none else look m s (encode e.db r))
      gone =
          look-finished m e.now (clearing s) (encode e.db r)
          ∙ unfold batch_delete in
            rw
              (
                replay-delete (drop_rows (hash_rows d e key s) s.batch).ops
                    (h_encode_size_key e.db key) (encode e.db r) (look m s (encode e.db r)),
                replay-drop_rows (hash_rows d e key s) s.batch (encode e.db r)
                    (look m s (encode e.db r)),
                hash_rows_run s fuel,
                find_rows_in_range fields (encode e.db r) (m.rows s.store),
                size-encode kh r fits,
                in_range-encode kh r fits,
                ready.idle,
              )
              (unfold replay in
                collapse (is_size key r) (is_field key r) (look m s (encode e.db r)))
