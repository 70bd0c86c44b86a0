-- ===== src/Ledis/Lists/Queue.antt =====
-- A list as a queue: what `RPush` and `LPop` of ledis/t_list.go do to the sequence that is stored.
use ledisdb.Base.{
  ℕ, ◌+◌, ◌-◌, ◌^◌, ◌≤◌, ◌<◌, ◌≡◌, ◌≢◌, refl, sym, ap, ◌∙◌, true, false, ◌||◌, some, List, [], ◌∷◌,
  ◌++◌, length, length-append, get_elem?, if◌then◌else◌, arith,
}
use native.Mathlib.Decide.{dec_lt}
use ledisdb.Base.Int.{pos, ◌+ℤ◌, leb_ℤ, ltb_ℤ, eqb_ℤ, wrap32, wrap32-id}
use ledisdb.Error.{ok}
use ledisdb.Bytes.{Bytes, equal_bytes}
use ledisdb.Bytes.Compare.{equal_bytes_refl}
use ledisdb.Key.{check_key_size}
use ledisdb.Key.Plain.{l_encode_meta_key}
use ledisdb.Key.Sorted.{l_encode_list_key}
use ledisdb.Key.RoundTrip.Members.{check_key_size-lt}
use ledisdb.Key.Record.{encode, list_item, list_meta}
use ledisdb.Key.Record.Distinct.{equal_bytes-encode_ne}
use ledisdb.Store.{Driver, replay, batch_put}
use ledisdb.Store.Map.{IsOrderedMap}
use ledisdb.Ledis.{Env, State}
use ledisdb.Ledis.Commit.{
  CanCommit, IsReady, commit_ok, look, committed, finished, look-finished, finished-IsReady,
}
use ledisdb.Ledis.Lists.{
  tail, meta_value, l_get_meta, l_set_meta, l_push, push_elements, put_elements, list_min_seq,
  list_max_seq,
}
use ledisdb.Ledis.Lists.MetaRecord.{wrap_add, wrap_sub, meta_round, get_elem?-front, get_elem?-last}

module _ {S I : Type 0} {d : Driver S I} (m : IsOrderedMap d) (e : Env) (key : Bytes) where
  abbrev pub meta_key : Bytes
  meta_key = l_encode_meta_key e.db key

  abbrev pub item_key : ℕ → Bytes
  item_key n = l_encode_list_key e.db key (pos n)

  -- The elements stand under consecutive sequence numbers from `first` on, inside the bounds, and the
  -- meta record holds the first and the last number.
  pub record IsQueue (s : State S) (first : ℕ) (xs : List Bytes) : Type 0 where
    pub some_items : 0 < length xs
    pub meta : look m s meta_key ≡ some (meta_value (pos first) (pos (first + length xs - 1)))
    pub items : (i : ℕ) → i < length xs → look m s (item_key (first + i)) ≡ get_elem? xs i
    pub low : 1000 < first
    pub high : first + length xs ≤ 2 ^ 31 - 1000

  pub meta_of :
      (s : State S) (first : ℕ) (xs : List Bytes)
      → IsQueue s first xs
      → l_get_meta d e meta_key s ≡ (
        ok (record {
          head_seq = pos first;
          tail_seq = pos (first + length xs - 1);
          size = pos (length xs);
        }),
        s,
      )
  unfolding l_get_meta
  meta_of s first xs q =
      let n : first + length xs - 1 - first + 1 ≡ length xs = omega (arith, q.some_items) in
      rw (
        m.get_row s.store meta_key ∙ ap ok q.meta,
        meta_round first (first + length xs - 1) (omega (arith, q.some_items))
            (omega (arith, q.high)) (omega (arith, q.high)),
        n,
      )

  -- What `RPush` of one element has pending.
  abbrev pushing : ℕ → ℕ → Bytes → State S → State S
  pushing first n x s = record s {
    batch =
        batch_put meta_key (meta_value (pos first) (pos (first + n)))
          (batch_put (item_key (first + n)) x s.batch);
  }

  pushing-CanCommit :
      (first n : ℕ) (x : Bytes) (s : State S) → IsReady s → CanCommit (pushing first n x s)
  pushing-CanCommit first n x s r = record {
    writable = r.can_commit.writable;
    caught_up = r.can_commit.caught_up;
  }

  pub set_meta_run :
      (s : State S) (h t : ℕ)
      → h ≤ t
      → t + 1 < 2 ^ 31
      → l_set_meta d e meta_key (pos h) (pos t) s ≡ (
        ok (pos (t - h + 1)),
        record s { batch = batch_put meta_key (meta_value (pos h) (pos t)) s.batch },
      )
  unfolding l_set_meta
  set_meta_run s h t le fits =
      let more : ltb_ℤ (pos (t - h + 1)) (pos 0) ≡ false = ground arith in
      let some_left : eqb_ℤ (pos (t - h + 1)) (pos 0) ≡ false = ground arith in
      rw (wrap_sub t h le (omega arith), wrap_add (t - h) 1 (omega arith), more, some_left)

  push_elements_run :
      (s : State S) (first n : ℕ) (x : Bytes)
      → IsReady s
      → 0 < n
      → 1000 < first
      → first + n < 2 ^ 31 - 1000
      → push_elements d e key tail
          (record { head_seq = pos first; tail_seq = pos (first + n - 1); size = pos n })
          (x ∷ [])
          s
        ≡ (ok (pos (n + 1)), committed d m e.now (pushing first n x s))
  unfolding push_elements put_elements
  push_elements_run s first n x r some_items low room =
      let t : State S = record s { batch = batch_put (item_key (first + n)) x s.batch } in
      let more : ltb_ℤ (pos 0) (pos n) ≡ true = ground arith in
      let next : wrap32 (pos (first + n - 1) +ℤ pos 1) ≡ pos (first + n) =
        wrap_add (first + n - 1) 1 (omega arith) ∙ ap pos (omega arith) in
      let nothing : wrap32 (pos 0) ≡ pos 0 = wrap32-id (pos 0) (omega arith) in
      let last : wrap32 (pos (first + n) +ℤ pos 0) ≡ pos (first + n) =
        wrap_add (first + n) 0 (omega arith) ∙ ap pos (omega arith) in
      let in_bounds : (leb_ℤ (pos (first + n)) list_min_seq || leb_ℤ list_max_seq (pos (first + n)))
          ≡ false =
        ground arith in
      let count : pos n +ℤ pos 1 ≡ pos (n + 1) = unfold ◌+ℤ◌ in ground arith in
      rw (
        more,
        next,
        nothing,
        last,
        in_bounds,
        set_meta_run t first (first + n) (omega arith) (omega arith),
        commit_ok d m e.now (pushing first n x s) (pushing-CanCommit first n x s r),
        count,
      )

  push_run :
      (s : State S) (first : ℕ) (xs : List Bytes) (x : Bytes)
      → IsReady s
      → check_key_size key ≡ ok tt
      → IsQueue s first xs
      → first + length xs < 2 ^ 31 - 1000
      → l_push d e key tail (x ∷ []) s
        ≡ (ok (pos (length xs + 1)), finished m e.now (pushing first (length xs) x s))
  unfolding l_push
  push_run s first xs x r kh q room =
      rw (
        kh,
        meta_of s first xs q,
        push_elements_run s first (length xs) x r q.some_items q.low room,
      )

  look-pushing :
      (s : State S) (first n : ℕ) (x : Bytes) (k : Bytes)
      → IsReady s
      → look m (finished m e.now (pushing first n x s)) k ≡ (
          if equal_bytes meta_key k
          then some (meta_value (pos first) (pos (first + n)))
          else if equal_bytes (item_key (first + n)) k
          then some x
          else look m s k)
  look-pushing s first n x k r =
      look-finished m e.now (pushing first n x s) k ∙ unfold batch_put replay in rw r.idle

  pub meta-item :
      check_key_size key ≡ ok tt → (i : ℕ) → i < 2 ^ 31 → equal_bytes meta_key (item_key i) ≡ false
  unfolding encode
  meta-item kh i h =
      equal_bytes-encode_ne e.db (list_meta key) (list_item key (pos i)) tt
        (check_key_size-lt key kh, omega arith) (λ p. cc)

  pub item-meta :
      check_key_size key ≡ ok tt → (i : ℕ) → i < 2 ^ 31 → equal_bytes (item_key i) meta_key ≡ false
  unfolding encode
  item-meta kh i h =
      equal_bytes-encode_ne e.db (list_item key (pos i)) (list_meta key)
        (check_key_size-lt key kh, omega arith) tt (λ p. cc)

  pub item-item :
      check_key_size key ≡ ok tt
      → (i j : ℕ) → i < 2 ^ 31
      → j < 2 ^ 31
      → i ≢ j
      → equal_bytes (item_key i) (item_key j) ≡ false
  unfolding encode
  item-item kh i j hi hj ne =
      equal_bytes-encode_ne e.db (list_item key (pos i)) (list_item key (pos j))
        (check_key_size-lt key kh, omega arith) (check_key_size-lt key kh, omega arith)
        (λ p. ne (cc))

  -- Between two handlers, for a key of an allowed size, `RPush` of one element to a list that is there, and that has room at its end, returns the new
  -- length and leaves the list with the element at its end; the next handler can run.
  pub r_push_lem :
      (s : State S) (first : ℕ) (xs : List Bytes) (x : Bytes)
      → IsReady s
      → check_key_size key ≡ ok tt
      → IsQueue s first xs
      → first + length xs < 2 ^ 31 - 1000
      → ((l_push d e key tail (x ∷ []) s).0 ≡ ok (pos (length xs + 1)))
        × IsQueue (l_push d e key tail (x ∷ []) s).1 first (xs ++ x ∷ [])
        × IsReady (l_push d e key tail (x ∷ []) s).1
  r_push_lem s first xs x r kh q room = rw (push_run s first xs x r kh q room) (
    refl,
    queue,
    finished-IsReady m e.now (pushing first (length xs) x s)
        (pushing-CanCommit first (length xs) x s r),
  )
    where
      longer : length (xs ++ x ∷ []) ≡ length xs + 1
      longer = length-append {0} xs (x ∷ [])

      item :
          (i : ℕ)
          → i < length (xs ++ x ∷ [])
          → look m (finished m e.now (pushing first (length xs) x s)) (item_key (first + i))
            ≡ get_elem? (xs ++ x ∷ []) i
      item i h = elim (dec_lt i (length xs)) [
        | yes p ↦
            look-pushing s first (length xs) x (item_key (first + i)) r
            ∙ rw
                (
                  meta-item kh (first + i) (omega (arith, room)),
                  item-item kh (first + length xs) (first + i) (omega (arith, room))
                      (omega (arith, room)) (λ w. omega arith),
                )
                (q.items i p ∙ sym (get_elem?-front xs (x ∷ []) i p))
        | no p ↦
            let e' : i ≡ length xs = omega (arith, longer) in
            rw e' (
              look-pushing s first (length xs) x (item_key (first + length xs)) r
              ∙ rw
                  (
                    meta-item kh (first + length xs) (omega (arith, room)),
                    equal_bytes_refl (item_key (first + length xs)),
                  )
                  (sym (get_elem?-last xs x)))
      ]

      queue : IsQueue (finished m e.now (pushing first (length xs) x s)) first (xs ++ x ∷ [])
      queue = record {
        some_items = omega (arith, longer);
        meta =
            look-pushing s first (length xs) x meta_key r
            ∙ rw (equal_bytes_refl meta_key)
                (ap (λ n. some (meta_value (pos first) (pos n))) (omega (arith, longer)));
        items = item;
        low = q.low;
        high = omega (arith, longer, room);
      }
