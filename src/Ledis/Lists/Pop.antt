-- ===== src/Ledis/Lists/Pop.antt =====
-- What `LPop` of ledis/t_list.go takes from the front of a list.
use ledisdb.Base.{
  ℕ, suc, ◌+◌, ◌-◌, ◌^◌, ◌<◌, ◌≡◌, refl, ap, ◌∙◌, false, none, some, List, ◌∷◌, length, get_elem?,
  if◌then◌else◌, arith,
}
use ledisdb.Base.Int.{pos, ◌+ℤ◌, eqb_ℤ, wrap32}
use ledisdb.Error.{ok}
use ledisdb.Bytes.{Bytes, equal_bytes}
use ledisdb.Bytes.Compare.{equal_bytes_refl}
use ledisdb.Key.{check_key_size}
use ledisdb.Store.{Driver, replay, batch_put, batch_delete}
use ledisdb.Store.Map.{IsOrderedMap}
use ledisdb.Ledis.{Env, State}
use ledisdb.Ledis.Commit.{
  CanCommit, IsReady, commit_ok, look, committed, finished, look-finished, finished-IsReady,
}
use ledisdb.Ledis.Lists.{head, meta_value, l_get_meta, l_pop, pop_element}
use ledisdb.Ledis.Lists.Queue.{
  IsQueue, meta_key, item_key, meta_of, set_meta_run, item-item, meta-item,
}
use ledisdb.Ledis.Lists.MetaRecord.{wrap_add}

module _ {S I : Type 0} {d : Driver S I} (m : IsOrderedMap d) (e : Env) (key : Bytes) where
  -- What `LPop` has pending for a list of two elements or more.
  abbrev popping : ℕ → ℕ → State S → State S
  popping first last s = record s {
    batch =
        batch_put (meta_key m e key) (meta_value (pos (first + 1)) (pos last))
          (batch_delete (item_key m e key first) s.batch);
  }

  popping-CanCommit : (first last : ℕ) (s : State S) → IsReady s → CanCommit (popping first last s)
  popping-CanCommit first last s r = record {
    writable = r.can_commit.writable;
    caught_up = r.can_commit.caught_up;
  }

  pop_element_run :
      (s : State S) (first last : ℕ) (x : Bytes)
      → IsReady s
      → first < last
      → last + 1 < 2 ^ 31
      → look m s (item_key m e key first) ≡ some x
      → pop_element d e key head
          (record { head_seq = pos first; tail_seq = pos last; size = pos (last - first + 1) })
          s
        ≡ (ok (some x), committed d m e.now (popping first last s))
  unfolding pop_element
  pop_element_run s first last x r lt fits there =
      let t : State S = record s { batch = batch_delete (item_key m e key first) s.batch } in
      let next : wrap32 (pos first +ℤ pos 1) ≡ pos (first + 1) = wrap_add first 1 (omega arith) in
      let left : eqb_ℤ (pos (last - (first + 1) + 1)) (pos 0) ≡ false = ground arith in
      rw (
        m.get_row s.store (item_key m e key first) ∙ ap ok there,
        next,
        set_meta_run m e key t (first + 1) last (omega arith) fits,
        left,
        commit_ok d m e.now (popping first last s) (popping-CanCommit first last s r),
      )

  pop_run :
      (s : State S) (first : ℕ) (x y : Bytes) (xs : List Bytes)
      → IsReady s
      → check_key_size key ≡ ok tt
      → IsQueue m e key s first (x ∷ y ∷ xs)
      → l_pop d e key head s
        ≡ (ok (some x), finished m e.now (popping first (first + length xs + 1) s))
  unfolding l_pop
  pop_run s first x y xs r kh q =
      let last : first + length (x ∷ y ∷ xs) - 1 ≡ first + length xs + 1 = omega arith in
      let size : length (x ∷ y ∷ xs) ≡ first + length xs + 1 - first + 1 = omega arith in
      let left : eqb_ℤ (pos (first + length xs + 1 - first + 1)) (pos 0) ≡ false = ground arith in
      let meta : l_get_meta d e (meta_key m e key) s ≡ (
        ok (record {
          head_seq = pos first;
          tail_seq = pos (first + length xs + 1);
          size = pos (first + length xs + 1 - first + 1);
        }),
        s,
      ) =
        meta_of m e key s first (x ∷ y ∷ xs) q
        ∙ ap
            (λ p. (
              ok (record {
                head_seq = pos first;
                tail_seq = pos p;
                size = pos (length (x ∷ y ∷ xs));
              }),
              s,
            ))
            last
        ∙ ap
            (λ n. (
              ok (record {
                head_seq = pos first;
                tail_seq = pos (first + length xs + 1);
                size = pos n;
              }),
              s,
            ))
            size in
      let front : look m s (item_key m e key first) ≡ some x =
        ap (λ n. look m s (item_key m e key n)) (omega arith) ∙ q.items 0 (omega arith) in
      rw (
        kh,
        meta,
        left,
        pop_element_run s first (first + length xs + 1) x r (omega arith) (omega (arith, q.high))
            front,
      )

  look-popping :
      (s : State S) (first last : ℕ) (k : Bytes)
      → IsReady s
      → look m (finished m e.now (popping first last s)) k ≡ (
          if equal_bytes (meta_key m e key) k
          then some (meta_value (pos (first + 1)) (pos last))
          else if equal_bytes (item_key m e key first) k
          then none
          else look m s k)
  look-popping s first last k r =
      look-finished m e.now (popping first last s) k
      ∙ unfold batch_put batch_delete replay in rw r.idle

  -- Between two handlers, for a key of an allowed size, `LPop` of a list of two elements or more returns the first element and leaves the list of the
  -- others; the next handler can run.
  pub l_pop_lem :
      (s : State S) (first : ℕ) (x y : Bytes) (xs : List Bytes)
      → IsReady s
      → check_key_size key ≡ ok tt
      → IsQueue m e key s first (x ∷ y ∷ xs)
      → ((l_pop d e key head s).0 ≡ ok (some x))
        × IsQueue m e key (l_pop d e key head s).1 (first + 1) (y ∷ xs)
        × IsReady (l_pop d e key head s).1
  l_pop_lem s first x y xs r kh q = rw (pop_run s first x y xs r kh q) (
    refl,
    queue,
    finished-IsReady m e.now (popping first (first + length xs + 1) s)
        (popping-CanCommit first (first + length xs + 1) s r),
  )
    where
      item :
          (i : ℕ)
          → i < length (y ∷ xs)
          → look m
              (finished m e.now (popping first (first + length xs + 1) s))
              (item_key m e key (first + 1 + i))
            ≡ get_elem? (y ∷ xs) i
      item i h =
          look-popping s first (first + length xs + 1) (item_key m e key (first + 1 + i)) r
          ∙ rw
              (
                meta-item m e key kh (first + 1 + i) (omega (arith, q.high)),
                item-item m e key kh first (first + 1 + i) (omega (arith, q.high))
                    (omega (arith, q.high)) (λ w. omega arith),
              )
              (ap (λ n. look m s (item_key m e key n)) (omega arith)
                ∙ q.items (suc i) (omega arith))

      queue :
          IsQueue m e key
            (finished m e.now (popping first (first + length xs + 1) s))
            (first + 1)
            (y ∷ xs)
      queue = record {
        some_items = omega arith;
        meta =
            look-popping s first (first + length xs + 1) (meta_key m e key) r
            ∙ rw (equal_bytes_refl (meta_key m e key))
                (ap (λ n. some (meta_value (pos (first + 1)) (pos n))) (omega arith));
        items = item;
        low = omega (arith, q.low);
        high = omega (arith, q.high);
      }
