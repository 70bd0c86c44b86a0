-- ===== src/Ledis/Sets/Operations.antt =====
-- `SUnion`, `SDiff` and `SInter` of ledis/t_set.go against the Boolean operations on membership.
use ledisdb.Base.{◌≡◌, refl, sym, ap, ◌∙◌, Bool, true, false, not, ◌&&◌, ◌||◌, List, [], ◌∷◌, arith}
use ledisdb.Error.{ok}
use ledisdb.Bytes.{Bytes}
use ledisdb.Key.{check_key_size}
use ledisdb.Store.{Driver}
use ledisdb.Ledis.{Env, State, continue}
use ledisdb.Ledis.Sets.{
  has, OptType, union, diff, inter, add_keys, delete_keys, select, s_members, union_from,
  s_union_generic, diff_from, s_diff_generic, inter_from, s_inter_generic, generic,
}
use ledisdb.Ledis.Sets.Algebra.{
  IsOnce, AllShort, has-add_keys, has-delete_keys, add_keys-IsOnce, delete_keys-IsOnce, select_lem,
}

-- Whether some, or all, of the sets have a member
abbrev pub some_has : Bytes → List (List Bytes) → Bool
some_has m [] = false
some_has m (ms ∷ sets) = has m ms || some_has m sets

abbrev pub all_have : Bytes → List (List Bytes) → Bool
all_have m [] = true
all_have m (ms ∷ sets) = has m ms && all_have m sets

-- Whether the result of an operation on a first set and further ones has a member
abbrev pub combined : OptType → Bytes → List Bytes → List (List Bytes) → Bool
combined union m ms sets = has m ms || some_has m sets
combined diff m ms sets = has m ms && not (some_has m sets)
combined inter m ms sets = has m ms && all_have m sets

abbrev pub AllSetsShort : List (List Bytes) → Type 0
AllSetsShort [] = Unit {0}
AllSetsShort (ms ∷ sets) = AllShort ms × AllSetsShort sets

-- An intersection tests the members' sizes as those of keys.
abbrev pub CanCombine : OptType → List (List Bytes) → Type 0
CanCombine union sets = Unit {0}
CanCombine diff sets = Unit {0}
CanCombine inter sets = AllSetsShort sets

module _ {S I : Type 0} (d : Driver S I) (e : Env) (s : State S) where
  -- The keys are of allowed sizes, and these are the members of their sets.
  abbrev pub Reads : List Bytes → List (List Bytes) → Type 0
  Reads [] [] = Unit {0}
  Reads [] (ms ∷ sets) = ⊥
  Reads (key ∷ keys) [] = ⊥
  Reads (key ∷ keys) (ms ∷ sets) =
      (check_key_size key ≡ ok tt) × (s_members d e key s ≡ (ok ms, s)) × Reads keys sets

  union_run :
      (keys : List Bytes) (sets : List (List Bytes)) (dst : List Bytes)
      → Reads keys sets
      → IsOnce dst
      → (r : List Bytes) × (union_from d e keys dst s ≡ (ok r, s))
        × IsOnce r
        × ((m : Bytes) → has m r ≡ (has m dst || some_has m sets))
  unfolding union_from
  union_run [] [] dst h o = (dst, refl, o, λ m. ground arith)
  union_run [] (ms ∷ sets) dst h o = absurd h
  union_run (key ∷ keys) [] dst h o = absurd h
  union_run (key ∷ keys) (ms ∷ sets) dst h o =
      let (r, run, once, all) =
        union_run keys sets (add_keys ms dst) h.2 (add_keys-IsOnce ms dst o) in
      (
        r,
        rw (h.0, h.1, union_from) run,
        once,
        λ m. all m ∙ rw (has-add_keys m ms dst) (ground arith),
      )

  some_not :
      (m : Bytes) (sets : List (List Bytes)) (b : Bool)
      → b ≡ false
      → false ≡ (b && not (some_has m sets))
  some_not m sets b h = rw h

  diff_run :
      (keys : List Bytes) (sets : List (List Bytes)) (dst : List Bytes)
      → Reads keys sets
      → IsOnce dst
      → (r : List Bytes) × (diff_from d e keys dst s ≡ (ok r, s))
        × IsOnce r
        × ((m : Bytes) → has m r ≡ (has m dst && not (some_has m sets)))
  unfolding diff_from
  diff_run [] [] dst h o = (dst, refl, o, λ m. ground arith)
  diff_run [] (ms ∷ sets) dst h o = absurd h
  diff_run (key ∷ keys) [] dst h o = absurd h
  diff_run (key ∷ keys) (ms ∷ sets) dst h o =
      left (delete_keys ms dst) refl
        (diff_run keys sets (delete_keys ms dst) h.2 (delete_keys-IsOnce ms dst o))
    where
      none_of :
          (m : Bytes)
          → (has m dst && not (has m ms)) ≡ false
          → false ≡ (has m dst && not (has m ms || some_has m sets))
      none_of m q = ground arith

      -- Nothing left ends the loop.
      left :
          (now : List Bytes)
          → delete_keys ms dst ≡ now
          → ((r : List Bytes) × (diff_from d e keys now s ≡ (ok r, s))
              × IsOnce r
              × ((m : Bytes) → has m r ≡ (has m now && not (some_has m sets))))
          → (r : List Bytes) × (diff_from d e (key ∷ keys) dst s ≡ (ok r, s))
            × IsOnce r
            × ((m : Bytes) → has m r ≡ (has m dst && not (some_has m (ms ∷ sets))))
      left [] p rest = (
        [],
        rw (h.1, diff_from, continue, p),
        tt,
        λ m. none_of m (sym (has-delete_keys m ms dst) ∙ ap (has m) p),
      )
      left (j ∷ now) p rest =
          let (r, run, once, all) = rest in
          (
            r,
            rw (h.1, diff_from, continue, p) run,
            once,
            λ m.
                all m
                ∙ ap (λ b. b && not (some_has m sets))
                    (sym (ap (has m) p) ∙ has-delete_keys m ms dst)
                ∙ ground arith,
          )

  inter_run :
      (keys : List Bytes) (sets : List (List Bytes)) (dst : List Bytes)
      → Reads keys sets
      → AllSetsShort sets
      → IsOnce dst
      → (r : List Bytes) × (inter_from d e keys dst s ≡ (ok r, s))
        × IsOnce r
        × ((m : Bytes) → has m r ≡ (has m dst && all_have m sets))
  unfolding inter_from
  inter_run [] [] dst h short o = (dst, refl, o, λ m. ground arith)
  inter_run [] (ms ∷ sets) dst h short o = absurd h
  inter_run (key ∷ keys) [] dst h short o = absurd h
  inter_run (key ∷ keys) ([] ∷ sets) dst h short o = ([], rw (h.0, h.1), tt, λ m. ground arith)
  inter_run (key ∷ keys) ((j ∷ js) ∷ sets) dst h short o =
      let (temp, selected, once, all) = select_lem (j ∷ js) dst [] short.0 tt in
      left temp selected once all (inter_run keys sets temp h.2 short.1 once)
    where
      left :
          (temp : List Bytes)
          → select (j ∷ js) dst [] ≡ ok temp
          → IsOnce temp
          → ((m : Bytes) → has m temp ≡ (has m [] || has m dst && has m (j ∷ js)))
          → ((r : List Bytes) × (inter_from d e keys temp s ≡ (ok r, s))
              × IsOnce r
              × ((m : Bytes) → has m r ≡ (has m temp && all_have m sets)))
          → (r : List Bytes) × (inter_from d e (key ∷ keys) dst s ≡ (ok r, s))
            × IsOnce r
            × ((m : Bytes) → has m r ≡ (has m dst && all_have m ((j ∷ js) ∷ sets)))
      left [] p once all rest = ([], rw (h.0, h.1, p), tt, λ m. ground (arith, all m))
      left (t ∷ ts) p once all rest =
          let (r, run, once', all') = rest in
          (
            r,
            rw (h.0, h.1, p) run,
            once',
            λ m. all' m ∙ ap (λ b. b && all_have m sets) (all m) ∙ ground arith,
          )

  -- A union, a difference or an intersection of sets that can be read, those of an intersection with members
  -- of the sizes allowed for keys: it succeeds and changes nothing, each member comes once, and a member is
  -- there exactly if the Boolean operation on the sets says so, the first set being apart.
  pub generic_lem :
      (op : OptType) (key : Bytes) (keys : List Bytes) (ms : List Bytes) (sets : List (List Bytes))
      → Reads (key ∷ keys) (ms ∷ sets)
      → CanCombine op sets
      → (r : List Bytes) × (generic d e op (key ∷ keys) s ≡ (ok r, s))
        × IsOnce r
        × ((m : Bytes) → has m r ≡ combined op m ms sets)
  unfolding generic s_union_generic s_diff_generic s_inter_generic
  generic_lem union key keys ms sets h short = union_run (key ∷ keys) (ms ∷ sets) [] h tt
  generic_lem diff key keys ms sets h short =
      let (r, run, once, all) =
        diff_run keys sets (add_keys ms []) h.2 (add_keys-IsOnce ms [] tt) in
      (r, rw h.1 run, once, λ m. all m ∙ rw (has-add_keys m ms []))
  generic_lem inter key keys ms sets h short =
      let (r, run, once, all) =
        inter_run keys sets (add_keys ms []) h.2 short (add_keys-IsOnce ms [] tt) in
      (r, rw h.1 run, once, λ m. all m ∙ rw (has-add_keys m ms []))
