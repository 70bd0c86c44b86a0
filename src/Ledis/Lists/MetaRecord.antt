-- ===== src/Ledis/Lists/MetaRecord.antt =====
-- The numbers of a list's meta record (ledis/t_list.go): no overflow inside the bounds, and the round
-- trip of the record.
use ledisdb.Base.{
  ℕ, zero, suc, ◌+◌, ◌-◌, ◌^◌, ◌≤◌, ◌<◌, ◌≡◌, refl, sym, ap, ◌∙◌, false, some, List, [], ◌∷◌, ◌++◌,
  length, length-append, take, drop, take-append, drop-append, get_elem?, ltb, arith,
}
use ledisdb.Base.Int.{pos, ◌+ℤ◌, ◌-ℤ◌, wrap32, wrap32-id, to_u32, of_u32}
use ledisdb.Error.{ok}
use ledisdb.Bytes.{Bytes, little_endian, little_endian_value}
use ledisdb.Bytes.Endian.{length-little_endian, little_endian_round}
use ledisdb.Ledis.Lists.{decode_meta, meta_value}

pub wrap_add : (a b : ℕ) → a + b < 2 ^ 31 → wrap32 (pos a +ℤ pos b) ≡ pos (a + b)
wrap_add a b h =
    rw (wrap32-id (pos a +ℤ pos b) (unfold ◌+ℤ◌ in ground arith)) (unfold ◌+ℤ◌ in ground arith)

pub wrap_sub : (a b : ℕ) → b ≤ a → a < 2 ^ 31 → wrap32 (pos a -ℤ pos b) ≡ pos (a - b)
wrap_sub a b le h =
    rw (wrap32-id (pos a -ℤ pos b) (unfold ◌-ℤ◌ in ground arith)) (unfold ◌-ℤ◌ in ground arith)

word_round :
    (a : ℕ) → a < 2 ^ 31 → of_u32 (little_endian_value (little_endian 4 (to_u32 (pos a)))) ≡ pos a
word_round a h =
    rw (little_endian_round 4 (to_u32 (pos a)) (unfold to_u32 in ground arith))
      (unfold to_u32 of_u32 in ground arith)

take-length : (b : Bytes) → take (length b) b ≡ b
take-length [] = refl
take-length (x ∷ b) = ap (λ l. x ∷ l) (take-length b)

pub get_elem?-front :
    {A : Type 0} (xs ys : List A) (i : ℕ) → i < length xs → get_elem? (xs ++ ys) i ≡ get_elem? xs i
get_elem?-front [] ys i h = absurd (omega arith)
get_elem?-front (x ∷ xs) ys zero h = refl
get_elem?-front (x ∷ xs) ys (suc i) h = get_elem?-front xs ys i (omega arith)

pub get_elem?-last :
    {A : Type 0} (xs : List A) (x : A) → get_elem? (xs ++ x ∷ []) (length xs) ≡ some x
get_elem?-last [] x = refl
get_elem?-last (y ∷ xs) x = get_elem?-last xs x

-- A meta record is read as it was written.
pub meta_round :
    (h t : ℕ)
    → h ≤ t
    → t < 2 ^ 31
    → t + 1 < 2 ^ 31
    → decode_meta (some (meta_value (pos h) (pos t)))
      ≡ ok (record { head_seq = pos h; tail_seq = pos t; size = pos (t - h + 1) })
unfolding decode_meta meta_value
meta_round h t le fits fits' =
    let a = little_endian 4 (to_u32 (pos h)) in
    let b = little_endian 4 (to_u32 (pos t)) in
    let la : length a ≡ 4 = length-little_endian 4 (to_u32 (pos h)) in
    let lb : length b ≡ 4 = length-little_endian 4 (to_u32 (pos t)) in
    let long : ltb (length (a ++ b)) 8 ≡ false = ground (arith, length-append {0} a b, la, lb) in
    let front : take 4 (a ++ b) ≡ a = ap (λ n. take n (a ++ b)) (sym la) ∙ take-append a b in
    let back : drop 4 (a ++ b) ≡ b = ap (λ n. drop n (a ++ b)) (sym la) ∙ drop-append a b in
    let whole : take 4 b ≡ b = ap (λ n. take n b) (sym lb) ∙ take-length b in
    rw (
      long,
      front,
      back,
      whole,
      word_round h (omega arith),
      word_round t fits,
      wrap_sub t h le fits,
      wrap_add (t - h) 1 (omega arith),
    )
