-- ===== src/Bytes/Slices.antt =====
-- Reading a byte string that is known in parts: each position is the length of what stands before it.
use ledisdb.Base.{
  ℕ, ◌+◌, ◌-◌, ◌≡◌, refl, some, [], ◌∷◌, ◌++◌, length, length-append, drop-append, take-append,
  get_elem?, arith,
}
use ledisdb.Error.{ok}
use ledisdb.Bytes.{Bytes, byte_at, slice_from, slice}

get_elem?-append : (p r : Bytes) (x : ℕ) → get_elem? (p ++ x ∷ r) (length p) ≡ some x
get_elem?-append [] r x = refl
get_elem?-append (y ∷ p) r x = get_elem?-append p r x

module _ (bs : Bytes) where
  pub get_elem?_part :
      (p r : Bytes) (x n : ℕ) → bs ≡ p ++ x ∷ r → n ≡ length p → get_elem? bs n ≡ some x
  get_elem?_part p r x n parts e = rw (parts, e, get_elem?-append)

  pub byte_at_part : (p r : Bytes) (x n : ℕ) → bs ≡ p ++ x ∷ r → n ≡ length p → byte_at bs n ≡ ok x
  unfolding byte_at
  byte_at_part p r x n parts e = rw (get_elem?_part p r x n parts e)

  pub slice_from_part : (p r : Bytes) (n : ℕ) → bs ≡ p ++ r → n ≡ length p → slice_from bs n ≡ ok r
  unfolding slice_from
  slice_from_part p r n parts e = rw (parts, e) (ground (arith, length-append p r, drop-append p r))

  pub slice_part :
      (p q r : Bytes) (i j : ℕ)
      → bs ≡ p ++ (q ++ r)
      → i ≡ length p
      → j ≡ length p + length q
      → slice bs i j ≡ ok q
  unfolding slice
  slice_part p q r i j parts e f =
      rw (parts, e, drop-append, f, width, take-append)
        (ground (arith, length-append p (q ++ r), length-append q r))
    where
      width : length p + length q - length p ≡ length q
      width = omega arith
