-- ===== src/Bytes/Compare.antt =====
-- The order of byte strings, and the half-open ranges that hold the extensions of a prefix.
use Prim.Native.Nat.{Ordering}
use ledisdb.Base.{
  ℕ, suc, ◌≡◌, ◌≢◌, refl, sym, ap, ◌∙◌, ◌↔◌, true, false, [], ◌∷◌, ◌++◌, Bool-cases, inl, inr,
  arith,
}
use ledisdb.Bytes.{Bytes, compare_bytes, equal_bytes}

pub equal_bytes_iff : (a b : Bytes) → (equal_bytes a b ≡ true) ↔ (a ≡ b)
unfolding equal_bytes
equal_bytes_iff [] [] = ground arith
equal_bytes_iff [] (y ∷ ys) = ground arith
equal_bytes_iff (x ∷ xs) [] = ground arith
equal_bytes_iff (x ∷ xs) (y ∷ ys) = ground (arith, equal_bytes_iff xs ys)

pub equal_bytes_refl : (a : Bytes) → equal_bytes a a ≡ true
equal_bytes_refl a = (equal_bytes_iff a a).1 refl

pub compare-append : (p a b : Bytes) → compare_bytes (p ++ a) (p ++ b) ≡ compare_bytes a b
unfolding compare_bytes
compare-append [] a b = refl
compare-append (x ∷ p) a b = ground (arith, compare-append p a b)

pub compare_refl : (a : Bytes) → compare_bytes a a ≡ Ordering.eq
unfolding compare_bytes
compare_refl [] = refl
compare_refl (x ∷ a) = ground (arith, compare_refl a)

pub compare-eq : (a b : Bytes) → compare_bytes a b ≡ Ordering.eq → a ≡ b
unfolding compare_bytes
compare-eq [] [] h = refl
compare-eq [] (y ∷ b) h = cc
compare-eq (x ∷ a) [] h = cc
compare-eq (x ∷ a) (y ∷ b) h = ground (arith, compare-eq a b)

-- A byte string lies in [c, c + 1) in the byte order exactly when its first byte is c.
starts_range :
    (c : ℕ) (k : Bytes)
    → compare_bytes (c ∷ []) k ≢ Ordering.gt
    → compare_bytes k (suc c ∷ []) ≡ Ordering.lt
    → (f : Bytes) × (k ≡ c ∷ f)
unfolding compare_bytes
starts_range c [] lo hi = absurd (lo refl)
starts_range c (x ∷ []) lo hi = ([], ground arith)
starts_range c (x ∷ y ∷ k) lo hi = (y ∷ k, ground arith)

range_starts :
    (c : ℕ) (f : Bytes)
    → (compare_bytes (c ∷ []) (c ∷ f) ≢ Ordering.gt)
      × (compare_bytes (c ∷ f) (suc c ∷ []) ≡ Ordering.lt)
unfolding compare_bytes
range_starts c [] = ground arith
range_starts c (x ∷ f) = ground arith

lt-append :
    (p a k : Bytes)
    → compare_bytes (p ++ a) k ≢ Ordering.gt
    → (b : Bytes) (x : ℕ) → compare_bytes k (p ++ x ∷ b) ≡ Ordering.lt
    → (r : Bytes) × (k ≡ p ++ r)
unfolding compare_bytes
lt-append [] a k lo b x hi = (k, refl)
lt-append (y ∷ p) a [] lo b x hi = absurd (lo refl)
lt-append (y ∷ p) a (z ∷ k) lo b x hi =
    let (r, e) = lt-append p a k (ground arith) b x (ground arith) in (r, ground arith)

-- The keys from `p ++ [c]` up to but not `p ++ [c + 1]` are those that extend `p ++ [c]`.
pub in_prefix_range :
    (p : Bytes) (c : ℕ) (k : Bytes)
    → compare_bytes (p ++ c ∷ []) k ≢ Ordering.gt
    → compare_bytes k (p ++ suc c ∷ []) ≡ Ordering.lt
    → (f : Bytes) × (k ≡ p ++ c ∷ f)
in_prefix_range p c k lo hi =
    let (r, e) = lt-append p (c ∷ []) k lo [] (suc c) hi in
    let (f, e') =
      starts_range c r (λ g. lo (ap (compare_bytes (p ++ c ∷ [])) e ∙ compare-append p _ r ∙ g))
        (sym (compare-append p r _) ∙ ap (λ t. compare_bytes t (p ++ suc c ∷ [])) (sym e) ∙ hi) in
    (f, e ∙ ap (λ t. p ++ t) e')

pub prefix_in_range :
    (p : Bytes) (c : ℕ) (f : Bytes)
    → (compare_bytes (p ++ c ∷ []) (p ++ c ∷ f) ≢ Ordering.gt)
      × (compare_bytes (p ++ c ∷ f) (p ++ suc c ∷ []) ≡ Ordering.lt)
prefix_in_range p c f = simp compare-append (range_starts c f)

-- What is above a string that is not below `m` is above `m`.
pub compare_above :
    (a j m : Bytes)
    → compare_bytes a j ≡ Ordering.lt
    → compare_bytes a m ≢ Ordering.lt
    → compare_bytes j m ≡ Ordering.gt
unfolding compare_bytes
compare_above [] [] m lt ge = cc
compare_above [] (y ∷ j) [] lt ge = refl
compare_above [] (y ∷ j) (z ∷ m) lt ge = absurd (ge refl)
compare_above (x ∷ a) [] m lt ge = cc
compare_above (x ∷ a) (y ∷ j) [] lt ge = refl
compare_above (x ∷ a) (y ∷ j) (z ∷ m) lt ge = ground (arith, compare_above a j m)

pub equal-compare : (a b : Bytes) → compare_bytes a b ≡ Ordering.eq → equal_bytes a b ≡ true
equal-compare a b h = (equal_bytes_iff a b).1 (compare-eq a b h)

pub equal-compare_ne : (a b : Bytes) → compare_bytes a b ≢ Ordering.eq → equal_bytes a b ≡ false
equal-compare_ne a b h = elim (Bool-cases (equal_bytes a b)) [
  | inl e ↦ absurd (h (rw ((equal_bytes_iff a b).0 e) (compare_refl b)))
  | inr e ↦ e
]

pub compare_trans :
    (a b c : Bytes)
    → compare_bytes a b ≡ Ordering.lt
    → compare_bytes b c ≡ Ordering.lt
    → compare_bytes a c ≡ Ordering.lt
unfolding compare_bytes
compare_trans [] [] c p q = cc
compare_trans [] (y ∷ b) [] p q = cc
compare_trans [] (y ∷ b) (z ∷ c) p q = refl
compare_trans (x ∷ a) [] c p q = cc
compare_trans (x ∷ a) (y ∷ b) [] p q = cc
compare_trans (x ∷ a) (y ∷ b) (z ∷ c) p q = ground (arith, compare_trans a b c)

pub compare_swap : (a b : Bytes) → compare_bytes a b ≡ Ordering.gt → compare_bytes b a ≡ Ordering.lt
unfolding compare_bytes
compare_swap [] [] p = cc
compare_swap [] (y ∷ b) p = cc
compare_swap (x ∷ a) [] p = refl
compare_swap (x ∷ a) (y ∷ b) p = ground (arith, compare_swap a b)
