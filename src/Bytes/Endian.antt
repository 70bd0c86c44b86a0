-- ===== src/Bytes/Endian.antt =====
-- Fixed-width integers survive encoding and decoding, and big endian keeps their order.
use Prim.Native.Nat.{Ordering}
use ledisdb.Base.{
  ℕ, zero, suc, ◌+◌, ◌*◌, ◌/◌, ◌%◌, ◌^◌, ◌<◌, ◌≡◌, refl, sym, ap, ◌∙◌, [], ◌∷◌, ◌++◌, length,
  length-append, append_assoc, take, drop, take-append, drop-append, arith,
}
use native.Mathlib.Decide.{dec_lt}
use native.Mathlib.Nat.{pow-suc}
use ledisdb.Error.{ok}
use ledisdb.Bytes.{
  Bytes, compare_bytes, big_endian, big_endian_from, read_big_endian, little_endian,
  little_endian_value,
}
use ledisdb.Bytes.Compare.{compare-append}

pub length-big_endian : (k n : ℕ) → length (big_endian k n) ≡ k
unfolding big_endian
length-big_endian zero n = refl
length-big_endian (suc k) n = omega (
  arith,
  length-append {0} (big_endian k (n / 256)) ((n % 256) ∷ []),
  length-big_endian k (n / 256),
)

big_endian_from-append :
    (acc : ℕ) (xs : Bytes) (b : ℕ)
    → big_endian_from acc (xs ++ b ∷ []) ≡ big_endian_from acc xs * 256 + b
unfolding big_endian_from
big_endian_from-append acc [] b = refl
big_endian_from-append acc (x ∷ xs) b = big_endian_from-append (acc * 256 + x) xs b

quotient_bound : (k n : ℕ) → n < 256 ^ suc k → n / 256 < 256 ^ k
quotient_bound k n h = omega (arith, pow-suc 256 k)

take-big_endian : (k n : ℕ) (r : Bytes) → take k (big_endian k n ++ r) ≡ big_endian k n
take-big_endian k n r =
    ap (λ m. take m (big_endian k n ++ r)) (sym (length-big_endian k n))
    ∙ take-append (big_endian k n) r

pub drop-big_endian : (k n : ℕ) (r : Bytes) → drop k (big_endian k n ++ r) ≡ r
drop-big_endian k n r =
    ap (λ m. drop m (big_endian k n ++ r)) (sym (length-big_endian k n))
    ∙ drop-append (big_endian k n) r

pub big_endian_value : (k n : ℕ) → n < 256 ^ k → big_endian_from 0 (big_endian k n) ≡ n
unfolding big_endian
big_endian_value zero n h = unfold big_endian_from in omega arith
big_endian_value (suc k) n h = omega (
  arith,
  big_endian_from-append 0 (big_endian k (n / 256)) (n % 256),
  big_endian_value k (n / 256) (quotient_bound k n h),
)

pub length-little_endian : (k n : ℕ) → length (little_endian k n) ≡ k
unfolding little_endian
length-little_endian zero n = refl
length-little_endian (suc k) n = omega (arith, length-little_endian k (n / 256))

pub little_endian_round : (k n : ℕ) → n < 256 ^ k → little_endian_value (little_endian k n) ≡ n
unfolding little_endian little_endian_value
little_endian_round zero n h = omega arith
little_endian_round (suc k) n h =
    omega (arith, little_endian_round k (n / 256) (quotient_bound k n h))

pub read_big_endian-append :
    (k n : ℕ) (r : Bytes) → n < 256 ^ k → read_big_endian k (big_endian k n ++ r) ≡ ok n
unfolding read_big_endian
read_big_endian-append k n r h = ground (
  arith,
  length-append (big_endian k n) r,
  length-big_endian k n,
  big_endian_value k n,
  take-big_endian k n r,
)

-- Numbers of the same width are ordered as their encodings are, whatever follows.
pub big_endian_lt :
    (k a b : ℕ) (r s : Bytes)
    → a < b
    → b < 256 ^ k
    → compare_bytes (big_endian k a ++ r) (big_endian k b ++ s) ≡ Ordering.lt
unfolding big_endian
big_endian_lt zero a b r s lt h = absurd (omega arith)
big_endian_lt (suc k) a b r s lt h = rw (append_assoc (big_endian k (a / 256)) ((a % 256) ∷ []) r) (
    rw (append_assoc (big_endian k (b / 256)) ((b % 256) ∷ []) s)
      (elim (dec_lt (a / 256) (b / 256)) [
        | yes p ↦ big_endian_lt k (a / 256) (b / 256) _ _ p (quotient_bound k b h)
        | no p ↦
            let e : a / 256 ≡ b / 256 = omega arith in
            rw (e, compare-append) (unfold compare_bytes in ground arith)
      ]))
