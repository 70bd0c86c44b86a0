-- ===== src/Key/Order.antt =====
-- The byte order of the keys that carry a number is the order of the numbers.
use Prim.Native.Nat.{Ordering}
use ledisdb.Base.{ℕ, ◌^◌, ◌<◌, ◌≡◌, refl, [], ◌∷◌, ◌++◌, append-nil, arith}
use ledisdb.Base.Int.{
  ℤ, pos, negsuc, ◌<ℤ◌, ◌≤ℤ◌, IsInt32, IsInt64, to_u32, to_u64, to_u32-lt, to_u64-lt,
}
use ledisdb.Bytes.{Bytes, compare_bytes, big_endian}
use ledisdb.Bytes.Compare.{compare-append}
use ledisdb.Bytes.Endian.{big_endian_lt}
use ledisdb.Key.{Db}
use ledisdb.Key.Member.{start_sep}
use ledisdb.Key.Sorted.{
  score_sep, n_score_sep, p_score_sep, l_encode_list_key, z_encode_score_key, exp_encode_time_key,
}

compare_head : (x : ℕ) (a b : Bytes) → compare_bytes (x ∷ a) (x ∷ b) ≡ compare_bytes a b
compare_head x a b = compare-append (x ∷ []) a b

-- A prefix and a type byte that two keys share do not matter.
compare_typed :
    (p : Bytes) (t : ℕ) (a b : Bytes) → compare_bytes (p ++ t ∷ a) (p ++ t ∷ b) ≡ compare_bytes a b
compare_typed p t a b = rw (compare-append, compare_head)

to_u32_mono : (a b : ℤ) → pos 0 ≤ℤ a → IsInt32 b → a <ℤ b → to_u32 a < to_u32 b
unfolding to_u32
to_u32_mono a b h i lt = ground arith

to_u64_mono : (a b : ℤ) → pos 0 ≤ℤ a → IsInt64 b → a <ℤ b → to_u64 a < to_u64 b
unfolding to_u64
to_u64_mono a b h i lt = ground arith

to_u64_mono_neg : (m n : ℕ) → m < 2 ^ 63 → n < m → to_u64 (negsuc m) < to_u64 (negsuc n)
unfolding to_u64
to_u64_mono_neg m n h lt = omega arith

-- Elements of one list lie in the store in the order of their sequence numbers, if these are not
-- negative.
pub list_key_mono :
    (db : Db) (key : Bytes) (a b : ℤ)
    → pos 0 ≤ℤ a
    → IsInt32 b
    → a <ℤ b
    → compare_bytes (l_encode_list_key db key a) (l_encode_list_key db key b) ≡ Ordering.lt
unfolding l_encode_list_key
list_key_mono db key a b h i lt =
    rw (compare_typed, compare-append)
      (rw (← append-nil (big_endian 4 (to_u32 a)), ← append-nil (big_endian 4 (to_u32 b)))
        (big_endian_lt 4 (to_u32 a) (to_u32 b) [] [] (to_u32_mono a b h i lt) (to_u32-lt b)))

sep_pos : (n : ℕ) → score_sep (pos n) ≡ p_score_sep
sep_pos n = ground arith

sep_neg : (n : ℕ) → score_sep (negsuc n) ≡ n_score_sep
sep_neg n = ground arith

score_mono :
    (a b : ℤ) (r s : Bytes)
    → IsInt64 a
    → IsInt64 b
    → a <ℤ b
    → compare_bytes
        (score_sep a ∷ (big_endian 8 (to_u64 a) ++ r))
        (score_sep b ∷ (big_endian 8 (to_u64 b) ++ s))
      ≡ Ordering.lt
score_mono (pos m) (pos n) r s i j lt =
    rw (sep_pos m, sep_pos n, compare_head)
      (big_endian_lt 8 (to_u64 (pos m)) (to_u64 (pos n)) r s
        (to_u64_mono (pos m) (pos n) (omega arith) j lt) (to_u64-lt (pos n)))
score_mono (pos m) (negsuc n) r s i j lt = absurd (omega arith)
score_mono (negsuc m) (pos n) r s i j lt = rw (sep_neg m, sep_pos n) (unfold compare_bytes in refl)
score_mono (negsuc m) (negsuc n) r s i j lt =
    rw (sep_neg m, sep_neg n, compare_head)
      (big_endian_lt 8 (to_u64 (negsuc m)) (to_u64 (negsuc n)) r s
        (to_u64_mono_neg m n (omega arith) (omega arith)) (to_u64-lt (negsuc n)))

-- Members of one sorted set lie in the store in the order of their scores, negative ones included,
-- whatever the members are.
pub score_key_mono :
    (db : Db) (key m n : Bytes) (a b : ℤ)
    → IsInt64 a
    → IsInt64 b
    → a <ℤ b
    → compare_bytes (z_encode_score_key db key m a) (z_encode_score_key db key n b) ≡ Ordering.lt
unfolding z_encode_score_key
score_key_mono db key m n a b i j lt =
    rw (compare_typed, compare-append) (score_mono a b (start_sep ∷ m) (start_sep ∷ n) i j lt)

-- Expirations lie in the store in the order of their times, if these are not negative, whatever
-- expires.
pub time_key_mono :
    (db : Db) (t u : ℕ) (k l : Bytes) (a b : ℤ)
    → pos 0 ≤ℤ a
    → IsInt64 b
    → a <ℤ b
    → compare_bytes (exp_encode_time_key db t k a) (exp_encode_time_key db u l b) ≡ Ordering.lt
unfolding exp_encode_time_key
time_key_mono db t u k l a b h i lt =
    rw compare_typed
      (big_endian_lt 8 (to_u64 a) (to_u64 b) (t ∷ k) (u ∷ l) (to_u64_mono a b h i lt) (to_u64-lt b))
