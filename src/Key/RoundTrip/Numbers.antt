-- ===== src/Key/RoundTrip/Numbers.antt =====
-- The keys of list elements, zset scores and expirations come back from their decoders.
use ledisdb.Base.{
  ℕ, suc, ◌+◌, ◌^◌, ◌<◌, ◌≡◌, refl, true, false, not, ◌&&◌, [], ◌∷◌, ◌++◌, length, length-append,
  append_assoc, append-nil, ◌==◌, arith,
}
use ledisdb.Base.Int.{
  ℤ, to_u32, to_u64, IsInt32, IsInt64, to_u32-lt, to_u64-lt, of_u32-to_u32, of_u64-to_u64,
}
use ledisdb.Error.{ok}
use ledisdb.Bytes.{Bytes, big_endian, read_big_endian}
use ledisdb.Bytes.Endian.{length-big_endian, read_big_endian-append}
use ledisdb.Bytes.Slices.{byte_at_part, slice_from_part}
use ledisdb.Key.{Db, list_type, z_score_type, exp_time_type, exp_meta_type}
use ledisdb.Key.Member.{sized_key, start_sep}
use ledisdb.Key.Sorted.{
  l_encode_list_key, l_decode_list_key, score_sep, n_score_sep, p_score_sep, z_encode_score_key,
  z_decode_score_key, exp_encode_time_key, exp_decode_time_key, exp_encode_meta_key,
  exp_decode_meta_key,
}
use ledisdb.Key.RoundTrip.{
  check_key_index-append, lacks_type-append, length_sized, after_type, read_key_len, slice_key,
  byte_after_key, rest_after_key,
}
use ledisdb.Key.RoundTrip.Members.{long_enough}

-- A number at the end of the key.
read_last : (k n : ℕ) → n < 256 ^ k → read_big_endian k (big_endian k n) ≡ ok n
read_last k n h = rw (← append-nil (big_endian k n)) (read_big_endian-append k n [] h)

eq_test : (a b : ℕ) → a ≡ b → (a == b) ≡ true
eq_test a b e = ground arith

pub list_round :
    (db : Db) (key : Bytes) (seq : ℤ)
    → length key < 2 ^ 16
    → IsInt32 seq
    → l_decode_list_key db (l_encode_list_key db key seq) ≡ ok (key, seq)
unfolding l_encode_list_key l_decode_list_key
list_round db key seq fits int =
    let p = db.index_var_buf in
    let n : ℕ = length p in
    let m : ℕ = length key in
    let t : ℕ = list_type in
    let r : Bytes = big_endian 4 (to_u32 seq) in
    rw (
      check_key_index-append db (t ∷ (sized_key key ++ r)),
      lacks_type-append p (sized_key key ++ r) t,
      length_sized p t key r,
      long_enough (n + m + length r + 3) (n + 1 + 2) (omega arith),
      after_type p t key r,
      read_key_len p t key r fits,
      length-big_endian 4 (to_u32 seq),
      eq_test (m + (n + 1 + 2) + 4) (n + m + 4 + 3) (omega arith),
      slice_key p t key r,
      rest_after_key p t key r [] r (n + 1 + 2 + m) refl (omega arith),
      read_last 4 (to_u32 seq) (to_u32-lt seq),
      of_u32-to_u32 seq int,
    )

sep_known : (s : ℤ) → (not (score_sep s == n_score_sep) && not (score_sep s == p_score_sep)) ≡ false
sep_known s = ground arith

pub score_round :
    (db : Db) (key member : Bytes) (score : ℤ)
    → length key < 2 ^ 16
    → IsInt64 score
    → z_decode_score_key db (z_encode_score_key db key member score) ≡ ok (key, member, score)
unfolding z_encode_score_key z_decode_score_key
score_round db key member score fits int =
    let p = db.index_var_buf in
    let n : ℕ = length p in
    let m : ℕ = length key in
    let t : ℕ = z_score_type in
    let w : Bytes = big_endian 8 (to_u64 score) in
    let tail : Bytes = w ++ start_sep ∷ member in
    let r : Bytes = score_sep score ∷ tail in
    let lw : length w ≡ 8 = length-big_endian 8 (to_u64 score) in
    let lt : length tail ≡ 9 + length member =
      omega (arith, length-append {0} w (start_sep ∷ member)) in
    rw (
      check_key_index-append db (t ∷ (sized_key key ++ r)),
      lacks_type-append p (sized_key key ++ r) t,
      length_sized p t key r,
      long_enough (n + m + length r + 3) (n + 1 + 2) (omega arith),
      after_type p t key r,
      read_key_len p t key r fits,
      long_enough (n + m + length r + 3) (m + (n + 1 + 2)) (omega arith),
      slice_key p t key r,
      long_enough (n + m + length r + 3) (n + 1 + 2 + m + 10) (omega arith),
      byte_after_key p t key r [] tail (score_sep score) (n + 1 + 2 + m) refl (omega arith),
      sep_known score,
      rest_after_key p t key r (score_sep score ∷ []) tail (n + 1 + 2 + m + 1) refl (omega arith),
      read_big_endian-append 8 (to_u64 score) (start_sep ∷ member) (to_u64-lt score),
      byte_after_key p t key r (score_sep score ∷ w) member start_sep (n + 1 + 2 + m + 1 + 8) refl
          (omega arith),
      rest_after_key p t key r (score_sep score ∷ (w ++ start_sep ∷ [])) member
          (n + 1 + 2 + m + 1 + 8 + 1) (rw append_assoc)
          (omega (arith, length-append {0} w (start_sep ∷ []))),
      of_u64-to_u64 score int,
    )

pub exp_meta_round :
    (db : Db) (t : ℕ) (key : Bytes)
    → exp_decode_meta_key db (exp_encode_meta_key db t key) ≡ ok (t, key)
unfolding exp_encode_meta_key exp_decode_meta_key
exp_meta_round db t key =
    let p = db.index_var_buf in
    let n : ℕ = length p in
    let mk : Bytes = p ++ exp_meta_type ∷ t ∷ key in
    rw (
      check_key_index-append db (exp_meta_type ∷ t ∷ key),
      length-append p (exp_meta_type ∷ t ∷ key),
      lacks_type-append p (t ∷ key) exp_meta_type,
      long_enough (n + suc (suc (length key))) (n + 2) (omega arith),
      byte_at_part mk (p ++ exp_meta_type ∷ []) key t (n + 1) (rw append_assoc) (rw length-append),
      slice_from_part mk (p ++ exp_meta_type ∷ t ∷ []) key (n + 2) (rw append_assoc)
          (rw length-append),
    )

pub exp_time_round :
    (db : Db) (t : ℕ) (key : Bytes) (when : ℤ)
    → IsInt64 when
    → exp_decode_time_key db (exp_encode_time_key db t key when) ≡ ok (t, key, when)
unfolding exp_encode_time_key exp_decode_time_key
exp_time_round db t key when int =
    let p = db.index_var_buf in
    let n : ℕ = length p in
    let w : Bytes = big_endian 8 (to_u64 when) in
    let r : Bytes = w ++ t ∷ key in
    let tk : Bytes = p ++ exp_time_type ∷ r in
    let lw : length w ≡ 8 = length-big_endian 8 (to_u64 when) in
    let lr : length r ≡ 9 + length key = omega (arith, length-append {0} w (t ∷ key)) in
    rw (
      check_key_index-append db (exp_time_type ∷ r),
      length-append p (exp_time_type ∷ r),
      lacks_type-append p r exp_time_type,
      long_enough (n + suc (length r)) (n + 10) (omega arith),
      byte_at_part tk (p ++ exp_time_type ∷ w) key t (n + 9) (simp append_assoc)
          (omega (arith, length-append {0} p (exp_time_type ∷ w))),
      slice_from_part tk (p ++ exp_time_type ∷ (w ++ t ∷ [])) key (n + 10) (simp append_assoc) (
          omega (
            arith,
            length-append {0} p (exp_time_type ∷ (w ++ t ∷ [])),
            length-append {0} w (t ∷ []),
          )),
      slice_from_part tk (p ++ exp_time_type ∷ []) r (n + 1) (rw append_assoc) (rw length-append),
      read_big_endian-append 8 (to_u64 when) (t ∷ key) (to_u64-lt when),
      of_u64-to_u64 when int,
    )
