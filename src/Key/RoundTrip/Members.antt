-- ===== src/Key/RoundTrip/Members.antt =====
-- The keys of hash fields, set members and zset members come back from their decoders.
use ledisdb.Base.{ℕ, suc, ◌+◌, ◌^◌, ◌<◌, ◌≡◌, refl, false, [], ◌∷◌, ◌++◌, length, ltb, arith}
use ledisdb.Error.{Error, ok}
use ledisdb.Bytes.{Bytes}
use ledisdb.Key.{check_key_size, Db, z_set_type}
use ledisdb.Key.Member.{
  sized_key, start_sep, member_key, decode_member_key, z_encode_set_key, z_decode_set_key,
}
use ledisdb.Key.RoundTrip.{
  check_key_index-append, lacks_type-append, length_sized, after_type, read_key_len, slice_key,
  byte_after_key, rest_after_key,
}

-- The length tests pass.
pub long_enough : (l n : ℕ) → n < suc l → ltb l n ≡ false
long_enough l n h = ground arith

module _ (t : ℕ) (db : Db) (key member : Bytes) (fits : length key < 2 ^ 16) where
  pub member_round :
      (e : Error) → decode_member_key t e db (member_key t db key member) ≡ ok (key, member)
  unfolding member_key decode_member_key
  member_round e =
      let p = db.index_var_buf in
      let n : ℕ = length p in
      let m : ℕ = length key in
      let r : Bytes = start_sep ∷ member in
      rw (
        check_key_index-append db (t ∷ (sized_key key ++ r)),
        lacks_type-append p (sized_key key ++ r) t,
        length_sized p t key r,
        long_enough (n + m + length r + 3) (n + 1 + 2) (omega arith),
        after_type p t key r,
        read_key_len p t key r fits,
        long_enough (n + m + length r + 3) (m + (n + 1 + 2)) (omega arith),
        slice_key p t key r,
        byte_after_key p t key r [] member start_sep (n + 1 + 2 + m) refl (omega arith),
        rest_after_key p t key r (start_sep ∷ []) member (n + 1 + 2 + m + 1) refl (omega arith),
      )

pub z_set_round :
    (db : Db) (key member : Bytes)
    → length key < 2 ^ 16
    → z_decode_set_key db (z_encode_set_key db key member) ≡ ok (key, member)
unfolding z_encode_set_key z_decode_set_key
z_set_round db key member fits =
    let p = db.index_var_buf in
    let n : ℕ = length p in
    let m : ℕ = length key in
    let t : ℕ = z_set_type in
    let r : Bytes = start_sep ∷ member in
    rw (
      check_key_index-append db (t ∷ (sized_key key ++ r)),
      lacks_type-append p (sized_key key ++ r) t,
      length_sized p t key r,
      long_enough (n + m + length r + 3) (n + 1 + 2) (omega arith),
      after_type p t key r,
      read_key_len p t key r fits,
      long_enough (n + m + length r + 3) (m + (n + 1)) (omega arith),
      slice_key p t key r,
      byte_after_key p t key r [] member start_sep (n + 1 + 2 + m) refl (omega arith),
      rest_after_key p t key r (start_sep ∷ []) member (n + 1 + 2 + 1 + m) refl (omega arith),
    )

-- A key of an allowed size has a length of two bytes.
pub check_key_size-lt : (key : Bytes) → check_key_size key ≡ ok tt → length key < 2 ^ 16
unfolding check_key_size ledisdb.Key.bad_size
check_key_size-lt key h = ground arith
