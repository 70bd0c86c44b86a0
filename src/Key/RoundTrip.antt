-- ===== src/Key/RoundTrip.antt =====
-- Decoding an encoded key gives back its parts: the steps that the decoders of ledis/t_*.go share.
pub mod Members
pub mod Numbers
use ledisdb.Base.{
  ℕ, ◌+◌, ◌%◌, ◌^◌, ◌<◌, ◌≡◌, refl, sym, ap, ◌∙◌, false, [], ◌∷◌, ◌++◌, length, length-append,
  append_assoc, take-append, get_elem?, arith,
}
use native.Mathlib.Nat.{mod-eq_of_lt}
use ledisdb.Error.{Error, ok}
use ledisdb.Bytes.{Bytes, big_endian, read_big_endian, byte_at, slice_from, slice}
use ledisdb.Bytes.Compare.{equal_bytes_refl}
use ledisdb.Bytes.Endian.{length-big_endian, read_big_endian-append}
use ledisdb.Bytes.Slices.{get_elem?_part, byte_at_part, slice_from_part, slice_part}
use ledisdb.Key.{Db, check_key_index, lacks_type}
use ledisdb.Key.Plain.{plain_key, decode_plain_key}
use ledisdb.Key.Member.{sized_key}

pub check_key_index-append :
    (db : Db) (r : Bytes)
    → check_key_index db (db.index_var_buf ++ r) ≡ ok (length db.index_var_buf)
unfolding check_key_index
check_key_index-append db r = ground (
  arith,
  length-append db.index_var_buf r,
  take-append db.index_var_buf r,
  equal_bytes_refl db.index_var_buf,
)

pub lacks_type-append : (p r : Bytes) (t : ℕ) → lacks_type (p ++ t ∷ r) (length p) t ≡ false
unfolding lacks_type
lacks_type-append p r t = ground (arith, get_elem?_part (p ++ t ∷ r) p r t (length p) refl refl)

module _ (t : ℕ) (e : Error) (db : Db) where
  pub plain_round : (key : Bytes) → decode_plain_key t e db (plain_key t db key) ≡ ok key
  unfolding plain_key decode_plain_key
  plain_round key = rw (
    check_key_index-append db (t ∷ key),
    lacks_type-append db.index_var_buf key t,
    slice_from_part (db.index_var_buf ++ t ∷ key) (db.index_var_buf ++ t ∷ []) key
        (length db.index_var_buf + 1) (rw append_assoc) (rw length-append),
  )

pub length-sized_key : (key : Bytes) → length (sized_key key) ≡ length key + 2
unfolding sized_key
length-sized_key key = omega (
  arith,
  length-append {0} (big_endian 2 (length key % 2 ^ 16)) key,
  length-big_endian 2 (length key % 2 ^ 16),
)

-- What the decoders read of `p ++ t ∷ (sized_key key ++ r)`.
module _ (p : Bytes) (t : ℕ) (key r : Bytes) where
  pub length_sized : length (p ++ t ∷ (sized_key key ++ r)) ≡ length p + length key + length r + 3
  length_sized = omega (
    arith,
    length-append {0} p (t ∷ (sized_key key ++ r)),
    length-append {0} (sized_key key) r,
    length-sized_key key,
  )

  pub after_type :
      slice_from (p ++ t ∷ (sized_key key ++ r)) (length p + 1) ≡ ok (sized_key key ++ r)
  after_type =
      slice_from_part _ (p ++ t ∷ []) (sized_key key ++ r) (length p + 1) (rw append_assoc)
        (rw length-append)

  pub read_key_len : length key < 2 ^ 16 → read_big_endian 2 (sized_key key ++ r) ≡ ok (length key)
  unfolding sized_key
  read_key_len h =
      rw (append_assoc, mod-eq_of_lt h) (read_big_endian-append 2 (length key) (key ++ r) h)

  pub slice_key :
      slice (p ++ t ∷ (sized_key key ++ r)) (length p + 1 + 2) (length p + 1 + 2 + length key)
      ≡ ok key
  unfolding sized_key
  slice_key =
      slice_part _ (p ++ t ∷ big_endian 2 (length key % 2 ^ 16)) key r _ _ (simp append_assoc)
        (omega (arith, width)) (omega (arith, width))
    where
      width : length (p ++ t ∷ big_endian 2 (length key % 2 ^ 16)) ≡ length p + 3
      width = omega (
        arith,
        length-append {0} p (t ∷ big_endian 2 (length key % 2 ^ 16)),
        length-big_endian 2 (length key % 2 ^ 16),
      )

  -- Past the user's key, at the position `i` of what follows `q`.
  pub byte_after_key :
      (q s : Bytes) (x i : ℕ)
      → r ≡ q ++ x ∷ s
      → i ≡ length p + length key + length q + 3
      → byte_at (p ++ t ∷ (sized_key key ++ r)) i ≡ ok x
  byte_after_key q s x i e at =
      byte_at_part _ (p ++ t ∷ (sized_key key ++ q)) s x i (rw e (simp append_assoc)) (rw at width)
    where
      width : length p + length key + length q + 3 ≡ length (p ++ t ∷ (sized_key key ++ q))
      width = omega (
        arith,
        length-append {0} p (t ∷ (sized_key key ++ q)),
        length-append {0} (sized_key key) q,
        length-sized_key key,
      )

  pub rest_after_key :
      (q s : Bytes) (i : ℕ)
      → r ≡ q ++ s
      → i ≡ length p + length key + length q + 3
      → slice_from (p ++ t ∷ (sized_key key ++ r)) i ≡ ok s
  rest_after_key q s i e at =
      slice_from_part _ (p ++ t ∷ (sized_key key ++ q)) s i (rw e (simp append_assoc)) (rw at width)
    where
      width : length p + length key + length q + 3 ≡ length (p ++ t ∷ (sized_key key ++ q))
      width = omega (
        arith,
        length-append {0} p (t ∷ (sized_key key ++ q)),
        length-append {0} (sized_key key) q,
        length-sized_key key,
      )
