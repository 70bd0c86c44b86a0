-- ===== src/Ledis/Scans.antt =====
-- ledis/scan.go: the scans over the keys of a type and over the members of a key. Regular expressions are Go's:
-- their compilation is a parameter. A loop over an iterator takes the rows that it visits.
pub mod Cursor
pub mod Pages
use ledisdb.Base.{
  ℕ, zero, suc, ◌+◌, ◌-◌, ◌%◌, Bool, true, some, List, [], ◌∷◌, length, set, ◌==◌, if◌then◌else◌,
}
use ledisdb.Base.Int.{ℤ, pos, leb_ℤ, pos_part}
use ledisdb.Error.{Result, ok, err, ◌>>=◌, ◌>>◌, err_data_type}
use ledisdb.Bytes.{Bytes, byte_at}
use ledisdb.Key.{
  Db, kv_type, hash_type, h_size_type, l_meta_type, set_type, s_size_type, z_set_type, z_size_type,
  check_key_size,
}
use ledisdb.Key.Plain.{
  encode_kv_key, decode_kv_key, l_encode_meta_key, l_decode_meta_key, h_encode_size_key,
  h_decode_size_key, s_encode_size_key, s_decode_size_key, z_encode_size_key, z_decode_size_key,
}
use ledisdb.Key.Member.{
  h_encode_hash_key, h_decode_hash_key, s_encode_set_key, s_decode_set_key, z_encode_set_key,
  z_decode_set_key,
}
use ledisdb.Store.{Driver}
use ledisdb.Store.Iterator.{range_open, range_r_open, range_l_open, forward, backward, no_limit}
use ledisdb.Ledis.{Env, State, M}
use ledisdb.Ledis.Sized.{rows_of}
use ledisdb.Ledis.Value.{int64}

pub data DataType : Type 0 where
  kv list hash set_of zset other_type : DataType

unfoldable pub get_data_store_type : DataType → Result ℕ
get_data_store_type kv = ok kv_type
get_data_store_type list = ok l_meta_type
get_data_store_type hash = ok h_size_type
get_data_store_type set_of = ok s_size_type
get_data_store_type zset = ok z_size_type
get_data_store_type other_type = err err_data_type

abbrev pub default_scan_count : ℕ
default_scan_count = 10

unfoldable pub check_scan_count : ℤ → ℕ
check_scan_count count = if leb_ℤ count (pos 0) then default_scan_count else pos_part count

-- `BuildMatchRegexp`, and whether a key passes; without a pattern all do.
unfoldable pub build_match : (Bytes → Result (Bytes → Bool)) → Bytes → Result (Bytes → Bool)
build_match compile [] = ok (λ key. true)
build_match compile (c ∷ cs) = compile (c ∷ cs)

module _ (db : Db) where
  unfoldable pub encode_scan_key : ℕ → Bytes → Result Bytes
  encode_scan_key t key =
      if t == kv_type
      then ok (encode_kv_key db key)
      else if t == l_meta_type
      then ok (l_encode_meta_key db key)
      else if t == h_size_type
      then ok (h_encode_size_key db key)
      else if t == z_size_type
      then ok (z_encode_size_key db key)
      else if t == s_size_type
      then ok (s_encode_size_key db key)
      else err err_data_type

  unfoldable pub decode_scan_key : ℕ → Bytes → Result Bytes
  decode_scan_key t ek =
      if t == kv_type
      then decode_kv_key db ek
      else if t == l_meta_type
      then l_decode_meta_key db ek
      else if t == h_size_type
      then h_decode_size_key db ek
      else if t == z_size_type
      then z_decode_size_key db ek
      else if t == s_size_type
      then s_decode_size_key db ek
      else err err_data_type

  -- Without a key, the last byte, which is the type, goes up by one.
  unfoldable pub encode_scan_max_key : ℕ → Bytes → Result Bytes
  unfolding encode_scan_key
  encode_scan_max_key t (c ∷ key) = encode_scan_key t (c ∷ key)
  encode_scan_max_key t [] = do k ← encode_scan_key t []; ok (set k (length k - 1) (t + 1))

  unfoldable pub build_scan_key_range : ℕ → Bytes → Bool → Result (Bytes × Bytes)
  unfolding encode_scan_max_key
  build_scan_key_range t key reverse = do
    min_key ← encode_scan_key t (if reverse then [] else key)
    max_key ← encode_scan_max_key t (if reverse then key else [])
    ok (min_key, max_key)

  unfoldable pub encode_data_scan_key : ℕ → Bytes → Bytes → Result Bytes
  encode_data_scan_key t key cursor =
      if t == hash_type
      then ok (h_encode_hash_key db key cursor)
      else if t == z_set_type
      then ok (z_encode_set_key db key cursor)
      else if t == set_type
      then ok (s_encode_set_key db key cursor)
      else err err_data_type

  -- Without a cursor, the last byte, which is the start separator, goes up by one.
  unfoldable pub encode_data_scan_max_key : ℕ → Bytes → Bytes → Result Bytes
  unfolding encode_data_scan_key
  encode_data_scan_max_key t key (c ∷ cursor) = encode_data_scan_key t key (c ∷ cursor)
  encode_data_scan_max_key t key [] = do
    k ← encode_data_scan_key t key []
    b ← byte_at k (length k - 1)
    ok (set k (length k - 1) ((b + 1) % 256))

  unfoldable pub build_data_scan_key_range : ℕ → Bytes → Bytes → Bool → Result (Bytes × Bytes)
  unfolding encode_data_scan_max_key
  build_data_scan_key_range t key cursor reverse = do
    min_key ← encode_data_scan_key t key (if reverse then [] else cursor)
    max_key ← encode_data_scan_max_key t key (if reverse then cursor else [])
    ok (min_key, max_key)

-- Keys that are not of the type, and those that do not match, are passed over.
unfoldable pub scan_keys :
    (Bytes → Result Bytes) → (Bytes → Bool) → ℕ → List (Bytes × Bytes) → List Bytes
scan_keys decode accepts zero rows = []
scan_keys decode accepts (suc left) [] = []
scan_keys decode accepts (suc left) ((k, v) ∷ rows) =
    let next = scan_keys decode accepts (suc left) rows in
    let more = scan_keys decode accepts left rows in
    elim (decode k) [ err x ↦ next | ok key ↦ if accepts key then key ∷ more else next ]

-- A member with what is made of its value; a member that does not match is passed over, any other error ends
-- the scan.
unfoldable pub scan_members {ℓ} :
    {A : Type ℓ}
    → (Bytes → Result (Bytes × Bytes))
    → (Bytes → Bytes → Result A)
    → (Bytes → Bool)
    → ℕ
    → List (Bytes × Bytes)
    → Result (List A)
scan_members decode item accepts zero rows = ok []
scan_members decode item accepts (suc left) [] = ok []
scan_members decode item accepts (suc left) ((k, v) ∷ rows) =
    let next = scan_members decode item accepts (suc left) rows in
    let more = scan_members decode item accepts left rows in
    elim (decode k) [
      | err x ↦ err x
      | ok (key, m) ↦ if accepts m then (do a ← item m v; found ← more; ok (a ∷ found)) else next
    ]

module _ {S I : Type 0} (d : Driver S I) (e : Env) (compile : Bytes → Result (Bytes → Bool)) where
  -- `buildScanIterator`, run to the end
  unfoldable pub scan_rows : Bytes → Bytes → Bool → Bool → State S → List (Bytes × Bytes)
  unfolding rows_of
  scan_rows min_key max_key inclusive reverse s =
      let type = if inclusive then if reverse then range_l_open else range_r_open else range_open in
      rows_of d e min_key max_key type (no_limit d) (if reverse then backward else forward) s

  unfoldable pub scan_generic : ℕ → Bytes → ℤ → Bool → Bytes → Bool → M S (List Bytes)
  unfolding build_match build_scan_key_range check_scan_count scan_keys scan_rows decode_scan_key
  scan_generic t key count inclusive pattern reverse s = (
    (do
      accepts ← build_match compile pattern
      (min_key, max_key) ← build_scan_key_range e.db t key reverse
      ok (
          scan_keys (decode_scan_key e.db t) accepts (check_scan_count count)
            (scan_rows min_key max_key inclusive reverse s))),
    s,
  )

  -- `Scan`, and with true `RevScan`
  unfoldable pub scan : DataType → Bytes → ℤ → Bool → Bytes → Bool → M S (List Bytes)
  unfolding get_data_store_type scan_generic
  scan data_type cursor count inclusive pattern reverse s = elim (get_data_store_type data_type) [
    | err x ↦ (err x, s)
    | ok t ↦ scan_generic t cursor count inclusive pattern reverse s
  ]

  unfoldable pub scan_members_of {ℓ} :
      {A : Type ℓ}
      → ℕ
      → (Bytes → Result (Bytes × Bytes))
      → (Bytes → Bytes → Result A)
      → Bytes
      → Bytes
      → ℤ
      → Bool
      → Bytes
      → Bool
      → State S
      → Result (List A)
  unfolding build_match build_data_scan_key_range check_scan_count scan_members scan_rows
  scan_members_of t decode item key cursor count inclusive pattern reverse s = do
    accepts ← build_match compile pattern
    check_key_size key
    (min_key, max_key) ← build_data_scan_key_range e.db t key cursor reverse
    scan_members decode item accepts (check_scan_count count)
        (scan_rows min_key max_key inclusive reverse s)

  unfoldable pub h_scan_generic :
      Bytes → Bytes → ℤ → Bool → Bytes → Bool → M S (List (Bytes × Bytes))
  unfolding scan_members_of
  h_scan_generic key cursor count inclusive pattern reverse s = (
    scan_members_of hash_type (h_decode_hash_key e.db) (λ f v. ok (f, v)) key cursor count inclusive
        pattern reverse s,
    s,
  )

  unfoldable pub s_scan_generic : Bytes → Bytes → ℤ → Bool → Bytes → Bool → M S (List Bytes)
  unfolding scan_members_of
  s_scan_generic key cursor count inclusive pattern reverse s = (
    scan_members_of set_type (s_decode_set_key e.db) (λ m v. ok m) key cursor count inclusive
        pattern reverse s,
    s,
  )

  unfoldable pub z_scan_generic : Bytes → Bytes → ℤ → Bool → Bytes → Bool → M S (List (ℤ × Bytes))
  unfolding scan_members_of
  z_scan_generic key cursor count inclusive pattern reverse s = (
    scan_members_of z_set_type (z_decode_set_key e.db)
        (λ m v. int64 (ok (some v)) >>= λ x. ok (x, m)) key cursor count inclusive pattern reverse
        s,
    s,
  )
