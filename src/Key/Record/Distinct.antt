-- ===== src/Key/Record/Distinct.antt =====
-- No two records share a key of the store.
use ledisdb.Base.{ℕ, ◌≡◌, refl, ap, ◌∷◌, ◌++◌, length, false, Bool-cases, inl, inr, ◌≢◌}
use ledisdb.Error.{ok, err_hash_key, err_set_key}
use ledisdb.Bytes.{Bytes, byte_at, equal_bytes}
use ledisdb.Bytes.Compare.{equal_bytes_iff}
use ledisdb.Bytes.Slices.{byte_at_part}
use ledisdb.Key.{
  Db, hash_type, set_type, h_size_type, kv_type, s_size_type, z_size_type, l_meta_type,
}
use ledisdb.Key.Member.{h_decode_hash_key, s_decode_set_key}
use ledisdb.Key.Plain.{
  decode_kv_key, l_decode_meta_key, h_decode_size_key, s_decode_size_key, z_decode_size_key,
}
use ledisdb.Key.RoundTrip.{plain_round}
use ledisdb.Key.RoundTrip.Members.{member_round, z_set_round}
use ledisdb.Key.RoundTrip.Numbers.{list_round, score_round, exp_meta_round, exp_time_round}
use ledisdb.Key.Record.{
  Record, Fits, encode, decode_as, kv_value, list_meta, hash_size, set_size, zset_size, list_item,
  hash_field, set_member, zset_member, zset_score, exp_meta, exp_time,
}
use ledisdb.Key

-- The type byte of a record.
unfoldable pub type_of : Record → ℕ
type_of (kv_value key) = Key.kv_type
type_of (list_meta key) = Key.l_meta_type
type_of (hash_size key) = Key.h_size_type
type_of (set_size key) = Key.s_size_type
type_of (zset_size key) = Key.z_size_type
type_of (list_item key seq) = Key.list_type
type_of (hash_field key field) = Key.hash_type
type_of (set_member key member) = Key.set_type
type_of (zset_member key member) = Key.z_set_type
type_of (zset_score key member score) = Key.z_score_type
type_of (exp_meta t key) = Key.exp_meta_type
type_of (exp_time t key when) = Key.exp_time_type

module _ (db : Db) where
  -- For a record that fits, the decoder of its type gives back the record that was encoded.
  pub decode-encode : (r : Record) → Fits r → decode_as (type_of r) db (encode db r) ≡ ok r
  unfolding type_of decode_as encode
  decode-encode (kv_value key) f = unfold decode_kv_key in rw (plain_round Key.kv_type _ db key)
  decode-encode (list_meta key) f =
      unfold l_decode_meta_key in rw (plain_round Key.l_meta_type _ db key)
  decode-encode (hash_size key) f =
      unfold h_decode_size_key in rw (plain_round Key.h_size_type _ db key)
  decode-encode (set_size key) f =
      unfold s_decode_size_key in rw (plain_round Key.s_size_type _ db key)
  decode-encode (zset_size key) f =
      unfold z_decode_size_key in rw (plain_round Key.z_size_type _ db key)
  decode-encode (list_item key seq) (f, i) = rw (list_round db key seq f i)
  decode-encode (hash_field key field) f =
      unfold h_decode_hash_key in rw (member_round Key.hash_type db key field f err_hash_key)
  decode-encode (set_member key member) f =
      unfold s_decode_set_key in rw (member_round Key.set_type db key member f err_set_key)
  decode-encode (zset_member key member) f = rw (z_set_round db key member f)
  decode-encode (zset_score key member score) (f, i) = rw (score_round db key member score f i)
  decode-encode (exp_meta t key) f = rw (exp_meta_round db t key)
  decode-encode (exp_time t key when) f = rw (exp_time_round db t key when f)

  -- The type byte stands behind the index of the database.
  pub encode_shape :
      (r : Record) → (body : Bytes) × (encode db r ≡ db.index_var_buf ++ type_of r ∷ body)
  unfolding encode type_of
  encode_shape (kv_value key) = (_, refl)
  encode_shape (list_meta key) = (_, refl)
  encode_shape (hash_size key) = (_, refl)
  encode_shape (set_size key) = (_, refl)
  encode_shape (zset_size key) = (_, refl)
  encode_shape (list_item key seq) = (_, refl)
  encode_shape (hash_field key field) = (_, refl)
  encode_shape (set_member key member) = (_, refl)
  encode_shape (zset_member key member) = (_, refl)
  encode_shape (zset_score key member score) = (_, refl)
  encode_shape (exp_meta t key) = (_, refl)
  encode_shape (exp_time t key when) = (_, refl)

  byte_at-encode : (r : Record) → byte_at (encode db r) (length db.index_var_buf) ≡ ok (type_of r)
  byte_at-encode r =
      let (body, e) = encode_shape r in
      byte_at_part (encode db r) db.index_var_buf body (type_of r) (length db.index_var_buf) e refl

  same_type : (r s : Record) → encode db r ≡ encode db s → type_of r ≡ type_of s
  same_type r s e =
      cc (byte_at-encode r, byte_at-encode s, ap (λ k. byte_at k (length db.index_var_buf)) e)

  -- In one database two records that fit share a key of the store only if they are the same record:
  -- the data types, the users' keys, the members and the expirations never collide.
  pub encode-injective : (r s : Record) → Fits r → Fits s → encode db r ≡ encode db s → r ≡ s
  encode-injective r s f g e = cc (
    decode-encode r f,
    decode-encode s g,
    ap (λ k. decode_as (type_of r) db k) e,
    ap (λ t. decode_as t db (encode db s)) (same_type r s e),
  )

  -- The keys of different records differ as Go compares them.
  pub equal_bytes-encode_ne :
      (r s : Record) → Fits r → Fits s → r ≢ s → equal_bytes (encode db r) (encode db s) ≡ false
  equal_bytes-encode_ne r s f g ne = elim (Bool-cases (equal_bytes (encode db r) (encode db s))) [
    | inl e ↦ absurd (ne (encode-injective r s f g ((equal_bytes_iff _ _).0 e)))
    | inr e ↦ e
  ]
