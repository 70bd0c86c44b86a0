-- ===== src/Key/Record/Event.antt =====
-- `formatEventKey` of ledis/event.go on the keys of databases below 128 and above.
use ledisdb.Base.{
  ℕ, suc, ◌+◌, ◌/◌, ◌%◌, ◌<◌, ◌≤◌, ◌≡◌, ◌≢◌, refl, ap, ◌∙◌, true, [], ◌∷◌, ◌++◌, length, arith,
}
use native.Mathlib.Decide.{dec_lt}
use ledisdb.Error.{ok, err, err_kv_key}
use ledisdb.Bytes.{Bytes, byte_at}
use ledisdb.Bytes.Slices.{get_elem?_part}
use ledisdb.Key.{set_index, decode_db_index, kv_type, lacks_type, max_databases}
use ledisdb.Key.RoundTrip.{check_key_index-append}
use ledisdb.Key.RoundTrip.Members.{long_enough}
use ledisdb.Key.Plain.{decode_kv_key}
use ledisdb.Key.Record.{Record, Fits, encode, decode_as, format_event_key}
use ledisdb.Key.Record.Distinct.{type_of, encode_shape, decode-encode}

lacks_other :
    (p r : Bytes) (t : ℕ) → t ≢ kv_type → lacks_type (p ++ t ∷ r) (length p) kv_type ≡ true
unfolding lacks_type
lacks_other p r t ne = ground (arith, get_elem?_part (p ++ t ∷ r) p r t (length p) refl refl)

one_byte : (i : ℕ) → i < 128 → (set_index i).index_var_buf ≡ i ∷ []
unfolding set_index
one_byte i h = ground arith

two_bytes :
    (i : ℕ)
    → 128 ≤ i
    → i ≤ max_databases
    → (set_index i).index_var_buf ≡ (i % 128 + 128) ∷ i / 128 ∷ []
unfolding set_index
two_bytes i lo hi = ground arith

-- The index, at most 10240, that a database writes in front of its keys is read back, with the number of its bytes.
pub decode_db_index-set_index :
    (i : ℕ) (r : Bytes)
    → i ≤ max_databases
    → decode_db_index ((set_index i).index_var_buf ++ r)
      ≡ ok (i, length (set_index i).index_var_buf)
decode_db_index-set_index i r h = elim (dec_lt i 128) [
  | yes p ↦ rw (one_byte i p) (unfold decode_db_index in ground arith)
  | no p ↦ rw (two_bytes i (omega arith) h) (unfold decode_db_index in ground arith)
]

module _ (i : ℕ) (body : Bytes) (t : ℕ) where
  -- What `formatEventKey` sees of a key with the index in one byte, and in two.
  event_one_byte :
      i < 128 → format_event_key (i ∷ t ∷ body) ≡ decode_as t (set_index i) (i ∷ t ∷ body)
  unfolding format_event_key byte_at
  event_one_byte h = rw (
    long_enough (suc (suc (length body))) 2 (omega arith),
    rw (one_byte i h) at (decode_db_index-set_index i (t ∷ body) (omega arith)),
  )

  event_two_bytes :
      128 ≤ i
      → i ≤ max_databases
      → (k : Bytes) → k ≡ (i % 128 + 128) ∷ i / 128 ∷ t ∷ body
      → format_event_key k ≡ decode_as (i / 128) (set_index i) k
  unfolding format_event_key byte_at
  event_two_bytes lo hi k e = rw (
    e,
    long_enough (suc (suc (suc (length body)))) 2 (omega arith),
    rw (two_bytes i lo hi) at (decode_db_index-set_index i (t ∷ body) hi),
  )

-- The event of a key of a database below 128, of a record that fits, names the record that was stored.
pub format_event_key-encode :
    (i : ℕ) (r : Record) → i < 128 → Fits r → format_event_key (encode (set_index i) r) ≡ ok r
format_event_key-encode i r h f =
    let (body, e) = encode_shape (set_index i) r in
    let e' : encode (set_index i) r ≡ i ∷ type_of r ∷ body =
      e ∙ ap (λ b. b ++ type_of r ∷ body) (one_byte i h) in
    rw (e', event_one_byte i body (type_of r) h, ← e') (decode-encode (set_index i) r f)

-- In the databases from 128 to 255 the byte that is taken for the type is the second one of the
-- index, which is the type of plain values: the key of any other record is refused as an invalid one.
pub format_event_key_wide_index :
    (i : ℕ) (r : Record)
    → 128 ≤ i
    → i < 256
    → type_of r ≢ kv_type
    → format_event_key (encode (set_index i) r) ≡ err err_kv_key
format_event_key_wide_index i r lo hi ne =
    let (body, e) = encode_shape (set_index i) r in
    let e' : encode (set_index i) r ≡ (i % 128 + 128) ∷ i / 128 ∷ type_of r ∷ body =
      e ∙ ap (λ b. b ++ type_of r ∷ body) (two_bytes i lo (omega arith)) in
    let one : i / 128 ≡ 1 = omega arith in
    event_two_bytes i body (type_of r) lo (omega arith) (encode (set_index i) r) e'
    ∙ rw (one, e)
        (unfold decode_as decode_kv_key in
          rw (
            check_key_index-append (set_index i) (type_of r ∷ body),
            lacks_other (set_index i).index_var_buf body (type_of r) ne,
          ))
