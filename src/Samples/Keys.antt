-- ===== src/Samples/Keys.antt =====
-- The theorems on the keys, at keys that the handlers write.
use Prim.Native.Nat.{Ordering}
use ledisdb.Base.{◌≡◌, ◌≢◌, ◌↔◌, refl, [], ◌∷◌, arith}
use ledisdb.Base.Int.{pos, negsuc}
use ledisdb.Error.{ok, err, err_kv_key}
use ledisdb.Bytes.{compare_bytes}
use ledisdb.Key.{set_index, hash_type}
use ledisdb.Key.Member.{member_key, member_stop_key}
use ledisdb.Key.Sorted.{z_encode_score_key}
use ledisdb.Key.Record.{Record, encode, decode_as, zset_score, hash_field, format_event_key}
use ledisdb.Key.Record.Distinct.{type_of, encode-injective, decode-encode}
use ledisdb.Key.Record.Event.{format_event_key-encode, format_event_key_wide_index}
use ledisdb.Key.Range.{member_range}
use ledisdb.Key.Order.{score_key_mono}

abbrev score : Record
score = zset_score (97 ∷ 98 ∷ []) (109 ∷ []) (negsuc 4)

abbrev field : Record
field = hash_field (97 ∷ 58 ∷ []) (102 ∷ [])

encode-injective_example : score ≡ score
encode-injective_example =
    encode-injective (set_index 200) score score (omega arith, omega arith)
      (omega arith, omega arith) refl

decode-encode_example :
    decode_as (type_of score) (set_index 3) (encode (set_index 3) score) ≡ ok score
decode-encode_example = decode-encode (set_index 3) score (omega arith, omega arith)

member_range_example :
    (compare_bytes
          (member_key hash_type (set_index 0) (97 ∷ []) [])
          (member_key hash_type (set_index 0) (97 ∷ []) (102 ∷ []))
        ≢ Ordering.gt)
      × (compare_bytes
            (member_key hash_type (set_index 0) (97 ∷ []) (102 ∷ []))
            (member_stop_key hash_type (set_index 0) (97 ∷ []))
          ≡ Ordering.lt)
    ↔ ((m : _) × (member_key hash_type (set_index 0) (97 ∷ []) (102 ∷ [])
          ≡ member_key hash_type (set_index 0) (97 ∷ []) m))
member_range_example =
    member_range hash_type (set_index 0) (97 ∷ [])
      (member_key hash_type (set_index 0) (97 ∷ []) (102 ∷ []))

score_key_mono_example :
    compare_bytes
      (z_encode_score_key (set_index 0) (107 ∷ []) (122 ∷ []) (negsuc 0))
      (z_encode_score_key (set_index 0) (107 ∷ []) (97 ∷ []) (pos 7))
    ≡ Ordering.lt
score_key_mono_example =
    score_key_mono (set_index 0) (107 ∷ []) (122 ∷ []) (97 ∷ []) (negsuc 0) (pos 7) (omega arith)
      (omega arith) (omega arith)

format_event_key-encode_example : format_event_key (encode (set_index 15) field) ≡ ok field
format_event_key-encode_example = format_event_key-encode 15 field (omega arith) (omega arith)

format_event_key_wide_index_example :
    format_event_key (encode (set_index 128) field) ≡ err err_kv_key
unfolding type_of
format_event_key_wide_index_example =
    format_event_key_wide_index 128 field (omega arith) (omega arith) (λ p. omega arith)
