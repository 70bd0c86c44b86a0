-- ===== src/Samples/Zsets.antt =====
-- The theorems on sorted sets, at an empty store.
use ledisdb.Base.{ℕ, ◌<◌, ◌≡◌, refl, ap, ◌∙◌, ◌&&◌, some, none, [], ◌∷◌, arith}
use ledisdb.Base.Int.{ℤ, pos, negsuc, ◌+ℤ◌, leb_ℤ, wrap64}
use ledisdb.Error.{ok}
use ledisdb.Bytes.{Bytes, equal_bytes}
use ledisdb.Key.{z_set_type, check_z_set_km_size}
use ledisdb.Key.Member.{z_encode_set_key}
use ledisdb.Key.Sorted.{exp_encode_meta_key, z_encode_score_key}
use ledisdb.Store.Map.{find_row}
use ledisdb.Ledis.{State}
use ledisdb.Ledis.Commit.{IsReady, look}
use ledisdb.Ledis.Value.{put_int64, int64, int64-put_int64}
use ledisdb.Ledis.Zset.{z_add, z_rem, z_incr_by}
use ledisdb.Ledis.Zset.Items.{IsZset, put_item, drop_item}
use ledisdb.Ledis.Zset.Adds.{z_add_lem}
use ledisdb.Ledis.Zset.Removes.{z_rem_lem}
use ledisdb.Ledis.Zset.Increments.{z_incr_by_lem, z_incr_by_zero}
use ledisdb.Ledis.Zset.Ranges.{z_parse_limit}
use ledisdb.Ledis.Zset.Limits.{selects, row_of, z_parse_limit_lem}
use ledisdb.Samples.Memory.{memory, memory-IsOrderedMap, Table}
use ledisdb.Samples.States.{env, key, fresh, fresh-IsReady, key_fits}

abbrev member : Bytes
member = 109 ∷ []

member_fits : check_z_set_km_size key member ≡ ok tt
unfolding check_z_set_km_size
member_fits = refl

fresh-IsZset : IsZset memory-IsOrderedMap env key fresh []
unfolding memory-IsOrderedMap find_row
fresh-IsZset = record {
  distinct = tt;
  fits = λ k x h. cc;
  members = λ k. refl;
  scores = λ k x h. refl;
  size = refl;
}

z_add_lem_example :
    ((z_add memory env key ((pos 3, member) ∷ []) fresh).0 ≡ ok (pos 1))
    × IsZset memory-IsOrderedMap env key
        (z_add memory env key ((pos 3, member) ∷ []) fresh).1
        (put_item member (pos 3) [])
    × IsReady (z_add memory env key ((pos 3, member) ∷ []) fresh).1
z_add_lem_example =
    z_add_lem memory-IsOrderedMap env key fresh [] (pos 3) member fresh-IsReady fresh-IsZset
      key_fits member_fits (omega arith) (omega arith) (omega arith)

-- A sorted set of one member
abbrev added : State Table
added = (z_add memory env key ((pos 3, member) ∷ []) fresh).1

added-IsZset : IsZset memory-IsOrderedMap env key added ((member, pos 3) ∷ [])
unfolding put_item
added-IsZset =
    (z_add_lem memory-IsOrderedMap env key fresh [] (pos 3) member fresh-IsReady fresh-IsZset
      key_fits member_fits (omega arith) (omega arith) (omega arith)).1

added-IsReady : IsReady added
added-IsReady =
    (z_add_lem memory-IsOrderedMap env key fresh [] (pos 3) member fresh-IsReady fresh-IsZset
      key_fits member_fits (omega arith) (omega arith) (omega arith)).2

no_time : look memory-IsOrderedMap added (exp_encode_meta_key env.db z_set_type key) ≡ none
unfolding memory memory-IsOrderedMap z_add find_row equal_bytes check_z_set_km_size int64 wrap64
    ◌+ℤ◌ ledisdb.Ledis.commit ledisdb.Rpl.log ledisdb.Store.batch_put ledisdb.Bytes.compare_bytes
    z_encode_score_key ledisdb.Key.set_index z_encode_set_key ledisdb.Key.Plain.z_encode_size_key
    exp_encode_meta_key
no_time = refl

z_rem_lem_example :
    ((z_rem memory env key (member ∷ []) added).0 ≡ ok (pos 1))
    × IsZset memory-IsOrderedMap env key
        (z_rem memory env key (member ∷ []) added).1
        (drop_item member ((member, pos 3) ∷ []))
    × IsReady (z_rem memory env key (member ∷ []) added).1
unfolding equal_bytes
z_rem_lem_example =
    z_rem_lem memory-IsOrderedMap env key added ((member, pos 3) ∷ []) member added-IsReady
      added-IsZset key_fits member_fits no_time (omega arith)

z_incr_by_lem_example :
    ((z_incr_by memory env key (pos 2) member added).0 ≡ ok (pos 5))
    × IsZset memory-IsOrderedMap env key
        (z_incr_by memory env key (pos 2) member added).1
        (put_item member (pos 5) ((member, pos 3) ∷ []))
    × IsReady (z_incr_by memory env key (pos 2) member added).1
unfolding equal_bytes wrap64 ◌+ℤ◌
z_incr_by_lem_example =
    z_incr_by_lem memory-IsOrderedMap env key key_fits added ((member, pos 3) ∷ []) (pos 2) (pos 5)
      member added-IsReady added-IsZset member_fits refl refl (omega arith) (omega arith)
      (omega arith)

z_incr_by_zero_example :
    ((z_incr_by memory env key (pos 0) member added).0 ≡ ok (pos 3))
    × (look memory-IsOrderedMap
          (z_incr_by memory env key (pos 0) member added).1
          (z_encode_set_key env.db key member)
        ≡ some (put_int64 (pos 3)))
    × (look memory-IsOrderedMap
          (z_incr_by memory env key (pos 0) member added).1
          (z_encode_score_key env.db key member (pos 3))
        ≡ none)
unfolding equal_bytes
z_incr_by_zero_example =
    z_incr_by_zero memory-IsOrderedMap env key added ((member, pos 3) ∷ []) (pos 3) member
      added-IsReady added-IsZset key_fits member_fits refl (omega arith) (omega arith) (omega arith)

z_parse_limit_lem_example :
    (limit : ℤ × ℤ) × (z_parse_limit memory env key (negsuc 0) (negsuc 0) added ≡ (ok limit, added))
    × ((i : ℕ)
        → i < 1
        → selects limit i
          ≡ (leb_ℤ (row_of 1 (negsuc 0)) (pos i) && leb_ℤ (pos i) (row_of 1 (negsuc 0))))
z_parse_limit_lem_example =
    z_parse_limit_lem memory-IsOrderedMap env key added 1 (negsuc 0) (negsuc 0) key_fits
      (ap (λ v. int64 (ok v)) added-IsZset.size ∙ int64-put_int64 (pos 1) (omega arith))
      (omega arith) (omega arith) (omega arith)
