-- ===== src/Key/Range.antt =====
-- The iterator bounds of ledis/t_hash.go, ledis/t_set.go and ledis/t_zset.go select the members of
-- one user's key.
use ledisdb.Base.{
  ℕ, ◌-◌, ◌≡◌, ◌≢◌, ◌↔◌, refl, sym, ap, ◌∙◌, [], ◌∷◌, ◌++◌, length, length-append, append_assoc,
  set, arith,
}
use Prim.Native.Nat.{Ordering}
use ledisdb.Bytes.{Bytes, compare_bytes}
use ledisdb.Bytes.Compare.{in_prefix_range, prefix_in_range}
use ledisdb.Key.{Db}
use ledisdb.Key.Member.{sized_key, start_sep, stop_sep, member_key, member_stop_key}

set_last : (p : Bytes) (x y : ℕ) → set (p ++ x ∷ []) (length p) y ≡ p ++ y ∷ []
set_last [] x y = refl
set_last (z ∷ p) x y = ap (λ l. z ∷ l) (set_last p x y)

module _ (t : ℕ) (db : Db) (key : Bytes) where
  -- What all members of `key` have in front of the separator.
  abbrev member_prefix : Bytes
  member_prefix = db.index_var_buf ++ t ∷ sized_key key

  pub member_key_prefix : (m : Bytes) → member_key t db key m ≡ member_prefix ++ start_sep ∷ m
  unfolding member_key
  member_key_prefix m = simp append_assoc

  stop_key_prefix : member_stop_key t db key ≡ member_prefix ++ stop_sep ∷ []
  unfolding member_stop_key
  stop_key_prefix = rw (member_key_prefix [], last) (set_last member_prefix start_sep stop_sep)
    where
      last : length (member_prefix ++ start_sep ∷ []) - 1 ≡ length member_prefix
      last = omega (arith, length-append {0} member_prefix (start_sep ∷ []))

  -- A stored key lies in [start, stop) exactly when it is the key of a member of `key`, whatever the
  -- other keys of the store are.
  pub member_range :
      (ek : Bytes)
      → (compare_bytes (member_key t db key []) ek ≢ Ordering.gt)
          × (compare_bytes ek (member_stop_key t db key) ≡ Ordering.lt)
        ↔ ((m : Bytes) × (ek ≡ member_key t db key m))
  member_range ek = (inside, member)
    where
      inside :
          (compare_bytes (member_key t db key []) ek ≢ Ordering.gt)
            × (compare_bytes ek (member_stop_key t db key) ≡ Ordering.lt)
          → (m : Bytes) × (ek ≡ member_key t db key m)
      inside (lo, hi) =
          let (m, e) =
            in_prefix_range member_prefix start_sep ek (rw (member_key_prefix []) at lo)
              (rw stop_key_prefix at hi) in
          (m, e ∙ sym (member_key_prefix m))

      member :
          (m : Bytes) × (ek ≡ member_key t db key m)
          → (compare_bytes (member_key t db key []) ek ≢ Ordering.gt)
            × (compare_bytes ek (member_stop_key t db key) ≡ Ordering.lt)
      member (m, e) =
          rw (e, member_key_prefix [], member_key_prefix m, stop_key_prefix)
            (prefix_in_range member_prefix start_sep m)
