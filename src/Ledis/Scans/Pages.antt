-- ===== src/Ledis/Scans/Pages.antt =====
-- What one scan over the members of a set (ledis/scan.go) gives: the next members behind the cursor.
use Prim.Native.Nat.{Ordering}
use ledisdb.Base.{
  ℕ, zero, suc, ◌-◌, ◌≤◌, ◌<◌, ◌≡◌, ◌≢◌, refl, sym, ap, ◌∙◌, inl, inr, Bool, true, false, ◌&&◌,
  List, [], ◌∷◌, ◌++◌, map, length, length-append, take, All, Bool-cases, arith,
}
use ledisdb.Base.Int.{pos, negsuc}
use ledisdb.Error.{Result, ok, err, err_set_key}
use ledisdb.Bytes.{Bytes, compare_bytes}
use ledisdb.Bytes.Slices.{byte_at_part}
use ledisdb.Key.{check_key_size, set_type}
use ledisdb.Key.Member.{
  s_encode_set_key, s_decode_set_key, s_encode_start_key, s_encode_stop_key, member_stop_key,
  sized_key, start_sep,
}
use ledisdb.Key.Range.{member_range, member_key_prefix}
use ledisdb.Key.RoundTrip.Members.{check_key_size-lt, member_round}
use ledisdb.Store.{Driver}
use ledisdb.Store.Map.{Row, IsOrderedMap}
use ledisdb.Store.Iterator.{above, below}
use ledisdb.Store.Scan.{and_left, and_right, below_lt, swap_lt}
use ledisdb.Bytes.Compare.{compare_swap, compare_above, compare_refl}
use ledisdb.Store.Rows.{rows_in_range, cap}
use ledisdb.Store.Range.{range_rows_lem}
use ledisdb.Ledis.{Env, State}
use ledisdb.Ledis.Sets.{decode_members, set_rows}
use ledisdb.Ledis.Scans.{
  build_data_scan_key_range, scan_members, scan_rows, s_scan_generic, check_scan_count,
}
use ledisdb.Ledis.Scans.Cursor.{between, from}

-- The member that a row is of
abbrev pub name_of : Result (Bytes × Bytes) → Bytes
name_of (err x) = []
name_of (ok (key, m)) = m

above_first :
    (first low k : Bytes)
    → compare_bytes first low ≢ Ordering.gt
    → above k low ≡ true
    → compare_bytes first k ≡ Ordering.lt
above_first first low k h up = ground (
  arith,
  up,
  h,
  compare_swap k low,
  swap_lt low first,
  compare_above low k first,
  compare_swap k first,
)

module _ {S I : Type 0} {d : Driver S I} (m : IsOrderedMap d) (e : Env) (key : Bytes)
    (compile : Bytes → Result (Bytes → Bool)) where
  abbrev pub enc : Bytes → Bytes
  enc = s_encode_set_key e.db key

  abbrev pub stop : Bytes
  stop = s_encode_stop_key e.db key

  abbrev pub names : List Row → List Bytes
  names = map (λ row. name_of (s_decode_set_key e.db row.0))

  abbrev pub IsMember : Row → Type 0
  IsMember row = row.0 ≡ enc (name_of (s_decode_set_key e.db row.0))

  s_decode-s_encode :
      (short : check_key_size key ≡ ok tt) (x : Bytes) → s_decode_set_key e.db (enc x) ≡ ok (key, x)
  unfolding s_decode_set_key s_encode_set_key
  s_decode-s_encode short x =
      member_round set_type e.db key x (check_key_size-lt key short) err_set_key

  decoded :
      (short : check_key_size key ≡ ok tt) (k : Bytes)
      → k ≡ enc (name_of (s_decode_set_key e.db k))
      → s_decode_set_key e.db k ≡ ok (key, name_of (s_decode_set_key e.db k))
  decoded short k h = ap (s_decode_set_key e.db) h ∙ s_decode-s_encode short _

  scan_members-cons :
      (n : ℕ) (k v j x : Bytes) (rows : List Row) (xs : List Bytes)
      → s_decode_set_key e.db k ≡ ok (j, x)
      → scan_members (s_decode_set_key e.db) (λ l v. ok l) (λ l. true) n rows ≡ ok xs
      → scan_members (s_decode_set_key e.db) (λ l v. ok l) (λ l. true) (suc n) ((k, v) ∷ rows)
        ≡ ok (x ∷ xs)
  unfolding scan_members
  scan_members-cons n k v j x rows xs p q = rw (p, scan_members) (rw (q, scan_members) refl)

  scan_members-names :
      (short : check_key_size key ≡ ok tt) (n : ℕ) (rows : List Row)
      → All IsMember rows
      → scan_members (s_decode_set_key e.db) (λ k v. ok k) (λ k. true) n rows
        ≡ ok (take n (names rows))
  unfolding scan_members
  scan_members-names short zero rows h = refl
  scan_members-names short (suc n) [] h = refl
  scan_members-names short (suc n) ((k, v) ∷ rows) h =
      scan_members-cons n k v key _ rows _ (decoded short k h.0)
        (scan_members-names short n rows h.1)

  decode_members-cons :
      (k v j x : Bytes) (rows : List Row) (xs : List Bytes)
      → s_decode_set_key e.db k ≡ ok (j, x)
      → decode_members d e rows ≡ ok xs
      → decode_members d e ((k, v) ∷ rows) ≡ ok (x ∷ xs)
  unfolding decode_members
  decode_members-cons k v j x rows xs p q = rw (p, decode_members) (rw (q, decode_members) refl)

  pub decode_members-names :
      (short : check_key_size key ≡ ok tt) (rows : List Row)
      → All IsMember rows
      → decode_members d e rows ≡ ok (names rows)
  unfolding decode_members
  decode_members-names short [] h = refl
  decode_members-names short ((k, v) ∷ rows) h =
      decode_members-cons k v key _ rows _ (decoded short k h.0)
        (decode_members-names short rows h.1)

  first_below : (c k : Bytes) → above k (enc c) ≡ true → compare_bytes (enc []) k ≡ Ordering.lt
  unfolding s_encode_set_key
  first_below c k low =
      above_first (enc []) (enc c) k ((member_range set_type e.db key (enc c)).1 (c, refl)).0 low

  not_empty :
      (short : check_key_size key ≡ ok tt) (c k : Bytes)
      → k ≡ enc (name_of (s_decode_set_key e.db k))
      → above k (enc c) ≡ true
      → name_of (s_decode_set_key e.db k) ≢ []
  not_empty short c k same low empty =
      let at_first : k ≡ enc [] = same ∙ ap enc empty in
      let lt = first_below c k low in
      ground (arith, ap (compare_bytes (enc [])) at_first, lt, compare_refl (enc []))

  named : (short : check_key_size key ≡ ok tt) (k x : Bytes) → k ≡ enc x → IsMember (k, [])
  named short k x same =
      same ∙ ap enc (sym (ap name_of (ap (s_decode_set_key e.db) same ∙ s_decode-s_encode short x)))

  member_between :
      (c ek : Bytes) → above ek (enc c) ≡ true → below ek stop ≡ true → (x : Bytes) × (ek ≡ enc x)
  unfolding s_encode_set_key s_encode_stop_key
  member_between c ek low high =
      (member_range set_type e.db key ek).0
        ((λ p. ground (arith, p, first_below c ek low)), below_lt ek stop high)

  pub members_between :
      (short : check_key_size key ≡ ok tt) (c : Bytes) (rows : List Row)
      → All IsMember (rows_in_range (between (enc c) stop) rows)
  unfolding rows_in_range
  members_between short c [] = tt
  members_between short c ((k, v) ∷ rows) = elim (Bool-cases (above k (enc c) && below k stop)) [
    | inr out ↦ rw out (members_between short c rows)
    | inl inside ↦
        let (x, same) = member_between c k (and_left _ _ inside) (and_right _ _ inside) in
        rw inside (named short k x same, members_between short c rows)
  ]

  -- None of them is the empty member.
  pub named_between :
      (short : check_key_size key ≡ ok tt) (c : Bytes) (rows : List Row)
      → All
          (λ row. name_of (s_decode_set_key e.db row.0) ≢ [])
          (rows_in_range (between (enc c) stop) rows)
  unfolding rows_in_range
  named_between short c [] = tt
  named_between short c ((k, v) ∷ rows) = elim (Bool-cases (above k (enc c) && below k stop)) [
    | inr out ↦ rw out (named_between short c rows)
    | inl inside ↦
        let (x, same) = member_between c k (and_left _ _ inside) (and_right _ _ inside) in
        rw inside (
          not_empty short c k (named short k x same) (and_left _ _ inside),
          named_between short c rows,
        )
  ]

  scan_run :
      (c : Bytes) (s : State S)
      → length (m.rows s.store) ≤ e.fuel
      → scan_rows d e compile (enc c) stop false false s
        ≡ rows_in_range (between (enc c) stop) (m.rows s.store)
  unfolding scan_rows cap
  scan_run c s h =
      let i = d.new_iterator s.store in
      range_rows_lem d m i (between (enc c) stop) 0 (negsuc 0) e.fuel
        (rw (m.all_new s.store) (m.sorted s.store)) (rw (m.all_new s.store) h)
      ∙ ap (rows_in_range (between (enc c) stop)) (m.all_new s.store)

  pub set_rows_run :
      (s : State S)
      → length (m.rows s.store) ≤ e.fuel
      → set_rows d e key s ≡ rows_in_range (from (enc []) stop) (m.rows s.store)
  unfolding set_rows s_encode_start_key cap
  set_rows_run s h =
      let i = d.new_iterator s.store in
      range_rows_lem d m i (from (enc []) stop) 0 (negsuc 0) e.fuel
        (rw (m.all_new s.store) (m.sorted s.store)) (rw (m.all_new s.store) h)
      ∙ ap (rows_in_range (from (enc []) stop)) (m.all_new s.store)

  key_range : (c : Bytes) → build_data_scan_key_range e.db set_type key c false ≡ ok (enc c, stop)
  unfolding build_data_scan_key_range s_encode_set_key
  key_range c =
      let front : Bytes = e.db.index_var_buf ++ set_type ∷ sized_key key in
      let parts : enc [] ≡ front ++ start_sep ∷ [] =
        unfold s_encode_set_key in member_key_prefix set_type e.db key [] in
      let width : length (enc []) - 1 ≡ length front =
        rw parts (omega (arith, length-append {0} front (start_sep ∷ []))) in
      rw (byte_at_part (enc []) front [] start_sep (length (enc []) - 1) parts width)
        (unfold s_encode_stop_key member_stop_key in refl)

  module _ (short : check_key_size key ≡ ok tt) (n : ℕ) (s : State S)
      (enough : length (m.rows s.store) ≤ e.fuel) where
    abbrev pub left : Bytes → List Row
    left c = rows_in_range (between (enc c) stop) (m.rows s.store)

    abbrev pub page : Bytes → Result (List Bytes)
    page c = (s_scan_generic d e compile key c (pos n) false [] false s).0

    pub page_lem : 0 < n → (c : Bytes) → page c ≡ ok (take n (names (left c)))
    unfolding s_scan_generic
    page_lem some_rows c =
        let whole : check_scan_count (pos n) ≡ n = ground (arith, some_rows) in
        rw
          (
            short,
            key_range c,
            whole,
            scan_run c s enough,
            scan_members-names short n (left c) (members_between short c (m.rows s.store)),
          )
          refl
