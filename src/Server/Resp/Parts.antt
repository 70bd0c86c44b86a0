-- ===== src/Server/Resp/Parts.antt =====
-- What a client reads of a line, of a bulk string and of an array of bulk strings that
-- server/client_resp.go has written.
use ledisdb.Base.{
  ℕ, suc, ◌+◌, ◌^◌, ◌<◌, ◌≡◌, refl, ap, ◌∙◌, false, Option, none, some, List, [], ◌∷◌, ◌++◌,
  append_assoc, length, length-append, take-append, drop, ltb, ◌==◌, All, arith,
}
use ledisdb.Base.Int.{ℤ, pos, negsuc, IsInt64}
use ledisdb.Error.{Error, Result, ok, err}
use ledisdb.Bytes.{Bytes}
use ledisdb.Server.Text.{Text, word}
use ledisdb.Server.Resp.{delims, write_bulk_bytes, write_count, write_bulks}
use ledisdb.Server.Resp.Reader.{
  RespValue, bulk_string, array, RespValues, nil, cons, read_line, read_bulk, read_many, read_array,
  read_value, length_of, read_kind,
}

abbrev pub IsLine : Bytes → Type 0
IsLine = All (λ c. (c == b'\r') ≡ false)

read-line : (l rest : Bytes) → IsLine l → read_line (l ++ (delims ++ rest)) ≡ some (l, rest)
unfolding read_line
read-line [] rest h = refl
read-line (c ∷ []) rest h = rw (h.0) refl
read-line (c ∷ e ∷ l) rest h = rw (h.0, read-line (e ∷ l) rest h.1) refl

-- What strconv and the package num promise: a number is printed on one line and read back.
pub record IsDecimal (t : Text) : Type 0 where
  pub parse_format : (n : ℤ) → IsInt64 n → t.parse_int64 (t.format_int n) ≡ ok n
  pub format_line : (n : ℤ) → IsLine (t.format_int n)
  pub parse_itoa : (n : ℕ) → n < 2 ^ 63 → t.parse_int64 (t.itoa n) ≡ ok (pos n)
  pub itoa_line : (n : ℕ) → IsLine (t.itoa n)
  pub parse_minus_one : t.parse_int64 (word "-1") ≡ ok (negsuc 0)

drop_frame : (b rest : Bytes) → drop (length b + 2) (b ++ (delims ++ rest)) ≡ rest
drop_frame [] rest = refl
drop_frame (x ∷ b) rest =
    let e : suc (length b) + 2 ≡ suc (length b + 2) = omega arith in rw e (drop_frame b rest)

module _ (t : Text) (m : IsDecimal t) (error_text : Error → Bytes) where
  pub read-written :
      (depth c : ℕ) (l rest : Bytes)
      → IsLine l
      → read_value t (suc depth) (c ∷ (l ++ (delims ++ rest)))
        ≡ read_kind t (read_value t depth) c l rest
  unfolding read_value
  read-written depth c l rest h = rw (read-line l rest h, read_value) refl

  pub read_length : (line : Bytes) (n : ℤ) → t.parse_int64 line ≡ ok n → length_of t line ≡ some n
  read_length line n e =
      ap (λ (r : Result ℤ). elim r as (λ _. Option ℤ) [ err x ↦ none | ok k ↦ some k ]) e

  abbrev pub FitsBulk : Option Bytes → Type 0
  FitsBulk none = Unit {0}
  FitsBulk (some b) = length b < 2 ^ 63

  read_bulk-append :
      (b rest : Bytes)
      → read_bulk t (some (pos (length b))) (b ++ (delims ++ rest))
        ≡ some (bulk_string (some b), rest)
  unfolding read_bulk
  read_bulk-append b rest =
      let long : ltb (length (b ++ (delims ++ rest))) (length b + 2) ≡ false =
        ground (arith, length-append b (delims ++ rest)) in
      rw (long, take-append b (delims ++ rest), drop_frame b rest) refl

  pub read_bulk-write :
      (depth : ℕ) (b : Option Bytes) (rest : Bytes)
      → FitsBulk b
      → read_value t (suc depth) (write_bulk_bytes t error_text b ++ rest)
        ≡ some (bulk_string b, rest)
  unfolding write_bulk_bytes read_bulk
  read_bulk-write depth none rest h =
      read-written depth b'$' (word "-1") rest (refl, (refl, tt))
      ∙ ap (λ o. read_bulk t o rest) (read_length (word "-1") (negsuc 0) m.parse_minus_one)
  read_bulk-write depth (some b) rest h =
      let l = t.itoa (length b) in
      let frame : write_bulk_bytes t error_text (some b) ++ rest
          ≡ b'$' ∷ (l ++ (delims ++ (b ++ (delims ++ rest)))) =
        simp append_assoc refl in
      rw frame (
        read-written depth b'$' l (b ++ (delims ++ rest)) (m.itoa_line (length b))
        ∙ ap (λ o. read_bulk t o (b ++ (delims ++ rest)))
            (read_length l (pos (length b)) (m.parse_itoa (length b) h))
        ∙ read_bulk-append b rest)

  abbrev pub bulk_values : List (Option Bytes) → RespValues
  bulk_values [] = nil
  bulk_values (b ∷ bs) = cons (bulk_string b) (bulk_values bs)

  pub read_many-cons :
      (read : Bytes → Option (RespValue × Bytes)) (n : ℕ) (bs r r' : Bytes) (v : RespValue)
      (vs : RespValues)
      → read bs ≡ some (v, r)
      → read_many t read n r ≡ some (vs, r')
      → read_many t read (suc n) bs ≡ some (cons v vs, r')
  unfolding read_many
  read_many-cons read n bs r r' v vs e f = rw (e, read_many) (rw (f, read_many) refl)

  read_many-write :
      (depth : ℕ) (bs : List (Option Bytes)) (rest : Bytes)
      → All FitsBulk bs
      → read_many t (read_value t (suc depth)) (length bs) (write_bulks t error_text bs ++ rest)
        ≡ some (bulk_values bs, rest)
  unfolding read_many write_bulks
  read_many-write depth [] rest h = refl
  read_many-write depth (b ∷ bs) rest h =
      rw (append_assoc (write_bulk_bytes t error_text b) (write_bulks t error_text bs) rest) (
        read_many-cons (read_value t (suc depth)) (length bs) _ _ rest (bulk_string b)
          (bulk_values bs) (read_bulk-write depth b (write_bulks t error_text bs ++ rest) h.0)
          (read_many-write depth bs rest h.1))

  abbrev pub FitsBulks : List (Option Bytes) → Type 0
  FitsBulks bs = (length bs < 2 ^ 63) × All FitsBulk bs

  pub read_array-write :
      (depth n : ℕ) (vs : RespValues) (body rest : Bytes)
      → n < 2 ^ 63
      → read_many t (read_value t depth) n (body ++ rest) ≡ some (vs, rest)
      → read_value t (suc depth) (write_count t error_text n ++ (body ++ rest))
        ≡ some (array vs, rest)
  read_array-write depth n vs body rest h e =
      let l = t.itoa n in
      let frame : write_count t error_text n ++ (body ++ rest)
          ≡ b'*' ∷ (l ++ (delims ++ (body ++ rest))) =
        simp append_assoc refl in
      rw frame (
        read-written depth b'*' l (body ++ rest) (m.itoa_line n)
        ∙ ap (λ o. read_array t (read_value t depth) o (body ++ rest))
            (read_length l (pos n) (m.parse_itoa n h))
        ∙ rw (e, read_array) refl)

  pub read_bulks-write :
      (depth : ℕ) (bs : List (Option Bytes)) (rest : Bytes)
      → FitsBulks bs
      → read_value t
          (suc (suc depth))
          (write_count t error_text (length bs) ++ (write_bulks t error_text bs ++ rest))
        ≡ some (array (bulk_values bs), rest)
  read_bulks-write depth bs rest h =
      read_array-write (suc depth) (length bs) (bulk_values bs) (write_bulks t error_text bs) rest
        h.0 (read_many-write depth bs rest h.1)
