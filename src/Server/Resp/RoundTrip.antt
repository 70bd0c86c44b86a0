-- ===== src/Server/Resp/RoundTrip.antt =====
-- What a client reads of a reply that server/client_resp.go has written.
use ledisdb.Base.{
  ℕ, suc, ◌*◌, ◌≡◌, refl, ap, ◌∙◌, Bool, true, false, Option, none, some, List, [], ◌∷◌, ◌++◌, map,
  append_assoc, length, arith,
}
use ledisdb.Base.Int.{ℤ, negsuc, IsInt64}
use ledisdb.Error.{Error, Result, ok, err}
use ledisdb.Bytes.{Bytes}
use ledisdb.Server.{
  Reply, integer, slice_array, bulk, fv_pair_array, score_pair_array, status_ok, status_pong,
  empty_array, nil_array, cursor_array,
}
use ledisdb.Server.Text.{Text, word}
use ledisdb.Server.ScanParsers.{fields_and_values, members_and_scores}
use ledisdb.Server.Resp.{
  delims, write_error, write_status, write_number, write_bulk_bytes, write_count, write_bulks,
  write_fv_pairs, write_score_pairs, write_reply,
}
use ledisdb.Server.Resp.Reader.{
  RespValue, simple, failure, number, bulk_string, no_array, array, nil, cons, read_many,
  read_array, read_value, read_kind,
}
use ledisdb.Server.Resp.Parts.{
  IsLine, IsDecimal, FitsBulk, FitsBulks, bulk_values, read-written, read_length, read_bulk-write,
  read_many-cons, read_array-write, read_bulks-write,
}

module _ (t : Text) (m : IsDecimal t) (error_text : Error → Bytes) where
  pairs_are_bulks :
      (ps : List (Bytes × Bytes))
      → write_fv_pairs t error_text ps ≡ write_bulks t error_text (fields_and_values t ps)
  unfolding write_fv_pairs write_bulks
  pairs_are_bulks [] = refl
  pairs_are_bulks ((f, v) ∷ ps) = rw (pairs_are_bulks ps) refl

  pairs_count : (ps : List (Bytes × Bytes)) → length ps * 2 ≡ length (fields_and_values t ps)
  pairs_count [] = refl
  pairs_count (p ∷ ps) = omega (arith, pairs_count ps)

  abbrev members_only : List (ℤ × Bytes) → List (Option Bytes)
  members_only = map (λ p. some p.1)

  abbrev listed : Bool → List (ℤ × Bytes) → List (Option Bytes)
  listed true ps = members_and_scores t ps
  listed false ps = members_only ps

  abbrev count_of : Bool → List (ℤ × Bytes) → ℕ
  count_of true ps = length ps * 2
  count_of false ps = length ps

  scores_are_bulks :
      (with_scores : Bool) (ps : List (ℤ × Bytes))
      → write_score_pairs t error_text with_scores ps
        ≡ write_bulks t error_text (listed with_scores ps)
  unfolding write_score_pairs write_bulks
  scores_are_bulks true [] = refl
  scores_are_bulks false [] = refl
  scores_are_bulks true ((s, k) ∷ ps) = rw (scores_are_bulks true ps) refl
  scores_are_bulks false ((s, k) ∷ ps) = rw (scores_are_bulks false ps) refl

  scores_count :
      (with_scores : Bool) (ps : List (ℤ × Bytes))
      → count_of with_scores ps ≡ length (listed with_scores ps)
  scores_count true [] = refl
  scores_count false [] = refl
  scores_count true (p ∷ ps) = omega (arith, scores_count true ps)
  scores_count false (p ∷ ps) = omega (arith, scores_count false ps)

  -- The value that a reply stands for
  unfoldable pub value_of : Result Reply → RespValue
  value_of (err x) = failure (error_text x)
  value_of (ok (integer n)) = number n
  value_of (ok (bulk b)) = bulk_string b
  value_of (ok (slice_array bs)) = array (bulk_values t m error_text bs)
  value_of (ok (fv_pair_array ps)) = array (bulk_values t m error_text (fields_and_values t ps))
  value_of (ok (score_pair_array ps with_scores)) =
      array (bulk_values t m error_text (listed with_scores ps))
  value_of (ok status_ok) = simple (word "OK")
  value_of (ok status_pong) = simple (word "PONG")
  value_of (ok empty_array) = array nil
  value_of (ok nil_array) = no_array
  value_of (ok (cursor_array cursor bs)) =
      array (cons (bulk_string (some cursor)) (cons (array (bulk_values t m error_text bs)) nil))

  -- Numbers and lengths are those of 64 bits, and an error is told on one line.
  abbrev pub FitsReply : Result Reply → Type 0
  FitsReply (err x) = IsLine (error_text x)
  FitsReply (ok (integer n)) = IsInt64 n
  FitsReply (ok (bulk b)) = FitsBulk t m error_text b
  FitsReply (ok (slice_array bs)) = FitsBulks t m error_text bs
  FitsReply (ok (fv_pair_array ps)) = FitsBulks t m error_text (fields_and_values t ps)
  FitsReply (ok (score_pair_array ps with_scores)) =
      FitsBulks t m error_text (listed with_scores ps)
  FitsReply (ok status_ok) = Unit {0}
  FitsReply (ok status_pong) = Unit {0}
  FitsReply (ok empty_array) = Unit {0}
  FitsReply (ok nil_array) = Unit {0}
  FitsReply (ok (cursor_array cursor bs)) =
      FitsBulk t m error_text (some cursor) × FitsBulks t m error_text bs

  read_line-write :
      (depth c : ℕ) (l rest : Bytes)
      → IsLine l
      → read_value t (suc depth) ((c ∷ (l ++ delims)) ++ rest)
        ≡ read_kind t (read_value t depth) c l rest
  read_line-write depth c l rest h =
      rw (append_assoc l delims rest) (read-written t m error_text depth c l rest h)

  read_written_bulks :
      (n : ℕ) (body : Bytes) (bs : List (Option Bytes)) (rest : Bytes)
      → n ≡ length bs
      → body ≡ write_bulks t error_text bs
      → FitsBulks t m error_text bs
      → read_value t 3 ((write_count t error_text n ++ body) ++ rest)
        ≡ some (array (bulk_values t m error_text bs), rest)
  read_written_bulks n body bs rest e f h =
      rw
        (
          e,
          f,
          append_assoc (write_count t error_text (length bs)) (write_bulks t error_text bs) rest,
        )
        (read_bulks-write t m error_text 1 bs rest h)

  read_no_more : (bs : Bytes) → read_many t (read_value t 2) 0 bs ≡ some (nil, bs)
  unfolding read_many
  read_no_more bs = refl

  read_cursor :
      (cursor : Bytes) (bs : List (Option Bytes)) (rest : Bytes)
      → FitsBulk t m error_text (some cursor)
      → FitsBulks t m error_text bs
      → read_value t 3 (write_reply t error_text (ok (cursor_array cursor bs)) ++ rest)
        ≡ some (
          array
              (cons (bulk_string (some cursor)) (cons (array (bulk_values t m error_text bs)) nil)),
          rest,
        )
  unfolding write_reply
  read_cursor cursor bs rest g h =
      let first = write_bulk_bytes t error_text (some cursor) in
      let items = write_count t error_text (length bs) ++ write_bulks t error_text bs in
      let behind = write_count t error_text (length bs) ++ (write_bulks t error_text bs ++ rest) in
      let frame : (write_count t error_text 2 ++ (first ++ items)) ++ rest
          ≡ write_count t error_text 2 ++ ((first ++ items) ++ rest) =
        append_assoc (write_count t error_text 2) (first ++ items) rest in
      let inner : (first ++ items) ++ rest ≡ first ++ behind = simp append_assoc refl in
      rw frame (
        read_array-write t m error_text 2 2 _ (first ++ items) rest (omega arith) (
          rw inner (
            read_many-cons t m error_text (read_value t 2) 1 (first ++ behind) behind rest
              (bulk_string (some cursor)) _
              (read_bulk-write t m error_text 1 (some cursor) behind g)
              (read_many-cons t m error_text (read_value t 2) 0 behind rest rest
                (array (bulk_values t m error_text bs)) nil
                (read_bulks-write t m error_text 0 bs rest h) (read_no_more rest)))))

  -- With numbers that are printed on one line and read back, for a reply whose numbers and lengths are those of
  -- 64 bits, an error being told on one line: a reader of the protocol finds the value of the reply at the head of
  -- what is written, and behind it whatever follows.
  pub read_value-write_reply :
      (r : Result Reply) (rest : Bytes)
      → FitsReply r
      → read_value t 3 (write_reply t error_text r ++ rest) ≡ some (value_of r, rest)
  unfolding write_reply write_error write_status write_number value_of
  read_value-write_reply (err x) rest h = read_line-write 2 b'-' (error_text x) rest h
  read_value-write_reply (ok (integer n)) rest h =
      read_line-write 2 b':' (t.format_int n) rest (m.format_line n)
      ∙ ap
          (λ (o : Option ℤ). elim o as (λ _. Option (RespValue × Bytes)) [
            | none ↦ none
            | some k ↦ some (number k, rest)
          ])
          (read_length t m error_text (t.format_int n) n (m.parse_format n h))
  read_value-write_reply (ok (bulk b)) rest h = read_bulk-write t m error_text 2 b rest h
  read_value-write_reply (ok (slice_array bs)) rest h =
      read_written_bulks (length bs) (write_bulks t error_text bs) bs rest refl refl h
  read_value-write_reply (ok (fv_pair_array ps)) rest h =
      read_written_bulks (length ps * 2) (write_fv_pairs t error_text ps) (fields_and_values t ps)
        rest (pairs_count ps) (pairs_are_bulks ps) h
  read_value-write_reply (ok (score_pair_array ps true)) rest h =
      read_written_bulks (length ps * 2) (write_score_pairs t error_text true ps) (listed true ps)
        rest (scores_count true ps) (scores_are_bulks true ps) h
  read_value-write_reply (ok (score_pair_array ps false)) rest h =
      read_written_bulks (length ps) (write_score_pairs t error_text false ps) (listed false ps)
        rest (scores_count false ps) (scores_are_bulks false ps) h
  read_value-write_reply (ok status_ok) rest h =
      read_line-write 2 b'+' (word "OK") rest (refl, (refl, tt))
  read_value-write_reply (ok status_pong) rest h =
      read_line-write 2 b'+' (word "PONG") rest (refl, (refl, (refl, (refl, tt))))
  read_value-write_reply (ok empty_array) rest h =
      read_array-write t m error_text 2 0 nil [] rest (omega arith) (read_no_more rest)
  read_value-write_reply (ok nil_array) rest h =
      read_line-write 2 b'*' (word "-1") rest (refl, (refl, tt))
      ∙ ap (λ o. read_array t (read_value t 2) o rest)
          (read_length t m error_text (word "-1") (negsuc 0) m.parse_minus_one)
  read_value-write_reply (ok (cursor_array cursor bs)) rest h = read_cursor cursor bs rest h.0 h.1
