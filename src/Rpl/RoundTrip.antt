-- ===== src/Rpl/RoundTrip.antt =====
-- What is read back of a log that was written (rpl/log.go).
use ledisdb.Base.{
  ℕ, zero, suc, ◌+◌, ◌%◌, ◌^◌, ◌<◌, ◌≡◌, refl, sym, ap, ◌∙◌, false, Bool-cases, inl, inr, List, [],
  ◌∷◌, ◌++◌, length, take, ◌==◌, length-append, drop-append, take-append, length-take, append_assoc,
  ◌-◌, if◌then◌else◌, ltb, arith,
}
use ledisdb.Error.{ok, err, eof, unexpected_eof}
use ledisdb.Bytes.{Bytes, big_endian}
use ledisdb.Bytes.Endian.{length-big_endian, read_big_endian-append}
use ledisdb.Bytes.Slices.{byte_at_part, slice_from_part}
use ledisdb.Rpl.{Log}
use ledisdb.Rpl.Codec.{log_head_size, encode_log, log_size, read_full, decode_head_buf, decode_log}

-- The numbers of a log have the widths of its head, and so has the length of its data.
pub record FitsHead (l : Log) : Type 0 where
  pub id : l.id < 2 ^ 64
  pub create_time : l.create_time < 2 ^ 32
  pub compression : l.compression < 256
  pub size : length l.log_data < 2 ^ 32

abbrev head : Log → Bytes
head l =
    big_endian 8 l.id
    ++ (big_endian 4 l.create_time
        ++ (l.compression % 256) ∷ (big_endian 4 (length l.log_data) ++ []))

length-head : (l : Log) → length (head l) ≡ log_head_size
length-head l = omega (
  arith,
  length-append (big_endian 8 l.id) (
      big_endian 4 l.create_time
      ++ (l.compression % 256) ∷ (big_endian 4 (length l.log_data) ++ [])),
  length-append (big_endian 4 l.create_time)
      ((l.compression % 256) ∷ (big_endian 4 (length l.log_data) ++ [])),
  length-append {0} (big_endian 4 (length l.log_data)) [],
  length-big_endian 8 l.id,
  length-big_endian 4 l.create_time,
  length-big_endian 4 (length l.log_data),
)

encode-head : (l : Log) → encode_log l ≡ head l ++ l.log_data
unfolding encode_log
encode-head l = simp append_assoc

read_full-append : (xs r : Bytes) → read_full (length xs) (xs ++ r) ≡ ok (xs, r)
unfolding read_full
read_full-append [] r = refl
read_full-append (x ∷ xs) r =
    let enough : ltb (length (xs ++ r)) (length xs) ≡ false = ground (arith, length-append xs r) in
    rw (enough, take-append xs r, drop-append xs r)

decode_head_buf-head :
    (l : Log)
    → FitsHead l
    → decode_head_buf (head l) ≡ ok (record l { log_data = [] }, length l.log_data)
unfolding decode_head_buf
decode_head_buf-head l f =
    let time = big_endian 4 l.create_time in
    let size = big_endian 4 (length l.log_data) in
    let rest = (l.compression % 256) ∷ (size ++ []) in
    let same : l.compression % 256 ≡ l.compression = omega (arith, f.compression) in
    rw (
      read_big_endian-append 8 l.id (time ++ rest) (omega (arith, f.id)),
      slice_from_part (head l) (big_endian 8 l.id) (time ++ rest) 8 refl
          (sym (length-big_endian 8 l.id)),
      read_big_endian-append 4 l.create_time rest (omega (arith, f.create_time)),
      byte_at_part (head l) (big_endian 8 l.id ++ time) (size ++ []) (l.compression % 256) 12
          (sym (append_assoc (big_endian 8 l.id) time rest))
          (omega (
            arith,
            length-append (big_endian 8 l.id) time,
            length-big_endian 8 l.id,
            length-big_endian 4 l.create_time,
          )),
      slice_from_part (head l) (big_endian 8 l.id ++ (time ++ (l.compression % 256) ∷ []))
          (size ++ []) 13 (simp append_assoc)
          (omega (
            arith,
            length-append (big_endian 8 l.id) (time ++ (l.compression % 256) ∷ []),
            length-append time ((l.compression % 256) ∷ []),
            length-big_endian 8 l.id,
            length-big_endian 4 l.create_time,
          )),
      read_big_endian-append 4 (length l.log_data) [] (omega (arith, f.size)),
      same,
    )

-- A log whose numbers have the widths of its head is read back from its bytes, whatever follows them,
-- and the reader stands at what follows.
pub decode-encode_log :
    (l : Log) (r : Bytes) → FitsHead l → decode_log (encode_log l ++ r) ≡ ok (l, r)
unfolding decode_log
decode-encode_log l r f = rw (
  ap decode_log (ap (λ b. b ++ r) (encode-head l) ∙ append_assoc (head l) l.log_data r),
  ap (λ n. read_full n (head l ++ (l.log_data ++ r))) (sym (length-head l))
      ∙ read_full-append (head l) (l.log_data ++ r),
  decode_head_buf-head l f,
  read_full-append l.log_data r,
)

read_full_short :
    (n : ℕ) (bs : Bytes) → 0 < length bs → length bs < n → read_full n bs ≡ err unexpected_eof
unfolding read_full
read_full_short zero bs h lt = absurd (omega arith)
read_full_short (suc n) [] h lt = absurd (omega arith)
read_full_short (suc n) (b ∷ bs) h lt = ground arith

read_full_none : (n : ℕ) → 0 < n → read_full n [] ≡ err eof
unfolding read_full
read_full_none zero h = absurd (omega arith)
read_full_none (suc n) h = refl

take-append_more {ℓ} :
    {A : Type ℓ} (xs ys : List A) (k : ℕ) → take (length xs + k) (xs ++ ys) ≡ xs ++ take k ys
take-append_more [] ys k = let same : 0 + k ≡ k = omega arith in rw same
take-append_more (x ∷ xs) ys k =
    let next : length (x ∷ xs) + k ≡ suc (length xs + k) = omega arith in
    rw next (ap (λ l. x ∷ l) (take-append_more xs ys k))

cut_head :
    (l : Log) (n : ℕ)
    → 0 < n
    → n < log_head_size
    → decode_log (take n (encode_log l)) ≡ err unexpected_eof
unfolding decode_log
cut_head l n pos lt =
    let whole : length (encode_log l) ≡ log_head_size + length l.log_data =
      ap length (encode-head l)
      ∙ length-append (head l) l.log_data
      ∙ ap (λ k. k + length l.log_data) (length-head l) in
    let cut : length (take n (encode_log l)) ≡ n =
      omega (arith, length-take n (encode_log l), whole) in
    rw (
      read_full_short log_head_size (take n (encode_log l)) (omega (arith, cut))
        (omega (arith, cut)))

cut_data :
    (l : Log) (k : ℕ)
    → FitsHead l
    → k < length l.log_data
    → decode_log (take (log_head_size + k) (encode_log l))
      ≡ err (if k == 0 then eof else unexpected_eof)
unfolding decode_log
cut_data l k f lt = rw (
  ap (take (log_head_size + k)) (encode-head l)
      ∙ ap (λ n. take (n + k) (head l ++ l.log_data)) (sym (length-head l))
      ∙ take-append_more (head l) l.log_data k,
  ap (λ n. read_full n (head l ++ take k l.log_data)) (sym (length-head l))
      ∙ read_full-append (head l) (take k l.log_data),
  decode_head_buf-head l f,
  short k lt,
)
  where
    short :
        (k : ℕ)
        → k < length l.log_data
        → read_full (length l.log_data) (take k l.log_data)
          ≡ err (if k == 0 then eof else unexpected_eof)
    short zero lt = read_full_none (length l.log_data) lt
    short (suc k) lt =
        let inside : (suc k == 0) ≡ false = ground arith in
        rw inside (
          read_full_short (length l.log_data) (take (suc k) l.log_data)
            (omega (arith, length-take (suc k) l.log_data))
            (omega (arith, length-take (suc k) l.log_data)))

-- The bytes of a log whose numbers have the widths of its head, cut off anywhere behind the first and
-- before the last: right behind the head, reading fails with the error of a reader that is at its
-- end, and anywhere else with that of an unexpected end.
pub decode_log_cut :
    (l : Log) (n : ℕ)
    → FitsHead l
    → 0 < n
    → n < log_size l
    → decode_log (take n (encode_log l)) ≡ err (if n == log_head_size then eof else unexpected_eof)
unfolding log_size
decode_log_cut l n f pos lt = elim (Bool-cases (ltb n log_head_size)) [
  | inl p ↦
      (let inside : (n == log_head_size) ≡ false = ground arith in
        rw inside (cut_head l n pos (ground arith)))
  | inr p ↦
      (let behind : n ≡ log_head_size + (n - log_head_size) = ground arith in
        let same : (n == log_head_size) ≡ (n - log_head_size == 0) = ground arith in
        rw (same, ap (λ j. take j (encode_log l)) behind)
          (cut_data l (n - log_head_size) f (ground arith)))
]
