-- ===== src/Samples/Unary.antt =====
-- Numbers in unary digits behind a sign: functions for what the commands take from strconv, strings and num.
use ledisdb.Base.{
  ℕ, zero, suc, ◌≡◌, refl, ap, [], ◌∷◌, length, replicate, length-replicate, ◌==◌, if◌then◌else◌,
}
use ledisdb.Base.Int.{ℤ, pos, negsuc}
use ledisdb.Error.{Result, ok, err, number_error}
use ledisdb.Bytes.{Bytes}
use ledisdb.Server.Text.{Text}
use ledisdb.Server.Resp.Parts.{IsLine, IsDecimal}

abbrev digits : ℕ → Bytes
digits n = replicate n b'1'

abbrev print : ℤ → Bytes
print (pos n) = b'+' ∷ digits n
print (negsuc n) = b'-' ∷ b'1' ∷ digits n

abbrev read : Bytes → Result ℤ
read [] = err (number_error 0)
read (c ∷ []) = if c == b'+' then ok (pos 0) else err (number_error 0)
read (c ∷ x ∷ ds) =
    if c == b'+'
    then ok (pos (suc (length ds)))
    else if c == b'-'
    then ok (negsuc (length ds))
    else err (number_error 0)

abbrev pub unary : Text
unary = record {
  parse_int64 = read;
  parse_int32 = read;
  atoi = read;
  itoa = λ n. print (pos n);
  format_int = print;
  to_lower = λ w. w;
  to_upper = λ w. w;
}

read-print : (n : ℤ) → read (print n) ≡ ok n
read-print (pos zero) = refl
read-print (pos (suc n)) = ap (λ k. ok (pos (suc k))) (length-replicate n b'1')
read-print (negsuc n) = ap (λ k. ok (negsuc k)) (length-replicate n b'1')

digits-IsLine : (n : ℕ) → IsLine (digits n)
digits-IsLine zero = tt
digits-IsLine (suc n) = (refl, digits-IsLine n)

print-IsLine : (n : ℤ) → IsLine (print n)
print-IsLine (pos n) = (refl, digits-IsLine n)
print-IsLine (negsuc n) = (refl, (refl, digits-IsLine n))

pub unary-IsDecimal : IsDecimal unary
unary-IsDecimal = record {
  parse_format = λ n fits. read-print n;
  format_line = print-IsLine;
  parse_itoa = λ n fits. read-print (pos n);
  itoa_line = λ n. print-IsLine (pos n);
  parse_minus_one = refl;
}
