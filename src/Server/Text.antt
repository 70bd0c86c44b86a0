-- ===== src/Server/Text.antt =====
-- What the commands take from strconv, strings and the package num, and the words of the commands.
use Prim.Native.Char.{code}
use Prim.Native.String.{String}
use ledisdb.Base.{ℕ, [], ◌∷◌, Bool}
use ledisdb.Base.Int.{ℤ}
use ledisdb.Error.{Result}
use ledisdb.Bytes.{Bytes, equal_bytes}

-- `ledis.StrInt64` and `ledis.StrInt32` of an argument, `strconv.Atoi`, `strconv.Itoa`, `num.FormatInt64ToSlice`,
-- `strings.ToLower` and `strings.ToUpper`
pub record Text : Type 0 where
  pub parse_int64 : Bytes → Result ℤ
  pub parse_int32 : Bytes → Result ℤ
  pub atoi : Bytes → Result ℤ
  pub itoa : ℕ → Bytes
  pub format_int : ℤ → Bytes
  pub to_lower : Bytes → Bytes
  pub to_upper : Bytes → Bytes

abbrev pub word : String → Bytes
word String.[] = []
word (String.◌∷◌ c s) = code c ∷ word s

-- `strings.ToLower(string(b)) == w`, and the same of `strings.ToUpper`
module _ (t : Text) where
  abbrev pub is_lower_word : String → Bytes → Bool
  is_lower_word w b = equal_bytes (t.to_lower b) (word w)

  abbrev pub is_upper_word : String → Bytes → Bool
  is_upper_word w b = equal_bytes (t.to_upper b) (word w)
