-- ===== src/Server/Resp/Reader.antt =====
-- A reader of the values of the Redis protocol, written from the protocol and not from the program: what the
-- writer of server/client_resp.go is compared with.
use ledisdb.Base.{
  ℕ, zero, suc, ◌+◌, Option, none, some, [], ◌∷◌, length, take, drop, ltb, ◌==◌, if◌then◌else◌,
}
use ledisdb.Base.Int.{ℤ, pos, negsuc}
use ledisdb.Error.{ok, err}
use ledisdb.Bytes.{Bytes}
use ledisdb.Server.Text.{Text}

-- A value of the protocol
mutual
  pub data RespValue : Type 0 where
    simple failure : Bytes → RespValue
    number : ℤ → RespValue
    bulk_string : Option Bytes → RespValue
    no_array : RespValue
    array : RespValues → RespValue

  pub data RespValues : Type 0 where
    nil : RespValues
    cons : RespValue → RespValues → RespValues

-- The bytes up to a carriage return and a line feed, and what is behind them
unfoldable pub read_line : Bytes → Option (Bytes × Bytes)
read_line [] = none
read_line (c ∷ []) = none
read_line (c ∷ e ∷ bs) =
    let rest = read_line (e ∷ bs) in
    if c == b'\r'
    then if e == b'\n' then some ([], bs) else none
    else (elim rest [ none ↦ none | some (l, r) ↦ some (c ∷ l, r) ])

module _ (t : Text) where
  abbrev pub length_of : Bytes → Option ℤ
  length_of line = elim (t.parse_int64 line) [ err x ↦ none | ok n ↦ some n ]

  unfoldable pub read_bulk : Option ℤ → Bytes → Option (RespValue × Bytes)
  read_bulk none bs = none
  read_bulk (some (negsuc n)) bs = some (bulk_string none, bs)
  read_bulk (some (pos n)) bs =
      if ltb (length bs) (n + 2)
      then none
      else some (bulk_string (some (take n bs)), drop (n + 2) bs)

  unfoldable pub read_many :
      (Bytes → Option (RespValue × Bytes)) → ℕ → Bytes → Option (RespValues × Bytes)
  read_many read zero bs = some (nil, bs)
  read_many read (suc n) bs = elim (read bs) [
    | none ↦ none
    | some (v, r) ↦ elim (read_many read n r) [ none ↦ none | some (vs, r') ↦ some (cons v vs, r') ]
  ]

  abbrev pub read_array :
      (Bytes → Option (RespValue × Bytes)) → Option ℤ → Bytes → Option (RespValue × Bytes)
  read_array read none bs = none
  read_array read (some (negsuc n)) bs = some (no_array, bs)
  read_array read (some (pos n)) bs = elim (read_many read n bs) [
    | none ↦ none
    | some (vs, r) ↦ some (array vs, r)
  ]

  abbrev pub read_kind :
      (Bytes → Option (RespValue × Bytes)) → ℕ → Bytes → Bytes → Option (RespValue × Bytes)
  read_kind read c line bs =
      if c == b'+'
      then some (simple line, bs)
      else if c == b'-'
      then some (failure line, bs)
      else if c == b':'
      then elim (length_of line) [ none ↦ none | some n ↦ some (number n, bs) ]
      else if c == b'$'
      then read_bulk (length_of line) bs
      else if c == b'*'
      then read_array read (length_of line) bs
      else none

  -- A value in which arrays are nested less deep than `depth`
  unfoldable pub read_value : ℕ → Bytes → Option (RespValue × Bytes)
  unfolding read_line read_bulk read_many
  read_value zero bs = none
  read_value (suc depth) [] = none
  read_value (suc depth) (c ∷ bs) = elim (read_line bs) [
    | none ↦ none
    | some (line, r) ↦ read_kind (read_value depth) c line r
  ]
