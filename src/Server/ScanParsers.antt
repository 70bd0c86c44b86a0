-- ===== src/Server/ScanParsers.antt =====
-- server/cmd_scan.go: the arguments of the commands that walk with a cursor, and the cursor of their replies.
use ledisdb.Base.{Bool, true, false, Option, some, List, [], ◌∷◌, length, if◌then◌else◌}
use ledisdb.Base.Int.{ℤ, pos, ltb_ℤ}
use ledisdb.Error.{Result, ok, err, err_cmd_params, err_scan_argument, err_key_type, panic, ◌>>=◌}
use ledisdb.Bytes.{Bytes, equal_bytes}
use ledisdb.Ledis.Scans.{DataType, kv, list, hash, set_of, zset}
use ledisdb.Server.{Reply, cursor_array}
use ledisdb.Server.Text.{Text, word, is_upper_word}

pub record ScanArgs : Type 0 where
  pub cursor : Bytes
  pub pattern : Bytes
  pub count : ℤ
  pub desc : Bool

-- `scanCommandGroup`: the cursor of a scan that is over, and whether the arguments are read by
-- `parseScanArgs`, which takes that cursor for the empty one.
pub record ScanGroup : Type 0 where
  pub last_cursor : Bytes
  pub redis : Bool

abbrev pub x_scan_group : ScanGroup
x_scan_group = record { last_cursor = []; redis = false }

abbrev pub scan_group : ScanGroup
scan_group = record { last_cursor = word "0"; redis = true }

module _ (t : Text) where
  -- The loop over the arguments behind the cursor
  unfoldable pub scan_options : ScanArgs → List Bytes → Result ScanArgs
  scan_options a [] = ok a
  scan_options a (w ∷ []) =
      if is_upper_word t "MATCH" w
      then err err_cmd_params
      else if is_upper_word t "COUNT" w
      then err err_cmd_params
      else if is_upper_word t "ASC" w
      then ok (record a { desc = false })
      else if is_upper_word t "DESC" w
      then ok (record a { desc = true })
      else err err_scan_argument
  scan_options a (w ∷ x ∷ args) =
      let behind = λ (b : ScanArgs). scan_options b args in
      let next = λ (b : ScanArgs). scan_options b (x ∷ args) in
      if is_upper_word t "MATCH" w
      then behind (record a { pattern = x })
      else if is_upper_word t "COUNT" w
      then (t.atoi x >>= λ n. behind (record a { count = n }))
      else if is_upper_word t "ASC" w
      then next (record a { desc = false })
      else if is_upper_word t "DESC" w
      then next (record a { desc = true })
      else err err_scan_argument

  unfoldable pub parse_x_scan_args : Bytes → List Bytes → Result ScanArgs
  unfolding scan_options
  parse_x_scan_args cursor args =
      scan_options (record { cursor = cursor; pattern = []; count = pos 10; desc = false }) args

  unfoldable pub parse_scan_args : Bytes → List Bytes → Result ScanArgs
  unfolding parse_x_scan_args
  parse_scan_args cursor args = do
    a ← parse_x_scan_args cursor args
    ok (if equal_bytes a.cursor (word "0") then record a { cursor = [] } else a)

  abbrev pub parse_args : ScanGroup → Bytes → List Bytes → Result ScanArgs
  parse_args g cursor args =
      if g.redis then parse_scan_args cursor args else parse_x_scan_args cursor args

  unfoldable pub scan_type : Bytes → Result DataType
  scan_type w =
      if is_upper_word t "KV" w
      then ok kv
      else if is_upper_word t "HASH" w
      then ok hash
      else if is_upper_word t "LIST" w
      then ok list
      else if is_upper_word t "SET" w
      then ok set_of
      else if is_upper_word t "ZSET" w
      then ok zset
      else err err_key_type

  -- `ay[len(ay)-1]`, which panics on an empty slice
  unfoldable pub last_found : List Bytes → Result Bytes
  last_found [] = err panic
  last_found (x ∷ []) = ok x
  last_found (x ∷ y ∷ ys) = last_found (y ∷ ys)

  -- Where to go on: the last one found, and the last cursor if fewer were found than asked for.
  unfoldable pub next_cursor : Bytes → ℤ → List Bytes → Result Bytes
  unfolding last_found
  next_cursor last_cursor count found =
      if ltb_ℤ (pos (length found)) count then ok last_cursor else last_found found

  unfoldable pub scan_reply : ScanGroup → ScanArgs → List Bytes → List (Option Bytes) → Result Reply
  unfolding next_cursor
  scan_reply g a found listed = do
    cursor ← next_cursor g.last_cursor a.count found
    ok (cursor_array cursor listed)

  abbrev pub fields_and_values : List (Bytes × Bytes) → List (Option Bytes)
  fields_and_values [] = []
  fields_and_values ((f, v) ∷ rows) = some f ∷ some v ∷ fields_and_values rows

  abbrev pub members_and_scores : List (ℤ × Bytes) → List (Option Bytes)
  members_and_scores [] = []
  members_and_scores ((s, m) ∷ rows) = some m ∷ some (t.format_int s) ∷ members_and_scores rows
