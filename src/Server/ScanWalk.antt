-- ===== src/Server/ScanWalk.antt =====
-- A client that walks over a set with the cursors of the scan commands (server/cmd_scan.go, ledis/scan.go).
use ledisdb.Base.{ℕ, zero, suc, ◌≤◌, ◌≡◌, Bool, Option, none, some, List, [], ◌∷◌, ◌++◌, length}
use ledisdb.Base.Int.{ℤ, pos}
use ledisdb.Error.{Result, ok, err}
use ledisdb.Bytes.{Bytes}
use ledisdb.Key.{check_key_size}
use ledisdb.Store.{Driver}
use ledisdb.Store.Map.{Row, IsOrderedMap}
use ledisdb.Ledis.{Env, State}
use ledisdb.Ledis.Scans.Pages.{names, left, page}
use ledisdb.Server.Text.{Text}
use ledisdb.Server.ScanParsers.{next_cursor}

-- One reply of a client's walk, with the rest of the walk from a further cursor
abbrev walk_on : List Bytes → Result Bytes → (Bytes → Option (List Bytes)) → Option (List Bytes)
walk_on found (err x) go = none
walk_on found (ok []) go = some found
walk_on found (ok (b ∷ bs)) go = elim (go (b ∷ bs)) [
  | none ↦ none
  | some rest ↦ some (found ++ rest)
]

-- A client sends XSSCAN with the cursor of the last reply until that is the empty one. It has at most so many
-- rounds.
unfoldable pub walk : Text → ℤ → (Bytes → Result (List Bytes)) → ℕ → Bytes → Option (List Bytes)
walk t count page zero c = none
walk t count page (suc fuel) c =
    let go = walk t count page fuel in
    elim (page c) [ err x ↦ none | ok found ↦ walk_on found (next_cursor t [] count found) go ]

module _ {S I : Type 0} {d : Driver S I} (m : IsOrderedMap d) (e : Env) (key : Bytes)
    (compile : Bytes → Result (Bytes → Bool)) (t : Text) (short : check_key_size key ≡ ok tt)
    (k : ℕ) (s : State S) (enough : length (m.rows s.store) ≤ e.fuel) where
  abbrev pub rows_left : Bytes → List Row
  rows_left = left m e key compile short (suc k) s enough

  abbrev pub names_in : List Row → List Bytes
  names_in = names m e key compile

  abbrev pub one_page : Bytes → Result (List Bytes)
  one_page = page m e key compile short (suc k) s enough

  abbrev pub walking : ℕ → Bytes → Option (List Bytes)
  walking = walk t (pos (suc k)) one_page
