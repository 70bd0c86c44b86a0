-- ===== src/Server/ScanCursor.antt =====
-- The cursor of the replies to the scan commands (server/cmd_scan.go).
use ledisdb.Base.{
  ◌≡◌, refl, ap, true, false, Option, List, [], ◌∷◌, ◌++◌, length, ◌⊎◌, inl, inr, Bool-cases, arith,
}
use ledisdb.Base.Int.{ℤ, pos, leb_ℤ, ltb_ℤ}
use ledisdb.Error.{ok, err, panic}
use ledisdb.Bytes.{Bytes}
use ledisdb.Server.{cursor_array}
use ledisdb.Server.Text.{Text}
use ledisdb.Server.ScanParsers.{ScanArgs, ScanGroup, last_found, next_cursor, scan_reply}

module _ (t : Text) where
  last_found_lem :
      (x : Bytes) (found : List Bytes)
      → (last : Bytes) × (last_found t (x ∷ found) ≡ ok last)
        × ((init : List Bytes) × (x ∷ found ≡ init ++ last ∷ []))
  unfolding last_found
  last_found_lem x [] = (x, refl, ([], refl))
  last_found_lem x (y ∷ found) =
      let (last, run, (init, whole)) = last_found_lem y found in
      (last, run, (x ∷ init, ap (λ l. x ∷ l) whole))

  -- Where the client has to go on: at the end if fewer were found than asked for, else at the last one found.
  abbrev pub GoesOn : Bytes → ℤ → List Bytes → Bytes → Type 0
  GoesOn last_cursor count found cursor =
      ((ltb_ℤ (pos (length found)) count ≡ true) × (cursor ≡ last_cursor))
      ⊎ ((ltb_ℤ (pos (length found)) count ≡ false)
          × ((init : List Bytes) × (found ≡ init ++ cursor ∷ [])))

  next_cursor_lem :
      (last_cursor : Bytes) (count : ℤ) (found : List Bytes)
      → ((next_cursor t last_cursor count found ≡ err panic)
          × (found ≡ [])
          × (leb_ℤ count (pos 0) ≡ true))
        ⊎ ((cursor : Bytes) × (next_cursor t last_cursor count found ≡ ok cursor)
            × GoesOn last_cursor count found cursor)
  unfolding next_cursor last_found
  next_cursor_lem last_cursor count found = elim (Bool-cases (ltb_ℤ (pos (length found)) count)) [
    | inl short ↦ inr (last_cursor, rw short refl, inl (short, refl))
    | inr full ↦ full_page found full
  ]
    where
      full_page :
          (found : List Bytes)
          → ltb_ℤ (pos (length found)) count ≡ false
          → ((next_cursor t last_cursor count found ≡ err panic)
              × (found ≡ [])
              × (leb_ℤ count (pos 0) ≡ true))
            ⊎ ((cursor : Bytes) × (next_cursor t last_cursor count found ≡ ok cursor)
                × GoesOn last_cursor count found cursor)
      full_page [] full = inl (rw full refl, refl, ground (arith, full))
      full_page (x ∷ rest) full =
          let (last, run, whole) = last_found_lem x rest in
          inr (last, rw (full, run) refl, inr (full, whole))

  -- What a scan command replies to what was found and lists it, whatever the scan is of: if nothing was found and
  -- the count that was asked for is zero or negative, Go panics. Else there is a reply with all that is listed,
  -- whose cursor is the last cursor if fewer were found than asked for, and the last one found if not.
  pub scan_reply_lem :
      (g : ScanGroup) (a : ScanArgs) (found : List Bytes) (listed : List (Option Bytes))
      → ((scan_reply t g a found listed ≡ err panic)
          × (found ≡ [])
          × (leb_ℤ a.count (pos 0) ≡ true))
        ⊎ ((cursor : Bytes) × (scan_reply t g a found listed ≡ ok (cursor_array cursor listed))
            × GoesOn g.last_cursor a.count found cursor)
  unfolding scan_reply
  scan_reply_lem g a found listed = elim (next_cursor_lem g.last_cursor a.count found) [
    | inl (run, none_found, low) ↦ inl (rw run refl, none_found, low)
    | inr (cursor, run, on) ↦ inr (cursor, rw run refl, on)
  ]
