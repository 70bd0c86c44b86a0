-- ===== src/Server/ScanCommands.antt =====
-- server/cmd_scan.go: the commands that walk over keys, fields and members with a cursor.
use ledisdb.Base.{Bool, false, Option, some, List, ◌∷◌, map}
use ledisdb.Error.{Result, err_cmd_params}
use ledisdb.Bytes.{Bytes}
use ledisdb.Store.{Driver}
use ledisdb.Ledis.{Env, M, raise, lift, ◌>>=◌}
use ledisdb.Ledis.Scans.{scan, h_scan_generic, s_scan_generic, z_scan_generic}
use ledisdb.Server.{Reply}
use ledisdb.Server.Text.{Text}
use ledisdb.Server.ScanParsers.{
  ScanArgs, ScanGroup, parse_args, parse_scan_args, scan_type, scan_reply, fields_and_values,
  members_and_scores,
}

module _ {S I : Type 0} (d : Driver S I) (e : Env) (t : Text)
    (compile : Bytes → Result (Bytes → Bool)) (g : ScanGroup) where
  -- One scan with the arguments behind the key or the type, and its reply
  abbrev scan_with :
      {A : Type 0}
      → (ScanArgs → M S (List A))
      → (A → Bytes)
      → (List A → List (Option Bytes))
      → Bytes
      → List Bytes
      → M S Reply
  scan_with run name listed cursor args = do
    a ← lift (parse_args t g cursor args)
    rows ← run a
    lift (scan_reply t g a (map name rows) (listed rows))

  unfoldable pub xscan_command : List Bytes → M S Reply
  unfolding scan_type scan_reply parse_scan_args
  xscan_command (w ∷ cursor ∷ args) = (do
    type ← lift (scan_type t w)
    scan_with (λ a. scan d e compile type a.cursor a.count false a.pattern a.desc) (λ k. k)
        (map some) cursor args)
  xscan_command args = raise err_cmd_params

  unfoldable pub xhscan_command : List Bytes → M S Reply
  unfolding scan_reply parse_scan_args
  xhscan_command (key ∷ cursor ∷ args) =
      scan_with (λ a. h_scan_generic d e compile key a.cursor a.count false a.pattern a.desc)
        (λ row. row.0) (fields_and_values t) cursor args
  xhscan_command args = raise err_cmd_params

  unfoldable pub xsscan_command : List Bytes → M S Reply
  unfolding scan_reply parse_scan_args
  xsscan_command (key ∷ cursor ∷ args) =
      scan_with (λ a. s_scan_generic d e compile key a.cursor a.count false a.pattern a.desc)
        (λ m. m) (map some) cursor args
  xsscan_command args = raise err_cmd_params

  unfoldable pub xzscan_command : List Bytes → M S Reply
  unfolding scan_reply parse_scan_args
  xzscan_command (key ∷ cursor ∷ args) =
      scan_with (λ a. z_scan_generic d e compile key a.cursor a.count false a.pattern a.desc)
        (λ row. row.1) (members_and_scores t) cursor args
  xzscan_command args = raise err_cmd_params
