-- ===== src/Server.antt =====
-- server/: the commands of a client, as functions from the arguments behind the command's name to the
-- reply. Reading commands from a connection and writing replies to it are not part of it.
pub mod Text
pub mod SetCommands
pub mod HashCommands
pub mod KvCommands
pub mod ZsetCommands
pub mod ZsetParsers
pub mod ZsetRanges
pub mod ListCommands
pub mod ScanParsers
pub mod ScanCommands
pub mod ScanWalk
pub mod ScanCursor
pub mod Registry
pub mod Client
pub mod Access
pub mod Resp
pub mod Sessions
use ledisdb.Base.Int.{ℤ}
use ledisdb.Base.{Bool, Option, some, List, map}
use ledisdb.Error.{Result, ok, err, err_value}
use ledisdb.Bytes.{Bytes}
use ledisdb.Ledis.{M, pure, lift, ◌>>=◌, ◌>>◌}

-- `writeInteger`, `writeSliceArray`, `writeBulk`, `writeFVPairArray`, `writeScorePairArray`, `writeStatus` with OK and PONG,
-- and `writeArray` of nothing and of a cursor with what was found. A value that is `none` is Go's nil, and
-- `nil_array` is `writeSliceArray` of nil.
pub data Reply : Type 0 where
  integer : ℤ → Reply
  slice_array : List (Option Bytes) → Reply
  bulk : Option Bytes → Reply
  fv_pair_array : List (Bytes × Bytes) → Reply
  score_pair_array : List (ℤ × Bytes) → Bool → Reply
  status_ok status_pong empty_array nil_array : Reply
  cursor_array : Bytes → List (Option Bytes) → Reply

module _ {S : Type 0} where
  abbrev pub write_integer : M S ℤ → M S Reply
  write_integer m = do n ← m; pure (integer n)

  abbrev pub write_bulk : M S (Option Bytes) → M S Reply
  write_bulk m = do v ← m; pure (bulk v)

  abbrev pub write_ok : M S (Unit {0}) → M S Reply
  write_ok m = do m; pure status_ok

  abbrev pub write_slice_array : M S (List Bytes) → M S Reply
  write_slice_array m = do v ← m; pure (slice_array (map some v))

-- An argument that is no number is `ErrValue`, whatever the parser says of it.
abbrev pub or_err_value : {A : Type 0} → Result A → Result A
or_err_value (ok a) = ok a
or_err_value (err x) = err err_value
