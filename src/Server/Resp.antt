-- ===== src/Server/Resp.antt =====
-- server/client_resp.go: how a reply is written to a connection.
pub mod Reader
pub mod Parts
pub mod RoundTrip
use ledisdb.Base.{
  ℕ, zero, suc, ◌+◌, ◌*◌, Bool, true, false, Option, none, some, List, [], ◌∷◌, ◌++◌, length, take,
  drop, ltb, ◌==◌, if◌then◌else◌,
}
use ledisdb.Base.Int.{ℤ, pos, negsuc}
use ledisdb.Error.{Error, Result, ok, err}
use ledisdb.Bytes.{Bytes}
use ledisdb.Server.{
  Reply, integer, slice_array, bulk, fv_pair_array, score_pair_array, status_ok, status_pong,
  empty_array, nil_array, cursor_array,
}
use ledisdb.Server.Text.{Text, word}

abbrev pub delims : Bytes
delims = b'\r' ∷ b'\n' ∷ []

module _ (t : Text) (error_text : Error → Bytes) where
  unfoldable pub write_error : Error → Bytes
  write_error x = b'-' ∷ (error_text x ++ delims)

  unfoldable pub write_status : Bytes → Bytes
  write_status status = b'+' ∷ (status ++ delims)

  unfoldable pub write_number : ℤ → Bytes
  write_number n = b':' ∷ (t.format_int n ++ delims)

  unfoldable pub write_bulk_bytes : Option Bytes → Bytes
  write_bulk_bytes none = b'$' ∷ (word "-1" ++ delims)
  write_bulk_bytes (some b) = b'$' ∷ (t.itoa (length b) ++ (delims ++ (b ++ delims)))

  abbrev pub write_count : ℕ → Bytes
  write_count n = b'*' ∷ (t.itoa n ++ delims)

  unfoldable pub write_bulks : List (Option Bytes) → Bytes
  unfolding write_bulk_bytes
  write_bulks [] = []
  write_bulks (b ∷ bs) = write_bulk_bytes b ++ write_bulks bs

  unfoldable pub write_fv_pairs : List (Bytes × Bytes) → Bytes
  unfolding write_bulk_bytes
  write_fv_pairs [] = []
  write_fv_pairs ((f, v) ∷ ps) =
      write_bulk_bytes (some f) ++ (write_bulk_bytes (some v) ++ write_fv_pairs ps)

  unfoldable pub write_score_pairs : Bool → List (ℤ × Bytes) → Bytes
  unfolding write_bulk_bytes
  write_score_pairs with_scores [] = []
  write_score_pairs true ((s, m) ∷ ps) =
      write_bulk_bytes (some m)
      ++ (write_bulk_bytes (some (t.format_int s)) ++ write_score_pairs true ps)
  write_score_pairs false ((s, m) ∷ ps) = write_bulk_bytes (some m) ++ write_score_pairs false ps

  unfoldable pub write_reply : Result Reply → Bytes
  unfolding write_error write_status write_number write_bulk_bytes write_bulks write_fv_pairs
      write_score_pairs
  write_reply (err x) = write_error x
  write_reply (ok (integer n)) = write_number n
  write_reply (ok (bulk b)) = write_bulk_bytes b
  write_reply (ok (slice_array bs)) = write_count (length bs) ++ write_bulks bs
  write_reply (ok (fv_pair_array ps)) = write_count (length ps * 2) ++ write_fv_pairs ps
  write_reply (ok (score_pair_array ps true)) =
      write_count (length ps * 2) ++ write_score_pairs true ps
  write_reply (ok (score_pair_array ps false)) =
      write_count (length ps) ++ write_score_pairs false ps
  write_reply (ok status_ok) = write_status (word "OK")
  write_reply (ok status_pong) = write_status (word "PONG")
  write_reply (ok empty_array) = write_count 0
  write_reply (ok nil_array) = b'*' ∷ (word "-1" ++ delims)
  write_reply (ok (cursor_array cursor bs)) =
      write_count 2
      ++ (write_bulk_bytes (some cursor) ++ (write_count (length bs) ++ write_bulks bs))
