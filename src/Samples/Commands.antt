-- ===== src/Samples/Commands.antt =====
-- The theorems on the commands of a client, at small arguments.
use Prim.Native.Nat.{Ordering}
use ledisdb.Base.{
  ◌≡◌, refl, ◌↔◌, Bool, true, false, none, some, List, [], ◌∷◌, ◌++◌, All, arith, ◌⊎◌,
}
use ledisdb.Base.Int.{ℤ, pos, ltb_ℤ, leb_ℤ}
use ledisdb.Error.{Error, Result, ok, err, driver_error, panic}
use ledisdb.Bytes.{Bytes, equal_bytes, compare_bytes, big_endian}
use ledisdb.Key.{set_index}
use ledisdb.Key.Member.{s_encode_set_key}
use ledisdb.Store.{Driver, put}
use ledisdb.Rpl.{Replication}
use ledisdb.Ledis.{State}
use ledisdb.Server.{Reply, bulk, status_ok, cursor_array}
use ledisdb.Server.Text.{word, is_lower_word}
use ledisdb.Server.Client.{
  Config, Client, serve, replied, lower_slice, reg_cmds, command_of, auth_command,
}
use ledisdb.Server.Sessions.{serve-set_get}
use ledisdb.Server.Access.{is_refusal, IsKept, serve_refused}
use ledisdb.Server.Resp.{write_reply}
use ledisdb.Server.Resp.Reader.{read_value}
use ledisdb.Server.Resp.RoundTrip.{value_of, read_value-write_reply}
use ledisdb.Server.ZsetParsers.{zparse_zsetopt_store, zparse_score_range}
use ledisdb.Server.ZsetParsers.Options.{zparse_zsetopt_store_panic}
use ledisdb.Server.ZsetParsers.Scores.{lower_bound, zparse_score_range_panic}
use ledisdb.Server.ScanParsers.{ScanArgs, scan_reply, x_scan_group}
use ledisdb.Server.ScanCursor.{GoesOn, scan_reply_lem}
use ledisdb.Samples.Memory.{memory, memory-IsOrderedMap, Table, Cursor}
use ledisdb.Samples.States.{env, key, key_fits, value, value_fits, fresh, fresh-IsReady, one_value}
use ledisdb.Samples.Unary.{unary, unary-IsDecimal}

in_order_two :
    compare_bytes
      (s_encode_set_key (set_index 0) key (97 ∷ []))
      (s_encode_set_key (set_index 0) key (98 ∷ []))
    ≡ Ordering.lt
unfolding compare_bytes s_encode_set_key set_index big_endian
in_order_two = refl

abbrev two_members : State Table
two_members = record fresh {
  store = record {
    table =
        (s_encode_set_key (set_index 0) key (97 ∷ []), [])
        ∷ (s_encode_set_key (set_index 0) key (98 ∷ []), [])
        ∷ [];
    in_order = ((in_order_two, tt), (tt, tt));
  };
}

abbrev any_pattern : Bytes → Result (Bytes → Bool)
any_pattern p = ok (λ k. true)

zparse_zsetopt_store_panic_example :
    (zparse_zsetopt_store unary (key ∷ word "-1" ∷ key ∷ []) ≡ err panic)
    ↔ ((n : ℤ) × (unary.atoi (word "-1") ≡ ok n) × (ltb_ℤ n (pos 0) ≡ true))
zparse_zsetopt_store_panic_example = zparse_zsetopt_store_panic unary key (word "-1") (key ∷ [])

zparse_score_range_panic_example : (zparse_score_range unary (word "+1") (word "(") ≡ err panic) ↔ (
    ((n : ℤ) × (lower_bound unary (word "+1") ≡ ok n))
    × ((word "(" ≡ b'(' ∷ []) × (is_lower_word unary "+inf" (word "(") ≡ false)))
zparse_score_range_panic_example = zparse_score_range_panic unary (word "+1") (word "(")

abbrev page : ScanArgs
page = record { cursor = []; pattern = []; count = pos 2; desc = false }

scan_reply_lem_example :
    ((scan_reply unary x_scan_group page (key ∷ value ∷ []) (some key ∷ some value ∷ [])
        ≡ err panic)
      × (◌≡◌ {A = List Bytes} (key ∷ value ∷ []) [])
      × (leb_ℤ (pos 2) (pos 0) ≡ true))
    ⊎ ((cursor : Bytes) × (scan_reply unary x_scan_group page
            (key ∷ value ∷ [])
            (some key ∷ some value ∷ [])
          ≡ ok (cursor_array cursor (some key ∷ some value ∷ [])))
        × GoesOn unary x_scan_group.last_cursor (pos 2) (key ∷ value ∷ []) cursor)
scan_reply_lem_example =
    scan_reply_lem unary x_scan_group page (key ∷ value ∷ []) (some key ∷ some value ∷ [])

abbrev error_text : Error → Bytes
error_text x = word "ERR"

abbrev found_two : Result Reply
found_two = ok (cursor_array (98 ∷ []) (some (97 ∷ []) ∷ some (98 ∷ []) ∷ []))

read_value-write_reply_example :
    read_value unary 3 (write_reply unary error_text found_two ++ word "+OK")
    ≡ some (value_of unary unary-IsDecimal error_text found_two, word "+OK")
read_value-write_reply_example =
    read_value-write_reply unary unary-IsDecimal error_text found_two (word "+OK") (omega arith)

abbrev with_password : Config
with_password = record { auth_password = word "secret"; auth_method = none; databases = 16 }

abbrev stranger : Client Table
stranger = record { is_authed = false; index = 0; state = one_value; parked = λ j. pos 0 }

abbrev requests : List (List Bytes)
requests =
    (word "set" ∷ key ∷ key ∷ []) ∷ (word "auth" ∷ word "guess" ∷ []) ∷ (word "del" ∷ key ∷ []) ∷ []

serve_refused_example :
    All
      (λ a. is_refusal a ≡ true)
      (serve unary with_password
        (reg_cmds memory env unary with_password any_pattern)
        requests
        stranger).0
    × IsKept unary with_password
        (reg_cmds memory env unary with_password any_pattern)
        stranger
        (serve unary with_password
          (reg_cmds memory env unary with_password any_pattern)
          requests
          stranger).1
unfolding reg_cmds command_of equal_bytes ledisdb.Server.Client.server_registry
serve_refused_example =
    serve_refused unary with_password (reg_cmds memory env unary with_password any_pattern) refl
      refl requests stranger
      ((refl, (refl, (refl, tt))), ((refl, (refl, tt)), ((refl, (refl, tt)), tt))) refl

-- A store that takes a batch only while it is empty
abbrev full_disk : Driver Table Cursor
full_disk = record memory {
  write = λ s ops. elim s.table [ [] ↦ memory.write s ops | x ∷ xs ↦ err (driver_error 1) ];
}

abbrev log_of_one : Replication
log_of_one = record { logs = []; commit_id = 0 }

abbrev one_more : State Table
one_more = record one_value {
  batch = record { ops = put key value ∷ []; put_num = 1; delete_num = 0 };
}

abbrev no_compression : Bytes → Result Bytes
no_compression bs = err panic

abbrev friend : Client Table
friend = record { is_authed = true; index = 0; state = fresh; parked = λ j. pos 0 }

serve-set_get_example :
    (serve unary with_password
      (reg_cmds memory env unary with_password any_pattern)
      ((word "SET" ∷ key ∷ value ∷ []) ∷ (word "Get" ∷ key ∷ []) ∷ [])
      friend).0
    ≡ replied (ok status_ok) ∷ replied (ok (bulk (some value))) ∷ []
unfolding lower_slice
serve-set_get_example =
    serve-set_get memory-IsOrderedMap env unary with_password any_pattern (word "SET") (word "Get")
      key value friend refl refl refl refl refl fresh-IsReady key_fits value_fits
