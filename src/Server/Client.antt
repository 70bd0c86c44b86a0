-- ===== src/Server/Client.antt =====
-- server/client.go, client_resp.go, command.go, util.go and cmd_server.go: what the server does with one
-- request of a client.
use ledisdb.Base.{
  ℕ, ◌+◌, ◌-◌, Bool, true, false, not, ◌&&◌, ◌||◌, Option, none, some, List, [], ◌∷◌, ◌++◌, map,
  length, leb, ltb, ◌==◌, if◌then◌else◌,
}
use ledisdb.Base.Int.{ℤ, pos, leb_ℤ, ltb_ℤ, pos_part}
use ledisdb.Error.{
  Result, ok, err, panic, invalid_db_index, err_cmd_params, err_empty_command, err_not_found,
  err_not_authenticated, err_authentication, err_xselect, ◌>>=◌,
}
use ledisdb.Bytes.{Bytes, equal_bytes}
use ledisdb.Key.{set_index}
use ledisdb.Store.{Driver}
use ledisdb.Ledis.{Env, State}
use ledisdb.Server.{Reply, bulk, status_ok, status_pong}
use ledisdb.Server.Text.{Text, word}
use ledisdb.Server.Registry.{
  Command, kv_registry, list_registry, hash_registry, set_registry, zset_registry, scan_registry,
}

-- `AuthPassword`, `AuthMethod` and `Databases` of the configuration
pub record Config : Type 0 where
  pub auth_password : Bytes
  pub auth_method : Option (Bytes → Bool)
  pub databases : ℕ

-- `isAuthed` and `db`; the data; and the next check of each database that is not selected.
pub record Client (S : Type 0) : Type 0 where
  pub is_authed : Bool
  pub index : ℕ
  pub state : State S
  pub parked : ℕ → ℤ

-- What a request leads to: a reply, `OK` and the end of the connection, the end of the server, or a Go
-- panic, which `run` recovers from: the connection ends without a reply.
pub data Answer : Type 0 where
  replied : Result Reply → Answer
  quitted shut_down crashed : Answer

abbrev pub answer_of : Result Reply → Answer
answer_of (ok r) = replied (ok r)
answer_of (err panic) = crashed
answer_of (err x) = replied (err x)

abbrev pub CommandFunc : Type 0 → Type 0
CommandFunc S = List Bytes → Client S → Result Reply × Client S

-- `lowerSlice` and `upperSlice`
unfoldable pub lower_slice : Bytes → Bytes
lower_slice = map (λ r. if leb b'A' r && leb r b'Z' then r + (b'a' - b'A') else r)

unfoldable pub upper_slice : Bytes → Bytes
upper_slice = map (λ r. if leb b'a' r && leb r b'z' then r - (b'a' - b'A') else r)

abbrev pub auth_enabled : Config → Bool
auth_enabled cfg =
    ltb 0 (length cfg.auth_password) || (elim cfg.auth_method [ none ↦ false | some f ↦ true ])

-- `defaultAuth`, or the method of the configuration
abbrev pub auth_of : Config → Bytes → Bool
auth_of cfg password = elim cfg.auth_method [
  | none ↦ equal_bytes cfg.auth_password password
  | some f ↦ f password
]

-- A look into `regCmds`
unfoldable pub command_of {ℓ} : {A : Type ℓ} → Bytes → List (Bytes × A) → Option A
command_of cmd [] = none
command_of cmd ((w, f) ∷ rows) =
    let rest = command_of cmd rows in if equal_bytes w cmd then some f else rest

module _ {S : Type 0} (t : Text) (cfg : Config) where
  unfoldable pub ping_command : CommandFunc S
  ping_command args c = (ok status_pong, c)

  unfoldable pub auth_command : CommandFunc S
  auth_command (password ∷ []) c =
      if auth_of cfg password
      then (ok status_ok, record c { is_authed = true })
      else (err err_authentication, record c { is_authed = false })
  auth_command args c = (err err_cmd_params, c)

  unfoldable pub echo_command : CommandFunc S
  echo_command (arg ∷ []) c = (ok (bulk (some arg)), c)
  echo_command args c = (err err_cmd_params, c)

  -- `Select` of a database: its checker goes on where it was, and is new at the first time.
  unfoldable pub select_db : ℤ → Client S → Result (Client S)
  select_db index c =
      if ltb_ℤ index (pos 0) || leb_ℤ (pos cfg.databases) index
      then err invalid_db_index
      else (let i = pos_part index in
          let parked = λ (j : ℕ). if j == c.index then c.state.next_check else c.parked j in
          ok (record c {
            index = i;
            state = record c.state { next_check = parked i };
            parked = parked;
          }))

  unfoldable pub select_command : CommandFunc S
  unfolding select_db
  select_command (arg ∷ []) c = elim (t.atoi arg >>= λ index. select_db index c) [
    | err x ↦ (err x, c)
    | ok c' ↦ (ok status_ok, c')
  ]
  select_command args c = (err err_cmd_params, c)

  unfoldable pub server_registry : List (Bytes × CommandFunc S)
  unfolding auth_command ping_command echo_command select_command
  server_registry =
      (word "auth", auth_command)
      ∷ (word "ping", ping_command)
      ∷ (word "echo", echo_command)
      ∷ (word "select", select_command)
      ∷ []

  -- `perform`, without the access log
  unfoldable pub perform :
      List (Bytes × CommandFunc S) → Bytes → List Bytes → Client S → Result Reply × Client S
  unfolding command_of
  perform cmds word_in args c =
      let cmd = t.to_lower word_in in
      if length cmd == 0 then (err err_empty_command, c) else elim (command_of cmd cmds) [
        | none ↦ (err err_not_found, c)
        | some f ↦
            if auth_enabled cfg && (not c.is_authed && not (equal_bytes cmd (word "auth")))
            then (err err_not_authenticated, c)
            else f args c
      ]

  -- `handleXSelectCmd`: the database, the command and its arguments. Every error is one of its own.
  unfoldable pub handle_x_select : List Bytes → Client S → Result (Bytes × List Bytes × Client S)
  unfolding select_db upper_slice lower_slice
  handle_x_select (a ∷ b ∷ cmd ∷ args) c =
      if not (equal_bytes (upper_slice b) (word "THEN"))
      then err err_xselect
      else elim (t.atoi a >>= λ index. select_db index c) [
        | err x ↦ err err_xselect
        | ok c' ↦ ok (lower_slice cmd, args, c')
      ]
  handle_x_select args c = err err_xselect

  -- `quit` and `shutdown` are not commands of the table.
  unfoldable pub handle_command :
      List (Bytes × CommandFunc S) → Bytes → List Bytes → Client S → Answer × Client S
  unfolding perform
  handle_command cmds cmd args c =
      if equal_bytes cmd (word "quit")
      then (quitted, c)
      else if equal_bytes cmd (word "shutdown")
      then (shut_down, c)
      else (let (r, c') = perform cmds cmd args c in (answer_of r, c'))

  unfoldable pub handle_request :
      List (Bytes × CommandFunc S) → List Bytes → Client S → Answer × Client S
  unfolding handle_command handle_x_select lower_slice
  handle_request cmds [] c = handle_command cmds [] [] c
  handle_request cmds (w ∷ args) c =
      if equal_bytes (lower_slice w) (word "xselect")
      then elim (handle_x_select args c) [
        | err x ↦ (replied (err x), c)
        | ok (cmd, rest, c') ↦ handle_command cmds cmd rest c'
      ]
      else handle_command cmds (lower_slice w) args c

  -- The loop of `run`: it ends with the connection.
  unfoldable pub serve :
      List (Bytes × CommandFunc S) → List (List Bytes) → Client S → List Answer × Client S
  unfolding handle_request
  serve cmds [] c = ([], c)
  serve cmds (req ∷ reqs) c =
      let (a, c') = handle_request cmds req c in
      let (answers, last) = serve cmds reqs c' in
      elim a [
        | replied r ↦ (replied r ∷ answers, last)
        | quitted ↦ (quitted ∷ [], c')
        | shut_down ↦ (shut_down ∷ [], c')
        | crashed ↦ (crashed ∷ [], c')
      ]

module _ {S I : Type 0} (d : Driver S I) (e : Env) (t : Text) (cfg : Config)
    (compile : Bytes → Result (Bytes → Bool)) where
  -- A command on the data runs on the database that is selected.
  abbrev pub on_db : Command S → CommandFunc S
  on_db f args c =
      let (r, s) = f (record e { db = set_index c.index }) args c.state in
      (r, record c { state = s })

  unfoldable pub reg_cmds : List (Bytes × CommandFunc S)
  unfolding server_registry kv_registry list_registry hash_registry set_registry zset_registry
      scan_registry
  reg_cmds =
      server_registry t cfg
      ++ map (λ row. (row.0, on_db row.1))
          (kv_registry d t compile
            ++ (list_registry d t compile
                ++ (hash_registry d t compile
                    ++ (set_registry d t compile
                        ++ (zset_registry d t compile ++ scan_registry d t compile)))))
