-- ===== src/Server/Sessions.antt =====
-- Requests of a client, from their words to the answers, over what is proved of the handlers behind them.
use ledisdb.Base.{
  ◌≡◌, ◌≢◌, refl, ap, ◌∙◌, Bool, false, not, ◌&&◌, some, List, [], ◌∷◌, if◌then◌else◌, arith,
  length, ◌==◌,
}
use ledisdb.Error.{Result, ok}
use ledisdb.Bytes.{Bytes, equal_bytes}
use ledisdb.Key.Record.{hash_size, kv_value}
use ledisdb.Key.Record.Distinct.{type_of}
use ledisdb.Key.{check_key_size, check_value_size, set_index}
use ledisdb.Store.{Driver}
use ledisdb.Store.Map.{IsOrderedMap}
use ledisdb.Ledis.{Env, State}
use ledisdb.Ledis.Commit.{IsReady}
use ledisdb.Ledis.Kv.{set, get}
use ledisdb.Ledis.Kv.Values.{set_run, set_lem}
use ledisdb.Server.{Reply, bulk, status_ok}
use ledisdb.Server.Text.{Text, word}
use ledisdb.Server.KvCommands.{set_command, get_command}
use ledisdb.Server.Registry.{kv_registry}
use ledisdb.Server.Client.{
  Config, Client, replied, answer_of, CommandFunc, command_of, on_db, server_registry, reg_cmds,
  perform, lower_slice, handle_command, handle_request, serve, auth_enabled,
}

hash_size_ne : (key : Bytes) → hash_size key ≢ kv_value key
unfolding type_of
hash_size_ne key p = omega (arith, ap type_of p)

if_false : {A : Type 0} {b : Bool} (x : A) {y z : A} → b ≡ false → y ≡ z → (if b then x else y) ≡ z
if_false x p q = rw p q

module _ {S I : Type 0} {d : Driver S I} (m : IsOrderedMap d) (e : Env) (t : Text) (cfg : Config)
    (compile : Bytes → Result (Bytes → Bool)) where
  abbrev table : List (Bytes × CommandFunc S)
  table = reg_cmds d e t cfg compile

  set_entry : command_of (word "set") table ≡ some (on_db d e t cfg compile (set_command d))
  unfolding reg_cmds command_of equal_bytes server_registry kv_registry
  set_entry = refl

  get_entry : command_of (word "get") table ≡ some (on_db d e t cfg compile (get_command d))
  unfolding reg_cmds command_of equal_bytes server_registry kv_registry
  get_entry = refl

  -- A word of the table: not one that is handled before it, and its own lower case.
  record IsCommand (cmd : Bytes) : Type 0 where
    not_x_select : equal_bytes cmd (word "xselect") ≡ false
    not_quit : equal_bytes cmd (word "quit") ≡ false
    not_shutdown : equal_bytes cmd (word "shutdown") ≡ false
    not_nothing : (length cmd == 0) ≡ false
    lower : t.to_lower cmd ≡ cmd

  allowed_again : (a b k : Bool) → (a && not b) ≡ false → (a && (not b && not k)) ≡ false
  allowed_again a b k h = ground (arith, h)

  perform_run :
      (cmd : Bytes) (args : List Bytes) (c : Client S) (f : CommandFunc S)
      → IsCommand cmd
      → command_of cmd table ≡ some f
      → (auth_enabled cfg && not c.is_authed) ≡ false
      → perform t cfg table cmd args c ≡ f args c
  unfolding perform
  perform_run cmd args c f is entry allowed = ground (
    arith,
    is.lower,
    is.not_nothing,
    entry,
    allowed_again (auth_enabled cfg) c.is_authed (equal_bytes cmd (word "auth")) allowed,
  )

  run_of_command :
      (cmd : Bytes) (args : List Bytes) (c : Client S) (f : CommandFunc S)
      → IsCommand cmd
      → perform t cfg table cmd args c ≡ f args c
      → handle_command t cfg table cmd args c ≡ (answer_of (f args c).0, (f args c).1)
  unfolding handle_command
  run_of_command cmd args c f is run = rw (is.not_quit, is.not_shutdown, run) refl

  request_run :
      (w cmd : Bytes) (args : List Bytes) (c : Client S) (f : CommandFunc S)
      → lower_slice w ≡ cmd
      → IsCommand cmd
      → command_of cmd table ≡ some f
      → (auth_enabled cfg && not c.is_authed) ≡ false
      → handle_request t cfg table (w ∷ args) c ≡ (answer_of (f args c).0, (f args c).1)
  unfolding handle_request
  request_run w cmd args c f low is entry allowed =
      if_false _ (ap (λ x. equal_bytes x (word "xselect")) low ∙ is.not_x_select) (
        ap (λ x. handle_command t cfg table x args c) low
        ∙ run_of_command cmd args c f is (perform_run cmd args c f is entry allowed))

  two_requests :
      (q r : List Bytes) (c c1 c2 : Client S) (x y : Result Reply)
      → handle_request t cfg table q c ≡ (replied x, c1)
      → handle_request t cfg table r c1 ≡ (replied y, c2)
      → serve t cfg table (q ∷ r ∷ []) c ≡ (replied x ∷ replied y ∷ [], c2)
  unfolding serve
  two_requests q r c c1 c2 x y p o = ground (arith, p, o)

  set_word : t.to_lower (word "set") ≡ word "set" → IsCommand (word "set")
  unfolding equal_bytes
  set_word low = record {
    not_x_select = refl;
    not_quit = refl;
    not_shutdown = refl;
    not_nothing = refl;
    lower = low;
  }

  get_word : t.to_lower (word "get") ≡ word "get" → IsCommand (word "get")
  unfolding equal_bytes
  get_word low = record {
    not_x_select = refl;
    not_quit = refl;
    not_shutdown = refl;
    not_nothing = refl;
    lower = low;
  }

  -- The environment of the database that is selected
  abbrev at : Client S → Env
  at c = record e { db = set_index c.index }

  set_answer :
      (key value : Bytes) (c : Client S)
      → IsReady c.state
      → check_key_size key ≡ ok tt
      → check_value_size value ≡ ok tt
      → on_db d e t cfg compile (set_command d) (key ∷ value ∷ []) c
        ≡ (ok status_ok, record c { state = (set d (at c) key value c.state).1 })
  unfolding set_command
  set_answer key value c ready kh vh = rw (set_run m (at c) c.state ready key value kh vh) refl

  get_answer :
      (key value : Bytes) (c : Client S) (s : State S)
      → (get d (at c) key s).0 ≡ ok (some value)
      → (on_db d e t cfg compile (get_command d) (key ∷ []) (record c { state = s })).0
        ≡ ok (bulk (some value))
  unfolding get_command
  get_answer key value c s h = rw h refl

  -- On an ordered map, for a client that may run commands, whose state is between two handlers, and for a key and a value of
  -- allowed sizes: a request that is SET of the value under the key, in any case of its letters, and then a
  -- request that is GET of the key are answered with OK and with the value. The case mapping leaves the two words in lower case as they are.
  pub serve-set_get :
      (w1 w2 key value : Bytes) (c : Client S)
      → t.to_lower (word "set") ≡ word "set"
      → t.to_lower (word "get") ≡ word "get"
      → lower_slice w1 ≡ word "set"
      → lower_slice w2 ≡ word "get"
      → (auth_enabled cfg && not c.is_authed) ≡ false
      → IsReady c.state
      → check_key_size key ≡ ok tt
      → check_value_size value ≡ ok tt
      → (serve t cfg table ((w1 ∷ key ∷ value ∷ []) ∷ (w2 ∷ key ∷ []) ∷ []) c).0
        ≡ replied (ok status_ok) ∷ replied (ok (bulk (some value))) ∷ []
  serve-set_get w1 w2 key value c low_set low_get is_set is_get allowed ready kh vh =
      let s = (set d (at c) key value c.state).1 in
      let c1 : Client S = record c { state = s } in
      let first =
        request_run w1 (word "set") (key ∷ value ∷ []) c _ is_set (set_word low_set) set_entry
          allowed in
      let first : handle_request t cfg table (w1 ∷ key ∷ value ∷ []) c
          ≡ (replied (ok status_ok), c1) =
        first ∙ ap (λ x. (answer_of x.0, x.1)) (set_answer key value c ready kh vh) in
      let second =
        request_run w2 (word "get") (key ∷ []) c1 _ is_get (get_word low_get) get_entry allowed in
      let read =
        (set_lem m (at c) c.state ready key value (hash_size key) kh vh tt (hash_size_ne key)).1 in
      let c2 = (on_db d e t cfg compile (get_command d) (key ∷ []) c1).1 in
      let second : handle_request t cfg table (w2 ∷ key ∷ []) c1
          ≡ (replied (ok (bulk (some value))), c2) =
        second ∙ ap (λ y. (answer_of y, c2)) (get_answer key value c s read) in
      ap (λ x. x.0) (two_requests _ _ c c1 c2 (ok status_ok) _ first second)
