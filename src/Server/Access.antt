-- ===== src/Server/Access.antt =====
-- What a client that has not given the password can do (server/client.go and server/client_resp.go).
use ledisdb.Base.{
  ◌≡◌, refl, Bool, true, false, Option, some, List, [], ◌∷◌, arith, All, Bool-cases, ◌∙◌, inl, inr,
}
use ledisdb.Base.Int.{ℤ}
use ledisdb.Error.{Result, ok, err, err_xselect, ◌>>=◌}
use ledisdb.Bytes.{Bytes, equal_bytes}
use ledisdb.Bytes.Compare.{equal_bytes_iff}
use ledisdb.Store.{WriteBatch}
use ledisdb.Rpl.{Replication}
use ledisdb.Ledis.{State}
use ledisdb.Server.Text.{Text, word}
use ledisdb.Server.Client.{
  Config, Client, Answer, replied, quitted, shut_down, crashed, answer_of, CommandFunc,
  auth_enabled, auth_of, command_of, auth_command, select_db, perform, handle_x_select,
  handle_command, handle_request, serve, lower_slice, upper_slice,
}

-- The store, the pending batch, the mark of a slave and the log of a state; not the next check.
abbrev pub data_of : {S : Type 0} → State S → S × WriteBatch × Bool × Option Replication
data_of s = (s.store, s.batch, s.readonly, s.rpl)

-- An error, the end of the connection, or the end of the server: no command has succeeded.
abbrev pub is_refusal : Answer → Bool
is_refusal (replied (ok r)) = false
is_refusal (replied (err x)) = true
is_refusal quitted = true
is_refusal shut_down = true
is_refusal crashed = false

module _ {S : Type 0} (t : Text) (cfg : Config) (cmds : List (Bytes × CommandFunc S)) where
  -- Nothing has been reached: still no password, and the data as they were.
  abbrev pub IsKept : Client S → Client S → Type 0
  IsKept c c' = (c'.is_authed ≡ false) × (data_of c'.state ≡ data_of c.state)

  auth_refused :
      (args : List Bytes) (c : Client S)
      → All (λ a. auth_of cfg a ≡ false) args
      → c.is_authed ≡ false
      → (is_refusal (answer_of (auth_command t cfg args c).0) ≡ true)
        × IsKept c (auth_command t cfg args c).1
  unfolding auth_command
  auth_refused [] c h g = (refl, (g, refl))
  auth_refused (a ∷ []) c h g = rw (h.0) (refl, (refl, refl))
  auth_refused (a ∷ b ∷ args) c h g = (refl, (g, refl))

  module _ (enabled : auth_enabled cfg ≡ true)
      (first : command_of (word "auth") cmds ≡ some (auth_command t cfg)) where
    perform_refused :
        (w : Bytes) (args : List Bytes) (c : Client S)
        → All (λ a. auth_of cfg a ≡ false) args
        → c.is_authed ≡ false
        → (is_refusal (answer_of (perform t cfg cmds w args c).0) ≡ true)
          × IsKept c (perform t cfg cmds w args c).1
    unfolding perform
    perform_refused w args c h g =
        ground (arith, auth_refused args c h g, equal_bytes_iff (t.to_lower w) (word "auth"), first)

    select-IsKept :
        (index : ℤ) (c c' : Client S)
        → select_db t cfg index c ≡ ok c'
        → c.is_authed ≡ false
        → IsKept c c'
    unfolding select_db
    select-IsKept index c c' h g = ground arith

    abbrev IsRefused : Answer × Client S → Client S → Type 0
    IsRefused r c = (is_refusal r.0 ≡ true) × IsKept c r.1

    command-IsRefused :
        (w : Bytes) (args : List Bytes) (c : Client S)
        → All (λ a. auth_of cfg a ≡ false) args
        → c.is_authed ≡ false
        → IsRefused (handle_command t cfg cmds w args c) c
    unfolding handle_command
    command-IsRefused w args c h g = ground (arith, perform_refused w args c h g)

    -- What `XSELECT` leaves to be done: the data are kept, and no password comes in.
    abbrev IsHarmless : Client S → Result (Bytes × List Bytes × Client S) → Type 0
    IsHarmless c (err x) = Unit {0}
    IsHarmless c (ok (cmd, rest, c')) = All (λ a. auth_of cfg a ≡ false) rest × IsKept c c'

    selected :
        (a cmd : Bytes) (rest : List Bytes) (c : Client S) (r : Result (Client S))
        → All (λ b. auth_of cfg b ≡ false) rest
        → ((c' : Client S) → r ≡ ok c' → IsKept c c')
        → IsHarmless c (elim r [ err x ↦ err err_xselect | ok c' ↦ ok (cmd, rest, c') ])
    selected a cmd rest c (err x) h keeps = tt
    selected a cmd rest c (ok c') h keeps = (h, keeps c' refl)

    parsed :
        (r : Result ℤ) (c c' : Client S)
        → c.is_authed ≡ false
        → (r >>= λ index. select_db t cfg index c) ≡ ok c'
        → IsKept c c'
    parsed (err x) c c' g h = ground (arith, h)
    parsed (ok index) c c' g h = select-IsKept index c c' h g

    x_select-IsHarmless :
        (args : List Bytes) (c : Client S)
        → All (λ a. auth_of cfg a ≡ false) args
        → c.is_authed ≡ false
        → IsHarmless c (handle_x_select t cfg args c)
    unfolding handle_x_select
    x_select-IsHarmless [] c h g = tt
    x_select-IsHarmless (a ∷ []) c h g = tt
    x_select-IsHarmless (a ∷ b ∷ []) c h g = tt
    x_select-IsHarmless (a ∷ b ∷ cmd ∷ args) c h g =
        elim (Bool-cases (equal_bytes (upper_slice b) (word "THEN"))) [
          | inr e ↦ rw e tt
          | inl e ↦
              rw e
                (selected a (lower_slice cmd) args c _ (h.1.1.1) (λ c'. parsed (t.atoi a) c c' g))
        ]

    after_select :
        (r : Result (Bytes × List Bytes × Client S)) (c : Client S)
        → c.is_authed ≡ false
        → IsHarmless c r
        → IsRefused
            (elim r [
              | err x ↦ (replied (err x), c)
              | ok (cmd, rest, c') ↦ handle_command t cfg cmds cmd rest c'
            ])
            c
    after_select (err x) c g h = (refl, (g, refl))
    after_select (ok (cmd, rest, c')) c g h =
        let (done, (authed, same)) = command-IsRefused cmd rest c' h.0 h.1.0 in
        (done, (authed, same ∙ h.1.1))

    request-IsRefused :
        (req : List Bytes) (c : Client S)
        → All (λ a. auth_of cfg a ≡ false) req
        → c.is_authed ≡ false
        → IsRefused (handle_request t cfg cmds req c) c
    unfolding handle_request handle_x_select
    request-IsRefused [] c h g = command-IsRefused [] [] c h g
    request-IsRefused (w ∷ args) c h g =
        elim (Bool-cases (equal_bytes (lower_slice w) (word "xselect"))) [
          | inl e ↦ rw e (after_select _ c g (x_select-IsHarmless args c h.1 g))
          | inr e ↦ rw e (command-IsRefused (lower_slice w) args c h.1 g)
        ]

    joined :
        (c : Client S) (a : Answer) (c' : Client S) (r : List Answer × Client S)
        → is_refusal a ≡ true
        → IsKept c c'
        → All (λ b. is_refusal b ≡ true) r.0
        → IsKept c r.1
        → let all = elim a as (λ _. List Answer × Client S) [
          | replied x ↦ (replied x ∷ r.0, r.1)
          | quitted ↦ (quitted ∷ [], c')
          | shut_down ↦ (shut_down ∷ [], c')
          | crashed ↦ (crashed ∷ [], c')
        ] in
          All (λ b. is_refusal b ≡ true) all.0 × IsKept c all.1
    joined c (replied x) c' r done kept later kept' = ((done, later), kept')
    joined c quitted c' r done kept later kept' = ((done, tt), kept)
    joined c shut_down c' r done kept later kept' = ((done, tt), kept)
    joined c crashed c' r done kept later kept' = ground (arith, done)

    -- On a server with a password, with a table of commands in which `auth` is `authCommand`: a client that
    -- has not given the password sends any requests of which no word is a password that is accepted. It is
    -- answered with an error, and never breaks off by a panic, up to a QUIT, which ends the connection, or a SHUTDOWN, which is obeyed. It is
    -- as little trusted afterwards as before, and the store, the pending batch, the mark of a slave and the
    -- replication log are what they were.
    pub serve_refused :
        (reqs : List (List Bytes)) (c : Client S)
        → All (All (λ a. auth_of cfg a ≡ false)) reqs
        → c.is_authed ≡ false
        → All (λ a. is_refusal a ≡ true) (serve t cfg cmds reqs c).0
          × IsKept c (serve t cfg cmds reqs c).1
    unfolding serve
    serve_refused [] c h g = (tt, (g, refl))
    serve_refused (req ∷ reqs) c h g =
        let (done, (authed, same)) = request-IsRefused req c h.0 g in
        let (later, (authed', same')) =
          serve_refused reqs (handle_request t cfg cmds req c).1 h.1 authed in
        joined c _ _ _ done (authed, same) later (authed', same' ∙ same)
