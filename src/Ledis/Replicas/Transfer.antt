-- ===== src/Ledis/Replicas/Transfer.antt =====
-- Logs that a master reads out and a slave stores (ledis/replication.go).
use ledisdb.Base.{
  ℕ, zero, suc, ◌+◌, ◌-◌, ◌<◌, ◌≤◌, ◌≡◌, refl, sym, ap, true, false, some, List, [], ◌∷◌, ◌++◌,
  length, length-append, append-nil, ltb, ◌==◌, Bool-cases, inl, inr, All, arith,
}
use ledisdb.Error.{ok}
use ledisdb.Bytes.{Bytes}
use ledisdb.Rpl.{Log, last_id, first_id, get_log, store_log}
use ledisdb.Rpl.Codec.{encode_log, decode_log, log_size, read_full}
use ledisdb.Rpl.RoundTrip.{FitsHead, decode-encode_log}
use ledisdb.Ledis.Replicas.{
  max_repl_log_size, Reading, reading, before, read_logs, read_logs_to, store_logs,
  store_logs_from_reader,
}
use ledisdb.Ledis.Replicas.Replay.{
  IsNumbered, last_id-length, IsNumbered-older, get_log-numbered, rev_onto, rev_onto-append, at,
}

-- The logs in bytes, in the order of their ids
abbrev pub encode_all : List Log → Bytes
encode_all [] = []
encode_all (l ∷ logs) = encode_log l ++ encode_all logs

IsNumbered-next :
    (l : Log) (todo old : List Log) → IsNumbered (rev_onto (l ∷ todo) old) → l.id ≡ last_id old + 1
IsNumbered-next l todo old n =
    let same : rev_onto todo (l ∷ old) ≡ rev_onto todo [] ++ l ∷ old =
      rev_onto-append todo (l ∷ old) in
    (IsNumbered-older (rev_onto todo []) (l ∷ old) (rw (← same) n)).0

get_log-next :
    (l : Log) (todo old : List Log)
    → IsNumbered (rev_onto (l ∷ todo) old)
    → get_log (last_id old + 1) (rev_onto todo (l ∷ old)) ≡ ok l
get_log-next l todo old n =
    let same : rev_onto todo (l ∷ old) ≡ rev_onto todo [] ++ l ∷ old =
      rev_onto-append todo (l ∷ old) in
    rw same (get_log-numbered (rev_onto todo []) l old (rw (← same) n))

-- What is read of the logs that are to be sent: the first ones of them.
record HasRead (todo old : List Log) (r : Reading) : Type 0 where
  pub sent : List Log
  pub unsent : List Log
  pub parts : todo ≡ sent ++ unsent
  pub some_sent : 0 < length todo → 0 < length sent
  pub written : r.written ≡ encode_all sent
  pub next : r.next_log_id ≡ last_id (rev_onto sent old) + 1
  pub result : r.result ≡ ok tt

read_last :
    (l : Log) (left i num : ℕ) (logs : List Log)
    → get_log i logs ≡ ok l
    → ltb max_repl_log_size (num + log_size l) ≡ true
    → read_logs (suc left) i num logs ≡ reading (encode_log l) (num + log_size l) (i + 1) (ok tt)
unfolding read_logs
read_last l left i num logs found full = rw (found, full, read_logs)

read_more :
    (l : Log) (left i num : ℕ) (logs : List Log)
    → get_log i logs ≡ ok l
    → ltb max_repl_log_size (num + log_size l) ≡ false
    → read_logs (suc left) i num logs
      ≡ before (encode_log l) (read_logs left (i + 1) (num + log_size l) logs)
unfolding read_logs
read_more l left i num logs found more = rw (found, more, read_logs)

read_run :
    (num : ℕ) (todo old : List Log)
    → IsNumbered (rev_onto todo old)
    → HasRead todo old (read_logs (length todo) (last_id old + 1) num (rev_onto todo old))
read_run num [] old n =
    unfold read_logs in
    record {
      sent = [];
      unsent = [];
      parts = refl;
      some_sent = λ h. h;
      written = refl;
      next = refl;
      result = refl;
    }
read_run num (l ∷ todo) old n =
    let found : get_log (last_id old + 1) (rev_onto todo (l ∷ old)) ≡ ok l =
      get_log-next l todo old n in
    let last : last_id (l ∷ old) ≡ last_id old + 1 =
      (unfold last_id in IsNumbered-next l todo old n) in
    elim (Bool-cases (ltb max_repl_log_size (num + log_size l))) [
      | inl full ↦
          rw (read_last l (length todo) (last_id old + 1) num (rev_onto todo (l ∷ old)) found full)
            (record {
              sent = l ∷ [];
              unsent = todo;
              parts = refl;
              some_sent = λ h. omega arith;
              written = sym (append-nil (encode_log l));
              next = ap (λ i. i + 1) (sym last);
              result = refl;
            })
      | inr more ↦
          rw (read_more l (length todo) (last_id old + 1) num (rev_onto todo (l ∷ old)) found more)
            (one_more l todo old (rw last at (read_run (num + log_size l) todo (l ∷ old) n)))
    ]
  where
    one_more :
        (l : Log) (todo old : List Log) {r : Reading}
        → HasRead todo (l ∷ old) r
        → HasRead (l ∷ todo) old (before (encode_log l) r)
    one_more l todo old h = record {
      sent = l ∷ h.sent;
      unsent = h.unsent;
      parts = ap (λ ls. l ∷ ls) h.parts;
      some_sent = λ p. omega arith;
      written = ap (λ b. encode_log l ++ b) h.written;
      next = h.next;
      result = h.result;
    }

store_run :
    (sent old : List Log) (id fuel : ℕ)
    → IsNumbered (rev_onto sent old)
    → All FitsHead sent
    → length sent < fuel
    → store_logs fuel (encode_all sent) (at old id) ≡ some (ok tt, at (rev_onto sent old) id)
unfolding store_logs
store_run sent old id zero n f lt = absurd (omega arith)
store_run [] old id (suc fuel) n f lt = unfold decode_log read_full in refl
store_run (l ∷ sent) old id (suc fuel) n f lt =
    let next : (l.id == last_id old + 1) ≡ true = ground (arith, IsNumbered-next l sent old n) in
    let stored : store_log l old ≡ ok (l ∷ old) = (unfold store_log in rw next) in
    rw (decode-encode_log l (encode_all sent) f.0, stored, store_logs)
      (store_run sent (l ∷ old) id fuel n f.1 (omega arith))

first_id_le : (logs : List Log) → IsNumbered logs → first_id logs ≤ 1
unfolding first_id
first_id_le [] n = omega arith
first_id_le (l ∷ []) n =
    let none_yet : last_id [] ≡ 0 = (unfold last_id in refl) in omega (arith, n.0, none_yet)
first_id_le (l ∷ j ∷ logs) n = first_id_le (j ∷ logs) n.1

All-append : (xs ys : List Log) → All FitsHead (xs ++ ys) → All FitsHead xs
All-append [] ys h = tt
All-append (x ∷ xs) ys h = (h.0, All-append xs ys h.1)

pub IsNumbered-sent :
    (sent unsent old : List Log)
    → IsNumbered (rev_onto (sent ++ unsent) old)
    → IsNumbered (rev_onto sent old)
IsNumbered-sent [] unsent old n =
    IsNumbered-older (rev_onto unsent []) old (rw (← rev_onto-append unsent old) n)
IsNumbered-sent (l ∷ sent) unsent old n = IsNumbered-sent sent unsent (l ∷ old) n

pub length-rev_onto : (todo old : List Log) → length (rev_onto todo old) ≡ length todo + length old
length-rev_onto [] old = omega arith
length-rev_onto (l ∷ todo) old = omega (arith, length-rev_onto todo (l ∷ old))

-- A master whose logs are those of a slave and some to be sent, in the order of their ids from 1, and of
-- numbers that fit the head of a log: reading from the slave's next id succeeds and, with a round of fuel
-- for each log and one more, the slave that stores what was read has its logs and the first of those to
-- be sent, at least one if there is one, and its commit id is kept; the next id that is returned is
-- that behind the slave's last one.
pub transfer_lem :
    (todo old : List Log) (master_id id fuel : ℕ)
    → IsNumbered (rev_onto todo old)
    → All FitsHead todo
    → length todo < fuel
    → (sent : List Log) × (unsent : List Log) × (todo ≡ sent ++ unsent)
      × (0 < length todo → 0 < length sent)
      × ((read_logs_to (last_id old + 1) (some (at (rev_onto todo old) master_id))).result ≡ ok tt)
      × ((read_logs_to (last_id old + 1) (some (at (rev_onto todo old) master_id))).next_log_id
          ≡ last_id (rev_onto sent old) + 1)
      × (store_logs_from_reader fuel true
            (read_logs_to (last_id old + 1) (some (at (rev_onto todo old) master_id))).written
            (some (at old id))
          ≡ some (ok tt, some (at (rev_onto sent old) id)))
unfolding read_logs_to store_logs_from_reader
transfer_lem todo old master_id id fuel n f lt =
    let n_old : IsNumbered old =
      IsNumbered-older (rev_onto todo []) old (rw (← rev_onto-append todo old) n) in
    let left : last_id (rev_onto todo old) + 1 - (last_id old + 1) ≡ length todo = omega (
      arith,
      last_id-length (rev_onto todo old) n,
      last_id-length old n_old,
      length-rev_onto todo old,
    ) in
    let there : ltb (last_id old + 1) (first_id (rev_onto todo old)) ≡ false =
      ground (arith, first_id_le (rev_onto todo old) n) in
    let h = read_run 0 todo old n in
    let n_sent : IsNumbered (rev_onto h.sent old) =
      IsNumbered-sent h.sent h.unsent old (rw (← h.parts) n) in
    let f_sent : All FitsHead h.sent = All-append h.sent h.unsent (rw (← h.parts) f) in
    let short : length h.sent < fuel =
      omega (arith, ap length h.parts, length-append h.sent h.unsent) in
    (
      h.sent,
      h.unsent,
      h.parts,
      h.some_sent,
      rw (there, left) h.result,
      rw (there, left) h.next,
      rw (
        there,
        left,
        h.written,
        store_run h.sent old id fuel n_sent f_sent short,
        store_logs_from_reader,
      ),
    )
