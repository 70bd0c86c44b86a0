-- ===== src/Ledis/Replicas/Cluster/Agreement.antt =====
-- A master and a slave that start alike agree again whenever the slave has caught up, and it can.
use ledisdb.Base.{◌+◌, ◌≡◌, refl, sym, ap, ◌∙◌, Option, some, List, [], ◌∷◌, length, arith}
use ledisdb.Error.{Result}
use ledisdb.Bytes.{Bytes}
use ledisdb.Store.{Driver}
use ledisdb.Store.Map.{IsOrderedMap, find_row}
use ledisdb.Rpl.{Log, Replication, last_id}
use ledisdb.Ledis.Commit.{look}
use ledisdb.Ledis.Replicas.Replay.{
  IsNumbered, IsNumbered-older, last_id-length, replay_logs, rev_onto, rev_onto-append, at,
}
use ledisdb.Ledis.Replicas.Transfer.{length-rev_onto}
use ledisdb.Ledis.Replicas.Cluster.{Cluster, Reaches, last_of}
use ledisdb.Ledis.Replicas.Cluster.Synced.{IsSynced, Reaches-IsSynced}

nil_of_length : (logs : List Log) → length logs ≡ 0 → logs ≡ []
nil_of_length [] h = refl
nil_of_length (l ∷ logs) h = absurd (omega arith)

module _ {S I : Type 0} {d : Driver S I} (m : IsOrderedMap d) where
  -- Two databases without logs, whose stores hold the same values.
  pub record StartsAlike (c : Cluster S) : Type 0 where
    pub master_log : c.master.rpl ≡ some (at [] 0)
    pub slave_log : c.rpl ≡ at [] 0
    pub same_store : (k : Bytes) → look m c.master k ≡ find_row k (m.rows c.store)

  -- The stores hold the same values.
  abbrev pub Agrees : Cluster S → Type 0
  Agrees c = (k : Bytes) → find_row k (m.rows c.store) ≡ look m c.master k

  pub StartsAlike-IsSynced : (c : Cluster S) → StartsAlike c → IsSynced m (look m c.master) c
  unfolding last_id
  StartsAlike-IsSynced c h = record {
    unsent = [];
    pending = [];
    applied = [];
    numbered = tt;
    fits = tt;
    unsent_dumps = tt;
    pending_dumps = tt;
    master_log = h.master_log;
    slave_log = h.slave_log;
    master_store = λ k. refl;
    slave_store = λ k. sym (h.same_store k);
  }

  pub IsSynced-Agrees :
      (base : Bytes → Option Bytes) (c : Cluster S)
      → IsSynced m base c
      → c.rpl.commit_id ≡ last_of c.master.rpl
      → Agrees c
  IsSynced-Agrees base c h e =
      let old = rev_onto h.pending h.applied in
      let n_old : IsNumbered old = older h.unsent old h.numbered in
      let n_applied : IsNumbered h.applied = older h.pending h.applied n_old in
      let lengths : length h.applied ≡ length h.unsent + (length h.pending + length h.applied) =
        omega (
          arith,
          e,
          ap (λ (l : Replication). l.commit_id) h.slave_log,
          ap last_of h.master_log,
          last_id-length (rev_onto h.unsent old) h.numbered,
          last_id-length h.applied n_applied,
          length-rev_onto h.unsent old,
          length-rev_onto h.pending h.applied,
        ) in
      let no_unsent : h.unsent ≡ [] = nil_of_length h.unsent (omega arith) in
      let no_pending : h.pending ≡ [] = nil_of_length h.pending (omega arith) in
      λ k.
        h.slave_store k
        ∙ ap (λ p. replay_logs d (rev_onto p h.applied) k (base k)) (sym no_pending)
        ∙ ap (λ u. replay_logs d (rev_onto u old) k (base k)) (sym no_unsent)
        ∙ sym (h.master_store k)
    where
      older : (todo logs : List Log) → IsNumbered (rev_onto todo logs) → IsNumbered logs
      older todo logs n =
          IsNumbered-older (rev_onto todo []) logs (rw (← rev_onto-append todo logs) n)

module _ {S I : Type 0} {d : Driver S I} (m : IsOrderedMap d)
    (decompress : Bytes → Result Bytes) where
  -- A master and a slave without logs, whose stores hold the same values, after any commits of the master
  -- whose dumps and ids fit the head of a log, transfers of logs and replays by the slave, in any order:
  -- if the id that the slave has committed is that of the master's last log, their stores hold the same
  -- value, or none, under every key.
  pub Reaches-Agrees :
      (a b : Cluster S)
      → StartsAlike m a
      → Reaches d decompress a b
      → b.rpl.commit_id ≡ last_of b.master.rpl
      → Agrees m b
  Reaches-Agrees a b h path e =
      IsSynced-Agrees m (look m a.master) b
        (Reaches-IsSynced m decompress (look m a.master) path (StartsAlike-IsSynced m a h)) e
