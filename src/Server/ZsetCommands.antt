-- ===== src/Server/ZsetCommands.antt =====
-- server/cmd_zset.go: the commands on members and ranks of a sorted set, and those of its expiry.
use ledisdb.Base.{Bool, true, false, none, some, List, [], ◌∷◌, if◌then◌else◌}
use ledisdb.Base.Int.{ℤ, negsuc, eqb_ℤ}
use ledisdb.Error.{Result, ok, err, err_cmd_params, err_score_miss}
use ledisdb.Bytes.{Bytes}
use ledisdb.Store.{Driver}
use ledisdb.Ledis.{Env, M, pure, raise, lift, ◌>>=◌}
use ledisdb.Ledis.Zset.{
  z_add, z_card, z_score, z_rem, z_incr_by, z_expire, z_expire_at_time, z_ttl, z_persist,
  z_key_exists,
}
use ledisdb.Ledis.Zset.Ranges.{z_rank, z_clear, z_m_clear}
use ledisdb.Server.{Reply, bulk, integer, write_integer, or_err_value}
use ledisdb.Server.Text.{Text}
use ledisdb.Server.HashCommands.{fv_pairs}

-- The scores of the pairs, read one after the other
unfoldable pub score_params : (Bytes → Result ℤ) → List (Bytes × Bytes) → Result (List (ℤ × Bytes))
score_params parse [] = ok []
score_params parse ((arg, member) ∷ pairs) =
    let rest = score_params parse pairs in
    elim (or_err_value (parse arg)) [
      | err x ↦ err x
      | ok score ↦ elim rest [ err x ↦ err x | ok params ↦ ok ((score, member) ∷ params) ]
    ]

-- `writeBulk` of a number, and of nil for a member that has no score or no rank
abbrev score_bulk : (ℤ → Bytes) → {S : Type 0} → M S ℤ → M S Reply
score_bulk format m = do n ← m; pure (bulk (some (format n)))

abbrev score_reply : (ℤ → Bytes) → Result ℤ → Result Reply
score_reply format (ok n) = ok (bulk (some (format n)))
score_reply format (err err_score_miss) = ok (bulk none)
score_reply format (err x) = err x

module _ {S I : Type 0} (d : Driver S I) (e : Env) where
  unfoldable pub zcard_command : List Bytes → M S Reply
  zcard_command (key ∷ []) = write_integer (z_card d e key)
  zcard_command args = raise err_cmd_params

  unfoldable pub zrem_command : List Bytes → M S Reply
  zrem_command (key ∷ arg ∷ args) = write_integer (z_rem d e key (arg ∷ args))
  zrem_command args = raise err_cmd_params

  abbrev rank_reply : Bytes → Bytes → Bool → M S Reply
  rank_reply key member reverse = do
    n ← z_rank d e key member reverse
    pure (if eqb_ℤ n (negsuc 0) then bulk none else integer n)

  unfoldable pub zrank_command : List Bytes → M S Reply
  zrank_command (key ∷ member ∷ []) = rank_reply key member false
  zrank_command args = raise err_cmd_params

  unfoldable pub zrevrank_command : List Bytes → M S Reply
  zrevrank_command (key ∷ member ∷ []) = rank_reply key member true
  zrevrank_command args = raise err_cmd_params

  unfoldable pub zclear_command : List Bytes → M S Reply
  zclear_command (key ∷ []) = write_integer (z_clear d e key)
  zclear_command args = raise err_cmd_params

  unfoldable pub zmclear_command : List Bytes → M S Reply
  zmclear_command (key ∷ keys) = write_integer (z_m_clear d e (key ∷ keys))
  zmclear_command args = raise err_cmd_params

  unfoldable pub zttl_command : List Bytes → M S Reply
  zttl_command (key ∷ []) = write_integer (z_ttl d e key)
  zttl_command args = raise err_cmd_params

  unfoldable pub zpersist_command : List Bytes → M S Reply
  zpersist_command (key ∷ []) = write_integer (z_persist d e key)
  zpersist_command args = raise err_cmd_params

  unfoldable pub zkeyexists_command : List Bytes → M S Reply
  zkeyexists_command (key ∷ []) = write_integer (z_key_exists d e key)
  zkeyexists_command args = raise err_cmd_params

module _ {S I : Type 0} (d : Driver S I) (e : Env) (t : Text) where
  unfoldable pub zadd_command : List Bytes → M S Reply
  unfolding fv_pairs score_params
  zadd_command (key ∷ a ∷ m ∷ args) = elim (fv_pairs (a ∷ m ∷ args)) [
    | none ↦ raise err_cmd_params
    | some pairs ↦ (do
      params ← lift (score_params t.parse_int64 pairs)
      write_integer (z_add d e key params))
  ]
  zadd_command args = raise err_cmd_params

  unfoldable pub zscore_command : List Bytes → M S Reply
  zscore_command (key ∷ member ∷ []) s =
      let (r, s') = z_score d e key member s in (score_reply t.format_int r, s')
  zscore_command args s = raise err_cmd_params s

  unfoldable pub zincrby_command : List Bytes → M S Reply
  zincrby_command (key ∷ arg ∷ member ∷ []) = (do
    delta ← lift (or_err_value (t.parse_int64 arg))
    score_bulk t.format_int (z_incr_by d e key delta member))
  zincrby_command args = raise err_cmd_params

  unfoldable pub zexpire_command : List Bytes → M S Reply
  zexpire_command (key ∷ arg ∷ []) = (do
    duration ← lift (or_err_value (t.parse_int64 arg))
    write_integer (z_expire d e key duration))
  zexpire_command args = raise err_cmd_params

  unfoldable pub zexpire_at_command : List Bytes → M S Reply
  zexpire_at_command (key ∷ arg ∷ []) = (do
    when ← lift (or_err_value (t.parse_int64 arg))
    write_integer (z_expire_at_time d e key when))
  zexpire_at_command args = raise err_cmd_params
