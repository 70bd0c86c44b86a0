-- ===== src/Ledis/Zset/Stores.antt =====
-- ledis/t_zset.go: `ZUnionStore` and `ZInterStore`.
use ledisdb.Base.{ℕ, false, not, Option, none, some, List, [], ◌∷◌, length, ◌==◌, if◌then◌else◌}
use ledisdb.Base.Int.{ℤ, pos, negsuc, ◌+ℤ◌, ◌*ℤ◌, ltb_ℤ, wrap64}
use ledisdb.Error.{
  Result, ok, err, panic, err_invalid_aggregate, err_invalid_src_key_num, err_invalid_weight_num,
}
use ledisdb.Bytes.{Bytes, equal_bytes}
use ledisdb.Key.{check_z_set_km_size}
use ledisdb.Key.Plain.{z_encode_size_key}
use ledisdb.Store.{Driver}
use ledisdb.Ledis.{Env, M, pure, raise, lift, put, locked, commit, ◌>>=◌, ◌>>◌}
use ledisdb.Ledis.Ttl.{ignore}
use ledisdb.Ledis.Value.{put_int64}
use ledisdb.Ledis.Zset.{min_score, max_score, z_set_item}
use ledisdb.Ledis.Zset.Ranges.{z_rem_range, z_range_generic}

-- A Go `map[string]int64`: each key once. Go's iteration takes any order of them; here it is the order
-- in which they came in.
abbrev pub Scores : Type 0
Scores = List (Bytes × ℤ)

abbrev pub score_at : Bytes → Scores → Option ℤ
score_at m [] = none
score_at m ((k, x) ∷ ks) = if equal_bytes k m then some x else score_at m ks

unfoldable pub put_score : Bytes → ℤ → Scores → Scores
put_score m x [] = (m, x) ∷ []
put_score m x ((k, y) ∷ ks) =
    let rest = (k, y) ∷ put_score m x ks in if equal_bytes k m then (k, x) ∷ ks else rest

-- `AggregateSum`, `AggregateMin`, `AggregateMax`, and any other byte
pub data Aggregate : Type 0 where
  sum min max : Aggregate

abbrev pub aggregate_of : ℕ → Option Aggregate
aggregate_of b =
    if b == 0 then some sum else if b == 1 then some min else if b == 2 then some max else none

-- `getAggregateFunc`
unfoldable pub aggregate_func : Aggregate → ℤ → ℤ → ℤ
aggregate_func sum a b = wrap64 (a +ℤ b)
aggregate_func max a b = if ltb_ℤ b a then a else b
aggregate_func min a b = if ltb_ℤ b a then b else a

abbrev ones : {A : Type 0} → List A → List ℤ
ones [] = []
ones (k ∷ ks) = pos 1 ∷ ones ks

-- The weights, one for each source key; without any they are 1.
unfoldable pub check_weights : List Bytes → Option (List ℤ) → Result (List ℤ)
check_weights keys none = ok (ones keys)
check_weights keys (some ws) =
    if not (length keys == length ws) then err err_invalid_weight_num else ok ws

-- The tests of the arguments, in the order of the code.
unfoldable pub check_store : ℕ → List Bytes → Option (List ℤ) → Result (Aggregate × List ℤ)
unfolding check_weights
check_store aggregate keys weights = elim (aggregate_of aggregate) [
  | none ↦ err err_invalid_aggregate
  | some f ↦
      if length keys == 0
      then err err_invalid_src_key_num
      else elim (check_weights keys weights) [ err x ↦ err x | ok ws ↦ ok (f, ws) ]
]

unfoldable pub union_pairs : Aggregate → ℤ → List (ℤ × Bytes) → Scores → Scores
unfolding put_score aggregate_func
union_pairs f w [] dst = dst
union_pairs f w ((s, m) ∷ ps) dst = union_pairs f w ps (
    put_score m
      (elim (score_at m dst) [
        | none ↦ wrap64 (s *ℤ w)
        | some x ↦ aggregate_func f x (wrap64 (s *ℤ w))
      ])
      dst)

unfoldable pub weigh_pairs : ℤ → List (ℤ × Bytes) → Scores → Scores
unfolding put_score
weigh_pairs w [] dst = dst
weigh_pairs w ((s, m) ∷ ps) dst = weigh_pairs w ps (put_score m (wrap64 (s *ℤ w)) dst)

unfoldable pub inter_pairs : Aggregate → ℤ → List (ℤ × Bytes) → Scores → Scores → Scores
unfolding put_score aggregate_func
inter_pairs f w [] dst tmp = tmp
inter_pairs f w ((s, m) ∷ ps) dst tmp = inter_pairs f w ps dst (elim (score_at m dst) [
  | none ↦ tmp
  | some x ↦ put_score m (aggregate_func f x (wrap64 (s *ℤ w))) tmp
])

module _ {S I : Type 0} (d : Driver S I) (e : Env) where
  -- `ZRange(key, 0, -1)`
  abbrev all_pairs : Bytes → M S (List (ℤ × Bytes))
  all_pairs key = z_range_generic d e key (pos 0) (negsuc 0) false

  unfoldable pub union_keys : Aggregate → List Bytes → List ℤ → Scores → M S Scores
  unfolding union_pairs
  union_keys f [] ws dst = pure dst
  union_keys f (key ∷ keys) [] dst = raise panic
  union_keys f (key ∷ keys) (w ∷ ws) dst = do
    pairs ← all_pairs key
    union_keys f keys ws (union_pairs f w pairs dst)

  unfoldable pub inter_keys : Aggregate → List Bytes → List ℤ → Scores → M S Scores
  unfolding inter_pairs
  inter_keys f [] ws dst = pure dst
  inter_keys f (key ∷ keys) [] dst = raise panic
  inter_keys f (key ∷ keys) (w ∷ ws) dst = do
    pairs ← all_pairs key
    inter_keys f keys ws (inter_pairs f w pairs dst [])

  unfoldable pub inter_from_first : Aggregate → List Bytes → List ℤ → M S Scores
  unfolding inter_keys weigh_pairs
  inter_from_first f (key ∷ keys) (w ∷ ws) = do
    pairs ← all_pairs key
    inter_keys f keys ws (weigh_pairs w pairs [])
  inter_from_first f [] ws = raise panic
  inter_from_first f (key ∷ keys) [] = raise panic

  unfoldable pub set_items : Bytes → Scores → M S (Unit {0})
  set_items dest [] = pure tt
  set_items dest ((member, score) ∷ items) = do
    lift (check_z_set_km_size dest member)
    _ ← z_set_item d e dest score member
    set_items dest items

  -- The common end of both: the destination is cleared, an error of which is ignored (`zDelete`), and
  -- the items and their number are put.
  unfoldable pub store_scores : Bytes → Scores → M S ℤ
  unfolding set_items
  store_scores dest items = locked (do
    ignore d (z_rem_range d e dest min_score max_score (pos 0) (negsuc 0))
    set_items dest items
    put (z_encode_size_key e.db dest) (put_int64 (pos (length items)))
    commit d e.now
    pure (pos (length items)))

  unfoldable pub z_union_store : Bytes → List Bytes → Option (List ℤ) → ℕ → M S ℤ
  unfolding check_store union_keys store_scores
  z_union_store dest keys weights aggregate = do
    (f, ws) ← lift (check_store aggregate keys weights)
    items ← union_keys f keys ws []
    store_scores dest items

  unfoldable pub z_inter_store : Bytes → List Bytes → Option (List ℤ) → ℕ → M S ℤ
  unfolding check_store inter_from_first store_scores
  z_inter_store dest keys weights aggregate = do
    (f, ws) ← lift (check_store aggregate keys weights)
    items ← inter_from_first f keys ws
    store_scores dest items
