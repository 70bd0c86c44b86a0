-- ===== src/Store.antt =====
-- store/driver/store.go, store/db.go and store/writebatch.go: the storage driver, which is not part of
-- this repository, as a record of the operations that are called, and the write batch.
pub mod Map
pub mod Iterator
pub mod Rows
pub mod Range
pub mod Scan
use ledisdb.Base.{ℕ, ◌+◌, Bool, Option, none, some, List, [], ◌∷◌, ◌++◌, if◌then◌else◌}
use ledisdb.Error.{Result}
use ledisdb.Bytes.{Bytes, equal_bytes}

-- What `Put` and `Delete` add to a batch. Go's nil value is the empty one.
pub data Op : Type 0 where
  put : Bytes → Bytes → Op
  delete : Bytes → Op

abbrev pub op_key : Op → Bytes
op_key (put k v) = k
op_key (delete k) = k

-- `driver.IDB` and `driver.IIterator`, over the states `S` of a database and `I` of an iterator. A
-- value or key that is `none` is Go's nil.
pub record Driver (S I : Type 0) : Type 0 where
  pub get : S → Bytes → Result (Option Bytes)
  -- `Commit` and `SyncCommit` of a batch
  pub write : S → List Op → Result S
  -- `Data` of a batch; `NewBatchData` of such data, and what its `Replay` hands over
  pub dump : List Op → Bytes
  pub load : Bytes → Result (Unit {0})
  pub load_ops : Bytes → List Op
  pub new_iterator : S → I
  pub first : I → I
  pub last : I → I
  pub seek : I → Bytes → I
  pub next : I → I
  pub prev : I → I
  pub valid : I → Bool
  pub key : I → Option Bytes
  pub value : I → Option Bytes

-- The value of a key after the operations of a batch, by the value before them.
unfoldable pub replay : List Op → Bytes → Option Bytes → Option Bytes
replay [] k v = v
replay (put j w ∷ ops) k v = replay ops k (if equal_bytes j k then some w else v)
replay (delete j ∷ ops) k v = replay ops k (if equal_bytes j k then none else v)

-- `store.WriteBatch`: what is pending, and the counts for the statistics.
pub record WriteBatch : Type 0 where
  pub ops : List Op
  pub put_num : ℕ
  pub delete_num : ℕ

abbrev pub empty_batch : WriteBatch
empty_batch = record { ops = []; put_num = 0; delete_num = 0 }

unfoldable pub batch_put : Bytes → Bytes → WriteBatch → WriteBatch
batch_put key value wb = record wb { ops = wb.ops ++ put key value ∷ []; put_num = wb.put_num + 1 }

unfoldable pub batch_delete : Bytes → WriteBatch → WriteBatch
batch_delete key wb = record wb { ops = wb.ops ++ delete key ∷ []; delete_num = wb.delete_num + 1 }

-- `Rollback` resets the driver's batch. `Commit` resets the counts only.
unfoldable pub batch_rollback : WriteBatch → WriteBatch
batch_rollback wb = record { ops = []; put_num = 0; delete_num = 0 }

unfoldable pub batch_committed : WriteBatch → WriteBatch
batch_committed wb = record wb { put_num = 0; delete_num = 0 }
