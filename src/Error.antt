-- ===== src/Error.antt =====
-- The errors of the ledis package (ledis/const.go, ledis/util.go, ledis/t_*.go, ledis/batch.go) as
-- values, and Go's (value, error) pair as a sum.
use ledisdb.Base.{ℕ, Bool, true, false, Option, none, some}

pub data Error : Type 0 where
  err_key_size err_value_size err_hash_field_size err_set_member_size err_zset_member_size : Error
  err_expire_value err_list_index err_int_number err_list_seq err_score_overflow : Error
  err_score_miss err_write_in_r_only err_bit_op_not err_bit_op_type err_bit_value : Error
  err_kv_key err_lmeta_key err_list_key err_hash_key err_h_size_key err_set_key : Error
  err_s_size_key err_z_size_key err_z_set_key err_z_score_key err_exp_meta_key : Error
  err_exp_time_key key_too_small invalid_db_index db_index_too_small : Error
  db_index_too_wide db_index_too_large invalid_event : Error
  err_invalid_aggregate err_invalid_weight_num err_invalid_src_key_num : Error
  err_commit_id_behind err_store_log_id err_no_behind_log err_log_not_found : Error
  err_rpl_not_support err_rpl_in_rdwr err_log_missed err_expired_time err_cmd_params err_value :
      Error
  err_data_type err_invalid_data_type : Error
  -- those of the commands (server/const.go, server/cmd_zset.go, server/cmd_scan.go)
  err_syntax err_score_range err_scan_argument err_key_type : Error
  err_empty_command err_not_found err_not_authenticated err_authentication err_xselect : Error
  -- io.EOF and io.ErrUnexpectedEOF
  eof unexpected_eof : Error
  -- what the storage driver or the number parser reports
  driver_error number_error : ℕ → Error
  -- Go's run-time panic: an index or a slice out of range
  panic : Error

pub data Result {ℓ} (A : Type ℓ) : Type ℓ where
  err : Error → Result A
  ok : A → Result A

-- `if err != nil { return err }` between two calls
module _ {ℓ κ} {A : Type ℓ} {B : Type κ} where
  infixl 5 ◌>>=◌
  abbrev pub ◌>>=◌ : Result A → (A → Result B) → Result B
  err x >>= next = err x
  ok value >>= next = next value

infixl 5 ◌>>◌
abbrev pub ◌>>◌ {κ} : {B : Type κ} → Result (Unit {0}) → Result B → Result B
first >> second = first >>= λ done. second

-- `if bad { return err }`
abbrev pub reject_if : Bool → Error → Result (Unit {0})
reject_if true e = err e
reject_if false e = ok tt

abbrev pub or_panic {ℓ} : {A : Type ℓ} → Option A → Result A
or_panic none = err panic
or_panic (some a) = ok a
