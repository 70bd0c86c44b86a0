-- ===== src/Server/Registry.antt =====
-- The `init` functions of server/cmd_*.go: which word stands for which command on data.
use ledisdb.Base.{Bool, List, [], ◌∷◌}
use ledisdb.Error.{Result}
use ledisdb.Bytes.{Bytes}
use ledisdb.Store.{Driver}
use ledisdb.Ledis.{Env, M}
use ledisdb.Server.{Reply}
use ledisdb.Server.Text.{Text, word}
use ledisdb.Server.ScanParsers.{scan_group, x_scan_group}
use ledisdb.Server.KvCommands.{
  append_command, bitcount_command, bitop_command, bitpos_command, decr_command, decrby_command,
  del_command, exists_command, get_command, getbit_command, getrange_command, getset_command,
  incr_command, incrby_command, mget_command, mset_command, set_command, setbit_command,
  setnx_command, setex_command, setrange_command, strlen_command, expire_command, expire_at_command,
  ttl_command, persist_command,
}
use ledisdb.Server.ListCommands.{
  lindex_command, llen_command, lpop_command, lrange_command, lpush_command, rpop_command,
  rpush_command, rpoplpush_command, lclear_command, lmclear_command, lexpire_command,
  lexpire_at_command, lttl_command, lpersist_command, lkeyexists_command, l_trim_front_command,
  l_trim_back_command, l_trim_command,
}
use ledisdb.Server.HashCommands.{
  hdel_command, hexists_command, hget_command, hgetall_command, hincrby_command, hkeys_command,
  hlen_command, hmget_command, hmset_command, hset_command, hvals_command, hclear_command,
  hmclear_command, hexpire_command, hexpire_at_command, httl_command, hpersist_command,
  hkeyexists_command,
}
use ledisdb.Server.SetCommands.{
  sadd_command, scard_command, sdiff_command, sdiffstore_command, sinter_command,
  sinterstore_command, sismember_command, smembers_command, srem_command, sunion_command,
  sunionstore_command, sclear_command, smclear_command, sexpire_command, sexpire_at_command,
  sttl_command, spersist_command, skeyexists_command,
}
use ledisdb.Server.ZsetCommands.{
  zadd_command, zcard_command, zincrby_command, zrank_command, zrem_command, zrevrank_command,
  zscore_command, zclear_command, zmclear_command, zexpire_command, zexpire_at_command,
  zttl_command, zpersist_command, zkeyexists_command,
}
use ledisdb.Server.ZsetRanges.{
  zcount_command, zrange_command, zrangebyscore_command, zremrangebyrank_command,
  zremrangebyscore_command, zrevrange_command, zrevrangebyscore_command, zunionstore_command,
  zinterstore_command, zrangebylex_command, zremrangebylex_command, zlexcount_command,
}
use ledisdb.Server.ScanCommands.{xhscan_command, xsscan_command, xzscan_command, xscan_command}

abbrev pub Command : Type 0 → Type 0
Command S = Env → List Bytes → M S Reply

module _ {S I : Type 0} (d : Driver S I) (t : Text) (compile : Bytes → Result (Bytes → Bool)) where
  unfoldable pub kv_registry : List (Bytes × Command S)
  kv_registry =
      (word "append", append_command d)
      ∷ (word "bitcount", λ e. bitcount_command d e t)
      ∷ (word "bitop", λ e. bitop_command d e t)
      ∷ (word "bitpos", λ e. bitpos_command d e t)
      ∷ (word "decr", λ e. decr_command d e t)
      ∷ (word "decrby", λ e. decrby_command d e t)
      ∷ (word "del", del_command d)
      ∷ (word "exists", exists_command d)
      ∷ (word "get", get_command d)
      ∷ (word "getbit", λ e. getbit_command d e t)
      ∷ (word "getrange", λ e. getrange_command d e t)
      ∷ (word "getset", getset_command d)
      ∷ (word "incr", λ e. incr_command d e t)
      ∷ (word "incrby", λ e. incrby_command d e t)
      ∷ (word "mget", mget_command d)
      ∷ (word "mset", mset_command d)
      ∷ (word "set", set_command d)
      ∷ (word "setbit", λ e. setbit_command d e t)
      ∷ (word "setnx", setnx_command d)
      ∷ (word "setex", λ e. setex_command d e t)
      ∷ (word "setrange", λ e. setrange_command d e t)
      ∷ (word "strlen", strlen_command d)
      ∷ (word "expire", λ e. expire_command d e t)
      ∷ (word "expireat", λ e. expire_at_command d e t)
      ∷ (word "ttl", ttl_command d)
      ∷ (word "persist", persist_command d)
      ∷ []

  unfoldable pub list_registry : List (Bytes × Command S)
  list_registry =
      (word "lindex", λ e. lindex_command d e t)
      ∷ (word "llen", llen_command d)
      ∷ (word "lpop", lpop_command d)
      ∷ (word "lrange", λ e. lrange_command d e t)
      ∷ (word "lpush", lpush_command d)
      ∷ (word "rpop", rpop_command d)
      ∷ (word "rpush", rpush_command d)
      ∷ (word "rpoplpush", rpoplpush_command d)
      ∷ (word "lclear", lclear_command d)
      ∷ (word "lmclear", lmclear_command d)
      ∷ (word "lexpire", λ e. lexpire_command d e t)
      ∷ (word "lexpireat", λ e. lexpire_at_command d e t)
      ∷ (word "lttl", lttl_command d)
      ∷ (word "lpersist", lpersist_command d)
      ∷ (word "lkeyexists", lkeyexists_command d)
      ∷ (word "ltrim_front", λ e. l_trim_front_command d e t)
      ∷ (word "ltrim_back", λ e. l_trim_back_command d e t)
      ∷ (word "ltrim", λ e. l_trim_command d e t)
      ∷ []

  unfoldable pub hash_registry : List (Bytes × Command S)
  hash_registry =
      (word "hdel", hdel_command d)
      ∷ (word "hexists", hexists_command d)
      ∷ (word "hget", hget_command d)
      ∷ (word "hgetall", hgetall_command d)
      ∷ (word "hincrby", λ e. hincrby_command d e t.parse_int64 t.format_int)
      ∷ (word "hkeys", hkeys_command d)
      ∷ (word "hlen", hlen_command d)
      ∷ (word "hmget", hmget_command d)
      ∷ (word "hmset", hmset_command d)
      ∷ (word "hset", hset_command d)
      ∷ (word "hvals", hvals_command d)
      ∷ (word "hclear", hclear_command d)
      ∷ (word "hmclear", hmclear_command d)
      ∷ (word "hexpire", λ e. hexpire_command d e t.parse_int64 t.format_int)
      ∷ (word "hexpireat", λ e. hexpire_at_command d e t.parse_int64 t.format_int)
      ∷ (word "httl", httl_command d)
      ∷ (word "hpersist", hpersist_command d)
      ∷ (word "hkeyexists", hkeyexists_command d)
      ∷ []

  unfoldable pub set_registry : List (Bytes × Command S)
  set_registry =
      (word "sadd", sadd_command d)
      ∷ (word "scard", scard_command d)
      ∷ (word "sdiff", sdiff_command d)
      ∷ (word "sdiffstore", sdiffstore_command d)
      ∷ (word "sinter", sinter_command d)
      ∷ (word "sinterstore", sinterstore_command d)
      ∷ (word "sismember", sismember_command d)
      ∷ (word "smembers", smembers_command d)
      ∷ (word "srem", srem_command d)
      ∷ (word "sunion", sunion_command d)
      ∷ (word "sunionstore", sunionstore_command d)
      ∷ (word "sclear", sclear_command d)
      ∷ (word "smclear", smclear_command d)
      ∷ (word "sexpire", λ e. sexpire_command d e t.parse_int64)
      ∷ (word "sexpireat", λ e. sexpire_at_command d e t.parse_int64)
      ∷ (word "sttl", sttl_command d)
      ∷ (word "spersist", spersist_command d)
      ∷ (word "skeyexists", skeyexists_command d)
      ∷ []

  unfoldable pub zset_registry : List (Bytes × Command S)
  zset_registry =
      (word "zadd", λ e. zadd_command d e t)
      ∷ (word "zcard", zcard_command d)
      ∷ (word "zcount", λ e. zcount_command d e t)
      ∷ (word "zincrby", λ e. zincrby_command d e t)
      ∷ (word "zrange", λ e. zrange_command d e t)
      ∷ (word "zrangebyscore", λ e. zrangebyscore_command d e t)
      ∷ (word "zrank", zrank_command d)
      ∷ (word "zrem", zrem_command d)
      ∷ (word "zremrangebyrank", λ e. zremrangebyrank_command d e t)
      ∷ (word "zremrangebyscore", λ e. zremrangebyscore_command d e t)
      ∷ (word "zrevrange", λ e. zrevrange_command d e t)
      ∷ (word "zrevrank", zrevrank_command d)
      ∷ (word "zrevrangebyscore", λ e. zrevrangebyscore_command d e t)
      ∷ (word "zscore", λ e. zscore_command d e t)
      ∷ (word "zunionstore", λ e. zunionstore_command d e t)
      ∷ (word "zinterstore", λ e. zinterstore_command d e t)
      ∷ (word "zrangebylex", λ e. zrangebylex_command d e t)
      ∷ (word "zremrangebylex", λ e. zremrangebylex_command d e t)
      ∷ (word "zlexcount", λ e. zlexcount_command d e t)
      ∷ (word "zclear", zclear_command d)
      ∷ (word "zmclear", zmclear_command d)
      ∷ (word "zexpire", λ e. zexpire_command d e t)
      ∷ (word "zexpireat", λ e. zexpire_at_command d e t)
      ∷ (word "zttl", zttl_command d)
      ∷ (word "zpersist", zpersist_command d)
      ∷ (word "zkeyexists", zkeyexists_command d)
      ∷ []

  unfoldable pub scan_registry : List (Bytes × Command S)
  scan_registry =
      (word "hscan", λ e. xhscan_command d e t compile scan_group)
      ∷ (word "sscan", λ e. xsscan_command d e t compile scan_group)
      ∷ (word "zscan", λ e. xzscan_command d e t compile scan_group)
      ∷ (word "xscan", λ e. xscan_command d e t compile x_scan_group)
      ∷ (word "xhscan", λ e. xhscan_command d e t compile x_scan_group)
      ∷ (word "xsscan", λ e. xsscan_command d e t compile x_scan_group)
      ∷ (word "xzscan", λ e. xzscan_command d e t compile x_scan_group)
      ∷ []
