-- ===== src/Lease/DenyCache.antt =====
-- pkg/lease/denycache.go: the refusals that are remembered until a time.
use valve.Common.{
  ℕ, ◌+◌, ◌-◌, ltb, ◌==◌, if◌then◌else◌, Bytes, Map, insert, delete, Option, none, some,
}
use valve.Api.{Key, LimitType, Duration}
use valve.Bucket.{second}
use valve.Memory.State.{bucket_key}

pub record DenyEntry : Type 0 where
  pub until : ℕ
  pub limit_type : LimitType

-- `DenyCache`; its clock is an argument of the methods.
abbrev pub DenyCache : Type 0
DenyCache = Map DenyEntry

-- `cacheKey`, which is written as `bucketKey` of the memory store is.
abbrev pub cache_key : Key → Bytes
cache_key = bucket_key

-- The look at the entry in `Get`.
unfoldable pub get_entry :
    DenyCache → Bytes → ℕ → Option DenyEntry → DenyCache × Option (LimitType × Duration)
get_entry c k now none = (c, none)
get_entry c k now (some e) =
    if ltb now e.until then (c, some (e.limit_type, e.until - now)) else (delete k c, none)

-- `Get`
unfoldable pub get : DenyCache → Key → ℕ → DenyCache × Option (LimitType × Duration)
unfolding get_entry
get c key now = get_entry c (cache_key key) now (c (cache_key key))

-- `Set`
unfoldable pub set : DenyCache → Key → LimitType → Duration → ℕ → DenyCache
set c key limit_type retry_after now =
    let wait = if retry_after == 0 then second else retry_after in
    insert (cache_key key) (record { until = now + wait; limit_type = limit_type }) c

-- `Clear`
unfoldable pub clear : DenyCache → Key → DenyCache
clear c key = delete (cache_key key) c
