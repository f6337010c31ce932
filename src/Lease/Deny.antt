-- ===== src/Lease/Deny.antt =====
-- The deny cache: how long a refusal is remembered.
use valve.Common.{
  ℕ, ◌+◌, ◌-◌, ◌==◌, ltb, if◌then◌else◌, ◌≡◌, arith, none, some, bytes_eq, bytes_eq_refl, false,
}
use valve.Api.{Key, LimitType, Duration}
use valve.Bucket.{second}
use valve.Lease.DenyCache.{DenyCache, get, set, clear, cache_key}

-- A refusal that is set at a time is answered, with the time that is left, until its `Retry-After`
-- has passed, or a second where that is zero, and not from then on; other keys are answered as
-- before.
pub get-set :
    (c : DenyCache) (key other : Key) (limit_type : LimitType) (retry_after : Duration)
    (now later : ℕ)
    → bytes_eq (cache_key key) (cache_key other) ≡ false
    → let until = now + (if retry_after == 0 then second else retry_after) in
      ((get (set c key limit_type retry_after now) key later).1
        ≡ (if ltb later until then some (limit_type, until - later) else none))
      × ((get (set c key limit_type retry_after now) other later).1 ≡ (get c other later).1)
unfolding get set
get-set c key other limit_type retry_after now later apart =
    (ground (arith, bytes_eq_refl (cache_key key)), ground (arith, apart))

-- A refusal that was cleared is not answered.
pub get-clear : (c : DenyCache) (key : Key) (now : ℕ) → (get (clear c key) key now).1 ≡ none
unfolding get clear
get-clear c key now = ground (arith, bytes_eq_refl (cache_key key))
