-- ===== src/Redis/Lua.antt =====
-- The scripts of pkg/store/redis/lua, each of which the server runs as one step: here the hashes, what
-- the scripts share, and check.lua. Numbers of tokens are sixty-thousandths, as in the memory store;
-- the texts that the server keeps for them are read back exactly. The scripts compute with rounded
-- numbers, without the slack of `TryConsume`; Bucket/Whole says where these are exact.
pub mod Settle
pub mod Refund
pub mod Borrow
pub mod Return
pub mod Run
use valve.Common.{
  ℕ, ◌+◌, ◌-◌, ◌*◌, ltb, ℤ, pos, pos_part, ◌+ℤ◌, ◌-ℤ◌, leb_ℤ, ltb_ℤ, min_ℤ, ◌||◌, if◌then◌else◌,
  Bytes, codes, Map, empty_map, insert, Option, none, some, List, [], ◌∷◌,
}
use valve.Api.{Result, err, Error}
use valve.Bucket.{scale, remaining_int, ceil_div, clamp_cost}
use valve.Memory.State.{BucketState, unix_milli}
use valve.Redis.Server.{Reply, array, int, bytes}

-- The fields `snap_remaining_rpm`, `snap_remaining_tpm` and `snap_overshoot` of a reservation.
pub record Snapshot : Type 0 where
  pub remaining_rpm : ℤ
  pub remaining_tpm : ℤ
  pub overshoot : ℤ

-- The hash of a reservation, as `check.lua` and `settle.lua` set it, and the time that `EXPIRE` set.
pub record ResHash : Type 0 where
  pub subject : Bytes
  pub model : Bytes
  pub mode : Bytes
  pub rpm_cost : ℤ
  pub tpm_reserved : ℤ
  pub limit_rpm : ℤ
  pub limit_tpm : ℤ
  pub status : Bytes
  pub created_ms : ℕ
  pub expires_ms : ℕ
  pub snap : Option Snapshot

-- The hashes on the server: names of buckets begin with `rl:{{{`, those of reservations with
-- `rl:res:`.
pub record Hashes : Type 0 where
  pub buckets : Map BucketState
  pub res : Map ResHash

abbrev pub no_hashes : Hashes
no_hashes = record { buckets = empty_map; res = empty_map }

-- A reservation that has not expired.
unfoldable pub alive : ℕ → Option ResHash → Option ResHash
alive now_ms none = none
alive now_ms (some r) = if ltb r.expires_ms now_ms then none else some r

-- The hashes that a script sees.
abbrev pub expire : Hashes → ℕ → Hashes
expire h now_ms = record h { res = λ k. alive now_ms (h.res k) }

-- `HMSET` of the fields of `check.lua` leaves the other fields of an older hash as they are.
unfoldable pub kept_snapshot : Option ResHash → Option Snapshot
kept_snapshot none = none
kept_snapshot (some r) = r.snap

-- `EXPIRE` with the arguments of `Store`.
abbrev pub expiry : ℕ → ℤ → ℕ
expiry now_ms ttl_sec = now_ms + pos_part ttl_sec * 1000

-- `redis.error_reply`
abbrev pub error_reply : Bytes → Result Reply
error_reply message = err (Error.store_failure message)

-- `refill`: the tokens.
unfoldable pub refill : Option BucketState → ℤ → ℕ → ℤ
refill none capacity now_ms = scale capacity
refill (some b) capacity now_ms =
    if ltb b.last_ms now_ms
    then (if ltb_ℤ (pos 0) capacity
        then min_ℤ (scale capacity) (b.tokens +ℤ pos ((now_ms - b.last_ms) * pos_part capacity))
        else b.tokens)
    else b.tokens

-- `retry_after_ms`
unfoldable pub retry_after_ms : ℤ → ℤ → ℤ → ℕ
retry_after_ms tokens capacity need =
    if leb_ℤ capacity (pos 0)
    then 3600000
    else let deficit = scale need -ℤ tokens in
      if leb_ℤ deficit (pos 0)
      then 0
      else ceil_div (pos_part deficit) (1000 * pos_part capacity) * 1000

-- `reset_ms`
unfoldable pub reset_ms : ℤ → ℤ → ℕ → ℕ
reset_ms tokens capacity now_ms =
    if leb_ℤ capacity (pos 0)
    then now_ms
    else let need = scale capacity -ℤ tokens in
      if leb_ℤ need (pos 0) then now_ms else now_ms + ceil_div (pos_part need) (pos_part capacity)

-- A refusal of `check.lua`.
abbrev pub refusal : Bytes → ℤ → ℤ → ℕ → ℤ → ℤ → ℕ → Reply
refusal limit_type rpm_tokens tpm_tokens ra limit_rpm limit_tpm now_ms = array (
    int (pos 0)
    ∷ bytes limit_type
    ∷ int (remaining_int rpm_tokens)
    ∷ int (remaining_int tpm_tokens)
    ∷ int (pos ra)
    ∷ int (pos (reset_ms rpm_tokens limit_rpm now_ms))
    ∷ int (pos (reset_ms tpm_tokens limit_tpm now_ms))
    ∷ int (pos 0)
    ∷ [])

module _ (rpm_key tpm_key res_key : Bytes) (limit_rpm limit_tpm : ℤ) (ttl_sec : ℤ)
    (subject model : Bytes) where
  -- The end of `check.lua`: the debit of both buckets, and the reservation.
  unfoldable pub check_allowed : Hashes → ℕ → ℤ → ℤ → ℤ → ℤ → Hashes × Reply
  unfolding kept_snapshot
  check_allowed h now_ms rpm_refilled tpm_refilled cost_rpm cost_tpm =
      let rpm_tokens = rpm_refilled -ℤ scale cost_rpm in
      let tpm_tokens = tpm_refilled -ℤ scale cost_tpm in
      (
        record {
          buckets =
              insert tpm_key (record { tokens = tpm_tokens; last_ms = now_ms })
                (insert rpm_key (record { tokens = rpm_tokens; last_ms = now_ms }) h.buckets);
          res =
              insert res_key
                (record {
                  subject = subject;
                  model = model;
                  mode = codes "classic";
                  rpm_cost = cost_rpm;
                  tpm_reserved = cost_tpm;
                  limit_rpm = limit_rpm;
                  limit_tpm = limit_tpm;
                  status = codes "pending";
                  created_ms = now_ms;
                  expires_ms = expiry now_ms ttl_sec;
                  snap = kept_snapshot (h.res res_key);
                })
                h.res;
        },
        array (
            int (pos 1)
            ∷ bytes []
            ∷ int (remaining_int rpm_tokens)
            ∷ int (remaining_int tpm_tokens)
            ∷ int (pos 0)
            ∷ int (pos (reset_ms rpm_tokens limit_rpm now_ms))
            ∷ int (pos (reset_ms tpm_tokens limit_tpm now_ms))
            ∷ int (pos 0)
            ∷ []),
      )

  -- `check.lua` with costs that are not negative and refilled buckets.
  unfoldable pub check_refilled : Hashes → ℕ → ℤ → ℤ → ℤ → ℤ → Hashes × Reply
  unfolding check_allowed
  check_refilled h now_ms rpm_tokens tpm_tokens cost_rpm cost_tpm =
      if ltb_ℤ rpm_tokens (scale cost_rpm) || ltb_ℤ limit_rpm cost_rpm
      then (
        h,
        refusal (codes "requests") rpm_tokens tpm_tokens
            (retry_after_ms rpm_tokens limit_rpm cost_rpm) limit_rpm limit_tpm now_ms,
      )
      else if ltb_ℤ tpm_tokens (scale cost_tpm) || ltb_ℤ limit_tpm cost_tpm
      then (
        h,
        refusal (codes "tokens") rpm_tokens tpm_tokens
            (retry_after_ms tpm_tokens limit_tpm cost_tpm) limit_rpm limit_tpm now_ms,
      )
      else check_allowed h now_ms rpm_tokens tpm_tokens cost_rpm cost_tpm

  -- `check.lua`
  unfoldable pub check_script : Hashes → ℕ → ℤ → ℤ → Hashes × Reply
  unfolding check_refilled
  check_script h now_ms cost_rpm cost_tpm =
      check_refilled h now_ms (refill (h.buckets rpm_key) limit_rpm now_ms)
        (refill (h.buckets tpm_key) limit_tpm now_ms) (clamp_cost cost_rpm) (clamp_cost cost_tpm)
