-- ===== src/Redis/Lua/Settle.antt =====
-- pkg/store/redis/lua/settle.lua.
use valve.Common.{
  ℕ, ℤ, pos, ◌+ℤ◌, ◌-ℤ◌, leb_ℤ, ltb_ℤ, min_ℤ, if◌then◌else◌, Bytes, codes, bytes_eq, insert, Option,
  none, some, [], ◌∷◌,
}
use valve.Api.{Result, ok}
use valve.Bucket.{scale, remaining_int, clamp_cost}
use valve.Redis.Lua.{Hashes, ResHash, Snapshot, refill, reset_ms, expiry, error_reply}
use valve.Redis.Server.{Reply, array, int, bytes}

-- The tokens and the overshoot, for the difference between the reserved and the actual amount.
unfoldable pub settle_tokens : ℤ → ℤ → ℤ → ℤ × ℤ
settle_tokens tokens capacity delta =
    if ltb_ℤ (pos 0) delta
    then (min_ℤ (scale capacity) (tokens +ℤ scale delta), pos 0)
    else if ltb_ℤ delta (pos 0)
    then (let need = pos 0 -ℤ delta in
        let avail = remaining_int tokens in
        if leb_ℤ need avail
        then (tokens -ℤ scale need, pos 0)
        else let left = tokens -ℤ scale avail in
          (if ltb_ℤ left (pos 0) then pos 0 else left, need -ℤ avail))
    else (tokens, pos 0)

-- A missing field counts as 0.
unfoldable pub or_zero : Option Snapshot → Snapshot
or_zero none = record { remaining_rpm = pos 0; remaining_tpm = pos 0; overshoot = pos 0 }
or_zero (some s) = s

-- The reply on a reservation that is settled already.
unfoldable pub settled_reply : ResHash → Snapshot → Reply
settled_reply r s = array (
    int (pos 1)
    ∷ bytes []
    ∷ int s.remaining_rpm
    ∷ int s.remaining_tpm
    ∷ int (pos 0)
    ∷ int (pos 0)
    ∷ int (pos 0)
    ∷ int s.overshoot
    ∷ int r.limit_rpm
    ∷ int r.limit_tpm
    ∷ [])

module _ (res_key rpm_key tpm_key : Bytes) (actual ttl_sec : ℤ) where
  -- The end of the script: the buckets and the reservation are written.
  unfoldable pub settle_write : Hashes → ℕ → ResHash → ℤ → ℤ → ℤ → Hashes × Result Reply
  settle_write h now_ms r rpm_tokens tpm_tokens overshoot = (
    record {
      buckets =
          insert rpm_key (record { tokens = rpm_tokens; last_ms = now_ms })
            (insert tpm_key (record { tokens = tpm_tokens; last_ms = now_ms }) h.buckets);
      res =
          insert res_key
            (record r {
              status = codes "settled";
              snap = some (record {
                remaining_rpm = remaining_int rpm_tokens;
                remaining_tpm = remaining_int tpm_tokens;
                overshoot = overshoot;
              });
              expires_ms = expiry now_ms ttl_sec;
            })
            h.res;
    },
    ok (
        array (
          int (pos 1)
          ∷ bytes []
          ∷ int (remaining_int rpm_tokens)
          ∷ int (remaining_int tpm_tokens)
          ∷ int (pos 0)
          ∷ int (pos (reset_ms rpm_tokens r.limit_rpm now_ms))
          ∷ int (pos (reset_ms tpm_tokens r.limit_tpm now_ms))
          ∷ int overshoot
          ∷ int r.limit_rpm
          ∷ int r.limit_tpm
          ∷ [])),
  )

  -- The script on a reservation that is neither settled nor refunded.
  unfoldable pub settle_open : Hashes → ℕ → ResHash → Hashes × Result Reply
  unfolding settle_write settle_tokens
  settle_open h now_ms r =
      let rpm_tokens = refill (h.buckets rpm_key) r.limit_rpm now_ms in
      let (tpm_tokens, overshoot) =
        settle_tokens (refill (h.buckets tpm_key) r.limit_tpm now_ms) r.limit_tpm
          (r.tpm_reserved -ℤ clamp_cost actual) in
      settle_write h now_ms r rpm_tokens tpm_tokens overshoot

  unfoldable pub settle_hash : Hashes → ℕ → ResHash → Hashes × Result Reply
  unfolding settle_open settled_reply or_zero
  settle_hash h now_ms r =
      if bytes_eq r.mode (codes "split")
      then (h, error_reply (codes "wrong settle mode for reservation"))
      else if bytes_eq r.status (codes "settled")
      then (h, ok (settled_reply r (or_zero r.snap)))
      else if bytes_eq r.status (codes "refunded")
      then (h, error_reply (codes "reservation already refunded"))
      else settle_open h now_ms r

  -- The script, on the hashes that it sees.
  unfoldable pub settle_script : Hashes → ℕ → Hashes × Result Reply
  unfolding settle_hash
  settle_script h now_ms = elim (h.res res_key) [
    | none ↦ (h, error_reply (codes "reservation not found"))
    | some r ↦ settle_hash h now_ms r
  ]
