-- ===== src/Redis/Lua/Refund.antt =====
-- pkg/store/redis/lua/refund.lua.
use valve.Common.{
  ℕ, ℤ, pos, ◌+ℤ◌, min_ℤ, if◌then◌else◌, Bytes, codes, bytes_eq, insert, none, some, [], ◌∷◌,
}
use valve.Api.{Result, ok}
use valve.Bucket.{scale}
use valve.Memory.State.{BucketState}
use valve.Redis.Lua.{Hashes, ResHash, refill, expiry, error_reply}
use valve.Redis.Server.{Reply, array, int}

module _ (res_key rpm_key tpm_key : Bytes) (ttl_sec : ℤ) where
  -- A bucket after the refund.
  abbrev pub credited : ℤ → ℤ → ℕ → ℤ → BucketState
  credited tokens capacity now_ms cost = record {
    tokens = min_ℤ (scale capacity) (tokens +ℤ scale cost);
    last_ms = now_ms;
  }

  -- The script on a reservation that is neither settled nor refunded.
  unfoldable pub refund_open : Hashes → ℕ → ResHash → Hashes × Result Reply
  refund_open h now_ms r = (
    record {
      buckets =
          insert tpm_key
            (credited (refill (h.buckets tpm_key) r.limit_tpm now_ms) r.limit_tpm now_ms
              r.tpm_reserved)
            (insert rpm_key
              (credited (refill (h.buckets rpm_key) r.limit_rpm now_ms) r.limit_rpm now_ms
                r.rpm_cost)
              h.buckets);
      res =
          insert res_key
            (record r { status = codes "refunded"; expires_ms = expiry now_ms ttl_sec }) h.res;
    },
    ok (array (int (pos 1) ∷ [])),
  )

  unfoldable pub refund_hash : Hashes → ℕ → ResHash → Hashes × Result Reply
  unfolding refund_open
  refund_hash h now_ms r =
      if bytes_eq r.status (codes "refunded")
      then (h, ok (array (int (pos 1) ∷ [])))
      else if bytes_eq r.status (codes "settled")
      then (h, error_reply (codes "reservation already settled"))
      else if bytes_eq r.mode (codes "split")
      then (h, error_reply (codes "wrong settle mode for reservation"))
      else refund_open h now_ms r

  -- The script, on the hashes that it sees.
  unfoldable pub refund_script : Hashes → ℕ → Hashes × Result Reply
  unfolding refund_hash
  refund_script h now_ms = elim (h.res res_key) [
    | none ↦ (h, error_reply (codes "reservation not found"))
    | some r ↦ refund_hash h now_ms r
  ]
