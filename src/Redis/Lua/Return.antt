-- ===== src/Redis/Lua/Return.antt =====
-- pkg/store/redis/lua/return.lua.
use valve.Common.{ℕ, ℤ, pos, ◌+ℤ◌, min_ℤ, Bytes, insert, [], ◌∷◌}
use valve.Bucket.{scale, remaining_int, clamp_cost}
use valve.Redis.Lua.{Hashes, refill}
use valve.Redis.Server.{Reply, array, int}

-- The script: both buckets gain what comes back, up to their limits.
unfoldable pub return_script : Bytes → Bytes → ℤ → ℤ → Hashes → ℕ → ℤ → ℤ → Hashes × Reply
return_script rpm_key tpm_key limit_rpm limit_tpm h now_ms add_rpm add_tpm =
    let rpm_tokens =
      min_ℤ (scale limit_rpm)
        (refill (h.buckets rpm_key) limit_rpm now_ms +ℤ scale (clamp_cost add_rpm)) in
    let tpm_tokens =
      min_ℤ (scale limit_tpm)
        (refill (h.buckets tpm_key) limit_tpm now_ms +ℤ scale (clamp_cost add_tpm)) in
    (
      record h {
        buckets =
            insert tpm_key (record { tokens = tpm_tokens; last_ms = now_ms })
              (insert rpm_key (record { tokens = rpm_tokens; last_ms = now_ms }) h.buckets);
      },
      array (int (pos 1) ∷ int (remaining_int rpm_tokens) ∷ int (remaining_int tpm_tokens) ∷ []),
    )
