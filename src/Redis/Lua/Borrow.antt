-- ===== src/Redis/Lua/Borrow.antt =====
-- pkg/store/redis/lua/borrow.lua.
use valve.Common.{ℕ, ℤ, pos, ◌-ℤ◌, ltb_ℤ, min_ℤ, if◌then◌else◌, Bytes, codes, insert, [], ◌∷◌}
use valve.Bucket.{scale, remaining_int, clamp_cost}
use valve.Redis.Lua.{Hashes, refill, retry_after_ms}
use valve.Redis.Server.{Reply, array, int, bytes}

-- `math.max`
abbrev pub max_ℤ : ℤ → ℤ → ℤ
max_ℤ a b = if ltb_ℤ a b then b else a

-- A refusal of `borrow.lua`.
abbrev pub borrow_refusal : Bytes → ℤ → ℤ → ℕ → Reply
borrow_refusal limit_type avail_rpm avail_tpm ra = array (
    int (pos 0)
    ∷ bytes limit_type
    ∷ int (pos 0)
    ∷ int (pos 0)
    ∷ int avail_rpm
    ∷ int avail_tpm
    ∷ int (pos ra)
    ∷ [])

module _ (rpm_key tpm_key : Bytes) (limit_rpm limit_tpm : ℤ) where
  -- The end of the script: both buckets are debited.
  unfoldable pub borrow_debited : Hashes → ℕ → ℤ → ℤ → ℤ → ℤ → Hashes × Reply
  borrow_debited h now_ms rpm_refilled tpm_refilled got_rpm got_tpm =
      let rpm_tokens = rpm_refilled -ℤ scale got_rpm in
      let tpm_tokens = tpm_refilled -ℤ scale got_tpm in
      (
        record h {
          buckets =
              insert tpm_key (record { tokens = tpm_tokens; last_ms = now_ms })
                (insert rpm_key (record { tokens = rpm_tokens; last_ms = now_ms }) h.buckets);
        },
        array (
            int (pos 1)
            ∷ bytes []
            ∷ int got_rpm
            ∷ int got_tpm
            ∷ int (remaining_int rpm_tokens)
            ∷ int (remaining_int tpm_tokens)
            ∷ int (pos 0)
            ∷ []),
      )

  -- The script with amounts that are not negative and refilled buckets.
  unfoldable pub borrow_refilled : Hashes → ℕ → ℤ → ℤ → ℤ → ℤ → ℤ → ℤ → Hashes × Reply
  unfolding borrow_debited
  borrow_refilled h now_ms rpm_tokens tpm_tokens min_rpm min_tpm chunk_rpm chunk_tpm =
      let avail_rpm = remaining_int rpm_tokens in
      let avail_tpm = remaining_int tpm_tokens in
      if ltb_ℤ avail_rpm min_rpm
      then (
        h,
        borrow_refusal (codes "requests") avail_rpm avail_tpm
            (retry_after_ms rpm_tokens limit_rpm min_rpm),
      )
      else if ltb_ℤ avail_tpm min_tpm
      then (
        h,
        borrow_refusal (codes "tokens") avail_rpm avail_tpm
            (retry_after_ms tpm_tokens limit_tpm min_tpm),
      )
      else borrow_debited h now_ms rpm_tokens tpm_tokens (min_ℤ avail_rpm (max_ℤ min_rpm chunk_rpm))
          (min_ℤ avail_tpm (max_ℤ min_tpm chunk_tpm))

  -- The script.
  unfoldable pub borrow_script : Hashes → ℕ → ℤ → ℤ → ℤ → ℤ → Hashes × Reply
  unfolding borrow_refilled
  borrow_script h now_ms min_rpm min_tpm chunk_rpm chunk_tpm =
      borrow_refilled h now_ms (refill (h.buckets rpm_key) limit_rpm now_ms)
        (refill (h.buckets tpm_key) limit_tpm now_ms) (clamp_cost min_rpm) (clamp_cost min_tpm)
        (clamp_cost chunk_rpm) (clamp_cost chunk_tpm)
