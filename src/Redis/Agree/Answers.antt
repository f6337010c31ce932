-- ===== src/Redis/Agree/Answers.antt =====
-- When the answers of the two stores are the same, and what their buckets hold.
use valve.Common.{◌≡◌}
use valve.Api.{Key, Limits, Decision, Result, ok, err}
use valve.Memory.State.{Store, bucket_key}
use valve.Redis.Lua.{Hashes}
use valve.Redis.Agree.Keys.{rpm_key, tpm_key}
use valve.Redis.Agree.Refill.{IsWithin}

-- At a key, the server's hashes hold what the memory store's maps hold, and no more than the limits.
pub record Agrees (key : Key) (limits : Limits) (h : Hashes) (s : Store) : Type 0 where
  pub rpm : h.buckets (rpm_key key) ≡ s.rpm (bucket_key key)
  pub tpm : h.buckets (tpm_key key) ≡ s.tpm (bucket_key key)
  pub rpm_within : IsWithin limits.requests_per_minute (h.buckets (rpm_key key))
  pub tpm_within : IsWithin limits.tokens_per_minute (h.buckets (tpm_key key))

-- The answers are the same but for the times at which the buckets are full, which the scripts round
-- to milliseconds.
pub record SameDecision (d e : Decision) : Type 0 where
  pub allowed : d.allowed ≡ e.allowed
  pub limit_type : d.limit_type ≡ e.limit_type
  pub remaining_rpm : d.remaining_rpm ≡ e.remaining_rpm
  pub remaining_tpm : d.remaining_tpm ≡ e.remaining_tpm
  pub retry_after : d.retry_after ≡ e.retry_after
  pub limit_rpm : d.limit_rpm ≡ e.limit_rpm
  pub limit_tpm : d.limit_tpm ≡ e.limit_tpm
  pub overshoot_tpm : d.overshoot_tpm ≡ e.overshoot_tpm
  pub reservation_id : d.reservation_id ≡ e.reservation_id

abbrev pub SameAnswer : Result Decision → Result Decision → Type 0
SameAnswer (ok d) (ok e) = SameDecision d e
SameAnswer (err a) (err b) = a ≡ b
SameAnswer (ok d) (err b) = ⊥
SameAnswer (err a) (ok e) = ⊥
