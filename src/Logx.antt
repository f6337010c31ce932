-- ===== src/Logx.antt =====
-- pkg/logx/deny.go: the record of a refusal, with SHA-256 as a parameter and encoding/hex written
-- out.
use valve.Common.{ℕ, zero, suc, ◌+◌, ◌-◌, ◌/◌, ◌%◌, ltb, if◌then◌else◌, Bytes, codes, [], ◌∷◌}
use valve.Api.{Key, Decision, Duration, limit_name}

-- `hex.EncodeToString`
abbrev pub hex_digit : ℕ → ℕ
hex_digit n = if ltb n 10 then b'0' + n else b'a' + (n - 10)

unfoldable pub hex : Bytes → Bytes
hex [] = []
hex (b ∷ s) = hex_digit (b / 16) ∷ hex_digit (b % 16) ∷ hex s

-- `s[:n]`
abbrev pub take : ℕ → Bytes → Bytes
take zero s = []
take (suc n) [] = []
take (suc n) (b ∷ s) = b ∷ take n s

-- `HashSubject`, with `sha256.Sum256`.
unfoldable pub hash_subject : (Bytes → Bytes) → Bytes → Bytes
unfolding hex
hash_subject sum256 subject = hex (take 8 (sum256 subject))

-- `DenyEvent`; the texts of the time and of the duration are written by the time library.
pub record DenyEvent : Type 0 where
  pub time : ℕ
  pub event : Bytes
  pub subject_hash : Bytes
  pub model : Bytes
  pub limit_type : Bytes
  pub retry_after : Duration

-- `Deny`: the event that is written.
unfoldable pub deny : (Bytes → Bytes) → ℕ → Key → Decision → DenyEvent
unfolding hash_subject
deny sum256 now key d = record {
  time = now;
  event = codes "rate_limit_deny";
  subject_hash = hash_subject sum256 key.subject;
  model = key.model;
  limit_type = limit_name d.limit_type;
  retry_after = d.retry_after;
}
