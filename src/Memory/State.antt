-- ===== src/Memory/State.antt =====
-- The state of the memory store, and the helpers of its methods.
use valve.Common.{
  ℕ, ◌/◌, ℤ, pos, Bool, ltb, ◌==◌, if◌then◌else◌, Bytes, [], ◌∷◌, ◌++◌, Option, none, some, Map,
  insert, empty_map,
}
use valve.Api.{Key, Decision, Result}
use valve.Bucket
use valve.Bucket.{refill}
pub use valve.Store.{Status}

pub record BucketState : Type 0 where
  pub tokens : ℤ
  pub last_ms : ℕ

pub record Reservation : Type 0 where
  pub subject : Bytes
  pub model : Bytes
  pub is_split : Bool
  pub rpm_cost : ℤ
  pub tpm_reserved : ℤ
  pub itpm_reserved : ℤ
  pub otpm_reserved : ℤ
  pub limit_rpm : ℤ
  pub limit_tpm : ℤ
  pub limit_itpm : ℤ
  pub limit_otpm : ℤ
  pub status : Status
  pub created_ms : ℕ
  pub expires_at : ℕ
  pub last_decision : Decision

pub record Store : Type 0 where
  pub rpm : Map BucketState
  pub tpm : Map BucketState
  pub itpm : Map BucketState
  pub otpm : Map BucketState
  pub res : Map Reservation

-- `New`, without options.
abbrev pub new : Store
new = record {
  rpm = empty_map;
  tpm = empty_map;
  itpm = empty_map;
  otpm = empty_map;
  res = empty_map;
}

-- What a method returns: the store after it, and its result.
abbrev pub Outcome : Type 0 → Type 0
Outcome A = Store × Result A

-- `time.Time.UnixMilli` of a time in nanoseconds.
abbrev pub unix_milli : ℕ → ℕ
unix_milli now = now / 1000000

abbrev pub is_empty : Bytes → Bool
is_empty [] = Bool.true
is_empty (b ∷ s) = Bool.false

-- `"-"` for a model that is not named.
unfoldable pub model_or_dash : Bytes → Bytes
model_or_dash model = if is_empty model then b'-' ∷ [] else model

-- `bucketKey`
unfoldable pub bucket_key : Key → Bytes
unfolding model_or_dash
bucket_key key = key.subject ++ (0 ∷ model_or_dash key.model)

-- One round of the loop of `purgeExpired`.
unfoldable pub unexpired : ℕ → Option Reservation → Option Reservation
unexpired now none = none
unexpired now (some r) = if ltb r.expires_at now then none else some r

-- `purgeExpired`
unfoldable pub purge_expired : Store → ℕ → Store
purge_expired s now = record s { res = λ id. unexpired now (s.res id) }

abbrev pub stored : Option BucketState → ℤ → Bucket.State
stored none capacity = record { tokens = pos 0; last_ms = 0; capacity = capacity }
stored (some b) capacity =
    if b.last_ms == 0
    then record { tokens = pos 0; last_ms = 0; capacity = capacity }
    else record { tokens = b.tokens; last_ms = b.last_ms; capacity = capacity }

-- `loadBucket`
unfoldable pub load_bucket : Map BucketState → Bytes → ℤ → ℕ → Bucket.State
load_bucket m k capacity now_ms = refill (stored (m k) capacity) now_ms

-- `saveBucket`
unfoldable pub save_bucket : Map BucketState → Bytes → Bucket.State → Map BucketState
save_bucket m k st = insert k (record { tokens = st.tokens; last_ms = st.last_ms }) m
