-- ===== src/Memory/Exact.antt =====
-- `Check` of the memory store, exactly: when it allows a request, and the store that it leaves then.
use valve.Common.{ℕ, ◌+◌, ◌<◌, pos, ◌≡◌, ◌↔◌, ◌⊎◌, arith, true, false, Bytes, insert}
use valve.Api.{Key, Limits, Cost, Result, Decision, LimitType, ok, zero_decision, split, is_partial}
use valve.Bucket
use valve.Bucket.{try_consume, clamp_cost}
use valve.Bucket.Consume.{Fits}
use valve.Store.{reservation_ttl}
use valve.Memory.State.{
  Store, Reservation, Status, purge_expired, load_bucket, save_bucket, bucket_key, is_empty,
  unix_milli,
}
use valve.Memory.Buckets.{AllSound}
use valve.Memory.Check.{check, check_classic_locked, check_split_locked}
use valve.Memory.Admission.{was_allowed, taken, loaded_allowed, loaded_taken}

-- A request that passes the guards of `Check`.
pub record IsWellFormed (key : Key) (limits : Limits) (id : Bytes) : Type 0 where
  pub whole : is_partial limits ≡ false
  pub named : is_empty key.subject ≡ false
  pub numbered : is_empty id ≡ false

-- Every bucket of the store is sound at the time.
pub record IsSoundStore (now_ms : ℕ) (s : Store) : Type 0 where
  pub rpm : AllSound now_ms s.rpm
  pub tpm : AllSound now_ms s.tpm
  pub itpm : AllSound now_ms s.itpm
  pub otpm : AllSound now_ms s.otpm

-- The reservations that `Check` records.
abbrev pub classic_reservation : Key → Limits → Cost → ℕ → Reservation
classic_reservation key limits cost now = record {
  subject = key.subject;
  model = key.model;
  is_split = false;
  rpm_cost = clamp_cost cost.requests;
  tpm_reserved = clamp_cost cost.tokens;
  itpm_reserved = pos 0;
  otpm_reserved = pos 0;
  limit_rpm = limits.requests_per_minute;
  limit_tpm = limits.tokens_per_minute;
  limit_itpm = pos 0;
  limit_otpm = pos 0;
  status = Status.pending;
  created_ms = unix_milli now;
  expires_at = now + reservation_ttl;
  last_decision = zero_decision;
}

abbrev pub split_reservation : Key → Limits → Cost → ℕ → Reservation
split_reservation key limits cost now = record {
  subject = key.subject;
  model = key.model;
  is_split = true;
  rpm_cost = clamp_cost cost.requests;
  tpm_reserved = pos 0;
  itpm_reserved = clamp_cost cost.input_tokens;
  otpm_reserved = clamp_cost cost.output_tokens;
  limit_rpm = limits.requests_per_minute;
  limit_tpm = pos 0;
  limit_itpm = limits.input_tokens_per_minute;
  limit_otpm = limits.output_tokens_per_minute;
  status = Status.pending;
  created_ms = unix_milli now;
  expires_at = now + reservation_ttl;
  last_decision = zero_decision;
}

-- The buckets that a request meets.
module _ (s : Store) (now : ℕ) (key : Key) (limits : Limits) where
  abbrev pub rpm_bucket : Bucket.State
  rpm_bucket = load_bucket s.rpm (bucket_key key) limits.requests_per_minute (unix_milli now)

  abbrev pub tpm_bucket : Bucket.State
  tpm_bucket = load_bucket s.tpm (bucket_key key) limits.tokens_per_minute (unix_milli now)

  abbrev pub itpm_bucket : Bucket.State
  itpm_bucket = load_bucket s.itpm (bucket_key key) limits.input_tokens_per_minute (unix_milli now)

  abbrev pub otpm_bucket : Bucket.State
  otpm_bucket = load_bucket s.otpm (bucket_key key) limits.output_tokens_per_minute (unix_milli now)

-- The store after a classic request was allowed: both buckets debited, one pending reservation.
abbrev pub after_classic : Store → ℕ → Key → Limits → Cost → Bytes → Store
after_classic s now key limits cost id = record (purge_expired s now) {
  rpm = save_bucket s.rpm (bucket_key key) (taken (rpm_bucket s now key limits) cost.requests);
  tpm = save_bucket s.tpm (bucket_key key) (taken (tpm_bucket s now key limits) cost.tokens);
  res = insert id (classic_reservation key limits cost now) (purge_expired s now).res;
}

-- The store after a split request was allowed: all three buckets debited, one pending reservation.
abbrev pub after_split : Store → ℕ → Key → Limits → Cost → Bytes → Store
after_split s now key limits cost id = record (purge_expired s now) {
  rpm = save_bucket s.rpm (bucket_key key) (taken (rpm_bucket s now key limits) cost.requests);
  itpm =
      save_bucket s.itpm (bucket_key key) (taken (itpm_bucket s now key limits) cost.input_tokens);
  otpm =
      save_bucket s.otpm (bucket_key key) (taken (otpm_bucket s now key limits) cost.output_tokens);
  res = insert id (split_reservation key limits cost now) (purge_expired s now).res;
}

module _ (s : Store) (now : ℕ) (key : Key) (limits : Limits) (cost : Cost) (id : Bytes)
    (p : 0 < unix_milli now) (sound : IsSoundStore (unix_milli now) s)
    (w : IsWellFormed key limits id) where
  abbrev call : Store × Result Decision
  call = check s now key limits cost id

  -- At a time past the first millisecond of 1970, on a store whose buckets are sound, a classic
  -- request that passes the guards is allowed exactly when its requests and its tokens both fit
  -- their refilled buckets.
  pub classic_admission :
      split limits ≡ false
      → (was_allowed call.1 ≡ true) ↔ (
          Fits (rpm_bucket s now key limits) cost.requests
          × Fits (tpm_bucket s now key limits) cost.tokens)
  unfolding check check_classic_locked purge_expired
  classic_admission classic =
      let a =
        loaded_allowed s.rpm (bucket_key key) limits.requests_per_minute (unix_milli now)
          cost.requests sound.rpm p in
      let b =
        loaded_allowed s.tpm (bucket_key key) limits.tokens_per_minute (unix_milli now) cost.tokens
          sound.tpm p in
      ground (arith, w.whole, w.named, w.numbered, a, b)

  -- On a store whose buckets are sound, after an allowed classic request exactly its two buckets
  -- are refilled and debited, and one pending reservation of the clamped costs is recorded; the
  -- store is otherwise as the removal of old reservations left it.
  pub classic_effect :
      split limits ≡ false
      → was_allowed call.1 ≡ true
      → call.0 ≡ after_classic s now key limits cost id
  unfolding check check_classic_locked purge_expired
  classic_effect classic yes_it_is =
      let a =
        loaded_taken s.rpm (bucket_key key) limits.requests_per_minute (unix_milli now)
          cost.requests sound.rpm p in
      let b =
        loaded_taken s.tpm (bucket_key key) limits.tokens_per_minute (unix_milli now) cost.tokens
          sound.tpm p in
      ground (arith, w.whole, w.named, w.numbered, a, b)

  -- On a store whose buckets are sound, the decision that refuses a well-formed classic request
  -- names the first bucket that the request does not fit.
  pub classic_limit_type :
      (d : Decision)
      → split limits ≡ false
      → call.1 ≡ ok d
      → d.allowed ≡ false
      → ((d.limit_type ≡ LimitType.requests) × ¬ Fits (rpm_bucket s now key limits) cost.requests)
        ⊎ ((d.limit_type ≡ LimitType.tokens)
            × Fits (rpm_bucket s now key limits) cost.requests
            × ¬ Fits (tpm_bucket s now key limits) cost.tokens)
  unfolding check check_classic_locked purge_expired
  classic_limit_type d classic e no_luck =
      let a =
        loaded_allowed s.rpm (bucket_key key) limits.requests_per_minute (unix_milli now)
          cost.requests sound.rpm p in
      let b =
        loaded_allowed s.tpm (bucket_key key) limits.tokens_per_minute (unix_milli now) cost.tokens
          sound.tpm p in
      ground (arith, w.whole, w.named, w.numbered, a, b)

  abbrev RpmFits : Type 0
  RpmFits = Fits (rpm_bucket s now key limits) cost.requests

  abbrev ItpmFits : Type 0
  ItpmFits = Fits (itpm_bucket s now key limits) cost.input_tokens

  abbrev OtpmFits : Type 0
  OtpmFits = Fits (otpm_bucket s now key limits) cost.output_tokens

  a :
      ((try_consume
          (rpm_bucket s now key limits)
          (unix_milli now)
          (clamp_cost cost.requests)).1.allowed
        ≡ true)
      ↔ RpmFits
  a =
      loaded_allowed s.rpm (bucket_key key) limits.requests_per_minute (unix_milli now)
        cost.requests sound.rpm p

  -- On a store whose buckets are sound, a split request that passes the guards is allowed exactly
  -- when its requests, its input tokens and its output tokens all fit their refilled buckets.
  pub split_admission :
      split limits ≡ true → (was_allowed call.1 ≡ true) ↔ (RpmFits × ItpmFits × OtpmFits)
  unfolding check check_split_locked purge_expired
  split_admission two =
      let b =
        loaded_allowed s.itpm (bucket_key key) limits.input_tokens_per_minute (unix_milli now)
          cost.input_tokens sound.itpm p in
      let c =
        loaded_allowed s.otpm (bucket_key key) limits.output_tokens_per_minute (unix_milli now)
          cost.output_tokens sound.otpm p in
      ground (arith, w.whole, w.named, w.numbered, a, b, c)

  -- On a store whose buckets are sound, after an allowed split request exactly its three buckets
  -- are refilled and debited, and one pending split reservation of the clamped costs is recorded.
  pub split_effect :
      split limits ≡ true
      → was_allowed call.1 ≡ true
      → call.0 ≡ after_split s now key limits cost id
  unfolding check check_split_locked purge_expired
  split_effect two yes_it_is =
      let a =
        loaded_taken s.rpm (bucket_key key) limits.requests_per_minute (unix_milli now)
          cost.requests sound.rpm p in
      let b =
        loaded_taken s.itpm (bucket_key key) limits.input_tokens_per_minute (unix_milli now)
          cost.input_tokens sound.itpm p in
      let c =
        loaded_taken s.otpm (bucket_key key) limits.output_tokens_per_minute (unix_milli now)
          cost.output_tokens sound.otpm p in
      ground (arith, w.whole, w.named, w.numbered, a, b, c)
