-- ===== src/Redis/Agree/Checks.antt =====
-- `Check` of the Redis store and `Check` of the memory store, on the classic limits.
use valve.Common.{
  ℕ, ◌<◌, ◌+◌, ℤ, pos, ◌≤ℤ◌, ◌<ℤ◌, ◌-ℤ◌, ltb_ℤ, ◌||◌, ◌≡◌, refl, sym, arith, Bool, true, false,
  Bool-cases, inl, inr, Bytes, bytes_eq, bytes_eq_refl, insert, if◌then◌else◌,
}
use valve.Api.{Key, Limits, Cost, Decision, Result, limit_type_of}
use valve.Bucket
use valve.Bucket.Arith.{token_laws}
use valve.Bucket.{scale, clamp_cost, remaining_int}
use valve.Memory.State.{
  Store, BucketState, bucket_key, load_bucket, save_bucket, model_or_dash, unix_milli,
}
use valve.Memory.Check.{check_classic_locked, clamp_all}
use valve.Redis.Keys.{reservation_key}
use valve.Redis.Lua
use valve.Redis.Lua.{Hashes, check_script, check_refilled, check_allowed, kept_snapshot, expiry}
use valve.Store.{reservation_ttl}
use valve.Redis.Agree.Answers.{Agrees, SameAnswer}
use valve.Redis.Agree.Keys.{rpm_key, tpm_key, keys_apart}
use valve.Redis.Agree.Entries.{Entry, Stage, hash_at, res_at}
use valve.Redis.Parse.{parse_decision, with_reservation}
use valve.Redis.Reply.{to_int64, to_string}
use valve.Redis.Agree.Refill.{refill_agrees, held, within_refill, consume_held, retry_agrees}

paid_within : (x c cost : ℤ) → x ≤ℤ c → x -ℤ scale (clamp_cost cost) ≤ℤ c
paid_within x c cost h = grind token_laws

not_less : (x y : ℤ) (b : Bool) → ltb_ℤ x y || b ≡ false → y ≤ℤ x
not_less x y b h = ground arith

-- One call past its guards, on hashes and a store whose buckets refill to the same tokens.
module _ (h : Hashes) (s : Store) (now : ℕ) (key : Key) (limits : Limits) (cost : Cost)
    (id : Bytes) where
  abbrev now_ms : ℕ
  now_ms = unix_milli now

  abbrev pub refilled_rpm : ℤ
  refilled_rpm = Lua.refill (h.buckets (rpm_key key)) limits.requests_per_minute now_ms

  abbrev pub refilled_tpm : ℤ
  refilled_tpm = Lua.refill (h.buckets (tpm_key key)) limits.tokens_per_minute now_ms

  abbrev debited_rpm : BucketState
  debited_rpm = record {
    tokens = refilled_rpm -ℤ scale (clamp_cost cost.requests);
    last_ms = now_ms;
  }

  abbrev debited_tpm : BucketState
  debited_tpm = record { tokens = refilled_tpm -ℤ scale (clamp_cost cost.tokens); last_ms = now_ms }

  abbrev pub theirs : Hashes × Result Decision
  theirs =
      let (h', r) =
        check_script (rpm_key key) (tpm_key key) (reservation_key id) limits.requests_per_minute
          limits.tokens_per_minute (pos 900) key.subject (model_or_dash key.model) h now_ms
          cost.requests cost.tokens in
      (h', parse_decision r limits id)

  abbrev pub ours : Store × Result Decision
  ours = check_classic_locked s key limits (clamp_all cost) id now now_ms

  -- The reservation that is made.
  abbrev pub made : Entry
  made = record {
    rpm_cost = clamp_cost cost.requests;
    tpm_reserved = clamp_cost cost.tokens;
    stage = Stage.pending (kept_snapshot (h.res (reservation_key id)));
    created_ms = now_ms;
    expires_ms = expiry now_ms (pos 900);
    expires_at = now + reservation_ttl;
  }

  abbrev pub theirs_debited : Hashes
  theirs_debited = record {
    buckets = insert (tpm_key key) debited_tpm (insert (rpm_key key) debited_rpm h.buckets);
    res = insert (reservation_key id) (hash_at key limits made) h.res;
  }

  abbrev pub ours_debited : Store
  ours_debited = record s {
    rpm = insert (bucket_key key) debited_rpm s.rpm;
    tpm = insert (bucket_key key) debited_tpm s.tpm;
    res = insert id (res_at key limits id made) s.res;
  }

  -- A refusal leaves both stores as they are, and an approval debits both.
  module _ (p : 0 < now_ms) (cr : pos 0 <ℤ limits.requests_per_minute)
      (ct : pos 0 <ℤ limits.tokens_per_minute)
      (load_rpm : load_bucket s.rpm (bucket_key key) limits.requests_per_minute now_ms
        ≡ held refilled_rpm now_ms limits.requests_per_minute)
      (load_tpm : load_bucket s.tpm (bucket_key key) limits.tokens_per_minute now_ms
        ≡ held refilled_tpm now_ms limits.tokens_per_minute)
      (rpm_held : refilled_rpm ≤ℤ scale limits.requests_per_minute)
      (tpm_held : refilled_tpm ≤ℤ scale limits.tokens_per_minute) (P : Hashes → Store → Type 0)
      (refused : P h s)
      (debited : scale (clamp_cost cost.requests) ≤ℤ refilled_rpm
        → scale (clamp_cost cost.tokens) ≤ℤ refilled_tpm
        → P theirs_debited ours_debited) where
    abbrev no_requests : Bool
    no_requests =
        ltb_ℤ refilled_rpm (scale (clamp_cost cost.requests))
        || ltb_ℤ limits.requests_per_minute (clamp_cost cost.requests)

    abbrev no_tokens : Bool
    no_tokens =
        ltb_ℤ refilled_tpm (scale (clamp_cost cost.tokens))
        || ltb_ℤ limits.tokens_per_minute (clamp_cost cost.tokens)

    rpm_consumed :
        Bucket.try_consume
          (held refilled_rpm now_ms limits.requests_per_minute)
          now_ms
          (clamp_cost cost.requests)
        ≡ (if no_requests
            then Bucket.deny
                (held refilled_rpm now_ms limits.requests_per_minute)
                now_ms
                (clamp_cost cost.requests)
            else Bucket.debit
                (held refilled_rpm now_ms limits.requests_per_minute)
                now_ms
                (clamp_cost cost.requests))
    rpm_consumed =
        consume_held refilled_rpm now_ms limits.requests_per_minute cost.requests p cr rpm_held

    tpm_consumed :
        Bucket.try_consume
          (held refilled_tpm now_ms limits.tokens_per_minute)
          now_ms
          (clamp_cost cost.tokens)
        ≡ (if no_tokens
            then Bucket.deny
                (held refilled_tpm now_ms limits.tokens_per_minute)
                now_ms
                (clamp_cost cost.tokens)
            else Bucket.debit
                (held refilled_tpm now_ms limits.tokens_per_minute)
                now_ms
                (clamp_cost cost.tokens))
    tpm_consumed =
        consume_held refilled_tpm now_ms limits.tokens_per_minute cost.tokens p ct tpm_held

    refused_requests : no_requests ≡ true → SameAnswer theirs.1 ours.1 × P theirs.0 ours.0
    unfolding check_script check_refilled check_classic_locked parse_decision with_reservation
        to_int64 to_string limit_type_of bytes_eq
    refused_requests a =
        rw (load_rpm, load_tpm)
          (rw rpm_consumed (
            rw a (
              record {
                allowed = refl;
                limit_type = refl;
                remaining_rpm = refl;
                remaining_tpm = refl;
                retry_after = sym (
                    retry_agrees refilled_rpm now_ms limits.requests_per_minute
                      (clamp_cost cost.requests) cr);
                limit_rpm = refl;
                limit_tpm = refl;
                overshoot_tpm = refl;
                reservation_id = refl;
              },
              refused,
            )))

    refused_tokens :
        no_requests ≡ false → no_tokens ≡ true → SameAnswer theirs.1 ours.1 × P theirs.0 ours.0
    unfolding check_script check_refilled check_classic_locked parse_decision with_reservation
        to_int64 to_string limit_type_of bytes_eq
    refused_tokens a b =
        rw (load_rpm, load_tpm)
          (rw (rpm_consumed, tpm_consumed)
            (rw (a, b)
              (
                record {
                  allowed = refl;
                  limit_type = refl;
                  remaining_rpm = refl;
                  remaining_tpm = refl;
                  retry_after = sym (
                      retry_agrees refilled_tpm now_ms limits.tokens_per_minute
                        (clamp_cost cost.tokens) ct);
                  limit_rpm = refl;
                  limit_tpm = refl;
                  overshoot_tpm = refl;
                  reservation_id = refl;
                },
                refused,
              )))

    both_debited :
        no_requests ≡ false → no_tokens ≡ false → SameAnswer theirs.1 ours.1 × P theirs.0 ours.0
    unfolding check_script check_refilled check_allowed check_classic_locked parse_decision
        with_reservation to_int64 to_string limit_type_of save_bucket kept_snapshot
    both_debited a b =
        rw (load_rpm, load_tpm)
          (rw (rpm_consumed, tpm_consumed)
            (rw (a, b)
              (
                record {
                  allowed = refl;
                  limit_type = refl;
                  remaining_rpm = refl;
                  remaining_tpm = refl;
                  retry_after = refl;
                  limit_rpm = refl;
                  limit_tpm = refl;
                  overshoot_tpm = refl;
                  reservation_id = refl;
                },
                debited
                    (not_less refilled_rpm (scale (clamp_cost cost.requests))
                      (ltb_ℤ limits.requests_per_minute (clamp_cost cost.requests)) a)
                    (not_less refilled_tpm (scale (clamp_cost cost.tokens))
                      (ltb_ℤ limits.tokens_per_minute (clamp_cost cost.tokens)) b),
              )))

    pub locked_agrees : SameAnswer theirs.1 ours.1 × P theirs.0 ours.0
    locked_agrees = elim (Bool-cases no_requests) [
      | inl a ↦ refused_requests a
      | inr a ↦ elim (Bool-cases no_tokens) [
        | inl b ↦ refused_tokens a b
        | inr b ↦ both_debited a b
      ]
    ]

-- With the same buckets in both, the buckets stay the same.
module _ (h : Hashes) (s : Store) (now : ℕ) (key : Key) (limits : Limits) (cost : Cost) (id : Bytes)
    (p : 0 < unix_milli now) (cr : pos 0 <ℤ limits.requests_per_minute)
    (ct : pos 0 <ℤ limits.tokens_per_minute) (agree : Agrees key limits h s) where
  rpm_held : refilled_rpm h s now key limits cost id ≤ℤ scale limits.requests_per_minute
  rpm_held = within_refill _ _ (unix_milli now) agree.rpm_within

  tpm_held : refilled_tpm h s now key limits cost id ≤ℤ scale limits.tokens_per_minute
  tpm_held = within_refill _ _ (unix_milli now) agree.tpm_within

  debited-Agrees :
      Agrees key limits
        (theirs_debited h s now key limits cost id)
        (ours_debited h s now key limits cost id)
  debited-Agrees = record {
    rpm =
        rw (keys_apart key)
          (rw (bytes_eq_refl (rpm_key key)) (rw (bytes_eq_refl (bucket_key key)) refl));
    tpm = rw (bytes_eq_refl (tpm_key key)) (rw (bytes_eq_refl (bucket_key key)) refl);
    rpm_within =
        rw (keys_apart key)
          (rw (bytes_eq_refl (rpm_key key)) (p, paid_within _ _ cost.requests rpm_held));
    tpm_within = rw (bytes_eq_refl (tpm_key key)) (p, paid_within _ _ cost.tokens tpm_held);
  }

  pub locked-Agrees :
      SameAnswer (theirs h s now key limits cost id).1 (ours h s now key limits cost id).1
      × Agrees key limits (theirs h s now key limits cost id).0 (ours h s now key limits cost id).0
  unfolding load_bucket
  locked-Agrees =
      locked_agrees h s now key limits cost id p cr ct
        (rw⁻¹ agree.rpm (refill_agrees _ limits.requests_per_minute _ cr agree.rpm_within))
        (rw⁻¹ agree.tpm (refill_agrees _ limits.tokens_per_minute _ ct agree.tpm_within)) rpm_held
        tpm_held (Agrees key limits) agree (λ a b. debited-Agrees)
