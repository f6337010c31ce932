-- ===== src/Memory/Tests/Settling.antt =====
-- Runs of `Settle`, `SettleIO` and `Refund` of pkg/store/memory/memory.go.
use valve.Common.{
  ℕ, ◌≤◌, ◌<◌, ℤ, pos, neg_part, ◌≤ℤ◌, ◌+ℤ◌, ◌-ℤ◌, min_ℤ, ◌≡◌, refl, ◌≢◌, ◌⊎◌, arith, true, false,
  Bytes, [], ◌∷◌, Option, none, some, if◌then◌else◌,
}
use valve.Api.{Key, Limits, Cost, Decision, Result, ok, err, Error, LimitType}
use valve.Bucket
use valve.Bucket.{scale, clamp_cost, remaining_int}
use valve.Memory.State.{
  Store, Reservation, Status, purge_expired, unix_milli, bucket_key, save_bucket,
}
use valve.Memory.Check.{check}
use valve.Memory.Settle.{settle, settle_io}
use valve.Memory.Refund.{refund}
use valve.Memory.History.{Call, step}
use valve.Memory.Exact.{tpm_bucket, classic_reservation, split_reservation}
use valve.Memory.Lifecycle.{live, settle_final, refund_final}
use valve.Memory.Final.{step_keeps_final}
use valve.Memory.Accounts.{settle_credits, settle_debits}
use valve.Memory.Tests.{key, classic, parts, cost, id, t, s1, s2, s1-IsValid}

abbrev r1 : Reservation
r1 = classic_reservation key classic cost t

abbrev r2 : Reservation
r2 = split_reservation key parts cost t

s1_live : live s1 t id ≡ some r1
unfolding check purge_expired valve.Memory.State.unexpired step valve.Api.is_partial valve.Api.split
    valve.Memory.Check.check_classic_locked Bucket.try_consume Bucket.lacks Bucket.nanos
    Bucket.refill valve.Memory.State.load_bucket min_ℤ scale ◌+ℤ◌ valve.Common.bytes_eq
s1_live = refl

s2_live : live s2 t id ≡ some r2
unfolding check purge_expired valve.Memory.State.unexpired step valve.Api.is_partial valve.Api.split
    valve.Memory.Check.check_split_locked Bucket.try_consume Bucket.lacks Bucket.nanos Bucket.refill
    valve.Memory.State.load_bucket min_ℤ scale ◌+ℤ◌ valve.Common.bytes_eq
s2_live = refl

-- A minute later.
abbrev u : ℕ
u = 61000000000

settle_final_example :
    let (s', result) = settle s1 t id (pos 70) in
    (settle s' u id (pos 5) ≡ (purge_expired s' u, result))
    × (refund s' u id ≡ (purge_expired s' u, err Error.reservation_settled))
    × (settle_io s' u id (pos 1) (pos 2) ≡ (purge_expired s' u, err Error.wrong_settle_mode))
settle_final_example =
    settle_final s1 t u id (pos 70) (pos 5) (pos 1) (pos 2) r1 s1_live refl refl (omega arith)

refund_final_example :
    let s' = (refund s1 t id).0 in
    ((refund s1 t id).1 ≡ ok tt)
    × (refund s' u id ≡ (purge_expired s' u, ok tt))
    × (settle s' u id (pos 3) ≡ (purge_expired s' u, err Error.reservation_refunded))
    × (settle_io s' u id (pos 3) (pos 4) ≡ (purge_expired s' u, err Error.wrong_settle_mode))
refund_final_example = refund_final s1 t u id (pos 3) (pos 4) r1 s1_live refl (omega arith)

-- The reservation as a refund leaves it.
abbrev r3 : Reservation
r3 = record r1 { status = Status.refunded; expires_at = 901000000000 }

abbrev s3 : Store
s3 = step s1 t (Call.refunds id)

s3_has : s3.res id ≡ some r3
unfolding check step refund purge_expired valve.Memory.State.unexpired valve.Api.is_partial
    valve.Api.split valve.Memory.Check.check_classic_locked Bucket.try_consume Bucket.lacks
    Bucket.nanos Bucket.refill valve.Memory.State.load_bucket min_ℤ scale ◌+ℤ◌ valve.Common.bytes_eq
    valve.Memory.Refund.refund_found valve.Memory.Refund.refund_pending
s3_has = refl

r3_final : r3.status ≢ Status.pending
r3_final e = ground arith

step_keeps_final_example :
    (((step s3 u (Call.settles id (pos 9))).res id ≡ none) × (r3.expires_at < u))
    ⊎ ((step s3 u (Call.settles id (pos 9))).res id ≡ some r3)
step_keeps_final_example = step_keeps_final s3 u (Call.settles id (pos 9)) id r3 s3_has r3_final tt

abbrev tpm_now : Bucket.State
tpm_now = tpm_bucket s1 t key classic

settle_credits_example :
    let (s', result) = settle s1 t id (pos 50) in
    (d : Decision) × (result ≡ ok d)
    × (d.overshoot_tpm ≡ pos 0)
    × (s'.tpm
        ≡ save_bucket s1.tpm (bucket_key key) (record tpm_now {
          tokens =
              min_ℤ
                (scale (pos 100))
                (tpm_now.tokens +ℤ scale (r1.tpm_reserved -ℤ clamp_cost (pos 50)));
        }))
    × (s'.rpm ≡ s1.rpm)
    × (s'.itpm ≡ s1.itpm)
    × (s'.otpm ≡ s1.otpm)
settle_credits_example =
    settle_credits s1 t id (pos 50) r1 s1_live refl refl s1-IsValid.buckets (omega arith)
      (omega arith) (unfold clamp_cost in omega arith)

settle_debits_example :
    let (s', result) = settle s1 t id (pos 120) in
    (d : Decision) × (left : Bucket.State) × (result ≡ ok d)
    × (s'.tpm ≡ save_bucket s1.tpm (bucket_key key) left)
    × (left.last_ms ≡ unix_milli t)
    × (neg_part left.tokens ≡ 0)
    × (left.capacity ≡ tpm_now.capacity)
    × (left.tokens +ℤ scale (clamp_cost (pos 120) -ℤ r1.tpm_reserved -ℤ d.overshoot_tpm)
        ≡ tpm_now.tokens)
    × (pos 0 ≤ℤ d.overshoot_tpm)
    × ((d.overshoot_tpm ≡ pos 0)
        ⊎ (clamp_cost (pos 120) -ℤ r1.tpm_reserved -ℤ d.overshoot_tpm
            ≡ remaining_int tpm_now.tokens))
    × (s'.rpm ≡ s1.rpm)
    × (s'.itpm ≡ s1.itpm)
    × (s'.otpm ≡ s1.otpm)
settle_debits_example =
    settle_debits s1 t id (pos 120) r1 s1_live refl refl s1-IsValid.buckets (omega arith)
      (omega arith) (unfold clamp_cost in omega arith)

-- The decision on a second request at the same time.
abbrev refusal : Decision
refusal = record {
  allowed = false;
  limit_type = LimitType.tokens;
  remaining_rpm = pos 1;
  remaining_tpm = pos 40;
  remaining_itpm = pos 0;
  remaining_otpm = pos 0;
  limit_rpm = pos 2;
  limit_tpm = pos 100;
  limit_itpm = pos 0;
  limit_otpm = pos 0;
  reset_rpm = some 31000000000;
  reset_tpm = some 37000000000;
  reset_itpm = none;
  reset_otpm = none;
  retry_after = 12000000000;
  reservation_id = [];
  overshoot_tpm = pos 0;
  overshoot_itpm = pos 0;
  overshoot_otpm = pos 0;
}

s1-refusal : (check s1 t key classic cost id).1 ≡ ok refusal
unfolding valve.Memory.Check.check valve.Api.is_partial valve.Api.split
    valve.Memory.Check.check_classic_locked Bucket.try_consume Bucket.lacks Bucket.nanos
    Bucket.refill valve.Memory.State.load_bucket valve.Memory.State.purge_expired
    valve.Memory.History.step min_ℤ valve.Bucket.scale ◌+ℤ◌ valve.Memory.State.save_bucket
    valve.Common.bytes_eq bucket_key ◌-ℤ◌ valve.Bucket.retry_after valve.Bucket.reset_at
    valve.Bucket.ceil_div valve.Bucket.remaining_int valve.Bucket.refill_per_ms
    valve.Bucket.clamp_cost valve.Memory.State.model_or_dash valve.Memory.State.unexpired
s1-refusal = refl
