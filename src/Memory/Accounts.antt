-- ===== src/Memory/Accounts.antt =====
-- What settling does to the tokens: the unused part of a reservation comes back, an excess is
-- debited as far as whole tokens reach, and the rest is reported as the overshoot.
use valve.Common.{
  ℕ, ◌<◌, ℤ, pos, neg_part, ◌≤ℤ◌, ◌<ℤ◌, ◌+ℤ◌, ◌-ℤ◌, min_ℤ, int_laws, ◌≡◌, refl, ◌⊎◌, ap, ◌∙◌, arith,
  false, Bytes, some,
}
use valve.Api.{Decision, ok}
use valve.Bucket
use valve.Bucket.{scale, remaining_int, clamp_cost, credit, debit_floor, refill}
use valve.Bucket.Arith.{token_laws}
use valve.Bucket.Refill.{IsBounded}
use valve.Bucket.Consume.{refill_settled, debit_floor_lem}
use valve.Bucket.Sound.{debit_floor-IsStamped}
use valve.Memory.State.{
  Store, Reservation, Status, purge_expired, load_bucket, save_bucket, bucket_key, unix_milli,
}
use valve.Memory.Buckets.{load_bucket-IsBounded, load_bucket-capacity, load_bucket-last_ms}
use valve.Memory.Settle.{settle, settle_found, settle_pending, settle_axis, key_of}
use valve.Memory.Lifecycle.{live, settle-found}
use valve.Memory.Exact.{IsSoundStore}

-- A bucket that was refilled at `now_ms`.
module _ (b : Bucket.State) (now_ms : ℕ) (reserved actual : ℤ) (e : b.last_ms ≡ now_ms)
    (p : 0 < now_ms) (c : pos 0 ≤ℤ b.capacity) (v : IsBounded b) where
  refilled : refill b now_ms ≡ b
  refilled = refill_settled b now_ms e p c v

  pub settle_axis_under :
      actual ≤ℤ reserved
      → settle_axis b now_ms reserved actual ≡ (
        record b { tokens = min_ℤ (scale b.capacity) (b.tokens +ℤ scale (reserved -ℤ actual)) },
        pos 0,
      )
  unfolding settle_axis credit
  settle_axis_under le = rw refilled (grind (token_laws, v))

  over_eq :
      reserved <ℤ actual
      → settle_axis b now_ms reserved actual ≡ (
        (debit_floor b now_ms (actual -ℤ reserved)).0,
        (debit_floor b now_ms (actual -ℤ reserved)).2,
      )
  unfolding settle_axis
  over_eq lt =
      let flip : pos 0 -ℤ (reserved -ℤ actual) ≡ actual -ℤ reserved = omega int_laws in
      rw flip (grind int_laws)

  pub settle_axis_over :
      reserved <ℤ actual
      → let (b', over) = settle_axis b now_ms reserved actual in
        (b'.tokens +ℤ scale (actual -ℤ reserved -ℤ over) ≡ b.tokens)
        × (pos 0 ≤ℤ over)
        × ((over ≡ pos 0) ⊎ (actual -ℤ reserved -ℤ over ≡ remaining_int b.tokens))
        × (b'.last_ms ≡ now_ms)
        × (neg_part b'.tokens ≡ 0)
        × (b'.capacity ≡ b.capacity)
  settle_axis_over lt =
      let facts =
        debit_floor_lem b now_ms (actual -ℤ reserved) (rw refilled v.nonneg) (omega int_laws) in
      let split : actual -ℤ reserved -ℤ (debit_floor b now_ms (actual -ℤ reserved)).2
          ≡ (debit_floor b now_ms (actual -ℤ reserved)).1 =
        grind (int_laws, facts.0) in
      rw (over_eq lt) (
        rw split (
          rw refilled at facts.1,
          facts.4,
          rw refilled at facts.2,
          (debit_floor-IsStamped b now_ms v.nonneg (actual -ℤ reserved)).stamped,
          facts.5,
          facts.6,
        ))

-- A pending classic reservation that a `Settle` finds, in a sound store.
module _ (s : Store) (now : ℕ) (id : Bytes) (actual : ℤ) (r : Reservation)
    (found : live s now id ≡ some r) (classic : r.is_split ≡ false)
    (unsettled : r.status ≡ Status.pending) (sound : IsSoundStore (unix_milli now) s)
    (p : 0 < unix_milli now) (c : pos 0 ≤ℤ r.limit_tpm) where
  abbrev k : Bytes
  k = bucket_key (key_of r)

  abbrev b : Bucket.State
  b = load_bucket s.tpm k r.limit_tpm (unix_milli now)

  abbrev spent : ℤ
  spent = clamp_cost actual

  once : settle s now id actual ≡ settle_pending (purge_expired s now) now id actual r
  unfolding settle_found
  once = settle-found s now id r found actual ∙ ground arith

  bounded : IsBounded b
  bounded = load_bucket-IsBounded s.tpm k r.limit_tpm (unix_milli now) sound.tpm c

  -- A pending classic reservation with a limit that is not negative is settled, in a store whose
  -- buckets are sound, and at most the reserved tokens were used: the difference comes back, up to
  -- the capacity, there is no overshoot, and no other bucket changes.
  pub settle_credits :
      spent ≤ℤ r.tpm_reserved
      → let (s', result) = settle s now id actual in
        (d : Decision) × (result ≡ ok d)
        × (d.overshoot_tpm ≡ pos 0)
        × (s'.tpm
            ≡ save_bucket s.tpm k (record b {
              tokens = min_ℤ (scale r.limit_tpm) (b.tokens +ℤ scale (r.tpm_reserved -ℤ spent));
            }))
        × (s'.rpm ≡ s.rpm)
        × (s'.itpm ≡ s.itpm)
        × (s'.otpm ≡ s.otpm)
  unfolding settle_pending purge_expired
  settle_credits le =
      let axis =
        settle_axis_under b (unix_milli now) r.tpm_reserved spent
          (load_bucket-last_ms s.tpm k r.limit_tpm (unix_milli now)) p
          (rw (load_bucket-capacity s.tpm k r.limit_tpm (unix_milli now)) c) bounded le in
      let cap = load_bucket-capacity s.tpm k r.limit_tpm (unix_milli now) in
      rw once (
        _,
        refl,
        ap (λ x. x.1) axis,
        ap (λ x. save_bucket s.tpm k x.0) axis
            ∙ ap
                (λ n. save_bucket s.tpm k (record b {
                  tokens = min_ℤ (scale n) (b.tokens +ℤ scale (r.tpm_reserved -ℤ spent));
                }))
                cap,
        refl,
        refl,
        refl,
      )

  -- A pending classic reservation with a limit that is not negative is settled, in a store whose
  -- buckets are sound, and more was used than reserved: the overshoot is what whole tokens could
  -- not cover, the bucket loses the rest of the excess without going into debt, its time is that of
  -- the call, and no other bucket changes.
  pub settle_debits :
      r.tpm_reserved <ℤ spent
      → let (s', result) = settle s now id actual in
        (d : Decision) × (left : Bucket.State) × (result ≡ ok d)
        × (s'.tpm ≡ save_bucket s.tpm k left)
        × (left.last_ms ≡ unix_milli now)
        × (neg_part left.tokens ≡ 0)
        × (left.capacity ≡ b.capacity)
        × (left.tokens +ℤ scale (spent -ℤ r.tpm_reserved -ℤ d.overshoot_tpm) ≡ b.tokens)
        × (pos 0 ≤ℤ d.overshoot_tpm)
        × ((d.overshoot_tpm ≡ pos 0)
            ⊎ (spent -ℤ r.tpm_reserved -ℤ d.overshoot_tpm ≡ remaining_int b.tokens))
        × (s'.rpm ≡ s.rpm)
        × (s'.itpm ≡ s.itpm)
        × (s'.otpm ≡ s.otpm)
  unfolding settle_pending purge_expired
  settle_debits lt =
      let (eq, n, most, at, nonneg, cap) =
        settle_axis_over b (unix_milli now) r.tpm_reserved spent
          (load_bucket-last_ms s.tpm k r.limit_tpm (unix_milli now)) p
          (rw (load_bucket-capacity s.tpm k r.limit_tpm (unix_milli now)) c) bounded lt in
      rw once (_, _, refl, refl, at, nonneg, cap, eq, n, most, refl, refl, refl)
