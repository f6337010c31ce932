-- ===== src/Memory/Valid/Settles.antt =====
-- `Settle`, `SettleIO` and `Refund` of the memory store keep the invariant.
use valve.Common.{ℕ, ℤ, arith, Bytes, Bool-cases, Option-cases, inl, inr}
use valve.Bucket.{clamp_cost}
use valve.Memory.State.{Store, Reservation, purge_expired, bucket_key, unix_milli}
use valve.Memory.Settle.{
  settle, settle_found, settle_pending, settle_io, settle_io_found, settle_io_pending, key_of,
}
use valve.Memory.Refund.{refund, refund_found, refund_pending, refund_buckets}
use valve.Memory.Lifecycle.{
  live, settle-found, settle_io-found, refund-found, settle-missing, settle_io-missing,
  refund-missing,
}
use valve.Memory.Exact.{IsSoundStore}
use valve.Memory.Valid.{IsPayable, IsValid, insert-AllPayable, credited, settled}
use valve.Memory.Valid.Checks.{purge-IsValid}

module _ (s : Store) (now : ℕ) (v : IsValid (unix_milli now) s) where
  abbrev t : Store
  t = purge_expired s now

  settle_pending-IsValid :
      (id : Bytes) (actual : ℤ) (r : Reservation)
      → IsValid (unix_milli now) t
      → IsPayable r
      → IsValid (unix_milli now) (settle_pending t now id actual r).0
  unfolding settle_pending
  settle_pending-IsValid id actual r w p = record {
    buckets = record {
      rpm = w.buckets.rpm;
      tpm =
          settled t.tpm (bucket_key (key_of r)) r.limit_tpm (unix_milli now) w.buckets.tpm
            r.tpm_reserved (clamp_cost actual) p.limit_tpm;
      itpm = w.buckets.itpm;
      otpm = w.buckets.otpm;
    };
    payable = insert-AllPayable t.res id _ w.payable (omega (arith, p));
  }

  settle_io_pending-IsValid :
      (id : Bytes) (x y : ℤ) (r : Reservation)
      → IsValid (unix_milli now) t
      → IsPayable r
      → IsValid (unix_milli now) (settle_io_pending t now id x y r).0
  unfolding settle_io_pending
  settle_io_pending-IsValid id x y r w p = record {
    buckets = record {
      rpm = w.buckets.rpm;
      tpm = w.buckets.tpm;
      itpm =
          settled t.itpm (bucket_key (key_of r)) r.limit_itpm (unix_milli now) w.buckets.itpm
            r.itpm_reserved (clamp_cost x) p.limit_itpm;
      otpm =
          settled t.otpm (bucket_key (key_of r)) r.limit_otpm (unix_milli now) w.buckets.otpm
            r.otpm_reserved (clamp_cost y) p.limit_otpm;
    };
    payable = insert-AllPayable t.res id _ w.payable (omega (arith, p));
  }

  refund_buckets-IsSoundStore :
      (r : Reservation)
      → IsValid (unix_milli now) t
      → IsPayable r
      → IsSoundStore (unix_milli now) (refund_buckets t (unix_milli now) r)
  unfolding refund_buckets
  refund_buckets-IsSoundStore r w p =
      let k = bucket_key (key_of r) in
      let n = unix_milli now in
      let rpm = credited t.rpm k r.limit_rpm n w.buckets.rpm r.rpm_cost p.limit_rpm in
      let tpm = credited t.tpm k r.limit_tpm n w.buckets.tpm r.tpm_reserved p.limit_tpm in
      let itpm = credited t.itpm k r.limit_itpm n w.buckets.itpm r.itpm_reserved p.limit_itpm in
      let otpm = credited t.otpm k r.limit_otpm n w.buckets.otpm r.otpm_reserved p.limit_otpm in
      elim (Bool-cases r.is_split) [
        | inl two ↦
            rw (two, refund_buckets)
              (record { rpm = rpm; tpm = w.buckets.tpm; itpm = itpm; otpm = otpm })
        | inr one ↦
            rw (one, refund_buckets)
              (record { rpm = rpm; tpm = tpm; itpm = w.buckets.itpm; otpm = w.buckets.otpm })
      ]

  refund_pending-IsValid :
      (id : Bytes) (r : Reservation)
      → IsValid (unix_milli now) t
      → IsPayable r
      → IsValid (unix_milli now) (refund_pending t now id r).0
  unfolding refund_pending
  refund_pending-IsValid id r w p =
      let b = refund_buckets-IsSoundStore r w p in
      record {
        buckets = record { rpm = b.rpm; tpm = b.tpm; itpm = b.itpm; otpm = b.otpm };
        payable = insert-AllPayable t.res id _ w.payable (omega (arith, p));
      }

  pub settle-IsValid : (id : Bytes) (x : ℤ) → IsValid (unix_milli now) (settle s now id x).0
  unfolding settle_found
  settle-IsValid id x = elim (Option-cases (live s now id)) [
    | inl e ↦ rw (settle-missing s now id e x) (purge-IsValid s now v)
    | inr (r, e) ↦ rw (settle-found s now id r e x) (
        ground (
          arith,
          settle_pending-IsValid id x r (purge-IsValid s now v)
              ((purge-IsValid s now v).payable id r e),
          (purge-IsValid s now v),
        ))
  ]

  pub settle_io-IsValid :
      (id : Bytes) (x y : ℤ) → IsValid (unix_milli now) (settle_io s now id x y).0
  unfolding settle_io_found
  settle_io-IsValid id x y = elim (Option-cases (live s now id)) [
    | inl e ↦ rw (settle_io-missing s now id e x y) (purge-IsValid s now v)
    | inr (r, e) ↦ rw (settle_io-found s now id r e x y) (
        ground (
          arith,
          settle_io_pending-IsValid id x y r (purge-IsValid s now v)
              ((purge-IsValid s now v).payable id r e),
          (purge-IsValid s now v),
        ))
  ]

  pub refund-IsValid : (id : Bytes) → IsValid (unix_milli now) (refund s now id).0
  unfolding refund_found
  refund-IsValid id = elim (Option-cases (live s now id)) [
    | inl e ↦ rw (refund-missing s now id e) (purge-IsValid s now v)
    | inr (r, e) ↦ rw (refund-found s now id r e) (
        ground (
          arith,
          refund_pending-IsValid id r (purge-IsValid s now v)
              ((purge-IsValid s now v).payable id r e),
          (purge-IsValid s now v),
        ))
  ]
