-- ===== src/Store.antt =====
-- pkg/store/store.go: what a store lends. The interface `Store` itself is `Limiter.Backend`.
use valve.Common.{◌*◌, ℤ, Bool}
use valve.Api.{LimitType, Duration}

-- `ReservationTTL`, 15 minutes in nanoseconds.
abbrev pub reservation_ttl : Duration
reservation_ttl = 15 * 60 * 1000000000

pub record BorrowSpec : Type 0 where
  pub min_rpm : ℤ
  pub min_tpm : ℤ
  pub min_itpm : ℤ
  pub min_otpm : ℤ
  pub chunk_rpm : ℤ
  pub chunk_tpm : ℤ
  pub chunk_itpm : ℤ
  pub chunk_otpm : ℤ

pub record BorrowResult : Type 0 where
  pub allowed : Bool
  pub limit_type : LimitType
  pub got_rpm : ℤ
  pub got_tpm : ℤ
  pub got_itpm : ℤ
  pub got_otpm : ℤ
  pub remaining_rpm : ℤ
  pub remaining_tpm : ℤ
  pub remaining_itpm : ℤ
  pub remaining_otpm : ℤ
  pub retry_after : Duration
  pub limit_rpm : ℤ
  pub limit_tpm : ℤ
  pub limit_itpm : ℤ
  pub limit_otpm : ℤ

-- The three values that the `status` of a reservation takes, in pkg/store/memory and in pkg/lease.
pub data Status : Type 0 where
  pending settled refunded : Status
