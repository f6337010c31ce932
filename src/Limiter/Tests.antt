-- ===== src/Limiter/Tests.antt =====
-- Runs of the limiter of pkg/limiter/limiter.go.
use valve.Common.{
  ℕ, suc, ℤ, pos, ◌+ℤ◌, ltb, ◌≡◌, refl, arith, true, false, Bytes, [], ◌∷◌, Option, none, some,
  bytes_eq, empty_map, insert,
}
use valve.Api.{
  LimitType, Key, Limits, Cost, Decision, FailMode, ok, err, Error, zero_decision, split,
  is_partial,
}
use valve.Store.{Status, BorrowResult}
use valve.Memory.State.{new}
use valve.Memory.Check.{clamp_all}
use valve.Memory.Borrow.{zero_borrow}
use valve.Lease.Config.{default_config}
use valve.Lease.DenyCache.{cache_key}
use valve.Lease.Pool.{Pool, LocalBucket, Reservation, new_pool, lease_end}
use valve.Lease.Refund.{pay_overshoot}
use valve.Limiter.Backend.{Backend, Limiter, memory}
use valve.Limiter.Check.{check, use_loan}
use valve.Limiter.Settle.{cover}
use valve.Limiter.Debited.{HasBacking}
use valve.Limiter.Backing.{IsAvailable, check_allowed_backed}
use valve.Limiter.Failure.{check_store_fails}
use valve.Limiter.Close.{close}
use valve.Limiter.Closing.{close_once}
use valve.Limiter.Overshoot.{cover_credits_twice}

abbrev key : Key
key = record { subject = b'a' ∷ []; model = [] }

abbrev limits : Limits
limits = record {
  requests_per_minute = pos 2;
  tokens_per_minute = pos 100;
  input_tokens_per_minute = pos 0;
  output_tokens_per_minute = pos 0;
}

abbrev cost : Cost
cost = record { requests = pos 1; tokens = pos 60; input_tokens = pos 0; output_tokens = pos 0 }

abbrev id : Bytes
id = b'x' ∷ []

-- A clock that stands still, one second after 1970.
abbrev clock : ℕ → ℕ
clock i = 1000000000

-- A store that is down, and counts the calls.
abbrev down : Backend
down = record {
  Store = ℕ;
  check = λ s now k l c i. (suc s, err (Error.store_failure []));
  settle = λ s now i a. (suc s, err (Error.store_failure []));
  settle_io = λ s now i a b. (suc s, err (Error.store_failure []));
  refund = λ s now i. (suc s, err (Error.store_failure []));
  borrow = λ s now k l spec. (suc s, err (Error.store_failure []));
  return_credits = λ s now k l a b c d. (suc s, err (Error.store_failure []));
}

abbrev direct : Limiter ℕ
direct = record { store = 0; fail_mode = FailMode.fail_open; pool = none }

whole : is_partial limits ≡ false
unfolding is_partial
whole = refl

check_store_fails_example :
    (d : Decision) × ((check down direct key limits cost (some id) none clock).1 ≡ ok d)
    × ((check down direct key limits cost (some id) none clock).0.store ≡ 1)
    × (d.allowed ≡ true)
    × (d.reservation_id ≡ [])
check_store_fails_example =
    check_store_fails down direct key limits cost id none clock 1 (Error.store_failure []) refl
      whole refl

abbrev fast : Limiter memory.Store
fast = record {
  store = new;
  fail_mode = FailMode.fail_closed;
  pool = some (new_pool default_config);
}

-- The two requests and hundred tokens of the store were borrowed, and the cost taken from them.
abbrev admitted : Decision
admitted = record zero_decision {
  allowed = true;
  remaining_rpm = pos 1;
  remaining_tpm = pos 40;
  limit_rpm = pos 2;
  limit_tpm = pos 100;
  reservation_id = id;
}

fast_admits : (check memory fast key limits cost (some id) none clock).1 ≡ ok admitted
unfolding check is_partial valve.Limiter.Check.check_fast valve.Lease.DenyCache.get
    valve.Limiter.Check.check_fresh valve.Limiter.Check.check_lease valve.Lease.Pool.try_debit
    valve.Lease.Pool.debit_found valve.Lease.Pool.get_lease valve.Lease.Pool.purge_res
    valve.Limiter.Check.check_borrow valve.Limiter.Check.use_loan valve.Memory.Borrow.borrow split
    valve.Memory.Borrow.borrow_classic_locked valve.Bucket.remaining_int
    valve.Memory.State.load_bucket valve.Bucket.refill valve.Bucket.clamp_cost valve.Bucket.scale
    valve.Common.add64 valve.Common.min_ℤ valve.Common.sub64 valve.Common.wrap64 ◌+ℤ◌
    valve.Common.◌-ℤ◌ bytes_eq valve.Lease.DenyCache.get_entry valve.Lease.Pool.covers
    valve.Lease.Pool.credit_lease valve.Lease.Pool.debit_decision valve.Lease.Pool.debit_lease
    valve.Lease.Pool.debited valve.Lease.Pool.get_found valve.Lease.Pool.lease_to_credit
    valve.Lease.Pool.note_borrow valve.Lease.Config.normalized valve.Limiter.Check.spend_loan
    valve.Memory.Borrow.want_got valve.Memory.State.bucket_key
fast_admits = refl

check_allowed_backed_example :
    (p' : Pool) × ((check memory fast key limits cost (some id) none clock).0.pool ≡ some p')
    × HasBacking
        (IsAvailable memory fast (new_pool default_config) key limits (clamp_all cost))
        p'
        admitted
        key
        limits
        (clamp_all cost)
check_allowed_backed_example =
    check_allowed_backed memory fast (new_pool default_config) key limits cost (some id) none clock
      admitted refl fast_admits refl

-- A settled reservation that used twenty tokens more than the lease held.
abbrev settled : Reservation
settled = record {
  key = key;
  limits = limits;
  rpm_cost = pos 1;
  tpm_reserved = pos 60;
  itpm_reserved = pos 0;
  otpm_reserved = pos 0;
  status = Status.settled;
  last_decision = record zero_decision { allowed = true; overshoot_tpm = pos 20 };
  expires_at = 901000000000;
}

abbrev empty : LocalBucket
empty = record {
  rpm = pos 1;
  tpm = pos 0;
  itpm = pos 0;
  otpm = pos 0;
  expires_at = 2000000000;
  limits = limits;
}

abbrev pool : Pool
pool = record (new_pool default_config) {
  lease = insert (cache_key key) empty empty_map;
  res = insert id settled empty_map;
}

abbrev loan : BorrowResult
loan = record zero_borrow { allowed = true; got_tpm = pos 20 }

pool_res : pool.res id ≡ some settled
unfolding bytes_eq
pool_res = refl

pool_lease : pool.lease (cache_key key) ≡ some empty
unfolding bytes_eq valve.Memory.State.bucket_key
pool_lease = refl

still_live : ltb 1000000000 (lease_end pool 1000000000) ≡ true
unfolding valve.Lease.Config.normalized
still_live = refl

-- Twenty tokens were lent and the overshoot of twenty is paid, and the lease still holds twenty.
cover_credits_twice_example :
    let (tpm, owed) = pay_overshoot (pos 0 +ℤ pos 20 +ℤ pos 20) (pos 20) in
    let (p', _) = cover pool id settled settled.last_decision (ok loan) clock in
    ((b' : LocalBucket) × (p'.lease (cache_key key) ≡ some b') × (b'.tpm ≡ tpm))
    × (tpm +ℤ pos 20 ≡ pos 0 +ℤ pos 20 +ℤ pos 20 +ℤ owed)
cover_credits_twice_example =
    cover_credits_twice pool empty id settled settled.last_decision loan clock pool_res pool_lease
      refl still_live refl (omega arith) (omega arith) (omega arith) (omega arith)

-- The limiter of the example with a lease that is not spent.
abbrev leased : Limiter memory.Store
leased = record {
  store = new;
  fail_mode = FailMode.fail_closed;
  pool =
      some
        (record pool { lease = insert (cache_key key) (record empty { tpm = pos 7 }) empty_map });
}

close_once_example :
    let l' = (close memory leased (cache_key key ∷ []) clock).0 in
    let (l'', first) = close memory l' (cache_key key ∷ []) clock in
    (l''.store ≡ l'.store) × (l''.pool ≡ l'.pool) × (first ≡ none)
close_once_example =
    close_once memory leased
      (record pool { lease = insert (cache_key key) (record empty { tpm = pos 7 }) empty_map })
      (cache_key key ∷ []) clock clock refl (omega arith)

-- A loan that the store refuses for three seconds, and the pool after it.
abbrev no_loan : BorrowResult
no_loan = record zero_borrow { limit_type = LimitType.tokens; retry_after = 3000000000 }

abbrev waiting : Limiter ℕ
waiting = record {
  store = 0;
  fail_mode = FailMode.fail_closed;
  pool = some (use_loan FailMode.fail_closed pool key limits cost id none (ok no_loan) clock).0;
}

-- Two seconds after 1970.
abbrev later : ℕ → ℕ
later i = 2000000000
