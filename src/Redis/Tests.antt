-- ===== src/Redis/Tests.antt =====
-- Runs of the Redis store of pkg/store/redis/redis.go.
use valve.Common.{ℕ, ◌<◌, pos, Bytes, List, [], ◌∷◌, arith, refl, ◌≡◌, false, ◌*◌, ◌+◌, ◌≤◌}
use valve.Api.{Key, Limits, Cost, err, Error, split}
use valve.Bucket.Whole.{IsWholeRate, IsSmall, IsSmallCost, IsSmallSpec}
use valve.Memory.State.{new}
use valve.Store.{BorrowSpec}
use valve.Redis.Lua.{no_hashes}
use valve.Redis.Lua.Run.{Rest}
use valve.Memory.Valid.Loans.{IsNonneg}
use valve.Redis.Rate.{granted_by_all, span, redis_rate}
use valve.Redis.Agree.Mirror.Histories.{
  Event, Call, AllSame, AllExact, redis_run, memory_run, histories_agree, redis_after,
}

abbrev key : Key
key = record { subject = b'a' ∷ []; model = [] }

abbrev limits : Limits
limits = record {
  requests_per_minute = pos 60;
  tokens_per_minute = pos 6000;
  input_tokens_per_minute = pos 0;
  output_tokens_per_minute = pos 0;
}

abbrev cost : Cost
cost = record { requests = pos 60; tokens = pos 3600; input_tokens = pos 0; output_tokens = pos 0 }

abbrev x : Bytes
x = b'x' ∷ []

abbrev spec : BorrowSpec
spec = record {
  min_rpm = pos 60;
  min_tpm = pos 600;
  min_itpm = pos 0;
  min_otpm = pos 0;
  chunk_rpm = pos 60;
  chunk_tpm = pos 1200;
  chunk_itpm = pos 0;
  chunk_otpm = pos 0;
}

-- A reservation that is settled with an overshoot, once more settled, and cannot be refunded; a loan
-- in the next minute, part of which comes back; and a settlement that comes too late.
abbrev events : List Event
events =
    record { now = 1000000000; call = Call.check cost x }
    ∷ record { now = 1000000000; call = Call.settle x (pos 9600) }
    ∷ record { now = 2000000000; call = Call.settle x (pos 0) }
    ∷ record { now = 2000000000; call = Call.refund x }
    ∷ record { now = 2000000000; call = Call.settle_io x (pos 1) (pos 1) }
    ∷ record { now = 62000000000; call = Call.borrow spec }
    ∷ record { now = 62000000000; call = Call.return_credits (pos 60) (pos 300) (pos 0) (pos 0) }
    ∷ record { now = 950000000000; call = Call.settle x (pos 1) }
    ∷ []

abbrev rest : Rest
rest h now script keys args = (h, err (Error.store_failure []))

limits-split : split limits ≡ false
unfolding split
limits-split = refl

-- A limit of so many a second.
rate : (k : ℕ) → 60 * k < 1000000000000 → IsWholeRate (pos (60 * k))
rate k h = record {
  per_second = k;
  is_rate = refl;
  small = record { above = h; below = omega arith };
}

small : (n : ℕ) → n < 1000000000000 → IsSmall (pos n)
small n h = record { above = h; below = omega arith }

cost_small : IsSmallCost cost
cost_small = record { requests = small 60 (omega arith); tokens = small 3600 (omega arith) }

spec_small : IsSmallSpec spec
spec_small = record {
  min_rpm = small 60 (omega arith);
  min_tpm = small 600 (omega arith);
  chunk_rpm = small 60 (omega arith);
  chunk_tpm = small 1200 (omega arith);
}

events_exact : AllExact events
events_exact = (
  refl,
  cost_small,
  (
    refl,
    small 9600 (omega arith),
    (
      refl,
      small 0 (omega arith),
      (
        refl,
        tt,
        (
          refl,
          (small 1 (omega arith), small 1 (omega arith)),
          (
            refl,
            spec_small,
            (
              refl,
              (small 60 (omega arith), small 300 (omega arith)),
              (refl, small 1 (omega arith), tt),
            ),
          ),
        ),
      ),
    ),
  ),
)

histories_agree_example :
    AllSame (redis_run key limits rest no_hashes events) (memory_run key limits new events)
histories_agree_example =
    histories_agree key limits rest (omega arith) (omega arith) limits-split events
      (rate 1 (omega arith)) (rate 100 (omega arith)) events_exact (omega arith)

-- Two requests after all that, one minute apart.
abbrev more : List Event
more =
    record { now = 1000000000000; call = Call.check cost x }
    ∷ record { now = 1060000000000; call = Call.check cost x }
    ∷ []

limits-IsNonneg : IsNonneg limits
limits-IsNonneg = record {
  requests = omega arith;
  tokens = omega arith;
  input = omega arith;
  output = omega arith;
}

redis_rate_example :
    60000
      * granted_by_all more
          (redis_run key limits rest (redis_after key limits rest no_hashes events) more)
    ≤ (60000 + span 1000000 more) * 60
redis_rate_example =
    redis_rate key limits rest (omega arith) (omega arith) limits-split limits-IsNonneg events more
      1000000 (omega arith) (omega arith) (omega arith) (tt, (tt, tt))
