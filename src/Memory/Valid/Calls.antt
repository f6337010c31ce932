-- ===== src/Memory/Valid/Calls.antt =====
-- Every history of calls keeps the invariant of the memory store.
use valve.Common.{ℕ, ◌≤◌, arith}
use valve.Bucket.Whole.{AllWhole, IsSecond}
use valve.Memory.State.{Store, new, unix_milli}
use valve.Memory.History.{Call, step}
use valve.Memory.Valid.{IsValid, IsSoundStore-later}
use valve.Memory.Valid.Checks.{check-IsValid}
use valve.Memory.Valid.Settles.{settle-IsValid, settle_io-IsValid, refund-IsValid}
use valve.Memory.Valid.Loans.{IsNonneg, borrow-IsValid, return-IsValid}

-- Credits come back under limits that are not negative.
abbrev pub IsSane : Call → Type 0
IsSane (Call.returns key limits a b c d) = IsNonneg limits
IsSane c = Unit {0}

-- Every call keeps the invariant, as long as the clock does not go back. Only `Return` asks for
-- more: it adds to a bucket of a negative capacity.
pub step-IsValid :
    (s : Store) (t_ms now : ℕ) (c : Call)
    → IsValid t_ms s
    → t_ms ≤ unix_milli now
    → IsSane c
    → IsValid (unix_milli now) (step s now c)
unfolding step
step-IsValid s t now c v le sane = go c sane
  where
    w : IsValid (unix_milli now) s
    w = record {
      buckets = IsSoundStore-later s t (unix_milli now) le v.buckets;
      payable = v.payable;
    }

    go : (c : Call) → IsSane c → IsValid (unix_milli now) (step s now c)
    go (Call.checks key limits cost id) h = check-IsValid s now w key limits cost id
    go (Call.settles id x) h = settle-IsValid s now w id x
    go (Call.settles_io id x y) h = settle_io-IsValid s now w id x y
    go (Call.refunds id) h = refund-IsValid s now w id
    go (Call.borrows key limits spec) h = borrow-IsValid s now key limits w spec
    go (Call.returns key limits a b c d) h = return-IsValid s now key limits w a b c d h

-- The limits of a call are whole rates.
abbrev pub HasWholeRates : Call → Type 0
HasWholeRates (Call.checks key limits cost id) = AllWhole limits
HasWholeRates (Call.borrows key limits spec) = AllWhole limits
HasWholeRates (Call.returns key limits a b c d) = AllWhole limits
HasWholeRates c = Unit {0}

-- The stores that histories of sane calls lead to, with the time in milliseconds of the last call.
-- The calls come at whole seconds and at whole rates, where the code computes exactly.
pub data Reach : ℕ → Store → Type 0 where
  start : (t_ms : ℕ) → Reach t_ms new
  next :
      {t_ms : ℕ} {s : Store} (r : Reach t_ms s) (now : ℕ) (c : Call)
      → t_ms ≤ unix_milli now
      → IsSane c
      → IsSecond now
      → HasWholeRates c
      → Reach (unix_milli now) (step s now c)

-- Whatever its clients call at whole seconds and under limits that are whole numbers a second, below
-- 10 ^ 12 a minute, as long as the clock does not go back and credits come back under limits that
-- are not negative, no bucket of the store is ever in debt or ahead of the clock, and no reservation
-- has a negative limit or cost.
pub Reach-IsValid : {t_ms : ℕ} {s : Store} → Reach t_ms s → IsValid t_ms s
Reach-IsValid (start t_ms) = record {
  buckets = record {
    rpm = λ k b e. ground arith;
    tpm = λ k b e. ground arith;
    itpm = λ k b e. ground arith;
    otpm = λ k b e. ground arith;
  };
  payable = λ id r e. ground arith;
}
Reach-IsValid (next {t_ms} {s} r now c le sane at_second rates) =
    step-IsValid s t_ms now c (Reach-IsValid r) le sane
