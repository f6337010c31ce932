-- ===== src/Redis/Agree/Mirror/Histories.antt =====
-- Rows of calls at one key, on a Redis server and on the memory store.
use valve.Common.{ℕ, ◌<◌, ◌≤◌, ◌*◌, ℤ, pos, ◌<ℤ◌, ◌≡◌, false, arith, Bytes, none, List, [], ◌∷◌}
use valve.Api.{Key, Limits, Cost, Decision, Result, split}
use valve.Bucket.Whole.{IsWholeRate, IsSecond, IsSmall, IsSmallCost, IsSmallSpec}
use valve.Memory.State.{Store, new, unix_milli}
use valve.Memory.Check
use valve.Memory.Settle
use valve.Memory.Refund
use valve.Memory.Borrow
use valve.Memory.Return
use valve.Store.{BorrowSpec, BorrowResult}
use valve.Redis.Lua.{Hashes, no_hashes}
use valve.Redis.Lua.Run.{Rest, server}
use valve.Redis.Calls
use valve.Redis.Agree.Alike.{AreAlike_refl}
use valve.Redis.Agree.Answers.{SameAnswer}
use valve.Redis.Agree.Mirror.{Mirrors}
use valve.Redis.Agree.Mirror.Checks.{check-Mirrors}
use valve.Redis.Agree.Mirror.Settles.{settle-Mirrors}
use valve.Redis.Agree.Mirror.Misfits.{settle_io-Mirrors}
use valve.Redis.Agree.Mirror.Borrows.{borrow-Mirrors, return_credits-Mirrors}
use valve.Redis.Agree.Mirror.Refunds.{refund-Mirrors}

pub data Call : Type 0 where
  check : Cost → Bytes → Call
  settle : Bytes → ℤ → Call
  settle_io : Bytes → ℤ → ℤ → Call
  refund : Bytes → Call
  borrow : BorrowSpec → Call
  return_credits : ℤ → ℤ → ℤ → ℤ → Call

pub record Event : Type 0 where
  pub now : ℕ
  pub call : Call

pub data Answer : Type 0 where
  verdict : Result Decision → Answer
  lent : Result BorrowResult → Answer
  done : Result (Unit {0}) → Answer

-- The clock stands at whole milliseconds, from t on, and does not go back.
abbrev pub InOrder : ℕ → List Event → Type 0
InOrder t [] = Unit {0}
InOrder t (e ∷ es) =
    (t ≤ unix_milli e.now) × (e.now ≡ unix_milli e.now * 1000000) × InOrder (unix_milli e.now) es

abbrev pub AreSame : Answer → Answer → Type 0
AreSame (Answer.verdict a) (Answer.verdict b) = SameAnswer a b
AreSame (Answer.lent a) (Answer.lent b) = a ≡ b
AreSame (Answer.done a) (Answer.done b) = a ≡ b
AreSame _ _ = ⊥

-- The numbers of a call are small.
abbrev pub HasSmall : Call → Type 0
HasSmall (Call.check cost id) = IsSmallCost cost
HasSmall (Call.settle id actual) = IsSmall actual
HasSmall (Call.settle_io id input output) = IsSmall input × IsSmall output
HasSmall (Call.refund id) = Unit {0}
HasSmall (Call.borrow spec) = IsSmallSpec spec
HasSmall (Call.return_credits rpm tpm itpm otpm) = IsSmall rpm × IsSmall tpm

-- The calls come at whole seconds and with small numbers, where both stores compute exactly.
abbrev pub AllExact : List Event → Type 0
AllExact [] = Unit {0}
AllExact (e ∷ es) = IsSecond e.now × HasSmall e.call × AllExact es

-- The answers agree one by one.
abbrev pub AllSame : List Answer → List Answer → Type 0
AllSame [] [] = Unit {0}
AllSame (a ∷ xs) (b ∷ ys) = AreSame a b × AllSame xs ys
AllSame [] (b ∷ ys) = ⊥
AllSame (a ∷ xs) [] = ⊥

-- The time of the last call, in milliseconds, after the time t.
abbrev pub end : ℕ → List Event → ℕ
end t [] = t
end t (e ∷ es) = end (unix_milli e.now) es

module _ (key : Key) (limits : Limits) where
  abbrev pub memory_step : Store → ℕ → Call → Store × Answer
  memory_step s now (Call.check cost id) =
      let (s', r) = Check.check s now key limits cost id in (s', Answer.verdict r)
  memory_step s now (Call.settle id actual) =
      let (s', r) = Settle.settle s now id actual in (s', Answer.verdict r)
  memory_step s now (Call.settle_io id input output) =
      let (s', r) = Settle.settle_io s now id input output in (s', Answer.verdict r)
  memory_step s now (Call.borrow spec) =
      let (s', r) = Borrow.borrow s now key limits spec in (s', Answer.lent r)
  memory_step s now (Call.return_credits rpm tpm itpm otpm) =
      let (s', r) = Return.return_credits s now key limits rpm tpm itpm otpm in (s', Answer.done r)
  memory_step s now (Call.refund id) = let (s', r) = Refund.refund s now id in (s', Answer.done r)

  abbrev pub memory_run : Store → List Event → List Answer
  memory_run s [] = []
  memory_run s (e ∷ es) = let (s', a) = memory_step s e.now e.call in a ∷ memory_run s' es

  -- The store after a row of calls.
  abbrev pub memory_after : Store → List Event → Store
  memory_after s [] = s
  memory_after s (e ∷ es) = memory_after (memory_step s e.now e.call).0 es

  module _ (rest : Rest) where
    abbrev pub redis_step : Hashes → ℕ → Call → Hashes × Answer
    redis_step h now (Call.check cost id) =
        let (h', r) = Calls.check (server rest) h now key limits cost id in (h', Answer.verdict r)
    redis_step h now (Call.settle id actual) =
        let (h', r) = Calls.settle (server rest) h now id actual in (h', Answer.verdict r)
    redis_step h now (Call.settle_io id input output) =
        let (h', r) = Calls.settle_io (server rest) h now id input output in (h', Answer.verdict r)
    redis_step h now (Call.borrow spec) =
        let (h', r) = Calls.borrow (server rest) h now key limits spec in (h', Answer.lent r)
    redis_step h now (Call.return_credits rpm tpm itpm otpm) =
        let (h', r) = Calls.return_credits (server rest) h now key limits rpm tpm itpm otpm in
        (h', Answer.done r)
    redis_step h now (Call.refund id) =
        let (h', r) = Calls.refund (server rest) h now id in (h', Answer.done r)

    abbrev pub redis_run : Hashes → List Event → List Answer
    redis_run h [] = []
    redis_run h (e ∷ es) = let (h', a) = redis_step h e.now e.call in a ∷ redis_run h' es

    abbrev pub redis_after : Hashes → List Event → Hashes
    redis_after h [] = h
    redis_after h (e ∷ es) = redis_after (redis_step h e.now e.call).0 es

    module _ (cr : pos 0 <ℤ limits.requests_per_minute) (ct : pos 0 <ℤ limits.tokens_per_minute)
        (classic : split limits ≡ false) where
      step-Mirrors :
          (t now : ℕ) (c : Call) (h : Hashes) (s : Store)
          → 0 < t
          → t ≤ unix_milli now
          → now ≡ unix_milli now * 1000000
          → Mirrors key limits t h s
          → AreSame (redis_step h now c).1 (memory_step s now c).1
            × Mirrors key limits (unix_milli now) (redis_step h now c).0 (memory_step s now c).0
      step-Mirrors t now (Call.check cost id) h s p le at v =
          check-Mirrors rest key limits cr ct classic t now (omega arith) le at h s v cost id
      step-Mirrors t now (Call.settle id actual) h s p le at v =
          settle-Mirrors rest key limits cr ct t now (omega arith) le at h s v id actual
      step-Mirrors t now (Call.settle_io id input output) h s p le at v =
          settle_io-Mirrors rest key limits cr ct t now (omega arith) le at h s v id input output
      step-Mirrors t now (Call.borrow spec) h s p le at v =
          borrow-Mirrors rest key limits cr ct classic t now (omega arith) le at h s v spec
      step-Mirrors t now (Call.return_credits rpm tpm itpm otpm) h s p le at v =
          return_credits-Mirrors rest key limits cr ct classic t now (omega arith) le at h s v rpm
            tpm itpm otpm
      step-Mirrors t now (Call.refund id) h s p le at v =
          refund-Mirrors rest key limits cr ct t now (omega arith) le at h s v id

      pub answers_agree :
          (es : List Event) (t : ℕ) (h : Hashes) (s : Store)
          → 0 < t
          → InOrder t es
          → Mirrors key limits t h s
          → AllSame (redis_run h es) (memory_run s es)
      answers_agree [] t h s p o v = tt
      answers_agree (e ∷ es) t h s p (le, at, o) v =
          let (same, v') = step-Mirrors t e.now e.call h s p le at v in
          (
            same,
            answers_agree es (unix_milli e.now) (redis_step h e.now e.call).0
                (memory_step s e.now e.call).0 (omega arith) o v',
          )

      pub after-Mirrors :
          (es : List Event) (t : ℕ) (h : Hashes) (s : Store)
          → 0 < t
          → InOrder t es
          → Mirrors key limits t h s
          → Mirrors key limits (end t es) (redis_after h es) (memory_after s es)
      after-Mirrors [] t h s p o v = v
      after-Mirrors (e ∷ es) t h s p (le, at, o) v =
          after-Mirrors es (unix_milli e.now) (redis_step h e.now e.call).0
            (memory_step s e.now e.call).0 (omega arith) o
            (step-Mirrors t e.now e.call h s p le at v).1

      pub no_hashes-Mirrors : Mirrors key limits 1 no_hashes new
      no_hashes-Mirrors = record {
        rpm = AreAlike_refl limits.requests_per_minute cr none 1 tt;
        tpm = AreAlike_refl limits.tokens_per_minute ct none 1 tt;
        res = λ id. tt;
      }

      -- Whatever row of `Check`, `Settle`, `SettleIO`, `Refund`, `Borrow` and `Return` calls comes at
      -- a key under positive classic limits, at times that are past the first millisecond of 1970 and
      -- do not go back, an empty Redis server that runs the scripts answers each
      -- call as an empty memory store does, errors, loans and overshoots included, but for the
      -- times at which the buckets are full. The times are whole seconds, the limits whole numbers a
      -- second, and all numbers below 10 ^ 12, so that both compute exactly.
      pub histories_agree :
          (es : List Event)
          → IsWholeRate limits.requests_per_minute
          → IsWholeRate limits.tokens_per_minute
          → AllExact es
          → InOrder 1 es
          → AllSame (redis_run no_hashes es) (memory_run new es)
      histories_agree es requests tokens exact o =
          answers_agree es 1 no_hashes new (omega arith) o no_hashes-Mirrors
