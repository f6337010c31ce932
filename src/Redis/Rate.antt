-- ===== src/Redis/Rate.antt =====
-- The rate of requests that the Redis store of pkg/store/redis admits at one key.
use valve.Common.{
  ℕ, ◌+◌, ◌-◌, ◌*◌, ◌≤◌, ◌<◌, pos, pos_part, ◌<ℤ◌, ◌≡◌, refl, ap, ◌∙◌, false, arith, bytes_eq_refl,
  List, [], ◌∷◌, if◌then◌else◌,
}
use valve.Api.{Key, Limits, Decision, Result, ok, err, split}
use valve.Memory.State.{Store, new, bucket_key, unix_milli}
use valve.Memory.Admission.{was_allowed}
use valve.Memory.History
use valve.Memory.History.{step}
use valve.Memory.Valid.{IsValid, IsSoundStore-later}
use valve.Memory.Valid.Calls.{step-IsValid, IsSane, Reach-IsValid, start}
use valve.Memory.Valid.Loans.{IsNonneg}
use valve.Memory.Rate
use valve.Memory.Rate.{granted, granted_all, IsMetered, AreMetered, elapsed, check_rate}
use valve.Redis.Lua.{no_hashes}
use valve.Redis.Lua.Run.{Rest}
use valve.Redis.Agree.Answers.{SameAnswer}
use valve.Redis.Agree.Mirror.{Mirrors-later}
use valve.Redis.Agree.Mirror.Histories.{
  Call, Event, Answer, InOrder, AreSame, AllSame, end, memory_step, memory_run, memory_after,
  redis_run, redis_after, answers_agree, after-Mirrors, no_hashes-Mirrors,
}

-- The requests that an answer grants a call.
abbrev pub granted_by : Call → Answer → ℕ
granted_by (Call.check cost id) (Answer.verdict r) =
    if was_allowed r then pos_part cost.requests else 0
granted_by c a = 0

abbrev pub granted_by_all : List Event → List Answer → ℕ
granted_by_all (e ∷ es) (a ∷ xs) = granted_by e.call a + granted_by_all es xs
granted_by_all _ _ = 0

-- The call brings no requests back and lends none.
abbrev pub IsSpent : Call → Type 0
IsSpent (Call.check cost id) = Unit {0}
IsSpent (Call.settle id x) = Unit {0}
IsSpent (Call.settle_io id x y) = Unit {0}
IsSpent c = ⊥

abbrev pub AreSpent : List Event → Type 0
AreSpent [] = Unit {0}
AreSpent (e ∷ es) = IsSpent e.call × AreSpent es

-- The milliseconds from t to the last call.
abbrev pub span : ℕ → List Event → ℕ
span t [] = 0
span t (e ∷ es) = (unix_milli e.now - t) + span (unix_milli e.now) es

same_allowed : (a b : Result Decision) → SameAnswer a b → was_allowed a ≡ was_allowed b
same_allowed (ok d) (ok e) s = s.allowed
same_allowed (err d) (err e) s = refl
same_allowed (ok d) (err e) s = elim s [ ]
same_allowed (err d) (ok e) s = elim s [ ]

same_granted : (c : Call) (a b : Answer) → IsSpent c → AreSame a b → granted_by c a ≡ granted_by c b
same_granted (Call.check cost id) (Answer.verdict a) (Answer.verdict b) v s =
    rw (same_allowed a b s) refl
same_granted (Call.check cost id) (Answer.verdict a) (Answer.lent b) v s = elim s [ ]
same_granted (Call.check cost id) (Answer.verdict a) (Answer.done b) v s = elim s [ ]
same_granted (Call.check cost id) (Answer.lent a) b v s = lent_nothing b s
  where
    lent_nothing : (b : Answer) → AreSame (Answer.lent a) b → 0 ≡ granted_by (Call.check cost id) b
    lent_nothing (Answer.verdict b) s = elim s [ ]
    lent_nothing (Answer.lent b) s = refl
    lent_nothing (Answer.done b) s = refl
same_granted (Call.check cost id) (Answer.done a) b v s = done_nothing b s
  where
    done_nothing : (b : Answer) → AreSame (Answer.done a) b → 0 ≡ granted_by (Call.check cost id) b
    done_nothing (Answer.verdict b) s = elim s [ ]
    done_nothing (Answer.lent b) s = refl
    done_nothing (Answer.done b) s = refl
same_granted (Call.settle id x) a b v s = refl
same_granted (Call.settle_io id x y) a b v s = refl
same_granted (Call.refund id) a b v s = elim v [ ]
same_granted (Call.borrow spec) a b v s = elim v [ ]
same_granted (Call.return_credits p q x y) a b v s = elim v [ ]

same_granted_all :
    (es : List Event) (xs ys : List Answer)
    → AreSpent es
    → AllSame xs ys
    → granted_by_all es xs ≡ granted_by_all es ys
same_granted_all [] xs ys v s = refl
same_granted_all (e ∷ es) [] [] v s = refl
same_granted_all (e ∷ es) [] (b ∷ ys) v s = elim s [ ]
same_granted_all (e ∷ es) (a ∷ xs) [] v s = elim s [ ]
same_granted_all (e ∷ es) (a ∷ xs) (b ∷ ys) (v, vs) (s, ss) =
    omega (arith, same_granted e.call a b v s, same_granted_all es xs ys vs ss)

IsValid-later : (s : Store) (t u : ℕ) → t ≤ u → IsValid t s → IsValid u s
IsValid-later s t u le v = record {
  buckets = IsSoundStore-later s t u le v.buckets;
  payable = v.payable;
}

module _ (key : Key) (limits : Limits) where
  abbrev as_call : Call → History.Call
  as_call (Call.check cost id) = History.Call.checks key limits cost id
  as_call (Call.settle id x) = History.Call.settles id x
  as_call (Call.settle_io id x y) = History.Call.settles_io id x y
  as_call (Call.refund id) = History.Call.refunds id
  as_call (Call.borrow spec) = History.Call.borrows key limits spec
  as_call (Call.return_credits a b c d) = History.Call.returns key limits a b c d

  abbrev as_events : List Event → List Rate.Event
  as_events [] = []
  as_events (e ∷ es) = (e.now, as_call e.call) ∷ as_events es

  step_same :
      (s : Store) (now : ℕ) (c : Call) → (memory_step key limits s now c).0 ≡ step s now (as_call c)
  unfolding step
  step_same s now (Call.check cost id) = refl
  step_same s now (Call.settle id x) = refl
  step_same s now (Call.settle_io id x y) = refl
  step_same s now (Call.refund id) = refl
  step_same s now (Call.borrow spec) = refl
  step_same s now (Call.return_credits a b c d) = refl

  sane : (c : Call) → IsNonneg limits → IsSane (as_call c)
  sane (Call.check cost id) n = tt
  sane (Call.settle id x) n = tt
  sane (Call.settle_io id x y) n = tt
  sane (Call.refund id) n = tt
  sane (Call.borrow spec) n = tt
  sane (Call.return_credits a b c d) n = n

  memory_after-IsValid :
      (es : List Event) (t : ℕ) (s : Store)
      → IsNonneg limits
      → InOrder t es
      → IsValid t s
      → IsValid (end t es) (memory_after key limits s es)
  memory_after-IsValid [] t s n o v = v
  memory_after-IsValid (e ∷ es) t s n (le, at, o) v =
      memory_after-IsValid es (unix_milli e.now) (memory_step key limits s e.now e.call).0 n o (
        rw (step_same s e.now e.call)
          (step-IsValid s t e.now (as_call e.call) v le (sane e.call n)))

  counted :
      (s : Store) (now : ℕ) (c : Call)
      → IsSpent c
      → granted_by c (memory_step key limits s now c).1 ≡ granted (bucket_key key) s now (as_call c)
  counted s now (Call.check cost id) v = rw (bytes_eq_refl (bucket_key key)) refl
  counted s now (Call.settle id x) v = refl
  counted s now (Call.settle_io id x y) v = refl
  counted s now (Call.refund id) v = elim v [ ]
  counted s now (Call.borrow spec) v = elim v [ ]
  counted s now (Call.return_credits p q x y) v = elim v [ ]

  counted_all :
      (es : List Event) (s : Store)
      → AreSpent es
      → granted_by_all es (memory_run key limits s es)
        ≡ granted_all (bucket_key key) s (as_events es)
  counted_all [] s v = refl
  counted_all (e ∷ es) s (v, vs) =
      let rest = counted_all es (memory_step key limits s e.now e.call).0 vs in
      let one = counted s e.now e.call v in
      omega (
        arith,
        one,
        rest ∙ ap (λ s'. granted_all (bucket_key key) s' (as_events es)) (step_same s e.now e.call),
      )

  metered :
      (c : Call) → IsSpent c → IsMetered (bucket_key key) limits.requests_per_minute (as_call c)
  metered (Call.check cost id) v = λ e. refl
  metered (Call.settle id x) v = tt
  metered (Call.settle_io id x y) v = tt
  metered (Call.refund id) v = elim v [ ]
  metered (Call.borrow spec) v = elim v [ ]
  metered (Call.return_credits p q x y) v = elim v [ ]

  metered_all :
      (es : List Event) (t : ℕ)
      → InOrder t es
      → AreSpent es
      → AreMetered (bucket_key key) limits.requests_per_minute t (as_events es)
  metered_all [] t o v = tt
  metered_all (e ∷ es) t (le, at, o) (v, vs) =
      (le, metered e.call v, metered_all es (unix_milli e.now) o vs)

  span_same : (es : List Event) (t : ℕ) → elapsed t (as_events es) ≡ span t es
  span_same [] t = refl
  span_same (e ∷ es) t = omega (arith, span_same es (unix_milli e.now))

end_pos : (es : List Event) (t : ℕ) → 0 < t → InOrder t es → 0 < end t es
end_pos [] t p o = p
end_pos (e ∷ es) t p (le, at, o) = end_pos es (unix_milli e.now) (omega arith) o

-- After any row of calls at a key under classic limits that are positive, where no limit is
-- negative, at times in whole milliseconds that are past the first one of 1970 and do not go
-- back: in any row of `Check`, `Settle` and `SettleIO` calls that follows, in m milliseconds from
-- a time t on, the requests that a Redis server which runs the scripts grants are at most the
-- limit and the share m / 60000 of it.
pub redis_rate :
    (key : Key) (limits : Limits) (rest : Rest)
    → pos 0 <ℤ limits.requests_per_minute
    → pos 0 <ℤ limits.tokens_per_minute
    → split limits ≡ false
    → IsNonneg limits
    → (before es : List Event) (t : ℕ) → InOrder 1 before
    → end 1 before ≤ t
    → InOrder t es
    → AreSpent es
    → 60000
        * granted_by_all es
            (redis_run key limits rest (redis_after key limits rest no_hashes before) es)
      ≤ (60000 + span t es) * pos_part limits.requests_per_minute
redis_rate key limits rest cr ct classic n before es t o le o' spent =
    let h = redis_after key limits rest no_hashes before in
    let s = memory_after key limits new before in
    let p : 0 < t = omega (arith, end_pos before 1 (omega arith) o) in
    let start_same = no_hashes-Mirrors key limits rest cr ct classic in
    let v = Mirrors-later key limits (end 1 before) t h s cr ct le (
      after-Mirrors key limits rest cr ct classic before 1 no_hashes new (omega arith) o
        start_same) in
    let valid =
      IsValid-later s (end 1 before) t le
        (memory_after-IsValid key limits before 1 new n o (Reach-IsValid (start 1))) in
    let same = answers_agree key limits rest cr ct classic es t h s p o' v in
    rw (same_granted_all es _ _ spent same, counted_all key limits es s spent)
      (rw (span_same key limits es t) at (
        check_rate (bucket_key key) limits.requests_per_minute cr (as_events key limits es) s t p
          valid (metered_all key limits es t o' spent)))
