-- ===== src/Limiter/Backing.antt =====
-- What the fast path of pkg/limiter/limiter.go admits, and the leases that pay for it.
use valve.Common.{
  ℕ, add64, ltb, ◌⊎◌, ◌≡◌, refl, ap, ◌∙◌, sym, arith, Bytes, bytes_eq_refl, Option, none, some,
  true, false, Bool-cases, inl, inr,
}
use valve.Api.{Key, Limits, Cost, Decision, LimitType, Duration, ok, err, is_partial, Error}
use valve.Store.{BorrowSpec, BorrowResult}
use valve.Lease.Pool.{
  Pool, LocalBucket, try_debit, note_borrow, empty_bucket, lease_to_credit, credit_lease,
}
use valve.Lease.DenyCache.{cache_key}
use valve.Lease.DenyCache
use valve.Limiter.Backend.{Backend, Limiter}
use valve.Limiter.Check.{
  check_borrow, check_lease, check_fresh, check, check_fast, from, borrow_spec,
}
use valve.Limiter.Decide.{deny_decision}
use valve.Memory.Check.{clamp_all}
use valve.Limiter.Debited.{HasBacking}
use valve.Limiter.Paid.{
  IsPaid, Holds, credited, denied, on_store_err_fast-IsBacked, use_loan-IsBacked, debit-IsPaid,
  debit-Holds,
}

-- A lease that the store's loan fills: the one that the pool had, or an empty one, with what the
-- store granted to a request for at least the cost.
abbrev pub IsLoan :
    (B : Backend) → Limiter B.Store → Pool → Key → Limits → Cost → LocalBucket → Type 0
IsLoan B l p key limits cost b =
    (c : LocalBucket) × (br : BorrowResult) × (spec : BorrowSpec) × (now : ℕ) × ((c ≡ empty_bucket)
      ⊎ (p.lease (cache_key key) ≡ some c))
    × ((B.borrow l.store now key limits spec).1 ≡ ok br)
    × (br.allowed ≡ true)
    × (spec.min_rpm ≡ cost.requests)
    × (spec.min_tpm ≡ cost.tokens)
    × (spec.min_itpm ≡ cost.input_tokens)
    × (spec.min_otpm ≡ cost.output_tokens)
    × (b.rpm ≡ add64 c.rpm br.got_rpm)
    × (b.tpm ≡ add64 c.tpm br.got_tpm)
    × (b.itpm ≡ add64 c.itpm br.got_itpm)
    × (b.otpm ≡ add64 c.otpm br.got_otpm)

-- The leases that a call of `Check` can debit: the one of the key in the pool, or a loan.
abbrev pub IsAvailable :
    (B : Backend) → Limiter B.Store → Pool → Key → Limits → Cost → LocalBucket → Type 0
IsAvailable B l p key limits cost b =
    (p.lease (cache_key key) ≡ some b) ⊎ IsLoan B l p key limits cost b

credited_lease :
    (o : Option LocalBucket) (now : ℕ)
    → (lease_to_credit o now ≡ empty_bucket) ⊎ (o ≡ some (lease_to_credit o now))
unfolding lease_to_credit
credited_lease none now = inl refl
credited_lease (some b) now = elim (Bool-cases (ltb now b.expires_at)) [
  | inl live ↦ rw live (inr refl)
  | inr over ↦ rw over (inl refl)
]

some_injective : {A : Type 0} {a b : A} → some a ≡ some b → a ≡ b
some_injective h = ground arith

module _ (B : Backend) (l : Limiter B.Store) (p0 : Pool) (key : Key) (limits : Limits)
    (cost : Cost) where
  open B use {Store}

  abbrev Had : LocalBucket → Type 0
  Had = IsAvailable B l p0 key limits cost

  -- A pool whose lease of the key, if any, is the one of the start.
  abbrev Was : Pool → Type 0
  Was = Holds (λ b. p0.lease (cache_key key) ≡ some b) key limits cost

  Was-Holds : (q : Pool) → Was q → Holds Had key limits cost q
  Was-Holds q w b e = inl (w b e)

  from_start :
      (q : Pool) (now : ℕ)
      → Was q
      → let c = lease_to_credit (q.lease (cache_key key)) now in
        (c ≡ empty_bucket) ⊎ (p0.lease (cache_key key) ≡ some c)
  from_start q now w = elim (credited_lease (q.lease (cache_key key)) now) [
    | inl e ↦ inl e
    | inr e ↦ inr (w _ e)
  ]

  loan_available :
      (q : Pool) (br : BorrowResult) (now later : ℕ)
      → Was q
      → (B.borrow l.store now key limits (borrow_spec q cost)).1 ≡ ok br
      → br.allowed ≡ true
      → Holds Had key limits cost (credited Had key limits cost q br later)
  unfolding credit_lease
  loan_available q br now later w lent granted b e =
      let same = some_injective (rw (bytes_eq_refl (cache_key key)) at e) in
      inr (
        lease_to_credit (q.lease (cache_key key)) later,
        br,
        borrow_spec q cost,
        now,
        from_start q later w,
        lent,
        granted,
        refl,
        refl,
        refl,
        refl,
        ap (λ (x : LocalBucket). x.rpm) (sym same),
        ap (λ (x : LocalBucket). x.tpm) (sym same),
        ap (λ (x : LocalBucket). x.itpm) (sym same),
        ap (λ (x : LocalBucket). x.otpm) (sym same),
      )

  -- A limiter's decision that a lease paid for.
  abbrev IsBackedBy : Limiter Store × Decision → Type 0
  IsBackedBy (l', d) =
      d.allowed ≡ true → (p : Pool) × (l'.pool ≡ some p) × HasBacking Had p d key limits cost

  lease_or_else :
      (x : Pool × Option Decision) (y : Limiter Store × Decision)
      → IsPaid Had key limits cost x
      → (x.1 ≡ none → IsBackedBy y)
      → IsBackedBy (elim x.1 [ some d ↦ (record l { pool = some x.0 }, d) | none ↦ y ])
  lease_or_else (p, some d) y paid backed h = (p, refl, paid)
  lease_or_else (p, none) y paid backed h = backed refl h

  check_borrow_backed :
      (p : Pool) (id : Bytes) (again : Option Bytes) (clock : ℕ → ℕ)
      → Was p
      → IsBackedBy (check_borrow B l p key limits cost id again clock)
  unfolding check_borrow note_borrow
  check_borrow_backed p id again clock w h =
      let (s, result) = B.borrow l.store (clock 0) key limits (borrow_spec p cost) in
      (
        _,
        refl,
        use_loan-IsBacked Had key limits cost l.fail_mode (note_borrow p) id again result
            (from 1 clock) (Was-Holds (note_borrow p) w)
            (λ br lent granted.
              loan_available (note_borrow p) br (clock 0) (clock 1) w lent granted)
            h,
      )

  check_fresh_backed :
      (p : Pool) (id again : Option Bytes) (clock : ℕ → ℕ)
      → Was p
      → IsBackedBy (check_fresh B l p key limits cost id again clock)
  unfolding check_fresh check_lease
  check_fresh_backed p none again clock w h = (
    _,
    refl,
    on_store_err_fast-IsBacked Had key limits cost l.fail_mode p again clock (Was-Holds p w) h,
  )
  check_fresh_backed p (some id) again clock w h =
      let x = try_debit p key limits cost id (clock 0) in
      lease_or_else x _ (debit-IsPaid Had key limits cost p id (clock 0) (Was-Holds p w))
        (λ missed. check_borrow_backed x.0 id again (from 1 clock) (
          debit-Holds (λ b. p0.lease (cache_key key) ≡ some b) key limits cost p id (clock 0) w
            missed))
        h

  cached_or_else :
      (l' : Limiter Store) (hit : Option (LimitType × Duration)) (y : Limiter Store × Decision)
      → IsBackedBy y
      → IsBackedBy (elim hit [ some (lt, retry) ↦ (l', deny_decision limits lt retry) | none ↦ y ])
  cached_or_else l' (some (lt, retry)) y backed = λ h. denied Had key limits cost lt retry h
  cached_or_else l' none y backed = backed

check_fast_backed :
    (B : Backend) (l : Limiter B.Store) (p : Pool) (key : Key) (limits : Limits) (cost : Cost)
    (id again : Option Bytes) (clock : ℕ → ℕ)
    → IsBackedBy B l p key limits (clamp_all cost) (check_fast B l p key limits cost id again clock)
unfolding check_fast
check_fast_backed B l p key limits cost id again clock =
    let (deny, hit) = DenyCache.get p.deny key (clock 0) in
    let p' : Pool = record p { deny = deny } in
    cached_or_else B l p key limits (clamp_all cost) (record l { pool = some p' }) hit _
      (check_fresh_backed B l p key limits (clamp_all cost) p' id again (from 1 clock) (λ b e. e))

ok_injective : {A : Type 0} {a b : A} → ok a ≡ ok b → a ≡ b
ok_injective h = ground arith

err_ok : {A X : Type 0} {a : A} {e : Error} → err e ≡ ok a → X
err_ok h = ground arith

module _ (B : Backend) (l : Limiter B.Store) (p : Pool) (key : Key) (limits : Limits) (cost : Cost)
    (id again : Option Bytes) (clock : ℕ → ℕ) where
  pub checks_fast :
      l.pool ≡ some p
      → is_partial limits ≡ false
      → check B l key limits cost id again clock
        ≡ (let (l', d) = check_fast B l p key limits cost id again clock in (l', ok d))
  unfolding check check_fast check_fresh check_lease check_borrow
  checks_fast e whole = rw whole (rw e refl)

  partial_errs :
      is_partial limits ≡ true
      → check B l key limits cost id again clock ≡ (l, err Error.partial_split)
  unfolding check
  partial_errs part = rw part refl

  never_partial :
      {d : Decision}
      → (check B l key limits cost id again clock).1 ≡ ok d
      → is_partial limits ≡ false
  never_partial h = elim (Bool-cases (is_partial limits)) [
    | inl part ↦ err_ok (sym (ap (λ x. x.1) (partial_errs part)) ∙ h)
    | inr whole ↦ whole
  ]

-- Whatever the store answers, errors and loans included, a limiter with leases admits a request
-- only with a pending reservation of its cost in the pool, under the decision's identifier, and with
-- the cost debited from a lease that covered it. That lease is the one that the pool held for the
-- key, or it is that one, or an empty one, filled by a loan of the store that was asked for at least
-- the cost and granted. So it is in either fail mode.
pub check_allowed_backed :
    (B : Backend) (l : Limiter B.Store) (p : Pool) (key : Key) (limits : Limits) (cost : Cost)
    (id again : Option Bytes) (clock : ℕ → ℕ) (d : Decision)
    → l.pool ≡ some p
    → (check B l key limits cost id again clock).1 ≡ ok d
    → d.allowed ≡ true
    → (p' : Pool) × ((check B l key limits cost id again clock).0.pool ≡ some p')
      × HasBacking (IsAvailable B l p key limits (clamp_all cost)) p' d key limits (clamp_all cost)
unfolding check
check_allowed_backed B l p key limits cost id again clock d e done yes_it_is =
    let runs =
      checks_fast B l p key limits cost id again clock e
        (never_partial B l p key limits cost id again clock done) in
    let same = ok_injective (sym (ap (λ x. x.1) runs) ∙ done) in
    rw runs (
      rw (sym same) (
        check_fast_backed B l p key limits cost id again clock
          (ap (λ x. x.allowed) same ∙ yes_it_is)))
