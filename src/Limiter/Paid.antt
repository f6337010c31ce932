-- ===== src/Limiter/Paid.antt =====
-- The fast path of pkg/limiter/limiter.go over the pool: what a debit, a loan and an error leave
-- there.
use valve.Common.{
  ℕ, ltb, ◌≡◌, refl, arith, Bytes, bytes_eq_refl, Option, none, some, Bool, true, false, Bool-cases,
  inl, inr, if◌then◌else◌,
}
use valve.Api.{
  Key, Limits, Cost, Decision, FailMode, fail_open, fail_closed, LimitType, Duration, Result, ok,
  err, split,
}
use valve.Store.{BorrowResult}
use valve.Lease.Pool.{
  Pool, LocalBucket, try_debit, debit_found, debit_lease, debit_decision, covers, has, credit_lease,
  debited, lease_end, get_lease, get_found, purge_res,
}
use valve.Lease.DenyCache.{cache_key}
use valve.Limiter.Debited.{HasBacking, debited-Debits}
use valve.Lease.Spend.{pending_of}
use valve.Limiter.Check.{spend_on_err, on_store_err_fast, spend_loan, use_loan}
use valve.Limiter.Decide.{deny_decision, borrow_deny_decision}

either : {A : Type 0} (P : A → Type 0) (c : Bool) {x y : A} → P x → P y → P (if c then x else y)
either P true h k = h
either P false h k = k

if_true :
    {A : Type 0} (P : A → Type 0) (c : Bool) {x y : A}
    → (c ≡ true → P x)
    → P y
    → P (if c then x else y)
if_true P true h k = h refl
if_true P false h k = k

-- `Had` says which leases there were.
module _ (Had : LocalBucket → Type 0) (key : Key) (limits : Limits) (cost : Cost) where
  -- Any lease of the key in the pool is one of them.
  abbrev pub Holds : Pool → Type 0
  Holds p = (b : LocalBucket) → p.lease (cache_key key) ≡ some b → Had b

  abbrev pub IsBacked : Pool × Decision → Type 0
  IsBacked (p, d) = d.allowed ≡ true → HasBacking Had p d key limits cost

  pub denied :
      {A : Type 0} (lt : LimitType) (retry : Duration)
      → (deny_decision limits lt retry).allowed ≡ true
      → A
  unfolding deny_decision
  denied lt retry h = ground arith

  denied_borrow :
      {A : Type 0} (br : BorrowResult) → (borrow_deny_decision limits br).allowed ≡ true → A
  unfolding borrow_deny_decision
  denied_borrow br h = ground arith

  decision_id :
      (b : LocalBucket) (s : Bool) (id : Bytes) → (debit_decision b limits s id).reservation_id ≡ id
  unfolding debit_decision
  decision_id b true id = refl
  decision_id b false id = refl

  -- A debit that succeeds is backed.
  abbrev pub IsPaid : Pool × Option Decision → Type 0
  IsPaid (p, some d) = HasBacking Had p d key limits cost
  IsPaid (p, none) = Unit {0}

  lease_backed :
      (p : Pool) (b : LocalBucket) (id : Bytes) (now : ℕ)
      → Had b
      → covers (some b) cost (split limits) ≡ true
      → let (p', d) = debit_lease p b key limits cost id now in HasBacking Had p' d key limits cost
  unfolding debit_lease
  lease_backed p b id now had enough = (
    (
      pending_of key limits cost now,
      rw (decision_id (debited b cost (split limits) (lease_end p now)) (split limits) id)
          (rw (bytes_eq_refl id) refl),
      refl,
      refl,
      refl,
      refl,
      refl,
      refl,
    ),
    (
      b,
      debited b cost (split limits) (lease_end p now),
      had,
      rw (bytes_eq_refl (cache_key key)) refl,
      debited-Debits (split limits) b cost (lease_end p now) enough,
    ),
  )

  abbrev AllHad : Option LocalBucket → Type 0
  AllHad o = (b : LocalBucket) → o ≡ some b → Had b

  debit_found-IsPaid :
      (p : Pool) (o : Option LocalBucket) (id : Bytes) (now : ℕ)
      → AllHad o
      → IsPaid (debit_found p o key limits cost id now)
  unfolding debit_found
  debit_found-IsPaid p none id now had = tt
  debit_found-IsPaid p (some b) id now had =
      elim (Bool-cases (covers (some b) cost (split limits))) [
        | inl enough ↦ rw enough (lease_backed p b id now (had b refl) enough)
        | inr short ↦ rw short tt
      ]

  -- Looking at the lease finds one that was there, or removes it.
  get_found-had :
      (p : Pool) (now : ℕ) (o : Option LocalBucket)
      → Holds p
      → AllHad o
      → AllHad (get_found p (cache_key key) now o).1 × Holds (get_found p (cache_key key) now o).0
  unfolding get_found
  get_found-had p now none h had = (had, h)
  get_found-had p now (some b) h had = elim (Bool-cases (ltb now b.expires_at)) [
    | inl live ↦ rw live (had, h)
    | inr over ↦
        rw over ((λ c e. ground arith), (λ c e. ground (arith, bytes_eq_refl (cache_key key))))
  ]

  -- A debit without success leaves no lease that was not there.
  debit_found-Holds :
      (p : Pool) (o : Option LocalBucket) (id : Bytes) (now : ℕ)
      → Holds p
      → (debit_found p o key limits cost id now).1 ≡ none
      → Holds (debit_found p o key limits cost id now).0
  unfolding debit_found
  debit_found-Holds p none id now h e = h
  debit_found-Holds p (some b) id now h e =
      elim (Bool-cases (covers (some b) cost (split limits))) [
        | inl enough ↦ absurd (let e' = rw enough at e in ground (arith, e'))
        | inr short ↦ rw short h
      ]

  pub debit-IsPaid :
      (p : Pool) (id : Bytes) (now : ℕ) → Holds p → IsPaid (try_debit p key limits cost id now)
  unfolding try_debit get_lease purge_res
  debit-IsPaid p id now h =
      debit_found-IsPaid _ _ id now (get_found-had (purge_res p now) now _ h h).0

  pub debit-Holds :
      (p : Pool) (id : Bytes) (now : ℕ)
      → Holds p
      → (try_debit p key limits cost id now).1 ≡ none
      → Holds (try_debit p key limits cost id now).0
  unfolding try_debit get_lease purge_res
  debit-Holds p id now h e =
      debit_found-Holds _ _ id now (get_found-had (purge_res p now) now _ h h).1 e

  -- The decision of a debit, or else one that is backed.
  or_else :
      (x : Pool × Option Decision) (y : Pool × Decision)
      → IsPaid x
      → IsBacked y
      → IsBacked (elim x.1 [ some d ↦ (x.0, d) | none ↦ y ])
  or_else (p, some d) y paid backed h = paid
  or_else (p, none) y paid backed h = backed h

  spend_on_err-IsBacked :
      (p : Pool) (id : Option Bytes) (now : ℕ)
      → Holds p
      → IsBacked (spend_on_err p key limits cost id now)
  unfolding spend_on_err
  spend_on_err-IsBacked p none now h = denied _ _
  spend_on_err-IsBacked p (some id) now h =
      or_else (try_debit p key limits cost id now) _ (debit-IsPaid p id now h) (denied _ _)

  has-Holds : (p : Pool) (now : ℕ) → Holds p → Holds (has p key cost limits now).0
  unfolding has get_lease
  has-Holds p now h = (get_found-had p now _ h h).1

  pub on_store_err_fast-IsBacked :
      (mode : FailMode) (p : Pool) (id : Option Bytes) (clock : ℕ → ℕ)
      → Holds p
      → IsBacked (on_store_err_fast mode p key limits cost id clock)
  unfolding on_store_err_fast
  on_store_err_fast-IsBacked fail_closed p id clock h = denied _ _
  on_store_err_fast-IsBacked fail_open p id clock h =
      either IsBacked (has p key cost limits (clock 0)).1
        (spend_on_err-IsBacked _ id (clock 1) (has-Holds p (clock 0) h)) (denied _ _)

  -- The pool after `CreditLease` of the loan.
  abbrev pub credited : Pool → BorrowResult → ℕ → Pool
  credited p br now = credit_lease p key limits br.got_rpm br.got_tpm br.got_itpm br.got_otpm now

  spend_loan-IsBacked :
      (p : Pool) (id : Bytes) (br : BorrowResult) (clock : ℕ → ℕ)
      → Holds (credited p br (clock 0))
      → IsBacked (spend_loan p key limits cost id br clock)
  unfolding spend_loan
  spend_loan-IsBacked p id br clock h =
      let p1 = credited p br (clock 0) in
      or_else (try_debit p1 key limits cost id (clock 1)) _ (debit-IsPaid p1 id (clock 1) h)
        (denied _ _)

  pub use_loan-IsBacked :
      (mode : FailMode) (p : Pool) (id : Bytes) (again : Option Bytes)
      (result : Result BorrowResult) (clock : ℕ → ℕ)
      → Holds p
      → ((br : BorrowResult) → result ≡ ok br → br.allowed ≡ true → Holds (credited p br (clock 0)))
      → IsBacked (use_loan mode p key limits cost id again result clock)
  unfolding use_loan
  use_loan-IsBacked mode p id again (err e) clock h loan =
      on_store_err_fast-IsBacked mode p again clock h
  use_loan-IsBacked mode p id again (ok br) clock h loan =
      if_true IsBacked br.allowed
        (λ yes_it_is. spend_loan-IsBacked p id br clock (loan br refl yes_it_is)) (denied_borrow br)
