-- ===== src/Limiter/Check.antt =====
-- `Check` of the limiter, directly and on the fast path.
use valve.Common.{ℕ, ◌+◌, if◌then◌else◌, Bytes, Option, none, some}
use valve.Api.{
  Key, Limits, Cost, Decision, LimitType, FailMode, fail_open, fail_closed, Result, ok, err, Error,
  is_partial,
}
use valve.Bucket.{second}
use valve.Store.{BorrowSpec, BorrowResult}
use valve.Lease.DenyCache
use valve.Lease.Pool.{Pool, try_debit, has, credit_lease, note_borrow}
use valve.Limiter.Backend.{Backend, Limiter}
use valve.Limiter.Decide.{deny_decision, borrow_deny_decision, on_store_err}
use valve.Memory.Check.{clamp_all}

-- The end of `onStoreErrFast`, with a lease that covers the cost.
unfoldable pub spend_on_err : Pool → Key → Limits → Cost → Option Bytes → ℕ → Pool × Decision
spend_on_err p key limits cost none now = (p, deny_decision limits LimitType.backend second)
spend_on_err p key limits cost (some id) now =
    let (p', d) = try_debit p key limits cost id now in
    elim d [ none ↦ (p', deny_decision limits LimitType.backend second) | some d ↦ (p', d) ]

-- `onStoreErrFast`: it looks at the lease at one time and debits it at the next.
unfoldable pub on_store_err_fast :
    FailMode → Pool → Key → Limits → Cost → Option Bytes → (ℕ → ℕ) → Pool × Decision
on_store_err_fast fail_closed p key limits cost id clock =
    (p, deny_decision limits LimitType.backend second)
on_store_err_fast fail_open p key limits cost id clock =
    let (p', b) = has p key cost limits (clock 0) in
    if b
    then spend_on_err p' key limits cost id (clock 1)
    else (p', deny_decision limits LimitType.backend second)

-- After a loan: the credits go into the lease, and the cost is debited from it.
unfoldable pub spend_loan :
    Pool → Key → Limits → Cost → Bytes → BorrowResult → (ℕ → ℕ) → Pool × Decision
spend_loan p key limits cost id br clock =
    let p1 = credit_lease p key limits br.got_rpm br.got_tpm br.got_itpm br.got_otpm (clock 0) in
    let (p2, d) = try_debit p1 key limits cost id (clock 1) in
    elim d [
      | some d ↦ (p2, d)
      | none ↦ (
        record p2 { deny = DenyCache.set p2.deny key LimitType.backend second (clock 2) },
        deny_decision limits LimitType.backend second,
      )
    ]

-- What `checkFast` does with the answer to `Borrow`.
unfoldable pub use_loan :
    FailMode
    → Pool
    → Key
    → Limits
    → Cost
    → Bytes
    → Option Bytes
    → Result BorrowResult
    → (ℕ → ℕ)
    → Pool × Decision
use_loan mode p key limits cost id again (err e) clock =
    on_store_err_fast mode p key limits cost again clock
use_loan mode p key limits cost id again (ok br) clock =
    if br.allowed then spend_loan p key limits cost id br clock else (
      record p { deny = DenyCache.set p.deny key br.limit_type br.retry_after (clock 0) },
      borrow_deny_decision limits br,
    )

abbrev pub borrow_spec : Pool → Cost → BorrowSpec
borrow_spec p cost = record {
  min_rpm = cost.requests;
  chunk_rpm = p.cfg.rpm_chunk;
  min_tpm = cost.tokens;
  chunk_tpm = p.cfg.tpm_chunk;
  min_itpm = cost.input_tokens;
  chunk_itpm = p.cfg.itpm_chunk;
  min_otpm = cost.output_tokens;
  chunk_otpm = p.cfg.otpm_chunk;
}

-- The readings of the clock from the i-th on.
abbrev pub from : ℕ → (ℕ → ℕ) → ℕ → ℕ
from i clock j = clock (i + j)

module _ (B : Backend) where
  open B use {Store}

  -- `checkDirect`
  unfoldable pub check_direct :
      Limiter Store → Key → Limits → Cost → Option Bytes → ℕ → Limiter Store × Decision
  check_direct l key limits cost none now = (l, on_store_err l.fail_mode limits)
  check_direct l key limits cost (some id) now =
      let (s, result) = B.check l.store now key limits cost id in
      (record l { store = s }, elim result [ ok d ↦ d | err e ↦ on_store_err l.fail_mode limits ])

  -- `checkFast` after the lease could not pay: `Borrow` reads the clock once.
  unfoldable pub check_borrow :
      Limiter Store
      → Pool
      → Key
      → Limits
      → Cost
      → Bytes
      → Option Bytes
      → (ℕ → ℕ)
      → Limiter Store × Decision
  check_borrow l p key limits cost id again clock =
      let p1 = note_borrow p in
      let (s, result) = B.borrow l.store (clock 0) key limits (borrow_spec p cost) in
      let (p2, d) = use_loan l.fail_mode p1 key limits cost id again result (from 1 clock) in
      (record l { store = s; pool = some p2 }, d)

  -- `checkFast` with an identifier.
  unfoldable pub check_lease :
      Limiter Store
      → Pool
      → Key
      → Limits
      → Cost
      → Bytes
      → Option Bytes
      → (ℕ → ℕ)
      → Limiter Store × Decision
  check_lease l p key limits cost id again clock =
      let (p', d) = try_debit p key limits cost id (clock 0) in
      elim d [
        | some d ↦ (record l { pool = some p' }, d)
        | none ↦ check_borrow l p' key limits cost id again (from 1 clock)
      ]

  -- `checkFast` past the deny cache: `id` is the first identifier, `again` the one that an error
  -- path asks for.
  unfoldable pub check_fresh :
      Limiter Store
      → Pool
      → Key
      → Limits
      → Cost
      → Option Bytes
      → Option Bytes
      → (ℕ → ℕ)
      → Limiter Store × Decision
  check_fresh l p key limits cost none again clock =
      let (p', d) = on_store_err_fast l.fail_mode p key limits cost again clock in
      (record l { pool = some p' }, d)
  check_fresh l p key limits cost (some id) again clock =
      check_lease l p key limits cost id again clock

  -- `checkFast`
  unfoldable pub check_fast :
      Limiter Store
      → Pool
      → Key
      → Limits
      → Cost
      → Option Bytes
      → Option Bytes
      → (ℕ → ℕ)
      → Limiter Store × Decision
  check_fast l p key limits cost id again clock =
      let cost = clamp_all cost in
      let (deny, hit) = DenyCache.get p.deny key (clock 0) in
      let p' : Pool = record p { deny = deny } in
      elim hit [
        | some (lt, retry) ↦ (record l { pool = some p' }, deny_decision limits lt retry)
        | none ↦ check_fresh l p' key limits cost id again (from 1 clock)
      ]

  -- `Check`
  unfoldable pub check :
      Limiter Store
      → Key
      → Limits
      → Cost
      → Option Bytes
      → Option Bytes
      → (ℕ → ℕ)
      → Limiter Store × Result Decision
  check l key limits cost id again clock =
      if is_partial limits then (l, err Error.partial_split) else elim l.pool [
        | none ↦ let (l', d) = check_direct l key limits cost id (clock 0) in (l', ok d)
        | some p ↦ let (l', d) = check_fast l p key limits cost id again clock in (l', ok d)
      ]
