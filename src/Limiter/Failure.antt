-- ===== src/Limiter/Failure.antt =====
-- What the limiter answers when the store, or the generator of identifiers, fails.
use valve.Common.{ℕ, ◌≡◌, refl, arith, Bytes, [], Option, none, some, Bool, true, false}
use valve.Api.{
  Key, Limits, Cost, Decision, FailMode, fail_open, fail_closed, ok, err, Error, is_partial,
}
use valve.Limiter.Backend.{Backend, Limiter}
use valve.Limiter.Check.{check, check_direct}
use valve.Limiter.Decide.{on_store_err, deny_decision, open_decision}

abbrev is_open : FailMode → Bool
is_open fail_open = true
is_open fail_closed = false

on_store_err_lem :
    (mode : FailMode) (limits : Limits)
    → ((on_store_err mode limits).allowed ≡ is_open mode)
      × ((on_store_err mode limits).reservation_id ≡ [])
unfolding on_store_err open_decision deny_decision
on_store_err_lem fail_open limits = ground arith
on_store_err_lem fail_closed limits = ground arith

-- Without leases, a check that the store fails is answered without an error: it is allowed exactly
-- in the open mode, and holds no reservation. The store is as its failing call left it.
pub check_store_fails :
    (B : Backend) (l : Limiter B.Store) (key : Key) (limits : Limits) (cost : Cost) (id : Bytes)
    (again : Option Bytes) (clock : ℕ → ℕ) (s : B.Store) (e : Error)
    → l.pool ≡ none
    → is_partial limits ≡ false
    → B.check l.store (clock 0) key limits cost id ≡ (s, err e)
    → (d : Decision) × ((check B l key limits cost (some id) again clock).1 ≡ ok d)
      × ((check B l key limits cost (some id) again clock).0.store ≡ s)
      × (d.allowed ≡ is_open l.fail_mode)
      × (d.reservation_id ≡ [])
unfolding check check_direct
check_store_fails B l key limits cost id again clock s e direct whole fails = (
  on_store_err l.fail_mode limits,
  rw whole (rw direct (rw fails refl)),
  rw whole (rw direct (rw fails refl)),
  (on_store_err_lem l.fail_mode limits).0,
  (on_store_err_lem l.fail_mode limits).1,
)
