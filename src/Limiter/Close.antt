-- ===== src/Limiter/Close.antt =====
-- `Close` of the limiter: the unused credits of the leases go back to the store.
use valve.Common.{ℕ, suc, Bytes, List, [], ◌∷◌, Option, none, some}
use valve.Api.{Error, Result, ok, err}
use valve.Lease.Snapshot.{LeaseSnap, snapshot_leases}
use valve.Limiter.Backend.{Backend, Limiter}

-- `if err != nil && first == nil { first = err }`
unfoldable pub first_error : Option Error → Result (Unit {0}) → Option Error
first_error none (err e) = some e
first_error none (ok u) = none
first_error (some e) r = some e

module _ (B : Backend) where
  open B use {Store}

  -- The loop of `Close`: the store, and the first error. The i-th round reads the clock at `clock
  -- i`.
  unfoldable pub return_all :
      Store → List LeaseSnap → Option Error → ℕ → (ℕ → ℕ) → Store × Option Error
  return_all s [] first i clock = (s, first)
  return_all s (x ∷ xs) first i clock =
      let (s', r) = B.return_credits s (clock i) x.key x.limits x.rpm x.tpm x.itpm x.otpm in
      return_all s' xs (first_error first r) (suc i) clock

  -- `Close`, with the order in which the runtime meets the leases.
  unfoldable pub close : Limiter Store → List Bytes → (ℕ → ℕ) → Limiter Store × Option Error
  close l order clock = elim l.pool [
    | none ↦ (l, none)
    | some p ↦
        let (p', snaps) = snapshot_leases p (clock 0) order in
        let (s, first) = return_all l.store snaps none 1 clock in
        (record l { store = s; pool = some p' }, first)
  ]
