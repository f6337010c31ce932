-- ===== src/Limiter/Closing.antt =====
-- `Close` of pkg/limiter/limiter.go hands the credits of the leases back once.
use valve.Common.{ℕ, ◌≤◌, ◌≡◌, refl, ◌∙◌, ap, sym, Bytes, List, none, some}
use valve.Lease.Pool.{Pool}
use valve.Lease.Snapshot.{snapshot_leases}
use valve.Lease.Handback.{snapshot_leases_once}
use valve.Limiter.Backend.{Backend, Limiter}
use valve.Limiter.Close.{close, return_all}

module _ (B : Backend) (l : Limiter B.Store) (order : List Bytes) where
  close-some :
      (p : Pool) (clock : ℕ → ℕ)
      → l.pool ≡ some p
      → let (p', snaps) = snapshot_leases p (clock 0) order in
        let (s, first) = return_all B l.store snaps none 1 clock in
        ((close B l order clock).0.store ≡ s)
        × ((close B l order clock).0.pool ≡ some p')
        × ((close B l order clock).1 ≡ first)
  unfolding close
  close-some p clock e = rw e (refl, refl, refl)

-- A second `Close` that meets the same leases, at the same time or later, changes
-- neither the store nor the pool, and reports no error, whatever the first one did.
pub close_once :
    (B : Backend) (l : Limiter B.Store) (p : Pool) (order : List Bytes) (clock again : ℕ → ℕ)
    → l.pool ≡ some p
    → clock 0 ≤ again 0
    → let l' = (close B l order clock).0 in
      let (l'', first) = close B l' order again in
      (l''.store ≡ l'.store) × (l''.pool ≡ l'.pool) × (first ≡ none)
unfolding return_all
close_once B l p order clock again e le =
    let l' = (close B l order clock).0 in
    let p' = (snapshot_leases p (clock 0) order).0 in
    let (_, pool, _) = close-some B l order p clock e in
    let (store', pool', first') = close-some B l' order p' again pool in
    let once = snapshot_leases_once p (clock 0) (again 0) order le in
    (
      store' ∙ ap (λ x. (return_all B l'.store x.1 none 1 again).0) once,
      pool' ∙ ap (λ x. some x.0) once ∙ sym pool,
      first' ∙ ap (λ x. (return_all B l'.store x.1 none 1 again).1) once,
    )
