-- ===== src/Lease/Stats.antt =====
-- The counters of the pool of pkg/lease/lease.go, and the share of hits that pkg/metrics shows.
use valve.Common.{
  ℕ, suc, ◌+◌, ◌==◌, ◌≡◌, refl, arith, Bool-cases, inl, inr, if◌then◌else◌, Bytes, Option, none,
  some, List, [], ◌∷◌,
}
use valve.Api.{Key, Limits, Cost, Decision, split}
use valve.Lease.Config.{Config}
use valve.Lease.DenyCache.{cache_key}
use valve.Lease.Pool.{
  Pool, LocalBucket, new_pool, purge_res, get_lease, get_found, covers, debit_found, debit_lease,
  try_debit,
}

pub record Stats : Type 0 where
  pub hits : ℕ
  pub misses : ℕ
  pub borrows : ℕ

-- `Stats`
unfoldable pub stats : Pool → Stats
stats p = record { hits = p.hits; misses = p.miss; borrows = p.borrows }

-- `BorrowCount`
unfoldable pub borrow_count : Pool → ℕ
borrow_count p = p.borrows

-- `HitRatio`, as a fraction.
unfoldable pub hit_ratio : Pool → ℕ × ℕ
unfolding stats
hit_ratio p =
    let s = stats p in
    let total = s.hits + s.misses in if total == 0 then (0, 1) else (s.hits, total)

-- A call of `TryDebit`.
pub record Debit : Type 0 where
  pub key : Key
  pub limits : Limits
  pub cost : Cost
  pub reservation_id : Bytes
  pub now : ℕ

abbrev pub hit : Option Decision → ℕ
hit none = 0
hit (some d) = 1

-- The pool after a row of calls, and how many of them found a lease that covers the cost.
abbrev pub debit_all : Pool → List Debit → Pool × ℕ
debit_all p [] = (p, 0)
debit_all p (d ∷ ds) =
    let (p', r) = try_debit p d.key d.limits d.cost d.reservation_id d.now in
    let (p'', n) = debit_all p' ds in (p'', hit r + n)

abbrev pub count : List Debit → ℕ
count [] = 0
count (d ∷ ds) = suc (count ds)

get_found-hits :
    (p : Pool) (k : Bytes) (now : ℕ) (o : Option LocalBucket)
    → ((get_found p k now o).0.hits ≡ p.hits) × ((get_found p k now o).0.miss ≡ p.miss)
unfolding get_found
get_found-hits p k now none = (refl, refl)
get_found-hits p k now (some b) = ground arith

get_lease-hits :
    (p : Pool) (key : Key) (now : ℕ)
    → ((get_lease (purge_res p now) key now).0.hits ≡ p.hits)
      × ((get_lease (purge_res p now) key now).0.miss ≡ p.miss)
unfolding get_lease purge_res
get_lease-hits p key now =
    get_found-hits (purge_res p now) (cache_key key) now (p.lease (cache_key key))

debit_found-hits :
    (p : Pool) (b : Option LocalBucket) (d : Debit)
    → let (p', r) = debit_found p b d.key d.limits d.cost d.reservation_id d.now in
      (p'.hits ≡ p.hits + hit r) × (p'.hits + p'.miss ≡ suc (p.hits + p.miss))
unfolding debit_found debit_lease
debit_found-hits p none d = (omega arith, omega arith)
debit_found-hits p (some b) d = elim (Bool-cases (covers (some b) d.cost (split d.limits))) [
  | inl e ↦ rw e (omega arith, omega arith)
  | inr e ↦ rw e (omega arith, omega arith)
]

-- One call counts once, and as a hit where it answers with a decision.
try_debit-hits :
    (p : Pool) (d : Debit)
    → let (p', r) = try_debit p d.key d.limits d.cost d.reservation_id d.now in
      (p'.hits ≡ p.hits + hit r) × (p'.hits + p'.miss ≡ suc (p.hits + p.miss))
unfolding try_debit
try_debit-hits p d =
    let (p', b) = get_lease (purge_res p d.now) d.key d.now in
    let (e, f) = get_lease-hits p d.key d.now in
    let (u, v) = debit_found-hits p' b d in (omega arith, omega arith)

debit_all-hits :
    (ds : List Debit) (p : Pool)
    → let (p', n) = debit_all p ds in
      (p'.hits ≡ p.hits + n) × (p'.hits + p'.miss ≡ p.hits + p.miss + count ds)
debit_all-hits [] p = (omega arith, omega arith)
debit_all-hits (d ∷ ds) p =
    let (p', r) = try_debit p d.key d.limits d.cost d.reservation_id d.now in
    let (e, f) = try_debit-hits p d in
    let (u, v) = debit_all-hits ds p' in (omega arith, omega arith)

hit_ratio_lem :
    (p : Pool) (h n : ℕ) → p.hits ≡ h → p.hits + p.miss ≡ suc n → hit_ratio p ≡ (h, suc n)
unfolding hit_ratio stats
hit_ratio_lem p h n e f = rw (f, e) (ground arith)

-- After any row of `TryDebit` calls on a new pool, the shown share of hits is the number of calls
-- that were answered with a decision, over the number of calls.
pub hit_ratio-debit_all :
    (cfg : Config) (d : Debit) (ds : List Debit)
    → hit_ratio (debit_all (new_pool cfg) (d ∷ ds)).0
      ≡ ((debit_all (new_pool cfg) (d ∷ ds)).1, count (d ∷ ds))
hit_ratio-debit_all cfg d ds =
    let (u, v) = debit_all-hits (d ∷ ds) (new_pool cfg) in
    hit_ratio_lem (debit_all (new_pool cfg) (d ∷ ds)).0 _ _ (omega arith) (omega arith)
