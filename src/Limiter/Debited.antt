-- ===== src/Limiter/Debited.antt =====
-- What it means for pkg/limiter/limiter.go that a lease of the pool paid for a decision.
use valve.Common.{◌≤ℤ◌, sub64, ℕ, ◌≡◌, refl, Bool, true, false, some}
use valve.Api.{Key, Limits, Cost, Decision, split}
use valve.Store.{Status}
use valve.Lease.Pool.{Pool, LocalBucket, Reservation, covers, debited}
use valve.Lease.DenyCache.{cache_key}
use valve.Lease.Spend.{covers_split, covers_classic}

-- The pool holds a pending reservation of the cost under the decision's identifier.
abbrev pub HasReservation : Pool → Decision → Key → Cost → Type 0
HasReservation p d key cost =
    (r : Reservation) × (p.res d.reservation_id ≡ some r)
    × (r.status ≡ Status.pending)
    × (r.key ≡ key)
    × (r.rpm_cost ≡ cost.requests)
    × (r.tpm_reserved ≡ cost.tokens)
    × (r.itpm_reserved ≡ cost.input_tokens)
    × (r.otpm_reserved ≡ cost.output_tokens)

-- The first lease covered the cost, and the second is what is left of it.
abbrev pub Debits : Bool → LocalBucket → LocalBucket → Cost → Type 0
Debits true b b' cost =
    (cost.requests ≤ℤ b.rpm)
    × (cost.input_tokens ≤ℤ b.itpm)
    × (cost.output_tokens ≤ℤ b.otpm)
    × (b'.rpm ≡ sub64 b.rpm cost.requests)
    × (b'.itpm ≡ sub64 b.itpm cost.input_tokens)
    × (b'.otpm ≡ sub64 b.otpm cost.output_tokens)
    × (b'.tpm ≡ b.tpm)
Debits false b b' cost =
    (cost.requests ≤ℤ b.rpm)
    × (cost.tokens ≤ℤ b.tpm)
    × (b'.rpm ≡ sub64 b.rpm cost.requests)
    × (b'.tpm ≡ sub64 b.tpm cost.tokens)
    × (b'.itpm ≡ b.itpm)
    × (b'.otpm ≡ b.otpm)

-- The lease of the key is what a debit of the cost leaves of a lease that was there.
abbrev pub IsDebited : (LocalBucket → Type 0) → Pool → Key → Limits → Cost → Type 0
IsDebited Had p key limits cost =
    (b : LocalBucket) × (b' : LocalBucket) × Had b
    × (p.lease (cache_key key) ≡ some b')
    × Debits (split limits) b b' cost

abbrev pub HasBacking : (LocalBucket → Type 0) → Pool → Decision → Key → Limits → Cost → Type 0
HasBacking Had p d key limits cost = HasReservation p d key cost × IsDebited Had p key limits cost

pub debited-Debits :
    (s : Bool) (b : LocalBucket) (cost : Cost) (until : ℕ)
    → covers (some b) cost s ≡ true
    → Debits s b (debited b cost s until) cost
unfolding debited
debited-Debits true b cost until h =
    let (r, i, o) = covers_split b cost h in (r, i, o, refl, refl, refl, refl)
debited-Debits false b cost until h =
    let (r, t) = covers_classic b cost h in (r, t, refl, refl, refl, refl)
