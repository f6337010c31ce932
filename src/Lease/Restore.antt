-- ===== src/Lease/Restore.antt =====
-- `RefundLocal` of pkg/lease/lease.go after a `TryDebit`.
use valve.Common.{ℕ, ltb, ◌≡◌, refl, true, false, Bytes, some}
use valve.Api.{Key}
use valve.Lease.DenyCache.{cache_key}
use valve.Lease.Pool.{Pool, LocalBucket, Reservation, get_found, get_lease, purge_res, unexpired}

-- The balances of two leases are the same.
abbrev pub SameBalances : LocalBucket → LocalBucket → Type 0
SameBalances b c = (b.rpm ≡ c.rpm) × (b.tpm ≡ c.tpm) × (b.itpm ≡ c.itpm) × (b.otpm ≡ c.otpm)

pub purge_res_kept :
    (p : Pool) (id : Bytes) (r : Reservation) (now : ℕ)
    → p.res id ≡ some r
    → ltb r.expires_at now ≡ false
    → (purge_res p now).res id ≡ some r
unfolding purge_res unexpired
purge_res_kept p id r now e fresh = rw e (rw fresh refl)

pub get_lease_live :
    (p : Pool) (key : Key) (b : LocalBucket) (now : ℕ)
    → p.lease (cache_key key) ≡ some b
    → ltb now b.expires_at ≡ true
    → get_lease p key now ≡ (p, some b)
unfolding get_lease get_found
get_lease_live p key b now e live = rw e (rw live refl)
