-- ===== src/Lease/Pool.antt =====
-- The pool of pkg/lease/lease.go: leases, local reservations, and the spending of a lease. Every
-- method is one step under the mutex. The counters count calls, and are not taken to wrap.
use valve.Common.{
  ℕ, ◌+◌, suc, ℤ, pos, pos_part, ltb_ℤ, leb_ℤ, add64, sub64, ltb, Bool, true, false, ◌&&◌,
  if◌then◌else◌, Bytes, Map, empty_map, insert, delete, Option, none, some,
}
use valve.Api.{Key, Limits, Cost, Decision, zero_decision, split}
use valve.Store.{Status, reservation_ttl}
use valve.Lease.Config.{Config, normalized}
use valve.Lease.DenyCache.{DenyCache, cache_key}

pub record LocalBucket : Type 0 where
  pub rpm : ℤ
  pub tpm : ℤ
  pub itpm : ℤ
  pub otpm : ℤ
  pub expires_at : ℕ
  pub limits : Limits

pub record Reservation : Type 0 where
  pub key : Key
  pub limits : Limits
  pub rpm_cost : ℤ
  pub tpm_reserved : ℤ
  pub itpm_reserved : ℤ
  pub otpm_reserved : ℤ
  pub status : Status
  pub last_decision : Decision
  pub expires_at : ℕ

pub record Pool : Type 0 where
  pub cfg : Config
  pub deny : DenyCache
  pub lease : Map LocalBucket
  pub res : Map Reservation
  pub hits : ℕ
  pub miss : ℕ
  pub borrows : ℕ

-- `NewPool`
abbrev pub new_pool : Config → Pool
new_pool cfg = record {
  cfg = normalized cfg;
  deny = empty_map;
  lease = empty_map;
  res = empty_map;
  hits = 0;
  miss = 0;
  borrows = 0;
}

-- One round of the loop of `purgeResLocked`.
unfoldable pub unexpired : ℕ → Option Reservation → Option Reservation
unexpired now none = none
unexpired now (some r) = if ltb r.expires_at now then none else some r

-- `purgeResLocked`
unfoldable pub purge_res : Pool → ℕ → Pool
unfolding unexpired
purge_res p now = record p { res = λ id. unexpired now (p.res id) }

-- The look at the lease in `getLeaseLocked`.
unfoldable pub get_found : Pool → Bytes → ℕ → Option LocalBucket → Pool × Option LocalBucket
get_found p k now none = (p, none)
get_found p k now (some b) =
    if ltb now b.expires_at then (p, some b) else (record p { lease = delete k p.lease }, none)

-- `getLeaseLocked`
unfoldable pub get_lease : Pool → Key → ℕ → Pool × Option LocalBucket
unfolding get_found
get_lease p key now = get_found p (cache_key key) now (p.lease (cache_key key))

-- `covers`
unfoldable pub covers : Option LocalBucket → Cost → Bool → Bool
covers none cost is_split = false
covers (some b) cost is_split =
    if ltb_ℤ b.rpm cost.requests
    then false
    else if is_split
    then leb_ℤ cost.input_tokens b.itpm && leb_ℤ cost.output_tokens b.otpm
    else leb_ℤ cost.tokens b.tpm

-- `Has`, with the removal of a lease that has run out.
unfoldable pub has : Pool → Key → Cost → Limits → ℕ → Pool × Bool
has p key cost limits now = let (p', b) = get_lease p key now in (p', covers b cost (split limits))

-- `now.Add(p.cfg.LeaseTTL)`; the normalized duration is positive.
abbrev pub lease_end : Pool → ℕ → ℕ
lease_end p now = now + pos_part p.cfg.lease_ttl

-- `&localBucket{}`
abbrev pub empty_bucket : LocalBucket
empty_bucket = record {
  rpm = pos 0;
  tpm = pos 0;
  itpm = pos 0;
  otpm = pos 0;
  expires_at = 0;
  limits = record {
    requests_per_minute = pos 0;
    tokens_per_minute = pos 0;
    input_tokens_per_minute = pos 0;
    output_tokens_per_minute = pos 0;
  };
}

-- The lease that `CreditLease` adds to: the live one, or a new one.
unfoldable pub lease_to_credit : Option LocalBucket → ℕ → LocalBucket
lease_to_credit none now = empty_bucket
lease_to_credit (some b) now = if ltb now b.expires_at then b else empty_bucket

-- `CreditLease`
unfoldable pub credit_lease : Pool → Key → Limits → ℤ → ℤ → ℤ → ℤ → ℕ → Pool
unfolding lease_to_credit
credit_lease p key limits rpm tpm itpm otpm now =
    let b = lease_to_credit (p.lease (cache_key key)) now in
    record p {
      lease =
          insert (cache_key key)
            (record {
              rpm = add64 b.rpm rpm;
              tpm = add64 b.tpm tpm;
              itpm = add64 b.itpm itpm;
              otpm = add64 b.otpm otpm;
              expires_at = lease_end p now;
              limits = limits;
            })
            p.lease;
    }

-- The lease after the debit of `TryDebit`.
unfoldable pub debited : LocalBucket → Cost → Bool → ℕ → LocalBucket
debited b cost is_split until =
    if is_split
    then record b {
      rpm = sub64 b.rpm cost.requests;
      itpm = sub64 b.itpm cost.input_tokens;
      otpm = sub64 b.otpm cost.output_tokens;
      expires_at = until;
    }
    else record b {
      rpm = sub64 b.rpm cost.requests;
      tpm = sub64 b.tpm cost.tokens;
      expires_at = until;
    }

-- The decision of `TryDebit`.
unfoldable pub debit_decision : LocalBucket → Limits → Bool → Bytes → Decision
debit_decision b limits is_split reservation_id =
    let dec : Decision = record zero_decision {
      allowed = true;
      remaining_rpm = b.rpm;
      limit_rpm = limits.requests_per_minute;
      reservation_id = reservation_id;
    } in
    if is_split
    then record dec {
      remaining_itpm = b.itpm;
      remaining_otpm = b.otpm;
      remaining_tpm = b.otpm;
      limit_itpm = limits.input_tokens_per_minute;
      limit_otpm = limits.output_tokens_per_minute;
      limit_tpm = limits.output_tokens_per_minute;
    }
    else record dec { remaining_tpm = b.tpm; limit_tpm = limits.tokens_per_minute }

-- `TryDebit` on a lease that covers the cost.
unfoldable pub debit_lease : Pool → LocalBucket → Key → Limits → Cost → Bytes → ℕ → Pool × Decision
debit_lease p b key limits cost reservation_id now =
    let b' = debited b cost (split limits) (lease_end p now) in
    (
      record p {
        lease = insert (cache_key key) b' p.lease;
        hits = suc p.hits;
        res =
            insert reservation_id
              (record {
                key = key;
                limits = limits;
                rpm_cost = cost.requests;
                tpm_reserved = cost.tokens;
                itpm_reserved = cost.input_tokens;
                otpm_reserved = cost.output_tokens;
                status = Status.pending;
                last_decision = zero_decision;
                expires_at = now + reservation_ttl;
              })
              p.res;
      },
      debit_decision b' limits (split limits) reservation_id,
    )

-- `TryDebit` once it has looked at the lease.
unfoldable pub debit_found :
    Pool → Option LocalBucket → Key → Limits → Cost → Bytes → ℕ → Pool × Option Decision
debit_found p none key limits cost reservation_id now = (record p { miss = suc p.miss }, none)
debit_found p (some b) key limits cost reservation_id now =
    if covers (some b) cost (split limits)
    then (let (p', d) = debit_lease p b key limits cost reservation_id now in (p', some d))
    else (record p { miss = suc p.miss }, none)

-- `TryDebit`
unfoldable pub try_debit : Pool → Key → Limits → Cost → Bytes → ℕ → Pool × Option Decision
try_debit p key limits cost reservation_id now =
    let (p', b) = get_lease (purge_res p now) key now in
    debit_found p' b key limits cost reservation_id now

-- `NoteBorrow`
unfoldable pub note_borrow : Pool → Pool
note_borrow p = record p { borrows = suc p.borrows }

-- `GetReservation`
unfoldable pub get_reservation : Pool → Bytes → ℕ → Pool × Option Reservation
get_reservation p id now = let p' = purge_res p now in (p', p'.res id)
