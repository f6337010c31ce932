-- ===== src/Lease/Tests.antt =====
-- Runs of the leases of pkg/lease.
use valve.Common.{
  ℕ, pos, ◌≡◌, refl, arith, false, Bytes, [], ◌∷◌, some, bytes_eq, empty_map, insert,
}
use valve.Api.{Key, Limits, Cost, split, err, Error}
use valve.Memory.State.{model_or_dash}
use valve.Lease.Config.{default_config}
use valve.Lease.DenyCache.{cache_key}
use valve.Lease.Pool.{
  purge_res, Pool, LocalBucket, new_pool, try_debit, has, debited, debit_decision, lease_end,
}
use valve.Lease.Lifecycle.{settle_local_final}
use valve.Lease.Settle.{settle_local}
use valve.Lease.Refund.{refund_local}
use valve.Lease.Snapshot.{snapshot_leases, snap, split_key}
use valve.Lease.Keys.{split_key-cache_key, cache_key_injective}
use valve.Lease.Spend.{Paid, pending_of, IsPayable, try_debit_lem}

abbrev key : Key
key = record { subject = b'a' ∷ []; model = [] }

abbrev other : Key
other = record { subject = b'b' ∷ []; model = [] }

abbrev limits : Limits
limits = record {
  requests_per_minute = pos 60;
  tokens_per_minute = pos 1000;
  input_tokens_per_minute = pos 0;
  output_tokens_per_minute = pos 0;
}

abbrev cost : Cost
cost = record { requests = pos 1; tokens = pos 60; input_tokens = pos 0; output_tokens = pos 0 }

abbrev id : Bytes
id = b'x' ∷ []

abbrev lease : LocalBucket
lease = record {
  rpm = pos 5;
  tpm = pos 500;
  itpm = pos 0;
  otpm = pos 0;
  expires_at = 2000000000;
  limits = limits;
}

abbrev pool : Pool
pool = record (new_pool default_config) { lease = insert (cache_key key) lease empty_map }

abbrev t : ℕ
t = 1000000000

pool_has : pool.lease (cache_key key) ≡ some lease
unfolding bytes_eq valve.Memory.State.bucket_key
pool_has = refl

lease-IsPayable : IsPayable lease limits cost t
unfolding split valve.Lease.Pool.covers
lease-IsPayable = record {
  live = refl;
  enough = refl;
  rpm_word = omega arith;
  tpm_word = omega arith;
  itpm_word = omega arith;
  otpm_word = omega arith;
  requests_word = omega arith;
  tokens_word = omega arith;
  input_word = omega arith;
  output_word = omega arith;
}

try_debit_lem_example :
    let (p', d) = try_debit pool key limits cost id t in
    let b' = debited lease cost (split limits) (lease_end pool t) in
    (p'.lease (cache_key key) ≡ some b')
    × Paid (split limits) lease b' cost
    × ((k : Bytes) → bytes_eq (cache_key key) k ≡ false → p'.lease k ≡ pool.lease k)
    × (p'.res id ≡ some (pending_of key limits cost t))
    × (d ≡ some (debit_decision b' limits (split limits) id))
try_debit_lem_example = try_debit_lem pool lease key limits cost id t pool_has lease-IsPayable

keys_apart : bytes_eq (cache_key key) (cache_key other) ≡ false
unfolding bytes_eq valve.Memory.State.bucket_key
keys_apart = refl

-- A subject that ends in a zero byte.
abbrev odd : Key
odd = record { subject = b'a' ∷ 0 ∷ []; model = [] }

split_key-cache_key_example :
    split_key (cache_key key) ≡ record { subject = key.subject; model = model_or_dash key.model }
split_key-cache_key_example = split_key-cache_key key (refl, tt)

-- The key with the dash that stands for no model.
abbrev dashed : Key
dashed = record { subject = b'a' ∷ []; model = b'-' ∷ [] }

same_cache_key : cache_key key ≡ cache_key dashed
unfolding valve.Memory.State.bucket_key
same_cache_key = refl

cache_key_injective_example :
    (key.subject ≡ dashed.subject) × (model_or_dash key.model ≡ model_or_dash dashed.model)
cache_key_injective_example = cache_key_injective key dashed (refl, tt) (refl, tt) same_cache_key

-- The pool with a pending reservation.
abbrev held : Pool
held = record pool { res = insert id (pending_of key limits cost t) empty_map }

held_here : (purge_res held t).res id ≡ some (pending_of key limits cost t)
unfolding purge_res bytes_eq
held_here = refl

classic : split limits ≡ false
unfolding split
classic = refl

settle_local_final_example :
    let (p', result) = settle_local held id (pos 70) t in
    (settle_local p' id (pos 5) 61000000000 ≡ (purge_res p' 61000000000, result))
    × (refund_local p' id 61000000000 ≡ (purge_res p' 61000000000, err Error.reservation_settled))
settle_local_final_example =
    settle_local_final held id (pos 70) (pos 5) (pending_of key limits cost t) t 61000000000
      held_here classic refl (omega arith)

-- The snapshot of the example hands the five requests and the five hundred tokens back.
snapshot_pool : (snapshot_leases pool t (cache_key key ∷ [])).1 ≡ snap (cache_key key) lease ∷ []
unfolding snapshot_leases bytes_eq valve.Memory.State.bucket_key
snapshot_pool = refl
