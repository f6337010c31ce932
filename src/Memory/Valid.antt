-- ===== src/Memory/Valid.antt =====
-- The invariant of the memory store, and that every call keeps it.
pub mod Checks
pub mod Settles
pub mod Loans
pub mod Calls
use valve.Common.{
  ℕ, ◌-ℤ◌, ◌≤◌, ◌<◌, ℤ, pos, neg_part, ◌≤ℤ◌, ◌≡◌, refl, sym, ap, ◌∙◌, arith, Bool, true, false,
  Bytes, Map, Option, none, some, insert, Bool-cases, Option-cases, bytes_eq, if◌then◌else◌, ◌⊎◌,
  inl, inr,
}
use valve.Api.{Key, Limits, Cost, split, is_partial}
use valve.Bucket
use valve.Bucket.{try_consume, credit, debit_floor, clamp_cost, remaining_int, refill}
use valve.Bucket.Arith.{clamp_cost_parts}
use valve.Bucket.Sound.{
  IsStamped, refill-IsStamped, try_consume-IsStamped, credit-IsStamped, debit_floor-IsStamped,
}
use valve.Store.{BorrowSpec}
use valve.Memory.State.{
  Store, BucketState, Reservation, Status, purge_expired, unexpired, load_bucket, save_bucket,
  unix_milli, stored,
}
use valve.Memory.Buckets.{
  AllSound, IsSound, save_bucket-AllSound, AllSound-later, load_bucket-capacity, stored_sound,
}
use valve.Memory.Settle.{settle_axis}
use valve.Memory.Exact.{IsSoundStore}

-- A recorded reservation has no negative limit and no negative cost.
pub record IsPayable (r : Reservation) : Type 0 where
  pub limit_rpm : pos 0 ≤ℤ r.limit_rpm
  pub limit_tpm : pos 0 ≤ℤ r.limit_tpm
  pub limit_itpm : pos 0 ≤ℤ r.limit_itpm
  pub limit_otpm : pos 0 ≤ℤ r.limit_otpm
  pub rpm_cost : pos 0 ≤ℤ r.rpm_cost
  pub tpm_reserved : pos 0 ≤ℤ r.tpm_reserved
  pub itpm_reserved : pos 0 ≤ℤ r.itpm_reserved
  pub otpm_reserved : pos 0 ≤ℤ r.otpm_reserved

abbrev pub AllPayable : Map Reservation → Type 0
AllPayable m = (id : Bytes) (r : Reservation) → m id ≡ some r → IsPayable r

-- No bucket is in debt or ahead of the clock, and every reservation is payable.
pub record IsValid (now_ms : ℕ) (s : Store) : Type 0 where
  pub buckets : IsSoundStore now_ms s
  pub payable : AllPayable s.res

pub insert-AllPayable :
    (m : Map Reservation) (id : Bytes) (r : Reservation)
    → AllPayable m
    → IsPayable r
    → AllPayable (insert id r m)
insert-AllPayable m id r h v j x e = elim (Bool-cases (bytes_eq id j)) [
  | inl hit ↦ ground (arith, hit)
  | inr miss ↦ h j x (rw miss at e)
]

pub purge-AllPayable :
    (s : Store) (now : ℕ) → AllPayable s.res → AllPayable (purge_expired s now).res
unfolding purge_expired unexpired
purge-AllPayable s now h j x e = elim (Option-cases (s.res j)) [
  | inl gone ↦ ground (arith, gone)
  | inr (r, here) ↦ ground (arith, here, h j r here)
]

pub IsSoundStore-later : (s : Store) (t u : ℕ) → t ≤ u → IsSoundStore t s → IsSoundStore u s
IsSoundStore-later s t u le v = record {
  rpm = AllSound-later s.rpm {t = t} {u = u} le v.rpm;
  tpm = AllSound-later s.tpm {t = t} {u = u} le v.tpm;
  itpm = AllSound-later s.itpm {t = t} {u = u} le v.itpm;
  otpm = AllSound-later s.otpm {t = t} {u = u} le v.otpm;
}

settle_axis-IsStamped :
    (b : Bucket.State) (now_ms : ℕ) (reserved actual : ℤ)
    → IsStamped now_ms b
    → pos 0 ≤ℤ b.capacity
    → IsStamped now_ms (settle_axis b now_ms reserved actual).0
unfolding settle_axis
settle_axis-IsStamped b now_ms reserved actual v c = ground (
  arith,
  credit-IsStamped b now_ms v.nonneg (reserved -ℤ actual) c,
  debit_floor-IsStamped b now_ms v.nonneg (pos 0 -ℤ (reserved -ℤ actual)),
)

-- What a call does to one bucket: load, change, save.
module _ (m : Map BucketState) (k : Bytes) (capacity : ℤ) (now_ms : ℕ)
    (sound : AllSound now_ms m) where
  abbrev b : Bucket.State
  b = load_bucket m k capacity now_ms

  pub loaded-IsStamped : IsStamped now_ms b
  unfolding load_bucket
  loaded-IsStamped = refill-IsStamped _ now_ms (stored_sound now_ms (m k) capacity (sound k)).0

  saved : (st : Bucket.State) → IsStamped now_ms st → AllSound now_ms (save_bucket m k st)
  saved st v = save_bucket-AllSound m k st now_ms sound v.nonneg (grind (arith, v.stamped))

  pub consumed : (cost : ℤ) → AllSound now_ms (save_bucket m k (try_consume b now_ms cost).0)
  consumed cost = saved _ (try_consume-IsStamped b now_ms loaded-IsStamped.nonneg cost)

  pub credited :
      (amount : ℤ) → pos 0 ≤ℤ capacity → AllSound now_ms (save_bucket m k (credit b now_ms amount))
  credited amount c = saved _ (
      credit-IsStamped b now_ms loaded-IsStamped.nonneg amount
        (rw (load_bucket-capacity m k capacity now_ms) c))

  pub settled :
      (reserved actual : ℤ)
      → pos 0 ≤ℤ capacity
      → AllSound now_ms (save_bucket m k (settle_axis b now_ms reserved actual).0)
  settled reserved actual c = saved _ (
      settle_axis-IsStamped b now_ms reserved actual loaded-IsStamped
        (rw (load_bucket-capacity m k capacity now_ms) c))
