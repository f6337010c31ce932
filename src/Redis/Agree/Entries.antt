-- ===== src/Redis/Agree/Entries.antt =====
-- One reservation in the two stores: the hash that the scripts of pkg/store/redis/lua keep, and the
-- record that pkg/store/memory/memory.go keeps.
use valve.Common.{
  ◌⊎◌, ℕ, ◌*◌, ◌≤◌, ◌<◌, ℤ, pos, ◌≤ℤ◌, ltb, ◌≡◌, refl, true, false, arith, Bool-cases, inl, inr,
  Bytes, codes, Option, none, some,
}
use valve.Api.{Key, Limits, Time, Decision, zero_decision}
use valve.Memory.State.{Reservation, Status, model_or_dash, unexpired, unix_milli}
use valve.Redis.Lua.{ResHash, Snapshot, alive}

-- What a settlement decides.
pub record Final : Type 0 where
  pub remaining_rpm : ℤ
  pub remaining_tpm : ℤ
  pub overshoot : ℤ
  pub reset_rpm : Time
  pub reset_tpm : Time

-- The status, with what the hash still holds of an earlier settlement under the same name.
pub data Stage : Type 0 where
  pending refunded : Option Snapshot → Stage
  settled : Final → Stage

pub record Entry : Type 0 where
  pub rpm_cost : ℤ
  pub tpm_reserved : ℤ
  pub stage : Stage
  pub created_ms : ℕ
  pub expires_ms : ℕ
  pub expires_at : ℕ

-- No cost is negative, and the two expiry times are the same.
pub record IsSound (e : Entry) : Type 0 where
  pub rpm_nonneg : pos 0 ≤ℤ e.rpm_cost
  pub tpm_nonneg : pos 0 ≤ℤ e.tpm_reserved
  pub whole : e.expires_at ≡ e.expires_ms * 1000000

abbrev status_text : Stage → Bytes
status_text (Stage.pending o) = codes "pending"
status_text (Stage.settled f) = codes "settled"
status_text (Stage.refunded o) = codes "refunded"

abbrev status : Stage → Status
status (Stage.pending o) = Status.pending
status (Stage.settled f) = Status.settled
status (Stage.refunded o) = Status.refunded

abbrev pub snapshot : Final → Snapshot
snapshot f = record {
  remaining_rpm = f.remaining_rpm;
  remaining_tpm = f.remaining_tpm;
  overshoot = f.overshoot;
}

abbrev pub snap : Stage → Option Snapshot
snap (Stage.pending o) = o
snap (Stage.settled f) = some (snapshot f)
snap (Stage.refunded o) = o

lt_true : (a b : ℕ) → a < b → ltb a b ≡ true
lt_true a b h = ground arith

lt_of_true : {a b : ℕ} → ltb a b ≡ true → a < b
lt_of_true h = ground arith

module _ (key : Key) (limits : Limits) where
  abbrev pub hash_at : Entry → ResHash
  hash_at e = record {
    subject = key.subject;
    model = model_or_dash key.model;
    mode = codes "classic";
    rpm_cost = e.rpm_cost;
    tpm_reserved = e.tpm_reserved;
    limit_rpm = limits.requests_per_minute;
    limit_tpm = limits.tokens_per_minute;
    status = status_text e.stage;
    created_ms = e.created_ms;
    expires_ms = e.expires_ms;
    snap = snap e.stage;
  }

  module _ (id : Bytes) where
    abbrev pub decision : Final → Decision
    decision f = record zero_decision {
      allowed = true;
      remaining_rpm = f.remaining_rpm;
      remaining_tpm = f.remaining_tpm;
      limit_rpm = limits.requests_per_minute;
      limit_tpm = limits.tokens_per_minute;
      reset_rpm = f.reset_rpm;
      reset_tpm = f.reset_tpm;
      reservation_id = id;
      overshoot_tpm = f.overshoot;
    }

    abbrev last_decision : Stage → Decision
    last_decision (Stage.pending o) = zero_decision
    last_decision (Stage.settled f) = decision f
    last_decision (Stage.refunded o) = zero_decision

    abbrev pub res_at : Entry → Reservation
    res_at e = record {
      subject = key.subject;
      model = key.model;
      is_split = false;
      rpm_cost = e.rpm_cost;
      tpm_reserved = e.tpm_reserved;
      itpm_reserved = pos 0;
      otpm_reserved = pos 0;
      limit_rpm = limits.requests_per_minute;
      limit_tpm = limits.tokens_per_minute;
      limit_itpm = pos 0;
      limit_otpm = pos 0;
      status = status e.stage;
      created_ms = e.created_ms;
      expires_at = e.expires_at;
      last_decision = last_decision e.stage;
    }

    -- Both hold the same, or nothing, or one of them what has expired.
    abbrev pub Same : ℕ → Option ResHash → Option Reservation → Type 0
    Same now_ms none none = Unit {0}
    Same now_ms (some a) none = a.expires_ms < now_ms
    Same now_ms none (some b) = b.expires_at < now_ms * 1000000
    Same now_ms (some a) (some b) = (e : Entry) × IsSound e × (a ≡ hash_at e) × (b ≡ res_at e)

    -- What the two stores see at a time.
    abbrev pub Seen : Option ResHash → Option Reservation → Type 0
    Seen a b =
        ((a ≡ none) × (b ≡ none))
        ⊎ ((e : Entry) × IsSound e × (a ≡ some (hash_at e)) × (b ≡ some (res_at e)))

    -- The two stores drop an entry at the same times.
    expiry_agrees :
        (e : Entry) (now : ℕ)
        → IsSound e
        → now ≡ unix_milli now * 1000000
        → ltb e.expires_at now ≡ ltb e.expires_ms (unix_milli now)
    expiry_agrees e now sound at = rw sound.whole (ground arith)

    dropped_later :
        (e : Entry) (now : ℕ)
        → IsSound e
        → e.expires_ms < unix_milli now
        → e.expires_at < unix_milli now * 1000000
    dropped_later e now sound lt = rw sound.whole (omega arith)

    pub Same-later :
        (t u : ℕ) (a : Option ResHash) (b : Option Reservation) → t ≤ u → Same t a b → Same u a b
    Same-later t u none none le v = tt
    Same-later t u (some a) none le v = omega arith
    Same-later t u none (some b) le v = omega arith
    Same-later t u (some a) (some b) le v = v

    module _ (t now : ℕ) (le : t ≤ unix_milli now) (at : now ≡ unix_milli now * 1000000) where
      pub Same-Seen :
          (a : Option ResHash) (b : Option Reservation)
          → Same t a b
          → Seen (alive (unix_milli now) a) (unexpired now b)
      unfolding alive unexpired
      Same-Seen none none v = inl (refl, refl)
      Same-Seen (some a) none v =
          rw (lt_true a.expires_ms (unix_milli now) (omega arith)) (inl (refl, refl))
      Same-Seen none (some b) v = rw (lt_true b.expires_at now (omega arith)) (inl (refl, refl))
      Same-Seen (some a) (some b) (e, sound, ea, eb) =
          rw (ea, eb)
            (elim (Bool-cases (ltb e.expires_ms (unix_milli now))) [
              | inl gone ↦ rw (expiry_agrees e now sound at, gone) (inl (refl, refl))
              | inr here ↦ rw (expiry_agrees e now sound at, here) (inr (e, sound, refl, refl))
            ])

      -- The memory store has purged.
      pub Same-purged :
          (a : Option ResHash) (b : Option Reservation)
          → Same t a b
          → Same (unix_milli now) a (unexpired now b)
      unfolding unexpired
      Same-purged none none v = tt
      Same-purged (some a) none v = omega arith
      Same-purged none (some b) v = rw (lt_true b.expires_at now (omega arith)) tt
      Same-purged (some a) (some b) (e, sound, ea, eb) =
          rw (ea, eb)
            (elim (Bool-cases (ltb e.expires_ms (unix_milli now))) [
              | inl gone ↦ rw (expiry_agrees e now sound at, gone) (lt_of_true gone)
              | inr here ↦ rw (expiry_agrees e now sound at, here) (e, sound, refl, refl)
            ])

      -- The server has removed what has expired, too.
      pub Same-expired :
          (a : Option ResHash) (b : Option Reservation)
          → Same t a b
          → Same (unix_milli now) (alive (unix_milli now) a) (unexpired now b)
      unfolding unexpired alive
      Same-expired none none v = tt
      Same-expired (some a) none v = rw (lt_true a.expires_ms (unix_milli now) (omega arith)) tt
      Same-expired none (some b) v = rw (lt_true b.expires_at now (omega arith)) tt
      Same-expired (some a) (some b) (e, sound, ea, eb) =
          rw (ea, eb)
            (elim (Bool-cases (ltb e.expires_ms (unix_milli now))) [
              | inl gone ↦ rw (expiry_agrees e now sound at, gone) tt
              | inr here ↦ rw (expiry_agrees e now sound at, here) (e, sound, refl, refl)
            ])

      -- Only the server has removed what has expired.
      pub Same-dropped :
          (a : Option ResHash) (b : Option Reservation)
          → Same t a b
          → Same (unix_milli now) (alive (unix_milli now) a) b
      unfolding alive
      Same-dropped none none v = tt
      Same-dropped none (some b) v = omega arith
      Same-dropped (some a) none v = rw (lt_true a.expires_ms (unix_milli now) (omega arith)) tt
      Same-dropped (some a) (some b) (e, sound, ea, eb) =
          rw (ea, eb)
            (elim (Bool-cases (ltb e.expires_ms (unix_milli now))) [
              | inl gone ↦ rw gone (dropped_later e now sound (lt_of_true gone))
              | inr here ↦ rw here (e, sound, refl, refl)
            ])
