-- ===== src/Redis/Agree/Mirror.antt =====
-- The hashes on the server mirror the maps of the memory store, at one key under classic limits.
pub mod Checks
pub mod Settles
pub mod Misfits
pub mod Refunds
pub mod Borrows
pub mod Histories
use valve.Common.{
  ℕ, ◌+◌, ◌<◌, ◌≤◌, ◌*◌, ℤ, pos, ◌≤ℤ◌, ◌<ℤ◌, ◌-ℤ◌, ◌≡◌, refl, sym, ◌∙◌, subst, arith, true, false,
  Bool-cases, inl, inr, Bytes, bytes_eq, bytes_eq_refl, bytes_eq_sound, Map, insert, Option, some,
}
use valve.Api.{Key, Limits, Cost, Decision, Result, split, is_partial}
use valve.Bucket.{scale, clamp_cost}
use valve.Bucket.Arith.{token_laws}
use valve.Memory.State.{
  Store, BucketState, Reservation, bucket_key, load_bucket, unix_milli, purge_expired, is_empty,
}
use valve.Memory.Check
use valve.Store.{reservation_ttl}
use valve.Redis.Keys.{reservation_key}
use valve.Redis.Lua
use valve.Redis.Lua.{Hashes, ResHash, expire, expiry}
use valve.Redis.Lua.Run.{Rest, server, run_script}
use valve.Redis.Calls
use valve.Redis.Agree.Refill.{refill_agrees, held}
use valve.Redis.Agree.Entries.{
  Entry, IsSound, Same, Same-later, Same-purged, Same-expired, Same-dropped, hash_at, res_at,
}
use valve.Redis.Agree.Alike.{
  IsHeld, AreAlike, AreAlike-later, AreAlike_refl, IsHeld-IsWithin, refill_bounds,
}
use valve.Redis.Agree.Keys.{rpm_key, tpm_key, bytes_eq-reservation_key}
use valve.Redis.Agree.Answers.{SameAnswer}
use valve.Redis.Agree.Checks.{
  locked_agrees, theirs_debited, ours_debited, refilled_rpm, refilled_tpm, made,
}

pub record Mirrors (key : Key) (limits : Limits) (now_ms : ℕ) (h : Hashes) (s : Store)
    : Type 0 where
  pub rpm :
      AreAlike limits.requests_per_minute now_ms (h.buckets (rpm_key key)) (s.rpm (bucket_key key))
  pub tpm :
      AreAlike limits.tokens_per_minute now_ms (h.buckets (tpm_key key)) (s.tpm (bucket_key key))
  pub res : (id : Bytes) → Same key limits id now_ms (h.res (reservation_key id)) (s.res id)

module _ (key : Key) (limits : Limits) where
  -- One reservation is written in both.
  pub Same-insert :
      (t : ℕ) (id : Bytes) (e : Entry) (m : Map ResHash) (n : Map Reservation)
      → IsSound e
      → ((j : Bytes) → Same key limits j t (m (reservation_key j)) (n j))
      → (j : Bytes)
      → Same key limits j t
          (insert (reservation_key id) (hash_at key limits e) m (reservation_key j))
          (insert id (res_at key limits id e) n j)
  Same-insert t id e m n sound v j = elim (Bool-cases (bytes_eq id j)) [
    | inl here ↦
        rw (bytes_eq-reservation_key id j, here)
          (e, sound, refl, rw (bytes_eq_sound id j here) refl)
    | inr away ↦ rw (bytes_eq-reservation_key id j, away) (v j)
  ]

  pub Mirrors-later :
      (t u : ℕ) (h : Hashes) (s : Store)
      → pos 0 <ℤ limits.requests_per_minute
      → pos 0 <ℤ limits.tokens_per_minute
      → t ≤ u
      → Mirrors key limits t h s
      → Mirrors key limits u h s
  Mirrors-later t u h s cr ct le v = record {
    rpm = AreAlike-later limits.requests_per_minute cr _ _ t u le v.rpm;
    tpm = AreAlike-later limits.tokens_per_minute ct _ _ t u le v.tpm;
    res = λ id. Same-later key limits id t u _ _ le (v.res id);
  }

  module _ (t now : ℕ) (le : t ≤ unix_milli now) (at : now ≡ unix_milli now * 1000000)
      (cr : pos 0 <ℤ limits.requests_per_minute) (ct : pos 0 <ℤ limits.tokens_per_minute)
      (h : Hashes) (s : Store) (v : Mirrors key limits t h s) where
    pub Mirrors_purged : Mirrors key limits (unix_milli now) h (purge_expired s now)
    unfolding purge_expired
    Mirrors_purged = record {
      rpm = AreAlike-later limits.requests_per_minute cr _ _ t (unix_milli now) le v.rpm;
      tpm = AreAlike-later limits.tokens_per_minute ct _ _ t (unix_milli now) le v.tpm;
      res = λ id. Same-purged key limits id t now le at _ _ (v.res id);
    }

    pub Mirrors_expired :
        Mirrors key limits (unix_milli now) (expire h (unix_milli now)) (purge_expired s now)
    unfolding purge_expired
    Mirrors_expired = record {
      rpm = AreAlike-later limits.requests_per_minute cr _ _ t (unix_milli now) le v.rpm;
      tpm = AreAlike-later limits.tokens_per_minute ct _ _ t (unix_milli now) le v.tpm;
      res = λ id. Same-expired key limits id t now le at _ _ (v.res id);
    }

    pub Mirrors_dropped : Mirrors key limits (unix_milli now) (expire h (unix_milli now)) s
    Mirrors_dropped = record {
      rpm = AreAlike-later limits.requests_per_minute cr _ _ t (unix_milli now) le v.rpm;
      tpm = AreAlike-later limits.tokens_per_minute ct _ _ t (unix_milli now) le v.tpm;
      res = λ id. Same-dropped key limits id t now le at _ _ (v.res id);
    }

-- Both stores load the same tokens.
pub load_alike :
    (capacity : ℤ) (now_ms : ℕ) (a : Option BucketState) (m : Map BucketState) (k : Bytes)
    → pos 0 <ℤ capacity
    → AreAlike capacity now_ms a (m k)
    → load_bucket m k capacity now_ms ≡ held (Lua.refill a capacity now_ms) now_ms capacity
unfolding load_bucket
load_alike capacity now_ms a m k c v =
    rw (v.same now_ms (omega arith))
      (refill_agrees (m k) capacity now_ms c (IsHeld-IsWithin capacity c (m k) now_ms v.right))

-- Fifteen minutes from now is the same time for both.
pub expiry_whole :
    (now : ℕ)
    → now ≡ unix_milli now * 1000000
    → now + reservation_ttl ≡ expiry (unix_milli now) (pos 900) * 1000000
expiry_whole now at = omega arith
