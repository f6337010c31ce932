-- ===== src/Redis/Agree/Mirror/Refunds.antt =====
-- `Refund` on stores that mirror each other.
use valve.Common.{
  ℕ, ◌<◌, ◌≤◌, ◌*◌, ◌+◌, ℤ, pos, ◌≤ℤ◌, ◌<ℤ◌, min_ℤ, ◌+ℤ◌, ◌≡◌, refl, arith, inl, inr, Bytes,
  bytes_eq, bytes_eq_refl, Option, none, some, insert,
}
use valve.Api.{Key, Limits, Result, message}
use valve.Bucket.{scale}
use valve.Memory.State.{
  Store, BucketState, bucket_key, save_bucket, unix_milli, purge_expired, unexpired,
}
use valve.Memory.Refund
use valve.Redis.Keys.{reservation_key}
use valve.Redis.Errors.{map_res_err}
use valve.Redis.Lua
use valve.Redis.Lua.{Hashes, ResHash, Snapshot, alive, expire, expiry}
use valve.Store.{reservation_ttl}
use valve.Redis.Lua.Refund.{refund_script}
use valve.Redis.Lua.Run.{Rest, server, run_script, hmget, field}
use valve.Redis.Calls
use valve.Redis.Agree.Entries.{Entry, Stage, Final, IsSound, Same-Seen, hash_at, res_at}
use valve.Redis.Agree.Alike.{AreAlike_refl, refill_bounds}
use valve.Redis.Agree.Keys.{rpm_key, tpm_key, keys_apart, bucket_keys_stored}
use valve.Redis.Agree.Amounts.{credit_agrees, credit_bounds}
use valve.Redis.Agree.Mirror.{
  Mirrors, Same-insert, Mirrors_purged, Mirrors_expired, load_alike, expiry_whole,
}

module _ (rest : Rest) (key : Key) (limits : Limits) (cr : pos 0 <ℤ limits.requests_per_minute)
    (ct : pos 0 <ℤ limits.tokens_per_minute) (t now : ℕ) (p : 0 < unix_milli now)
    (le : t ≤ unix_milli now) (at : now ≡ unix_milli now * 1000000) (h : Hashes) (s : Store)
    (v : Mirrors key limits t h s) (id : Bytes) where
  abbrev seen : Hashes
  seen = expire h (unix_milli now)

  abbrev purged : Store
  purged = purge_expired s now

  w : Mirrors key limits (unix_milli now) seen purged
  w = Mirrors_expired key limits t now le at cr ct h s v

  abbrev theirs : Entry → Hashes × Result (Unit {0})
  theirs e =
      let (h', raw) =
        Lua.Refund.refund_hash (reservation_key id) (rpm_key key) (tpm_key key) (pos 900) seen
          (unix_milli now) (hash_at key limits e) in
      (h', Calls.with_mapped raw Calls.done)

  abbrev ours : Entry → Store × Result (Unit {0})
  ours e = Refund.refund_found purged now id (res_at key limits id e)

  -- Both find nothing.
  missing_Mirrors :
      alive (unix_milli now) (h.res (reservation_key id)) ≡ none
      → unexpired now (s.res id) ≡ none
      → let (h', r) = Calls.refund (server rest) h now id in
        let (s', r') = Refund.refund s now id in
        (r ≡ r') × Mirrors key limits (unix_milli now) h' s'
  unfolding Calls.refund Calls.refund_mode Calls.reservation_mode Calls.mode_of hmget field
      Refund.refund map_res_err message purge_expired
  missing_Mirrors a b =
      rw (a, b, Refund.refund) (refl, Mirrors_purged key limits t now le at cr ct h s v)

  theirs_found :
      (e : Entry)
      → alive (unix_milli now) (h.res (reservation_key id)) ≡ some (hash_at key limits e)
      → Calls.refund (server rest) h now id ≡ theirs e
  unfolding Calls.refund Calls.refund_mode Calls.reservation_mode Calls.mode_of hmget field
      run_script bytes_eq refund_script
  theirs_found e a = rw (a, bucket_keys_stored key) (rw (a, refund_script) refl)

  ours_found :
      (e : Entry)
      → unexpired now (s.res id) ≡ some (res_at key limits id e)
      → Refund.refund s now id ≡ ours e
  unfolding Refund.refund purge_expired
  ours_found e b = rw (b, Refund.refund) refl

  -- A reservation of each status.
  module _ (e : Entry) (sound : IsSound e) where
    abbrev x : ℤ
    x = Lua.refill (seen.buckets (rpm_key key)) limits.requests_per_minute (unix_milli now)

    abbrev y : ℤ
    y = Lua.refill (seen.buckets (tpm_key key)) limits.tokens_per_minute (unix_milli now)

    x_bounds : (pos 0 ≤ℤ x) × (x ≤ℤ scale limits.requests_per_minute)
    x_bounds = refill_bounds limits.requests_per_minute cr _ (unix_milli now) w.rpm.left

    y_bounds : (pos 0 ≤ℤ y) × (y ≤ℤ scale limits.tokens_per_minute)
    y_bounds = refill_bounds limits.tokens_per_minute ct _ (unix_milli now) w.tpm.left

    abbrev credited_rpm : BucketState
    credited_rpm = record {
      tokens = min_ℤ (scale limits.requests_per_minute) (x +ℤ scale e.rpm_cost);
      last_ms = unix_milli now;
    }

    abbrev credited_tpm : BucketState
    credited_tpm = record {
      tokens = min_ℤ (scale limits.tokens_per_minute) (y +ℤ scale e.tpm_reserved);
      last_ms = unix_milli now;
    }

    abbrev after : Option Snapshot → Entry
    after o = record e {
      stage = Stage.refunded o;
      expires_ms = expiry (unix_milli now) (pos 900);
      expires_at = now + reservation_ttl;
    }

    credited-Mirrors :
        (o : Option Snapshot)
        → Mirrors key limits
            (unix_milli now)
            (record {
              buckets =
                  insert
                    (tpm_key key)
                    credited_tpm
                    (insert (rpm_key key) credited_rpm seen.buckets);
              res = insert (reservation_key id) (hash_at key limits (after o)) seen.res;
            })
            (record purged {
              rpm = insert (bucket_key key) credited_rpm purged.rpm;
              tpm = insert (bucket_key key) credited_tpm purged.tpm;
              res = insert id (res_at key limits id (after o)) purged.res;
            })
    credited-Mirrors o = record {
      rpm = rw (keys_apart key) (
          rw (bytes_eq_refl (rpm_key key)) (
            rw (bytes_eq_refl (bucket_key key)) (
              AreAlike_refl limits.requests_per_minute cr _ (unix_milli now) (
                p,
                omega arith,
                (credit_bounds x limits.requests_per_minute e.rpm_cost cr x_bounds.0
                    sound.rpm_nonneg).0,
                (credit_bounds x limits.requests_per_minute e.rpm_cost cr x_bounds.0
                    sound.rpm_nonneg).1,
              ))));
      tpm = rw (bytes_eq_refl (tpm_key key)) (
          rw (bytes_eq_refl (bucket_key key)) (
            AreAlike_refl limits.tokens_per_minute ct _ (unix_milli now) (
              p,
              omega arith,
              (credit_bounds y limits.tokens_per_minute e.tpm_reserved ct y_bounds.0
                  sound.tpm_nonneg).0,
              (credit_bounds y limits.tokens_per_minute e.tpm_reserved ct y_bounds.0
                  sound.tpm_nonneg).1,
            )));
      res =
          Same-insert key limits (unix_milli now) id (after o) seen.res purged.res
            (record {
              rpm_nonneg = sound.rpm_nonneg;
              tpm_nonneg = sound.tpm_nonneg;
              whole = expiry_whole now at;
            })
            w.res;
    }

    pending_Mirrors :
        (o : Option Snapshot)
        → let e' = record e { stage = Stage.pending o } in
          ((theirs e').1 ≡ (ours e').1)
          × Mirrors key limits (unix_milli now) (theirs e').0 (ours e').0
    unfolding Lua.Refund.refund_hash Lua.Refund.refund_open Refund.refund_found
        Refund.refund_pending Refund.refund_buckets save_bucket bytes_eq
    pending_Mirrors o =
        rw
          (
            load_alike limits.tokens_per_minute (unix_milli now) _ purged.tpm (bucket_key key) ct
                w.tpm,
            load_alike limits.requests_per_minute (unix_milli now) _ purged.rpm (bucket_key key) cr
                w.rpm,
          )
          (rw
            (
              credit_agrees x (unix_milli now) limits.requests_per_minute e.rpm_cost p cr x_bounds.1
                  sound.rpm_nonneg,
              credit_agrees y (unix_milli now) limits.tokens_per_minute e.tpm_reserved p ct
                  y_bounds.1 sound.tpm_nonneg,
            )
            (refl, credited-Mirrors o))

    settled_Mirrors :
        (f : Final)
        → let e' = record e { stage = Stage.settled f } in
          ((theirs e').1 ≡ (ours e').1)
          × Mirrors key limits (unix_milli now) (theirs e').0 (ours e').0
    unfolding Lua.Refund.refund_hash Refund.refund_found map_res_err message bytes_eq
    settled_Mirrors f = (refl, w)

    refunded_Mirrors :
        (o : Option Snapshot)
        → let e' = record e { stage = Stage.refunded o } in
          ((theirs e').1 ≡ (ours e').1)
          × Mirrors key limits (unix_milli now) (theirs e').0 (ours e').0
    unfolding Lua.Refund.refund_hash Refund.refund_found bytes_eq
    refunded_Mirrors o = (refl, w)

  found_Mirrors :
      (e : Entry)
      → IsSound e
      → ((theirs e).1 ≡ (ours e).1) × Mirrors key limits (unix_milli now) (theirs e).0 (ours e).0
  found_Mirrors e sound =
      elim e.stage
        as (λ st.
          let e' = record e { stage = st } in
          ((theirs e').1 ≡ (ours e').1)
          × Mirrors key limits (unix_milli now) (theirs e').0 (ours e').0) [
            | Stage.pending o ↦ pending_Mirrors e sound o
            | Stage.settled f ↦ settled_Mirrors e sound f
            | Stage.refunded o ↦ refunded_Mirrors e sound o
          ]

  pub refund-Mirrors :
      let (h', r) = Calls.refund (server rest) h now id in
      let (s', r') = Refund.refund s now id in (r ≡ r') × Mirrors key limits (unix_milli now) h' s'
  refund-Mirrors = elim (Same-Seen key limits id t now le at _ _ (v.res id)) [
    | inl (a, b) ↦ missing_Mirrors a b
    | inr (e, sound, a, b) ↦ rw (theirs_found e a, ours_found e b) (found_Mirrors e sound)
  ]
