-- ===== src/Redis/Agree/Mirror/Settles.antt =====
-- `Settle` on stores that mirror each other.
use valve.Common.{
  ℕ, ◌<◌, ◌≤◌, ◌*◌, ◌+◌, ℤ, pos, ◌≤ℤ◌, ◌<ℤ◌, ◌-ℤ◌, ◌≡◌, refl, arith, inl, inr, Bytes, bytes_eq,
  bytes_eq_refl, Option, none, some, insert,
}
use valve.Api.{Key, Limits, Decision, Result, message, limit_type_of}
use valve.Bucket.{scale, clamp_cost, remaining_int, reset_at}
use valve.Memory.State.{Store, bucket_key, save_bucket, unix_milli, purge_expired, unexpired}
use valve.Memory.Settle
use valve.Memory.Settle.{settle_axis}
use valve.Redis.Keys.{reservation_key}
use valve.Redis.Errors.{map_res_err}
use valve.Redis.Lua
use valve.Redis.Lua.{Hashes, ResHash, Snapshot, alive, expire, expiry}
use valve.Redis.Reply.{to_int64, to_string}
use valve.Store.{reservation_ttl}
use valve.Redis.Lua.Settle.{settle_tokens, settle_script}
use valve.Redis.Lua.Run.{Rest, server, run_script, hmget, field}
use valve.Redis.Calls
use valve.Redis.Parse.{parse_settle}
use valve.Redis.Agree.Refill.{held}
use valve.Redis.Agree.Entries.{Entry, Stage, Final, IsSound, Same-Seen, hash_at, res_at}
use valve.Redis.Agree.Alike.{AreAlike_refl, refilled_alike, refill_bounds}
use valve.Redis.Agree.Answers.{SameAnswer}
use valve.Redis.Agree.Keys.{rpm_key, tpm_key, keys_apart_back, bucket_keys_stored}
use valve.Redis.Agree.Amounts.{axis_agrees, settle_tokens_bounds}
use valve.Redis.Agree.Mirror.{
  Mirrors, Same-insert, Mirrors_purged, Mirrors_expired, load_alike, expiry_whole,
}

module _ (rest : Rest) (key : Key) (limits : Limits) (cr : pos 0 <ℤ limits.requests_per_minute)
    (ct : pos 0 <ℤ limits.tokens_per_minute) (t now : ℕ) (p : 0 < unix_milli now)
    (le : t ≤ unix_milli now) (at : now ≡ unix_milli now * 1000000) (h : Hashes) (s : Store)
    (v : Mirrors key limits t h s) (id : Bytes) (actual : ℤ) where
  abbrev seen : Hashes
  seen = expire h (unix_milli now)

  abbrev purged : Store
  purged = purge_expired s now

  w : Mirrors key limits (unix_milli now) seen purged
  w = Mirrors_expired key limits t now le at cr ct h s v

  abbrev theirs : Entry → Hashes × Result Decision
  theirs e =
      let (h', raw) =
        Lua.Settle.settle_hash (reservation_key id) (rpm_key key) (tpm_key key) actual (pos 900)
          seen (unix_milli now) (hash_at key limits e) in
      (h', Calls.with_mapped raw (λ r. parse_settle r id))

  abbrev ours : Entry → Store × Result Decision
  ours e = Settle.settle_found purged now id actual (res_at key limits id e)

  -- Both find nothing.
  missing_Mirrors :
      alive (unix_milli now) (h.res (reservation_key id)) ≡ none
      → unexpired now (s.res id) ≡ none
      → let (h', r) = Calls.settle (server rest) h now id actual in
        let (s', r') = Settle.settle s now id actual in
        SameAnswer r r' × Mirrors key limits (unix_milli now) h' s'
  unfolding Calls.settle Calls.settle_mode Calls.reservation_mode Calls.mode_of hmget field
      Settle.settle map_res_err message purge_expired
  missing_Mirrors a b =
      rw (a, b, Settle.settle) (refl, Mirrors_purged key limits t now le at cr ct h s v)

  theirs_found :
      (e : Entry)
      → alive (unix_milli now) (h.res (reservation_key id)) ≡ some (hash_at key limits e)
      → Calls.settle (server rest) h now id actual ≡ theirs e
  unfolding Calls.settle Calls.settle_mode Calls.reservation_mode Calls.mode_of hmget field
      run_script bytes_eq settle_script
  theirs_found e a = rw (a, bucket_keys_stored key) (rw (a, settle_script) refl)

  ours_found :
      (e : Entry)
      → unexpired now (s.res id) ≡ some (res_at key limits id e)
      → Settle.settle s now id actual ≡ ours e
  unfolding Settle.settle purge_expired
  ours_found e b = rw (b, Settle.settle) refl

  -- A reservation of each status.
  module _ (e : Entry) (sound : IsSound e) where
    abbrev x : ℤ
    x = Lua.refill (seen.buckets (rpm_key key)) limits.requests_per_minute (unix_milli now)

    abbrev y : ℤ
    y = Lua.refill (seen.buckets (tpm_key key)) limits.tokens_per_minute (unix_milli now)

    abbrev left : ℤ × ℤ
    left = settle_tokens y limits.tokens_per_minute (e.tpm_reserved -ℤ clamp_cost actual)

    y_bounds : (pos 0 ≤ℤ y) × (y ≤ℤ scale limits.tokens_per_minute)
    y_bounds = refill_bounds limits.tokens_per_minute ct _ (unix_milli now) w.tpm.left

    abbrev final : Final
    final = record {
      remaining_rpm = remaining_int x;
      remaining_tpm = remaining_int left.0;
      overshoot = left.1;
      reset_rpm = reset_at (held x (unix_milli now) limits.requests_per_minute) (unix_milli now);
      reset_tpm = reset_at (held left.0 (unix_milli now) limits.tokens_per_minute) (unix_milli now);
    }

    abbrev after : Entry
    after = record e {
      stage = Stage.settled final;
      expires_ms = expiry (unix_milli now) (pos 900);
      expires_at = now + reservation_ttl;
    }

    left_bounds : (pos 0 ≤ℤ left.0) × (left.0 ≤ℤ scale limits.tokens_per_minute)
    left_bounds = settle_tokens_bounds y limits.tokens_per_minute _ ct y_bounds.0 y_bounds.1

    written-Mirrors :
        Mirrors key limits
          (unix_milli now)
          (record {
            buckets =
                insert
                  (rpm_key key)
                  (record { tokens = x; last_ms = unix_milli now })
                  (insert
                    (tpm_key key)
                    (record { tokens = left.0; last_ms = unix_milli now })
                    seen.buckets);
            res = insert (reservation_key id) (hash_at key limits after) seen.res;
          })
          (record purged {
            tpm =
                insert
                  (bucket_key key)
                  (record { tokens = left.0; last_ms = unix_milli now })
                  purged.tpm;
            res = insert id (res_at key limits id after) purged.res;
          })
    written-Mirrors = record {
      rpm =
          rw (bytes_eq_refl (rpm_key key))
            (refilled_alike limits.requests_per_minute cr _ _ (unix_milli now) p w.rpm);
      tpm = rw (keys_apart_back key) (
          rw (bytes_eq_refl (tpm_key key)) (
            rw (bytes_eq_refl (bucket_key key)) (
              AreAlike_refl limits.tokens_per_minute ct _ (unix_milli now)
                (p, omega arith, left_bounds.0, left_bounds.1))));
      res =
          Same-insert key limits (unix_milli now) id after seen.res purged.res
            (record {
              rpm_nonneg = sound.rpm_nonneg;
              tpm_nonneg = sound.tpm_nonneg;
              whole = expiry_whole now at;
            })
            w.res;
    }

    pending_Mirrors :
        (o : Option Snapshot)
        → let e' = record e { stage = Stage.pending o } in
          SameAnswer (theirs e').1 (ours e').1
          × Mirrors key limits (unix_milli now) (theirs e').0 (ours e').0
    unfolding Lua.Settle.settle_hash Lua.Settle.settle_open Lua.Settle.settle_write
        Settle.settle_found Settle.settle_pending parse_settle to_int64 to_string limit_type_of
        save_bucket bytes_eq
    pending_Mirrors o =
        rw
          (
            load_alike limits.tokens_per_minute (unix_milli now) _ purged.tpm (bucket_key key) ct
                w.tpm,
            load_alike limits.requests_per_minute (unix_milli now) _ purged.rpm (bucket_key key) cr
                w.rpm,
          )
          (rw
            (axis_agrees y (unix_milli now) limits.tokens_per_minute e.tpm_reserved
              (clamp_cost actual) p ct y_bounds.1)
            (
              record {
                allowed = refl;
                limit_type = refl;
                remaining_rpm = refl;
                remaining_tpm = refl;
                retry_after = refl;
                limit_rpm = refl;
                limit_tpm = refl;
                overshoot_tpm = refl;
                reservation_id = refl;
              },
              written-Mirrors,
            ))

    settled_Mirrors :
        (f : Final)
        → let e' = record e { stage = Stage.settled f } in
          SameAnswer (theirs e').1 (ours e').1
          × Mirrors key limits (unix_milli now) (theirs e').0 (ours e').0
    unfolding Lua.Settle.settle_hash Lua.Settle.settled_reply Settle.settle_found parse_settle
        to_int64 to_string limit_type_of bytes_eq Lua.Settle.or_zero
    settled_Mirrors f = (
      record {
        allowed = refl;
        limit_type = refl;
        remaining_rpm = refl;
        remaining_tpm = refl;
        retry_after = refl;
        limit_rpm = refl;
        limit_tpm = refl;
        overshoot_tpm = refl;
        reservation_id = refl;
      },
      w,
    )

    refunded_Mirrors :
        (o : Option Snapshot)
        → let e' = record e { stage = Stage.refunded o } in
          SameAnswer (theirs e').1 (ours e').1
          × Mirrors key limits (unix_milli now) (theirs e').0 (ours e').0
    unfolding Lua.Settle.settle_hash Settle.settle_found map_res_err message bytes_eq
    refunded_Mirrors o = (refl, w)

  found_Mirrors :
      (e : Entry)
      → IsSound e
      → SameAnswer (theirs e).1 (ours e).1
        × Mirrors key limits (unix_milli now) (theirs e).0 (ours e).0
  found_Mirrors e sound =
      elim e.stage
        as (λ st.
          let e' = record e { stage = st } in
          SameAnswer (theirs e').1 (ours e').1
          × Mirrors key limits (unix_milli now) (theirs e').0 (ours e').0) [
            | Stage.pending o ↦ pending_Mirrors e sound o
            | Stage.settled f ↦ settled_Mirrors e sound f
            | Stage.refunded o ↦ refunded_Mirrors e sound o
          ]

  pub settle-Mirrors :
      let (h', r) = Calls.settle (server rest) h now id actual in
      let (s', r') = Settle.settle s now id actual in
      SameAnswer r r' × Mirrors key limits (unix_milli now) h' s'
  settle-Mirrors = elim (Same-Seen key limits id t now le at _ _ (v.res id)) [
    | inl (a, b) ↦ missing_Mirrors a b
    | inr (e, sound, a, b) ↦ rw (theirs_found e a, ours_found e b) (found_Mirrors e sound)
  ]
