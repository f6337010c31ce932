-- ===== src/Redis/Agree/Mirror/Checks.antt =====
-- `Check` on stores that mirror each other.
use valve.Common.{
  ℕ, ◌<◌, ◌≤◌, ◌*◌, ℤ, pos, ◌≤ℤ◌, ◌<ℤ◌, ◌-ℤ◌, ◌≡◌, refl, arith, false, Bool-cases, inl, inr, Bytes,
  bytes_eq_refl, some,
}
use valve.Api.{Key, Limits, Cost, split, is_partial}
use valve.Bucket.{scale, clamp_cost}
use valve.Bucket.Arith.{token_laws}
use valve.Memory.State.{Store, bucket_key, unix_milli, purge_expired, is_empty}
use valve.Memory.Check
use valve.Redis.Lua.{Hashes, expire}
use valve.Redis.Lua.Run.{Rest, server, run_script}
use valve.Redis.Calls
use valve.Redis.Agree.Entries.{IsSound}
use valve.Redis.Agree.Alike.{IsHeld, AreAlike_refl, refill_bounds}
use valve.Redis.Agree.Keys.{rpm_key, tpm_key, keys_apart}
use valve.Redis.Agree.Answers.{SameAnswer}
use valve.Redis.Agree.Checks.{
  locked_agrees, theirs_debited, ours_debited, refilled_rpm, refilled_tpm, made,
}
use valve.Redis.Agree.Mirror.{
  Mirrors, Same-insert, Mirrors_purged, Mirrors_expired, Mirrors-later, load_alike, expiry_whole,
}

-- A paid amount leaves a bucket between zero and the capacity.
paid-IsHeld :
    (capacity x cost : ℤ) (now_ms : ℕ)
    → 0 < now_ms
    → scale (clamp_cost cost) ≤ℤ x
    → x ≤ℤ scale capacity
    → IsHeld capacity now_ms
        (some (record { tokens = x -ℤ scale (clamp_cost cost); last_ms = now_ms }))
paid-IsHeld capacity x cost now_ms p le w = (p, omega arith, grind token_laws, grind token_laws)

made-IsSound :
    (h : Hashes) (s : Store) (now : ℕ) (key : Key) (limits : Limits) (cost : Cost) (id : Bytes)
    → now ≡ unix_milli now * 1000000
    → IsSound (made h s now key limits cost id)
made-IsSound h s now key limits cost id at = record {
  rpm_nonneg = grind token_laws;
  tpm_nonneg = grind token_laws;
  whole = expiry_whole now at;
}

module _ (rest : Rest) (key : Key) (limits : Limits) (cr : pos 0 <ℤ limits.requests_per_minute)
    (ct : pos 0 <ℤ limits.tokens_per_minute) (classic : split limits ≡ false) (t now : ℕ)
    (p : 0 < unix_milli now) (le : t ≤ unix_milli now) (at : now ≡ unix_milli now * 1000000)
    (h : Hashes) (s : Store) (v : Mirrors key limits t h s) (cost : Cost) (id : Bytes) where
  abbrev seen : Hashes
  seen = expire h (unix_milli now)

  abbrev purged : Store
  purged = purge_expired s now

  abbrev x : ℤ
  x = refilled_rpm seen purged now key limits cost id

  abbrev y : ℤ
  y = refilled_tpm seen purged now key limits cost id

  w : Mirrors key limits (unix_milli now) seen purged
  w = Mirrors_expired key limits t now le at cr ct h s v

  x_bounds : (pos 0 ≤ℤ x) × (x ≤ℤ scale limits.requests_per_minute)
  x_bounds = refill_bounds limits.requests_per_minute cr _ (unix_milli now) w.rpm.left

  y_bounds : (pos 0 ≤ℤ y) × (y ≤ℤ scale limits.tokens_per_minute)
  y_bounds = refill_bounds limits.tokens_per_minute ct _ (unix_milli now) w.tpm.left

  debited-Mirrors :
      scale (clamp_cost cost.requests) ≤ℤ x
      → scale (clamp_cost cost.tokens) ≤ℤ y
      → Mirrors key limits
          (unix_milli now)
          (theirs_debited seen purged now key limits cost id)
          (ours_debited seen purged now key limits cost id)
  debited-Mirrors a b = record {
    rpm = rw (keys_apart key) (
        rw (bytes_eq_refl (rpm_key key)) (
          rw (bytes_eq_refl (bucket_key key)) (
            AreAlike_refl limits.requests_per_minute cr _ (unix_milli now) (
              paid-IsHeld limits.requests_per_minute x cost.requests (unix_milli now) p a
                x_bounds.1))));
    tpm = rw (bytes_eq_refl (tpm_key key)) (
        rw (bytes_eq_refl (bucket_key key)) (
          AreAlike_refl limits.tokens_per_minute ct _ (unix_milli now)
            (paid-IsHeld limits.tokens_per_minute y cost.tokens (unix_milli now) p b y_bounds.1)));
    res =
        Same-insert key limits (unix_milli now) id (made seen purged now key limits cost id)
          seen.res purged.res (made-IsSound seen purged now key limits cost id at) w.res;
  }

  pub check-Mirrors :
      let (h', r) = Calls.check (server rest) h now key limits cost id in
      let (s', r') = Check.check s now key limits cost id in
      SameAnswer r r' × Mirrors key limits (unix_milli now) h' s'
  unfolding Calls.check Check.check Calls.run_check run_script
  check-Mirrors = elim (Bool-cases (is_partial limits)) [
    | inl part ↦ rw part (refl, Mirrors-later key limits t (unix_milli now) h s cr ct le v)
    | inr whole ↦ elim (Bool-cases (is_empty key.subject)) [
      | inl unnamed ↦ rw (whole, unnamed) (refl, Mirrors_purged key limits t now le at cr ct h s v)
      | inr named ↦ elim (Bool-cases (is_empty id)) [
        | inl empty ↦
            rw (whole, named, empty) (refl, Mirrors_purged key limits t now le at cr ct h s v)
        | inr full ↦
            rw (whole, named, full, classic)
              (locked_agrees seen purged now key limits cost id p cr ct
                (load_alike limits.requests_per_minute (unix_milli now) _ purged.rpm
                  (bucket_key key) cr w.rpm)
                (load_alike limits.tokens_per_minute (unix_milli now) _ purged.tpm (bucket_key key)
                  ct w.tpm)
                x_bounds.1 y_bounds.1 (Mirrors key limits (unix_milli now)) w debited-Mirrors)
      ]
    ]
  ]
