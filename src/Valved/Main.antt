-- ===== src/Valved/Main.antt =====
-- What cmd/valved/main.go builds from its environment, and the health checks of cmd/valved/http.go.
use valve.Common.{
  ℕ, ◌+◌, ◌*◌, ◌≤◌, ◌<◌, ℤ, pos, negsuc, wrap64, wrap64_lem, IsInt64, ◌<ℤ◌, Bool, true, Bool-cases,
  inl, inr, ◌≡◌, refl, arith, if◌then◌else◌, Bytes, codes, bytes_eq, Option, none, some, List, [],
  ◌∷◌,
}
use valve.Api.{fail_open, fail_closed, Result, err, message}
use valve.Http.{Emit, write_header, write, error}
use valve.Lease.Config.{Config, normalized}
use valve.Lease.Pool.{new_pool}
use valve.Limiter.Backend.{Limiter}
use valve.Limiter.Options.{Choice, with_fail_mode, with_fast_path, new_limiter, apply_all, apply}
use valve.Observed.{lease_gauge}
use valve.Valved.Env.{env, env_bool, env_int64, env_int64-format_int, fail_mode}
use valve.Strconv.{format_int}
use valve.Memory.State.{is_empty}

-- `time.Duration(n) * time.Millisecond`, on `int64`.
unfoldable pub times_millisecond : ℤ → ℤ
times_millisecond (pos n) = wrap64 (pos (1000000 * n))
times_millisecond (negsuc n) = wrap64 (negsuc (1000000 * n + 999999))

module _ (getenv : Bytes → Bytes) where
  abbrev pub fast_path : Bool
  fast_path = env_bool getenv (codes "FAST_PATH") true

  -- The configuration of the leases.
  unfoldable pub lease_config : Config
  unfolding times_millisecond
  lease_config = record {
    rpm_chunk = env_int64 getenv (codes "RPM_CHUNK") (pos 5);
    tpm_chunk = env_int64 getenv (codes "TPM_CHUNK") (pos 500);
    itpm_chunk = pos 0;
    otpm_chunk = pos 0;
    lease_ttl = times_millisecond (env_int64 getenv (codes "LEASE_TTL_MS") (pos 2000));
  }

  -- `opts`
  unfoldable pub choices : List Choice
  choices =
      with_fail_mode (fail_mode getenv)
      ∷ (if fast_path then with_fast_path lease_config ∷ [] else [])

  -- `inner`, over the store that `main` opens.
  unfoldable pub server_limiter : {S : Type 0} → S → Limiter S
  unfolding choices new_limiter
  server_limiter s = new_limiter s choices

  -- The gauge of `lim`.
  unfoldable pub server_gauge : {S : Type 0} → Limiter S → ℕ × ℕ
  unfolding lease_gauge
  server_gauge l = if fast_path then lease_gauge l.pool else lease_gauge none

-- `GET /healthz`
abbrev pub healthz : List Emit
healthz = write_header 200 ∷ write (codes "ok") ∷ []

-- `GET /readyz`, with what the check of the server answers, where there is one.
unfoldable pub readyz : Option (Result (Unit {0})) → List Emit
readyz (some (err e)) = error (message e) 503 ∷ []
readyz _ = write_header 200 ∷ write (codes "ready") ∷ []

-- The chunks and the time to live of a pool are positive.
pub record IsRunning (c : Config) : Type 0 where
  pub rpm : pos 0 <ℤ c.rpm_chunk
  pub tpm : pos 0 <ℤ c.tpm_chunk
  pub itpm : pos 0 <ℤ c.itpm_chunk
  pub otpm : pos 0 <ℤ c.otpm_chunk
  pub ttl : pos 0 <ℤ c.lease_ttl

normalized-IsRunning : (c : Config) → IsRunning (normalized c)
unfolding normalized
normalized-IsRunning c = record {
  rpm = ground arith;
  tpm = ground arith;
  itpm = ground arith;
  otpm = ground arith;
  ttl = ground arith;
}

times_millisecond_lem : (n : ℕ) → n ≤ 9223372036854 → times_millisecond (pos n) ≡ pos (1000000 * n)
unfolding times_millisecond
times_millisecond_lem n h = wrap64_lem (pos (1000000 * n)) (omega arith)

format_int-IsInt64 : (n : ℕ) → n ≤ 9223372036854 → IsInt64 (pos n)
format_int-IsInt64 n h = omega arith

default_mode :
    (v : Bytes)
    → bytes_eq (if is_empty v then codes "closed" else v) (codes "open") ≡ bytes_eq v (codes "open")
unfolding bytes_eq
default_mode [] = refl
default_mode (b ∷ v) = refl

fail_mode_lem :
    (getenv : Bytes → Bytes)
    → fail_mode getenv
      ≡ (if bytes_eq (getenv (codes "FAIL_MODE")) (codes "open") then fail_open else fail_closed)
unfolding fail_mode env
fail_mode_lem getenv = rw (default_mode (getenv (codes "FAIL_MODE"))) refl

lease_ttl-set :
    (getenv : Bytes → Bytes) (n : ℕ)
    → 0 < n
    → n ≤ 9223372036854
    → getenv (codes "LEASE_TTL_MS") ≡ format_int (pos n)
    → (normalized (lease_config getenv)).lease_ttl ≡ pos (1000000 * n)
unfolding lease_config normalized
lease_ttl-set getenv n p le e =
    rw
      (
        env_int64-format_int getenv (codes "LEASE_TTL_MS") (pos n) (pos 2000)
            (format_int-IsInt64 n le) e,
        times_millisecond_lem n le,
      )
      (ground arith)

-- Whatever the environment is, but for a time to live of n milliseconds whose nanoseconds are an
-- `int64`, the server starts over the store that it opened; it fails open exactly where the mode is
-- `open`; it has a pool exactly where the fast path is on; and the chunks of the pool are positive,
-- and its leases live for n milliseconds.
pub server_limiter_lem :
    {S : Type 0} (getenv : Bytes → Bytes) (s : S) (n : ℕ)
    → 0 < n
    → n ≤ 9223372036854
    → getenv (codes "LEASE_TTL_MS") ≡ format_int (pos n)
    → let l = server_limiter getenv s in
      let p = new_pool (lease_config getenv) in
      (l.store ≡ s)
      × (l.fail_mode ≡ (
          if bytes_eq (getenv (codes "FAIL_MODE")) (codes "open") then fail_open else fail_closed))
      × (l.pool ≡ (if fast_path getenv then some p else none))
      × IsRunning p.cfg
      × (p.cfg.lease_ttl ≡ pos (1000000 * n))
unfolding server_limiter choices new_limiter apply_all apply
server_limiter_lem getenv s n p le e = elim (Bool-cases (fast_path getenv)) [
  | inl on ↦ rw on (
    refl,
    fail_mode_lem getenv,
    refl,
    normalized-IsRunning (lease_config getenv),
    lease_ttl-set getenv n p le e,
  )
  | inr off ↦ rw off (
    refl,
    fail_mode_lem getenv,
    refl,
    normalized-IsRunning (lease_config getenv),
    lease_ttl-set getenv n p le e,
  )
]
