-- ===== src/Redis/Agree/Runs.antt =====
-- Rows of `Check` calls at one key, on a Redis server and on the memory store.
use valve.Common.{ℕ, ◌<◌, pos, ◌<ℤ◌, ◌≡◌, refl, false, Bool-cases, inl, inr, Bytes, List, [], ◌∷◌}
use valve.Api.{Key, Limits, Cost, Decision, Result, split, is_partial}
use valve.Memory.State.{Store, new, unix_milli, purge_expired, is_empty}
use valve.Memory.Check
use valve.Redis.Lua.{Hashes, no_hashes, expire}
use valve.Redis.Lua.Run.{Rest, server, run_script}
use valve.Redis.Calls
use valve.Redis.Agree.Answers.{Agrees, SameAnswer}
use valve.Redis.Agree.Checks.{locked-Agrees}

-- One request: its time, its cost and its identifier.
pub record Request : Type 0 where
  pub now : ℕ
  pub cost : Cost
  pub id : Bytes

-- Every time is past the first millisecond of 1970.
abbrev pub AllTimed : List Request → Type 0
AllTimed [] = Unit {0}
AllTimed (r ∷ rs) = (0 < unix_milli r.now) × AllTimed rs

-- The answers agree one by one.
abbrev pub AllSame : List (Result Decision) → List (Result Decision) → Type 0
AllSame [] [] = Unit {0}
AllSame (a ∷ xs) (b ∷ ys) = SameAnswer a b × AllSame xs ys
AllSame [] (b ∷ ys) = ⊥
AllSame (a ∷ xs) [] = ⊥

-- The answers of the two stores to a row of requests.
module _ (key : Key) (limits : Limits) where
  abbrev pub memory_answers : Store → List Request → List (Result Decision)
  memory_answers s [] = []
  memory_answers s (r ∷ rs) =
      let (s', a) = Check.check s r.now key limits r.cost r.id in a ∷ memory_answers s' rs

  module _ (rest : Rest) where
    abbrev pub redis_answers : Hashes → List Request → List (Result Decision)
    redis_answers h [] = []
    redis_answers h (r ∷ rs) =
        let (h', a) = Calls.check (server rest) h r.now key limits r.cost r.id in
        a ∷ redis_answers h' rs

module _ (rest : Rest) (key : Key) (limits : Limits) (cr : pos 0 <ℤ limits.requests_per_minute)
    (ct : pos 0 <ℤ limits.tokens_per_minute) (classic : split limits ≡ false) where
  purged :
      (h : Hashes) (s : Store) (now : ℕ)
      → Agrees key limits h s
      → Agrees key limits h (purge_expired s now)
  unfolding purge_expired
  purged h s now v = record {
    rpm = v.rpm;
    tpm = v.tpm;
    rpm_within = v.rpm_within;
    tpm_within = v.tpm_within;
  }

  expired_purged :
      (h : Hashes) (s : Store) (now : ℕ)
      → Agrees key limits h s
      → Agrees key limits (expire h (unix_milli now)) (purge_expired s now)
  unfolding purge_expired
  expired_purged h s now v = record {
    rpm = v.rpm;
    tpm = v.tpm;
    rpm_within = v.rpm_within;
    tpm_within = v.tpm_within;
  }

  check-Agrees :
      (h : Hashes) (s : Store) (now : ℕ) (cost : Cost) (id : Bytes)
      → 0 < unix_milli now
      → Agrees key limits h s
      → let (h', r) = Calls.check (server rest) h now key limits cost id in
        let (s', r') = Check.check s now key limits cost id in
        SameAnswer r r' × Agrees key limits h' s'
  unfolding Calls.check Check.check Calls.run_check run_script
  check-Agrees h s now cost id p v = elim (Bool-cases (is_partial limits)) [
    | inl part ↦ rw part (refl, v)
    | inr whole ↦ elim (Bool-cases (is_empty key.subject)) [
      | inl unnamed ↦ rw (whole, unnamed) (refl, purged h s now v)
      | inr named ↦ elim (Bool-cases (is_empty id)) [
        | inl empty ↦ rw (whole, named, empty) (refl, purged h s now v)
        | inr full ↦
            rw (whole, named, full, classic)
              (locked-Agrees (expire h (unix_milli now)) (purge_expired s now) now key limits cost
                id p cr ct (expired_purged h s now v))
      ]
    ]
  ]

  answers_agree :
      (rs : List Request) (h : Hashes) (s : Store)
      → AllTimed rs
      → Agrees key limits h s
      → AllSame (redis_answers key limits rest h rs) (memory_answers key limits s rs)
  answers_agree [] h s t v = tt
  answers_agree (r ∷ rs) h s (p, t) v =
      let (same, v') = check-Agrees h s r.now r.cost r.id p v in
      (
        same,
        answers_agree rs (Calls.check (server rest) h r.now key limits r.cost r.id).0
            (Check.check s r.now key limits r.cost r.id).0 t v',
      )

  -- Whatever requests come at a key under positive classic limits, and at whatever times past the
  -- first millisecond of 1970, an empty Redis server that runs `check.lua` answers each as an empty
  -- memory store does, but for the times at which the buckets are full.
  pub redis_refines_memory :
      (rs : List Request)
      → AllTimed rs
      → AllSame (redis_answers key limits rest no_hashes rs) (memory_answers key limits new rs)
  redis_refines_memory rs t =
      answers_agree rs no_hashes new t
        (record { rpm = refl; tpm = refl; rpm_within = tt; tpm_within = tt })
