-- ===== src/Examples/Tests.antt =====
-- Runs of the demo servers over their limiter with a memory store.
use valve.Common.{ℕ, ◌*◌, ◌+◌, ◌≡◌, Bytes, codes, Option, none, some}
use valve.Api.{Error}
use valve.Client.{ApiLimiter, Turn, limiter}
use valve.Limiter.Backend.{memory}
use valve.Examples.{demo_limiter, gin_key, gin_limits, gin_cost, valve_gin, valve_echo}
use valve.Examples.Alike.{IsOutcome, valve_gin-valve_echo}

abbrev turn : ℕ → Turn
turn n = record { id = some (codes "x"); again = none; clock = λ i. 1000000000 + n * 1000000 }

abbrev lim : ApiLimiter
lim = limiter memory turn

abbrev sum256 : Bytes → Bytes
sum256 s = s

abbrev clock : ℕ → ℕ
clock i = 1000000000

-- The handler answers without an error.
abbrev next : lim.State → Bytes → lim.State × Option Error
next s id = (s, none)

valve_gin-valve_echo_example :
    let (g, aborted) = valve_gin lim sum256 (demo_limiter, 0) (codes "a") clock 1000000000 next in
    let (h, error) = valve_echo lim sum256 (demo_limiter, 0) (codes "a") clock 1000000000 next in
    (g ≡ h)
    × IsOutcome next
        (lim.check (demo_limiter, 0) (gin_key (codes "a")) gin_limits gin_cost)
        g.state
        aborted
        error
valve_gin-valve_echo_example =
    valve_gin-valve_echo lim sum256 (codes "a") clock 1000000000 next (demo_limiter, 0)
