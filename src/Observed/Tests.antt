-- ===== src/Observed/Tests.antt =====
-- Runs of pkg/metrics/metrics.go over the limiter of pkg/limiter with a memory store.
use valve.Common.{ℕ, ◌*◌, ◌+◌, pos, codes, [], ◌∷◌, List, none, some}
use valve.Api.{fail_closed}
use valve.Memory.State.{new}
use valve.Limiter.Backend.{memory}
use valve.Client.{ApiLimiter, Call, checked, settled, refunded, Turn, limiter}
use valve.Observed.{Counters}
use valve.Observed.Transparent.{IsSame, observed_lem}

abbrev turn : ℕ → Turn
turn n = record { id = some (codes "x"); again = none; clock = λ i. 1000000000 + n * 1000000 }

abbrev lim : ApiLimiter
lim = limiter memory turn

abbrev now : lim.State → ℕ
now s = s.1

abbrev start : lim.State
start = (record { store = new; fail_mode = fail_closed; pool = none }, 0)

abbrev zero : Counters
zero = record {
  checks = λ r l. 0;
  settles = λ r. 0;
  refunds = 0;
  durations = [];
  overshoot = 0;
  store_errs = 0;
}

abbrev calls : List Call
calls =
    checked (record { subject = codes "a"; model = [] })
      (record {
        requests_per_minute = pos 2;
        tokens_per_minute = pos 100;
        input_tokens_per_minute = pos 0;
        output_tokens_per_minute = pos 0;
      })
      (record { requests = pos 1; tokens = pos 60; input_tokens = pos 0; output_tokens = pos 0 })
    ∷ settled (codes "x") (pos 50)
    ∷ refunded (codes "y")
    ∷ []

observed_lem_example : IsSame lim now calls start zero
observed_lem_example = observed_lem lim now calls start zero
