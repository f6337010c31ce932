-- ===== src/Observed.antt =====
-- pkg/metrics/metrics.go: `ObservedLimiter`, which counts what a limiter answers. The counters of
-- the Prometheus library are numbers here, and exact.
pub mod Transparent
mod Tests
use valve.Common.{
  ℕ, ◌+◌, ◌-◌, ℤ, pos, pos_part, ltb_ℤ, Bool, true, false, ◌&&◌, if◌then◌else◌, Bytes, codes,
  bytes_eq, List, [], ◌∷◌, Option, none, some,
}
use valve.Api.{Decision, Duration, Result, ok, err, limit_name}
use valve.Client.{ApiLimiter}
use valve.Memory.State.{is_empty}
use valve.Lease.Pool.{Pool}
use valve.Lease.Stats.{hit_ratio}

-- The counters, those of `checks` and `settles` by their labels, and the durations of the checks.
pub record Counters : Type 0 where
  pub checks : Bytes → Bytes → ℕ
  pub settles : Bytes → ℕ
  pub refunds : ℕ
  pub durations : List Duration
  pub overshoot : ℕ
  pub store_errs : ℕ

-- The counters that `New` registers.
abbrev pub new_counters : Counters
new_counters = record {
  checks = λ r l. 0;
  settles = λ r. 0;
  refunds = 0;
  durations = [];
  overshoot = 0;
  store_errs = 0;
}

-- The gauge of the share of hits, as a fraction: `WithHitRatio` binds a pool.
unfoldable pub lease_gauge : Option Pool → ℕ × ℕ
unfolding hit_ratio
lease_gauge none = (0, 1)
lease_gauge (some p) = hit_ratio p

-- `WithLabelValues(…).Inc()`
unfoldable pub inc_check : Bytes → Bytes → Counters → Counters
inc_check result lt c = record c {
  checks = λ r l. if bytes_eq result r && bytes_eq lt l then c.checks r l + 1 else c.checks r l;
}

unfoldable pub inc_settle : Bytes → Counters → Counters
inc_settle result c = record c {
  settles = λ r. if bytes_eq result r then c.settles r + 1 else c.settles r;
}

-- `if n > 0 { o.overshoot.Add(float64(n)) }`
unfoldable pub add_overshoot : ℤ → Counters → Counters
add_overshoot n c = if ltb_ℤ (pos 0) n then record c { overshoot = c.overshoot + pos_part n } else c

abbrev pub or_none : Bytes → Bytes
or_none lt = if is_empty lt then codes "none" else lt

abbrev pub result_name : Bool → Bytes
result_name allowed = if allowed then codes "allow" else codes "deny"

-- `Check`, after the time that it took.
unfoldable pub count_check : Counters → Result Decision → Counters
unfolding inc_check
count_check c (err e) = record c { store_errs = c.store_errs + 1 }
count_check c (ok d) = inc_check (result_name d.allowed) (or_none (limit_name d.limit_type)) c

-- `Settle`
unfoldable pub count_settle : Counters → Result Decision → Counters
unfolding inc_settle add_overshoot
count_settle c (err e) = inc_settle (codes "error") (record c { store_errs = c.store_errs + 1 })
count_settle c (ok d) = add_overshoot d.overshoot_tpm (inc_settle (codes "ok") c)

-- `SettleIO`
unfoldable pub count_settle_io : Counters → Result Decision → Counters
unfolding inc_settle add_overshoot
count_settle_io c (err e) = inc_settle (codes "error") (record c { store_errs = c.store_errs + 1 })
count_settle_io c (ok d) =
    add_overshoot d.overshoot_otpm (add_overshoot d.overshoot_itpm (inc_settle (codes "ok") c))

-- `Refund`
unfoldable pub count_refund : Counters → Result (Unit {0}) → Counters
count_refund c (err e) = record c { refunds = c.refunds + 1; store_errs = c.store_errs + 1 }
count_refund c (ok t) = record c { refunds = c.refunds + 1 }

-- `ObservedLimiter`; `now` is the clock in the state of the limiter.
abbrev pub observed : (L : ApiLimiter) → (L.State → ℕ) → ApiLimiter
observed L now = record {
  State = L.State × Counters;
  check = λ (s, c) key limits cost.
      let (s', r) = L.check s key limits cost in
      ((s', count_check (record c { durations = (now s' - now s) ∷ c.durations }) r), r);
  settle = λ (s, c) id actual. let (s', r) = L.settle s id actual in ((s', count_settle c r), r);
  settle_io = λ (s, c) id actual_in actual_out.
      let (s', r) = L.settle_io s id actual_in actual_out in ((s', count_settle_io c r), r);
  refund = λ (s, c) id. let (s', r) = L.refund s id in ((s', count_refund c r), r);
}
