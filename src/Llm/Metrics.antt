-- ===== src/Llm/Metrics.antt =====
-- pkg/llm/metrics.go: each counter is an atomic `int64`, which wraps.
use valve.Common.{ℤ, pos, ltb_ℤ, add64, if◌then◌else◌}

-- `Metrics`, and its `Snapshot`.
pub record Metrics : Type 0 where
  pub estimate_total : ℤ
  pub actual_total : ℤ
  pub over_estimate : ℤ
  pub under_estimate : ℤ
  pub exact : ℤ

abbrev pub no_metrics : Metrics
no_metrics = record {
  estimate_total = pos 0;
  actual_total = pos 0;
  over_estimate = pos 0;
  under_estimate = pos 0;
  exact = pos 0;
}

-- `Record`
unfoldable pub add_settle : Metrics → ℤ → ℤ → Metrics
add_settle m estimated actual =
    let m1 : Metrics = record m {
      estimate_total = add64 m.estimate_total estimated;
      actual_total = add64 m.actual_total actual;
    } in
    if ltb_ℤ actual estimated
    then record m1 { over_estimate = add64 m.over_estimate (pos 1) }
    else if ltb_ℤ estimated actual
    then record m1 { under_estimate = add64 m.under_estimate (pos 1) }
    else record m1 { exact = add64 m.exact (pos 1) }
