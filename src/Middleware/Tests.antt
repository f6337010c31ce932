-- ===== src/Middleware/Tests.antt =====
-- Runs of pkg/middleware over a limiter that allows one subject.
use valve.Common.{ℕ, ◌+◌, pos, ◌≡◌, Bytes, codes, bytes_eq}
use valve.Api.{Key, Limits, Cost, zero_decision, ok, err, Error}
use valve.Client.{ApiLimiter}
use valve.Middleware.Guard.{middleware, unary_interceptor}
use valve.Middleware.Passed.{IsPassed, handler, middleware-unary_interceptor}

abbrev lim : ApiLimiter
lim = record {
  State = ℕ;
  check = λ n key limits cost. (
    n + 1,
    ok (record zero_decision {
      allowed = bytes_eq key.subject (codes "a");
      reservation_id = codes "x";
    }),
  );
  settle = λ n id actual. (n, err Error.reservation_not_found);
  settle_io = λ n id actual_in actual_out. (n, err Error.reservation_not_found);
  refund = λ n id. (n, err Error.reservation_not_found);
}

abbrev key : Key
key = record { subject = codes "a"; model = codes "m" }

abbrev limits : Limits
limits = record {
  requests_per_minute = pos 1;
  tokens_per_minute = pos 100;
  input_tokens_per_minute = pos 0;
  output_tokens_per_minute = pos 0;
}

abbrev cost : Cost
cost = record { requests = pos 1; tokens = pos 1; input_tokens = pos 0; output_tokens = pos 0 }

abbrev sum256 : Bytes → Bytes
sum256 s = s

abbrev clock : ℕ → ℕ
clock i = 0

-- The handler answers the identifier of its reservation.
abbrev next : ℕ → Bytes → ℕ × Bytes
next n id = (n + 10, id)

middleware-unary_interceptor_example :
    let h = middleware lim sum256 5 key limits cost clock 0 next in
    let (s', events, a) =
      unary_interceptor lim sum256 5 key limits cost 0 (handler lim sum256 key clock 0 next) in
    (h.state ≡ s')
    × (h.events ≡ events)
    × IsPassed sum256 0 clock key (lim.check 5 key limits cost).1 h.emits h.answer a h.events
middleware-unary_interceptor_example =
    middleware-unary_interceptor lim sum256 key clock 0 next 5 limits cost
