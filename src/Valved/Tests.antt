-- ===== src/Valved/Tests.antt =====
-- Runs of cmd/valved over the limiter of pkg/limiter with a memory store.
use valve.Common.{ℕ, ◌*◌, ◌+◌, pos, ◌≡◌, Bytes, codes, [], none, some}
use valve.Api.{fail_closed}
use valve.Memory.State.{new}
use valve.Limiter.Backend.{memory}
use valve.Client.{ApiLimiter, Turn, limiter}
use valve.Valved.Handlers.{
  good, CheckBody, CheckRequest, SettleBody, http_check, grpc_check, http_settle, grpc_settle,
}
use valve.Valved.Agree.{SameDecision, http-grpc}

abbrev turn : ℕ → Turn
turn n = record { id = some (codes "x"); again = none; clock = λ i. 1000000000 + n * 1000000 }

abbrev lim : ApiLimiter
lim = limiter memory turn

abbrev start : lim.State
start = (record { store = new; fail_mode = fail_closed; pool = none }, 0)

abbrev sum256 : Bytes → Bytes
sum256 s = s

abbrev body : CheckBody
body = record {
  key = record { subject = codes "a"; model = [] };
  limits = record {
    requests_per_minute = pos 2;
    tokens_per_minute = pos 100;
    input_tokens_per_minute = pos 0;
    output_tokens_per_minute = pos 0;
  };
  cost = record { requests = pos 1; tokens = pos 60; input_tokens = pos 0; output_tokens = pos 0 };
}

abbrev request : CheckRequest
request = record { key = some body.key; limits = some body.limits; cost = some body.cost }

abbrev settlement : SettleBody
settlement = record {
  reservation_id = codes "x";
  actual_tokens = some (pos 50);
  actual_input_tokens = none;
  actual_output_tokens = none;
}

http-grpc_example :
    let (s1, emits, events) = http_check lim sum256 start 0 (good body) in
    let (s2, answer, events') = grpc_check lim sum256 start 0 request in
    let (t1, emits') = http_settle lim start (good settlement) in
    let (t2, answer') = grpc_settle lim start settlement in
    (s1 ≡ s2)
    × (events ≡ events')
    × SameDecision emits answer
    × (t1 ≡ t2)
    × SameDecision emits' answer'
http-grpc_example = http-grpc lim sum256 start 0 body settlement
