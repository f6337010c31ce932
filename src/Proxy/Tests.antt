-- ===== src/Proxy/Tests.antt =====
-- Runs of examples/openai-proxy/proxy.go over a limiter that allows every request.
use valve.Common.{
  ℕ, zero, suc, ap, ◌+◌, ◌≤◌, ◌<◌, ℤ, pos, Bool, true, false, ◌≡◌, ◌⊎◌, refl, arith, Bytes, codes,
  Option, none, some, List, [], ◌∷◌, Map,
}
use valve.Api.{Key, Cost, Decision, zero_decision, ok, err, Error}
use valve.Client.{ApiLimiter, Call, logged}
use valve.Logx.{take}
use valve.Redis.Reply.{length}
use valve.Llm.Json.{Library}
use valve.Llm.Gate.{Gate, check_bytes}
use valve.Llm.Usage.{drop}
use valve.Llm.Metrics.{no_metrics}
use valve.Proxy.Request.{Config, Request, read_body, key_of, cost_of, estimate}
use valve.Proxy.Serve.{Response, Sent, answer, no_answer, State, serve_http, serve_body}
use valve.Proxy.Answered.{Ends, log_of}
use valve.Proxy.Closed.{IsServed, serve_closes}
use valve.Memory.Check.{check}
use valve.Proxy.Truncated.{read_body_limited, read_body_truncates}

abbrev granted : Decision
granted = record zero_decision { allowed = true; reservation_id = codes "x" }

abbrev lim : ApiLimiter
lim = record {
  State = ℕ;
  check = λ n key limits cost. (n + 1, ok granted);
  settle = λ n id actual. (n + 10, ok zero_decision);
  settle_io = λ n id actual_in actual_out. (n, err Error.reservation_not_found);
  refund = λ n id. (n + 100, ok tt);
}

-- No body is a chat request, and every one asks for a stream; a line has at most four bytes.
abbrev library : Library
library = record {
  object = λ body. none;
  contents = λ raw. none;
  text = λ raw. none;
  parts = λ raw. none;
  int64 = λ raw. none;
  ints = λ raw. none;
  model = λ body. some (codes "m");
  stream = λ body. true;
  rune_count = λ s. length s;
  trim_space = λ s. s;
  scan = λ s. record { lines = s ∷ []; unread = drop 4 s };
}

abbrev response : Bytes → Response
response s = record {
  status = 200;
  header = [];
  body = s;
  body_broken = false;
  streamed = s;
  stream_failed = false;
}

abbrev send : Bytes → Request → Bytes → Sent
send s r body = answer (response s)

abbrev sum256 : Bytes → Bytes
sum256 s = s

abbrev config : Config
config = record {
  limits = record {
    requests_per_minute = pos 60;
    tokens_per_minute = pos 90000;
    input_tokens_per_minute = pos 0;
    output_tokens_per_minute = pos 0;
  };
  gate = record { max_input_tokens = pos 100; max_request_bytes = pos 100 };
  tokenizer = none;
}

abbrev request : Request
request = record {
  method = codes "POST";
  path = codes "/v1/chat/completions";
  query = [];
  header = λ name. [];
  body = codes "hello";
  body_broken = false;
}

abbrev clock : ℕ → ℕ
clock i = 0

abbrev start : State (ℕ × List Call)
start = record { limiter = (0, []); metrics = no_metrics }

serve_closes_example :
    Ends
      (λ h. IsServed lim library (send (codes "data")) sum256 config 0 [] request (log_of lim h))
      (serve_http (logged lim) library (send (codes "data")) sum256 config start request clock)
serve_closes_example =
    serve_closes lim library (send (codes "data")) sum256 config 0 [] no_metrics request clock
      (λ body. refl)

-- A body of so many bytes.
abbrev zeros : ℕ → Bytes
zeros zero = []
zeros (suc n) = b'0' ∷ zeros n

length-zeros : (n : ℕ) → length (zeros n) ≡ n
length-zeros zero = refl
length-zeros (suc n) = ap suc (length-zeros n)

abbrev unlimited : Gate
unlimited = record { max_input_tokens = pos 0; max_request_bytes = pos 0 }

sized : ℕ → Request
sized n = record request { body = zeros n }

sized_long : (n : ℕ) → 8388609 < n → 8388609 < length (Request.body (sized n))
unfolding sized
sized_long n h = omega (arith, length-zeros n)

-- A gate that lets ten bytes through, which "hello" keeps to.
read_body_limited_example :
    let g : Gate = record { max_input_tokens = pos 0; max_request_bytes = pos 10 } in
    ((length request.body ≤ 10)
      × (read_body g request ≡ some request.body)
      × (check_bytes g (length request.body) ≡ false))
    ⊎ ((10 < length request.body)
        × (read_body g request ≡ some (take 11 request.body))
        × (check_bytes g (length (take 11 request.body)) ≡ true))
read_body_limited_example =
    read_body_limited (record { max_input_tokens = pos 0; max_request_bytes = pos 10 }) request 10
      refl (omega arith) (omega arith) refl

read_body_truncates_example :
    let cfg = record config { gate = unlimited } in
    let b = take 8388609 (Request.body (sized 9000000)) in
    (read_body unlimited (sized 9000000) ≡ some b)
    × (length b ≡ 8388609)
    × (check_bytes unlimited (length b) ≡ false)
    × (serve_http
          (logged lim)
          library
          (send (codes "data: {}"))
          sum256
          cfg
          start
          (sized 9000000)
          clock
        ≡ serve_body
            (logged lim)
            library
            (send (codes "data: {}"))
            sum256
            cfg
            start
            (sized 9000000)
            b
            clock)
read_body_truncates_example =
    read_body_truncates (logged lim) library (send (codes "data: {}")) sum256
      (record config { gate = unlimited }) start (sized 9000000) clock (omega arith)
      (sized_long 9000000 (omega arith))

-- One second after 1970, in nanoseconds.
abbrev t : ℕ
t = 1000000000

abbrev unanswered : Request → Bytes → Sent
unanswered r body = no_answer

abbrev request_key : Key
request_key = key_of library sum256 request (codes "hello")

abbrev request_cost : Cost
request_cost = cost_of (estimate library none (codes "hello")).total_tokens
