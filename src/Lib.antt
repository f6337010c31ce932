-- ===== src/Lib.antt =====
-- valve: a rate limiter for LLM gateways, in Go. A client asks for a request and a number of tokens
-- before a call (`Check`), and settles or refunds the reservation afterwards (`Settle`, `SettleIO`,
-- `Refund`). Limits are per minute: requests and tokens (classic), or requests, input tokens and output
-- tokens (split).
--
-- The parts, and the files that model them:
--   Common       Boolean tests, signed integers and `int64`, Go strings and maps.
--   Strconv      what the repository uses of Go's strconv.
--   Api          pkg/api/types.go: keys, limits, costs, decisions; the errors of pkg/store/store.go.
--   Store        pkg/store/store.go: what a store is asked to lend, and its answer.
--   Bucket       pkg/bucket/bucket.go: the token bucket. `Refill`, `TryConsume`, `Credit` and
--                `DebitFloor` are `refill`, `try_consume`, `credit` and `debit_floor`.
--   Memory       pkg/store/memory/memory.go: a map of buckets for each kind of limit, and the
--                reservations. Each method is a function in Memory/Check, Settle, Refund, Borrow or
--                Return; Memory/History makes steps of them, and Memory/Rate counts what they
--                grant.
--   Redis        pkg/store/redis: Redis/Calls has the methods of redis.go, over a server that runs the
--                scripts; Keys, Parse and Errors have the names of its keys, the reading of replies, and
--                the errors. Redis/Lua has the scripts for classic limits, one file for each, and
--                Redis/Lua/Run a server that runs them; Redis/Agree compares the store over such a
--                server with the memory store, by rows of calls, and Redis/Rate counts what the server
--                grants.
--   Lease        pkg/lease: the configuration, the deny cache, and the pool of borrowed credits that are
--                spent in the process, with reservations of its own.
--   Limiter      pkg/limiter/limiter.go: the methods of the limiter over any store, directly, or through
--                the deny cache, the pool and loans from the store. `Backend` is the interface of a
--                store; the memory store and the Redis store fill it.
--   Client       pkg/api/limiter.go: the interface that the parts below call. The limiter fills it.
--   Http         the calls on a `ResponseWriter`, which a handler's result lists in their order.
--   Headers      pkg/headers/headers.go: the headers of a decision.
--   Llm          pkg/llm: Estimate, Gate, Usage and Metrics for the files of these names; Json is what
--                they ask of Go's libraries.
--   Logx         pkg/logx/deny.go: the event of a refusal.
--   Proxy        examples/openai-proxy/proxy.go: Request for what is read of a request, Serve for the
--                handler, and Main for the configuration in main.go.
--   Observed     pkg/metrics/metrics.go: a limiter that counts what another one answers.
--   Middleware   pkg/middleware/http/middleware.go and pkg/middleware/grpc/interceptor.go.
--   Valved       cmd/valved: Convert for convert.go, Handlers for http.go and grpc.go, Env for the
--                environment in main.go, and Main for what it builds from that.
--   Examples     examples/gin-ratelimit and examples/echo-ratelimit: the middleware in two frameworks.
--
-- How the code is read:
--   - A method that holds a mutex from its start to its end is one step, a function from the state and
--     the time that the clock shows to the state after it and its result; so is a script on a server. A
--     method of the limiter takes several such steps, and a handler several calls of the limiter; here
--     nothing else happens between them. The clock's readings during a call are the values of a function,
--     in their order.
--   - A number of tokens, a `float64` in the code, is an integer number of sixty-thousandths of a token:
--     capacity / 60000 tokens come in each millisecond, so that no fraction of these is needed. The
--     model's numbers are exact, and the code's are rounded: the slack 1e-9 of `TryConsume`, which is
--     for that, is kept, and Bucket/Whole says where the code computes exactly, too. A waiting time is
--     the exact one, so long as it is a `Duration`.
--   - An `int64` is an integer. Sums of the lease's balances, which can grow, and those of pkg/llm wrap at
--     64 bits; costs, limits and the differences of the memory store do not. Times and durations are
--     natural numbers of nanoseconds or milliseconds since 1970, and the zero time is `none`.
--   - Identifiers of reservations, the failure of their generator, the order of a range over a map, and
--     the answers of a store that is not the memory store are arguments. So are the Redis server and its
--     client, the JSON decoders, the count of runes, the scanner of lines, SHA-256, the upstream server of
--     the proxy, and the handler behind the middleware.
--   - A stream of the proxy is a text with what its scanner makes of it: a write to the pipe that the
--     scanner reads waits until it is read, as the documentation of `io.Pipe` has it, so that a handler
--     whose scanner gave up is `blocked`.
--   - A hash on the server is a record of its fields. Every script shows a reservation that has not
--     expired, and none of it afterwards; an error reply reaches the client as its text.
--   - A pointer into a map is the value under its key, written back where the code writes through it.
--   - All recursion is on lists or strings, but for the digits of a number, which divide it by ten in as
--     many rounds as the number has at most.
--
-- Not modelled: the scripts of pkg/store/redis/lua for split limits, whose effect on a server is an
-- argument; loading scripts, contexts and their time limits; the multiplexer, the listeners and the
-- signals of cmd/valved and of the examples; the registration of metrics; generated code.
-- Several goroutines inside the methods of one limiter are not interleaved.
pub mod Common
pub mod Strconv
pub mod Api
pub mod Bucket
pub mod Store
pub mod Memory
pub mod Lease
pub mod Limiter
pub mod Redis
pub mod Http
pub mod Client
pub mod Headers
pub mod Llm
pub mod Logx
pub mod Proxy
pub mod Observed
pub mod Middleware
pub mod Valved
pub mod Examples
