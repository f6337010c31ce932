-- ===== src/Redis/Lua/Run.antt =====
-- A Redis server that runs the scripts of pkg/store/redis/lua for classic limits.
use valve.Common.{ℕ, if◌then◌else◌, Bytes, codes, bytes_eq, Option, none, some, List, [], ◌∷◌}
use valve.Api.{Result, ok}
use valve.Memory.State.{unix_milli}
use valve.Redis.Lua.{Hashes, ResHash, alive, expire, check_script}
use valve.Redis.Lua.Settle.{settle_script}
use valve.Redis.Lua.Refund.{refund_script}
use valve.Redis.Lua.Borrow.{borrow_script}
use valve.Redis.Lua.Return.{return_script}
use valve.Redis.Server.{Server, Script, Arg, num, text, Reply}

-- How the server runs the other scripts.
abbrev pub Rest : Type 0
Rest = Hashes → ℕ → Script → List Bytes → List Arg → Hashes × Result Reply

-- A run of a script under its keys and arguments, on the hashes that it sees.
unfoldable pub run_script :
    Rest → Hashes → ℕ → Script → List Bytes → List Arg → Hashes × Result Reply
unfolding check_script settle_script refund_script borrow_script return_script
run_script rest h now Script.check (rpm_key ∷ tpm_key ∷ res_key ∷ [])
      (num limit_rpm
        ∷ num limit_tpm
        ∷ num cost_rpm
        ∷ num cost_tpm
        ∷ num ttl
        ∷ text subject
        ∷ text model
        ∷ []) =
    let (h', r) =
      check_script rpm_key tpm_key res_key limit_rpm limit_tpm ttl subject model h (unix_milli now)
        cost_rpm cost_tpm in
    (h', ok r)
run_script rest h now Script.settle (res_key ∷ rpm_key ∷ tpm_key ∷ []) (num actual ∷ num ttl ∷ []) =
    settle_script res_key rpm_key tpm_key actual ttl h (unix_milli now)
run_script rest h now Script.refund (res_key ∷ rpm_key ∷ tpm_key ∷ []) (num ttl ∷ []) =
    refund_script res_key rpm_key tpm_key ttl h (unix_milli now)
run_script rest h now Script.borrow (rpm_key ∷ tpm_key ∷ [])
      (num limit_rpm
        ∷ num limit_tpm
        ∷ num min_rpm
        ∷ num min_tpm
        ∷ num chunk_rpm
        ∷ num chunk_tpm
        ∷ []) =
    let (h', r) =
      borrow_script rpm_key tpm_key limit_rpm limit_tpm h (unix_milli now) min_rpm min_tpm chunk_rpm
        chunk_tpm in
    (h', ok r)
run_script rest h now Script.ret (rpm_key ∷ tpm_key ∷ [])
      (num limit_rpm ∷ num limit_tpm ∷ num add_rpm ∷ num add_tpm ∷ []) =
    let (h', r) =
      return_script rpm_key tpm_key limit_rpm limit_tpm h (unix_milli now) add_rpm add_tpm in
    (h', ok r)
run_script rest h now script keys args = rest h now script keys args

-- A run at a time of the server.
abbrev pub run : Rest → Hashes → ℕ → Script → List Bytes → List Arg → Hashes × Result Reply
run rest h now = run_script rest (expire h (unix_milli now)) now

-- A field of the hash of a reservation: the three that `Store` asks for.
unfoldable pub field : ResHash → Bytes → Option Bytes
field r name =
    if bytes_eq name (codes "subject")
    then some r.subject
    else if bytes_eq name (codes "model")
    then some r.model
    else if bytes_eq name (codes "mode")
    then some r.mode
    else none

-- `HMGET` of three fields of a reservation.
unfoldable pub hmget :
    Option ResHash → Bytes → Bytes → Bytes → Option Bytes × Option Bytes × Option Bytes
unfolding field
hmget none a b c = (none, none, none)
hmget (some r) a b c = (field r a, field r b, field r c)

-- The server; the scripts for split limits are a parameter.
abbrev pub server : Rest → Server
server rest = record {
  State = Hashes;
  hmget3 = λ h now k a b c. ok (hmget (alive (unix_milli now) (h.res k)) a b c);
  run = run rest;
}
