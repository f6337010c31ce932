-- ===== src/Redis/Calls.antt =====
-- The methods of `Store` in pkg/store/redis/redis.go. Each runs at one time of the server.
use valve.Common.{
  ℕ, ℤ, pos, leb_ℤ, ◌&&◌, not, if◌then◌else◌, Bytes, codes, bytes_eq, [], ◌∷◌, Option, none, some,
}
use valve.Api.{Key, Limits, Cost, Decision, Result, ok, err, Error, split, is_partial}
use valve.Store.{BorrowSpec, BorrowResult}
use valve.Memory.State.{model_or_dash, is_empty}
use valve.Redis.Keys.{bucket_keys, bucket_keys_io, reservation_key}
use valve.Redis.Server.{Server, Script, Arg, num, text, Reply}
use valve.Redis.Parse.{
  parse_decision, parse_decision_io, parse_settle, parse_settle_io, parse_borrow, parse_borrow_io,
}
use valve.Redis.Errors.{map_res_err}
use valve.Limiter.Backend.{Backend}

-- `int(store.ReservationTTL.Seconds())`
abbrev pub ttl_seconds : Arg
ttl_seconds = num (pos 900)

abbrev pub or_empty : Option Bytes → Bytes
or_empty none = []
or_empty (some s) = s

-- `if mode == "" { mode = "classic" }`
abbrev pub or_classic : Bytes → Bytes
or_classic mode = if is_empty mode then codes "classic" else mode

-- What `reservationMode` makes of the three fields.
unfoldable pub mode_of : Result (Option Bytes × Option Bytes × Option Bytes) → Result (Bytes × Key)
mode_of (err e) = err e
mode_of (ok (none, model, mode)) = err Error.reservation_not_found
mode_of (ok (some subject, model, mode)) =
    ok (or_classic (or_empty mode), record { subject = subject; model = or_empty model })

-- A reply, or the error of the run as `mapResErr` has it.
abbrev pub with_mapped : {A : Type 0} → Result Reply → (Reply → Result A) → Result A
with_mapped (err e) f = err (map_res_err e)
with_mapped (ok raw) f = f raw

abbrev pub with_reply : {A : Type 0} → Result Reply → (Reply → Result A) → Result A
with_reply (err e) f = err e
with_reply (ok raw) f = f raw

abbrev pub done : Reply → Result (Unit {0})
done raw = ok tt

module _ (V : Server) where
  open V use {State}

  -- `reservationMode`
  unfoldable pub reservation_mode : State → ℕ → Bytes → Result (Bytes × Key)
  unfolding mode_of
  reservation_mode s now id =
      mode_of (V.hmget3 s now (reservation_key id) (codes "subject") (codes "model") (codes "mode"))

  -- `Check` past its guards.
  unfoldable pub run_check : State → ℕ → Key → Limits → Cost → Bytes → State × Result Decision
  run_check s now key limits cost id =
      if split limits
      then (let (rpm_key, itpm_key, otpm_key) = bucket_keys_io key in
          let (s', raw) =
            V.run s now Script.check_io (rpm_key ∷ itpm_key ∷ otpm_key ∷ reservation_key id ∷ []) (
              num limits.requests_per_minute
              ∷ num limits.input_tokens_per_minute
              ∷ num limits.output_tokens_per_minute
              ∷ num cost.requests
              ∷ num cost.input_tokens
              ∷ num cost.output_tokens
              ∷ ttl_seconds
              ∷ text key.subject
              ∷ text (model_or_dash key.model)
              ∷ []) in
          (s', with_reply raw (λ r. parse_decision_io r limits id)))
      else (let (rpm_key, tpm_key) = bucket_keys key in
          let (s', raw) = V.run s now Script.check (rpm_key ∷ tpm_key ∷ reservation_key id ∷ []) (
            num limits.requests_per_minute
            ∷ num limits.tokens_per_minute
            ∷ num cost.requests
            ∷ num cost.tokens
            ∷ ttl_seconds
            ∷ text key.subject
            ∷ text (model_or_dash key.model)
            ∷ []) in
          (s', with_reply raw (λ r. parse_decision r limits id)))

  -- `Check`
  unfoldable pub check : State → ℕ → Key → Limits → Cost → Bytes → State × Result Decision
  unfolding run_check
  check s now key limits cost id =
      if is_partial limits
      then (s, err Error.partial_split)
      else if is_empty key.subject
      then (s, err Error.subject_required)
      else if is_empty id
      then (s, err Error.reservation_id_required)
      else run_check s now key limits cost id

  -- `Settle` once the mode is known.
  unfoldable pub settle_mode :
      State → ℕ → Bytes → ℤ → Result (Bytes × Key) → State × Result Decision
  settle_mode s now id actual (err e) = (s, err (map_res_err e))
  settle_mode s now id actual (ok (mode, key)) =
      if bytes_eq mode (codes "split")
      then (s, err Error.wrong_settle_mode)
      else let (rpm_key, tpm_key) = bucket_keys key in
        let (s', raw) =
          V.run s now Script.settle (reservation_key id ∷ rpm_key ∷ tpm_key ∷ [])
            (num actual ∷ ttl_seconds ∷ []) in
        (s', with_mapped raw (λ r. parse_settle r id))

  -- `Settle`
  unfoldable pub settle : State → ℕ → Bytes → ℤ → State × Result Decision
  unfolding settle_mode reservation_mode
  settle s now id actual = settle_mode s now id actual (reservation_mode s now id)

  -- `SettleIO` once the mode is known.
  unfoldable pub settle_io_mode :
      State → ℕ → Bytes → ℤ → ℤ → Result (Bytes × Key) → State × Result Decision
  settle_io_mode s now id actual_in actual_out (err e) = (s, err (map_res_err e))
  settle_io_mode s now id actual_in actual_out (ok (mode, key)) =
      if not (bytes_eq mode (codes "split"))
      then (s, err Error.wrong_settle_mode)
      else let (rpm_key, itpm_key, otpm_key) = bucket_keys_io key in
        let (s', raw) =
          V.run s now Script.settle_io (reservation_key id ∷ rpm_key ∷ itpm_key ∷ otpm_key ∷ [])
            (num actual_in ∷ num actual_out ∷ ttl_seconds ∷ []) in
        (s', with_mapped raw (λ r. parse_settle_io r id))

  -- `SettleIO`
  unfoldable pub settle_io : State → ℕ → Bytes → ℤ → ℤ → State × Result Decision
  unfolding settle_io_mode reservation_mode
  settle_io s now id actual_in actual_out =
      settle_io_mode s now id actual_in actual_out (reservation_mode s now id)

  -- `Refund` once the mode is known.
  unfoldable pub refund_mode : State → ℕ → Bytes → Result (Bytes × Key) → State × Result (Unit {0})
  refund_mode s now id (err e) = (s, err (map_res_err e))
  refund_mode s now id (ok (mode, key)) =
      if bytes_eq mode (codes "split")
      then (let (rpm_key, itpm_key, otpm_key) = bucket_keys_io key in
          let (s', raw) =
            V.run s now Script.refund_io (reservation_key id ∷ rpm_key ∷ itpm_key ∷ otpm_key ∷ [])
              (ttl_seconds ∷ []) in
          (s', with_mapped raw done))
      else (let (rpm_key, tpm_key) = bucket_keys key in
          let (s', raw) =
            V.run s now Script.refund (reservation_key id ∷ rpm_key ∷ tpm_key ∷ [])
              (ttl_seconds ∷ []) in
          (s', with_mapped raw done))

  -- `Refund`
  unfoldable pub refund : State → ℕ → Bytes → State × Result (Unit {0})
  unfolding refund_mode reservation_mode
  refund s now id = refund_mode s now id (reservation_mode s now id)

  -- `Borrow` past its guards.
  unfoldable pub run_borrow : State → ℕ → Key → Limits → BorrowSpec → State × Result BorrowResult
  run_borrow s now key limits spec =
      if split limits
      then (let (rpm_key, itpm_key, otpm_key) = bucket_keys_io key in
          let (s', raw) = V.run s now Script.borrow_io (rpm_key ∷ itpm_key ∷ otpm_key ∷ []) (
            num limits.requests_per_minute
            ∷ num limits.input_tokens_per_minute
            ∷ num limits.output_tokens_per_minute
            ∷ num spec.min_rpm
            ∷ num spec.min_itpm
            ∷ num spec.min_otpm
            ∷ num spec.chunk_rpm
            ∷ num spec.chunk_itpm
            ∷ num spec.chunk_otpm
            ∷ []) in
          (s', with_reply raw (λ r. parse_borrow_io r limits)))
      else (let (rpm_key, tpm_key) = bucket_keys key in
          let (s', raw) = V.run s now Script.borrow (rpm_key ∷ tpm_key ∷ []) (
            num limits.requests_per_minute
            ∷ num limits.tokens_per_minute
            ∷ num spec.min_rpm
            ∷ num spec.min_tpm
            ∷ num spec.chunk_rpm
            ∷ num spec.chunk_tpm
            ∷ []) in
          (s', with_reply raw (λ r. parse_borrow r limits)))

  -- `Borrow`
  unfoldable pub borrow : State → ℕ → Key → Limits → BorrowSpec → State × Result BorrowResult
  unfolding run_borrow
  borrow s now key limits spec =
      if is_partial limits
      then (s, err Error.partial_split)
      else if is_empty key.subject
      then (s, err Error.subject_required)
      else run_borrow s now key limits spec

  -- `Return` past its guards.
  unfoldable pub run_return : State → ℕ → Key → Limits → ℤ → ℤ → ℤ → ℤ → State × Result (Unit {0})
  run_return s now key limits rpm tpm itpm otpm =
      if split limits
      then (let (rpm_key, itpm_key, otpm_key) = bucket_keys_io key in
          let (s', raw) = V.run s now Script.ret_io (rpm_key ∷ itpm_key ∷ otpm_key ∷ []) (
            num limits.requests_per_minute
            ∷ num limits.input_tokens_per_minute
            ∷ num limits.output_tokens_per_minute
            ∷ num rpm
            ∷ num itpm
            ∷ num otpm
            ∷ []) in
          (s', with_reply raw done))
      else (let (rpm_key, tpm_key) = bucket_keys key in
          let (s', raw) = V.run s now Script.ret (rpm_key ∷ tpm_key ∷ []) (
            num limits.requests_per_minute
            ∷ num limits.tokens_per_minute
            ∷ num rpm
            ∷ num tpm
            ∷ []) in
          (s', with_reply raw done))

  -- `Return`
  unfoldable pub return_credits :
      State → ℕ → Key → Limits → ℤ → ℤ → ℤ → ℤ → State × Result (Unit {0})
  unfolding run_return
  return_credits s now key limits rpm tpm itpm otpm =
      if is_empty key.subject
      then (s, err Error.subject_required)
      else if leb_ℤ rpm (pos 0) && leb_ℤ tpm (pos 0) && leb_ℤ itpm (pos 0) && leb_ℤ otpm (pos 0)
      then (s, ok tt)
      else run_return s now key limits rpm tpm itpm otpm

-- The store as a backend of the limiter.
abbrev pub redis : Server → Backend
redis V = record {
  Store = V.State;
  check = check V;
  settle = settle V;
  settle_io = settle_io V;
  refund = refund V;
  borrow = borrow V;
  return_credits = return_credits V;
}
