-- ===== src/Valved/Agree.antt =====
-- The two protocols of cmd/valved show the same limiter.
use valve.Common.{
  ℤ, pos, ◌≤ℤ◌, Bool, true, false, arith, ℕ, ◌≡◌, refl, ◌⊎◌, inl, inr, Bytes, codes, bytes_eq,
  if◌then◌else◌, Option, none, some, List, [], ◌∷◌,
}
use valve.Api.{Time, Key, Decision, Result, ok, err, message}
use valve.Client.{ApiLimiter}
use valve.Http.{Emit, error, Json, str, num, flag, object, Fields, no_fields, field}
use valve.Middleware.Guard.{Rpc, reply, status, Code}
use valve.Valved.Convert.{
  PbDecision, decision_to_pb, decision_from_http, shows_part, part_fields, output_entries,
  output_fields, input_entries, key_from_pb, limits_from_pb, cost_from_pb,
}
use valve.Valved.Handlers.{
  good, CheckBody, SettleBody, CheckRequest, write_json, settle_answer, settle_reply, check_answer,
  check_reply, http_check, grpc_check, http_settle_call, grpc_settle_call, http_settle, grpc_settle,
}

-- The value of an entry.
unfoldable pub lookup : Bytes → Fields → Option Json
lookup k no_fields = none
lookup k (field j v fields) = if bytes_eq j k then some v else lookup k fields

abbrev pub entry : Bytes → Json → Option Json
entry k (object fields) = lookup k fields
entry k v = none

-- An entry has this number, or it is missing and the number is not positive.
abbrev pub ShowsPositive : Option Json → ℤ → Type 0
ShowsPositive e n = (e ≡ some (num n)) ⊎ ((e ≡ none) × (n ≤ℤ pos 0))

-- What a client reads of a decision over HTTP is what it reads over gRPC.
pub record SameFields (json : Json) (pb : PbDecision) : Type 0 where
  pub allowed : entry (codes "allowed") json ≡ some (flag pb.allowed)
  pub limit_type : entry (codes "limit_type") json ≡ some (str pb.limit_type)
  pub remaining_rpm : entry (codes "remaining_rpm") json ≡ some (num pb.remaining_rpm)
  pub remaining_tpm : entry (codes "remaining_tpm") json ≡ some (num pb.remaining_tpm)
  pub limit_rpm : entry (codes "limit_rpm") json ≡ some (num pb.limit_rpm)
  pub limit_tpm : entry (codes "limit_tpm") json ≡ some (num pb.limit_tpm)
  pub retry_after_ms : entry (codes "retry_after_ms") json ≡ some (num pb.retry_after_ms)
  pub reservation_id : entry (codes "reservation_id") json ≡ some (str pb.reservation_id)
  pub overshoot_tpm : entry (codes "overshoot_tpm") json ≡ some (num pb.overshoot_tpm)
  pub remaining_itpm : ShowsPositive (entry (codes "remaining_itpm") json) pb.remaining_itpm
  pub limit_itpm : ShowsPositive (entry (codes "limit_itpm") json) pb.limit_itpm
  pub overshoot_itpm : ShowsPositive (entry (codes "overshoot_itpm") json) pb.overshoot_itpm
  pub remaining_otpm : ShowsPositive (entry (codes "remaining_otpm") json) pb.remaining_otpm
  pub limit_otpm : ShowsPositive (entry (codes "limit_otpm") json) pb.limit_otpm
  pub overshoot_otpm : ShowsPositive (entry (codes "overshoot_otpm") json) pb.overshoot_otpm

abbrev NotPositive : ℤ → ℤ → ℤ → Type 0
NotPositive a b c = (a ≤ℤ pos 0) × (b ≤ℤ pos 0) × (c ≤ℤ pos 0)

not_shown :
    (limit remaining overshoot : ℤ) (reset : Time)
    → shows_part limit remaining overshoot reset ≡ false
    → NotPositive remaining limit overshoot
not_shown limit remaining overshoot reset h = ground arith

-- What the entries of the output tokens show, and those of the input tokens.
abbrev pub OutputShown : Fields → Decision → Type 0
OutputShown fs d =
    ShowsPositive (lookup (codes "remaining_otpm") fs) d.remaining_otpm
    × ShowsPositive (lookup (codes "limit_otpm") fs) d.limit_otpm
    × ShowsPositive (lookup (codes "overshoot_otpm") fs) d.overshoot_otpm

abbrev pub InputShown : Fields → Decision → Type 0
InputShown fs d =
    ShowsPositive (lookup (codes "remaining_itpm") fs) d.remaining_itpm
    × ShowsPositive (lookup (codes "limit_itpm") fs) d.limit_itpm
    × ShowsPositive (lookup (codes "overshoot_itpm") fs) d.overshoot_itpm

abbrev NoInput : Fields → Type 0
NoInput fs =
    (lookup (codes "remaining_itpm") fs ≡ none)
    × (lookup (codes "limit_itpm") fs ≡ none)
    × (lookup (codes "overshoot_itpm") fs ≡ none)

output_shown : (d : Decision) → OutputShown (output_fields d) d × NoInput (output_fields d)
unfolding output_fields lookup bytes_eq
output_shown d =
    by_test (shows_part d.limit_otpm d.remaining_otpm d.overshoot_otpm d.reset_otpm)
      (not_shown d.limit_otpm d.remaining_otpm d.overshoot_otpm d.reset_otpm)
  where
    fields : Bool → Fields
    fields b = if b then output_entries d else no_fields

    by_test :
        (b : Bool)
        → (b ≡ false → NotPositive d.remaining_otpm d.limit_otpm d.overshoot_otpm)
        → OutputShown (fields b) d × NoInput (fields b)
    by_test true h = ((inl refl, inl refl, inl refl), (refl, refl, refl))
    by_test false h =
        let (r, l, o) = h refl in
        ((inr (refl, r), inr (refl, l), inr (refl, o)), (refl, refl, refl))

part_shown : (d : Decision) → InputShown (part_fields d) d × OutputShown (part_fields d) d
unfolding part_fields lookup bytes_eq
part_shown d =
    by_test (shows_part d.limit_itpm d.remaining_itpm d.overshoot_itpm d.reset_itpm)
      (not_shown d.limit_itpm d.remaining_itpm d.overshoot_itpm d.reset_itpm)
  where
    fields : Bool → Fields
    fields b = if b then input_entries d (output_fields d) else output_fields d

    by_test :
        (b : Bool)
        → (b ≡ false → NotPositive d.remaining_itpm d.limit_itpm d.overshoot_itpm)
        → InputShown (fields b) d × OutputShown (fields b) d
    by_test true h = ((inl refl, inl refl, inl refl), (output_shown d).0)
    by_test false h =
        let (shown, (no_r, no_l, no_o)) = output_shown d in
        let (r, l, o) = h refl in ((inr (no_r, r), inr (no_l, l), inr (no_o, o)), shown)

same_fields : (d : Decision) → SameFields (decision_from_http d) (decision_to_pb d)
unfolding decision_from_http decision_to_pb lookup bytes_eq
same_fields d = record {
  allowed = refl;
  limit_type = refl;
  remaining_rpm = refl;
  remaining_tpm = refl;
  limit_rpm = refl;
  limit_tpm = refl;
  retry_after_ms = refl;
  reservation_id = refl;
  overshoot_tpm = refl;
  remaining_itpm = (part_shown d).0.0;
  limit_itpm = (part_shown d).0.1;
  overshoot_itpm = (part_shown d).0.2;
  remaining_otpm = (part_shown d).1.0;
  limit_otpm = (part_shown d).1.1;
  overshoot_otpm = (part_shown d).1.2;
}

-- The two answers show the same decision, or the same text of an error.
abbrev pub SameDecision : List Emit → Rpc PbDecision → Type 0
SameDecision emits r =
    ((json : Json) × (pb : PbDecision) × (emits ≡ write_json 200 json)
      × (r ≡ reply pb)
      × SameFields json pb)
    ⊎ ((t : Bytes) × (n : ℕ) × (c : Code) × (emits ≡ error t n ∷ []) × (r ≡ status c t))

same_settle : (r : Result Decision) → SameDecision (settle_answer r) (settle_reply r)
unfolding settle_answer settle_reply
same_settle (ok d) = inl (_, _, refl, refl, same_fields d)
same_settle (err e) = inr (message e, _, _, refl, refl)

same_check :
    (sum256 : Bytes → Bytes) (now : ℕ) (key : Key) (r : Result Decision)
    → SameDecision (check_answer sum256 now key r).0 (check_reply sum256 now key r).0
      × ((check_answer sum256 now key r).1 ≡ (check_reply sum256 now key r).1)
unfolding check_answer check_reply
same_check sum256 now key (ok d) = (inl (_, _, refl, refl, same_fields d), refl)
same_check sum256 now key (err e) = (inr (message e, _, _, refl, refl), refl)

module _ (L : ApiLimiter) (sum256 : Bytes → Bytes) (s : L.State) (now : ℕ) where
  -- `/v1/check` and `Check`, `/v1/settle` and `Settle`, on the same request leave the limiter in the
  -- same state, and either both fail with the same text, or a client reads the same decision, but for
  -- the reset times, in the entries of the one answer and in the fields of the other, where an entry
  -- of input or output tokens that is missing stands for a number that is not positive. The checks
  -- log the same.
  pub http-grpc :
      (check : CheckBody) (settle : SettleBody)
      → let request : CheckRequest = record {
        key = some check.key;
        limits = some check.limits;
        cost = some check.cost;
      } in
        let (s1, emits, events) = http_check L sum256 s now (good check) in
        let (s2, answer, events') = grpc_check L sum256 s now request in
        let (t1, emits') = http_settle L s (good settle) in
        let (t2, answer') = grpc_settle L s settle in
        (s1 ≡ s2)
        × (events ≡ events')
        × SameDecision emits answer
        × (t1 ≡ t2)
        × SameDecision emits' answer'
  unfolding http_check grpc_check http_settle grpc_settle http_settle_call grpc_settle_call
      key_from_pb limits_from_pb cost_from_pb
  http-grpc check settle =
      let (shown, logged) =
        same_check sum256 now check.key (L.check s check.key check.limits check.cost).1 in
      (refl, logged, shown, refl, same_settle (http_settle_call L s settle).1)
