-- ===== src/Valved/Convert.antt =====
-- cmd/valved/convert.go, and `checkBody` of cmd/valved/http.go.
use valve.Common.{
  ◌/◌, ℤ, pos, ltb_ℤ, Bool, true, false, ◌||◌, if◌then◌else◌, Bytes, codes, Option, none, some,
}
use valve.Api.{Key, Limits, Cost, Decision, Duration, Time, limit_name}
use valve.Http.{Json, str, num, flag, time, object, Fields, no_fields, field}

-- `d.Milliseconds()`
abbrev pub milliseconds : Duration → ℤ
milliseconds d = pos (d / 1000000)

-- `valvepb.Decision`
pub record PbDecision : Type 0 where
  pub allowed : Bool
  pub limit_type : Bytes
  pub remaining_rpm : ℤ
  pub remaining_tpm : ℤ
  pub remaining_itpm : ℤ
  pub remaining_otpm : ℤ
  pub limit_rpm : ℤ
  pub limit_tpm : ℤ
  pub limit_itpm : ℤ
  pub limit_otpm : ℤ
  pub retry_after_ms : ℤ
  pub reservation_id : Bytes
  pub overshoot_tpm : ℤ
  pub overshoot_itpm : ℤ
  pub overshoot_otpm : ℤ

-- `decisionToPB`
unfoldable pub decision_to_pb : Decision → PbDecision
decision_to_pb d = record {
  allowed = d.allowed;
  limit_type = limit_name d.limit_type;
  remaining_rpm = d.remaining_rpm;
  remaining_tpm = d.remaining_tpm;
  remaining_itpm = d.remaining_itpm;
  remaining_otpm = d.remaining_otpm;
  limit_rpm = d.limit_rpm;
  limit_tpm = d.limit_tpm;
  limit_itpm = d.limit_itpm;
  limit_otpm = d.limit_otpm;
  retry_after_ms = milliseconds d.retry_after;
  reservation_id = d.reservation_id;
  overshoot_tpm = d.overshoot_tpm;
  overshoot_itpm = d.overshoot_itpm;
  overshoot_otpm = d.overshoot_otpm;
}

abbrev pub is_zero_time : Time → Bool
is_zero_time none = true
is_zero_time (some t) = false

abbrev pub shows_part : ℤ → ℤ → ℤ → Time → Bool
shows_part limit remaining overshoot reset =
    ltb_ℤ (pos 0) limit
    || ltb_ℤ (pos 0) remaining
    || ltb_ℤ (pos 0) overshoot
    || (if is_zero_time reset then false else true)

-- The entries of the output tokens, where they are shown.
abbrev pub output_entries : Decision → Fields
output_entries d = field (codes "remaining_otpm") (num d.remaining_otpm) (
    field (codes "limit_otpm") (num d.limit_otpm) (
      field (codes "overshoot_otpm") (num d.overshoot_otpm)
        (field (codes "reset_otpm") (time d.reset_otpm) no_fields)))

unfoldable pub output_fields : Decision → Fields
output_fields d =
    if shows_part d.limit_otpm d.remaining_otpm d.overshoot_otpm d.reset_otpm
    then output_entries d
    else no_fields

-- The entries of the input tokens, where they are shown, before others.
abbrev pub input_entries : Decision → Fields → Fields
input_entries d rest = field (codes "remaining_itpm") (num d.remaining_itpm) (
    field (codes "limit_itpm") (num d.limit_itpm) (
      field (codes "overshoot_itpm") (num d.overshoot_itpm)
        (field (codes "reset_itpm") (time d.reset_itpm) rest)))

unfoldable pub part_fields : Decision → Fields
unfolding output_fields
part_fields d =
    if shows_part d.limit_itpm d.remaining_itpm d.overshoot_itpm d.reset_itpm
    then input_entries d (output_fields d)
    else output_fields d

-- `decisionFromHTTP`
unfoldable pub decision_from_http : Decision → Json
unfolding part_fields
decision_from_http d = object (
    field (codes "allowed") (flag d.allowed) (
      field (codes "limit_type") (str (limit_name d.limit_type)) (
        field (codes "remaining_rpm") (num d.remaining_rpm) (
          field (codes "remaining_tpm") (num d.remaining_tpm) (
            field (codes "limit_rpm") (num d.limit_rpm) (
              field (codes "limit_tpm") (num d.limit_tpm) (
                field (codes "retry_after_ms") (num (milliseconds d.retry_after)) (
                  field (codes "reservation_id") (str d.reservation_id) (
                    field (codes "overshoot_tpm") (num d.overshoot_tpm) (
                      field (codes "reset_rpm") (time d.reset_rpm)
                        (field (codes "reset_tpm") (time d.reset_tpm) (part_fields d))))))))))))

-- `keyFromPB`, `limitsFromPB` and `costFromPB`: a message that is not there is all zero.
unfoldable pub key_from_pb : Option Key → Key
key_from_pb none = record { subject = codes ""; model = codes "" }
key_from_pb (some k) = k

unfoldable pub limits_from_pb : Option Limits → Limits
limits_from_pb none = record {
  requests_per_minute = pos 0;
  tokens_per_minute = pos 0;
  input_tokens_per_minute = pos 0;
  output_tokens_per_minute = pos 0;
}
limits_from_pb (some l) = l

unfoldable pub cost_from_pb : Option Cost → Cost
cost_from_pb none = record {
  requests = pos 0;
  tokens = pos 0;
  input_tokens = pos 0;
  output_tokens = pos 0;
}
cost_from_pb (some c) = c
