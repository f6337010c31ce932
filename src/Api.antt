-- ===== src/Api.antt =====
-- pkg/api/types.go and the sentinel errors of pkg/store/store.go. An `int64` is an integer, a
-- `time.Duration` a number of nanoseconds, and a `time.Time` a number of nanoseconds since 1970,
-- with `none` for the zero time.
use valve.Common.{
  ℕ, ℤ, pos, Bool, false, ◌&&◌, not, ltb_ℤ, if◌then◌else◌, Option, none, Bytes, [], codes, bytes_eq,
  ◌++◌,
}

pub data LimitType : Type 0 where
  unlimited requests tokens input_tokens output_tokens backend : LimitType
  unknown : Bytes → LimitType

-- `string(lt)`
unfoldable pub limit_name : LimitType → Bytes
limit_name unlimited = []
limit_name requests = codes "requests"
limit_name tokens = codes "tokens"
limit_name input_tokens = codes "input_tokens"
limit_name output_tokens = codes "output_tokens"
limit_name backend = codes "backend"
limit_name (unknown s) = s

-- `LimitType(s)`: one of the constants, or a string that is none of them.
unfoldable pub limit_type_of : Bytes → LimitType
limit_type_of s =
    if bytes_eq s []
    then unlimited
    else if bytes_eq s (codes "requests")
    then requests
    else if bytes_eq s (codes "tokens")
    then tokens
    else if bytes_eq s (codes "input_tokens")
    then input_tokens
    else if bytes_eq s (codes "output_tokens")
    then output_tokens
    else if bytes_eq s (codes "backend")
    then backend
    else unknown s

pub data FailMode : Type 0 where
  fail_closed fail_open : FailMode

pub record Key : Type 0 where
  pub subject : Bytes
  pub model : Bytes

pub record Limits : Type 0 where
  pub requests_per_minute : ℤ
  pub tokens_per_minute : ℤ
  pub input_tokens_per_minute : ℤ
  pub output_tokens_per_minute : ℤ

pub record Cost : Type 0 where
  pub requests : ℤ
  pub tokens : ℤ
  pub input_tokens : ℤ
  pub output_tokens : ℤ

abbrev pub Duration : Type 0
Duration = ℕ

abbrev pub Time : Type 0
Time = Option ℕ

pub record Decision : Type 0 where
  pub allowed : Bool
  pub limit_type : LimitType
  pub remaining_rpm : ℤ
  pub remaining_tpm : ℤ
  pub remaining_itpm : ℤ
  pub remaining_otpm : ℤ
  pub limit_rpm : ℤ
  pub limit_tpm : ℤ
  pub limit_itpm : ℤ
  pub limit_otpm : ℤ
  pub reset_rpm : Time
  pub reset_tpm : Time
  pub reset_itpm : Time
  pub reset_otpm : Time
  pub retry_after : Duration
  pub reservation_id : Bytes
  pub overshoot_tpm : ℤ
  pub overshoot_itpm : ℤ
  pub overshoot_otpm : ℤ

-- `api.Decision{}`
abbrev pub zero_decision : Decision
zero_decision = record {
  allowed = false;
  limit_type = unlimited;
  remaining_rpm = pos 0;
  remaining_tpm = pos 0;
  remaining_itpm = pos 0;
  remaining_otpm = pos 0;
  limit_rpm = pos 0;
  limit_tpm = pos 0;
  limit_itpm = pos 0;
  limit_otpm = pos 0;
  reset_rpm = none;
  reset_tpm = none;
  reset_itpm = none;
  reset_otpm = none;
  retry_after = 0;
  reservation_id = [];
  overshoot_tpm = pos 0;
  overshoot_itpm = pos 0;
  overshoot_otpm = pos 0;
}

-- The errors that the stores return.
pub data Error : Type 0 where
  partial_split subject_required reservation_id_required : Error
  reservation_not_found reservation_settled reservation_refunded wrong_settle_mode : Error
  store_failure unexpected_reply : Bytes → Error

-- `err.Error()`. The text of an unexpected reply goes on with the reply.
unfoldable pub message : Error → Bytes
message Error.partial_split =
    codes "valve: InputTokensPerMinute and OutputTokensPerMinute must both be set (or neither)"
message Error.subject_required = codes "valve: subject required"
message Error.reservation_id_required = codes "valve: reservation id required"
message Error.reservation_not_found = codes "valve: reservation not found"
message Error.reservation_settled = codes "valve: reservation already settled"
message Error.reservation_refunded = codes "valve: reservation already refunded"
message Error.wrong_settle_mode = codes "valve: wrong settle mode for reservation"
message (Error.store_failure text) = text
message (Error.unexpected_reply name) = codes "valve: unexpected " ++ (name ++ codes " response")

pub data Result (A : Type 0) : Type 0 where
  ok : A → Result A
  err : Error → Result A

-- `Limits.Split`
unfoldable pub split : Limits → Bool
split l = ltb_ℤ (pos 0) l.input_tokens_per_minute && ltb_ℤ (pos 0) l.output_tokens_per_minute

abbrev xor_bool : Bool → Bool → Bool
xor_bool a b = if a then not b else b

-- `Limits.Validate`: true when it returns an error.
unfoldable pub is_partial : Limits → Bool
is_partial l =
    xor_bool (ltb_ℤ (pos 0) l.input_tokens_per_minute) (ltb_ℤ (pos 0) l.output_tokens_per_minute)
