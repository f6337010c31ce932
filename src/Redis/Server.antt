-- ===== src/Redis/Server.antt =====
-- What pkg/store/redis/redis.go asks of its client for the server: `HMGET` of three fields, and the
-- runs of its scripts. The client, the server and the scripts are a parameter.
use valve.Common.{ℕ, ℤ, Bytes, Option, List}
use valve.Api.{Result}

-- The scripts of `Store`.
pub data Script : Type 0 where
  check check_io settle settle_io refund refund_io borrow borrow_io ret ret_io : Script

-- An argument of a script.
pub data Arg : Type 0 where
  num : ℤ → Arg
  text : Bytes → Arg

-- A value in a reply: an `int64`, a string or a slice of bytes, or any other, by what `fmt.Sprint`
-- prints of it.
pub data Value : Type 0 where
  int : ℤ → Value
  bytes : Bytes → Value
  other : Bytes → Value

-- A reply: an array of values, or anything else.
pub data Reply : Type 0 where
  array : List Value → Reply
  single : Value → Reply

-- A field of a hash is missing, or a string. `HMGET` answers with one value for each field.
pub record Server : Type 1 where
  pub State : Type 0
  pub hmget3 :
      State
      → ℕ
      → Bytes
      → Bytes
      → Bytes
      → Bytes
      → Result (Option Bytes × Option Bytes × Option Bytes)
  pub run : State → ℕ → Script → List Bytes → List Arg → State × Result Reply
