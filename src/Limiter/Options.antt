-- ===== src/Limiter/Options.antt =====
-- `New`, its options, and `randomID` of pkg/limiter/limiter.go. `WithIDGenerator` replaces the
-- generator, whose identifiers are an argument of the methods. The source of random bytes is an
-- argument, and encoding/hex is the one of Logx.
use valve.Common.{ℕ, ◌*◌, ◌/◌, ◌%◌, ◌<◌, ◌≡◌, refl, arith, Bytes, List, [], ◌∷◌, Option, none, some}
use valve.Api.{FailMode, fail_closed}
use valve.Lease.Config.{Config}
use valve.Lease.Pool.{new_pool}
use valve.Limiter.Backend.{Limiter}
use valve.Logx.{hex, hex_digit}
use valve.Redis.Reply.{length}

-- `WithFailMode` and `WithFastPath`.
pub data Choice : Type 0 where
  with_fail_mode : FailMode → Choice
  with_fast_path : Config → Choice

module _ {S : Type 0} where
  -- An option, called on a limiter.
  unfoldable pub apply : Choice → Limiter S → Limiter S
  apply (with_fail_mode m) l = record l { fail_mode = m }
  apply (with_fast_path cfg) l = record l { pool = some (new_pool cfg) }

  -- The loop of `New`.
  unfoldable pub apply_all : List Choice → Limiter S → Limiter S
  unfolding apply
  apply_all [] l = l
  apply_all (o ∷ opts) l = apply_all opts (apply o l)

  -- `New`
  unfoldable pub new_limiter : S → List Choice → Limiter S
  unfolding apply_all
  new_limiter s opts = apply_all opts (record { store = s; fail_mode = fail_closed; pool = none })

-- `randomID`, with what the source of random bytes gives.
unfoldable pub random_id : Option Bytes → Option Bytes
random_id none = none
random_id (some b) = some (hex b)

-- Every number is a byte.
abbrev pub AreBytes : Bytes → Type 0
AreBytes [] = Unit {0}
AreBytes (b ∷ s) = (b < 256) × AreBytes s

hex_digit_injective : (a b : ℕ) → a < 16 → b < 16 → hex_digit a ≡ hex_digit b → a ≡ b
hex_digit_injective a b p q h = grind arith

cons_injective : {a b : ℕ} {s t : Bytes} → a ∷ s ≡ b ∷ t → (a ≡ b) × (s ≡ t)
cons_injective h = (cc, cc)

hex_injective : (s t : Bytes) → AreBytes s → AreBytes t → hex s ≡ hex t → s ≡ t
unfolding hex
hex_injective [] [] p q h = refl
hex_injective [] (b ∷ t) p q h = absurd cc
hex_injective (a ∷ s) [] p q h = absurd cc
hex_injective (a ∷ s) (b ∷ t) (p, ps) (q, qs) h =
    let (x, t') = cons_injective h in
    let (y, t'') = cons_injective t' in
    let e : a ≡ b = omega (
      arith,
      hex_digit_injective (a / 16) (b / 16) (omega arith) (omega arith) x,
      hex_digit_injective (a % 16) (b % 16) (omega arith) (omega arith) y,
    ) in
    rw (e, hex_injective s t ps qs t'') refl

length-hex : (s : Bytes) → length (hex s) ≡ 2 * length s
unfolding hex
length-hex [] = refl
length-hex (b ∷ s) = omega (arith, length-hex s)

-- Two reads of random bytes that give the same identifier read the same bytes.
pub random_id_injective :
    (a b : Bytes) → AreBytes a → AreBytes b → random_id (some a) ≡ random_id (some b) → a ≡ b
unfolding random_id
random_id_injective a b p q h = hex_injective a b p q cc

-- An identifier of sixteen bytes has 32 characters.
pub length-random_id :
    (a : Bytes) → length a ≡ 16 → (id : Bytes) × (random_id (some a) ≡ some id) × (length id ≡ 32)
unfolding random_id
length-random_id a h = (hex a, refl, omega (arith, length-hex a))
