-- ===== src/Http.antt =====
-- What the repository asks of net/http and of encoding/json for its answers: the calls on a
-- `ResponseWriter` and on its header, in their order.
use valve.Common.{
  ℕ, ℤ, Bool, Bytes, bytes_eq, if◌then◌else◌, Option, none, some, List, [], ◌∷◌, ◌++◌, ◌≡◌, refl,
  Option-cases, inl, inr,
}
use valve.Api.{Time}

mutual
  -- A value that is encoded as JSON; a time is written as RFC 3339 has it.
  pub data Json : Type 0 where
    str : Bytes → Json
    num : ℤ → Json
    flag : Bool → Json
    time : Time → Json
    object : Fields → Json

  -- The entries of a `map[string]any`.
  pub data Fields : Type 0 where
    no_fields : Fields
    field : Bytes → Json → Fields → Fields

-- `Header.Set`, `Header.Add`, `WriteHeader`, `Write`, `http.Error`, and `json.Encoder.Encode`.
pub data Emit : Type 0 where
  set add : Bytes → Bytes → Emit
  write_header : ℕ → Emit
  write : Bytes → Emit
  error : Bytes → ℕ → Emit
  encode : Json → Emit

-- `Header.Get` after the calls of `Header.Set`; none where the name was not set.
unfoldable pub get : Bytes → List Emit → Option Bytes
get name [] = none
get name (e ∷ es) = elim (get name es) [
  | some v ↦ some v
  | none ↦ elim e [
    | set n v ↦ if bytes_eq n name then some v else none
    | add n v ↦ none
    | write_header n ↦ none
    | write b ↦ none
    | error t n ↦ none
    | encode v ↦ none
  ]
]

abbrev pub or_else : Option Bytes → Option Bytes → Option Bytes
or_else none o = o
or_else (some v) o = some v

pub get-append :
    (name : Bytes) (es fs : List Emit) → get name (es ++ fs) ≡ or_else (get name fs) (get name es)
unfolding get
get-append name [] fs = elim (Option-cases (get name fs)) [
  | inl e ↦ rw e refl
  | inr (v, e) ↦ rw e refl
]
get-append name (e ∷ es) fs = elim (Option-cases (get name fs)) [
  | inl p ↦ rw (get-append name es fs, p) refl
  | inr (v, p) ↦ rw (get-append name es fs, p) refl
]
