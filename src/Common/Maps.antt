-- ===== src/Common/Maps.antt =====
-- Go strings as lists of bytes, and Go maps from strings as functions into options.
use Prim.Native.Nat.{ℕ}
use Prim.Native.Char.{code}
use Prim.Native.String.{String}
use mathlib.Core.Path.{◌≡◌, refl}
use mathlib.Core.Logic.{◌↔◌, ◌≢◌, inl, inr}
use mathlib.Core.Bool.{Bool, true, false, ◌&&◌}
use mathlib.Core.Option.{Option, none, some}
use mathlib.Core.List.{List, [], ◌∷◌}
use native.Mathlib.Omega.{arith}
use valve.Common.Tests.{◌==◌, if◌then◌else◌, Bool-cases}

abbrev pub Bytes : Type 0
Bytes = List ℕ

-- The bytes of an ASCII literal.
abbrev pub codes : String → Bytes
codes String.[] = []
codes (String.◌∷◌ c s) = code c ∷ codes s

unfoldable pub bytes_eq : Bytes → Bytes → Bool
bytes_eq [] [] = true
bytes_eq [] (b ∷ t) = false
bytes_eq (a ∷ s) [] = false
bytes_eq (a ∷ s) (b ∷ t) = (a == b) && bytes_eq s t

pub bytes_eq_sound : (s t : Bytes) → bytes_eq s t ≡ true → s ≡ t
unfolding bytes_eq
bytes_eq_sound [] [] h = refl
bytes_eq_sound [] (b ∷ t) h = ground arith
bytes_eq_sound (a ∷ s) [] h = ground arith
bytes_eq_sound (a ∷ s) (b ∷ t) h = ground (arith, bytes_eq_sound s t)

pub bytes_eq_refl : (s : Bytes) → bytes_eq s s ≡ true
unfolding bytes_eq
bytes_eq_refl [] = refl
bytes_eq_refl (a ∷ s) = ground (arith, bytes_eq_refl s)

pub bytes_eq_iff : (s t : Bytes) → (bytes_eq s t ≡ true) ↔ (s ≡ t)
bytes_eq_iff s t = (bytes_eq_sound s t, λ e. ground (arith, bytes_eq_refl s))

abbrev pub Map : Type 0 → Type 0
Map V = Bytes → Option V

module _ {V : Type 0} where
  -- `make(map[string]V)`
  abbrev pub empty_map : Map V
  empty_map j = none

  -- `m[k] = v`
  abbrev pub insert : Bytes → V → Map V → Map V
  insert k v m j = if bytes_eq k j then some v else m j

  -- `delete(m, k)`
  abbrev pub delete : Bytes → Map V → Map V
  delete k m j = if bytes_eq k j then none else m j

  pub insert_self : (k : Bytes) (v : V) (m : Map V) → insert k v m k ≡ some v
  insert_self k v m = rw (bytes_eq_refl k)

  pub insert_ne : (k j : Bytes) (v : V) (m : Map V) → k ≢ j → insert k v m j ≡ m j
  insert_ne k j v m h = elim (Bool-cases (bytes_eq k j)) [
    | inl e ↦ absurd (h (bytes_eq_sound k j e))
    | inr e ↦ rw e
  ]

  pub delete_self : (k : Bytes) (m : Map V) → delete k m k ≡ none
  delete_self k m = rw (bytes_eq_refl k)
