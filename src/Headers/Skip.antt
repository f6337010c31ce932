-- ===== src/Headers/Skip.antt =====
-- Where a header of pkg/headers/headers.go is not set.
use valve.Common.{
  ℕ, ℤ, pos, ltb_ℤ, ◌||◌, ◌≡◌, refl, ◌∙◌, arith, false, Bool-cases, inl, inr, Bytes, bytes_eq, none,
  some, Option-cases, List, ◌∷◌, ◌++◌,
}
use valve.Api.{Decision, Duration, Time}
use valve.Strconv.{format_int}
use valve.Http.{Emit, set, get, get-append}
use valve.Headers.{
  reset_requests, reset_tokens, limit_input_tokens, remaining_input_tokens, reset_input_tokens,
  limit_output_tokens, remaining_output_tokens, reset_output_tokens, retry_after, write_reset,
  is_set, write_part, write_retry,
}

pub skip_reset :
    (name n : Bytes) (t : Time) (now : ℕ)
    → bytes_eq n name ≡ false
    → get name (write_reset n t now) ≡ none
unfolding write_reset get
skip_reset name n none now h = refl
skip_reset name n (some t) now h = rw h refl

pub skip_set :
    (name n v : Bytes) (es : List Emit)
    → bytes_eq n name ≡ false
    → get name (set n v ∷ es) ≡ get name es
unfolding get
skip_set name n v es h = ground (arith, h)

pub skip_part :
    (name n m k : Bytes) (limit remaining : ℤ) (t : Time) (now : ℕ)
    → bytes_eq n name ≡ false
    → bytes_eq m name ≡ false
    → bytes_eq k name ≡ false
    → get name (write_part n m k limit remaining t now) ≡ none
unfolding write_part
skip_part name n m k limit remaining t now h h' h'' =
    elim (Bool-cases (ltb_ℤ (pos 0) limit || ltb_ℤ (pos 0) remaining || is_set t)) [
      | inl e ↦ rw e (
          skip_set name n (format_int limit) (set m (format_int remaining) ∷ write_reset k t now) h
          ∙ skip_set name m (format_int remaining) (write_reset k t now) h'
          ∙ skip_reset name k t now h'')
      | inr e ↦ rw e (unfold get in refl)
    ]

pub skip_retry :
    (name : Bytes) (d : Duration)
    → bytes_eq retry_after name ≡ false
    → get name (write_retry d) ≡ none
unfolding write_retry get
skip_retry name d h = ground (arith, h)

pub skip_append :
    (name : Bytes) (es fs : List Emit) → get name es ≡ none → get name (es ++ fs) ≡ get name fs
skip_append name es fs h =
    get-append name es fs
    ∙ elim (Option-cases (get name fs)) [ inl e ↦ rw (h, e) refl | inr (v, e) ↦ rw (h, e) refl ]

-- A name that none of the headers of times and of parts has.
pub record IsApart (name : Bytes) : Type 0 where
  pub a : bytes_eq reset_requests name ≡ false
  pub b : bytes_eq reset_tokens name ≡ false
  pub c : bytes_eq limit_input_tokens name ≡ false
  pub d : bytes_eq remaining_input_tokens name ≡ false
  pub e : bytes_eq reset_input_tokens name ≡ false
  pub f : bytes_eq limit_output_tokens name ≡ false
  pub g : bytes_eq remaining_output_tokens name ≡ false
  pub h : bytes_eq reset_output_tokens name ≡ false

abbrev pub tail : Decision → (ℕ → ℕ) → List Emit
tail d clock =
    write_reset reset_requests d.reset_rpm (clock 0)
    ++ (write_reset reset_tokens d.reset_tpm (clock 1)
        ++ (write_part limit_input_tokens remaining_input_tokens reset_input_tokens d.limit_itpm
              d.remaining_itpm d.reset_itpm (clock 2)
            ++ (write_part limit_output_tokens remaining_output_tokens reset_output_tokens
                  d.limit_otpm d.remaining_otpm d.reset_otpm (clock 3)
                ++ write_retry d.retry_after)))

pub skip_tail :
    (name : Bytes) (d : Decision) (clock : ℕ → ℕ)
    → IsApart name
    → get name (tail d clock) ≡ get name (write_retry d.retry_after)
skip_tail name d clock v =
    skip_append name _ _ (skip_reset name reset_requests d.reset_rpm (clock 0) v.a)
    ∙ skip_append name _ _ (skip_reset name reset_tokens d.reset_tpm (clock 1) v.b)
    ∙ skip_append name _ _ (
        skip_part name limit_input_tokens remaining_input_tokens reset_input_tokens d.limit_itpm
          d.remaining_itpm d.reset_itpm (clock 2) v.c v.d v.e)
    ∙ skip_append name _ _ (
        skip_part name limit_output_tokens remaining_output_tokens reset_output_tokens d.limit_otpm
          d.remaining_otpm d.reset_otpm (clock 3) v.f v.g v.h)
