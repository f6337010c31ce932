-- ===== src/Lease/Keys.antt =====
-- The keys of leases: what `splitKey` makes of what `cacheKey` put together.
use valve.Common.{
  ◌≡◌, refl, ap, ◌∙◌, sym, ◌==◌, Bool-cases, inl, inr, arith, Bytes, [], ◌∷◌, ◌++◌, some, false,
}
use valve.Api.{Key}
use valve.Memory.State.{bucket_key, model_or_dash, is_empty}
use valve.Lease.DenyCache.{cache_key}
use valve.Lease.Snapshot.{split_at_zero, split_key}

-- No byte is zero.
abbrev pub NoZero : Bytes → Type 0
NoZero [] = Unit {0}
NoZero (c ∷ s) = ((c == 0) ≡ false) × NoZero s

split_at_zero-append : (s t : Bytes) → NoZero s → split_at_zero (s ++ (0 ∷ t)) ≡ some (s, t)
unfolding split_at_zero
split_at_zero-append [] t h = refl
split_at_zero-append (c ∷ s) t h = ground (arith, split_at_zero-append s t h.1)

-- Whatever the strings, the parts around the first zero byte make up the whole.
split_at_zero_parts :
    (s t : Bytes)
    → (l : Bytes) × (r : Bytes) × (split_at_zero (s ++ (0 ∷ t)) ≡ some (l, r))
      × (l ++ (0 ∷ r) ≡ s ++ (0 ∷ t))
      × (is_empty t ≡ false → is_empty r ≡ false)
unfolding split_at_zero
split_at_zero_parts [] t = ([], t, refl, refl, λ h. h)
split_at_zero_parts (c ∷ s) t = elim (Bool-cases (c == 0)) [
  | inl zero_byte ↦ ([], s ++ (0 ∷ t), ground arith, ground arith, λ h. tail_nonempty s t)
  | inr other ↦
      let (l, r, e, whole, h) = split_at_zero_parts s t in
      (c ∷ l, r, ground (arith, e), ap (λ x. c ∷ x) whole, h)
]
  where
    tail_nonempty : (s t : Bytes) → is_empty (s ++ (0 ∷ t)) ≡ false
    tail_nonempty [] t = refl
    tail_nonempty (x ∷ s) t = refl

model_or_dash_nonempty : (m : Bytes) → is_empty (model_or_dash m) ≡ false
unfolding model_or_dash
model_or_dash_nonempty [] = refl
model_or_dash_nonempty (x ∷ m) = refl

model_or_dash_id : (m : Bytes) → is_empty m ≡ false → model_or_dash m ≡ m
unfolding model_or_dash
model_or_dash_id m h = rw h

-- The key that a snapshot is handed back under has the buckets of the key that it was borrowed
-- under, whatever bytes the subject and the model are made of.
pub cache_key-split_key : (key : Key) → cache_key (split_key (cache_key key)) ≡ cache_key key
unfolding bucket_key split_key
cache_key-split_key key =
    let (l, r, e, whole, h) = split_at_zero_parts key.subject (model_or_dash key.model) in
    rw (e, split_key)
      (ap (λ x. l ++ (0 ∷ x)) (model_or_dash_id r (h (model_or_dash_nonempty key.model))) ∙ whole)

-- Where the subject has no zero byte, `splitKey` gives it back, and the model or its dash.
pub split_key-cache_key :
    (key : Key)
    → NoZero key.subject
    → split_key (cache_key key) ≡ record { subject = key.subject; model = model_or_dash key.model }
unfolding bucket_key split_key
split_key-cache_key key h =
    rw (split_at_zero-append key.subject (model_or_dash key.model) h, split_key)

-- Two keys whose subjects have no zero byte share their buckets only when they have the same subject
-- and the same model, where the empty model and the dash are one.
pub cache_key_injective :
    (a b : Key)
    → NoZero a.subject
    → NoZero b.subject
    → cache_key a ≡ cache_key b
    → (a.subject ≡ b.subject) × (model_or_dash a.model ≡ model_or_dash b.model)
cache_key_injective a b ha hb e =
    let same = sym (split_key-cache_key a ha) ∙ ap split_key e ∙ split_key-cache_key b hb in
    (ap (λ k. k.subject) same, ap (λ k. k.model) same)
