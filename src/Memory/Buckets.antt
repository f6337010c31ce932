-- ===== src/Memory/Buckets.antt =====
-- Loading and saving buckets in the memory store, and what a map of them keeps.
use valve.Common.{
  ℕ, ◌≤◌, ◌<◌, ℤ, pos, neg_part, ◌≤ℤ◌, ◌≡◌, refl, ◌≢◌, ap, ◌∙◌, arith, Bytes, Map, Option, none,
  some, insert_self, insert_ne, inl, inr, bytes_eq, Bool-cases,
}
use valve.Bucket
use valve.Bucket.{refill, scale}
use valve.Bucket.Refill.{
  IsBounded, refill-IsBounded, refill-capacity, refill-last_ms, refill-refill,
}
use valve.Memory.State.{BucketState, stored, load_bucket, save_bucket}

-- No bucket of a map holds less than nothing or was refilled after `now_ms`.
pub record IsSound (now_ms : ℕ) (b : BucketState) : Type 0 where
  pub nonneg : neg_part b.tokens ≡ 0
  pub past : b.last_ms ≤ now_ms

abbrev pub AllSound : ℕ → Map BucketState → Type 0
AllSound now_ms m = (k : Bytes) (b : BucketState) → m k ≡ some b → IsSound now_ms b

stored-capacity : (o : Option BucketState) (capacity : ℤ) → (stored o capacity).capacity ≡ capacity
stored-capacity none capacity = refl
stored-capacity (some b) capacity = ground arith

pub stored_sound :
    (now_ms : ℕ) (o : Option BucketState) (capacity : ℤ)
    → ((b : BucketState) → o ≡ some b → IsSound now_ms b)
    → (neg_part (stored o capacity).tokens ≡ 0) × ((stored o capacity).last_ms ≤ now_ms)
stored_sound now_ms none capacity h = omega arith
stored_sound now_ms (some b) capacity h = ground (arith, h b refl)

module _ (m : Map BucketState) (k : Bytes) (capacity : ℤ) (now_ms : ℕ) where
  pub load_bucket-capacity : (load_bucket m k capacity now_ms).capacity ≡ capacity
  unfolding load_bucket
  load_bucket-capacity = refill-capacity _ now_ms ∙ stored-capacity (m k) capacity

  pub load_bucket-last_ms : (load_bucket m k capacity now_ms).last_ms ≡ now_ms
  unfolding load_bucket
  load_bucket-last_ms = refill-last_ms _ now_ms

  pub load_bucket-IsBounded :
      AllSound now_ms m → pos 0 ≤ℤ capacity → IsBounded (load_bucket m k capacity now_ms)
  unfolding load_bucket
  load_bucket-IsBounded h c =
      let (n, l) = stored_sound now_ms (m k) capacity (h k) in
      refill-IsBounded _ now_ms (rw (stored-capacity (m k) capacity) c) n l

  -- A loaded bucket is already refilled.
  pub refill-load_bucket :
      AllSound now_ms m
      → 0 < now_ms
      → refill (load_bucket m k capacity now_ms) now_ms ≡ load_bucket m k capacity now_ms
  unfolding load_bucket
  refill-load_bucket h p =
      refill-refill _ now_ms now_ms p (omega arith) (stored_sound now_ms (m k) capacity (h k)).1

-- A bucket that was saved is loaded again, refilled from its own time on.
pub load_bucket-save_bucket :
    (m : Map BucketState) (k : Bytes) (st : Bucket.State) (capacity : ℤ) (now_ms : ℕ)
    → 0 < st.last_ms
    → load_bucket (save_bucket m k st) k capacity now_ms
      ≡ refill (record st { capacity = capacity }) now_ms
unfolding load_bucket save_bucket
load_bucket-save_bucket m k st capacity now_ms p =
    ap (λ x. refill x now_ms)
      (ground (arith, insert_self k (record { tokens = st.tokens; last_ms = st.last_ms }) m))

-- Saving under one key leaves the buckets of the others alone.
pub save_bucket_ne :
    (m : Map BucketState) (k j : Bytes) (st : Bucket.State) → k ≢ j → save_bucket m k st j ≡ m j
unfolding save_bucket
save_bucket_ne m k j st h = insert_ne k j _ m h

pub save_bucket-AllSound :
    (m : Map BucketState) (k : Bytes) (st : Bucket.State) (now_ms : ℕ)
    → AllSound now_ms m
    → neg_part st.tokens ≡ 0
    → st.last_ms ≤ now_ms
    → AllSound now_ms (save_bucket m k st)
unfolding save_bucket
save_bucket-AllSound m k st now_ms h n l j b e = elim (Bool-cases (bytes_eq k j)) [
  | inl hit ↦ ground (arith, hit)
  | inr miss ↦ h j b (rw miss at e)
]

pub AllSound-later : (m : Map BucketState) {t u : ℕ} → t ≤ u → AllSound t m → AllSound u m
AllSound-later m le h k b e = record {
  nonneg = (h k b e).nonneg;
  past = grind (arith, (h k b e).past);
}
