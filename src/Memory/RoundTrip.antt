-- ===== src/Memory/RoundTrip.antt =====
-- A `Check` that is checked-IsUndone by a `Refund` at the same moment.
use valve.Common.{ℕ, ◌<◌, ℤ, pos, ◌≤ℤ◌, ◌≡◌, ap, ◌∙◌, sym, Bytes, Map}
use valve.Bucket
use valve.Bucket.{refill}
use valve.Bucket.Refill.{IsBounded}
use valve.Bucket.Consume.{refill_settled}
use valve.Memory.State.{BucketState, load_bucket, save_bucket}
use valve.Memory.Buckets.{load_bucket-save_bucket}

module _ (m : Map BucketState) (k : Bytes) (capacity : ℤ) (now_ms : ℕ) (p : 0 < now_ms)
    (c : pos 0 ≤ℤ capacity) where
  -- A bucket of this moment that is saved is loaded as it is.
  pub load_saved :
      (st : Bucket.State)
      → st.capacity ≡ capacity
      → st.last_ms ≡ now_ms
      → IsBounded st
      → load_bucket (save_bucket m k st) k capacity now_ms ≡ st
  load_saved st e l v =
      load_bucket-save_bucket m k st capacity now_ms (rw l p)
      ∙ ap (λ n. refill (record st { capacity = n }) now_ms) (sym e)
      ∙ refill_settled st now_ms l p (rw e c) v
