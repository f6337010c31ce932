-- ===== src/Redis/Agree/Keys.antt =====
-- The names of the hashes on the server: which of them are the same.
use valve.Common.{◌≡◌, refl, ◌∙◌, arith, false, Bytes, codes, bytes_eq, [], ◌∷◌, ◌++◌}
use valve.Api.{Key}
use valve.Memory.State.{model_or_dash}
use valve.Redis.Keys.{base, bucket_keys, reservation_key}

abbrev pub rpm_key : Key → Bytes
rpm_key key = (bucket_keys key).0

abbrev pub tpm_key : Key → Bytes
tpm_key key = (bucket_keys key).1

pub bytes_eq-append : (x a b : Bytes) → bytes_eq (x ++ a) (x ++ b) ≡ bytes_eq a b
unfolding bytes_eq
bytes_eq-append [] a b = refl
bytes_eq-append (c ∷ x) a b = ground (arith, bytes_eq-append x a b)

-- Reservations have the same key in both stores.
pub bytes_eq-reservation_key :
    (a b : Bytes) → bytes_eq (reservation_key a) (reservation_key b) ≡ bytes_eq a b
unfolding reservation_key
bytes_eq-reservation_key a b = bytes_eq-append (codes "rl:res:") a b

pub keys_apart : (key : Key) → bytes_eq (tpm_key key) (rpm_key key) ≡ false
unfolding bucket_keys
keys_apart key = bytes_eq-append (base key) (codes ":tpm") (codes ":rpm") ∙ unfold bytes_eq in refl

pub keys_apart_back : (key : Key) → bytes_eq (rpm_key key) (tpm_key key) ≡ false
unfolding bucket_keys
keys_apart_back key =
    bytes_eq-append (base key) (codes ":rpm") (codes ":tpm") ∙ unfold bytes_eq in refl

-- Naming a model `-` is leaving it unnamed.
pub model_or_dash-model_or_dash :
    (model : Bytes) → model_or_dash (model_or_dash model) ≡ model_or_dash model
unfolding model_or_dash
model_or_dash-model_or_dash [] = refl
model_or_dash-model_or_dash (b ∷ s) = refl

-- The hash of a reservation names the buckets of its key.
pub bucket_keys_stored :
    (key : Key)
    → bucket_keys (record { subject = key.subject; model = model_or_dash key.model })
      ≡ bucket_keys key
unfolding bucket_keys base
bucket_keys_stored key = rw (model_or_dash-model_or_dash key.model) refl
