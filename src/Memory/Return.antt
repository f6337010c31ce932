-- ===== src/Memory/Return.antt =====
-- `Return` of the memory store: unused credits of a lease come back.
use valve.Common.{ℕ, ℤ, pos, leb_ℤ, ◌&&◌, if◌then◌else◌}
use valve.Api.{Key, Limits, ok, err, Error, split}
use valve.Bucket.{credit}
use valve.Memory.State.{Store, Outcome, unix_milli, is_empty, bucket_key, load_bucket, save_bucket}

-- The buckets after the credits, by mode.
unfoldable pub return_buckets : Store → Key → Limits → ℤ → ℤ → ℤ → ℤ → ℕ → Store
return_buckets s key limits rpm_add tpm_add itpm_add otpm_add now_ms =
    let bk = bucket_key key in
    let rpm = credit (load_bucket s.rpm bk limits.requests_per_minute now_ms) now_ms rpm_add in
    if split limits
    then (let itpm =
          credit (load_bucket s.itpm bk limits.input_tokens_per_minute now_ms) now_ms itpm_add in
        let otpm =
          credit (load_bucket s.otpm bk limits.output_tokens_per_minute now_ms) now_ms otpm_add in
        record s {
          rpm = save_bucket s.rpm bk rpm;
          itpm = save_bucket s.itpm bk itpm;
          otpm = save_bucket s.otpm bk otpm;
        })
    else let tpm = credit (load_bucket s.tpm bk limits.tokens_per_minute now_ms) now_ms tpm_add in
      record s { rpm = save_bucket s.rpm bk rpm; tpm = save_bucket s.tpm bk tpm }

-- `Return`
unfoldable pub return_credits : Store → ℕ → Key → Limits → ℤ → ℤ → ℤ → ℤ → Outcome (Unit {0})
return_credits s now key limits rpm_add tpm_add itpm_add otpm_add =
    if is_empty key.subject
    then (s, err Error.subject_required)
    else if leb_ℤ rpm_add (pos 0)
        && leb_ℤ tpm_add (pos 0)
        && leb_ℤ itpm_add (pos 0)
        && leb_ℤ otpm_add (pos 0)
    then (s, ok tt)
    else (return_buckets s key limits rpm_add tpm_add itpm_add otpm_add (unix_milli now), ok tt)
