-- ===== src/Redis/Agree/Mirror/Borrows.antt =====
-- `Borrow` and `Return` on stores that mirror each other.
use valve.Common.{
  ℕ, ◌<◌, ◌≤◌, ◌*◌, ℤ, pos, ◌≤ℤ◌, ◌<ℤ◌, ◌-ℤ◌, ltb_ℤ, leb_ℤ, ◌&&◌, min_ℤ, ◌≡◌, refl, arith, true,
  false, Bool, Bool-cases, inl, inr, bytes_eq, bytes_eq_refl, insert,
}
use valve.Api.{Key, Limits, Result, split, is_partial, limit_type_of}
use valve.Bucket.{scale, clamp_cost, remaining_int}
use valve.Store.{BorrowSpec, BorrowResult}
use valve.Memory.State.{Store, bucket_key, save_bucket, unix_milli, is_empty}
use valve.Memory.Borrow
use valve.Memory.Borrow.{clamp_spec}
use valve.Memory.Return
use valve.Redis.Lua
use valve.Redis.Lua.{Hashes, expire}
use valve.Redis.Lua.Borrow.{max_ℤ, borrow_script, borrow_refilled, borrow_debited}
use valve.Redis.Lua.Return.{return_script}
use valve.Redis.Lua.Run.{Rest, server, run_script}
use valve.Redis.Calls
use valve.Redis.Parse.{parse_borrow}
use valve.Redis.Reply.{to_int64, to_string}
use valve.Redis.Agree.Alike.{AreAlike_refl, refill_bounds}
use valve.Redis.Agree.Keys.{rpm_key, tpm_key, keys_apart}
use valve.Redis.Agree.Loans.{
  want_got_lem, lent_bounds, lent_consumed, lent_left, refused_retry, returned_agrees,
  returned_bounds,
}
use valve.Redis.Agree.Mirror.{Mirrors, Mirrors-later, Mirrors_dropped, load_alike}

module _ (rest : Rest) (key : Key) (limits : Limits) (cr : pos 0 <ℤ limits.requests_per_minute)
    (ct : pos 0 <ℤ limits.tokens_per_minute) (classic : split limits ≡ false) (t now : ℕ)
    (p : 0 < unix_milli now) (le : t ≤ unix_milli now) (at : now ≡ unix_milli now * 1000000)
    (h : Hashes) (s : Store) (v : Mirrors key limits t h s) where
  abbrev seen : Hashes
  seen = expire h (unix_milli now)

  w : Mirrors key limits (unix_milli now) seen s
  w = Mirrors_dropped key limits t now le at cr ct h s v

  later : Mirrors key limits (unix_milli now) h s
  later = Mirrors-later key limits t (unix_milli now) h s cr ct le v

  abbrev x : ℤ
  x = Lua.refill (seen.buckets (rpm_key key)) limits.requests_per_minute (unix_milli now)

  abbrev y : ℤ
  y = Lua.refill (seen.buckets (tpm_key key)) limits.tokens_per_minute (unix_milli now)

  x_bounds : (pos 0 ≤ℤ x) × (x ≤ℤ scale limits.requests_per_minute)
  x_bounds = refill_bounds limits.requests_per_minute cr _ (unix_milli now) w.rpm.left

  y_bounds : (pos 0 ≤ℤ y) × (y ≤ℤ scale limits.tokens_per_minute)
  y_bounds = refill_bounds limits.tokens_per_minute ct _ (unix_milli now) w.tpm.left

  -- Both write the same two buckets.
  written-Mirrors :
      (a b : ℤ)
      → (pos 0 ≤ℤ a) × (a ≤ℤ scale limits.requests_per_minute)
      → (pos 0 ≤ℤ b) × (b ≤ℤ scale limits.tokens_per_minute)
      → Mirrors key limits
          (unix_milli now)
          (record seen {
            buckets =
                insert
                  (tpm_key key)
                  (record { tokens = b; last_ms = unix_milli now })
                  (insert
                    (rpm_key key)
                    (record { tokens = a; last_ms = unix_milli now })
                    seen.buckets);
          })
          (record s {
            rpm = insert (bucket_key key) (record { tokens = a; last_ms = unix_milli now }) s.rpm;
            tpm = insert (bucket_key key) (record { tokens = b; last_ms = unix_milli now }) s.tpm;
          })
  written-Mirrors a b (a0, a1) (b0, b1) = record {
    rpm = rw (keys_apart key) (
        rw (bytes_eq_refl (rpm_key key)) (
          rw (bytes_eq_refl (bucket_key key)) (
            AreAlike_refl limits.requests_per_minute cr _ (unix_milli now)
              (p, omega arith, a0, a1))));
    tpm = rw (bytes_eq_refl (tpm_key key)) (
        rw (bytes_eq_refl (bucket_key key))
          (AreAlike_refl limits.tokens_per_minute ct _ (unix_milli now) (p, omega arith, b0, b1)));
    res = w.res;
  }

  module _ (spec : BorrowSpec) where
    abbrev theirs : Hashes × Result BorrowResult
    theirs =
        let (h', r) =
          borrow_script (rpm_key key) (tpm_key key) limits.requests_per_minute
            limits.tokens_per_minute seen (unix_milli now) spec.min_rpm spec.min_tpm spec.chunk_rpm
            spec.chunk_tpm in
        (h', parse_borrow r limits)

    abbrev ours : Store × Result BorrowResult
    ours = Borrow.borrow_classic_locked s key limits (clamp_spec spec) (unix_milli now)

    abbrev Agree : Type 0
    Agree = (theirs.1 ≡ ours.1) × Mirrors key limits (unix_milli now) theirs.0 ours.0

    abbrev no_rpm : Bool
    no_rpm = ltb_ℤ (remaining_int x) (clamp_cost spec.min_rpm)

    abbrev no_tpm : Bool
    no_tpm = ltb_ℤ (remaining_int y) (clamp_cost spec.min_tpm)

    abbrev got_rpm : ℤ
    got_rpm = min_ℤ (remaining_int x) (max_ℤ (clamp_cost spec.min_rpm) (clamp_cost spec.chunk_rpm))

    abbrev got_tpm : ℤ
    got_tpm = min_ℤ (remaining_int y) (max_ℤ (clamp_cost spec.min_tpm) (clamp_cost spec.chunk_tpm))

    refused_rpm : no_rpm ≡ true → Agree
    unfolding borrow_script borrow_refilled Borrow.borrow_classic_locked parse_borrow to_int64
        to_string limit_type_of bytes_eq
    refused_rpm a =
        rw
          (
            load_alike limits.tokens_per_minute (unix_milli now) _ s.tpm (bucket_key key) ct w.tpm,
            load_alike limits.requests_per_minute (unix_milli now) _ s.rpm (bucket_key key) cr
                w.rpm,
            a,
            refused_retry x (unix_milli now) limits.requests_per_minute p cr x_bounds.1 spec.min_rpm
                a,
          )
          (refl, w)

    refused_tpm : no_rpm ≡ false → no_tpm ≡ true → Agree
    unfolding borrow_script borrow_refilled Borrow.borrow_classic_locked parse_borrow to_int64
        to_string limit_type_of bytes_eq
    refused_tpm a b =
        rw
          (
            load_alike limits.tokens_per_minute (unix_milli now) _ s.tpm (bucket_key key) ct w.tpm,
            load_alike limits.requests_per_minute (unix_milli now) _ s.rpm (bucket_key key) cr
                w.rpm,
            a,
            b,
            refused_retry y (unix_milli now) limits.tokens_per_minute p ct y_bounds.1 spec.min_tpm
                b,
          )
          (refl, w)

    granted : no_rpm ≡ false → no_tpm ≡ false → Agree
    unfolding borrow_script borrow_refilled borrow_debited Borrow.borrow_classic_locked parse_borrow
        to_int64 to_string limit_type_of save_bucket bytes_eq
    granted a b =
        let (rpm0, rpm1) =
          lent_bounds x (unix_milli now) limits.requests_per_minute p cr x_bounds.1 spec.min_rpm
            spec.chunk_rpm a in
        let (tpm0, tpm1) =
          lent_bounds y (unix_milli now) limits.tokens_per_minute p ct y_bounds.1 spec.min_tpm
            spec.chunk_tpm b in
        rw
          (
            load_alike limits.tokens_per_minute (unix_milli now) _ s.tpm (bucket_key key) ct w.tpm,
            load_alike limits.requests_per_minute (unix_milli now) _ s.rpm (bucket_key key) cr
                w.rpm,
            a,
            b,
          )
          (rw
            (
              want_got_lem (remaining_int x) (clamp_cost spec.min_rpm) (clamp_cost spec.chunk_rpm),
              want_got_lem (remaining_int y) (clamp_cost spec.min_tpm) (clamp_cost spec.chunk_tpm),
            )
            (rw
              (
                lent_consumed x (unix_milli now) limits.requests_per_minute p cr x_bounds.1 got_rpm
                    rpm0 rpm1,
                lent_consumed y (unix_milli now) limits.tokens_per_minute p ct y_bounds.1 got_tpm
                    tpm0 tpm1,
              )
              (
                refl,
                written-Mirrors (x -ℤ scale got_rpm) (y -ℤ scale got_tpm)
                    (lent_left x (unix_milli now) limits.requests_per_minute p cr x_bounds.1 got_rpm
                      rpm0 rpm1)
                    (lent_left y (unix_milli now) limits.tokens_per_minute p ct y_bounds.1 got_tpm
                      tpm0 tpm1),
              )))

    pub borrow-Mirrors :
        let (h', r) = Calls.borrow (server rest) h now key limits spec in
        let (s', r') = Borrow.borrow s now key limits spec in
        (r ≡ r') × Mirrors key limits (unix_milli now) h' s'
    unfolding Calls.borrow Calls.run_borrow run_script Borrow.borrow
    borrow-Mirrors = elim (Bool-cases (is_partial limits)) [
      | inl part ↦ rw part (refl, later)
      | inr whole ↦ elim (Bool-cases (is_empty key.subject)) [
        | inl unnamed ↦ rw (whole, unnamed) (refl, later)
        | inr named ↦
            rw (whole, named, classic)
              (elim (Bool-cases no_rpm) [
                | inl a ↦ refused_rpm a
                | inr a ↦ elim (Bool-cases no_tpm) [ inl b ↦ refused_tpm a b | inr b ↦ granted a b ]
              ])
      ]
    ]

  module _ (rpm tpm itpm otpm : ℤ) where
    returned :
        let (h', r) =
          return_script
            (rpm_key key)
            (tpm_key key)
            limits.requests_per_minute
            limits.tokens_per_minute
            seen
            (unix_milli now)
            rpm
            tpm in
        Mirrors key limits
          (unix_milli now)
          h'
          (Return.return_buckets s key limits rpm tpm itpm otpm (unix_milli now))
    unfolding return_script Return.return_buckets save_bucket
    returned =
        rw
          (
            load_alike limits.requests_per_minute (unix_milli now) _ s.rpm (bucket_key key) cr
                w.rpm,
            classic,
            load_alike limits.tokens_per_minute (unix_milli now) _ s.tpm (bucket_key key) ct w.tpm,
            returned_agrees x (unix_milli now) limits.requests_per_minute p cr x_bounds.1 rpm,
            returned_agrees y (unix_milli now) limits.tokens_per_minute p ct y_bounds.1 tpm,
          )
          (written-Mirrors _ _
            (returned_bounds x (unix_milli now) limits.requests_per_minute p cr x_bounds.1 rpm
              x_bounds.0)
            (returned_bounds y (unix_milli now) limits.tokens_per_minute p ct y_bounds.1 tpm
              y_bounds.0))

    pub return_credits-Mirrors :
        let (h', r) = Calls.return_credits (server rest) h now key limits rpm tpm itpm otpm in
        let (s', r') = Return.return_credits s now key limits rpm tpm itpm otpm in
        (r ≡ r') × Mirrors key limits (unix_milli now) h' s'
    unfolding Calls.return_credits Calls.run_return run_script Return.return_credits
    return_credits-Mirrors = elim (Bool-cases (is_empty key.subject)) [
      | inl unnamed ↦ rw unnamed (refl, later)
      | inr named ↦
          elim (Bool-cases
            (leb_ℤ rpm (pos 0) && leb_ℤ tpm (pos 0) && leb_ℤ itpm (pos 0) && leb_ℤ otpm (pos 0))) [
              | inl nothing ↦ rw (named, nothing) (refl, later)
              | inr credits ↦ rw (named, credits, classic) (refl, returned)
            ]
    ]
