-- ===== src/Limiter/Overshoot.antt =====
-- The loan that `Settle` of pkg/limiter/limiter.go takes for an overshoot, and what the lease makes
-- of it.
use valve.Common.{
  ℕ, ◌+◌, ◌*◌, ◌<◌, ℤ, pos, pos_part, ltb, ◌+ℤ◌, int_laws, IsWord, add64, neg_part-add, ◌≡◌, refl,
  ap, ◌∙◌, arith, Bytes, none, some, true, bytes_eq_refl,
}
use valve.Api.{Decision, ok}
use valve.Store.{BorrowResult}
use valve.Lease.DenyCache.{cache_key}
use valve.Lease.Pool.{
  Pool, LocalBucket, Reservation, credit_lease, lease_to_credit, get_lease, lease_end,
  get_reservation, purge_res,
}
use valve.Lease.Refund.{pay_overshoot, apply_borrowed_deficit, apply_deficit}
use valve.Lease.Account.{add64_words, pay_overshoot_lem}
use valve.Lease.Restore.{get_lease_live}
use valve.Limiter.Settle.{cover, updated}

-- The lease after `CreditLease` on a live lease.
abbrev credited : Pool → LocalBucket → Reservation → BorrowResult → ℕ → LocalBucket
credited p b r br now = record {
  rpm = add64 b.rpm br.got_rpm;
  tpm = add64 b.tpm br.got_tpm;
  itpm = add64 b.itpm (pos 0);
  otpm = add64 b.otpm (pos 0);
  expires_at = lease_end p now;
  limits = r.limits;
}

credit_lease_live :
    (p : Pool) (b : LocalBucket) (r : Reservation) (br : BorrowResult) (now : ℕ)
    → p.lease (cache_key r.key) ≡ some b
    → ltb now b.expires_at ≡ true
    → (credit_lease p r.key r.limits br.got_rpm br.got_tpm (pos 0) (pos 0) now).lease
        (cache_key r.key)
      ≡ some (credited p b r br now)
unfolding credit_lease lease_to_credit
credit_lease_live p b r br now e live = rw (bytes_eq_refl (cache_key r.key)) (rw e (rw live refl))

apply_finds :
    (p : Pool) (b : LocalBucket) (id : Bytes) (r : Reservation) (got : ℤ) (now : ℕ)
    → p.res id ≡ some r
    → p.lease (cache_key r.key) ≡ some b
    → ltb now b.expires_at ≡ true
    → apply_borrowed_deficit p id got now ≡ apply_deficit p id r b got
unfolding apply_borrowed_deficit
apply_finds p b id r got now e e' live =
    ap
      (λ o. elim o [
        | none ↦ p
        | some r ↦
            let (p', found) = get_lease p r.key now in
            elim found [ none ↦ p' | some b ↦ apply_deficit p' id r b got ]
      ])
      e
    ∙ ap (λ x. elim x.1 [ none ↦ x.0 | some b ↦ apply_deficit x.0 id r b got ])
        (get_lease_live p r.key b now e' live)

updated_lease :
    (p : Pool) (id : Bytes) (dec : Decision) (now : ℕ) → (updated p id dec now).0.lease ≡ p.lease
unfolding updated get_reservation purge_res
updated_lease p id dec now = refl

apply_deficit_lease :
    (p : Pool) (id : Bytes) (r : Reservation) (b : LocalBucket) (got : ℤ)
    → (apply_deficit p id r b got).lease (cache_key r.key)
      ≡ some (record b { tpm = (pay_overshoot (add64 b.tpm got) r.last_decision.overshoot_tpm).0 })
unfolding apply_deficit
apply_deficit_lease p id r b got = rw (bytes_eq_refl (cache_key r.key)) refl

added_twice :
    (a g : ℤ)
    → IsWord a
    → IsWord g
    → pos_part a + 2 * pos_part g < 9223372036854775808
    → (add64 (add64 a g) g ≡ a +ℤ g +ℤ g) × IsWord (a +ℤ g +ℤ g)
added_twice a g ha hg room =
    let n1 = neg_part-add a g ha.1 hg.1 in
    let n2 = neg_part-add (a +ℤ g) g n1 hg.1 in
    let w1 : IsWord (a +ℤ g) = (omega int_laws, n1) in
    (
      rw (add64_words a g ha hg (omega arith)) (add64_words (a +ℤ g) g w1 hg (omega int_laws)),
      (omega int_laws, n2),
    )

cover_lease :
    (p : Pool) (b : LocalBucket) (id : Bytes) (r : Reservation) (dec : Decision) (br : BorrowResult)
    (clock : ℕ → ℕ)
    → p.res id ≡ some r
    → p.lease (cache_key r.key) ≡ some b
    → ltb (clock 0) b.expires_at ≡ true
    → ltb (clock 1) (lease_end p (clock 0)) ≡ true
    → br.allowed ≡ true
    → let b1 = credited p b r br (clock 0) in
      (cover p id r dec (ok br) clock).0.lease (cache_key r.key)
      ≡ some (record b1 {
        tpm = (pay_overshoot (add64 b1.tpm br.got_tpm) r.last_decision.overshoot_tpm).0;
      })
unfolding cover
cover_lease p b id r dec br clock e e' live live' granted =
    let p1 = credit_lease p r.key r.limits br.got_rpm br.got_tpm (pos 0) (pos 0) (clock 0) in
    let b1 = credited p b r br (clock 0) in
    rw granted (
      ap (λ f. f (cache_key r.key))
        (updated_lease (apply_borrowed_deficit p1 id br.got_tpm (clock 1)) id dec (clock 2))
      ∙ ap (λ q. q.lease (cache_key r.key))
          (apply_finds p1 b1 id r br.got_tpm (clock 1) (unfold credit_lease in e)
            (credit_lease_live p b r br (clock 0) e' live) live')
      ∙ apply_deficit_lease p1 id r b1 br.got_tpm)

-- A loan that `Settle` takes for an overshoot is added to the lease twice, by `CreditLease` and by
-- `ApplyBorrowedDeficit`: on a live lease, with no sum out of range, the balance and the overshoot
-- that is still owed account for the old balance, less the overshoot, and twice the tokens that the
-- store lent.
pub cover_credits_twice :
    (p : Pool) (b : LocalBucket) (id : Bytes) (r : Reservation) (dec : Decision) (br : BorrowResult)
    (clock : ℕ → ℕ)
    → p.res id ≡ some r
    → p.lease (cache_key r.key) ≡ some b
    → ltb (clock 0) b.expires_at ≡ true
    → ltb (clock 1) (lease_end p (clock 0)) ≡ true
    → br.allowed ≡ true
    → IsWord b.tpm
    → IsWord br.got_tpm
    → IsWord r.last_decision.overshoot_tpm
    → pos_part b.tpm + 2 * pos_part br.got_tpm < 9223372036854775808
    → let (tpm, owed) =
        pay_overshoot (b.tpm +ℤ br.got_tpm +ℤ br.got_tpm) r.last_decision.overshoot_tpm in
      let (p', _) = cover p id r dec (ok br) clock in
      ((b' : LocalBucket) × (p'.lease (cache_key r.key) ≡ some b') × (b'.tpm ≡ tpm))
      × (tpm +ℤ r.last_decision.overshoot_tpm ≡ b.tpm +ℤ br.got_tpm +ℤ br.got_tpm +ℤ owed)
cover_credits_twice p b id r dec br clock e e' live live' granted hb hg ho room =
    let (sum, w) = added_twice b.tpm br.got_tpm hb hg room in
    (
      (
        _,
        cover_lease p b id r dec br clock e e' live live' granted,
        ap (λ x. (pay_overshoot x r.last_decision.overshoot_tpm).0) sum,
      ),
      (pay_overshoot_lem _ _ w ho).0,
    )
