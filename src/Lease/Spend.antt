-- ===== src/Lease/Spend.antt =====
-- Spending a lease on the fast path: `Has`, `TryDebit` and `RefundLocal` of pkg/lease/lease.go.
use valve.Common.{
  ℕ, ◌+◌, ◌≤ℤ◌, ℤ, ltb, sub64, IsWord, int_laws, ◌+ℤ◌, ◌≡◌, refl, ◌∙◌, ap, Bool, true, false,
  Bool-cases, inl, inr, arith, Bytes, Option, none, some, bytes_eq, bytes_eq_refl,
}
use valve.Api.{Key, Limits, Cost, zero_decision, split}
use valve.Store.{Status, reservation_ttl}
use valve.Lease.DenyCache.{cache_key}
use valve.Lease.Pool.{
  Pool, LocalBucket, Reservation, get_found, get_lease, covers, has, try_debit, debit_found,
  debited, debit_lease, debit_decision, lease_end, purge_res,
}
use valve.Lease.Account.{sub64_words, IsWord-sub}

abbrev pub is_some {ℓ} : {A : Type ℓ} → Option A → Bool
is_some none = false
is_some (some a) = true

get_found_same :
    (p q : Pool) (k : Bytes) (now : ℕ) (o : Option LocalBucket)
    → (get_found p k now o).1 ≡ (get_found q k now o).1
unfolding get_found
get_found_same p q k now none = refl
get_found_same p q k now (some b) = ground arith

debit_found-covers :
    (p : Pool) (o : Option LocalBucket) (key : Key) (limits : Limits) (cost : Cost) (id : Bytes)
    (now : ℕ)
    → is_some (debit_found p o key limits cost id now).1 ≡ covers o cost (split limits)
unfolding debit_found
debit_found-covers p none key limits cost id now = unfold covers in refl
debit_found-covers p (some b) key limits cost id now =
    elim (Bool-cases (covers (some b) cost (split limits))) [
      | inl e ↦ rw e refl
      | inr e ↦ rw e refl
    ]

-- `TryDebit` succeeds exactly where `Has` says that the lease covers the cost.
pub try_debit-has :
    (p : Pool) (key : Key) (limits : Limits) (cost : Cost) (id : Bytes) (now : ℕ)
    → is_some (try_debit p key limits cost id now).1 ≡ (has p key cost limits now).1
unfolding try_debit has get_lease purge_res
try_debit-has p key limits cost id now =
    debit_found-covers _ _ key limits cost id now
    ∙ ap (λ o. covers o cost (split limits))
        (get_found_same (purge_res p now) p (cache_key key) now (p.lease (cache_key key)))

-- The reservation that `TryDebit` records.
abbrev pub pending_of : Key → Limits → Cost → ℕ → Reservation
pending_of key limits cost now = record {
  key = key;
  limits = limits;
  rpm_cost = cost.requests;
  tpm_reserved = cost.tokens;
  itpm_reserved = cost.input_tokens;
  otpm_reserved = cost.output_tokens;
  status = Status.pending;
  last_decision = zero_decision;
  expires_at = now + reservation_ttl;
}

-- A live lease that covers the cost, with balances and costs that are not negative.
pub record IsPayable (b : LocalBucket) (limits : Limits) (cost : Cost) (now : ℕ) : Type 0 where
  pub live : ltb now b.expires_at ≡ true
  pub enough : covers (some b) cost (split limits) ≡ true
  pub rpm_word : IsWord b.rpm
  pub tpm_word : IsWord b.tpm
  pub itpm_word : IsWord b.itpm
  pub otpm_word : IsWord b.otpm
  pub requests_word : IsWord cost.requests
  pub tokens_word : IsWord cost.tokens
  pub input_word : IsWord cost.input_tokens
  pub output_word : IsWord cost.output_tokens

try_debit_pays :
    (p : Pool) (b : LocalBucket) (key : Key) (limits : Limits) (cost : Cost) (id : Bytes) (now : ℕ)
    → p.lease (cache_key key) ≡ some b
    → ltb now b.expires_at ≡ true
    → covers (some b) cost (split limits) ≡ true
    → try_debit p key limits cost id now
      ≡ (let (p', d) = debit_lease (purge_res p now) b key limits cost id now in (p', some d))
unfolding try_debit get_lease get_found purge_res debit_found
try_debit_pays p b key limits cost id now e live enough = rw e (rw live (rw enough refl))

sub64_pays : (a b : ℤ) → IsWord a → IsWord b → b ≤ℤ a → (sub64 a b +ℤ b ≡ a) × IsWord (sub64 a b)
sub64_pays a b h k le = rw (sub64_words a b h k) (omega int_laws, IsWord-sub a b h k le)

-- What is debited, and what is left, in the two modes.
abbrev pub Paid : Bool → LocalBucket → LocalBucket → Cost → Type 0
Paid true b b' cost =
    (b'.rpm +ℤ cost.requests ≡ b.rpm)
    × IsWord b'.rpm
    × (b'.itpm +ℤ cost.input_tokens ≡ b.itpm)
    × IsWord b'.itpm
    × (b'.otpm +ℤ cost.output_tokens ≡ b.otpm)
    × IsWord b'.otpm
    × (b'.tpm ≡ b.tpm)
Paid false b b' cost =
    (b'.rpm +ℤ cost.requests ≡ b.rpm)
    × IsWord b'.rpm
    × (b'.tpm +ℤ cost.tokens ≡ b.tpm)
    × IsWord b'.tpm
    × (b'.itpm ≡ b.itpm)
    × (b'.otpm ≡ b.otpm)

pub covers_split :
    (b : LocalBucket) (cost : Cost)
    → covers (some b) cost true ≡ true
    → (cost.requests ≤ℤ b.rpm) × (cost.input_tokens ≤ℤ b.itpm) × (cost.output_tokens ≤ℤ b.otpm)
unfolding covers
covers_split b cost h = ground arith

pub covers_classic :
    (b : LocalBucket) (cost : Cost)
    → covers (some b) cost false ≡ true
    → (cost.requests ≤ℤ b.rpm) × (cost.tokens ≤ℤ b.tpm)
unfolding covers
covers_classic b cost h = ground arith

debited_pays :
    (b : LocalBucket) (limits : Limits) (cost : Cost) (now until : ℕ) (s : Bool)
    → IsPayable b limits cost now
    → covers (some b) cost s ≡ true
    → Paid s b (debited b cost s until) cost
unfolding debited
debited_pays b limits cost now until true v h =
    let (r, i, o) = covers_split b cost h in
    let (r1, r2) = sub64_pays b.rpm cost.requests v.rpm_word v.requests_word r in
    let (i1, i2) = sub64_pays b.itpm cost.input_tokens v.itpm_word v.input_word i in
    let (o1, o2) = sub64_pays b.otpm cost.output_tokens v.otpm_word v.output_word o in
    (r1, r2, i1, i2, o1, o2, refl)
debited_pays b limits cost now until false v h =
    let (r, t) = covers_classic b cost h in
    let (r1, r2) = sub64_pays b.rpm cost.requests v.rpm_word v.requests_word r in
    let (t1, t2) = sub64_pays b.tpm cost.tokens v.tpm_word v.tokens_word t in
    (r1, r2, t1, t2, refl, refl)

-- Where a live lease covers the cost, and no number is negative, `TryDebit` takes exactly the cost
-- from it, leaves the balances that are not negative, touches no other lease, and records a pending
-- reservation of the cost.
pub try_debit_lem :
    (p : Pool) (b : LocalBucket) (key : Key) (limits : Limits) (cost : Cost) (id : Bytes) (now : ℕ)
    → p.lease (cache_key key) ≡ some b
    → IsPayable b limits cost now
    → let (p', d) = try_debit p key limits cost id now in
      let b' = debited b cost (split limits) (lease_end p now) in
      (p'.lease (cache_key key) ≡ some b')
      × Paid (split limits) b b' cost
      × ((k : Bytes) → bytes_eq (cache_key key) k ≡ false → p'.lease k ≡ p.lease k)
      × (p'.res id ≡ some (pending_of key limits cost now))
      × (d ≡ some (debit_decision b' limits (split limits) id))
unfolding debit_lease purge_res
try_debit_lem p b key limits cost id now e v =
    rw (try_debit_pays p b key limits cost id now e v.live v.enough) (
      rw (bytes_eq_refl (cache_key key)) refl,
      debited_pays b limits cost now _ (split limits) v v.enough,
      (λ k h. rw h refl),
      rw (bytes_eq_refl id) refl,
      refl,
    )
