-- ===== src/Lease/Handback.antt =====
-- `SnapshotLeases` of pkg/lease/lease.go hands every credit back once.
use valve.Common.{
  ℕ, ◌≤◌, ltb, ◌≡◌, refl, arith, Bool, true, Bool-cases, inl, inr, Bytes, List, [], ◌∷◌, Option,
  none, some, bytes_eq, bytes_eq_refl, if◌then◌else◌,
}
use valve.Lease.Pool.{Pool, LocalBucket}
use valve.Lease.Snapshot.{snapshot_leases, snapshot_key, is_spent}

-- Nothing is left to hand back of a lease at the time.
abbrev is_done : ℕ → Option LocalBucket → Bool
is_done now none = true
is_done now (some b) = if ltb now b.expires_at then is_spent b else true

done_after :
    (p : Pool) (now : ℕ) (k : Bytes) (o : Option LocalBucket)
    → p.lease k ≡ o
    → is_done now ((snapshot_key p now k o).0.lease k) ≡ true
unfolding snapshot_key
done_after p now k none e = rw e refl
done_after p now k (some b) e = elim (Bool-cases (ltb now b.expires_at)) [
  | inl live ↦ elim (Bool-cases (is_spent b)) [
    | inl spent ↦ rw live (rw spent (rw e (rw live spent)))
    | inr left ↦ rw live (rw left (rw (bytes_eq_refl k) (rw live refl)))
  ]
  | inr gone ↦ rw gone (rw e (rw gone refl))
]

done_kept :
    (p : Pool) (now : ℕ) (k j : Bytes) (o : Option LocalBucket)
    → is_done now (p.lease j) ≡ true
    → p.lease k ≡ o
    → is_done now ((snapshot_key p now k o).0.lease j) ≡ true
unfolding snapshot_key
done_kept p now k j none h e = h
done_kept p now k j (some b) h e = elim (Bool-cases (ltb now b.expires_at)) [
  | inl live ↦ elim (Bool-cases (is_spent b)) [
    | inl spent ↦ rw live (rw spent h)
    | inr left ↦ elim (Bool-cases (bytes_eq k j)) [
      | inl hit ↦ rw live (rw left (rw hit (rw live refl)))
      | inr miss ↦ rw live (rw left (rw miss h))
    ]
  ]
  | inr gone ↦ rw gone h
]

all_kept :
    (p : Pool) (now : ℕ) (ks : List Bytes) (j : Bytes)
    → is_done now (p.lease j) ≡ true
    → is_done now ((snapshot_leases p now ks).0.lease j) ≡ true
unfolding snapshot_leases
all_kept p now [] j h = h
all_kept p now (k ∷ ks) j h =
    all_kept (snapshot_key p now k (p.lease k)).0 now ks j (done_kept p now k j (p.lease k) h refl)

-- Every lease of the keys is done.
AllDone : ℕ → Pool → List Bytes → Type 0
AllDone now p [] = Unit {0}
AllDone now p (k ∷ ks) = (is_done now (p.lease k) ≡ true) × AllDone now p ks

all_done : (p : Pool) (now : ℕ) (ks : List Bytes) → AllDone now (snapshot_leases p now ks).0 ks
unfolding snapshot_leases AllDone
all_done p now [] = tt
all_done p now (k ∷ ks) =
    let p' = (snapshot_key p now k (p.lease k)).0 in
    (all_kept p' now ks k (done_after p now k (p.lease k) refl), all_done p' now ks)

spent_of :
    (b : LocalBucket) (now later : ℕ)
    → now ≤ later
    → ltb later b.expires_at ≡ true
    → is_done now (some b) ≡ true
    → is_spent b ≡ true
spent_of b now later le live h = elim (Bool-cases (ltb now b.expires_at)) [
  | inl before ↦ rw before at h
  | inr after ↦ ground (arith, live, after)
]

snapshot_key_done :
    (p : Pool) (now later : ℕ) (k : Bytes) (o : Option LocalBucket)
    → now ≤ later
    → is_done now o ≡ true
    → snapshot_key p later k o ≡ (p, none)
unfolding snapshot_key
snapshot_key_done p now later k none le h = refl
snapshot_key_done p now later k (some b) le h = elim (Bool-cases (ltb later b.expires_at)) [
  | inl live ↦ rw live (rw (spent_of b now later le live h) refl)
  | inr gone ↦ rw gone refl
]

none_left :
    (p : Pool) (now later : ℕ) (ks : List Bytes)
    → now ≤ later
    → AllDone now p ks
    → snapshot_leases p later ks ≡ (p, [])
unfolding snapshot_leases AllDone
none_left p now later [] le h = refl
none_left p now later (k ∷ ks) le (h, hs) =
    rw (snapshot_key_done p now later k (p.lease k) le h) (rw (none_left p now later ks le hs) refl)

-- A second snapshot over the same keys, at the same time or later, hands nothing back and changes
-- nothing: no credit of a lease is returned twice.
pub snapshot_leases_once :
    (p : Pool) (now later : ℕ) (ks : List Bytes)
    → now ≤ later
    → let p' = (snapshot_leases p now ks).0 in snapshot_leases p' later ks ≡ (p', [])
snapshot_leases_once p now later ks le =
    none_left (snapshot_leases p now ks).0 now later ks le (all_done p now ks)
