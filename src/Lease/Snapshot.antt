-- ===== src/Lease/Snapshot.antt =====
-- `SnapshotLeases` and `splitKey` of pkg/lease/lease.go: what is handed back on shutdown.
use valve.Common.{
  ℕ, ℤ, pos, ltb, leb_ℤ, Bool, ◌==◌, ◌&&◌, if◌then◌else◌, Bytes, [], ◌∷◌, List, insert, Option,
  none, some,
}
use valve.Api.{Key, Limits}
use valve.Lease.Pool.{Pool, LocalBucket}

pub record LeaseSnap : Type 0 where
  pub key : Key
  pub limits : Limits
  pub rpm : ℤ
  pub tpm : ℤ
  pub itpm : ℤ
  pub otpm : ℤ

-- The loop of `splitKey`: the parts around the first zero byte.
unfoldable pub split_at_zero : Bytes → Option (Bytes × Bytes)
split_at_zero [] = none
split_at_zero (c ∷ s) =
    if c == 0
    then some ([], s)
    else elim (split_at_zero s) [ none ↦ none | some (l, r) ↦ some (c ∷ l, r) ]

-- `splitKey`
unfoldable pub split_key : Bytes → Key
split_key k = elim (split_at_zero k) [
  | none ↦ record { subject = k; model = b'-' ∷ [] }
  | some (l, r) ↦ record { subject = l; model = r }
]

abbrev pub is_spent : LocalBucket → Bool
is_spent b =
    leb_ℤ b.rpm (pos 0) && leb_ℤ b.tpm (pos 0) && leb_ℤ b.itpm (pos 0) && leb_ℤ b.otpm (pos 0)

abbrev pub snap : Bytes → LocalBucket → LeaseSnap
snap k b = record {
  key = split_key k;
  limits = b.limits;
  rpm = b.rpm;
  tpm = b.tpm;
  itpm = b.itpm;
  otpm = b.otpm;
}

abbrev pub emptied : LocalBucket → LocalBucket
emptied b = record b { rpm = pos 0; tpm = pos 0; itpm = pos 0; otpm = pos 0 }

-- One round of the loop, at a key: the pool, and the snapshot if one is taken.
unfoldable pub snapshot_key : Pool → ℕ → Bytes → Option LocalBucket → Pool × Option LeaseSnap
snapshot_key p now k none = (p, none)
snapshot_key p now k (some b) =
    if ltb now b.expires_at
    then (if is_spent b
        then (p, none)
        else (record p { lease = insert k (emptied b) p.lease }, some (snap k b)))
    else (p, none)

abbrev pub add_some : Option LeaseSnap → List LeaseSnap → List LeaseSnap
add_some none l = l
add_some (some x) l = x ∷ l

-- `SnapshotLeases`. The loop meets the keys of the map in an order that the runtime chooses: they
-- are an argument, each key once.
unfoldable pub snapshot_leases : Pool → ℕ → List Bytes → Pool × List LeaseSnap
unfolding snapshot_key
snapshot_leases p now [] = (p, [])
snapshot_leases p now (k ∷ ks) =
    let (p', x) = snapshot_key p now k (p.lease k) in
    let (p'', xs) = snapshot_leases p' now ks in (p'', add_some x xs)
