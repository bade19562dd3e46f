-- ===== src/Cli/Health/Slots.antt =====
-- The five-minute slots of a bucket: how many there are, and the loop of `build_health_rollup` that
-- fills them.
use ocserv_fleet_agent.Common.Assoc.{
  lookup, remove, Distinct, insert, remove-Distinct, length-remove, insert-Distinct,
}
use ocserv_fleet_agent.Cli.Health.Records.{HealthStatus, HealthHistoryRecord}
use ocserv_fleet_agent.Cli.Health.Rollup.{
  div_euclid, slot_of, RollupLibraries, statuses_by_slot, status_index, RollupError,
}
use ocserv_fleet_agent.Common.Int.{
  ℤ, pos_part, scale, ◌≤ℤ◌, ◌+ℤ◌, ℤ_discrete, neg_part, ◌<ℤ◌, pos, negsuc, scale_parts, +ℤ_parts,
}
use ocserv_fleet_agent.Common.{
  zero, ℕ, List, All, ◌≢◌, ◌+◌, suc, length, ◌≡◌, ◌≤◌, ◌*◌, Bool-cases, ap, ◌<◌, ltb, none, arith,
  inl, ◌∷◌, inr, [], some, ok, >>=-eq-ok, ok_or,
}

ℤ_eq : (a b : ℤ) → pos_part a + neg_part b ≡ pos_part b + neg_part a → a ≡ b
ℤ_eq (pos m) (pos n) h = ap pos (omega arith)
ℤ_eq (pos m) (negsuc n) h = ground arith
ℤ_eq (negsuc m) (pos n) h = ground arith
ℤ_eq (negsuc m) (negsuc n) h = ap negsuc (omega arith)

-- One of the `n` slots from `lo` on.
abbrev pub InRange : ℤ → ℕ → ℤ → Type 0
InRange lo n k =
    (pos_part lo + neg_part k ≤ pos_part k + neg_part lo)
    × (pos_part k + neg_part lo < n + pos_part lo + neg_part k)

-- The nanoseconds of a slot.
abbrev pub slot_nanoseconds : ℕ
slot_nanoseconds = 300000000000

pub slot_of-InRange :
    (lo t : ℤ) (n : ℕ)
    → scale slot_nanoseconds lo ≤ℤ t
    → t <ℤ scale slot_nanoseconds lo +ℤ pos (slot_nanoseconds * n)
    → InRange lo n (slot_of t)
unfolding div_euclid
slot_of-InRange (pos l) (pos t) n h k = ground (
  arith,
  h,
  k,
  scale_parts slot_nanoseconds (pos l),
  +ℤ_parts (scale slot_nanoseconds (pos l)) (pos (slot_nanoseconds * n)),
)
slot_of-InRange (pos l) (negsuc t) n h k = ground (
  arith,
  h,
  k,
  scale_parts slot_nanoseconds (pos l),
  +ℤ_parts (scale slot_nanoseconds (pos l)) (pos (slot_nanoseconds * n)),
)
slot_of-InRange (negsuc l) (pos t) n h k = ground (
  arith,
  h,
  k,
  scale_parts slot_nanoseconds (negsuc l),
  +ℤ_parts (scale slot_nanoseconds (negsuc l)) (pos (slot_nanoseconds * n)),
)
slot_of-InRange (negsuc l) (negsuc t) n h k = ground (
  arith,
  h,
  k,
  scale_parts slot_nanoseconds (negsuc l),
  +ℤ_parts (scale slot_nanoseconds (negsuc l)) (pos (slot_nanoseconds * n)),
)

abbrev pub Slots : Type 0
Slots = List (ℤ × HealthStatus)

module _ (lo : ℤ) where
  abbrev pub AllInRange : ℕ → Slots → Type 0
  AllInRange n m = All (λ (e : ℤ × HealthStatus). InRange lo n e.0) m

  last_or_before : (n : ℕ) (k : ℤ) → k ≢ lo +ℤ pos n → InRange lo (suc n) k → InRange lo n k
  last_or_before n k h r =
      elim (Bool-cases (ltb (pos_part k + neg_part lo) (n + pos_part lo + neg_part k))) [
        | inl e ↦ ground (arith, e)
        | inr e ↦ absurd (h (ℤ_eq k (lo +ℤ pos n) (ground (arith, e, +ℤ_parts lo (pos n)))))
      ]

  others-AllInRange :
      (n : ℕ) (m : Slots)
      → lookup ℤ_discrete (lo +ℤ pos n) m ≡ none
      → AllInRange (suc n) m
      → AllInRange n m
  unfolding lookup
  others-AllInRange n [] h a = tt
  others-AllInRange n ((k, v) ∷ m) h a = ground (arith, last_or_before n k, others-AllInRange n m)

  remove-AllInRange :
      (n : ℕ) (m : Slots)
      → Distinct ℤ_discrete m
      → AllInRange (suc n) m
      → AllInRange n (remove ℤ_discrete (lo +ℤ pos n) m)
  unfolding remove
  remove-AllInRange n [] d a = tt
  remove-AllInRange n ((k, v) ∷ m) d a =
      ground (arith, last_or_before n k, remove-AllInRange n m, others-AllInRange n m)

  -- Distinct keys among `n` are at most `n`.
  pub length_le_range : (n : ℕ) (m : Slots) → Distinct ℤ_discrete m → AllInRange n m → length m ≤ n
  length_le_range zero [] d a = omega arith
  length_le_range zero (e ∷ m) d a = omega (arith, a.0)
  length_le_range (suc n) m d a = ground (
    arith,
    length_le_range n (remove ℤ_discrete (lo +ℤ pos n) m)
        (remove-Distinct ℤ_discrete (lo +ℤ pos n) m d) (remove-AllInRange n m d a),
    length-remove ℤ_discrete (lo +ℤ pos n) m,
  )

  insert-AllInRange :
      (n : ℕ) (k : ℤ) (v : HealthStatus) (m : Slots)
      → InRange lo n k
      → AllInRange n m
      → AllInRange n (insert ℤ_discrete k v m)
  unfolding insert
  insert-AllInRange n k v [] h a = (h, tt)
  insert-AllInRange n k v ((j, w) ∷ m) h a = ground (arith, insert-AllInRange n k v m h a.1)

module _ (lib : RollupLibraries) (lo : ℤ) (n : ℕ) where
  -- If the record's instant can be read, it lies in the `n` slots from `lo` on.
  abbrev pub IsInBucket : HealthHistoryRecord → Type 0
  IsInBucket r =
      (t : ℤ)
      → lib.parse_rfc3339 r.snapshot.computed_at ≡ some t
      → (scale slot_nanoseconds lo ≤ℤ t)
        × (t <ℤ scale slot_nanoseconds lo +ℤ pos (slot_nanoseconds * n))

  -- The loop keeps the slots distinct and inside the bucket.
  pub statuses_by_slot_ok :
      (history : List HealthHistoryRecord) (m out : Slots)
      → All IsInBucket history
      → Distinct ℤ_discrete m
      → AllInRange lo n m
      → statuses_by_slot lib history m ≡ ok out
      → Distinct ℤ_discrete out × AllInRange lo n out
  unfolding statuses_by_slot
  statuses_by_slot_ok [] m out a d r h = ground arith
  statuses_by_slot_ok (e ∷ rest) m out a d r h =
      let (status, hs, h1) =
        >>=-eq-ok (ok_or (status_index e.snapshot.status) RollupError.invalid_status) _ h in
      let (t, ht, h2) =
        >>=-eq-ok (ok_or (lib.parse_rfc3339 e.snapshot.computed_at) RollupError.invalid_timestamp) _
          h1 in
      let parsed : lib.parse_rfc3339 e.snapshot.computed_at ≡ some t = ground (arith, ht) in
      let inside = a.0 t parsed in
      statuses_by_slot_ok rest (insert ℤ_discrete (slot_of t) status m) out a.1
        (insert-Distinct ℤ_discrete (slot_of t) status m d)
        (insert-AllInRange lo n (slot_of t) status m (slot_of-InRange lo t n inside.0 inside.1) r)
        h2
