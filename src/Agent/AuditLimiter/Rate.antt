-- ===== src/Agent/AuditLimiter/Rate.antt =====
-- How many writes a bucket of audit_limiter.rs lets through while it is kept.
use ocserv_fleet_agent.Agent.AuditLimiter.{
  Bucket, refill, spend, check_bucket, LimitLabel, AuditLimitDecision,
}
use native.Mathlib.Nat.{mul-le-mul_right}
use ocserv_fleet_agent.Common.{ℕ, ◌+◌, ◌-◌, ◌*◌, ◌/◌, ◌≤◌, ◌≡◌, List, [], ◌∷◌, arith, ◌⊎◌, inl, inr}

abbrev pub written : AuditLimitDecision → ℕ
written (AuditLimitDecision.write n k) = 1
written AuditLimitDecision.suppress = 0

div_add : (a c : ℕ) → a / 1000000000 + c / 1000000000 ≤ (a + c) / 1000000000
div_add a c = omega arith

-- Seconds counted in two parts are no more than those counted at once.
seconds_add :
    (from by to r : ℕ)
    → from ≤ by
    → by ≤ to
    → (by - from) / 1000000000 * r + (to - by) / 1000000000 * r ≤ (to - from) / 1000000000 * r
seconds_add from by to r k h =
    let parts : (by - from) / 1000000000 + (to - by) / 1000000000 ≤ (to - from) / 1000000000 =
      omega (arith, div_add (by - from) (to - by)) in
    omega (arith, mul-le-mul_right r parts)

-- The times do not go back from an instant on, and end by another.
abbrev pub InTime : ℕ → ℕ → List ℕ → Type 0
InTime start end [] = start ≤ end
InTime start end (now ∷ ts) = (start ≤ now) × InTime now end ts

module _ (burst refill_per_sec : ℕ) (limit_key : LimitLabel) (aggregate_interval : ℕ) where
  -- How many of the rejections at some times are written, of one bucket.
  unfoldable pub writes : List ℕ → Bucket → ℕ
  writes [] b = 0
  writes (now ∷ ts) b =
      written (check_bucket burst refill_per_sec now limit_key aggregate_interval b).1
      + writes ts (check_bucket burst refill_per_sec now limit_key aggregate_interval b).0

  spend_tokens :
      (now : ℕ) (b : Bucket)
      → (written (spend now limit_key aggregate_interval b).1
            + (spend now limit_key aggregate_interval b).0.tokens
          ≡ b.tokens)
        × ((spend now limit_key aggregate_interval b).0.last_refill ≡ b.last_refill)
  unfolding spend
  spend_tokens now b = ground arith

  refill_tokens :
      (now : ℕ) (b : Bucket)
      → b.last_refill ≤ now
      → (((refill burst refill_per_sec now b).last_refill ≡ b.last_refill)
          × ((refill burst refill_per_sec now b).tokens ≡ b.tokens))
        ⊎ (((refill burst refill_per_sec now b).last_refill ≡ now)
            × ((refill burst refill_per_sec now b).tokens
                ≤ b.tokens + (now - b.last_refill) / 1000000000 * refill_per_sec))
  unfolding refill
  refill_tokens now b k = ground arith

  after : ℕ → Bucket → Bucket × AuditLimitDecision
  after now b = check_bucket burst refill_per_sec now limit_key aggregate_interval b

  checked_tokens :
      (now : ℕ) (b : Bucket)
      → b.last_refill ≤ now
      → (((after now b).0.last_refill ≡ b.last_refill)
          × (written (after now b).1 + (after now b).0.tokens ≡ b.tokens))
        ⊎ (((after now b).0.last_refill ≡ now)
            × (written (after now b).1 + (after now b).0.tokens
                ≤ b.tokens + (now - b.last_refill) / 1000000000 * refill_per_sec))
  unfolding check_bucket after
  checked_tokens now b k = ground (
    arith,
    refill_tokens now b k,
    spend_tokens now (record (refill burst refill_per_sec now b) { last_seen = now }),
  )

  end_after : (start end : ℕ) (ts : List ℕ) → InTime start end ts → start ≤ end
  end_after start end [] o = o
  end_after start end (now ∷ ts) o = omega (arith, o.0, end_after now end ts o.1)

  -- Whenever rejections come, in order of time, at most as many are written as the bucket has tokens
  -- and gets by the second until the end.
  pub writes_le :
      (ts : List ℕ) (b : Bucket) (start end : ℕ)
      → b.last_refill ≤ start
      → InTime start end ts
      → writes ts b ≤ b.tokens + (end - b.last_refill) / 1000000000 * refill_per_sec
  unfolding writes after
  writes_le [] b start end k o = omega arith
  writes_le (now ∷ ts) b start end k o = elim (checked_tokens now b (omega (arith, k, o.0))) [
    | inl (e, s) ↦
        ground
          (arith, e, s, k, o.0, writes_le ts (after now b).0 now end (omega (arith, e, k, o.0)) o.1)
    | inr (e, s) ↦ ground (
      arith,
      e,
      s,
      writes_le ts (after now b).0 now end (omega (arith, e)) o.1,
      seconds_add b.last_refill now end refill_per_sec (omega (arith, k, o.0))
          (end_after now end ts o.1),
    )
  ]
