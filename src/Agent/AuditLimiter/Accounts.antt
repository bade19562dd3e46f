-- ===== src/Agent/AuditLimiter/Accounts.antt =====
-- What becomes of the rejections that the limiter of audit_limiter.rs suppresses.
use ocserv_fleet_agent.Agent.AuditLimiter.Bounds.{check_all}
use ocserv_fleet_agent.Common.Assoc.{insert, lookup}
use ocserv_fleet_agent.Common.{
  Option, List, ℕ, ◌+◌, ◌∷◌, ◌≡◌, ◌≤◌, [], if◌then◌else◌, length, arith, none, ltb, Option-cases,
  ◌-◌, refl,
}
use ocserv_fleet_agent.Agent.AuditLimiter.{
  AuditLimitDecision, RejectedAuditLimiter, Rejection, check_bucket, retain, prune_stale,
  new_bucket, check_own, check_overflow, check, Bucket, LimitKey, ◌∷◌, spend, check_key, some,
  refill, key_discrete, bucket_or_new, length, ltb, LimitLabel, limit_key,
}
use ocserv_fleet_agent.Common.Words.{u64_max}

-- The rejections that a decision accounts for: those suppressed before a write, and itself.
abbrev pub reported : AuditLimitDecision → ℕ
reported (AuditLimitDecision.write n k) = n + 1
reported AuditLimitDecision.suppress = 0

abbrev pub overflow_count : Option Bucket → ℕ
overflow_count none = 0
overflow_count (some b) = b.suppressed_count

-- The suppressed rejections that keyed buckets count.
unfoldable pub keyed_count : List (LimitKey × Bucket) → ℕ
keyed_count [] = 0
keyed_count ((k, b) ∷ m) = b.suppressed_count + keyed_count m

-- Those that all buckets count, which no write has reported yet.
abbrev pub pending : RejectedAuditLimiter → ℕ
pending l = keyed_count l.buckets + overflow_count l.overflow

-- Those in keyed buckets that were not seen for longer than the ttl.
unfoldable pub stale_count : ℕ → ℕ → List (LimitKey × Bucket) → ℕ
stale_count now ttl [] = 0
stale_count now ttl ((k, b) ∷ m) =
    let rest = stale_count now ttl m in
    if ltb ttl (now - b.last_seen) then b.suppressed_count + rest else rest

abbrev pub stale_overflow : ℕ → ℕ → Option Bucket → ℕ
stale_overflow now ttl none = 0
stale_overflow now ttl (some b) = if ltb ttl (now - b.last_seen) then b.suppressed_count else 0

-- Those that pruning at an instant forgets.
abbrev pub forgotten : ℕ → RejectedAuditLimiter → ℕ
forgotten now l =
    stale_count now l.bucket_ttl l.buckets + stale_overflow now l.bucket_ttl l.overflow

abbrev after : Rejection → RejectedAuditLimiter → RejectedAuditLimiter × AuditLimitDecision
after r l = check r.now r.remote_endpoint_id r.resource r.error_code l

-- What the writes of rejections report, and what their calls forget.
unfoldable pub all_reported : List Rejection → RejectedAuditLimiter → ℕ
all_reported [] l = 0
all_reported (r ∷ rs) l = reported (after r l).1 + all_reported rs (after r l).0

unfoldable pub all_forgotten : List Rejection → RejectedAuditLimiter → ℕ
all_forgotten [] l = 0
all_forgotten (r ∷ rs) l = forgotten r.now l + all_forgotten rs (after r l).0

checked_counts :
    (burst refill_per_sec now aggregate_interval : ℕ) (label : LimitLabel) (b : Bucket)
    → b.suppressed_count + 1 ≤ u64_max
    → let (b', d) = check_bucket burst refill_per_sec now label aggregate_interval b in
      reported d + b'.suppressed_count ≡ b.suppressed_count + 1
unfolding check_bucket spend refill
checked_counts burst refill_per_sec now aggregate_interval label b k = ground arith

keyed_count-retain :
    (now ttl : ℕ) (m : List (LimitKey × Bucket))
    → keyed_count (retain now ttl m) + stale_count now ttl m ≡ keyed_count m
unfolding keyed_count retain stale_count
keyed_count-retain now ttl [] = refl
keyed_count-retain now ttl ((k, b) ∷ m) = ground (arith, keyed_count-retain now ttl m)

pending-prune_stale :
    (now : ℕ) (l : RejectedAuditLimiter) → pending (prune_stale now l) + forgotten now l ≡ pending l
unfolding prune_stale
pending-prune_stale now l =
    ground (arith, keyed_count-retain now l.bucket_ttl l.buckets, Option-cases l.overflow)

keyed_count-insert :
    (key : LimitKey) (b : Bucket) (m : List (LimitKey × Bucket))
    → keyed_count (insert key_discrete key b m) + overflow_count (lookup key_discrete key m)
      ≡ keyed_count m + b.suppressed_count
unfolding keyed_count insert lookup
keyed_count-insert key b [] = ground arith
keyed_count-insert key b ((k, c) ∷ m) = ground (arith, keyed_count-insert key b m)

keyed_count-lookup :
    (key : LimitKey) (m : List (LimitKey × Bucket))
    → overflow_count (lookup key_discrete key m) ≤ keyed_count m
unfolding keyed_count lookup
keyed_count-lookup key [] = omega arith
keyed_count-lookup key ((k, c) ∷ m) = ground (arith, keyed_count-lookup key m)

bucket_or_new_count :
    (burst now : ℕ) (found : Option Bucket)
    → (bucket_or_new burst now found).suppressed_count ≡ overflow_count found
unfolding new_bucket
bucket_or_new_count burst now none = refl
bucket_or_new_count burst now (some b) = refl

own_counts :
    (now : ℕ) (key : LimitKey) (l : RejectedAuditLimiter)
    → pending l + 1 ≤ u64_max
    → reported (check_own now key l).1 + pending (check_own now key l).0 ≡ pending l + 1
unfolding check_own
own_counts now key l k =
    let found = lookup key_discrete key l.buckets in
    let b = bucket_or_new l.burst now found in
    let label = LimitLabel.key_label key in
    ground (
      arith,
      bucket_or_new_count l.burst now found,
      keyed_count-lookup key l.buckets,
      checked_counts l.burst l.refill_per_sec now l.aggregate_interval label b,
      keyed_count-insert key
          (check_bucket l.burst l.refill_per_sec now label l.aggregate_interval b).0 l.buckets,
    )

overflow_counts :
    (now : ℕ) (l : RejectedAuditLimiter)
    → pending l + 1 ≤ u64_max
    → reported (check_overflow now l).1 + pending (check_overflow now l).0 ≡ pending l + 1
unfolding check_overflow
overflow_counts now l k =
    let b = bucket_or_new l.burst now l.overflow in
    ground (
      arith,
      bucket_or_new_count l.burst now l.overflow,
      checked_counts l.burst l.refill_per_sec now l.aggregate_interval LimitLabel.overflow_label b,
    )

-- One call, with what it prunes.
check_counts :
    (r : Rejection) (l : RejectedAuditLimiter)
    → pending l + 1 ≤ u64_max
    → reported (after r l).1 + pending (after r l).0 + forgotten r.now l ≡ pending l + 1
unfolding check check_key
check_counts r l k =
    let key = limit_key r.remote_endpoint_id r.resource r.error_code in
    let pruned = prune_stale r.now l in
    ground (
      arith,
      pending-prune_stale r.now l,
      own_counts r.now key pruned,
      overflow_counts r.now pruned,
    )

-- Over any rejections at any instants, pruning included: the rejections that the writes report, those
-- that the buckets still count and those that pruning forgot with stale buckets add up to those
-- counted before and the new ones, as long as that fits a machine word.
pub rejections_add_up :
    (rs : List Rejection) (l : RejectedAuditLimiter)
    → pending l + length rs ≤ u64_max
    → all_reported rs l + pending (check_all rs l) + all_forgotten rs l ≡ pending l + length rs
unfolding all_reported all_forgotten check_all
rejections_add_up [] l k = ground arith
rejections_add_up (r ∷ rs) l k =
    ground (arith, check_counts r l, rejections_add_up rs (after r l).0)
