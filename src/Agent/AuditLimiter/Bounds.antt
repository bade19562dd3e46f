-- ===== src/Agent/AuditLimiter/Bounds.antt =====
-- How many buckets the limiter of audit_limiter.rs keeps, the overflow bucket included.
use ocserv_fleet_agent.Common.Assoc.{lookup, length-insert}
use ocserv_fleet_agent.Agent.AuditLimiter.{
  retain, check_key, check, List, check_own, prune_stale, LimitKey, check_overflow,
  RejectedAuditLimiter, Bucket, length, limit_key, lookup, key_discrete, check_bucket, LimitLabel,
  bucket_or_new, is_some, Rejection, bucket_count, new_limiter, false,
}
use ocserv_fleet_agent.Common.{
  ◌∷◌, [], length, List, ℕ, ◌≤◌, String, Option, arith, List, length, Option-cases, ◌≡◌, is_some,
  false, ◌+◌, true,
}

length-retain : (now ttl : ℕ) (m : List (LimitKey × Bucket)) → length (retain now ttl m) ≤ length m
unfolding retain
length-retain now ttl [] = omega arith
length-retain now ttl ((k, b) ∷ m) = ground (arith, length-retain now ttl m)

-- A bucket is added only while there are fewer than the maximum.
check_key_bounded :
    (now : ℕ) (key : LimitKey) (l : RejectedAuditLimiter)
    → length l.buckets ≤ l.max_buckets
    → length (check_key now key l).0.buckets ≤ l.max_buckets
unfolding check_key check_own check_overflow
check_key_bounded now key l k = ground (
  arith,
  Option-cases (lookup key_discrete key l.buckets),
  length-insert key_discrete key
      (check_bucket l.burst l.refill_per_sec now (LimitLabel.key_label key) l.aggregate_interval
        (bucket_or_new l.burst now (lookup key_discrete key l.buckets))).0
      l.buckets,
)

keyed_bounded :
    (now : ℕ) (remote_endpoint_id : Option String) (resource error_code : String)
    (l : RejectedAuditLimiter)
    → length l.buckets ≤ l.max_buckets
    → length (check now remote_endpoint_id resource error_code l).0.buckets ≤ l.max_buckets
unfolding check prune_stale
keyed_bounded now remote_endpoint_id resource error_code l k =
    check_key_bounded now (limit_key remote_endpoint_id resource error_code) (prune_stale now l)
      (omega (arith, k, length-retain now l.bucket_ttl l.buckets))

-- No call changes the limits.
check_limits :
    (now : ℕ) (remote_endpoint_id : Option String) (resource error_code : String)
    (l : RejectedAuditLimiter)
    → (check now remote_endpoint_id resource error_code l).0.max_buckets ≡ l.max_buckets
unfolding check prune_stale check_key check_own check_overflow
check_limits now remote_endpoint_id resource error_code l = ground arith

-- An overflow bucket is started only when there are as many keyed buckets as configured.
check_overflow_full :
    (now : ℕ) (remote_endpoint_id : Option String) (resource error_code : String)
    (l : RejectedAuditLimiter)
    → is_some l.overflow ≡ false
    → is_some (check now remote_endpoint_id resource error_code l).0.overflow ≡ true
    → l.max_buckets ≤ length (check now remote_endpoint_id resource error_code l).0.buckets
unfolding check prune_stale check_key check_own check_overflow
check_overflow_full now remote_endpoint_id resource error_code l none_before h =
    ground (arith, Option-cases l.overflow)

-- The rejections, one after the other.
unfoldable pub check_all : List Rejection → RejectedAuditLimiter → RejectedAuditLimiter
check_all [] l = l
check_all (r ∷ rs) l = check_all rs (check r.now r.remote_endpoint_id r.resource r.error_code l).0

all_keyed_bounded :
    (rs : List Rejection) (l : RejectedAuditLimiter)
    → length l.buckets ≤ l.max_buckets
    → length (check_all rs l).buckets ≤ l.max_buckets
unfolding check_all
all_keyed_bounded [] l k = k
all_keyed_bounded (r ∷ rs) l k = ground (
  arith,
  keyed_bounded r.now r.remote_endpoint_id r.resource r.error_code l k,
  check_limits r.now r.remote_endpoint_id r.resource r.error_code l,
  all_keyed_bounded rs (check r.now r.remote_endpoint_id r.resource r.error_code l).0,
)

bucket_count_le : (l : RejectedAuditLimiter) → bucket_count l ≤ length l.buckets + 1
unfolding bucket_count
bucket_count_le l = ground (arith, Option-cases l.overflow)

-- However many endpoints, resources and errors the rejections have, and whenever they come, a limiter
-- that starts empty keeps at most as many keyed buckets as configured, and with the overflow bucket at
-- most one more.
pub check_bounded :
    (burst refill_per_sec max_buckets bucket_ttl aggregate_interval : ℕ) (rs : List Rejection)
    → let l =
        check_all rs (new_limiter burst refill_per_sec max_buckets bucket_ttl aggregate_interval) in
      (length l.buckets ≤ max_buckets) × (bucket_count l ≤ max_buckets + 1)
unfolding new_limiter
check_bounded burst refill_per_sec max_buckets bucket_ttl aggregate_interval rs =
    let fresh = new_limiter burst refill_per_sec max_buckets bucket_ttl aggregate_interval in
    let keyed = all_keyed_bounded rs fresh (omega arith) in
    ground (arith, keyed, bucket_count_le (check_all rs fresh))
