-- ===== src/Agent/AuditLimiter.antt =====
-- crates/ocfleet-agent/src/audit_limiter.rs: how often a rejection is written to the audit log.
-- An `Instant` is a number of nanoseconds; the clock is the argument `now` of each call.
pub mod Rate
pub mod Bounds
pub mod Accounts
use ocserv_fleet_agent.Common.{
  ℕ, ◌+◌, ◌-◌, ◌*◌, ◌/◌, min, Bool, String, Option, none, some, List, [], ◌∷◌, ltb, leb, ◌==◌, ◌&&◌,
  length, if◌then◌else◌, is_some, text_discrete, false, ap, ◌||◌,
}
use ocserv_fleet_agent.Common.Words.{saturated}
use ocserv_fleet_agent.Common.Assoc.{lookup, insert}

pub record LimitKey : Type 0 where
  pub remote_endpoint_id : String
  pub resource : String
  pub error_code : String

-- The key of a `Write` is the key's label, or the overflow's.
pub data LimitLabel : Type 0 where
  key_label : LimitKey → LimitLabel
  overflow_label : LimitLabel

pub data AuditLimitDecision : Type 0 where
  write : (suppressed_count : ℕ) (limit_key : LimitLabel) → AuditLimitDecision
  suppress : AuditLimitDecision

pub record Bucket : Type 0 where
  pub tokens : ℕ
  pub suppressed_count : ℕ
  pub last_refill : ℕ
  pub last_seen : ℕ
  pub last_write : Option ℕ

unfoldable pub new_bucket : ℕ → ℕ → Bucket
new_bucket burst now = record {
  tokens = burst;
  suppressed_count = 0;
  last_refill = now;
  last_seen = now;
  last_write = none;
}

unfoldable pub refill : ℕ → ℕ → ℕ → Bucket → Bucket
refill burst refill_per_sec now b =
    let elapsed_secs = (now - b.last_refill) / 1000000000 in
    if elapsed_secs == 0 then b else record b {
      tokens = min (saturated (b.tokens + saturated (elapsed_secs * refill_per_sec))) burst;
      last_refill = now;
    }

-- The last write is less than the interval ago.
abbrev pub is_recent : ℕ → ℕ → Option ℕ → Bool
is_recent now aggregate_interval none = false
is_recent now aggregate_interval (some last_write) = ltb (now - last_write) aggregate_interval

abbrev pub suppressed : Bucket → Bucket × AuditLimitDecision
suppressed b = (
  record b { suppressed_count = saturated (b.suppressed_count + 1) },
  AuditLimitDecision.suppress,
)

-- `check_bucket`, once the bucket is refilled.
unfoldable pub spend : ℕ → LimitLabel → ℕ → Bucket → Bucket × AuditLimitDecision
spend now limit_key aggregate_interval b =
    if ltb 0 b.tokens
    then (if ltb 0 b.suppressed_count && is_recent now aggregate_interval b.last_write
        then suppressed b
        else (
          record b { tokens = b.tokens - 1; suppressed_count = 0; last_write = some now },
          AuditLimitDecision.write b.suppressed_count limit_key,
        ))
    else suppressed b

unfoldable pub check_bucket : ℕ → ℕ → ℕ → LimitLabel → ℕ → Bucket → Bucket × AuditLimitDecision
check_bucket burst refill_per_sec now limit_key aggregate_interval b =
    spend now limit_key aggregate_interval
      (record (refill burst refill_per_sec now b) { last_seen = now })

unfoldable pub key_discrete : Discrete LimitKey
key_discrete a b = elim (text_discrete a.remote_endpoint_id b.remote_endpoint_id) [
  | no n ↦ no (λ e. n (ap (λ k. k.remote_endpoint_id) e))
  | yes p ↦ elim (text_discrete a.resource b.resource) [
    | no n ↦ no (λ e. n (ap (λ k. k.resource) e))
    | yes q ↦ elim (text_discrete a.error_code b.error_code) [
      | no n ↦ no (λ e. n (ap (λ k. k.error_code) e))
      | yes r ↦ yes (λ i. record { remote_endpoint_id = p i; resource = q i; error_code = r i })
    ]
  ]
]

pub record RejectedAuditLimiter : Type 0 where
  pub burst : ℕ
  pub refill_per_sec : ℕ
  pub max_buckets : ℕ
  pub bucket_ttl : ℕ
  pub aggregate_interval : ℕ
  pub buckets : List (LimitKey × Bucket)
  pub overflow : Option Bucket

-- `RejectedAuditLimiter::new`, with the durations of the configuration in nanoseconds.
unfoldable pub new_limiter : ℕ → ℕ → ℕ → ℕ → ℕ → RejectedAuditLimiter
new_limiter burst refill_per_sec max_buckets bucket_ttl aggregate_interval = record {
  burst = burst;
  refill_per_sec = refill_per_sec;
  max_buckets = max_buckets;
  bucket_ttl = bucket_ttl;
  aggregate_interval = aggregate_interval;
  buckets = [];
  overflow = none;
}

-- `bucket_count_for_tests`
unfoldable pub bucket_count : RejectedAuditLimiter → ℕ
bucket_count l = length l.buckets + (if is_some l.overflow then 1 else 0)

-- A rejection: the arguments of a call of `check`, with its instant.
pub record Rejection : Type 0 where
  pub now : ℕ
  pub remote_endpoint_id : Option String
  pub resource : String
  pub error_code : String

-- `buckets.retain(...)`
unfoldable pub retain : ℕ → ℕ → List (LimitKey × Bucket) → List (LimitKey × Bucket)
retain now ttl [] = []
retain now ttl ((k, b) ∷ m) =
    let rest = retain now ttl m in if leb (now - b.last_seen) ttl then (k, b) ∷ rest else rest

abbrev pub retain_overflow : ℕ → ℕ → Option Bucket → Option Bucket
retain_overflow now ttl none = none
retain_overflow now ttl (some b) = if ltb ttl (now - b.last_seen) then none else some b

unfoldable pub prune_stale : ℕ → RejectedAuditLimiter → RejectedAuditLimiter
prune_stale now l = record l {
  buckets = retain now l.bucket_ttl l.buckets;
  overflow = retain_overflow now l.bucket_ttl l.overflow;
}

-- The bucket of the key or of the overflow, a new one when there is none.
abbrev pub bucket_or_new : ℕ → ℕ → Option Bucket → Bucket
bucket_or_new burst now none = new_bucket burst now
bucket_or_new burst now (some b) = b

-- The two ways of `check`, once stale buckets are pruned.
unfoldable pub check_own :
    ℕ → LimitKey → RejectedAuditLimiter → RejectedAuditLimiter × AuditLimitDecision
check_own now key l =
    let (b, d) =
      check_bucket l.burst l.refill_per_sec now (LimitLabel.key_label key) l.aggregate_interval
        (bucket_or_new l.burst now (lookup key_discrete key l.buckets)) in
    (record l { buckets = insert key_discrete key b l.buckets }, d)

unfoldable pub check_overflow : ℕ → RejectedAuditLimiter → RejectedAuditLimiter × AuditLimitDecision
check_overflow now l =
    let (b, d) =
      check_bucket l.burst l.refill_per_sec now LimitLabel.overflow_label l.aggregate_interval
        (bucket_or_new l.burst now l.overflow) in
    (record l { overflow = some b }, d)

unfoldable pub check_key :
    ℕ → LimitKey → RejectedAuditLimiter → RejectedAuditLimiter × AuditLimitDecision
check_key now key l =
    if is_some (lookup key_discrete key l.buckets) || ltb (length l.buckets) l.max_buckets
    then check_own now key l
    else check_overflow now l

abbrev pub limit_key : Option String → String → String → LimitKey
limit_key none resource error_code = record {
  remote_endpoint_id = "unknown";
  resource = resource;
  error_code = error_code;
}
limit_key (some id) resource error_code = record {
  remote_endpoint_id = id;
  resource = resource;
  error_code = error_code;
}

unfoldable pub check :
    ℕ
    → Option String
    → String
    → String
    → RejectedAuditLimiter
    → RejectedAuditLimiter × AuditLimitDecision
check now remote_endpoint_id resource error_code l =
    check_key now (limit_key remote_endpoint_id resource error_code) (prune_stale now l)
