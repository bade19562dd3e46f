-- ===== src/Tests/AuditLimiter.antt =====
-- The limit of the rejection audit: its theorems at a bucket of two tokens that gets one by the second.
use ocserv_fleet_agent.Common.Assoc.{lookup, insert, remove}
use ocserv_fleet_agent.Common.Words.{u64_max}
use ocserv_fleet_agent.Agent.AuditLimiter.Accounts.{
  all_reported, keyed_count, pending, all_forgotten, rejections_add_up, stale_count,
}
use ocserv_fleet_agent.Agent.AuditLimiter.Bounds.{check_bounded, check_all}
use ocserv_fleet_agent.Agent.AuditLimiter.Rate.{writes, writes_le}
use ocserv_fleet_agent.Agent.AuditLimiter.{
  Bucket, new_bucket, RejectedAuditLimiter, check_bucket, LimitLabel, check, spend, refill,
  new_limiter, Rejection, bucket_count, retain, prune_stale, check_own, check_overflow, check_key,
  key_discrete,
}
use ocserv_fleet_agent.Common.{
  ℕ, ◌≤◌, refl, arith, List, length, ◌∷◌, [], ◌+◌, some, ◌-◌, ◌≡◌, ◌/◌, ◌*◌, String, text_discrete,
  before,
}

abbrev fresh : Bucket
fresh = new_bucket 2 0

-- Three rejections at once, and one two seconds later.
abbrev times : List ℕ
times = 0 ∷ 0 ∷ 0 ∷ 2000000000 ∷ []

three_written : writes 2 1 LimitLabel.overflow_label 0 times fresh ≡ 3
unfolding writes check_bucket spend refill new_bucket
three_written = refl

writes_le_example :
    writes 2 1 LimitLabel.overflow_label 0 times fresh
    ≤ fresh.tokens + (2000000000 - fresh.last_refill) / 1000000000 * 1
unfolding new_bucket
writes_le_example =
    writes_le 2 1 LimitLabel.overflow_label 0 times fresh 0 2000000000 (omega arith) (ground arith)

abbrev limiter : RejectedAuditLimiter
limiter = new_limiter 1 0 2 1000 0

abbrev rejected : ℕ → String → Rejection
rejected now remote_endpoint_id = record {
  now = now;
  remote_endpoint_id = some remote_endpoint_id;
  resource = "rpc";
  error_code = "denied";
}

-- Three endpoints, of which the third finds both keyed buckets taken; the second rejection of the
-- first is suppressed, and forgotten when the fifth comes after more than the ttl.
abbrev rejections : List Rejection
rejections =
    rejected 1 "remote-a"
    ∷ rejected 2 "remote-a"
    ∷ rejected 3 "remote-b"
    ∷ rejected 4 "remote-c"
    ∷ rejected 1003 "remote-a"
    ∷ []

rejections_counted :
    (bucket_count (
        check_all
          (rejected 1 "remote-a" ∷ rejected 3 "remote-b" ∷ rejected 4 "remote-c" ∷ [])
          limiter)
      ≡ 3)
    × (all_reported rejections limiter ≡ 4)
    × (all_forgotten rejections limiter ≡ 1)
unfolding text_discrete before key_discrete new_bucket refill spend check_bucket new_limiter
    bucket_count retain prune_stale check_own check_overflow check_key check check_all keyed_count
    stale_count all_reported all_forgotten lookup insert remove
rejections_counted = (refl, refl, refl)

check_bounded_example :
    (length (check_all rejections limiter).buckets ≤ 2)
    × (bucket_count (check_all rejections limiter) ≤ 3)
check_bounded_example = check_bounded 1 0 2 1000 0 rejections

nothing_pending : pending limiter + length rejections ≤ u64_max
unfolding new_limiter keyed_count
nothing_pending = omega arith

rejections_add_up_example :
    all_reported rejections limiter
      + pending (check_all rejections limiter)
      + all_forgotten rejections limiter
    ≡ pending limiter + length rejections
rejections_add_up_example = rejections_add_up rejections limiter nothing_pending
