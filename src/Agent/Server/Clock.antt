-- ===== src/Agent/Server/Clock.antt =====
-- The time checks of a request: `validate_issued_at` and `nonce_ttl`.
-- A timestamp is a number of nanoseconds from 1970, before or after; a parsed text and the wall clock's
-- reading are arguments. Sums past the range of `OffsetDateTime`, where Rust panics, are not cut off.
use ocserv_fleet_agent.Common.{
  ℕ, ◌+◌, ◌-◌, ◌*◌, Bool, String, Result, Option, ltb, reject, ok_or, not, if◌then◌else◌, ◌>>◌,
  ◌>>=◌, ◌≡◌, ◌<◌, ◌≤◌, ok, arith, ◌↔◌, some, subst, Option-cases, inl, inr,
}
use ocserv_fleet_agent.Common.Int.{
  ℤ, pos, negsuc, ◌+ℤ◌, ◌-ℤ◌, ltb_ℤ, scale, ◌<ℤ◌, pos_part, ◌≤ℤ◌, neg_part, int_laws,
}
use ocserv_fleet_agent.Common.Words.{saturated}
use ocserv_fleet_agent.Protocol.Error.{
  ErrorCode, invalid_timestamp, clock_skew_exceeded, request_expired,
}

-- `value as i64` on a `u64`
unfoldable pub as_i64 : ℕ → ℤ
as_i64 n = if ltb n 9223372036854775808 then pos n else negsuc (18446744073709551615 - n)

abbrev pub seconds : ℤ → ℤ
seconds = scale 1000000000

abbrev pub milliseconds : ℤ → ℤ
milliseconds = scale 1000000

-- The checks on the parsed timestamp, in the code's order.
unfoldable pub check_window : (issued now skew deadline : ℤ) → Result ErrorCode (Unit {0})
check_window issued now skew deadline = do
  reject (ltb_ℤ (now +ℤ skew) issued) clock_skew_exceeded
  reject (ltb_ℤ (issued +ℤ deadline) now) request_expired
  reject (ltb_ℤ issued (now -ℤ skew)) clock_skew_exceeded

-- The format and the parser of RFC 3339 are the `time` crate's.
module _ (ends_with_z : String → Bool) (parse_rfc3339 : String → Option ℤ) where
  unfoldable pub validate_issued_at : String → ℕ → ℤ → ℤ → Result ErrorCode (Unit {0})
  validate_issued_at issued_at deadline_ms allowed_clock_skew_seconds now = do
    reject (not (ends_with_z issued_at)) invalid_timestamp
    issued ← ok_or (parse_rfc3339 issued_at) invalid_timestamp
    check_window issued now (seconds allowed_clock_skew_seconds) (milliseconds (as_i64 deadline_ms))

-- `u64::try_from(skew).unwrap_or(0).saturating_mul(1_000)`
unfoldable pub skew_ms : ℤ → ℕ
skew_ms (pos n) = saturated (n * 1000)
skew_ms (negsuc n) = 0

-- In nanoseconds.
unfoldable pub nonce_ttl : ℕ → ℤ → ℕ
unfolding skew_ms
nonce_ttl deadline_ms allowed_clock_skew_seconds =
    saturated (deadline_ms + skew_ms allowed_clock_skew_seconds) * 1000000

-- The three comparisons of the window, as orders.
pub check_window_iff :
    (issued now skew deadline : ℤ)
    → (check_window issued now skew deadline ≡ ok tt)
      ↔ ((issued ≤ℤ now +ℤ skew) × (now ≤ℤ issued +ℤ deadline) × (now -ℤ skew ≤ℤ issued))
unfolding check_window
check_window_iff issued now skew deadline = (λ h. ground arith, λ h. ground arith)

-- In range, the conversion to `i64` and the saturating operations change nothing.
pub as_i64_small : (n : ℕ) → n < 9223372036854775808 → as_i64 n ≡ pos n
unfolding as_i64
as_i64_small n h = ground arith

pub nonce_ttl_small :
    (deadline_ms k : ℕ)
    → deadline_ms + k * 1000 ≤ 9223372036854775807
    → nonce_ttl deadline_ms (pos k) ≡ (deadline_ms + k * 1000) * 1000000
unfolding nonce_ttl
nonce_ttl_small deadline_ms k h = omega arith

module _ (ends_with_z : String → Bool) (parse_rfc3339 : String → Option ℤ) where
  -- A text that passes is parsed, and its time is in the window.
  pub validated_window :
      (issued_at : String) (deadline_ms : ℕ) (skew now : ℤ)
      → validate_issued_at ends_with_z parse_rfc3339 issued_at deadline_ms skew now ≡ ok tt
      → (issued : ℤ) × (parse_rfc3339 issued_at ≡ some issued)
        × (check_window issued now (seconds skew) (milliseconds (as_i64 deadline_ms)) ≡ ok tt)
  unfolding validate_issued_at
  validated_window issued_at deadline_ms skew now h =
      elim (Option-cases (parse_rfc3339 issued_at)) [
        | inl e ↦ absurd (ground arith)
        | inr (issued, e) ↦ (issued, e, ground arith)
      ]

-- A timestamp that is in the window at two readings of the wall clock, and at the first not at its very
-- end, holds them less than the nonce's lifetime apart.
pub window_within_ttl :
    (issued now later : ℤ) (deadline_ms k instant instant' : ℕ)
    → deadline_ms + k * 1000 ≤ 9223372036854775807
    → issued <ℤ now +ℤ seconds (pos k)
    → check_window issued later (seconds (pos k)) (milliseconds (as_i64 deadline_ms)) ≡ ok tt
    → pos_part later + neg_part now + instant ≡ pos_part now + neg_part later + instant'
    → instant' < instant + nonce_ttl deadline_ms (pos k)
window_within_ttl issued now later deadline_ms k instant instant' small early h same =
    let (a, b, c) =
      (check_window_iff issued later (seconds (pos k)) (milliseconds (as_i64 deadline_ms))).0 h in
    let e : as_i64 deadline_ms ≡ pos deadline_ms = as_i64_small deadline_ms (omega arith) in
    let b' : later ≤ℤ issued +ℤ milliseconds (pos deadline_ms) =
      subst (λ x. later ≤ℤ issued +ℤ milliseconds x) e b in
    omega (int_laws, nonce_ttl_small deadline_ms k small)
