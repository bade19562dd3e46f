-- ===== src/Agent/Server/Gate/Edge.antt =====
-- The last instant of the window: a timestamp as late as the skew allows, sent again at its deadline.
use ocserv_fleet_agent.Agent.Nonce.Replay.{register_at_stores}
use ocserv_fleet_agent.Agent.Nonce.Validity.{IsValid, unexpired}
use ocserv_fleet_agent.Agent.Server.Clock.{
  validate_issued_at, seconds, milliseconds, as_i64_small, check_window_iff, nonce_ttl,
}
use ocserv_fleet_agent.Common.{
  ℕ, String, Bool, Option, ◌<◌, ◌≡◌, true, some, ok, ◌+◌, ◌≤◌, ◌≢◌, is_some, arith, ◌*◌,
}
use ocserv_fleet_agent.Common.Int.{ℤ, pos, int_laws, ◌+ℤ◌}
use ocserv_fleet_agent.Agent.Nonce.Replay.{register_at_stores, register_at-IsValid, replay_iff}
use ocserv_fleet_agent.Agent.Nonce.{NonceCache, NonceDecision, register_at}

module _ (ends_with_z : String → Bool) (parse_rfc3339 : String → Option ℤ) (instant_max : ℕ) where
  abbrev pub latest : ℤ → ℕ → ℤ
  latest now k = now +ℤ seconds (pos k)

  abbrev pub deadline_of : ℤ → ℕ → ℕ → ℤ
  deadline_of now k deadline_ms = latest now k +ℤ milliseconds (pos deadline_ms)

  -- Both time checks pass.
  edge_window :
      (text : String) (deadline_ms k : ℕ) (now : ℤ)
      → deadline_ms < 9223372036854775808
      → deadline_ms ≤ k * 1000
      → ends_with_z text ≡ true
      → parse_rfc3339 text ≡ some (latest now k)
      → (validate_issued_at ends_with_z parse_rfc3339 text deadline_ms (pos k) now ≡ ok tt)
        × (validate_issued_at ends_with_z parse_rfc3339 text deadline_ms
              (pos k)
              (deadline_of now k deadline_ms)
            ≡ ok tt)
  unfolding validate_issued_at
  edge_window text deadline_ms k now small short z p = (
    rw (z, p)
        (rw (as_i64_small deadline_ms small) (
          (check_window_iff (latest now k) now (seconds (pos k)) (milliseconds (pos deadline_ms))).1
            (omega int_laws, omega int_laws, omega int_laws))),
    rw (z, p)
        (rw (as_i64_small deadline_ms small) (
          (check_window_iff (latest now k) (deadline_of now k deadline_ms) (seconds (pos k))
              (milliseconds (pos deadline_ms))).1
            (omega int_laws, omega int_laws, omega int_laws))),
  )

  -- Where the deadline is no longer than the skew, a request whose timestamp is the latest that the
  -- skew allows passes the time checks once more at
  -- its deadline, and the nonce that its first registration stored is then no longer refused as a
  -- replay: it has expired at that very instant.
  pub replay_at_edge :
      (text remote nonce : String) (deadline_ms k : ℕ) (now : ℤ) (instant : ℕ) (c : NonceCache)
      → deadline_ms < 9223372036854775808
      → deadline_ms ≤ k * 1000
      → ends_with_z text ≡ true
      → parse_rfc3339 text ≡ some (latest now k)
      → IsValid c
      → instant + nonce_ttl deadline_ms (pos k) ≤ instant_max
      → (register_at instant_max instant remote nonce (nonce_ttl deadline_ms (pos k)) c).1
        ≡ NonceDecision.accepted
      → (validate_issued_at ends_with_z parse_rfc3339 text deadline_ms (pos k) now ≡ ok tt)
        × (validate_issued_at ends_with_z parse_rfc3339 text deadline_ms
              (pos k)
              (deadline_of now k deadline_ms)
            ≡ ok tt)
        × ((register_at instant_max
              (instant + nonce_ttl deadline_ms (pos k))
              remote
              nonce
              (nonce_ttl deadline_ms (pos k))
              (register_at instant_max instant remote nonce (nonce_ttl deadline_ms (pos k)) c).0).1
            ≢ NonceDecision.replay)
  replay_at_edge text remote nonce deadline_ms k now instant c small short z p v fits a =
      let (first, second) = edge_window text deadline_ms k now small short z p in
      let ttl = nonce_ttl deadline_ms (pos k) in
      let stored = register_at_stores instant_max instant remote nonce ttl c a fits in
      let v' = register_at-IsValid instant_max instant remote nonce ttl c v in
      (
        first,
        second,
        λ h.
            let live = (replay_iff instant_max (instant + ttl) remote nonce ttl _ v').0 h in
            absurd (expired (instant + ttl) _ stored live),
      )
    where
      expired : (t : ℕ) (o : Option ℕ) → o ≡ some t → is_some (unexpired t o) ≡ true → ⊥
      expired t o e h = ground arith
