-- ===== src/Cli/Health/Healthy.antt =====
-- What a node that is called healthy has shown.
use ocserv_fleet_agent.Protocol.Method.{probe_controller_ping}
use ocserv_fleet_agent.Cli.Health.Evidence.{
  Among, latest_observation_lem, NoneNewer, sorted_none, collect_none, IsGood,
  latest_for_method_lem,
}
use ocserv_fleet_agent.Cli.Health.Records.{
  HealthPolicyRecord, ProbeObservationRecord, NodeRecord, EndpointStatus, HealthStatus,
}
use ocserv_fleet_agent.Common.Int.{ℤ, ◌≤ℤ◌}
use ocserv_fleet_agent.Cli.Health.Status.{
  is_not_fresh, node_status, latest_is_stale_or_expired, freshness_seconds,
  inactive_endpoint_error_code, degraded_methods, is_empty, seconds_between, is_expired,
  collect_degraded, reported_methods,
}
use ocserv_fleet_agent.Cli.Health.Latest.{
  latest_observation, latest_controller_ping_failed,
  consecutive_unreachable_controller_ping_failures, latest_for_method, latest_from, is_older,
}
use ocserv_fleet_agent.Protocol.Json.{Value}
use ocserv_fleet_agent.Common.{
  ℕ, Option, String, List, ◌≡◌, false, true, some, arith, ◌∷◌, ◌≤◌, ◌<◌, Option-cases, [], inl,
  refl, ◌≢◌, inr, All, ◌⊎◌,
}

module _ (parse_rfc3339 : String → Option ℤ) where
  -- Both instants can be read, and the first is not before the second.
  abbrev pub IsNoEarlier : ProbeObservationRecord → ProbeObservationRecord → Type 0
  IsNoEarlier r o =
      (t : ℤ) × (u : ℤ) × (parse_rfc3339 r.observed_at ≡ some t)
      × (parse_rfc3339 o.observed_at ≡ some u)
      × (u ≤ℤ t)

  -- The observations' instants can be read, and their texts sort by time, as those of one form do.
  abbrev pub IsTimeOrdered : List ProbeObservationRecord → Type 0
  IsTimeOrdered os =
      (r o : ProbeObservationRecord)
      → Among r os
      → Among o os
      → is_older r o ≡ false
      → IsNoEarlier r o

  -- Of the method, no observation is there, or one that is not before any other has the property.
  abbrev pub LastOf :
      List ProbeObservationRecord → (ProbeObservationRecord → Type 0) → String → Type 0
  LastOf os P method =
      All (λ o. o.method ≢ method) os
      ⊎ ((r : ProbeObservationRecord) × Among r os
          × (r.method ≡ method)
          × All (λ o. (o.method ≢ method) ⊎ IsNoEarlier r o) os
          × P r)

  latest_of_method_in_time :
      (r : ProbeObservationRecord) (method : String) (part os : List ProbeObservationRecord)
      → Among r os
      → IsTimeOrdered os
      → ((o : ProbeObservationRecord) → Among o part → Among o os)
      → All (λ o. (o.method ≢ method) ⊎ (is_older r o ≡ false)) part
      → All (λ o. (o.method ≢ method) ⊎ IsNoEarlier r o) part
  latest_of_method_in_time r method [] os a ordered within h = tt
  latest_of_method_in_time r method (o ∷ part) os a ordered within h = (
    elim (h.0) [ inl n ↦ inl n | inr e ↦ inr (ordered r o a (within o (inl refl)) e) ],
    latest_of_method_in_time r method part os a ordered (λ p k. within p (inr k)) h.1,
  )

  latest_in_time :
      (r : ProbeObservationRecord) (part os : List ProbeObservationRecord)
      → Among r os
      → IsTimeOrdered os
      → ((o : ProbeObservationRecord) → Among o part → Among o os)
      → NoneNewer r part
      → All (IsNoEarlier r) part
  latest_in_time r [] os a ordered within h = tt
  latest_in_time r (o ∷ part) os a ordered within h = (
    ordered r o a (within o (inl refl)) h.0,
    latest_in_time r part os a ordered (λ p k. within p (inr k)) h.1,
  )

  last_of_method :
      (os : List ProbeObservationRecord) (P : ProbeObservationRecord → Type 0) (method : String)
      → IsTimeOrdered os
      → ((r : ProbeObservationRecord) → latest_for_method os method ≡ some r → P r)
      → LastOf os P method
  last_of_method os P method ordered holds = elim (latest_for_method_lem os method) [
    | inl (r, e, among, is_mine, newest) ↦ inr (
      r,
      among,
      is_mine,
      latest_of_method_in_time r method os os among ordered (λ o k. k) newest,
      holds r e,
    )
    | inr (_, absent) ↦ inl absent
  ]

  last_of_methods :
      (os : List ProbeObservationRecord) (P : ProbeObservationRecord → Type 0)
      (methods : List String)
      → IsTimeOrdered os
      → All (λ m. (r : ProbeObservationRecord) → latest_for_method os m ≡ some r → P r) methods
      → All (LastOf os P) methods
  last_of_methods os P [] ordered h = tt
  last_of_methods os P (m ∷ methods) ordered h =
      (last_of_method os P m ordered h.0, last_of_methods os P methods ordered h.1)

module _ (typed : Value → Option Value) where
  -- What a node that is called healthy has shown, at this instant and by this policy.
  pub record IsProven (parse_rfc3339 : String → Option ℤ) (generated_at : String)
      (policy : HealthPolicyRecord) (node : NodeRecord) (endpoint : Option EndpointStatus)
      (os : List ProbeObservationRecord) : Type 0 where
    pub enabled : node.is_enabled ≡ true
    pub trusted : endpoint ≡ some EndpointStatus.active
    pub last : ProbeObservationRecord
    pub among : Among last os
    pub newest : All (IsNoEarlier parse_rfc3339 last) os
    pub generated : ℤ
    pub observed : ℤ
    pub generated_parsed : parse_rfc3339 generated_at ≡ some generated
    pub observed_parsed : parse_rfc3339 last.observed_at ≡ some observed
    pub fresh : seconds_between generated observed ≤ policy.stale_window_seconds
    pub unexpired : is_expired parse_rfc3339 generated_at last ≡ false
    pub reachable :
        consecutive_unreachable_controller_ping_failures os
        < policy.unreachable_consecutive_failures
    pub ping : LastOf parse_rfc3339 os (λ r. r.is_ok ≢ some false) probe_controller_ping
    pub methods : All (LastOf parse_rfc3339 os (IsGood typed)) reported_methods

  latest_some :
      (os : List ProbeObservationRecord)
      → is_empty os ≡ false
      → (r : ProbeObservationRecord) × (latest_observation os ≡ some r)
  unfolding latest_observation
  latest_some [] h = ground arith
  latest_some (o ∷ os) h = (latest_from o os, refl)

  fresh_enough :
      (parse_rfc3339 : String → Option ℤ) (generated_at : String) (r : ProbeObservationRecord)
      (window : ℕ)
      → is_not_fresh parse_rfc3339 generated_at r window ≡ false
      → (g : ℤ) × (o : ℤ) × (parse_rfc3339 generated_at ≡ some g)
        × (parse_rfc3339 r.observed_at ≡ some o)
        × (seconds_between g o ≤ window)
  unfolding is_not_fresh freshness_seconds
  fresh_enough parse_rfc3339 generated_at r window h =
      elim (Option-cases (parse_rfc3339 generated_at)) [
        | inl e ↦ ground (arith, e, h)
        | inr (g, e) ↦ elim (Option-cases (parse_rfc3339 r.observed_at)) [
          | inl f ↦ ground (arith, e, f, h)
          | inr (o, f) ↦ (g, o, e, f, ground (arith, e, f, h))
        ]
      ]

  -- The tests that a healthy node passes.
  healthy_tests :
      (parse_rfc3339 : String → Option ℤ) (generated_at : String) (policy : HealthPolicyRecord)
      (node : NodeRecord) (endpoint : Option EndpointStatus) (os : List ProbeObservationRecord)
      → node_status typed parse_rfc3339 node endpoint os generated_at policy ≡ HealthStatus.healthy
      → (node.is_enabled ≡ true)
        × (endpoint ≡ some EndpointStatus.active)
        × (is_empty os ≡ false)
        × (latest_is_stale_or_expired parse_rfc3339 generated_at os policy.stale_window_seconds
            ≡ false)
        × (consecutive_unreachable_controller_ping_failures os
            < policy.unreachable_consecutive_failures)
        × (degraded_methods typed os ≡ [])
        × (latest_controller_ping_failed os ≡ false)
  unfolding node_status inactive_endpoint_error_code
  healthy_tests parse_rfc3339 generated_at policy node endpoint os h = ground (arith, h)

  -- If the observations' instants can be read and their texts sort by time, a node is healthy only
  -- when it is enabled, its endpoint is active, an observation that is not before any other is within
  -- the stale window and has not expired, the count of pings that failed in a row is below the
  -- policy's, and of the pings, and of each ocserv method, none was observed or one that is not before
  -- any other of that method did not fail; and that of an ocserv method reports no degraded method and
  -- no certificate that warns.
  pub node_status-IsProven :
      (parse_rfc3339 : String → Option ℤ) (generated_at : String) (policy : HealthPolicyRecord)
      (node : NodeRecord) (endpoint : Option EndpointStatus) (os : List ProbeObservationRecord)
      → IsTimeOrdered parse_rfc3339 os
      → node_status typed parse_rfc3339 node endpoint os generated_at policy ≡ HealthStatus.healthy
      → IsProven parse_rfc3339 generated_at policy node endpoint os
  unfolding latest_is_stale_or_expired degraded_methods latest_controller_ping_failed
  node_status-IsProven parse_rfc3339 generated_at policy node endpoint os ordered h =
      let (enabled, trusted, some_seen, not_stale, reachable, no_method, no_ping) =
        healthy_tests parse_rfc3339 generated_at policy node endpoint os h in
      let (last, e) = latest_some os some_seen in
      let (among, newest) = latest_observation_lem os last e in
      let stale : (is_expired parse_rfc3339 generated_at last ≡ false)
          × (is_not_fresh parse_rfc3339 generated_at last policy.stale_window_seconds ≡ false) =
        ground (arith, e, not_stale) in
      let (g, o, pg, po, fresh) =
        fresh_enough parse_rfc3339 generated_at last policy.stale_window_seconds stale.1 in
      let nothing = sorted_none (collect_degraded typed reported_methods os []) no_method in
      record {
        enabled = enabled;
        trusted = trusted;
        last = last;
        among = among;
        newest = latest_in_time parse_rfc3339 last os os among ordered (λ o k. k) newest;
        generated = g;
        observed = o;
        generated_parsed = pg;
        observed_parsed = po;
        fresh = fresh;
        unexpired = stale.0;
        reachable = reachable;
        ping =
            last_of_method parse_rfc3339 os (λ r. r.is_ok ≢ some false) probe_controller_ping
              ordered (λ r f. ground (arith, f, no_ping));
        methods =
            last_of_methods parse_rfc3339 os (IsGood typed) reported_methods ordered
              (collect_none typed reported_methods os (ground (arith, nothing)));
      }
