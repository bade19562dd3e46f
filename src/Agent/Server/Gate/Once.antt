-- ===== src/Agent/Server/Gate/Once.antt =====
-- A captured request gives at most one result: the nonce is held as long as the time checks let the
-- request through.
use ocserv_fleet_agent.Common.{
  ℕ, String, Option, ◌≡◌, ◌<◌, List, arith, ◌⊎◌, ◌∷◌, inl, All, some, subst, ◌∙◌, [], sym, refl,
  inr, ◌≢◌, ◌+◌, ◌≤◌, ◌*◌, ok, Bool-cases, ltb, ltb→lt,
}
use ocserv_fleet_agent.Common.Int.{ℤ, pos, pos_part, neg_part, ◌<ℤ◌, ◌+ℤ◌}
use ocserv_fleet_agent.Agent.Nonce.{NonceCache, NonceDecision, register_at, expiry_of}
use ocserv_fleet_agent.Agent.Nonce.Validity.{IsValid}
use ocserv_fleet_agent.Agent.Nonce.Replay.{
  register_at-IsValid, register_at_keeps, register_at_stores, replay_iff,
}
use ocserv_fleet_agent.Agent.Server.Refusal.{Dispatch}
use ocserv_fleet_agent.Agent.Server.Clock.{
  as_i64, seconds, milliseconds, check_window, nonce_ttl, validated_window, window_within_ttl,
}
use ocserv_fleet_agent.Agent.Server.Request.{RpcRequest}
use ocserv_fleet_agent.Agent.Server.Gate.{
  AgentServerState, Platform, register_nonce, validate_and_dispatch_request, Option, List, some, ok,
  ltb,
}
use ocserv_fleet_agent.Agent.Server.Gate.Passed.{result_passed}

module _ {EndpointId : Type 0} (platform : Platform EndpointId) where
  open platform use {ends_with_z, parse_rfc3339, instant_max}

  module _ {Reply : Type 0}
      (execute : String → RpcRequest → Option EndpointId → Option (Dispatch Reply)) where
    abbrev handle :
        AgentServerState EndpointId
        → String
        → RpcRequest
        → ℤ
        → ℕ
        → AgentServerState EndpointId × Dispatch (String × Reply)
    handle = validate_and_dispatch_request platform execute

    abbrev registration :
        AgentServerState EndpointId → String → RpcRequest → ℕ → NonceCache × NonceDecision
    registration state remote request instant =
        register_at instant_max instant remote request.nonce
          (nonce_ttl request.deadline_ms state.allowed_clock_skew_seconds) state.nonce_cache

    abbrev Same : AgentServerState EndpointId → AgentServerState EndpointId → Type 0
    Same s t =
        (s.allowed_clock_skew_seconds ≡ t.allowed_clock_skew_seconds)
        × (s.max_deadline_ms ≡ t.max_deadline_ms)

    cache-register_nonce :
        (state : AgentServerState EndpointId) (remote : String) (request : RpcRequest) (instant : ℕ)
        → ((register_nonce platform state remote request instant).0.nonce_cache
            ≡ (registration state remote request instant).0)
          × Same (register_nonce platform state remote request instant).0 state
    unfolding register_nonce
    cache-register_nonce state remote request instant = ground arith

    -- The gate leaves the cache as it was, or registers the request's nonce; the configuration stays.
    cache-handle :
        (state : AgentServerState EndpointId) (remote : String) (request : RpcRequest) (now : ℤ)
        (instant : ℕ)
        → (((handle state remote request now instant).0.nonce_cache ≡ state.nonce_cache)
            ⊎ ((handle state remote request now instant).0.nonce_cache
                ≡ (registration state remote request instant).0))
          × Same (handle state remote request now instant).0 state
    unfolding validate_and_dispatch_request
    cache-handle state remote request now instant =
        ground (arith, cache-register_nonce state remote request instant)

    -- One request that reaches the agent, with the readings of its clocks.
    pub record Call : Type 0 where
      pub remote : String
      pub request : RpcRequest
      pub now : ℤ
      pub instant : ℕ

    pub run : AgentServerState EndpointId → List Call → AgentServerState EndpointId
    run state [] = state
    run state (c ∷ cs) = run (handle state c.remote c.request c.now c.instant).0 cs

    abbrev Holds : String → String → ℕ → NonceCache → Type 0
    Holds p n t c = IsValid c × (expiry_of p n c ≡ some t)

    handle_keeps :
        (state : AgentServerState EndpointId) (remote : String) (request : RpcRequest) (now : ℤ)
        (instant : ℕ) (p n : String) (t : ℕ)
        → Holds p n t state.nonce_cache
        → instant < t
        → Holds p n t (handle state remote request now instant).0.nonce_cache
    handle_keeps state remote request now instant p n t (v, e) h =
        elim (cache-handle state remote request now instant).0 [
          | inl same ↦ subst (Holds p n t) (sym same) (v, e)
          | inr changed ↦ subst (Holds p n t) (sym changed) (
            register_at-IsValid instant_max instant remote request.nonce _ state.nonce_cache v,
            register_at_keeps instant_max instant remote request.nonce _ state.nonce_cache p n t v e
                h,
          )
        ]

    run_keeps :
        (state : AgentServerState EndpointId) (cs : List Call) (p n : String) (t : ℕ)
        → Holds p n t state.nonce_cache
        → All (λ c. c.instant < t) cs
        → Holds p n t (run state cs).nonce_cache
    unfolding run
    run_keeps state [] p n t v h = v
    run_keeps state (c ∷ cs) p n t v h =
        run_keeps (handle state c.remote c.request c.now c.instant).0 cs p n t
          (handle_keeps state c.remote c.request c.now c.instant p n t v h.0) h.1

    run-Same : (state : AgentServerState EndpointId) (cs : List Call) → Same (run state cs) state
    unfolding run
    run-Same state [] = (refl, refl)
    run-Same state (c ∷ cs) =
        let same = (cache-handle state c.remote c.request c.now c.instant).1 in
        let rest = run-Same (handle state c.remote c.request c.now c.instant).0 cs in
        (rest.0 ∙ same.0, rest.1 ∙ same.1)

    -- The first handling of a request that gives a result stores its nonce for the whole lifetime.
    stores :
        (state : AgentServerState EndpointId) (remote : String) (request : RpcRequest) (instant : ℕ)
        → IsValid state.nonce_cache
        → (registration state remote request instant).1 ≡ NonceDecision.accepted
        → instant + nonce_ttl request.deadline_ms state.allowed_clock_skew_seconds ≤ instant_max
        → Holds remote request.nonce
            (instant + nonce_ttl request.deadline_ms state.allowed_clock_skew_seconds)
            (registration state remote request instant).0
    stores state remote request instant v a fits = (
      register_at-IsValid instant_max instant remote request.nonce _ state.nonce_cache v,
      register_at_stores instant_max instant remote request.nonce _ state.nonce_cache a fits,
    )

    result-cache :
        (state : AgentServerState EndpointId) (remote : String) (request : RpcRequest) (now : ℤ)
        (instant : ℕ) (r : String × Reply)
        → (handle state remote request now instant).1 ≡ ok r
        → (handle state remote request now instant).0.nonce_cache
          ≡ (registration state remote request instant).0
    unfolding validate_and_dispatch_request
    result-cache state remote request now instant r h =
        ground (arith, cache-register_nonce state remote request instant)

    -- After the window a request is refused by the time checks.
    late_refused :
        (state : AgentServerState EndpointId) (remote : String) (request : RpcRequest)
        (now later : ℤ) (instant instant' k : ℕ) (r' : String × Reply)
        → state.allowed_clock_skew_seconds ≡ pos k
        → state.max_deadline_ms + k * 1000 ≤ 9223372036854775807
        → ((issued : ℤ)
            → parse_rfc3339 request.issued_at ≡ some issued
            → issued <ℤ now +ℤ seconds (pos k))
        → pos_part later + neg_part now + instant ≡ pos_part now + neg_part later + instant'
        → instant + nonce_ttl request.deadline_ms (pos k) ≤ instant'
        → (handle state remote request later instant').1 ≢ ok r'
    late_refused state remote request now later instant instant' k r' skew small early clocks late
          h =
        let (_, formed, _, _, _) =
          result_passed platform execute state remote request later instant' r' h in
        let (issued, parsed, window) =
          validated_window ends_with_z parse_rfc3339 request.issued_at request.deadline_ms
            state.allowed_clock_skew_seconds later formed.in_window in
        let inside =
          window_within_ttl issued now later request.deadline_ms k instant instant'
            (omega (arith, formed.deadline_bounded)) (early issued parsed)
            (subst
              (λ s.
                check_window issued later (seconds s) (milliseconds (as_i64 request.deadline_ms))
                ≡ ok tt)
              skew window)
            clocks in
        absurd (omega arith)

    All-below :
        (m t : ℕ) (cs : List Call)
        → m < t
        → All (λ c. c.instant ≤ m) cs
        → All (λ c. c.instant < t) cs
    All-below m t [] h a = tt
    All-below m t (c ∷ cs) h a = (omega arith, All-below m t cs h a.1)

    -- A nonce that is held keeps the gate shut for its peer.
    held_refused :
        (state : AgentServerState EndpointId) (remote : String) (request : RpcRequest) (now : ℤ)
        (instant t : ℕ) (r : String × Reply)
        → Holds remote request.nonce t state.nonce_cache
        → instant < t
        → (handle state remote request now instant).1 ≢ ok r
    held_refused state remote request now instant t r (v, e) h k =
        let (_, _, accepted, _, _) =
          result_passed platform execute state remote request now instant r k in
        let replayed =
          (replay_iff instant_max instant remote request.nonce
              (nonce_ttl request.deadline_ms state.allowed_clock_skew_seconds) state.nonce_cache
              v).1
            (rw e (ground arith)) in
        cc (sym accepted ∙ replayed)

    -- A request that gave a result gives no second one: whatever requests of any endpoints are handled
    -- in between, the same request from the same endpoint is refused at every later reading of the
    -- clocks. The two clocks run alike, the request's timestamp is earlier than the latest that the
    -- skew allows at the first handling, and the configured times fit their machine words.
    pub one_result :
        (state : AgentServerState EndpointId) (remote : String) (request : RpcRequest)
        (now later : ℤ) (instant instant' k : ℕ) (calls : List Call) (r r' : String × Reply)
        → IsValid state.nonce_cache
        → state.allowed_clock_skew_seconds ≡ pos k
        → state.max_deadline_ms + k * 1000 ≤ 9223372036854775807
        → instant + nonce_ttl request.deadline_ms (pos k) ≤ instant_max
        → (handle state remote request now instant).1 ≡ ok r
        → ((issued : ℤ)
            → parse_rfc3339 request.issued_at ≡ some issued
            → issued <ℤ now +ℤ seconds (pos k))
        → pos_part later + neg_part now + instant ≡ pos_part now + neg_part later + instant'
        → All (λ c. c.instant ≤ instant') calls
        → (handle
            (run (handle state remote request now instant).0 calls)
            remote
            request
            later
            instant').1
          ≢ ok r'
    one_result state remote request now later instant instant' k calls r r' v skew small fits first
          early clocks between second =
        elim (Bool-cases (ltb instant' t)) [
          | inl h ↦
              held_refused later_state remote request later instant' t r'
                (run_keeps first_state calls remote request.nonce t held
                  (All-below instant' t calls (ltb→lt instant' t h) between))
                (ltb→lt instant' t h) second
          | inr h ↦
              late_refused later_state remote request now later instant instant' k r'
                (same.0 ∙ skew) (omega (arith, same.1)) early clocks (ground arith) second
        ]
      where
        t : ℕ
        t = instant + nonce_ttl request.deadline_ms (pos k)

        first_state : AgentServerState EndpointId
        first_state = (handle state remote request now instant).0

        later_state : AgentServerState EndpointId
        later_state = run first_state calls

        same : Same later_state state
        same =
            let a = run-Same first_state calls in
            let b = (cache-handle state remote request now instant).1 in (a.0 ∙ b.0, a.1 ∙ b.1)

        held : Holds remote request.nonce t first_state.nonce_cache
        held =
            let (_, _, accepted, _, _) =
              result_passed platform execute state remote request now instant r first in
            subst (Holds remote request.nonce t)
              (sym (result-cache state remote request now instant r first))
              (subst
                (λ s.
                  Holds remote request.nonce (instant + nonce_ttl request.deadline_ms s)
                    (registration state remote request instant).0)
                skew
                (stores state remote request instant v accepted (
                  subst (λ s. instant + nonce_ttl request.deadline_ms s ≤ instant_max) (sym skew)
                    fits)))
