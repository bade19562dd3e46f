-- ===== src/Cli/Health/Evidence.antt =====
-- What the latest observation is, and what a node that is called healthy has shown.
use ocserv_fleet_agent.Cli.Observation.Projection.{safe_observation_summary}
use ocserv_fleet_agent.Protocol.Json.{Value}
use ocserv_fleet_agent.Cli.Health.Status.{
  push_new, insert_text, dedup, is_listed, sort_texts, degraded_by, cert_observation_warns,
  degraded_methods_from_summary, collect_degraded,
}
use ocserv_fleet_agent.Cli.Health.Latest.{
  latest_from, latest_observation, is_older, filter, latest_for_method, has_ok, has_method,
}
use ocserv_fleet_agent.Cli.Health.Records.{ProbeObservationRecord}
use ocserv_fleet_agent.Common.{
  ℕ, before, List, ◌≡◌, Any, All, ◌∷◌, true, false, inl, some, arith, [], refl, codes, Bool-cases,
  Bool, inr, ◌⊎◌, String, Option, ◌≢◌, length, List-cases, none, ◌≤◌, suc, ◌++◌, length-append,
  ◌||◌, Option-cases, subst,
}

before_irrefl : (xs ys : List ℕ) → before xs ys ≡ true → before ys xs ≡ false
unfolding before
before_irrefl [] [] h = ground arith
before_irrefl [] (y ∷ ys) h = refl
before_irrefl (x ∷ xs) [] h = ground arith
before_irrefl (x ∷ xs) (y ∷ ys) h = ground (arith, before_irrefl xs ys)

before_self : (xs : List ℕ) → before xs xs ≡ false
unfolding before
before_self [] = refl
before_self (x ∷ xs) = ground (arith, before_self xs)

-- Not earlier, and not earlier again.
not_before_trans :
    (xs ys zs : List ℕ) → before xs ys ≡ false → before ys zs ≡ false → before xs zs ≡ false
unfolding before
not_before_trans xs ys [] h k = refl
not_before_trans xs [] (z ∷ zs) h k = ground arith
not_before_trans [] (y ∷ ys) (z ∷ zs) h k = ground arith
not_before_trans (x ∷ xs) (y ∷ ys) (z ∷ zs) h k = ground (arith, not_before_trans xs ys zs)

abbrev pub Among : ProbeObservationRecord → List ProbeObservationRecord → Type 0
Among r os = Any (λ o. r ≡ o) os

-- None of them is newer, as the code compares them: by the texts of `observed_at`.
abbrev pub NoneNewer : ProbeObservationRecord → List ProbeObservationRecord → Type 0
NoneNewer r os = All (λ o. is_older r o ≡ false) os

latest_from_lem :
    (best : ProbeObservationRecord) (os : List ProbeObservationRecord)
    → Among (latest_from best os) (best ∷ os) × NoneNewer (latest_from best os) (best ∷ os)
unfolding latest_from
latest_from_lem best [] = ground (arith, before_self (codes best.observed_at))
latest_from_lem best (o ∷ os) = elim (Bool-cases (is_older o best)) [
  | inl e ↦
      let last = latest_from best os in
      let b = codes best.observed_at in
      let c = codes o.observed_at in
      ground (
        arith,
        e,
        latest_from_lem best os,
        not_before_trans (codes last.observed_at) b c,
        before_irrefl c b,
      )
  | inr e ↦
      let last = latest_from o os in
      let b = codes best.observed_at in
      let c = codes o.observed_at in
      ground (arith, e, latest_from_lem o os, not_before_trans (codes last.observed_at) c b)
]

pub latest_observation_lem :
    (os : List ProbeObservationRecord) (r : ProbeObservationRecord)
    → latest_observation os ≡ some r
    → Among r os × NoneNewer r os
unfolding latest_observation
latest_observation_lem [] r h = ground arith
latest_observation_lem (o ∷ os) r h = ground (arith, latest_from_lem o os)

filter_lem :
    (p : ProbeObservationRecord → Bool) (r : ProbeObservationRecord)
    (os : List ProbeObservationRecord)
    → Among r (filter p os)
    → Among r os × (p r ≡ true)
unfolding filter
filter_lem p r [] a = ground arith
filter_lem p r (o ∷ os) a = ground (arith, filter_lem p r os)

filter-NoneNewer :
    (method : String) (r : ProbeObservationRecord) (os : List ProbeObservationRecord)
    → NoneNewer r (filter (has_method method) os)
    → All (λ o. (o.method ≢ method) ⊎ (is_older r o ≡ false)) os
unfolding filter
filter-NoneNewer method r [] a = tt
filter-NoneNewer method r (o ∷ os) a = ground (arith, filter-NoneNewer method r os)

filter-none :
    (method : String) (os : List ProbeObservationRecord)
    → latest_observation (filter (has_method method) os) ≡ none
    → All (λ o. o.method ≢ method) os
unfolding filter latest_observation
filter-none method [] a = tt
filter-none method (o ∷ os) a = ground (arith, filter-none method os)

-- The latest observation of a method, in the order of the texts.
pub latest_for_method_lem :
    (os : List ProbeObservationRecord) (method : String)
    → ((r : ProbeObservationRecord) × (latest_for_method os method ≡ some r)
        × Among r os
        × (r.method ≡ method)
        × All (λ o. (o.method ≢ method) ⊎ (is_older r o ≡ false)) os)
      ⊎ ((latest_for_method os method ≡ none) × All (λ o. o.method ≢ method) os)
unfolding latest_for_method
latest_for_method_lem os method =
    let mine = filter (has_method method) os in
    elim (Option-cases (latest_observation mine)) [
      | inl e ↦ inr (e, filter-none method os e)
      | inr (r, e) ↦
          let (among, newest) = latest_observation_lem mine r e in
          let (found, is_mine) = filter_lem (has_method method) r os among in
          inl (r, e, found, ground (arith, is_mine), filter-NoneNewer method r os newest)
    ]

-- Lists of methods that only grow.
length-push_new : (ds ms : List String) → length ms ≤ length (push_new ds ms)
unfolding push_new
length-push_new [] ms = omega arith
length-push_new (d ∷ ds) ms =
    ground
      (arith, length-push_new ds ms, length-push_new ds (ms ++ (d ∷ [])), length-append ms (d ∷ []))

push_new_none : (ds : List String) → length (push_new ds []) ≡ 0 → ds ≡ []
unfolding push_new is_listed
push_new_none [] h = refl
push_new_none (d ∷ ds) h = ground (arith, length-push_new ds (d ∷ []))

length-insert_text : (s : String) (ts : List String) → length (insert_text s ts) ≡ suc (length ts)
unfolding insert_text
length-insert_text s [] = refl
length-insert_text s (t ∷ ts) = ground (arith, length-insert_text s ts)

pub sorted_none : (ms : List String) → dedup (sort_texts ms) ≡ [] → ms ≡ []
unfolding dedup sort_texts
sorted_none [] h = refl
sorted_none (m ∷ ms) h = elim (List-cases (insert_text m (sort_texts ms))) [
  | inl e ↦ ground (arith, e, length-insert_text m (sort_texts ms))
  | inr (t, ts, e) ↦ ground (arith, e)
]

module _ (typed : Value → Option Value) where
  -- The method's latest observation did not fail, names no degraded method and has no certificate
  -- that warns.
  pub record IsGood (r : ProbeObservationRecord) : Type 0 where
    pub succeeded : r.is_ok ≢ some false
    pub no_warning : cert_observation_warns typed r ≡ false
    pub none_degraded :
        degraded_methods_from_summary (safe_observation_summary typed r.summary_json) ≡ []

  length-degraded_by :
      (m : String) (r : ProbeObservationRecord) (ms : List String)
      → length ms ≤ length (degraded_by typed m r ms)
  unfolding degraded_by
  length-degraded_by m r ms =
      let found = degraded_methods_from_summary (safe_observation_summary typed r.summary_json) in
      ground (
        arith,
        length-push_new found ms,
        length-push_new found (ms ++ (m ∷ [])),
        length-append ms (m ∷ []),
      )

  degraded_by_none :
      (m : String) (r : ProbeObservationRecord) → length (degraded_by typed m r []) ≡ 0 → IsGood r
  unfolding degraded_by
  degraded_by_none m r h =
      let found = degraded_methods_from_summary (safe_observation_summary typed r.summary_json) in
      let none_added = push_new_none found in
      let grown = length-push_new found (m ∷ []) in
      elim (Bool-cases (has_ok false r || cert_observation_warns typed r)) [
        | inl e ↦ ground (arith, e, grown)
        | inr e ↦ record {
          succeeded = ground (arith, e);
          no_warning = ground (arith, e);
          none_degraded = ground (arith, e, none_added);
        }
      ]

  collect_length :
      (methods : List String) (os : List ProbeObservationRecord) (ms : List String)
      → length ms ≤ length (collect_degraded typed methods os ms)
  unfolding collect_degraded
  collect_length [] os ms = omega arith
  collect_length (m ∷ methods) os ms = elim (Option-cases (latest_for_method os m)) [
    | inl e ↦ ground (arith, e, collect_length methods os ms)
    | inr (r, e) ↦
        ground (
          arith,
          e,
          length-degraded_by m r ms,
          collect_length methods os (degraded_by typed m r ms),
        )
  ]

  pub collect_none :
      (methods : List String) (os : List ProbeObservationRecord)
      → length (collect_degraded typed methods os []) ≡ 0
      → All (λ m. (r : ProbeObservationRecord) → latest_for_method os m ≡ some r → IsGood r) methods
  unfolding collect_degraded
  collect_none [] os h = tt
  collect_none (m ∷ methods) os h = elim (Option-cases (latest_for_method os m)) [
    | inl e ↦ ((λ r f. ground (arith, e, f)), collect_none methods os (ground (arith, e, h)))
    | inr (r, e) ↦
        let next = degraded_by typed m r [] in
        let after : length (collect_degraded typed methods os next) ≡ 0 = ground (arith, e, h) in
        let empty : length next ≡ 0 = ground (arith, after, collect_length methods os next) in
        let nil : next ≡ [] = ground (arith, empty) in
        (
          (λ q f. subst IsGood (ground (arith, e, f)) (degraded_by_none m r empty)),
          collect_none methods os (ground (arith, nil, after)),
        )
  ]
