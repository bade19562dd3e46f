-- ===== src/Agent/Nonce/Validity.antt =====
-- The invariant of the replay cache, and what pruning does to the map that the cache stands for.
use ocserv_fleet_agent.Common.{
  ℕ, ◌+◌, ◌≤◌, ◌<◌, ◌≡◌, refl, ◌⊎◌, inl, inr, List, [], ◌∷◌, Option, none, some, String, arith,
  decided, if◌then◌else◌, length, text_discrete, Option-cases, ltb, ℕ_discrete, ◌&&◌, ◌∙◌, ap,
  Bool-cases,
}
use ocserv_fleet_agent.Common.Assoc.{
  lookup, remove, Distinct, lookup-remove_ne, lookup-remove_self, remove-Distinct, length-remove,
}
use ocserv_fleet_agent.Agent.Nonce.{
  ExpiryEntry, NonceCache, expiry_of, remove_nonce, expire, with_limits, prune_from,
  prune_expired_at,
}
use ocserv_fleet_agent.Agent.Nonce.Heap.{From, Has, From-weaken, From-Has}
use ocserv_fleet_agent.Agent.Nonce.Peers.{
  nonces_of, total, expiry_of_lem, IsDistinct, nonces_of-remove_nonce, total-remove_nonce,
  remove_nonce-Distinct,
}

abbrev pub entry : ℕ → String → String → ExpiryEntry
entry t p n = record { expires_at = t; peer_id = p; nonce = n }

-- The maps have no key twice, the counter counts the live nonces, every live nonce waits in the
-- queue with its expiry, the queue is in order, and both limits hold.
pub record Pending (es : List ExpiryEntry) (c : NonceCache) : Type 0 where
  pub peers_distinct : Distinct text_discrete c.peers
  pub nonces_distinct : (p : String) → IsDistinct (nonces_of p c)
  pub counted : c.live_total ≡ total c.peers
  pub scheduled : (p n : String) (t : ℕ) → expiry_of p n c ≡ some t → Has (entry t p n) es
  pub ordered : From 0 es
  pub per_peer : (p : String) → length (nonces_of p c) ≤ c.max_live_per_peer
  pub global : c.live_total ≤ c.max_live_global

abbrev pub IsValid : NonceCache → Type 0
IsValid c = Pending c.expirations c

pub with_limits-IsValid : (g l : ℕ) → IsValid (with_limits g l)
unfolding with_limits lookup expiry_of nonces_of total
with_limits-IsValid g l = record {
  peers_distinct = tt;
  nonces_distinct = λ p. tt;
  counted = refl;
  scheduled = λ p n t h. cc;
  ordered = tt;
  per_peer = λ p. omega arith;
  global = omega arith;
}

-- A round of the loop either skips a stale entry or removes the nonce that expires.
abbrev IsDue : ExpiryEntry → NonceCache → Type 0
IsDue e c = expiry_of e.peer_id e.nonce c ≡ some e.expires_at

expire-cases :
    (e : ExpiryEntry) (c : NonceCache)
    → ((expire e c ≡ c) × (¬ IsDue e c)) ⊎ ((expire e c ≡ remove_nonce e c) × IsDue e c)
unfolding expire
expire-cases e c = elim (Option-cases (expiry_of e.peer_id e.nonce c)) [
  | inl h ↦ inl (rw (h, expire), λ g. cc)
  | inr (t, h) ↦ elim (ℕ_discrete t e.expires_at) [
    | yes p ↦ inr (rw (h, expire) (ground arith), h ∙ ap some p)
    | no q ↦ inl (rw (h, expire) (ground arith), λ g. ground arith)
  ]
]

expiry_of-remove_nonce :
    (e : ExpiryEntry) (p n : String) (c : NonceCache)
    → Distinct text_discrete c.peers
    → IsDistinct (nonces_of e.peer_id c)
    → expiry_of p n (remove_nonce e c) ≡ (
        if decided (text_discrete e.peer_id p) && decided (text_discrete e.nonce n)
        then none
        else expiry_of p n c)
expiry_of-remove_nonce e p n c d k = ground (
  arith,
  expiry_of_lem p n c,
  expiry_of_lem p n (remove_nonce e c),
  nonces_of-remove_nonce e p c d,
  lookup-remove_self text_discrete e.nonce (nonces_of e.peer_id c) k,
  lookup-remove_ne text_discrete e.nonce n (nonces_of e.peer_id c),
)

limits-remove_nonce :
    (e : ExpiryEntry) (c : NonceCache)
    → ((remove_nonce e c).max_live_global ≡ c.max_live_global)
      × ((remove_nonce e c).max_live_per_peer ≡ c.max_live_per_peer)
      × ((remove_nonce e c).live_total ≤ c.live_total)
unfolding remove_nonce
limits-remove_nonce e c = ground arith

skip-Pending :
    (e : ExpiryEntry) (es : List ExpiryEntry) (c : NonceCache)
    → ¬ IsDue e c
    → Pending (e ∷ es) c
    → Pending es c
skip-Pending e es c h v = record {
  peers_distinct = v.peers_distinct;
  nonces_distinct = v.nonces_distinct;
  counted = v.counted;
  scheduled = λ p n t g. other p n t g (v.scheduled p n t g);
  ordered = From-weaken 0 e.expires_at es (omega arith) v.ordered.1;
  per_peer = v.per_peer;
  global = v.global;
}
  where
    other :
        (p n : String) (t : ℕ)
        → expiry_of p n c ≡ some t
        → Has (entry t p n) (e ∷ es)
        → Has (entry t p n) es
    other p n t g (inl q) = absurd (h (ground arith))
    other p n t g (inr q) = q

remove_nonce-Pending :
    (e : ExpiryEntry) (es : List ExpiryEntry) (c : NonceCache)
    → Pending (e ∷ es) c
    → Pending es (remove_nonce e c)
remove_nonce-Pending e es c v = record {
  peers_distinct = remove_nonce-Distinct e c v.peers_distinct;
  nonces_distinct = λ p. rw (nonces_of-remove_nonce e p c v.peers_distinct) (distinct p);
  counted = total-remove_nonce e c v.counted;
  scheduled = λ p n t g. scheduled p n t g;
  ordered = From-weaken 0 e.expires_at es (omega arith) v.ordered.1;
  per_peer = λ p. omega (arith, bound p, limits-remove_nonce e c);
  global = omega (arith, limits-remove_nonce e c, v.global);
}
  where
    distinct :
        (p : String)
        → IsDistinct (
            if decided (text_discrete e.peer_id p)
            then remove text_discrete e.nonce (nonces_of e.peer_id c)
            else nonces_of p c)
    distinct p = ground (
      arith,
      v.nonces_distinct p,
      remove-Distinct text_discrete e.nonce (nonces_of e.peer_id c) (v.nonces_distinct e.peer_id),
    )

    bound : (p : String) → length (nonces_of p (remove_nonce e c)) ≤ c.max_live_per_peer
    bound p = ground (
      arith,
      nonces_of-remove_nonce e p c v.peers_distinct,
      v.per_peer p,
      v.per_peer e.peer_id,
      length-remove text_discrete e.nonce (nonces_of e.peer_id c),
    )

    scheduled :
        (p n : String) (t : ℕ) → expiry_of p n (remove_nonce e c) ≡ some t → Has (entry t p n) es
    scheduled p n t g = ground (
      arith,
      expiry_of-remove_nonce e p n c v.peers_distinct (v.nonces_distinct e.peer_id),
      v.scheduled p n t,
    )

expire-Pending :
    (e : ExpiryEntry) (es : List ExpiryEntry) (c : NonceCache)
    → Pending (e ∷ es) c
    → Pending es (expire e c)
expire-Pending e es c v = elim (expire-cases e c) [
  | inl (q, h) ↦ rw q (skip-Pending e es c h v)
  | inr (q, h) ↦ rw q (remove_nonce-Pending e es c v)
]

reheap-IsValid :
    (es : List ExpiryEntry) (c : NonceCache)
    → Pending es c
    → IsValid (record c { expirations = es })
unfolding nonces_of expiry_of lookup
reheap-IsValid es c v = record {
  peers_distinct = v.peers_distinct;
  nonces_distinct = v.nonces_distinct;
  counted = v.counted;
  scheduled = v.scheduled;
  ordered = v.ordered;
  per_peer = v.per_peer;
  global = v.global;
}

prune_from-IsValid :
    (now : ℕ) (es : List ExpiryEntry) (c : NonceCache) (k : ℕ)
    → Pending es c
    → IsValid (prune_from now es c k).0
unfolding prune_from
prune_from-IsValid now [] c k v = reheap-IsValid [] c v
prune_from-IsValid now (e ∷ es) c k v = ground (
  arith,
  reheap-IsValid (e ∷ es) c v,
  prune_from-IsValid now es (expire e c) (k + 1) (expire-Pending e es c v),
)

pub prune-IsValid : (now : ℕ) (c : NonceCache) → IsValid c → IsValid (prune_expired_at now c).0
unfolding prune_expired_at
prune-IsValid now c v = prune_from-IsValid now c.expirations c 0 v

-- Pruning keeps the limits.
limits-prune_from :
    (now : ℕ) (es : List ExpiryEntry) (c : NonceCache) (k : ℕ)
    → ((prune_from now es c k).0.max_live_global ≡ c.max_live_global)
      × ((prune_from now es c k).0.max_live_per_peer ≡ c.max_live_per_peer)
unfolding prune_from
limits-prune_from now [] c k = (refl, refl)
limits-prune_from now (e ∷ es) c k =
    ground (arith, limits-prune_from now es (expire e c) (k + 1), limits-expire)
  where
    limits-expire :
        ((expire e c).max_live_global ≡ c.max_live_global)
        × ((expire e c).max_live_per_peer ≡ c.max_live_per_peer)
    limits-expire = elim (expire-cases e c) [
      | inl (q, h) ↦ rw q (refl, refl)
      | inr (q, h) ↦ rw q (ground (arith, limits-remove_nonce e c))
    ]

pub limits-prune :
    (now : ℕ) (c : NonceCache)
    → ((prune_expired_at now c).0.max_live_global ≡ c.max_live_global)
      × ((prune_expired_at now c).0.max_live_per_peer ≡ c.max_live_per_peer)
unfolding prune_expired_at
limits-prune now c = limits-prune_from now c.expirations c 0

-- What is left of a nonce's expiry at an instant.
abbrev pub unexpired : ℕ → Option ℕ → Option ℕ
unexpired now none = none
unexpired now (some t) = if ltb now t then some t else none

expiry_of-expire :
    (now : ℕ) (e : ExpiryEntry) (es : List ExpiryEntry) (p n : String) (c : NonceCache)
    → Pending (e ∷ es) c
    → e.expires_at ≤ now
    → unexpired now (expiry_of p n (expire e c)) ≡ unexpired now (expiry_of p n c)
expiry_of-expire now e es p n c v h = elim (expire-cases e c) [
  | inl (q, g) ↦ rw q refl
  | inr (q, g) ↦ rw q (
      ground (arith, expiry_of-remove_nonce e p n c v.peers_distinct (v.nonces_distinct e.peer_id)))
]

fresh_unexpired :
    (now m : ℕ) (es : List ExpiryEntry) (p n : String) (c : NonceCache)
    → Pending es c
    → From m es
    → now < m
    → (o : Option ℕ) → expiry_of p n c ≡ o
    → o ≡ unexpired now o
fresh_unexpired now m es p n c v s h none e = refl
fresh_unexpired now m es p n c v s h (some t) e =
    ground (arith, From-Has m (entry t p n) es s (v.scheduled p n t e))

idle_unexpired :
    (now : ℕ) (p n : String) (c : NonceCache)
    → Pending [] c
    → (o : Option ℕ) → expiry_of p n c ≡ o
    → o ≡ unexpired now o
idle_unexpired now p n c v none e = refl
idle_unexpired now p n c v (some t) e = absurd (v.scheduled p n t e)

expiry_of-reheap :
    (es : List ExpiryEntry) (p n : String) (c : NonceCache)
    → expiry_of p n (record c { expirations = es }) ≡ expiry_of p n c
unfolding expiry_of lookup
expiry_of-reheap es p n c = refl

expiry_of-prune_from :
    (now : ℕ) (es : List ExpiryEntry) (c : NonceCache) (k : ℕ) (p n : String)
    → Pending es c
    → expiry_of p n (prune_from now es c k).0 ≡ unexpired now (expiry_of p n c)
unfolding prune_from
expiry_of-prune_from now [] c k p n v =
    expiry_of-reheap [] p n c ∙ idle_unexpired now p n c v (expiry_of p n c) refl
expiry_of-prune_from now (e ∷ es) c k p n v = elim (Bool-cases (ltb now e.expires_at)) [
  | inl h ↦ rw h (
      expiry_of-reheap (e ∷ es) p n c
      ∙ fresh_unexpired now e.expires_at (e ∷ es) p n c v (ground (arith, v.ordered)) (ground arith)
          (expiry_of p n c) refl)
  | inr h ↦ rw h (
      expiry_of-prune_from now es (expire e c) (k + 1) p n (expire-Pending e es c v)
      ∙ expiry_of-expire now e es p n c v (ground arith))
]

-- Pruning forgets exactly the nonces whose expiry has come.
pub expiry_of-prune :
    (now : ℕ) (p n : String) (c : NonceCache)
    → IsValid c
    → expiry_of p n (prune_expired_at now c).0 ≡ unexpired now (expiry_of p n c)
unfolding prune_expired_at
expiry_of-prune now p n c v = expiry_of-prune_from now c.expirations c 0 p n v
