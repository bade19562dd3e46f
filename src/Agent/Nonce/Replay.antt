-- ===== src/Agent/Nonce/Replay.antt =====
-- Registration: which decision is taken, what it keeps, and that a nonce is good for one request.
use ocserv_fleet_agent.Common.{
  ℕ, ◌+◌, ◌≤◌, ◌<◌, ◌≡◌, ◌↔◌, if◌then◌else◌, decided, ◌&&◌, arith, some, ◌∙◌, length, ap, List, All,
  Option, ◌∷◌, is_some, true, [],
}
use ocserv_fleet_agent.Agent.Nonce.Heap.{Has, push-From, push-Has_self, push-Has}
use ocserv_fleet_agent.Agent.Nonce.Peers.{
  nonces_of, expiry_of_lem, peer_live_len_lem, nonces_of-store, total-store, store-Distinct,
  IsDistinct, limits-store,
}
use ocserv_fleet_agent.Agent.Nonce.Validity.{
  IsValid, entry, prune-IsValid, limits-prune, expiry_of-prune, unexpired,
}
use ocserv_fleet_agent.Agent.Nonce.{
  NonceCache, ExpiryEntry, store, String, expiry_of, push, none, peer_live_len, text_discrete,
  insert, some, lookup, length, admit, register_at, List, expires_at_of, prune_expired_at, Option,
  replay, accepted, ◌∷◌, is_some, true,
}
use ocserv_fleet_agent.Common.Assoc.{Distinct, insert-Distinct, length-insert, lookup-insert}

abbrev with_entry : ExpiryEntry → NonceCache → NonceCache
with_entry e c = record (store e.peer_id e.nonce e.expires_at c) {
  live_total = c.live_total + 1;
  expirations = push e c.expirations;
}

with_entry_nonces :
    (e : ExpiryEntry) (q : String) (c : NonceCache)
    → nonces_of q (with_entry e c) ≡ (
        if decided (text_discrete e.peer_id q)
        then insert text_discrete e.nonce e.expires_at (nonces_of e.peer_id c)
        else nonces_of q c)
unfolding nonces_of
with_entry_nonces e q c = nonces_of-store e.peer_id e.nonce e.expires_at q c

expiry_of-store :
    (e : ExpiryEntry) (q m : String) (c : NonceCache)
    → expiry_of q m (with_entry e c) ≡ (
        if decided (text_discrete e.peer_id q) && decided (text_discrete e.nonce m)
        then some e.expires_at
        else expiry_of q m c)
expiry_of-store e q m c = ground (
  arith,
  expiry_of_lem q m c,
  store_lem,
  lookup-insert text_discrete e.nonce m e.expires_at (nonces_of e.peer_id c),
)
  where
    store_lem :
        expiry_of q m (with_entry e c)
        ≡ lookup text_discrete m (
            if decided (text_discrete e.peer_id q)
            then insert text_discrete e.nonce e.expires_at (nonces_of e.peer_id c)
            else nonces_of q c)
    store_lem =
        expiry_of_lem q m (with_entry e c) ∙ ap (lookup text_discrete m) (with_entry_nonces e q c)

with_entry-IsValid :
    (e : ExpiryEntry) (c : NonceCache)
    → IsValid c
    → expiry_of e.peer_id e.nonce c ≡ none
    → peer_live_len e.peer_id c < c.max_live_per_peer
    → c.live_total < c.max_live_global
    → IsValid (with_entry e c)
with_entry-IsValid e c v h l g = record {
  peers_distinct = kept_distinct;
  nonces_distinct = λ p. rw (with_entry_nonces e p c) (distinct p);
  counted = omega (arith, total-store e.peer_id e.nonce e.expires_at c h, v.counted);
  scheduled = λ p n t k. scheduled p n t k;
  ordered = push-From 0 e c.expirations (omega arith) v.ordered;
  per_peer = λ p.
      rw (with_entry_nonces e p c, (limits-store e.peer_id e.nonce e.expires_at c).1) (bound p);
  global = omega (arith, limits-store e.peer_id e.nonce e.expires_at c);
}
  where
    kept_distinct : Distinct text_discrete (store e.peer_id e.nonce e.expires_at c).peers
    kept_distinct = store-Distinct e.peer_id e.nonce e.expires_at c v.peers_distinct

    distinct :
        (p : String)
        → IsDistinct (
            if decided (text_discrete e.peer_id p)
            then insert text_discrete e.nonce e.expires_at (nonces_of e.peer_id c)
            else nonces_of p c)
    distinct p = ground (
      arith,
      v.nonces_distinct p,
      insert-Distinct text_discrete e.nonce e.expires_at (nonces_of e.peer_id c)
          (v.nonces_distinct e.peer_id),
    )

    bound :
        (p : String)
        → length (
            if decided (text_discrete e.peer_id p)
            then insert text_discrete e.nonce e.expires_at (nonces_of e.peer_id c)
            else nonces_of p c)
          ≤ c.max_live_per_peer
    bound p = ground (
      arith,
      v.per_peer p,
      peer_live_len_lem e.peer_id c,
      length-insert text_discrete e.nonce e.expires_at (nonces_of e.peer_id c),
    )

    scheduled :
        (p n : String) (t : ℕ)
        → expiry_of p n (with_entry e c) ≡ some t
        → Has (entry t p n) (push e c.expirations)
    scheduled p n t k = ground (
      arith,
      expiry_of-store e p n c,
      push-Has_self e (entry t p n) c.expirations,
      push-Has e (entry t p n) c.expirations,
      v.scheduled p n t,
    )

-- The four ways a registration can go, after pruning.
pub admit-IsValid :
    (instant_max now : ℕ) (p n : String) (ttl : ℕ) (c : NonceCache)
    → IsValid c
    → IsValid (admit instant_max now p n ttl c).0
unfolding admit
admit-IsValid instant_max now p n ttl c v =
    ground (arith, with_entry-IsValid (entry (expires_at_of instant_max now ttl) p n) c v)

-- Every registration keeps the cache well formed: the live counter is the number of nonces stored,
-- neither limit is ever passed, and every stored nonce waits in the queue for its expiry.
pub register_at-IsValid :
    (instant_max now : ℕ) (p n : String) (ttl : ℕ) (c : NonceCache)
    → IsValid c
    → IsValid (register_at instant_max now p n ttl c).0
unfolding register_at
register_at-IsValid instant_max now p n ttl c v =
    admit-IsValid instant_max now p n ttl (prune_expired_at now c).0 (prune-IsValid now c v)

admit-replay_iff :
    (instant_max now : ℕ) (p n : String) (ttl : ℕ) (c : NonceCache) (o : Option ℕ)
    → expiry_of p n c ≡ o
    → ((admit instant_max now p n ttl c).1 ≡ replay) ↔ (is_some o ≡ true)
unfolding admit
admit-replay_iff instant_max now p n ttl c o e = ground arith

-- A registration is refused as a replay exactly when the same peer holds the same nonce with an
-- expiry that has not come.
pub replay_iff :
    (instant_max now : ℕ) (p n : String) (ttl : ℕ) (c : NonceCache)
    → IsValid c
    → ((register_at instant_max now p n ttl c).1 ≡ replay)
      ↔ (is_some (unexpired now (expiry_of p n c)) ≡ true)
unfolding register_at
replay_iff instant_max now p n ttl c v =
    admit-replay_iff instant_max now p n ttl (prune_expired_at now c).0
      (unexpired now (expiry_of p n c)) (expiry_of-prune now p n c v)

admit_keeps :
    (instant_max now : ℕ) (q m : String) (ttl : ℕ) (c : NonceCache) (p n : String) (t : ℕ)
    → expiry_of p n c ≡ some t
    → expiry_of p n (admit instant_max now q m ttl c).0 ≡ some t
unfolding admit
admit_keeps instant_max now q m ttl c p n t e =
    ground (arith, expiry_of-store (entry (expires_at_of instant_max now ttl) q m) p n c)

-- A registration by anyone, before the expiry, leaves a stored nonce as it is.
pub register_at_keeps :
    (instant_max now : ℕ) (q m : String) (ttl : ℕ) (c : NonceCache) (p n : String) (t : ℕ)
    → IsValid c
    → expiry_of p n c ≡ some t
    → now < t
    → expiry_of p n (register_at instant_max now q m ttl c).0 ≡ some t
unfolding register_at
register_at_keeps instant_max now q m ttl c p n t v e h =
    admit_keeps instant_max now q m ttl (prune_expired_at now c).0 p n t
      (expiry_of-prune now p n c v ∙ ground arith)

admit_stores :
    (instant_max now : ℕ) (p n : String) (ttl : ℕ) (c : NonceCache)
    → (admit instant_max now p n ttl c).1 ≡ accepted
    → expiry_of p n (admit instant_max now p n ttl c).0 ≡ some (expires_at_of instant_max now ttl)
unfolding admit
admit_stores instant_max now p n ttl c e =
    ground (arith, expiry_of-store (entry (expires_at_of instant_max now ttl) p n) p n c)

pub register_at_stores :
    (instant_max now : ℕ) (p n : String) (ttl : ℕ) (c : NonceCache)
    → (register_at instant_max now p n ttl c).1 ≡ accepted
    → now + ttl ≤ instant_max
    → expiry_of p n (register_at instant_max now p n ttl c).0 ≡ some (now + ttl)
unfolding register_at expires_at_of
register_at_stores instant_max now p n ttl c e h =
    ground (arith, admit_stores instant_max now p n ttl (prune_expired_at now c).0 e)

-- One call of `register`.
pub record Registration : Type 0 where
  pub now : ℕ
  pub peer : String
  pub nonce : String
  pub ttl : ℕ

pub run : ℕ → NonceCache → List Registration → NonceCache
run instant_max c [] = c
run instant_max c (r ∷ rs) =
    run instant_max (register_at instant_max r.now r.peer r.nonce r.ttl c).0 rs

run_keeps :
    (instant_max : ℕ) (c : NonceCache) (rs : List Registration) (p n : String) (t : ℕ)
    → IsValid c
    → expiry_of p n c ≡ some t
    → All (λ r. r.now < t) rs
    → IsValid (run instant_max c rs) × (expiry_of p n (run instant_max c rs) ≡ some t)
unfolding run
run_keeps instant_max c [] p n t v e h = (v, e)
run_keeps instant_max c (r ∷ rs) p n t v e h =
    run_keeps instant_max (register_at instant_max r.now r.peer r.nonce r.ttl c).0 rs p n t
      (register_at-IsValid instant_max r.now r.peer r.nonce r.ttl c v)
      (register_at_keeps instant_max r.now r.peer r.nonce r.ttl c p n t v e h.0) h.1

-- A nonce that a peer has used is refused as a replay at every later instant before its expiry,
-- whatever registrations by this and other peers come in between at instants before the expiry.
pub accepted_once :
    (instant_max now : ℕ) (p n : String) (ttl : ℕ) (c : NonceCache) (rs : List Registration)
    (later ttl' : ℕ)
    → IsValid c
    → (register_at instant_max now p n ttl c).1 ≡ accepted
    → now + ttl ≤ instant_max
    → All (λ r. r.now < now + ttl) rs
    → later < now + ttl
    → (register_at instant_max later p n ttl'
        (run instant_max (register_at instant_max now p n ttl c).0 rs)).1
      ≡ replay
accepted_once instant_max now p n ttl c rs later ttl' v e fits before_expiry h =
    let stored = register_at_stores instant_max now p n ttl c e fits in
    let kept =
      run_keeps instant_max (register_at instant_max now p n ttl c).0 rs p n (now + ttl)
        (register_at-IsValid instant_max now p n ttl c v) stored before_expiry in
    (replay_iff instant_max later p n ttl' _ kept.0).1 (rw kept.1 (ground arith))

-- Once the expiry has come the peer may use the nonce again, if its own limit and the global one
-- leave room after pruning.
pub accepted_after_expiry :
    (instant_max now : ℕ) (p n : String) (ttl t : ℕ) (c : NonceCache)
    → IsValid c
    → expiry_of p n c ≡ some t
    → t ≤ now
    → peer_live_len p (prune_expired_at now c).0 < c.max_live_per_peer
    → (prune_expired_at now c).0.live_total < c.max_live_global
    → (register_at instant_max now p n ttl c).1 ≡ accepted
unfolding register_at admit
accepted_after_expiry instant_max now p n ttl t c v e h l g =
    ground (arith, expiry_of-prune now p n c v, limits-prune now c)
