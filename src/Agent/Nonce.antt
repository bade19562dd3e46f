-- ===== src/Agent/Nonce.antt =====
-- crates/ocfleet-agent/src/nonce.rs: the replay cache.
-- An `Instant` is a number of nanoseconds; the clock is the argument `now` of each call, as it is of
-- `register_at` and `prune_expired_at`. The `BinaryHeap` of `Reverse` entries is a list that `push`
-- keeps in ascending order: `peek` reads its head and `pop` takes it off.
pub mod Peers
pub mod Heap
pub mod Validity
pub mod Replay
use ocserv_fleet_agent.Common.{
  ℕ, ◌+◌, ◌-◌, Bool, true, false, not, List, [], ◌∷◌, Option, none, some, String, ltb, leb, ◌==◌,
  if◌then◌else◌, is_some, length, text_discrete, codes, before,
}
use ocserv_fleet_agent.Common.Words.{u64_max}
use ocserv_fleet_agent.Common.Assoc.{lookup, insert, remove}

pub data NonceLimitScope : Type 0 where
  global per_peer : NonceLimitScope

pub data NonceDecision : Type 0 where
  accepted replay : NonceDecision
  resource_exhausted : NonceLimitScope → ℕ → NonceDecision

pub record PeerNonceState : Type 0 where
  pub nonces : List (String × ℕ)

pub record ExpiryEntry : Type 0 where
  pub expires_at : ℕ
  pub peer_id : String
  pub nonce : String

pub record NonceCache : Type 0 where
  pub peers : List (String × PeerNonceState)
  pub expirations : List ExpiryEntry
  pub live_total : ℕ
  pub max_live_global : ℕ
  pub max_live_per_peer : ℕ

unfoldable pub with_limits : ℕ → ℕ → NonceCache
with_limits max_live_global max_live_per_peer = record {
  peers = [];
  expirations = [];
  live_total = 0;
  max_live_global = max_live_global;
  max_live_per_peer = max_live_per_peer;
}

unfoldable pub new : NonceCache
unfolding with_limits
new = with_limits u64_max u64_max

-- The derived order of `ExpiryEntry`: by its fields, in their order.
entry_le : ExpiryEntry → ExpiryEntry → Bool
entry_le e f =
    if ltb e.expires_at f.expires_at
    then true
    else if ltb f.expires_at e.expires_at
    then false
    else if before (codes e.peer_id) (codes f.peer_id)
    then true
    else if before (codes f.peer_id) (codes e.peer_id)
    then false
    else not (before (codes f.nonce) (codes e.nonce))

unfoldable pub push : ExpiryEntry → List ExpiryEntry → List ExpiryEntry
unfolding entry_le
push e [] = e ∷ []
push e (f ∷ fs) = if entry_le e f then e ∷ f ∷ fs else f ∷ push e fs

-- `peers.get(peer).map_or(0, |peer| peer.nonces.len())`
unfoldable pub peer_live_len : String → NonceCache → ℕ
unfolding lookup
peer_live_len p c = elim (lookup text_discrete p c.peers) [
  | none ↦ 0
  | some peer ↦ length peer.nonces
]

-- `peers.get(peer).and_then(|peer| peer.nonces.get(nonce))`
unfoldable pub expiry_of : String → String → NonceCache → Option ℕ
expiry_of p n c = elim (lookup text_discrete p c.peers) [
  | none ↦ none
  | some peer ↦ lookup text_discrete n peer.nonces
]

abbrev pub is_empty {ℓ} : {A : Type ℓ} → List A → Bool
is_empty [] = true
is_empty (x ∷ xs) = false

-- The removal at the end of the loop's body.
pub remove_nonce : ExpiryEntry → NonceCache → NonceCache
remove_nonce e c = elim (lookup text_discrete e.peer_id c.peers) [
  | none ↦ c
  | some peer ↦
      let rest = remove text_discrete e.nonce peer.nonces in
      let peers = insert text_discrete e.peer_id (record { nonces = rest }) c.peers in
      record c {
        live_total =
            if is_some (lookup text_discrete e.nonce peer.nonces)
            then c.live_total - 1
            else c.live_total;
        peers = if is_empty rest then remove text_discrete e.peer_id peers else peers;
      }
]

-- One round of the loop, after the entry is popped. An entry whose nonce is gone, or was stored with
-- another expiry, is skipped.
pub expire : ExpiryEntry → NonceCache → NonceCache
unfolding remove_nonce expiry_of
expire e c = elim (expiry_of e.peer_id e.nonce c) [
  | none ↦ c
  | some t ↦ if t == e.expires_at then remove_nonce e c else c
]

-- The loop over the heap, which is passed beside the cache; the number of entries popped is counted.
unfoldable pub prune_from : ℕ → List ExpiryEntry → NonceCache → ℕ → NonceCache × ℕ
unfolding expire
prune_from now [] c popped = (record c { expirations = [] }, popped)
prune_from now (e ∷ es) c popped =
    let rest = prune_from now es (expire e c) (popped + 1) in
    if ltb now e.expires_at then (record c { expirations = e ∷ es }, popped) else rest

unfoldable pub prune_expired_at : ℕ → NonceCache → NonceCache × ℕ
unfolding prune_from
prune_expired_at now c = prune_from now c.expirations c 0

-- `peers.entry(peer).or_default().nonces.insert(nonce, expires_at)`
unfoldable pub store : String → String → ℕ → NonceCache → NonceCache
store p n t c = record c {
  peers =
      insert text_discrete p
        (record {
          nonces =
              insert text_discrete n t
                (elim (lookup text_discrete p c.peers) [ none ↦ [] | some peer ↦ peer.nonces ]);
        })
        c.peers;
}

-- The platform's last instant bounds `checked_add`, which falls back to `now`.
unfoldable pub expires_at_of : ℕ → ℕ → ℕ → ℕ
expires_at_of instant_max now ttl = if leb (now + ttl) instant_max then now + ttl else now

-- What `register_at` does once expired nonces are pruned.
unfoldable pub admit : ℕ → ℕ → String → String → ℕ → NonceCache → NonceCache × NonceDecision
unfolding store expires_at_of push peer_live_len expiry_of
admit instant_max now p n ttl c =
    if is_some (expiry_of p n c)
    then (c, replay)
    else if leb c.max_live_per_peer (peer_live_len p c)
    then (c, resource_exhausted per_peer c.max_live_per_peer)
    else if leb c.max_live_global c.live_total
    then (c, resource_exhausted global c.max_live_global)
    else let t = expires_at_of instant_max now ttl in
      let stored = store p n t c in
      (
        record stored {
          live_total = c.live_total + 1;
          expirations = push (record { expires_at = t; peer_id = p; nonce = n }) c.expirations;
        },
        accepted,
      )

unfoldable pub register_at : ℕ → ℕ → String → String → ℕ → NonceCache → NonceCache × NonceDecision
unfolding prune_expired_at admit
register_at instant_max now p n ttl c = admit instant_max now p n ttl (prune_expired_at now c).0
