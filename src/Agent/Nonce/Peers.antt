-- ===== src/Agent/Nonce/Peers.antt =====
-- The two-level map `peers`: what `store` and `expire` do to the nonces of each peer and to their
-- number.
use ocserv_fleet_agent.Common.{
  ℕ, ◌+◌, ◌≡◌, refl, List, [], ◌∷◌, Option, none, some, String, arith, decided, if◌then◌else◌,
  length, text_discrete, Option-cases, inl, inr,
}
use ocserv_fleet_agent.Common.Assoc.{
  lookup, insert, remove, Distinct, lookup-insert, lookup-remove_ne, remove-Distinct, length-insert,
  lookup-remove_self, insert-Distinct, length-remove,
}
use ocserv_fleet_agent.Agent.Nonce.{
  PeerNonceState, ExpiryEntry, NonceCache, expiry_of, peer_live_len, remove_nonce, store, is_empty,
}

abbrev pub stored : Option PeerNonceState → List (String × ℕ)
stored none = []
stored (some peer) = peer.nonces

unfoldable pub nonces_of : String → NonceCache → List (String × ℕ)
nonces_of p c = stored (lookup text_discrete p c.peers)

-- The sum of the lengths of the peers' maps.
unfoldable pub total : List (String × PeerNonceState) → ℕ
total [] = 0
total ((p, s) ∷ m) = length s.nonces + total m

total-insert :
    (p : String) (s : PeerNonceState) (m : List (String × PeerNonceState))
    → total (insert text_discrete p s m) + length (stored (lookup text_discrete p m))
      ≡ length s.nonces + total m
unfolding total insert lookup
total-insert p s [] = omega arith
total-insert p s ((q, r) ∷ m) = ground (arith, total-insert p s m)

total-remove :
    (p : String) (m : List (String × PeerNonceState))
    → total (remove text_discrete p m) + length (stored (lookup text_discrete p m)) ≡ total m
unfolding total remove lookup
total-remove p [] = refl
total-remove p ((q, r) ∷ m) = ground (arith, total-remove p m)

pub expiry_of_lem :
    (p n : String) (c : NonceCache) → expiry_of p n c ≡ lookup text_discrete n (nonces_of p c)
unfolding expiry_of nonces_of lookup
expiry_of_lem p n c = ground arith

pub peer_live_len_lem : (p : String) (c : NonceCache) → peer_live_len p c ≡ length (nonces_of p c)
unfolding peer_live_len nonces_of
peer_live_len_lem p c = ground arith

abbrev pub IsDistinct : List (String × ℕ) → Type 0
IsDistinct = Distinct text_discrete

abbrev peer_with : List (String × ℕ) → PeerNonceState
peer_with ns = record { nonces = ns }

-- `get_mut`, the change, and the removal of a peer that has no nonce left.
abbrev updated :
    String → List (String × ℕ) → List (String × PeerNonceState) → List (String × PeerNonceState)
updated p rest m =
    let peers = insert text_discrete p (peer_with rest) m in
    if is_empty rest then remove text_discrete p peers else peers

stored-updated :
    (p q : String) (rest : List (String × ℕ)) (m : List (String × PeerNonceState))
    → Distinct text_discrete m
    → stored (lookup text_discrete q (updated p rest m))
      ≡ (if decided (text_discrete p q) then rest else stored (lookup text_discrete q m))
stored-updated p q [] m d = ground (
  arith,
  lookup-insert text_discrete p q (peer_with []) m,
  lookup-remove_ne text_discrete p q (insert text_discrete p (peer_with []) m),
  lookup-remove_self text_discrete p (insert text_discrete p (peer_with []) m)
      (insert-Distinct text_discrete p (peer_with []) m d),
)
stored-updated p q (x ∷ xs) m d = rw (lookup-insert text_discrete p q) (ground arith)

total-updated :
    (p : String) (rest : List (String × ℕ)) (m : List (String × PeerNonceState))
    → total (updated p rest m) + length (stored (lookup text_discrete p m)) ≡ length rest + total m
total-updated p [] m = ground (
  arith,
  total-insert p (peer_with []) m,
  total-remove p (insert text_discrete p (peer_with []) m),
  lookup-insert text_discrete p p (peer_with []) m,
)
total-updated p (x ∷ xs) m = total-insert p (peer_with (x ∷ xs)) m

updated-Distinct :
    (p : String) (rest : List (String × ℕ)) (m : List (String × PeerNonceState))
    → Distinct text_discrete m
    → Distinct text_discrete (updated p rest m)
updated-Distinct p [] m d =
    remove-Distinct text_discrete p _ (insert-Distinct text_discrete p (peer_with []) m d)
updated-Distinct p (x ∷ xs) m d = insert-Distinct text_discrete p (peer_with (x ∷ xs)) m d

-- What the round of the loop for a matching entry leaves.
pub nonces_of-remove_nonce :
    (e : ExpiryEntry) (q : String) (c : NonceCache)
    → Distinct text_discrete c.peers
    → nonces_of q (remove_nonce e c) ≡ (
        if decided (text_discrete e.peer_id q)
        then remove text_discrete e.nonce (nonces_of e.peer_id c)
        else nonces_of q c)
unfolding nonces_of remove_nonce remove
nonces_of-remove_nonce e q c d = elim (Option-cases (lookup text_discrete e.peer_id c.peers)) [
  | inl h ↦ rw (h, remove_nonce) (ground arith)
  | inr (s, h) ↦
      rw (h, remove_nonce)
        (stored-updated e.peer_id q (remove text_discrete e.nonce s.nonces) c.peers d)
]

pub total-remove_nonce :
    (e : ExpiryEntry) (c : NonceCache)
    → c.live_total ≡ total c.peers
    → (remove_nonce e c).live_total ≡ total (remove_nonce e c).peers
unfolding remove_nonce nonces_of
total-remove_nonce e c h = elim (Option-cases (lookup text_discrete e.peer_id c.peers)) [
  | inl g ↦ rw (g, remove_nonce) h
  | inr (s, g) ↦
      rw (g, remove_nonce)
        (ground (
          arith,
          total-updated e.peer_id (remove text_discrete e.nonce s.nonces) c.peers,
          length-remove text_discrete e.nonce s.nonces,
        ))
]

pub remove_nonce-Distinct :
    (e : ExpiryEntry) (c : NonceCache)
    → Distinct text_discrete c.peers
    → Distinct text_discrete (remove_nonce e c).peers
unfolding remove_nonce
remove_nonce-Distinct e c d = elim (Option-cases (lookup text_discrete e.peer_id c.peers)) [
  | inl h ↦ rw (h, remove_nonce) d
  | inr (s, h) ↦
      rw (h, remove_nonce)
        (updated-Distinct e.peer_id (remove text_discrete e.nonce s.nonces) c.peers d)
]

pub nonces_of-store :
    (p n : String) (t : ℕ) (q : String) (c : NonceCache)
    → nonces_of q (store p n t c) ≡ (
        if decided (text_discrete p q)
        then insert text_discrete n t (nonces_of p c)
        else nonces_of q c)
unfolding nonces_of store
nonces_of-store p n t q c = rw (lookup-insert text_discrete p q) (ground arith)

pub total-store :
    (p n : String) (t : ℕ) (c : NonceCache)
    → expiry_of p n c ≡ none
    → total (store p n t c).peers ≡ total c.peers + 1
unfolding store nonces_of
total-store p n t c h = ground (
  arith,
  expiry_of_lem p n c,
  total-insert p (peer_with (insert text_discrete n t (nonces_of p c))) c.peers,
  length-insert text_discrete n t (nonces_of p c),
)

pub store-Distinct :
    (p n : String) (t : ℕ) (c : NonceCache)
    → Distinct text_discrete c.peers
    → Distinct text_discrete (store p n t c).peers
unfolding store
store-Distinct p n t c d = insert-Distinct text_discrete p _ c.peers d

pub limits-store :
    (p n : String) (t : ℕ) (c : NonceCache)
    → ((store p n t c).max_live_global ≡ c.max_live_global)
      × ((store p n t c).max_live_per_peer ≡ c.max_live_per_peer)
unfolding store
limits-store p n t c = (refl, refl)
