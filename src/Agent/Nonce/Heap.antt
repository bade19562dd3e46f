-- ===== src/Agent/Nonce/Heap.antt =====
-- The priority queue of the replay cache.
use ocserv_fleet_agent.Common.{ℕ, ◌≤◌, ◌≡◌, ◌⊎◌, inl, inr, List, [], ◌∷◌, arith}
use ocserv_fleet_agent.Agent.Nonce.{ExpiryEntry, push}

-- In ascending order, from a bound on.
abbrev pub From : ℕ → List ExpiryEntry → Type 0
From n [] = Unit
From n (e ∷ es) = (n ≤ e.expires_at) × From e.expires_at es

abbrev pub Has : ExpiryEntry → List ExpiryEntry → Type 0
Has e [] = ⊥
Has e (f ∷ fs) = (f ≡ e) ⊎ Has e fs

pub From-weaken : (m n : ℕ) (es : List ExpiryEntry) → m ≤ n → From n es → From m es
From-weaken m n [] h s = tt
From-weaken m n (e ∷ es) h s = (omega arith, s.1)

pub push-From :
    (n : ℕ) (e : ExpiryEntry) (es : List ExpiryEntry)
    → n ≤ e.expires_at
    → From n es
    → From n (push e es)
unfolding push
push-From n e [] h s = (h, tt)
push-From n e (f ∷ fs) h s =
    ground (arith, push-From f.expires_at e fs, From-weaken e.expires_at f.expires_at fs)

pub push-Has_self : (e f : ExpiryEntry) (es : List ExpiryEntry) → e ≡ f → Has f (push e es)
unfolding push
push-Has_self e f [] p = inl p
push-Has_self e f (g ∷ gs) p = ground (arith, push-Has_self e f gs p)

pub push-Has : (e f : ExpiryEntry) (es : List ExpiryEntry) → Has f es → Has f (push e es)
unfolding push
push-Has e f [] h = elim h [ ]
push-Has e f (g ∷ gs) (inl p) = ground arith
push-Has e f (g ∷ gs) (inr q) = ground (arith, push-Has e f gs q)

pub From-Has :
    (n : ℕ) (e : ExpiryEntry) (es : List ExpiryEntry) → From n es → Has e es → n ≤ e.expires_at
From-Has n e [] s h = elim h [ ]
From-Has n e (f ∷ fs) s (inl p) = ground arith
From-Has n e (f ∷ fs) s (inr q) = omega (arith, From-Has f.expires_at e fs s.1 q)
