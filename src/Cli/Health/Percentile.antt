-- ===== src/Cli/Health/Percentile.antt =====
-- `percentile` of health.rs on the sorted durations.
use native.Mathlib.Nat.{mul-le-mul_right}
use ocserv_fleet_agent.Common.Words.{checked, u64_max}
use ocserv_fleet_agent.Cli.Health.Rollup.{insert_number, sort_numbers, get_elem?, percentile}
use ocserv_fleet_agent.Common.{
  ℕ, List, ◌∷◌, ◌≤◌, arith, ◌<◌, All, ◌≡◌, Bool-cases, length, if◌then◌else◌, some, [], leb, suc,
  ltb, ◌*◌, refl, inl, ◌+◌, zero, leb→le, inr, ◌/◌, ◌-◌,
}

abbrev pub Ascending : List ℕ → Type 0
Ascending [] = Unit
Ascending (x ∷ xs) = All (λ y. x ≤ y) xs × Ascending xs

All-weaken : (x y : ℕ) (xs : List ℕ) → x ≤ y → All (λ z. y ≤ z) xs → All (λ z. x ≤ z) xs
All-weaken x y [] h a = tt
All-weaken x y (z ∷ zs) h a = (omega (arith, a.0), All-weaken x y zs h a.1)

insert_number-All :
    (n x : ℕ) (xs : List ℕ) → n ≤ x → All (λ y. n ≤ y) xs → All (λ y. n ≤ y) (insert_number x xs)
unfolding insert_number
insert_number-All n x [] h a = ground arith
insert_number-All n x (y ∷ ys) h a = ground (arith, insert_number-All n x ys h a.1)

insert_number-Ascending : (x : ℕ) (xs : List ℕ) → Ascending xs → Ascending (insert_number x xs)
unfolding insert_number
insert_number-Ascending x [] a = ground arith
insert_number-Ascending x (y ∷ ys) a = elim (Bool-cases (leb x y)) [
  | inl e ↦ ground (arith, e, All-weaken x y ys (leb→le x y e) a.0)
  | inr e ↦
      ground (
        arith,
        e,
        insert_number-Ascending x ys a.1,
        insert_number-All y x ys (ground (arith, e)) a.0,
      )
]

pub sort_numbers-Ascending : (xs : List ℕ) → Ascending (sort_numbers xs)
unfolding sort_numbers
sort_numbers-Ascending [] = tt
sort_numbers-Ascending (x ∷ xs) =
    insert_number-Ascending x (sort_numbers xs) (sort_numbers-Ascending xs)

pub get_elem?-some : (xs : List ℕ) (i : ℕ) → i < length xs → (x : ℕ) × (get_elem? xs i ≡ some x)
unfolding get_elem?
get_elem?-some [] i h = ground arith
get_elem?-some (x ∷ xs) zero h = (x, refl)
get_elem?-some (x ∷ xs) (suc i) h = get_elem?-some xs i (omega arith)

-- How many are at most `d`, and how many are below it.
unfoldable pub at_most : ℕ → List ℕ → ℕ
at_most d [] = 0
at_most d (x ∷ xs) = let n = at_most d xs in if leb x d then suc n else n

unfoldable pub below : ℕ → List ℕ → ℕ
below d [] = 0
below d (x ∷ xs) = let n = below d xs in if ltb x d then suc n else n

get_elem?_ge : (x d i : ℕ) (xs : List ℕ) → All (λ y. x ≤ y) xs → get_elem? xs i ≡ some d → x ≤ d
unfolding get_elem?
get_elem?_ge x d i [] a h = ground arith
get_elem?_ge x d zero (y ∷ ys) a h = ground arith
get_elem?_ge x d (suc i) (y ∷ ys) a h = get_elem?_ge x d i ys a.1 h

below_none : (d : ℕ) (xs : List ℕ) → All (λ y. d ≤ y) xs → below d xs ≡ 0
unfolding below
below_none d [] a = refl
below_none d (x ∷ xs) a = ground (arith, below_none d xs a.1)

get_elem?_rank :
    (xs : List ℕ) (i d : ℕ)
    → Ascending xs
    → get_elem? xs i ≡ some d
    → (i < at_most d xs) × (below d xs ≤ i)
unfolding get_elem? at_most below
get_elem?_rank [] i d a h = ground arith
get_elem?_rank (x ∷ xs) zero d a h = ground (arith, below_none x xs a.0)
get_elem?_rank (x ∷ xs) (suc i) d a h =
    ground (arith, get_elem?_rank xs i d a.1 h, get_elem?_ge x d i xs a.0 h)

pub get_elem?_mono :
    (xs : List ℕ) (i j x y : ℕ)
    → Ascending xs
    → i ≤ j
    → get_elem? xs i ≡ some x
    → get_elem? xs j ≡ some y
    → x ≤ y
unfolding get_elem?
get_elem?_mono [] i j x y a k g h = ground arith
get_elem?_mono (z ∷ zs) zero zero x y a k g h = ground arith
get_elem?_mono (z ∷ zs) zero (suc j) x y a k g h = ground (arith, get_elem?_ge z y j zs a.0 h)
get_elem?_mono (z ∷ zs) (suc i) zero x y a k g h = ground arith
get_elem?_mono (z ∷ zs) (suc i) (suc j) x y a k g h =
    get_elem?_mono zs i j x y a.1 (omega arith) g h

-- Where no product overflows, the element at the rank, counted from 0.
pub percentile_rank :
    (xs : List ℕ) (p : ℕ)
    → 0 < length xs
    → p * length xs + 99 ≤ u64_max
    → percentile xs p ≡ get_elem? xs ((p * length xs + 99) / 100 - 1)
unfolding percentile checked
percentile_rank xs p h k = ground arith

insert_number_counts :
    (d x : ℕ) (xs : List ℕ)
    → (at_most d (insert_number x xs) ≡ at_most d (x ∷ xs))
      × (below d (insert_number x xs) ≡ below d (x ∷ xs))
      × (length (insert_number x xs) ≡ suc (length xs))
unfolding insert_number at_most below
insert_number_counts d x [] = ground arith
insert_number_counts d x (y ∷ ys) = ground (arith, insert_number_counts d x ys)

pub sort_numbers_counts :
    (d : ℕ) (xs : List ℕ)
    → (at_most d (sort_numbers xs) ≡ at_most d xs)
      × (below d (sort_numbers xs) ≡ below d xs)
      × (length (sort_numbers xs) ≡ length xs)
unfolding sort_numbers at_most below
sort_numbers_counts d [] = ground arith
sort_numbers_counts d (x ∷ xs) =
    ground (arith, sort_numbers_counts d xs, insert_number_counts d x (sort_numbers xs))

scaled_le : (p n : ℕ) → p ≤ 100 → p * n ≤ 100 * n
scaled_le p n h = mul-le-mul_right n h

scaled_ge : (p n : ℕ) → 0 < p → 1 * n ≤ p * n
scaled_ge p n h = mul-le-mul_right n h

-- A percentile of the sorted list of at most 100000 durations, and of at least one, is the nearest
-- rank: at least `p` in a hundred of the durations are at most it, and fewer than that are below it.
pub percentile-sort_numbers :
    (xs : List ℕ) (p : ℕ)
    → 0 < length xs
    → length xs ≤ 100000
    → 0 < p
    → p ≤ 100
    → (d : ℕ) × (percentile (sort_numbers xs) p ≡ some d)
      × (p * length xs ≤ 100 * at_most d xs)
      × (100 * below d xs < p * length xs)
percentile-sort_numbers xs p h k l m =
    let n = length xs in
    let size = (sort_numbers_counts 0 xs).2 in
    let hi = scaled_le p n m in
    let lo = scaled_ge p n l in
    let rank = (p * n + 99) / 100 - 1 in
    let (d, e) = get_elem?-some (sort_numbers xs) rank (omega (arith, size, hi, lo)) in
    let r = get_elem?_rank (sort_numbers xs) rank d (sort_numbers-Ascending xs) e in
    let c = sort_numbers_counts d xs in
    let s = percentile_rank (sort_numbers xs) p in
    (d, ground (arith, s, e, size, hi), omega (arith, r, c.0, lo), omega (arith, r, c.1, lo))
