-- ===== src/Common/Options.antt =====
-- `Option` with its bind, so that the `?` operator in a function that returns an option is a `do` block.
use mathlib.Core.Path.{◌≡◌, refl}
use mathlib.Core.Bool.{Bool, true, false}
use mathlib.Core.Option.{Option, none, some}

-- `if test { return None }`
abbrev pub reject : Bool → Option (Unit {0})
reject true = none
reject false = some tt

infixl 5 ◌>>=◌
abbrev pub ◌>>=◌ {ℓ κ} : {A : Type ℓ} {B : Type κ} → Option A → (A → Option B) → Option B
some value >>= next = next value
none >>= next = none

-- A test, then the rest.
infixl 5 ◌>>◌
abbrev pub ◌>>◌ {ℓ} : {B : Type ℓ} → Option (Unit {0}) → Option B → Option B
test >> next = test >>= λ _. next

pub >>=-eq-some {ℓ κ} :
    {A : Type ℓ} {B : Type κ} (call : Option A) (next : A → Option B) {reply : B}
    → (call >>= next) ≡ some reply
    → (value : A) × (call ≡ some value) × (next value ≡ some reply)
>>=-eq-some (some value) next done = (value, refl, done)
>>=-eq-some none next done = cc

pub some_inj {ℓ} : {A : Type ℓ} {a b : A} → some a ≡ some b → a ≡ b
some_inj h = cc
