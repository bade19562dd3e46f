-- ===== src/Common/Results.antt =====
-- `Result<T, E>` with its bind, so that the `?` operator is a `do` block.
use mathlib.Core.Logic.{◌⊎◌, inl, inr}
use mathlib.Core.Path.{◌≡◌, refl}
use mathlib.Core.Bool.{Bool, true, false}
use mathlib.Core.Option.{Option, none, some}

pub data Result {ℓ κ} (E : Type ℓ) (A : Type κ) : Type (ℓ ⊔ κ) where
  err : (error : E) → Result E A
  ok : (value : A) → Result E A

-- `if test { return Err(e) }` is `reject test e`.
abbrev pub reject {ℓ} : {E : Type ℓ} → Bool → E → Result E (Unit {0})
reject true e = err e
reject false e = ok tt

infixl 5 ◌>>=◌
abbrev pub ◌>>=◌ {ℓ κ μ} :
    {E : Type ℓ} {A : Type κ} {B : Type μ} → Result E A → (A → Result E B) → Result E B
err error >>= next = err error
ok value >>= next = next value

-- `option.ok_or(e)?`
abbrev pub ok_or {ℓ κ} : {E : Type ℓ} {A : Type κ} → Option A → E → Result E A
ok_or none e = err e
ok_or (some a) e = ok a

-- A call for its error alone.
infixl 5 ◌>>◌
abbrev pub ◌>>◌ {ℓ κ} : {E : Type ℓ} {B : Type κ} → Result E (Unit {0}) → Result E B → Result E B
call >> next = call >>= λ _. next

-- Inversion of a successful bind, for proofs where the parts stay shut.
pub >>=-eq-ok {ℓ κ μ} :
    {E : Type ℓ} {A : Type κ} {B : Type μ} (call : Result E A) (next : A → Result E B) {reply : B}
    → (call >>= next) ≡ ok reply
    → (value : A) × (call ≡ ok value) × (next value ≡ ok reply)
>>=-eq-ok (err error) next done = cc
>>=-eq-ok (ok value) next done = (value, refl, done)

pub Result-cases {ℓ κ} :
    {E : Type ℓ} {A : Type κ} (r : Result E A) → ((e : E) × (r ≡ err e)) ⊎ ((a : A) × (r ≡ ok a))
Result-cases (err e) = inl (e, refl)
Result-cases (ok a) = inr (a, refl)

-- A test that was passed.
pub after_reject {ℓ κ} :
    {E : Type ℓ} {B : Type κ} {b : B} (test : Bool) (e : E) (m : Result E B)
    → (reject test e >> m) ≡ ok b
    → (test ≡ false) × (m ≡ ok b)
after_reject true e m h = cc
after_reject false e m h = (refl, h)
