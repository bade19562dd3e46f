-- ===== src/Common/Texts.antt =====
-- Rust's `String` and `&str`: equality is decided, and the order is that of the bytes, which is the
-- order of the code points.
use Prim.Native.Nat.{ℕ}
use Prim.Native.Char.{code}
use Prim.Native.String.{String}
use mathlib.Core.Path.{◌≡◌, refl, sym, ◌∙◌}
use mathlib.Core.Bool.{Bool, true, false, false≢true}
use mathlib.Core.List.{List, [], ◌∷◌}
use text.Mathlib.Text.{◌==◌ as str_eq}
use text.Mathlib.TextEquality.{eq_iff}
use ocserv_fleet_agent.Common.Tests.{ltb, if◌then◌else◌}

decide_eq : (s t : String) (b : Bool) → str_eq s t ≡ b → Dec (s ≡ t)
decide_eq s t true e = yes ((eq_iff s t).0 e)
decide_eq s t false e = no (λ p. false≢true (sym e ∙ (eq_iff s t).1 p))

unfoldable pub text_discrete : Discrete String
unfolding decide_eq
text_discrete s t = decide_eq s t (str_eq s t) refl

abbrev pub codes : String → List ℕ
codes String.[] = []
codes (String.◌∷◌ first rest) = code first ∷ codes rest

-- Lexicographic: is the first strictly before the second?
unfoldable pub before : List ℕ → List ℕ → Bool
before xs [] = false
before [] (y ∷ ys) = true
before (x ∷ xs) (y ∷ ys) =
    let rest = before xs ys in if ltb x y then true else if ltb y x then false else rest
