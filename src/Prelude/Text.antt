-- ===== src/Prelude/Text.antt =====
-- Go's `string`: a sequence of bytes. Equality is decided, and is an instance of `Eq`.
use Prim.Native.Char.{code}
use Prim.Native.Nat.{ℕ}
use Prim.Native.String.{String}
use mathlib.Core.Path.{◌≡◌, refl, ap₂}
use mathlib.Core.Logic.{ite, dite}
use mathlib.Core.Bool.{Bool, true, false}
use mathlib.Core.List.{List, [], ◌∷◌}
unfoldable use native.Mathlib.Decide.{ℕ_discrete}

abbrev pub Text : Type 0
Text = List ℕ

-- A literal of the source, by its bytes.
abbrev pub text : String → Text
text String.[] = []
text (String.◌∷◌ c s) = code c ∷ text s

pub record Eq {ℓ} (A : Type ℓ) : Type ℓ where
  pub dec : Discrete A

-- Go's `==`. A split on the decision yields the equation or its negation.
infix 50 ◌==◌
abbrev pub ◌==◌ {ℓ} : {A : Type ℓ} ⦃e : Eq A⦄ → A → A → Bool
◌==◌ ⦃e⦄ a b = ite (e.dec a b) true false

cons_dec : (x y : ℕ) (xs ys : Text) → Dec (xs ≡ ys) → Dec (x ∷ xs ≡ y ∷ ys)
unfolding ℕ_discrete
cons_dec x y xs ys rest =
    dite (ℕ_discrete x y) (λ p. dite rest (λ q. yes (ap₂ ◌∷◌ p q)) (λ n. no (λ e. n (cc))))
      (λ n. no (λ e. n (cc)))

text_dec : Discrete Text
unfolding cons_dec
text_dec [] [] = yes refl
text_dec [] (y ∷ ys) = no (λ e. cc)
text_dec (x ∷ xs) [] = no (λ e. cc)
text_dec (x ∷ xs) (y ∷ ys) = cons_dec x y xs ys (text_dec xs ys)

instance unfoldable pub text_eq : Eq Text
unfolding text_dec
text_eq = record { dec = text_dec }

same_text : (text "ab" == text "ab") ≡ true
unfolding text_eq
same_text = refl

other_text : (text "ab" == text "ac") ≡ false
unfolding text_eq
other_text = refl
