-- ===== src/Prelude/Integer/Laws.antt =====
-- What `ParseInt` accepts, and what `%d` prints.
use Prim.Native.Nat.{ℕ, zero, suc, ◌+◌, ◌-◌, ◌*◌, ◌/◌, ◌%◌, ◌^◌, ◌≤◌, ◌<◌}
use mathlib.Core.Path.{◌≡◌, refl, ap}
use mathlib.Core.Logic.{◌≢◌, inl, inr, ◌↔◌}
use mathlib.Core.List.{[], ◌∷◌, ◌++◌}
use native.Mathlib.Omega.{arith}
use ukfaas.Prelude.Text.{Text, text}
use ukfaas.Prelude.Lists.{All, choose, Bool-cases, eqb}
use ukfaas.Prelude.Exec.{Outcome, ok, err, panic, blocked, wrap}
use ukfaas.Prelude.Integer.{
  ℤ, pos, neg, i64_limit, scan, parse_uint, positive, negative, parse_signed, parse_int, digits,
  decimal,
}

abbrev pub IsDigit : ℕ → Type 0
IsDigit c = (b'0' ≤ c) × (c ≤ b'9')

-- The number that digits stand for behind `n`, with no bound.
abbrev pub value : ℕ → Text → ℕ
value n [] = n
value n (c ∷ s) = value (n * 10 + (c - b'0')) s

-- One or more digits that stand for `n`.
abbrev pub Numeral : Text → ℕ → Type 0
Numeral s n = (s ≢ []) × All IsDigit s × (value 0 s ≡ n)

-- The texts of the numbers of an `int64`, in base 10.
pub data Denotes (s : Text) (z : ℤ) : Type 0 where
  plain : (n : ℕ) → Numeral s n → n < i64_limit → z ≡ pos n → Denotes s z
  plus : (t : Text) (n : ℕ) → s ≡ b'+' ∷ t → Numeral t n → n < i64_limit → z ≡ pos n → Denotes s z
  minus : (t : Text) (n : ℕ) → s ≡ b'-' ∷ t → Numeral t n → n ≤ i64_limit → z ≡ neg n → Denotes s z

scan-ok :
    (s : Text) (n r : ℕ)
    → n < 2 ^ 64
    → scan s n ≡ ok r
    → All IsDigit s × (value n s ≡ r) × (r < 2 ^ 64)
unfolding scan
scan-ok [] n r fits e = ground arith
scan-ok (c ∷ s) n r fits e = ground (arith, scan-ok s (n * 10 + (c - b'0')) r)

le-value : (s : Text) (n : ℕ) → n ≤ value n s
le-value [] n = omega arith
le-value (c ∷ s) n = omega (arith, le-value s (n * 10 + (c - b'0')))

scan-value : (s : Text) (n : ℕ) → All IsDigit s → value n s < 2 ^ 64 → scan s n ≡ ok (value n s)
unfolding scan
scan-value [] n all fits = refl
scan-value (c ∷ s) n all fits =
    ground (arith, scan-value s (n * 10 + (c - b'0')) all.1, le-value s (n * 10 + (c - b'0')))

value-digits : (fuel n : ℕ) (out : Text) → n < fuel → value 0 (digits fuel n out) ≡ value n out
unfolding digits
value-digits zero n out h = absurd (omega arith)
value-digits (suc fuel) n out h = ground (arith, value-digits fuel (n / 10) ((b'0' + n % 10) ∷ out))

digits-IsDigit : (fuel n : ℕ) (out : Text) → All IsDigit out → All IsDigit (digits fuel n out)
unfolding digits
digits-IsDigit zero n out h = h
digits-IsDigit (suc fuel) n out h =
    ground (arith, digits-IsDigit fuel (n / 10) ((b'0' + n % 10) ∷ out))

digits_kept : (fuel n : ℕ) (out : Text) → out ≢ [] → digits fuel n out ≢ []
unfolding digits
digits_kept zero n out h = h
digits_kept (suc fuel) n out h = ground (arith, digits_kept fuel (n / 10) ((b'0' + n % 10) ∷ out))

digits-ne-nil : (fuel n : ℕ) (out : Text) → digits (suc fuel) n out ≢ []
unfolding digits
digits-ne-nil fuel n out = ground (arith, digits_kept fuel (n / 10) ((b'0' + n % 10) ∷ out))

-- What the digits before any sign stand for.
parse_uint-Numeral : (s : Text) (n : ℕ) → parse_uint s ≡ ok n → Numeral s n
unfolding parse_uint
parse_uint-Numeral [] n e = cc
parse_uint-Numeral (c ∷ s) n e =
    let (all, exact, fits) = scan-ok (c ∷ s) 0 n (omega arith) e in ((λ f. cc), all, exact)

Numeral-parse_uint : (s : Text) (n : ℕ) → Numeral s n → n < 2 ^ 64 → parse_uint s ≡ ok n
unfolding parse_uint
Numeral-parse_uint [] n h fits = absurd (h.0 refl)
Numeral-parse_uint (c ∷ s) n h fits = ground (arith, scan-value (c ∷ s) 0 h.1)

positive-ok :
    (r : Outcome ℕ) (z : ℤ)
    → positive r ≡ ok z
    → (n : ℕ) × (r ≡ ok n) × (n < i64_limit) × (z ≡ pos n)
unfolding positive
positive-ok (ok n) z e = (n, refl, ground arith, ground arith)
positive-ok (err x) z e = cc
positive-ok panic z e = cc
positive-ok blocked z e = cc

negative-ok :
    (r : Outcome ℕ) (z : ℤ)
    → negative r ≡ ok z
    → (n : ℕ) × (r ≡ ok n) × (n ≤ i64_limit) × (z ≡ neg n)
unfolding negative
negative-ok (ok n) z e = (n, refl, ground arith, ground arith)
negative-ok (err x) z e = cc
negative-ok panic z e = cc
negative-ok blocked z e = cc

ok-positive : (n : ℕ) → n < i64_limit → positive (ok n) ≡ ok (pos n)
unfolding positive
ok-positive n h = ground arith

ok-negative : (n : ℕ) → n ≤ i64_limit → negative (ok n) ≡ ok (neg n)
unfolding negative
ok-negative n h = ground arith

parse_signed-Denotes : (s : Text) (z : ℤ) → parse_signed s ≡ ok z → Denotes s z
unfolding parse_signed
parse_signed-Denotes [] z e = cc
parse_signed-Denotes (c ∷ s) z e = elim (Bool-cases (eqb c b'-')) [
  | inl dash ↦
      let (n, read, fits, is) = negative-ok (parse_uint s) z (rw dash at e) in
      minus s n (ap (λ d. d ∷ s) (ground arith)) (parse_uint-Numeral s n read) fits is
  | inr other ↦ elim (Bool-cases (eqb c b'+')) [
    | inl cross ↦
        let (n, read, fits, is) = positive-ok (parse_uint s) z (rw (other, cross) at e) in
        plus s n (ap (λ d. d ∷ s) (ground arith)) (parse_uint-Numeral s n read) fits is
    | inr digit ↦
        let (n, read, fits, is) = positive-ok (parse_uint (c ∷ s)) z (rw (other, digit) at e) in
        plain n (parse_uint-Numeral (c ∷ s) n read) fits is
  ]
]

Denotes-parse_signed : (s : Text) (z : ℤ) → Denotes s z → parse_signed s ≡ ok z
unfolding parse_signed
Denotes-parse_signed [] z (plain n h fits is) = absurd (h.0 refl)
Denotes-parse_signed (c ∷ s) z (plain n h fits is) =
    ground (arith, Numeral-parse_uint (c ∷ s) n h (omega arith), ok-positive n fits)
Denotes-parse_signed s z (plus t n e h fits is) =
    rw (e, Numeral-parse_uint t n h (omega arith), ok-positive n fits, is)
Denotes-parse_signed s z (minus t n e h fits is) =
    rw (e, Numeral-parse_uint t n h (omega arith), ok-negative n fits, is)

wrap-ok {ℓ} : {A : Type ℓ} (note : Text) (r : Outcome A) (a : A) → wrap note r ≡ ok a → r ≡ ok a
wrap-ok note (ok b) a e = e
wrap-ok note (err x) a e = cc
wrap-ok note panic a e = cc
wrap-ok note blocked a e = cc

-- `ParseInt` accepts the texts of an `int64`, with the number that they stand for, and no other.
pub parse_int_lem :
    (quote : Text → Text) (s : Text) (z : ℤ) → (parse_int quote s ≡ ok z) ↔ Denotes s z
unfolding parse_int
parse_int_lem quote s z = (
  λ e.
      parse_signed-Denotes s z (
        wrap-ok (text "strconv.ParseInt: parsing " ++ (quote s ++ text ": ")) (parse_signed s) z e),
  λ d. rw (Denotes-parse_signed s z d),
)

-- A value with a nil error, or an error: `ParseInt` neither panics nor waits.
abbrev pub Returns {ℓ} : {A : Type ℓ} → Outcome A → Type 0
Returns (ok a) = Unit
Returns (err e) = Unit
Returns panic = ⊥
Returns blocked = ⊥

scan-Returns : (s : Text) (n : ℕ) → Returns (scan s n)
unfolding scan
scan-Returns [] n = tt
scan-Returns (c ∷ s) n = ground (arith, scan-Returns s ((n * 10 + (c - b'0')) % 2 ^ 64))

parse_uint-Returns : (s : Text) → Returns (parse_uint s)
unfolding parse_uint
parse_uint-Returns [] = tt
parse_uint-Returns (c ∷ s) = scan-Returns (c ∷ s) 0

positive-Returns : (r : Outcome ℕ) → Returns r → Returns (positive r)
unfolding positive
positive-Returns (ok n) h = ground arith
positive-Returns (err e) h = tt
positive-Returns panic h = h
positive-Returns blocked h = h

negative-Returns : (r : Outcome ℕ) → Returns r → Returns (negative r)
unfolding negative
negative-Returns (ok n) h = ground arith
negative-Returns (err e) h = tt
negative-Returns panic h = h
negative-Returns blocked h = h

wrap-Returns {ℓ} : {A : Type ℓ} (note : Text) (r : Outcome A) → Returns r → Returns (wrap note r)
wrap-Returns note (ok a) h = tt
wrap-Returns note (err e) h = tt
wrap-Returns note panic h = h
wrap-Returns note blocked h = h

parse_signed-Returns : (s : Text) → Returns (parse_signed s)
unfolding parse_signed
parse_signed-Returns [] = tt
parse_signed-Returns (c ∷ s) =
    choose Returns (eqb c b'-') (negative-Returns (parse_uint s) (parse_uint-Returns s)) (
      choose Returns (eqb c b'+') (positive-Returns (parse_uint s) (parse_uint-Returns s))
        (positive-Returns (parse_uint (c ∷ s)) (parse_uint-Returns (c ∷ s))))

pub parse_int-Returns : (quote : Text → Text) (s : Text) → Returns (parse_int quote s)
unfolding parse_int
parse_int-Returns quote s =
    wrap-Returns (text "strconv.ParseInt: parsing " ++ (quote s ++ text ": ")) (parse_signed s)
      (parse_signed-Returns s)

-- The print of a number stands for it.
pub decimal-Numeral : (n : ℕ) → Numeral (decimal n) n
unfolding decimal
decimal-Numeral n =
    (digits-ne-nil n n [], digits-IsDigit (suc n) n [] tt, value-digits (suc n) n [] (omega arith))
