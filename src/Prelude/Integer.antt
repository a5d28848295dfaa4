-- ===== src/Prelude/Integer.antt =====
-- Go's `int64` as an integer with its wrap-around, `strconv.ParseInt` in base 10, and the `%d` of
-- fmt on a natural number.
pub mod Laws
use Prim.Native.Nat.{ℕ, zero, suc, ◌+◌, ◌-◌, ◌*◌, ◌/◌, ◌%◌, ◌^◌}
use mathlib.Core.Bool.{Bool, true, false, ◌||◌}
use mathlib.Core.List.{List, [], ◌∷◌, ◌++◌}
use ukfaas.Prelude.Text.{Text, text}
use ukfaas.Prelude.Lists.{ltb, leb, eqb, if◌then◌else◌}
use ukfaas.Prelude.Exec.{Outcome, ok, err, panic, blocked, wrap}

-- `negsuc n` is -(n + 1).
pub data ℤ : Type 0 where
  pos : ℕ → ℤ
  negsuc : ℕ → ℤ

abbrev pub neg : ℕ → ℤ
neg zero = pos 0
neg (suc n) = negsuc n

-- `a < b`
abbrev pub ltz : ℤ → ℤ → Bool
ltz (pos a) (pos b) = ltb a b
ltz (pos a) (negsuc b) = false
ltz (negsuc a) (pos b) = true
ltz (negsuc a) (negsuc b) = ltb b a

-- `a - n`
abbrev pub minus : ℤ → ℕ → ℤ
minus (pos a) n = if leb n a then pos (a - n) else negsuc (n - a - 1)
minus (negsuc a) n = negsuc (a + n)

abbrev pub scaled : ℕ → ℤ → ℤ
scaled k (pos a) = pos (a * k)
scaled k (negsuc a) = neg ((a + 1) * k)

abbrev pub i64_limit : ℕ
i64_limit = 2 ^ 63

-- The value of a 64-bit result in two's complement, whose low digits are `r`.
abbrev pub signed : ℕ → ℤ
signed r = if ltb r i64_limit then pos r else negsuc (2 ^ 64 - 1 - r)

abbrev pub as_i64 : ℤ → ℤ
as_i64 (pos a) = signed (a % 2 ^ 64)
as_i64 (negsuc a) = signed (2 ^ 64 - 1 - a % 2 ^ 64)

-- `ParseUint` behind the digits read so far, which stand for `n`: its test of the next product,
-- and the sum, which may wrap.
unfoldable pub scan : Text → ℕ → Outcome ℕ
scan [] n = ok n
scan (c ∷ s) n =
    let n1 = (n * 10 + (c - b'0')) % 2 ^ 64 in
    let rest = scan s n1 in
    if ltb c b'0' || ltb b'9' c
    then err (text "invalid syntax")
    else if leb ((2 ^ 64 - 1) / 10 + 1) n || ltb n1 (n * 10)
    then err (text "value out of range")
    else rest

unfoldable pub parse_uint : Text → Outcome ℕ
parse_uint [] = err (text "invalid syntax")
parse_uint (c ∷ s) = scan (c ∷ s) 0

unfoldable pub positive : Outcome ℕ → Outcome ℤ
positive (ok n) = if leb i64_limit n then err (text "value out of range") else ok (pos n)
positive (err e) = err e
positive panic = panic
positive blocked = blocked

unfoldable pub negative : Outcome ℕ → Outcome ℤ
negative (ok n) = if ltb i64_limit n then err (text "value out of range") else ok (neg n)
negative (err e) = err e
negative panic = panic
negative blocked = blocked

unfoldable pub parse_signed : Text → Outcome ℤ
unfolding parse_uint positive negative scan
parse_signed [] = err (text "invalid syntax")
parse_signed (c ∷ s) =
    if eqb c b'-'
    then negative (parse_uint s)
    else if eqb c b'+'
    then positive (parse_uint s)
    else positive (parse_uint (c ∷ s))

-- `strconv.ParseInt(s, 10, 64)`, with `strconv.Quote` as a parameter.
unfoldable pub parse_int : (Text → Text) → Text → Outcome ℤ
unfolding parse_signed
parse_int quote s =
    wrap (text "strconv.ParseInt: parsing " ++ (quote s ++ text ": ")) (parse_signed s)

-- The digits of `n` in front of `out`, as long as there is fuel: `n` is enough.
unfoldable pub digits : ℕ → ℕ → Text → Text
digits zero n out = out
digits (suc fuel) n out =
    let rest = digits fuel (n / 10) ((b'0' + n % 10) ∷ out) in
    if ltb n 10 then (b'0' + n) ∷ out else rest

-- `fmt.Sprintf("%d", n)`
unfoldable pub decimal : ℕ → Text
unfolding digits
decimal n = digits (suc n) n []
