-- ===== src/Common/Text/Decimal.antt =====
-- strconv.ParseInt and strconv.FormatInt in base 10.
use Prim.Native.Nat.{ℕ, zero, suc, ◌+◌, ◌-◌, ◌*◌, ◌/◌, ◌%◌, ◌<◌}
use Prim.Native.Char.{Char, code}
use Prim.Native.String.{String, [], ◌∷◌, ◌++◌, char_at}
use mathlib.Core.Path.{◌≡◌, refl, ap, ◌∙◌}
use mathlib.Core.Bool.{Bool, ◌&&◌}
use mathlib.Core.Logic.{inl, inr}
use mathlib.Core.Option.{Option, none, some}
use native.Mathlib.Omega.{arith}
use network_enforcer.Common.Tests.{leb, ltb, Bool-cases, nat_beq, if◌then◌else◌}
use network_enforcer.Common.Int.{ℤ, pos, negsuc}

abbrev is_digit : Char → Bool
is_digit c = leb b'0' (code c) && leb (code c) b'9'

-- the digits that follow the value read so far
unfoldable pub parse_digits : ℕ → String → Option ℕ
parse_digits n [] = some n
parse_digits n (c ∷ s) =
    let rest = parse_digits (n * 10 + (code c - b'0')) s in if is_digit c then rest else none

-- at least one digit
unfoldable pub parse_nat : String → Option ℕ
unfolding parse_digits
parse_nat [] = none
parse_nat (c ∷ s) = parse_digits 0 (c ∷ s)

-- -n, where `n ≤ limit` holds
abbrev negate : ℕ → ℤ
negate zero = pos 0
negate (suc n) = negsuc n

abbrev within : ℕ → Option ℕ → Option ℤ
within limit none = none
within limit (some n) = if ltb n limit then some (pos n) else none

abbrev within_negative : ℕ → Option ℕ → Option ℤ
within_negative limit none = none
within_negative limit (some n) = if leb n limit then some (negate n) else none

-- ParseInt(s, 10, bits) with `limit` = 2 ^ (bits - 1); `none` is a syntax or a range error
unfoldable pub parse_int : ℕ → String → Option ℤ
unfolding parse_nat
parse_int limit [] = none
parse_int limit (c ∷ s) =
    if nat_beq (code c) b'-'
    then within_negative limit (parse_nat s)
    else if nat_beq (code c) b'+'
    then within limit (parse_nat s)
    else within limit (parse_nat (c ∷ s))

abbrev digit : ℕ → Char
digit n = char_at "0123456789" n

-- the digits of `n`, least first, put in front of those written; `n + 1` rounds are enough
format_digits : ℕ → ℕ → String → String
format_digits zero n out = out
format_digits (suc fuel) n out =
    let more = format_digits fuel (n / 10) (digit (n % 10) ∷ out) in
    if ltb n 10 then digit n ∷ out else more

unfoldable pub format_nat : ℕ → String
unfolding format_digits
format_nat n = format_digits (suc n) n []

unfoldable pub format_int : ℤ → String
unfolding format_nat
format_int (pos n) = format_nat n
format_int (negsuc n) = "-" ++ format_nat (suc n)

-- ------------------------------------------------------------------ reading back what was written

code-digit : (n : ℕ) → n < 10 → code (digit n) ≡ n + b'0'
code-digit zero h = refl
code-digit (suc zero) h = refl
code-digit (suc (suc zero)) h = refl
code-digit (suc (suc (suc zero))) h = refl
code-digit (suc (suc (suc (suc zero)))) h = refl
code-digit (suc (suc (suc (suc (suc zero))))) h = refl
code-digit (suc (suc (suc (suc (suc (suc zero)))))) h = refl
code-digit (suc (suc (suc (suc (suc (suc (suc zero))))))) h = refl
code-digit (suc (suc (suc (suc (suc (suc (suc (suc zero)))))))) h = refl
code-digit (suc (suc (suc (suc (suc (suc (suc (suc (suc zero))))))))) h = refl
code-digit (suc (suc (suc (suc (suc (suc (suc (suc (suc (suc n)))))))))) h = absurd (omega arith)

parse_digits-step :
    (m : ℕ) (c : Char) (s : String) (d : ℕ)
    → code c ≡ d + b'0'
    → d < 10
    → parse_digits m (c ∷ s) ≡ parse_digits (m * 10 + d) s
unfolding parse_digits
parse_digits-step m c s d e h = ground (
  arith,
  ap (λ k. parse_digits k s) (let q : m * 10 + (code c - b'0') ≡ m * 10 + d = omega arith in q),
)

parse_digits-digit :
    (m d : ℕ) (s : String) → d < 10 → parse_digits m (digit d ∷ s) ≡ parse_digits (m * 10 + d) s
parse_digits-digit m d s h = parse_digits-step m (digit d) s d (code-digit d h) h

parse_digits-format_digits :
    (fuel n : ℕ) (out : String)
    → n < fuel
    → parse_digits 0 (format_digits fuel n out) ≡ parse_digits n out
unfolding format_digits
parse_digits-format_digits zero n out h = absurd (omega arith)
parse_digits-format_digits (suc fuel) n out h = elim (Bool-cases (ltb n 10)) [
  | inl small ↦
      rw small
        (parse_digits-digit 0 n out (ground arith) ∙ ap (λ k. parse_digits k out) (omega arith))
  | inr large ↦ rw large (
      parse_digits-format_digits fuel (n / 10) _ (ground arith)
      ∙ parse_digits-digit (n / 10) (n % 10) out (omega arith)
      ∙ ap (λ k. parse_digits k out) (omega arith))
]

-- The first character is a digit.
format_digits-head :
    (fuel n : ℕ) (out : String)
    → n < fuel
    → (d : ℕ) × (rest : String) × (d < 10) × (format_digits fuel n out ≡ digit d ∷ rest)
unfolding format_digits
format_digits-head zero n out h = absurd (omega arith)
format_digits-head (suc fuel) n out h = elim (Bool-cases (ltb n 10)) [
  | inl small ↦ rw small (n, out, ground arith, refl)
  | inr large ↦ rw large (format_digits-head fuel (n / 10) _ (ground arith))
]

parse_int-digit :
    (limit d n : ℕ) (c : Char) (rest : String)
    → code c ≡ d + b'0'
    → d < 10
    → n < limit
    → parse_digits 0 (c ∷ rest) ≡ some n
    → parse_int limit (c ∷ rest) ≡ some (pos n)
unfolding parse_int
parse_int-digit limit d n c rest e h small p = ground arith

format_int-pos : (n : ℕ) → format_int (pos n) ≡ format_digits (suc n) n []
unfolding format_int
format_int-pos n = refl

parse_digits-nil : (n : ℕ) → parse_digits n [] ≡ some n
unfolding parse_digits
parse_digits-nil n = refl

-- What FormatInt writes of a number in range, ParseInt reads back.
pub parse_int-format_int :
    (limit n : ℕ) → n < limit → parse_int limit (format_int (pos n)) ≡ some (pos n)
parse_int-format_int limit n h =
    let (d, rest, small, e) = format_digits-head (suc n) n [] (omega arith) in
    let read = parse_digits-format_digits (suc n) n [] (omega arith) ∙ parse_digits-nil n in
    rw (format_int-pos, e)
      (parse_int-digit limit d n (digit d) rest (code-digit d small) small h (rw e at read))

pub parse_digits-format_int : (n : ℕ) → parse_digits 0 (format_int (pos n)) ≡ some n
unfolding format_int
parse_digits-format_int n =
    parse_digits-format_digits (suc n) n [] (omega arith) ∙ parse_digits-nil n
