-- ===== src/Common/Text/Digits.antt =====
-- A text of digits holds no separator.
use Prim.Native.Nat.{ℕ, ◌+◌, ◌*◌, ◌-◌}
use Prim.Native.Char.{Char, code}
use Prim.Native.String.{String, [], ◌∷◌, char_at}
use mathlib.Core.Path.{◌≡◌, refl}
use mathlib.Core.Bool.{Bool, true, false, ◌&&◌}
use mathlib.Core.Logic.{inl, inr}
use mathlib.Core.Option.{none, some}
use native.Mathlib.Omega.{arith}
use network_enforcer.Common.Tests.{leb, nat_beq, Bool-cases}
use network_enforcer.Common.Text.{cut}
use network_enforcer.Common.Text.Decimal.{parse_digits}

abbrev in_digits : Char → Bool
in_digits c = leb b'0' (code c) && leb (code c) b'9'

not-dash : (c : Char) → in_digits c ≡ true → nat_beq (code c) b'-' ≡ false
not-dash c h = ground arith

pub cut-of_digits :
    (s : String) (n m : ℕ) → parse_digits n s ≡ some m → cut s (char_at "-" 0) ≡ none
unfolding cut parse_digits
cut-of_digits [] n m h = refl
cut-of_digits (c ∷ s) n m h = elim (Bool-cases (in_digits c)) [
  | inl digit ↦
      rw (not-dash c digit, cut, cut-of_digits s (n * 10 + (code c - b'0')) m (rw digit at h)) refl
  | inr other ↦ cc (rw other at h)
]
