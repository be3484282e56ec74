-- ===== src/Common/Text/Cut.antt =====
-- Cutting a text at the first of a separator.
use Prim.Native.Char.{Char, code}
use Prim.Native.String.{String, [], ◌∷◌, ◌++◌}
use text.Mathlib.TextLemmas.{nil-append, cons-append}
use mathlib.Core.Path.{◌≡◌, refl}
use mathlib.Core.Bool.{false}
use mathlib.Core.Option.{some}
use native.Mathlib.Omega.{arith}
use network_enforcer.Common.Tests.{nat_beq}
use network_enforcer.Common.Equality.{eq_refl, nat_eq}
use network_enforcer.Common.Text.{cut, contains_char}

pub cut-append :
    (s t : String) (sep : Char)
    → contains_char s sep ≡ false
    → cut (s ++ (sep ∷ t)) sep ≡ some (s, t)
unfolding cut contains_char
cut-append [] t sep h = rw (nil-append, cut, eq_refl (code sep)) refl
cut-append (c ∷ s) t sep h =
    let other : nat_beq (code c) (code sep) ≡ false = ground arith in
    let later : contains_char s sep ≡ false = ground arith in
    rw (cons-append, cut, other, cut-append s t sep later) refl
