-- ===== src/Common/Text/Affixes.antt =====
-- Cutting off what was joined on.
use Prim.Native.Char.{Char, code}
use Prim.Native.String.{String, [], ◌∷◌, ◌++◌}
use mathlib.Core.Path.{◌≡◌, refl, sym, ◌∙◌}
use mathlib.Core.Logic.{◌≢◌}
use mathlib.Core.Option.{some}
use text.Mathlib.TextLemmas.{nil-append, cons-append, append_cancel_right, cons-ne-nil}
use network_enforcer.Common.Equality.{eq_refl, eq-false, string_eq, nat_eq}
use network_enforcer.Common.Text.{cut_prefix, cut_suffix}

pub cut_prefix-append : (p s : String) → cut_prefix (p ++ s) p ≡ some s
unfolding cut_prefix
cut_prefix-append [] s = rw nil-append
cut_prefix-append (c ∷ p) s = rw (cons-append, eq_refl (code c), cut_prefix) (cut_prefix-append p s)

not_longer : (c : Char) (s p : String) → (c ∷ (s ++ p)) ≢ p
not_longer c s p h =
    cons-ne-nil c s (append_cancel_right (c ∷ s) [] p (cons-append c s p ∙ h ∙ sym (nil-append p)))

pub cut_suffix-append : (s p : String) → cut_suffix (s ++ p) p ≡ some s
unfolding cut_suffix
cut_suffix-append [] [] = refl
cut_suffix-append [] (c ∷ p) = rw (nil-append, cut_suffix, eq_refl (c ∷ p))
cut_suffix-append (c ∷ s) p =
    rw (cons-append, cut_suffix, eq-false _ _ (not_longer c s p), cut_suffix-append s p)
