-- ===== src/Common/Text/Concat.antt =====
-- Texts put together, as Go's `+` and `Sprintf` do.
use Prim.Native.String.{String, ◌++◌}
use mathlib.Core.Path.{◌≡◌, refl}
use text.Mathlib.TextLemmas.{append-nil, append_assoc}
use mathlib.Core.List.{List, [], ◌∷◌}

unfoldable pub concat : List String → String
concat [] = ""
concat (s ∷ ss) = s ++ concat ss

pub concat-name :
    (k name d : String)
    → concat (k ∷ "-" ∷ name ∷ "-" ∷ d ∷ []) ≡ (k ++ "-") ++ (name ++ ("-" ++ d))
unfolding concat
concat-name k name d = rw (append-nil d, append_assoc k "-" (name ++ ("-" ++ d))) refl
