-- ===== src/Common/Text.antt =====
-- The functions of Go's `strings` that the program calls, over the characters of a text.
pub mod Concat
pub mod Affixes
pub mod Decimal
pub mod Digits
pub mod Cut
use Prim.Native.Nat.{ℕ, ◌-◌}
use Prim.Native.Char.{Char, code}
use Prim.Native.String.{String, [], ◌∷◌, char_at}
use mathlib.Core.Bool.{Bool, true, false, ◌&&◌, ◌||◌}
use mathlib.Core.Option
use mathlib.Core.Option.{Option, none, some}
use network_enforcer.Common.Tests.{leb, nat_beq, if◌then◌else◌}
use network_enforcer.Common.Equality.{◌==◌, string_eq}

-- strings.CutPrefix; `none` where the prefix is not there
unfoldable pub cut_prefix : String → String → Option String
cut_prefix s [] = some s
cut_prefix [] (p ∷ ps) = none
cut_prefix (c ∷ s) (p ∷ ps) = if nat_beq (code c) (code p) then cut_prefix s ps else none

-- strings.CutSuffix; `none` where the suffix is not there
unfoldable pub cut_suffix : String → String → Option String
cut_suffix [] suffix = if [] == suffix then some [] else none
cut_suffix (c ∷ s) suffix =
    let rest = Option.map (λ r. c ∷ r) (cut_suffix s suffix) in
    if (c ∷ s) == suffix then some [] else rest

-- strings.Cut at a separator of one character; `none` where it is not there
unfoldable pub cut : String → Char → Option (String × String)
cut [] sep = none
cut (c ∷ s) sep =
    let rest = Option.map (λ r. (c ∷ r.0, r.1)) (cut s sep) in
    if nat_beq (code c) (code sep) then some ([], s) else rest

abbrev lower_char : Char → Char
lower_char c =
    if leb b'A' (code c) && leb (code c) b'Z'
    then char_at "abcdefghijklmnopqrstuvwxyz" (code c - b'A')
    else c

-- strings.ToLower of an ASCII text
unfoldable pub to_lower : String → String
to_lower [] = []
to_lower (c ∷ s) = lower_char c ∷ to_lower s

abbrev upper_char : Char → Char
upper_char c =
    if leb b'a' (code c) && leb (code c) b'z'
    then char_at "ABCDEFGHIJKLMNOPQRSTUVWXYZ" (code c - b'a')
    else c

-- strings.ToUpper of an ASCII text; no other letter has a capital in `TCP` or `UDP`, with which the
-- program compares it
unfoldable pub to_upper : String → String
to_upper [] = []
to_upper (c ∷ s) = upper_char c ∷ to_upper s

-- strings.Contains of one character
unfoldable pub contains_char : String → Char → Bool
contains_char [] sep = false
contains_char (c ∷ s) sep = let rest = contains_char s sep in nat_beq (code c) (code sep) || rest
