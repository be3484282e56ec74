-- ===== src/Common/Booleans.antt =====
-- Conjunctions, disjunctions and `any`.
use mathlib.Core.Path.{◌≡◌, refl}
use mathlib.Core.Logic.{◌⊎◌, inl, inr}
use mathlib.Core.Bool.{Bool, true, false, ◌&&◌, ◌||◌}
use mathlib.Core.List.{List, [], ◌∷◌, ◌++◌}
use native.Mathlib.Omega.{arith}
use network_enforcer.Common.Lists.{any}

pub any-append {ℓ} :
    {A : Type ℓ} (p : A → Bool) (xs ys : List A) → any p (xs ++ ys) ≡ any p xs || any p ys
any-append p [] ys = refl
any-append p (x ∷ xs) ys = ground (arith, any-append p xs ys)

pub or-left : (a b : Bool) → a ≡ true → a || b ≡ true
or-left a b h = rw h refl

pub or-right : (a b : Bool) → b ≡ true → a || b ≡ true
or-right a b h = ground arith

pub or-cases : (a b : Bool) → a || b ≡ true → (a ≡ true) ⊎ (b ≡ true)
or-cases true b h = inl refl
or-cases false b h = inr h

pub and-split : (a b : Bool) → a && b ≡ true → (a ≡ true) × (b ≡ true)
and-split a b h = ground arith

pub and-both : (a b : Bool) → a ≡ true → b ≡ true → a && b ≡ true
and-both a b h k = ground arith
