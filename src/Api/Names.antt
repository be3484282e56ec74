-- ===== src/Api/Names.antt =====
-- Equality of the names of objects.
use network_enforcer.Common.{
  String, Bool, true, ◌&&◌, ◌≡◌, ◌↔◌, sym, ap, ap₂, ◌∙◌, arith, Comparable, ◌==◌, string_eq,
  eq_refl, eq-true,
}
use network_enforcer.Api.Kube.{NamespacedName}

and-true : (a b : Bool) → a && b ≡ true → (a ≡ true) × (b ≡ true)
and-true a b h = ground arith

abbrev make : String → String → NamespacedName
make n m = record { namespace = n; name = m }

unfoldable pub name_beq : NamespacedName → NamespacedName → Bool
name_beq a b = a.namespace == b.namespace && a.name == b.name

name_beq_sound : (a b : NamespacedName) → name_beq a b ≡ true → a ≡ b
unfolding name_beq
name_beq_sound a b h =
    let (p, q) = and-true (a.namespace == b.namespace) (a.name == b.name) h in
    ap₂ make (eq-true a.namespace b.namespace p) (eq-true a.name b.name q)

name_beq_refl : (a : NamespacedName) → name_beq a a ≡ true
unfolding name_beq
name_beq_refl a = ap₂ (λ x y. x && y) (eq_refl a.namespace) (eq_refl a.name)

pub name_beq_iff : (a b : NamespacedName) → (name_beq a b ≡ true) ↔ (a ≡ b)
name_beq_iff a b = (name_beq_sound a b, λ p. ap (name_beq a) (sym p) ∙ name_beq_refl a)

instance abbrev pub name_eq : Comparable NamespacedName
name_eq = record { equals = name_beq; equals_iff = name_beq_iff }
