-- ===== src/Status/Key.antt =====
-- The key by which two scrapes of one logical violation are recognised.
use network_enforcer.Common.{
  String, List, [], ◌∷◌, Bool, ◌&&◌, true, ◌≡◌, ◌↔◌, refl, ap, ap₂, zero, suc, ℕ, arith, Comparable,
  ◌==◌, string_eq, list_eq, list_beq_iff, ◌∙◌, sym,
}
use network_enforcer.Common.Int.{ℤ, int_eq, int_beq_iff}
use network_enforcer.Api.Types.{ViolationRecord}

pub record ViolationRecordKey : Type 0 where
  pub src_namespace : String
  pub src_owner_kind : String
  pub src_owner_name : String
  pub src_identity : String
  pub dst_namespace : String
  pub dst_owner_kind : String
  pub dst_owner_name : String
  pub dst_identity : String
  pub protocol : String
  pub dst_port : ℤ
  pub action : String
  pub denying_policy_namespace : String
  pub denying_policy_name : String

unfoldable pub record_key : ViolationRecord → ViolationRecordKey
record_key v = record {
  src_namespace = v.info.source.namespace;
  src_owner_kind = v.info.source.owner_kind;
  src_owner_name = v.info.source.owner_name;
  src_identity = v.info.source.identity;
  dst_namespace = v.info.dest.namespace;
  dst_owner_kind = v.info.dest.owner_kind;
  dst_owner_name = v.info.dest.owner_name;
  dst_identity = v.info.dest.identity;
  protocol = v.info.protocol;
  dst_port = v.info.dst_port;
  action = v.info.action;
  denying_policy_namespace = v.info.denying_policy_namespace;
  denying_policy_name = v.info.denying_policy_name;
}

-- Go compares structs field by field: the texts, then the port.
abbrev texts : ViolationRecordKey → List String
texts k =
    k.src_namespace ∷ k.src_owner_kind ∷ k.src_owner_name ∷ k.src_identity ∷ k.dst_namespace
    ∷ k.dst_owner_kind ∷ k.dst_owner_name ∷ k.dst_identity ∷ k.protocol ∷ k.action
    ∷ k.denying_policy_namespace ∷ k.denying_policy_name ∷ []

unfoldable pub key_beq : ViolationRecordKey → ViolationRecordKey → Bool
key_beq a b = texts a == texts b && a.dst_port == b.dst_port

abbrev nth : List String → ℕ → String
nth [] i = ""
nth (x ∷ xs) zero = x
nth (x ∷ xs) (suc i) = nth xs i

abbrev rebuild : List String → ℤ → ViolationRecordKey
rebuild l port = record {
  src_namespace = nth l 0;
  src_owner_kind = nth l 1;
  src_owner_name = nth l 2;
  src_identity = nth l 3;
  dst_namespace = nth l 4;
  dst_owner_kind = nth l 5;
  dst_owner_name = nth l 6;
  dst_identity = nth l 7;
  protocol = nth l 8;
  dst_port = port;
  action = nth l 9;
  denying_policy_namespace = nth l 10;
  denying_policy_name = nth l 11;
}

and-true : (a b : Bool) → a && b ≡ true → (a ≡ true) × (b ≡ true)
and-true a b h = ground arith

key_beq_sound : (a b : ViolationRecordKey) → key_beq a b ≡ true → a ≡ b
unfolding key_beq
key_beq_sound a b h =
    let (p, q) = and-true (texts a == texts b) (a.dst_port == b.dst_port) h in
    ap₂ rebuild ((list_beq_iff (texts a) (texts b)).0 p) ((int_beq_iff a.dst_port b.dst_port).0 q)

key_beq_refl : (a : ViolationRecordKey) → key_beq a a ≡ true
unfolding key_beq
key_beq_refl a =
    ap₂ (λ x y. x && y) ((list_beq_iff (texts a) (texts a)).1 refl)
      ((int_beq_iff a.dst_port a.dst_port).1 refl)

pub key_beq_iff : (a b : ViolationRecordKey) → (key_beq a b ≡ true) ↔ (a ≡ b)
key_beq_iff a b = (key_beq_sound a b, λ p. ap (key_beq a) (sym p) ∙ key_beq_refl a)

instance abbrev pub key_eq : Comparable ViolationRecordKey
key_eq = record { equals = key_beq; equals_iff = key_beq_iff }
