-- ===== src/Learning/Istio/Laws.antt =====
-- A learned principal reaches a learned port, and a violation of the flow is then cleared.
use network_enforcer.Common.{
  ℕ, ◌<◌, ◌^◌, String, List, [], ◌∷◌, none, some, Bool, true, false, ◌≡◌, refl, ap, ◌∙◌, arith,
  ◌==◌, ◌&&◌, ◌||◌, string_eq, eq_refl, eq-true, any, Bool-cases, inl, inr,
}
use Prim.Native.String.{char_at}
use network_enforcer.Common.Int.{ℤ, pos, leb_ℤ}
use network_enforcer.Common.Text.Decimal.{format_int}
use network_enforcer.Api.Types.{
  WorkloadRef, IstioFrom, IstioTo, IstioRule, IstioSpec, ViolationRecord,
}
use network_enforcer.Status.Clear.{
  is_empty, range_texts, range_of, parse_istio_port_range, istio_port_matches,
  istio_rule_allows_port, istio_rule_allows_source, istio_allows,
}
use network_enforcer.Learning.Istio.{
  one_operation, contains, sole_principal, has_sole_source, add_operation, upsert_rules,
  upsert_istio_learned_rule,
}
use network_enforcer.Common.Booleans.{any-append, or-left, or-right, or-cases, and-both}
use network_enforcer.Common.Text.{cut}
use network_enforcer.Common.Text.Digits.{cut-of_digits}
use network_enforcer.Common.Text.Decimal.{parse_int, parse_int-format_int, parse_digits-format_int}

-- A port that is listed and matches lets the operations match.
any-contains :
    (p : String → Bool) (x : String) (xs : List String)
    → p x ≡ true
    → contains xs x ≡ true
    → any p xs ≡ true
any-contains p x [] hp h = cc
any-contains p x (y ∷ ys) hp h = elim (or-cases (y == x) (contains ys x) h) [
  | inl here ↦ or-left (p y) (any p ys) (rw (eq-true y x here) hp)
  | inr later ↦ or-right _ _ (any-contains p x ys hp later)
]

-- The port that learning writes is the range of this one port.
leb_refl : (n : ℕ) → leb_ℤ (pos n) (pos n) && leb_ℤ (pos n) (pos n) ≡ true
leb_refl n = ground arith

range-of_uncut :
    (s : String) (x : ℤ)
    → cut s (char_at "-" 0) ≡ none
    → parse_int (2 ^ 31) s ≡ some x
    → parse_istio_port_range s ≡ some (x, x)
unfolding parse_istio_port_range
range-of_uncut s x whole p =
    let texts : range_texts s ≡ (s, "") =
      ap (λ o. elim o [ none ↦ (s, "") | some parts ↦ parts ]) whole in
    ap (λ t. range_of t.1 (parse_int (2 ^ 31) t.0) (parse_int (2 ^ 31) t.1)) texts
    ∙ ap (λ o. range_of "" o (parse_int (2 ^ 31) "")) p

range-format_int :
    (n : ℕ) → n < 2 ^ 31 → parse_istio_port_range (format_int (pos n)) ≡ some (pos n, pos n)
range-format_int n h =
    range-of_uncut (format_int (pos n)) (pos n)
      (cut-of_digits (format_int (pos n)) 0 n (parse_digits-format_int n))
      (parse_int-format_int (2 ^ 31) n h)

matches-of_range :
    (s : String) (n : ℕ)
    → parse_istio_port_range s ≡ some (pos n, pos n)
    → istio_port_matches s (pos n) ≡ true
unfolding istio_port_matches
matches-of_range s n e =
    ap (λ o. elim o [ none ↦ false | some r ↦ leb_ℤ r.0 (pos n) && leb_ℤ (pos n) r.1 ]) e
    ∙ leb_refl n

port_matches-format_int :
    (n : ℕ) → n < 2 ^ 31 → istio_port_matches (format_int (pos n)) (pos n) ≡ true
port_matches-format_int n h = matches-of_range (format_int (pos n)) n (range-format_int n h)

sole-principals :
    (principals : List String) (identity : String)
    → sole_principal principals identity ≡ true
    → is_empty principals || any (λ principal. principal == "*" || principal == identity) principals
      ≡ true
sole-principals [] identity h = cc
sole-principals (p ∷ q ∷ ps) identity h = cc
sole-principals (p ∷ []) identity h = or-left _ _ (or-right _ _ h)

sole :
    (sources : List IstioFrom) (src : WorkloadRef)
    → has_sole_source sources src.identity ≡ true
    → is_empty sources
        || any
            (λ from.
              is_empty from.principals
              || any (λ principal. principal == "*" || principal == src.identity) from.principals)
            sources
      ≡ true
sole [] src h = cc
sole (from ∷ []) src h = or-left _ _ (sole-principals from.principals src.identity h)
sole (from ∷ other ∷ sources) src h = cc

module _ (port : String) (dst_port : ℤ) (matches : istio_port_matches port dst_port ≡ true) where
  -- an operation that allows the port
  abbrev operation_allows : IstioTo → Bool
  operation_allows to = is_empty to.ports || any (λ q. istio_port_matches q dst_port) to.ports

  contains-allows : (to : IstioTo) → contains to.ports port ≡ true → operation_allows to ≡ true
  contains-allows to h =
      or-right _ _ (any-contains (λ q. istio_port_matches q dst_port) port to.ports matches h)

  any-allows :
      (tos : List IstioTo)
      → any (λ t. contains t.ports port) tos ≡ true
      → any operation_allows tos ≡ true
  any-allows [] h = cc
  any-allows (to ∷ tos) h = elim (or-cases (contains to.ports port) _ h) [
    | inl here ↦ or-left _ _ (contains-allows to here)
    | inr later ↦ or-right _ _ (any-allows tos later)
  ]

  add_operation-allows : (tos : List IstioTo) → any operation_allows (add_operation tos port) ≡ true
  add_operation-allows [] = or-left _ _ (or-left _ _ matches)
  add_operation-allows (to ∷ tos) =
      elim (Bool-cases (any (λ t. contains t.ports port) (to ∷ tos))) [
        | inl known ↦ rw known (any-allows (to ∷ tos) known)
        | inr new ↦ rw new (
            or-left _ _ (
              or-right _ _ (
                any-append (λ q. istio_port_matches q dst_port) to.ports (port ∷ [])
                ∙ or-right _ _ (or-left _ _ matches))))
      ]

  allows_port-add :
      (rule : IstioRule)
      → istio_rule_allows_port
          (record rule { operations = add_operation rule.operations port })
          dst_port
        ≡ true
  unfolding istio_rule_allows_port
  allows_port-add rule = or-right _ _ (add_operation-allows rule.operations)

  new-allows :
      (rule : IstioRule)
      → rule.operations ≡ one_operation port ∷ []
      → istio_rule_allows_port rule dst_port ≡ true
  unfolding istio_rule_allows_port
  new-allows rule e =
      or-right (is_empty rule.operations) (any operation_allows rule.operations)
        (rw e (or-left _ _ (or-left _ _ matches)))

  allows_source-sole :
      (rule : IstioRule) (src : WorkloadRef)
      → has_sole_source rule.sources src.identity ≡ true
      → istio_rule_allows_source rule src ≡ true
  unfolding istio_rule_allows_source
  allows_source-sole rule src h = sole rule.sources src h

  rules-allow :
      (rules : List IstioRule) (src : WorkloadRef)
      → any
          (λ rule. istio_rule_allows_source rule src && istio_rule_allows_port rule dst_port)
          (upsert_rules rules src.identity port)
        ≡ true
  unfolding upsert_rules
  rules-allow [] src =
      let rule : IstioRule = record {
        sources = record { principals = src.identity ∷ [] } ∷ [];
        operations = one_operation port ∷ [];
      } in
      or-left _ _
        (and-both _ _ (allows_source-sole rule src (eq_refl src.identity)) (new-allows rule refl))
  rules-allow (rule ∷ rules) src = elim (Bool-cases (has_sole_source rule.sources src.identity)) [
    | inl here ↦ rw here (
        or-left _ _ (
          and-both _ _
            (allows_source-sole (record rule { operations = add_operation rule.operations port })
              src here)
            (allows_port-add rule)))
    | inr other ↦ rw other (or-right _ _ (rules-allow rules src))
  ]

-- Once a flow is learned, no violation of it is left by clearing: the rules allow every violation with
-- the principal as its source and the learned port, a number below 2^31.
pub istio_allows-upsert :
    (spec : IstioSpec) (v : ViolationRecord) (n : ℕ)
    → n < 2 ^ 31
    → v.info.dst_port ≡ pos n
    → istio_allows (upsert_istio_learned_rule spec v.info.source.identity (format_int (pos n))) v
      ≡ true
unfolding istio_allows upsert_istio_learned_rule
istio_allows-upsert spec v n h e = rw e (
    rules-allow (format_int (pos n)) (pos n) (port_matches-format_int n h) spec.rules v.info.source)
