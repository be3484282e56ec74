-- ===== src/Otel/Laws.antt =====
-- internal/violation/otel.go: the attributes that are emitted.
use network_enforcer.Common.{
  String, List, [], ◌∷◌, ◌≡◌, ◌≢◌, refl, inl, inr, true, Bool-cases, ◌==◌, string_eq, All,
  All-append, any, ne_of_eq-false,
}
use network_enforcer.Api.Types.{Observation}
use network_enforcer.Otel.{
  OtelRecord, AttributeValue, string_attribute, int_attribute, add_all, add_string_attrs,
  otel_record, otel_attribute_keys, string_attributes,
}

abbrev InSchema : String → Type 0
InSchema key = any (λ k. k == key) otel_attribute_keys ≡ true

abbrev NotEmpty : AttributeValue → Type 0
NotEmpty (string_attribute value) = value ≢ ""
NotEmpty (int_attribute n) = Unit

-- a key of the stable schema, and no empty text
unfoldable pub Proper : String × AttributeValue → Type 0
Proper (key, value) = InSchema key × NotEmpty value

add_string_attrs-Proper :
    (rec : OtelRecord) (key value : String)
    → InSchema key
    → All Proper rec.attributes
    → All Proper (add_string_attrs rec key value).attributes
unfolding add_string_attrs Proper
add_string_attrs-Proper rec key value k h = elim (Bool-cases (value == "")) [
  | inl e ↦ rw e h
  | inr e ↦ rw e (All-append Proper rec.attributes _ h ((k, ne_of_eq-false value "" e), tt))
]

add_all-Proper :
    (rec : OtelRecord) (attrs : List (String × String))
    → All (λ a. InSchema a.0) attrs
    → All Proper rec.attributes
    → All Proper (add_all rec attrs).attributes
unfolding add_all
add_all-Proper rec [] k h = h
add_all-Proper rec ((key, value) ∷ attrs) k h =
    add_all-Proper (add_string_attrs rec key value) attrs k.1
      (add_string_attrs-Proper rec key value k.0 h)

keys-InSchema : (o : Observation) → All (λ a. InSchema a.0) (string_attributes o)
unfolding otel_attribute_keys
keys-InSchema o = (
  refl,
  (
    refl,
    (refl, (refl, (refl, (refl, (refl, (refl, (refl, (refl, (refl, (refl, (refl, tt))))))))))),
  ),
)

-- Every attribute of the record that is emitted for an observation has a key of the stable schema,
-- and none is an empty text.
pub otel_record-Proper : (o : Observation) → All Proper (otel_record o).attributes
unfolding otel_record otel_attribute_keys Proper
otel_record-Proper o =
    All-append Proper _ _ (add_all-Proper _ (string_attributes o) (keys-InSchema o) tt)
      ((refl, tt), tt)
