-- ===== src/Scraper/Attributes/Laws.antt =====
-- internal/scraper/istio_scraper.go: which attribute of a record is read under a key.
use network_enforcer.Common.{
  ℕ, String, List, [], ◌∷◌, ◌++◌, ◌≡◌, refl, sym, ap, ◌∙◌, inl, inr, Option, none, some, Bool, true,
  false, Bool-cases, ◌==◌, string_eq, eq-true, eq-false, ne_of_eq-false, ◌≢◌, if◌then◌else◌,
}
use network_enforcer.Common.Map.{lookup, insert, lookup-insert}
use network_enforcer.Scraper.Attributes.{
  KeyValue, any_value_to_string, attr_map, attr_map_from, copy_into, merge_attr_maps,
}

-- The first answer, or else the second.
abbrev pub pick : Option String → Option String → Option String
pick none other = other
pick (some value) other = some value

-- A map has each key once.
unfoldable pub IsMap : List (String × String) → Type 0
IsMap [] = Unit
IsMap ((key, value) ∷ entries) = (lookup key entries ≡ none) × IsMap entries

absent-insert :
    (key other value : String) (entries : List (String × String))
    → key ≢ other
    → lookup other entries ≡ none
    → lookup other (insert key value entries) ≡ none
absent-insert key other value entries ne h =
    rw (lookup-insert key other value entries, eq-false key other ne) h

pick-none : (o : Option String) → pick o none ≡ o
pick-none none = refl
pick-none (some value) = refl

pick-pick : (a b c : Option String) → pick (pick a b) c ≡ pick a (pick b c)
pick-pick none b c = refl
pick-pick (some w) b c = refl

pick_assoc :
    (a : Option String) (b : Bool) (value : String) (c : Option String)
    → pick a (if b then some value else c) ≡ pick (pick a (if b then some value else none)) c
pick_assoc none true value c = refl
pick_assoc none false value c = refl
pick_assoc (some w) b value c = refl

IsMap-insert :
    (key value : String) (entries : List (String × String))
    → IsMap entries
    → IsMap (insert key value entries)
unfolding IsMap insert lookup
IsMap-insert key value [] h = (refl, tt)
IsMap-insert key value ((other, old) ∷ entries) h = elim (Bool-cases (other == key)) [
  | inl e ↦ rw (e, sym (eq-true other key e)) h
  | inr e ↦ rw e (
    absent-insert key other value entries (λ p. ne_of_eq-false other key e (sym p)) h.0,
    IsMap-insert key value entries h.1,
  )
]

lookup-copy_into :
    (key : String) (m entries : List (String × String))
    → IsMap entries
    → lookup key (copy_into m entries) ≡ pick (lookup key entries) (lookup key m)
unfolding copy_into IsMap lookup
lookup-copy_into key m [] h = refl
lookup-copy_into key m ((k, v) ∷ entries) h =
    lookup-copy_into key (insert k v m) entries h.1 ∙ elim (Bool-cases (k == key)) [
      | inl e ↦
          let absent : lookup key entries ≡ none = rw (sym (eq-true k key e)) h.0 in
          rw (lookup-insert k key v m, e, absent) refl
      | inr e ↦ rw (lookup-insert k key v m, e) refl
    ]

nothing_before : (key : String) (o : Option String) → pick o (lookup {V = String} key []) ≡ o
unfolding lookup
nothing_before key o = pick-none o

module _ (format_float : ℕ → String) where
  -- the last attribute of the key whose text is not empty
  unfoldable pub last_attr : String → List KeyValue → Option String
  last_attr key [] = none
  last_attr key (kv ∷ attrs) =
      let value = any_value_to_string format_float kv.value in
      pick (last_attr key attrs)
        (if value == "" then none else if kv.key == key then some value else none)

  IsMap-attr_map_from :
      (m : List (String × String)) (attrs : List KeyValue)
      → IsMap m
      → IsMap (attr_map_from format_float m attrs)
  unfolding attr_map_from
  IsMap-attr_map_from m [] h = h
  IsMap-attr_map_from m (kv ∷ attrs) h =
      elim (Bool-cases (any_value_to_string format_float kv.value == "")) [
        | inl e ↦ rw e (IsMap-attr_map_from m attrs h)
        | inr e ↦ rw e (
            IsMap-attr_map_from (insert kv.key (any_value_to_string format_float kv.value) m) attrs
              (IsMap-insert kv.key (any_value_to_string format_float kv.value) m h))
      ]

  lookup-attr_map_from :
      (key : String) (m : List (String × String)) (attrs : List KeyValue)
      → lookup key (attr_map_from format_float m attrs) ≡ pick (last_attr key attrs) (lookup key m)
  unfolding attr_map_from last_attr
  lookup-attr_map_from key m [] = refl
  lookup-attr_map_from key m (kv ∷ attrs) =
      elim (Bool-cases (any_value_to_string format_float kv.value == "")) [
        | inl e ↦ rw e (
            lookup-attr_map_from key m attrs
            ∙ ap (λ o. pick o (lookup key m)) (sym (pick-none (last_attr key attrs))))
        | inr e ↦ rw e (
            lookup-attr_map_from key (insert kv.key (any_value_to_string format_float kv.value) m)
              attrs
            ∙ rw (lookup-insert kv.key key (any_value_to_string format_float kv.value) m)
                (pick_assoc (last_attr key attrs) (kv.key == key) _ (lookup key m)))
      ]

  last_attr-append :
      (key : String) (base override : List KeyValue)
      → last_attr key (base ++ override) ≡ pick (last_attr key override) (last_attr key base)
  unfolding last_attr
  last_attr-append key [] override = sym (pick-none _)
  last_attr-append key (kv ∷ base) override =
      rw (last_attr-append key base override)
        (pick-pick (last_attr key override) (last_attr key base) _)

  lookup-attr_map :
      (key : String) (attrs : List KeyValue)
      → lookup key (attr_map format_float attrs) ≡ last_attr key attrs
  unfolding attr_map lookup
  lookup-attr_map key attrs = lookup-attr_map_from key [] attrs ∙ pick-none _

  IsMap-attr_map : (attrs : List KeyValue) → IsMap (attr_map format_float attrs)
  unfolding attr_map IsMap
  IsMap-attr_map attrs = IsMap-attr_map_from [] attrs tt

  -- The value of a key in the merged attributes is the last text, of those that are not empty, that
  -- the record's attributes give the key, or else the last that the resource's give it.
  pub merge_attr_maps-attr_map :
      (key : String) (base override : List KeyValue)
      → lookup key (merge_attr_maps (attr_map format_float base) (attr_map format_float override))
        ≡ last_attr key (base ++ override)
  unfolding merge_attr_maps
  merge_attr_maps-attr_map key base override =
      rw
        (
          lookup-copy_into key (copy_into [] (attr_map format_float base))
              (attr_map format_float override) (IsMap-attr_map override),
          lookup-copy_into key [] (attr_map format_float base) (IsMap-attr_map base),
          lookup-attr_map key base,
          lookup-attr_map key override,
          last_attr-append key base override,
        )
        (ap (pick (last_attr key override)) (nothing_before key (last_attr key base)))
