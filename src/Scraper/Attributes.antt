-- ===== src/Scraper/Attributes.antt =====
-- internal/scraper/istio_scraper.go: the attributes of an OTLP log record. A nil pointer is `none`.
pub mod Laws
use network_enforcer.Common.{
  ℕ, String, List, [], ◌∷◌, Option, none, some, Bool, ◌==◌, string_eq, if◌then◌else◌,
}
use network_enforcer.Common.Int.{ℤ}
use network_enforcer.Common.Map.{lookup, insert}
use network_enforcer.Common.Text.{cut}
use network_enforcer.Common.Text.Decimal.{format_int}

-- commonpb.AnyValue; a double is its 64 bits
pub data AnyValue : Type 0 where
  string_value : String → AnyValue
  int_value : ℤ → AnyValue
  double_value : ℕ → AnyValue
  bool_value : Bool → AnyValue
  other_value : AnyValue

pub record KeyValue : Type 0 where
  pub key : String
  pub value : Option AnyValue

-- `format_float` is strconv.FormatFloat(v, 'f', -1, 64).
module _ (format_float : ℕ → String) where
  unfoldable pub any_value_to_string : Option AnyValue → String
  any_value_to_string none = ""
  any_value_to_string (some (string_value s)) = s
  any_value_to_string (some (int_value n)) = format_int n
  any_value_to_string (some (double_value bits)) = format_float bits
  any_value_to_string (some (bool_value b)) = if b then "true" else "false"
  any_value_to_string (some other_value) = ""

  -- the loop, from the map that it has built
  unfoldable pub attr_map_from : List (String × String) → List KeyValue → List (String × String)
  attr_map_from m [] = m
  attr_map_from m (kv ∷ attrs) =
      let value = any_value_to_string kv.value in
      attr_map_from (if value == "" then m else insert kv.key value m) attrs

  unfoldable pub attr_map : List KeyValue → List (String × String)
  attr_map attrs = attr_map_from [] attrs

-- maps.Copy
unfoldable pub copy_into : List (String × String) → List (String × String) → List (String × String)
copy_into m [] = m
copy_into m ((key, value) ∷ entries) = copy_into (insert key value m) entries

unfoldable pub merge_attr_maps :
    List (String × String) → List (String × String) → List (String × String)
merge_attr_maps base override = copy_into (copy_into [] base) override

-- m[key]
unfoldable pub attr : List (String × String) → String → String
attr m key = elim (lookup key m) [ none ↦ "" | some value ↦ value ]

-- the namespace and the name
unfoldable pub split_namespaced_name : String → String × String
split_namespaced_name namespaced_name = elim (cut namespaced_name "/") [
  | none ↦ ("", namespaced_name)
  | some parts ↦ parts
]
