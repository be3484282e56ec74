-- ===== src/Certsource/Laws.antt =====
-- internal/certsource: valid flags give a source, and a Secret gives no empty text.
use Prim.Native.String.{◌++◌, ◌∷◌}
use network_enforcer.Common.{
  String, ◌≡◌, ◌≢◌, refl, inl, inr, ◌⊎◌, Option, none, some, Bool, true, false, arith, Bool-cases,
  ◌==◌, string_eq, eq-false,
}
use network_enforcer.Common.Text.{contains_char}
use network_enforcer.Common.Text.Cut.{cut-append}
use network_enforcer.Api.Kube.{NamespacedName}
use network_enforcer.Certsource.{
  Config, mode_issuer, mode_existing_secret, mode_insecure, parse_namespaced_name, is_some,
  validate, validate_issuer, validate_existing_secret, Source, new_dir_source, with_secret,
  new_secret_source, new_source,
}

-- A reference `namespace/name` of two texts that are not empty and have no slash is read back.
pub parse_namespaced_name-append :
    (namespace name : String)
    → namespace ≢ ""
    → name ≢ ""
    → contains_char namespace "/" ≡ false
    → contains_char name "/" ≡ false
    → parse_namespaced_name (namespace ++ ("/" ∷ name))
      ≡ some (record { namespace = namespace; name = name })
unfolding parse_namespaced_name
parse_namespaced_name-append namespace name n m c d =
    rw (cut-append namespace name "/" c, eq-false namespace "" n, eq-false name "" m, d) refl

is_some-true : (o : Option NamespacedName) → is_some o ≡ true → (n : NamespacedName) × (o ≡ some n)
is_some-true none h = cc
is_some-true (some n) h = (n, refl)

-- a reference that may be missing
abbrev OptionalName : String → Type 0
OptionalName value = (value == "" ≡ true) ⊎ (is_some (parse_namespaced_name value) ≡ true)

with_secret_lem :
    (secret : NamespacedName) (config_map bundle : String)
    → OptionalName config_map
    → (source : Source) × (with_secret (some secret) config_map bundle ≡ some source)
with_secret_lem secret config_map bundle given = elim (Bool-cases (config_map == "")) [
  | inl e ↦ rw e (_, refl)
  | inr e ↦ elim given [
    | inl e' ↦ absurd (cc (e, e'))
    | inr k ↦ let (n, p) = is_some-true (parse_namespaced_name config_map) k in rw (e, p) (_, refl)
  ]
]

module _ (valid_dir : String → Bool) (cfg : Config) where
  new_dir_source_lem :
      cfg.cert_dir == "" ≡ false → (source : Source) × (new_dir_source cfg.cert_dir ≡ some source)
  unfolding new_dir_source
  new_dir_source_lem e = rw e (_, refl)

  validate_issuer_lem : validate_issuer valid_dir cfg ≡ true → cfg.cert_dir == "" ≡ false
  unfolding validate_issuer
  validate_issuer_lem h = elim (Bool-cases (cfg.cert_dir == "")) [
    | inl e ↦ absurd (cc (rw e at h))
    | inr e ↦ e
  ]

  validate_existing_secret_lem :
      validate_existing_secret valid_dir cfg ≡ true
      → cfg.cert_dir == "" ≡ true
      → (is_some (parse_namespaced_name cfg.cert_secret) ≡ true) × OptionalName cfg.ca_config_map
  unfolding validate_existing_secret
  validate_existing_secret_lem h e = ground arith

  -- Flags that are valid for a mode with TLS give a source, where there is an API reader.
  pub new_source_total :
      validate valid_dir cfg ≡ true
      → cfg.mode == mode_insecure ≡ false
      → (source : Source) × (new_source valid_dir cfg true ≡ some source)
  unfolding new_source validate new_secret_source
  new_source_total h n = elim (Bool-cases (cfg.mode == mode_issuer)) [
    | inl i ↦ rw (h, i) (new_dir_source_lem (validate_issuer_lem (rw (n, i) at h)))
    | inr i ↦ elim (Bool-cases (cfg.mode == mode_existing_secret)) [
      | inl s ↦ elim (Bool-cases (cfg.cert_dir == "")) [
        | inl e ↦
            let (k, o) = validate_existing_secret_lem (rw (n, i, s) at h) e in
            let (secret, p) = is_some-true (parse_namespaced_name cfg.cert_secret) k in
            rw (h, i, s, e, p) (with_secret_lem secret cfg.ca_config_map cfg.ca_bundle_key o)
        | inr e ↦ rw (h, i, s, e) (new_dir_source_lem e)
      ]
      | inr s ↦ absurd (cc (rw (n, i, s) at h))
    ]
  ]
