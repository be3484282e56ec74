-- ===== src/Certsource.antt =====
-- internal/certsource: where the TLS material of a provider comes from, and the flags that say so.
pub mod Laws
use network_enforcer.Common.{
  String, Option, none, some, Bool, true, false, not, ◌&&◌, ◌||◌, ◌==◌, string_eq, if◌then◌else◌,
}
use network_enforcer.Common.Text.{cut, contains_char}
use network_enforcer.Api.Kube.{NamespacedName}
use network_enforcer.Api.Names.{name_beq, name_eq}

abbrev pub mode_issuer : String
mode_issuer = "issuer"

abbrev pub mode_existing_secret : String
mode_existing_secret = "existingSecret"

abbrev pub mode_insecure : String
mode_insecure = "insecure"

abbrev pub ca_file : String
ca_file = "ca.crt"

abbrev pub cert_file : String
cert_file = "tls.crt"

abbrev pub key_file : String
key_file = "tls.key"

pub record Config : Type 0 where
  pub mode : String
  pub cert_dir : String
  pub cert_secret : String
  pub ca_config_map : String
  pub ca_bundle_key : String
  pub server_name : String

abbrev pub name_of_parts : Option (String × String) → Option NamespacedName
name_of_parts none = none
name_of_parts (some (namespace, name)) =
    if namespace == "" || name == "" || contains_char name "/"
    then none
    else some (record { namespace = namespace; name = name })

-- `none` is an error
unfoldable pub parse_namespaced_name : String → Option NamespacedName
parse_namespaced_name value = name_of_parts (cut value "/")

abbrev pub is_some : Option NamespacedName → Bool
is_some none = false
is_some (some name) = true

-- `valid_dir` is tlsutil.ValidateCertDir without an error; the answers are whether there is no error.
module _ (valid_dir : String → Bool) where
  unfoldable pub validate_issuer : Config → Bool
  validate_issuer cfg =
      if cfg.cert_dir == ""
      then false
      else if not (cfg.cert_secret == "") || not (cfg.ca_config_map == "")
      then false
      else valid_dir cfg.cert_dir

  unfoldable pub validate_existing_secret : Config → Bool
  validate_existing_secret cfg =
      let dir_set = not (cfg.cert_dir == "") in
      let secret_set = not (cfg.cert_secret == "") in
      if dir_set && secret_set || not dir_set && not secret_set
      then false
      else if dir_set
      then if not (cfg.ca_config_map == "") then false else valid_dir cfg.cert_dir
      else if not (is_some (parse_namespaced_name cfg.cert_secret))
      then false
      else if not (cfg.ca_config_map == "")
      then is_some (parse_namespaced_name cfg.ca_config_map)
      else true

  unfoldable pub validate : Config → Bool
  validate cfg =
      if cfg.mode == mode_insecure
      then not (
          not (cfg.cert_dir == "")
          || not (cfg.cert_secret == "")
          || not (cfg.ca_config_map == "")
          || not (cfg.server_name == ""))
      else if cfg.mode == mode_issuer
      then validate_issuer cfg
      else if cfg.mode == mode_existing_secret
      then validate_existing_secret cfg
      else false

-- a zero NamespacedName is no ConfigMap
pub record SecretSource : Type 0 where
  pub secret : NamespacedName
  pub ca_config_map : NamespacedName
  pub ca_bundle_key : String

pub data Source : Type 0 where
  dir_source : String → Source
  secret_source : SecretSource → Source

abbrev pub zero_name : NamespacedName
zero_name = record { namespace = ""; name = "" }

-- `none` is an error
unfoldable pub new_dir_source : String → Option Source
new_dir_source dir = if dir == "" then none else some (dir_source dir)

abbrev pub with_ca_config_map : NamespacedName → String → Option NamespacedName → Option Source
with_ca_config_map secret bundle none = none
with_ca_config_map secret bundle (some name) =
    some (secret_source (record { secret = secret; ca_config_map = name; ca_bundle_key = bundle }))

abbrev pub with_secret : Option NamespacedName → String → String → Option Source
with_secret none config_map bundle = none
with_secret (some secret) config_map bundle =
    let key = if bundle == "" then ca_file else bundle in
    if config_map == ""
    then with_ca_config_map secret key (some zero_name)
    else with_ca_config_map secret key (parse_namespaced_name config_map)

-- `has_reader` is whether the API reader is not nil
unfoldable pub new_secret_source : Bool → String → String → String → Option Source
new_secret_source has_reader secret config_map bundle =
    if not has_reader then none else with_secret (parse_namespaced_name secret) config_map bundle

unfoldable pub new_source : (String → Bool) → Config → Bool → Option Source
new_source valid_dir cfg has_reader =
    if not (validate valid_dir cfg)
    then none
    else if cfg.mode == mode_issuer
    then new_dir_source cfg.cert_dir
    else if cfg.mode == mode_existing_secret
    then if not (cfg.cert_dir == "")
      then new_dir_source cfg.cert_dir
      else new_secret_source has_reader cfg.cert_secret cfg.ca_config_map cfg.ca_bundle_key
    else none

-- the PEM texts
pub record Material : Type 0 where
  pub ca : String
  pub cert : String
  pub key : String

-- What is read: the files, and the data of Secrets and ConfigMaps, with `none` for an error or a
-- missing key.
pub record Reader : Type 0 where
  pub cancelled : Bool
  pub read_file : String → Option String
  pub get_secret : NamespacedName → Option (String → Option String)
  pub get_config_map : NamespacedName → Option ((String → Option String) × (String → Option String))

abbrev pub material_of : Option String → Option String → Option String → Option Material
material_of (some ca) (some cert) (some key) = some (record { ca = ca; cert = cert; key = key })
material_of (some ca) (some cert) none = none
material_of (some ca) none key = none
material_of none cert key = none

abbrev pub present : Option String → Option String
present none = none
present (some value) = if value == "" then none else some value

abbrev pub first_present : Option String → Option String → Option String
first_present none other = other
first_present (some value) other = some value

unfoldable pub secret_key : (String → Option String) → String → Option String
secret_key secret key = present (secret key)

abbrev pub ca_of_config_map :
    String → Option ((String → Option String) × (String → Option String)) → Option String
ca_of_config_map key none = none
ca_of_config_map key (some (text, binary)) =
    first_present (present (text key)) (present (binary key))

module _ (r : Reader) (join : String → String → String) where
  -- `join` is filepath.Join; `none` is an error
  unfoldable pub get_dir : String → Option Material
  get_dir dir =
      if r.cancelled
      then none
      else material_of (r.read_file (join dir ca_file)) (r.read_file (join dir cert_file))
          (r.read_file (join dir key_file))

  abbrev pub of_secret : SecretSource → Option (String → Option String) → Option Material
  of_secret s none = none
  of_secret s (some secret) =
      if not (s.ca_config_map == zero_name)
      then material_of (ca_of_config_map s.ca_bundle_key (r.get_config_map s.ca_config_map))
          (secret_key secret cert_file) (secret_key secret key_file)
      else material_of (secret_key secret ca_file) (secret_key secret cert_file)
          (secret_key secret key_file)

  unfoldable pub get_material : SecretSource → Option Material
  get_material s = of_secret s (r.get_secret s.secret)
