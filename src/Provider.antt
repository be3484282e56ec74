-- ===== src/Provider.antt =====
-- cmd/controller/main.go: the scraper that the flags of a provider set up; internal/types/otlp.
pub mod Laws
use network_enforcer.Common.{
  ℕ, ◌^◌, String, Option, none, some, Bool, true, false, not, ◌&&◌, ◌||◌, ◌==◌, string_eq,
  if◌then◌else◌,
}
use network_enforcer.Common.Int.{ℤ}
use network_enforcer.Common.Text.Decimal.{parse_int}
use network_enforcer.Certsource.{Config, Source, mode_insecure, new_source}

abbrev pub provider_istio : String
provider_istio = "istio"

abbrev pub provider_cilium : String
provider_cilium = "cilium"

abbrev pub provider_calico : String
provider_calico = "calico"

pub record ProviderConfig : Type 0 where
  pub name : String
  pub endpoint : String
  pub tls_mode : String
  pub tls_cert_dir : String
  pub tls_cert_secret : String
  pub tls_ca_config_map : String
  pub tls_ca_bundle_key : String
  pub tls_server_name : String

unfoldable pub cert_source_config : ProviderConfig → Config
cert_source_config p = record {
  mode = p.tls_mode;
  cert_dir = p.tls_cert_dir;
  cert_secret = p.tls_cert_secret;
  ca_config_map = p.tls_ca_config_map;
  ca_bundle_key = p.tls_ca_bundle_key;
  server_name = p.tls_server_name;
}

-- `none` is an error
unfoldable pub istio_tls_cert_dir : String → String → Option String
istio_tls_cert_dir tls_mode tls_cert_dir =
    if not (tls_mode == mode_insecure) && tls_cert_dir == "" then none else some tls_cert_dir

-- whether there is no error
unfoldable pub validate_calico_tls_mode : String → Bool
validate_calico_tls_mode tls_mode = not (tls_mode == mode_insecure)

-- strconv.Atoi, of 64 bits
abbrev pub atoi : String → Option ℤ
atoi s = parse_int (2 ^ 63) s

abbrev pub some_source : Option Source → Option (Option Source)
some_source none = none
some_source (some source) = some (some source)

-- what a scraper is made with: the port and the directory of Istio's receiver; the certificate source,
-- which may be nil, the endpoint and the server name of a client
pub data ScraperConfig : Type 0 where
  istio_scraper : ℤ → String → ScraperConfig
  cilium_scraper : Option Source → String → String → ScraperConfig
  calico_scraper : Option Source → String → String → ScraperConfig

-- `valid_dir` is ValidateCertDir without an error, `has_reader` whether the manager's API reader is
-- not nil, and `adds` whether the manager adds a scraper. `none` is an error.
module _ (valid_dir : String → Bool) (has_reader : Bool) (adds : ScraperConfig → Bool) where
  unfoldable pub new_provider_cert_source : ProviderConfig → Option (Option Source)
  new_provider_cert_source p =
      let cfg = cert_source_config p in
      if cfg.mode == mode_insecure
      then some none
      else some_source (new_source valid_dir cfg has_reader)

  abbrev pub add_scraper : ScraperConfig → Option ScraperConfig
  add_scraper scraper = if adds scraper then some scraper else none

  abbrev pub istio_with : Option ℤ → Option String → Option ScraperConfig
  istio_with none tls_cert_dir = none
  istio_with (some otel_port) none = none
  istio_with (some otel_port) (some tls_cert_dir) =
      add_scraper (istio_scraper otel_port tls_cert_dir)

  abbrev pub cilium_with : ProviderConfig → Option (Option Source) → Option ScraperConfig
  cilium_with p none = none
  cilium_with p (some cert_source) =
      add_scraper (cilium_scraper cert_source p.endpoint p.tls_server_name)

  abbrev pub calico_with : ProviderConfig → Option (Option Source) → Option ScraperConfig
  calico_with p none = none
  calico_with p (some cert_source) =
      add_scraper (calico_scraper cert_source p.endpoint p.tls_server_name)

  -- the scraper that the manager runs
  unfoldable pub setup_provider_scraper : ProviderConfig → Option ScraperConfig
  setup_provider_scraper p =
      if p.name == provider_istio
      then istio_with (atoi p.endpoint) (istio_tls_cert_dir p.tls_mode p.tls_cert_dir)
      else if p.name == provider_cilium
      then cilium_with p (new_provider_cert_source p)
      else if p.name == provider_calico
      then if not (validate_calico_tls_mode p.tls_mode)
        then none
        else calico_with p (new_provider_cert_source p)
      else none

abbrev pub grpc : String
grpc = "grpc"

abbrev pub http_protobuf : String
http_protobuf = "http/protobuf"

-- otlp.Parse; `none` is an error
unfoldable pub parse_protocol : String → Option String
parse_protocol s =
    if s == "" then some grpc else if s == grpc || s == http_protobuf then some s else none

-- a parsed URL: its scheme and its host name
pub record Url : Type 0 where
  pub scheme : String
  pub hostname : String

abbrev pub valid_url : Option Url → Bool
valid_url none = false
valid_url (some u) = not (not (u.scheme == "http") && not (u.scheme == "https") || u.hostname == "")

-- `parse_url` is net/url.Parse; the answer is whether there is no error
unfoldable pub validate_endpoint : (String → Option Url) → String → Bool
validate_endpoint parse_url endpoint = valid_url (parse_url endpoint)
