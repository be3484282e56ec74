-- ===== src/Tests/TlsTests.antt =====
-- The sources of TLS material and the credentials at concrete inputs.
use network_enforcer.Common.{String, ◌≡◌, refl, none, some, true, ◌==◌, string_eq, if◌then◌else◌}
use network_enforcer.Common.Text.{cut, contains_char}
use network_enforcer.Certsource.{
  Config, mode_existing_secret, mode_insecure, parse_namespaced_name, validate,
  validate_existing_secret, new_source, new_secret_source, secret_source, get_dir,
}
use network_enforcer.Tlsutil.{
  Files, Library, load_ca_cert_pool_from_pem, load_ca_cert_pool, load_key_pair, validate_cert_dir,
  get_config_for_client, server_credentials,
}
use network_enforcer.Provider.{
  ProviderConfig, provider_calico, calico_scraper, setup_provider_scraper, validate_calico_tls_mode,
  new_provider_cert_source, cert_source_config,
}
use network_enforcer.Tlsutil.Laws.{
  pair_of, reader_of, server_of_material, IsMutual, server_credentials_rotate,
}

-- the files of a directory whose CA certificate has the text given
abbrev files_with : String → Files
files_with ca = record {
  read_file = λ path. some (if path == "ca.crt" then ca else path);
  exists = λ path. true;
}

-- a library that parses every text, and paths of one directory
abbrev library : Library String (String × String)
library = record {
  append_certs_from_pem = λ pem. some pem;
  x509_key_pair = λ cert key. some (cert, key);
  load_x509_key_pair =
      λ files cert key. pair_of (λ c k. some (c, k)) (files.read_file cert) (files.read_file key);
  join = λ dir name. name;
}

serves :
    server_credentials library (files_with "old") "/certs"
    ≡ some (get_config_for_client library "/certs")
unfolding server_credentials validate_cert_dir load_key_pair load_ca_cert_pool
    load_ca_cert_pool_from_pem
serves = refl

server_credentials_rotate_example :
    (get_config_for_client library "/certs" (files_with "new")
      ≡ server_of_material library (get_dir (reader_of (files_with "new")) library.join "/certs"))
    × IsMutual library (get_config_for_client library "/certs" (files_with "new"))
server_credentials_rotate_example =
    server_credentials_rotate library (λ files cert key. refl) (files_with "old") (files_with "new")
      "/certs" (get_config_for_client library "/certs") serves

abbrev config : Config
config = record {
  mode = mode_existing_secret;
  cert_dir = "";
  cert_secret = "calico-system/goldmane";
  ca_config_map = "";
  ca_bundle_key = "";
  server_name = "";
}

secret_is_the_source :
    new_source (λ dir. true) config true
    ≡ some (
        secret_source (record {
          secret = record { namespace = "calico-system"; name = "goldmane" };
          ca_config_map = record { namespace = ""; name = "" };
          ca_bundle_key = "ca.crt";
        }))
unfolding new_source validate validate_existing_secret new_secret_source parse_namespaced_name cut
    contains_char
secret_is_the_source = refl

abbrev calico : ProviderConfig
calico = record {
  name = provider_calico;
  endpoint = "goldmane.calico-system:7443";
  tls_mode = mode_existing_secret;
  tls_cert_dir = "";
  tls_cert_secret = "calico-system/goldmane";
  tls_ca_config_map = "";
  tls_ca_bundle_key = "";
  tls_server_name = "";
}

calico_is_set_up :
    setup_provider_scraper (λ dir. true) true (λ scraper. true) calico
    ≡ some (calico_scraper (new_source (λ dir. true) config true) "goldmane.calico-system:7443" "")
unfolding setup_provider_scraper validate_calico_tls_mode new_provider_cert_source
    cert_source_config new_source validate validate_existing_secret new_secret_source
    parse_namespaced_name cut contains_char
calico_is_set_up = refl

plaintext_is_refused :
    setup_provider_scraper
      (λ dir. true)
      true
      (λ scraper. true)
      (record calico { tls_mode = mode_insecure })
    ≡ none
unfolding setup_provider_scraper validate_calico_tls_mode
plaintext_is_refused = refl
