-- ===== src/Tlsutil.antt =====
-- internal/tlsutil/certs.go: the credentials of both ends of a connection, from texts and from files.
pub mod Laws
use network_enforcer.Common.{
  ℕ, String, Option, none, some, Bool, true, false, not, ◌==◌, string_eq, if◌then◌else◌,
}
use network_enforcer.Certsource.{Material, material_of, ca_file, cert_file, key_file}

-- the files at one time: their texts, and whether os.Stat answers otherwise than that a path is missing
pub record Files : Type 0 where
  pub read_file : String → Option String
  pub exists : String → Bool

pub data ClientAuthType : Type 0 where
  no_client_cert : ClientAuthType
  require_and_verify_client_cert : ClientAuthType

abbrev pub version_tls13 : ℕ
version_tls13 = 772

-- The library: AppendCertsFromPEM into an empty pool, X509KeyPair, LoadX509KeyPair at one time, and
-- filepath.Join. `none` is an error throughout.
pub record Library (Pool KeyPair : Type 0) : Type 0 where
  pub append_certs_from_pem : String → Option Pool
  pub x509_key_pair : String → String → Option KeyPair
  pub load_x509_key_pair : Files → String → String → Option KeyPair
  pub join : String → String → String

-- the fields of tls.Config that are set
pub record ServerConfig (Pool KeyPair : Type 0) : Type 0 where
  pub certificate : KeyPair
  pub client_auth : ClientAuthType
  pub client_cas : Pool
  pub min_version : ℕ

pub record ClientConfig (Pool KeyPair : Type 0) : Type 0 where
  pub certificate : KeyPair
  pub root_cas : Pool
  pub min_version : ℕ
  pub server_name : String

module _ {Pool KeyPair : Type 0} (lib : Library Pool KeyPair) where
  unfoldable pub load_ca_cert_pool_from_pem : String → Option Pool
  load_ca_cert_pool_from_pem ca_pem = lib.append_certs_from_pem ca_pem

  abbrev pub pool_of_text : Option String → Option Pool
  pool_of_text none = none
  pool_of_text (some ca_pem) = load_ca_cert_pool_from_pem ca_pem

  unfoldable pub load_ca_cert_pool : Files → String → Option Pool
  load_ca_cert_pool files path = pool_of_text (files.read_file path)

  unfoldable pub load_key_pair_from_pem : String → String → Option KeyPair
  load_key_pair_from_pem cert_pem key_pem = lib.x509_key_pair cert_pem key_pem

  unfoldable pub load_key_pair : Files → String → String → Option KeyPair
  load_key_pair files cert_path key_path = lib.load_x509_key_pair files cert_path key_path

  abbrev pub is_loaded : Option KeyPair → Bool
  is_loaded none = false
  is_loaded (some pair) = true

  -- whether there is no error
  unfoldable pub validate_cert_dir : Files → String → Bool
  validate_cert_dir files dir_path =
      if dir_path == ""
      then false
      else if not (files.exists dir_path)
      then false
      else is_loaded
          (load_key_pair files (lib.join dir_path cert_file) (lib.join dir_path key_file))

  abbrev pub server_config_of : Option KeyPair → Option Pool → Option (ServerConfig Pool KeyPair)
  server_config_of none ca_pool = none
  server_config_of (some server_cert) none = none
  server_config_of (some server_cert) (some ca_pool) = some (record {
    certificate = server_cert;
    client_auth = require_and_verify_client_cert;
    client_cas = ca_pool;
    min_version = version_tls13;
  })

  unfoldable pub server_credentials_from_pem :
      String → String → String → Option (ServerConfig Pool KeyPair)
  server_credentials_from_pem ca_pem cert_pem key_pem =
      server_config_of (load_key_pair_from_pem cert_pem key_pem) (load_ca_cert_pool_from_pem ca_pem)

  -- GetConfigForClient, at the time of a handshake
  unfoldable pub get_config_for_client : String → Files → Option (ServerConfig Pool KeyPair)
  get_config_for_client cert_dir files =
      server_config_of
        (load_key_pair files (lib.join cert_dir cert_file) (lib.join cert_dir key_file))
        (load_ca_cert_pool files (lib.join cert_dir ca_file))

  abbrev pub when_loaded :
      String → Option Pool → Option (Files → Option (ServerConfig Pool KeyPair))
  when_loaded cert_dir none = none
  when_loaded cert_dir (some ca_pool) = some (get_config_for_client cert_dir)

  -- the credentials are what they answer to a handshake
  unfoldable pub server_credentials :
      Files → String → Option (Files → Option (ServerConfig Pool KeyPair))
  server_credentials files cert_dir =
      if not (validate_cert_dir files cert_dir)
      then none
      else when_loaded cert_dir (load_ca_cert_pool files (lib.join cert_dir ca_file))

  abbrev pub client_config_of :
      String → Option Pool → Option KeyPair → Option (ClientConfig Pool KeyPair)
  client_config_of server_name none client_cert = none
  client_config_of server_name (some pool) none = none
  client_config_of server_name (some pool) (some client_cert) = some (record {
    certificate = client_cert;
    root_cas = pool;
    min_version = version_tls13;
    server_name = server_name;
  })

  unfoldable pub client_credentials_from_pem :
      String → String → String → String → Option (ClientConfig Pool KeyPair)
  client_credentials_from_pem ca_pem cert_pem key_pem server_name =
      client_config_of server_name (load_ca_cert_pool_from_pem ca_pem)
        (load_key_pair_from_pem cert_pem key_pem)

  unfoldable pub read_cert_dir_pems : Files → String → Option Material
  read_cert_dir_pems files cert_dir =
      if not (validate_cert_dir files cert_dir)
      then none
      else material_of (files.read_file (lib.join cert_dir ca_file))
          (files.read_file (lib.join cert_dir cert_file))
          (files.read_file (lib.join cert_dir key_file))

  abbrev pub client_of_material : String → Option Material → Option (ClientConfig Pool KeyPair)
  client_of_material server_name none = none
  client_of_material server_name (some m) =
      client_credentials_from_pem m.ca m.cert m.key server_name

  unfoldable pub client_credentials : Files → String → String → Option (ClientConfig Pool KeyPair)
  client_credentials files cert_dir server_name =
      client_of_material server_name (read_cert_dir_pems files cert_dir)
