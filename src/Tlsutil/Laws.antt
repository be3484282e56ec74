-- ===== src/Tlsutil/Laws.antt =====
-- internal/tlsutil/certs.go: the files that a handshake and a client use.
use network_enforcer.Common.{
  String, ◌≡◌, refl, sym, inl, inr, Option, none, some, false, Bool-cases, string_eq,
}
use network_enforcer.Certsource.{
  Material, Reader, material_of, get_dir, ca_file, cert_file, key_file,
}
use network_enforcer.Tlsutil.{
  Files, require_and_verify_client_cert, version_tls13, Library, ServerConfig, pool_of_text,
  load_ca_cert_pool, load_key_pair_from_pem, load_key_pair, validate_cert_dir, server_config_of,
  server_credentials_from_pem, get_config_for_client, when_loaded, server_credentials,
}

-- the key pair of two texts that may be missing
abbrev pub pair_of :
    {KeyPair : Type 0}
    → (String → String → Option KeyPair)
    → Option String
    → Option String
    → Option KeyPair
pair_of x509_key_pair (some cert) (some key) = x509_key_pair cert key
pair_of x509_key_pair (some cert) none = none
pair_of x509_key_pair none key = none

-- the reader of a DirSource at one time
abbrev pub reader_of : Files → Reader
reader_of files = record {
  cancelled = false;
  read_file = files.read_file;
  get_secret = λ name. none;
  get_config_map = λ name. none;
}

module _ {Pool KeyPair : Type 0} (lib : Library Pool KeyPair) where
  abbrev pub server_of_material : Option Material → Option (ServerConfig Pool KeyPair)
  server_of_material none = none
  server_of_material (some m) = server_credentials_from_pem lib m.ca m.cert m.key

  -- a TLS 1.3 configuration that verifies the client's certificate
  abbrev pub IsMutual : Option (ServerConfig Pool KeyPair) → Type 0
  IsMutual none = Unit
  IsMutual (some config) =
      (config.client_auth ≡ require_and_verify_client_cert) × (config.min_version ≡ version_tls13)

  server_config_of-none : (pair : Option KeyPair) → server_config_of lib pair none ≡ none
  server_config_of-none none = refl
  server_config_of-none (some pair) = refl

  server_config_of-IsMutual :
      (pair : Option KeyPair) (pool : Option Pool) → IsMutual (server_config_of lib pair pool)
  server_config_of-IsMutual none pool = tt
  server_config_of-IsMutual (some pair) none = tt
  server_config_of-IsMutual (some pair) (some pool) = (refl, refl)

  server_of_texts :
      (ca cert key : Option String)
      → server_config_of lib (pair_of lib.x509_key_pair cert key) (pool_of_text lib ca)
        ≡ server_of_material (material_of ca cert key)
  unfolding server_credentials_from_pem load_key_pair_from_pem
  server_of_texts none cert key = server_config_of-none (pair_of lib.x509_key_pair cert key)
  server_of_texts (some ca) none key = refl
  server_of_texts (some ca) (some cert) none = refl
  server_of_texts (some ca) (some cert) (some key) = refl

-- LoadX509KeyPair reads the two files and parses their texts.
module _ {Pool KeyPair : Type 0} (lib : Library Pool KeyPair)
    (reads : (files : Files) (cert key : String)
      → lib.load_x509_key_pair files cert key
        ≡ pair_of lib.x509_key_pair (files.read_file cert) (files.read_file key)) where
  get_config_for_client_lem :
      (cert_dir : String) (files : Files)
      → (get_config_for_client lib cert_dir files
          ≡ server_of_material lib (get_dir (reader_of files) lib.join cert_dir))
        × IsMutual lib (get_config_for_client lib cert_dir files)
  unfolding get_config_for_client load_key_pair load_ca_cert_pool get_dir
  get_config_for_client_lem cert_dir files = (
    rw (reads files (lib.join cert_dir cert_file) (lib.join cert_dir key_file))
        (server_of_texts lib (files.read_file (lib.join cert_dir ca_file)) _ _),
    server_config_of-IsMutual lib _ _,
  )

  when_loaded_lem :
      (cert_dir : String) (pool : Option Pool)
      (handshake : Files → Option (ServerConfig Pool KeyPair))
      → when_loaded lib cert_dir pool ≡ some handshake
      → get_config_for_client lib cert_dir ≡ handshake
  when_loaded_lem cert_dir none handshake h = cc
  when_loaded_lem cert_dir (some pool) handshake h = cc

  -- Where LoadX509KeyPair reads and parses the two files: once the credentials of a server are made,
  -- every handshake uses the material that a DirSource gets at its time, whatever the files were
  -- before, and fails where there is none; it takes TLS 1.3 and a verified client certificate only.
  pub server_credentials_rotate :
      (files later : Files) (cert_dir : String)
      (handshake : Files → Option (ServerConfig Pool KeyPair))
      → server_credentials lib files cert_dir ≡ some handshake
      → (handshake later ≡ server_of_material lib (get_dir (reader_of later) lib.join cert_dir))
        × IsMutual lib (handshake later)
  unfolding server_credentials
  server_credentials_rotate files later cert_dir handshake h =
      elim (Bool-cases (validate_cert_dir lib files cert_dir)) [
        | inl v ↦
            let e =
              when_loaded_lem cert_dir (load_ca_cert_pool lib files (lib.join cert_dir ca_file))
                handshake (rw v at h) in
            rw (sym e) (get_config_for_client_lem cert_dir later)
        | inr v ↦ absurd (cc (rw v at h))
      ]
