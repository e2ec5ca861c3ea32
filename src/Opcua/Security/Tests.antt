-- ===== src/Opcua/Security/Tests.antt =====
-- A library that offers a plaintext endpoint beside an encrypted one, and a directory with one
-- certificate.
use safeedge.Opcua.Security.Server.Clients.{configure_security-Checks, Checks}
use safeedge.Opcua.Security.Endpoints.Laws.{drop_unencrypted_endpoints-encrypted}
use safeedge.Opcua.Security.TrustList.{has_der_extension, read_file, FileSystem, read_trust_list}
use safeedge.Opcua.Security.Server.Laws.{
  configure_security-OffersNoPlaintext, OffersNoPlaintext, IsSound,
}
use safeedge.Opcua.Security.Client.{
  configure_server_verification-Decided, Decided, configure_server_verification, InstallsTrustList,
}
use safeedge.Opcua.Security.Server.{
  check_clients, name_server, finish, apply_identity, find_identity, authenticate,
  configure_encrypted, configure_security,
}
use safeedge.Opcua.Security.Endpoints.{encrypted, drop_unencrypted_endpoints}
use mathlib.Core.Option.{some}
use safeedge.Common.{List, [], ◌∷◌, true, false, ◌≡◌, ◌⊎◌, refl, arith, pos, ◌+◌, take}
use safeedge.Opcua.Security.{
  sign_and_encrypt, accept_any_certificate, trust_list, unset, ClientAuthentication, trusts,
  ServerVerificationOptions, SecurityMode, ServerConfig, ClientConfig, Library, SecurityOptions,
  Endpoint, FilePath, Bytes,
}

abbrev plain_and_secure : List Endpoint
plain_and_secure =
    record { security_mode = SecurityMode.none; application_uri = [] }
    ∷ record { security_mode = sign_and_encrypt; application_uri = [] }
    ∷ []

abbrev blank : ServerConfig
blank = record {
  endpoints = [];
  endpoints_size = 0;
  security_policies_size = 0;
  application_uri = [];
  secure_channel_pki = unset;
  session_pki = unset;
}

abbrev filled : List Bytes → ServerConfig
filled trusted = record {
  endpoints = plain_and_secure;
  endpoints_size = 2;
  security_policies_size = 3;
  application_uri = [];
  secure_channel_pki = trusts trusted;
  session_pki = trusts trusted;
}

abbrev sample_library : Library
sample_library = record {
  create_certificate = (true, 1 ∷ [], 2 ∷ []);
  set_minimal = λ config port. (true, filled []);
  set_default_with_security_policies =
      λ config port certificate key trusted. (true, filled trusted);
  certificate_verification_trust_list =
      λ config trusted. (true, record config { certificate_verification = trusts trusted });
}

sample_library-IsSound : IsSound sample_library
sample_library-IsSound = record {
  filled_in = λ config port certificate key trusted good. omega arith;
  installed = λ config port certificate key trusted good some. (refl, refl);
}

sample_library-InstallsTrustList : InstallsTrustList sample_library
sample_library-InstallsTrustList = record { installs = λ config trusted good. refl }

-- "t/a.der"
abbrev anchor : FilePath
anchor = b't' ∷ b'/' ∷ b'a' ∷ b'.' ∷ b'd' ∷ b'e' ∷ b'r' ∷ []

abbrev sample_files : FileSystem
sample_files = record {
  open_file = λ path. some (record { size = pos 2; allocated = true; content = 7 ∷ 8 ∷ [] });
  entries =
      λ directory. some (record { path = anchor; is_regular_file = true; error = false } ∷ []);
}

abbrev options_with : ClientAuthentication → SecurityOptions
options_with authentication = record {
  port = 4840;
  certificate_path = [];
  key_path = [];
  trust_list_directory = b't' ∷ [];
  allow_unencrypted = false;
  authentication = authentication;
}

trust_list_example : read_trust_list sample_files (b't' ∷ []) ≡ (7 ∷ 8 ∷ []) ∷ []
unfolding read_trust_list read_file has_der_extension
trust_list_example = refl

-- The server comes up with the one endpoint that is encrypted.
comes_up :
    (configure_security true sample_library sample_files
      (some blank)
      (options_with trust_list)).0.policy_count
    ≡ 3
unfolding configure_security configure_encrypted authenticate find_identity apply_identity finish
    name_server check_clients drop_unencrypted_endpoints read_trust_list read_file has_der_extension
comes_up = refl

configure_security-OffersNoPlaintext_example :
    let (posture, left) =
      configure_security true sample_library sample_files
        (some blank)
        (options_with accept_any_certificate) in
    (posture.policy_count ≡ 0)
    ⊎ ((config' : ServerConfig) × (left ≡ some config')
        × OffersNoPlaintext config'
        × (posture.allows_unencrypted ≡ false))
configure_security-OffersNoPlaintext_example =
    configure_security-OffersNoPlaintext true sample_library sample_files blank
      (options_with accept_any_certificate) sample_library-IsSound refl

configure_security-Checks_example :
    let (posture, left) =
      configure_security true sample_library sample_files (some blank) (options_with trust_list) in
    (posture.policy_count ≡ 0)
    ⊎ ((config' : ServerConfig) × (left ≡ some config')
        × Checks
            (read_trust_list sample_files (b't' ∷ []))
            (options_with trust_list)
            posture
            config')
configure_security-Checks_example =
    configure_security-Checks true sample_library sample_files blank (options_with trust_list)
      sample_library-IsSound refl

drop_unencrypted_endpoints-encrypted_example :
    let (config', removed) = drop_unencrypted_endpoints (filled []) in
    (take config'.endpoints_size config'.endpoints ≡ encrypted plain_and_secure)
    × (config'.endpoints_size + removed ≡ 2)
    × (config' ≡ record (filled []) {
      endpoints = config'.endpoints;
      endpoints_size = config'.endpoints_size;
    })
drop_unencrypted_endpoints-encrypted_example =
    drop_unencrypted_endpoints-encrypted (filled []) (omega arith)

abbrev probe : ClientConfig
probe = record { security_mode = SecurityMode.none; certificate_verification = unset }

configure_server_verification-Decided_example :
    let options : ServerVerificationOptions = record {
      trust_list_directory = b't' ∷ [];
      insecure_accept_any_certificate = false;
    } in
    let (posture, left) =
      configure_server_verification true sample_library sample_files (some probe) options in
    (config' : ClientConfig) × (left ≡ some config')
    × Decided (read_trust_list sample_files (b't' ∷ [])) options (posture, config')
configure_server_verification-Decided_example =
    configure_server_verification-Decided true sample_library sample_files
      (record { trust_list_directory = b't' ∷ []; insecure_accept_any_certificate = false }) probe
      sample_library-InstallsTrustList
