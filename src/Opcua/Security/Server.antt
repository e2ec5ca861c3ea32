-- ===== src/Opcua/Security/Server.antt =====
-- src/opcua/security.cpp, `configureSecurity`. `encryption` is whether UA_ENABLE_ENCRYPTION is
-- defined; the config is absent where the code is given a null pointer.
pub mod Laws
pub mod Clients
use mathlib.Core.Option.{Option, none, some}
use safeedge.Common.{
  ℕ, zero, suc, ◌+◌, ltb, if◌then◌else◌, List, [], ◌∷◌, length, Bool, true, false, not, ◌&&◌, ◌≡◌,
}
use safeedge.Opcua.Security.{
  with_dropped, could_not_generate, with_any_client, no_crypto, trust_list, no_crypto_not_permitted,
  self_signed, no_certificates_loaded, with_trust_list, certificate_loaded, could_not_apply,
  no_crypto_for_trust_list, accept_any_certificate, trust_list_with_unencrypted, FilePath, Bytes,
  CertificateOrigin, loaded_from_files, generated_self_signed, no_certificate, ClientAuthentication,
  SecurityOptions, SecurityPosture, initial_posture, Detail, no_server_config, Verification,
  accept_all, Endpoint, ServerConfig, Library,
}
use safeedge.Opcua.Security.TrustList.{FileSystem, read_file, read_trust_list, is_empty}
use safeedge.Opcua.Security.Endpoints.{drop_unencrypted_endpoints}

-- `kApplicationUri`, "urn:safeedge:opcua"
abbrev application_uri_text : FilePath
application_uri_text =
    b'u' ∷ b'r' ∷ b'n' ∷ b':' ∷ b's' ∷ b'a' ∷ b'f' ∷ b'e' ∷ b'e' ∷ b'd' ∷ b'g' ∷ b'e' ∷ b':' ∷ b'o'
    ∷ b'p' ∷ b'c' ∷ b'a' ∷ []

abbrev pub wants_trust_list : ClientAuthentication → Bool
wants_trust_list accept_any_certificate = false
wants_trust_list trust_list = true

-- The loop that writes the application URI into the first `n` endpoints.
set_uri : ℕ → List Endpoint → List Endpoint
set_uri zero es = es
set_uri (suc n) [] = []
set_uri (suc n) (e ∷ es) = record e { application_uri = application_uri_text } ∷ set_uri n es

-- The server without encryption.
unfoldable pub run_unencrypted :
    Library
    → SecurityOptions
    → SecurityPosture
    → Detail
    → ServerConfig
    → SecurityPosture × ServerConfig
run_unencrypted library options posture done config =
    let (good, config') = library.set_minimal config options.port in
    if good
    then (
      record posture {
        policy_count = config'.security_policies_size;
        allows_unencrypted = true;
        detail = done;
      },
      config',
    )
    else (posture, config')

-- The identity that the certificate asserts, and the verification of the clients' certificates.
unfoldable pub name_server : ServerConfig → ServerConfig
unfolding set_uri
name_server config = record config {
  application_uri = application_uri_text;
  endpoints = set_uri config.endpoints_size config.endpoints;
}

unfoldable pub check_clients : ClientAuthentication → ServerConfig → ServerConfig
check_clients accept_any_certificate config = record config {
  secure_channel_pki = accept_all;
  session_pki = accept_all;
}
check_clients trust_list config = config

unfoldable pub describe_clients : SecurityOptions → SecurityPosture → ClientAuthentication → Detail
describe_clients options posture accept_any_certificate = with_any_client posture.detail
describe_clients options posture trust_list =
    with_trust_list posture.detail posture.trusted_certificate_count options.trust_list_directory

-- What follows the call that installs the policies.
unfoldable pub finish :
    SecurityOptions → SecurityPosture → ServerConfig → SecurityPosture × ServerConfig
finish options posture config =
    let checked = check_clients options.authentication (name_server config) in
    let said = describe_clients options posture options.authentication in
    let (dropped, removed) = drop_unencrypted_endpoints checked in
    let last = if options.allow_unencrypted then checked else dropped in
    (
      record posture {
        detail = if options.allow_unencrypted then said else with_dropped said removed;
        policy_count = last.security_policies_size;
        allows_unencrypted = options.allow_unencrypted;
        allows_anonymous = true;
      },
      last,
    )

-- From the identity to the endpoints.
unfoldable pub apply_identity :
    Library
    → SecurityOptions
    → SecurityPosture
    → List Bytes
    → Bytes
    → Bytes
    → ServerConfig
    → SecurityPosture × ServerConfig
apply_identity library options posture trusted certificate private_key config =
    let (good, config') =
      library.set_default_with_security_policies config options.port certificate private_key
        trusted in
    if good
    then finish options posture config'
    else (record posture { origin = no_certificate; detail = could_not_apply }, config')

-- From the certificate files, or a new certificate, on.
unfoldable pub find_identity :
    Library
    → FileSystem
    → SecurityOptions
    → SecurityPosture
    → List Bytes
    → ServerConfig
    → SecurityPosture × ServerConfig
find_identity library files options posture trusted config =
    let certificate = read_file files options.certificate_path in
    let private_key = read_file files options.key_path in
    if ltb 0 (length certificate) && ltb 0 (length private_key)
    then apply_identity library options
        (record posture {
          origin = loaded_from_files;
          detail = certificate_loaded options.certificate_path;
        })
        trusted certificate private_key config
    else let (created, generated_key, generated) = library.create_certificate in
      if created
      then apply_identity library options
          (record posture { origin = generated_self_signed; detail = self_signed }) trusted
          generated generated_key config
      else let failed = record posture { detail = could_not_generate } in
        if not options.allow_unencrypted
        then (failed, config)
        else run_unencrypted library options failed could_not_generate config

-- With a trust list that has been read.
unfoldable pub authenticate :
    Library
    → FileSystem
    → SecurityOptions
    → SecurityPosture
    → List Bytes
    → ServerConfig
    → SecurityPosture × ServerConfig
authenticate library files options posture trusted config =
    let counted = record posture { trusted_certificate_count = length trusted } in
    if is_empty trusted
    then (record counted { detail = no_certificates_loaded options.trust_list_directory }, config)
    else find_identity library files options counted trusted config

-- With a crypto backend: by what the options want of the clients.
unfoldable pub configure_encrypted :
    Library
    → FileSystem
    → SecurityOptions
    → SecurityPosture
    → ServerConfig
    → ClientAuthentication
    → SecurityPosture × ServerConfig
configure_encrypted library files options posture config accept_any_certificate =
    find_identity library files options posture [] config
configure_encrypted library files options posture config trust_list =
    if options.allow_unencrypted
    then (record posture { detail = trust_list_with_unencrypted }, config)
    else authenticate library files options posture
        (read_trust_list files options.trust_list_directory) config

-- Without one.
unfoldable pub configure_plain :
    Library → SecurityOptions → SecurityPosture → ServerConfig → SecurityPosture × ServerConfig
configure_plain library options posture config =
    if wants_trust_list options.authentication
    then (record posture { detail = no_crypto_for_trust_list }, config)
    else if not options.allow_unencrypted
    then (record posture { detail = no_crypto_not_permitted }, config)
    else run_unencrypted library options posture no_crypto config

unfoldable pub configure_security :
    Bool
    → Library
    → FileSystem
    → Option ServerConfig
    → SecurityOptions
    → SecurityPosture × Option ServerConfig
configure_security encryption library files none options =
    (record (initial_posture options.authentication) { detail = no_server_config }, none)
configure_security encryption library files (some config) options =
    let posture = initial_posture options.authentication in
    let (posture', config') =
      if encryption
      then configure_encrypted library files options posture config options.authentication
      else configure_plain library options posture config in
    (posture', some config')
