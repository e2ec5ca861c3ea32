-- ===== src/Opcua/Security.antt =====
-- src/opcua/security.cpp and include/safeedge/opcua/security.hpp: how the server and the probe decide
-- whom they talk to. The files are given by what `fopen` and the directory hold, and open62541's calls
-- are the fields of `Library`. Each text of `detail` is a constructor of `Detail`.
pub mod TrustList
pub mod Endpoints
pub mod Server
pub mod Client
mod Tests
use safeedge.Common.{ℕ, List, [], ◌∷◌, Bool, true, false, ◌≡◌}

-- A path or a text, as its code units, and a `UA_ByteString`.
abbrev pub FilePath : Type 0
FilePath = List ℕ

abbrev pub Bytes : Type 0
Bytes = List ℕ

pub data CertificateOrigin : Type 0 where
  loaded_from_files generated_self_signed no_certificate : CertificateOrigin

pub data ClientAuthentication : Type 0 where
  accept_any_certificate trust_list : ClientAuthentication

pub record SecurityOptions : Type 0 where
  pub port : ℕ
  pub certificate_path : FilePath
  pub key_path : FilePath
  pub trust_list_directory : FilePath
  pub allow_unencrypted : Bool
  pub authentication : ClientAuthentication

-- The texts of `detail`. The last three are appended to what stands before them.
pub data Detail : Type 0 where
  none_given : Detail
  no_server_config : Detail
  trust_list_with_unencrypted : Detail
  no_certificates_loaded : (directory : FilePath) → Detail
  certificate_loaded : (path : FilePath) → Detail
  could_not_generate : Detail
  self_signed : Detail
  could_not_apply : Detail
  no_crypto_for_trust_list : Detail
  no_crypto_not_permitted : Detail
  no_crypto : Detail
  with_trust_list : Detail → (count : ℕ) (directory : FilePath) → Detail
  with_any_client : Detail → Detail
  with_dropped : Detail → (removed : ℕ) → Detail

pub record SecurityPosture : Type 0 where
  pub origin : CertificateOrigin
  pub policy_count : ℕ
  pub allows_unencrypted : Bool
  pub allows_anonymous : Bool
  pub authentication : ClientAuthentication
  pub trusted_certificate_count : ℕ
  pub detail : Detail

-- A default-constructed posture with the authentication of the options.
abbrev pub initial_posture : ClientAuthentication → SecurityPosture
initial_posture authentication = record {
  origin = no_certificate;
  policy_count = 0;
  allows_unencrypted = false;
  allows_anonymous = true;
  authentication = authentication;
  trusted_certificate_count = 0;
  detail = none_given;
}

-- `UA_MessageSecurityMode`
pub data SecurityMode : Type 0 where
  invalid none sign sign_and_encrypt : SecurityMode

-- `UA_CertificateVerification`: what a verification was last set up to accept.
pub data Verification : Type 0 where
  unset : Verification
  accept_all : Verification
  trusts : List Bytes → Verification

-- The members of `UA_EndpointDescription` and `UA_ServerConfig` that the code touches.
pub record Endpoint : Type 0 where
  pub security_mode : SecurityMode
  pub application_uri : FilePath

pub record ServerConfig : Type 0 where
  pub endpoints : List Endpoint
  pub endpoints_size : ℕ
  pub security_policies_size : ℕ
  pub application_uri : FilePath
  pub secure_channel_pki : Verification
  pub session_pki : Verification

pub record ClientConfig : Type 0 where
  pub security_mode : SecurityMode
  pub certificate_verification : Verification

-- The calls of open62541. A call that returns a status gives true for `UA_STATUSCODE_GOOD`, beside
-- the config that it leaves; `create_certificate` gives the private key and the certificate.
pub record Library : Type 0 where
  pub create_certificate : Bool × Bytes × Bytes
  pub set_minimal : ServerConfig → ℕ → Bool × ServerConfig
  pub set_default_with_security_policies :
      ServerConfig → ℕ → Bytes → Bytes → List Bytes → Bool × ServerConfig
  pub certificate_verification_trust_list : ClientConfig → List Bytes → Bool × ClientConfig

pub record ServerVerificationOptions : Type 0 where
  pub trust_list_directory : FilePath
  pub insecure_accept_any_certificate : Bool

-- The texts of `detail` on the probe's side.
pub data ClientDetail : Type 0 where
  nothing_said : ClientDetail
  no_client_config : ClientDetail
  mutually_exclusive : ClientDetail
  disabled : ClientDetail
  requires_trust_list : ClientDetail
  no_server_certificates : (directory : FilePath) → ClientDetail
  could_not_configure : ClientDetail
  enabled : (count : ℕ) (directory : FilePath) → ClientDetail
  requires_encryption : ClientDetail

pub record ServerVerificationPosture : Type 0 where
  pub configured : Bool
  pub verifies_server_certificate : Bool
  pub trusted_certificate_count : ℕ
  pub detail : ClientDetail
