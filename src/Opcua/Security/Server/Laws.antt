-- ===== src/Opcua/Security/Server/Laws.antt =====
-- What a server that comes up has decided: no plaintext without leave, and no trust list that is not
-- in force. A posture without policies is a server that does not come up.
use safeedge.Opcua.Security.Endpoints.Laws.{drop-All}
use mathlib.Core.Option.{some}
use safeedge.Common.{
  if_both, ℕ, zero, suc, ◌≤◌, ltb, List, [], ◌∷◌, length, take, All, Bool, true, false, not, ◌&&◌,
  ◌≡◌, ◌⊎◌, refl, ap, arith, inl, inr,
}
use safeedge.Opcua.Security.{
  trust_list, accept_any_certificate, ClientAuthentication, Bytes, SecurityOptions, SecurityPosture,
  initial_posture, ServerConfig, Library, Endpoint, trusts,
}
use safeedge.Opcua.Security.TrustList.{FileSystem, read_file, read_trust_list, is_empty}
use safeedge.Opcua.Security.Endpoints.{is_unencrypted}
use safeedge.Opcua.Security.Server.{
  authenticate, name_server, check_clients, finish, set_uri, wants_trust_list, apply_identity,
  find_identity, configure_encrypted, configure_plain, configure_security,
}

-- What the code relies on: a configuration that open62541 has filled in has its endpoints in the
-- array, and a trust list that it was given is in both verifications.
pub record IsSound (library : Library) : Type 0 where
  pub filled_in :
      (config : ServerConfig) (port : ℕ) (certificate key : Bytes) (trusted : List Bytes)
      → let (good, config') =
          library.set_default_with_security_policies config port certificate key trusted in
        good ≡ true → config'.endpoints_size ≤ length config'.endpoints
  pub installed :
      (config : ServerConfig) (port : ℕ) (certificate key : Bytes) (trusted : List Bytes)
      → let (good, config') =
          library.set_default_with_security_policies config port certificate key trusted in
        good ≡ true
        → 1 ≤ length trusted
        → (config'.secure_channel_pki ≡ trusts trusted) × (config'.session_pki ≡ trusts trusted)

-- Every endpoint that the server offers is encrypted or signed.
abbrev pub OffersNoPlaintext : ServerConfig → Type 0
OffersNoPlaintext config =
    All (λ e. is_unencrypted e.security_mode ≡ false) (take config.endpoints_size config.endpoints)

-- Refused, or up without plaintext.
abbrev Encrypted : SecurityPosture × ServerConfig → Type 0
Encrypted (posture, config) =
    (posture.policy_count ≡ 0) ⊎ (OffersNoPlaintext config × (posture.allows_unencrypted ≡ false))

length-set_uri : (n : ℕ) (es : List Endpoint) → length (set_uri n es) ≡ length es
unfolding set_uri
length-set_uri zero es = refl
length-set_uri (suc n) [] = refl
length-set_uri (suc n) (e ∷ es) = ap suc (length-set_uri n es)

checked_length :
    (a : ClientAuthentication) (config : ServerConfig)
    → config.endpoints_size ≤ length config.endpoints
    → (check_clients a (name_server config)).endpoints_size
      ≤ length (check_clients a (name_server config)).endpoints
unfolding check_clients name_server
checked_length accept_any_certificate config h =
    omega (arith, length-set_uri config.endpoints_size config.endpoints)
checked_length trust_list config h =
    omega (arith, length-set_uri config.endpoints_size config.endpoints)

module _ (library : Library) (sound : IsSound library) (options : SecurityOptions)
    (strict : options.allow_unencrypted ≡ false) where
  finish-Encrypted :
      (posture : SecurityPosture) (config : ServerConfig)
      → config.endpoints_size ≤ length config.endpoints
      → Encrypted (finish options posture config)
  unfolding finish
  finish-Encrypted posture config h =
      let checked = check_clients options.authentication (name_server config) in
      inr (
        if_both OffersNoPlaintext options.allow_unencrypted
            (λ open_door. absurd (ground (arith, strict)))
            (λ _. drop-All checked (checked_length options.authentication config h)),
        strict,
      )

  apply_identity-Encrypted :
      (posture : SecurityPosture) (trusted : List Bytes) (certificate key : Bytes)
      (config : ServerConfig)
      → posture.policy_count ≡ 0
      → Encrypted (apply_identity library options posture trusted certificate key config)
  unfolding apply_identity
  apply_identity-Encrypted posture trusted certificate key config z =
      let called =
        library.set_default_with_security_policies config options.port certificate key trusted in
      if_both Encrypted called.0
        (λ good.
          finish-Encrypted posture called.1
            (sound.filled_in config options.port certificate key trusted good))
        (λ _. inl z)

  find_identity-Encrypted :
      (files : FileSystem) (posture : SecurityPosture) (trusted : List Bytes)
      (config : ServerConfig)
      → posture.policy_count ≡ 0
      → Encrypted (find_identity library files options posture trusted config)
  unfolding find_identity
  find_identity-Encrypted files posture trusted config z =
      let certificate = read_file files options.certificate_path in
      let key = read_file files options.key_path in
      let (created, generated_key, generated) = library.create_certificate in
      if_both Encrypted (ltb 0 (length certificate) && ltb 0 (length key))
        (λ _. apply_identity-Encrypted _ trusted certificate key config z)
        (λ _.
          if_both Encrypted created
            (λ _. apply_identity-Encrypted _ trusted generated generated_key config z)
            (λ _.
              if_both Encrypted (not options.allow_unencrypted) (λ _. inl z)
                (λ open_door. absurd (ground (arith, strict)))))

  configure_encrypted-Encrypted :
      (files : FileSystem) (posture : SecurityPosture) (config : ServerConfig)
      (a : ClientAuthentication)
      → posture.policy_count ≡ 0
      → Encrypted (configure_encrypted library files options posture config a)
  unfolding configure_encrypted authenticate
  configure_encrypted-Encrypted files posture config accept_any_certificate z =
      find_identity-Encrypted files posture [] config z
  configure_encrypted-Encrypted files posture config trust_list z =
      let trusted = read_trust_list files options.trust_list_directory in
      if_both Encrypted options.allow_unencrypted (λ _. inl z)
        (λ _.
          if_both Encrypted (is_empty trusted) (λ _. inl z)
            (λ _. find_identity-Encrypted files _ trusted config z))

  configure_plain-Encrypted :
      (posture : SecurityPosture) (config : ServerConfig)
      → posture.policy_count ≡ 0
      → Encrypted (configure_plain library options posture config)
  unfolding configure_plain
  configure_plain-Encrypted posture config z =
      if_both Encrypted (wants_trust_list options.authentication) (λ _. inl z)
        (λ _.
          if_both Encrypted (not options.allow_unencrypted) (λ _. inl z)
            (λ open_door. absurd (ground (arith, strict))))

-- With `allow_unencrypted` off, `configureSecurity` either refuses, which it reports by a
-- posture without policies, or leaves a configuration in which no endpoint uses the mode None, and
-- reports that unencrypted sessions are not allowed: whatever files there are, and whatever
-- open62541's calls return, once those that succeed leave the endpoints in the array.
pub configure_security-OffersNoPlaintext :
    (encryption : Bool) (library : Library) (files : FileSystem) (config : ServerConfig)
    (options : SecurityOptions)
    → IsSound library
    → options.allow_unencrypted ≡ false
    → let (posture, left) = configure_security encryption library files (some config) options in
      (posture.policy_count ≡ 0)
      ⊎ ((config' : ServerConfig) × (left ≡ some config')
          × OffersNoPlaintext config'
          × (posture.allows_unencrypted ≡ false))
unfolding configure_security
configure_security-OffersNoPlaintext true library files config options sound strict =
    let posture = initial_posture options.authentication in
    elim (configure_encrypted-Encrypted library sound options strict files posture config
      options.authentication refl) [
        | inl refused ↦ inl refused
        | inr (secure, plain) ↦ inr (
          (configure_encrypted library files options posture config options.authentication).1,
          refl,
          secure,
          plain,
        )
      ]
configure_security-OffersNoPlaintext false library files config options sound strict =
    let posture = initial_posture options.authentication in
    elim (configure_plain-Encrypted library sound options strict posture config refl) [
      | inl refused ↦ inl refused
      | inr (secure, plain) ↦
          inr ((configure_plain library options posture config).1, refl, secure, plain)
    ]
