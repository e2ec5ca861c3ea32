-- ===== src/Opcua/Security/Server/Clients.antt =====
-- A server that was asked to check its clients checks them against the list it has read.
use safeedge.Opcua.Security.Endpoints.{drop_unencrypted_endpoints}
use safeedge.Opcua.Security.TrustList.{some_bytes, read_file, read_trust_list, FileSystem, is_empty}
use safeedge.Opcua.Security.Server.Laws.{IsSound}
use safeedge.Opcua.Security.Server.{
  configure_security, name_server, read_file, authenticate, drop_unencrypted_endpoints,
  wants_trust_list, configure_plain, finish, find_identity, configure_encrypted, read_trust_list,
  apply_identity, FileSystem, check_clients,
}
use mathlib.Core.Option.{some}
use safeedge.Common.{
  ◌≤◌, ltb, List, length, Bool, true, false, not, ◌&&◌, ◌≡◌, ◌⊎◌, refl, ap, arith, if_both, inl,
  inr,
}
use safeedge.Opcua.Security.{
  accept_any_certificate, trust_list, ClientAuthentication, Bytes, SecurityOptions, SecurityPosture,
  initial_posture, ServerConfig, Library, trusts,
}

-- The list is in both verifications, and the posture counts it.
abbrev pub Checks : List Bytes → SecurityOptions → SecurityPosture → ServerConfig → Type 0
Checks trusted options posture config =
    (config.secure_channel_pki ≡ trusts trusted)
    × (config.session_pki ≡ trusts trusted)
    × (posture.trusted_certificate_count ≡ length trusted)
    × (1 ≤ length trusted)
    × (options.allow_unencrypted ≡ false)

abbrev Authenticates : List Bytes → SecurityOptions → SecurityPosture × ServerConfig → Type 0
Authenticates trusted options (posture, config) =
    (posture.policy_count ≡ 0) ⊎ Checks trusted options posture config

-- Both verifications of a configuration.
abbrev Installed : List Bytes → ServerConfig → Type 0
Installed trusted config =
    (config.secure_channel_pki ≡ trusts trusted) × (config.session_pki ≡ trusts trusted)

check_clients-Installed :
    (a : ClientAuthentication) (trusted : List Bytes) (config : ServerConfig)
    → a ≡ trust_list
    → Installed trusted config
    → Installed trusted (check_clients a config)
unfolding check_clients
check_clients-Installed accept_any_certificate trusted config e i = cc
check_clients-Installed trust_list trusted config e i = i

module _ (library : Library) (sound : IsSound library) (options : SecurityOptions)
    (asked : options.authentication ≡ trust_list) (strict : options.allow_unencrypted ≡ false)
    (trusted : List Bytes) (loaded : 1 ≤ length trusted) where
  finish-Checks :
      (posture : SecurityPosture) (config : ServerConfig)
      → posture.trusted_certificate_count ≡ length trusted
      → Installed trusted config
      → Checks trusted options (finish options posture config).0 (finish options posture config).1
  unfolding finish drop_unencrypted_endpoints name_server
  finish-Checks posture config count installed =
      let checked = check_clients options.authentication (name_server config) in
      let both =
        check_clients-Installed options.authentication trusted (name_server config) asked
          (installed) in
      let last = if_both (Installed trusted) options.allow_unencrypted (λ _. both) (λ _. both) in
      (last.0, last.1, count, loaded, strict)

  apply_identity-Checks :
      (posture : SecurityPosture) (certificate key : Bytes) (config : ServerConfig)
      → posture.policy_count ≡ 0
      → posture.trusted_certificate_count ≡ length trusted
      → Authenticates trusted options
          (apply_identity library options posture trusted certificate key config)
  unfolding apply_identity
  apply_identity-Checks posture certificate key config z count =
      let called =
        library.set_default_with_security_policies config options.port certificate key trusted in
      if_both (Authenticates trusted options) called.0
        (λ good. inr (
          finish-Checks posture called.1 count
            (sound.installed config options.port certificate key trusted good loaded)))
        (λ _. inl z)

  find_identity-Checks :
      (files : FileSystem) (posture : SecurityPosture) (config : ServerConfig)
      → posture.policy_count ≡ 0
      → posture.trusted_certificate_count ≡ length trusted
      → Authenticates trusted options (find_identity library files options posture trusted config)
  unfolding find_identity
  find_identity-Checks files posture config z count =
      let certificate = read_file files options.certificate_path in
      let key = read_file files options.key_path in
      let (created, generated_key, generated) = library.create_certificate in
      if_both (Authenticates trusted options) (ltb 0 (length certificate) && ltb 0 (length key))
        (λ _. apply_identity-Checks _ certificate key config z count)
        (λ _.
          if_both (Authenticates trusted options) created
            (λ _. apply_identity-Checks _ generated generated_key config z count)
            (λ _.
              if_both (Authenticates trusted options) (not options.allow_unencrypted) (λ _. inl z)
                (λ open_door. absurd (ground (arith, strict)))))

module _ (library : Library) (sound : IsSound library) (files : FileSystem)
    (options : SecurityOptions) (asked : options.authentication ≡ trust_list) where
  abbrev list_read : List Bytes
  list_read = read_trust_list files options.trust_list_directory

  configure_encrypted-Checks :
      (posture : SecurityPosture) (config : ServerConfig) (a : ClientAuthentication)
      → a ≡ trust_list
      → posture.policy_count ≡ 0
      → Authenticates list_read options (configure_encrypted library files options posture config a)
  unfolding configure_encrypted authenticate
  configure_encrypted-Checks posture config accept_any_certificate e z = cc
  configure_encrypted-Checks posture config trust_list e z =
      if_both (Authenticates list_read options) options.allow_unencrypted (λ _. inl z)
        (λ strict.
          if_both (Authenticates list_read options) (is_empty list_read) (λ _. inl z)
            (λ some.
              find_identity-Checks library sound options asked strict list_read
                (some_bytes list_read some) files _ config z refl))

  configure_plain-Checks :
      (posture : SecurityPosture) (config : ServerConfig)
      → posture.policy_count ≡ 0
      → (configure_plain library options posture config).0.policy_count ≡ 0
  unfolding configure_plain
  configure_plain-Checks posture config z =
      if_both (λ (r : SecurityPosture × ServerConfig). r.0.policy_count ≡ 0)
        (wants_trust_list options.authentication) (λ _. z)
        (λ other. absurd (
          let wants : wants_trust_list options.authentication ≡ true = ap wants_trust_list asked in
          cc))

-- Asked for a trust list, `configureSecurity` either refuses, which it reports by a posture without
-- policies, or both verifications of the configuration, for the channel and for the session, check
-- against the list read from the directory, which is not empty; the posture counts it, and the
-- unencrypted endpoint was not asked for besides. It relies on open62541 to put the list that it is
-- given into both.
pub configure_security-Checks :
    (encryption : Bool) (library : Library) (files : FileSystem) (config : ServerConfig)
    (options : SecurityOptions)
    → IsSound library
    → options.authentication ≡ trust_list
    → let (posture, left) = configure_security encryption library files (some config) options in
      (posture.policy_count ≡ 0)
      ⊎ ((config' : ServerConfig) × (left ≡ some config')
          × Checks (read_trust_list files options.trust_list_directory) options posture config')
unfolding configure_security
configure_security-Checks true library files config options sound asked =
    let posture = initial_posture options.authentication in
    elim (configure_encrypted-Checks library sound files options asked posture config
      options.authentication asked refl) [
        | inl refused ↦ inl refused
        | inr checks ↦ inr (
          (configure_encrypted library files options posture config options.authentication).1,
          refl,
          checks,
        )
      ]
configure_security-Checks false library files config options sound asked = inl (
    configure_plain-Checks library sound files options asked
      (initial_posture options.authentication) config refl)
