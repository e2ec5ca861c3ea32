-- ===== src/Opcua/Security/Client.antt =====
-- src/opcua/security.cpp, `configureServerVerification`: which server the probe may talk to.
use mathlib.Core.Option.{Option, none, some}
use safeedge.Common.{
  ◌≤◌, if◌then◌else◌, if_both, List, length, Bool, true, false, not, ◌&&◌, ◌≡◌, ◌⊎◌, refl, ap, ◌∙◌,
  inl, inr,
}
use safeedge.Opcua.Security.{
  requires_trust_list, disabled, could_not_configure, requires_encryption, enabled,
  no_server_certificates, mutually_exclusive, ClientDetail, no_client_config,
  ServerVerificationOptions, ServerVerificationPosture, ClientConfig, Library, sign_and_encrypt,
  accept_all, trusts, Bytes,
}
use safeedge.Opcua.Security.TrustList.{some_bytes, FileSystem, read_trust_list, is_empty}

-- A default-constructed posture with a text.
abbrev said : ClientDetail → ServerVerificationPosture
said detail = record {
  configured = false;
  verifies_server_certificate = false;
  trusted_certificate_count = 0;
  detail = detail;
}

-- With a trust list that has been read.
unfoldable pub verify_against :
    Library
    → ServerVerificationOptions
    → List Bytes
    → ClientConfig
    → ServerVerificationPosture × ClientConfig
verify_against library options trusted config =
    let counted = record (said (no_server_certificates options.trust_list_directory)) {
      trusted_certificate_count = length trusted;
    } in
    let (good, config') = library.certificate_verification_trust_list config trusted in
    if is_empty trusted
    then (counted, config)
    else if good
    then (
      record counted {
        configured = true;
        verifies_server_certificate = true;
        detail = enabled (length trusted) options.trust_list_directory;
      },
      config',
    )
    else (record counted { detail = could_not_configure }, config')

unfoldable pub configure_client :
    Bool
    → Library
    → FileSystem
    → ServerVerificationOptions
    → ClientConfig
    → ServerVerificationPosture × ClientConfig
configure_client encryption library files options config =
    let secured = record config { security_mode = sign_and_encrypt } in
    if options.insecure_accept_any_certificate && not (is_empty options.trust_list_directory)
    then (said mutually_exclusive, config)
    else if not encryption
    then (said requires_encryption, config)
    else if options.insecure_accept_any_certificate
    then (
      record (said disabled) { configured = true },
      record secured { certificate_verification = accept_all },
    )
    else if is_empty options.trust_list_directory
    then (said requires_trust_list, secured)
    else verify_against library options (read_trust_list files options.trust_list_directory) secured

unfoldable pub configure_server_verification :
    Bool
    → Library
    → FileSystem
    → Option ClientConfig
    → ServerVerificationOptions
    → ServerVerificationPosture × Option ClientConfig
configure_server_verification encryption library files none options = (said no_client_config, none)
configure_server_verification encryption library files (some config) options =
    let (posture, config') = configure_client encryption library files options config in
    (posture, some config')

-- What the code relies on: a good call of open62541 installs the list, and leaves the mode alone.
pub record InstallsTrustList (library : Library) : Type 0 where
  pub installs :
      (config : ClientConfig) (trusted : List Bytes)
      → let (good, config') = library.certificate_verification_trust_list config trusted in
        good ≡ true → config' ≡ record config { certificate_verification = trusts trusted }

-- What a configured probe has decided: encryption, and either the list it read, or, if it was told
-- so, any certificate.
abbrev pub Decided :
    List Bytes → ServerVerificationOptions → ServerVerificationPosture × ClientConfig → Type 0
Decided trusted options (posture, config) =
    ((posture.configured ≡ false) × (posture.verifies_server_certificate ≡ false))
    ⊎ ((config.security_mode ≡ sign_and_encrypt)
        × (((posture.verifies_server_certificate ≡ true)
              × (options.insecure_accept_any_certificate ≡ false)
              × (config.certificate_verification ≡ trusts trusted)
              × (1 ≤ length trusted))
            ⊎ ((posture.verifies_server_certificate ≡ false)
                × (options.insecure_accept_any_certificate ≡ true)
                × (config.certificate_verification ≡ accept_all))))

verify_against-Decided :
    (library : Library) (options : ServerVerificationOptions) (trusted : List Bytes)
    (config : ClientConfig)
    → InstallsTrustList library
    → options.insecure_accept_any_certificate ≡ false
    → config.security_mode ≡ sign_and_encrypt
    → Decided trusted options (verify_against library options trusted config)
unfolding verify_against
verify_against-Decided library options trusted config works careful mode =
    let called = library.certificate_verification_trust_list config trusted in
    if_both (Decided trusted options) (is_empty trusted) (λ _. inl (refl, refl))
      (λ some.
        if_both (Decided trusted options) called.0
          (λ good.
            let left = works.installs config trusted good in
            inr (
              ap (λ (c : ClientConfig). c.security_mode) left ∙ mode,
              inl (
                refl,
                careful,
                ap (λ (c : ClientConfig). c.certificate_verification) left,
                some_bytes trusted some,
              ),
            ))
          (λ _. inl (refl, refl)))

configure_client-Decided :
    (encryption : Bool) (library : Library) (files : FileSystem)
    (options : ServerVerificationOptions) (config : ClientConfig)
    → InstallsTrustList library
    → Decided
        (read_trust_list files options.trust_list_directory)
        options
        (configure_client encryption library files options config)
unfolding configure_client
configure_client-Decided encryption library files options config works =
    let trusted = read_trust_list files options.trust_list_directory in
    let P = Decided trusted options in
    if_both P
      (options.insecure_accept_any_certificate && not (is_empty options.trust_list_directory))
      (λ _. inl (refl, refl))
      (λ _.
        if_both P (not encryption) (λ _. inl (refl, refl))
          (λ _.
            if_both P options.insecure_accept_any_certificate
              (λ careless. inr (refl, inr (refl, careless, refl)))
              (λ careful.
                if_both P (is_empty options.trust_list_directory) (λ _. inl (refl, refl))
                  (λ _.
                    verify_against-Decided library options trusted
                      (record config { security_mode = sign_and_encrypt }) works careful refl))))

-- `configureServerVerification` either reports a probe that is not configured, and then does not
-- claim to verify, or leaves a configuration that only takes encrypted endpoints, and in which the
-- server's certificate is checked against the list read from the directory, which is not
-- empty, unless the options ask for any certificate: then it reports that it does not verify. It relies
-- on open62541 to install the list that it is given.
pub configure_server_verification-Decided :
    (encryption : Bool) (library : Library) (files : FileSystem)
    (options : ServerVerificationOptions) (config : ClientConfig)
    → InstallsTrustList library
    → let (posture, left) =
        configure_server_verification encryption library files (some config) options in
      (config' : ClientConfig) × (left ≡ some config')
      × Decided (read_trust_list files options.trust_list_directory) options (posture, config')
unfolding configure_server_verification
configure_server_verification-Decided encryption library files options config works = (
  (configure_client encryption library files options config).1,
  refl,
  configure_client-Decided encryption library files options config works,
)
