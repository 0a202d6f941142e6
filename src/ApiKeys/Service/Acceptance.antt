-- ===== src/ApiKeys/Service/Acceptance.antt =====
-- A key that has been issued is accepted with its secret.
use appport_services.Common.{
  ℕ, String, ◌≡◌, refl, ◌≢◌, ◌∙◌, ap, subst, false, eq_refl, Option, none, some, [],
}
use appport_services.ApiKeys.Models.{ApiKey}
use appport_services.ApiKeys.Secrets.{
  Bytes, hash_secret, verify_secret, accepted, parse_api_key_prefix,
}
use appport_services.ApiKeys.Secrets.Prefix.{IsHexText, IsLine, parse_api_key_prefix-append}
use appport_services.ApiKeys.Secrets.Verification.{CryptoLaws, verify-hash}
use appport_services.ApiKeys.Views.{elapsed}
use appport_services.ApiKeys.Service.{ApiKeyService}
use appport_services.ApiKeys.Service.Issue.{IssueInput, issue, issued_key}
use appport_services.ApiKeys.Service.Authenticate.{authentication_failure}
use appport_services.Exec.{ok, >>=-eq-ok}

-- What issuing says of a record and its secret.
record IsIssued {S : Type 0} (svc : ApiKeyService S) (input : IssueInput) (key : ApiKey)
    (secret : String) : Type 0 where
  salt : Bytes
  salted : salt ≢ []
  hashed : key.secret_hash ≡ hash_secret svc.crypto secret svc.verifier_key salt
  not_revoked : key.revoked_at ≡ none
  expiry : key.expires_at ≡ input.expires_at
  application : key.application_id ≡ some svc.application_id
  read_back : parse_api_key_prefix secret ≡ some key.key_prefix

-- The random texts of a service have the form that the secret asks for: six hexadecimal digits, a
-- line of text, and salts that have a byte.
pub record IsWellDrawn {S : Type 0} (svc : ApiKeyService S) : Type 0 where
  pub salts : (s : S) (b : Bytes) → (svc.random_salt s).0 ≡ ok b → b ≢ []
  pub digits : (s : S) (h : String) → (svc.random_hex s).0 ≡ ok h → IsHexText 6 h
  pub lines : (s : S) (r : String) → (svc.random_secret s).0 ≡ ok r → IsLine r

module _ {S : Type 0} (svc : ApiKeyService S) (laws : CryptoLaws svc.crypto)
    (draws : IsWellDrawn svc) where
  issued_key-IsIssued :
      (input : IssueInput) (hex random id : String) (salt : Bytes) (created_at : ℕ)
      → salt ≢ []
      → IsHexText 6 hex
      → IsLine random
      → IsIssued svc input
          (issued_key svc input hex random id salt created_at).0
          (issued_key svc input hex random id salt created_at).1
  unfolding issued_key
  issued_key-IsIssued input hex random id salt created_at salted six line = record {
    salt = salt;
    salted = salted;
    hashed = refl;
    not_revoked = refl;
    expiry = refl;
    application = refl;
    read_back = parse_api_key_prefix-append hex random six line;
  }

  issue-IsIssued :
      (input : IssueInput) (s : S) (made : ApiKey × String)
      → (issue svc input s).0 ≡ ok made
      → IsIssued svc input made.0 made.1
  unfolding issue
  issue-IsIssued input s made h =
      let (hex, digits, h₁) = >>=-eq-ok svc.random_hex _ s h in
      let (random, line, h₂) = >>=-eq-ok svc.random_secret _ _ h₁ in
      let (id, _, h₃) = >>=-eq-ok svc.random_uuid _ _ h₂ in
      let (salt, drawn, h₄) = >>=-eq-ok svc.random_salt _ _ h₃ in
      let (created_at, _, h₅) = >>=-eq-ok svc.now _ _ h₄ in
      let same : issued_key svc input hex random id salt created_at ≡ made = cc h₅ in
      subst (λ m. IsIssued svc input m.0 m.1) same
        (issued_key-IsIssued input hex random id salt created_at (draws.salts _ salt drawn)
          (draws.digits _ hex digits) (draws.lines _ random line))

  hash-accepted :
      (secret : String) (salt : Bytes) (key : Option Bytes)
      → salt ≢ []
      → verify_secret svc.crypto secret (hash_secret svc.crypto secret key salt) key ≡ accepted
  hash-accepted secret salt none salted = (verify-hash svc.crypto laws secret salt salted []).1 none
  hash-accepted secret salt (some k) salted = (verify-hash svc.crypto laws secret salt salted k).0

  -- Where the primitives satisfy their laws and the random texts have their form: of the secret
  -- that is issued with a key the prefix of the key is read back, and with this secret the key
  -- passes every check of authentication at any time at which the expiry asked for has not passed.
  pub issued_key_is_accepted :
      (input : IssueInput) (s : S) (key : ApiKey) (secret : String) (now : ℕ)
      → (issue svc input s).0 ≡ ok (key, secret)
      → elapsed input.expires_at now ≡ false
      → (parse_api_key_prefix secret ≡ some key.key_prefix)
        × (authentication_failure svc key secret now ≡ none)
  unfolding authentication_failure
  issued_key_is_accepted input s key secret now h live =
      let issued = issue-IsIssued input s (key, secret) h in
      let verified : verify_secret svc.crypto secret key.secret_hash svc.verifier_key ≡ accepted =
        ap (λ v. verify_secret svc.crypto secret v svc.verifier_key) issued.hashed
        ∙ hash-accepted secret issued.salt svc.verifier_key issued.salted in
      let lasting : elapsed key.expires_at now ≡ false =
        ap (λ o. elapsed o now) issued.expiry ∙ live in
      (
        issued.read_back,
        rw (issued.not_revoked, lasting, verified, issued.application, eq_refl svc.application_id)
            refl,
      )
