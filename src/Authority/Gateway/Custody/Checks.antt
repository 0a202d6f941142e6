-- ===== src/Authority/Gateway/Custody/Checks.antt =====
-- Custody in a small world: instances of its theorems.
use appport_services.Common.{◌≡◌, refl, true, none, some, [], ◌∷◌}
use appport_services.Common.Json.{text}
use appport_services.Authority.Errors.{denied, no_details}
use appport_services.Authority.Context.{ServiceExecutionContext, assert_execution_context}
use appport_services.Authority.Custody.{
  Credentials, ResolvedSecret, given, refused, authority_failure, set,
}
use appport_services.Authority.Credentials.{credential_reference, credential_id}
use appport_services.Authority.Gateway.{ServiceGateway}
use appport_services.Authority.Gateway.Checks.{World, open_gateway, granted, new_job}
use appport_services.Authority.Gateway.Custody.{
  CustodyOptions, store_credential, credential_status, with_credential,
}
use appport_services.Authority.Gateway.Custody.Secrecy.{discreet, custody_is_discreet}
use appport_services.Authority.Gateway.Custody.Entitlement.{IsEntitled, with_credential-IsEntitled}
use appport_services.Exec.{pure, ok}

abbrev pub signing_secret : ResolvedSecret
signing_secret = record {
  value = text "key";
  secret_id = "k";
  version = 1;
  provider = none;
  kind = none;
}

-- A custody whose vault answers a store with its own words.
abbrev pub talkative : Credentials World
talkative = record {
  reveal = λ reference access s. (given signing_secret, s);
  conceal = λ reference access s. (given tt, s);
  vault = some (record {
    store = λ reference value access s. (refused (authority_failure denied value no_details), s);
    status = λ reference access s. (
      given (
          some (record {
            state = some set;
            version = some 1;
            updated_at = none;
            location = none;
            writable = true;
          })),
      s,
    );
  });
}

abbrev pub keeping_gateway : ServiceGateway World
keeping_gateway = record open_gateway { credentials = some talkative }

abbrev granted_credential : ServiceExecutionContext
granted_credential = record granted {
  resource = record new_job { attributes = ("credentialRef", "credential-ref:k") ∷ [] };
}

abbrev options : CustodyOptions
options = record { purpose = "test"; provider = none; kind = none }

custody_is_discreet_example :
    (store_credential
        (discreet keeping_gateway)
        granted_credential
        "credential-ref:k"
        "s3cret"
        options
      ≡ store_credential keeping_gateway granted_credential "credential-ref:k" "s3cret" options)
    × (credential_status (discreet keeping_gateway) granted_credential "credential-ref:k" options
        ≡ credential_status keeping_gateway granted_credential "credential-ref:k" options)
custody_is_discreet_example =
    custody_is_discreet keeping_gateway granted_credential "credential-ref:k" options "s3cret"

used :
    (with_credential keeping_gateway granted_credential "credential-ref:k" "test" none
      (λ secret. pure secret.version)
      []).0
    ≡ ok 1
unfolding with_credential assert_execution_context credential_reference credential_id
used = refl

with_credential-IsEntitled_example :
    IsEntitled keeping_gateway granted_credential "credential-ref:k" "test" none
      (λ secret. pure secret.version)
      []
      1
with_credential-IsEntitled_example =
    with_credential-IsEntitled keeping_gateway "credential-ref:k" "test" none
      (λ secret. pure secret.version) granted_credential [] 1 used
