-- ===== src/ApiKeys/Service/Checks.antt =====
-- The service of API keys in a small world: tests, and instances of its theorems.
use Prim.Native.Char.{code}
use appport_services.ApiKeys.Views.{year_10000}
use appport_services.ApiKeys.Service.{outlives}
use appport_services.Common.{
  subst, ◌<◌, ℕ, zero, suc, ◌+◌, ◌*◌, ◌≤◌, ◌≡◌, refl, ◌≢◌, ◌∙◌, ap, String, Bool, false, ◌==◌,
  Option, none, some, List, [], ◌∷◌, ◌++◌, keep, map, length, arith, eqb, if◌then◌else◌, is_blank,
  All, eq_iff, true,
}
use appport_services.Authority.Principal.{
  VerifiedPrincipal, verified, require_verified_principal, by_api_key, mint_verified_principal,
}
use appport_services.Authority.Context.{ServiceResource, ServiceExecutionContext, resource_uri}
use appport_services.Authority.Authorizer.{answered}
use appport_services.Authority.Manifest.{get_service_capability}
use appport_services.Authority.Gateway.{
  ServiceGateway, capability, assert_ownership, enforce_credential, request_for,
}
use appport_services.Authority.Gateway.Authorize.{
  authorize, authorize_principal, decide, decision_matches, grant,
}
use appport_services.ApiKeys.Service.Acceptance.{IsWellDrawn, issued_key_is_accepted}
use appport_services.ApiKeys.Service.Credentials.{authorized_key-IsLive}
use appport_services.ApiKeys.Restrictions.{
  ApiKeyRestrictions, restrictions_permit, restrictions_within,
}
use appport_services.ApiKeys.Models.{
  ApiKey, CreatedApiKey, ApiKeyStore, ApiKeyAuditEvent, active, revoked,
}
use appport_services.ApiKeys.Secrets.{
  Bytes, Crypto, hash_secret, verify_secret, accepted, unavailable, parse_api_key_prefix, is_hex,
  no_line_end,
}
use appport_services.ApiKeys.Secrets.Prefix.{IsHexText, IsLine}
use appport_services.ApiKeys.Secrets.Verification.{HasNoDollar, CryptoLaws, verify-hash}
use appport_services.ApiKeys.Views.{key_status, page}
use appport_services.ApiKeys.Views.Pages.{HasDistinctIds, page-continues}
use appport_services.ApiKeys.Service.{
  ApiKeyService, Caches, remember_prefix, remember_created, remember_local, audit,
  within_caller_key, assert_within_caller,
}
use appport_services.ApiKeys.Service.Issue.{
  IssueInput, issue, create_api_key_with_side_effects, create_within, issued_key,
}
use appport_services.ApiKeys.Service.Rotate.{retire}
use appport_services.ApiKeys.Service.Authenticate.{
  authentication_failure, find_api_key_by_prefix, to_principal, check_record, credential_check,
  authenticate_api_key, record_successful_auth_event, record_auth_event,
}
use appport_services.ApiKeys.Service.Lifetime.{
  retire-bounded, IsWithinKey, create_within-IsWithinKey,
}
use appport_services.ApiKeys.Service.Authenticity.{IsAuthentic, authenticate-IsAuthentic}
use appport_services.ApiKeys.Service.Credentials.{IsLive, credential_check-IsLive}
use appport_services.Exec.{pure, ok}

-- Bytes as a text: one letter for each unit of a byte, and another one between bytes.
abbrev letters : ℕ → String → String
letters zero rest = String.◌∷◌ "b" rest
letters (suc n) rest = String.◌∷◌ "a" (letters n rest)

abbrev toy_encode : Bytes → String
toy_encode [] = ""
toy_encode (x ∷ xs) = letters x (toy_encode xs)

abbrev toy_decode : ℕ → String → Bytes
toy_decode n String.[] = []
toy_decode n (String.◌∷◌ c s) =
    let more = toy_decode (suc n) s in
    let next = n ∷ toy_decode 0 s in if eqb (code c) b'a' then more else next

abbrev zeros : ℕ → Bytes
zeros zero = []
zeros (suc n) = 0 ∷ zeros n

-- A derivation that fits the laws: the first byte tells how long the input was.
abbrev toy_scrypt : Bytes → Bytes → ℕ → Bytes
toy_scrypt input salt zero = []
toy_scrypt input salt (suc n) = length input ∷ zeros n

abbrev toy_utf8 : String → Bytes
toy_utf8 String.[] = []
toy_utf8 (String.◌∷◌ c s) = code c ∷ toy_utf8 s

abbrev toy : Crypto
toy = record {
  utf8 = toy_utf8;
  hmac_sha256 = λ key input. key ++ input;
  scrypt = toy_scrypt;
  base64url = toy_encode;
  from_base64url = toy_decode 0;
}

decode_letters : (x n : ℕ) (s : String) → toy_decode n (letters x s) ≡ (n + x) ∷ toy_decode 0 s
decode_letters zero n s = ap (λ k. k ∷ toy_decode 0 s) (omega arith)
decode_letters (suc x) n s = decode_letters x (suc n) s ∙ ap (λ k. k ∷ toy_decode 0 s) (omega arith)

toy_decode-encode : (b : Bytes) → toy_decode 0 (toy_encode b) ≡ b
toy_decode-encode [] = refl
toy_decode-encode (x ∷ xs) =
    decode_letters x 0 (toy_encode xs)
    ∙ ap (λ k. k ∷ toy_decode 0 (toy_encode xs)) (omega arith)
    ∙ ap (λ ys. x ∷ ys) (toy_decode-encode xs)

letters-HasNoDollar : (x : ℕ) (s : String) → HasNoDollar s → HasNoDollar (letters x s)
letters-HasNoDollar zero s h = (refl, h)
letters-HasNoDollar (suc x) s h = (refl, letters-HasNoDollar x s h)

toy_encode-HasNoDollar : (b : Bytes) → HasNoDollar (toy_encode b)
toy_encode-HasNoDollar [] = tt
toy_encode-HasNoDollar (x ∷ xs) = letters-HasNoDollar x (toy_encode xs) (toy_encode-HasNoDollar xs)

letters_not_empty : (x : ℕ) (s : String) → letters x s ≢ ""
letters_not_empty zero s h = cc h
letters_not_empty (suc x) s h = cc h

toy_encode_not_empty : (b : Bytes) → b ≢ [] → toy_encode b ≢ ""
toy_encode_not_empty [] h = absurd (h refl)
toy_encode_not_empty (x ∷ xs) h = letters_not_empty x (toy_encode xs)

length-zeros : (n : ℕ) → length (zeros n) ≡ n
length-zeros zero = refl
length-zeros (suc n) = ap suc (length-zeros n)

length-toy_scrypt : (input salt : Bytes) (n : ℕ) → length (toy_scrypt input salt n) ≡ n
length-toy_scrypt input salt zero = refl
length-toy_scrypt input salt (suc n) = ap suc (length-zeros n)

toy_laws : CryptoLaws toy
toy_laws = record {
  decode = toy_decode-encode;
  no_dollar = toy_encode-HasNoDollar;
  not_empty = toy_encode_not_empty;
  derived_length = length-toy_scrypt;
}

abbrev salt : Bytes
salt = 7 ∷ []

salted : salt ≢ []
salted e = absurd (cc e)

verify-hash_example :
    (verify_secret toy "xyz" (hash_secret toy "xyz" (some (1 ∷ [])) salt) (some (1 ∷ []))
      ≡ accepted)
    × ((other : Option Bytes)
        → verify_secret toy "xyz" (hash_secret toy "xyz" none salt) other ≡ accepted)
    × (verify_secret toy "xyz" (hash_secret toy "xyz" (some (1 ∷ [])) salt) none ≡ unavailable)
verify-hash_example = verify-hash toy toy_laws "xyz" salt salted (1 ∷ [])

-- Three items, each its own id.
abbrev whole : String → String
whole s = s

text_apart : {s t : String} → (s == t) ≡ false → s ≢ t
text_apart {s} {t} h e = ground (arith, eq_iff s t)

apart : HasDistinctIds whole ("a" ∷ "b" ∷ "c" ∷ [])
apart = ((text_apart refl, (text_apart refl, tt)), ((text_apart refl, tt), (tt, tt)))

unlisted : All (λ y. whole y ≢ "z") ("a" ∷ "b" ∷ "c" ∷ [])
unlisted = (text_apart refl, (text_apart refl, (text_apart refl, tt)))

page-continues_example :
    (page whole ("a" ∷ "b" ∷ "c" ∷ []) (some "a") 1 ≡ "b" ∷ [])
    × (page whole ("a" ∷ "b" ∷ "c" ∷ []) (some "z") 1 ≡ [])
page-continues_example = page-continues whole [] "a" ("b" ∷ "c" ∷ []) "z" 1 apart unlisted

-- The world: the stored keys, the audit events and the maps of the service.
pub record World : Type 0 where
  pub keys : List ApiKey
  pub events : List ApiKeyAuditEvent
  pub caches : Caches

abbrev find_key : (ApiKey → Bool) → List ApiKey → Option ApiKey
find_key p [] = none
find_key p (k ∷ ks) = let rest = find_key p ks in if p k then some k else rest

abbrev touched : String → ℕ → ApiKey → ApiKey
touched id now k =
    if k.id == id then record k { last_used_at = some now; version = k.version + 1 } else k

-- The other writes do not occur here and change nothing.
abbrev listed_keys : ApiKeyStore World
listed_keys = record {
  create = λ key w. (ok tt, record w { keys = key ∷ w.keys });
  get = λ id w. (ok (find_key (λ k. k.id == id) w.keys), w);
  find_by_prefix = λ prefix w. (ok (find_key (λ k. k.key_prefix == prefix) w.keys), w);
  list = λ tenant_id w. (ok (keep (λ k. k.tenant_id == tenant_id) w.keys), w);
  revoke = λ id version now by w. (ok none, w);
  record_last_used = λ id version now w.
      let keys = map (touched id now) w.keys in
      (ok (find_key (λ k. k.id == id) keys), record w { keys = keys });
  replace = λ id version key w. (ok none, w);
  rotate = λ old retired new w. (ok tt, w);
}

abbrev service : ApiKeyService World
service = record {
  store = listed_keys;
  audit_sink = record {
    write = λ event w. (ok tt, record w { events = event ∷ w.events });
    list = none;
  };
  authority = none;
  now = pure 100;
  random_uuid = pure "id2";
  random_hex = pure "0a1b2c";
  random_secret = pure "secret";
  random_salt = pure salt;
  wait = λ ms. pure tt;
  crypto = toy;
  verifier_key = none;
  application_id = "app";
  is_local = false;
  caches = λ w. w.caches;
  set_caches = λ c w. record w { caches = c };
}

abbrev reads_only : ApiKeyRestrictions
reads_only = record { capabilities = "files.read" ∷ []; resources = none }

abbrev text_secret : String
text_secret = "app_live_00ff00_s3cret"

abbrev first_key : ApiKey
first_key = record {
  id = "id1";
  tenant_id = "t";
  application_id = some "app";
  name = "first";
  key_prefix = "app_live_00ff00";
  secret_hash = hash_secret toy text_secret none salt;
  scopes = [];
  restrictions = some reads_only;
  created_at = 1;
  expires_at = some 500;
  revoked_at = none;
  revoked_by = none;
  last_used_at = none;
  updated_at = none;
  updated_by = none;
  rotated_from = none;
  rotated_to = none;
  rotated_at = none;
  created_by = "ann";
  version = 1;
}

abbrev start : World
start = record {
  keys = first_key ∷ [];
  events = [];
  caches = record { known_prefixes = []; locally_created = [] };
}

abbrev key_principal : VerifiedPrincipal
key_principal = record {
  principal_id = "id1";
  principal_type = "api_key";
  tenant_id = "t";
  application_id = some "app";
  credential_id = some "id1";
  delegation_id = none;
  run_id = none;
  verified_by = by_api_key;
}

same_time : {a b : ℕ} → some a ≡ some b → a ≡ b
same_time e = cc

first_is_dated : (u : ℕ) → first_key.expires_at ≡ some u → u < year_10000
first_is_dated u e = let same : 500 ≡ u = same_time e in omega (arith, same)

retire-bounded_example :
    (key_status (retire first_key "id2" 100 1 "ann") 450 ≡ active
      → key_status first_key 450 ≡ active)
    × (100 + 1 * 1000 ≤ 450 → key_status (retire first_key "id2" 100 1 "ann") 450 ≢ active)
    × (key_status (retire first_key "id2" 100 0 "ann") 450 ≡ revoked)
retire-bounded_example = retire-bounded first_key "id2" "ann" 100 1 450 first_is_dated (omega arith)

authenticated : (authenticate_api_key service text_secret start).0 ≡ ok (some key_principal)
unfolding authenticate_api_key parse_api_key_prefix find_api_key_by_prefix remember_prefix
    authentication_failure verify_secret hash_secret record_successful_auth_event record_auth_event
    remember_local to_principal mint_verified_principal is_blank
authenticated = refl

authenticate-IsAuthentic_example : IsAuthentic service text_secret key_principal
authenticate-IsAuthentic_example =
    authenticate-IsAuthentic service text_secret start key_principal authenticated

abbrev a_file : ServiceResource
a_file = record { kind = "file"; tenant_id = "t"; id = none; attributes = [] }

let_through : (credential_check service "id1" key_principal "files.read" a_file start).0 ≡ ok tt
unfolding credential_check check_record key_status restrictions_permit
let_through = refl

credential_check-IsLive_example : IsLive service "id1" key_principal "files.read" a_file start
credential_check-IsLive_example =
    credential_check-IsLive service "id1" key_principal "files.read" a_file start let_through

abbrev second_input : IssueInput
second_input = record {
  tenant_id = "t";
  name = "second";
  restrictions = some reads_only;
  expires_at = some 400;
  created_by = "id1";
  rotated_from = none;
}

abbrev second_created : CreatedApiKey
second_created = record {
  id = "id2";
  name = "second";
  prefix = "app_live_0a1b2c";
  secret = "app_live_0a1b2c_secret";
}

second_issued : (create_within service key_principal second_input start).0 ≡ ok second_created
unfolding create_within assert_within_caller within_caller_key restrictions_within
    create_api_key_with_side_effects is_blank issue issued_key remember_prefix remember_created
    audit
second_issued = refl

second_is_dated : (u : ℕ) → second_input.expires_at ≡ some u → u < year_10000
second_is_dated u e = let same : 400 ≡ u = same_time e in omega (arith, same)

-- The text of a time in the year 10000 comes before the text of any earlier one, so that such a key
-- does not count as outliving the one that made it.
late_key_is_created : outlives (some year_10000) (some 500) ≡ false
late_key_is_created = refl

create_within-IsWithinKey_example :
    (caller_key : ApiKey) × ((service.store.get "id1" start).0 ≡ ok (some caller_key))
    × IsWithinKey caller_key (some reads_only) (some 400)
create_within-IsWithinKey_example =
    create_within-IsWithinKey service key_principal second_input "id1" start second_created
      second_is_dated refl second_issued

-- A gateway over this world that allows what it is asked and binds principals to the first key.
abbrev key_gateway : ServiceGateway World
key_gateway = record {
  application = "app";
  authorizer = some (λ request w. (
    answered (
        some (record {
          decision_id = some "d1";
          allowed = some true;
          capability = some request.capability;
          tenant_id = some request.tenant_id;
          application_id = some request.application_id;
          subject_id = some request.subject_id;
          resource_uri = some request.resource_uri;
          reason = none;
          policy_version = none;
        })),
    w,
  ));
  evidence = record {
    write = λ row. pure tt;
    complete = λ id update. pure tt;
    find_by_decision = λ id. pure [];
    find_by_run_id = none;
  };
  now = pure 100;
  random_uuid = pure "e1";
  extension_capabilities = [];
  bindings = λ p. some (credential_check service "id1" p);
  credentials = none;
  encode_uri_component = λ s. s;
  timeout_text = "5000";
}

abbrev reading : ServiceExecutionContext
reading = record {
  application = "app";
  tenant_id = "t";
  principal = key_principal;
  capability = "files.read";
  capability_version = 1;
  request_id = "r1";
  resource = a_file;
  resource_uri = "appport://app/tenants/t/file/*";
  authorization = record {
    decision_id = "d1";
    decided_at = 100;
    policy_version = none;
    reason = none;
  };
  expires_at = 60100;
}

may_read :
    (authorize key_gateway "files.read" (verified key_principal) a_file "r1" start).0 ≡ ok reading
unfolding authorize credential_check check_record key_status restrictions_permit capability
    get_service_capability require_verified_principal assert_ownership enforce_credential
    authorize_principal decide decision_matches request_for resource_uri grant
may_read = refl

authorized_key-IsLive_example : IsLive service "id1" key_principal "files.read" a_file start
authorized_key-IsLive_example =
    authorized_key-IsLive service key_gateway "id1" key_principal refl "files.read" a_file "r1"
      start reading may_read

digits-IsHexText : IsHexText 6 "0a1b2c"
unfolding IsHexText is_hex
digits-IsHexText = (refl, (refl, (refl, (refl, (refl, (refl, tt))))))

secret-IsLine : IsLine "secret"
unfolding no_line_end
secret-IsLine = record { has_text = refl; one_line = refl }

service-IsWellDrawn : IsWellDrawn service
service-IsWellDrawn = record {
  salts = λ w b e h. (let empty : salt ≡ [] = cc (h, e) in salted empty);
  digits = λ w h e. (let same : "0a1b2c" ≡ h = cc e in subst (IsHexText 6) same digits-IsHexText);
  lines = λ w r e. (let same : "secret" ≡ r = cc e in subst IsLine same secret-IsLine);
}

abbrev second_issue : ApiKey × String
second_issue = issued_key service second_input "0a1b2c" "secret" "id2" salt 100

second_made : (issue service second_input start).0 ≡ ok (second_issue.0, second_issue.1)
unfolding issue
second_made = refl

issued_key_is_accepted_example :
    (parse_api_key_prefix second_issue.1 ≡ some second_issue.0.key_prefix)
    × (authentication_failure service second_issue.0 second_issue.1 200 ≡ none)
issued_key_is_accepted_example =
    issued_key_is_accepted service toy_laws service-IsWellDrawn second_input start second_issue.0
      second_issue.1 200 second_made refl
