-- ===== src/Authority/Credentials.antt =====
-- authority/credentials.ts: references into credential custody, the only form in which services
-- keep a credential. Where a value of any kind may come, `none` is one that is no text.
use appport_services.Common.{
  ℕ, zero, suc, String, Bool, true, false, ◌&&◌, ◌||◌, ◌==◌, eqb, leb, Option, none, some, is_some,
  present, or_default, strip_prefix, List, [], ◌∷◌, get, if◌then◌else◌,
}
use appport_services.Authority.Principal.{migration_error}
use appport_services.Authority.Custody.{SecretReference}
use appport_services.Exec.{Result, ok, err, invalid}
use Prim.Native.Char.{code}
use Prim.Native.String

abbrev pub credential_prefix : String
credential_prefix = "credential-ref:"

abbrev is_letter_or_digit : ℕ → Bool
is_letter_or_digit c =
    (leb b'A' c && leb c b'Z') || (leb b'a' c && leb c b'z') || (leb b'0' c && leb c b'9')

abbrev is_id_part : ℕ → Bool
is_id_part c = is_letter_or_digit c || eqb c b'.' || eqb c b'_' || eqb c b':' || eqb c b'-'

-- At most `n` characters, each of the rest of an id.
id_rest : ℕ → String → Bool
id_rest n String.[] = true
id_rest zero (String.◌∷◌ c s) = false
id_rest (suc n) (String.◌∷◌ c s) = is_id_part (code c) && id_rest n s

-- `ID`: a letter or digit, then at most 199 characters more.
unfoldable pub is_credential_id : String → Bool
unfolding id_rest
is_credential_id String.[] = false
is_credential_id (String.◌∷◌ c s) = is_letter_or_digit (code c) && id_rest 199 s

-- `s.slice(n)`, on texts of the basic plane.
slice_from : ℕ → String → String
slice_from zero s = s
slice_from (suc n) String.[] = String.[]
slice_from (suc n) (String.◌∷◌ c s) = slice_from n s

-- `ref.slice(PREFIX.length)`.
unfoldable pub credential_id : String → String
unfolding slice_from
credential_id ref = slice_from 15 ref

unfoldable pub is_credential_ref : Option String → Bool
unfolding credential_id is_credential_id strip_prefix
is_credential_ref none = false
is_credential_ref (some s) =
    is_some (strip_prefix credential_prefix s) && is_credential_id (credential_id s)

unfoldable pub format_credential_ref : String → Result String
unfolding is_credential_ref
format_credential_ref secret_id =
    let ref = String.◌++◌ credential_prefix secret_id in
    if is_credential_ref (some ref) then ok ref else err (invalid "Invalid credential identifier")

refuse_credential : Option String → String → Result String
refuse_credential none field =
    err (invalid (String.◌++◌ field " is required and must be a credential-ref:<id>"))
refuse_credential (some s) field =
    if s == ""
    then err (invalid (String.◌++◌ field " is required and must be a credential-ref:<id>"))
    else err (
        migration_error (
          String.◌++◌ "\"" (
            String.◌++◌ field
              "\" must be a credential-ref:<id> into AuthBoundry custody; raw credentials are never stored in service configuration.")))

unfoldable pub require_credential_ref : Option String → String → Result String
unfolding is_credential_ref refuse_credential
require_credential_ref value field =
    if is_credential_ref value then ok (or_default value "") else refuse_credential value field

unfoldable pub credential_reference : String → String → Option String → SecretReference
unfolding credential_id
credential_reference ref tenant_id provider = record {
  secret_id = credential_id ref;
  tenant_id = tenant_id;
  provider = present provider;
  kind = none;
}

-- `RAW_CREDENTIAL_FIELDS`.
abbrev raw_credential_fields : List String
raw_credential_fields =
    "value" ∷ "secret" ∷ "password" ∷ "token" ∷ "apiKey" ∷ "signingSecret" ∷ "credential" ∷ []

reject_fields : {V : Type 0} → List String → List (String × V) → Result (Unit {0})
reject_fields [] input = ok tt
reject_fields (field ∷ fields) input =
    let rest = reject_fields fields input in
    if is_some (get field input)
    then err (
        migration_error (
          String.◌++◌ "\"" (
            String.◌++◌ field
              "\" looks like raw credential material. Register it with AuthBoundry and pass credentialRef instead.")))
    else rest

-- The input is an object, with the fields that are set.
unfoldable pub reject_raw_credential_fields : {V : Type 0} → List (String × V) → Result (Unit {0})
unfolding reject_fields
reject_raw_credential_fields input = reject_fields raw_credential_fields input
