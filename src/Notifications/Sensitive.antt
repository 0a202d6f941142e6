-- ===== src/Notifications/Sensitive.antt =====
-- notifications/sensitive.ts: credentials are kept out of the contents of notifications. The engine
-- of regular expressions, `toLowerCase` and the text of a number are the language's, and parameters.
use Prim.Native.Char.{code}
use Prim.Native.String
use appport_services.Common.{
  ℕ, suc, String, Bool, true, false, not, ◌&&◌, ◌||◌, ◌==◌, leb, List, [], ◌∷◌, includes,
  if◌then◌else◌,
}
use appport_services.Common.Json.{
  Json, null, boolean, number, text, array, object, Items, nil, cons, Members, end, member,
}
use appport_services.Authority.Errors.{Error, other_error}
use appport_services.Exec.{Result, ok, err}

-- `new RegExp(source, flags).test(value)`, `value.toLowerCase()` and `String(index)`.
pub record TextEngine : Type 0 where
  pub test : String → String → String → Bool
  pub to_lower : String → String
  pub index_text : ℕ → String

abbrev sensitive_keys : List String
sensitive_keys =
    "password" ∷ "passwd" ∷ "pwd" ∷ "passphrase" ∷ "cookie" ∷ "cookies" ∷ "setcookie"
    ∷ "sessioncookie" ∷ "sessionid" ∷ "sid" ∷ "authorization" ∷ "proxyauthorization" ∷ "auth"
    ∷ "bearer" ∷ "refreshtoken" ∷ "accesstoken" ∷ "idtoken" ∷ "sessiontoken" ∷ "authtoken"
    ∷ "csrftoken" ∷ "xsrftoken" ∷ "token" ∷ "apikey" ∷ "xapikey" ∷ "apisecret" ∷ "clientsecret"
    ∷ "secret" ∷ "secretkey" ∷ "privatekey" ∷ "signingkey" ∷ "signingsecret" ∷ "credential"
    ∷ "credentials" ∷ []

abbrev sensitive_key_suffixes : List String
sensitive_key_suffixes =
    "password" ∷ "passwd" ∷ "token" ∷ "secret" ∷ "apikey" ∷ "cookie" ∷ "cookies" ∷ "privatekey"
    ∷ "signingkey" ∷ "authorization" ∷ "credential" ∷ "credentials" ∷ []

-- The sources of the patterns with their flags.
abbrev sensitive_value_patterns : List (String × String)
sensitive_value_patterns =
    ("\\bBearer\\s+[A-Za-z0-9\\-._~+/]{8,}=*", "i")
    ∷ ("\\bBasic\\s+[A-Za-z0-9+/]{8,}={0,2}(?![A-Za-z0-9])", "")
    ∷ ("-----BEGIN [A-Z ]*PRIVATE KEY-----", "")
    ∷ ("\\beyJ[A-Za-z0-9_-]{8,}\\.eyJ[A-Za-z0-9_-]{8,}\\.[A-Za-z0-9_-]{8,}", "")
    ∷ ("\\bapp_live_[0-9a-f]{6}_[A-Za-z0-9_-]{16,}", "")
    ∷ ("\\b(?:sk|rk)_(?:live|test)_[A-Za-z0-9]{16,}", "")
    ∷ ("\\bgh[pousr]_[A-Za-z0-9]{30,}", "")
    ∷ ("\\bxox[abprs]-[A-Za-z0-9-]{10,}", "")
    ∷ ("\\bAKIA[0-9A-Z]{16}\\b", "")
    ∷ (
      "\\b(?:session|sessionid|sid|connect\\.sid|__Secure-[\\w-]+|__Host-[\\w-]+)=[^;\\s]{8,}", "i",
    )
    ∷ []

-- `NotificationSensitiveDataError`.
abbrev sensitive_data_error : String → Error
sensitive_data_error path = other_error (
    String.◌++◌ "Notification content at \""
      (String.◌++◌ path "\" looks like a credential; credentials cannot be sent in notifications"))

abbrev is_plain : ℕ → Bool
is_plain c = (leb b'a' c && leb c b'z') || (leb b'0' c && leb c b'9')

-- `replace(/[^a-z0-9]/g, '')`.
abbrev letters_and_digits : String → String
letters_and_digits String.[] = String.[]
letters_and_digits (String.◌∷◌ c s) =
    let rest = letters_and_digits s in if is_plain (code c) then String.◌∷◌ c rest else rest

abbrev ends_with : String → String → Bool
ends_with String.[] suffix = suffix == ""
ends_with (String.◌∷◌ c s) suffix = (String.◌∷◌ c s == suffix) || ends_with s suffix

abbrev ends_with_one : String → List String → Bool
ends_with_one s [] = false
ends_with_one s (suffix ∷ suffixes) = ends_with s suffix || ends_with_one s suffixes

-- An entry that is null, the empty text or false carries no credential.
abbrev is_set : Json → Bool
is_set null = false
is_set (boolean b) = b
is_set (number n) = true
is_set (text s) = not (s == "")
is_set (array vs) = true
is_set (object ms) = true

abbrev unless_sensitive : Bool → String → Result (Unit {0}) → Result (Unit {0})
unless_sensitive sensitive path rest = if sensitive then err (sensitive_data_error path) else rest

abbrev and_then : Result (Unit {0}) → Result (Unit {0}) → Result (Unit {0})
and_then (ok _) rest = rest
and_then (err e) rest = err e

module _ (engine : TextEngine) where
  abbrev normalize_key : String → String
  normalize_key key = letters_and_digits (engine.to_lower key)

  abbrev is_sensitive_key : String → Bool
  is_sensitive_key key =
      includes sensitive_keys (normalize_key key)
      || ends_with_one (normalize_key key) sensitive_key_suffixes

  abbrev some_pattern : List (String × String) → String → Bool
  some_pattern [] value = false
  some_pattern ((source, flags) ∷ patterns) value =
      engine.test source flags value || some_pattern patterns value

  abbrev is_sensitive_value : String → Bool
  is_sensitive_value value = some_pattern sensitive_value_patterns value

  -- `assertNoCredentials`. Values are trees: an object that is met again was checked before.
  unfoldable mutual
    pub assert_no_credentials : Json → String → Result (Unit {0})
    assert_no_credentials null path = ok tt
    assert_no_credentials (boolean b) path = ok tt
    assert_no_credentials (number n) path = ok tt
    assert_no_credentials (text s) path = unless_sensitive (is_sensitive_value s) path (ok tt)
    assert_no_credentials (array vs) path = assert_items vs path 0
    assert_no_credentials (object ms) path = assert_members ms path

    pub assert_items : Items → String → ℕ → Result (Unit {0})
    assert_items nil path index = ok tt
    assert_items (cons v vs) path index =
        and_then
          (assert_no_credentials v
            (String.◌++◌ path (String.◌++◌ "[" (String.◌++◌ (engine.index_text index) "]"))))
          (assert_items vs path (suc index))

    pub assert_members : Members → String → Result (Unit {0})
    assert_members end path = ok tt
    assert_members (member key entry ms) path =
        let entry_path = String.◌++◌ path (String.◌++◌ "." key) in
        and_then
          (unless_sensitive (is_sensitive_key key && is_set entry) entry_path
            (assert_no_credentials entry entry_path))
          (assert_members ms path)
