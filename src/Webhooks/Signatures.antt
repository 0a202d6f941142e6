-- ===== src/Webhooks/Signatures.antt =====
-- webhooks/secrets.ts: signatures. `hmac` is the hexadecimal HMAC-SHA256 of a text under a secret.
use appport_services.Common.{String, Bool, ◌==◌, Option, none, some, get, if◌then◌else◌}
use appport_services.Common.Json.{Json, null, boolean, number, text, array, object, members}
use appport_services.Authority.Errors.{other_error}
use appport_services.Exec.{Result, ok, err}

unfoldable pub sign_webhook_payload : (String → String → String) → String → String → String
sign_webhook_payload hmac secret payload = hmac secret payload

-- Texts are equal where their bytes are; a signature is compared in constant time.
unfoldable pub verify_webhook_signature :
    (String → String → String) → String → String → String → Bool
unfolding sign_webhook_payload
verify_webhook_signature hmac secret payload signature =
    sign_webhook_payload hmac secret payload == signature

abbrev no_secret : Result String
no_secret = err (other_error "Resolved credential does not contain a signing secret")

abbrev nonempty_text : Option Json → Result String
nonempty_text (some (text s)) = if s == "" then no_secret else ok s
nonempty_text _ = no_secret

-- `a ?? b` on fields of an object.
abbrev first_present : Option Json → Option Json → Option Json
first_present none b = b
first_present (some null) b = b
first_present (some v) b = some v

unfoldable pub signing_secret_value : Json → Result String
signing_secret_value (text s) = nonempty_text (some (text s))
signing_secret_value (object fields) =
    nonempty_text
      (first_present (get "signingSecret" (members fields)) (get "secret" (members fields)))
signing_secret_value null = no_secret
signing_secret_value (boolean _) = no_secret
signing_secret_value (number _) = no_secret
signing_secret_value (array _) = no_secret
