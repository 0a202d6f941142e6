-- ===== src/Webhooks/Service/Settlement.antt =====
-- webhooks/service.ts: what an attempt of a delivery comes to, and what `recordAttempt` makes of it.
use Prim.Native.String
use appport_services.Common.{
  ℕ, ◌+◌, ◌*◌, ◌^◌, String, Bool, true, false, not, ◌&&◌, ◌||◌, eqb, leb, ltb, Option, none, some,
  List, [], ◌∷◌, or_default, truthy, decimal, if◌then◌else◌,
}
use appport_services.Authority.Errors.{
  ServiceFailureCode, denied, authority_unavailable, authorization_timeout, invalid_request,
  provider_error, unauthenticated, not_found, custody_read_only, Error, authority_error,
  delivery_error, conditional_conflict, other_error,
}
use appport_services.Authority.Principal.{DurablePrincipal}
use appport_services.Authority.Gateway.Execution.{code_name}
use appport_services.Jobs.Models.{failure}
use appport_services.Webhooks.Models.{
  WebhookDelivery, delivered, retrying, failed, WebhookDeliveryResult,
}
use appport_services.Webhooks.Service.{
  AuditFields, HttpOutcome, responded, network_error, timed_out, initial_retry_delay_ms,
}

abbrev pub emitting_capabilities : List String
emitting_capabilities = "webhooks.emit" ∷ "webhooks.replay" ∷ []

abbrev pub succeeded_with : Option ℕ → WebhookDeliveryResult
succeeded_with status_code = record {
  success = true;
  status_code = status_code;
  error = none;
  code = none;
}

abbrev pub failed_with : ServiceFailureCode → String → WebhookDeliveryResult
failed_with code message = record {
  success = false;
  status_code = none;
  error = some message;
  code = some code;
}

abbrev pub http_failure : ℕ → String → WebhookDeliveryResult
http_failure status_code note = record {
  success = false;
  status_code = some status_code;
  error = some (String.◌++◌ "HTTP " (String.◌++◌ (decimal status_code) note));
  code = some provider_error;
}

-- The statuses of `performHttpDelivery`; a response without one counts as 500.
unfoldable pub result_of_status : ℕ → WebhookDeliveryResult
result_of_status status_code =
    if leb 200 status_code && ltb status_code 300
    then succeeded_with (some status_code)
    else if leb 300 status_code && ltb status_code 400
    then http_failure status_code ": redirects are not followed (destination policy)"
    else if eqb status_code 408 || eqb status_code 429 || leb 500 status_code
    then http_failure status_code " (retryable)"
    else http_failure status_code ""

unfoldable pub result_of_outcome : HttpOutcome → WebhookDeliveryResult
unfolding result_of_status
result_of_outcome (responded status_code) = result_of_status (or_default status_code 500)
result_of_outcome (network_error message) =
    failed_with provider_error (String.◌++◌ "Network error: " message)
result_of_outcome timed_out = failed_with provider_error "Request timeout (retryable)"

-- Statuses that no later attempt is expected to change.
unfoldable pub is_terminal : Option ℕ → Bool
is_terminal none = false
is_terminal (some n) =
    (leb 300 n && ltb n 400) || (leb 400 n && ltb n 500 && not (eqb n 408) && not (eqb n 429))

abbrev pub code_of : ServiceFailureCode → ServiceFailureCode
code_of unauthenticated = denied
code_of not_found = denied
code_of custody_read_only = authority_unavailable
code_of denied = denied
code_of authority_unavailable = authority_unavailable
code_of authorization_timeout = authorization_timeout
code_of invalid_request = invalid_request
code_of provider_error = provider_error

-- `failureResult`; an error that carries the outcome of a delivery gives it back.
unfoldable pub failure_result : String → Error → WebhookDeliveryResult
failure_result conflict_message (delivery_error message status_code) = record {
  success = false;
  status_code = status_code;
  error = some message;
  code = some provider_error;
}
failure_result conflict_message (authority_error code message details) =
    failed_with (code_of code) message
failure_result conflict_message conditional_conflict = failed_with provider_error conflict_message
failure_result conflict_message (other_error message) = failed_with provider_error message

unfoldable pub message_of : String → Error → String
message_of conflict_message (authority_error code message details) = message
message_of conflict_message (delivery_error message status_code) = message
message_of conflict_message conditional_conflict = conflict_message
message_of conflict_message (other_error message) = message

-- What `recordAttempt` does with the result of an attempt.
pub data Settlement : Type 0 where
  deliver : Settlement
  refuse : ServiceFailureCode → Settlement
  postpone : ServiceFailureCode → Settlement
  give_up retry : Settlement

abbrev pub by_provider : ℕ → WebhookDelivery → WebhookDeliveryResult → Settlement
by_provider attempts claimed result =
    if is_terminal result.status_code || leb attempts (claimed.attempt_count + 1)
    then give_up
    else retry

abbrev pub by_code :
    ℕ → WebhookDelivery → WebhookDeliveryResult → Option ServiceFailureCode → Settlement
by_code attempts claimed result (some denied) = refuse denied
by_code attempts claimed result (some invalid_request) = refuse invalid_request
by_code attempts claimed result (some authority_unavailable) = postpone authority_unavailable
by_code attempts claimed result (some authorization_timeout) = postpone authorization_timeout
by_code attempts claimed result _ = by_provider attempts claimed result

unfoldable pub settlement : ℕ → WebhookDelivery → WebhookDeliveryResult → Settlement
unfolding is_terminal
settlement attempts claimed result =
    if result.success then deliver else by_code attempts claimed result result.code

-- `${result.code}: ${result.error}`.
abbrev pub coded : ServiceFailureCode → WebhookDeliveryResult → String
coded code result =
    String.◌++◌ (code_name code) (String.◌++◌ ": " (or_default result.error "undefined"))

-- `result.error || 'Unknown error'`.
abbrev pub error_text : WebhookDeliveryResult → String
error_text result = if truthy result.error then or_default result.error "" else "Unknown error"

-- The update that a settlement merges into the stored record.
unfoldable pub settle_update :
    Settlement → ℕ → WebhookDelivery → WebhookDeliveryResult → WebhookDelivery → WebhookDelivery
unfolding code_name
settle_update deliver now claimed result stored = record stored {
  status = delivered;
  delivered_at = some now;
  attempt_count = claimed.attempt_count + 1;
  last_status_code = result.status_code;
}
settle_update (refuse code) now claimed result stored = record stored {
  status = failed;
  last_error = some (coded code result);
}
settle_update (postpone code) now claimed result stored = record stored {
  status = retrying;
  next_attempt_at = some (now + initial_retry_delay_ms);
  last_error = some (coded code result);
}
settle_update give_up now claimed result stored = record stored {
  status = failed;
  last_error = some (error_text result);
  attempt_count = claimed.attempt_count + 1;
  last_status_code = result.status_code;
}
settle_update retry now claimed result stored = record stored {
  status = retrying;
  next_attempt_at = some (now + initial_retry_delay_ms * 2 ^ claimed.attempt_count);
  last_error = some (error_text result);
  attempt_count = claimed.attempt_count + 1;
  last_status_code = result.status_code;
}

abbrev pub principal_or_anonymous : Option DurablePrincipal → String
principal_or_anonymous none = "anonymous"
principal_or_anonymous (some durable) = durable.principal_id

-- An event about an attempt that failed.
abbrev pub failure_event :
    String → String → String → WebhookDelivery → String → String → AuditFields
failure_event kind tenant_id endpoint_id delivery principal_id reason = record {
  kind = kind;
  endpoint_id = some endpoint_id;
  delivery_id = some delivery.id;
  integration_id = none;
  tenant_id = tenant_id;
  principal_id = principal_id;
  result = failure;
  reason = some reason;
}

abbrev pub is_denied : ServiceFailureCode → Bool
is_denied denied = true
is_denied _ = false
