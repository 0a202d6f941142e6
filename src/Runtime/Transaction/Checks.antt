-- ===== src/Runtime/Transaction/Checks.antt =====
-- A transaction in a small world: tests, and instances of the theorems.
use appport_services.Common.{◌==◌, ℕ, ◌≡◌, refl, ◌≢◌, none, some, List, [], ◌∷◌, length}
use appport_services.Common.Json.{null, text, object, member, end}
use appport_services.Notifications.Sensitive.{assert_no_credentials}
use appport_services.Runtime.Transaction.Notifications.{
  TransactionNotification, queue_notification, check_recipient, check_part, notify,
}
use appport_services.Authority.Context.{ServiceExecutionContext, assert_execution_context}
use appport_services.Authority.Gateway.Checks.{open_gateway, granted}
use appport_services.Authority.Evidence.{EffectEvidence}
use appport_services.Runtime.Transaction.{Transaction, push}
use appport_services.Runtime.Transaction.Authorized.{
  TransactionServices, authorized, consume_execution_context, mark_used, require_gateway,
}
use appport_services.Runtime.Transaction.Jobs.{
  TransactionJob, check_job, queue_job, enqueue, queued_job, job_operation,
}
use appport_services.Runtime.Transaction.Grounds.{IsIssued, IsGrounded}
use appport_services.Runtime.Transaction.Vouched.{Reach, fresh, operations_are-IsGrounded}
use appport_services.Runtime.Transaction.Once.{context_authorizes_once}
use appport_services.Exec.{ok, err, pure}
use appport_services.Authority.Errors.{other_error}
use mathlib.Core.List.{Memᴰ}

abbrev World : Type 0
World = List EffectEvidence

-- A context for a job of type "mail".
abbrev mail_context : ServiceExecutionContext
mail_context = record granted {
  resource = record {
    kind = "job";
    tenant_id = "t";
    id = none;
    attributes = ("jobType", "mail") ∷ [];
  };
}

abbrev mail_services : TransactionServices World
mail_services = record {
  gateway = some open_gateway;
  endpoints = none;
  issued = λ _. mail_context;
  now = pure 11;
  random_uuid = pure "u";
  date_text = λ n. "date";
  engine = record {
    test = λ source flags value. value == "Bearer abcdefgh";
    to_lower = λ s. s;
    index_text = λ n. "0";
  };
}

abbrev mail_job : TransactionJob
mail_job = record {
  tenant_id = "t";
  kind = "mail";
  payload = null;
  max_attempts = none;
  run_at = none;
  delegation_id = none;
}

fits : (j : ℕ) → IsIssued open_gateway (mail_services.issued j)
fits j = record { same_application = refl; same_tenant = refl; decided = refl; plain = λ _. refl }

abbrev queued : World × Transaction
queued = (queue_job mail_services mail_job (some 0) ([], fresh [])).1

job_is_queued :
    Memᴰ (job_operation (queued_job (λ n. "date") mail_context mail_job "u" 11)) queued.1.operations
unfolding queue_job authorized consume_execution_context mark_used assert_execution_context enqueue
    push require_gateway check_job
job_is_queued = Memᴰ.tail (Memᴰ.head refl)

operations_are-IsGrounded_example :
    IsGrounded mail_services open_gateway queued.1.operations
      (job_operation (queued_job (λ n. "date") mail_context mail_job "u" 11))
operations_are-IsGrounded_example =
    operations_are-IsGrounded mail_services open_gateway fits
      (Reach.queues_job Reach.here mail_job (some 0))
      (job_operation (queued_job (λ n. "date") mail_context mail_job "u" 11)) job_is_queued

first_use :
    (authorized mail_services (some 0) "jobs.create" "t" "job" ([], fresh [])).0 ≡ ok mail_context
unfolding authorized consume_execution_context mark_used assert_execution_context push
    require_gateway
first_use = refl

context_authorizes_once_example :
    (authorized mail_services
      (some 0)
      "jobs.create"
      "t"
      "job"
      (authorized mail_services (some 0) "jobs.create" "t" "job" ([], fresh [])).1).0
    ≢ ok mail_context
context_authorizes_once_example =
    context_authorizes_once mail_services 0 open_gateway fits mail_context "jobs.create" "t" "job"
      Reach.here first_use Reach.here mail_context "jobs.create" "t" "job"

abbrev refused : World × Transaction
refused = (queue_job mail_services (record mail_job { kind = "fax" }) (some 0) ([], fresh [])).1

-- Evidence of success is queued before the type of the job is checked: the job is refused, its
-- evidence stays in the transaction.
refused_with_evidence : length refused.1.operations ≡ 1
unfolding queue_job authorized consume_execution_context mark_used assert_execution_context enqueue
    push require_gateway check_job
refused_with_evidence = refl

-- The same world, where every context is for a notification to "ann".
abbrev note_services : TransactionServices World
note_services = record mail_services {
  issued = λ _. record mail_context {
    capability = "notifications.send";
    resource = record {
      kind = "notification";
      tenant_id = "t";
      id = none;
      attributes = ("recipient", "ann") ∷ [];
    };
  };
}

abbrev note : TransactionNotification
note = record {
  tenant_id = "t";
  recipient = "ann";
  kind = "hint";
  title = "Hello";
  body = none;
  data_value = some (object (member "token" (text "") (member "n" null end)));
  source = none;
  priority = none;
}

abbrev noted : World × Transaction
noted = (queue_notification note_services note (some 0) ([], fresh [])).1

-- The evidence, the notification, its delivery and the event.
notification_is_queued : length noted.1.operations ≡ 4
unfolding queue_notification authorized consume_execution_context mark_used assert_execution_context
    notify push require_gateway check_recipient check_part assert_no_credentials
notification_is_queued = refl

-- A credential in the title: the evidence alone is left, as the error says where.
credential_is_kept_out :
    (queue_notification note_services
      (record note { title = "Bearer abcdefgh" })
      (some 0)
      ([], fresh [])).0
    ≡ err (
        other_error
          "Notification content at \"title\" looks like a credential; credentials cannot be sent in notifications")
unfolding queue_notification authorized consume_execution_context mark_used assert_execution_context
    notify push require_gateway check_recipient check_part assert_no_credentials
credential_is_kept_out = refl

secret_key_is_found :
    assert_no_credentials mail_services.engine (object (member "db-password" (text "x") end)) "data"
    ≡ err (
        other_error
          "Notification content at \"data.db-password\" looks like a credential; credentials cannot be sent in notifications")
unfolding assert_no_credentials
secret_key_is_found = refl
