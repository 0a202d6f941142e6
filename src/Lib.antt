-- ===== src/Lib.antt =====
-- AppPort Services: durable operational services (API keys, jobs and others) behind one policy
-- enforcement point. This library models the enforcement point with the custody of credentials, the
-- services of API keys, of jobs and of webhooks with their stores, and the transactions that
-- compose them, and proves what makes them correct.
--
-- How the parts interact. A service operation gets a caller. It requires a verified principal,
-- resolves the tenant, and hands its effect to the gateway. The gateway checks who owns the
-- resource and the live credential of the principal, asks the authorizer of the host, and performs
-- the effect between two writes of evidence. API keys are one source of principals; their
-- restrictions are the credential check. Jobs run later under a stored principal, which the gateway
-- attests by that evidence before it authorizes the run; so do deliveries of webhooks, which get the
-- secret that signs them from the custody of the gateway. A transaction queues the effects of issued
-- contexts, each with its evidence, and commits them in one step.
--
-- Which file models what, with paths of the repository:
--   Authority/Principal, Errors, Context, Manifest, Authorizer, Evidence: the files of those names
--     under src/authority. `verified` of `Caller` is the brand of minted principals.
--   Authority/Gateway: src/authority/gateway.ts (identify, assertOwnership, the declared
--     capabilities) and src/authority/credential-binding.ts. Its children Authorize (authorize,
--     decide), Execution (execute, run, recordRefusal) and Attest model the other methods; the
--     proofs are Enforcement, Outcomes and Attestation. Those of Evidence are in Evidence/Lookup.
--     Gateway/Custody: withCredential, storeCredential, credentialStatus, over the interfaces of
--     src/secrets that Authority/Custody states; proofs in Secrecy and Entitlement, and of what
--     stands behind an operation that returned in Gateway/Accountability.
--   Authority/Credentials, Destination, Reserved: the files of those names under src/authority;
--     proofs in Destination/Public.
--   ApiKeys/Restrictions: src/api-keys/restrictions.ts; proofs in Ceiling.
--   ApiKeys/Models: src/api-keys/models.ts and the interfaces of src/storage/api-keys.ts.
--   ApiKeys/Secrets, Views, Service and its children Issue, Change, Rotate, Revoke and
--     Authenticate:
--     src/api-keys/service.ts; proofs in Secrets/Verification, Secrets/Prefix,
--     Views/Pages, and Lifetime, Authenticity, Credentials and Acceptance under Service.
--   Jobs/Models, Jobs/Store: src/jobs/models.ts, src/jobs/store.ts; proofs in Store/Claims.
--     Jobs/Interval, Jobs/Service and its children Create, Settle, Run:
--     src/jobs/service.ts; proofs in Create/Vouched and Run/Authority.
--   Webhooks/Models, Store, Signatures: src/webhooks/models.ts, src/storage/webhooks.ts and
--     src/webhooks/secrets.ts. Webhooks/Service and its children Endpoints, Emit, Deliveries,
--     Settlement, Deliver, Integrations and Inbound: src/webhooks/service.ts; proofs in
--     Emit/Matching, Deliveries/Reads, Deliver/Authority and Inbound/Acceptance.
--   Storage/Bounded: src/storage/bounded.ts; proofs in Bounded/Pages.
--   Runtime/Transaction: src/runtime/transaction.ts; its children Authorized, Jobs,
--     Notifications, Deliveries and Services: src/runtime/transaction-services.ts and `transaction` of
--     src/runtime/unified-services.ts; proofs in Vouched and Once, by the triples of Triples, Grounds,
--     Queue, Effects, Notices and Validations.
--   Notifications/Sensitive: src/notifications/sensitive.ts, which transactions call.
--   FeltDb: the versioned collections that the package uses and does not contain, as a record of
--     operations with the laws that the stores rely on. Exec: asynchronous methods as actions on
--     the state of the world, with thrown errors. Common: shared operations and lemmas.
--   The modules called Checks hold tests and instances of the theorems in small worlds.
--
-- Conventions. An operation is a function from a state to a result and a state; each await is a
-- bind, and what was written before a throw stays written. The state is arbitrary: stores, clock,
-- random sources, the authorizer and other processes act on it. A time is the number of
-- milliseconds since 1970; earlier times are not represented. Where the source compares ISO texts,
-- numbers are compared as these texts are (iso_lt), and the times of jobs, which callers give
-- unchecked, are texts. A loop with a bound of attempts in the source is recursion on that bound, so
-- that no fuel is added. The loop over the pages of a bounded read takes a number of rounds, any
-- number, and fails if it has not ended by then; one round more than the records asked for is enough
-- where the database returns only what matches. Every other loop is structural.
-- The primitives of node:crypto, encodeURIComponent, localeCompare, the parser of URLs, the engine
-- of regular expressions, the resolver and the HTTP client are parameters. Custody reveals a secret before the callback that uses it and
-- conceals it after. In a transaction a context is an object, so that it has an identity, and the
-- validations of endpoints end at any point of the callback.
--
-- Not modelled: the service of notifications, configuration, files, schedules,
-- intelligence and the job worker, whose models are to follow; HTTP hosting, the command line, the
-- user interface and the creation of runtimes, which are input and output.
pub mod Common
pub mod Exec
pub mod FeltDb
pub mod Authority
pub mod ApiKeys
pub mod Jobs
pub mod Storage
pub mod Webhooks
pub mod Notifications
pub mod Runtime
