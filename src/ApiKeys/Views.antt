-- ===== src/ApiKeys/Views.antt =====
-- api-keys/service.ts: the read side. The status of a key, its safe view, list queries and pages.
pub mod Pages
use appport_services.Common.{
  ltb, ◌&&◌, ◌||◌, ℕ, zero, suc, ◌+◌, String, Bool, true, false, not, ◌&&◌, ◌||◌, ◌==◌, opt_eq,
  Option, none, some, List, [], ◌∷◌, map, keep, take, drop, leb, ltb, eqb, is_some, is_blank,
  present, or_default, if◌then◌else◌,
}
use appport_services.Common.Sorting.{sort_by}
use appport_services.ApiKeys.Models.{
  ApiKey, ApiKeyStatus, active, expired, revoked, ApiKeyView, ApiKeyAuditEvent,
}
use appport_services.Exec.{Result, ok, err, invalid, Exec, pure, lift, ◌>>=◌}

-- The first millisecond of the year 10000, from which on the text that `toISOString` makes starts
-- with a sign and comes before every text that starts with a digit.
abbrev pub year_10000 : ℕ
year_10000 = 253402300800000

-- `a < b` on the texts of two times.
abbrev pub iso_lt : ℕ → ℕ → Bool
iso_lt a b = if ltb a year_10000 then ltb b year_10000 && ltb a b else ltb b year_10000 || ltb a b

abbrev pub elapsed : Option ℕ → ℕ → Bool
elapsed none now = false
elapsed (some t) now = leb t now

unfoldable pub key_status : ApiKey → ℕ → ApiKeyStatus
key_status key now =
    if is_some key.revoked_at
    then revoked
    else if elapsed key.expires_at now
    then expired
    else active

unfoldable pub to_view : ApiKey → ℕ → ApiKeyView
unfolding key_status
to_view key now = record {
  id = key.id;
  tenant_id = key.tenant_id;
  application_id = present key.application_id;
  name = key.name;
  key_prefix = key.key_prefix;
  scopes = [];
  restrictions = key.restrictions;
  status = key_status key now;
  created_at = key.created_at;
  expires_at = key.expires_at;
  revoked_at = key.revoked_at;
  revoked_by = present key.revoked_by;
  last_used_at = key.last_used_at;
  updated_at = key.updated_at;
  updated_by = present key.updated_by;
  rotated_from = present key.rotated_from;
  rotated_to = present key.rotated_to;
  rotated_at = key.rotated_at;
  created_by = key.created_by;
}

-- `none` for `status` is 'all'. A value of another type never gets here in typed code; an empty
-- text for `created_by` or `after` is refused.
pub record ApiKeyListOptions : Type 0 where
  pub status : Option ApiKeyStatus
  pub created_by : Option String
  pub limit : Option ℕ
  pub after : Option String

pub record ListQuery : Type 0 where
  pub status : Option ApiKeyStatus
  pub created_by : Option String
  pub limit : ℕ
  pub after : Option String

abbrev pub max_page_size : ℕ
max_page_size = 500

abbrev is_empty_text : Option String → Bool
is_empty_text none = false
is_empty_text (some s) = s == ""

unfoldable pub list_query : ApiKeyListOptions → Result ListQuery
list_query options =
    let limit = or_default options.limit max_page_size in
    if not (leb 1 limit && leb limit max_page_size)
    then err (invalid "limit must be an integer from 1 to 500")
    else if is_empty_text options.created_by
    then err (invalid "createdBy must be a non-empty string")
    else if is_empty_text options.after
    then err (invalid "after must be a non-empty string")
    else ok (record {
      status = options.status;
      created_by = options.created_by;
      limit = limit;
      after = options.after;
    })

module _ {ℓ} {A : Type ℓ} (id_of : A → String) where
  -- What follows the item with an id; nothing if there is no such item.
  unfoldable pub items_after : String → List A → List A
  items_after cursor [] = []
  items_after cursor (x ∷ xs) =
      let rest = items_after cursor xs in if id_of x == cursor then xs else rest

  -- `page(items, after, limit)`.
  unfoldable pub page : List A → Option String → ℕ → List A
  unfolding items_after
  page items none limit = take limit items
  page items (some cursor) limit = take limit (items_after cursor items)

abbrev same_status : ApiKeyStatus → ApiKeyStatus → Bool
same_status active active = true
same_status expired expired = true
same_status revoked revoked = true
same_status _ _ = false

abbrev status_fits : Option ApiKeyStatus → ApiKeyStatus → Bool
status_fits none actual = true
status_fits (some wanted) actual = same_status wanted actual

abbrev creator_fits : Option String → String → Bool
creator_fits none actual = true
creator_fits (some wanted) actual = actual == wanted

-- `a.createdAt.localeCompare(b.createdAt) || a.id.localeCompare(b.id)`, not after.
abbrev pub created_le : (String → String → Bool) → ApiKey → ApiKey → Bool
created_le locale_le a b =
    ltb a.created_at b.created_at || (eqb a.created_at b.created_at && locale_le a.id b.id)

-- The filters and the order of `listApiKeys` with options.
unfoldable pub matching_keys :
    (String → String → Bool) → String → ListQuery → ℕ → List ApiKey → List ApiKey
matching_keys locale_le application query now items = sort_by (created_le locale_le) (
    keep (λ key. creator_fits query.created_by key.created_by)
      (keep (λ key. status_fits query.status (key_status key now))
        (keep (λ key. opt_eq key.application_id (some application)) items)))

unfoldable pub to_audit_view : ApiKeyAuditEvent → ApiKeyAuditEvent
to_audit_view event = record event { related_credential_id = present event.related_credential_id }

-- `requiredId`.
unfoldable pub required_id : String → Result String
required_id value = if is_blank value then err (invalid "id is required") else ok value
