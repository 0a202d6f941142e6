-- ===== src/ApiKeys/Restrictions/Checks.antt =====
-- Tests and instances of the theorems on ceilings.
use appport_services.Common.{
  ◌≡◌, refl, true, false, none, some, [], ◌∷◌, code_le, is_blank, utf16_length,
}
use appport_services.Common.Sorting.{sort_by}
use appport_services.Common.Json.{Json, text, array, object, nil, cons, end, member}
use appport_services.Authority.Manifest.{service_capability_manifest}
use appport_services.Authority.Context.{ServiceResource}
use appport_services.ApiKeys.Restrictions.{
  ApiKeyResourceRule, ApiKeyRestrictions, rule_matches, restrictions_permit, rule_narrows,
  restrictions_within, normalize_restrictions, normalize_rules, normalize_rule, capability_names,
  distinct, finish_restrictions, short_text, given_capabilities, resource_types, invocable_names,
}
use appport_services.ApiKeys.Restrictions.Ceiling.{
  permit-within, within_trans, within_refl, RulesHaveDistinctKeys,
}
use appport_services.Exec.{ok}

abbrev file_rule : ApiKeyResourceRule
file_rule = record { kind = some "file"; id = none; attributes = none }

abbrev report_rule : ApiKeyResourceRule
report_rule = record {
  kind = some "file";
  id = some "report";
  attributes = some (("folder", "reports") ∷ []);
}

abbrev broad : ApiKeyRestrictions
broad = record {
  capabilities = "files.read" ∷ "jobs.create" ∷ [];
  resources = some (file_rule ∷ []);
}

abbrev narrow : ApiKeyRestrictions
narrow = record { capabilities = "files.read" ∷ []; resources = some (report_rule ∷ []) }

abbrev report : ServiceResource
report = record {
  kind = "file";
  tenant_id = "t";
  id = some "report";
  attributes = ("folder", "reports") ∷ [];
}

narrow_within_broad : restrictions_within (some narrow) (some broad) ≡ true
unfolding restrictions_within rule_narrows
narrow_within_broad = refl

broad_not_within_narrow : restrictions_within (some broad) (some narrow) ≡ false
unfolding restrictions_within rule_narrows
broad_not_within_narrow = refl

narrow_permits : restrictions_permit (some narrow) "files.read" report ≡ true
unfolding restrictions_permit rule_matches
narrow_permits = refl

permit-within_example : restrictions_permit (some broad) "files.read" report ≡ true
permit-within_example =
    permit-within (some narrow) (some broad) "files.read" report narrow_within_broad narrow_permits

within_trans_example : restrictions_within (some narrow) none ≡ true
unfolding restrictions_within
within_trans_example = within_trans (some narrow) (some broad) none narrow_within_broad refl

distinct_names : RulesHaveDistinctKeys narrow.resources
distinct_names = ((refl, tt), tt)

within_refl_example : restrictions_within (some narrow) (some narrow) ≡ true
within_refl_example = within_refl narrow distinct_names

abbrev given : Json
given = object (
    member "capabilities"
      (array
        (cons (text "files.read") (cons (text "apikeys.rotate") (cons (text "files.read") nil))))
      (member "resources"
        (array (cons (object (member "type" (text "file") (member "id" (text "report") end))) nil))
        end))

abbrev validated : ApiKeyRestrictions
validated = record {
  capabilities = "apikeys.rotate" ∷ "files.read" ∷ [];
  resources = some (record { kind = some "file"; id = some "report"; attributes = none } ∷ []);
}

given_is_valid : normalize_restrictions (λ a b. true) given ≡ ok validated
unfolding normalize_restrictions finish_restrictions normalize_rules normalize_rule capability_names
    distinct short_text given_capabilities resource_types invocable_names
    service_capability_manifest is_blank utf16_length sort_by code_le
given_is_valid = refl
