-- ===== src/ApiKeys/Restrictions.antt =====
-- api-keys/restrictions.ts: the ceiling of a key, and its validation. The messages of refusals
-- leave out the position and the value that the source interpolates.
pub mod Ceiling
pub mod Checks
use appport_services.Common.{
  ℕ, String, Bool, true, false, not, ◌&&◌, ◌||◌, ◌==◌, opt_eq, Option, none, some, List, [], ◌∷◌,
  length, map, every, any, keep, leb, includes, get, is_blank, is_some, or_default, utf16_length,
  code_le, if◌then◌else◌,
}
use appport_services.Common.Sorting.{sort_by}
use appport_services.Common.Json.{Json, null, boolean, number, text, array, object, items, members}
use appport_services.Authority.Context.{ServiceResource}
use appport_services.Authority.Manifest.{ServiceCapability, service_capability_manifest}
use appport_services.Exec.{Result, ok, err, invalid}

pub record ApiKeyResourceRule : Type 0 where
  pub kind : Option String
  pub id : Option String
  pub attributes : Option (List (String × String))

pub record ApiKeyRestrictions : Type 0 where
  pub capabilities : List String
  pub resources : Option (List ApiKeyResourceRule)

-- `Object.entries(rule.attributes ?? {})`.
abbrev pub entries : ApiKeyResourceRule → List (String × String)
entries rule = or_default rule.attributes []

-- A field of a rule that is set must equal the field of the other side.
abbrev pub demands : Option String → Option String → Bool
demands none actual = true
demands (some wanted) actual = opt_eq (some wanted) actual

abbrev pub agrees : List (String × String) → String × String → Bool
agrees attributes (key, value) = opt_eq (get key attributes) (some value)

unfoldable pub rule_matches : ApiKeyResourceRule → ServiceResource → Bool
rule_matches rule resource =
    demands rule.kind (some resource.kind)
    && demands rule.id resource.id
    && every (agrees resource.attributes) (entries rule)

abbrev permits_resource : Option (List ApiKeyResourceRule) → ServiceResource → Bool
permits_resource none resource = true
permits_resource (some rules) resource = any (λ rule. rule_matches rule resource) rules

unfoldable pub restrictions_permit : Option ApiKeyRestrictions → String → ServiceResource → Bool
restrictions_permit none capability resource = true
restrictions_permit (some r) capability resource =
    includes r.capabilities capability && permits_resource r.resources resource

unfoldable pub rule_narrows : ApiKeyResourceRule → ApiKeyResourceRule → Bool
rule_narrows inner outer =
    demands outer.kind inner.kind
    && demands outer.id inner.id
    && every (agrees (entries inner)) (entries outer)

abbrev resources_within : Option (List ApiKeyResourceRule) → Option (List ApiKeyResourceRule) → Bool
resources_within child none = true
resources_within none (some parent) = false
resources_within (some child) (some parent) =
    every (λ rule. any (λ outer. rule_narrows rule outer) parent) child

unfoldable pub restrictions_within : Option ApiKeyRestrictions → Option ApiKeyRestrictions → Bool
restrictions_within child none = true
restrictions_within none (some parent) = false
restrictions_within (some child) (some parent) =
    every (includes parent.capabilities) child.capabilities
    && resources_within child.resources parent.resources

abbrev pub max_capabilities : ℕ
max_capabilities = 64

abbrev pub max_resource_rules : ℕ
max_resource_rules = 64

abbrev pub max_attributes : ℕ
max_attributes = 16

abbrev pub max_text : ℕ
max_text = 256

-- The sets `CAPABILITIES` and `RESOURCE_TYPES`.
unfoldable pub invocable_names : List String
unfolding service_capability_manifest
invocable_names = map (λ c. c.name) (keep (λ c. c.invocable) service_capability_manifest)

unfoldable pub resource_types : List String
unfolding service_capability_manifest
resource_types = map (λ c. c.resource) service_capability_manifest

-- `text(value, property)`.
unfoldable pub short_text : Json → Result String
short_text (text s) =
    if is_blank s || not (leb (utf16_length s) max_text)
    then err (invalid "must be a non-empty string of at most 256 characters")
    else ok s
short_text _ = err (invalid "must be a non-empty string of at most 256 characters")

abbrev then_cons {ℓ} : {A : Type ℓ} → Result A → Result (List A) → Result (List A)
then_cons (ok x) (ok xs) = ok (x ∷ xs)
then_cons (ok x) (err e) = err e
then_cons (err e) _ = err e

-- The loop over the capability names: each must be an invocable capability.
unfoldable pub capability_names : List Json → Result (List String)
capability_names [] = ok []
capability_names (text name ∷ rest) =
    let others = capability_names rest in
    if includes invocable_names name
    then then_cons (ok name) others
    else err
        (invalid "restrictions.capabilities: not an invocable capability in the service manifest")
capability_names (_ ∷ rest) =
    err (invalid "restrictions.capabilities: not an invocable capability in the service manifest")

-- `[...new Set(names)]`: the first occurrence of each.
without_text : String → List String → List String
without_text x [] = []
without_text x (y ∷ ys) = let rest = without_text x ys in if x == y then rest else y ∷ rest

unfoldable pub distinct : List String → List String
unfolding without_text
distinct [] = []
distinct (x ∷ xs) = x ∷ without_text x (distinct xs)

-- Only the named keys may occur in an object.
abbrev only_keys : List String → List (String × Json) → Bool
only_keys known ms = every (λ m. includes known m.0) ms

-- `rule.type`, `rule.id` and the entries of `rule.attributes`, where they are set.
rule_kind : Option Json → Result (Option String)
rule_kind none = ok none
rule_kind (some (text t)) =
    if includes resource_types t
    then ok (some t)
    else err (invalid "type: not a resource type in the service manifest")
rule_kind (some _) = err (invalid "type: not a resource type in the service manifest")

some_text : Result String → Result (Option String)
some_text (ok s) = ok (some s)
some_text (err e) = err e

rule_id : Option Json → Result (Option String)
unfolding some_text
rule_id none = ok none
rule_id (some v) = some_text (short_text v)

both_texts : Result String → Result String → Result (String × String)
both_texts (ok k) (ok v) = ok (k, v)
both_texts (ok k) (err e) = err e
both_texts (err e) _ = err e

attribute_texts : List (String × Json) → Result (List (String × String))
unfolding both_texts
attribute_texts [] = ok []
attribute_texts ((key, value) ∷ rest) =
    then_cons (both_texts (short_text (text key)) (short_text value)) (attribute_texts rest)

-- A plain object takes no entry of the name `__proto__`.
abbrev as_object : List (String × String) → List (String × String)
as_object [] = []
as_object ((k, v) ∷ rest) =
    let others = as_object rest in if k == "__proto__" then others else (k, v) ∷ others

-- Attributes are left out where none were given.
set_unless_empty : Result (List (String × String)) → Result (Option (List (String × String)))
set_unless_empty (ok []) = ok none
set_unless_empty (ok (a ∷ rest)) = ok (some (as_object (a ∷ rest)))
set_unless_empty (err e) = err e

rule_attributes : (String → String → Bool) → Option Json → Result (Option (List (String × String)))
unfolding attribute_texts set_unless_empty
rule_attributes locale_le none = ok none
rule_attributes locale_le (some (object ms)) =
    if leb (length (members ms)) max_attributes
    then set_unless_empty (attribute_texts (sort_by (λ a b. locale_le (a.0) (b.0)) (members ms)))
    else err (invalid "attributes allows at most 16 entries")
rule_attributes locale_le (some _) = err (invalid "attributes must be an object of strings")

make_rule :
    Result (Option String)
    → Result (Option String)
    → Result (Option (List (String × String)))
    → Result ApiKeyResourceRule
make_rule (err e) _ _ = err e
make_rule (ok kind) (err e) _ = err e
make_rule (ok kind) (ok id) (err e) = err e
make_rule (ok kind) (ok id) (ok attributes) =
    if is_some kind || is_some id || is_some attributes
    then ok (record { kind = kind; id = id; attributes = attributes })
    else err (invalid "must set at least one of type, id, or attributes")

module _ (locale_le : String → String → Bool) where
  -- The order of localeCompare on attribute names is `locale_le`.
  unfoldable pub normalize_rule : Json → Result ApiKeyResourceRule
  unfolding make_rule rule_kind rule_id rule_attributes
  normalize_rule (object ms) =
      if only_keys ("type" ∷ "id" ∷ "attributes" ∷ []) (members ms)
      then make_rule (rule_kind (get "type" (members ms))) (rule_id (get "id" (members ms)))
          (rule_attributes locale_le (get "attributes" (members ms)))
      else err (invalid "is not supported")
  normalize_rule _ = err (invalid "must be an object")

  unfoldable pub normalize_rules : List Json → Result (List ApiKeyResourceRule)
  normalize_rules [] = ok []
  normalize_rules (v ∷ vs) = then_cons (normalize_rule v) (normalize_rules vs)

  with_resources : List String → Result (List ApiKeyResourceRule) → Result ApiKeyRestrictions
  with_resources capabilities (ok rules) =
      ok (record { capabilities = capabilities; resources = some rules })
  with_resources capabilities (err e) = err e

  unfoldable pub finish_restrictions :
      Result (List String) → Option Json → Result ApiKeyRestrictions
  unfolding with_resources
  finish_restrictions (err e) _ = err e
  finish_restrictions (ok names) none =
      ok (record { capabilities = sort_by code_le (distinct names); resources = none })
  finish_restrictions (ok names) (some (array vs)) =
      if leb (length (items vs)) max_resource_rules
      then with_resources (sort_by code_le (distinct names)) (normalize_rules (items vs))
      else err (invalid "restrictions.resources allows at most 64 rules")
  finish_restrictions (ok names) (some _) =
      err (invalid "restrictions.resources must be an array of resource rules")

  given_capabilities : Option Json → Result (List String)
  given_capabilities (some (array vs)) =
      if leb (length (items vs)) max_capabilities
      then capability_names (items vs)
      else err (invalid "restrictions.capabilities allows at most 64 entries")
  given_capabilities _ =
      err (invalid "restrictions.capabilities must be an array of capability names")

  unfoldable pub normalize_restrictions : Json → Result ApiKeyRestrictions
  unfolding given_capabilities
  normalize_restrictions (object ms) =
      if only_keys ("capabilities" ∷ "resources" ∷ []) (members ms)
      then finish_restrictions (given_capabilities (get "capabilities" (members ms)))
          (get "resources" (members ms))
      else err (invalid "is not supported")
  normalize_restrictions _ = err (invalid "restrictions must be an object")
