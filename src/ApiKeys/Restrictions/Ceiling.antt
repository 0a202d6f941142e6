-- ===== src/ApiKeys/Restrictions/Ceiling.antt =====
-- `restrictionsWithin` is the order of ceilings: what a key within another may do, that one may.
use appport_services.Common.{
  String, ◌≡◌, refl, Bool, true, eq_iff, eq_refl, Option, none, some, List, [], ◌∷◌, arith, every,
  any, includes, get, Bool-cases, and-true, inl, inr, All,
}
use appport_services.Authority.Context.{ServiceResource}
use appport_services.ApiKeys.Restrictions.{
  ApiKeyResourceRule, ApiKeyRestrictions, entries, demands, agrees, rule_matches, permits_resource,
  restrictions_permit, rule_narrows, resources_within, restrictions_within,
}

includes-every :
    (ps cs : List String) (x : String)
    → every (includes ps) cs ≡ true
    → includes cs x ≡ true
    → includes ps x ≡ true
includes-every ps [] x h k = cc
includes-every ps (c ∷ cs) x h k = ground (arith, eq_iff c x, includes-every ps cs x)

-- What a list of entries fixes, and every entry of it agrees with, is fixed there too.
agrees_trans :
    (inner attributes : List (String × String)) (key value : String)
    → every (agrees attributes) inner ≡ true
    → agrees inner (key, value) ≡ true
    → agrees attributes (key, value) ≡ true
agrees_trans [] attributes key value h k = cc
agrees_trans ((j, w) ∷ inner) attributes key value h k =
    ground (arith, eq_iff j key, eq_iff w value, agrees_trans inner attributes key value)

every-agrees_trans :
    (outer inner attributes : List (String × String))
    → every (agrees attributes) inner ≡ true
    → every (agrees inner) outer ≡ true
    → every (agrees attributes) outer ≡ true
every-agrees_trans [] inner attributes h k = refl
every-agrees_trans ((key, value) ∷ outer) inner attributes h k =
    ground (
      arith,
      agrees_trans inner attributes key value h,
      every-agrees_trans outer inner attributes h,
    )

demands_trans :
    (outer inner actual : Option String)
    → demands outer inner ≡ true
    → demands inner actual ≡ true
    → demands outer actual ≡ true
demands_trans none inner actual h k = refl
demands_trans (some a) none actual h k = cc
demands_trans (some a) (some b) none h k = cc
demands_trans (some a) (some b) (some c) h k = ground (arith, eq_iff a b, eq_iff b c, eq_iff a c)

rule_matches-narrows :
    (inner outer : ApiKeyResourceRule) (resource : ServiceResource)
    → rule_narrows inner outer ≡ true
    → rule_matches inner resource ≡ true
    → rule_matches outer resource ≡ true
unfolding rule_narrows rule_matches
rule_matches-narrows inner outer resource h k = ground (
  arith,
  demands_trans outer.kind inner.kind (some resource.kind),
  demands_trans outer.id inner.id resource.id,
  every-agrees_trans (entries outer) (entries inner) resource.attributes,
)

rule_narrows_trans :
    (a b c : ApiKeyResourceRule)
    → rule_narrows a b ≡ true
    → rule_narrows b c ≡ true
    → rule_narrows a c ≡ true
unfolding rule_narrows
rule_narrows_trans a b c h k = ground (
  arith,
  demands_trans c.kind b.kind a.kind,
  demands_trans c.id b.id a.id,
  every-agrees_trans (entries c) (entries b) (entries a),
)

any-implies {ℓ} :
    {A : Type ℓ} (p q : A → Bool) (xs : List A)
    → ((x : A) → p x ≡ true → q x ≡ true)
    → any p xs ≡ true
    → any q xs ≡ true
any-implies p q [] f h = h
any-implies p q (x ∷ xs) f h = ground (arith, f x, any-implies p q xs f)

-- Where each element of `xs` is covered by `ys`, what holds of some covered element holds in `ys`.
any-covered {ℓ} :
    {A : Type ℓ} (covers : A → A → Bool) (p : A → Bool) (xs ys : List A)
    → ((x y : A) → covers x y ≡ true → p x ≡ true → p y ≡ true)
    → every (λ x. any (covers x) ys) xs ≡ true
    → any p xs ≡ true
    → any p ys ≡ true
any-covered covers p [] ys f h k = cc
any-covered covers p (x ∷ xs) ys f h k = elim (Bool-cases (p x)) [
  | inl here ↦ any-implies (covers x) p ys (λ y c. f x y c here) (and-true _ _ h).0
  | inr there ↦ any-covered covers p xs ys f (and-true _ _ h).1 (ground arith)
]

permits_resource-within :
    (child parent : Option (List ApiKeyResourceRule)) (resource : ServiceResource)
    → resources_within child parent ≡ true
    → permits_resource child resource ≡ true
    → permits_resource parent resource ≡ true
permits_resource-within child none resource h k = refl
permits_resource-within none (some parent) resource h k = cc
permits_resource-within (some child) (some parent) resource h k =
    any-covered rule_narrows (λ rule. rule_matches rule resource) child parent
      (λ x y. rule_matches-narrows x y resource) h k

-- If a ceiling is within another, then it never permits an operation on a resource that the other
-- would not.
pub permit-within :
    (child parent : Option ApiKeyRestrictions) (capability : String) (resource : ServiceResource)
    → restrictions_within child parent ≡ true
    → restrictions_permit child capability resource ≡ true
    → restrictions_permit parent capability resource ≡ true
unfolding restrictions_within restrictions_permit
permit-within child none capability resource h k = refl
permit-within none (some parent) capability resource h k = cc
permit-within (some child) (some parent) capability resource h k = ground (
  arith,
  includes-every parent.capabilities child.capabilities capability,
  permits_resource-within child.resources parent.resources resource,
)

every-includes_trans :
    (c b a : List String)
    → every (includes b) a ≡ true
    → every (includes c) b ≡ true
    → every (includes c) a ≡ true
every-includes_trans c b [] h k = refl
every-includes_trans c b (x ∷ a) h k =
    ground (arith, includes-every c b x k, every-includes_trans c b a)

every-covered_trans :
    (xs bs cs : List ApiKeyResourceRule)
    → every (λ x. any (rule_narrows x) bs) xs ≡ true
    → every (λ x. any (rule_narrows x) cs) bs ≡ true
    → every (λ x. any (rule_narrows x) cs) xs ≡ true
every-covered_trans [] bs cs h k = refl
every-covered_trans (x ∷ xs) bs cs h k =
    let (here, there) = and-true _ _ h in
    let covered =
      any-covered rule_narrows (rule_narrows x) bs cs (λ y z n m. rule_narrows_trans x y z m n) k
        here in
    ground (arith, covered, every-covered_trans xs bs cs there k)

resources_within_trans :
    (a b c : Option (List ApiKeyResourceRule))
    → resources_within a b ≡ true
    → resources_within b c ≡ true
    → resources_within a c ≡ true
resources_within_trans a b none h k = refl
resources_within_trans a none (some c) h k = cc
resources_within_trans none (some b) (some c) h k = cc
resources_within_trans (some a) (some b) (some c) h k = every-covered_trans a b c h k

-- Ceilings nest: a ceiling within a second one, which is within a third, is within the third.
pub within_trans :
    (a b c : Option ApiKeyRestrictions)
    → restrictions_within a b ≡ true
    → restrictions_within b c ≡ true
    → restrictions_within a c ≡ true
unfolding restrictions_within
within_trans a b none h k = refl
within_trans a none (some c) h k = cc
within_trans none (some b) (some c) h k = cc
within_trans (some a) (some b) (some c) h k = ground (
  arith,
  every-includes_trans c.capabilities b.capabilities a.capabilities,
  resources_within_trans a.resources b.resources c.resources,
)

-- No key of an object occurs twice.
abbrev pub HasDistinctKeys : List (String × String) → Type 0
HasDistinctKeys [] = Unit
HasDistinctKeys ((k, v) ∷ m) = (get k m ≡ none) × HasDistinctKeys m

-- Attributes that agree with a list still do so with one more entry for a new key.
every-agrees-cons :
    (k v : String) (m xs : List (String × String))
    → get k xs ≡ none
    → every (agrees m) xs ≡ true
    → every (agrees ((k, v) ∷ m)) xs ≡ true
every-agrees-cons k v m [] h e = refl
every-agrees-cons k v m ((j, w) ∷ xs) h e =
    ground (arith, eq_iff k j, eq_iff j k, every-agrees-cons k v m xs)

every-agrees_refl : (m : List (String × String)) → HasDistinctKeys m → every (agrees m) m ≡ true
every-agrees_refl [] h = refl
every-agrees_refl ((k, v) ∷ m) h =
    ground (arith, eq_refl k, eq_refl v, every-agrees-cons k v m m h.0 (every-agrees_refl m h.1))

demands_refl : (o : Option String) → demands o o ≡ true
demands_refl none = refl
demands_refl (some s) = eq_refl s

rule_narrows_refl :
    (rule : ApiKeyResourceRule) → HasDistinctKeys (entries rule) → rule_narrows rule rule ≡ true
unfolding rule_narrows
rule_narrows_refl rule h =
    ground (arith, demands_refl rule.kind, demands_refl rule.id, every-agrees_refl (entries rule) h)

any-more {ℓ} :
    {A : Type ℓ} (p : A → Bool) (x : A) (ys : List A) → any p ys ≡ true → any p (x ∷ ys) ≡ true
any-more p x ys h = ground arith

-- Each element of a list is covered by any list that contains it.
every-covered_refl :
    (pre xs : List ApiKeyResourceRule)
    → All (λ rule. HasDistinctKeys (entries rule)) xs
    → ((x : ApiKeyResourceRule) → any (rule_narrows x) xs ≡ true → any (rule_narrows x) pre ≡ true)
    → every (λ x. any (rule_narrows x) pre) xs ≡ true
every-covered_refl pre [] h up = refl
every-covered_refl pre (x ∷ xs) h up = ground (
  arith,
  up x (ground (arith, rule_narrows_refl x h.0)),
  every-covered_refl pre xs h.1 (λ y e. up y (any-more (rule_narrows y) x xs e)),
)

every-includes_refl :
    (pre xs : List String)
    → ((x : String) → includes xs x ≡ true → includes pre x ≡ true)
    → every (includes pre) xs ≡ true
every-includes_refl pre [] up = refl
every-includes_refl pre (x ∷ xs) up = ground (
  arith,
  up x (ground (arith, eq_refl x)),
  every-includes_refl pre xs (λ y e. up y (ground arith)),
)

abbrev pub RulesHaveDistinctKeys : Option (List ApiKeyResourceRule) → Type 0
RulesHaveDistinctKeys none = Unit
RulesHaveDistinctKeys (some rules) = All (λ rule. HasDistinctKeys (entries rule)) rules

resources_within_refl :
    (o : Option (List ApiKeyResourceRule)) → RulesHaveDistinctKeys o → resources_within o o ≡ true
resources_within_refl none h = refl
resources_within_refl (some rules) h = every-covered_refl rules rules h (λ x e. e)

-- A key may issue a key with its own ceiling: a ceiling whose rules name each attribute once is
-- within itself.
pub within_refl :
    (r : ApiKeyRestrictions)
    → RulesHaveDistinctKeys r.resources
    → restrictions_within (some r) (some r) ≡ true
unfolding restrictions_within
within_refl r h = ground (
  arith,
  every-includes_refl r.capabilities r.capabilities (λ x e. e),
  resources_within_refl r.resources h,
)
