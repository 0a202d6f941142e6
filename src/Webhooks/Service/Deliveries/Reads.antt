-- ===== src/Webhooks/Service/Deliveries/Reads.antt =====
-- What a read of deliveries may return.
use appport_services.Common.{
  ℕ, ◌≤◌, ◌≡◌, refl, sym, subst, String, true, Option, none, some, List, [], length, keep, take,
  map, every, includes, length-take-le, Bool-cases, inl, inr, arith, length-keep-le, every-keep,
}
use appport_services.Webhooks.Models.{
  WebhookDelivery, WebhookEndpoint, WebhookDeliveryQuery, DeliveryFilter, Limit, no_limit,
  bad_limit, limit,
}
use appport_services.Webhooks.Service.{WebhookService}
use appport_services.Webhooks.Service.Deliveries.{
  CheckedQuery, check_limit, check_endpoint, check_status, delivery_query, has_status,
  of_application, owned_endpoint_ids, delivery_rows, not_owned, owned_rows, read_rows,
}
use appport_services.Exec.{Exec, ok, pure, lift, >>=-eq-ok, ◌>>=◌}

-- A store that answers a page with at most as many rows as asked for.
abbrev pub IsPaging :
    {S : Type 0} → Option (String → DeliveryFilter → ℕ → Exec S (List WebhookDelivery)) → Type 0
IsPaging none = Unit
IsPaging {S} (some page) =
    (tenant_id : String) (filter : DeliveryFilter) (n : ℕ) (s : S) (rows : List WebhookDelivery)
    → (page tenant_id filter n s).0 ≡ ok rows
    → length rows ≤ n

check_limit-ok : (l : Limit) (n : ℕ) → check_limit l ≡ ok n → n ≤ 200
unfolding check_limit
check_limit-ok no_limit n h = ground arith
check_limit-ok bad_limit n h = cc
check_limit-ok (limit m) n h = ground arith

delivery_query-ok :
    {S : Type 0} (input : WebhookDeliveryQuery) (s : S) (query : CheckedQuery)
    → (delivery_query input s).0 ≡ ok query
    → query.limit ≤ 200
unfolding delivery_query
delivery_query-ok input s query h =
    let (n, limited, h₁) = >>=-eq-ok (lift (check_limit input.page_limit)) _ s h in
    let (endpoint_id, _, h₂) = >>=-eq-ok (lift (check_endpoint input.endpoint_id)) _ s h₁ in
    let (status, _, h₃) =
      >>=-eq-ok (lift (check_status input.status))
        (λ st.
          pure (record { filter = record { endpoint_id = endpoint_id; status = st }; limit = n }))
        s h₂ in
    let same : record { filter = record { endpoint_id = endpoint_id; status = status }; limit = n }
        ≡ query =
      cc h₃ in
    subst (λ (q : CheckedQuery). q.limit ≤ 200) same (check_limit-ok input.page_limit n limited)

module _ {S : Type 0} (svc : WebhookService S) (tenant_id application : String)
    (query : CheckedQuery) where
  delivery_rows-length :
      (page : Option (String → DeliveryFilter → ℕ → Exec S (List WebhookDelivery))) (s : S)
      (rows : List WebhookDelivery)
      → IsPaging page
      → (delivery_rows svc page tenant_id query s).0 ≡ ok rows
      → length rows ≤ query.limit
  unfolding delivery_rows
  delivery_rows-length (some page) s rows paging h =
      paging tenant_id query.filter query.limit s rows h
  delivery_rows-length none s rows paging h =
      let (found, _, same) =
        >>=-eq-ok (svc.delivery_store.list tenant_id query.filter.endpoint_id none)
          (λ f. pure (take query.limit (keep (has_status query.filter.status) f))) s h in
      let taken : take query.limit (keep (has_status query.filter.status) found) ≡ rows = cc same in
      subst (λ r. length r ≤ query.limit) taken
        (length-take-le query.limit (keep (has_status query.filter.status) found))

  -- The ids of the application's endpoints, among those that the store listed for the tenant.
  abbrev owned_ids : List WebhookEndpoint → List String
  owned_ids endpoints = map (λ endpoint. endpoint.id) (keep (of_application application) endpoints)

  -- A page of deliveries that a read returned.
  pub record IsOwnPage (rows : List WebhookDelivery) (s : S) : Type 0 where
    pub endpoints : List WebhookEndpoint
    pub listed : (svc.endpoint_store.list tenant_id s).0 ≡ ok endpoints
    pub own : every (λ delivery. includes (owned_ids endpoints) delivery.endpoint_id) rows ≡ true
    pub within_limit : length rows ≤ query.limit
    pub within_maximum : length rows ≤ 200

  owned_rows-own :
      (owned : List String) (s : S) (rows : List WebhookDelivery)
      → IsPaging svc.delivery_store.page
      → (owned_rows svc tenant_id query owned s).0 ≡ ok rows
      → (every (λ delivery. includes owned delivery.endpoint_id) rows ≡ true)
        × (length rows ≤ query.limit)
  unfolding owned_rows
  owned_rows-own owned s rows paging h =
      elim (Bool-cases (not_owned query.filter.endpoint_id owned)) [
        | inl foreign ↦
            let returned : ok [] ≡ ok rows = rw foreign at h in
            let same : [] ≡ rows = cc returned in
            subst
              (λ r.
                (every (λ delivery. includes owned delivery.endpoint_id) r ≡ true)
                × (length r ≤ query.limit))
              same (refl, omega arith)
        | inr mine ↦
            let own = λ (delivery : WebhookDelivery). includes owned delivery.endpoint_id in
            let (found, read, kept) =
              >>=-eq-ok (delivery_rows svc svc.delivery_store.page tenant_id query)
                (λ f. pure (keep own f)) s (rw mine at h) in
            let same : keep own found ≡ rows = cc kept in
            subst (λ r. (every own r ≡ true) × (length r ≤ query.limit)) same
              (
                every-keep own found,
                omega (
                  arith,
                  length-keep-le own found,
                  delivery_rows-length svc.delivery_store.page s found paging read,
                ),
              )
      ]

  -- A read of deliveries returns only deliveries to endpoints of the application, as the store
  -- lists them for the tenant, and never more than the limit of the query nor than 200, for any
  -- query that passed validation and any store whose pages keep to their size.
  pub read_rows-IsOwnPage :
      (input : WebhookDeliveryQuery) (s₀ s : S) (rows : List WebhookDelivery)
      → IsPaging svc.delivery_store.page
      → (delivery_query input s₀).0 ≡ ok query
      → (read_rows svc tenant_id query application s).0 ≡ ok rows
      → IsOwnPage rows s
  unfolding read_rows owned_endpoint_ids
  read_rows-IsOwnPage input s₀ s rows paging valid h =
      let (owned, found, h₁) =
        >>=-eq-ok (svc.endpoint_store.list tenant_id >>= λ e. pure (owned_ids e))
          (owned_rows svc tenant_id query) s h in
      let (endpoints, listed, mapped) =
        >>=-eq-ok (svc.endpoint_store.list tenant_id) (λ e. pure (owned_ids e)) s found in
      let same : owned_ids endpoints ≡ owned = cc mapped in
      let (own, short) = owned_rows-own owned _ rows paging h₁ in
      record {
        endpoints = endpoints;
        listed = listed;
        own =
            subst (λ ids. every (λ delivery. includes ids delivery.endpoint_id) rows ≡ true)
              (sym same) own;
        within_limit = short;
        within_maximum = omega (arith, short, delivery_query-ok input s₀ query valid);
      }
