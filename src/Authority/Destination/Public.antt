-- ===== src/Authority/Destination/Public.antt =====
-- Where a delivery may connect to.
use Prim.Native.String
use appport_services.Common.{
  strip_prefix-append, ◌≡◌, refl, ap, ◌∙◌, subst, String, Bool, true, false, ◌&&◌, ◌||◌, ◌==◌,
  Option, none, some, List, [], ◌∷◌, any, includes, if◌then◌else◌, arith,
}
use appport_services.Authority.Destination.{
  Network, Url, ResolvedAddress, WebhookDestinationPolicy, ValidatedDestination, check_url, resolve,
  choose_address, validate_url, validate_destination, is_forbidden_address, host_of,
  blocked_hostnames, ends_with, forbidden, v4, v6, is_dotted, embedded_ipv4, dotted_after,
  forbidden_of, forbidden_plain,
}
use appport_services.Exec.{ok, err, lift, >>=-eq-ok}

module _ {S : Type 0} (net : Network S) where
  -- A destination that stands for what it says: a URL of the web without credentials, whose host is
  -- not reserved, and an address that the host is or resolved to, which is not forbidden, and
  -- neither is any other address of the host.
  pub record IsPublic (policy : WebhookDestinationPolicy S) (raw : String) (s : S)
      (d : ValidatedDestination) : Type 0 where
    pub of_url : net.parse_url raw ≡ some d.url
    pub web : (d.url.protocol == "https:" || d.url.protocol == "http:") ≡ true
    pub no_username : (d.url.username == "" && d.url.password == "") ≡ true
    pub allowed_host : includes blocked_hostnames (host_of net d.url) ≡ false
    pub not_internal : ends_with ".internal" (host_of net d.url) ≡ false
    pub not_local : ends_with ".localhost" (host_of net d.url) ≡ false
    pub others : List ResolvedAddress
    pub resolved :
        (resolve net policy (net.is_ip (host_of net d.url)) (host_of net d.url) s).0
        ≡ ok (d.address ∷ others)
    pub all_public :
        any (λ entry. is_forbidden_address net entry.address) (d.address ∷ others) ≡ false

  chosen :
      (clear : Bool) (url : Url) (first : ResolvedAddress) (d : ValidatedDestination)
      → (if clear
          then err (
              forbidden
                "Webhook destination resolves to a private, loopback, link-local, or metadata address")
          else ok (record { url = url; address = first }))
        ≡ ok d
      → (clear ≡ false) × (url ≡ d.url) × (first ≡ d.address)
  chosen true url first d h = cc
  chosen false url first d h =
      let same : record { url = url; address = first } ≡ d = cc h in
      (refl, ap (λ x. x.url) same, ap (λ x. x.address) same)

  choose_address-ok :
      (policy : WebhookDestinationPolicy S) (url : Url) (addresses : List ResolvedAddress)
      (d : ValidatedDestination)
      → policy.allow_private_networks ≡ false
      → choose_address net policy url addresses ≡ ok d
      → (url ≡ d.url)
        × (others : List ResolvedAddress) × (addresses ≡ d.address ∷ others)
        × (any (λ entry. is_forbidden_address net entry.address) (d.address ∷ others) ≡ false)
  unfolding choose_address
  choose_address-ok policy url [] d private h = cc
  choose_address-ok policy url (first ∷ others) d private h =
      let bad = any (λ entry. is_forbidden_address net entry.address) (first ∷ others) in
      let (clear, same_url, same) = chosen bad url first d (rw private at h) in
      (
        same_url,
        others,
        ap (λ x. x ∷ others) same,
        subst (λ x. any (λ entry. is_forbidden_address net entry.address) (x ∷ others) ≡ false) same
            clear,
      )

  check_url-ok :
      (policy : WebhookDestinationPolicy S) (url : Url)
      → policy.allow_private_networks ≡ false
      → check_url net policy url ≡ ok tt
      → ((url.protocol == "https:" || url.protocol == "http:") ≡ true)
        × ((url.username == "" && url.password == "") ≡ true)
        × (includes blocked_hostnames (host_of net url) ≡ false)
        × (ends_with ".internal" (host_of net url) ≡ false)
        × (ends_with ".localhost" (host_of net url) ≡ false)
  unfolding check_url
  check_url-ok policy url private h = ground arith

  validate_url-IsPublic :
      (policy : WebhookDestinationPolicy S) (raw : String) (o : Option Url) (s : S)
      (d : ValidatedDestination)
      → policy.allow_private_networks ≡ false
      → net.parse_url raw ≡ o
      → (validate_url net policy o s).0 ≡ ok d
      → IsPublic policy raw s d
  unfolding validate_url
  validate_url-IsPublic policy raw none s d private e h = cc
  validate_url-IsPublic policy raw (some url) s d private e h =
      let (_, checked, h₁) = >>=-eq-ok (lift (check_url net policy url)) _ s h in
      let (addresses, found, h₂) =
        >>=-eq-ok (resolve net policy (net.is_ip (host_of net url)) (host_of net url))
          (λ found. lift (choose_address net policy url found)) _ h₁ in
      let (same, others, listed, all_public) =
        choose_address-ok policy url addresses d private h₂ in
      let (web, no_username, allowed_host, not_internal, not_local) =
        check_url-ok policy d.url private
          (subst (λ u. check_url net policy u ≡ ok tt) same checked) in
      record {
        of_url = subst (λ u. net.parse_url raw ≡ some u) same e;
        web = web;
        no_username = no_username;
        allowed_host = allowed_host;
        not_internal = not_internal;
        not_local = not_local;
        others = others;
        resolved =
            subst
              (λ u.
                (resolve net policy (net.is_ip (host_of net u)) (host_of net u) s).0
                ≡ ok (d.address ∷ others))
              same (found ∙ ap ok listed);
        all_public = all_public;
      }

  -- Without private networks, a destination is accepted only if its URL is one of the web without
  -- credentials whose host name is not reserved, and none of the addresses that the host is or
  -- resolved to is forbidden; the delivery connects to the first of them.
  pub validate_destination-IsPublic :
      (policy : WebhookDestinationPolicy S) (raw : String) (s : S) (d : ValidatedDestination)
      → policy.allow_private_networks ≡ false
      → (validate_destination net policy raw s).0 ≡ ok d
      → IsPublic policy raw s d
  unfolding validate_destination
  validate_destination-IsPublic policy raw s d private h =
      validate_url-IsPublic policy raw (net.parse_url raw) s d private refl h

dotted_after-append :
    (front s : String) → is_dotted s ≡ true → dotted_after front (String.◌++◌ front s) ≡ some s
unfolding dotted_after
dotted_after-append front s h = rw (strip_prefix-append front s, h) refl

module _ {S : Type 0} (net : Network S) (dotted mapped : String) where
  -- An IPv6 address that is an IPv4 address behind ::ffff: in dotted form is forbidden exactly when
  -- that IPv4 address is.
  pub mapped_address_is_as_forbidden :
      net.is_ip mapped ≡ v6
      → net.lower_case mapped ≡ String.◌++◌ "::ffff:" dotted
      → is_dotted dotted ≡ true
      → net.is_ip dotted ≡ v4
      → is_forbidden_address net mapped ≡ is_forbidden_address net dotted
  unfolding is_forbidden_address embedded_ipv4 forbidden_of forbidden_plain
  mapped_address_is_as_forbidden is_v6 lower d is_v4 =
      rw (is_v6, lower, dotted_after-append "::ffff:" dotted d, is_v4) refl
