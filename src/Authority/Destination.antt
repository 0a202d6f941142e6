-- ===== src/Authority/Destination.antt =====
-- authority/destination.ts: the policy on where webhooks are delivered. What Node offers for URLs,
-- addresses and names are parameters: `new URL`, `isIP`, one subnet of a `BlockList`, `toLowerCase`
-- and the DNS lookup.
pub mod Public
pub mod Checks
use Prim.Native.Char.{code}
use Prim.Native.String
use appport_services.Common.{
  ℕ, zero, suc, ◌+◌, ◌-◌, ◌*◌, ◌/◌, ◌%◌, String, Bool, true, false, not, ◌&&◌, ◌||◌, ◌==◌, eqb, leb,
  ltb, Option, none, some, List, [], ◌∷◌, ◌++◌, any, includes, is_some, or_else, decimal,
  strip_prefix, if◌then◌else◌,
}
use appport_services.Authority.Errors.{Error, authority_error, invalid_request}
use appport_services.Exec.{Exec, pure, throw, lift, catch, Result, ok, err, require, ◌>>=◌, ◌>>◌}

pub data IpFamily : Type 0 where
  no_address v4 v6 : IpFamily

-- The fields of a URL that are read, the host name in brackets if it is an IPv6 address.
pub record Url : Type 0 where
  pub href : String
  pub protocol : String
  pub username : String
  pub password : String
  pub hostname : String
  pub origin : String
  pub port : String
  pub pathname : String
  pub search : String

pub record ResolvedAddress : Type 0 where
  pub address : String
  pub family : IpFamily

pub record Network (S : Type 0) : Type 0 where
  pub parse_url : String → Option Url
  pub is_ip : String → IpFamily
  pub in_subnet : String → ℕ → String → Bool
  pub lower_case : String → String
  pub dns_lookup : String → Exec S (List ResolvedAddress)

pub record WebhookDestinationPolicy (S : Type 0) : Type 0 where
  pub allow_private_networks : Bool
  pub lookup : Option (String → Exec S (List ResolvedAddress))

pub record ValidatedDestination : Type 0 where
  pub url : Url
  pub address : ResolvedAddress

abbrev pub blocked_hostnames : List String
blocked_hostnames =
    "localhost" ∷ "metadata" ∷ "metadata.google.internal" ∷ "metadata.goog" ∷ "instance-data"
    ∷ "instance-data.ec2.internal" ∷ []

abbrev pub blocked_v4 : List (String × ℕ)
blocked_v4 =
    ("0.0.0.0", 8)
    ∷ ("10.0.0.0", 8)
    ∷ ("100.64.0.0", 10)
    ∷ ("127.0.0.0", 8)
    ∷ ("169.254.0.0", 16)
    ∷ ("172.16.0.0", 12)
    ∷ ("192.0.0.0", 24)
    ∷ ("192.0.2.0", 24)
    ∷ ("192.88.99.0", 24)
    ∷ ("192.168.0.0", 16)
    ∷ ("198.18.0.0", 15)
    ∷ ("198.51.100.0", 24)
    ∷ ("203.0.113.0", 24)
    ∷ ("224.0.0.0", 4)
    ∷ ("240.0.0.0", 4)
    ∷ []

abbrev pub blocked_v6 : List (String × ℕ)
blocked_v6 =
    ("::", 128)
    ∷ ("::1", 128)
    ∷ ("100::", 64)
    ∷ ("2001:db8::", 32)
    ∷ ("fc00::", 7)
    ∷ ("fe80::", 10)
    ∷ ("fec0::", 10)
    ∷ ("ff00::", 8)
    ∷ []

abbrev is_digit : ℕ → Bool
is_digit c = leb b'0' c && leb c b'9'

-- /^\d+\.\d+\.\d+\.\d+$/ from inside a group: `dots` are still to come, `seen` tells whether the
-- group has a digit.
dotted_from : ℕ → Bool → String → Bool
dotted_from dots seen String.[] = eqb dots 0 && seen
dotted_from dots seen (String.◌∷◌ c s) =
    let digit = is_digit (code c) in
    let rest = dotted_from (if digit then dots else dots - 1) digit s in
    (digit || (eqb (code c) b'.' && seen && not (eqb dots 0))) && rest

unfoldable pub is_dotted : String → Bool
unfolding dotted_from
is_dotted s = dotted_from 3 false s

-- The value of a digit of [0-9a-f].
hex_value : ℕ → Option ℕ
hex_value c =
    if is_digit c
    then some (c - b'0')
    else if leb b'a' c && leb c b'f'
    then some (c - b'a' + 10)
    else none

-- The last of the two groups: at most `left` digits more, `seen` one at least.
low_group : ℕ → Bool → ℕ → String → Option ℕ
low_group left seen value String.[] = if seen then some value else none
low_group zero seen value (String.◌∷◌ c s) = none
low_group (suc left) seen value (String.◌∷◌ c s) = elim (hex_value (code c)) [
  | none ↦ none
  | some digit ↦ low_group left true (value * 16 + digit) s
]

-- /^([0-9a-f]{1,4}):([0-9a-f]{1,4})$/.
hex_groups : ℕ → Bool → ℕ → String → Option (ℕ × ℕ)
unfolding low_group
hex_groups left seen value String.[] = none
hex_groups left seen value (String.◌∷◌ c s) =
    if eqb (code c) b':'
    then (if seen then with_low (low_group 4 false 0 s) else none)
    else more left (hex_value (code c)) (λ n digit. hex_groups n true (value * 16 + digit) s)
  where
    with_low : Option ℕ → Option (ℕ × ℕ)
    with_low none = none
    with_low (some low) = some (value, low)

    more : ℕ → Option ℕ → (ℕ → ℕ → Option (ℕ × ℕ)) → Option (ℕ × ℕ)
    more zero digit next = none
    more (suc n) none next = none
    more (suc n) (some digit) next = next n digit

octets : ℕ × ℕ → String
octets (high, low) = String.◌++◌ (decimal (high / 256)) (
    String.◌++◌ "." (
      String.◌++◌ (decimal (high % 256)) (
        String.◌++◌ "."
          (String.◌++◌ (decimal (low / 256)) (String.◌++◌ "." (decimal (low % 256)))))))

if_dotted : Option String → Option String
if_dotted none = none
if_dotted (some rest) = if is_dotted rest then some rest else none

dotted_after : String → String → Option String
unfolding if_dotted
dotted_after front s = if_dotted (strip_prefix front s)

abbrev hex_after : String → String → Option String
hex_after front s = elim (strip_prefix front s) [
  | none ↦ none
  | some rest ↦ elim (hex_groups 4 false 0 rest) [ none ↦ none | some pair ↦ some (octets pair) ]
]

-- `embeddedIpv4`, the alternatives in their order.
unfoldable pub embedded_ipv4 : String → Option String
unfolding hex_groups octets dotted_after is_dotted strip_prefix hex_value low_group
embedded_ipv4 address = or_else (dotted_after "::ffff:" address) (
    or_else (dotted_after "::" address) (
      or_else (dotted_after "64:ff9b::" address)
        (or_else (hex_after "::ffff:" address) (hex_after "64:ff9b::" address))))

abbrev pub forbidden : String → Error
forbidden message =
    authority_error invalid_request message
      (record { capability = none; decision_id = none; reason = some "destination_forbidden" })

-- One dot at the end, one bracket at either end.
drop_last : ℕ → String → String
drop_last c String.[] = String.[]
drop_last c (String.◌∷◌ d s) =
    let rest = String.◌∷◌ d (drop_last c s) in if eqb (code d) c && s == "" then String.[] else rest

drop_first : ℕ → String → String
drop_first c String.[] = String.[]
drop_first c (String.◌∷◌ d s) = if eqb (code d) c then s else String.◌∷◌ d s

-- `s.endsWith(suffix)`.
unfoldable pub ends_with : String → String → Bool
ends_with suffix String.[] = suffix == ""
ends_with suffix (String.◌∷◌ c s) = (String.◌∷◌ c s == suffix) || ends_with suffix s

module _ {S : Type 0} (net : Network S) where
  abbrev in_any : List (String × ℕ) → String → Bool
  in_any subnets address = any (λ subnet. net.in_subnet subnet.0 subnet.1 address) subnets

  -- An embedded address has digits and dots only: it is of no family or of the fourth.
  forbidden_plain : IpFamily → String → Bool
  forbidden_plain v4 address = in_any blocked_v4 address
  forbidden_plain no_address address = true
  forbidden_plain v6 address = in_any blocked_v6 address

  forbidden_v6 : String → Option String → Bool
  forbidden_v6 lower none = in_any blocked_v6 lower
  forbidden_v6 lower (some embedded) = forbidden_plain (net.is_ip embedded) embedded

  unfoldable pub forbidden_of : IpFamily → String → Bool
  unfolding forbidden_plain forbidden_v6
  forbidden_of v4 address = in_any blocked_v4 address
  forbidden_of no_address address = true
  forbidden_of v6 address =
      forbidden_v6 (net.lower_case address) (embedded_ipv4 (net.lower_case address))

  -- `isForbiddenAddress`.
  unfoldable pub is_forbidden_address : String → Bool
  unfolding forbidden_of
  is_forbidden_address address = forbidden_of (net.is_ip address) address

  unfoldable pub host_of : Url → String
  unfolding drop_first drop_last
  host_of url = drop_last b'.' (net.lower_case (drop_last b']' (drop_first b'[' url.hostname)))

  unfoldable pub check_url : WebhookDestinationPolicy S → Url → Result (Unit {0})
  unfolding ends_with host_of
  check_url policy url =
      if not (url.protocol == "https:" || url.protocol == "http:")
      then err (forbidden "Webhook destination must use http or https")
      else if not (url.username == "" && url.password == "")
      then err (forbidden "Webhook destination must not embed credentials")
      else if host_of url == ""
      then err (forbidden "Webhook destination host is required")
      else if not policy.allow_private_networks
          && (includes blocked_hostnames (host_of url)
              || ends_with ".localhost" (host_of url)
              || ends_with ".internal" (host_of url))
      then err (forbidden "Webhook destination host is not permitted")
      else ok tt

  abbrev lookup_of :
      Option (String → Exec S (List ResolvedAddress)) → String → Exec S (List ResolvedAddress)
  lookup_of none hostname = net.dns_lookup hostname
  lookup_of (some lookup) hostname = lookup hostname

  unfoldable pub resolve :
      WebhookDestinationPolicy S → IpFamily → String → Exec S (List ResolvedAddress)
  resolve policy v4 hostname = pure (record { address = hostname; family = v4 } ∷ [])
  resolve policy v6 hostname = pure (record { address = hostname; family = v6 } ∷ [])
  resolve policy no_address hostname =
      catch (lookup_of policy.lookup hostname)
        (λ _. throw (forbidden "Webhook destination did not resolve"))

  unfoldable pub choose_address :
      WebhookDestinationPolicy S → Url → List ResolvedAddress → Result ValidatedDestination
  choose_address policy url [] = err (forbidden "Webhook destination did not resolve")
  choose_address policy url (first ∷ others) =
      if not policy.allow_private_networks
        && any (λ entry. is_forbidden_address entry.address) (first ∷ others)
      then err (
          forbidden
            "Webhook destination resolves to a private, loopback, link-local, or metadata address")
      else ok (record { url = url; address = first })

  validate_url : WebhookDestinationPolicy S → Option Url → Exec S ValidatedDestination
  unfolding check_url resolve choose_address
  validate_url policy none = throw (forbidden "Webhook destination is not a valid URL")
  validate_url policy (some url) = do
    lift (check_url policy url)
    addresses ← resolve policy (net.is_ip (host_of url)) (host_of url)
    lift (choose_address policy url addresses)

  unfoldable pub validate_destination :
      WebhookDestinationPolicy S → String → Exec S ValidatedDestination
  unfolding validate_url
  validate_destination policy raw = validate_url policy (net.parse_url raw)
