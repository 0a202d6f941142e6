-- ===== src/Authority/Destination/Checks.antt =====
-- Destinations in a small network: tests, and instances of the theorems.
use appport_services.Common.{
  ◌≡◌, refl, ℕ, true, false, ◌&&◌, ◌==◌, none, some, [], ◌∷◌, if◌then◌else◌,
}
use appport_services.Authority.Destination.{
  Network, Url, WebhookDestinationPolicy, ValidatedDestination, v4, v6, no_address,
  validate_destination, is_forbidden_address, embedded_ipv4, check_url, host_of, ends_with, resolve,
  choose_address, is_dotted,
}
use appport_services.Authority.Destination.Public.{
  IsPublic, validate_destination-IsPublic, mapped_address_is_as_forbidden,
}
use appport_services.Exec.{ok, pure}

abbrev hook_url : Url
hook_url = record {
  href = "https://hooks.example.com/in";
  protocol = "https:";
  username = "";
  password = "";
  hostname = "hooks.example.com";
  origin = "https://hooks.example.com";
  port = "";
  pathname = "/in";
  search = "";
}

-- One name, one public address, and the loopback address in two forms.
abbrev pub small_network : {S : Type 0} → Network S
small_network = record {
  parse_url = λ s. if s == "https://hooks.example.com/in" then some hook_url else none;
  is_ip = λ s.
      if s == "93.184.216.34"
      then v4
      else if s == "127.0.0.1"
      then v4
      else if s == "::ffff:127.0.0.1"
      then v6
      else if s == "::7f00:1"
      then v6
      else no_address;
  in_subnet = λ network prefix address. network == "127.0.0.0" && address == "127.0.0.1";
  lower_case = λ s. s;
  dns_lookup = λ hostname. pure (record { address = "93.184.216.34"; family = v4 } ∷ []);
}

abbrev pub public_only : {S : Type 0} → WebhookDestinationPolicy S
public_only = record { allow_private_networks = false; lookup = none }

abbrev pub hook : ValidatedDestination
hook = record { url = hook_url; address = record { address = "93.184.216.34"; family = v4 } }

validated :
    (validate_destination {S = ℕ} small_network public_only "https://hooks.example.com/in" 0).0
    ≡ ok hook
unfolding validate_destination check_url host_of ends_with resolve choose_address
    is_forbidden_address
validated = refl

validate_destination-IsPublic_example :
    IsPublic {S = ℕ} small_network public_only "https://hooks.example.com/in" 0 hook
validate_destination-IsPublic_example =
    validate_destination-IsPublic {S = ℕ} small_network public_only "https://hooks.example.com/in" 0
      hook refl validated

dotted_loopback : is_dotted "127.0.0.1" ≡ true
unfolding is_dotted
dotted_loopback = refl

mapped_address_is_as_forbidden_example :
    is_forbidden_address {S = ℕ} small_network "::ffff:127.0.0.1"
    ≡ is_forbidden_address {S = ℕ} small_network "127.0.0.1"
mapped_address_is_as_forbidden_example =
    mapped_address_is_as_forbidden {S = ℕ} small_network "127.0.0.1" "::ffff:127.0.0.1" refl refl
      dotted_loopback refl

loopback_is_forbidden : is_forbidden_address {S = ℕ} small_network "127.0.0.1" ≡ true
unfolding is_forbidden_address
loopback_is_forbidden = refl

-- An IPv4-compatible address is recognised in dotted form only; `new URL` gives it in this one.
compatible_loopback : is_forbidden_address {S = ℕ} small_network "::7f00:1" ≡ false
unfolding is_forbidden_address embedded_ipv4
compatible_loopback = refl
