-- ===== src/ApiKeys/Secrets.antt =====
-- api-keys/service.ts: the text of a secret, its verifier, and the verification. The primitives of
-- node:crypto and the encodings are parameters.
pub mod Prefix
pub mod Verification
use Prim.Native.Char.{Char, code}
use Prim.Native.String
use appport_services.Common.{
  ℕ, ◌+◌, ◌≡◌, String, Bool, true, false, not, ◌&&◌, ◌||◌, ◌==◌, Option, none, some, List, [], ◌∷◌,
  length, leb, eqb, strip_prefix, if◌then◌else◌, zero, suc,
}

abbrev pub Bytes : Type 0
Bytes = List ℕ

pub record Crypto : Type 0 where
  pub utf8 : String → Bytes
  pub hmac_sha256 : Bytes → Bytes → Bytes
  pub scrypt : Bytes → Bytes → ℕ → Bytes
  pub base64url : Bytes → String
  pub from_base64url : String → Bytes

-- `text.split('$')`: the parts between the dollar signs, of which there is at least one.
pub record Parts : Type 0 where
  pub head : String
  pub tail : List String

abbrev split_at : Bool → Char → Parts → Parts
split_at true c parts = record { head = ""; tail = parts.head ∷ parts.tail }
split_at false c parts = record { head = String.◌∷◌ c parts.head; tail = parts.tail }

unfoldable pub split_dollar : String → Parts
split_dollar String.[] = record { head = ""; tail = [] }
split_dollar (String.◌∷◌ c s) = split_at (eqb (code c) b'$') c (split_dollar s)

pub data SecretCheck : Type 0 where
  accepted rejected unavailable : SecretCheck

-- `timingSafeEqual` on bytes of one length.
unfoldable pub same_bytes : Bytes → Bytes → Bool
same_bytes [] [] = true
same_bytes (a ∷ xs) (b ∷ ys) = eqb a b && same_bytes xs ys
same_bytes _ _ = false

module _ (c : Crypto) where
  unfoldable pub verifier_input : String → Bytes → Bytes
  verifier_input secret verifier_key = c.hmac_sha256 verifier_key (c.utf8 secret)

  abbrev encoded : String → Bytes → Bytes → String
  encoded algorithm salt digest =
      String.◌++◌ algorithm
        (String.◌++◌ "$" (String.◌++◌ (c.base64url salt) (String.◌++◌ "$" (c.base64url digest))))

  -- `hashSecret`, with the salt that was drawn.
  unfoldable pub hash_secret : String → Option Bytes → Bytes → String
  unfolding verifier_input
  hash_secret secret none salt = encoded "scrypt" salt (c.scrypt (c.utf8 secret) salt 32)
  hash_secret secret (some key) salt =
      encoded "hmac-scrypt" salt (c.scrypt (verifier_input secret key) salt 32)

  unfoldable pub check_digest : Bytes → String → String → SecretCheck
  unfolding same_bytes
  check_digest input salt digest =
      let expected = c.from_base64url digest in
      if same_bytes (c.scrypt input (c.from_base64url salt) (length expected)) expected
      then accepted
      else rejected

  unfoldable pub check_by : String → Option Bytes → String → String → String → SecretCheck
  unfolding check_digest verifier_input
  check_by secret key algorithm salt digest =
      if not (algorithm == "scrypt") && not (algorithm == "hmac-scrypt")
      then rejected
      else if (salt == "") || (digest == "")
      then rejected
      else if algorithm == "scrypt"
      then check_digest (c.utf8 secret) salt digest
      else keyed key
    where
      keyed : Option Bytes → SecretCheck
      keyed none = unavailable
      keyed (some k) = check_digest (verifier_input secret k) salt digest

  -- Parts behind the third are ignored; a part that is missing is undefined.
  unfoldable pub verify_parts : String → Option Bytes → Parts → SecretCheck
  unfolding check_by
  verify_parts secret key parts = elim parts.tail [
    | [] ↦ rejected
    | salt ∷ rest ↦ elim rest [
      | [] ↦ rejected
      | digest ∷ _ ↦ check_by secret key parts.head salt digest
    ]
  ]

  unfoldable pub verify_secret : String → String → Option Bytes → SecretCheck
  unfolding verify_parts split_dollar
  verify_secret secret encoded_hash key = verify_parts secret key (split_dollar encoded_hash)

-- The characters of the rest of a secret: no line end.
unfoldable pub no_line_end : String → Bool
no_line_end String.[] = true
no_line_end (String.◌∷◌ c s) =
    not (eqb (code c) 10 || eqb (code c) 13 || eqb (code c) 8232 || eqb (code c) 8233)
    && no_line_end s

unfoldable pub is_hex : ℕ → Bool
is_hex c = (leb b'0' c && leb c b'9') || (leb b'a' c && leb c b'f')

-- `n` hexadecimal digits, then an underscore and a rest: the digits.
unfoldable pub hex_digits : ℕ → String → Option String
unfolding no_line_end is_hex
hex_digits n String.[] = none
hex_digits zero (String.◌∷◌ c s) =
    if eqb (code c) b'_' && not (s == "") && no_line_end s then some "" else none
hex_digits (suc n) (String.◌∷◌ c s) = elim (hex_digits n s) [
  | none ↦ none
  | some digits ↦ if is_hex (code c) then some (String.◌∷◌ c digits) else none
]

-- `parseApiKeyPrefix`: /^(app_live_[0-9a-f]{6})_(.+)$/.
unfoldable pub parse_api_key_prefix : String → Option String
unfolding hex_digits strip_prefix
parse_api_key_prefix secret = elim (strip_prefix "app_live_" secret) [
  | none ↦ none
  | some rest ↦ elim (hex_digits 6 rest) [
    | none ↦ none
    | some digits ↦ some (String.◌++◌ "app_live_" digits)
  ]
]
