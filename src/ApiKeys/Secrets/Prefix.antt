-- ===== src/ApiKeys/Secrets/Prefix.antt =====
-- api-keys/service.ts: the prefix that is read back of a secret as it is issued.
use Prim.Native.Char.{code}
use Prim.Native.String
use Prim.Native.String.{String}
use text.Mathlib.TextLemmas.{nil-append, cons-append, append_assoc}
use appport_services.Common.{ℕ, zero, suc, ◌≡◌, refl, ◌==◌, true, false, some, strip_prefix-append}
use appport_services.ApiKeys.Secrets.{no_line_end, is_hex, hex_digits, parse_api_key_prefix}

-- The text of `n` hexadecimal digits.
unfoldable pub IsHexText : ℕ → String → Type 0
IsHexText zero String.[] = Unit
IsHexText zero (String.◌∷◌ c s) = ⊥
IsHexText (suc n) String.[] = ⊥
IsHexText (suc n) (String.◌∷◌ c s) = (is_hex (code c) ≡ true) × IsHexText n s

-- A text on one line, with a character at least.
pub record IsLine (s : String) : Type 0 where
  pub has_text : (s == "") ≡ false
  pub one_line : no_line_end s ≡ true

hex_digits-append :
    (n : ℕ) (h r : String)
    → IsHexText n h
    → IsLine r
    → hex_digits n (String.◌++◌ h (String.◌++◌ "_" r)) ≡ some h
unfolding hex_digits IsHexText
hex_digits-append zero String.[] r h line =
    rw (nil-append, cons-append, nil-append, line.has_text, line.one_line) refl
hex_digits-append zero (String.◌∷◌ c s) r h line = absurd h
hex_digits-append (suc n) String.[] r h line = absurd h
hex_digits-append (suc n) (String.◌∷◌ c s) r h line =
    rw (cons-append, hex_digits) (rw (hex_digits-append n s r h.1 line, h.0) refl)

-- The prefix of a secret that is made of six digits and a line is read back.
pub parse_api_key_prefix-append :
    (h r : String)
    → IsHexText 6 h
    → IsLine r
    → parse_api_key_prefix (String.◌++◌ (String.◌++◌ "app_live_" h) (String.◌++◌ "_" r))
      ≡ some (String.◌++◌ "app_live_" h)
unfolding parse_api_key_prefix
parse_api_key_prefix-append h r six line =
    rw
      (
        append_assoc "app_live_" h (String.◌++◌ "_" r),
        parse_api_key_prefix,
        strip_prefix-append "app_live_" (String.◌++◌ h (String.◌++◌ "_" r)),
        hex_digits-append 6 h r six line,
      )
      refl
