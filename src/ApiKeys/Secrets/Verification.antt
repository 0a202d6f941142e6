-- ===== src/ApiKeys/Secrets/Verification.antt =====
-- A verifier accepts the secret that it was made from.
use Prim.Native.Char.{code}
use Prim.Native.String
use Prim.Native.String.{String}
use text.Mathlib.TextLemmas.{nil-append, cons-append}
use appport_services.Common.{
  ℕ, ◌≡◌, refl, ◌≢◌, true, false, ◌==◌, eq_iff, Option, none, some, [], ◌∷◌, arith, length, ap, eqb,
}
use appport_services.ApiKeys.Secrets.{
  Bytes, Crypto, split_dollar, accepted, unavailable, same_bytes, verifier_input, hash_secret,
  check_digest, check_by, verify_parts, verify_secret,
}

abbrev pub HasNoDollar : String → Type 0
HasNoDollar String.[] = Unit
HasNoDollar (String.◌∷◌ c s) = (eqb (code c) b'$' ≡ false) × HasNoDollar s

split_dollar-plain : (s : String) → HasNoDollar s → split_dollar s ≡ record { head = s; tail = [] }
unfolding split_dollar
split_dollar-plain String.[] h = refl
split_dollar-plain (String.◌∷◌ c s) h = rw (h.0, split_dollar-plain s h.1) refl

split_dollar-append :
    (s t : String)
    → HasNoDollar s
    → split_dollar (String.◌++◌ s (String.◌++◌ "$" t))
      ≡ record { head = s; tail = (split_dollar t).head ∷ (split_dollar t).tail }
unfolding split_dollar
split_dollar-append String.[] t h = rw (nil-append, cons-append, nil-append) refl
split_dollar-append (String.◌∷◌ c s) t h = rw (cons-append, h.0, split_dollar-append s t h.1) refl

-- What the service relies on of the primitives: base64url texts decode to what was encoded, hold
-- no dollar sign and are empty for no bytes only; scrypt gives as many bytes as it is asked for.
pub record CryptoLaws (c : Crypto) : Type 0 where
  pub decode : (b : Bytes) → c.from_base64url (c.base64url b) ≡ b
  pub no_dollar : (b : Bytes) → HasNoDollar (c.base64url b)
  pub not_empty : (b : Bytes) → b ≢ [] → c.base64url b ≢ ""
  pub derived_length : (input salt : Bytes) (n : ℕ) → length (c.scrypt input salt n) ≡ n

same_bytes_refl : (b : Bytes) → same_bytes b b ≡ true
unfolding same_bytes
same_bytes_refl [] = refl
same_bytes_refl (x ∷ b) = ground (arith, same_bytes_refl b)

nonempty : (b : Bytes) (n : ℕ) → length b ≡ 32 → b ≢ []
nonempty b n h e = absurd (omega (arith, ap length e))

false_of_ne : (s t : String) → s ≢ t → (s == t) ≡ false
false_of_ne s t h = ground (arith, eq_iff s t)

plain_name : HasNoDollar "scrypt"
plain_name = (refl, (refl, (refl, (refl, (refl, (refl, tt))))))

keyed_name : HasNoDollar "hmac-scrypt"
keyed_name =
    (refl, (refl, (refl, (refl, (refl, (refl, (refl, (refl, (refl, (refl, (refl, tt)))))))))))

module _ (c : Crypto) (laws : CryptoLaws c) where
  split_three :
      (algorithm : String) (salt digest : Bytes)
      → HasNoDollar algorithm
      → split_dollar (
          String.◌++◌ algorithm (
            String.◌++◌ "$"
              (String.◌++◌ (c.base64url salt) (String.◌++◌ "$" (c.base64url digest)))))
        ≡ record { head = algorithm; tail = c.base64url salt ∷ c.base64url digest ∷ [] }
  split_three algorithm salt digest h =
      rw
        (
          split_dollar-append algorithm _ h,
          split_dollar-append (c.base64url salt) _ (laws.no_dollar salt),
          split_dollar-plain (c.base64url digest) (laws.no_dollar digest),
        )
        refl

  check_digest-accepts :
      (input salt : Bytes)
      → check_digest c input (c.base64url salt) (c.base64url (c.scrypt input salt 32)) ≡ accepted
  unfolding check_digest
  check_digest-accepts input salt =
      rw
        (
          laws.decode (c.scrypt input salt 32),
          laws.decode salt,
          laws.derived_length input salt 32,
          same_bytes_refl (c.scrypt input salt 32),
        )
        refl

  module _ (secret : String) (salt : Bytes) (salted : salt ≢ []) where
    no_salt_gap : (c.base64url salt == "") ≡ false
    no_salt_gap = false_of_ne _ _ (laws.not_empty salt salted)

    no_digest_gap : (input : Bytes) → (c.base64url (c.scrypt input salt 32) == "") ≡ false
    no_digest_gap input = false_of_ne _ _ (
        laws.not_empty (c.scrypt input salt 32)
          (λ e. absurd (omega (arith, laws.derived_length input salt 32, ap length e))))

    plain_accepts :
        (key : Option Bytes)
        → verify_secret c secret (hash_secret c secret none salt) key ≡ accepted
    unfolding verify_secret hash_secret
    plain_accepts key =
        rw (split_three "scrypt" salt (c.scrypt (c.utf8 secret) salt 32) plain_name) (
          unfold verify_parts check_by in
          rw (no_salt_gap, no_digest_gap (c.utf8 secret))
            (check_digest-accepts (c.utf8 secret) salt))

    keyed_accepts :
        (key : Bytes)
        → verify_secret c secret (hash_secret c secret (some key) salt) (some key) ≡ accepted
    unfolding verify_secret hash_secret
    keyed_accepts key =
        let input = verifier_input c secret key in
        rw (split_three "hmac-scrypt" salt (c.scrypt input salt 32) keyed_name) (
          unfold verify_parts check_by in
          rw (no_salt_gap, no_digest_gap input) (check_digest-accepts input salt))

    keyed_unavailable :
        (key : Bytes)
        → verify_secret c secret (hash_secret c secret (some key) salt) none ≡ unavailable
    unfolding verify_secret hash_secret
    keyed_unavailable key =
        let input = verifier_input c secret key in
        rw (split_three "hmac-scrypt" salt (c.scrypt input salt 32) keyed_name)
          (unfold verify_parts check_by in rw (no_salt_gap, no_digest_gap input) refl)

    -- The verifier of a new key accepts its secret, in a service with the verifier key that the
    -- key was made with; a plain verifier accepts it in a service with any verifier key or none;
    -- and a keyed verifier is unavailable, not rejected, in a service with no verifier key.
    pub verify-hash :
        (key : Bytes)
        → (verify_secret c secret (hash_secret c secret (some key) salt) (some key) ≡ accepted)
          × ((other : Option Bytes)
              → verify_secret c secret (hash_secret c secret none salt) other ≡ accepted)
          × (verify_secret c secret (hash_secret c secret (some key) salt) none ≡ unavailable)
    verify-hash key = (keyed_accepts key, plain_accepts, keyed_unavailable key)
