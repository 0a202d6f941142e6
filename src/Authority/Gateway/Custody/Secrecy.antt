-- ===== src/Authority/Gateway/Custody/Secrecy.antt =====
-- What custody reveals, and to whom.
use appport_services.Common.{
  ◌≡◌, refl, ap, String, Option, none, some, Bool-cases, inl, inr, if◌then◌else◌, arith,
}
use appport_services.Authority.Errors.{ServiceFailureCode, custody_read_only}
use appport_services.Authority.Context.{ServiceExecutionContext}
use appport_services.Authority.Custody.{
  CustodyFailure, authority_failure, secret_failure, other_failure, CustodyResult, given, refused,
  CustodyAction, Vault, Credentials,
}
use appport_services.Authority.Gateway.{ServiceGateway}
use appport_services.Authority.Gateway.Custody.{
  CustodyOptions, safe_code, safe_reason, rebuild, map_write_failure, ask, custody_context,
  vault_or, store_in, store_credential, status_in, credential_status, vault_of, told,
}
use mathlib.Core.Path.{fun_ext}
use appport_services.Exec.{Exec, err, lift, bind-cong, ◌>>=◌}

-- What is left of a failure of the host when its words are taken out: only what looks like a code.
muted_code : String → CustodyFailure
muted_code word = if safe_code word then secret_failure word else other_failure ""

muted : CustodyFailure → CustodyFailure
unfolding muted_code
muted (authority_failure failure message details) =
    authority_failure failure ""
      (record { capability = none; decision_id = none; reason = safe_reason details.reason })
muted (secret_failure word) = muted_code word
muted (other_failure words) = other_failure ""

muted_result : {A : Type 0} → CustodyResult A → CustodyResult A
muted_result (given a) = given a
muted_result (refused failure) = refused (muted failure)

mute : {S A : Type 0} → CustodyAction S A → CustodyAction S A
mute action s = (muted_result (action s).0, (action s).1)

module _ {S : Type 0} where
  muted_vault : Vault S → Vault S
  muted_vault vault = record {
    store = λ reference value access. mute (vault.store reference value access);
    status = λ reference access. mute (vault.status reference access);
  }

  mute_vault : Option (Vault S) → Option (Vault S)
  mute_vault none = none
  mute_vault (some vault) = some (muted_vault vault)

  mute_credentials : Option (Credentials S) → Option (Credentials S)
  mute_credentials none = none
  mute_credentials (some credentials) =
      some (record credentials { vault = mute_vault credentials.vault })

  -- The gateway of a host whose vault says nothing but codes.
  pub discreet : ServiceGateway S → ServiceGateway S
  discreet g = record g { credentials = mute_credentials g.credentials }

safe_reason_twice : (o : Option String) → safe_reason (safe_reason o) ≡ safe_reason o
safe_reason_twice none = refl
safe_reason_twice (some word) = ground arith

rebuild-muted :
    (capability : String) (failure : ServiceFailureCode) (o : Option String)
    → rebuild capability failure (safe_reason o) ≡ rebuild capability failure o
unfolding rebuild
rebuild-muted capability custody_read_only o = refl
rebuild-muted capability _ o = rw (safe_reason_twice o) refl

map_write_failure-muted :
    (capability : String) (failure : CustodyFailure)
    → map_write_failure capability (muted failure) ≡ map_write_failure capability failure
unfolding map_write_failure muted muted_code
map_write_failure-muted capability (authority_failure failure message details) =
    rebuild-muted capability failure details.reason
map_write_failure-muted capability (secret_failure word) = elim (Bool-cases (safe_code word)) [
  | inl h ↦ rw h (rw h refl)
  | inr h ↦ rw h refl
]
map_write_failure-muted capability (other_failure words) = refl

told-muted :
    {S A : Type 0} (capability : String) (r : CustodyResult A) (s : S)
    → told (map_write_failure capability) (muted_result r) s
      ≡ told (map_write_failure capability) r s
unfolding told muted_result
told-muted capability (given a) s = refl
told-muted capability (refused failure) s =
    ap (λ e. (err e, s)) (map_write_failure-muted capability failure)

ask-muted :
    {S A : Type 0} (capability : String) (action : CustodyAction S A)
    → ask (map_write_failure capability) (mute action) ≡ ask (map_write_failure capability) action
unfolding ask mute
ask-muted capability action = fun_ext (λ s. told-muted capability (action s).0 (action s).1)

module _ {S : Type 0} (context : ServiceExecutionContext) (ref value : String)
    (options : CustodyOptions) where
  store_in-muted :
      (vault : Vault S)
      → store_in (muted_vault vault) context ref value options
        ≡ store_in vault context ref value options
  unfolding store_in muted_vault
  store_in-muted vault = simp (ask-muted)

  status_in-muted :
      (vault : Vault S)
      → status_in (muted_vault vault) context ref options ≡ status_in vault context ref options
  unfolding status_in muted_vault
  status_in-muted vault = simp (ask-muted)

module _ {S A : Type 0} where
  vault_or-muted :
      (capability : String) (v : Option (Vault S)) (f : Vault S → Exec S A)
      → ((vault : Vault S) → f (muted_vault vault) ≡ f vault)
      → (lift (vault_or capability (mute_vault v)) >>= f) ≡ (lift (vault_or capability v) >>= f)
  unfolding vault_or mute_vault
  vault_or-muted capability none f same = refl
  vault_or-muted capability (some vault) f same = same vault

  vault_of-muted :
      (capability : String) (c : Option (Credentials S)) (f : Vault S → Exec S A)
      → ((vault : Vault S) → f (muted_vault vault) ≡ f vault)
      → (lift (vault_of capability (mute_credentials c)) >>= f)
        ≡ (lift (vault_of capability c) >>= f)
  unfolding vault_of mute_credentials
  vault_of-muted capability none f same = refl
  vault_of-muted capability (some credentials) f same =
      vault_or-muted capability credentials.vault f same

module _ {S : Type 0} (g : ServiceGateway S) (input : ServiceExecutionContext) (ref : String)
    (options : CustodyOptions) where
  -- The words of a failure of the host's vault never reach a caller: storing a credential and asking
  -- for its status have the same outcome, errors included, and leave the same state, when every
  -- failure that the vault throws is stripped to its code, its message taken out and a reason or
  -- SecretError code kept only if it looks like a code. What the vault returns is not concerned: the
  -- location that a status names is told.
  pub custody_is_discreet :
      (value : String)
      → (store_credential (discreet g) input ref value options
          ≡ store_credential g input ref value options)
        × (credential_status (discreet g) input ref options ≡ credential_status g input ref options)
  unfolding store_credential credential_status custody_context discreet
  custody_is_discreet value = (
    fun_ext λ s.
        bind-cong (custody_context g input ref)
          (λ context.
            lift (vault_of context.capability (mute_credentials g.credentials)) >>= λ vault.
            store_in vault context ref value options)
          (λ context. lift (vault_of context.capability g.credentials) >>= λ vault.
            store_in vault context ref value options)
          s
          λ context t.
            ap (λ m. m t)
              (vault_of-muted context.capability g.credentials
                (λ vault. store_in vault context ref value options)
                (store_in-muted context ref value options)),
    fun_ext λ s.
        bind-cong (custody_context g input ref)
          (λ context.
            lift (vault_of context.capability (mute_credentials g.credentials)) >>= λ vault.
            status_in vault context ref (record options { kind = none }))
          (λ context. lift (vault_of context.capability g.credentials) >>= λ vault.
            status_in vault context ref (record options { kind = none }))
          s
          λ context t.
            ap (λ m. m t)
              (vault_of-muted context.capability g.credentials
                (λ vault. status_in vault context ref (record options { kind = none }))
                (status_in-muted context ref value (record options { kind = none }))),
  )
