-- ===== src/Exec.antt =====
-- Asynchronous methods as actions on the state of the world: each `await` is a bind, a throw is an
-- error, and what was written before a throw stays written.
use appport_services.Common.{◌≡◌, refl, ap, ◌⊎◌, inl, inr, Bool, true, false, String}
use appport_services.Authority.Errors.{Error, authority_error, invalid_request, no_details}

pub data Result {ℓ} (A : Type ℓ) : Type ℓ where
  ok : A → Result A
  err : Error → Result A

abbrev pub Exec {ℓ} : Type ℓ → Type ℓ → Type ℓ
Exec S A = S → Result A × S

module _ {ℓ} {S A : Type ℓ} where
  abbrev pub pure : A → Exec S A
  pure a s = (ok a, s)

  abbrev pub throw : Error → Exec S A
  throw e s = (err e, s)

  -- A synchronous call that may throw.
  abbrev pub lift : Result A → Exec S A
  lift r s = (r, s)

  abbrev pub handle : Result A → (Error → Exec S A) → Exec S A
  handle (ok a) f s = (ok a, s)
  handle (err e) f s = f e s

  -- `try { m } catch (e) { f(e) }`.
  abbrev pub catch : Exec S A → (Error → Exec S A) → Exec S A
  catch m f s = handle (m s).0 f (m s).1

module _ {ℓ} {S A B : Type ℓ} where
  abbrev pub continue : Result A → (A → Exec S B) → Exec S B
  continue (ok a) f s = f a s
  continue (err e) f s = (err e, s)

  -- `try { a = m } catch (e) { return f(e) }; return k(a)`: errors of `k` are not caught.
  abbrev pub settle : Result A → (A → Exec S B) → (Error → Exec S B) → Exec S B
  settle (ok a) k f s = k a s
  settle (err e) k f s = f e s

  abbrev pub attempt : Exec S A → (A → Exec S B) → (Error → Exec S B) → Exec S B
  attempt m k f s = settle (m s).0 k f (m s).1

  infixl 5 ◌>>=◌ ◌>>◌
  abbrev pub ◌>>=◌ : Exec S A → (A → Exec S B) → Exec S B
  ◌>>=◌ m f s = continue (m s).0 f (m s).1

  abbrev pub ◌>>◌ : Exec S A → Exec S B → Exec S B
  m >> n = m >>= λ _. n

-- `if (!b) throw e`.
abbrev pub require : Bool → Error → Result (Unit {0})
require true e = ok tt
require false e = err e

abbrev pub invalid : String → Error
invalid message = authority_error invalid_request message no_details

continue-eq-ok {ℓ} :
    {S A B : Type ℓ} (r : Result A) (f : A → Exec S B) (s : S) {b : B}
    → (continue r f s).0 ≡ ok b
    → (a : A) × (r ≡ ok a) × ((f a s).0 ≡ ok b)
continue-eq-ok (ok a) f s h = (a, refl, h)
continue-eq-ok (err e) f s h = cc

-- What follows an action that returned.
pub bind-ok {ℓ} :
    {S A B : Type ℓ} (m : Exec S A) (f : A → Exec S B) (s : S) {a : A}
    → (m s).0 ≡ ok a
    → (m >>= f) s ≡ f a (m s).1
bind-ok m f s e = ap (λ r. continue r f (m s).1) e

-- Inversion of a run that returned.
pub >>=-eq-ok {ℓ} :
    {S A B : Type ℓ} (m : Exec S A) (f : A → Exec S B) (s : S) {b : B}
    → ((m >>= f) s).0 ≡ ok b
    → (a : A) × ((m s).0 ≡ ok a) × ((f a (m s).1).0 ≡ ok b)
>>=-eq-ok m f s h = continue-eq-ok (m s).0 f (m s).1 h

continue-cong {ℓ} :
    {S A B : Type ℓ} (r : Result A) (f f' : A → Exec S B) (s : S)
    → ((a : A) (t : S) → f a t ≡ f' a t)
    → continue r f s ≡ continue r f' s
continue-cong (ok a) f f' s h = h a s
continue-cong (err e) f f' s h = refl

-- Two binds of one action agree where their continuations do.
pub bind-cong {ℓ} :
    {S A B : Type ℓ} (m : Exec S A) (f f' : A → Exec S B) (s : S)
    → ((a : A) (t : S) → f a t ≡ f' a t)
    → (m >>= f) s ≡ (m >>= f') s
bind-cong m f f' s h = continue-cong (m s).0 f f' (m s).1 h

settle-cong {ℓ} :
    {S A B : Type ℓ} (r : Result A) (k k' : A → Exec S B) (f : Error → Exec S B) (s : S)
    → ((a : A) → r ≡ ok a → k a s ≡ k' a s)
    → settle r k f s ≡ settle r k' f s
settle-cong (ok a) k k' f s h = h a refl
settle-cong (err e) k k' f s h = refl

pub attempt-cong {ℓ} :
    {S A B : Type ℓ} (m : Exec S A) (k k' : A → Exec S B) (f : Error → Exec S B) (s : S)
    → ((a : A) → (m s).0 ≡ ok a → k a (m s).1 ≡ k' a (m s).1)
    → attempt m k f s ≡ attempt m k' f s
attempt-cong m k k' f s h = settle-cong (m s).0 k k' f (m s).1 h

handle-eq-ok {ℓ} :
    {S A : Type ℓ} (r : Result A) (f : Error → Exec S A) (s : S) {a : A}
    → (handle r f s).0 ≡ ok a
    → (r ≡ ok a) ⊎ ((e : Error) × ((f e s).0 ≡ ok a))
handle-eq-ok (ok b) f s h = inl h
handle-eq-ok (err e) f s h = inr (e, h)

-- A guarded run that returned: it returned by itself, or its handler did.
pub catch-eq-ok {ℓ} :
    {S A : Type ℓ} (m : Exec S A) (f : Error → Exec S A) (s : S) {a : A}
    → (catch m f s).0 ≡ ok a
    → ((m s).0 ≡ ok a) ⊎ ((e : Error) × ((f e (m s).1).0 ≡ ok a))
catch-eq-ok m f s h = handle-eq-ok (m s).0 f (m s).1 h

pub Result-cases {ℓ} :
    {A : Type ℓ} (r : Result A) → ((a : A) × (r ≡ ok a)) ⊎ ((e : Error) × (r ≡ err e))
Result-cases (ok a) = inl (a, refl)
Result-cases (err e) = inr (e, refl)

settle-eq-ok {ℓ} :
    {S A B : Type ℓ} (r : Result A) (k : A → Exec S B) (f : Error → Exec S B) (s : S) {b : B}
    → (settle r k f s).0 ≡ ok b
    → ((a : A) × (r ≡ ok a) × ((k a s).0 ≡ ok b)) ⊎ ((e : Error) × ((f e s).0 ≡ ok b))
settle-eq-ok (ok a) k f s h = inl (a, refl, h)
settle-eq-ok (err e) k f s h = inr (e, h)

pub attempt-eq-ok {ℓ} :
    {S A B : Type ℓ} (m : Exec S A) (k : A → Exec S B) (f : Error → Exec S B) (s : S) {b : B}
    → (attempt m k f s).0 ≡ ok b
    → ((a : A) × ((m s).0 ≡ ok a) × ((k a (m s).1).0 ≡ ok b))
      ⊎ ((e : Error) × ((f e (m s).1).0 ≡ ok b))
attempt-eq-ok m k f s h = settle-eq-ok (m s).0 k f (m s).1 h

continue-pure {ℓ} :
    {S A B : Type ℓ} (r : Result A) (f : A → B) (s : S) → (continue r (λ a. pure (f a)) s).1 ≡ s
continue-pure (ok a) f s = refl
continue-pure (err e) f s = refl

-- Mapping a result changes no state.
pub bind-pure {ℓ} :
    {S A B : Type ℓ} (m : Exec S A) (f : A → B) (s : S) → ((m >>= λ a. pure (f a)) s).1 ≡ (m s).1
bind-pure m f s = continue-pure (m s).0 f (m s).1

pub lift-cong {ℓ} :
    {S A B : Type ℓ} (r : Result A) (f f' : A → Exec S B) (s : S)
    → ((a : A) → r ≡ ok a → f a s ≡ f' a s)
    → (lift r >>= f) s ≡ (lift r >>= f') s
lift-cong (ok a) f f' s h = h a refl
lift-cong (err e) f f' s h = refl

handle-ok-state {ℓ} :
    {S A : Type ℓ} (r : Result A) (f : Error → Exec S A) (s : S) {a : A}
    → r ≡ ok a
    → (handle r f s).1 ≡ s
handle-ok-state (ok b) f s h = refl
handle-ok-state (err e) f s h = absurd cc

-- A guarded run that did not throw leaves the state that it leaves by itself.
pub catch-ok-state {ℓ} :
    {S A : Type ℓ} (m : Exec S A) (f : Error → Exec S A) (s : S) {a : A}
    → (m s).0 ≡ ok a
    → (catch m f s).1 ≡ (m s).1
catch-ok-state m f s h = handle-ok-state (m s).0 f (m s).1 h
