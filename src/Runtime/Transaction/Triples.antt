-- ===== src/Runtime/Transaction/Triples.antt =====
-- Triples of a condition, an action on a transaction and a condition on what it returns: an action
-- that throws leaves the invariant `E`.
use appport_services.Common.{◌≡◌, refl}
use appport_services.Authority.Errors.{Error}
use appport_services.Runtime.Transaction.{Transaction, outside}
use appport_services.Exec.{Exec, Result, ok, err, pure, lift, catch, continue, handle, ◌>>=◌}

module _ (E : Transaction → Type 0) where
  unfoldable pub Outcome :
      {A : Type 0} → (A → Transaction → Type 0) → Result A → Transaction → Type 0
  Outcome post (ok a) t = post a t
  Outcome post (err e) t = E t

module _ (S : Type 0) (E : Transaction → Type 0) where
  unfoldable pub Triple :
      {A : Type 0}
      → (Transaction → Type 0)
      → Exec (S × Transaction) A
      → (A → Transaction → Type 0)
      → Type 0
  unfolding Outcome
  Triple pre m post = (w : S × Transaction) → pre w.1 → Outcome E post (m w).0 (m w).1.1

  module _ {A : Type 0} where
    pub triple-pure : (post : A → Transaction → Type 0) (a : A) → Triple (post a) (pure a) post
    unfolding Triple
    triple-pure post a w h = h

    module _ (pre : Transaction → Type 0) (post : A → Transaction → Type 0) where
      pub triple-weaken :
          (pre' : Transaction → Type 0) (m : Exec (S × Transaction) A)
          → ((t : Transaction) → pre t → pre' t)
          → Triple pre' m post
          → Triple pre m post
      unfolding Triple
      triple-weaken pre' m weaker h w p = h w (weaker w.1 p)

      pub triple-catch :
          (m : Exec (S × Transaction) A) (f : Error → Exec (S × Transaction) A)
          → Triple pre m post
          → ((e : Error) → Triple E (f e) post)
          → Triple pre (catch m f) post
      unfolding Triple Outcome
      triple-catch m f h k w p = handled (m w).0 (m w).1 (h w p)
        where
          handled :
              (r : Result A) (v : S × Transaction)
              → Outcome E post r v.1
              → Outcome E post (handle r f v).0 (handle r f v).1.1
          handled (ok a) v q = q
          handled (err e) v q = k e v q

      module _ {B : Type 0} (last : B → Transaction → Type 0) where
        pub triple-bind :
            (m : Exec (S × Transaction) A) (f : A → Exec (S × Transaction) B)
            → Triple pre m post
            → ((a : A) → Triple (post a) (f a) last)
            → Triple pre (m >>= f) last
        unfolding Triple Outcome
        triple-bind m f h k w p = continued (m w).0 (m w).1 (h w p)
          where
            continued :
                (r : Result A) (v : S × Transaction)
                → Outcome E post r v.1
                → Outcome E last (continue r f v).0 (continue r f v).1.1
            continued (ok a) v q = k a v q
            continued (err e) v q = q

    -- A call that does nothing to the transaction.
    module _ {B : Type 0} (pre : Transaction → Type 0) (last : B → Transaction → Type 0)
        (safe : (t : Transaction) → pre t → E t) where
      pub triple-outside :
          (m : Exec S A) (f : A → Exec (S × Transaction) B)
          → ((a : A) → Triple pre (f a) last)
          → Triple pre (outside m >>= f) last
      unfolding Triple Outcome
      triple-outside m f k (s, t) p = continued (m s).0
        where
          continued :
              (r : Result A)
              → Outcome E last (continue r f ((m s).1, t)).0 (continue r f ((m s).1, t)).1.1
          continued (ok a) = k a ((m s).1, t) p
          continued (err e) = safe t p

      pub triple-lift :
          (r : Result A) (f : A → Exec (S × Transaction) B)
          → ((a : A) → r ≡ ok a → Triple pre (f a) last)
          → Triple pre (lift r >>= f) last
      unfolding Triple Outcome
      triple-lift (ok a) f k w p = k a refl w p
      triple-lift (err e) f k w p = safe w.1 p
