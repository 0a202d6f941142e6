-- ===== src/Runtime/Transaction/Once.antt =====
-- A context is used up by the first effect that it authorizes.
use appport_services.Common.{
  ℕ, ◌≡◌, refl, ◌≢◌, subst, String, true, false, Option, some, List, Bool-cases, inl, inr, arith,
}
use appport_services.Authority.Context.{ServiceExecutionContext, assert_execution_context}
use appport_services.Authority.Gateway.{ServiceGateway}
use appport_services.Runtime.Transaction.{Transaction, push, outside}
use appport_services.Runtime.Transaction.Authorized.{
  TransactionServices, is_used, authorized, require_gateway, consume_execution_context, mark_used,
  contents, evidence_operation, succeeded_evidence,
}
use appport_services.Runtime.Transaction.Grounds.{IsIssued}
use appport_services.Runtime.Transaction.Queue.{Good, Backed, authorized-Backed}
use appport_services.Runtime.Transaction.Vouched.{Reach, Reach-Good, fresh, new-Good}
use appport_services.Runtime.Transaction.Triples.{
  Outcome, Triple, triple-bind, triple-outside, triple-lift,
}
use appport_services.Exec.{Result, ok, lift, pure, >>=-eq-ok, ◌>>=◌}

Anything : Transaction → Type 0
Anything t = Unit {0}

Used : ℕ → ServiceExecutionContext → Transaction → Type 0
Used i context t = is_used t.consumed i ≡ true

returned :
    {A : Type 0} (E : Transaction → Type 0) (post : A → Transaction → Type 0) (r : Result A)
    (t : Transaction) (a : A)
    → r ≡ ok a
    → Outcome E post r t
    → post a t
unfolding Outcome
returned E post r t a e h = subst (λ x. Outcome E post x t) e h

module _ {S : Type 0} (svc : TransactionServices S) (i : ℕ) where
  mark_used-Used :
      (capability : String) (context : ServiceExecutionContext)
      → Triple S Anything Anything (mark_used (some i) capability context) (Used i)
  unfolding Triple Outcome mark_used Anything Used
  mark_used-Used capability context (s, t) _ = elim (Bool-cases (is_used t.consumed i)) [
    | inl seen ↦ rw seen tt
    | inr unseen ↦ rw unseen (ground arith)
  ]

  evidence-Used :
      (context : ServiceExecutionContext) (id : String) (at : ℕ)
      → Triple S Anything
          (Used i context)
          (push (evidence_operation (succeeded_evidence context id at)) >>= λ _. pure context)
          (Used i)
  unfolding Triple Outcome push Used
  evidence-Used context id at w h = h

  authorized-Used :
      (capability tenant_id kind : String)
      → Triple S Anything Anything (authorized svc (some i) capability tenant_id kind) (Used i)
  unfolding authorized consume_execution_context Anything
  authorized-Used capability tenant_id kind =
      triple-lift S Anything Anything (Used i) (λ t _. tt) (require_gateway svc.gateway) _
        λ _ _.
          triple-bind S Anything Anything (Used i) (Used i)
            (consume_execution_context svc (some i) capability (some tenant_id)) _
            (triple-outside S Anything Anything (Used i) (λ t _. tt) svc.now _
              λ now.
                triple-lift S Anything Anything (Used i) (λ t _. tt)
                  (assert_execution_context (contents svc (some i)) capability (some tenant_id) now)
                  _ λ context _. mark_used-Used capability context)
            λ context.
              triple-lift S Anything (Used i context) (Used i) (λ t _. tt) _ _
                λ _ _.
                  triple-outside S Anything (Used i context) (Used i) (λ t _. tt) svc.random_uuid _
                    λ id.
                      triple-outside S Anything (Used i context) (Used i) (λ t _. tt) svc.now _
                        λ at. evidence-Used context id at

  consume-Used :
      (capability : String) (tenant : Option String) (s : S) (t : Transaction)
      (context : ServiceExecutionContext)
      → is_used t.consumed i ≡ true
      → (consume_execution_context svc (some i) capability tenant (s, t)).0 ≢ ok context
  unfolding consume_execution_context mark_used
  consume-Used capability tenant s t context seen h =
      let (now, _, h₁) =
        >>=-eq-ok (outside svc.now)
          (λ at.
            lift (assert_execution_context (contents svc (some i)) capability tenant at) >>= λ c.
            mark_used (some i) capability c)
          (s, t) h in
      let (c, _, h₂) =
        >>=-eq-ok (lift (assert_execution_context (contents svc (some i)) capability tenant now))
          (λ c. mark_used (some i) capability c) ((svc.now s).1, t) h₁ in
      let refused = rw seen at h₂ in cc

  authorized_again :
      (capability tenant_id kind : String) (v : S × Transaction) (context : ServiceExecutionContext)
      → is_used v.1.consumed i ≡ true
      → (authorized svc (some i) capability tenant_id kind v).0 ≢ ok context
  unfolding authorized
  authorized_again capability tenant_id kind (s, t) context seen h =
      let (_, _, h₁) = >>=-eq-ok (lift (require_gateway svc.gateway)) _ (s, t) h in
      let (c, done, _) =
        >>=-eq-ok (consume_execution_context svc (some i) capability (some tenant_id)) _ (s, t)
          h₁ in
      consume-Used capability (some tenant_id) s t c seen done

  module _ (g : ServiceGateway S) (fit : (j : ℕ) → IsIssued g (svc.issued j)) where
    -- A context authorizes one effect: once it has authorized one, it authorizes no other, of
    -- whichever capability, tenant and resource type, whatever is done in this and in later
    -- transactions of the process in between.
    pub context_authorizes_once :
        {s : S} {consumed : List ℕ} {w v : S × Transaction} (context : ServiceExecutionContext)
        (capability tenant_id kind : String)
        → Reach svc (s, fresh consumed) w
        → (authorized svc (some i) capability tenant_id kind w).0 ≡ ok context
        → Reach svc (authorized svc (some i) capability tenant_id kind w).1 v
        → (other : ServiceExecutionContext) (capability' tenant_id' kind' : String)
        → (authorized svc (some i) capability' tenant_id' kind' v).0 ≢ ok other
    unfolding Triple Anything Used
    context_authorizes_once {consumed} {w} {v} context capability tenant_id kind before first later
          other capability' tenant_id' kind' =
        let r = authorized svc (some i) capability tenant_id kind w in
        let good =
          returned (Good svc g fit false i)
            (λ (c : ServiceExecutionContext). Backed svc g fit false i c capability) r.0 r.1.1
            context first
            (authorized-Backed svc g fit false i (some i) capability tenant_id kind w
              (Reach-Good svc g fit false i (new-Good svc g fit i consumed) before)) in
        let marked =
          returned Anything (Used i) r.0 r.1.1 context first
            (authorized-Used capability tenant_id kind w tt) in
        let still =
          Reach-Good svc g fit true i
            (record { sound = good.0.sound; awaiting = good.0.awaiting; kept = λ _. marked })
            later in
        authorized_again capability' tenant_id' kind' v other (still.kept refl)
