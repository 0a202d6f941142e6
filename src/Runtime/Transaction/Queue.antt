-- ===== src/Runtime/Transaction/Queue.antt =====
-- What each operation of a transaction does to the grounds of what is queued.
use appport_services.Common.{
  ℕ, ◌≡◌, refl, sym, ap, subst, String, Bool, ◌==◌, eq_iff, Option, none, some, List, [], ◌∷◌, ◌++◌,
  inl, inr, arith, Bool-cases,
}
use appport_services.Authority.Context.{ServiceExecutionContext, assert_execution_context}
use appport_services.Authority.Gateway.{ServiceGateway}
use appport_services.Runtime.Transaction.{TransactionOperation, Transaction, push}
use appport_services.Runtime.Transaction.Authorized.{
  TransactionServices, succeeded_evidence, evidence_operation, is_used, mark_used,
  consume_execution_context, authorized, require_gateway, contents,
}
use appport_services.Runtime.Transaction.Grounds.{
  IsIssued, IsBacked, IsGrounded, of_evidence, Invariant, IsBacked-append, push-Invariant,
}
use appport_services.Runtime.Transaction.Triples.{
  Outcome, Triple, triple-bind, triple-outside, triple-lift,
}
use appport_services.Exec.{ok, pure, ◌>>=◌}
use mathlib.Core.List.{Memᴰ}
use mathlib.Core.List.Memᴰ

assert-ok :
    (value context : ServiceExecutionContext) (capability : String) (tenant : Option String)
    (now : ℕ)
    → assert_execution_context (some value) capability tenant now ≡ ok context
    → (value ≡ context) × (value.capability ≡ capability)
unfolding assert_execution_context
assert-ok value context capability tenant now h =
    elim (Bool-cases (value.capability == capability)) [
      | inl e ↦ (ground arith, (eq_iff value.capability capability).0 e)
      | inr e ↦ let refused = rw e at h in cc
    ]

module _ {S : Type 0} (svc : TransactionServices S) (g : ServiceGateway S)
    (fit : (j : ℕ) → IsIssued g (svc.issued j)) (start : Bool) (i : ℕ) where
  abbrev pub Good : Transaction → Type 0
  Good = Invariant svc g start i

  abbrev pub Backed : ServiceExecutionContext → String → Transaction → Type 0
  Backed context capability t = Good t × IsBacked svc g context capability t.operations

  abbrev Issued : String → ServiceExecutionContext → Transaction → Type 0
  Issued capability context t =
      Good t × (j : ℕ) × (svc.issued j ≡ context) × (context.capability ≡ capability)

  pub backed-IsIssued :
      (context : ServiceExecutionContext) (capability : String) (ops : List TransactionOperation)
      → IsBacked svc g context capability ops
      → IsIssued g context
  backed-IsIssued context capability ops b = subst (λ c. IsIssued g c) b.same (fit b.identity)

  pub push-Backed :
      (context : ServiceExecutionContext) (capability : String) (op : TransactionOperation)
      → ((ops : List TransactionOperation)
          → IsBacked svc g context capability ops
          → IsGrounded svc g ops op)
      → Triple S Good (Backed context capability) (push op) (λ _. Backed context capability)
  unfolding Triple Outcome push
  push-Backed context capability op grounds (s, t) (inv, b) =
      let b' = IsBacked-append svc g context capability t.operations (op ∷ []) b in
      (push-Invariant svc g start i op t (grounds (t.operations ++ (op ∷ [])) b') inv, b')

  mark_used-Good :
      (j : ℕ) (context : ServiceExecutionContext) (capability : String)
      → svc.issued j ≡ context
      → context.capability ≡ capability
      → Triple S Good Good (mark_used (some j) capability context) (Issued capability)
  unfolding Triple Outcome mark_used
  mark_used-Good j context capability same capable (s, t) inv =
      elim (Bool-cases (is_used t.consumed j)) [
        | inl used ↦ rw used inv
        | inr unused ↦ rw unused (
          record {
            sound = inv.sound;
            awaiting = inv.awaiting;
            kept = λ h. let k = inv.kept h in ground (arith, k);
          },
          j,
          same,
          capable,
        )
      ]

  mark_used-Issued :
      (input : Option ℕ) (capability : String) (tenant : Option String) (now : ℕ)
      (context : ServiceExecutionContext)
      → assert_execution_context (contents svc input) capability tenant now ≡ ok context
      → Triple S Good Good (mark_used input capability context) (Issued capability)
  unfolding assert_execution_context
  mark_used-Issued none capability tenant now context h = cc
  mark_used-Issued (some j) capability tenant now context h =
      let (same, capable) = assert-ok (svc.issued j) context capability tenant now h in
      mark_used-Good j context capability same (subst (λ c. c.capability ≡ capability) same capable)

  consume-Issued :
      (input : Option ℕ) (capability : String) (tenant : Option String)
      → Triple S Good Good
          (consume_execution_context svc input capability tenant)
          (Issued capability)
  unfolding consume_execution_context
  consume-Issued input capability tenant =
      triple-outside S Good Good (Issued capability) (λ t h. h) svc.now _
        λ now.
          triple-lift S Good Good (Issued capability) (λ t h. h)
            (assert_execution_context (contents svc input) capability tenant now) _
            λ context h. mark_used-Issued input capability tenant now context h

  evidence-Backed :
      (context : ServiceExecutionContext) (capability id : String) (at : ℕ)
      → Triple S Good
          (Issued capability context)
          (push (evidence_operation (succeeded_evidence context id at)) >>= λ _. pure context)
          (λ (c : ServiceExecutionContext). Backed c capability)
  unfolding Triple Outcome push
  evidence-Backed context capability id at (s, t) (inv, j, same, capable) =
      let op = evidence_operation (succeeded_evidence context id at) in
      (
        push-Invariant svc g start i op t
            (of_evidence j id at
              (ap (λ c. evidence_operation (succeeded_evidence c id at)) (sym same)))
            inv,
        record {
          identity = j;
          same = same;
          capable = capable;
          id = id;
          at = at;
          listed = Memᴰ.append_right t.operations (Memᴰ.head refl);
        },
      )

  pub authorized-Backed :
      (input : Option ℕ) (capability tenant_id kind : String)
      → Triple S Good Good
          (authorized svc input capability tenant_id kind)
          (λ (c : ServiceExecutionContext). Backed c capability)
  unfolding authorized
  authorized-Backed input capability tenant_id kind =
      let last : ServiceExecutionContext → Transaction → Type 0 = λ c. Backed c capability in
      triple-lift S Good Good last (λ t h. h) (require_gateway svc.gateway) _
        λ _ _.
          triple-bind S Good Good (Issued capability) last
            (consume_execution_context svc input capability (some tenant_id)) _
            (consume-Issued input capability (some tenant_id))
            λ context.
              let pre = Issued capability context in
              let safe : (t : Transaction) → pre t → Good t = λ t h. h.0 in
              triple-lift S Good pre last safe _ _ λ _ _.
                triple-outside S Good pre last safe svc.random_uuid _ λ id.
                  triple-outside S Good pre last safe svc.now _
                    λ at. evidence-Backed context capability id at
