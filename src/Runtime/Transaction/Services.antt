-- ===== src/Runtime/Transaction/Services.antt =====
-- runtime/transaction-services.ts: the validations that are still open, and `transaction` of
-- runtime/unified-services.ts. `complete_next` is the end of the oldest validation, wherever it
-- falls.
use appport_services.Common.{ℕ, Option, none, some, List, [], ◌∷◌}
use appport_services.Authority.Errors.{Error}
use appport_services.Runtime.Transaction.{
  TransactionOperation, PendingDeliveries, Transaction, commit,
}
use appport_services.Exec.{Exec, Result, ok, err, pure, lift, ◌>>=◌, ◌>>◌}
use appport_services.Runtime.Transaction.Authorized.{TransactionServices}
use appport_services.Runtime.Transaction.Deliveries.{complete}

report : Option Error → Result (Unit {0})
report none = ok tt
report (some e) = err e

module _ {S : Type 0} (svc : TransactionServices S) where
  unfoldable pub complete_first : List PendingDeliveries → Exec (S × Transaction) (Unit {0})
  unfolding complete
  complete_first [] w = (ok tt, w)
  complete_first (p ∷ rest) (s, t) = complete svc p (s, record t { pending = rest })

  -- The oldest validation goes on to its end.
  unfoldable pub complete_next : Exec (S × Transaction) (Unit {0})
  unfolding complete_first
  complete_next (s, t) = complete_first t.pending (s, t)

  unfoldable pub complete_all : List PendingDeliveries → Exec (S × Transaction) (Unit {0})
  unfolding complete_next
  complete_all [] = pure tt
  complete_all (p ∷ rest) = do complete_next; complete_all rest

  -- `_settle`, where no validation is started any more.
  unfoldable pub settle : Exec (S × Transaction) (Unit {0})
  unfolding complete_all report
  settle (s, t) = let w = (complete_all t.pending (s, t)).1 in (report w.1.rejected, w)

  -- `transaction(callback)`; `db` sends the operations to the database. The contexts that are used
  -- up stay so for every later transaction.
  unfoldable pub transaction :
      {A : Type 0}
      → (List TransactionOperation → Exec S (Unit {0}))
      → Exec (S × Transaction) A
      → Exec (S × List ℕ) A
  unfolding settle commit
  transaction db callback (s, consumed) =
      let (r, (s', t)) =
        (do result ← callback; settle; pure result)
          (s, record { operations = []; pending = []; rejected = none; consumed = consumed }) in
      let sent = (lift r >>= λ result. commit db t.operations >> pure result) s' in
      (sent.0, (sent.1, t.consumed))
