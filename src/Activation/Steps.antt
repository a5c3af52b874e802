-- ===== src/Activation/Steps.antt =====
-- The calls of the activation ledger (app/persistence/projection_activation.py) one after the other.
use onlyfans_conversational.Prelude.{ℕ, String, none, ◌≡◌}
use onlyfans_conversational.Activation.Types.{
  ActivationIdentity, ProjectionActivationIntent, Ledger, new_ledger,
}
use onlyfans_conversational.Activation.Ledger.{
  IdentityReader, register_publication_epoch, revoke_publication_epoch, find_intent, reserve,
  complete, cancel, reconcile_completed,
}

-- One call. The identifier that a reservation draws is new.
pub data Step (account_ref : String → String) (l : Ledger) : Ledger → Type 0 where
  registers :
      (e owner digest : String) → Step account_ref l (register_publication_epoch e owner digest l).1
  revokes :
      (e owner digest : String) → Step account_ref l (revoke_publication_epoch e owner digest l).1
  reserves :
      (identity : IdentityReader) (k now : ℕ) (w : ActivationIdentity)
      → find_intent k l ≡ none
      → Step account_ref l (reserve account_ref identity k now w l).1
  completes :
      (identity : IdentityReader) (now : ℕ) (expected : ProjectionActivationIntent)
      → Step account_ref l (complete identity now expected l).1
  cancels : (now k : ℕ) → Step account_ref l (cancel now k l).1
  reconciles :
      (now : ℕ) (expected : ProjectionActivationIntent)
      → Step account_ref l (reconcile_completed now expected l).1

pub data Follows (account_ref : String → String) (l : Ledger) : Ledger → Type 0 where
  same : Follows account_ref l l
  later :
      {m l' : Ledger} → Follows account_ref l m → Step account_ref m l' → Follows account_ref l l'

-- The ledgers that calls can make from the empty one.
abbrev pub Reach : (String → String) → Ledger → Type 0
Reach account_ref l = Follows account_ref new_ledger l
