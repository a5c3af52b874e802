-- ===== src/Activation/Changes.antt =====
-- What a call of the activation ledger (app/persistence/projection_activation.py) changes.
use onlyfans_conversational.Prelude.{
  ℕ, String, String-discrete, Option, none, some, false, ◌≡◌, refl, ◌⊎◌, inl, inr, ◌&&◌, not, holds,
  if-cases,
}
use onlyfans_conversational.Prelude.Dict
use onlyfans_conversational.Activation.Types.{
  ActivationIdentity, ActivationState, reserved, completed, cancelled, ProjectionActivationIntent,
  PublicationEpoch, Ledger, same_completion, same_identity,
}
use onlyfans_conversational.Activation.Ledger.{
  IdentityReader, Answer, save_epoch, is_owned, register_found, register_publication_epoch,
  revoke_found, revoke_publication_epoch, find_intent, save_intent, is_canonical, is_busy,
  new_intent, store_new, is_epoch_open, is_completed, reserve_again, reserve_new, reserve_found,
  reserve, cancelled_at_time, complete_in, complete_found, complete_reserved, complete, cancel_in,
  cancel_found, cancel, reconcile_in, reconcile_found, reconcile_completed,
}
use onlyfans_conversational.Activation.Steps.{
  Step, registers, revokes, reserves, completes, cancels, reconciles,
}

-- How an intent's state may move on.
pub data Moves : ActivationState → ActivationState → Type 0 where
  completing : Moves reserved completed
  cancelling : Moves reserved cancelled
  reconciling : Moves completed cancelled

-- The same intent in another state.
pub record Moved (i i' : ProjectionActivationIntent) : Type 0 where
  pub intent_id : i'.intent_id ≡ i.intent_id
  pub identity : i'.identity ≡ i.identity
  pub witness_sequence : i'.witness_sequence ≡ i.witness_sequence
  pub reserved_at : i'.reserved_at ≡ i.reserved_at
  pub state : Moves i.state i'.state

-- The four changes of a call: none, of an epoch's entry, which is new or closed by it, of an
-- intent's state, or a new intent for a new generation of an account that has none reserved.
pub data Change (l : Ledger) : Ledger → Type 0 where
  nothing : Change l l
  epoch :
      (e : String) (entry : PublicationEpoch)
      → (Dict.lookup String-discrete e l.epochs ≡ none) ⊎ (entry.is_open ≡ false)
      → Change l (save_epoch e entry l)
  moved :
      (k : ℕ) (i i' : ProjectionActivationIntent)
      → find_intent k l ≡ some i
      → Moved i i'
      → Change l (save_intent i' l)
  added :
      (k now : ℕ) (w : ActivationIdentity)
      → find_intent k l ≡ none
      → Dict.lookup String-discrete w.generation_id l.by_generation ≡ none
      → is_busy w.creator_account_id l ≡ false
      → Change l (store_new (new_intent k now w l) l)

abbrev ChangeTo : {A : Type 0} → Ledger → Answer A → Type 0
ChangeTo l answer = Change l answer.1

register_found-Change :
    (o : Option PublicationEpoch) (e owner digest : String) (l : Ledger)
    → Dict.lookup String-discrete e l.epochs ≡ o
    → ChangeTo l (register_found o e owner digest l)
register_found-Change none e owner digest l at = epoch e _ (inl at)
register_found-Change (some entry) e owner digest l at =
    if-cases (ChangeTo l) (is_owned entry owner digest && entry.is_open) _ _ (λ _. nothing)
      (λ _. nothing)

revoke_found-Change :
    (o : Option PublicationEpoch) (e owner digest : String) (l : Ledger)
    → ChangeTo l (revoke_found o e owner digest l)
revoke_found-Change none e owner digest l = nothing
revoke_found-Change (some entry) e owner digest l =
    if-cases (ChangeTo l) (is_owned entry owner digest) _ _ (λ _. epoch e _ (inr refl))
      (λ _. nothing)

cancelled-Moved :
    (i : ProjectionActivationIntent) (now : ℕ)
    → Moves i.state cancelled
    → Moved i (cancelled_at_time i now)
cancelled-Moved i now moves = record {
  intent_id = refl;
  identity = refl;
  witness_sequence = refl;
  reserved_at = refl;
  state = moves;
}

module _ (l : Ledger) (k : ℕ) (i : ProjectionActivationIntent) (at : find_intent k l ≡ some i) where
  cancelled-Change :
      (now : ℕ) → Moves i.state cancelled → Change l (save_intent (cancelled_at_time i now) l)
  cancelled-Change now moves = moved k i (cancelled_at_time i now) at (cancelled-Moved i now moves)

  complete_reserved-Change :
      (identity : IdentityReader) (now : ℕ)
      → i.state ≡ reserved
      → ChangeTo l (complete_reserved identity now i l)
  complete_reserved-Change identity now is =
      let moves : Moves i.state cancelled = rw is cancelling in
      if-cases (ChangeTo l) (not (is_epoch_open i.identity l)) _ _ (λ _. cancelled-Change now moves)
        (λ _.
          if-cases (ChangeTo l)
            (not (is_canonical (identity i.identity.creator_account_id) i.identity.canonical)) _ _
            (λ _. cancelled-Change now moves)
            (λ _.
              moved k i (record i { state = completed; completed_at = some now }) at
                (record {
                  intent_id = refl;
                  identity = refl;
                  witness_sequence = refl;
                  reserved_at = refl;
                  state = rw is completing;
                })))

  complete_in-Change :
      (state : ActivationState) (identity : IdentityReader) (now : ℕ)
      → i.state ≡ state
      → ChangeTo l (complete_in state identity now i l)
  complete_in-Change reserved identity now is = complete_reserved-Change identity now is
  complete_in-Change completed identity now is = nothing
  complete_in-Change cancelled identity now is = nothing

  cancel_in-Change :
      (state : ActivationState) (now : ℕ) → i.state ≡ state → ChangeTo l (cancel_in state now i l)
  cancel_in-Change reserved now is = cancelled-Change now (rw is cancelling)
  cancel_in-Change completed now is = nothing
  cancel_in-Change cancelled now is = nothing

  reconcile_in-Change :
      (state : ActivationState) (now : ℕ)
      → i.state ≡ state
      → ChangeTo l (reconcile_in state now i l)
  reconcile_in-Change reserved now is = nothing
  reconcile_in-Change completed now is = cancelled-Change now (rw is reconciling)
  reconcile_in-Change cancelled now is = nothing

module _ (l : Ledger) (k : ℕ) where
  complete_found-Change :
      (o : Option ProjectionActivationIntent) (identity : IdentityReader) (now : ℕ)
      (expected : ProjectionActivationIntent)
      → find_intent k l ≡ o
      → ChangeTo l (complete_found o identity now expected l)
  complete_found-Change none identity now expected at = nothing
  complete_found-Change (some i) identity now expected at =
      if-cases (ChangeTo l) (same_completion i expected) _ _
        (λ _. complete_in-Change l k i at i.state identity now refl) (λ _. nothing)

  cancel_found-Change :
      (o : Option ProjectionActivationIntent) (now : ℕ)
      → find_intent k l ≡ o
      → ChangeTo l (cancel_found o now l)
  cancel_found-Change none now at = nothing
  cancel_found-Change (some i) now at = cancel_in-Change l k i at i.state now refl

  reconcile_found-Change :
      (o : Option ProjectionActivationIntent) (now : ℕ) (expected : ProjectionActivationIntent)
      → find_intent k l ≡ o
      → ChangeTo l (reconcile_found o now expected l)
  reconcile_found-Change none now expected at = nothing
  reconcile_found-Change (some i) now expected at =
      if-cases (ChangeTo l) (same_completion i expected) _ _
        (λ _. reconcile_in-Change l k i at i.state now refl) (λ _. nothing)

reserve_again-Change :
    (o : Option ProjectionActivationIntent) (w : ActivationIdentity) (l : Ledger)
    → ChangeTo l (reserve_again o w l)
reserve_again-Change none w l = nothing
reserve_again-Change (some i) w l =
    if-cases (ChangeTo l) (not (same_identity i.identity w)) _ _ (λ _. nothing)
      (λ _.
        if-cases (ChangeTo l) (not (is_completed i.state) && not (is_epoch_open w l)) _ _
          (λ _. nothing) (λ _. nothing))

reserve_found-Change :
    (o : Option ℕ) (identity : IdentityReader) (k now : ℕ) (w : ActivationIdentity) (l : Ledger)
    → find_intent k l ≡ none
    → Dict.lookup String-discrete w.generation_id l.by_generation ≡ o
    → ChangeTo l (reserve_found o identity k now w l)
unfolding reserve_new
reserve_found-Change (some existing) identity k now w l fresh at =
    reserve_again-Change (find_intent existing l) w l
reserve_found-Change none identity k now w l fresh at =
    if-cases (ChangeTo l) (not (is_epoch_open w l)) _ _ (λ _. nothing)
      (λ _.
        if-cases (ChangeTo l) (not (is_canonical (identity w.creator_account_id) w.canonical)) _ _
          (λ _. nothing)
          (λ _.
            if-cases (ChangeTo l) (is_busy w.creator_account_id l) _ _ (λ _. nothing)
              (λ free. added k now w fresh at free)))

-- Every call makes one of the four changes.
pub Step-Change :
    (account_ref : String → String) (l l' : Ledger) → Step account_ref l l' → Change l l'
unfolding register_publication_epoch revoke_publication_epoch reserve complete cancel
    reconcile_completed
Step-Change account_ref l l' (registers e owner digest) =
    register_found-Change _ e owner digest l refl
Step-Change account_ref l l' (revokes e owner digest) = revoke_found-Change _ e owner digest l
Step-Change account_ref l l' (reserves identity k now w fresh) =
    if-cases (ChangeTo l)
      (not (holds (String-discrete w.account_ref (account_ref w.creator_account_id)))) _ _
      (λ _. nothing) (λ _. reserve_found-Change _ identity k now w l fresh refl)
Step-Change account_ref l l' (completes identity now expected) =
    complete_found-Change l expected.intent_id _ identity now expected refl
Step-Change account_ref l l' (cancels now k) = cancel_found-Change l k _ now refl
Step-Change account_ref l l' (reconciles now expected) =
    reconcile_found-Change l expected.intent_id _ now expected refl
