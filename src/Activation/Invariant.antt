-- ===== src/Activation/Invariant.antt =====
-- What every activation ledger (app/persistence/projection_activation.py) keeps.
use onlyfans_conversational.Prelude.{
  ℕ, ◌≤◌, String, String-discrete, ℕ_discrete, Option, some, ◌≡◌, ◌≢◌, refl, arith, ◌∙◌,
}
use onlyfans_conversational.Prelude.Dict
use onlyfans_conversational.Prelude.Dict.{Dict, lookup-insert}
use onlyfans_conversational.Activation.Types.{
  ActivationState, reserved, ProjectionActivationIntent, Ledger,
}
use onlyfans_conversational.Activation.Ledger.{find_intent, save_intent, or_zero}
use onlyfans_conversational.Activation.Changes.{Moved, Moves, completing, cancelling, reconciling}

abbrev pub account : ProjectionActivationIntent → String
account i = i.identity.creator_account_id

abbrev pub generation : ProjectionActivationIntent → String
generation i = i.identity.generation_id

abbrev pub find_generation : String → Ledger → Option ℕ
find_generation g l = Dict.lookup String-discrete g l.by_generation

-- Intents stand under their ids and their generations; each account's intents have different
-- sequence numbers, none above the account's, and at most one of them is reserved.
pub record IsLedger (l : Ledger) : Type 0 where
  pub keyed :
      (k : ℕ) (i : ProjectionActivationIntent)
      → find_intent k l ≡ some i
      → (i.intent_id ≡ k) × (find_generation (generation i) l ≡ some k)
  pub indexed :
      (g : String) (k : ℕ)
      → find_generation g l ≡ some k
      → (i : ProjectionActivationIntent) × (find_intent k l ≡ some i) × (generation i ≡ g)
  pub bounded :
      (k : ℕ) (i : ProjectionActivationIntent)
      → find_intent k l ≡ some i
      → i.witness_sequence ≤ or_zero (Dict.lookup String-discrete (account i) l.sequences)
  pub numbered :
      (j k : ℕ) (i m : ProjectionActivationIntent)
      → find_intent j l ≡ some i
      → find_intent k l ≡ some m
      → account i ≡ account m
      → i.witness_sequence ≡ m.witness_sequence
      → j ≡ k
  pub exclusive :
      (j k : ℕ) (i m : ProjectionActivationIntent)
      → find_intent j l ≡ some i
      → find_intent k l ≡ some m
      → account i ≡ account m
      → i.state ≡ reserved
      → m.state ≡ reserved
      → j ≡ k

-- What a moved intent's entry was before.
pub record Before (l : Ledger) (k : ℕ) (m : ProjectionActivationIntent) : Type 0 where
  pub old : ProjectionActivationIntent
  pub found : find_intent k l ≡ some old
  pub intent_id : m.intent_id ≡ old.intent_id
  pub identity : m.identity ≡ old.identity
  pub witness_sequence : m.witness_sequence ≡ old.witness_sequence
  pub still : m.state ≡ reserved → old.state ≡ reserved

not_reserved : (i i' : ProjectionActivationIntent) → Moved i i' → i'.state ≢ reserved
not_reserved i i' moves e = from_move moves.state e
  where
    from_move : {s s' : ActivationState} → Moves s s' → s' ≢ reserved
    from_move completing h = cc
    from_move cancelling h = cc
    from_move reconciling h = cc

module _ (l : Ledger) (ledger : IsLedger l) where
  pub before :
      (k : ℕ) (i i' : ProjectionActivationIntent)
      → find_intent k l ≡ some i
      → Moved i i'
      → (j : ℕ) (m : ProjectionActivationIntent) → find_intent j (save_intent i' l) ≡ some m
      → Before l j m
  unfolding save_intent find_intent
  before k i i' at moves j m found =
      let key : i'.intent_id ≡ k = moves.intent_id ∙ (ledger.keyed k i at).0 in
      let step = lookup-insert ℕ_discrete j i'.intent_id i' l.intents in
      elim (ℕ_discrete j i'.intent_id) [
        | yes e ↦
            let here : Path (Option ProjectionActivationIntent) (some i') (some m) =
              ground (arith, step, e, found) in
            let m_is : i' ≡ m = cc in
            rw (← m_is) (record {
              old = i;
              found = rw (e ∙ key) at;
              intent_id = moves.intent_id;
              identity = moves.identity;
              witness_sequence = moves.witness_sequence;
              still = λ h. absurd (not_reserved i i' moves h);
            })
        | no e ↦ record {
          old = m;
          found = ground (arith, step, e, found);
          intent_id = refl;
          identity = refl;
          witness_sequence = refl;
          still = λ h. h;
        }
      ]
