-- ===== src/Activation/Witnesses.antt =====
-- Reserved intents and completed witnesses of app/persistence/projection_activation.py over time.
use onlyfans_conversational.Prelude.{
  ℕ, String, ℕ_discrete, Option, some, true, ◌≡◌, ◌⊎◌, refl, inl, inr, ◌∙◌, arith, ok,
}
use onlyfans_conversational.Prelude.Dict.{lookup-insert}
use onlyfans_conversational.Activation.Types.{
  ActivationState, completed, ProjectionActivationIntent, Ledger,
}
use onlyfans_conversational.Activation.Ledger.{
  IdentityReader, Answer, save_epoch, find_intent, save_intent, is_canonical, is_epoch_open,
  new_intent, store_new,
}
use onlyfans_conversational.Activation.Steps.{Follows, Reach, same, later}
use onlyfans_conversational.Activation.Changes.{
  Change, Moved, Moves, completing, cancelling, reconciling, nothing, epoch, moved, added,
  Step-Change,
}
use onlyfans_conversational.Activation.Invariant.{IsLedger}
use onlyfans_conversational.Activation.Preservation.{Follows-IsLedger, Reach-IsLedger}

-- The very same intent, or its identity in a state that it may move on to.
abbrev pub IsLater : ProjectionActivationIntent → ProjectionActivationIntent → Type 0
IsLater i i' = (i ≡ i') ⊎ Moved i i'

moves-twice : {a b c : ActivationState} → Moves a b → Moves b c → Moves a c
moves-twice completing reconciling = cancelling
moves-twice cancelling second = elim second [ ]
moves-twice reconciling second = elim second [ ]

Moved-twice : (i m n : ProjectionActivationIntent) → Moved i m → Moved m n → Moved i n
Moved-twice i m n first second = record {
  intent_id = second.intent_id ∙ first.intent_id;
  identity = second.identity ∙ first.identity;
  witness_sequence = second.witness_sequence ∙ first.witness_sequence;
  reserved_at = second.reserved_at ∙ first.reserved_at;
  state = moves-twice first.state second.state;
}

IsLater-twice : (i m n : ProjectionActivationIntent) → IsLater i m → IsLater m n → IsLater i n
IsLater-twice i m n (inl e) second = rw e second
IsLater-twice i m n (inr first) (inl e) = rw (← e) (inr first)
IsLater-twice i m n (inr first) (inr second) = inr (Moved-twice i m n first second)

-- The intent is still there.
abbrev pub Remains : ℕ → ProjectionActivationIntent → Ledger → Type 0
Remains k i l = (i' : ProjectionActivationIntent) × (find_intent k l ≡ some i') × IsLater i i'

Change-Remains :
    (l l' : Ledger) (k : ℕ) (i : ProjectionActivationIntent)
    → IsLedger l
    → Change l l'
    → find_intent k l ≡ some i
    → Remains k i l'
unfolding save_epoch save_intent store_new new_intent find_intent
Change-Remains l l' k i h nothing at = (i, at, inl refl)
Change-Remains l l' k i h (epoch e entry allowed) at = (i, at, inl refl)
Change-Remains l l' k i h (added j now w fresh absent free) at =
    let step = lookup-insert ℕ_discrete k j (new_intent j now w l) l.intents in
    (i, ground (arith, step, at, fresh), inl refl)
Change-Remains l l' k i h (moved j m m' there moves) at =
    let step = lookup-insert ℕ_discrete k m'.intent_id m' l.intents in
    let key : m'.intent_id ≡ j = moves.intent_id ∙ (h.keyed j m there).0 in
    elim (ℕ_discrete k m'.intent_id) [
      | no e ↦ (i, ground (arith, step, e, at), inl refl)
      | yes e ↦
          let both : Path (Option ProjectionActivationIntent) (some m) (some i) =
            ground (arith, at, there, e, key) in
          let m_is : m ≡ i = cc in (m', ground (arith, step, e), rw (← m_is) (inr moves))
    ]

Follows-Remains :
    (account_ref : String → String) (l l' : Ledger) (k : ℕ) (i : ProjectionActivationIntent)
    → IsLedger l
    → Follows account_ref l l'
    → find_intent k l ≡ some i
    → Remains k i l'
Follows-Remains account_ref l l' k i h same at = (i, at, inl refl)
Follows-Remains account_ref l l' k i h (later {m = m} before step) at =
    let (j, there, first) = Follows-Remains account_ref l m k i h before at in
    let (n, found, second) =
      Change-Remains m l' k j (Follows-IsLedger account_ref l m before h)
        (Step-Change account_ref m l' step) there in
    (n, found, IsLater-twice i j n first second)

-- An intent of a ledger is in every ledger that follows: either the very same, or with the same
-- identity, sequence number and time of reservation in a later state, where a reserved intent may
-- become completed or cancelled, a completed one cancelled, and a cancelled one nothing else.
pub reached-Remains :
    (account_ref : String → String) (l l' : Ledger) (k : ℕ) (i : ProjectionActivationIntent)
    → Reach account_ref l
    → Follows account_ref l l'
    → find_intent k l ≡ some i
    → Remains k i l'
reached-Remains account_ref l l' k i reach =
    Follows-Remains account_ref l l' k i (Reach-IsLedger account_ref l reach)

-- What a completed witness vouches for: it is stored, and was so already, or it was reserved while
-- its epoch is open and the canonical account is the one that it names.
abbrev pub IsWitness :
    IdentityReader
    → Ledger
    → Answer ProjectionActivationIntent
    → ProjectionActivationIntent
    → Type 0
IsWitness identity l answer done =
    (done.state ≡ completed)
    × (find_intent done.intent_id answer.1 ≡ some done)
    × ((answer.1 ≡ l)
        ⊎ ((i : ProjectionActivationIntent) × (find_intent done.intent_id l ≡ some i)
            × Moved i done
            × (is_epoch_open i.identity l ≡ true)
            × (is_canonical (identity i.identity.creator_account_id) i.identity.canonical ≡ true)))

abbrev AnswersWitness : IdentityReader → Ledger → Answer ProjectionActivationIntent → Type 0
AnswersWitness identity l answer =
    (done : ProjectionActivationIntent) → answer.0 ≡ ok done → IsWitness identity l answer done
