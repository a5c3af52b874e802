-- ===== src/Activation/Preservation.antt =====
-- Every call of the activation ledger (app/persistence/projection_activation.py) keeps it valid.
use onlyfans_conversational.Prelude.{
  ℕ, ◌≤◌, ◌<◌, String, String-discrete, ℕ_discrete, Option, none, some, Bool, true, false, [], ◌∷◌,
  ◌≡◌, ◌≢◌, ◌⊎◌, inl, inr, any, arith, ap, ◌∙◌, sym,
}
use onlyfans_conversational.Prelude.Dict
use onlyfans_conversational.Prelude.Dict.{Dict, lookup-insert}
use onlyfans_conversational.Activation.Types.{
  ActivationIdentity, reserved, ProjectionActivationIntent, Ledger, new_ledger,
}
use onlyfans_conversational.Activation.Ledger.{
  save_epoch, find_intent, save_intent, is_reserved, has_reserved, is_busy, or_zero, new_intent,
  store_new,
}
use onlyfans_conversational.Activation.Steps.{Follows, Reach, same, later}
use onlyfans_conversational.Activation.Changes.{
  Change, Moved, nothing, epoch, moved, added, Step-Change,
}
use onlyfans_conversational.Activation.Invariant.{
  account, generation, find_generation, IsLedger, before,
}

Moved-IsLedger :
    (l : Ledger) (k : ℕ) (i i' : ProjectionActivationIntent)
    → IsLedger l
    → find_intent k l ≡ some i
    → Moved i i'
    → IsLedger (save_intent i' l)
unfolding find_intent save_intent
Moved-IsLedger l k i i' h at moves =
    let from = before l h k i i' at moves in
    let key : i'.intent_id ≡ k = moves.intent_id ∙ (h.keyed k i at).0 in
    record {
      keyed = λ j m found.
          let b = from j m found in
          let (id, gen) = h.keyed j b.old b.found in (b.intent_id ∙ id, rw (b.identity) gen);
      indexed = λ g j found.
          let (m, there, gen) = h.indexed g j found in
          let step = lookup-insert ℕ_discrete j i'.intent_id i' l.intents in
          elim (ℕ_discrete j i'.intent_id) [
            | no e ↦ (m, ground (arith, step, e, there), gen)
            | yes e ↦
                let both : Path (Option ProjectionActivationIntent) (some i) (some m) =
                  sym at ∙ ap (λ x. find_intent x l) (sym (e ∙ key)) ∙ there in
                let i_is : i ≡ m = cc in
                (
                  i',
                  ground (arith, step, e),
                  ap (λ x. x.generation_id) (moves.identity) ∙ ap generation i_is ∙ gen,
                )
          ];
      bounded = λ j m found.
          let b = from j m found in rw (b.identity, b.witness_sequence) (h.bounded j b.old b.found);
      numbered = λ j u m n found there equal count.
          let b = from j m found in
          let c = from u n there in
          h.numbered j u b.old c.old b.found c.found
            (ap (λ x. x.creator_account_id) (sym b.identity)
              ∙ equal
              ∙ ap (λ x. x.creator_account_id) c.identity)
            (sym b.witness_sequence ∙ count ∙ c.witness_sequence);
      exclusive = λ j u m n found there equal one two.
          let b = from j m found in
          let c = from u n there in
          h.exclusive j u b.old c.old b.found c.found
            (ap (λ x. x.creator_account_id) (sym b.identity)
              ∙ equal
              ∙ ap (λ x. x.creator_account_id) c.identity)
            (b.still one) (c.still two);
    }

-- What no value of a dict satisfies, no entry that is found satisfies.
any-lookup :
    {V : Type 0} (p : V → Bool) (k : ℕ) (v : V) (d : Dict ℕ V)
    → any p (Dict.values d) ≡ false
    → Dict.lookup ℕ_discrete k d ≡ some v
    → p v ≡ false
unfolding Dict.lookup
any-lookup p k v [] h e = cc
any-lookup p k v (x ∷ d) h e = elim (ℕ_discrete k x.0) [
  | yes equal ↦
      let here : x.1 ≡ v = ground arith in
      let head : p x.1 ≡ false = ground (arith, h) in ap p (sym here) ∙ head
  | no other ↦ any-lookup p k v d (ground (arith, h)) (ground (arith, e))
]

free-reserved :
    (l : Ledger) (k : ℕ) (m : ProjectionActivationIntent) (a : String)
    → is_busy a l ≡ false
    → find_intent k l ≡ some m
    → account m ≡ a
    → m.state ≢ reserved
unfolding is_busy find_intent
free-reserved l k m a free found own is =
    let none_reserved = any-lookup (has_reserved a) k m l.intents free found in
    let state : is_reserved m.state ≡ true = ap is_reserved is in
    ground (arith, none_reserved, own, state)

module _ (l : Ledger) (k now : ℕ) (w : ActivationIdentity) (h : IsLedger l)
    (fresh : find_intent k l ≡ none) where
  abbrev made : ProjectionActivationIntent
  made = new_intent k now w l

  abbrev stored : Ledger
  stored = store_new made l

  -- An entry is the new intent's, or was there.
  arrived :
      (j : ℕ) (m : ProjectionActivationIntent)
      → find_intent j stored ≡ some m
      → ((j ≡ k) × (made ≡ m)) ⊎ ((j ≢ k) × (find_intent j l ≡ some m))
  unfolding find_intent store_new new_intent
  arrived j m found =
      let step = lookup-insert ℕ_discrete j k made l.intents in
      elim (ℕ_discrete j k) [
        | yes e ↦
            let here : Path (Option ProjectionActivationIntent) (some made) (some m) =
              ground (arith, step, e, found) in
            inl (e, cc)
        | no e ↦ inr (e, ground (arith, step, e, found))
      ]

  old-below :
      (j : ℕ) (m : ProjectionActivationIntent)
      → find_intent j l ≡ some m
      → account m ≡ account made
      → m.witness_sequence < made.witness_sequence
  unfolding new_intent
  old-below j m found own =
      let bound = h.bounded j m found in
      let capped : m.witness_sequence
          ≤ or_zero (Dict.lookup String-discrete w.creator_account_id l.sequences) =
        rw (← own) bound in
      omega (arith, capped)

  numbered-stored :
      (j u : ℕ) (m n : ProjectionActivationIntent)
      → find_intent j stored ≡ some m
      → find_intent u stored ≡ some n
      → account m ≡ account n
      → m.witness_sequence ≡ n.witness_sequence
      → j ≡ u
  numbered-stored j u m n found there equal count = elim (arrived j m found) [
    | inl (j_is, m_is) ↦ elim (arrived u n there) [
      | inl (u_is, n_is) ↦ j_is ∙ sym u_is
      | inr (_, before) ↦
          let below = old-below u n before (sym equal ∙ ap account (sym m_is)) in
          let same_count : made.witness_sequence ≡ m.witness_sequence =
            ap (λ x. x.witness_sequence) m_is in
          absurd (omega (arith, below, count, same_count))
    ]
    | inr (_, old) ↦ elim (arrived u n there) [
      | inl (u_is, n_is) ↦
          let below = old-below j m old (equal ∙ ap account (sym n_is)) in
          let same_count : made.witness_sequence ≡ n.witness_sequence =
            ap (λ x. x.witness_sequence) n_is in
          absurd (omega (arith, below, count, same_count))
      | inr (_, before) ↦ h.numbered j u m n old before equal count
    ]
  ]

  exclusive-stored :
      is_busy w.creator_account_id l ≡ false
      → (j u : ℕ) (m n : ProjectionActivationIntent) → find_intent j stored ≡ some m
      → find_intent u stored ≡ some n
      → account m ≡ account n
      → m.state ≡ reserved
      → n.state ≡ reserved
      → j ≡ u
  unfolding new_intent
  exclusive-stored free j u m n found there equal one two = elim (arrived j m found) [
    | inl (j_is, m_is) ↦ elim (arrived u n there) [
      | inl (u_is, n_is) ↦ j_is ∙ sym u_is
      | inr (_, before) ↦ absurd (
          free-reserved l u n w.creator_account_id free before (sym equal ∙ ap account (sym m_is))
            two)
    ]
    | inr (_, old) ↦ elim (arrived u n there) [
      | inl (u_is, n_is) ↦
          absurd
            (free-reserved l j m w.creator_account_id free old (equal ∙ ap account (sym n_is)) one)
      | inr (_, before) ↦ h.exclusive j u m n old before equal one two
    ]
  ]

  added-IsLedger :
      find_generation w.generation_id l ≡ none
      → is_busy w.creator_account_id l ≡ false
      → IsLedger stored
  unfolding find_intent store_new new_intent
  added-IsLedger absent free = record {
    keyed = λ j m found.
        let step = lookup-insert String-discrete (generation m) w.generation_id k l.by_generation in
        elim (arrived j m found) [
          | inl (j_is, m_is) ↦
              let gen : w.generation_id ≡ generation m = ap generation m_is in
              (sym (ap (λ x. x.intent_id) m_is) ∙ sym j_is, ground (arith, step, gen, j_is))
          | inr (_, old) ↦
              let (id, gen) = h.keyed j m old in (id, ground (arith, step, gen, absent))
        ];
    indexed = λ g j found.
        let step = lookup-insert String-discrete g w.generation_id k l.by_generation in
        let kept = lookup-insert ℕ_discrete j k made l.intents in
        elim (String-discrete g w.generation_id) [
          | yes e ↦
              let here : Path (Option ℕ) (some k) (some j) = ground (arith, step, e, found) in
              let j_is : k ≡ j = cc in (made, ground (arith, kept, j_is), sym e)
          | no e ↦
              let (m, there, gen) = h.indexed g j (ground (arith, step, e, found)) in
              (m, ground (arith, kept, there, fresh), gen)
        ];
    bounded = λ j m found.
        let step =
          lookup-insert String-discrete (account m) w.creator_account_id made.witness_sequence
            l.sequences in
        elim (arrived j m found) [
          | inl (j_is, m_is) ↦
              let own : w.creator_account_id ≡ account m = ap account m_is in
              let count : made.witness_sequence ≡ m.witness_sequence =
                ap (λ x. x.witness_sequence) m_is in
              ground (arith, step, own, count)
          | inr (_, old) ↦ elim (String-discrete (account m) w.creator_account_id) [
            | yes own ↦ let below = old-below j m old own in ground (arith, step, own, below)
            | no other ↦ let bound = h.bounded j m old in ground (arith, step, other, bound)
          ]
        ];
    numbered = numbered-stored;
    exclusive = exclusive-stored free;
  }

Change-IsLedger : (l l' : Ledger) → Change l l' → IsLedger l → IsLedger l'
unfolding save_epoch find_intent
Change-IsLedger l l' nothing h = h
Change-IsLedger l l' (epoch e entry allowed) h = record {
  keyed = h.keyed;
  indexed = h.indexed;
  bounded = h.bounded;
  numbered = h.numbered;
  exclusive = h.exclusive;
}
Change-IsLedger l l' (moved k i i' at moves) h = Moved-IsLedger l k i i' h at moves
Change-IsLedger l l' (added k now w fresh absent free) h =
    added-IsLedger l k now w h fresh absent free

new-IsLedger : IsLedger new_ledger
unfolding find_intent Dict.lookup
new-IsLedger = record {
  keyed = λ k i found. cc;
  indexed = λ g k found. cc;
  bounded = λ k i found. cc;
  numbered = λ j k i m found there equal count. cc;
  exclusive = λ j k i m found there equal one two. cc;
}

pub Follows-IsLedger :
    (account_ref : String → String) (l l' : Ledger)
    → Follows account_ref l l'
    → IsLedger l
    → IsLedger l'
Follows-IsLedger account_ref l l' same h = h
Follows-IsLedger account_ref l l' (later {m = m} before step) h =
    Change-IsLedger m l' (Step-Change account_ref m l' step)
      (Follows-IsLedger account_ref l m before h)

-- Whatever calls are made of the empty ledger, in any order, each intent stands under its id and
-- its generation, each generation has one intent at most, the intents of an account have different
-- sequence numbers, and at most one of them is reserved at a time.
pub Reach-IsLedger : (account_ref : String → String) (l : Ledger) → Reach account_ref l → IsLedger l
Reach-IsLedger account_ref l reach = Follows-IsLedger account_ref new_ledger l reach new-IsLedger
