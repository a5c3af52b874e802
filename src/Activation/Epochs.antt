-- ===== src/Activation/Epochs.antt =====
-- A revoked publication epoch (app/persistence/projection_activation.py) stays revoked.
use onlyfans_conversational.Prelude.{
  ℕ, String, String-discrete, Option, none, some, false, ◌≡◌, ◌≢◌, refl, inl, inr, not, holds,
  if-cases, Bool-cases, arith, ok,
}
use onlyfans_conversational.Prelude.Dict
use onlyfans_conversational.Prelude.Dict.{lookup-insert, lookup-insert_self}
use onlyfans_conversational.Activation.Types.{
  ActivationIdentity, reserved, ProjectionActivationIntent, PublicationEpoch, Ledger,
  same_completion,
}
use onlyfans_conversational.Activation.Ledger.{
  IdentityReader, Answer, save_epoch, is_owned, revoke_found, revoke_publication_epoch,
  publication_epoch_is_open, find_intent, save_intent, is_epoch_open, store_new, reserve_new,
  reserve, complete_in, complete_found, complete_reserved, complete,
}
use onlyfans_conversational.Activation.Steps.{Follows, same, later}
use onlyfans_conversational.Activation.Changes.{Change, nothing, epoch, moved, added, Step-Change}

-- The epoch's entry is closed.
abbrev IsRevoked : String → Ledger → Type 0
IsRevoked e l =
    (entry : PublicationEpoch) × (Dict.lookup String-discrete e l.epochs ≡ some entry)
    × (entry.is_open ≡ false)

Change-IsRevoked : (e : String) (l l' : Ledger) → Change l l' → IsRevoked e l → IsRevoked e l'
unfolding save_epoch save_intent store_new
Change-IsRevoked e l l' nothing h = h
Change-IsRevoked e l l' (moved k i i' at moves) h = h
Change-IsRevoked e l l' (added k now w fresh absent free) h = h
Change-IsRevoked e l l' (epoch f written allowed) (entry, found, shut) =
    elim (String-discrete e f) [
      | no other ↦ (
        entry,
        ground (arith, lookup-insert String-discrete e f written l.epochs, found, other),
        shut,
      )
      | yes equal ↦ elim allowed [
        | inl absent ↦ absurd (ground (arith, absent, found, equal))
        | inr closed ↦ (
          written,
          ground (arith, lookup-insert String-discrete e f written l.epochs, equal),
          closed,
        )
      ]
    ]

Follows-IsRevoked :
    (account_ref : String → String) (e : String) (l l' : Ledger)
    → Follows account_ref l l'
    → IsRevoked e l
    → IsRevoked e l'
Follows-IsRevoked account_ref e l l' same h = h
Follows-IsRevoked account_ref e l l' (later {m = m} before step) h =
    Change-IsRevoked e m l' (Step-Change account_ref m l' step)
      (Follows-IsRevoked account_ref e l m before h)

revoke_found-IsRevoked :
    (o : Option PublicationEpoch) (e owner digest : String) (l : Ledger)
    → (revoke_found o e owner digest l).0 ≡ ok tt
    → IsRevoked e (revoke_found o e owner digest l).1
unfolding save_epoch
revoke_found-IsRevoked none e owner digest l done = cc
revoke_found-IsRevoked (some entry) e owner digest l done =
    elim (Bool-cases (is_owned entry owner digest)) [
      | inl own ↦ rw own (_, lookup-insert_self String-discrete e _ l.epochs, refl)
      | inr foreign ↦ absurd (ground (arith, foreign, done))
    ]

revoke-IsRevoked :
    (e owner digest : String) (l : Ledger)
    → (revoke_publication_epoch e owner digest l).0 ≡ ok tt
    → IsRevoked e (revoke_publication_epoch e owner digest l).1
unfolding revoke_publication_epoch
revoke-IsRevoked e owner digest l done = revoke_found-IsRevoked _ e owner digest l done

is_open-revoked :
    (e digest : String) (l : Ledger) → IsRevoked e l → publication_epoch_is_open e digest l ≡ false
unfolding publication_epoch_is_open
is_open-revoked e digest l (entry, found, shut) = ground (arith, found, shut)

-- Nothing is published in the epoch any more.
pub record IsBarred (account_ref : String → String) (e : String) (l : Ledger) : Type 0 where
  pub closed : (digest : String) → publication_epoch_is_open e digest l ≡ false
  pub reservation :
      (identity : IdentityReader) (k now : ℕ) (w : ActivationIdentity)
      (i : ProjectionActivationIntent)
      → w.publication_epoch ≡ e
      → Dict.lookup String-discrete w.generation_id l.by_generation ≡ none
      → (reserve account_ref identity k now w l).0 ≢ ok i
  pub completion :
      (identity : IdentityReader) (now : ℕ) (expected i done : ProjectionActivationIntent)
      → find_intent expected.intent_id l ≡ some i
      → i.state ≡ reserved
      → i.identity.publication_epoch ≡ e
      → (complete identity now expected l).0 ≢ ok done

abbrev Fails : {A : Type 0} → Answer A → Type 0
Fails {A = A} answer = (a : A) → answer.0 ≢ ok a

reserve-Fails :
    (account_ref : String → String) (l : Ledger) (identity : IdentityReader) (k now : ℕ)
    (w : ActivationIdentity)
    → is_epoch_open w l ≡ false
    → Dict.lookup String-discrete w.generation_id l.by_generation ≡ none
    → Fails (reserve account_ref identity k now w l)
unfolding reserve reserve_new
reserve-Fails account_ref l identity k now w shut absent =
    if-cases Fails (not (holds (String-discrete w.account_ref (account_ref w.creator_account_id))))
      _ _ (λ _ i e. cc) (λ _ i. rw (absent, shut) (λ e. cc))

complete_found-Fails :
    (l : Ledger) (identity : IdentityReader) (now : ℕ) (expected i : ProjectionActivationIntent)
    → is_epoch_open i.identity l ≡ false
    → i.state ≡ reserved
    → Fails (complete_found (some i) identity now expected l)
complete_found-Fails l identity now expected i shut is =
    if-cases Fails (same_completion i expected) _ _
      (λ _ done.
        let step : complete_in i.state identity now i l ≡ complete_reserved identity now i l =
          rw is refl in
        rw step (rw shut (λ e. cc)))
      (λ _ done e. cc)

-- Once a publication epoch was revoked, then whatever calls follow, it is open for no capability,
-- no generation without an intent is reserved in it, and no reserved intent of it is completed.
pub Follows-IsBarred :
    (account_ref : String → String) (e owner digest : String) (l l' : Ledger)
    → (revoke_publication_epoch e owner digest l).0 ≡ ok tt
    → Follows account_ref (revoke_publication_epoch e owner digest l).1 l'
    → IsBarred account_ref e l'
unfolding complete
Follows-IsBarred account_ref e owner digest l l' done follows =
    let revoked =
      Follows-IsRevoked account_ref e _ l' follows (revoke-IsRevoked e owner digest l done) in
    record {
      closed = λ capability. is_open-revoked e capability l' revoked;
      reservation = λ identity k now w i in_epoch absent.
          reserve-Fails account_ref l' identity k now w
            (rw in_epoch (is_open-revoked e w.publication_capability_digest l' revoked)) absent i;
      completion = λ identity now expected i result found is in_epoch. rw found (
          complete_found-Fails l' identity now expected i
            (rw in_epoch (is_open-revoked e i.identity.publication_capability_digest l' revoked)) is
            result);
    }
