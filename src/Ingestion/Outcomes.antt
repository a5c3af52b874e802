-- ===== src/Ingestion/Outcomes.antt =====
-- What every call of the two ingestion handlers does to a valid repository.
use onlyfans_conversational.Prelude.{
  ℕ, ℕ_discrete, ◌+◌, ◌≤◌, String, String-discrete, Option, none, some, ◌≡◌, ◌≢◌, refl, sym, ◌∙◌,
  ite, arith, ok, inl, inr, Ensures-ok,
}
use onlyfans_conversational.Prelude.Dict
use onlyfans_conversational.Prelude.Dict.{Dict, lookup-insert, lookup-insert_self}
use onlyfans_conversational.Ingestion.Types.{
  StreamKey, StreamKey-discrete, RawChat, RawMessage, RawStreamState, Status, accepted, duplicate,
  gap, rejected, CommitOutcome, SnapshotPayload, DeltaPayload, Fingerprints, StateDelta,
  AccountReadModel,
}
use onlyfans_conversational.Ingestion.RawChange.{validated_snapshot, apply_raw_change}
use onlyfans_conversational.Ingestion.Contents.{validated_snapshot-values}
use onlyfans_conversational.Ingestion.Repository
use onlyfans_conversational.Ingestion.Repository.{
  Repository, current_checkpoint, account_read_model,
}
use onlyfans_conversational.Ingestion.Projection.{project}
use onlyfans_conversational.Ingestion.Groups.{project-IsDistinct}
use onlyfans_conversational.Ingestion.Refinement.{
  changes_of, revision_step, conversations-replace_projection, replace_projection_refines,
}
use onlyfans_conversational.Ingestion.Deltas.{apply_changes}
use onlyfans_conversational.Ingestion.Invariant.{IsStream}
use onlyfans_conversational.Ingestion.Commits.{IsValid, stored, stored-IsValid, stream-IsStream}
use onlyfans_conversational.Ingestion.Replacements.{
  or_fresh-IsStream, snapshot_replacement-IsStream, delta_replacement-IsStream,
}
use onlyfans_conversational.Ingestion.Service.{
  or_fresh, accepted_outcome, snapshot_replacement, delta_replacement, ingest_snapshot,
  ingest_delta,
}
use onlyfans_conversational.Ingestion.Handlers.{
  projected, current, print, print_delta, ingest_snapshot-cases, store_snapshot-accepted,
  store_delta-accepted, ingest_delta-cases, FreshSnapshot, FreshDelta,
}

-- The stream's chats and messages are those of the snapshot and no others, in its order.
abbrev pub HoldsPayload : SnapshotPayload → RawStreamState → Type 0
HoldsPayload p s = (Dict.values s.chats ≡ p.chats) × (Dict.values s.messages ≡ p.messages)

-- The repository after an accepted call: only the stream and the account of `key` differ, the
-- stream stands at `n`, and the account's conversations are the stream's projection.
pub record Advanced (r r' : Repository) (key : StreamKey) (n : ℕ) : Type 0 where
  pub state : RawStreamState
  pub streams :
      (k : StreamKey)
      → Repository.stream r' k ≡ ite (StreamKey-discrete k key) (some state) (Repository.stream r k)
  pub checkpoint : state.checkpoint ≡ n
  pub conversations :
      (a : String)
      → (account_read_model r' a).conversations
        ≡ ite
            (String-discrete a key.creator_account_id)
            (project state)
            (account_read_model r a).conversations

stored-Advanced :
    (r : Repository) (key : StreamKey) (s : RawStreamState) (account : AccountReadModel)
    → account.conversations ≡ project s
    → Advanced r (stored r key s account) key s.checkpoint
unfolding Repository.stream account_read_model
stored-Advanced r key s account e = record {
  state = s;
  streams = λ k. lookup-insert StreamKey-discrete k key s r.streams;
  checkpoint = refl;
  conversations = λ a.
      ground (arith, lookup-insert String-discrete a key.creator_account_id account r.accounts);
}

-- The account's read model, before and after, as a Bridge sees it: one that applies the
-- broadcast changes to the old conversations holds the new ones, and the revision counts deltas.
pub record Broadcast (r r' : Repository) (account : String) (delta : Option StateDelta)
    : Type 0 where
  pub replayed :
      (k : String)
      → Dict.lookup String-discrete k
          (apply_changes (account_read_model r account).conversations (changes_of delta))
        ≡ Dict.lookup String-discrete k (account_read_model r' account).conversations
  pub revision :
      (account_read_model r' account).view_revision
      ≡ (account_read_model r account).view_revision + revision_step delta

pub stream-stored :
    (r : Repository) (key : StreamKey) (s : RawStreamState) (account : AccountReadModel)
    → Repository.stream (stored r key s account) key ≡ some s
unfolding Repository.stream
stream-stored r key s account = lookup-insert_self StreamKey-discrete key s r.streams

account-stored :
    (r : Repository) (key : StreamKey) (s : RawStreamState) (account : AccountReadModel)
    → account_read_model (stored r key s account) key.creator_account_id ≡ account
unfolding account_read_model
account-stored r key s account = ground (
  arith,
  lookup-insert String-discrete key.creator_account_id key.creator_account_id account r.accounts,
)

or_fresh-checkpoint : (o : Option RawStreamState) → (or_fresh o).checkpoint ≡ current_checkpoint o
or_fresh-checkpoint none = refl
or_fresh-checkpoint (some s) = refl

module _ (json : Fingerprints) (now : String) (r : Repository) (key : StreamKey) where
  stored-Broadcast :
      (s : RawStreamState)
      → Broadcast r
          (stored r key s (projected json now r key s).0)
          key.creator_account_id
          (projected json now r key s).1
  stored-Broadcast s =
      let creator = key.creator_account_id in
      let old = account_read_model r creator in
      let (refined, revised) = replace_projection_refines creator old now s in
      let new = projected json now r key s in
      let kept = account-stored r key s new.0 in
      record { replayed = λ k. rw kept (refined k); revision = rw kept revised }

  -- What an outcome says of the repository before and after.
  abbrev pub Outcome : ℕ → CommitOutcome → Repository → Status → Type 0
  Outcome target o r' accepted =
      Advanced r r' key target
      × Broadcast r r' key.creator_account_id o.state_delta
      × (current_checkpoint (Repository.stream r key) ≤ target)
      × (o.committed_source_seq ≡ target)
  Outcome target o r' _ =
      (r' ≡ r) × (o.committed_source_seq ≡ current_checkpoint (Repository.stream r key))

  -- An accepted replacement, in the terms of `Outcome`.
  accepted-Outcome :
      (s : RawStreamState) (id : Option ℕ)
      → current_checkpoint (Repository.stream r key) ≤ s.checkpoint
      → Outcome s.checkpoint
          (accepted_outcome s.checkpoint id (projected json now r key s).1)
          (stored r key s (projected json now r key s).0)
          accepted
  accepted-Outcome s id ahead = (
    stored-Advanced r key s (projected json now r key s).0 (
        conversations-replace_projection key.creator_account_id
          (account_read_model r key.creator_account_id) now s),
    stored-Broadcast s,
    ahead,
    refl,
  )

  projected-IsDistinct :
      (s : RawStreamState)
      → IsStream s
      → Dict.IsDistinct String-discrete (projected json now r key s).0.conversations
  projected-IsDistinct s h =
      rw
        (conversations-replace_projection key.creator_account_id
          (account_read_model r key.creator_account_id) now s)
        (project-IsDistinct s h.content.chats_distinct)

  refused-Outcome :
      (target : ℕ) (o : CommitOutcome) (status : Status)
      → o.committed_source_seq ≡ current_checkpoint (Repository.stream r key)
      → status ≢ accepted
      → Outcome target o r status
  refused-Outcome target o accepted at ne = absurd (ne refl)
  refused-Outcome target o duplicate at ne = (refl, at)
  refused-Outcome target o gap at ne = (refl, at)
  refused-Outcome target o rejected at ne = (refl, at)

  -- A snapshot that is handed on is stored.
  module _ (p : SnapshotPayload) where
    abbrev replacement : Dict String RawChat → Dict String RawMessage → RawStreamState
    replacement = snapshot_replacement (current json now r key p) p (print json now r key p)

    replacement-IsStream :
        (chats : Dict String RawChat) (messages : Dict String RawMessage)
        → IsValid r
        → (current json now r key p).checkpoint ≤ p.through_seq
        → validated_snapshot p.chats p.messages ≡ ok (chats, messages)
        → IsStream (replacement chats messages)
    replacement-IsStream chats messages v ahead valid =
        snapshot_replacement-IsStream (current json now r key p) p (print json now r key p) chats
          messages (or_fresh-IsStream (Repository.stream r key) (λ t. stream-IsStream r key t v))
          ahead valid

    pub fresh_snapshot-stored :
        IsValid r
        → FreshSnapshot json now r key p
        → (chats : Dict String RawChat) × (messages : Dict String RawMessage) × (ingest_snapshot
              json now r key p
            ≡ ok (
              accepted_outcome p.through_seq
                  (some p.snapshot_id)
                  (projected json now r key (replacement chats messages)).1,
              stored r key
                  (replacement chats messages)
                  (projected json now r key (replacement chats messages)).0,
            ))
          × IsStream (replacement chats messages)
          × ((current json now r key p).checkpoint ≤ p.through_seq)
          × HoldsPayload p (replacement chats messages)
    fresh_snapshot-stored v (chats, messages, new, ahead, valid, handed) =
        let h = replacement-IsStream chats messages v ahead valid in
        (
          chats,
          messages,
          handed
              ∙ store_snapshot-accepted json now r key (current json now r key p).checkpoint p
                  (replacement chats messages) v h.content.chats_distinct
                  (unfold Repository.stream in sym (or_fresh-checkpoint (Repository.stream r key)))
                  ahead,
          h,
          ahead,
          Ensures-ok (λ c. (Dict.values c.0 ≡ p.chats) × (Dict.values c.1 ≡ p.messages))
              (validated_snapshot p.chats p.messages) (chats, messages)
              (validated_snapshot-values p.chats p.messages) valid,
        )

  -- So is a delta.
  module _ (p : DeltaPayload) where
    abbrev extended : RawStreamState → RawStreamState
    extended changed = delta_replacement changed p (print_delta json now r key p)

    pub fresh_delta-stored :
        IsValid r
        → FreshDelta json now r key p
        → (changed : RawStreamState) × (ingest_delta json now r key p
            ≡ ok (
              accepted_outcome p.source_seq none (projected json now r key (extended changed)).1,
              stored r key (extended changed) (projected json now r key (extended changed)).0,
            ))
          × IsStream (extended changed)
          × (p.source_seq ≡ current_checkpoint (Repository.stream r key) + 1)
          × (t : RawStreamState) × (Repository.stream r key ≡ some t)
          × (Dict.lookup ℕ_discrete p.event_id t.events_by_id ≡ none)
          × (apply_raw_change t p.change ≡ ok changed)
    fresh_delta-stored v (t, changed, known, new, next, applies, handed) =
        let h =
          delta_replacement-IsStream t changed p (print_delta json now r key p)
            (stream-IsStream r key t v known) next applies in
        let at : current_checkpoint (Repository.stream r key) ≡ t.checkpoint = rw known in
        (
          changed,
          handed
              ∙ store_delta-accepted json now r key t.checkpoint p changed v
                  h.content.chats_distinct (unfold Repository.stream in at) next,
          h,
          rw at next,
          t,
          known,
          new,
          applies,
        )

  -- On a valid repository `ingest_snapshot` always answers, never with a gap, and leaves a valid
  -- repository. It accepts only a snapshot that is not behind the checkpoint; then the stream
  -- holds exactly the chats and messages of the snapshot and stands at its high-water mark, no other stream has changed, the account's
  -- conversations are the stream's projection, and a client that replays the broadcast delta
  -- holds them. A duplicate or a rejection changes nothing.
  pub ingest_snapshot-Outcome :
      (p : SnapshotPayload)
      → IsValid r
      → (o : CommitOutcome) × (r' : Repository) × (ingest_snapshot json now r key p ≡ ok (o, r'))
        × IsValid r'
        × (o.status ≢ gap)
        × (o.status ≡ accepted
            → (s : RawStreamState) × (Repository.stream r' key ≡ some s) × HoldsPayload p s)
        × Outcome p.through_seq o r' o.status
  ingest_snapshot-Outcome p v = elim (ingest_snapshot-cases json now r key p) [
    | inl (o, returned, why) ↦ (
      o,
      r,
      returned,
      v,
      ground arith,
      (λ e. absurd (ground arith)),
      refused-Outcome p.through_seq o o.status
          (why.0 ∙ or_fresh-checkpoint (Repository.stream r key)) (ground arith),
    )
    | inr fresh ↦
        let (chats, messages, stores, h, ahead, sent) = fresh_snapshot-stored p v fresh in
        let s = replacement p chats messages in
        (
          accepted_outcome p.through_seq (some p.snapshot_id) (projected json now r key s).1,
          stored r key s (projected json now r key s).0,
          stores,
          stored-IsValid r key s (projected json now r key s).0 v h (projected-IsDistinct s h),
          (λ e. cc),
          (λ e. (s, stream-stored r key s (projected json now r key s).0, sent)),
          accepted-Outcome s (some p.snapshot_id)
              (rw (← or_fresh-checkpoint (Repository.stream r key)) ahead),
        )
  ]

  -- On a valid repository `ingest_delta` always answers and leaves a valid repository. It accepts
  -- only the sequence right after the checkpoint of a known stream; then that stream stands there,
  -- no other stream has changed, the account's conversations are the stream's projection, and a
  -- client that replays the broadcast delta holds them. Any other answer changes nothing.
  pub ingest_delta-Outcome :
      (p : DeltaPayload)
      → IsValid r
      → (o : CommitOutcome) × (r' : Repository) × (ingest_delta json now r key p ≡ ok (o, r'))
        × IsValid r'
        × (o.status ≡ accepted
            → (s : RawStreamState) × (Repository.stream r key ≡ some s)
              × (p.source_seq ≡ s.checkpoint + 1))
        × Outcome p.source_seq o r' o.status
  ingest_delta-Outcome p v = elim (ingest_delta-cases json now r key p) [
    | inl (o, returned, at, ne) ↦
        (o, r, returned, v, (λ e. absurd (ne e)), refused-Outcome p.source_seq o o.status at ne)
    | inr fresh ↦
        let (changed, stores, h, next, before, known, new, applies) =
          fresh_delta-stored p v fresh in
        let s = extended p changed in
        (
          accepted_outcome p.source_seq none (projected json now r key s).1,
          stored r key s (projected json now r key s).0,
          stores,
          stored-IsValid r key s (projected json now r key s).0 v h (projected-IsDistinct s h),
          (λ e. (fresh.0, fresh.2, fresh.4)),
          accepted-Outcome s none (omega arith),
        )
  ]
