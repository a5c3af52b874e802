-- ===== src/Ingestion/Handlers.antt =====
-- The two ingestion handlers: every branch, the invariant, and what each outcome means.
use onlyfans_conversational.Prelude.{
  ℕ, ◌+◌, ◌≤◌, String, String-discrete, ℕ_discrete, Option, none, some, not, holds, ltb, leb, ◌≡◌,
  ◌≢◌, refl, arith, ◌⊎◌, inl, inr, Option-cases, Bool-cases, Result-cases, ok, ◌||◌,
}
use onlyfans_conversational.Prelude.Dict
use onlyfans_conversational.Prelude.Dict.{Dict, lookup-insert}
use onlyfans_conversational.Ingestion.Types.{
  StreamKey, StreamKey-discrete, RawChat, RawMessage, RawStreamState, AccountReadModel, StateDelta,
  accepted, duplicate, rejected, CommitOutcome, SnapshotPayload, DeltaPayload, Fingerprints,
  snapshot_id_reused, high_water_behind, violated, snapshot_required, event_id_reused,
  expected_sequence,
}
use onlyfans_conversational.Ingestion.RawChange.{validated_snapshot, apply_raw_change}
use onlyfans_conversational.Ingestion.Repository
use onlyfans_conversational.Ingestion.Repository.{
  Repository, CommitError, account_read_model, current_checkpoint, commit_snapshot, commit_delta,
}
use onlyfans_conversational.Ingestion.Projection.{replace_projection}
use onlyfans_conversational.Ingestion.Commits.{
  IsValid, stored, account_read_model-IsDistinct, commit-replace_projection,
}
use onlyfans_conversational.Ingestion.Service.{
  or_fresh, accepted_outcome, duplicate_outcome, gap_outcome, covered_outcome, invariant_failure,
  snapshot_replacement, delta_replacement, store_snapshot, ingest_snapshot, store_delta,
  ingest_delta,
}

covered_outcome-refuses :
    (committed : ℕ) (o : Option ℕ) (event_id : ℕ)
    → ((covered_outcome committed o event_id).committed_source_seq ≡ committed)
      × ((covered_outcome committed o event_id).status ≢ accepted)
covered_outcome-refuses committed none event_id = (refl, λ e. cc)
covered_outcome-refuses committed (some previous) event_id = (ground arith, ground arith)

module _ (json : Fingerprints) (now : String) (r : Repository) (key : StreamKey) where
  -- The read model and the delta that a stored stream leads to.
  abbrev pub projected : RawStreamState → AccountReadModel × Option StateDelta
  projected s =
      replace_projection key.creator_account_id (account_read_model r key.creator_account_id) s now

  -- A replacement that does not fall behind is stored, and the answer says so.
  pub store_snapshot-accepted :
      (expected : ℕ) (p : SnapshotPayload) (s : RawStreamState)
      → IsValid r
      → Dict.IsDistinct String-discrete s.chats
      → current_checkpoint (Dict.lookup StreamKey-discrete key r.streams) ≡ expected
      → expected ≤ s.checkpoint
      → store_snapshot json now r key expected p s
        ≡ ok (
          accepted_outcome s.checkpoint (some p.snapshot_id) (projected s).1,
          stored r key s (projected s).0,
        )
  unfolding store_snapshot commit_snapshot
  store_snapshot-accepted expected p s v chats at ahead =
      let accepts =
        commit-replace_projection r key expected s now at chats
          (account_read_model-IsDistinct r key.creator_account_id v) in
      ground (arith, accepts)

  -- A replacement one past the checkpoint is stored, and the answer says so.
  pub store_delta-accepted :
      (expected : ℕ) (p : DeltaPayload) (changed : RawStreamState)
      → IsValid r
      → Dict.IsDistinct String-discrete changed.chats
      → current_checkpoint (Dict.lookup StreamKey-discrete key r.streams) ≡ expected
      → p.source_seq ≡ expected + 1
      → let s = delta_replacement changed p (json.of_delta p.source_seq p.change) in
        store_delta json now r key expected p changed
        ≡ ok (accepted_outcome p.source_seq none (projected s).1, stored r key s (projected s).0)
  unfolding store_delta commit_delta
  store_delta-accepted expected p changed v chats at next =
      let s = delta_replacement changed p (json.of_delta p.source_seq p.change) in
      let accepts =
        commit-replace_projection r key expected s now at chats
          (account_read_model-IsDistinct r key.creator_account_id v) in
      ground (arith, accepts)

  module _ (p : SnapshotPayload) where
    abbrev pub current : RawStreamState
    current = or_fresh (Repository.stream r key)

    abbrev pub print : String
    print = json.of_snapshot p.through_seq p.chats p.messages

    -- An answer that stores nothing, and names the checkpoint as it stands.
    abbrev pub IsRefusal : CommitOutcome → Type 0
    IsRefusal o =
        (o.committed_source_seq ≡ current.checkpoint)
        × ((o.status ≡ duplicate) ⊎ (o.status ≡ rejected))

    abbrev pub FreshSnapshot : Type 0
    FreshSnapshot =
        (chats : Dict String RawChat) × (messages : Dict String RawMessage) × (Dict.lookup
            ℕ_discrete p.snapshot_id current.snapshots_by_id
          ≡ none)
        × (current.checkpoint ≤ p.through_seq)
        × (validated_snapshot p.chats p.messages ≡ ok (chats, messages))
        × (ingest_snapshot json now r key p
            ≡ store_snapshot json now r key current.checkpoint p
                (snapshot_replacement current p print chats messages))

    -- Either nothing is stored, or the snapshot is new, ahead and valid, and is handed on.
    pub ingest_snapshot-cases :
        ((o : CommitOutcome) × (ingest_snapshot json now r key p ≡ ok (o, r)) × IsRefusal o)
        ⊎ FreshSnapshot
    unfolding ingest_snapshot
    ingest_snapshot-cases =
        elim (Option-cases (Dict.lookup ℕ_discrete p.snapshot_id current.snapshots_by_id)) [
          | inr (previous, known) ↦
              elim (Bool-cases (holds (String-discrete previous.fingerprint print))) [
                | inl same ↦ inl (
                  duplicate_outcome current.checkpoint (some p.snapshot_id),
                  ground arith,
                  (refl, inl refl),
                )
                | inr other ↦ inl (
                  invariant_failure current.checkpoint (some p.snapshot_id) snapshot_id_reused,
                  ground arith,
                  (refl, inr refl),
                )
              ]
          | inl new ↦ elim (Bool-cases (ltb p.through_seq current.checkpoint)) [
            | inl behind ↦ inl (
              invariant_failure current.checkpoint (some p.snapshot_id) high_water_behind,
              ground arith,
              (refl, inr refl),
            )
            | inr ahead ↦ elim (Result-cases (validated_snapshot p.chats p.messages)) [
              | inr (v, invalid) ↦ inl (
                invariant_failure current.checkpoint (some p.snapshot_id) (violated v),
                ground arith,
                (refl, inr refl),
              )
              | inl (content, valid) ↦
                  inr (content.0, content.1, new, ground arith, valid, ground arith)
            ]
          ]
        ]

  module _ (p : DeltaPayload) where
    abbrev pub print_delta : String
    print_delta = json.of_delta p.source_seq p.change

    -- The event is new and next, and its change applies to the stored stream.
    abbrev pub FreshDelta : Type 0
    FreshDelta =
        (s : RawStreamState) × (changed : RawStreamState) × (Repository.stream r key ≡ some s)
        × (Dict.lookup ℕ_discrete p.event_id s.events_by_id ≡ none)
        × (p.source_seq ≡ s.checkpoint + 1)
        × (apply_raw_change s p.change ≡ ok changed)
        × (ingest_delta json now r key p ≡ store_delta json now r key s.checkpoint p changed)

    abbrev pub RefusedDelta : Type 0
    RefusedDelta =
        (o : CommitOutcome) × (ingest_delta json now r key p ≡ ok (o, r))
        × (o.committed_source_seq ≡ current_checkpoint (Repository.stream r key))
        × (o.status ≢ accepted)

    -- Either nothing is stored, or the event is new, next and applicable, and is handed on.
    pub ingest_delta-cases : RefusedDelta ⊎ FreshDelta
    unfolding ingest_delta
    ingest_delta-cases = elim (Option-cases (Repository.stream r key)) [
      | inl unknown ↦
          inl (gap_outcome 0 none snapshot_required, ground arith, ground arith, λ e. cc)
      | inr (s, known) ↦ elim (Option-cases (Dict.lookup ℕ_discrete p.event_id s.events_by_id)) [
        | inr (previous, seen) ↦
            elim (Bool-cases (
              not (holds (ℕ_discrete previous.source_seq p.source_seq))
              || not (holds (String-discrete previous.fingerprint print_delta)))) [
                | inl other ↦ inl (
                  invariant_failure s.checkpoint none event_id_reused,
                  rw (ingest_delta, known, seen, other),
                  ground arith,
                  λ e. cc,
                )
                | inr same ↦ inl (
                  duplicate_outcome s.checkpoint none,
                  rw (ingest_delta, known, seen, same),
                  ground arith,
                  λ e. cc,
                )
              ]
        | inl new ↦ elim (Bool-cases (leb p.source_seq s.checkpoint)) [
          | inl below ↦
              let seq_event = Dict.lookup ℕ_discrete p.source_seq s.event_ids_by_seq in
              let covered = covered_outcome-refuses s.checkpoint seq_event p.event_id in
              inl (
                covered_outcome s.checkpoint seq_event p.event_id,
                ground arith,
                ground (arith, covered.0),
                covered.1,
              )
          | inr ahead ↦ elim (Bool-cases (holds (ℕ_discrete p.source_seq (s.checkpoint + 1)))) [
            | inr skips ↦ inl (
              gap_outcome s.checkpoint none (expected_sequence (s.checkpoint + 1)),
              ground arith,
              ground arith,
              λ e. cc,
            )
            | inl next ↦ elim (Result-cases (apply_raw_change s p.change)) [
              | inr (v, invalid) ↦ inl (
                invariant_failure s.checkpoint none (violated v),
                ground arith,
                ground arith,
                λ e. cc,
              )
              | inl (changed, applies) ↦
                  inr (s, changed, known, new, ground arith, applies, ground arith)
            ]
          ]
        ]
      ]
    ]
