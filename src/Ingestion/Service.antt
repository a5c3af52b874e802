-- ===== src/Ingestion/Service.antt =====
-- `IngestionService` of app/transport/ingestion.py. No handler awaits inside its lock, so each
-- is one step on the repository. `now` is the clock's ISO text.
use onlyfans_conversational.Prelude.{
  ℕ, ◌+◌, String, String-discrete, ℕ_discrete, Option, none, some, List, [], ◌∷◌, Result, ok, err,
  Bool, true, false, ◌||◌, not, holds, ltb, leb, if◌then◌else◌,
}
use onlyfans_conversational.Prelude.Dict
use onlyfans_conversational.Prelude.Dict.{Dict}
use onlyfans_conversational.Prelude.Sorting
use onlyfans_conversational.Ingestion.Types.{
  StreamKey, RawChat, RawMessage, RawStreamState, CommitOutcome, Detail, snapshot_id_reused,
  high_water_behind, checkpoint_changed, snapshot_required, event_id_reused, source_seq_taken,
  expected_sequence, violated, accepted, duplicate, gap, rejected, sequence_gap, invariant_failed,
  StateDelta, Conversation, SnapshotPayload, DeltaPayload, Fingerprints,
}
use onlyfans_conversational.Ingestion.RawChange.{validated_snapshot, apply_raw_change}
use onlyfans_conversational.Ingestion.Repository
use onlyfans_conversational.Ingestion.Repository.{
  Repository, CommitError, account_read_model, commit_snapshot, commit_delta,
}
use onlyfans_conversational.Ingestion.Projection.{replace_projection, text_le}

-- `RawStreamState()`
abbrev pub fresh_stream : RawStreamState
fresh_stream = record {
  checkpoint = 0;
  chats = [];
  messages = [];
  events_by_id = [];
  event_ids_by_seq = [];
  snapshots_by_id = [];
}

abbrev pub accepted_outcome : ℕ → Option ℕ → Option StateDelta → CommitOutcome
accepted_outcome committed snapshot_id delta = record {
  status = accepted;
  committed_source_seq = committed;
  snapshot_id = snapshot_id;
  code = none;
  retryable = false;
  detail = none;
  state_delta = delta;
}

abbrev pub duplicate_outcome : ℕ → Option ℕ → CommitOutcome
duplicate_outcome committed snapshot_id = record {
  status = duplicate;
  committed_source_seq = committed;
  snapshot_id = snapshot_id;
  code = none;
  retryable = false;
  detail = none;
  state_delta = none;
}

abbrev pub gap_outcome : ℕ → Option ℕ → Detail → CommitOutcome
gap_outcome committed snapshot_id detail = record {
  status = gap;
  committed_source_seq = committed;
  snapshot_id = snapshot_id;
  code = some sequence_gap;
  retryable = true;
  detail = some detail;
  state_delta = none;
}

-- `_invariant_failure`
abbrev pub invariant_failure : ℕ → Option ℕ → Detail → CommitOutcome
invariant_failure committed snapshot_id detail = record {
  status = rejected;
  committed_source_seq = committed;
  snapshot_id = snapshot_id;
  code = some invariant_failed;
  retryable = false;
  detail = some detail;
  state_delta = none;
}

abbrev pub Ingested : Type 0
Ingested = Result CommitError (CommitOutcome × Repository)

-- `self.repository.checkpoint(key) or 0`
abbrev pub checkpoint_or_zero : Option ℕ → ℕ
checkpoint_or_zero none = 0
checkpoint_or_zero (some n) = n

abbrev pub or_fresh : Option RawStreamState → RawStreamState
or_fresh none = fresh_stream
or_fresh (some s) = s

-- The last `if` of both handlers: what the answer of the repository's commit becomes.
abbrev pub conclude :
    StreamKey
    → CommitOutcome
    → Option ℕ
    → Detail
    → Result CommitError (Bool × Repository)
    → Ingested
conclude key done snapshot_id detail (err e) = err e
conclude key done snapshot_id detail (ok (true, r)) = ok (done, r)
conclude key done snapshot_id detail (ok (false, r)) =
    ok (gap_outcome (checkpoint_or_zero (Repository.checkpoint r key)) snapshot_id detail, r)

-- A sequence at or below the checkpoint: only another event's own sequence is an error.
abbrev pub covered_outcome : ℕ → Option ℕ → ℕ → CommitOutcome
covered_outcome committed none event_id = duplicate_outcome committed none
covered_outcome committed (some previous) event_id =
    if not (holds (ℕ_discrete previous event_id))
    then invariant_failure committed none source_seq_taken
    else duplicate_outcome committed none

-- The stream that an accepted snapshot leaves.
abbrev pub snapshot_replacement :
    RawStreamState
    → SnapshotPayload
    → String
    → Dict String RawChat
    → Dict String RawMessage
    → RawStreamState
snapshot_replacement current payload fingerprint chats messages = record current {
  checkpoint = payload.through_seq;
  chats = chats;
  messages = messages;
  snapshots_by_id =
      Dict.insert ℕ_discrete payload.snapshot_id
        (record {
          snapshot_id = payload.snapshot_id;
          through_seq = payload.through_seq;
          fingerprint = fingerprint;
        })
        current.snapshots_by_id;
}

-- The stream that an accepted delta leaves, from the copy that the change was applied to.
abbrev pub delta_replacement : RawStreamState → DeltaPayload → String → RawStreamState
delta_replacement changed payload fingerprint = record changed {
  checkpoint = payload.source_seq;
  events_by_id =
      Dict.insert ℕ_discrete payload.event_id
        (record {
          event_id = payload.event_id;
          source_seq = payload.source_seq;
          fingerprint = fingerprint;
          payload = some payload.change;
        })
        changed.events_by_id;
  event_ids_by_seq =
      Dict.insert ℕ_discrete payload.source_seq payload.event_id changed.event_ids_by_seq;
}

module _ (json : Fingerprints) (now : String) where
  -- `ingest_snapshot` once the snapshot is new and validated: `replacement` is stored.
  unfoldable pub store_snapshot :
      Repository → StreamKey → ℕ → SnapshotPayload → RawStreamState → Ingested
  unfolding replace_projection account_read_model commit_snapshot
  store_snapshot r key expected payload replacement =
      let (account, delta) =
        replace_projection key.creator_account_id (account_read_model r key.creator_account_id)
          replacement now in
      conclude key (accepted_outcome replacement.checkpoint (some payload.snapshot_id) delta)
        (some payload.snapshot_id) checkpoint_changed
        (commit_snapshot r key expected replacement account)

  unfoldable pub ingest_snapshot : Repository → StreamKey → SnapshotPayload → Ingested
  unfolding store_snapshot validated_snapshot
  ingest_snapshot r key payload =
      let current = or_fresh (Repository.stream r key) in
      let fingerprint = json.of_snapshot payload.through_seq payload.chats payload.messages in
      let id = payload.snapshot_id in
      elim (Dict.lookup ℕ_discrete id current.snapshots_by_id) [
        | some previous ↦
            if not (holds (String-discrete previous.fingerprint fingerprint))
            then ok (invariant_failure current.checkpoint (some id) snapshot_id_reused, r)
            else ok (duplicate_outcome current.checkpoint (some id), r)
        | none ↦
            if ltb payload.through_seq current.checkpoint
            then ok (invariant_failure current.checkpoint (some id) high_water_behind, r)
            else elim (validated_snapshot payload.chats payload.messages) [
              | err v ↦ ok (invariant_failure current.checkpoint (some id) (violated v), r)
              | ok (chats, messages) ↦
                  store_snapshot r key current.checkpoint payload
                    (snapshot_replacement current payload fingerprint chats messages)
            ]
      ]

  -- `ingest_delta` once the change applies: `changed` is the copy that it was applied to.
  unfoldable pub store_delta : Repository → StreamKey → ℕ → DeltaPayload → RawStreamState → Ingested
  unfolding replace_projection account_read_model commit_delta
  store_delta r key expected payload changed =
      let replacement =
        delta_replacement changed payload (json.of_delta payload.source_seq payload.change) in
      let (account, delta) =
        replace_projection key.creator_account_id (account_read_model r key.creator_account_id)
          replacement now in
      conclude key (accepted_outcome replacement.checkpoint none delta) none
        (expected_sequence (expected + 1)) (commit_delta r key expected replacement account)

  unfoldable pub ingest_delta : Repository → StreamKey → DeltaPayload → Ingested
  unfolding store_delta apply_raw_change
  ingest_delta r key payload = elim (Repository.stream r key) [
    | none ↦ ok (gap_outcome 0 none snapshot_required, r)
    | some current ↦
        let fingerprint = json.of_delta payload.source_seq payload.change in
        elim (Dict.lookup ℕ_discrete payload.event_id current.events_by_id) [
          | some previous ↦
              if not (holds (ℕ_discrete previous.source_seq payload.source_seq))
                || not (holds (String-discrete previous.fingerprint fingerprint))
              then ok (invariant_failure current.checkpoint none event_id_reused, r)
              else ok (duplicate_outcome current.checkpoint none, r)
          | none ↦
              if leb payload.source_seq current.checkpoint
              then ok (
                covered_outcome current.checkpoint
                    (Dict.lookup ℕ_discrete payload.source_seq current.event_ids_by_seq)
                    payload.event_id,
                r,
              )
              else if not (holds (ℕ_discrete payload.source_seq (current.checkpoint + 1)))
              then ok (
                gap_outcome current.checkpoint none (expected_sequence (current.checkpoint + 1)),
                r,
              )
              else elim (apply_raw_change current payload.change) [
                | err v ↦ ok (invariant_failure current.checkpoint none (violated v), r)
                | ok changed ↦ store_delta r key current.checkpoint payload changed
              ]
        ]
  ]

-- `state_snapshot_payload`: its analytics slice is always `ZERO_ANALYTICS`.
pub record StateSnapshot : Type 0 where
  pub creator_account_id : String
  pub view_revision : ℕ
  pub generated_at : String
  pub conversations : List Conversation

-- `[account.conversations[id] for id in ids]`, over ids that are keys.
unfoldable pub pick : List String → Dict String Conversation → List Conversation
pick [] conversations = []
pick (k ∷ ks) conversations =
    let rest = pick ks conversations in
    elim (Dict.lookup String-discrete k conversations) [ none ↦ rest | some c ↦ c ∷ rest ]

unfoldable pub state_snapshot_payload : Repository → String → String → StateSnapshot
unfolding pick
state_snapshot_payload r account_id now =
    let account = account_read_model r account_id in
    record {
      creator_account_id = account_id;
      view_revision = account.view_revision;
      generated_at = now;
      conversations =
          pick (Sorting.sort text_le (Dict.keys account.conversations)) account.conversations;
    }
