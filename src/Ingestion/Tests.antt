-- ===== src/Ingestion/Tests.antt =====
-- Runs of the ingestion service, and an instance of each of its theorems.
use onlyfans_conversational.Prelude.{
  ◌+◌, String, String-discrete, ℕ_discrete, none, some, List, [], ◌∷◌, true, ◌≡◌, ◌≢◌, refl, ok,
  arith, holds, if◌then◌else◌,
}
use onlyfans_conversational.Prelude.Dict
use onlyfans_conversational.Prelude.Sorting
use onlyfans_conversational.Prelude.Dict.{Dict}
use onlyfans_conversational.Ingestion.Types.{
  StreamKey, StreamKey-discrete, Conversation-discrete, full, inbound, RawChat, RawMessage,
  chat_delete, RawStreamState, CommitOutcome, accepted, rejected, gap, SnapshotPayload,
  DeltaPayload, Fingerprints,
}
use onlyfans_conversational.Ingestion.RawChange.{apply_raw_change, validated_snapshot}
use onlyfans_conversational.Ingestion.Repository
use onlyfans_conversational.Ingestion.Repository.{
  Repository, CommitError, empty, empty_account, account_read_model, commit, commit_snapshot,
  commit_delta, current_checkpoint,
}
use onlyfans_conversational.Ingestion.Projection.{project, replace_projection}
use onlyfans_conversational.Ingestion.Groups.{conversation_spec, lookup-project, project-IsDistinct}
use onlyfans_conversational.Ingestion.Deltas.{apply_changes}
use onlyfans_conversational.Ingestion.Refinement.{
  changes_of, revision_step, replace_projection_refines,
}
use onlyfans_conversational.Ingestion.Invariant.{IsContent}
use onlyfans_conversational.Ingestion.Commits.{
  IsValid, empty-IsValid, stored, commit-replace_projection,
}
use onlyfans_conversational.Ingestion.Service.{
  ingest_snapshot, ingest_delta, store_snapshot, store_delta, fresh_stream, accepted_outcome,
}
use onlyfans_conversational.Ingestion.Outcomes.{
  HoldsPayload, Outcome, ingest_snapshot-Outcome, ingest_delta-Outcome,
}
use onlyfans_conversational.Ingestion.Resends.{resend_status, resend_snapshot, resend_delta}
use onlyfans_conversational.Ingestion.Histories.{
  Call, snapshot, delta, handle, run, Forward, run-Forward,
}

-- A stand-in for `json.dumps` that tells an empty snapshot from others and deletions apart.
abbrev json : Fingerprints
json = record {
  of_snapshot = λ n chats messages. elim chats [ [] ↦ "empty" | c ∷ cs ↦ c.chat_id ];
  of_delta = λ n change. elim change [ chat_delete k ↦ k | _ ↦ "upsert" ];
}

abbrev key : StreamKey
key = record { creator_account_id = "acct"; agent_installation_id = 1; agent_stream_id = 2 }

abbrev chat : RawChat
chat = record {
  record_kind = full;
  chat_id = "c1";
  platform_user_id = some "u1";
  display_name = some "Fan";
  updated_at = none;
}

abbrev message : RawMessage
message = record {
  message_id = "m1";
  chat_id = "c1";
  sender_platform_user_id = "u1";
  text = "hi";
  sent_at = "2026-01-01";
  direction = inbound;
}

abbrev snap : SnapshotPayload
snap = record { snapshot_id = 5; through_seq = 3; chats = chat ∷ []; messages = message ∷ [] }

abbrev drop_chat : DeltaPayload
drop_chat = record { event_id = 8; source_seq = 4; change = chat_delete "c1" }

-- A stream that stands at 3 with one chat and one message.
abbrev stream : RawStreamState
stream = record fresh_stream {
  checkpoint = 3;
  chats = ("c1", chat) ∷ [];
  messages = ("m1", message) ∷ [];
  snapshots_by_id = (5, record { snapshot_id = 5; through_seq = 3; fingerprint = "c1" }) ∷ [];
}

abbrev repo : Repository
repo = record {
  streams = (key, stream) ∷ [];
  accounts = ("acct", record { view_revision = 1; conversations = project stream }) ∷ [];
}

content : IsContent stream.chats stream.messages
unfolding Dict.lookup String-discrete
content = record {
  chats_distinct = (refl, tt);
  messages_distinct = (refl, tt);
  chats_named = (refl, tt);
  messages_placed = ((refl, refl), tt);
}

repo-IsValid : IsValid repo
repo-IsValid = record {
  streams = (
    record {
      content = content;
      sequenced = record {
        events_applied = tt;
        seqs_below = tt;
        snapshots_below = (omega arith, tt);
      };
    },
    tt,
  );
  accounts = (project-IsDistinct stream content.chats_distinct, tt);
}

ingest_snapshot_example :
    (o : CommitOutcome) × (r' : Repository) × (ingest_snapshot json "now" empty key snap
      ≡ ok (o, r'))
    × IsValid r'
    × (o.status ≢ gap)
    × (o.status ≡ accepted
        → (s : RawStreamState) × (Repository.stream r' key ≡ some s) × HoldsPayload snap s)
    × Outcome json "now" empty key 3 o r' o.status
ingest_snapshot_example = ingest_snapshot-Outcome json "now" empty key snap empty-IsValid

ingest_delta_example :
    (o : CommitOutcome) × (r' : Repository) × (ingest_delta json "now" repo key drop_chat
      ≡ ok (o, r'))
    × IsValid r'
    × (o.status ≡ accepted
        → (s : RawStreamState) × (Repository.stream repo key ≡ some s) × (4 ≡ s.checkpoint + 1))
    × Outcome json "now" repo key 4 o r' o.status
ingest_delta_example = ingest_delta-Outcome json "now" repo key drop_chat repo-IsValid

abbrev calls : List Call
calls = snapshot key "t1" snap ∷ delta key "t2" drop_chat ∷ []

run-Forward_example :
    (r' : Repository) × (run json empty calls ≡ ok r') × IsValid r' × Forward empty r'
run-Forward_example = run-Forward json empty calls empty-IsValid

abbrev first_outcome : CommitOutcome
first_outcome = accepted_outcome 3 (some 5) (replace_projection "acct" empty_account stream "now").1

first_snapshot : ingest_snapshot json "now" empty key snap ≡ ok (first_outcome, repo)
unfolding ingest_snapshot replace_projection account_read_model commit commit_snapshot project
    Dict.lookup Dict.insert validated_snapshot store_snapshot Repository.stream StreamKey-discrete
    Conversation-discrete String-discrete ℕ_discrete Sorting.sort
first_snapshot = refl

abbrev other_content : SnapshotPayload
other_content = record snap { chats = []; messages = [] }

abbrev after_drop : Repository
after_drop = record {
  streams =
      (
        key,
        record stream {
          checkpoint = 4;
          chats = [];
          messages = [];
          events_by_id =
              (
                8,
                record {
                  event_id = 8;
                  source_seq = 4;
                  fingerprint = "c1";
                  payload = some (chat_delete "c1");
                },
              )
              ∷ [];
          event_ids_by_seq = (4, 8) ∷ [];
        },
      )
      ∷ [];
  accounts = ("acct", record { view_revision = 2; conversations = [] }) ∷ [];
}

abbrev dropped_outcome : CommitOutcome
dropped_outcome =
    accepted_outcome 4 none
      (replace_projection "acct" (account_read_model repo "acct")
        (record stream { chats = []; messages = [] }) "now").1

dropped : ingest_delta json "now" repo key drop_chat ≡ ok (dropped_outcome, after_drop)
unfolding ingest_delta apply_raw_change replace_projection account_read_model commit commit_delta
    project Dict.lookup Dict.insert Dict.erase store_delta Repository.stream StreamKey-discrete
    Conversation-discrete String-discrete ℕ_discrete Sorting.sort
dropped = refl

abbrev drop_calls : List Call
drop_calls = delta key "now" drop_chat ∷ []

ran_drop : run json repo drop_calls ≡ ok after_drop
unfolding run handle
ran_drop = rw dropped refl

resend_snapshot_example :
    (o' : CommitOutcome) × (ingest_snapshot json "later" after_drop key other_content
      ≡ ok (o', after_drop))
    × (o'.status ≡ resend_status json "c1" "empty")
resend_snapshot_example =
    resend_snapshot json "now" "later" empty repo after_drop key snap other_content first_outcome
      drop_calls empty-IsValid first_snapshot refl ran_drop refl

resend_delta_example :
    (o' : CommitOutcome) × (ingest_delta json "later" after_drop key drop_chat
      ≡ ok (o', after_drop))
    × (o'.status ≡ (if holds (ℕ_discrete 4 4) then resend_status json "c1" "c1" else rejected))
unfolding run
resend_delta_example =
    resend_delta json "now" "later" repo after_drop after_drop key drop_chat drop_chat
      dropped_outcome [] repo-IsValid dropped refl refl refl

replace_projection_refines_example :
    ((k : String)
      → Dict.lookup String-discrete k
          (apply_changes [] (changes_of (replace_projection "acct" empty_account stream "now").1))
        ≡ Dict.lookup String-discrete k
            (replace_projection "acct" empty_account stream "now").0.conversations)
    × ((replace_projection "acct" empty_account stream "now").0.view_revision
        ≡ 0 + revision_step (replace_projection "acct" empty_account stream "now").1)
replace_projection_refines_example = replace_projection_refines "acct" empty_account "now" stream

lookup-project_example :
    Dict.lookup String-discrete "c1" (project stream)
    ≡ conversation_spec stream.messages "c1" (Dict.lookup String-discrete "c1" stream.chats)
lookup-project_example = lookup-project "c1" stream

at_three : current_checkpoint (Dict.lookup StreamKey-discrete key repo.streams) ≡ 3
unfolding Dict.lookup StreamKey-discrete String-discrete ℕ_discrete
at_three = refl

repo_conversations : Dict.IsDistinct String-discrete (account_read_model repo "acct").conversations
unfolding account_read_model Dict.lookup String-discrete
repo_conversations = project-IsDistinct stream content.chats_distinct

commit-replace_projection_example :
    commit repo key 3 stream
      (replace_projection "acct" (account_read_model repo "acct") stream "now").0
    ≡ (
      true,
      stored repo key stream
          (replace_projection "acct" (account_read_model repo "acct") stream "now").0,
    )
commit-replace_projection_example =
    commit-replace_projection repo key 3 stream "now" at_three content.chats_distinct
      repo_conversations
