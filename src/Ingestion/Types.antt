-- ===== src/Ingestion/Types.antt =====
-- The data of app/transport/ingestion.py, and of the payloads that it reads
-- (app/protocol/common.py). A UUID is its 128-bit number, a timestamp its ISO text.
use onlyfans_conversational.Prelude.{ℕ, String, String-discrete, ℕ_discrete, Option, List, Bool}
use onlyfans_conversational.Prelude.Dict.{Dict}

pub record StreamKey : Type 0 where
  pub creator_account_id : String
  pub agent_installation_id : ℕ
  pub agent_stream_id : ℕ

unfoldable pub StreamKey-discrete : Discrete StreamKey
unfolding String-discrete ℕ_discrete
StreamKey-discrete = hlevel (String-discrete, ℕ_discrete)

pub data RecordKind : Type 0 where
  placeholder full : RecordKind

pub record RawChat : Type 0 where
  pub record_kind : RecordKind
  pub chat_id : String
  pub platform_user_id : Option String
  pub display_name : Option String
  pub updated_at : Option String

pub data Direction : Type 0 where
  inbound outbound : Direction

pub record RawMessage : Type 0 where
  pub message_id : String
  pub chat_id : String
  pub sender_platform_user_id : String
  pub text : String
  pub sent_at : String
  pub direction : Direction

-- The evidence of a coverage change is its JSON text: ingestion only stores it.
pub data RawChange : Type 0 where
  chat_upsert : RawChat → RawChange
  chat_delete : String → RawChange
  message_upsert : RawMessage → RawChange
  message_delete : String → String → RawChange
  coverage_observed : String → RawChange

pub record StoredEvent : Type 0 where
  pub event_id : ℕ
  pub source_seq : ℕ
  pub fingerprint : String
  pub payload : Option RawChange

pub record StoredSnapshot : Type 0 where
  pub snapshot_id : ℕ
  pub through_seq : ℕ
  pub fingerprint : String

pub record RawStreamState : Type 0 where
  pub checkpoint : ℕ
  pub chats : Dict String RawChat
  pub messages : Dict String RawMessage
  pub events_by_id : Dict ℕ StoredEvent
  pub event_ids_by_seq : Dict ℕ ℕ
  pub snapshots_by_id : Dict ℕ StoredSnapshot

pub data Sentiment : Type 0 where
  positive neutral negative unknown : Sentiment

pub record MessageView : Type 0 where
  pub message_id : String
  pub text : String
  pub sent_at : String
  pub direction : Direction
  pub sentiment : Sentiment

pub record Conversation : Type 0 where
  pub conversation_id : String
  pub platform_user_id : Option String
  pub display_name : Option String
  pub unread_count : ℕ
  pub last_message_at : Option String
  pub messages : List MessageView

unfoldable pub Conversation-discrete : Discrete Conversation
unfolding String-discrete ℕ_discrete
Conversation-discrete = hlevel (String-discrete, ℕ_discrete)

pub record AccountReadModel : Type 0 where
  pub view_revision : ℕ
  pub conversations : Dict String Conversation

-- The text of an `InvariantViolation`, with the values that it is formatted from.
pub data Violation : Type 0 where
  duplicate_chat_id duplicate_message_id message_unknown_chat : String → Violation
  deletion_unknown_chat deletion_conflict unsupported_change : Violation

pub data Detail : Type 0 where
  snapshot_id_reused high_water_behind checkpoint_changed snapshot_required : Detail
  event_id_reused source_seq_taken : Detail
  expected_sequence : ℕ → Detail
  violated : Violation → Detail

pub data Status : Type 0 where
  accepted duplicate gap rejected : Status

pub data Code : Type 0 where
  sequence_gap invariant_failed : Code

pub data StateChange : Type 0 where
  conversation_delete : String → StateChange
  conversation_upsert : Conversation → StateChange

pub record StateDelta : Type 0 where
  pub creator_account_id : String
  pub view_revision : ℕ
  pub committed_at : String
  pub changes : List StateChange

pub record CommitOutcome : Type 0 where
  pub status : Status
  pub committed_source_seq : ℕ
  pub snapshot_id : Option ℕ
  pub code : Option Code
  pub retryable : Bool
  pub detail : Option Detail
  pub state_delta : Option StateDelta

pub record SnapshotPayload : Type 0 where
  pub snapshot_id : ℕ
  pub through_seq : ℕ
  pub chats : List RawChat
  pub messages : List RawMessage

pub record DeltaPayload : Type 0 where
  pub event_id : ℕ
  pub source_seq : ℕ
  pub change : RawChange

-- `json.dumps` of the dict that `_fingerprint` is given: the standard library's, so a parameter.
pub record Fingerprints : Type 0 where
  pub of_snapshot : ℕ → List RawChat → List RawMessage → String
  pub of_delta : ℕ → RawChange → String
