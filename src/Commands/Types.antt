-- ===== src/Commands/Types.antt =====
-- The data of app/services/command_execution.py, and of the action and the result payload that
-- it reads (app/protocol). A datetime is its number of microseconds, a UUID its number.
use onlyfans_conversational.Prelude.{ℕ, String, Option, List, Bool, Result}
use onlyfans_conversational.Prelude.Dict.{Dict}

pub data CommandState : Type 0 where
  issued accepted succeeded failed unknown : CommandState

pub State-discrete : Discrete CommandState
State-discrete = hlevel

pub data ResultStatus : Type 0 where
  accepted succeeded failed : ResultStatus

pub record CommandDeliveryTarget : Type 0 where
  pub connection_id : ℕ
  pub fencing_token : String
  pub creator_account_id : String

-- `MessageSendAction`; its type is always "message.send".
pub record MessageSendAction : Type 0 where
  pub conversation_id : String
  pub text : String
  pub media_url : Option String

-- What a caller passes as the action: no dict, or a dict with its "type" and its whole text.
pub data ActionInput : Type 0 where
  not_a_dict : ActionInput
  dict : Option String → String → ActionInput

-- A datetime argument, which may lack a timezone.
pub record Deadline : Type 0 where
  pub at : ℕ
  pub has_timezone : Bool

pub record CommandTransition : Type 0 where
  pub state : CommandState
  pub occurred_at : ℕ
  pub detail : Option String

pub record CommandResultRecord : Type 0 where
  pub result_id : ℕ
  pub status : ResultStatus
  pub completed_at : ℕ
  pub output : Option String
  pub error : Option String
  pub recorded_at : ℕ

pub record CommandResultReceipt : Type 0 where
  pub result_id : ℕ
  pub received_at : ℕ
  pub is_duplicate : Bool
  pub is_late : Bool

-- `action` is none for the `{}` of a result with no issued record.
pub record CommandRecord : Type 0 where
  pub command_id : ℕ
  pub creator_account_id : String
  pub action : Option MessageSendAction
  pub deadline : ℕ
  pub idempotency_policy : String
  pub issued_at : ℕ
  pub state : CommandState
  pub connection_id : Option ℕ
  pub fencing_token : Option String
  pub delivery_attempts : ℕ
  pub failure_reason : Option String
  pub result : Option CommandResultRecord
  pub result_apply_count : ℕ
  pub transitions : List CommandTransition
  pub receipts : List CommandResultReceipt

pub record RecordedResult : Type 0 where
  pub command_id : ℕ
  pub result_id : ℕ
  pub recorded_at : ℕ
  pub is_duplicate : Bool
  pub is_late : Bool

-- `CommandResultPayload`, as far as `record_result` reads it.
pub record ResultPayload : Type 0 where
  pub creator_account_id : String
  pub command_id : ℕ
  pub result_id : ℕ
  pub status : ResultStatus
  pub completed_at : ℕ
  pub output : Option String
  pub error : Option String

pub record ExecutePayload : Type 0 where
  pub connection_id : ℕ
  pub fencing_token : String
  pub creator_account_id : String
  pub command_id : ℕ
  pub deadline : ℕ
  pub idempotency_policy : String
  pub action : Option MessageSendAction

pub data CommandError : Type 0 where
  not_allow_listed invalid_action no_timezone policy_required : CommandError
  policy_forbids_reissue account_conflict lost_record : CommandError
  already_exists unknown_command : ℕ → CommandError
  not_reissuable : CommandState → CommandError

-- `InMemoryCommandRepository`: copies go in and come out, so no record is shared.
abbrev pub Repository : Type 0
Repository = Dict ℕ CommandRecord

-- The delivery, awaited: whether it raised, and the repository as other tasks leave it meanwhile.
abbrev pub CommandSender : Type 0
CommandSender = ExecutePayload → Repository → Bool × Repository

-- `MessageSendAction.model_validate` (pydantic) on the dict's text; none is a `ValidationError`.
abbrev pub Validator : Type 0
Validator = String → Option MessageSendAction

abbrev pub Raising : Type 0 → Type 0
Raising A = Result CommandError A
