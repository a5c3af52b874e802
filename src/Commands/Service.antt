-- ===== src/Commands/Service.antt =====
-- `CommandService` of app/services/command_execution.py: issuing and redelivering.
use onlyfans_conversational.Prelude.{
  ℕ, ◌+◌, String, String-discrete, Option, none, some, [], ◌∷◌, ◌++◌, Bool, true, false, not, holds,
  leb, ok, err, ◌>>=◌, ◌>>◌, raise_if, if◌then◌else◌,
}
use onlyfans_conversational.Commands.Types.{
  CommandState, unknown, failed, CommandDeliveryTarget, MessageSendAction, ActionInput, not_a_dict,
  dict, Deadline, CommandRecord, ExecutePayload, not_allow_listed, invalid_action, no_timezone,
  policy_required, policy_forbids_reissue, lost_record, already_exists, unknown_command,
  not_reissuable, Repository, CommandSender, Validator, Raising,
}
use onlyfans_conversational.Commands.Repository.{get, save}

-- `detail if state in {"failed", "unknown"} else None`
abbrev pub reason_for : CommandState → Option String → Option String
reason_for CommandState.failed detail = detail
reason_for CommandState.unknown detail = detail
reason_for _ detail = none

unfoldable pub transition : CommandRecord → CommandState → ℕ → Option String → CommandRecord
transition c state occurred_at detail = record c {
  state = state;
  failure_reason = reason_for state detail;
  transitions =
      c.transitions ++ record { state = state; occurred_at = occurred_at; detail = detail } ∷ [];
}

unfoldable pub execute_payload : CommandRecord → CommandDeliveryTarget → ExecutePayload
execute_payload c target = record {
  connection_id = target.connection_id;
  fencing_token = target.fencing_token;
  creator_account_id = target.creator_account_id;
  command_id = c.command_id;
  deadline = c.deadline;
  idempotency_policy = c.idempotency_policy;
  action = c.action;
}

-- `_required`
unfoldable pub required : Repository → ℕ → Raising CommandRecord
unfolding get
required r command_id = elim (get r command_id) [
  | none ↦ err (unknown_command command_id)
  | some c ↦ ok c
]

-- `_save_and_get`
unfoldable pub save_and_get : Repository → CommandRecord → Raising (CommandRecord × Repository)
unfolding get save
save_and_get r c =
    let saved = save r c in
    elim (get saved c.command_id) [ none ↦ err lost_record | some found ↦ ok (found, saved) ]

abbrev pub or_invalid : Option MessageSendAction → Raising MessageSendAction
or_invalid none = err invalid_action
or_invalid (some a) = ok a

-- `action_type not in ALLOWED_COMMAND_ACTIONS`, the set of "message.send" alone.
abbrev pub allow_listed : Option String → Bool
allow_listed none = false
allow_listed (some action_type) = holds (String-discrete action_type "message.send")

unfoldable pub validate_action : Validator → ActionInput → Raising MessageSendAction
validate_action validator not_a_dict = err not_allow_listed
validate_action validator (dict action_type text) =
    if allow_listed action_type then or_invalid (validator text) else err not_allow_listed

unfoldable pub validate_deadline : Deadline → Raising (Unit {0})
validate_deadline d = raise_if (not d.has_timezone) no_timezone

abbrev pub is_some {ℓ} : {A : Type ℓ} → Option A → Bool
is_some none = false
is_some (some a) = true

-- The end of `issue` and `reissue`: what is saved, by how the delivery ended. The record is the
-- one built before the delivery was awaited; a sender raises an `Exception` or returns, and its task is
-- not cancelled. `later` is the clock after a failed delivery.
unfoldable pub after_delivery :
    CommandRecord → ℕ → Bool × Repository → Raising (CommandRecord × Repository)
after_delivery c later (raised, r) =
    save_and_get r (if raised then transition c failed later (some "delivery_failed") else c)

-- The tail that `issue` and `reissue` share, from the deadline test on; `attempts` is the count
-- that a delivery sets.
unfoldable pub deliver :
    Repository
    → CommandRecord
    → ℕ
    → Option CommandDeliveryTarget
    → Option CommandSender
    → String
    → ℕ
    → ℕ
    → Raising (CommandRecord × Repository)
deliver r c now none sender unavailable_reason attempts later =
    if leb c.deadline now
    then save_and_get r (transition c unknown now (some "deadline_expired"))
    else save_and_get r (transition c failed now (some unavailable_reason))
deliver r c now (some target) none unavailable_reason attempts later =
    if leb c.deadline now
    then save_and_get r (transition c unknown now (some "deadline_expired"))
    else save_and_get r (transition c failed now (some unavailable_reason))
deliver r c now (some target) (some sender) unavailable_reason attempts later =
    if leb c.deadline now
    then save_and_get r (transition c unknown now (some "deadline_expired"))
    else if not (holds (String-discrete target.creator_account_id c.creator_account_id))
    then save_and_get r (transition c failed now (some "delivery_identity_conflict"))
    else let sent = record c {
      connection_id = some target.connection_id;
      fencing_token = some target.fencing_token;
      delivery_attempts = attempts;
    } in
      after_delivery sent later (sender (execute_payload sent target) (save r sent))

-- `CommandRecord(...)` as `issue` builds it.
abbrev pub new_record : ℕ → String → MessageSendAction → ℕ → String → ℕ → CommandRecord
new_record command_id creator_account_id action deadline policy issued_at = record {
  command_id = command_id;
  creator_account_id = creator_account_id;
  action = some action;
  deadline = deadline;
  idempotency_policy = policy;
  issued_at = issued_at;
  state = CommandState.issued;
  connection_id = none;
  fencing_token = none;
  delivery_attempts = 0;
  failure_reason = none;
  result = none;
  result_apply_count = 0;
  transitions = record { state = CommandState.issued; occurred_at = issued_at; detail = none } ∷ [];
  receipts = [];
}

-- The arguments of `issue`, with the identifier (given, or fresh from `uuid4`) and the clock.
pub record IssueRequest : Type 0 where
  pub creator_account_id : String
  pub action : ActionInput
  pub deadline : Deadline
  pub target : Option CommandDeliveryTarget
  pub sender : Option CommandSender
  pub unavailable_reason : String
  pub command_id : ℕ
  pub idempotency_policy : String
  pub now : ℕ
  pub later : ℕ

unfoldable pub issue : Validator → Repository → IssueRequest → Raising (CommandRecord × Repository)
issue validator r q = do
  action ← validate_action validator q.action
  validate_deadline q.deadline
  raise_if (not (holds (String-discrete q.idempotency_policy "deduplicate"))) policy_required
  raise_if (is_some (get r q.command_id)) (already_exists q.command_id)
  let c =
      new_record q.command_id q.creator_account_id action q.deadline.at q.idempotency_policy q.now
  deliver (save r c) c q.now q.target q.sender q.unavailable_reason 1 q.later

abbrev pub reissuable : CommandState → Bool
reissuable CommandState.issued = true
reissuable CommandState.accepted = true
reissuable _ = false

unfoldable pub reissue :
    Repository
    → ℕ
    → Option CommandDeliveryTarget
    → Option CommandSender
    → String
    → ℕ
    → ℕ
    → Raising (CommandRecord × Repository)
reissue r command_id target sender unavailable_reason now later = do
  c ← required r command_id
  raise_if (not (holds (String-discrete c.idempotency_policy "deduplicate"))) policy_forbids_reissue
  raise_if (not (reissuable c.state)) (not_reissuable c.state)
  deliver r c now target sender unavailable_reason (c.delivery_attempts + 1) later
