-- ===== src/Commands/Results.antt =====
-- `record_result` and `expire` of app/services/command_execution.py.
use onlyfans_conversational.Prelude.{
  ℕ, ◌+◌, String-discrete, Option, none, some, List, [], ◌∷◌, ◌++◌, Bool, true, false, not, ◌&&◌,
  holds, leb, ok, err, ◌>>=◌, if◌then◌else◌,
}
use onlyfans_conversational.Commands.Types.{
  CommandState, ResultStatus, CommandRecord, CommandResultRecord, RecordedResult, ResultPayload,
  account_conflict, Repository, Raising,
}
use onlyfans_conversational.Commands.Repository.{get, save, list}
use onlyfans_conversational.Commands.Service.{transition, is_some, reissuable}

abbrev pub state_of : ResultStatus → CommandState
state_of ResultStatus.accepted = CommandState.accepted
state_of ResultStatus.succeeded = CommandState.succeeded
state_of ResultStatus.failed = CommandState.failed

-- `record.state in {"unknown", "failed"}`
abbrev pub is_late : CommandState → Bool
is_late CommandState.unknown = true
is_late CommandState.failed = true
is_late _ = false

-- The record made for a result whose command was never issued.
abbrev pub orphan_record : ResultPayload → ℕ → CommandRecord
orphan_record p received = record {
  command_id = p.command_id;
  creator_account_id = p.creator_account_id;
  action = none;
  deadline = p.completed_at;
  idempotency_policy = "deduplicate";
  issued_at = received;
  state = CommandState.unknown;
  connection_id = none;
  fencing_token = none;
  delivery_attempts = 0;
  failure_reason = some "result_without_issued_record";
  result = none;
  result_apply_count = 0;
  transitions =
      record {
        state = CommandState.unknown;
        occurred_at = received;
        detail = some "result_without_issued_record";
      }
      ∷ [];
  receipts = [];
}

abbrev pub result_record : ResultPayload → ℕ → CommandResultRecord
result_record p received = record {
  result_id = p.result_id;
  status = p.status;
  completed_at = p.completed_at;
  output = p.output;
  error = p.error;
  recorded_at = received;
}

-- `if not duplicate:` and what stands under it.
unfoldable pub apply_result : CommandRecord → ResultPayload → ℕ → CommandRecord
unfolding transition
apply_result c p received =
    if is_some c.result
    then c
    else let applied = record c {
      result = some (result_record p received);
      result_apply_count = c.result_apply_count + 1;
    } in
      if is_late c.state then applied else transition applied (state_of p.status) received none

-- From the record that the result belongs to: the new record.
unfoldable pub with_receipt : CommandRecord → ResultPayload → ℕ → CommandRecord
unfolding apply_result
with_receipt c p received =
    let applied = apply_result c p received in
    record applied {
      receipts =
          applied.receipts
          ++ record {
            result_id = p.result_id;
            received_at = received;
            is_duplicate = is_some c.result;
            is_late = is_late c.state;
          }
            ∷ [];
    }

abbrev pub answer : CommandRecord → ResultPayload → ℕ → RecordedResult
answer c p received = record {
  command_id = p.command_id;
  result_id = p.result_id;
  recorded_at = received;
  is_duplicate = is_some c.result;
  is_late = is_late c.state;
}

-- The record that a result belongs to: a new one, or the stored one if the account fits.
unfoldable pub record_for : Option CommandRecord → ResultPayload → ℕ → Raising CommandRecord
record_for none p received = ok (orphan_record p received)
record_for (some c) p received =
    if not (holds (String-discrete c.creator_account_id p.creator_account_id))
    then err account_conflict
    else ok c

unfoldable pub record_result :
    Repository → ResultPayload → ℕ → Raising (RecordedResult × Repository)
record_result r p received = do
  c ← record_for (get r p.command_id) p received
  ok (answer c p received, save r (with_receipt c p received))

-- `record.state in {"issued", "accepted"} and record.deadline <= current_time`
abbrev pub is_due : ℕ → CommandRecord → Bool
is_due now c = reissuable c.state && leb c.deadline now

abbrev pub expired_record : ℕ → CommandRecord → CommandRecord
expired_record now c = transition c CommandState.unknown now (some "deadline_expired")

-- The loop of `expire` over the listed records: what it returns, and the repository after it.
unfoldable pub expire_each : ℕ → List CommandRecord → Repository → List CommandRecord × Repository
expire_each now [] r = ([], r)
expire_each now (c ∷ cs) r =
    let e = expired_record now c in
    let (expired, r') = expire_each now cs (if is_due now c then save r e else r) in
    (if is_due now c then e ∷ expired else expired, r')

unfoldable pub expire : ℕ → Repository → List CommandRecord × Repository
expire now r = expire_each now (list r none) r
