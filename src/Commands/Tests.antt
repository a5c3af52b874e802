-- ===== src/Commands/Tests.antt =====
-- Runs of the command service, and an instance of each of its theorems.
use onlyfans_conversational.Prelude.{
  String-discrete, ℕ_discrete, Option, none, some, [], ◌∷◌, true, false, ◌≡◌, ◌⊎◌, refl, ok,
  Ensures,
}
use onlyfans_conversational.Prelude.Dict
use onlyfans_conversational.Commands.Types.{
  issued, accepted, ResultStatus, CommandRecord, CommandDeliveryTarget, MessageSendAction, dict,
  CommandSender, Repository, ResultPayload, Validator, ExecutePayload,
}
use onlyfans_conversational.Commands.Repository.{get, save}
use onlyfans_conversational.Commands.Service.{
  transition, save_and_get, after_delivery, deliver, execute_payload, new_record, IssueRequest,
  issue, validate_action, validate_deadline,
}
use onlyfans_conversational.Commands.Results.{
  with_receipt, apply_result, record_for, record_result, expire,
}
use onlyfans_conversational.Commands.Invariant.{IsRecord, IsValid}
use onlyfans_conversational.Commands.Histories.{
  History, nothing, issues, expires, both, History-IsValid,
}
use onlyfans_conversational.Commands.Recording.{record_result-accepted}
use onlyfans_conversational.Commands.Expiry.{get-expire, after_expiry}
use onlyfans_conversational.Commands.Delivery.{
  MayReceive, Fenced, SameResult, deliver-Fenced, deliver-SameResult,
}

abbrev greeting : MessageSendAction
greeting = record { conversation_id = "c1"; text = "hello"; media_url = none }

abbrev browser : CommandDeliveryTarget
browser = record { connection_id = 9; fencing_token = "f"; creator_account_id = "acct" }

-- A command that the Agent has been sent.
abbrev sent : CommandRecord
sent = record (new_record 7 "acct" greeting 100 "deduplicate" 10) {
  connection_id = some 9;
  fencing_token = some "f";
  delivery_attempts = 1;
}

abbrev log_of_one : Repository
log_of_one = (7, sent) ∷ []

abbrev accepting : ResultPayload
accepting = record {
  creator_account_id = "acct";
  command_id = 7;
  result_id = 1;
  status = ResultStatus.accepted;
  completed_at = 20;
  output = none;
  error = none;
}

abbrev succeeding : ResultPayload
succeeding = record accepting { result_id = 2; status = ResultStatus.succeeded }

-- The record after the Agent has accepted the command.
abbrev taken : CommandRecord
taken = record sent {
  state = accepted;
  result = some (record {
    result_id = 1;
    status = ResultStatus.accepted;
    completed_at = 20;
    output = none;
    error = none;
    recorded_at = 21;
  });
  result_apply_count = 1;
  transitions =
      record { state = issued; occurred_at = 10; detail = none }
      ∷ record { state = accepted; occurred_at = 21; detail = none }
      ∷ [];
  receipts = record { result_id = 1; received_at = 21; is_duplicate = false; is_late = false } ∷ [];
}

accepting_run :
    record_result log_of_one accepting 21
    ≡ ok (
      record {
        command_id = 7;
        result_id = 1;
        recorded_at = 21;
        is_duplicate = false;
        is_late = false;
      },
      (7, taken) ∷ [],
    )
unfolding record_result record_for with_receipt apply_result transition get save Dict.lookup
    Dict.insert ℕ_discrete String-discrete
accepting_run = refl

sent-IsRecord : IsRecord sent
sent-IsRecord = record {
  last_logged = refl;
  counted = refl;
  receipted = refl;
  reason_late = λ e. refl;
  reported_result = λ e. cc;
  delivered = λ e. cc;
}

taken-IsRecord : IsRecord taken
taken-IsRecord = record {
  last_logged = refl;
  counted = refl;
  receipted = (refl, tt);
  reason_late = λ e. refl;
  reported_result = λ e. refl;
  delivered = λ e. cc;
}

log_of_one-IsValid : IsValid log_of_one
log_of_one-IsValid = ((refl, sent-IsRecord), tt)

taken-IsValid : IsValid ((7, taken) ∷ [])
taken-IsValid = ((refl, taken-IsRecord), tt)

-- A validator that takes every text, and a sender that works while nothing else runs.
abbrev lenient : Validator
lenient text = some (record greeting { text = text })

abbrev quiet : CommandSender
quiet p r = (false, r)

abbrev request : IssueRequest
request = record {
  creator_account_id = "acct";
  action = dict (some "message.send") "hello";
  deadline = record { at = 100; has_timezone = true };
  target = some browser;
  sender = some quiet;
  unavailable_reason = "agent_unavailable";
  command_id = 7;
  idempotency_policy = "deduplicate";
  now = 10;
  later = 11;
}

issue_run : issue lenient [] request ≡ ok (sent, log_of_one)
unfolding issue validate_action validate_deadline deliver after_delivery save_and_get
    execute_payload get save Dict.lookup Dict.insert ℕ_discrete String-discrete
issue_run = refl

-- A command is issued; then all that is due expires.
issued_then_expired : History lenient [] (expire 100 log_of_one).1
issued_then_expired =
    both (issues request (λ sender is p m. stays sender is p m) issue_run) (expires 100)
  where
    stays :
        (sender : CommandSender)
        → Path (Option CommandSender) (some quiet) (some sender)
        → (p : ExecutePayload) (m : Repository) → History lenient m (sender p m).1
    stays sender is p m = let same : quiet ≡ sender = cc in rw (← same) nothing

History-IsValid_example : IsValid (expire 100 log_of_one).1
History-IsValid_example =
    History-IsValid lenient [] (expire 100 log_of_one).1 issued_then_expired tt

found_taken : get ((7, taken) ∷ []) 7 ≡ some taken
unfolding get Dict.lookup ℕ_discrete String-discrete
found_taken = refl

record_result-accepted_example :
    Ensures
      (λ x. (d : CommandRecord) × (get x.1 7 ≡ some d) × (d.state ≡ accepted))
      (record_result ((7, taken) ∷ []) succeeding 30)
record_result-accepted_example =
    record_result-accepted ((7, taken) ∷ []) succeeding 30 taken taken-IsValid found_taken refl

get-expire_example : get (expire 100 log_of_one).1 7 ≡ after_expiry 100 (get log_of_one 7)
unfolding Dict.lookup ℕ_discrete
get-expire_example = get-expire 7 100 log_of_one (refl, tt) log_of_one-IsValid

deliver-Fenced_example :
    (MayReceive sent 12 browser
      × (p : _) × (before : Repository) × (out : CommandRecord) × Fenced sent browser p before
      × ((sender : CommandSender)
          → deliver log_of_one sent 12 (some browser) (some sender) "offline" 2 13
            ≡ after_delivery out 13 (sender p before)))
    ⊎ ((¬ MayReceive sent 12 browser)
        × ((a b : CommandSender)
            → deliver log_of_one sent 12 (some browser) (some a) "offline" 2 13
              ≡ deliver log_of_one sent 12 (some browser) (some b) "offline" 2 13))
deliver-Fenced_example = deliver-Fenced log_of_one sent 12 browser "offline" 2 13

deliver-SameResult_example :
    Ensures
      (λ x. SameResult sent x.0 × (get x.1 7 ≡ some x.0))
      (deliver log_of_one sent 12 (some browser) (some quiet) "offline" 2 13)
deliver-SameResult_example = deliver-SameResult log_of_one sent 12 browser quiet "offline" 2 13
