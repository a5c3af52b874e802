-- ===== src/Configuration/Authority.antt =====
-- `AgentConfigurationAuthority` of app/services/agent_configuration.py, on the in-memory
-- repository. No method awaits but for its lock, so each is one step on the repository.
use onlyfans_conversational.Prelude.{
  ℕ, String, String-discrete, Option, none, some, List, [], ◌∷◌, Bool, true, false, ◌&&◌, not, ltb,
  holds, ok, err, ◌>>=◌, ◌>>◌, raise_if, if◌then◌else◌,
}
use onlyfans_conversational.Configuration.Types.{
  Revision, CaptureRule, rule, not_a_list, rules, CapturePolicy, CommandPolicy, HistoryAcquisition,
  ConfigDocument, Failure, unknown_configuration, unknown_revision_or_digest, details,
  activation_outcome, Installation, ConfigError, chat_capture_required, invalid_document,
  bootstrap_changed, Raising, Documents,
}
use onlyfans_conversational.Configuration.Revisions.{revision_sequence}
use onlyfans_conversational.Configuration.Repository.{
  Repository, document, add_document, required_document, next_revision, installation,
  save_installation, require_for_account, empty,
}

-- `rule.get("resource") == resource` for an enabled rule.
abbrev pub enables : String → CaptureRule → Bool
enables resource (rule (some found) url_pattern true) = holds (String-discrete found resource)
enables resource _ = false

unfoldable pub any_enables : String → List CaptureRule → Bool
any_enables resource [] = false
any_enables resource (c ∷ cs) = if enables resource c then true else any_enables resource cs

-- `_ensure_dependency_closed_capture_policy`
unfoldable pub ensure_dependency_closed : CapturePolicy → Raising (Unit {0})
ensure_dependency_closed policy = elim policy.capture_rules [
  | not_a_list ↦ ok tt
  | rules cs ↦
      raise_if (any_enables "messages" cs && not (any_enables "chats" cs)) chat_capture_required
]

abbrev pub validated : Option ConfigDocument → Raising ConfigDocument
validated none = err invalid_document
validated (some d) = ok d

-- The draft's digest, of 64 zeros.
abbrev pub zero_digest : String
zero_digest = "sha256:0000000000000000000000000000000000000000000000000000000000000000"

abbrev pub draft :
    String → Revision → ℕ → CapturePolicy → CommandPolicy → HistoryAcquisition → ConfigDocument
draft account revision issued_at capture command history = record {
  creator_account_id = account;
  config_revision = revision;
  config_schema_version = "2";
  digest = zero_digest;
  etag = revision;
  issued_at = issued_at;
  capture_policy = capture;
  command_policy = command;
  history_acquisition = history;
}

-- `build_config_document`, on the draft.
unfoldable pub build_config_document : Documents → ConfigDocument → Raising ConfigDocument
build_config_document docs d = do
  normalized ← validated (docs.normalize d)
  validated (docs.normalize (record d { digest = docs.content_digest normalized }))

-- `publish`, with the policies and the clock.
unfoldable pub publish :
    Documents
    → Repository
    → String
    → CapturePolicy
    → CommandPolicy
    → HistoryAcquisition
    → ℕ
    → Raising (ConfigDocument × Repository)
publish docs r account capture command history issued_at = do
  ensure_dependency_closed capture
  d ←
      build_config_document docs
        (draft account (next_revision r account) issued_at capture command history)
  added ← add_document docs r d
  required ← require_for_account added account d.config_revision
  ok (d, required)

-- `a < b` on sequences, both read from revisions.
abbrev pub is_older : Raising ℕ → Raising ℕ → Raising Bool
is_older a b = do x ← a; y ← b; ok (ltb x y)

-- Whether the revision is older than the applied one, if there is one.
abbrev pub is_regression : Revision → Option Revision → Raising Bool
is_regression revision none = ok false
is_regression revision (some applied) =
    is_older (revision_sequence revision) (revision_sequence applied)

-- `replace(record, applied_config_revision=revision, last_failure=None)`
abbrev pub applying : Installation → Revision → Installation
applying i revision = record i { applied_config_revision = some revision; last_failure = none }

abbrev pub failing : Installation → Failure → Installation
failing i why = record i { last_failure = some why }

abbrev pub echo_known : Installation → Revision → Option ConfigDocument → Raising Installation
echo_known i revision none = ok (failing i (unknown_configuration revision))
echo_known i revision (some known) = do
  old ← is_regression revision i.applied_config_revision
  ok (if old then i else applying i revision)

-- `_record_echo`
unfoldable pub record_echo : Repository → Installation → Option Revision → Raising Installation
record_echo r i none = ok (record i { applied_config_revision = none })
record_echo r i (some revision) = echo_known i revision (document r i.creator_account_id revision)

-- The record that `bind_installation` starts from, with the required revision.
abbrev pub bound_record : String → ℕ → Revision → Option Installation → Installation
bound_record account id required none = record {
  creator_account_id = account;
  agent_installation_id = id;
  required_config_revision = required;
  applied_config_revision = none;
  last_failure = none;
}
bound_record account id required (some i) = record i { required_config_revision = required }

unfoldable pub bind_installation :
    Repository → String → ℕ → Option Revision → Raising (Installation × Repository)
bind_installation r account id applied = do
  d ← required_document r account
  i ← record_echo r (bound_record account id d.config_revision (installation r account id)) applied
  ok (i, save_installation r i)

-- What `record_report` starts from: the record, or a new one, bound.
abbrev pub or_bound :
    Repository → String → ℕ → Option Installation → Raising (Installation × Repository)
or_bound r account id none = bind_installation r account id none
or_bound r account id (some i) = ok (i, r)

abbrev pub failure_of : String → List String → Failure
failure_of outcome [] = activation_outcome outcome
failure_of outcome (d ∷ ds) = details (d ∷ ds)

-- `[detail for detail in capability_details if detail]`
unfoldable pub given_details : List (Option String) → List String
given_details [] = []
given_details (none ∷ ds) = given_details ds
given_details (some d ∷ ds) =
    let rest = given_details ds in if holds (String-discrete d "") then rest else d ∷ rest

-- A report, as `record_report` takes it.
pub record Report : Type 0 where
  pub config_revision : Revision
  pub digest : String
  pub outcome : String
  pub capability_details : List (Option String)

-- The branches of `record_report`, on the document that the report names.
unfoldable pub reported : Installation → Report → Option ConfigDocument → Raising Installation
reported i p none = ok (failing i unknown_revision_or_digest)
reported i p (some d) =
    if not (holds (String-discrete d.digest p.digest))
    then ok (failing i unknown_revision_or_digest)
    else if holds (String-discrete p.outcome "applied")
    then (do
      old ← is_regression p.config_revision i.applied_config_revision
      ok (if old then i else applying i p.config_revision))
    else ok (failing i (failure_of p.outcome (given_details p.capability_details)))

unfoldable pub record_report :
    Repository → String → ℕ → Report → Raising (Installation × Repository)
record_report r account id p = do
  (i, r') ← or_bound r account id (installation r account id)
  j ← reported i p (document r' account p.config_revision)
  ok (j, save_installation r' j)

-- `installation`: the record, or a new one, bound.
unfoldable pub find_installation : Repository → String → ℕ → Raising (Installation × Repository)
find_installation r account id = or_bound r account id (installation r account id)

abbrev pub bootstrap_revision : Revision
bootstrap_revision = 99 ∷ 111 ∷ 110 ∷ 102 ∷ 105 ∷ 103 ∷ 45 ∷ 56 ∷ []

-- 2026-07-18 10:01 UTC
abbrev pub bootstrap_issued_at : ℕ
bootstrap_issued_at = 1784368860000000

abbrev pub bootstrap_capture_policy : CapturePolicy
bootstrap_capture_policy = record {
  observation_interval_seconds = 30;
  capture_rules = rules (
      rule (some "chats") "/api2/v2/chats" true
      ∷ rule (some "chats") "/api2/v2/users/*/chats" true
      ∷ rule (some "messages") "/api2/v2/chats/*/messages" true
      ∷ rule (some "messages") "/ws3" true
      ∷ []);
}

abbrev pub bootstrap_command_policy : CommandPolicy
bootstrap_command_policy = record {
  allowed_actions = "message.send" ∷ [];
  max_text_length = 1000;
  require_idempotency = true;
}

abbrev pub bootstrap_history_acquisition : HistoryAcquisition
bootstrap_history_acquisition = record {
  is_enabled = false;
  consent_revision = none;
  authorized_platform_creator_id = none;
  recent_window_days = 30;
  page_size = 100;
  pages_per_wake = 2;
  request_interval_ms = 500;
  retry_limit = 3;
}

-- The first `if` of `bootstrap`.
abbrev pub seeded :
    Documents → Repository → ConfigDocument → Option ConfigDocument → Raising Repository
seeded docs r current none = add_document docs r current
seeded docs r current (some existing) =
    if not (holds (String-discrete existing.digest current.digest))
    then err bootstrap_changed
    else ok r

-- `required is None or required < BOOTSTRAP`; only a `LookupError` gives `None`.
abbrev pub needs_bootstrap : Raising ConfigDocument → Raising Bool
needs_bootstrap (err ConfigError.no_required_document) = ok true
needs_bootstrap (err e) = err e
needs_bootstrap (ok required) =
    is_older (revision_sequence required.config_revision) (revision_sequence bootstrap_revision)

unfoldable pub bootstrap : Documents → Repository → String → Raising Repository
bootstrap docs r account = do
  current ← build_config_document docs (
      draft account bootstrap_revision bootstrap_issued_at bootstrap_capture_policy
        bootstrap_command_policy bootstrap_history_acquisition)
  added ← seeded docs r current (document r account bootstrap_revision)
  needed ← needs_bootstrap (required_document added account)
  if needed then require_for_account added account bootstrap_revision else ok added

-- `reset`
unfoldable pub reset_authority : Documents → Repository → String → Raising Repository
reset_authority docs r account = bootstrap docs empty account
