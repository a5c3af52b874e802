-- ===== src/Configuration/Types.antt =====
-- The data of app/services/agent_configuration.py, and of the document that it seals
-- (app/protocol/config.py). A revision is the list of its code points, a datetime its number of
-- microseconds, a UUID its number.
use onlyfans_conversational.Prelude.{
  ℕ, String, String-discrete, ℕ_discrete, Option, List, Bool, Result,
}

abbrev pub Revision : Type 0
Revision = List ℕ

unfoldable pub Revision-discrete : Discrete Revision
unfolding ℕ_discrete
Revision-discrete = hlevel ℕ_discrete

-- A document, and an installation, is known by its account and its own identifier.
unfoldable pub DocumentKey-discrete : Discrete (String × Revision)
unfolding String-discrete ℕ_discrete
DocumentKey-discrete = hlevel (String-discrete, ℕ_discrete)

unfoldable pub InstallationKey-discrete : Discrete (String × ℕ)
unfolding String-discrete ℕ_discrete
InstallationKey-discrete = hlevel (String-discrete, ℕ_discrete)

-- A rule of a capture policy, as a caller passes it: `enabled` is whether it `is True`.
pub data CaptureRule : Type 0 where
  not_a_dict : CaptureRule
  rule : Option String → String → Bool → CaptureRule

pub data CaptureRules : Type 0 where
  not_a_list : CaptureRules
  rules : List CaptureRule → CaptureRules

pub record CapturePolicy : Type 0 where
  pub observation_interval_seconds : ℕ
  pub capture_rules : CaptureRules

pub record CommandPolicy : Type 0 where
  pub allowed_actions : List String
  pub max_text_length : ℕ
  pub require_idempotency : Bool

pub record HistoryAcquisition : Type 0 where
  pub is_enabled : Bool
  pub consent_revision : Option String
  pub authorized_platform_creator_id : Option String
  pub recent_window_days : ℕ
  pub page_size : ℕ
  pub pages_per_wake : ℕ
  pub request_interval_ms : ℕ
  pub retry_limit : ℕ

-- `AgentConfigDocumentResponse`; its operation and protocol version are constants.
pub record ConfigDocument : Type 0 where
  pub creator_account_id : String
  pub config_revision : Revision
  pub config_schema_version : String
  pub digest : String
  pub etag : Revision
  pub issued_at : ℕ
  pub capture_policy : CapturePolicy
  pub command_policy : CommandPolicy
  pub history_acquisition : HistoryAcquisition

-- The texts of `last_failure`, with the values that they are formatted from.
pub data Failure : Type 0 where
  unknown_configuration : Revision → Failure
  unknown_revision_or_digest : Failure
  details : List String → Failure
  activation_outcome : String → Failure

unfoldable pub LastFailure-discrete : Discrete (Option Failure)
unfolding String-discrete ℕ_discrete
LastFailure-discrete = hlevel (String-discrete, ℕ_discrete)

pub record Installation : Type 0 where
  pub creator_account_id : String
  pub agent_installation_id : ℕ
  pub required_config_revision : Revision
  pub applied_config_revision : Option Revision
  pub last_failure : Option Failure

pub data ConfigError : Type 0 where
  immutable_revision digest_mismatch not_monotonic malformed_revision : ConfigError
  no_required_document missing_document unknown_revision : ConfigError
  chat_capture_required invalid_document bootstrap_changed : ConfigError

abbrev pub Raising : Type 0 → Type 0
Raising A = Result ConfigError A

-- pydantic and hashlib, as the source calls them: `normalize` validates a draft (none is a
-- `ValidationError`), `content_digest` hashes a document's JSON without digest and etag.
pub record Documents : Type 0 where
  pub normalize : ConfigDocument → Option ConfigDocument
  pub content_digest : ConfigDocument → String
