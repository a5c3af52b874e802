-- ===== src/Activation/Types.antt =====
-- The data of app/persistence/projection_activation.py. An intent's fields that two intents are
-- compared by stand in a record of their own, as `_identity_tuple` lists them; those that are
-- nullable for old rows of the database are always set here. A UUID is its number, a time a number.
use onlyfans_conversational.Prelude.{
  ℕ, String, String-discrete, ℕ_discrete, Option, none, some, Bool, true, false, [], ◌&&◌, holds,
}
use onlyfans_conversational.Prelude.Dict.{Dict}

pub record CanonicalIdentity : Type 0 where
  pub revision : ℕ
  pub content_digest : String

pub record BuildOwner : Type 0 where
  pub owner_id : String
  pub pid : ℕ
  pub process_started_at : String
  pub instance_nonce : String
  pub capability_digest : String

pub record ActivationIdentity : Type 0 where
  pub creator_account_id : String
  pub account_ref : String
  pub generation_id : String
  pub canonical : CanonicalIdentity
  pub projection_digest : String
  pub graph_digest : String
  pub pipeline_revision : String
  pub pipeline_config_digest : String
  pub pipeline_identity_digest : String
  pub expected_previous_generation_id : Option String
  pub expected_previous_revision : Option ℕ
  pub publication_epoch : String
  pub writer_owner : BuildOwner
  pub publication_capability_digest : String

pub data ActivationState : Type 0 where
  reserved completed cancelled : ActivationState

pub record ProjectionActivationIntent : Type 0 where
  pub intent_id : ℕ
  pub identity : ActivationIdentity
  pub witness_sequence : ℕ
  pub state : ActivationState
  pub reserved_at : ℕ
  pub completed_at : Option ℕ
  pub cancelled_at : Option ℕ

-- An entry of `_epochs`.
pub record PublicationEpoch : Type 0 where
  pub scheduler_owner_id : String
  pub capability_digest : String
  pub is_open : Bool

pub record Ledger : Type 0 where
  pub intents : Dict ℕ ProjectionActivationIntent
  pub by_generation : Dict String ℕ
  pub sequences : Dict String ℕ
  pub epochs : Dict String PublicationEpoch

abbrev pub new_ledger : Ledger
new_ledger = record { intents = []; by_generation = []; sequences = []; epochs = [] }

pub data ActivationError : Type 0 where
  epoch_unavailable epoch_revoked identity_changed already_reserved activation_terminal
        witness_immutable not_completed identity_differs completion_identity_differs
        account_reference_differs intent_missing :
      ActivationError

abbrev pub same_text : Option String → Option String → Bool
same_text none none = true
same_text none (some t) = false
same_text (some s) none = false
same_text (some s) (some t) = holds (String-discrete s t)

abbrev pub same_number : Option ℕ → Option ℕ → Bool
same_number none none = true
same_number none (some n) = false
same_number (some m) none = false
same_number (some m) (some n) = holds (ℕ_discrete m n)

unfoldable pub same_canonical : CanonicalIdentity → CanonicalIdentity → Bool
same_canonical a b =
    holds (ℕ_discrete a.revision b.revision)
    && holds (String-discrete a.content_digest b.content_digest)

unfoldable pub same_owner : BuildOwner → BuildOwner → Bool
same_owner a b =
    holds (String-discrete a.owner_id b.owner_id)
    && holds (ℕ_discrete a.pid b.pid)
    && holds (String-discrete a.process_started_at b.process_started_at)
    && holds (String-discrete a.instance_nonce b.instance_nonce)
    && holds (String-discrete a.capability_digest b.capability_digest)

unfoldable pub same_identity : ActivationIdentity → ActivationIdentity → Bool
same_identity a b =
    holds (String-discrete a.creator_account_id b.creator_account_id)
    && holds (String-discrete a.account_ref b.account_ref)
    && holds (String-discrete a.generation_id b.generation_id)
    && same_canonical a.canonical b.canonical
    && holds (String-discrete a.projection_digest b.projection_digest)
    && holds (String-discrete a.graph_digest b.graph_digest)
    && holds (String-discrete a.pipeline_revision b.pipeline_revision)
    && holds (String-discrete a.pipeline_config_digest b.pipeline_config_digest)
    && holds (String-discrete a.pipeline_identity_digest b.pipeline_identity_digest)
    && same_text a.expected_previous_generation_id b.expected_previous_generation_id
    && same_number a.expected_previous_revision b.expected_previous_revision
    && holds (String-discrete a.publication_epoch b.publication_epoch)
    && same_owner a.writer_owner b.writer_owner
    && holds (String-discrete a.publication_capability_digest b.publication_capability_digest)

-- What `_require_completion_identity` compares.
unfoldable pub same_completion : ProjectionActivationIntent → ProjectionActivationIntent → Bool
same_completion a b =
    holds (ℕ_discrete a.intent_id b.intent_id)
    && same_identity a.identity b.identity
    && holds (ℕ_discrete a.witness_sequence b.witness_sequence)
    && holds (ℕ_discrete a.reserved_at b.reserved_at)
