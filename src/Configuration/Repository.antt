-- ===== src/Configuration/Repository.antt =====
-- `InMemoryAgentConfigRepository` of app/services/agent_configuration.py. A document is stored as
-- its JSON there, and read back by pydantic.
use onlyfans_conversational.Prelude.{
  ℕ, ◌+◌, String, String-discrete, Option, none, some, [], map, Bool, true, false, not, leb, holds,
  ok, err, ◌>>=◌, ◌>>◌, raise_if, if◌then◌else◌,
}
use onlyfans_conversational.Prelude.Dict
use onlyfans_conversational.Prelude.Dict.{Dict}
use onlyfans_conversational.Configuration.Types.{
  Revision, DocumentKey-discrete, InstallationKey-discrete, ConfigDocument, Installation,
  immutable_revision, digest_mismatch, not_monotonic, no_required_document, missing_document,
  unknown_revision, Raising, Documents,
}
use onlyfans_conversational.Configuration.Revisions.{revision_sequence, revision_of}

pub record Repository : Type 0 where
  pub documents : Dict (String × Revision) ConfigDocument
  pub required : Dict String Revision
  pub last_sequence : Dict String ℕ
  pub installations : Dict (String × ℕ) Installation

abbrev pub empty : Repository
empty = record { documents = []; required = []; last_sequence = []; installations = [] }

unfoldable pub document : Repository → String → Revision → Option ConfigDocument
document r account revision = Dict.lookup DocumentKey-discrete (account, revision) r.documents

-- `sequence <= self._last_sequence.get(creator_account_id, -1)`
abbrev pub is_behind : ℕ → Option ℕ → Bool
is_behind sequence none = false
is_behind sequence (some last) = leb sequence last

abbrev pub is_stored : Option ConfigDocument → Bool
is_stored none = false
is_stored (some d) = true

-- The two assignments of `add_document`.
abbrev pub with_document : Repository → ConfigDocument → ℕ → Repository
with_document r d sequence = record r {
  documents =
      Dict.insert DocumentKey-discrete (d.creator_account_id, d.config_revision) d r.documents;
  last_sequence = Dict.insert String-discrete d.creator_account_id sequence r.last_sequence;
}

unfoldable pub add_document : Documents → Repository → ConfigDocument → Raising Repository
add_document docs r d = do
  raise_if (is_stored (document r d.creator_account_id d.config_revision)) immutable_revision
  raise_if (not (holds (String-discrete d.digest (docs.content_digest d)))) digest_mismatch
  sequence ← revision_sequence d.config_revision
  raise_if (is_behind sequence (Dict.lookup String-discrete d.creator_account_id r.last_sequence))
      not_monotonic
  ok (with_document r d sequence)

abbrev pub or_missing : Option ConfigDocument → Raising ConfigDocument
or_missing none = err missing_document
or_missing (some d) = ok d

abbrev pub document_at : Repository → String → Option Revision → Raising ConfigDocument
document_at r account none = err no_required_document
document_at r account (some revision) = or_missing (document r account revision)

unfoldable pub required_document : Repository → String → Raising ConfigDocument
required_document r account = document_at r account (Dict.lookup String-discrete account r.required)

abbrev pub or_zero : Option ℕ → ℕ
or_zero none = 0
or_zero (some n) = n

unfoldable pub next_revision : Repository → String → Revision
next_revision r account =
    revision_of (or_zero (Dict.lookup String-discrete account r.last_sequence) + 1)

abbrev pub with_required : Repository → String → Revision → Repository
with_required r account revision = record r {
  required = Dict.insert String-discrete account revision r.required;
}

unfoldable pub set_required : Repository → String → Revision → Raising Repository
set_required r account revision =
    if is_stored (document r account revision)
    then ok (with_required r account revision)
    else err unknown_revision

unfoldable pub installation : Repository → String → ℕ → Option Installation
installation r account id = Dict.lookup InstallationKey-discrete (account, id) r.installations

unfoldable pub save_installation : Repository → Installation → Repository
save_installation r i = record r {
  installations =
      Dict.insert InstallationKey-discrete (i.creator_account_id, i.agent_installation_id) i
        r.installations;
}

-- The loop body of `require_for_account`.
abbrev pub requiring : String → Revision → (String × ℕ) × Installation → (String × ℕ) × Installation
requiring account revision e =
    if holds (String-discrete e.1.creator_account_id account)
    then (e.0, record e.1 { required_config_revision = revision })
    else e

unfoldable pub require_for_account : Repository → String → Revision → Raising Repository
require_for_account r account revision = do
  r' ← set_required r account revision
  ok (record r' { installations = map (requiring account revision) r'.installations })

unfoldable pub reset : Repository → Repository
reset r = empty
