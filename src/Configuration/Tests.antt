-- ===== src/Configuration/Tests.antt =====
-- Runs of the configuration authority, and an instance of each of its theorems.
use onlyfans_conversational.Prelude.{
  String-discrete, ℕ_discrete, none, some, [], ◌∷◌, true, false, ◌≡◌, refl, ok, err,
}
use onlyfans_conversational.Prelude.Dict
use onlyfans_conversational.Configuration.Types.{
  Revision, Revision-discrete, DocumentKey-discrete, InstallationKey-discrete, ConfigDocument,
  Installation, Documents, malformed_revision, rules, rule, chat_capture_required,
}
use onlyfans_conversational.Configuration.Revisions.{
  revision_sequence, revision_of, rpartition, int_from, all_digits, digits,
  revision_sequence-revision_of,
}
use onlyfans_conversational.Configuration.Repository.{
  Repository, document, installation, required_document, next_revision,
}
use onlyfans_conversational.Configuration.Authority.{
  bootstrap_capture_policy, bootstrap_command_policy, bootstrap_history_acquisition,
  ensure_dependency_closed, any_enables, draft, publish, Report, record_report, bind_installation,
}
use onlyfans_conversational.Configuration.Invariant.{IsValid}
use onlyfans_conversational.Configuration.Reports.{Step, IsWarranted, record_report-Step}
use onlyfans_conversational.Configuration.Bindings.{IsEchoed, applied_of, bind_installation-Echo}
use onlyfans_conversational.Configuration.Publishing.{IsSealing, Published}
use onlyfans_conversational.Configuration.Publications.{publish-Published}

-- "config-12" and "config-", as code points.
abbrev config_12 : Revision
config_12 = 99 ∷ 111 ∷ 110 ∷ 102 ∷ 105 ∷ 103 ∷ 45 ∷ 49 ∷ 50 ∷ []

read_12 : revision_sequence config_12 ≡ ok 12
unfolding revision_sequence rpartition int_from all_digits Revision-discrete ℕ_discrete
read_12 = refl

print_12 : revision_of 12 ≡ config_12
unfolding revision_of digits
print_12 = refl

read_none : revision_sequence (99 ∷ 45 ∷ 49 ∷ []) ≡ err malformed_revision
unfolding revision_sequence rpartition int_from all_digits Revision-discrete ℕ_discrete
read_none = refl

revision_sequence-revision_of_example : revision_sequence (revision_of 12) ≡ ok 12
revision_sequence-revision_of_example = revision_sequence-revision_of 12

-- A validator that takes every draft, and a digest that tells accounts apart.
abbrev docs : Documents
docs = record { normalize = some; content_digest = λ d. d.creator_account_id }

docs-IsSealing : IsSealing docs
docs-IsSealing = record {
  identity = λ x n e. let same : x ≡ n = cc in (rw same refl, rw same refl);
  keeps_digest = λ x n e. let same : x ≡ n = cc in rw same refl;
  without_digest = λ n y. refl;
}

abbrev first : ConfigDocument
first =
    record (draft "acct" config_12 5 bootstrap_capture_policy bootstrap_command_policy
      bootstrap_history_acquisition) { digest = "acct" }

abbrev agent : Installation
agent = record {
  creator_account_id = "acct";
  agent_installation_id = 3;
  required_config_revision = config_12;
  applied_config_revision = none;
  last_failure = none;
}

abbrev repo : Repository
repo = record {
  documents = (("acct", config_12), first) ∷ [];
  required = ("acct", config_12) ∷ [];
  last_sequence = ("acct", 12) ∷ [];
  installations = (("acct", 3), agent) ∷ [];
}

found_first : document repo "acct" config_12 ≡ some first
unfolding document Dict.lookup DocumentKey-discrete String-discrete ℕ_discrete
found_first = refl

found_agent : installation repo "acct" 3 ≡ some agent
unfolding installation Dict.lookup InstallationKey-discrete String-discrete ℕ_discrete
found_agent = refl

repo-IsValid : IsValid docs repo
unfolding Dict.lookup String-discrete
repo-IsValid = record {
  sealed = ((12, read_12, refl, refl, refl, refl), tt);
  installed = ((refl, refl, tt), tt);
  requires = ((first, found_first), tt);
}

abbrev report : Report
report = record {
  config_revision = config_12;
  digest = "acct";
  outcome = "applied";
  capability_details = [];
}

record_report-Step_example :
    (j : Installation) × (r' : Repository) × (record_report repo "acct" 3 report ≡ ok (j, r'))
    × IsValid docs r'
    × (installation r' "acct" 3 ≡ some j)
    × Step docs repo agent j
    × IsWarranted docs repo agent report j
record_report-Step_example =
    record_report-Step docs repo "acct" 3 report agent repo-IsValid found_agent

closed : ensure_dependency_closed bootstrap_capture_policy ≡ ok tt
unfolding ensure_dependency_closed any_enables String-discrete
closed = refl

-- Message capture without chat capture is refused.
not_closed :
    ensure_dependency_closed (record {
      observation_interval_seconds = 30;
      capture_rules =
          rules (rule (some "messages") "/ws3" true ∷ rule (some "chats") "/x" false ∷ []);
    })
    ≡ err chat_capture_required
unfolding ensure_dependency_closed any_enables String-discrete
not_closed = refl

publish-Published_example :
    (d : ConfigDocument) × (r' : Repository) × (publish docs repo "acct" bootstrap_capture_policy
        bootstrap_command_policy bootstrap_history_acquisition 6
      ≡ ok (d, r'))
    × (d.creator_account_id ≡ "acct")
    × IsValid docs r'
    × Published docs repo r' d
publish-Published_example =
    publish-Published docs repo "acct" bootstrap_capture_policy bootstrap_command_policy
      bootstrap_history_acquisition 6
      (draft "acct" (next_revision repo "acct") 6 bootstrap_capture_policy bootstrap_command_policy
        bootstrap_history_acquisition)
      docs-IsSealing repo-IsValid closed refl

required_first : required_document repo "acct" ≡ ok first
unfolding required_document document Dict.lookup DocumentKey-discrete String-discrete ℕ_discrete
required_first = refl

bind_installation-Echo_example :
    (j : Installation) × (r' : Repository) × (bind_installation repo "acct" 3 (some config_12)
      ≡ ok (j, r'))
    × IsValid docs r'
    × (installation r' "acct" 3 ≡ some j)
    × (j.required_config_revision ≡ config_12)
    × IsEchoed (some config_12) (applied_of (installation repo "acct" 3)) j.applied_config_revision
bind_installation-Echo_example =
    bind_installation-Echo docs repo "acct" 3 (some config_12) first repo-IsValid required_first
