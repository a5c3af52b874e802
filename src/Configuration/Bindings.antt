-- ===== src/Configuration/Bindings.antt =====
-- What binding an installation, and echoing its revision, does.
use onlyfans_conversational.Prelude.{ℕ, String, Option, none, some, ◌≡◌, refl, ok, ◌∙◌}
use onlyfans_conversational.Configuration.Types.{
  Revision, ConfigDocument, Installation, Documents, unknown_configuration,
}
use onlyfans_conversational.Configuration.Repository.{
  Repository, document, installation, save_installation, required_document,
}
use onlyfans_conversational.Configuration.Authority.{
  echo_known, failing, record_echo, bound_record, bind_installation,
}
use onlyfans_conversational.Configuration.Invariant.{
  IsApplied, IsValid, installation-IsInstalled, save_installation-IsValid, is_regression-decided,
}
use onlyfans_conversational.Configuration.Reports.{
  NotBehind, Step, Step-failing, Step-advanced, advanced, installation-save_installation,
}

-- An echo of no revision forgets the applied one; any other does not fall behind it.
abbrev pub IsEchoed : Option Revision → Option Revision → Option Revision → Type 0
IsEchoed none before after = after ≡ none
IsEchoed (some a) before after = NotBehind before after

abbrev pub applied_of : Option Installation → Option Revision
applied_of none = none
applied_of (some i) = i.applied_config_revision

module _ (docs : Documents) (r : Repository) where
  echo_known-Step :
      (i : Installation) (revision : Revision) (o : Option ConfigDocument)
      → IsValid docs r
      → document r i.creator_account_id revision ≡ o
      → IsApplied docs r i.creator_account_id i.applied_config_revision
      → (j : Installation) × (echo_known i revision o ≡ ok j) × Step docs r i j
  echo_known-Step i revision none v found h = (
    failing i (unknown_configuration revision),
    refl,
    Step-failing docs r i (unknown_configuration revision) v h,
  )
  echo_known-Step i revision (some d) v found h =
      let (old, decided) =
        is_regression-decided docs r i.creator_account_id revision i.applied_config_revision d v
          found h in
      (
        advanced docs r i revision old,
        rw decided refl,
        Step-advanced docs r i revision d old v found h decided,
      )

  -- An echoed record: the same installation, with a known applied revision.
  pub record Echo (i j : Installation) (applied : Option Revision) : Type 0 where
    pub same_account : j.creator_account_id ≡ i.creator_account_id
    pub same_id : j.agent_installation_id ≡ i.agent_installation_id
    pub same_required : j.required_config_revision ≡ i.required_config_revision
    pub known : IsApplied docs r j.creator_account_id j.applied_config_revision
    pub echoed : IsEchoed applied i.applied_config_revision j.applied_config_revision

  record_echo-Echo :
      (i : Installation) (applied : Option Revision)
      → IsValid docs r
      → IsApplied docs r i.creator_account_id i.applied_config_revision
      → (j : Installation) × (record_echo r i applied ≡ ok j) × Echo i j applied
  unfolding record_echo
  record_echo-Echo i none v h = (
    record i { applied_config_revision = none },
    refl,
    record { same_account = refl; same_id = refl; same_required = refl; known = tt; echoed = refl },
  )
  record_echo-Echo i (some revision) v h =
      let (j, runs, step) =
        echo_known-Step i revision (document r i.creator_account_id revision) v refl h in
      (
        j,
        runs,
        record {
          same_account = step.same_account;
          same_id = step.same_id;
          same_required = step.same_required;
          known = step.known;
          echoed = step.not_behind;
        },
      )

  -- The record that a binding starts from.
  IsStart : String → ℕ → Revision → Option Revision → Installation → Type 0
  IsStart account id required applied i =
      (i.creator_account_id ≡ account)
      × (i.agent_installation_id ≡ id)
      × (i.required_config_revision ≡ required)
      × (i.applied_config_revision ≡ applied)
      × IsApplied docs r i.creator_account_id i.applied_config_revision

  bound_record-IsStart :
      (account : String) (id : ℕ) (required : Revision) (o : Option Installation)
      → IsValid docs r
      → installation r account id ≡ o
      → IsStart account id required (applied_of o) (bound_record account id required o)
  unfolding IsStart
  bound_record-IsStart account id required none v found = (refl, refl, refl, refl, tt)
  bound_record-IsStart account id required (some i) v found =
      let h = installation-IsInstalled docs r account id i v found in (h.0, h.1, refl, refl, h.2)

  -- On a valid repository, binding an installation of an account with a required document always returns: the record is
  -- stored under its identifiers and requires that document's revision. With no echoed revision
  -- nothing counts as applied; with one, the applied revision is not behind the one before.
  pub bind_installation-Echo :
      (account : String) (id : ℕ) (applied : Option Revision) (q : ConfigDocument)
      → IsValid docs r
      → required_document r account ≡ ok q
      → (j : Installation) × (r' : Repository) × (bind_installation r account id applied
          ≡ ok (j, r'))
        × IsValid docs r'
        × (installation r' account id ≡ some j)
        × (j.required_config_revision ≡ q.config_revision)
        × IsEchoed applied (applied_of (installation r account id)) j.applied_config_revision
  unfolding bind_installation IsStart
  bind_installation-Echo account id applied q v required =
      let i = bound_record account id q.config_revision (installation r account id) in
      let (same_account, same_id, same_required, same_applied, known) =
        bound_record-IsStart account id q.config_revision (installation r account id) v refl in
      let (j, runs, echo) = record_echo-Echo i applied v known in
      (
        j,
        save_installation r j,
        rw (required, runs) refl,
        save_installation-IsValid docs r j v echo.known,
        installation-save_installation r j account id (echo.same_account ∙ same_account)
            (echo.same_id ∙ same_id),
        echo.same_required ∙ same_required,
        rw (← same_applied) echo.echoed,
      )
