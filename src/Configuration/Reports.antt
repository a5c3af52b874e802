-- ===== src/Configuration/Reports.antt =====
-- What an Agent's echo or report does to its installation: the applied revision never falls.
use onlyfans_conversational.Prelude.{
  ℕ, ◌≤◌, String, String-discrete, Option, none, some, Bool, true, false, ◌≡◌, ◌⊎◌, refl, ok, arith,
  if◌then◌else◌, ltb, Bool-cases, inl, inr, ◌∙◌,
}
use onlyfans_conversational.Prelude.Dict.{lookup-insert_self}
use onlyfans_conversational.Configuration.Types.{
  Revision, InstallationKey-discrete, ConfigDocument, Installation, Documents, Raising, Failure,
  unknown_revision_or_digest,
}
use onlyfans_conversational.Configuration.Revisions.{revision_sequence}
use onlyfans_conversational.Configuration.Repository.{
  Repository, document, installation, save_installation,
}
use onlyfans_conversational.Configuration.Authority.{
  is_regression, applying, failing, Report, reported, record_report, failure_of, given_details,
}
use onlyfans_conversational.Configuration.Invariant.{
  IsApplied, IsValid, document-IsSealed, installation-IsInstalled, save_installation-IsValid,
  is_regression-decided,
}

-- The second applied revision is at or above the first, if there was one.
abbrev pub NotBehind : Option Revision → Option Revision → Type 0
NotBehind none after = Unit
NotBehind (some a) after =
    (b : Revision) × (after ≡ some b)
    × (n : ℕ) × (m : ℕ) × (revision_sequence a ≡ ok n)
    × (revision_sequence b ≡ ok m)
    × (n ≤ m)

not_older : (n m : ℕ) → Path (Raising Bool) (ok (ltb m n)) (ok false) → n ≤ m
not_older n m h = ground arith

module _ (docs : Documents) (r : Repository) where
  -- From one installation record to the next, without a fall.
  pub record Step (i j : Installation) : Type 0 where
    pub same_account : j.creator_account_id ≡ i.creator_account_id
    pub same_id : j.agent_installation_id ≡ i.agent_installation_id
    pub same_required : j.required_config_revision ≡ i.required_config_revision
    pub known : IsApplied docs r j.creator_account_id j.applied_config_revision
    pub not_behind : NotBehind i.applied_config_revision j.applied_config_revision

  pub NotBehind-refl :
      (account : String) (o : Option Revision)
      → IsValid docs r
      → IsApplied docs r account o
      → NotBehind o o
  NotBehind-refl account none v h = tt
  NotBehind-refl account (some a) v (d, found) =
      let sealed = document-IsSealed docs r account a d v found in
      (a, refl, sealed.0, sealed.0, sealed.1, sealed.1, omega arith)

  pub Step-failing :
      (i : Installation) (why : Failure)
      → IsValid docs r
      → IsApplied docs r i.creator_account_id i.applied_config_revision
      → Step i (failing i why)
  Step-failing i why v h = record {
    same_account = refl;
    same_id = refl;
    same_required = refl;
    known = h;
    not_behind = NotBehind-refl i.creator_account_id i.applied_config_revision v h;
  }

  -- The applied revision after `is_regression` was decided.
  abbrev pub advanced : Installation → Revision → Bool → Installation
  advanced i revision old = if old then i else applying i revision

  NotBehind-advanced :
      (account : String) (revision : Revision) (d : ConfigDocument) (applied : Option Revision)
      → IsValid docs r
      → document r account revision ≡ some d
      → IsApplied docs r account applied
      → is_regression revision applied ≡ ok false
      → NotBehind applied (some revision)
  NotBehind-advanced account revision d none v found h newer = tt
  NotBehind-advanced account revision d (some a) v found (e, was_known) newer =
      let new = document-IsSealed docs r account revision d v found in
      let was = document-IsSealed docs r account a e v was_known in
      let decided : Path (Raising Bool) (ok (ltb new.0 was.0)) (ok false) =
        rw (← newer, new.1, was.1) refl in
      (revision, refl, was.0, new.0, was.1, new.1, not_older was.0 new.0 decided)

  pub Step-advanced :
      (i : Installation) (revision : Revision) (d : ConfigDocument) (old : Bool)
      → IsValid docs r
      → document r i.creator_account_id revision ≡ some d
      → IsApplied docs r i.creator_account_id i.applied_config_revision
      → is_regression revision i.applied_config_revision ≡ ok old
      → Step i (advanced i revision old)
  Step-advanced i revision d true v found h decided = record {
    same_account = refl;
    same_id = refl;
    same_required = refl;
    known = h;
    not_behind = NotBehind-refl i.creator_account_id i.applied_config_revision v h;
  }
  Step-advanced i revision d false v found h decided = record {
    same_account = refl;
    same_id = refl;
    same_required = refl;
    known = (d, found);
    not_behind =
        NotBehind-advanced i.creator_account_id revision d i.applied_config_revision v found h
          decided;
  }

  -- A report moves the applied revision only when it names a stored document by its digest and
  -- says that it was applied.
  abbrev pub IsWarranted : Installation → Report → Installation → Type 0
  IsWarranted i p j =
      (j.applied_config_revision ≡ i.applied_config_revision)
      ⊎ ((j.applied_config_revision ≡ some p.config_revision)
          × (p.outcome ≡ "applied")
          × (d : ConfigDocument) × (document r i.creator_account_id p.config_revision ≡ some d)
          × (d.digest ≡ p.digest))

  reported-Step :
      (i : Installation) (p : Report) (o : Option ConfigDocument)
      → IsValid docs r
      → document r i.creator_account_id p.config_revision ≡ o
      → IsApplied docs r i.creator_account_id i.applied_config_revision
      → (j : Installation) × (reported i p o ≡ ok j) × Step i j × IsWarranted i p j
  unfolding reported
  reported-Step i p none v found h = (
    failing i unknown_revision_or_digest,
    refl,
    Step-failing i unknown_revision_or_digest v h,
    inl refl,
  )
  reported-Step i p (some d) v found h = elim (String-discrete d.digest p.digest) [
    | no other ↦ (
      failing i unknown_revision_or_digest,
      ground (arith, other),
      Step-failing i unknown_revision_or_digest v h,
      inl refl,
    )
    | yes same ↦ elim (String-discrete p.outcome "applied") [
      | no failed ↦
          let why = failure_of p.outcome (given_details p.capability_details) in
          (failing i why, ground (arith, same, failed), Step-failing i why v h, inl refl)
      | yes done ↦
          let (old, decided) =
            is_regression-decided docs r i.creator_account_id p.config_revision
              i.applied_config_revision d v found h in
          (
            advanced i p.config_revision old,
            ground (arith, same, done, decided),
            Step-advanced i p.config_revision d old v found h decided,
            elim (Bool-cases old) [
              | inl e ↦ inl (rw e refl)
              | inr e ↦ inr (rw e refl, done, d, found, same)
            ],
          )
    ]
  ]

pub installation-save_installation :
    (r : Repository) (j : Installation) (account : String) (id : ℕ)
    → j.creator_account_id ≡ account
    → j.agent_installation_id ≡ id
    → installation (save_installation r j) account id ≡ some j
unfolding installation save_installation
installation-save_installation r j account id e f =
    rw (← e, ← f)
      (lookup-insert_self InstallationKey-discrete (j.creator_account_id, j.agent_installation_id) j
        r.installations)

-- On a valid repository the report of an installation that is known is always taken: its record is stored under its
-- identifiers with the same required revision; the applied revision is not behind the one before,
-- and differs from it only if the report says applied and names a stored document by its digest.
pub record_report-Step :
    (docs : Documents) (r : Repository) (account : String) (id : ℕ) (p : Report) (i : Installation)
    → IsValid docs r
    → installation r account id ≡ some i
    → (j : Installation) × (r' : Repository) × (record_report r account id p ≡ ok (j, r'))
      × IsValid docs r'
      × (installation r' account id ≡ some j)
      × Step docs r i j
      × IsWarranted docs r i p j
unfolding record_report
record_report-Step docs r account id p i v found =
    let (same_account, same_id, known) = installation-IsInstalled docs r account id i v found in
    let (j, runs, step, warranted) =
      reported-Step docs r i p (document r account p.config_revision) v (rw same_account refl)
        known in
    (
      j,
      save_installation r j,
      rw (found, runs) refl,
      save_installation-IsValid docs r j v step.known,
      installation-save_installation r j account id (step.same_account ∙ same_account)
          (step.same_id ∙ same_id),
      step,
      warranted,
    )
