-- ===== src/Configuration/Invariant.antt =====
-- What holds of the configuration repository between two calls.
use onlyfans_conversational.Prelude.{
  ℕ, String, String-discrete, Option, none, some, Bool, true, false, All, ◌≡◌, refl, ok, arith, ltb,
  Option-cases, inl, inr,
}
use onlyfans_conversational.Prelude.Dict
use onlyfans_conversational.Prelude.Dict.{Dict}
use onlyfans_conversational.Prelude.Entries.{All-insert, All-lookup}
use onlyfans_conversational.Configuration.Types.{
  Revision, DocumentKey-discrete, InstallationKey-discrete, ConfigDocument, Installation, Documents,
}
use onlyfans_conversational.Configuration.Revisions.{revision_sequence}
use onlyfans_conversational.Configuration.Repository.{
  Repository, document, installation, save_installation, is_behind, required_document,
}
use onlyfans_conversational.Configuration.Authority.{is_regression}

module _ (docs : Documents) where
  -- A stored document stands under its account and revision, is sealed by its digest, and its
  -- sequence is not above the last one of its account.
  abbrev pub IsSealed : Dict String ℕ → String × Revision → ConfigDocument → Type 0
  IsSealed last key d =
      (n : ℕ) × (revision_sequence key.1 ≡ ok n)
      × (is_behind n (Dict.lookup String-discrete key.0 last) ≡ true)
      × (d.creator_account_id ≡ key.0)
      × (d.config_revision ≡ key.1)
      × (docs.content_digest d ≡ d.digest)

  -- An applied revision is one of a stored document.
  abbrev pub IsApplied : Repository → String → Option Revision → Type 0
  IsApplied r account none = Unit
  IsApplied r account (some revision) =
      (d : ConfigDocument) × (document r account revision ≡ some d)

  abbrev pub IsInstalled : Repository → String × ℕ → Installation → Type 0
  IsInstalled r key i =
      (i.creator_account_id ≡ key.0)
      × (i.agent_installation_id ≡ key.1)
      × IsApplied r i.creator_account_id i.applied_config_revision

  pub record IsValid (r : Repository) : Type 0 where
    pub sealed : All (λ e. IsSealed r.last_sequence e.0 e.1) r.documents
    pub installed : All (λ e. IsInstalled r e.0 e.1) r.installations
    pub requires : All (λ e. (d : ConfigDocument) × (document r e.0 e.1 ≡ some d)) r.required

  pub document-IsSealed :
      (r : Repository) (account : String) (revision : Revision) (d : ConfigDocument)
      → IsValid r
      → document r account revision ≡ some d
      → IsSealed r.last_sequence (account, revision) d
  unfolding document
  document-IsSealed r account revision d v found =
      All-lookup DocumentKey-discrete (IsSealed r.last_sequence) (account, revision) d r.documents
        v.sealed found

  pub installation-IsInstalled :
      (r : Repository) (account : String) (id : ℕ) (i : Installation)
      → IsValid r
      → installation r account id ≡ some i
      → IsInstalled r (account, id) i
  unfolding installation
  installation-IsInstalled r account id i v found =
      All-lookup InstallationKey-discrete (IsInstalled r) (account, id) i r.installations
        v.installed found

  pub save_installation-IsValid :
      (r : Repository) (i : Installation)
      → IsValid r
      → IsApplied r i.creator_account_id i.applied_config_revision
      → IsValid (save_installation r i)
  unfolding save_installation document
  save_installation-IsValid r i v applied = record {
    sealed = v.sealed;
    installed =
        All-insert InstallationKey-discrete (λ e. IsInstalled r e.0 e.1)
          (i.creator_account_id, i.agent_installation_id) i r.installations (refl, refl, applied)
          v.installed;
    requires = v.requires;
  }

  -- The required revision of an account, when there is one, is that of a stored document.
  pub required_document-stored :
      (r : Repository) (account : String) (d : ConfigDocument)
      → IsValid r
      → required_document r account ≡ ok d
      → (document r account d.config_revision ≡ some d)
  unfolding required_document
  required_document-stored r account d v found =
      elim (Option-cases (Dict.lookup String-discrete account r.required)) [
        | inl gone ↦ ground (arith, gone, found)
        | inr (revision, at) ↦ elim (Option-cases (document r account revision)) [
          | inl missing ↦ ground (arith, at, missing, found)
          | inr (e, stored) ↦
              let same = (document-IsSealed r account revision e v stored).4 in
              ground (arith, at, stored, found, same)
        ]
      ]

  -- Comparing the revisions of two stored documents does not raise.
  pub is_regression-decided :
      (r : Repository) (account : String) (revision : Revision) (applied : Option Revision)
      (d : ConfigDocument)
      → IsValid r
      → document r account revision ≡ some d
      → IsApplied r account applied
      → (old : Bool) × (is_regression revision applied ≡ ok old)
  is_regression-decided r account revision none d v found h = (false, refl)
  is_regression-decided r account revision (some a) d v found (e, known) =
      let new = document-IsSealed r account revision d v found in
      let was = document-IsSealed r account a e v known in (ltb new.0 was.0, rw (new.1, was.1) refl)
