-- ===== src/Configuration/Publishing.antt =====
-- The repository with one more document, required of its account, as publishing leaves it.
use onlyfans_conversational.Prelude.{
  ℕ, ◌+◌, String, String-discrete, Option, none, some, [], ◌∷◌, map, true, false, All, ◌≡◌, refl,
  sym, ok, arith, if◌then◌else◌, holds, Bool-cases, Option-cases, inl, inr, ite, ◌∙◌,
}
use onlyfans_conversational.Prelude.Dict
use onlyfans_conversational.Prelude.Dict.{Dict, lookup-insert, lookup-insert_self}
use onlyfans_conversational.Prelude.Entries.{All-insert, All-imp}
use onlyfans_conversational.Configuration.Types.{
  Revision, DocumentKey-discrete, InstallationKey-discrete, ConfigDocument, Installation, Documents,
  Raising,
}
use onlyfans_conversational.Configuration.Revisions.{revision_sequence}
use onlyfans_conversational.Configuration.Repository.{
  Repository, document, installation, with_document, with_required, requiring, or_zero, is_behind,
}
use onlyfans_conversational.Configuration.Invariant.{
  IsSealed, IsApplied, IsInstalled, IsValid, document-IsSealed,
}

-- What publishing relies on in pydantic and in the digest: validation keeps the identity of a
-- draft, takes a well-formed digest as it is, and the digest leaves out the digest field.
pub record IsSealing (docs : Documents) : Type 0 where
  pub identity :
      (x n : ConfigDocument)
      → docs.normalize x ≡ some n
      → (n.creator_account_id ≡ x.creator_account_id) × (n.config_revision ≡ x.config_revision)
  pub keeps_digest :
      (x n : ConfigDocument)
      → docs.normalize x ≡ some n
      → docs.normalize (record x { digest = docs.content_digest n })
        ≡ some (record n { digest = docs.content_digest n })
  pub without_digest :
      (n : ConfigDocument) (y : String)
      → docs.content_digest (record n { digest = y }) ≡ docs.content_digest n

-- An installation, once the revision is required of the account.
abbrev pub required_of : String → Revision → Option Installation → Option Installation
required_of account revision none = none
required_of account revision (some i) = some (
    if holds (String-discrete i.creator_account_id account)
    then record i { required_config_revision = revision }
    else i)

-- The repository after the document was published, by what each lookup finds.
pub record Published (docs : Documents) (r r' : Repository) (d : ConfigDocument) : Type 0 where
  pub fresh : document r d.creator_account_id d.config_revision ≡ none
  pub next :
      revision_sequence d.config_revision
      ≡ ok (or_zero (Dict.lookup String-discrete d.creator_account_id r.last_sequence) + 1)
  pub sealed : docs.content_digest d ≡ d.digest
  pub documents :
      (a : String) (revision : Revision)
      → document r' a revision
        ≡ ite
            (DocumentKey-discrete (a, revision) (d.creator_account_id, d.config_revision))
            (some d)
            (document r a revision)
  pub required :
      (a : String)
      → Dict.lookup String-discrete a r'.required
        ≡ ite
            (String-discrete a d.creator_account_id)
            (some d.config_revision)
            (Dict.lookup String-discrete a r.required)
  pub installations :
      (a : String) (id : ℕ)
      → installation r' a id
        ≡ required_of d.creator_account_id d.config_revision (installation r a id)

-- The repository that publishing the document under the sequence leaves.
abbrev pub published : Repository → ConfigDocument → ℕ → Repository
published r d n =
    let added = with_required (with_document r d n) d.creator_account_id d.config_revision in
    record added {
      installations = map (requiring d.creator_account_id d.config_revision) added.installations;
    }

lookup-requiring :
    (account : String) (revision : Revision) (key : String × ℕ) (d : Dict (String × ℕ) Installation)
    → Dict.lookup InstallationKey-discrete key (map (requiring account revision) d)
      ≡ required_of account revision (Dict.lookup InstallationKey-discrete key d)
unfolding Dict.lookup
lookup-requiring account revision key [] = refl
lookup-requiring account revision key (e ∷ d) =
    ground (arith, lookup-requiring account revision key d)

pub is_behind-next : (n : ℕ) (o : Option ℕ) → n ≡ or_zero o + 1 → is_behind n o ≡ false
is_behind-next n none e = refl
is_behind-next n (some m) e = ground arith

module _ (docs : Documents) (r : Repository) where
  pub next-fresh :
      (account : String) (revision : Revision)
      → IsValid docs r
      → revision_sequence revision
        ≡ ok (or_zero (Dict.lookup String-discrete account r.last_sequence) + 1)
      → document r account revision ≡ none
  next-fresh account revision v next = elim (Option-cases (document r account revision)) [
    | inl gone ↦ gone
    | inr (d, found) ↦
        let sealed = document-IsSealed docs r account revision d v found in
        let n = or_zero (Dict.lookup String-discrete account r.last_sequence) + 1 in
        let same : Path (Raising ℕ) (ok sealed.0) (ok n) = sym sealed.1 ∙ next in
        let equal : sealed.0 ≡ n = cc in
        let behind =
          is_behind-next sealed.0 (Dict.lookup String-discrete account r.last_sequence) equal in
        absurd (ground (arith, behind, sealed.2))
  ]

  pub published-Published :
      (d : ConfigDocument) (n : ℕ)
      → IsValid docs r
      → revision_sequence d.config_revision ≡ ok n
      → n ≡ or_zero (Dict.lookup String-discrete d.creator_account_id r.last_sequence) + 1
      → docs.content_digest d ≡ d.digest
      → Published docs r (published r d n) d
  unfolding document installation
  published-Published d n v reads next sealed =
      let reads_next : revision_sequence d.config_revision
          ≡ ok (or_zero (Dict.lookup String-discrete d.creator_account_id r.last_sequence) + 1) =
        rw (← next) reads in
      record {
        fresh = next-fresh d.creator_account_id d.config_revision v reads_next;
        next = reads_next;
        sealed = sealed;
        documents = λ a revision.
            lookup-insert DocumentKey-discrete (a, revision)
              (d.creator_account_id, d.config_revision) d r.documents;
        required =
            λ a. lookup-insert String-discrete a d.creator_account_id d.config_revision r.required;
        installations =
            λ a id. lookup-requiring d.creator_account_id d.config_revision (a, id) r.installations;
      }

  covers_next :
      (m n : ℕ) (o : Option ℕ)
      → is_behind m o ≡ true
      → n ≡ or_zero o + 1
      → is_behind m (some n) ≡ true
  covers_next m n none h e = cc
  covers_next m n (some l) h e = ground arith

  is_behind-insert :
      (m n : ℕ) (a account : String)
      → n ≡ or_zero (Dict.lookup String-discrete account r.last_sequence) + 1
      → is_behind m (Dict.lookup String-discrete a r.last_sequence) ≡ true
      → is_behind m
          (Dict.lookup String-discrete a (Dict.insert String-discrete account n r.last_sequence))
        ≡ true
  is_behind-insert m n a account next h =
      let inserted = lookup-insert String-discrete a account n r.last_sequence in
      elim (String-discrete a account) [
        | yes same ↦
            let covered =
              covers_next m n (Dict.lookup String-discrete account r.last_sequence) (rw (← same) h)
                next in
            ground (arith, inserted, same, covered)
        | no other ↦ ground (arith, inserted, other, h)
      ]

  module _ (d : ConfigDocument) (n : ℕ) where
    document-published :
        (a : String) (revision : Revision)
        → (e : ConfigDocument) × (document r a revision ≡ some e)
        → (e : ConfigDocument) × (document (published r d n) a revision ≡ some e)
    unfolding document
    document-published a revision (e, found) =
        let now_found =
          lookup-insert DocumentKey-discrete (a, revision) (d.creator_account_id, d.config_revision)
            d r.documents in
        elim (DocumentKey-discrete (a, revision) (d.creator_account_id, d.config_revision)) [
          | yes same ↦ (d, ground (arith, now_found, same))
          | no other ↦ (e, ground (arith, now_found, other, found))
        ]

    document-own :
        (e : ConfigDocument) × (document (published r d n) d.creator_account_id d.config_revision
          ≡ some e)
    unfolding document
    document-own = (
      d,
      lookup-insert_self DocumentKey-discrete (d.creator_account_id, d.config_revision) d
          r.documents,
    )

    IsApplied-published :
        (a : String) (o : Option Revision)
        → IsApplied docs r a o
        → IsApplied docs (published r d n) a o
    IsApplied-published a none h = tt
    IsApplied-published a (some revision) h = document-published a revision h

    IsInstalled-requiring :
        (e : (String × ℕ) × Installation)
        → IsInstalled docs r e.0 e.1
        → IsInstalled docs
            (published r d n)
            (requiring d.creator_account_id d.config_revision e).0
            (requiring d.creator_account_id d.config_revision e).1
    IsInstalled-requiring e h =
        elim (Bool-cases (holds (String-discrete e.1.creator_account_id d.creator_account_id))) [
          | inl own ↦
              rw own (
                h.0,
                h.1,
                IsApplied-published e.1.creator_account_id e.1.applied_config_revision h.2,
              )
          | inr other ↦
              rw other (
                h.0,
                h.1,
                IsApplied-published e.1.creator_account_id e.1.applied_config_revision h.2,
              )
        ]

    All-requiring :
        (es : Dict (String × ℕ) Installation)
        → All (λ e. IsInstalled docs r e.0 e.1) es
        → All
            (λ e. IsInstalled docs (published r d n) e.0 e.1)
            (map (requiring d.creator_account_id d.config_revision) es)
    All-requiring [] h = tt
    All-requiring (e ∷ es) h = (IsInstalled-requiring e h.0, All-requiring es h.1)

    pub published-IsValid :
        IsValid docs r
        → revision_sequence d.config_revision ≡ ok n
        → n ≡ or_zero (Dict.lookup String-discrete d.creator_account_id r.last_sequence) + 1
        → docs.content_digest d ≡ d.digest
        → IsValid docs (published r d n)
    published-IsValid v reads next sealed =
        let last = Dict.insert String-discrete d.creator_account_id n r.last_sequence in
        record {
          sealed =
              All-insert DocumentKey-discrete (λ e. IsSealed docs last e.0 e.1)
                (d.creator_account_id, d.config_revision) d r.documents
                (
                  n,
                  reads,
                  rw (lookup-insert_self String-discrete d.creator_account_id n r.last_sequence)
                      (ground arith),
                  refl,
                  refl,
                  sealed,
                )
                (All-imp (λ e. IsSealed docs r.last_sequence e.0 e.1)
                  (λ e. IsSealed docs last e.0 e.1) r.documents
                  (λ e h. (
                    h.0,
                    h.1,
                    is_behind-insert h.0 n e.0.0 d.creator_account_id next h.2,
                    h.3,
                    h.4,
                    h.5,
                  ))
                  v.sealed);
          installed = All-requiring r.installations v.installed;
          requires =
              All-insert String-discrete
                (λ e. (f : ConfigDocument) × (document (published r d n) e.0 e.1 ≡ some f))
                d.creator_account_id d.config_revision r.required document-own
                (All-imp (λ e. (f : ConfigDocument) × (document r e.0 e.1 ≡ some f))
                  (λ e. (f : ConfigDocument) × (document (published r d n) e.0 e.1 ≡ some f))
                  r.required (λ e h. document-published e.0 e.1 h) v.requires);
        }
