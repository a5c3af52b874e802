-- ===== src/Configuration/Publications.antt =====
-- `publish`: a new immutable document, required of the account.
use onlyfans_conversational.Prelude.{
  ℕ, ◌+◌, String, String-discrete, some, map, ◌≡◌, refl, ok, arith,
}
use onlyfans_conversational.Prelude.Dict
use onlyfans_conversational.Prelude.Dict.{Dict, lookup-insert, lookup-insert_self}
use onlyfans_conversational.Configuration.Types.{
  Revision, DocumentKey-discrete, ConfigDocument, Documents, CapturePolicy, CommandPolicy,
  HistoryAcquisition,
}
use onlyfans_conversational.Configuration.Revisions.{
  revision_sequence, revision_sequence-revision_of,
}
use onlyfans_conversational.Configuration.Repository.{
  Repository, document, add_document, with_document, with_required, set_required,
  require_for_account, requiring, next_revision, or_zero,
}
use onlyfans_conversational.Configuration.Authority.{
  publish, draft, build_config_document, ensure_dependency_closed,
}
use onlyfans_conversational.Configuration.Invariant.{IsValid}
use onlyfans_conversational.Configuration.Publishing.{
  IsSealing, Published, published, next-fresh, is_behind-next, published-Published,
  published-IsValid,
}

build_config_document-sealed :
    (docs : Documents) (x n : ConfigDocument)
    → IsSealing docs
    → docs.normalize x ≡ some n
    → build_config_document docs x ≡ ok (record n { digest = docs.content_digest n })
unfolding build_config_document
build_config_document-sealed docs x n s valid = rw (valid, s.keeps_digest x n valid) refl

require_for_account-known :
    (r : Repository) (account : String) (revision : Revision) (d : ConfigDocument)
    → document r account revision ≡ some d
    → require_for_account r account revision
      ≡ ok (record (with_required r account revision) {
        installations = map (requiring account revision) r.installations;
      })
unfolding require_for_account set_required
require_for_account-known r account revision d found = rw found refl

add_document-fresh :
    (docs : Documents) (r : Repository) (d : ConfigDocument) (n : ℕ)
    → IsValid docs r
    → revision_sequence d.config_revision ≡ ok n
    → n ≡ or_zero (Dict.lookup String-discrete d.creator_account_id r.last_sequence) + 1
    → docs.content_digest d ≡ d.digest
    → add_document docs r d ≡ ok (with_document r d n)
unfolding add_document
add_document-fresh docs r d n v reads next sealed =
    let fresh = next-fresh docs r d.creator_account_id d.config_revision v (rw (← next) reads) in
    let ahead =
      is_behind-next n (Dict.lookup String-discrete d.creator_account_id r.last_sequence) next in
    ground (arith, fresh, ahead, reads, sealed)

next_revision-reads :
    (r : Repository) (account : String)
    → revision_sequence (next_revision r account)
      ≡ ok (or_zero (Dict.lookup String-discrete account r.last_sequence) + 1)
unfolding next_revision
next_revision-reads r account =
    revision_sequence-revision_of
      (or_zero (Dict.lookup String-discrete account r.last_sequence) + 1)

stored_document :
    (r : Repository) (d : ConfigDocument) (n : ℕ)
    → document (with_document r d n) d.creator_account_id d.config_revision ≡ some d
unfolding document
stored_document r d n =
    lookup-insert_self DocumentKey-discrete (d.creator_account_id, d.config_revision) d r.documents

-- On a valid repository, with validation and digest as in IsSealing, publishing a policy whose
-- message capture stands on chat capture, when the draft validates, always returns a document in a valid repository: under the next sequence of its account, which
-- no stored document had; every other stored document is as it was; the new one is required of
-- the account and of each of its installations, and of no other.
pub publish-Published :
    (docs : Documents) (r : Repository) (account : String) (capture : CapturePolicy)
    (command : CommandPolicy) (history : HistoryAcquisition) (issued_at : ℕ) (n : ConfigDocument)
    → IsSealing docs
    → IsValid docs r
    → ensure_dependency_closed capture ≡ ok tt
    → docs.normalize (draft account (next_revision r account) issued_at capture command history)
      ≡ some n
    → (d : ConfigDocument) × (r' : Repository) × (publish docs r account capture command history
          issued_at
        ≡ ok (d, r'))
      × (d.creator_account_id ≡ account)
      × IsValid docs r'
      × Published docs r r' d
unfolding publish
publish-Published docs r account capture command history issued_at n s v closed valid =
    let x = draft account (next_revision r account) issued_at capture command history in
    let d = record n { digest = docs.content_digest n } in
    let (same, named) = s.identity x n valid in
    let sequence = or_zero (Dict.lookup String-discrete d.creator_account_id r.last_sequence) + 1 in
    let reads : revision_sequence d.config_revision ≡ ok sequence =
      rw (named, same) (next_revision-reads r account) in
    let sealed = s.without_digest n (docs.content_digest n) in
    let added = add_document-fresh docs r d sequence v reads refl sealed in
    (
      d,
      published r d sequence,
      rw
          (
            closed,
            build_config_document-sealed docs x n s valid,
            added,
            ← same,
            require_for_account-known (with_document r d sequence) d.creator_account_id
                d.config_revision d (stored_document r d sequence),
          )
          refl,
      same,
      published-IsValid docs r d sequence v reads refl sealed,
      published-Published docs r d sequence v reads refl sealed,
    )
