-- ===== src/Ingestion/Commits.antt =====
-- The commit of `InMemoryIngestionRepository`, and that a handler's own commit is never refused.
use onlyfans_conversational.Prelude.{
  ℕ, ◌+◌, String, String-discrete, Option, none, some, [], ◌∷◌, true, All, ◌≡◌, refl, sym, arith,
  ◌⊎◌, inl, inr, Option-cases,
}
use onlyfans_conversational.Prelude.Dict
use onlyfans_conversational.Prelude.Dict.{Dict, lookup-insert}
use onlyfans_conversational.Prelude.Membership.{
  Included, Included-head, Included-tail, length-le_of_Included,
}
use onlyfans_conversational.Ingestion.Types.{
  StreamKey, StreamKey-discrete, RawStreamState, AccountReadModel, Conversation,
}
use onlyfans_conversational.Ingestion.Repository
use onlyfans_conversational.Ingestion.Invariant.{IsStream}
use onlyfans_conversational.Prelude.Entries.{All-lookup, All-insert}
use onlyfans_conversational.Ingestion.Repository.{
  Repository, empty, or_empty, account_read_model, within, same_conversations, current_checkpoint,
  commit,
}
use onlyfans_conversational.Ingestion.Projection.{project, replace_projection}
use onlyfans_conversational.Ingestion.Groups.{project-IsDistinct}
use onlyfans_conversational.Ingestion.Refinement.{
  conversations-replace_projection, view_revision-replace_projection, unchanged_of_none,
}

abbrev dec : Discrete String
dec = String-discrete

within_of_Included :
    (a b : Dict String Conversation) → Dict.IsDistinct dec a → Included dec a b → within a b ≡ true
within_of_Included [] b h i = refl
within_of_Included (e ∷ a) b h i =
    ground
      (arith, Included-head dec e a b i, within_of_Included a b h.1 (Included-tail dec e a b h i))

-- Dicts that answer every lookup alike are equal in Python's sense.
same_of_lookups :
    (a b : Dict String Conversation)
    → Dict.IsDistinct dec a
    → Dict.IsDistinct dec b
    → ((k : String) → Dict.lookup dec k a ≡ Dict.lookup dec k b)
    → same_conversations a b ≡ true
same_of_lookups a b ha hb same =
    let ab : Included dec a b = λ k v e. rw (← same k) e in
    let ba : Included dec b a = λ k v e. rw (same k) e in
    ground (
      arith,
      within_of_Included a b ha ab,
      length-le_of_Included dec a b ha ab,
      length-le_of_Included dec b a hb ba,
    )

abbrev pub IsSound : StreamKey × RawStreamState → Type 0
IsSound e = IsStream e.1

abbrev pub IsDistinctAccount : String × AccountReadModel → Type 0
IsDistinctAccount e = Dict.IsDistinct dec e.1.conversations

-- Every stored stream is well formed, and every read model is a dict.
pub record IsValid (r : Repository) : Type 0 where
  pub streams : All IsSound r.streams
  pub accounts : All IsDistinctAccount r.accounts

pub empty-IsValid : IsValid empty
empty-IsValid = record { streams = tt; accounts = tt }

or_empty-IsDistinct :
    (o : Option AccountReadModel)
    → ((m : AccountReadModel) → o ≡ some m → Dict.IsDistinct dec m.conversations)
    → Dict.IsDistinct dec (or_empty o).conversations
or_empty-IsDistinct none h = tt
or_empty-IsDistinct (some m) h = h m refl

pub account_read_model-IsDistinct :
    (r : Repository) (a : String)
    → IsValid r
    → Dict.IsDistinct dec (account_read_model r a).conversations
unfolding account_read_model
account_read_model-IsDistinct r a v =
    or_empty-IsDistinct (Dict.lookup dec a r.accounts)
      (λ m. All-lookup dec (λ _ x. Dict.IsDistinct dec x.conversations) a m r.accounts v.accounts)

pub stream-IsStream :
    (r : Repository) (key : StreamKey) (s : RawStreamState)
    → IsValid r
    → Repository.stream r key ≡ some s
    → IsStream s
unfolding Repository.stream
stream-IsStream r key s v e =
    All-lookup StreamKey-discrete (λ _ x. IsStream x) key s r.streams v.streams e

-- The repository after a commit that went through.
abbrev pub stored : Repository → StreamKey → RawStreamState → AccountReadModel → Repository
stored r key s account = record {
  streams = Dict.insert StreamKey-discrete key s r.streams;
  accounts = Dict.insert dec key.creator_account_id account r.accounts;
}

module _ (r : Repository) (key : StreamKey) (expected : ℕ) (s : RawStreamState) where
  -- `_commit` goes through at the current checkpoint when the read model is the current one, or
  -- one revision on.
  pub commit_accepts :
      (account : AccountReadModel)
      → current_checkpoint (Dict.lookup StreamKey-discrete key r.streams) ≡ expected
      → (account.view_revision ≡ (account_read_model r key.creator_account_id).view_revision + 1)
        ⊎ ((account.view_revision ≡ (account_read_model r key.creator_account_id).view_revision)
            × (same_conversations account.conversations
                  (account_read_model r key.creator_account_id).conversations
                ≡ true))
      → commit r key expected s account ≡ (true, stored r key s account)
  unfolding commit
  commit_accepts account at ready = ground arith

  -- The commit of a stream with its replaced projection goes through at the current checkpoint, if
  -- neither the chats nor the old conversations have a key twice.
  pub commit-replace_projection :
      (now : String)
      → current_checkpoint (Dict.lookup StreamKey-discrete key r.streams) ≡ expected
      → Dict.IsDistinct dec s.chats
      → Dict.IsDistinct dec (account_read_model r key.creator_account_id).conversations
      → let account =
          (replace_projection key.creator_account_id
            (account_read_model r key.creator_account_id)
            s
            now).0 in
        commit r key expected s account ≡ (true, stored r key s account)
  commit-replace_projection now at chats conversations =
      let creator = key.creator_account_id in
      let current = account_read_model r creator in
      let replaced = replace_projection creator current s now in
      commit_accepts replaced.0 at (elim (Option-cases replaced.1) [
        | inl e ↦ inr (
          rw (view_revision-replace_projection creator current now s, e) (omega arith),
          rw (conversations-replace_projection creator current now s) (
              same_of_lookups (project s) current.conversations (project-IsDistinct s chats)
                conversations (λ k. sym (unchanged_of_none creator current now s e k))),
        )
        | inr (d, e) ↦ inl (rw (view_revision-replace_projection creator current now s, e))
      ])

pub stored-IsValid :
    (r : Repository) (key : StreamKey) (s : RawStreamState) (account : AccountReadModel)
    → IsValid r
    → IsStream s
    → Dict.IsDistinct dec account.conversations
    → IsValid (stored r key s account)
stored-IsValid r key s account v hs ha = record {
  streams = All-insert StreamKey-discrete IsSound key s r.streams hs v.streams;
  accounts =
      All-insert dec IsDistinctAccount key.creator_account_id account r.accounts ha v.accounts;
}
