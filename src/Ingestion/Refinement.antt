-- ===== src/Ingestion/Refinement.antt =====
-- `_replace_projection` against a client that keeps its own copy of the conversations.
use onlyfans_conversational.Prelude.{
  ℕ, ◌+◌, String, String-discrete, Option, none, some, List, [], ◌∷◌, ◌≡◌, refl, arith,
}
use onlyfans_conversational.Prelude.Dict
use onlyfans_conversational.Prelude.Dict.{Dict}
use onlyfans_conversational.Ingestion.Types.{
  RawChat, RawMessage, Conversation, RawStreamState, AccountReadModel, StateChange, StateDelta,
}
use onlyfans_conversational.Ingestion.Projection.{
  conversation_of, project, changes_between, replaced, replace_projection,
}
use onlyfans_conversational.Ingestion.Groups.{conversation_spec, lookup-project}
use onlyfans_conversational.Ingestion.Deltas.{IsKeyed, apply_changes, lookup-changes_between}

abbrev dec : Discrete String
dec = String-discrete

-- What a delta carries; no delta is broadcast when nothing changed.
abbrev pub changes_of : Option StateDelta → List StateChange
changes_of none = []
changes_of (some delta) = delta.changes

abbrev pub revision_step : Option StateDelta → ℕ
revision_step none = 0
revision_step (some delta) = 1

conversation_spec-keyed :
    (messages : Dict String RawMessage) (k : String) (o : Option RawChat) (c : Conversation)
    → conversation_spec messages k o ≡ some c
    → c.conversation_id ≡ k
unfolding conversation_of
conversation_spec-keyed messages k none c h = cc
conversation_spec-keyed messages k (some chat) c h = ground arith

pub project-IsKeyed : (s : RawStreamState) → IsKeyed (project s)
project-IsKeyed s k c h =
    conversation_spec-keyed s.messages k (Dict.lookup dec k s.chats) c (rw (← lookup-project k s) h)

module _ (creator : String) (account : AccountReadModel) (now : String) where
  replaced-parts :
      (projected : Dict String Conversation) (cs : List StateChange)
      → (changes_of (replaced creator account projected now cs).1 ≡ cs)
        × ((replaced creator account projected now cs).0.conversations ≡ projected)
        × ((replaced creator account projected now cs).0.view_revision
            ≡ account.view_revision + revision_step (replaced creator account projected now cs).1)
  replaced-parts projected [] = (refl, refl, omega arith)
  replaced-parts projected (c ∷ cs) = (refl, refl, refl)

  module _ (s : RawStreamState) where
    pub changes_of-replace_projection :
        changes_of (replace_projection creator account s now).1
        ≡ changes_between account.conversations (project s)
    unfolding replace_projection
    changes_of-replace_projection =
        (replaced-parts (project s) (changes_between account.conversations (project s))).0

    pub conversations-replace_projection :
        (replace_projection creator account s now).0.conversations ≡ project s
    unfolding replace_projection
    conversations-replace_projection =
        (replaced-parts (project s) (changes_between account.conversations (project s))).1

    pub view_revision-replace_projection :
        (replace_projection creator account s now).0.view_revision
        ≡ account.view_revision + revision_step (replace_projection creator account s now).1
    unfolding replace_projection
    view_revision-replace_projection =
        (replaced-parts (project s) (changes_between account.conversations (project s))).2

    -- A client that holds the account's old conversations and applies the broadcast changes (none
    -- when there is no delta) then holds, at every conversation id, what the stored read model
    -- holds; and the revision moves by one exactly when there is a delta.
    pub replace_projection_refines :
        ((k : String)
          → Dict.lookup dec k (
              apply_changes account.conversations
                (changes_of (replace_projection creator account s now).1))
            ≡ Dict.lookup dec k (replace_projection creator account s now).0.conversations)
        × ((replace_projection creator account s now).0.view_revision
            ≡ account.view_revision + revision_step (replace_projection creator account s now).1)
    replace_projection_refines = (
      λ k.
          rw (changes_of-replace_projection, conversations-replace_projection)
            (lookup-changes_between account.conversations (project s) (project-IsKeyed s) k),
      view_revision-replace_projection,
    )

    -- With no delta the new projection agrees with the old read model.
    pub unchanged_of_none :
        (replace_projection creator account s now).1 ≡ none
        → (k : String) → Dict.lookup dec k account.conversations ≡ Dict.lookup dec k (project s)
    unfolding apply_changes
    unchanged_of_none e k =
        rw
          (
            ← lookup-changes_between account.conversations (project s) (project-IsKeyed s) k,
            ← changes_of-replace_projection,
            e,
          )
          refl
