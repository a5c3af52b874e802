-- ===== src/Ingestion/Repository.antt =====
-- `InMemoryIngestionRepository` of app/transport/ingestion.py. What it hands out and takes in is
-- deep-copied there, so a value here is never shared.
use onlyfans_conversational.Prelude.{
  ℕ, ◌+◌, String, String-discrete, ℕ_discrete, Option, none, some, [], ◌∷◌, Result, ok, err, Bool,
  true, false, ◌&&◌, ◌||◌, not, holds, ltb, length, if◌then◌else◌,
}
use onlyfans_conversational.Prelude.Dict
use onlyfans_conversational.Prelude.Dict.{Dict}
use onlyfans_conversational.Ingestion.Types.{
  StreamKey, StreamKey-discrete, RawStreamState, AccountReadModel, Conversation,
  Conversation-discrete,
}

pub record Repository : Type 0 where
  pub streams : Dict StreamKey RawStreamState
  pub accounts : Dict String AccountReadModel

abbrev pub empty : Repository
empty = record { streams = []; accounts = [] }

abbrev pub empty_account : AccountReadModel
empty_account = record { view_revision = 0; conversations = [] }

unfoldable pub checkpoint : Repository → StreamKey → Option ℕ
checkpoint r key = elim (Dict.lookup StreamKey-discrete key r.streams) [
  | none ↦ none
  | some state ↦ some state.checkpoint
]

unfoldable pub stream : Repository → StreamKey → Option RawStreamState
stream r key = Dict.lookup StreamKey-discrete key r.streams

abbrev pub or_empty : Option AccountReadModel → AccountReadModel
or_empty none = empty_account
or_empty (some m) = m

-- `self._accounts.get(id, AccountReadModel())`
unfoldable pub account_read_model : Repository → String → AccountReadModel
account_read_model r account = or_empty (Dict.lookup String-discrete account r.accounts)

-- Every entry of `a` stands in `b`, and `a == b` on dicts.
abbrev pub within : Dict String Conversation → Dict String Conversation → Bool
within [] b = true
within (e ∷ a) b = elim (Dict.lookup String-discrete e.0 b) [
  | none ↦ false
  | some c ↦ holds (Conversation-discrete e.1 c) && within a b
]

abbrev pub same_conversations : Dict String Conversation → Dict String Conversation → Bool
same_conversations a b = holds (ℕ_discrete (length a) (length b)) && within a b

abbrev pub current_checkpoint : Option RawStreamState → ℕ
current_checkpoint none = 0
current_checkpoint (some state) = state.checkpoint

-- `_commit`: the answer, and the repository after it.
unfoldable pub commit :
    Repository → StreamKey → ℕ → RawStreamState → AccountReadModel → Bool × Repository
unfolding account_read_model
commit r key expected new_stream account =
    let current = account_read_model r key.creator_account_id in
    if not (
      holds
        (ℕ_discrete (current_checkpoint (Dict.lookup StreamKey-discrete key r.streams)) expected))
    then (false, r)
    else if not (
        holds (ℕ_discrete account.view_revision current.view_revision)
        || holds (ℕ_discrete account.view_revision (current.view_revision + 1)))
    then (false, r)
    else if holds (ℕ_discrete account.view_revision current.view_revision)
        && not (same_conversations account.conversations current.conversations)
    then (false, r)
    else (
      true,
      record {
        streams = Dict.insert StreamKey-discrete key new_stream r.streams;
        accounts = Dict.insert String-discrete key.creator_account_id account r.accounts;
      },
    )

pub data CommitError : Type 0 where
  snapshot_moves_backwards delta_not_contiguous : CommitError

unfoldable pub commit_snapshot :
    Repository
    → StreamKey
    → ℕ
    → RawStreamState
    → AccountReadModel
    → Result CommitError (Bool × Repository)
commit_snapshot r key expected new_stream account =
    if ltb new_stream.checkpoint expected
    then err snapshot_moves_backwards
    else ok (commit r key expected new_stream account)

unfoldable pub commit_delta :
    Repository
    → StreamKey
    → ℕ
    → RawStreamState
    → AccountReadModel
    → Result CommitError (Bool × Repository)
commit_delta r key expected new_stream account =
    if not (holds (ℕ_discrete new_stream.checkpoint (expected + 1)))
    then err delta_not_contiguous
    else ok (commit r key expected new_stream account)

unfoldable pub reset : Repository → Repository
reset r = empty
