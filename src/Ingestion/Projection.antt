-- ===== src/Ingestion/Projection.antt =====
-- `_project` and `_replace_projection` of app/transport/ingestion.py.
use Prim.Native.String.{compare}
use text.Mathlib.Text.{is_le}
use onlyfans_conversational.Prelude.{
  ◌+◌, String, String-discrete, Option, none, some, List, [], ◌∷◌, ◌++◌, map, Bool, not, filter,
  get_last?, ite,
}
use onlyfans_conversational.Prelude.Dict
use onlyfans_conversational.Prelude.Dict.{Dict}
use onlyfans_conversational.Prelude.Sorting
use onlyfans_conversational.Ingestion.Types.{
  RawChat, RawMessage, RawStreamState, Sentiment, MessageView, Conversation, Conversation-discrete,
  AccountReadModel, StateChange, conversation_delete, conversation_upsert, StateDelta,
}

abbrev dec : Discrete String
dec = String-discrete

-- Python orders texts by code point, as `compare` does.
abbrev pub text_le : String → String → Bool
text_le s t = is_le (compare s t)

-- The sort key `(item["sent_at"], item["message_id"])`, as tuples compare.
abbrev pub sent_before : RawMessage → RawMessage → Bool
sent_before m n =
    ite (dec m.sent_at n.sent_at) (text_le m.message_id n.message_id) (text_le m.sent_at n.sent_at)

-- `messages_by_chat`: an empty list for each chat, and the loop that fills them.
unfoldable pub empty_groups : Dict String RawChat → Dict String (List RawMessage)
empty_groups [] = []
empty_groups (e ∷ chats) = (e.0, []) ∷ empty_groups chats

-- The loop body: a message whose chat is unknown is left out.
unfoldable pub add_message :
    Dict String (List RawMessage) → RawMessage → Dict String (List RawMessage)
add_message groups m = elim (Dict.lookup dec m.chat_id groups) [
  | none ↦ groups
  | some before ↦ Dict.insert dec m.chat_id (before ++ m ∷ []) groups
]

unfoldable pub group_messages :
    Dict String (List RawMessage) → List RawMessage → Dict String (List RawMessage)
unfolding add_message
group_messages groups [] = groups
group_messages groups (m ∷ rest) = group_messages (add_message groups m) rest

abbrev pub message_view : RawMessage → MessageView
message_view m = record {
  message_id = m.message_id;
  text = m.text;
  sent_at = m.sent_at;
  direction = m.direction;
  sentiment = Sentiment.unknown;
}

abbrev pub last_sent_at : Option RawMessage → Option String
last_sent_at none = none
last_sent_at (some m) = some m.sent_at

unfoldable pub conversation_of : String → RawChat → List RawMessage → Conversation
conversation_of chat_id chat raw_messages = record {
  conversation_id = chat_id;
  platform_user_id = chat.platform_user_id;
  display_name = chat.display_name;
  unread_count = 0;
  last_message_at = last_sent_at (get_last? raw_messages);
  messages = map message_view raw_messages;
}

-- `messages_by_chat[chat_id]`; every chat has a group, so the empty list is never the answer
-- for a missing one.
abbrev pub messages_of : Dict String (List RawMessage) → String → List RawMessage
messages_of groups chat_id = elim (Dict.lookup dec chat_id groups) [ none ↦ [] | some ms ↦ ms ]

-- The loop over `stream.chats.items()`.
unfoldable pub project_chats :
    Dict String (List RawMessage) → Dict String RawChat → Dict String Conversation
unfolding conversation_of
project_chats groups [] = []
project_chats groups (e ∷ chats) =
    (e.0, conversation_of e.0 e.1 (Sorting.sort sent_before (messages_of groups e.0)))
    ∷ project_chats groups chats

unfoldable pub project : RawStreamState → Dict String Conversation
unfolding empty_groups group_messages project_chats
project s = project_chats (group_messages (empty_groups s.chats) (Dict.values s.messages)) s.chats

-- `sorted(set(account.conversations) - set(projected))`
abbrev pub removed_ids : Dict String Conversation → Dict String Conversation → List String
removed_ids old projected =
    Sorting.sort text_le (filter (λ k. not (Dict.contains dec k projected)) (Dict.keys old))

-- The loop body of the upserts, on what the two sides hold at the key.
abbrev pub upsert_unless_same :
    Option Conversation → Option Conversation → List StateChange → List StateChange
upsert_unless_same none previous rest = rest
upsert_unless_same (some new) none rest = conversation_upsert new ∷ rest
upsert_unless_same (some new) (some previous) rest =
    ite (Conversation-discrete previous new) rest (conversation_upsert new ∷ rest)

-- The loop of upserts over `sorted(projected)`.
unfoldable pub upserts :
    Dict String Conversation → Dict String Conversation → List String → List StateChange
upserts old projected [] = []
upserts old projected (k ∷ ks) =
    let rest = upserts old projected ks in
    upsert_unless_same (Dict.lookup dec k projected) (Dict.lookup dec k old) rest

unfoldable pub changes_between :
    Dict String Conversation → Dict String Conversation → List StateChange
unfolding upserts
changes_between old projected =
    map conversation_delete (removed_ids old projected)
    ++ upserts old projected (Sorting.sort text_le (Dict.keys projected))

-- The end of `_replace_projection`, on the list of changes.
abbrev pub replaced :
    String
    → AccountReadModel
    → Dict String Conversation
    → String
    → List StateChange
    → AccountReadModel × Option StateDelta
replaced creator_account_id account projected committed_at [] =
    (record account { conversations = projected }, none)
replaced creator_account_id account projected committed_at (c ∷ cs) = (
  record { view_revision = account.view_revision + 1; conversations = projected },
  some (record {
    creator_account_id = creator_account_id;
    view_revision = account.view_revision + 1;
    committed_at = committed_at;
    changes = c ∷ cs;
  }),
)

-- The new read model, and the delta to broadcast (`None` when nothing changed).
unfoldable pub replace_projection :
    String → AccountReadModel → RawStreamState → String → AccountReadModel × Option StateDelta
unfolding project changes_between
replace_projection creator_account_id account s committed_at =
    let projected = project s in
    replaced creator_account_id account projected committed_at
      (changes_between account.conversations projected)
