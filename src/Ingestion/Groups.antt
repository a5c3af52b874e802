-- ===== src/Ingestion/Groups.antt =====
-- What `_project` computes: one conversation for each chat, with exactly its messages.
use Prim.Native.String.{compare}
use text.Mathlib.Text.{is_le}
use onlyfans_conversational.Prelude.{
  String, String-discrete, Option, none, some, List, [], ◌∷◌, ◌++◌, Bool, true, false, holds,
  filter, ◌≡◌, refl, arith, if◌then◌else◌, map, get_last?, Option-cases, inl, inr, ◌∙◌, ap,
}
use mathlib.Core.List.{append-nil, append_assoc}
use onlyfans_conversational.Prelude.Dict
use onlyfans_conversational.Prelude.Dict.{Dict, lookup-insert}
use onlyfans_conversational.Prelude.Sorting
use onlyfans_conversational.Ingestion.Types.{
  RawChat, RawMessage, RawStreamState, Conversation, Sentiment, MessageView,
}
use onlyfans_conversational.Ingestion.Projection.{
  sent_before, empty_groups, add_message, group_messages, conversation_of, messages_of,
  project_chats, project, last_sent_at,
}

abbrev dec : Discrete String
dec = String-discrete

abbrev pub in_chat : String → RawMessage → Bool
in_chat chat_id m = holds (dec chat_id m.chat_id)

abbrev grown : Option (List RawMessage) → List RawMessage → Option (List RawMessage)
grown none more = none
grown (some before) more = some (before ++ more)

abbrev found_or_nil : Option (List RawMessage) → List RawMessage
found_or_nil none = []
found_or_nil (some before) = before

lookup-empty_groups :
    (k : String) (chats : Dict String RawChat)
    → Dict.lookup dec k (empty_groups chats) ≡ (if Dict.contains dec k chats then some [] else none)
unfolding Dict.lookup empty_groups
lookup-empty_groups k [] = refl
lookup-empty_groups k (e ∷ chats) = ground (arith, lookup-empty_groups k chats)

grown-nil : (o : Option (List RawMessage)) → grown o [] ≡ o
grown-nil none = refl
grown-nil (some before) = rw append-nil

grown-cons :
    (o : Option (List RawMessage)) (m : RawMessage) (ms : List RawMessage)
    → grown (grown o (m ∷ [])) ms ≡ grown o (m ∷ ms)
grown-cons none m ms = refl
grown-cons (some before) m ms = rw append_assoc

lookup-add_message :
    (k : String) (m : RawMessage) (groups : Dict String (List RawMessage))
    → Dict.lookup dec k (add_message groups m) ≡ (
        if in_chat k m then grown (Dict.lookup dec k groups) (m ∷ []) else Dict.lookup dec k groups)
unfolding add_message
lookup-add_message k m groups = ground (
  arith,
  lookup-insert dec k m.chat_id ((found_or_nil (Dict.lookup dec m.chat_id groups)) ++ m ∷ [])
      groups,
)

grown-if :
    (b : Bool) (o : Option (List RawMessage)) (m : RawMessage) (ms : List RawMessage)
    → grown (if b then grown o (m ∷ []) else o) ms ≡ grown o (if b then m ∷ ms else ms)
grown-if true o m ms = grown-cons o m ms
grown-if false o m ms = refl

-- Each chat's group grows by the messages of that chat, in order.
lookup-group_messages :
    (k : String) (ms : List RawMessage) (groups : Dict String (List RawMessage))
    → Dict.lookup dec k (group_messages groups ms)
      ≡ grown (Dict.lookup dec k groups) (filter (in_chat k) ms)
unfolding group_messages
lookup-group_messages k [] groups = rw grown-nil
lookup-group_messages k (m ∷ ms) groups =
    rw (lookup-group_messages k ms (add_message groups m), lookup-add_message k m groups)
      (grown-if (in_chat k m) (Dict.lookup dec k groups) m (filter (in_chat k) ms))

-- Sent earlier; or at the same time, with an id that is not greater.
abbrev pub is_earlier : RawMessage → RawMessage → Bool
is_earlier m n =
    if holds (dec m.sent_at n.sent_at)
    then is_le (compare m.message_id n.message_id)
    else is_le (compare m.sent_at n.sent_at)

-- A message as the page shows it, its sentiment not known.
abbrev pub shown : RawMessage → MessageView
shown m = record {
  message_id = m.message_id;
  text = m.text;
  sent_at = m.sent_at;
  direction = m.direction;
  sentiment = Sentiment.unknown;
}

abbrev pub latest : List RawMessage → Option String
latest [] = none
latest (m ∷ []) = some m.sent_at
latest (m ∷ n ∷ ms) = latest (n ∷ ms)

abbrev pub conversation_with : String → RawChat → List RawMessage → Conversation
conversation_with k chat messages = record {
  conversation_id = k;
  platform_user_id = chat.platform_user_id;
  display_name = chat.display_name;
  unread_count = 0;
  last_message_at = latest messages;
  messages = map shown messages;
}

-- The conversation of a chat, described with no grouping pass.
abbrev pub conversation_spec :
    Dict String RawMessage → String → Option RawChat → Option Conversation
conversation_spec messages k none = none
conversation_spec messages k (some chat) =
    some (
      conversation_with k chat
        (Sorting.sort is_earlier (filter (in_chat k) (Dict.values messages))))

same_order : (m n : RawMessage) → sent_before m n ≡ is_earlier m n
same_order m n = ground arith

sent_before-is_earlier : sent_before ≡ is_earlier
sent_before-is_earlier = λ i m n. same_order m n i

latest-last : (ms : List RawMessage) → last_sent_at (get_last? ms) ≡ latest ms
latest-last [] = refl
latest-last (m ∷ []) = refl
latest-last (m ∷ n ∷ ms) = latest-last (n ∷ ms)

conversation_of-with :
    (k : String) (chat : RawChat) (ms : List RawMessage)
    → conversation_of k chat ms ≡ conversation_with k chat ms
unfolding conversation_of
conversation_of-with k chat ms = rw (latest-last ms) refl

lookup-project_chats :
    (k : String) (groups : Dict String (List RawMessage)) (chats : Dict String RawChat)
    → Dict.lookup dec k (project_chats groups chats) ≡ elim (Dict.lookup dec k chats) [
      | none ↦ none
      | some chat ↦ some (conversation_of k chat (Sorting.sort sent_before (messages_of groups k)))
    ]
unfolding project_chats Dict.lookup
lookup-project_chats k groups [] = refl
lookup-project_chats k groups (e ∷ chats) = ground (arith, lookup-project_chats k groups chats)

lookup-project_sorted :
    (k : String) (s : RawStreamState)
    → Dict.lookup dec k (project s) ≡ elim (Dict.lookup dec k s.chats) [
      | none ↦ none
      | some chat ↦ some (
          conversation_of k chat
            (Sorting.sort sent_before (filter (in_chat k) (Dict.values s.messages))))
    ]
unfolding project
lookup-project_sorted k s = ground (
  arith,
  lookup-project_chats k (group_messages (empty_groups s.chats) (Dict.values s.messages)) s.chats,
  lookup-group_messages k (Dict.values s.messages) (empty_groups s.chats),
  lookup-empty_groups k s.chats,
)

-- The projection has a conversation for exactly the known chats, with the chat's user and name; it
-- shows exactly the stored messages of its chat, sorted by sending time and then by id, and its last
-- message's time is that of the last of them.
pub lookup-project :
    (k : String) (s : RawStreamState)
    → Dict.lookup dec k (project s) ≡ conversation_spec s.messages k (Dict.lookup dec k s.chats)
lookup-project k s =
    let stored = filter (in_chat k) (Dict.values s.messages) in
    elim (Option-cases (Dict.lookup dec k s.chats)) [
      | inl unknown ↦ lookup-project_sorted k s ∙ rw unknown refl
      | inr (chat, known) ↦
          lookup-project_sorted k s
          ∙ rw known (
              ap some (conversation_of-with k chat (Sorting.sort sent_before stored))
              ∙ rw sent_before-is_earlier refl)
    ]

project_chats-IsDistinct :
    (groups : Dict String (List RawMessage)) (chats : Dict String RawChat)
    → Dict.IsDistinct dec chats
    → Dict.IsDistinct dec (project_chats groups chats)
unfolding project_chats
project_chats-IsDistinct groups [] h = tt
project_chats-IsDistinct groups (e ∷ chats) h =
    ground (arith, project_chats-IsDistinct groups chats h.1, lookup-project_chats e.0 groups chats)

pub project-IsDistinct :
    (s : RawStreamState) → Dict.IsDistinct dec s.chats → Dict.IsDistinct dec (project s)
unfolding project
project-IsDistinct s h = project_chats-IsDistinct _ s.chats h
