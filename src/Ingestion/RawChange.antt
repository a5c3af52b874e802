-- ===== src/Ingestion/RawChange.antt =====
-- `_validated_snapshot` and `_apply_raw_change` of app/transport/ingestion.py.
use onlyfans_conversational.Prelude.{
  String, String-discrete, Option, none, some, List, [], ◌∷◌, Result, ok, err, Bool, false, holds,
  not, ◌>>=◌, filter, if◌then◌else◌,
}
use onlyfans_conversational.Prelude.Dict
use onlyfans_conversational.Prelude.Dict.{Dict}
use onlyfans_conversational.Ingestion.Types.{
  RawChat, RawMessage, RawChange, chat_upsert, chat_delete, message_upsert, message_delete,
  coverage_observed, RawStreamState, Violation, duplicate_chat_id, duplicate_message_id,
  message_unknown_chat, deletion_unknown_chat, deletion_conflict, unsupported_change,
}

abbrev pub dec : Discrete String
dec = String-discrete

-- The loop over `chat_models`.
unfoldable pub validated_chats :
    List RawChat → Dict String RawChat → Result Violation (Dict String RawChat)
validated_chats [] chats = ok chats
validated_chats (chat ∷ rest) chats =
    let next = validated_chats rest (Dict.insert dec chat.chat_id chat chats) in
    if Dict.contains dec chat.chat_id chats then err (duplicate_chat_id chat.chat_id) else next

-- The loop over `message_models`.
unfoldable pub validated_messages :
    Dict String RawChat
    → List RawMessage
    → Dict String RawMessage
    → Result Violation (Dict String RawMessage)
validated_messages chats [] messages = ok messages
validated_messages chats (m ∷ rest) messages =
    let next = validated_messages chats rest (Dict.insert dec m.message_id m messages) in
    if Dict.contains dec m.message_id messages
    then err (duplicate_message_id m.message_id)
    else if Dict.contains dec m.chat_id chats
    then next
    else err (message_unknown_chat m.message_id)

unfoldable pub validated_snapshot :
    List RawChat → List RawMessage → Result Violation (Dict String RawChat × Dict String RawMessage)
unfolding validated_chats validated_messages
validated_snapshot chat_models message_models = do
  chats ← validated_chats chat_models []
  messages ← validated_messages chats message_models []
  ok (chats, messages)

-- The dict comprehension over `stream.messages.items()`.
abbrev pub without_chat : String → Dict String RawMessage → Dict String RawMessage
without_chat chat_id = filter (λ e. not (holds (dec e.1.chat_id chat_id)))

-- `existing is not None and existing["chat_id"] != chat_id`
abbrev pub conflicts : String → Option RawMessage → Bool
conflicts chat_id none = false
conflicts chat_id (some m) = not (holds (dec m.chat_id chat_id))

unfoldable pub apply_raw_change : RawStreamState → RawChange → Result Violation RawStreamState
apply_raw_change s (chat_upsert chat) =
    ok (record s { chats = Dict.insert dec chat.chat_id chat s.chats })
apply_raw_change s (chat_delete chat_id) = ok (record s {
  chats = Dict.erase dec chat_id s.chats;
  messages = without_chat chat_id s.messages;
})
apply_raw_change s (message_upsert m) =
    if Dict.contains dec m.chat_id s.chats
    then ok (record s { messages = Dict.insert dec m.message_id m s.messages })
    else err (message_unknown_chat m.message_id)
apply_raw_change s (message_delete message_id chat_id) =
    if Dict.contains dec chat_id s.chats
    then if conflicts chat_id (Dict.lookup dec message_id s.messages)
      then err deletion_conflict
      else ok (record s { messages = Dict.erase dec message_id s.messages })
    else err deletion_unknown_chat
apply_raw_change s (coverage_observed evidence) = err unsupported_change
