-- ===== src/Ingestion/Invariant.antt =====
-- What holds of a stored stream between two calls of the ingestion service.
use onlyfans_conversational.Prelude.{
  ℕ, ◌≤◌, String, String-discrete, ℕ_discrete, some, List, [], ◌∷◌, true, not, holds, All, Ensures,
  Ensures-if, Ensures-bind, ◌≡◌, refl, arith,
}
use onlyfans_conversational.Prelude.Dict
use onlyfans_conversational.Prelude.Dict.{
  Dict, lookup-insert, lookup-erase, insert-IsDistinct, erase-IsDistinct,
}
use onlyfans_conversational.Prelude.Entries.{
  All-imp, All-insert, All-erase, filter-IsDistinct, contains-insert,
}
use onlyfans_conversational.Ingestion.Types.{
  RawChat, RawMessage, RawChange, chat_upsert, chat_delete, message_upsert, message_delete,
  coverage_observed, RawStreamState, StoredEvent,
}
use onlyfans_conversational.Ingestion.RawChange.{
  validated_chats, validated_messages, validated_snapshot, without_chat, conflicts,
  apply_raw_change,
}

abbrev dec : Discrete String
dec = String-discrete

-- A stored message: under its own id, in a chat that is known.
abbrev pub IsPlaced : Dict String RawChat → String × RawMessage → Type 0
IsPlaced chats e = (e.1.message_id ≡ e.0) × (Dict.contains dec e.1.chat_id chats ≡ true)

abbrev pub IsNamed : String × RawChat → Type 0
IsNamed e = e.1.chat_id ≡ e.0

pub record IsContent (chats : Dict String RawChat) (messages : Dict String RawMessage)
    : Type 0 where
  pub chats_distinct : Dict.IsDistinct dec chats
  pub messages_distinct : Dict.IsDistinct dec messages
  pub chats_named : All IsNamed chats
  pub messages_placed : All (IsPlaced chats) messages

-- An applied event: at most the checkpoint, and the one that its sequence names.
abbrev pub IsApplied : ℕ → Dict ℕ ℕ → ℕ × StoredEvent → Type 0
IsApplied checkpoint by_seq e =
    (e.1.event_id ≡ e.0)
    × (e.1.source_seq ≤ checkpoint)
    × (Dict.lookup ℕ_discrete e.1.source_seq by_seq ≡ some e.0)

pub record IsSequenced (s : RawStreamState) : Type 0 where
  pub events_applied : All (IsApplied s.checkpoint s.event_ids_by_seq) s.events_by_id
  pub seqs_below : All (λ e. e.0 ≤ s.checkpoint) s.event_ids_by_seq
  pub snapshots_below : All (λ e. e.1.through_seq ≤ s.checkpoint) s.snapshots_by_id

pub record IsStream (s : RawStreamState) : Type 0 where
  pub content : IsContent s.chats s.messages
  pub sequenced : IsSequenced s

IsPlaced-insert :
    (k : String) (chat : RawChat) (chats : Dict String RawChat) (messages : Dict String RawMessage)
    → All (IsPlaced chats) messages
    → All (IsPlaced (Dict.insert dec k chat chats)) messages
IsPlaced-insert k chat chats messages =
    All-imp (IsPlaced chats) (IsPlaced (Dict.insert dec k chat chats)) messages
      (λ e p. (p.0, contains-insert dec e.1.chat_id k chat chats p.1))

IsPlaced-without_chat :
    (k : String) (chats : Dict String RawChat) (messages : Dict String RawMessage)
    → All (IsPlaced chats) messages
    → All (IsPlaced (Dict.erase dec k chats)) (without_chat k messages)
IsPlaced-without_chat k chats [] h = tt
IsPlaced-without_chat k chats (e ∷ messages) h =
    ground (arith, IsPlaced-without_chat k chats messages h.1, lookup-erase dec e.1.chat_id k chats)

-- A change that applies to a stream with well-formed content keeps the content well formed.
pub apply_raw_change-IsContent :
    (s : RawStreamState) (change : RawChange)
    → IsContent s.chats s.messages
    → Ensures (λ s'. IsContent s'.chats s'.messages) (apply_raw_change s change)
unfolding apply_raw_change
apply_raw_change-IsContent s (chat_upsert chat) h = record {
  chats_distinct = insert-IsDistinct dec chat.chat_id chat s.chats h.chats_distinct;
  messages_distinct = h.messages_distinct;
  chats_named = All-insert dec IsNamed chat.chat_id chat s.chats refl h.chats_named;
  messages_placed = IsPlaced-insert chat.chat_id chat s.chats s.messages h.messages_placed;
}
apply_raw_change-IsContent s (chat_delete k) h = record {
  chats_distinct = erase-IsDistinct dec k s.chats h.chats_distinct;
  messages_distinct =
      filter-IsDistinct dec (λ e. not (holds (dec e.1.chat_id k))) s.messages h.messages_distinct;
  chats_named = All-erase dec IsNamed k s.chats h.chats_named;
  messages_placed = IsPlaced-without_chat k s.chats s.messages h.messages_placed;
}
apply_raw_change-IsContent s (message_upsert m) h =
    Ensures-if _ (Dict.contains dec m.chat_id s.chats) _ _
      (λ known. record {
        chats_distinct = h.chats_distinct;
        messages_distinct = insert-IsDistinct dec m.message_id m s.messages h.messages_distinct;
        chats_named = h.chats_named;
        messages_placed =
            All-insert dec (IsPlaced s.chats) m.message_id m s.messages (refl, known)
              h.messages_placed;
      })
      (λ unknown. tt)
apply_raw_change-IsContent s (message_delete id k) h =
    Ensures-if _ (Dict.contains dec k s.chats) _ _
      (λ known.
        Ensures-if _ (conflicts k (Dict.lookup dec id s.messages)) _ _ (λ clash. tt)
          (λ fits. record {
            chats_distinct = h.chats_distinct;
            messages_distinct = erase-IsDistinct dec id s.messages h.messages_distinct;
            chats_named = h.chats_named;
            messages_placed = All-erase dec (IsPlaced s.chats) id s.messages h.messages_placed;
          }))
      (λ unknown. tt)
apply_raw_change-IsContent s (coverage_observed c) h = tt

-- A change touches neither the checkpoint nor what is remembered of earlier events.
abbrev pub SameSequencing : RawStreamState → RawStreamState → Type 0
SameSequencing s t =
    (t.checkpoint ≡ s.checkpoint)
    × (t.events_by_id ≡ s.events_by_id)
    × (t.event_ids_by_seq ≡ s.event_ids_by_seq)
    × (t.snapshots_by_id ≡ s.snapshots_by_id)

pub apply_raw_change-SameSequencing :
    (s : RawStreamState) (change : RawChange)
    → Ensures (SameSequencing s) (apply_raw_change s change)
unfolding apply_raw_change
apply_raw_change-SameSequencing s (chat_upsert chat) = (refl, refl, refl, refl)
apply_raw_change-SameSequencing s (chat_delete k) = (refl, refl, refl, refl)
apply_raw_change-SameSequencing s (message_upsert m) =
    Ensures-if _ (Dict.contains dec m.chat_id s.chats) _ _ (λ known. (refl, refl, refl, refl))
      (λ unknown. tt)
apply_raw_change-SameSequencing s (message_delete id k) =
    Ensures-if _ (Dict.contains dec k s.chats) _ _
      (λ known.
        Ensures-if _ (conflicts k (Dict.lookup dec id s.messages)) _ _ (λ clash. tt)
          (λ fits. (refl, refl, refl, refl)))
      (λ unknown. tt)
apply_raw_change-SameSequencing s (coverage_observed c) = tt

validated_chats-IsContent :
    (models : List RawChat) (chats : Dict String RawChat)
    → Dict.IsDistinct dec chats × All IsNamed chats
    → Ensures (λ d. Dict.IsDistinct dec d × All IsNamed d) (validated_chats models chats)
unfolding validated_chats
validated_chats-IsContent [] chats h = h
validated_chats-IsContent (c ∷ rest) chats h =
    Ensures-if _ (Dict.contains dec c.chat_id chats) _ _ (λ repeated. tt)
      (λ new. validated_chats-IsContent rest (Dict.insert dec c.chat_id c chats) (
        insert-IsDistinct dec c.chat_id c chats h.0,
        All-insert dec IsNamed c.chat_id c chats refl h.1,
      ))

validated_messages-IsContent :
    (chats : Dict String RawChat) (models : List RawMessage) (messages : Dict String RawMessage)
    → Dict.IsDistinct dec messages × All (IsPlaced chats) messages
    → Ensures
        (λ d. Dict.IsDistinct dec d × All (IsPlaced chats) d)
        (validated_messages chats models messages)
unfolding validated_messages
validated_messages-IsContent chats [] messages h = h
validated_messages-IsContent chats (m ∷ rest) messages h =
    Ensures-if _ (Dict.contains dec m.message_id messages) _ _ (λ repeated. tt)
      (λ new.
        Ensures-if _ (Dict.contains dec m.chat_id chats) _ _
          (λ known.
            validated_messages-IsContent chats rest (Dict.insert dec m.message_id m messages) (
              insert-IsDistinct dec m.message_id m messages h.0,
              All-insert dec (IsPlaced chats) m.message_id m messages (refl, known) h.1,
            ))
          (λ unknown. tt))

-- A snapshot that validates is well-formed content.
pub validated_snapshot-IsContent :
    (chat_models : List RawChat) (message_models : List RawMessage)
    → Ensures (λ c. IsContent c.0 c.1) (validated_snapshot chat_models message_models)
unfolding validated_snapshot
validated_snapshot-IsContent chat_models message_models =
    Ensures-bind (λ d. Dict.IsDistinct dec d × All IsNamed d) _ (validated_chats chat_models []) _
      (validated_chats-IsContent chat_models [] (tt, tt))
      λ chats hc.
        Ensures-bind (λ d. Dict.IsDistinct dec d × All (IsPlaced chats) d) _
          (validated_messages chats message_models []) _
          (validated_messages-IsContent chats message_models [] (tt, tt))
          λ messages hm. record {
            chats_distinct = hc.0;
            messages_distinct = hm.0;
            chats_named = hc.1;
            messages_placed = hm.1;
          }
