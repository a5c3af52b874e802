-- ===== src/Ingestion/Contents.antt =====
-- A validated snapshot holds exactly the chats and the messages that were sent.
use onlyfans_conversational.Prelude.{
  String, String-discrete, List, [], ◌∷◌, ◌++◌, ◌≡◌, refl, ap, if_neg, arith, Ensures, Ensures-if,
  Ensures-bind, false,
}
use mathlib.Core.List.{append-nil, append_assoc}
use onlyfans_conversational.Prelude.Dict
use onlyfans_conversational.Prelude.Dict.{Dict}
use onlyfans_conversational.Ingestion.Types.{RawChat, RawMessage}
use onlyfans_conversational.Ingestion.RawChange.{
  validated_chats, validated_messages, validated_snapshot,
}

abbrev dec : Discrete String
dec = String-discrete

-- A new key goes to the end.
values-insert :
    {V : Type 0} (k : String) (v : V) (d : Dict String V)
    → Dict.contains dec k d ≡ false
    → Dict.values (Dict.insert dec k v d) ≡ Dict.values d ++ v ∷ []
unfolding Dict.insert Dict.lookup
values-insert k v [] h = refl
values-insert k v (e ∷ d) h = elim (dec k e.0) [
  | yes same ↦ absurd (ground (arith, h, same))
  | no other ↦
      let rest = values-insert k v d (ground (arith, h, other)) in
      rw (if_neg (dec k e.0) other) (ap (λ l. e.1 ∷ l) rest)
]

validated_chats-values :
    (models : List RawChat) (chats : Dict String RawChat)
    → Ensures (λ d. Dict.values d ≡ Dict.values chats ++ models) (validated_chats models chats)
unfolding validated_chats
validated_chats-values [] chats = rw append-nil refl
validated_chats-values (c ∷ rest) chats =
    Ensures-if _ (Dict.contains dec c.chat_id chats) _ _ (λ known. tt)
      λ new.
        let longer : Dict.values (Dict.insert dec c.chat_id c chats) ++ rest
            ≡ Dict.values chats ++ c ∷ rest =
          rw (values-insert c.chat_id c chats new, append_assoc) refl in
        rw (← longer) (validated_chats-values rest (Dict.insert dec c.chat_id c chats))

validated_messages-values :
    (chats : Dict String RawChat) (models : List RawMessage) (messages : Dict String RawMessage)
    → Ensures
        (λ d. Dict.values d ≡ Dict.values messages ++ models)
        (validated_messages chats models messages)
unfolding validated_messages
validated_messages-values chats [] messages = rw append-nil refl
validated_messages-values chats (m ∷ rest) messages =
    Ensures-if _ (Dict.contains dec m.message_id messages) _ _ (λ known. tt)
      λ new.
        Ensures-if _ (Dict.contains dec m.chat_id chats) _ _
          (λ placed.
            let longer : Dict.values (Dict.insert dec m.message_id m messages) ++ rest
                ≡ Dict.values messages ++ m ∷ rest =
              rw (values-insert m.message_id m messages new, append_assoc) refl in
            rw (← longer)
              (validated_messages-values chats rest (Dict.insert dec m.message_id m messages)))
          (λ unknown. tt)

pub validated_snapshot-values :
    (chat_models : List RawChat) (message_models : List RawMessage)
    → Ensures
        (λ c. (Dict.values c.0 ≡ chat_models) × (Dict.values c.1 ≡ message_models))
        (validated_snapshot chat_models message_models)
unfolding validated_snapshot
validated_snapshot-values chat_models message_models =
    Ensures-bind (λ d. Dict.values d ≡ chat_models) _ (validated_chats chat_models []) _
      (validated_chats-values chat_models [])
      λ chats hc.
        Ensures-bind (λ d. Dict.values d ≡ message_models) _
          (validated_messages chats message_models []) _
          (validated_messages-values chats message_models []) λ messages hm. (hc, hm)
