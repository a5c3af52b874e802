-- ===== src/Ingestion/Deltas.antt =====
-- The changes that `_replace_projection` broadcasts, against a client that applies them.
use onlyfans_conversational.Prelude.{
  String, String-discrete, Option, none, some, List, [], ◌∷◌, ◌++◌, map, Bool, true, false, ◌||◌,
  not, holds, filter, ◌≡◌, refl, ite, arith, if◌then◌else◌,
}
use onlyfans_conversational.Prelude.Dict
use onlyfans_conversational.Prelude.Dict.{Dict, lookup-insert, lookup-erase}
use onlyfans_conversational.Prelude.Sorting
use onlyfans_conversational.Prelude.Membership.{elem, elem-filter, elem-sort, elem-keys}
use onlyfans_conversational.Ingestion.Types.{
  Conversation, Conversation-discrete, StateChange, conversation_delete, conversation_upsert,
}
use onlyfans_conversational.Ingestion.Projection.{
  text_le, removed_ids, upsert_unless_same, upserts, changes_between,
}

abbrev dec : Discrete String
dec = String-discrete

-- How a Bridge replays a delta on the conversations that it holds.
abbrev pub apply_change : Dict String Conversation → StateChange → Dict String Conversation
apply_change d (conversation_delete k) = Dict.erase dec k d
apply_change d (conversation_upsert c) = Dict.insert dec c.conversation_id c d

unfoldable pub apply_changes :
    Dict String Conversation → List StateChange → Dict String Conversation
apply_changes d [] = d
apply_changes d (c ∷ cs) = apply_changes (apply_change d c) cs

-- Every conversation stands under its own id.
abbrev pub IsKeyed : Dict String Conversation → Type 0
IsKeyed d = (k : String) (c : Conversation) → Dict.lookup dec k d ≡ some c → c.conversation_id ≡ k

apply_changes-append :
    (d : Dict String Conversation) (xs ys : List StateChange)
    → apply_changes d (xs ++ ys) ≡ apply_changes (apply_changes d xs) ys
unfolding apply_changes
apply_changes-append d [] ys = refl
apply_changes-append d (x ∷ xs) ys = apply_changes-append (apply_change d x) xs ys

lookup-deletes :
    (k : String) (ids : List String) (d : Dict String Conversation)
    → Dict.lookup dec k (apply_changes d (map conversation_delete ids))
      ≡ (if elem dec k ids then none else Dict.lookup dec k d)
unfolding apply_changes elem
lookup-deletes k [] d = refl
lookup-deletes k (x ∷ ids) d =
    ground (arith, lookup-deletes k ids (Dict.erase dec x d), lookup-erase dec k x d)

-- What the upsert loop leaves at a key that it visits.
abbrev upserted :
    Option Conversation → Option Conversation → Option Conversation → Option Conversation
upserted none old now = now
upserted (some new) none now = some new
upserted (some new) (some previous) now = ite (Conversation-discrete previous new) now (some new)

-- The dict after the loop body.
abbrev settle :
    Option Conversation → Option Conversation → Dict String Conversation → Dict String Conversation
settle none old d = d
settle (some new) none d = Dict.insert dec new.conversation_id new d
settle (some new) (some previous) d =
    ite (Conversation-discrete previous new) d (Dict.insert dec new.conversation_id new d)

apply_changes-upsert :
    (new old : Option Conversation) (d : Dict String Conversation) (rest : List StateChange)
    → apply_changes d (upsert_unless_same new old rest) ≡ apply_changes (settle new old d) rest
unfolding apply_changes
apply_changes-upsert none old d rest = refl
apply_changes-upsert (some new) none d rest = refl
apply_changes-upsert (some new) (some previous) d rest =
    elim (Conversation-discrete previous new)
      as (λ q.
        apply_changes d (ite q rest (conversation_upsert new ∷ rest))
        ≡ apply_changes (ite q d (Dict.insert dec new.conversation_id new d)) rest) [
          | yes e ↦ refl
          | no n ↦ refl
        ]

lookup-settle :
    (k x : String) (new old : Option Conversation) (d : Dict String Conversation)
    → ((c : Conversation) → new ≡ some c → c.conversation_id ≡ x)
    → Dict.lookup dec k (settle new old d)
      ≡ ite (dec k x) (upserted new old (Dict.lookup dec k d)) (Dict.lookup dec k d)
lookup-settle k x none old d h = ground arith
lookup-settle k x (some new) none d h =
    ground (arith, lookup-insert dec k new.conversation_id new d, h new refl)
lookup-settle k x (some new) (some previous) d h =
    ground (arith, lookup-insert dec k new.conversation_id new d, h new refl)

upserted_twice :
    (new old now : Option Conversation)
    → upserted new old (upserted new old now) ≡ upserted new old now
upserted_twice none old now = refl
upserted_twice (some new) none now = refl
upserted_twice (some new) (some previous) now = ground arith

-- One visit at `x`, before the visits at the rest, seen at the key `k`.
visit_key :
    (at : String → Option Conversation → Option Conversation) (k x : String) (q : Dec (k ≡ x))
    (later : Bool) (now : Option Conversation)
    → ((o : Option Conversation) → at k (at k o) ≡ at k o)
    → (if later then at k (ite q (at x now) now) else ite q (at x now) now)
      ≡ (if holds q || later then at k now else now)
visit_key at k x (yes e) true now idem = rw (← e) (idem now)
visit_key at k x (yes e) false now idem = rw (← e)
visit_key at k x (no n) true now idem = refl
visit_key at k x (no n) false now idem = refl

module _ (old new : Dict String Conversation) (keyed : IsKeyed new) where
  abbrev at : String → Option Conversation → Option Conversation
  at k now = upserted (Dict.lookup dec k new) (Dict.lookup dec k old) now

  lookup-upserts :
      (k : String) (ks : List String) (d : Dict String Conversation)
      → Dict.lookup dec k (apply_changes d (upserts old new ks))
        ≡ (if elem dec k ks then at k (Dict.lookup dec k d) else Dict.lookup dec k d)
  unfolding upserts elem
  lookup-upserts k [] d = unfold apply_changes in refl
  lookup-upserts k (x ∷ ks) d =
      let n = Dict.lookup dec x new in
      let o = Dict.lookup dec x old in
      rw
        (
          apply_changes-upsert n o d (upserts old new ks),
          lookup-upserts k ks (settle n o d),
          lookup-settle k x n o d (keyed x),
        )
        (visit_key at k x (dec k x) (elem dec k ks) (Dict.lookup dec k d)
          (λ now. upserted_twice (Dict.lookup dec k new) (Dict.lookup dec k old) now))

  -- After the changes the client holds, at every id, what the new projection holds.
  pub lookup-changes_between :
      (k : String)
      → Dict.lookup dec k (apply_changes old (changes_between old new)) ≡ Dict.lookup dec k new
  unfolding changes_between
  lookup-changes_between k =
      let ids = removed_ids old new in
      let ks = Sorting.sort text_le (Dict.keys new) in
      rw
        (
          apply_changes-append old (map conversation_delete ids) (upserts old new ks),
          lookup-upserts k ks (apply_changes old (map conversation_delete ids)),
          lookup-deletes k ids old,
        )
        (ground (
          arith,
          elem-sort dec text_le k (Dict.keys new),
          elem-keys dec k new,
          elem-keys dec k old,
          elem-sort dec text_le k (filter (λ k. not (Dict.contains dec k new)) (Dict.keys old)),
          elem-filter dec (λ k. not (Dict.contains dec k new)) k (Dict.keys old),
        ))
