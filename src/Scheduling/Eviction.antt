-- ===== src/Scheduling/Eviction.antt =====
-- The capped caches of app/analytics/scheduling.py: `while len(d) > capacity: popitem(last=False)`.
use onlyfans_conversational.Prelude.{
  ℕ, ◌≤◌, String, String-discrete, List, [], ◌∷◌, ◌++◌, none, some, ◌≡◌, arith, length,
}
use onlyfans_conversational.Prelude.Dict
use onlyfans_conversational.Prelude.Dict.{Dict, lookup-erase}
use onlyfans_conversational.Scheduling.Admission.{drop_oldest, put_last}

pub length-drop_oldest {ℓ} :
    {A : Type ℓ} (capacity : ℕ) (xs : List A) → length (drop_oldest capacity xs) ≤ capacity
length-drop_oldest capacity [] = omega arith
length-drop_oldest capacity (x ∷ xs) = ground (arith, length-drop_oldest capacity xs)

lookup-snoc :
    {V : Type 0} (k : String) (v : V) (d : Dict String V)
    → Dict.lookup String-discrete k d ≡ none
    → Dict.lookup String-discrete k (d ++ (k, v) ∷ []) ≡ some v
unfolding Dict.lookup
lookup-snoc k v [] h = ground arith
lookup-snoc k v (e ∷ d) h = ground (arith, lookup-snoc k v d)

lookup-drop_oldest :
    {V : Type 0} (capacity : ℕ) (k : String) (v : V) (d : Dict String V)
    → 1 ≤ capacity
    → Dict.lookup String-discrete k d ≡ none
    → Dict.lookup String-discrete k (drop_oldest capacity (d ++ (k, v) ∷ [])) ≡ some v
unfolding Dict.lookup
lookup-drop_oldest capacity k v [] room h = ground (arith, room)
lookup-drop_oldest capacity k v (e ∷ d) room h =
    let later = lookup-drop_oldest capacity k v d room in
    let kept = lookup-snoc k v d in ground (arith, later, kept, h)

-- A cache with room keeps the newest entry.
pub lookup-put_last :
    {V : Type 0} (capacity : ℕ) (k : String) (v : V) (d : Dict String V)
    → 1 ≤ capacity
    → Dict.lookup String-discrete k (drop_oldest capacity (put_last k v d)) ≡ some v
lookup-put_last capacity k v d room =
    lookup-drop_oldest capacity k v (Dict.erase String-discrete k d) room
      (ground (arith, lookup-erase String-discrete k k d))
