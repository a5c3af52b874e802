-- ===== src/Graph/Collection.antt =====
-- What `_collect_locked` of app/analytics/graph_store.py may remove.
use onlyfans_conversational.Prelude.{
  ℕ, zero, suc, String, ℕ_discrete, none, Bool, true, List, [], ◌∷◌, ◌≡◌, ◌⊎◌, refl, inl, inr,
  filter, leb, arith, ◌∙◌, sym,
}
use onlyfans_conversational.Prelude.Dict
use onlyfans_conversational.Prelude.Dict.{Dict, lookup-erase}
use onlyfans_conversational.Prelude.Membership.{elem, elem-filter, elem-sort}
use onlyfans_conversational.Prelude.Sorting.{sort}
use onlyfans_conversational.Graph.Repository.{
  MemoryGeneration, GraphRepository, Retention, find, take, drop, is_retired_of, collected,
  erase_all, collect,
}

elem-take :
    (k n : ℕ) (xs : List ℕ) → elem ℕ_discrete k (take n xs) ≡ true → elem ℕ_discrete k xs ≡ true
unfolding elem
elem-take k zero xs h = cc
elem-take k (suc n) [] h = h
elem-take k (suc n) (x ∷ xs) h = ground (arith, elem-take k n xs, h)

elem-drop :
    (k n : ℕ) (xs : List ℕ) → elem ℕ_discrete k (drop n xs) ≡ true → elem ℕ_discrete k xs ≡ true
unfolding elem
elem-drop k zero xs h = h
elem-drop k (suc n) [] h = h
elem-drop k (suc n) (x ∷ xs) h = ground (arith, elem-drop k n xs h)

lookup-erase_all :
    (k : ℕ) (ks : List ℕ) (d : Dict ℕ MemoryGeneration)
    → (Dict.lookup ℕ_discrete k (erase_all ks d) ≡ Dict.lookup ℕ_discrete k d)
      ⊎ ((elem ℕ_discrete k ks ≡ true) × (Dict.lookup ℕ_discrete k (erase_all ks d) ≡ none))
unfolding erase_all elem
lookup-erase_all k [] d = inl refl
lookup-erase_all k (j ∷ ks) d =
    let step = lookup-erase ℕ_discrete k j d in
    elim (lookup-erase_all k ks (Dict.erase ℕ_discrete j d)) [
      | inr (member, gone) ↦ inr (ground (arith, member), gone)
      | inl kept ↦ elim (ℕ_discrete k j) [
        | yes e ↦ inr (ground (arith, e), ground (arith, kept, step, e))
        | no e ↦ inl (ground (arith, kept, step, e))
      ]
    ]

collected-retired :
    (retention : Retention) (partition : String) (r : GraphRepository) (k : ℕ)
    → elem ℕ_discrete k (collected retention partition r) ≡ true
    → is_retired_of partition (find k r) ≡ true
unfolding collected
collected-retired retention partition r k h =
    let test : ℕ → Bool = λ j. is_retired_of partition (find j r) in
    let kept = filter test (Dict.keys r.generations) in
    let order : ℕ → ℕ → Bool = λ i j. leb j i in
    let sorted =
      elem-drop k retention.rollback_retention (sort order kept)
        (elem-take k retention.gc_batch_size _ h) in
    let member : elem ℕ_discrete k kept ≡ true = sym (elem-sort ℕ_discrete order k kept) ∙ sorted in
    let both = elem-filter ℕ_discrete test k (Dict.keys r.generations) in
    ground (arith, member, both)

-- A collection leaves an entry as it is, or removes a retired one of its partition.
pub find-collect :
    (retention : Retention) (partition : String) (r : GraphRepository) (k : ℕ)
    → (find k (collect retention partition r) ≡ find k r)
      ⊎ ((is_retired_of partition (find k r) ≡ true)
          × (find k (collect retention partition r) ≡ none))
unfolding find collect
find-collect retention partition r k =
    elim (lookup-erase_all k (collected retention partition r) r.generations) [
      | inl kept ↦ inl kept
      | inr (member, gone) ↦ inr (collected-retired retention partition r k member, gone)
    ]
