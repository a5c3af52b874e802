-- ===== src/Prelude/Membership.antt =====
-- Membership as a Boolean test, through filters, sorts and the keys of a dict.
use mathlib.Core.Path.{◌≡◌, refl, ap}
use mathlib.Core.Bool.{Bool, false, ◌&&◌, ◌||◌}
use mathlib.Core.Option.{some}
use mathlib.Core.List.{List, [], ◌∷◌}
use native.Mathlib.Omega.{arith}
use Prim.Native.Nat.{◌+◌, ◌≤◌}
use onlyfans_conversational.Prelude.Tests.{holds}
use onlyfans_conversational.Prelude.Lists.{filter, length}
use onlyfans_conversational.Prelude.Dict.{
  Dict, keys, lookup, contains, erase, IsDistinct, lookup-erase,
}
use onlyfans_conversational.Prelude.Sorting.{insert, sort}

module _ {ℓ} {A : Type ℓ} (dec : Discrete A) where
  unfoldable pub elem : A → List A → Bool
  elem a [] = false
  elem a (x ∷ xs) = holds (dec a x) || elem a xs

  pub elem-filter : (p : A → Bool) (a : A) (xs : List A) → elem a (filter p xs) ≡ (p a && elem a xs)
  unfolding elem
  elem-filter p a [] = ground arith
  elem-filter p a (x ∷ xs) = elim (dec a x) [
    | yes e ↦ ground (arith, elem-filter p a xs, ap p e)
    | no e ↦ ground (arith, elem-filter p a xs)
  ]

  module _ (le : A → A → Bool) where
    elem-insert : (a x : A) (xs : List A) → elem a (insert le x xs) ≡ (holds (dec a x) || elem a xs)
    unfolding elem insert
    elem-insert a x [] = refl
    elem-insert a x (y ∷ ys) = ground (arith, elem-insert a x ys)

    pub elem-sort : (a : A) (xs : List A) → elem a (sort le xs) ≡ elem a xs
    unfolding elem sort
    elem-sort a [] = refl
    elem-sort a (x ∷ xs) = ground (arith, elem-insert a x (sort le xs), elem-sort a xs)

module _ {ℓ} {K V : Type ℓ} (dec : Discrete K) where
  pub elem-keys : (k : K) (d : Dict K V) → elem dec k (keys d) ≡ contains dec k d
  unfolding elem lookup
  elem-keys k [] = refl
  elem-keys k (e ∷ d) = ground (arith, elem-keys k d)

  -- What `a` holds, `b` holds with the same value.
  abbrev pub Included : Dict K V → Dict K V → Type ℓ
  Included a b = (k : K) (v : V) → lookup dec k a ≡ some v → lookup dec k b ≡ some v

  pub length-erase : (k : K) (d : Dict K V) → length (erase dec k d) ≤ length d
  unfolding erase
  length-erase k [] = omega arith
  length-erase k (e ∷ d) = ground (arith, length-erase k d)

  length-erase_known :
      (k : K) (v : V) (d : Dict K V)
      → lookup dec k d ≡ some v
      → length (erase dec k d) + 1 ≤ length d
  unfolding erase lookup
  length-erase_known k v [] h = cc
  length-erase_known k v (e ∷ d) h = ground (arith, length-erase_known k v d, length-erase k d)

  pub Included-tail :
      (e : K × V) (a b : Dict K V) → IsDistinct dec (e ∷ a) → Included (e ∷ a) b → Included a b
  unfolding lookup
  Included-tail e a b h i k v p = ground (arith, i k v)

  pub Included-head :
      (e : K × V) (a b : Dict K V) → Included (e ∷ a) b → lookup dec e.0 b ≡ some e.1
  unfolding lookup
  Included-head e a b i = ground (arith, i e.0 e.1)

  Included-erase :
      (e : K × V) (a b : Dict K V)
      → IsDistinct dec (e ∷ a)
      → Included (e ∷ a) b
      → Included a (erase dec e.0 b)
  Included-erase e a b h i k v p =
      ground (arith, lookup-erase dec k e.0 b, Included-tail e a b h i k v p, h.0)

  -- A dict that another includes is no longer than it.
  pub length-le_of_Included :
      (a b : Dict K V) → IsDistinct dec a → Included a b → length a ≤ length b
  length-le_of_Included [] b h i = omega arith
  length-le_of_Included (e ∷ a) b h i = omega (
    arith,
    length-le_of_Included a (erase dec e.0 b) h.1 (Included-erase e a b h i),
    length-erase_known e.0 e.1 b (Included-head e a b i),
  )
