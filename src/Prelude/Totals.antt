-- ===== src/Prelude/Totals.antt =====
-- Weighted sums over the entries of a dict, through its updates.
use Prim.Native.Nat.{ℕ, suc, ◌+◌, ◌≤◌}
use mathlib.Core.Path.{◌≡◌, refl}
use mathlib.Core.Logic.{◌≢◌, inl, inr}
use mathlib.Core.Bool.{Bool, false}
use mathlib.Core.Option.{none, some}
use mathlib.Core.List.{[], ◌∷◌}
use native.Mathlib.Omega.{arith}
use onlyfans_conversational.Prelude.Tests.{Bool-cases}
use onlyfans_conversational.Prelude.Lists.{length, filter}
use onlyfans_conversational.Prelude.Dict.{Dict, lookup, insert, erase, IsDistinct}

module _ {ℓ} {K V : Type ℓ} where
  unfoldable pub total : (V → ℕ) → Dict K V → ℕ
  total f [] = 0
  total f (e ∷ d) = f e.1 + total f d

  pub total-le_length : (f : V → ℕ) (d : Dict K V) → ((v : V) → f v ≤ 1) → total f d ≤ length d
  unfolding total
  total-le_length f [] h = omega arith
  total-le_length f (e ∷ d) h = omega (arith, h e.1, total-le_length f d h)

  -- Entries without weight can be filtered away.
  pub total-filter :
      (f : V → ℕ) (p : K × V → Bool) (d : Dict K V)
      → ((e : K × V) → p e ≡ false → f e.1 ≡ 0)
      → total f (filter p d) ≡ total f d
  unfolding total
  total-filter f p [] h = refl
  total-filter f p (e ∷ d) h = elim (Bool-cases (p e)) [
    | inl kept ↦ rw kept (omega (arith, total-filter f p d h))
    | inr gone ↦ rw gone (omega (arith, total-filter f p d h, h e gone))
  ]

module _ {ℓ} {K V : Type ℓ} (dec : Discrete K) where
  pub lookup-filter-some :
      (p : K × V → Bool) (k : K) (v : V) (d : Dict K V)
      → IsDistinct dec d
      → lookup dec k (filter p d) ≡ some v
      → lookup dec k d ≡ some v
  unfolding lookup
  lookup-filter-some p k v [] h e = cc
  lookup-filter-some p k v (x ∷ d) h e = ground (arith, lookup-filter-some p k v d h.1, h.0)

  erase-absent : (k : K) (d : Dict K V) → lookup dec k d ≡ none → erase dec k d ≡ d
  unfolding lookup erase
  erase-absent k [] h = refl
  erase-absent k (e ∷ d) h = ground (arith, erase-absent k d)

  -- A known key's entry is replaced.
  pub total-insert_known :
      (f : V → ℕ) (k : K) (old new : V) (d : Dict K V)
      → lookup dec k d ≡ some old
      → total f (insert dec k new d) + f old ≡ total f d + f new
  unfolding lookup insert total
  total-insert_known f k old new [] h = cc
  total-insert_known f k old new (e ∷ d) h = ground (arith, total-insert_known f k old new d)

  pub total-insert_new :
      (f : V → ℕ) (k : K) (new : V) (d : Dict K V)
      → lookup dec k d ≡ none
      → total f (insert dec k new d) ≡ total f d + f new
  unfolding lookup insert total
  total-insert_new f k new [] h = omega arith
  total-insert_new f k new (e ∷ d) h = ground (arith, total-insert_new f k new d)

  pub total-erase :
      (f : V → ℕ) (k : K) (old : V) (d : Dict K V)
      → IsDistinct dec d
      → lookup dec k d ≡ some old
      → total f (erase dec k d) + f old ≡ total f d
  unfolding lookup erase total
  total-erase f k old [] h p = cc
  total-erase f k old (e ∷ d) h p =
      ground (arith, total-erase f k old d h.1, erase-absent e.0 d h.0)

  pub total-lookup :
      (f : V → ℕ) (k : K) (v : V) (d : Dict K V) → lookup dec k d ≡ some v → f v ≤ total f d
  unfolding lookup total
  total-lookup f k v [] h = cc
  total-lookup f k v (e ∷ d) h = ground (arith, total-lookup f k v d)

  -- Two entries together weigh at most the whole.
  pub total-lookup_two :
      (f : V → ℕ) (j k : K) (v w : V) (d : Dict K V)
      → j ≢ k
      → lookup dec j d ≡ some v
      → lookup dec k d ≡ some w
      → f v + f w ≤ total f d
  unfolding lookup total
  total-lookup_two f j k v w [] n p q = cc
  total-lookup_two f j k v w (e ∷ d) n p q =
      ground (arith, total-lookup_two f j k v w d n, total-lookup f j v d, total-lookup f k w d)

  pub length-insert_known :
      (k : K) (old new : V) (d : Dict K V)
      → lookup dec k d ≡ some old
      → length (insert dec k new d) ≡ length d
  unfolding lookup insert
  length-insert_known k old new [] h = cc
  length-insert_known k old new (e ∷ d) h = ground (arith, length-insert_known k old new d)

  pub length-insert_new :
      (k : K) (new : V) (d : Dict K V)
      → lookup dec k d ≡ none
      → length (insert dec k new d) ≡ suc (length d)
  unfolding lookup insert
  length-insert_new k new [] h = refl
  length-insert_new k new (e ∷ d) h = ground (arith, length-insert_new k new d)

  pub length-erase_exact :
      (k : K) (old : V) (d : Dict K V)
      → IsDistinct dec d
      → lookup dec k d ≡ some old
      → suc (length (erase dec k d)) ≡ length d
  unfolding lookup erase
  length-erase_exact k old [] h p = cc
  length-erase_exact k old (e ∷ d) h p =
      ground (arith, length-erase_exact k old d h.1, erase-absent e.0 d h.0)
