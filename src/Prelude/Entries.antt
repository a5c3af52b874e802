-- ===== src/Prelude/Entries.antt =====
-- Predicates on every entry of a dict, through its updates.
use mathlib.Core.Path.{◌≡◌, refl}
use mathlib.Core.Logic.{ite, inl, inr}
use mathlib.Core.Bool.{Bool, true}
use mathlib.Core.Option.{none, some}
use mathlib.Core.List.{List, [], ◌∷◌}
use native.Mathlib.Omega.{arith}
use onlyfans_conversational.Prelude.Tests.{Bool-cases}
use onlyfans_conversational.Prelude.Lists.{filter, All}
use onlyfans_conversational.Prelude.Dict.{
  Dict, lookup, contains, insert, erase, IsDistinct, lookup-insert,
}

pub All-imp {ℓ κ μ} :
    {A : Type ℓ} (P : A → Type κ) (Q : A → Type μ) (xs : List A)
    → ((x : A) → P x → Q x)
    → All P xs
    → All Q xs
All-imp P Q [] f h = tt
All-imp P Q (x ∷ xs) f h = (f x h.0, All-imp P Q xs f h.1)

pub All-filter {ℓ κ} :
    {A : Type ℓ} (P : A → Type κ) (p : A → Bool) (xs : List A) → All P xs → All P (filter p xs)
All-filter P p [] h = tt
All-filter P p (x ∷ xs) h = elim (Bool-cases (p x)) [
  | inl e ↦ rw e (h.0, All-filter P p xs h.1)
  | inr e ↦ rw e (All-filter P p xs h.1)
]

module _ {ℓ} {K V : Type ℓ} (dec : Discrete K) where
  pub All-insert {κ} :
      (P : K × V → Type κ) (k : K) (v : V) (d : Dict K V)
      → P (k, v)
      → All P d
      → All P (insert dec k v d)
  unfolding insert
  All-insert P k v [] p h = (p, tt)
  All-insert P k v (e ∷ d) p h =
      elim (dec k e.0) as (λ q. All P (ite q ((k, v) ∷ d) (e ∷ insert dec k v d))) [
        | yes same ↦ (p, h.1)
        | no other ↦ (h.0, All-insert P k v d p h.1)
      ]

  pub All-erase {κ} : (P : K × V → Type κ) (k : K) (d : Dict K V) → All P d → All P (erase dec k d)
  unfolding erase
  All-erase P k [] h = tt
  All-erase P k (e ∷ d) h =
      elim (dec k e.0) as (λ q. All P (ite q (erase dec k d) (e ∷ erase dec k d))) [
        | yes same ↦ All-erase P k d h.1
        | no other ↦ (h.0, All-erase P k d h.1)
      ]

  -- What holds of every entry holds of what a lookup finds.
  pub All-lookup {κ} :
      (P : K → V → Type κ) (k : K) (v : V) (d : Dict K V)
      → All (λ e. P e.0 e.1) d
      → lookup dec k d ≡ some v
      → P k v
  unfolding lookup
  All-lookup P k v [] h e = cc
  All-lookup P k v (x ∷ d) h e = elim (dec k x.0) [
    | yes same ↦ let found : x.1 ≡ v = ground arith in rw (same, ← found) h.0
    | no other ↦ All-lookup P k v d h.1 (ground arith)
  ]

  pub lookup-filter-none :
      (p : K × V → Bool) (k : K) (d : Dict K V)
      → lookup dec k d ≡ none
      → lookup dec k (filter p d) ≡ none
  unfolding lookup
  lookup-filter-none p k [] h = refl
  lookup-filter-none p k (e ∷ d) h = ground (arith, lookup-filter-none p k d)

  pub filter-IsDistinct :
      (p : K × V → Bool) (d : Dict K V) → IsDistinct dec d → IsDistinct dec (filter p d)
  filter-IsDistinct p [] h = tt
  filter-IsDistinct p (e ∷ d) h =
      ground (arith, filter-IsDistinct p d h.1, lookup-filter-none p e.0 d h.0)

  pub contains-insert :
      (j k : K) (v : V) (d : Dict K V)
      → contains dec j d ≡ true
      → contains dec j (insert dec k v d) ≡ true
  contains-insert j k v d h = ground (arith, lookup-insert dec j k v d)
