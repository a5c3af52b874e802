-- ===== src/Scheduling/Ownership.antt =====
-- Who owns an account's work: the queue, or one worker (app/analytics/scheduling.py), through the
-- changes that the scheduler makes to its queue, its work and its workers.
use onlyfans_conversational.Prelude.{
  ℕ, ◌+◌, ◌≤◌, String, String-discrete, ℕ_discrete, Bool, List, [], ◌∷◌, Option, none, some, ◌≡◌,
  refl, arith, length, if◌then◌else◌, holds, Option-cases, inl, inr,
}
use onlyfans_conversational.Prelude.Dict
use onlyfans_conversational.Prelude.Dict.{Dict, lookup-insert, lookup-erase}
use onlyfans_conversational.Prelude.Totals.{total, total-insert_known}
use onlyfans_conversational.Scheduling.Types.{AccountWork, Place}

abbrev pub one_if : Bool → ℕ
one_if b = if b then 1 else 0

-- How often the account is queued.
unfoldable pub count : String → List String → ℕ
count a [] = 0
count a (x ∷ xs) = one_if (holds (String-discrete a x)) + count a xs

-- What a worker holds: the account, the number of its work, and the revision that it has attempted.
abbrev pub Holding : Type 0
Holding = String × ℕ × ℕ

abbrev pub held : Place → Option Holding
held Place.idle = none
held (Place.draining a id) = some (a, id, 0)
held (Place.attempting a id attempted token) = some (a, id, attempted)
held (Place.publishing a id attempted c) = some (a, id, attempted)
held (Place.discarding a id attempt) = some (a, id, attempt.attempted_revision)
held (Place.settling a id attempt) = some (a, id, attempt.attempted_revision)
held Place.done = none

abbrev weight_of : String → Option Holding → ℕ
weight_of a none = 0
weight_of a (some h) = one_if (holds (String-discrete a h.0))

unfoldable pub weight : String → Place → ℕ
weight a p = weight_of a (held p)

abbrev holds_any : Option Holding → ℕ
holds_any none = 0
holds_any (some h) = 1

unfoldable pub is_holding : Place → ℕ
is_holding p = holds_any (held p)

abbrev pub Work : Type 0
Work = Dict String AccountWork

abbrev pub Workers : Type 0
Workers = Dict ℕ Place

abbrev pub find_work : String → Work → Option AccountWork
find_work a work = Dict.lookup String-discrete a work

abbrev pub find_worker : ℕ → Workers → Option Place
find_worker t workers = Dict.lookup ℕ_discrete t workers

abbrev pub presence : Option AccountWork → ℕ
presence none = 0
presence (some w) = 1

-- The dict has the work that the worker holds, and it asks for no less than was attempted.
abbrev pub HasWork : Holding → Work → Type 0
HasWork h work =
    (w : AccountWork) × (find_work h.0 work ≡ some w)
    × (w.work_id ≡ h.1)
    × (h.2 ≤ w.requested_revision)

-- Each account in `_work` is queued once, or held by one worker, or stranded, and no other account is.
pub record IsOwned (lost pending : List String) (work : Work) (workers : Workers) : Type 0 where
  pub balanced :
      (a : String)
      → count a pending + total (weight a) workers + count a lost ≡ presence (find_work a work)
  pub coherent :
      (t : ℕ) (p : Place) (h : Holding)
      → find_worker t workers ≡ some p
      → held p ≡ some h
      → HasWork h work
  pub sizes : length work ≡ length pending + total is_holding workers + length lost
  pub work_distinct : Dict.IsDistinct String-discrete work
  pub workers_distinct : Dict.IsDistinct ℕ_discrete workers

module _ {lost pending : List String} {work : Work} {workers : Workers} where
  -- A worker that holds what it held, or more of it.
  pub IsOwned-move :
      (t : ℕ) (p q : Place) (h : Holding) (floor : ℕ)
      → IsOwned lost pending work workers
      → find_worker t workers ≡ some p
      → held p ≡ some h
      → held q ≡ some (h.0, h.1, floor)
      → HasWork (h.0, h.1, floor) work
      → IsOwned lost pending work (Dict.insert ℕ_discrete t q workers)
  unfolding weight is_holding
  IsOwned-move t p q h floor o at hp hq has = record {
    balanced = λ a.
        let same : weight a p ≡ weight a q = ground arith in
        omega
          (arith, o.balanced a, same, total-insert_known ℕ_discrete (weight a) t p q workers at);
    coherent = λ u r k found hk. elim (ℕ_discrete u t) [
      | yes e ↦
          let here : Path (Option Place) (some q) (some r) =
            ground (arith, lookup-insert ℕ_discrete u t q workers, e, found) in
          let q_is : q ≡ r = cc in
          let both : Path (Option Holding) (some (h.0, h.1, floor)) (some k) = cc in
          let k_is : (h.0, h.1, floor) ≡ k = cc in rw (← k_is) has
      | no e ↦ o.coherent u r k (ground (arith, lookup-insert ℕ_discrete u t q workers, found)) hk
    ];
    sizes =
        let same : is_holding p ≡ is_holding q = ground arith in
        omega (arith, o.sizes, same, total-insert_known ℕ_discrete is_holding t p q workers at);
    work_distinct = o.work_distinct;
    workers_distinct = Dict.insert-IsDistinct ℕ_discrete t q workers o.workers_distinct;
  }

-- The first account in the queue has work.
pub IsOwned-first :
    {lost : List String} (a : String) (rest : List String) (work : Work) (workers : Workers)
    → IsOwned lost (a ∷ rest) work workers
    → (w : AccountWork) × (find_work a work ≡ some w)
unfolding count
IsOwned-first a rest work workers o = elim (Option-cases (find_work a work)) [
  | inl missing ↦ absurd (ground (arith, o.balanced a, missing))
  | inr found ↦ found
]

-- A worker that holds nothing takes the first account.
pub IsOwned-taken :
    {lost : List String} (a : String) (rest : List String) (work : Work) (workers : Workers) (t : ℕ)
    (p : Place) (w : AccountWork)
    → IsOwned lost (a ∷ rest) work workers
    → find_worker t workers ≡ some p
    → held p ≡ none
    → find_work a work ≡ some w
    → IsOwned lost rest work (Dict.insert ℕ_discrete t (Place.draining a w.work_id) workers)
unfolding count weight is_holding
IsOwned-taken a rest work workers t p w o at hp own =
    let q = Place.draining a w.work_id in
    record {
      balanced = λ b.
          let light : weight b p ≡ 0 = ground arith in
          omega
            (arith, o.balanced b, light, total-insert_known ℕ_discrete (weight b) t p q workers at);
      coherent = λ u r k found hk. elim (ℕ_discrete u t) [
        | yes e ↦
            let here : Path (Option Place) (some q) (some r) =
              ground (arith, lookup-insert ℕ_discrete u t q workers, e, found) in
            let q_is : q ≡ r = cc in
            let both : Path (Option Holding) (some (a, w.work_id, 0)) (some k) = cc in
            let k_is : (a, w.work_id, 0) ≡ k = cc in rw (← k_is) (w, own, refl, omega arith)
        | no e ↦ o.coherent u r k (ground (arith, lookup-insert ℕ_discrete u t q workers, found)) hk
      ];
      sizes =
          let light : is_holding p ≡ 0 = ground arith in
          omega (arith, o.sizes, light, total-insert_known ℕ_discrete is_holding t p q workers at);
      work_distinct = o.work_distinct;
      workers_distinct = Dict.insert-IsDistinct ℕ_discrete t q workers o.workers_distinct;
    }
