-- ===== src/Scheduling/Transfers.antt =====
-- How ownership of an account's work passes from the queue to a worker and ends
-- (app/analytics/scheduling.py).
use onlyfans_conversational.Prelude.{
  ℕ, ◌+◌, ◌≤◌, String, String-discrete, ℕ_discrete, List, [], ◌∷◌, ◌++◌, Option, none, some, ◌≡◌,
  ◌≢◌, arith, holds, length-append, not,
}
use onlyfans_conversational.Prelude.Dict
use onlyfans_conversational.Prelude.Dict.{Dict, lookup-insert, lookup-erase}
use onlyfans_conversational.Prelude.Entries.{filter-IsDistinct}
use onlyfans_conversational.Prelude.Totals.{
  total-insert_known, total-insert_new, total-erase, total-filter, total-lookup_two,
  length-insert_known, length-insert_new, length-erase_exact, lookup-filter-some,
}
use onlyfans_conversational.Scheduling.Types.{AccountWork, Place}
use onlyfans_conversational.Scheduling.Admission.{is_done, running_workers}
use onlyfans_conversational.Scheduling.Ownership.{
  one_if, count, Holding, held, weight, is_holding, Work, Workers, find_work, find_worker, presence,
  IsOwned,
}

pub presence-le : (o : Option AccountWork) → presence o ≤ 1
presence-le none = omega arith
presence-le (some w) = omega arith

pub weight-held : (p : Place) (h : Holding) → held p ≡ some h → weight h.0 p ≡ 1
unfolding weight
weight-held p h e = ground arith

count-snoc :
    (a b : String) (xs : List String)
    → count a (xs ++ b ∷ []) ≡ count a xs + one_if (holds (String-discrete a b))
unfolding count
count-snoc a b [] = omega arith
count-snoc a b (x ∷ xs) = omega (arith, count-snoc a b xs)

module _ {lost pending : List String} {work : Work} {workers : Workers} where
  -- A worker that holds nothing still holds nothing.
  pub IsOwned-idle :
      (t : ℕ) (p q : Place)
      → IsOwned lost pending work workers
      → find_worker t workers ≡ some p
      → held p ≡ none
      → held q ≡ none
      → IsOwned lost pending work (Dict.insert ℕ_discrete t q workers)
  unfolding weight is_holding
  IsOwned-idle t p q o at hp hq = record {
    balanced = λ a.
        let same : weight a p ≡ weight a q = ground arith in
        omega
          (arith, o.balanced a, same, total-insert_known ℕ_discrete (weight a) t p q workers at);
    coherent = λ u r k found hk. elim (ℕ_discrete u t) [
      | yes e ↦
          let here : Path (Option Place) (some q) (some r) =
            ground (arith, lookup-insert ℕ_discrete u t q workers, e, found) in
          let q_is : q ≡ r = cc in cc
      | no e ↦ o.coherent u r k (ground (arith, lookup-insert ℕ_discrete u t q workers, found)) hk
    ];
    sizes =
        let same : is_holding p ≡ is_holding q = ground arith in
        omega (arith, o.sizes, same, total-insert_known ℕ_discrete is_holding t p q workers at);
    work_distinct = o.work_distinct;
    workers_distinct = Dict.insert-IsDistinct ℕ_discrete t q workers o.workers_distinct;
  }

  -- A new worker that holds nothing.
  pub IsOwned-spawned :
      (t : ℕ) (q : Place)
      → IsOwned lost pending work workers
      → find_worker t workers ≡ none
      → held q ≡ none
      → IsOwned lost pending work (Dict.insert ℕ_discrete t q workers)
  unfolding weight is_holding
  IsOwned-spawned t q o at hq = record {
    balanced = λ a.
        let light : weight a q ≡ 0 = ground arith in
        omega (arith, o.balanced a, light, total-insert_new ℕ_discrete (weight a) t q workers at);
    coherent = λ u r k found hk. elim (ℕ_discrete u t) [
      | yes e ↦
          let here : Path (Option Place) (some q) (some r) =
            ground (arith, lookup-insert ℕ_discrete u t q workers, e, found) in
          let q_is : q ≡ r = cc in cc
      | no e ↦ o.coherent u r k (ground (arith, lookup-insert ℕ_discrete u t q workers, found)) hk
    ];
    sizes =
        let light : is_holding q ≡ 0 = ground arith in
        omega (arith, o.sizes, light, total-insert_new ℕ_discrete is_holding t q workers at);
    work_distinct = o.work_distinct;
    workers_distinct = Dict.insert-IsDistinct ℕ_discrete t q workers o.workers_distinct;
  }

  -- A worker that holds nothing is forgotten.
  pub IsOwned-forgotten :
      (t : ℕ) (p : Place)
      → IsOwned lost pending work workers
      → find_worker t workers ≡ some p
      → held p ≡ none
      → IsOwned lost pending work (Dict.erase ℕ_discrete t workers)
  unfolding weight is_holding
  IsOwned-forgotten t p o at hp = record {
    balanced = λ a.
        let light : weight a p ≡ 0 = ground arith in
        omega (
          arith,
          o.balanced a,
          light,
          total-erase ℕ_discrete (weight a) t p workers o.workers_distinct at,
        );
    coherent = λ u r k found hk.
        o.coherent u r k (ground (arith, lookup-erase ℕ_discrete u t workers, found)) hk;
    sizes =
        let light : is_holding p ≡ 0 = ground arith in
        omega (
          arith,
          o.sizes,
          light,
          total-erase ℕ_discrete is_holding t p workers o.workers_distinct at,
        );
    work_distinct = o.work_distinct;
    workers_distinct = Dict.erase-IsDistinct ℕ_discrete t workers o.workers_distinct;
  }

  -- The workers that have returned are forgotten.
  pub IsOwned-running :
      IsOwned lost pending work workers → IsOwned lost pending work (running_workers workers)
  unfolding running_workers weight is_holding
  IsOwned-running o = record {
    balanced = λ a. omega (
      arith,
      o.balanced a,
      total-filter (weight a) (λ e. not (is_done e.1)) workers (λ e gone. ground arith),
    );
    coherent = λ u r k found hk.
        o.coherent u r k
          (lookup-filter-some ℕ_discrete (λ e. not (is_done e.1)) u r workers o.workers_distinct
            found)
          hk;
    sizes = omega (
      arith,
      o.sizes,
      total-filter is_holding (λ e. not (is_done e.1)) workers (λ e gone. ground arith),
    );
    work_distinct = o.work_distinct;
    workers_distinct =
        filter-IsDistinct ℕ_discrete (λ e. not (is_done e.1)) workers o.workers_distinct;
  }

  -- An account's work is replaced by the same work, which asks for no less.
  pub IsOwned-updated :
      (a : String) (old new : AccountWork)
      → IsOwned lost pending work workers
      → find_work a work ≡ some old
      → new.work_id ≡ old.work_id
      → old.requested_revision ≤ new.requested_revision
      → IsOwned lost pending (Dict.insert String-discrete a new work) workers
  IsOwned-updated a old new o at same more = record {
    balanced = λ b. ground (arith, o.balanced b, lookup-insert String-discrete b a new work, at);
    coherent = λ u r k found hk.
        let (w, there, id, floor) = o.coherent u r k found hk in
        elim (String-discrete k.0 a) [
          | yes e ↦
              let both : Path (Option AccountWork) (some old) (some w) =
                ground (arith, at, there, e) in
              let old_is : old ≡ w = cc in
              (
                new,
                ground (arith, lookup-insert String-discrete k.0 a new work, e),
                ground (arith, same, id, old_is),
                ground (arith, more, floor, old_is),
              )
          | no e ↦
              (w, ground (arith, lookup-insert String-discrete k.0 a new work, there), id, floor)
        ];
    sizes = omega (arith, o.sizes, length-insert_known String-discrete a old new work at);
    work_distinct = Dict.insert-IsDistinct String-discrete a new work o.work_distinct;
    workers_distinct = o.workers_distinct;
  }

  -- New work is queued.
  pub IsOwned-queued :
      (a : String) (new : AccountWork)
      → IsOwned lost pending work workers
      → find_work a work ≡ none
      → IsOwned lost (pending ++ a ∷ []) (Dict.insert String-discrete a new work) workers
  IsOwned-queued a new o at = record {
    balanced = λ b. ground (
      arith,
      o.balanced b,
      lookup-insert String-discrete b a new work,
      at,
      count-snoc b a pending,
    );
    coherent = λ u r k found hk.
        let (w, there, id, floor) = o.coherent u r k found hk in
        (w, ground (arith, lookup-insert String-discrete k.0 a new work, there, at), id, floor);
    sizes = omega (
      arith,
      o.sizes,
      length-insert_new String-discrete a new work at,
      length-append pending (a ∷ []),
    );
    work_distinct = Dict.insert-IsDistinct String-discrete a new work o.work_distinct;
    workers_distinct = o.workers_distinct;
  }

  -- No other worker holds the account that a worker holds.
  others-differ :
      (t u : ℕ) (p r : Place) (h k : Holding)
      → IsOwned lost pending work workers
      → find_worker t workers ≡ some p
      → held p ≡ some h
      → u ≢ t
      → find_worker u workers ≡ some r
      → held r ≡ some k
      → k.0 ≢ h.0
  others-differ t u p r h k o at hp apart found hr e =
      let both = total-lookup_two ℕ_discrete (weight h.0) u t r p workers apart found at in
      let heavy : weight h.0 r ≡ 1 = rw (← e) (weight-held r k hr) in
      omega
        (arith, both, o.balanced h.0, weight-held p h hp, heavy, presence-le (find_work h.0 work))

  -- A worker ends the work that it holds.
  pub IsOwned-dropped :
      (t : ℕ) (p q : Place) (h : Holding)
      → IsOwned lost pending work workers
      → find_worker t workers ≡ some p
      → held p ≡ some h
      → held q ≡ none
      → IsOwned lost pending
          (Dict.erase String-discrete h.0 work)
          (Dict.insert ℕ_discrete t q workers)
  unfolding weight is_holding
  IsOwned-dropped t p q h o at hp hq =
      let (own, there, id, floor) = o.coherent t p h at hp in
      record {
        balanced = λ a.
            let light : weight a q ≡ 0 = ground arith in
            let step = total-insert_known ℕ_discrete (weight a) t p q workers at in
            elim (String-discrete a h.0) [
              | yes e ↦
                  let heavy : weight a p ≡ 1 = rw e (weight-held p h hp) in
                  ground (
                    arith,
                    o.balanced a,
                    step,
                    light,
                    heavy,
                    lookup-erase String-discrete a h.0 work,
                    there,
                    e,
                  )
              | no e ↦
                  let heavy : weight a p ≡ 0 = ground arith in
                  ground (
                    arith,
                    o.balanced a,
                    step,
                    light,
                    heavy,
                    lookup-erase String-discrete a h.0 work,
                  )
            ];
        coherent = λ u r k found hk. elim (ℕ_discrete u t) [
          | yes e ↦
              let here : Path (Option Place) (some q) (some r) =
                ground (arith, lookup-insert ℕ_discrete u t q workers, e, found) in
              let q_is : q ≡ r = cc in cc
          | no e ↦
              let before : find_worker u workers ≡ some r =
                ground (arith, lookup-insert ℕ_discrete u t q workers, found) in
              let (w, found_work, same, low) = o.coherent u r k before hk in
              let other = others-differ t u p r h k o at hp e before hk in
              (
                w,
                ground (arith, lookup-erase String-discrete k.0 h.0 work, found_work, other),
                same,
                low,
              )
        ];
        sizes =
            let light : is_holding q ≡ 0 = ground arith in
            let heavy : is_holding p ≡ 1 = ground arith in
            omega (
              arith,
              o.sizes,
              light,
              heavy,
              total-insert_known ℕ_discrete is_holding t p q workers at,
              length-erase_exact String-discrete h.0 own work o.work_distinct there,
            );
        work_distinct = Dict.erase-IsDistinct String-discrete h.0 work o.work_distinct;
        workers_distinct = Dict.insert-IsDistinct ℕ_discrete t q workers o.workers_distinct;
      }
