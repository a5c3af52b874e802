-- ===== src/Scheduling/Raising.antt =====
-- A worker that ends because a discard raised an error (app/analytics/scheduling.py): the account
-- passes from the worker to the stranded ones.
use onlyfans_conversational.Prelude.{
  ℕ, String, String-discrete, ℕ_discrete, ◌∷◌, Option, some, ◌≡◌, refl, arith, holds,
}
use onlyfans_conversational.Prelude.Dict
use onlyfans_conversational.Prelude.Dict.{lookup-insert}
use onlyfans_conversational.Prelude.Totals.{total-insert_known, length-insert_known}
use onlyfans_conversational.Scheduling.Types.{Attempt, Place, Limits, Scheduler}
use onlyfans_conversational.Scheduling.Drain.{discard_raised}
use onlyfans_conversational.Scheduling.Ownership.{
  one_if, count, Holding, held, weight, is_holding, Work, Workers, find_worker, IsOwned,
}
use onlyfans_conversational.Scheduling.Steps.{placed, IsSound}

-- The weight of a worker that holds something.
weight-of_held :
    (a : String) (p : Place) (h : Holding)
    → held p ≡ some h
    → weight a p ≡ one_if (holds (String-discrete a h.0))
unfolding weight
weight-of_held a p h e = ground (arith, e)

IsOwned-stranded :
    {lost pending : _} {work : Work} {workers : Workers} (t : ℕ) (p : Place) (h : Holding)
    → IsOwned lost pending work workers
    → find_worker t workers ≡ some p
    → held p ≡ some h
    → IsOwned (h.0 ∷ lost) pending work (Dict.insert ℕ_discrete t Place.done workers)
unfolding count weight is_holding
IsOwned-stranded {work = work} {workers = workers} t p h o at hp =
    let q = Place.done in
    record {
      balanced = λ a. omega (
        arith,
        o.balanced a,
        weight-of_held a p h hp,
        total-insert_known ℕ_discrete (weight a) t p q workers at,
      );
      coherent = λ u r k found hk. elim (ℕ_discrete u t) [
        | yes e ↦
            let here : Path (Option Place) (some q) (some r) =
              ground (arith, lookup-insert ℕ_discrete u t q workers, e, found) in
            let q_is : q ≡ r = cc in cc
        | no e ↦ o.coherent u r k (ground (arith, lookup-insert ℕ_discrete u t q workers, found)) hk
      ];
      sizes =
          let heavy : is_holding p ≡ 1 = ground (arith, hp) in
          omega (arith, o.sizes, heavy, total-insert_known ℕ_discrete is_holding t p q workers at);
      work_distinct = o.work_distinct;
      workers_distinct = Dict.insert-IsDistinct ℕ_discrete t q workers o.workers_distinct;
    }

pub raises-IsSound :
    (limits : Limits) (s : Scheduler) (t : ℕ)
    → IsSound limits s
    → (a : String) (id : ℕ) (attempt : Attempt)
    → find_worker t s.workers ≡ some (Place.discarding a id attempt)
    → IsSound limits (placed t (discard_raised a id attempt s))
raises-IsSound limits s t sound a id attempt at =
    let p = Place.discarding a id attempt in
    record {
      owned = λ o. IsOwned-stranded t p (a, id, attempt.attempted_revision) (sound.owned o) at refl;
      opened = sound.opened;
      sealed = sound.sealed;
      queue_bound = sound.queue_bound;
      worker_bound =
          omega
            (arith, sound.worker_bound, length-insert_known ℕ_discrete t p Place.done s.workers at);
      failure_bound = sound.failure_bound;
      available_bound = sound.available_bound;
      fresh = λ u r found. elim (ℕ_discrete u t) [
        | yes e ↦ omega (arith, e, sound.fresh t p at)
        | no e ↦
            sound.fresh u r
              (ground (arith, lookup-insert ℕ_discrete u t Place.done s.workers, found))
      ];
      epoch_current = sound.epoch_current;
    }
