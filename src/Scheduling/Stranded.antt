-- ===== src/Scheduling/Stranded.antt =====
-- What an unexpected error of a discard leaves behind (app/analytics/scheduling.py).
use onlyfans_conversational.Prelude.{
  ℕ, ◌+◌, String, Bool, true, false, some, ◌≡◌, refl, arith, ◌⊎◌, inl, inr, Bool-cases,
  Option-cases,
}
use onlyfans_conversational.Prelude.Totals.{total}
use onlyfans_conversational.Scheduling.Types.{AccountWork, Attempt, Place, Limits, Scheduler}
use onlyfans_conversational.Scheduling.Admission.{schedule, schedule_check, coalesce}
use onlyfans_conversational.Scheduling.Drain.{discard_raised}
use onlyfans_conversational.Scheduling.Ownership.{count, weight, find_work, find_worker}
use onlyfans_conversational.Scheduling.Steps.{placed, Reach, works, raises, next}
use onlyfans_conversational.Scheduling.Soundness.{Reach-IsSound}
use onlyfans_conversational.Scheduling.Closure.{Follows, follows-Reach}
use onlyfans_conversational.Scheduling.Losses.{HasLost, Follows-HasLost}

-- The account has work, but neither the queue nor a worker has the account, and a call of
-- `schedule` leaves the queue as it is.
abbrev pub IsStranded : Limits → String → Scheduler → Type 0
IsStranded limits a s =
    ((w : AccountWork) × (find_work a s.work ≡ some w))
    × (count a s.pending + total (weight a) s.workers ≡ 0)
    × ((revision : ℕ) (retry_failed : Bool)
        → (schedule limits a revision retry_failed s).1.pending ≡ s.pending)

lost-IsStranded :
    (limits : Limits) (s : Scheduler) (a : String)
    → Reach limits s
    → s.closed ≡ false
    → HasLost a 1 s
    → IsStranded limits a s
unfolding schedule schedule_check coalesce
lost-IsStranded limits s a reach is_open lost =
    let sound = Reach-IsSound limits s reach in
    let (accepting, unpublished) = sound.opened is_open in
    let balance = (sound.owned is_open).balanced a in
    elim (Option-cases (find_work a s.work)) [
      | inl missing ↦ absurd (ground (arith, balance, missing, lost))
      | inr (w, found) ↦ (
        (w, found),
        ground (arith, balance, found, lost),
        λ revision retry_failed. rw (accepting, is_open, found) refl,
      )
    ]

-- When the discard of a reachable scheduler raises another error than the two that its caller
-- expects, the worker's task ends and the account is stranded: in every later state, whatever steps
-- lead to it, unless the scheduler is closed, the account's work stays, nobody holds it, and no call
-- of `schedule` queues it again.
pub discard_raised-IsStranded :
    (limits : Limits) (s s' : Scheduler) (t : ℕ) (a : String) (id : ℕ) (attempt : Attempt)
    → Reach limits s
    → find_worker t s.workers ≡ some (Place.discarding a id attempt)
    → Follows limits (placed t (discard_raised a id attempt s)) s'
    → (s'.closed ≡ true) ⊎ IsStranded limits a s'
unfolding count
discard_raised-IsStranded limits s s' t a id attempt reach at follows =
    let after = placed t (discard_raised a id attempt s) in
    let raised : Reach limits after =
      next reach
        (works t (Place.discarding a id attempt) (discard_raised a id attempt s) at raises) in
    let first : HasLost a 1 after = ground arith in
    let lost = Follows-HasLost a 1 limits after s' first follows in
    elim (Bool-cases s'.closed) [
      | inl shut ↦ inl shut
      | inr is_open ↦
          inr (
            lost-IsStranded limits s' a (follows-Reach limits after s' raised follows) is_open lost)
    ]
