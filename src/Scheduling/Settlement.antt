-- ===== src/Scheduling/Settlement.antt =====
-- How a round of `_drain_account` ends (app/analytics/scheduling.py).
use onlyfans_conversational.Prelude.{
  ℕ, ◌≤◌, ◌<◌, String, String-discrete, true, none, some, ◌≡◌, refl, arith, ◌⊎◌, inl, inr, ltb,
  Bool-cases, Option-cases,
}
use onlyfans_conversational.Prelude.Dict
use onlyfans_conversational.Prelude.Dict.{lookup-erase}
use onlyfans_conversational.Scheduling.Types.{
  AccountWork, Attempt, Place, Limits, Scheduler, ProjectionCandidate, ProjectionScheduleState,
  AvailabilityStatus,
}
use onlyfans_conversational.Scheduling.Admission.{record_available}
use onlyfans_conversational.Scheduling.Drain.{
  published_revision, failed_state, record_failure, record_success, settle, settle_work,
}
use onlyfans_conversational.Scheduling.Ownership.{Holding, find_work, find_worker}
use onlyfans_conversational.Scheduling.Steps.{Reach}
use onlyfans_conversational.Scheduling.Eviction.{lookup-put_last}
use onlyfans_conversational.Scheduling.Rounds.{own_work-held}
use onlyfans_conversational.Scheduling.Soundness.{Reach-IsSound}

-- The attempt has published a candidate of this revision, with no error.
abbrev pub IsPublished : Attempt → ℕ → Type 0
IsPublished attempt revision =
    (attempt.published ≡ true)
    × (attempt.reason_code ≡ none)
    × (c : ProjectionCandidate) × (attempt.candidate ≡ some c)
    × (c.source_revision ≡ revision)

-- The attempt has published nothing that covers `w`.
abbrev pub IsUnpublished : Attempt → AccountWork → Type 0
IsUnpublished attempt w =
    (revision : ℕ) → IsPublished attempt revision → revision < w.requested_revision

-- The account's work is over: an attempt that was published without an error has made it available
-- at a revision that covers `w`, or one that published no such revision has failed at the very
-- revision that `w` asks for.
abbrev pub IsOver : String → AccountWork → Attempt → Scheduler → Type 0
IsOver a w attempt s =
    (find_work a s.work ≡ none)
    × (((revision : ℕ) × (Dict.lookup String-discrete a s.available ≡ some revision)
          × (w.requested_revision ≤ revision)
          × IsPublished attempt revision)
        ⊎ (((f : ProjectionScheduleState) × (Dict.lookup String-discrete a s.failures ≡ some f)
              × (f.availability ≡ AvailabilityStatus.error)
              × (f.attempted_revision ≡ some attempt.attempted_revision)
              × (f.requested_revision ≡ some w.requested_revision))
            × IsUnpublished attempt w
            × (attempt.attempted_revision ≡ w.requested_revision)))

revision-IsPublished :
    (attempt : Attempt) (w : AccountWork) (revision : ℕ)
    → published_revision attempt w ≡ some revision
    → (w.requested_revision ≤ revision) × IsPublished attempt revision
revision-IsPublished attempt w revision h = elim (Option-cases attempt.candidate) [
  | inl e ↦ absurd (ground (arith, h, e))
  | inr (c, e) ↦ elim (Option-cases attempt.reason_code) [
    | inr (code, r) ↦ absurd (ground (arith, h, e, r))
    | inl r ↦ (ground (arith, h, e, r), (ground (arith, h, e, r), r, c, e, ground (arith, h, e, r)))
  ]
]

none-IsUnpublished :
    (attempt : Attempt) (w : AccountWork)
    → published_revision attempt w ≡ none
    → IsUnpublished attempt w
none-IsUnpublished attempt w h revision (published, clean, c, candidate, at) =
    ground (arith, h, published, clean, candidate, at)

-- The worker goes round again, since a later revision than the one attempted is asked for and
-- nothing that covers it was published; or the account's work is over.
abbrev pub IsSettled : String → ℕ → AccountWork → Attempt → Place × Scheduler → Type 0
IsSettled a id w attempt r =
    ((r.0 ≡ Place.draining a id)
      × (attempt.attempted_revision < w.requested_revision)
      × IsUnpublished attempt w)
    ⊎ ((r.0 ≡ Place.idle) × IsOver a w attempt r.1)

settle_work-IsSettled :
    (limits : Limits) (s : Scheduler) (a : String) (id : ℕ) (w : AccountWork) (attempt : Attempt)
    → attempt.attempted_revision ≤ w.requested_revision
    → 1 ≤ limits.failure_state_capacity
    → IsSettled a id w attempt (settle_work (published_revision attempt w) w limits a id attempt s)
unfolding record_success record_available record_failure
settle_work-IsSettled limits s a id w attempt floor room =
    let capacity = limits.failure_state_capacity in
    let gone : find_work a (Dict.erase String-discrete a s.work) ≡ none =
      ground (arith, lookup-erase String-discrete a a s.work) in
    elim (Option-cases (published_revision attempt w)) [
      | inr (revision, done) ↦
          let cached = lookup-put_last capacity a revision s.available room in
          let covered = revision-IsPublished attempt w revision done in
          rw (done, settle_work) (inr (refl, (gone, inl (revision, cached, covered.0, covered.1))))
      | inl undone ↦ elim (Bool-cases (ltb attempt.attempted_revision w.requested_revision)) [
        | inl more ↦
            rw (undone, settle_work, more)
              (inl (refl, ground (arith, more), none-IsUnpublished attempt w undone))
        | inr last ↦
            let cached = lookup-put_last capacity a (failed_state w attempt) s.failures room in
            rw (undone, settle_work, last)
              (inr (
                refl,
                (
                  gone,
                  inr (
                    (failed_state w attempt, cached, refl, refl, refl),
                    none-IsUnpublished attempt w undone,
                    ground (arith, last, floor),
                  ),
                ),
              ))
      ]
    ]

-- If the caches hold one entry at least, a worker that settles its round in a reachable state either
-- finds the scheduler closed; or it goes round again, and then a later revision than the one attempted
-- is asked for; or the account has no work any more and either is available at a revision that covers
-- what was asked for and that the attempt published without an error, or has failed at exactly the
-- revision asked for. It goes round or fails only if the attempt published no revision that covers
-- what was asked for.
pub settle-outcome :
    (limits : Limits) (s : Scheduler) (t : ℕ) (a : String) (id : ℕ) (attempt : Attempt)
    → Reach limits s
    → find_worker t s.workers ≡ some (Place.settling a id attempt)
    → 1 ≤ limits.failure_state_capacity
    → (s.closed ≡ true)
      ⊎ ((w : AccountWork) × (find_work a s.work ≡ some w)
          × IsSettled a id w attempt (settle limits a id attempt s))
unfolding settle
settle-outcome limits s t a id attempt reach at room =
    let h : Holding = (a, id, attempt.attempted_revision) in
    elim (own_work-held limits s t (Place.settling a id attempt) h (Reach-IsSound limits s reach) at
      refl) [
        | inl (lost, shut) ↦ inl shut
        | inr (w, own, found, same, floor, is_open) ↦
            rw own (inr (w, found, settle_work-IsSettled limits s a id w attempt floor room))
      ]
