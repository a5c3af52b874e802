-- ===== src/Scheduling/Publication.antt =====
-- Publication epochs and the publication gate of app/analytics/scheduling.py, each block under the
-- state lock a function. What the pipeline and the storage answer is a parameter.
use onlyfans_conversational.Prelude.{
  ℕ, ◌+◌, ◌-◌, String, String-discrete, ℕ_discrete, Bool, true, false, Option, none, some, [], ◌||◌,
  not, holds, if◌then◌else◌, Result, ok, err,
}
use onlyfans_conversational.Prelude.Dict
use onlyfans_conversational.Scheduling.Types.{Scheduler, ProjectionCandidate, ScheduleError}

-- `candidate.publication_epoch == current_epoch`
abbrev pub is_epoch : Option String → Option String → Bool
is_epoch none none = true
is_epoch none (some current) = false
is_epoch (some e) none = false
is_epoch (some e) (some current) = holds (String-discrete e current)

-- The gate of `_publish_if_open`
unfoldable pub publish_begin :
    ProjectionCandidate → Scheduler → Result ScheduleError Unit × Scheduler
publish_begin c s =
    if s.publication_closed || not (is_epoch c.publication_epoch s.publication_epoch)
    then (err ScheduleError.coordinator_closed, s)
    else (ok tt, record s { active_publications = s.active_publications + 1 })

-- Its `finally`
unfoldable pub publish_end : Scheduler → Scheduler
publish_end s = record s { active_publications = s.active_publications - 1 }

pub data EpochCheck : Type 0 where
  usable : String → EpochCheck
  refused : EpochCheck
  opening : ℕ → EpochCheck

abbrev pub is_serial : Option ℕ → ℕ → Bool
is_serial none n = false
is_serial (some m) n = holds (ℕ_discrete m n)

-- The first block of `_ensure_publication_epoch`: `opening serial` where it goes on to open one.
unfoldable pub epoch_check : Scheduler → EpochCheck
epoch_check s =
    let serial = s.projection_storage_failure_serial in
    let otherwise =
      if s.publication_closed then EpochCheck.refused else EpochCheck.opening serial in
    elim s.publication_epoch [
      | none ↦ otherwise
      | some e ↦
          if is_serial s.publication_epoch_storage_serial serial
          then EpochCheck.usable e
          else otherwise
    ]

-- Its second block, once the storage has opened `opened`: `none` where it tries again. The refused
-- epoch is fenced and revoked by the pipeline.
unfoldable pub epoch_install :
    ℕ → String → Scheduler → Result ScheduleError (Option String) × Scheduler
epoch_install storage_serial opened s =
    if s.publication_closed
    then (err ScheduleError.coordinator_closed, s)
    else if not (holds (ℕ_discrete storage_serial s.projection_storage_failure_serial))
    then (ok none, s)
    else (
      ok (some opened),
      record s {
        publication_epoch = some opened;
        publication_epoch_storage_serial = some storage_serial;
      },
    )

-- `_projection_storage_failed`
unfoldable pub projection_storage_failed : Option String → Scheduler → Scheduler
projection_storage_failed account s = record s {
  projection_storage_failure_serial = s.projection_storage_failure_serial + 1;
  publication_epoch = none;
  publication_epoch_storage_serial = none;
  available = elim account [ none ↦ [] | some a ↦ Dict.erase String-discrete a s.available ];
}
