-- ===== src/Scheduling/Types.antt =====
-- The state of `InProcessProjectionScheduler` in app/analytics/scheduling.py. An `_AccountWork` and
-- a cancellation token are compared and shared by identity there: here each has a number. A task of
-- `_workers` is the place it waits at. The absent epoch's serial, -1 there, is `none`.
use onlyfans_conversational.Prelude.{
  ℕ, ◌+◌, String, Option, none, some, List, [], Bool, true, false, leb, Result, ok, raise_if, ◌>>◌,
}
use onlyfans_conversational.Prelude.Dict.{Dict}

pub data AvailabilityStatus : Type 0 where
  unavailable building error available : AvailabilityStatus

pub record ProjectionScheduleState : Type 0 where
  pub availability : AvailabilityStatus
  pub requested_revision : Option ℕ
  pub attempted_revision : Option ℕ
  pub reason_code : Option String

pub record AccountWork : Type 0 where
  pub work_id : ℕ
  pub requested_revision : ℕ
  pub attempted_revision : Option ℕ
  pub cancellation : Option ℕ

pub record ProjectionCandidate : Type 0 where
  pub creator_account_id : String
  pub source_revision : ℕ
  pub publication_epoch : Option String

-- How one round of `_drain_account` went.
pub record Attempt : Type 0 where
  pub attempted_revision : ℕ
  pub candidate : Option ProjectionCandidate
  pub published : Bool
  pub reason_code : Option String

-- Where a worker is between two blocks of its code: before it takes an account, at the head of the
-- loop of `_drain_account`, in the build, in the publication, in the discard, after all of them,
-- or returned.
pub data Place : Type 0 where
  idle : Place
  draining : String → ℕ → Place
  attempting : String → ℕ → ℕ → ℕ → Place
  publishing : String → ℕ → ℕ → ProjectionCandidate → Place
  discarding : String → ℕ → Attempt → Place
  settling : String → ℕ → Attempt → Place
  done : Place

pub record Limits : Type 0 where
  pub worker_count : ℕ
  pub queue_capacity : ℕ
  pub failure_state_capacity : ℕ

pub data LimitsError : Type 0 where
  worker_count_invalid queue_capacity_invalid failure_state_capacity_invalid : LimitsError

abbrev pub capacity_or : Option ℕ → ℕ → ℕ
capacity_or none default = default
capacity_or (some capacity) default = capacity

-- The checks of `__init__`.
unfoldable pub new_limits : ℕ → ℕ → Option ℕ → Result LimitsError Limits
new_limits worker_count queue_capacity failure_state_capacity = do
  raise_if (leb worker_count 0) worker_count_invalid
  raise_if (leb queue_capacity 0) queue_capacity_invalid
  raise_if (leb (capacity_or failure_state_capacity (worker_count + queue_capacity)) 0)
      failure_state_capacity_invalid
  ok (record {
    worker_count = worker_count;
    queue_capacity = queue_capacity;
    failure_state_capacity = capacity_or failure_state_capacity (worker_count + queue_capacity);
  })

-- `next_work`, `next_token` and `next_task` number the objects that Python compares by identity.
-- `stranded` is a ghost that no function reads: the accounts whose worker a discard has ended with an
-- error.
pub record Scheduler : Type 0 where
  pub pending : List String
  pub work : Dict String AccountWork
  pub failures : Dict String ProjectionScheduleState
  pub available : Dict String ℕ
  pub workers : Dict ℕ Place
  pub publication_closed : Bool
  pub active_publications : ℕ
  pub publication_epoch : Option String
  pub publication_epoch_storage_serial : Option ℕ
  pub projection_storage_failure_serial : ℕ
  pub recovery_requests : Dict String ℕ
  pub recovery_running : Bool
  pub accepting : Bool
  pub closed : Bool
  pub close_result : Option Bool
  pub has_executor : Bool
  pub detached_worker_count : ℕ
  pub cancelled_tokens : List ℕ
  pub next_work : ℕ
  pub next_token : ℕ
  pub next_task : ℕ
  pub stranded : List String

-- The exceptions of app/analytics/errors.py that the scheduler raises.
pub data ScheduleError : Type 0 where
  coordinator_closed backpressure : ScheduleError

abbrev pub new_scheduler : Scheduler
new_scheduler = record {
  pending = [];
  work = [];
  failures = [];
  available = [];
  workers = [];
  publication_closed = false;
  active_publications = 0;
  publication_epoch = none;
  publication_epoch_storage_serial = none;
  projection_storage_failure_serial = 0;
  recovery_requests = [];
  recovery_running = false;
  accepting = true;
  closed = false;
  close_result = none;
  has_executor = true;
  detached_worker_count = 0;
  cancelled_tokens = [];
  next_work = 0;
  next_token = 0;
  next_task = 0;
  stranded = [];
}
