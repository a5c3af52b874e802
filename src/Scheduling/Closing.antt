-- ===== src/Scheduling/Closing.antt =====
-- `state`, `close`, `abort` and `_revoke_and_close_storage` of app/analytics/scheduling.py. What
-- the storage, the clock and the joined tasks answer is a parameter.
use onlyfans_conversational.Prelude.{
  ℕ, String, String-discrete, Bool, true, false, List, [], ◌∷◌, ◌++◌, Option, none, some, ◌+◌, ◌&&◌,
  not, if◌then◌else◌, leb, length,
}
use onlyfans_conversational.Prelude.Dict
use onlyfans_conversational.Prelude.Dict.{Dict}
use onlyfans_conversational.Scheduling.Types.{
  AccountWork, Scheduler, ProjectionScheduleState, AvailabilityStatus,
}

abbrev pub plain_state : AvailabilityStatus → ProjectionScheduleState
plain_state availability = record {
  availability = availability;
  requested_revision = none;
  attempted_revision = none;
  reason_code = none;
}

abbrev pub covers : ℕ → Option ℕ → Bool
covers available none = true
covers available (some canonical) = leb canonical available

abbrev pub available_state : Option ℕ → Option ℕ → ProjectionScheduleState
available_state none canonical = plain_state AvailabilityStatus.unavailable
available_state (some revision) canonical =
    if covers revision canonical
    then record {
      availability = AvailabilityStatus.available;
      requested_revision = some revision;
      attempted_revision = some revision;
      reason_code = none;
    }
    else plain_state AvailabilityStatus.unavailable

-- `state`
unfoldable pub state : String → Option ℕ → Scheduler → ProjectionScheduleState
state a canonical s = elim (Dict.lookup String-discrete a s.work) [
  | some w ↦ record {
    availability = AvailabilityStatus.building;
    requested_revision = some w.requested_revision;
    attempted_revision = w.attempted_revision;
    reason_code = none;
  }
  | none ↦ elim (Dict.lookup String-discrete a s.failures) [
    | some failure ↦ failure
    | none ↦ available_state (Dict.lookup String-discrete a s.available) canonical
  ]
]

abbrev pub tokens_of : Dict String AccountWork → List ℕ
tokens_of [] = []
tokens_of (e ∷ d) = elim (e.1).cancellation [
  | none ↦ tokens_of d
  | some token ↦ token ∷ tokens_of d
]

-- The first block of `close` and of `abort`: every token is cancelled, all is cleared.
unfoldable pub seal : Scheduler → Scheduler
seal s = record s {
  accepting = false;
  closed = true;
  publication_closed = true;
  cancelled_tokens = tokens_of s.work ++ s.cancelled_tokens;
  pending = [];
  work = [];
  failures = [];
  available = [];
  recovery_requests = [];
  publication_epoch = none;
  publication_epoch_storage_serial = none;
}

-- The last block of `close`: `detached` calls had not ended by the deadline.
unfoldable pub close_finish : ℕ → Bool → Scheduler → Scheduler
close_finish detached result s = record s {
  detached_worker_count = detached;
  workers = [];
  has_executor = false;
  close_result = some result;
}

-- One try of `revoke_publication_epoch`: it went through, or it failed, before the deadline or not.
pub data RevokeTry : Type 0 where
  revoked : RevokeTry
  failed : Bool → RevokeTry

unfoldable pub revoke_until : List RevokeTry → Bool
revoke_until [] = false
revoke_until (RevokeTry.revoked ∷ tries) = true
revoke_until (RevokeTry.failed past_deadline ∷ tries) =
    let rest = revoke_until tries in if past_deadline then false else rest

-- `_revoke_and_close_storage`: whether the storage closed is the last argument.
unfoldable pub revoke_and_close_storage : Option String → List RevokeTry → Bool → Bool
revoke_and_close_storage none tries storage_closed = storage_closed
revoke_and_close_storage (some epoch) tries storage_closed =
    if storage_closed then revoke_until tries else false

abbrev pub fenced_locally : Option String → Bool → Bool
fenced_locally none fence_succeeds = true
fenced_locally (some epoch) fence_succeeds = fence_succeeds

-- `close`: the epoch's fence and its revocation, then whether every task was joined.
unfoldable pub close : Bool → List RevokeTry → Bool → Bool → ℕ → Scheduler → Bool × Scheduler
close fence_succeeds tries storage_closed joined detached s = elim s.close_result [
  | some result ↦ (result, s)
  | none ↦
      let storage_fenced = revoke_and_close_storage s.publication_epoch tries storage_closed in
      let result = joined && fenced_locally s.publication_epoch fence_succeeds && storage_fenced in
      (result, close_finish detached result (seal s))
]

-- `abort`, where `detached` counts the calls that had not ended
unfoldable pub abort : ℕ → Scheduler → Scheduler
abort detached s =
    if s.closed && not s.has_executor then s else close_finish detached (leb detached 0) (seal s)

-- `retained_account_count`
unfoldable pub retained_account_count : Scheduler → ℕ
retained_account_count s = length s.work + length s.failures
