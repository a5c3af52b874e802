-- ===== src/Activation/Ledger.antt =====
-- `InMemoryProjectionActivationRepository` of app/persistence/projection_activation.py. The reader
-- of the canonical identity and the opaque reference of an account are parameters; a clock reading
-- and a new UUID are arguments.
use onlyfans_conversational.Prelude.{
  ℕ, ◌+◌, String, String-discrete, ℕ_discrete, Option, none, some, Bool, true, false, ◌&&◌, not,
  holds, any, if◌then◌else◌, Result, ok, err,
}
use onlyfans_conversational.Prelude.Dict
use onlyfans_conversational.Prelude.Dict.{Dict}
use onlyfans_conversational.Activation.Types.{
  CanonicalIdentity, ActivationIdentity, ActivationState, reserved, completed, cancelled,
  ProjectionActivationIntent, PublicationEpoch, Ledger, ActivationError, same_canonical,
  same_identity, same_completion,
}

abbrev pub IdentityReader : Type 0
IdentityReader = String → Option CanonicalIdentity

abbrev pub Answer : Type 0 → Type 0
Answer A = Result ActivationError A × Ledger

unfoldable pub save_epoch : String → PublicationEpoch → Ledger → Ledger
save_epoch e epoch l = record l { epochs = Dict.insert String-discrete e epoch l.epochs }

abbrev pub is_owned : PublicationEpoch → String → String → Bool
is_owned epoch owner digest =
    holds (String-discrete epoch.scheduler_owner_id owner)
    && holds (String-discrete epoch.capability_digest digest)

abbrev pub register_found :
    Option PublicationEpoch → String → String → String → Ledger → Answer Unit
register_found none e owner digest l = (
  ok tt,
  save_epoch e (record { scheduler_owner_id = owner; capability_digest = digest; is_open = true })
      l,
)
register_found (some epoch) e owner digest l =
    if is_owned epoch owner digest && epoch.is_open
    then (ok tt, l)
    else (err ActivationError.epoch_unavailable, l)

unfoldable pub register_publication_epoch : String → String → String → Ledger → Answer Unit
register_publication_epoch e owner digest l =
    register_found (Dict.lookup String-discrete e l.epochs) e owner digest l

abbrev pub revoke_found : Option PublicationEpoch → String → String → String → Ledger → Answer Unit
revoke_found none e owner digest l = (err ActivationError.epoch_unavailable, l)
revoke_found (some epoch) e owner digest l =
    if is_owned epoch owner digest
    then (
      ok tt,
      save_epoch e
          (record { scheduler_owner_id = owner; capability_digest = digest; is_open = false }) l,
    )
    else (err ActivationError.epoch_unavailable, l)

unfoldable pub revoke_publication_epoch : String → String → String → Ledger → Answer Unit
revoke_publication_epoch e owner digest l =
    revoke_found (Dict.lookup String-discrete e l.epochs) e owner digest l

abbrev pub is_open_found : Option PublicationEpoch → String → Bool
is_open_found none digest = false
is_open_found (some epoch) digest =
    holds (String-discrete epoch.capability_digest digest) && epoch.is_open

-- `publication_epoch_is_open` and `_epoch_is_open_locked`
unfoldable pub publication_epoch_is_open : String → String → Ledger → Bool
publication_epoch_is_open e digest l = is_open_found (Dict.lookup String-discrete e l.epochs) digest

unfoldable pub prepare_publication_epoch_fence :
    String → String → String → Ledger → Result ActivationError Unit
prepare_publication_epoch_fence e owner digest l = elim (Dict.lookup String-discrete e l.epochs) [
  | none ↦ err ActivationError.epoch_unavailable
  | some epoch ↦
      if is_owned epoch owner digest && epoch.is_open
      then ok tt
      else err ActivationError.epoch_unavailable
]

unfoldable pub find_intent : ℕ → Ledger → Option ProjectionActivationIntent
find_intent k l = Dict.lookup ℕ_discrete k l.intents

unfoldable pub save_intent : ProjectionActivationIntent → Ledger → Ledger
save_intent i l = record l { intents = Dict.insert ℕ_discrete i.intent_id i l.intents }

abbrev pub is_reserved : ActivationState → Bool
is_reserved reserved = true
is_reserved completed = false
is_reserved cancelled = false

abbrev pub is_completed : ActivationState → Bool
is_completed reserved = false
is_completed completed = true
is_completed cancelled = false

-- `get`
unfoldable pub get : String → Ledger → Option ProjectionActivationIntent
get generation l = elim (Dict.lookup String-discrete generation l.by_generation) [
  | none ↦ none
  | some k ↦ find_intent k l
]

abbrev pub is_canonical : Option CanonicalIdentity → CanonicalIdentity → Bool
is_canonical none expected = false
is_canonical (some observed) expected = same_canonical observed expected

abbrev pub has_reserved : String → ProjectionActivationIntent → Bool
has_reserved a i = holds (String-discrete i.identity.creator_account_id a) && is_reserved i.state

unfoldable pub is_busy : String → Ledger → Bool
is_busy a l = any (has_reserved a) (Dict.values l.intents)

abbrev pub or_zero : Option ℕ → ℕ
or_zero none = 0
or_zero (some n) = n

abbrev pub next_sequence : String → Ledger → ℕ
next_sequence a l = or_zero (Dict.lookup String-discrete a l.sequences) + 1

unfoldable pub new_intent : ℕ → ℕ → ActivationIdentity → Ledger → ProjectionActivationIntent
new_intent k now w l = record {
  intent_id = k;
  identity = w;
  witness_sequence = next_sequence w.creator_account_id l;
  state = reserved;
  reserved_at = now;
  completed_at = none;
  cancelled_at = none;
}

unfoldable pub store_new : ProjectionActivationIntent → Ledger → Ledger
store_new i l = record l {
  sequences =
      Dict.insert String-discrete i.identity.creator_account_id i.witness_sequence l.sequences;
  intents = Dict.insert ℕ_discrete i.intent_id i l.intents;
  by_generation = Dict.insert String-discrete i.identity.generation_id i.intent_id l.by_generation;
}

abbrev pub is_epoch_open : ActivationIdentity → Ledger → Bool
is_epoch_open w l = publication_epoch_is_open w.publication_epoch w.publication_capability_digest l

-- `reserve` for a generation that has an intent.
abbrev pub reserve_again :
    Option ProjectionActivationIntent
    → ActivationIdentity
    → Ledger
    → Answer ProjectionActivationIntent
reserve_again none w l = (err ActivationError.intent_missing, l)
reserve_again (some existing) w l =
    if not (same_identity existing.identity w)
    then (err ActivationError.identity_differs, l)
    else if not (is_completed existing.state) && not (is_epoch_open w l)
    then (err ActivationError.epoch_revoked, l)
    else (ok existing, l)

-- `reserve` for one that has none.
unfoldable pub reserve_new :
    IdentityReader → ℕ → ℕ → ActivationIdentity → Ledger → Answer ProjectionActivationIntent
reserve_new identity k now w l =
    if not (is_epoch_open w l)
    then (err ActivationError.epoch_revoked, l)
    else if not (is_canonical (identity w.creator_account_id) w.canonical)
    then (err ActivationError.identity_changed, l)
    else if is_busy w.creator_account_id l
    then (err ActivationError.already_reserved, l)
    else (ok (new_intent k now w l), store_new (new_intent k now w l) l)

abbrev pub reserve_found :
    Option ℕ
    → IdentityReader
    → ℕ
    → ℕ
    → ActivationIdentity
    → Ledger
    → Answer ProjectionActivationIntent
reserve_found none identity k now w l = reserve_new identity k now w l
reserve_found (some existing) identity k now w l = reserve_again (find_intent existing l) w l

unfoldable pub reserve :
    (String → String)
    → IdentityReader
    → ℕ
    → ℕ
    → ActivationIdentity
    → Ledger
    → Answer ProjectionActivationIntent
reserve account_ref identity k now w l =
    if not (holds (String-discrete w.account_ref (account_ref w.creator_account_id)))
    then (err ActivationError.account_reference_differs, l)
    else reserve_found (Dict.lookup String-discrete w.generation_id l.by_generation) identity k now
        w l

abbrev pub cancelled_at_time : ProjectionActivationIntent → ℕ → ProjectionActivationIntent
cancelled_at_time i now = record i { state = cancelled; cancelled_at = some now }

-- `complete` of an intent that is reserved.
abbrev pub complete_reserved :
    IdentityReader → ℕ → ProjectionActivationIntent → Ledger → Answer ProjectionActivationIntent
complete_reserved identity now i l =
    if not (is_epoch_open i.identity l)
    then (err ActivationError.epoch_revoked, save_intent (cancelled_at_time i now) l)
    else if not (is_canonical (identity i.identity.creator_account_id) i.identity.canonical)
    then (err ActivationError.identity_changed, save_intent (cancelled_at_time i now) l)
    else let done : ProjectionActivationIntent = record i {
      state = completed;
      completed_at = some now;
    } in
      (ok done, save_intent done l)

abbrev pub complete_in :
    ActivationState
    → IdentityReader
    → ℕ
    → ProjectionActivationIntent
    → Ledger
    → Answer ProjectionActivationIntent
complete_in completed identity now i l = (ok i, l)
complete_in cancelled identity now i l = (err ActivationError.activation_terminal, l)
complete_in reserved identity now i l = complete_reserved identity now i l

abbrev pub complete_found :
    Option ProjectionActivationIntent
    → IdentityReader
    → ℕ
    → ProjectionActivationIntent
    → Ledger
    → Answer ProjectionActivationIntent
complete_found none identity now expected l = (err ActivationError.intent_missing, l)
complete_found (some i) identity now expected l =
    if same_completion i expected
    then complete_in i.state identity now i l
    else (err ActivationError.completion_identity_differs, l)

unfoldable pub complete :
    IdentityReader → ℕ → ProjectionActivationIntent → Ledger → Answer ProjectionActivationIntent
complete identity now expected l =
    complete_found (find_intent expected.intent_id l) identity now expected l

abbrev pub cancel_in :
    ActivationState → ℕ → ProjectionActivationIntent → Ledger → Answer ProjectionActivationIntent
cancel_in cancelled now i l = (ok i, l)
cancel_in completed now i l = (err ActivationError.witness_immutable, l)
cancel_in reserved now i l = (ok (cancelled_at_time i now), save_intent (cancelled_at_time i now) l)

abbrev pub cancel_found :
    Option ProjectionActivationIntent → ℕ → Ledger → Answer ProjectionActivationIntent
cancel_found none now l = (err ActivationError.intent_missing, l)
cancel_found (some i) now l = cancel_in i.state now i l

unfoldable pub cancel : ℕ → ℕ → Ledger → Answer ProjectionActivationIntent
cancel now k l = cancel_found (find_intent k l) now l

abbrev pub reconcile_in :
    ActivationState → ℕ → ProjectionActivationIntent → Ledger → Answer ProjectionActivationIntent
reconcile_in cancelled now i l = (ok i, l)
reconcile_in reserved now i l = (err ActivationError.not_completed, l)
reconcile_in completed now i l =
    (ok (cancelled_at_time i now), save_intent (cancelled_at_time i now) l)

abbrev pub reconcile_found :
    Option ProjectionActivationIntent
    → ℕ
    → ProjectionActivationIntent
    → Ledger
    → Answer ProjectionActivationIntent
reconcile_found none now expected l = (err ActivationError.intent_missing, l)
reconcile_found (some i) now expected l =
    if same_completion i expected
    then reconcile_in i.state now i l
    else (err ActivationError.completion_identity_differs, l)

unfoldable pub reconcile_completed :
    ℕ → ProjectionActivationIntent → Ledger → Answer ProjectionActivationIntent
reconcile_completed now expected l =
    reconcile_found (find_intent expected.intent_id l) now expected l
