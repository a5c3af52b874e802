-- ===== src/Commands/Expiry.antt =====
-- What `expire` does to each command record.
use onlyfans_conversational.Prelude.{
  ℕ, ℕ_discrete, Option, none, some, List, [], ◌∷◌, All, ◌≡◌, refl, arith, if◌then◌else◌,
  Bool-cases, inl, inr, ite, Option-cases, map, filter, ◌++◌, ◌&&◌, leb, true, false, Bool,
}
use onlyfans_conversational.Prelude.Dict
use onlyfans_conversational.Prelude.Dict.{Dict, IsDistinct, lookup-insert}
use onlyfans_conversational.Commands.Types.{CommandState, CommandRecord, Repository}
use onlyfans_conversational.Commands.Repository.{get, save, list}
use onlyfans_conversational.Commands.Service.{transition, reissuable}
use onlyfans_conversational.Commands.Results.{is_due, expired_record, expire_each, expire}
use onlyfans_conversational.Commands.Invariant.{IsStored, IsValid}

-- What becomes of the listed record, or of the stored one if none is listed.
abbrev outcome_of : ℕ → Option CommandRecord → Option CommandRecord → Option CommandRecord
outcome_of now none stored = stored
outcome_of now (some c) stored = if is_due now c then some (expired_record now c) else stored

-- Whether the command may still be carried out.
abbrev pub is_pending : CommandState → Bool
is_pending CommandState.issued = true
is_pending CommandState.accepted = true
is_pending CommandState.unknown = false
is_pending CommandState.failed = false
is_pending CommandState.succeeded = false

-- The record of a command whose deadline has passed.
abbrev pub overdue : ℕ → CommandRecord → CommandRecord
overdue now c = record c {
  state = CommandState.unknown;
  failure_reason = some "deadline_expired";
  transitions =
      c.transitions
      ++ record {
        state = CommandState.unknown;
        occurred_at = now;
        detail = some "deadline_expired";
      }
        ∷ [];
}

-- What the clock alone makes of a record: an independent description.
abbrev pub after_expiry : ℕ → Option CommandRecord → Option CommandRecord
after_expiry now none = none
after_expiry now (some c) =
    some (if is_pending c.state && leb c.deadline now then overdue now c else c)

get-save_expired :
    (k now : ℕ) (c : CommandRecord) (r : Repository)
    → get (save r (expired_record now c)) k
      ≡ ite (ℕ_discrete k c.command_id) (some (expired_record now c)) (get r k)
unfolding get save transition
get-save_expired k now c r = lookup-insert ℕ_discrete k c.command_id (expired_record now c) r

get-expire_each :
    (k now : ℕ) (d : Dict ℕ CommandRecord) (r : Repository)
    → IsDistinct ℕ_discrete d
    → All IsStored d
    → get (expire_each now (Dict.values d) r).1 k
      ≡ outcome_of now (Dict.lookup ℕ_discrete k d) (get r k)
unfolding expire_each Dict.lookup
get-expire_each k now [] r distinct stored = refl
get-expire_each k now (e ∷ d) r distinct stored =
    let step = get-save_expired k now e.1 r in
    elim (Bool-cases (is_due now e.1)) [
      | inl due ↦
          let rest =
            get-expire_each k now d (save r (expired_record now e.1)) distinct.1 stored.1 in
          ground (arith, rest, step, stored.0.0, distinct.0)
      | inr kept ↦
          let rest = get-expire_each k now d r distinct.1 stored.1 in
          ground (arith, rest, stored.0.0, distinct.0)
    ]

reissuable-is_pending : (x : CommandState) → reissuable x ≡ is_pending x
reissuable-is_pending CommandState.issued = refl
reissuable-is_pending CommandState.accepted = refl
reissuable-is_pending CommandState.unknown = refl
reissuable-is_pending CommandState.failed = refl
reissuable-is_pending CommandState.succeeded = refl

after_expiry-due :
    (now : ℕ) (c : CommandRecord)
    → Path
        (Option CommandRecord)
        (some (if is_due now c then expired_record now c else c))
        (after_expiry now (some c))
unfolding transition
after_expiry-due now c = rw (reissuable-is_pending c.state) refl

-- After `expire` on a valid repository with no identifier twice, every stored command is what
-- the clock alone makes of it: one that is issued or accepted and whose deadline has passed becomes
-- unknown, with that as its last transition, and any other is as it was.
pub get-expire :
    (k now : ℕ) (r : Repository)
    → IsDistinct ℕ_discrete r
    → IsValid r
    → get (expire now r).1 k ≡ after_expiry now (get r k)
unfolding expire list get
get-expire k now r distinct valid =
    let each = get-expire_each k now r r distinct valid in
    elim (Option-cases (Dict.lookup ℕ_discrete k r)) [
      | inl gone ↦ ground (arith, each, gone)
      | inr (c, found) ↦ ground (arith, each, found, after_expiry-due now c)
    ]

expired_each :
    (now : ℕ) (cs : List CommandRecord) (r : Repository)
    → (expire_each now cs r).0 ≡ map (expired_record now) (filter (is_due now) cs)
unfolding expire_each
expired_each now [] r = refl
expired_each now (c ∷ cs) r = elim (Bool-cases (is_due now c)) [
  | inl due ↦ rw (due, expired_each now cs (save r (expired_record now c))) refl
  | inr kept ↦ rw kept (expired_each now cs r)
]

-- `expire` returns the new records of exactly the commands that were due, in the order of the log.
pub expired-due :
    (now : ℕ) (r : Repository)
    → (expire now r).0 ≡ map (expired_record now) (filter (is_due now) (list r none))
unfolding expire
expired-due now r = expired_each now (list r none) r
