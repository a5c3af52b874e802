-- ===== src/Scheduling/Advances.antt =====
-- Whatever a worker does next (app/analytics/scheduling.py) keeps what every state keeps.
use onlyfans_conversational.Prelude.{
  ℕ, String, true, false, ◌∷◌, none, some, ◌≡◌, refl, arith, Bool-cases, inl, inr, Result, ok, err,
}
use onlyfans_conversational.Prelude.Dict
use onlyfans_conversational.Prelude.Dict.{Dict}
use onlyfans_conversational.Scheduling.Types.{
  Attempt, Place, Limits, Scheduler, ProjectionCandidate,
}
use onlyfans_conversational.Scheduling.Drain.{
  own_work, same_work, built, is_eligible, remove_work, build_cancelled, publication_answered,
}
use onlyfans_conversational.Scheduling.Ownership.{held, find_work, find_worker}
use onlyfans_conversational.Scheduling.Steps.{
  Advance, placed, IsSound, takes, begins, builds, build_ends, publishes, discards, raises, settles,
  stops,
}
use onlyfans_conversational.Scheduling.Raising.{raises-IsSound}
use onlyfans_conversational.Scheduling.Rounds.{
  takes-IsSound, begins-IsSound, settles-IsSound, moved-IsSound, replaced-IsSound, dropped-IsSound,
}

module _ (limits : Limits) (s : Scheduler) (t : ℕ) (sound : IsSound limits s) where
  builds-IsSound :
      (p : Place) (at : find_worker t s.workers ≡ some p) (a : String) (id attempted : ℕ)
      (answer : Result String ProjectionCandidate)
      → held p ≡ some (a, id, attempted)
      → IsSound limits (placed t (built a id attempted answer s))
  unfolding built
  builds-IsSound p at a id attempted (err code) hp =
      moved-IsSound limits s t p sound at
        (Place.settling a id (record {
          attempted_revision = attempted;
          candidate = none;
          published = false;
          reason_code = some code;
        }))
        (a, id, attempted) hp refl
  builds-IsSound p at a id attempted (ok c) hp =
      let dropped : Attempt = record {
        attempted_revision = attempted;
        candidate = some c;
        published = false;
        reason_code = none;
      } in
      elim (Bool-cases (is_eligible (own_work a id s) c)) [
        | inl eligible ↦ rw eligible (
            moved-IsSound limits s t p sound at (Place.publishing a id attempted c)
              (a, id, attempted) hp refl)
        | inr late ↦ rw late (
            moved-IsSound limits s t p sound at (Place.discarding a id dropped) (a, id, attempted)
              hp refl)
      ]

  publishes-IsSound :
      (p : Place) (at : find_worker t s.workers ≡ some p) (a : String) (id attempted : ℕ)
      (c : ProjectionCandidate) (answer : Result String Unit)
      → held p ≡ some (a, id, attempted)
      → IsSound limits (placed t (publication_answered a id attempted c answer s))
  unfolding publication_answered
  publishes-IsSound p at a id attempted c (ok done) hp =
      moved-IsSound limits s t p sound at
        (Place.settling a id (record {
          attempted_revision = attempted;
          candidate = some c;
          published = true;
          reason_code = none;
        }))
        (a, id, attempted) hp refl
  publishes-IsSound p at a id attempted c (err code) hp =
      moved-IsSound limits s t p sound at
        (Place.discarding a id (record {
          attempted_revision = attempted;
          candidate = some c;
          published = false;
          reason_code = some code;
        }))
        (a, id, attempted) hp refl

  build_ends-IsSound :
      (p : Place) (at : find_worker t s.workers ≡ some p) (a : String) (id attempted token : ℕ)
      → held p ≡ some (a, id, attempted)
      → IsSound limits (placed t (build_cancelled a id token s))
  unfolding build_cancelled remove_work Dict.lookup
  build_ends-IsSound p at a id attempted token hp = elim (Bool-cases s.closed) [
    | inl shut ↦
        let unknown : same_work (find_work a s.work) id ≡ none =
          (let rest = sound.sealed shut in rw rest.1 refl) in
        rw unknown (
          replaced-IsSound limits s t p sound at Place.done (token ∷ s.cancelled_tokens)
            (λ o. absurd (cc)))
    | inr is_open ↦
        let (w, found, same, floor) = (sound.owned is_open).coherent t p (a, id, attempted) at hp in
        let own : same_work (find_work a s.work) id ≡ some w = ground (arith, found, same) in
        rw own (
          dropped-IsSound limits s t p sound at Place.done (a, id, attempted) s.failures s.available
            (token ∷ s.cancelled_tokens) hp refl (λ c. (sound.sealed c).2) sound.failure_bound
            sound.available_bound)
  ]

  pub Advance-IsSound :
      (p : Place) (r : Place × Scheduler)
      → find_worker t s.workers ≡ some p
      → Advance limits s p r
      → IsSound limits (placed t r)
  Advance-IsSound p r at takes = takes-IsSound limits s t p sound at refl
  Advance-IsSound p r at (begins {a = a} {id = id}) = begins-IsSound limits s t p sound at a id refl
  Advance-IsSound p r at (builds {a = a} {id = id} {attempted = attempted} answer) =
      builds-IsSound p at a id attempted answer refl
  Advance-IsSound p r at (build_ends {a = a} {id = id} {attempted = attempted} {token = token}) =
      build_ends-IsSound p at a id attempted token refl
  Advance-IsSound p r at (publishes {a = a} {id = id} {attempted = attempted} {c = c} answer) =
      publishes-IsSound p at a id attempted c answer refl
  Advance-IsSound p r at (discards {a = a} {id = id} {attempt = attempt}) =
      moved-IsSound limits s t p sound at (Place.settling a id attempt)
        (a, id, attempt.attempted_revision) refl refl
  Advance-IsSound p r at (raises {a = a} {id = id} {attempt = attempt}) =
      raises-IsSound limits s t sound a id attempt at
  Advance-IsSound p r at (settles {a = a} {id = id} {attempt = attempt}) =
      settles-IsSound limits s t p sound at a id attempt refl
  Advance-IsSound p r at (stops shut) =
      replaced-IsSound limits s t p sound at Place.done s.cancelled_tokens (λ o. absurd (cc))
