-- ===== src/Transport/Observations.antt =====
-- What observing and expiring presence do.
use onlyfans_conversational.Prelude.{
  ℕ, ◌+◌, ◌*◌, ◌<◌, String, String-discrete, Option, none, some, List, [], ◌∷◌, map, true, false,
  ◌≡◌, ◌⊎◌, inl, inr, refl, arith, leb, Bool-cases, ite, ap, ◌∙◌,
}
use onlyfans_conversational.Prelude.Dict
use onlyfans_conversational.Prelude.Dict.{Dict, lookup-insert}
use onlyfans_conversational.Transport.Types.{PresenceRecord, Freshness, current, unknown, Sessions}
use onlyfans_conversational.Transport.Leases.{second}
use onlyfans_conversational.Transport.Presence.{
  presence_ttl, is_superseded, observed, observe_presence, fade, fade_entry, expire_presence,
}

-- The observation is later than the record by id and by time.
abbrev pub IsLater : ℕ → ℕ → Option PresenceRecord → Type 0
IsLater observation_id observed_at none = Unit
IsLater observation_id observed_at (some p) =
    (p.observation_id < observation_id) × (p.observed_at < observed_at)

is_superseded-IsLater :
    (observation_id observed_at : ℕ) (o : Option PresenceRecord)
    → is_superseded observation_id observed_at o ≡ false
    → IsLater observation_id observed_at o
is_superseded-IsLater observation_id observed_at none h = tt
is_superseded-IsLater observation_id observed_at (some p) h = (ground (arith, h), ground (arith, h))

-- The record that an observation asks for.
abbrev pub newest : String → ℕ → ℕ → List String → ℕ → PresenceRecord
newest account observation_id observed_at users received_at = record {
  creator_account_id = account;
  observation_id = observation_id;
  observed_at = observed_at;
  server_received_at = received_at;
  expires_at = received_at + 120 * second;
  online_platform_user_ids = users;
  freshness = current;
}

-- An observation either changes nothing, or it is later than the stored one of its account by id
-- and by time, is less than the time to live old, and its account alone has a new record: a current
-- one with the observation's id, time and users, which expires 120 seconds after it was received.
pub observe_presence-IsLater :
    (s : Sessions) (account : String) (observation_id observed_at : ℕ) (users : List String)
    (received_at : ℕ)
    → let x = observe_presence s account observation_id observed_at users received_at in
      ((x.0 ≡ false) × (x.1 ≡ s))
      ⊎ ((x.0 ≡ true)
          × IsLater observation_id observed_at (Dict.lookup String-discrete account s.presence)
          × (received_at < observed_at + presence_ttl)
          × ((a : String)
              → Dict.lookup String-discrete a x.1.presence
                ≡ ite
                    (String-discrete a account)
                    (some (newest account observation_id observed_at users received_at))
                    (Dict.lookup String-discrete a s.presence)))
unfolding observe_presence
observe_presence-IsLater s account observation_id observed_at users received_at =
    let old = Dict.lookup String-discrete account s.presence in
    elim (Bool-cases (is_superseded observation_id observed_at old)) [
      | inl behind ↦ inl (rw behind refl, rw behind refl)
      | inr new ↦ elim (Bool-cases (leb (observed_at + presence_ttl) received_at)) [
        | inl expired ↦ inl (rw (new, expired) refl, rw (new, expired) refl)
        | inr live ↦ inr (
          rw (new, live) refl,
          is_superseded-IsLater observation_id observed_at old new,
          ground (arith, live),
          λ a.
              rw (new, live)
                (lookup-insert String-discrete a account
                  (observed account observation_id observed_at users received_at) s.presence),
        )
      ]
    ]

lookup-fade :
    (now : ℕ) (a : String) (d : Dict String PresenceRecord) (p : PresenceRecord)
    → Dict.lookup String-discrete a (map (fade_entry now) d) ≡ some p
    → (q : PresenceRecord) × (fade now q ≡ p)
unfolding Dict.lookup
lookup-fade now a [] p found = absurd (ground (arith, found))
lookup-fade now a (e ∷ d) p found = elim (String-discrete a e.0) [
  | yes same ↦
      let first : Path (Option PresenceRecord) (some (fade now e.1)) (some p) =
        ground (arith, same, found) in
      (e.1, cc)
  | no other ↦ lookup-fade now a d p (ground (arith, other, found))
]

fade-current :
    (now : ℕ) (q : PresenceRecord) (x : Freshness)
    → q.freshness ≡ x
    → (fade now q).freshness ≡ current
    → now < (fade now q).expires_at
fade-current now q current e live = elim (Bool-cases (leb q.expires_at now)) [
  | inl over ↦ absurd (ground (arith, e, over, live))
  | inr fresh ↦ ground (arith, e, fresh)
]
fade-current now q unknown e live = absurd (ground (arith, e, live))

-- After presence was expired, a record that is still current has not reached its expiry.
pub expire_presence-current :
    (now : ℕ) (s : Sessions) (account : String) (p : PresenceRecord)
    → Dict.lookup String-discrete account (expire_presence now s).presence ≡ some p
    → p.freshness ≡ current
    → now < p.expires_at
unfolding expire_presence
expire_presence-current now s account p found live =
    let (q, same) = lookup-fade now account s.presence p found in
    rw (← same) (fade-current now q q.freshness refl (ap (λ x. x.freshness) same ∙ live))
