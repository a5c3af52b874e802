-- ===== src/Transport/Presence.antt =====
-- Presence of app/transport/manager.py: who is online, by the last observation.
use onlyfans_conversational.Prelude.{
  ℕ, ◌+◌, ◌*◌, String, String-discrete, Option, none, some, List, [], map, Bool, true, false, ◌||◌,
  leb, if◌then◌else◌,
}
use onlyfans_conversational.Prelude.Dict
use onlyfans_conversational.Commands.Types
use onlyfans_conversational.Commands.Results
use onlyfans_conversational.Transport.Types.{PresenceRecord, current, unknown, Sessions}
use onlyfans_conversational.Transport.Leases.{second, expire_leases}

-- `PRESENCE_TTL_SECONDS`, in microseconds.
abbrev pub presence_ttl : ℕ
presence_ttl = 120 * second

-- An observation that is not later than the stored one, by id and by time.
abbrev pub is_superseded : ℕ → ℕ → Option PresenceRecord → Bool
is_superseded observation_id observed_at none = false
is_superseded observation_id observed_at (some p) =
    leb observation_id p.observation_id || leb observed_at p.observed_at

abbrev pub observed : String → ℕ → ℕ → List String → ℕ → PresenceRecord
observed account observation_id observed_at users received_at = record {
  creator_account_id = account;
  observation_id = observation_id;
  observed_at = observed_at;
  server_received_at = received_at;
  expires_at = received_at + presence_ttl;
  online_platform_user_ids = users;
  freshness = current;
}

-- `observe_presence` for the account of a lease: whether it counts, and the sessions after it.
unfoldable pub observe_presence : Sessions → String → ℕ → ℕ → List String → ℕ → Bool × Sessions
observe_presence s account observation_id observed_at users received_at =
    if is_superseded observation_id observed_at (Dict.lookup String-discrete account s.presence)
    then (false, s)
    else if leb (observed_at + presence_ttl) received_at
    then (false, s)
    else (
      true,
      record s {
        presence =
            Dict.insert String-discrete account
              (observed account observation_id observed_at users received_at) s.presence;
      },
    )

-- The loop body of `expire` over the presence records.
abbrev pub fade : ℕ → PresenceRecord → PresenceRecord
fade now p = elim p.freshness [
  | current ↦
      if leb p.expires_at now
      then record p { freshness = unknown; online_platform_user_ids = [] }
      else p
  | unknown ↦ p
]

abbrev pub fade_entry : ℕ → String × PresenceRecord → String × PresenceRecord
fade_entry now e = (e.0, fade now e.1)

unfoldable pub expire_presence : ℕ → Sessions → Sessions
expire_presence now s = record s { presence = map (fade_entry now) s.presence }

-- `expire`, with what it does to the command log.
unfoldable pub expire_sessions : ℕ → Types.Repository → Sessions → Types.Repository × Sessions
expire_sessions now commands s =
    ((Results.expire now commands).1, expire_presence now (expire_leases now s.active_agents s))
