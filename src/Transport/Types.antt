-- ===== src/Transport/Types.antt =====
-- The data of app/transport/manager.py. A lease object is shared there between two dicts and
-- compared by identity: here it is stored once, under its connection id, and the dicts hold that
-- id. The socket is left out. A datetime is its number of microseconds, a UUID its number.
use onlyfans_conversational.Prelude.{ℕ, String, Option, List, []}
use onlyfans_conversational.Prelude.Dict.{Dict}
use onlyfans_conversational.Configuration.Types.{Revision}

pub data LeaseStatus : Type 0 where
  connected stale disconnected : LeaseStatus

unfoldable pub Status-discrete : Discrete LeaseStatus
Status-discrete = hlevel

pub record AgentLease : Type 0 where
  pub principal_id : String
  pub creator_account_id : String
  pub connection_id : ℕ
  pub fencing_token : String
  pub agent_installation_id : ℕ
  pub agent_stream_id : ℕ
  pub config_auth_ticket : String
  pub applied_config_revision : Option Revision
  pub last_heartbeat_at : ℕ
  pub lease_timeout_seconds : ℕ
  pub status : LeaseStatus

pub data Freshness : Type 0 where
  current unknown : Freshness

pub record PresenceRecord : Type 0 where
  pub creator_account_id : String
  pub observation_id : ℕ
  pub observed_at : ℕ
  pub server_received_at : ℕ
  pub expires_at : ℕ
  pub online_platform_user_ids : List String
  pub freshness : Freshness

pub record Sessions : Type 0 where
  pub leases : Dict ℕ AgentLease
  pub active_agents : Dict String ℕ
  pub agent_connections : Dict ℕ ℕ
  pub presence : Dict String PresenceRecord

abbrev pub no_sessions : Sessions
no_sessions = record { leases = []; active_agents = []; agent_connections = []; presence = [] }
