-- ===== src/Transport/Leases.antt =====
-- Agent leases of app/transport/manager.py: who may write for an account, and until when.
use onlyfans_conversational.Prelude.{
  ℕ, ◌+◌, ◌*◌, String, String-discrete, ℕ_discrete, Option, none, some, [], ◌∷◌, Bool, true, false,
  ◌&&◌, ◌||◌, not, leb, holds, ok, ◌>>=◌, if◌then◌else◌,
}
use onlyfans_conversational.Prelude.Dict
use onlyfans_conversational.Prelude.Dict.{Dict}
use onlyfans_conversational.Configuration.Types.{
  Revision, Revision-discrete, LastFailure-discrete, Installation, Raising,
}
use onlyfans_conversational.Configuration.Repository
use onlyfans_conversational.Configuration.Authority.{bind_installation, find_installation}
use onlyfans_conversational.Commands.Types.{CommandDeliveryTarget}
use onlyfans_conversational.Transport.Types.{
  AgentLease, LeaseStatus, connected, stale, disconnected, Status-discrete, Sessions,
}

-- `lease.status = status`, on the one lease object.
abbrev pub set_status : ℕ → LeaseStatus → Option AgentLease → Dict ℕ AgentLease → Dict ℕ AgentLease
set_status id status none leases = leases
set_status id status (some l) leases =
    Dict.insert ℕ_discrete id (record l { status = status }) leases

unfoldable pub with_status : ℕ → LeaseStatus → Dict ℕ AgentLease → Dict ℕ AgentLease
with_status id status leases = set_status id status (Dict.lookup ℕ_discrete id leases) leases

abbrev pub retire : Option ℕ → Dict ℕ AgentLease → Dict ℕ AgentLease
retire none leases = leases
retire (some previous) leases = with_status previous disconnected leases

-- The locked part of `bind_agent`: the new lease takes the account over.
unfoldable pub take_over : Sessions → AgentLease → Sessions
take_over s lease =
    let previous = Dict.lookup String-discrete lease.creator_account_id s.active_agents in
    record s {
      leases = Dict.insert ℕ_discrete lease.connection_id lease (retire previous s.leases);
      active_agents =
          Dict.insert String-discrete lease.creator_account_id lease.connection_id s.active_agents;
      agent_connections =
          Dict.insert ℕ_discrete lease.connection_id lease.connection_id s.agent_connections;
    }

-- The arguments of `bind_agent`, with the fresh identifiers and the clock.
pub record Handshake : Type 0 where
  pub principal_id : String
  pub creator_account_id : String
  pub agent_installation_id : ℕ
  pub agent_stream_id : ℕ
  pub config_auth_ticket : String
  pub applied_config_revision : Option Revision
  pub connection_id : ℕ
  pub fencing_token : String
  pub lease_timeout_seconds : ℕ
  pub now : ℕ

abbrev pub new_lease : Handshake → Installation → AgentLease
new_lease h installed = record {
  principal_id = h.principal_id;
  creator_account_id = h.creator_account_id;
  connection_id = h.connection_id;
  fencing_token = h.fencing_token;
  agent_installation_id = h.agent_installation_id;
  agent_stream_id = h.agent_stream_id;
  config_auth_ticket = h.config_auth_ticket;
  applied_config_revision = installed.applied_config_revision;
  last_heartbeat_at = h.now;
  lease_timeout_seconds = h.lease_timeout_seconds;
  status = connected;
}

-- `bind_agent`, without what it tells the history store.
unfoldable pub bind_agent :
    Sessions
    → Repository.Repository
    → Handshake
    → Raising (AgentLease × Sessions × Repository.Repository)
bind_agent s r h = do
  (installed, r') ←
      bind_installation r h.creator_account_id h.agent_installation_id h.applied_config_revision
  ok (new_lease h installed, take_over s (new_lease h installed), r')

-- `self.active_agents.get(account) is lease`
abbrev pub is_one : Option ℕ → ℕ → Bool
is_one none id = false
is_one (some active) id = holds (ℕ_discrete active id)

abbrev pub is_active : Sessions → String → ℕ → Bool
is_active s account id = is_one (Dict.lookup String-discrete account s.active_agents) id

-- `disconnect_agent` on a popped connection: whether to broadcast, and the sessions after it.
abbrev pub disconnect_lease : Sessions → ℕ → Option AgentLease → Bool × Sessions
disconnect_lease s id none = (false, s)
disconnect_lease s id (some l) =
    if is_active s l.creator_account_id id
    then (true, record s { leases = with_status id disconnected s.leases })
    else (false, s)

abbrev pub disconnect_popped : Sessions → Option ℕ → Bool × Sessions
disconnect_popped s none = (false, s)
disconnect_popped s (some id) = disconnect_lease s id (Dict.lookup ℕ_discrete id s.leases)

unfoldable pub disconnect_agent : Sessions → ℕ → Bool × Sessions
disconnect_agent s connection_id =
    disconnect_popped
      (record s { agent_connections = Dict.erase ℕ_discrete connection_id s.agent_connections })
      (Dict.lookup ℕ_discrete connection_id s.agent_connections)

abbrev pub lease_is_current : Sessions → ℕ → Option AgentLease → Bool
lease_is_current s id none = false
lease_is_current s id (some l) =
    is_active s l.creator_account_id id && not (holds (Status-discrete l.status disconnected))

unfoldable pub is_current_fence : Sessions → ℕ → Bool
is_current_fence s id = lease_is_current s id (Dict.lookup ℕ_discrete id s.leases)

abbrev pub target_of : AgentLease → CommandDeliveryTarget
target_of l = record {
  connection_id = l.connection_id;
  fencing_token = l.fencing_token;
  creator_account_id = l.creator_account_id;
}

-- `_command_delivery`: the target, or the reason why there is none. The source's second lookup of
-- the same lease cannot differ from the first.
abbrev pub delivery_to : Option AgentLease → Option CommandDeliveryTarget × String
delivery_to none = (none, "agent_disconnected")
delivery_to (some l) = elim l.status [
  | connected ↦ (some (target_of l), "")
  | stale ↦ (none, "agent_stale")
  | disconnected ↦ (none, "agent_disconnected")
]

-- `self.active_agents.get(account)`, as the lease object.
abbrev pub lease_at : Sessions → Option ℕ → Option AgentLease
lease_at s none = none
lease_at s (some id) = Dict.lookup ℕ_discrete id s.leases

unfoldable pub command_delivery : Sessions → String → Option CommandDeliveryTarget × String
command_delivery s account =
    delivery_to (lease_at s (Dict.lookup String-discrete account s.active_agents))

abbrev pub second : ℕ
second = 1000000

-- `(now - lease.last_heartbeat_at).total_seconds() >= seconds`
abbrev pub is_aged : ℕ → AgentLease → ℕ → Bool
is_aged now l seconds = leb (l.last_heartbeat_at + seconds * second) now

unfoldable pub Applied-discrete : Discrete (Option Revision)
unfolding Revision-discrete
Applied-discrete = hlevel Revision-discrete

-- Whether a heartbeat shows: a lease that was not connected, or another applied revision or
-- failure.
abbrev pub changes : AgentLease → Installation → Installation → Bool
changes l previous installed =
    not (holds (Status-discrete l.status connected))
    || not (holds (Applied-discrete l.applied_config_revision installed.applied_config_revision))
    || not (holds (LastFailure-discrete previous.last_failure installed.last_failure))

abbrev pub touched : AgentLease → ℕ → AgentLease
touched l now = record l { last_heartbeat_at = now }

abbrev pub with_lease : Sessions → ℕ → AgentLease → Sessions
with_lease s id l = record s { leases = Dict.insert ℕ_discrete id l s.leases }

-- `heartbeat` of a lease, once its clock is set: whether to broadcast, and the state after it.
unfoldable pub beat :
    Sessions
    → Repository.Repository
    → AgentLease
    → Option Revision
    → ℕ
    → Raising (Bool × Sessions × Repository.Repository)
beat s r l applied now = do
  (previous, found) ← find_installation r l.creator_account_id l.agent_installation_id
  (installed, bound) ← bind_installation found l.creator_account_id l.agent_installation_id applied
  ok (
    changes l previous installed,
    with_lease s l.connection_id (record (touched l now) {
      applied_config_revision = installed.applied_config_revision;
      status = connected;
    }),
    bound,
  )

-- `heartbeat`, without what it tells the history store: the clock is set also if the rest raises.
unfoldable pub heartbeat :
    Sessions
    → Repository.Repository
    → AgentLease
    → Option Revision
    → ℕ
    → Sessions × Raising (Bool × Sessions × Repository.Repository)
heartbeat s r l applied now = (with_lease s l.connection_id (touched l now), beat s r l applied now)

-- The loop body of `expire`, on a lease of the list.
abbrev pub retired_lease : Sessions → String → ℕ → Sessions
retired_lease s account id = record s {
  leases = with_status id disconnected s.leases;
  active_agents = Dict.erase String-discrete account s.active_agents;
  agent_connections = Dict.erase ℕ_discrete id s.agent_connections;
}

abbrev pub desired_status : ℕ → AgentLease → LeaseStatus
desired_status now l = if is_aged now l l.lease_timeout_seconds then stale else connected

abbrev pub expire_found : ℕ → Sessions → String → ℕ → Option AgentLease → Sessions
expire_found now s account id none = s
expire_found now s account id (some l) =
    if is_aged now l (l.lease_timeout_seconds * 2)
    then (if is_active s account id then retired_lease s account id else s)
    else if holds (Status-discrete l.status disconnected)
    then s
    else if not (holds (Status-discrete (desired_status now l) l.status))
    then record s { leases = with_status id (desired_status now l) s.leases }
    else s

unfoldable pub expire_lease : ℕ → String × ℕ → Sessions → Sessions
expire_lease now e s = expire_found now s e.0 e.1 (Dict.lookup ℕ_discrete e.1 s.leases)

unfoldable pub expire_leases : ℕ → Dict String ℕ → Sessions → Sessions
expire_leases now [] s = s
expire_leases now (e ∷ es) s = expire_leases now es (expire_lease now e s)
