-- ===== src/Transport/Authentication.antt =====
-- The authentication of Agents and Bridges in app/transport/manager.py.
use text.Mathlib.Text.{starts_with}
use onlyfans_conversational.Prelude.{
  ℕ, String, String-discrete, Option, none, some, Bool, ◌&&◌, not, leb, holds, ok, err, ◌>>=◌, ◌>>◌,
  raise_if, if◌then◌else◌,
}
use onlyfans_conversational.Prelude.Dict
use onlyfans_conversational.Transport.Tickets.{
  Purpose, agent_reconnect, agent_config, bridge_websocket, Role, TicketDocument, Signing, Settings,
  grant_invalid, other_account, unauthorized, Raising, Binding, issue_runtime_ticket,
  verify_runtime_ticket, AgentPairingGrant, Grants, expire_auth_grants,
}

abbrev pub dev_agent_auth_ticket : String
dev_agent_auth_ticket = "onlyfans-agent-local-ticket-v2"

abbrev pub dev_bridge_auth_ticket : String
dev_bridge_auth_ticket = "onlyfans-bridge-local-ticket-v2"

abbrev pub dev_principal_id : String
dev_principal_id = "dev-principal"

abbrev pub dev_account_id : String
dev_account_id = "dev-creator-account"

-- The development ticket, where the settings allow it.
abbrev pub is_stub : Settings → String → String → String → Bool
is_stub s expected ticket account =
    s.is_development_stub_allowed
    && (holds (String-discrete ticket expected) && holds (String-discrete account dev_account_id))

-- `str(document["principal"])` of a verified document, whose principal is a text.
abbrev pub principal_of : TicketDocument → String
principal_of d = elim d.principal [ none ↦ "" | some p ↦ p ]

-- What a handshake gives: principal, account, reconnect ticket and configuration ticket.
abbrev pub Session : Type 0
Session = String × String × String × String

-- The arguments of `authenticate_agent_handshake`, with two fresh nonces and the clock.
pub record Hello : Type 0 where
  pub auth_ticket : String
  pub requested_account : String
  pub agent_installation_id : ℕ
  pub reconnect_nonce : String
  pub config_nonce : String
  pub now : ℕ

abbrev pub agent_binding : Purpose → Hello → Binding
agent_binding purpose h = record {
  purpose = purpose;
  creator_account_id = h.requested_account;
  agent_installation_id = some h.agent_installation_id;
  bridge_session_id = none;
}

-- The two tickets at the end of the handshake. Its account is the requested one on every path.
unfoldable pub session_for : Signing → Settings → Hello → String → Session
session_for sign s h principal = (
  principal,
  h.requested_account,
  issue_runtime_ticket sign (agent_binding agent_reconnect h) principal Role.agent
      s.agent_reconnect_ticket_ttl_seconds h.reconnect_nonce h.now,
  issue_runtime_ticket sign (agent_binding agent_config h) principal Role.agent
      s.agent_config_ticket_ttl_seconds h.config_nonce h.now,
)

-- The principal of a popped pairing grant.
abbrev pub claimed : Option AgentPairingGrant → Hello → Raising String
claimed none h = err grant_invalid
claimed (some g) h = do
  raise_if (leb g.expires_at h.now) grant_invalid
  raise_if (not (holds (String-discrete g.creator_account_id h.requested_account))) other_account
  ok g.principal_id

abbrev pub greeted : Signing → Settings → Hello → Raising String → Raising Session
greeted sign s h (err e) = err e
greeted sign s h (ok principal) = ok (session_for sign s h principal)

abbrev pub reconnected : Signing → Settings → Hello → Raising String
reconnected sign s h = do
  d ← verify_runtime_ticket sign s h.auth_ticket (agent_binding agent_reconnect h) h.now
  ok (principal_of d)

-- `authenticate_agent_handshake`: the grants after it, also where it raises, and its answer.
unfoldable pub authenticate_agent_handshake :
    Signing → Settings → Grants → Hello → Grants × Raising Session
authenticate_agent_handshake sign s grants h =
    let live = expire_auth_grants h.now grants in
    if is_stub s dev_agent_auth_ticket h.auth_ticket h.requested_account
    then (live, ok (session_for sign s h dev_principal_id))
    else if starts_with h.auth_ticket "local-v2."
    then (live, greeted sign s h (reconnected sign s h))
    else (
      Dict.erase String-discrete (sign.ticket_key h.auth_ticket) live,
      greeted sign s h
          (claimed (Dict.lookup String-discrete (sign.ticket_key h.auth_ticket) live) h),
    )

-- `except AuthenticationError`: the second verification where the first one raised.
abbrev pub or_else : Raising TicketDocument → Raising TicketDocument → Raising TicketDocument
or_else (ok d) second = ok d
or_else (err e) second = second

abbrev pub bridge_binding : String → Option ℕ → Binding
bridge_binding account session = record {
  purpose = bridge_websocket;
  creator_account_id = account;
  agent_installation_id = none;
  bridge_session_id = session;
}

-- `authenticate`; `is_agent` is whether the role is "agent".
unfoldable pub authenticate :
    Signing → Settings → String → String → Bool → Option ℕ → ℕ → Raising (String × String)
authenticate sign s auth_ticket requested_account is_agent session now =
    if is_stub s (if is_agent then dev_agent_auth_ticket else dev_bridge_auth_ticket) auth_ticket
      requested_account
    then ok (dev_principal_id, dev_account_id)
    else if is_agent
    then err unauthorized
    else (do
      d ←
          or_else
            (verify_runtime_ticket sign s auth_ticket (bridge_binding requested_account session)
              now)
            (verify_runtime_ticket sign s auth_ticket (bridge_binding requested_account none) now)
      ok (principal_of d, requested_account))

-- `authenticate_agent_config`
unfoldable pub authenticate_agent_config : Signing → Settings → Hello → Raising (String × String)
authenticate_agent_config sign s h =
    if is_stub s dev_agent_auth_ticket h.auth_ticket h.requested_account
    then ok (dev_principal_id, dev_account_id)
    else (do
      d ← verify_runtime_ticket sign s h.auth_ticket (agent_binding agent_config h) h.now
      ok (principal_of d, h.requested_account))
