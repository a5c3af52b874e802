-- ===== src/Transport/Tickets.antt =====
-- Runtime tickets and pairing grants of app/transport/manager.py.
use onlyfans_conversational.Prelude.{
  ℕ, ◌+◌, ◌-◌, ◌*◌, ◌/◌, String, String-discrete, ℕ_discrete, Option, none, some, Bool, true, false,
  ◌&&◌, ◌||◌, not, leb, ltb, holds, filter, Result, ok, err, ◌>>=◌, ◌>>◌, raise_if, if◌then◌else◌,
}
use onlyfans_conversational.Prelude.Dict
use onlyfans_conversational.Prelude.Dict.{Dict}
use onlyfans_conversational.Prelude.Tokens.{Coding, signed, with_prefix, unsigned_after}
use onlyfans_conversational.Transport.Leases.{second}

pub data Purpose : Type 0 where
  agent_reconnect agent_config bridge_websocket : Purpose

unfoldable pub Purpose-discrete : Discrete (Option Purpose)
Purpose-discrete = hlevel

pub data Role : Type 0 where
  creator operator agent : Role

unfoldable pub Identifier-discrete : Discrete (Option ℕ)
unfolding ℕ_discrete
Identifier-discrete = hlevel ℕ_discrete

-- The JSON document of a ticket. A principal or a nonce is none if it is no string, a purpose or a
-- role if it is no known one; `is_exact` is whether it has just the ten known keys.
pub record TicketDocument : Type 0 where
  pub account : String
  pub bridge_session : Option ℕ
  pub exp : ℕ
  pub iat : ℕ
  pub installation : Option ℕ
  pub nonce : Option String
  pub principal : Option String
  pub purpose : Option Purpose
  pub role : Option Role
  pub v : ℕ
  pub is_exact : Bool

-- base64 and hmac, `json.dumps`, `json.loads` with the two calls of `int`, none where one of these
-- raises, and sha256.
pub record Signing : Type 0 where
  pub coding : Coding
  pub dumps : TicketDocument → String
  pub loads : String → Option TicketDocument
  pub ticket_key : String → String

-- The settings that the tickets depend on; lifetimes are in seconds.
pub record Settings : Type 0 where
  pub agent_reconnect_ticket_ttl_seconds : ℕ
  pub agent_config_ticket_ttl_seconds : ℕ
  pub bridge_ticket_ttl_seconds : ℕ
  pub agent_pairing_ticket_ttl_seconds : ℕ
  pub is_development_stub_allowed : Bool
  pub is_local_runtime_allowed : Bool

pub data AuthenticationError : Type 0 where
  ticket_invalid binding_invalid ticket_expired principal_invalid : AuthenticationError
  nonce_invalid lifetime_invalid role_invalid pairing_disabled : AuthenticationError
  grant_invalid other_account unauthorized : AuthenticationError

abbrev pub Raising : Type 0 → Type 0
Raising A = Result AuthenticationError A

-- Whom and what a ticket is for.
pub record Binding : Type 0 where
  pub purpose : Purpose
  pub creator_account_id : String
  pub agent_installation_id : Option ℕ
  pub bridge_session_id : Option ℕ

abbrev pub document_of : Binding → String → Role → ℕ → String → ℕ → TicketDocument
document_of b principal_id role ttl_seconds nonce now = record {
  account = b.creator_account_id;
  bridge_session = b.bridge_session_id;
  exp = now / second + ttl_seconds;
  iat = now / second;
  installation = b.agent_installation_id;
  nonce = some nonce;
  principal = some principal_id;
  purpose = some b.purpose;
  role = some role;
  v = 2;
  is_exact = true;
}

-- `_issue_runtime_ticket`
unfoldable pub issue_runtime_ticket : Signing → Binding → String → Role → ℕ → String → ℕ → String
issue_runtime_ticket sign b principal_id role ttl_seconds nonce now =
    with_prefix "local-v2"
      (signed sign.coding (sign.dumps (document_of b principal_id role ttl_seconds nonce now)))

abbrev pub opened : {A : Type 0} → Option A → Raising A
opened none = err ticket_invalid
opened (some d) = ok d

-- `document != {...}`, negated.
abbrev pub is_bound : Binding → TicketDocument → Bool
is_bound b d =
    d.is_exact
    && (holds (String-discrete d.account b.creator_account_id)
        && (holds (Identifier-discrete d.bridge_session b.bridge_session_id)
            && (holds (Identifier-discrete d.installation b.agent_installation_id)
                && (holds (Purpose-discrete d.purpose (some b.purpose))
                    && holds (ℕ_discrete d.v 2)))))

-- `isinstance(value, str) and value`
abbrev pub is_text : Option String → Bool
is_text none = false
is_text (some text) = not (holds (String-discrete text ""))

abbrev pub maximum_lifetime : Settings → Purpose → ℕ
maximum_lifetime s agent_reconnect = s.agent_reconnect_ticket_ttl_seconds
maximum_lifetime s agent_config = s.agent_config_ticket_ttl_seconds
maximum_lifetime s bridge_websocket = s.bridge_ticket_ttl_seconds

-- An Agent's ticket has the agent role, a Bridge's one of the two others.
abbrev pub may_have : Purpose → Option Role → Bool
may_have p none = false
may_have bridge_websocket (some Role.agent) = false
may_have bridge_websocket (some r) = true
may_have p (some Role.agent) = true
may_have p (some r) = false

-- `_verify_runtime_ticket`
unfoldable pub verify_runtime_ticket :
    Signing → Settings → String → Binding → ℕ → Raising TicketDocument
verify_runtime_ticket sign s ticket b now = do
  payload ← opened (unsigned_after sign.coding "local-v2" ticket)
  d ← opened (sign.loads payload)
  raise_if (not (is_bound b d)) binding_invalid
  raise_if (ltb (now / second) d.iat || leb d.exp (now / second)) ticket_expired
  raise_if (not (is_text d.principal)) principal_invalid
  raise_if (not (is_text d.nonce)) nonce_invalid
  raise_if (leb d.exp d.iat || ltb (maximum_lifetime s b.purpose) (d.exp - d.iat)) lifetime_invalid
  raise_if (not (may_have b.purpose d.role)) role_invalid
  ok d

pub record AgentPairingGrant : Type 0 where
  pub principal_id : String
  pub creator_account_id : String
  pub expires_at : ℕ

abbrev pub Grants : Type 0
Grants = Dict String AgentPairingGrant

-- `_expire_auth_grants`, on the pairing grants: nothing ever adds to the other ones.
unfoldable pub expire_auth_grants : ℕ → Grants → Grants
expire_auth_grants now grants = filter (λ e. ltb now e.1.expires_at) grants

-- `issue_agent_pairing_ticket`, with the fresh ticket.
unfoldable pub issue_agent_pairing_ticket :
    Signing → Settings → Grants → String → String → String → ℕ → Raising (ℕ × Grants)
unfolding expire_auth_grants
issue_agent_pairing_ticket sign s grants principal_id creator_account_id ticket now =
    let expires_at = now + s.agent_pairing_ticket_ttl_seconds * second in
    if not s.is_local_runtime_allowed
    then err pairing_disabled
    else ok (
      expires_at,
      Dict.insert String-discrete (sign.ticket_key ticket)
          (record {
            principal_id = principal_id;
            creator_account_id = creator_account_id;
            expires_at = expires_at;
          })
          (expire_auth_grants now grants),
    )
