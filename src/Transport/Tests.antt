-- ===== src/Transport/Tests.antt =====
-- Runs of the transport manager, and an instance of each of its theorems.
use onlyfans_conversational.Prelude.{
  ℕ, ◌+◌, ◌<◌, String, String-discrete, ℕ_discrete, none, some, [], ◌∷◌, true, false, ◌≡◌, ◌≢◌, ◌⊎◌,
  refl, ite, arith, ok, err,
}
use onlyfans_conversational.Prelude.Dict
use onlyfans_conversational.Prelude.Tokens.{
  IsCoded, base64, rstrip, padded, pads, cut, unsigned, unsigned_after,
}
use onlyfans_conversational.Transport.Types.{
  AgentLease, connected, Status-discrete, Sessions, PresenceRecord,
}
use onlyfans_conversational.Transport.Leases.{
  take_over, with_status, is_current_fence, command_delivery, target_of, expire_lease,
  expire_leases, disconnect_agent,
}
use onlyfans_conversational.Transport.Presence.{
  observe_presence, observed, presence_ttl, expire_presence,
}
use onlyfans_conversational.Transport.Tickets.{
  agent_reconnect, Role, Signing, Settings, Binding, document_of, issue_runtime_ticket,
  verify_runtime_ticket, Grants, grant_invalid, ticket_invalid,
}
use onlyfans_conversational.Transport.Authentication.{Hello, authenticate_agent_handshake}
use onlyfans_conversational.Transport.Credentials.{
  verify_runtime_ticket-issue_runtime_ticket, LaterGrants, greets,
  authenticate_agent_handshake-again,
}
use onlyfans_conversational.Transport.Fences.{IsValid, command_delivery-fence}
use onlyfans_conversational.Transport.Handover.{take_over-fence}
use onlyfans_conversational.Transport.Observations.{IsLater, newest, observe_presence-IsLater}

abbrev old : AgentLease
old = record {
  principal_id = "p";
  creator_account_id = "acct";
  connection_id = 1;
  fencing_token = "fence-a";
  agent_installation_id = 5;
  agent_stream_id = 6;
  config_auth_ticket = "t";
  applied_config_revision = none;
  last_heartbeat_at = 0;
  lease_timeout_seconds = 30;
  status = connected;
}

abbrev new : AgentLease
new = record old { connection_id = 2; fencing_token = "fence-b"; last_heartbeat_at = 10000000 }

abbrev seen : PresenceRecord
seen = observed "acct" 3 100 ("u1" ∷ []) 120

abbrev one : Sessions
one = record {
  leases = (1, old) ∷ [];
  active_agents = ("acct", 1) ∷ [];
  agent_connections = (1, 1) ∷ [];
  presence = ("acct", seen) ∷ [];
}

-- The old lease is fenced out, and its late disconnect changes nothing for the new one.
superseded : is_current_fence (take_over one new) 1 ≡ false
unfolding is_current_fence take_over with_status Dict.lookup Dict.insert Status-discrete
    String-discrete ℕ_discrete
superseded = refl

late_disconnect : (disconnect_agent (take_over one new) 1).0 ≡ false
unfolding disconnect_agent take_over with_status Dict.lookup Dict.insert Dict.erase Status-discrete
    String-discrete ℕ_discrete
late_disconnect = refl

one-IsValid : IsValid one
unfolding Dict.lookup ℕ_discrete
one-IsValid = ((old, refl, refl, refl), tt)

fresh_id : Dict.lookup ℕ_discrete 2 one.leases ≡ none
unfolding Dict.lookup ℕ_discrete
fresh_id = refl

take_over-fence_example :
    (is_current_fence (take_over one new) 2 ≡ true)
    × ((k : ℕ) (l : AgentLease)
        → k ≢ 2
        → Dict.lookup ℕ_discrete k (take_over one new).leases ≡ some l
        → l.creator_account_id ≡ new.creator_account_id
        → is_current_fence (take_over one new) k ≡ false)
    × ((k : ℕ) (l : AgentLease)
        → Dict.lookup ℕ_discrete k one.leases ≡ some l
        → l.creator_account_id ≢ new.creator_account_id
        → is_current_fence (take_over one new) k ≡ is_current_fence one k)
take_over-fence_example = take_over-fence one new one-IsValid fresh_id refl

delivered : (command_delivery one "acct").0 ≡ some (target_of old)
unfolding command_delivery Dict.lookup String-discrete ℕ_discrete
delivered = refl

command_delivery-fence_example :
    ((target_of old).creator_account_id ≡ "acct")
    × (is_current_fence one 1 ≡ true)
    × (l : AgentLease) × (Dict.lookup ℕ_discrete 1 one.leases ≡ some l)
    × (l.fencing_token ≡ (target_of old).fencing_token)
    × (l.status ≡ connected)
command_delivery-fence_example =
    command_delivery-fence one "acct" (target_of old) one-IsValid delivered

stale_later : (command_delivery (expire_leases 30000000 one.active_agents one) "acct").0 ≡ none
unfolding command_delivery expire_leases expire_lease with_status Dict.lookup Dict.insert
    Status-discrete String-discrete ℕ_discrete
stale_later = refl

observe_presence-IsLater_example :
    let x = observe_presence one "acct" 4 130 [] 140 in
    ((x.0 ≡ false) × (x.1 ≡ one))
    ⊎ ((x.0 ≡ true)
        × IsLater 4 130 (Dict.lookup String-discrete "acct" one.presence)
        × (140 < 130 + presence_ttl)
        × ((a : String)
            → Dict.lookup String-discrete a x.1.presence
              ≡ ite
                  (String-discrete a "acct")
                  (some (newest "acct" 4 130 [] 140))
                  (Dict.lookup String-discrete a one.presence)))
observe_presence-IsLater_example = observe_presence-IsLater one "acct" 4 130 [] 140

still_seen : Dict.lookup String-discrete "acct" (expire_presence 200 one).presence ≡ some seen
unfolding expire_presence Dict.lookup String-discrete
still_seen = refl

abbrev binding : Binding
binding = record {
  purpose = agent_reconnect;
  creator_account_id = "acct";
  agent_installation_id = some 5;
  bridge_session_id = none;
}

abbrev settings : Settings
settings = record {
  agent_reconnect_ticket_ttl_seconds = 3600;
  agent_config_ticket_ttl_seconds = 3600;
  bridge_ticket_ttl_seconds = 600;
  agent_pairing_ticket_ttl_seconds = 300;
  is_development_stub_allowed = false;
  is_local_runtime_allowed = true;
}

-- A signing of one ticket alone, with texts that base64 keeps.
abbrev sign : Signing
sign = record {
  coding = record {
    urlsafe_b64encode = λ x. x;
    urlsafe_b64decode = λ x. some x;
    digest = λ x. "sign";
  };
  dumps = λ d. "json";
  loads = λ t. some (document_of binding "p" Role.agent 60 "n" 5000000);
  ticket_key = λ t. t;
}

payload-IsCoded : IsCoded sign.coding "json"
unfolding base64 rstrip padded pads cut ℕ_discrete
payload-IsCoded = (refl, refl)

digest-IsCoded : IsCoded sign.coding "sign"
unfolding base64 rstrip padded pads cut ℕ_discrete
digest-IsCoded = (refl, refl)

altered :
    verify_runtime_ticket sign settings "local-v2.json.sigh" binding 9000000 ≡ err ticket_invalid
unfolding verify_runtime_ticket unsigned_after unsigned padded pads cut ℕ_discrete String-discrete
altered = refl

verify_runtime_ticket-issue_runtime_ticket_example :
    verify_runtime_ticket sign settings
      (issue_runtime_ticket sign binding "p" Role.agent 60 "n" 5000000)
      binding
      9000000
    ≡ ok (document_of binding "p" Role.agent 60 "n" 5000000)
verify_runtime_ticket-issue_runtime_ticket_example =
    verify_runtime_ticket-issue_runtime_ticket sign settings binding "p" Role.agent 60 "n" 5000000
      9000000 refl payload-IsCoded digest-IsCoded (λ e. cc) (λ e. cc) refl (omega arith)
      (omega arith) (omega arith)

abbrev hello : Hello
hello = record {
  auth_ticket = "pair-x";
  requested_account = "acct";
  agent_installation_id = 5;
  reconnect_nonce = "n";
  config_nonce = "m";
  now = 5000000;
}

abbrev grants : Grants
grants =
    ("pair-x", record { principal_id = "p"; creator_account_id = "acct"; expires_at = 6000000 })
    ∷ []

abbrev other_hello : Hello
other_hello = record hello { auth_ticket = "pair-y" }

authenticate_agent_handshake-again_example :
    (authenticate_agent_handshake sign settings
      (authenticate_agent_handshake sign settings
        (authenticate_agent_handshake sign settings grants hello).0
        other_hello).0
      hello).1
    ≡ err grant_invalid
authenticate_agent_handshake-again_example =
    authenticate_agent_handshake-again sign settings grants
      (authenticate_agent_handshake sign settings
        (authenticate_agent_handshake sign settings grants hello).0 other_hello).0
      hello hello (λ e. cc) refl (greets other_hello LaterGrants.same) refl
