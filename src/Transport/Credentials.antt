-- ===== src/Transport/Credentials.antt =====
-- What a verified ticket shows, and that a pairing ticket works once.
use text.Mathlib.Text.{starts_with}
use onlyfans_conversational.Prelude.{
  ℕ, ◌+◌, ◌-◌, ◌/◌, ◌≤◌, ◌<◌, String, String-discrete, none, some, true, false, ◌||◌, ◌≡◌, ◌≢◌,
  refl, leb, ltb, ok, err, arith, if-cases, holds, Bool-cases, inl, inr, sym, ◌∙◌, ◌*◌,
}
use onlyfans_conversational.Prelude.Dict
use onlyfans_conversational.Prelude.Dict.{lookup-erase, lookup-insert}
use onlyfans_conversational.Prelude.Entries.{lookup-filter-none}
use onlyfans_conversational.Prelude.Tokens.{cut, IsSigned, IsCoded, unsigned_after-signed}
use onlyfans_conversational.Transport.Leases.{second}
use onlyfans_conversational.Transport.Tickets.{
  Role, TicketDocument, Signing, Settings, grant_invalid, Binding, document_of,
  issue_runtime_ticket, is_bound, is_text, maximum_lifetime, may_have, verify_runtime_ticket,
  Raising, AgentPairingGrant, Grants, expire_auth_grants, issue_agent_pairing_ticket,
}
use onlyfans_conversational.Transport.Authentication.{
  Hello, Session, dev_agent_auth_ticket, is_stub, authenticate_agent_handshake,
}

-- The ticket has its version before its first dot, and after it the document with the signature that
-- the secret gives it; it is for this account, installation,
-- session and purpose; the time is within its lifetime, which is not above the setting; and its
-- role may have the purpose.
pub record IsGenuine (sign : Signing) (s : Settings) (ticket : String) (b : Binding) (now : ℕ)
    (d : TicketDocument) : Type 0 where
  pub sealed :
      (rest : String) × (payload : String) × (cut ticket ≡ some ("local-v2", rest))
      × IsSigned sign.coding rest payload
      × (sign.loads payload ≡ some d)
  pub account : d.account ≡ b.creator_account_id
  pub installation : d.installation ≡ b.agent_installation_id
  pub session : d.bridge_session ≡ b.bridge_session_id
  pub purpose : d.purpose ≡ some b.purpose
  pub started : d.iat ≤ now / second
  pub live : now / second < d.exp
  pub short : d.exp ≤ d.iat + maximum_lifetime s b.purpose
  pub role : may_have b.purpose d.role ≡ true

-- A ticket issued for a named principal, in a role that the purpose allows and for a lifetime
-- within the setting, verifies for its own binding at any time in its lifetime, if json reads the
-- document back from what it wrote, and base64 writes this text and its digest without a dot and
-- reads them back.
pub verify_runtime_ticket-issue_runtime_ticket :
    (sign : Signing) (s : Settings) (b : Binding) (principal : String) (role : Role) (ttl : ℕ)
    (nonce : String) (now later : ℕ)
    → let d = document_of b principal role ttl nonce now in
      sign.loads (sign.dumps d) ≡ some d
      → IsCoded sign.coding (sign.dumps (document_of b principal role ttl nonce now))
      → IsCoded sign.coding
          (sign.coding.digest (sign.dumps (document_of b principal role ttl nonce now)))
      → principal ≢ ""
      → nonce ≢ ""
      → may_have b.purpose (some role) ≡ true
      → ttl ≤ maximum_lifetime s b.purpose
      → now / second ≤ later / second
      → later / second < now / second + ttl
      → verify_runtime_ticket sign s
          (issue_runtime_ticket sign b principal role ttl nonce now)
          b
          later
        ≡ ok (document_of b principal role ttl nonce now)
unfolding verify_runtime_ticket issue_runtime_ticket cut onlyfans_conversational.Prelude.ℕ_discrete
verify_runtime_ticket-issue_runtime_ticket sign s b principal role ttl nonce now later reads body
      signature named nonced allowed bounded started live =
    let d = document_of b principal role ttl nonce now in
    let bound : is_bound b d ≡ true = ground arith in
    let timely : (ltb (later / second) d.iat || leb d.exp (later / second)) ≡ false =
      ground (arith, started, live) in
    let lived : (leb d.exp d.iat || ltb (maximum_lifetime s b.purpose) (d.exp - d.iat)) ≡ false =
      ground (arith, started, live, bounded) in
    let principal_ok : is_text d.principal ≡ true = ground (arith, named) in
    let nonce_ok : is_text d.nonce ≡ true = ground (arith, nonced) in
    let payload = sign.dumps d in
    let opens = unsigned_after-signed sign.coding "local-v2" payload refl body signature in
    rw (opens, reads, bound, timely, principal_ok, nonce_ok, lived, allowed) refl

missing-after_expiry :
    (now : ℕ) (key : String) (grants : Grants)
    → Dict.lookup String-discrete key grants ≡ none
    → Dict.lookup String-discrete key (expire_auth_grants now grants) ≡ none
unfolding expire_auth_grants
missing-after_expiry now key grants missing =
    lookup-filter-none String-discrete (λ e. ltb now e.1.expires_at) key grants missing

ticket-is_stub :
    (s : Settings) (h : Hello)
    → h.auth_ticket ≢ dev_agent_auth_ticket
    → is_stub s dev_agent_auth_ticket h.auth_ticket h.requested_account ≡ false
ticket-is_stub s h real =
    let other : holds (String-discrete h.auth_ticket dev_agent_auth_ticket) ≡ false =
      ground (arith, real) in
    ground (arith, other)

-- What the pairing grants become later: by any handshakes, and by new pairing tickets of other keys.
pub data LaterGrants (sign : Signing) (s : Settings) (key : String) (grants : Grants)
    : Grants → Type 0 where
  same : LaterGrants sign s key grants grants
  greets :
      {g : Grants} (h : Hello)
      → LaterGrants sign s key grants g
      → LaterGrants sign s key grants (authenticate_agent_handshake sign s g h).0
  pairs :
      {g g' : Grants} (principal account ticket : String) (now expires_at : ℕ)
      → LaterGrants sign s key grants g
      → issue_agent_pairing_ticket sign s g principal account ticket now ≡ ok (expires_at, g')
      → sign.ticket_key ticket ≢ key
      → LaterGrants sign s key grants g'

module _ (sign : Signing) (s : Settings) (key : String) where
  handshake-missing :
      (g : Grants) (h : Hello)
      → Dict.lookup String-discrete key g ≡ none
      → Dict.lookup String-discrete key (authenticate_agent_handshake sign s g h).0 ≡ none
  unfolding authenticate_agent_handshake
  handshake-missing g h missing =
      let live = missing-after_expiry h.now key g missing in
      let erased =
        lookup-erase String-discrete key (sign.ticket_key h.auth_ticket)
          (expire_auth_grants h.now g) in
      let erased_missing : Dict.lookup String-discrete key (
            Dict.erase String-discrete (sign.ticket_key h.auth_ticket) (expire_auth_grants h.now g))
          ≡ none =
        ground (arith, erased, live) in
      if-cases (λ (r : Grants × Raising Session). Dict.lookup String-discrete key r.0 ≡ none)
        (is_stub s dev_agent_auth_ticket h.auth_ticket h.requested_account) _ _ (λ stub. live)
        (λ real.
          if-cases (λ (r : Grants × Raising Session). Dict.lookup String-discrete key r.0 ≡ none)
            (starts_with h.auth_ticket "local-v2.") _ _ (λ runtime. live)
            (λ pairing. erased_missing))

  pairing-missing :
      (g g' : Grants) (principal account ticket : String) (now expires_at : ℕ)
      → issue_agent_pairing_ticket sign s g principal account ticket now ≡ ok (expires_at, g')
      → sign.ticket_key ticket ≢ key
      → Dict.lookup String-discrete key g ≡ none
      → Dict.lookup String-discrete key g' ≡ none
  unfolding issue_agent_pairing_ticket
  pairing-missing g g' principal account ticket now expires_at issued other missing =
      let live = missing-after_expiry now key g missing in
      let grant : AgentPairingGrant = record {
        principal_id = principal;
        creator_account_id = account;
        expires_at = now + s.agent_pairing_ticket_ttl_seconds * second;
      } in
      let added =
        lookup-insert String-discrete key (sign.ticket_key ticket) grant
          (expire_auth_grants now g) in
      elim (Bool-cases s.is_local_runtime_allowed) [
        | inr disabled ↦ absurd (ground (arith, issued, disabled))
        | inl allowed ↦ ground (arith, issued, allowed, added, live, other)
      ]

  later-missing :
      (g g' : Grants)
      → LaterGrants sign s key g g'
      → Dict.lookup String-discrete key g ≡ none
      → Dict.lookup String-discrete key g' ≡ none
  later-missing g g' same missing = missing
  later-missing g g' (greets {g = before} h rest) missing =
      handshake-missing before h (later-missing g before rest missing)
  later-missing g g' (pairs {g = before} principal account ticket now expires_at rest issued other)
        missing =
      pairing-missing before g' principal account ticket now expires_at issued other
        (later-missing g before rest missing)

-- A pairing ticket works once: after a handshake with a ticket that is neither the development one
-- nor a runtime one, whatever came of it, every later handshake with that ticket is refused, whatever
-- handshakes were made and whatever pairing tickets with other keys were issued meanwhile.
pub authenticate_agent_handshake-again :
    (sign : Signing) (s : Settings) (grants later : Grants) (h again : Hello)
    → h.auth_ticket ≢ dev_agent_auth_ticket
    → starts_with h.auth_ticket "local-v2." ≡ false
    → LaterGrants sign s
        (sign.ticket_key h.auth_ticket)
        (authenticate_agent_handshake sign s grants h).0
        later
    → again.auth_ticket ≡ h.auth_ticket
    → (authenticate_agent_handshake sign s later again).1 ≡ err grant_invalid
unfolding authenticate_agent_handshake
authenticate_agent_handshake-again sign s grants later h again real pairing after same_ticket =
    let key = sign.ticket_key h.auth_ticket in
    let genuine = ticket-is_stub s h real in
    let genuine_again = ticket-is_stub s again (λ e. real (sym same_ticket ∙ e)) in
    let spent : Dict.lookup String-discrete key (authenticate_agent_handshake sign s grants h).0
        ≡ none =
      rw (genuine, pairing)
        (ground (arith, lookup-erase String-discrete key key (expire_auth_grants h.now grants))) in
    let gone = missing-after_expiry again.now key later (
      later-missing sign s key (authenticate_agent_handshake sign s grants h).0 later after
        spent) in
    rw (genuine_again, same_ticket, pairing, gone) refl
