-- ===== src/Security/Cookies.antt =====
-- What a session cookie of app/api/security.py opens.
use onlyfans_conversational.Prelude.{
  ℕ, ◌+◌, ℕ_discrete, String, String-discrete, Option, none, some, true, ◌≡◌, refl, ◌||◌, ltb, leb,
  if◌then◌else◌, Bool-cases, inl, inr, arith, Result, ok, err,
}
use onlyfans_conversational.Prelude.Dict
use onlyfans_conversational.Prelude.Tokens.{
  cut, signed, with_prefix, IsCoded, unsigned_after-signed,
}
use onlyfans_conversational.Security.Sessions.{
  Json, Document, text, number, Role, creator, operator, AuthContext, Settings, Sealing,
  SecurityError, session_expired, role_text, role_of, has_all, same_document, session_document,
  is_given, local_session_token, open_session, get_auth_context,
}

module _ (account principal platform session : String) (role : Role) (issued expires : ℕ) where
  abbrev at : String → Option Json
  at key =
      Dict.lookup String-discrete key
        (session_document account principal platform session role issued expires)

  found_account : at "account" ≡ some (text account)
  unfolding Dict.lookup String-discrete
  found_account = refl

  found_expiry : at "exp" ≡ some (number expires)
  unfolding Dict.lookup String-discrete
  found_expiry = refl

  found_issued : at "iat" ≡ some (number issued)
  unfolding Dict.lookup String-discrete
  found_issued = refl

  found_platform : at "platform_creator" ≡ some (text platform)
  unfolding Dict.lookup String-discrete
  found_platform = refl

  found_principal : at "principal" ≡ some (text principal)
  unfolding Dict.lookup String-discrete
  found_principal = refl

  found_purpose : at "purpose" ≡ some (text "bridge-session")
  unfolding Dict.lookup String-discrete
  found_purpose = refl

  found_role : at "role" ≡ some (text (role_text role))
  unfolding Dict.lookup String-discrete
  found_role = refl

  found_session : at "session" ≡ some (text session)
  unfolding Dict.lookup String-discrete
  found_session = refl

  found_version : at "v" ≡ some (number 1)
  unfolding Dict.lookup String-discrete
  found_version = refl

  document_self :
      same_document
        (session_document account principal platform session role issued expires)
        (session_document account principal platform session role issued expires)
      ≡ true
  unfolding same_document has_all
  document_self =
      rw
        (
          found_account, found_expiry, found_issued, found_platform, found_principal, found_purpose,
          found_role, found_session, found_version,
        )
        (ground arith)

role_of-text : (role : Role) → role_of (some (role_text role)) ≡ some role
unfolding String-discrete
role_of-text creator = refl
role_of-text operator = refl

-- What the session of the context opens at a time: the context with its expiry, or nothing before
-- it was issued or from its expiry on.
abbrev pub opened_at : AuthContext → ℕ → ℕ → ℕ → Result SecurityError AuthContext
opened_at c issued expires now =
    if ltb now issued || leb expires now
    then err session_expired
    else ok (record c { session_expires_at = some expires })

open_session-own :
    (account principal platform session : String) (role : Role) (issued expires now : ℕ)
    → open_session (session_document account principal platform session role issued expires) now
      ≡ opened_at
          (record {
            principal_id = principal;
            creator_account_id = account;
            role = role;
            platform_creator_id = some platform;
            session_id = some session;
            session_expires_at = none;
          })
          issued
          expires
          now
open_session-own account principal platform session role issued expires now =
    rw
      (
        found_issued account principal platform session role issued expires,
        found_expiry account principal platform session role issued expires,
        found_role account principal platform session role issued expires,
        role_of-text role,
        found_principal account principal platform session role issued expires,
        found_account account principal platform session role issued expires,
        found_platform account principal platform session role issued expires,
        found_session account principal platform session role issued expires,
        document_self account principal platform session role issued expires,
      )
      (elim (Bool-cases (ltb now issued || leb expires now)) [
        | inl late ↦ rw late refl
        | inr timely ↦ rw timely refl
      ])

-- The document that a context's session is sealed as.
abbrev pub session_of : Settings → AuthContext → String → String → ℕ → Document
session_of s c platform session issued =
    session_document c.creator_account_id c.principal_id platform session c.role issued
      (issued + s.bridge_session_ttl_seconds)

-- If json reads the session's document back from what it wrote, and base64 writes this text and its
-- digest without a dot and reads them back, the session token of a context with a platform creator
-- and a session is issued, and as a cookie it opens just this context, with the expiry that the settings
-- give, from the time of issue until before the expiry; at other times it raises that the session
-- has expired.
pub get_auth_context-local_session_token :
    (sealing : Sealing) (s : Settings) (c : AuthContext) (platform session : String)
    (issued now : ℕ)
    → c.platform_creator_id ≡ some platform
    → c.session_id ≡ some session
    → is_given (some platform) ≡ true
    → is_given (some session) ≡ true
    → sealing.loads (sealing.dumps (session_of s c platform session issued))
      ≡ some (session_of s c platform session issued)
    → IsCoded sealing.coding (sealing.dumps (session_of s c platform session issued))
    → IsCoded sealing.coding
        (sealing.coding.digest (sealing.dumps (session_of s c platform session issued)))
    → (token : String) × (local_session_token sealing s c issued ≡ ok token)
      × (get_auth_context sealing s (some token) now
          ≡ opened_at c issued (issued + s.bridge_session_ttl_seconds) now)
unfolding local_session_token get_auth_context cut ℕ_discrete
get_auth_context-local_session_token sealing s c platform session issued now of_platform of_session
      given_platform given_session reads body signature =
    let d = session_of s c platform session issued in
    (
      with_prefix "bridge-v1" (signed sealing.coding (sealing.dumps d)),
      rw (of_platform, of_session, given_platform, given_session) refl,
      rw
          (
            unsigned_after-signed sealing.coding "bridge-v1" (sealing.dumps d) refl body signature,
            reads,
          )
          (rw
            (open_session-own c.creator_account_id c.principal_id platform session c.role issued
              (issued + s.bridge_session_ttl_seconds) now)
            (rw (of_platform, of_session) refl)),
    )
