-- ===== src/Security/Sessions.antt =====
-- app/api/security.py. A token's document is a dict of JSON values; json, base64 and hmac with the
-- secret are parameters. A time is a number of seconds, a setting's environment is in lower case.
use onlyfans_conversational.Prelude.{
  ℕ, ◌+◌, String, String-discrete, ℕ_discrete, Option, none, some, Bool, true, false, [], ◌∷◌, ◌&&◌,
  ◌||◌, not, holds, leb, ltb, length, if◌then◌else◌, Result, ok, err, ◌>>=◌, ◌>>◌, raise_if,
}
use onlyfans_conversational.Prelude.Dict
use onlyfans_conversational.Prelude.Tokens.{Coding, signed, with_prefix, unsigned, unsigned_after}
use onlyfans_conversational.Prelude.Dict.{Dict}

-- `numeral n` is any other value that `int` reads as `n`.
pub data Json : Type 0 where
  text : String → Json
  number : ℕ → Json
  numeral : ℕ → Json
  null : Json
  other : Json

abbrev pub Document : Type 0
Document = Dict String Json

pub data Role : Type 0 where
  creator operator : Role

pub record AuthContext : Type 0 where
  pub principal_id : String
  pub creator_account_id : String
  pub role : Role
  pub platform_creator_id : Option String
  pub session_id : Option String
  pub session_expires_at : Option ℕ

pub record Settings : Type 0 where
  pub websocket_auth_mode : String
  pub environment : String
  pub websocket_bind_host : String
  pub bridge_session_ttl_seconds : ℕ
  pub csrf_token_ttl_seconds : ℕ
  pub development_context : AuthContext

-- base64 and hmac, `json.dumps` with sorted keys, and `json.loads`, none where it raises or gives no
-- dict.
pub record Sealing : Type 0 where
  pub coding : Coding
  pub dumps : Document → String
  pub loads : String → Option Document

pub data SecurityError : Type 0 where
  session_required session_invalid session_expired creator_required csrf_required csrf_invalid
        csrf_mismatch csrf_expired session_incomplete :
      SecurityError

abbrev pub Raising : Type 0 → Type 0
Raising A = Result SecurityError A

unfoldable pub is_development_context_allowed : Settings → Bool
is_development_context_allowed s =
    holds (String-discrete s.websocket_auth_mode "development_stub")
    && (holds (String-discrete s.environment "development")
        || (holds (String-discrete s.environment "dev")
            || (holds (String-discrete s.environment "local")
                || holds (String-discrete s.environment "test"))))
    && (holds (String-discrete s.websocket_bind_host "127.0.0.1")
        || (holds (String-discrete s.websocket_bind_host "localhost")
            || holds (String-discrete s.websocket_bind_host "::1")))

abbrev pub role_text : Role → String
role_text creator = "creator"
role_text operator = "operator"

abbrev pub text_or_null : Option String → Json
text_or_null none = null
text_or_null (some t) = text t

abbrev pub same_json : Json → Json → Bool
same_json (text s) (text t) = holds (String-discrete s t)
same_json (number m) (number n) = holds (ℕ_discrete m n)
same_json null null = true
same_json _ _ = false

abbrev pub same_found : Option Json → Json → Bool
same_found none j = false
same_found (some i) j = same_json i j

unfoldable pub has_all : Document → Document → Bool
has_all d [] = true
has_all d (e ∷ expected) = same_found (Dict.lookup String-discrete e.0 d) e.1 && has_all d expected

-- `document == expected`
unfoldable pub same_document : Document → Document → Bool
same_document d expected = holds (ℕ_discrete (length d) (length expected)) && has_all d expected

abbrev pub int_of : Option Json → Option ℕ
int_of none = none
int_of (some (number n)) = some n
int_of (some (numeral n)) = some n
int_of (some _) = none

abbrev pub or_raise : {A : Type 0} → Option A → SecurityError → Raising A
or_raise none e = err e
or_raise (some a) e = ok a

abbrev pub session_document : String → String → String → String → Role → ℕ → ℕ → Document
session_document account principal platform session role issued expires =
    ("account", text account)
    ∷ ("exp", number expires)
    ∷ ("iat", number issued)
    ∷ ("platform_creator", text platform)
    ∷ ("principal", text principal)
    ∷ ("purpose", text "bridge-session")
    ∷ ("role", text (role_text role))
    ∷ ("session", text session)
    ∷ ("v", number 1)
    ∷ []

-- `csrf_token`'s document, its keys sorted as `json.dumps` writes them
abbrev pub csrf_document : AuthContext → ℕ → Document
csrf_document c issued =
    ("account", text c.creator_account_id)
    ∷ ("iat", number issued)
    ∷ ("principal", text c.principal_id)
    ∷ ("role", text (role_text c.role))
    ∷ ("session", text_or_null c.session_id)
    ∷ ("v", number 1)
    ∷ []

unfoldable pub csrf_token : Sealing → AuthContext → ℕ → String
csrf_token sealing c issued = signed sealing.coding (sealing.dumps (csrf_document c issued))

unfoldable pub require_creator : AuthContext → Raising Unit
require_creator c = elim c.role [ creator ↦ ok tt | operator ↦ err creator_required ]

abbrev pub check_document : Settings → AuthContext → ℕ → Document → ℕ → Raising Unit
check_document s c now d issued = do
  raise_if (not (same_document d (csrf_document c issued))) csrf_mismatch
  raise_if (ltb now issued || ltb (issued + s.csrf_token_ttl_seconds) now) csrf_expired
  ok tt

unfoldable pub verify_csrf_token :
    Sealing → Settings → AuthContext → Option String → ℕ → Raising Unit
verify_csrf_token sealing s c token now = do
  t ← or_raise token csrf_required
  payload ← or_raise (unsigned sealing.coding t) csrf_invalid
  d ← or_raise (sealing.loads payload) csrf_invalid
  issued ← or_raise (int_of (Dict.lookup String-discrete "iat" d)) csrf_invalid
  check_document s c now d issued

abbrev pub text_of : Option Json → Option String
text_of none = none
text_of (some (text t)) = some t
text_of (some _) = none

abbrev pub role_of : Option String → Option Role
role_of none = none
role_of (some t) =
    if holds (String-discrete t "creator")
    then some creator
    else if holds (String-discrete t "operator")
    then some operator
    else none

abbrev pub is_given : Option String → Bool
is_given none = false
is_given (some t) = not (holds (String-discrete t ""))

abbrev pub or_empty : Option String → String
or_empty none = ""
or_empty (some t) = t

-- `local_session_token`
unfoldable pub local_session_token : Sealing → Settings → AuthContext → ℕ → Raising String
local_session_token sealing s c issued = do
  raise_if (not (is_given c.platform_creator_id) || not (is_given c.session_id)) session_incomplete
  ok (
      with_prefix "bridge-v1" (
        signed sealing.coding (
          sealing.dumps (
            session_document c.creator_account_id c.principal_id (or_empty c.platform_creator_id)
              (or_empty c.session_id) c.role issued (issued + s.bridge_session_ttl_seconds)))))

-- The fields of a session, each read as the source converts it; a value that is no text would
-- differ from its text in the comparison that follows, with the same error.
abbrev pub field : Document → String → Raising String
field d key = or_raise (text_of (Dict.lookup String-discrete key d)) session_invalid

abbrev pub open_session : Document → ℕ → Raising AuthContext
open_session d now = do
  issued ← or_raise (int_of (Dict.lookup String-discrete "iat" d)) session_invalid
  expires ← or_raise (int_of (Dict.lookup String-discrete "exp" d)) session_invalid
  role ← or_raise (role_of (text_of (Dict.lookup String-discrete "role" d))) session_invalid
  principal ← field d "principal"
  account ← field d "account"
  platform ← field d "platform_creator"
  session ← field d "session"
  raise_if
      (not
        (same_document d (session_document account principal platform session role issued expires)))
      session_invalid
  raise_if (ltb now issued || leb expires now) session_expired
  ok (record {
    principal_id = principal;
    creator_account_id = account;
    role = role;
    platform_creator_id = some platform;
    session_id = some session;
    session_expires_at = some expires;
  })

-- `_decode_signed_document`
unfoldable pub decode_signed_document : Sealing → String → String → Raising Document
decode_signed_document sealing token prefix = do
  payload ← or_raise (unsigned_after sealing.coding prefix token) session_invalid
  or_raise (sealing.loads payload) session_invalid

-- `get_auth_context` for the session cookie
unfoldable pub get_auth_context : Sealing → Settings → Option String → ℕ → Raising AuthContext
unfolding decode_signed_document
get_auth_context sealing s none now =
    if is_development_context_allowed s then ok s.development_context else err session_required
get_auth_context sealing s (some token) now =
    decode_signed_document sealing token "bridge-v1" >>= λ d. open_session d now
