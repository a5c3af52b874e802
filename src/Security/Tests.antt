-- ===== src/Security/Tests.antt =====
-- An instance of each theorem on the sessions and the CSRF tokens.
use onlyfans_conversational.Prelude.{
  ◌≤◌, String, String-discrete, none, some, true, ◌≡◌, ◌↔◌, refl, ok, Ensures, err, ℕ_discrete,
}
use onlyfans_conversational.Prelude.Tokens.{IsCoded, base64, rstrip, padded, pads, cut, unsigned}
use onlyfans_conversational.Security.Sessions.{
  Document, creator, AuthContext, Settings, Sealing, csrf_document, csrf_token, verify_csrf_token,
  local_session_token, get_auth_context, csrf_invalid,
}
use onlyfans_conversational.Security.Csrf.{same_binding, IsAuthentic, verify_csrf_token-csrf_token}
use onlyfans_conversational.Security.Cookies.{
  opened_at, session_of, get_auth_context-local_session_token,
}

abbrev context : AuthContext
context = record {
  principal_id = "p";
  creator_account_id = "acct";
  role = creator;
  platform_creator_id = some "of";
  session_id = some "s1";
  session_expires_at = none;
}

abbrev settings : Settings
settings = record {
  websocket_auth_mode = "webauthn";
  environment = "production";
  websocket_bind_host = "127.0.0.1";
  bridge_session_ttl_seconds = 60;
  csrf_token_ttl_seconds = 30;
  development_context = context;
}

-- A signing that knows one document, with texts that base64 keeps.
abbrev signing : Document → Sealing
signing d = record {
  coding = record {
    urlsafe_b64encode = λ x. x;
    urlsafe_b64decode = λ x. some x;
    digest = λ x. "sign";
  };
  dumps = λ _. "json";
  loads = λ _. some d;
}

payload-IsCoded : (d : Document) → IsCoded (signing d).coding "json"
unfolding base64 rstrip padded pads cut ℕ_discrete
payload-IsCoded d = (refl, refl)

digest-IsCoded : (d : Document) → IsCoded (signing d).coding "sign"
unfolding base64 rstrip padded pads cut ℕ_discrete
digest-IsCoded d = (refl, refl)

altered :
    verify_csrf_token (signing (csrf_document context 100)) settings context (some "json.sigh") 110
    ≡ err csrf_invalid
unfolding verify_csrf_token unsigned padded pads cut ℕ_discrete String-discrete
altered = refl

abbrev tokens : Sealing
tokens = signing (csrf_document context 100)

verify_csrf_token-csrf_token_example :
    ((verify_csrf_token tokens settings context (some (csrf_token tokens context 100)) 110 ≡ ok tt)
      ↔ ((same_binding context context ≡ true) × (100 ≤ 110) × (110 ≤ 130)))
    × Ensures
        (λ _. IsAuthentic tokens settings context "json.sign" 110)
        (verify_csrf_token tokens settings context (some "json.sign") 110)
verify_csrf_token-csrf_token_example =
    verify_csrf_token-csrf_token tokens settings context context 100 110 "json.sign" refl
      (payload-IsCoded (csrf_document context 100)) (digest-IsCoded (csrf_document context 100))

abbrev cookies : Sealing
cookies = signing (session_of settings context "of" "s1" 100)

get_auth_context-local_session_token_example :
    (token : String) × (local_session_token cookies settings context 100 ≡ ok token)
    × (get_auth_context cookies settings (some token) 110 ≡ opened_at context 100 160 110)
unfolding String-discrete
get_auth_context-local_session_token_example =
    get_auth_context-local_session_token cookies settings context "of" "s1" 100 110 refl refl refl
      refl refl (payload-IsCoded (session_of settings context "of" "s1" 100))
      (digest-IsCoded (session_of settings context "of" "s1" 100))
