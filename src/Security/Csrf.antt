-- ===== src/Security/Csrf.antt =====
-- Whom a CSRF token of app/api/security.py is good for, and what a session cookie opens.
use onlyfans_conversational.Prelude.{
  ℕ, ◌+◌, ◌≤◌, String, String-discrete, Option, some, Bool, true, ◌≡◌, ◌↔◌, refl, ◌&&◌, ◌||◌, holds,
  ltb, Bool-cases, inl, inr, arith, ok, none, err, Result, Ensures, Ensures-then,
}
use onlyfans_conversational.Prelude.Dict
use onlyfans_conversational.Prelude.Tokens.{
  IsCoded, IsSigned, unsigned, unsigned-IsSigned, unsigned-signed,
}
use onlyfans_conversational.Security.Sessions.{
  Json, text, number, AuthContext, Settings, Sealing, role_text, text_or_null, same_json, has_all,
  same_document, csrf_document, csrf_token, check_document, verify_csrf_token, Document,
  SecurityError, or_raise, int_of,
}

-- The two contexts agree on what a CSRF token binds.
abbrev pub same_binding : AuthContext → AuthContext → Bool
same_binding c d =
    holds (String-discrete c.creator_account_id d.creator_account_id)
    && (same_json (text_or_null c.session_id) (text_or_null d.session_id)
        && (holds (String-discrete c.principal_id d.principal_id)
            && holds (String-discrete (role_text c.role) (role_text d.role))))

-- What a CSRF document holds.
module _ (c : AuthContext) (issued : ℕ) where
  abbrev at : String → Option Json
  at key = Dict.lookup String-discrete key (csrf_document c issued)

  found_issued : at "iat" ≡ some (number issued)
  unfolding Dict.lookup String-discrete
  found_issued = refl

  found_account : at "account" ≡ some (text c.creator_account_id)
  unfolding Dict.lookup String-discrete
  found_account = refl

  found_session : at "session" ≡ some (text_or_null c.session_id)
  unfolding Dict.lookup String-discrete
  found_session = refl

  found_principal : at "principal" ≡ some (text c.principal_id)
  unfolding Dict.lookup String-discrete
  found_principal = refl

  found_role : at "role" ≡ some (text (role_text c.role))
  unfolding Dict.lookup String-discrete
  found_role = refl

  found_version : at "v" ≡ some (number 1)
  unfolding Dict.lookup String-discrete
  found_version = refl

document-binding :
    (c d : AuthContext) (issued : ℕ)
    → same_document (csrf_document c issued) (csrf_document d issued) ≡ same_binding c d
unfolding same_document has_all
document-binding c d issued =
    rw
      (
        found_account c issued,
        found_issued c issued,
        found_session c issued,
        found_principal c issued,
        found_role c issued,
        found_version c issued,
      )
      (ground arith)

check-binding :
    (s : Settings) (c d : AuthContext) (issued now : ℕ)
    → (check_document s d now (csrf_document c issued) issued ≡ ok tt)
      ↔ ((same_binding c d ≡ true) × (issued ≤ now) × (now ≤ issued + s.csrf_token_ttl_seconds))
check-binding s c d issued now =
    rw (document-binding c d issued) (elim (Bool-cases (same_binding c d)) [
      | inr foreign ↦ rw foreign ((λ h. cc), λ h. cc)
      | inl own ↦
          elim (Bool-cases (ltb now issued || ltb (issued + s.csrf_token_ttl_seconds) now)) [
            | inl late ↦ rw (own, late) ((λ h. cc), λ h. absurd (ground (arith, late, h)))
            | inr timely ↦
                rw (own, timely)
                  ((λ h. (refl, ground (arith, timely), ground (arith, timely))), λ h. refl)
          ]
    ])

-- The token is a payload with the signature that the secret gives it; the payload reads as the
-- context's own document of some time, which lies within the lifetime before `now`.
abbrev pub IsAuthentic : Sealing → Settings → AuthContext → String → ℕ → Type 0
IsAuthentic sealing s d token now =
    (payload : String) × (document : Document) × (issued : ℕ) × IsSigned sealing.coding token
      payload
    × (sealing.loads payload ≡ some document)
    × (same_document document (csrf_document d issued) ≡ true)
    × (issued ≤ now)
    × (now ≤ issued + s.csrf_token_ttl_seconds)

Ensures-map :
    {E A : Type 0} {P Q : Type 0} (r : Result E A)
    → Ensures (λ _. P) r
    → (P → Q)
    → Ensures (λ _. Q) r
Ensures-map (ok a) p f = f p
Ensures-map (err e) p f = tt

or_raise-some :
    {A : Type 0} (o : Option A) (e : SecurityError) (a : A) → or_raise o e ≡ ok a → o ≡ some a
or_raise-some none e a h = absurd (ground (arith, h))
or_raise-some (some x) e a h = ground (arith, h)

check-timely :
    (s : Settings) (d : AuthContext) (document : Document) (issued now : ℕ)
    → Ensures
        (λ _.
          (same_document document (csrf_document d issued) ≡ true)
          × (issued ≤ now)
          × (now ≤ issued + s.csrf_token_ttl_seconds))
        (check_document s d now document issued)
check-timely s d document issued now =
    elim (Bool-cases (same_document document (csrf_document d issued))) [
      | inr foreign ↦ rw foreign tt
      | inl own ↦
          elim (Bool-cases (ltb now issued || ltb (issued + s.csrf_token_ttl_seconds) now)) [
            | inl late ↦ rw (own, late) tt
            | inr timely ↦ rw (own, timely) (refl, ground (arith, timely), ground (arith, timely))
          ]
    ]

verify_csrf_token-IsAuthentic :
    (sealing : Sealing) (s : Settings) (d : AuthContext) (token : String) (now : ℕ)
    → Ensures
        (λ _. IsAuthentic sealing s d token now)
        (verify_csrf_token sealing s d (some token) now)
unfolding verify_csrf_token
verify_csrf_token-IsAuthentic sealing s d token now =
    let opened = unsigned sealing.coding token in
    Ensures-then _ (or_raise opened SecurityError.csrf_invalid) _ λ payload readable.
      Ensures-then _ (or_raise (sealing.loads payload) SecurityError.csrf_invalid) _
        λ document loaded.
          let found = int_of (Dict.lookup String-discrete "iat" document) in
          Ensures-then _ (or_raise found SecurityError.csrf_invalid) _ λ issued dated.
            let genuine =
              unsigned-IsSigned sealing.coding token payload
                (or_raise-some opened SecurityError.csrf_invalid payload readable) in
            let read =
              or_raise-some (sealing.loads payload) SecurityError.csrf_invalid document loaded in
            Ensures-map (check_document s d now document issued)
              (check-timely s d document issued now)
              λ (own, begun, live). (payload, document, issued, genuine, read, own, begun, live)

-- If json reads a context's document back from what it wrote with sorted keys, and base64 writes this
-- text and its digest without a dot and reads them back, a CSRF token that was issued for one context verifies for
-- another exactly when both have the same account, session, principal and role, and the time is
-- neither before it was issued nor past its lifetime; and any other token that verifies is a payload
-- with its signature under the secret, which reads as the context's document within its lifetime.
pub verify_csrf_token-csrf_token :
    (sealing : Sealing) (s : Settings) (c d : AuthContext) (issued now : ℕ) (token : String)
    → sealing.loads (sealing.dumps (csrf_document c issued)) ≡ some (csrf_document c issued)
    → IsCoded sealing.coding (sealing.dumps (csrf_document c issued))
    → IsCoded sealing.coding (sealing.coding.digest (sealing.dumps (csrf_document c issued)))
    → ((verify_csrf_token sealing s d (some (csrf_token sealing c issued)) now ≡ ok tt)
        ↔ ((same_binding c d ≡ true) × (issued ≤ now) × (now ≤ issued + s.csrf_token_ttl_seconds)))
      × Ensures
          (λ _. IsAuthentic sealing s d token now)
          (verify_csrf_token sealing s d (some token) now)
unfolding verify_csrf_token csrf_token
verify_csrf_token-csrf_token sealing s c d issued now token reads body signature =
    let payload = sealing.dumps (csrf_document c issued) in
    (
      rw (unsigned-signed sealing.coding payload body signature, reads, found_issued c issued)
          (check-binding s c d issued now),
      verify_csrf_token-IsAuthentic sealing s d token now,
    )
