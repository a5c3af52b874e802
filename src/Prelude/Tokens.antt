-- ===== src/Prelude/Tokens.antt =====
-- Signed texts, as app/transport/manager.py and app/api/security.py write and read them: base64 of a
-- payload, a dot, and base64 of its signature. Bytes are texts here.
use Prim.Native.Nat.{ℕ, zero, suc, ◌-◌, ◌%◌}
use Prim.Native.Char.{Char, code}
use Prim.Native.String.{String, [], ◌∷◌, ◌++◌, count}
use Prim.Native.String.append
use mathlib.Core.Path.{◌≡◌, refl}
use mathlib.Core.Bool.{Bool}
use mathlib.Core.Option.{Option, none, some}
use mathlib.Core.Logic.{inl, inr}
use native.Mathlib.Omega.{arith}
use native.Mathlib.Decide.{ℕ_discrete}
use onlyfans_conversational.Prelude.Tests.{String-discrete, holds, if◌then◌else◌, Bool-cases}

-- The standard library's base64, which raises on some texts, and its hmac with the secret.
pub record Coding : Type 0 where
  pub urlsafe_b64encode : String → String
  pub urlsafe_b64decode : String → Option String
  pub digest : String → String

abbrev pub is_char : ℕ → Char → Bool
is_char n c = holds (ℕ_discrete (code c) n)

abbrev pub dot : Char
dot = "."

abbrev pub prepend : Char → Option (String × String) → Option (String × String)
prepend c none = none
prepend c (some (before, after)) = some (c ∷ before, after)

-- `text.split(".", 1)`; none where there is no dot.
unfoldable pub cut : String → Option (String × String)
cut [] = none
cut (c ∷ s) = let rest = cut s in if is_char 46 c then some ([], s) else prepend c rest

-- `rstrip(b"=")`
abbrev pub unless_pad : Char → String → String
unless_pad c [] = if is_char 61 c then [] else c ∷ []
unless_pad c (d ∷ s) = c ∷ d ∷ s

unfoldable pub rstrip : String → String
rstrip [] = []
rstrip (c ∷ s) = unless_pad c (rstrip s)

-- `_base64`
unfoldable pub base64 : Coding → String → String
base64 coding value = rstrip (coding.urlsafe_b64encode value)

unfoldable pub pads : ℕ → String
pads zero = []
pads (suc n) = "=" ++ pads n

-- `encoded + "=" * (-len(encoded) % 4)`
unfoldable pub padded : String → String
padded encoded = encoded ++ pads ((4 - count encoded % 4) % 4)

-- `f"{_base64(payload)}.{_base64(signature)}"`
unfoldable pub signed : Coding → String → String
signed coding payload = base64 coding payload ++ dot ∷ base64 coding (coding.digest payload)

-- `f"{prefix}.{...}"`
abbrev pub with_prefix : String → String → String
with_prefix prefix token = prefix ++ dot ∷ token

-- `hmac.compare_digest`
abbrev pub verified : Coding → Option String → Option String → Option String
verified coding (some payload) (some signature) =
    if holds (String-discrete signature (coding.digest payload)) then some payload else none
verified coding _ _ = none

abbrev pub opened_parts : Coding → Option (String × String) → Option String
opened_parts coding none = none
opened_parts coding (some (payload, signature)) =
    verified coding (coding.urlsafe_b64decode (padded payload))
      (coding.urlsafe_b64decode (padded signature))

-- The payload of a signed text, or none where the source raises.
unfoldable pub unsigned : Coding → String → Option String
unsigned coding token = opened_parts coding (cut token)

abbrev pub after_prefix : Coding → String → Option (String × String) → Option String
after_prefix coding prefix none = none
after_prefix coding prefix (some (actual, rest)) =
    if holds (String-discrete actual prefix) then unsigned coding rest else none

-- The same for one with a prefix before another dot: `token.split(".", 2)`.
unfoldable pub unsigned_after : Coding → String → String → Option String
unsigned_after coding prefix token = after_prefix coding prefix (cut token)

-- The text is a payload, a dot and the digest of this payload, both in base64.
abbrev pub IsSigned : Coding → String → String → Type 0
IsSigned coding token payload =
    (p : String) × (s : String) × (cut token ≡ some (p, s))
    × (coding.urlsafe_b64decode (padded p) ≡ some payload)
    × (coding.urlsafe_b64decode (padded s) ≡ some (coding.digest payload))

-- base64 of the text has no dot, and decodes to the text once it is padded again.
abbrev pub IsCoded : Coding → String → Type 0
IsCoded coding x =
    (coding.urlsafe_b64decode (padded (base64 coding x)) ≡ some x) × (cut (base64 coding x) ≡ none)

verified-digest :
    (coding : Coding) (p s : Option String) (payload : String)
    → verified coding p s ≡ some payload
    → (p ≡ some payload) × (s ≡ some (coding.digest payload))
verified-digest coding (some p) (some s) payload h = (ground (arith, h), ground (arith, h))
verified-digest coding none s payload h = absurd (ground (arith, h))
verified-digest coding (some p) none payload h = absurd (ground (arith, h))

parts-IsSigned :
    (coding : Coding) (token payload : String) (o : Option (String × String))
    → cut token ≡ o
    → opened_parts coding o ≡ some payload
    → IsSigned coding token payload
parts-IsSigned coding token payload none at h = absurd (ground (arith, h))
parts-IsSigned coding token payload (some (p, s)) at h =
    let (read, matching) = verified-digest coding _ _ payload h in (p, s, at, read, matching)

pub unsigned-IsSigned :
    (coding : Coding) (token payload : String)
    → unsigned coding token ≡ some payload
    → IsSigned coding token payload
unfolding unsigned
unsigned-IsSigned coding token payload h = parts-IsSigned coding token payload (cut token) refl h

prefix-IsSigned :
    (coding : Coding) (prefix payload : String) (o : Option (String × String))
    → after_prefix coding prefix o ≡ some payload
    → (rest : String) × (o ≡ some (prefix, rest)) × IsSigned coding rest payload
prefix-IsSigned coding prefix payload none h = absurd (ground (arith, h))
prefix-IsSigned coding prefix payload (some (actual, rest)) h =
    elim (Bool-cases (holds (String-discrete actual prefix))) [
      | inl same ↦
          let inner = unsigned-IsSigned coding rest payload (ground (arith, h, same)) in
          (rest, ground (arith, same), inner)
      | inr other ↦ absurd (ground (arith, h, other))
    ]

pub unsigned_after-IsSigned :
    (coding : Coding) (prefix token payload : String)
    → unsigned_after coding prefix token ≡ some payload
    → (rest : String) × (cut token ≡ some (prefix, rest)) × IsSigned coding rest payload
unfolding unsigned_after
unsigned_after-IsSigned coding prefix token payload h =
    prefix-IsSigned coding prefix payload (cut token) h

prepend-none : (c : Char) (o : Option (String × String)) → prepend c o ≡ none → o ≡ none
prepend-none c none h = refl
prepend-none c (some x) h = absurd (ground (arith, h))

-- A text without a dot, a dot, and anything.
pub cut-dot : (s t : String) → cut s ≡ none → cut (s ++ dot ∷ t) ≡ some (s, t)
unfolding cut ℕ_discrete
cut-dot [] t h = rw append.nil refl
cut-dot (c ∷ s) t h = elim (Bool-cases (is_char 46 c)) [
  | inl is_dot ↦ absurd (ground (arith, h, is_dot))
  | inr plain ↦
      let rest : cut s ≡ none = prepend-none c (cut s) (ground (arith, h, plain)) in
      rw (append.cons, plain, cut-dot s t rest) refl
]

pub unsigned-signed :
    (coding : Coding) (payload : String)
    → IsCoded coding payload
    → IsCoded coding (coding.digest payload)
    → unsigned coding (signed coding payload) ≡ some payload
unfolding unsigned signed
unsigned-signed coding payload body signature =
    rw
      (
        cut-dot (base64 coding payload) (base64 coding (coding.digest payload)) body.1,
        body.0,
        signature.0,
      )
      (ground arith)

pub unsigned_after-signed :
    (coding : Coding) (prefix payload : String)
    → cut prefix ≡ none
    → IsCoded coding payload
    → IsCoded coding (coding.digest payload)
    → unsigned_after coding prefix (with_prefix prefix (signed coding payload)) ≡ some payload
unfolding unsigned_after
unsigned_after-signed coding prefix payload plain body signature =
    rw (cut-dot prefix (signed coding payload) plain)
      (ground (arith, unsigned-signed coding payload body signature))
