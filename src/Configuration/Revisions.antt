-- ===== src/Configuration/Revisions.antt =====
-- `config-N` revisions (app/services/agent_configuration.py). Digits are the ASCII ones.
use onlyfans_conversational.Prelude.{
  ℕ, zero, suc, ◌+◌, ◌-◌, ◌*◌, ◌/◌, ◌%◌, ◌≤◌, ℕ_discrete, Option, none, some, List, [], ◌∷◌, ◌++◌,
  Bool, true, false, ◌&&◌, ◌||◌, not, ltb, leb, holds, if◌then◌else◌, ok, err, ◌≡◌, refl, arith,
  Bool-cases, inl, inr, ◌≢◌,
}
use onlyfans_conversational.Configuration.Types.{
  Revision, Revision-discrete, malformed_revision, Raising,
}

-- "config", "-" and "0", as code points.
abbrev pub config_prefix : Revision
config_prefix = 99 ∷ 111 ∷ 110 ∷ 102 ∷ 105 ∷ 103 ∷ []

abbrev pub separator : ℕ
separator = 45

-- `revision.rpartition("-")`; none where there is no separator.
abbrev pub extend : ℕ → List ℕ → Option (List ℕ × List ℕ) → Option (List ℕ × List ℕ)
extend c cs none = if holds (ℕ_discrete c separator) then some ([], cs) else none
extend c cs (some (before, after)) = some (c ∷ before, after)

unfoldable pub rpartition : List ℕ → Option (List ℕ × List ℕ)
rpartition [] = none
rpartition (c ∷ cs) = extend c cs (rpartition cs)

abbrev pub is_digit : ℕ → Bool
is_digit c = leb 48 c && leb c 57

unfoldable pub all_digits : List ℕ → Bool
all_digits [] = true
all_digits (c ∷ cs) = is_digit c && all_digits cs

-- `value.isdigit()`
abbrev pub isdigit : List ℕ → Bool
isdigit [] = false
isdigit (c ∷ cs) = all_digits (c ∷ cs)

-- `int(value)` on digits, from the left.
unfoldable pub int_from : ℕ → List ℕ → ℕ
int_from n [] = n
int_from n (c ∷ cs) = int_from (n * 10 + (c - 48)) cs

abbrev pub sequence_of : Option (List ℕ × List ℕ) → Raising ℕ
sequence_of none = err malformed_revision
sequence_of (some (before, value)) =
    if not (holds (Revision-discrete before config_prefix)) || not (isdigit value)
    then err malformed_revision
    else ok (int_from 0 value)

-- `_config_revision_sequence`
unfoldable pub revision_sequence : Revision → Raising ℕ
revision_sequence revision = sequence_of (rpartition revision)

-- `str(n)`, on fuel: `n` itself is enough.
unfoldable pub digits : ℕ → ℕ → List ℕ
digits zero n = (48 + n % 10) ∷ []
digits (suc fuel) n =
    let rest = digits fuel (n / 10) in
    if ltb n 10 then (48 + n) ∷ [] else rest ++ (48 + n % 10) ∷ []

-- `f"config-{n}"`
unfoldable pub revision_of : ℕ → Revision
revision_of n = config_prefix ++ separator ∷ digits n n

int_from-snoc : (n c : ℕ) (cs : List ℕ) → int_from n (cs ++ c ∷ []) ≡ int_from n cs * 10 + (c - 48)
unfolding int_from
int_from-snoc n c [] = refl
int_from-snoc n c (d ∷ cs) = int_from-snoc (n * 10 + (d - 48)) c cs

int_from-digits : (fuel n : ℕ) → n ≤ fuel → int_from 0 (digits fuel n) ≡ n
unfolding digits int_from
int_from-digits zero n enough = omega arith
int_from-digits (suc fuel) n enough = elim (Bool-cases (ltb n 10)) [
  | inl small ↦ rw small (omega arith)
  | inr large ↦
      let rest = int_from-digits fuel (n / 10) (ground (arith, large)) in
      let joined = int_from-snoc 0 (48 + n % 10) (digits fuel (n / 10)) in
      rw large (omega (arith, rest, joined))
]

all_digits-snoc :
    (c : ℕ) (cs : List ℕ)
    → all_digits cs ≡ true
    → is_digit c ≡ true
    → all_digits (cs ++ c ∷ []) ≡ true
unfolding all_digits
all_digits-snoc c [] h one = ground arith
all_digits-snoc c (d ∷ cs) h one = ground (arith, all_digits-snoc c cs)

all_digits-digits : (fuel n : ℕ) → all_digits (digits fuel n) ≡ true
unfolding digits all_digits
all_digits-digits zero n = ground arith
all_digits-digits (suc fuel) n = elim (Bool-cases (ltb n 10)) [
  | inl small ↦ ground (arith, small)
  | inr large ↦ rw large (
      all_digits-snoc (48 + n % 10) (digits fuel (n / 10)) (all_digits-digits fuel (n / 10))
        (ground arith))
]

rpartition-digits : (cs : List ℕ) → all_digits cs ≡ true → rpartition cs ≡ none
unfolding rpartition all_digits
rpartition-digits [] h = refl
rpartition-digits (c ∷ cs) h = ground (arith, rpartition-digits cs)

append-some : (cs : List ℕ) (c : ℕ) → cs ++ c ∷ [] ≢ []
append-some [] c = λ e. cc
append-some (d ∷ cs) c = λ e. cc

digits-some : (fuel n : ℕ) → digits fuel n ≢ []
unfolding digits
digits-some zero n = λ e. cc
digits-some (suc fuel) n = elim (Bool-cases (ltb n 10)) [
  | inl small ↦ rw small (λ e. cc)
  | inr large ↦ rw large (append-some (digits fuel (n / 10)) (48 + n % 10))
]

isdigit_of_some : (cs : List ℕ) → cs ≢ [] → all_digits cs ≡ true → isdigit cs ≡ true
isdigit_of_some [] some_digit h = absurd (some_digit refl)
isdigit_of_some (c ∷ cs) some_digit h = h

isdigit-digits : (fuel n : ℕ) → isdigit (digits fuel n) ≡ true
isdigit-digits fuel n =
    isdigit_of_some (digits fuel n) (digits-some fuel n) (all_digits-digits fuel n)

rpartition-revision_of : (n : ℕ) → rpartition (revision_of n) ≡ some (config_prefix, digits n n)
unfolding rpartition revision_of ℕ_discrete
rpartition-revision_of n = rw (rpartition-digits (digits n n) (all_digits-digits n n)) refl

-- Printing a sequence as a revision and reading it back gives the sequence.
pub revision_sequence-revision_of : (n : ℕ) → revision_sequence (revision_of n) ≡ ok n
unfolding revision_sequence
revision_sequence-revision_of n =
    ground (arith, rpartition-revision_of n, isdigit-digits n n, int_from-digits n n (omega arith))
