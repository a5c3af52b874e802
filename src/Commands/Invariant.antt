-- ===== src/Commands/Invariant.antt =====
-- What holds of every command record between two calls of the service.
use onlyfans_conversational.Prelude.{
  ℕ, ◌+◌, String, ℕ_discrete, Option, none, some, List, [], ◌∷◌, ◌++◌, Bool, true, false, All,
  All-append, get_last?, get_last?-snoc, ◌≡◌, inl, inr, refl, arith, Bool-cases,
}
use onlyfans_conversational.Prelude.Entries.{All-insert, All-lookup}
use onlyfans_conversational.Commands.Types.{
  CommandState, CommandRecord, CommandTransition, CommandResultRecord, CommandResultReceipt,
  Repository, ResultPayload,
}
use onlyfans_conversational.Commands.Repository.{get, save}
use onlyfans_conversational.Commands.Service.{transition, reason_for, is_some}
use onlyfans_conversational.Commands.Results.{result_record, state_of, is_late, with_receipt}

-- The state that the audit log ends in.
abbrev pub logged : Option CommandTransition → Option CommandState
logged none = none
logged (some t) = some t.state

-- No result, no receipt; else one receipt that counts, and duplicates after it.
abbrev pub IsReceipted : Option CommandResultRecord → List CommandResultReceipt → Type 0
IsReceipted none receipts = receipts ≡ []
IsReceipted (some r) [] = ⊥
IsReceipted (some r) (first ∷ rest) =
    (first.is_duplicate ≡ false) × All (λ x. x.is_duplicate ≡ true) rest

abbrev pub applied_count : Option CommandResultRecord → ℕ
applied_count none = 0
applied_count (some r) = 1

-- The states that only an Agent's result leads to.
abbrev pub is_reported : CommandState → Bool
is_reported CommandState.accepted = true
is_reported CommandState.succeeded = true
is_reported _ = false

pub record IsRecord (c : CommandRecord) : Type 0 where
  pub last_logged : logged (get_last? c.transitions) ≡ some c.state
  pub counted : c.result_apply_count ≡ applied_count c.result
  pub receipted : IsReceipted c.result c.receipts
  pub reason_late : is_late c.state ≡ false → c.failure_reason ≡ none
  pub reported_result : is_reported c.state ≡ true → is_some c.result ≡ true
  pub delivered : c.connection_id ≡ none → c.delivery_attempts ≡ 0

abbrev pub IsStored : ℕ × CommandRecord → Type 0
IsStored e = (e.1.command_id ≡ e.0) × IsRecord e.1

abbrev pub IsValid : Repository → Type 0
IsValid r = All IsStored r

reason_for-none :
    (state : CommandState) (detail : Option String)
    → is_late state ≡ false
    → reason_for state detail ≡ none
reason_for-none state detail h = ground arith

-- A move to a state that no result is needed for keeps a record.
pub transition-IsRecord :
    (c : CommandRecord) (state : CommandState) (at : ℕ) (detail : Option String)
    → IsRecord c
    → is_reported state ≡ false
    → IsRecord (transition c state at detail)
unfolding transition
transition-IsRecord c state at detail h free = record {
  last_logged = rw get_last?-snoc;
  counted = h.counted;
  receipted = h.receipted;
  reason_late = reason_for-none state detail;
  reported_result = λ e. cc (free, e);
  delivered = h.delivered;
}

pub save-IsValid :
    (r : Repository) (c : CommandRecord) → IsValid r → IsRecord c → IsValid (save r c)
unfolding save
save-IsValid r c v h = All-insert ℕ_discrete IsStored c.command_id c r (refl, h) v

pub get-IsRecord :
    (r : Repository) (k : ℕ) (c : CommandRecord)
    → IsValid r
    → get r k ≡ some c
    → (c.command_id ≡ k) × IsRecord c
unfolding get
get-IsRecord r k c v e = All-lookup ℕ_discrete (λ j x. (x.command_id ≡ j) × IsRecord x) k c r v e

-- The record with its first result, before any move.
abbrev first_result : CommandRecord → ResultPayload → ℕ → CommandRecord
first_result c p received = record c {
  result = some (result_record p received);
  result_apply_count = c.result_apply_count + 1;
}

abbrev receipt : CommandRecord → ResultPayload → ℕ → CommandResultReceipt
receipt c p received = record {
  result_id = p.result_id;
  received_at = received;
  is_duplicate = is_some c.result;
  is_late = is_late c.state;
}

-- A further result only adds a receipt.
pub with_receipt-known :
    (c : CommandRecord) (p : ResultPayload) (received : ℕ)
    → is_some c.result ≡ true
    → with_receipt c p received ≡ record c { receipts = c.receipts ++ receipt c p received ∷ [] }
unfolding with_receipt
with_receipt-known c p received known = rw known

-- A first result that comes late is kept, and moves nothing.
pub with_receipt-late :
    (c : CommandRecord) (p : ResultPayload) (received : ℕ)
    → is_some c.result ≡ false
    → is_late c.state ≡ true
    → with_receipt c p received
      ≡ record (first_result c p received) { receipts = c.receipts ++ receipt c p received ∷ [] }
unfolding with_receipt
with_receipt-late c p received new late = rw (new, late)

-- A first result in time is kept, and moves the record to its status.
pub with_receipt-live :
    (c : CommandRecord) (p : ResultPayload) (received : ℕ)
    → is_some c.result ≡ false
    → is_late c.state ≡ false
    → with_receipt c p received
      ≡ record (transition (first_result c p received) (state_of p.status) received none) {
        receipts = c.receipts ++ receipt c p received ∷ [];
      }
unfolding with_receipt transition
with_receipt-live c p received new live = rw (new, live)

IsReceipted-more :
    (o : Option CommandResultRecord) (xs : List CommandResultReceipt) (x : CommandResultReceipt)
    → IsReceipted o xs
    → is_some o ≡ true
    → x.is_duplicate ≡ true
    → IsReceipted o (xs ++ x ∷ [])
IsReceipted-more none xs x h known d = cc
IsReceipted-more (some r) [] x h known d = elim h [ ]
IsReceipted-more (some r) (first ∷ rest) x h known d =
    (h.0, All-append (λ y. y.is_duplicate ≡ true) rest (x ∷ []) h.1 (d, tt))

IsReceipted-first :
    (o : Option CommandResultRecord) (r : CommandResultRecord) (xs : List CommandResultReceipt)
    (x : CommandResultReceipt)
    → IsReceipted o xs
    → is_some o ≡ false
    → x.is_duplicate ≡ false
    → IsReceipted (some r) (xs ++ x ∷ [])
IsReceipted-first none r xs x h new d = rw h (d, tt)
IsReceipted-first (some s) r xs x h new d = cc

count_new : (o : Option CommandResultRecord) → is_some o ≡ false → applied_count o ≡ 0
count_new none h = refl
count_new (some r) h = cc

-- Recording a result keeps a record, whatever was recorded before.
pub with_receipt-IsRecord :
    (c : CommandRecord) (p : ResultPayload) (received : ℕ)
    → IsRecord c
    → IsRecord (with_receipt c p received)
with_receipt-IsRecord c p received h = elim (Bool-cases (is_some c.result)) [
  | inl known ↦ rw (with_receipt-known c p received known) (record {
    last_logged = h.last_logged;
    counted = h.counted;
    receipted = IsReceipted-more c.result c.receipts (receipt c p received) h.receipted known known;
    reason_late = h.reason_late;
    reported_result = h.reported_result;
    delivered = h.delivered;
  })
  | inr new ↦
      let one : c.result_apply_count + 1 ≡ 1 = omega (arith, h.counted, count_new c.result new) in
      elim (Bool-cases (is_late c.state)) [
        | inl late ↦ rw (with_receipt-late c p received new late) (record {
          last_logged = h.last_logged;
          counted = one;
          receipted =
              IsReceipted-first c.result (result_record p received) c.receipts
                (receipt c p received) h.receipted new new;
          reason_late = h.reason_late;
          reported_result = λ e. refl;
          delivered = h.delivered;
        })
        | inr live ↦ rw (with_receipt-live c p received new live) (
            unfold transition in
            record {
              last_logged = rw get_last?-snoc;
              counted = one;
              receipted =
                  IsReceipted-first c.result (result_record p received) c.receipts
                    (receipt c p received) h.receipted new new;
              reason_late = reason_for-none (state_of p.status) none;
              reported_result = λ e. refl;
              delivered = h.delivered;
            })
      ]
]
