-- ===== src/Commands/Recording.antt =====
-- What recording a result does to the audit log: at most one result counts.
use onlyfans_conversational.Prelude.{
  ℕ, String-discrete, ℕ_discrete, some, [], ◌∷◌, ◌++◌, true, ◌||◌, ◌≡◌, ◌≢◌, refl, ok, err, arith,
  if◌then◌else◌, Ensures, inl, inr, ◌⊎◌,
}
use onlyfans_conversational.Prelude.Dict.{lookup-insert}
use onlyfans_conversational.Commands.Types.{
  accepted, CommandRecord, CommandResultReceipt, Repository, ResultPayload, RecordedResult,
  account_conflict,
}
use onlyfans_conversational.Commands.Repository.{get, save}
use onlyfans_conversational.Commands.Service.{transition, is_some}
use onlyfans_conversational.Commands.Results.{
  result_record, state_of, is_late, with_receipt, record_for, record_result, answer,
}
use onlyfans_conversational.Commands.Invariant.{IsValid, get-IsRecord}

-- How the record differs after a result: an independent description.
pub record Recorded (c d : CommandRecord) (p : ResultPayload) (received : ℕ) : Type 0 where
  pub same_id : d.command_id ≡ c.command_id
  pub same_account : d.creator_account_id ≡ c.creator_account_id
  pub state : d.state ≡ (if is_some c.result || is_late c.state then c.state else state_of p.status)
  pub result : d.result ≡ (if is_some c.result then c.result else some (result_record p received))
  pub one_receipt :
      (x : CommandResultReceipt) × (d.receipts ≡ c.receipts ++ x ∷ [])
      × (x.is_duplicate ≡ is_some c.result)
      × (x.is_late ≡ is_late c.state)

with_receipt-Recorded :
    (c : CommandRecord) (p : ResultPayload) (received : ℕ)
    → Recorded c (with_receipt c p received) p received
unfolding with_receipt transition
with_receipt-Recorded c p received = record {
  same_id = ground arith;
  same_account = ground arith;
  state = ground arith;
  result = ground arith;
  one_receipt = (
    record {
      result_id = p.result_id;
      received_at = received;
      is_duplicate = is_some c.result;
      is_late = is_late c.state;
    },
    ground arith,
    refl,
    refl,
  );
}

-- What a result for a stored command of the same account does.
pub record ResultOf (r : Repository) (c : CommandRecord) (p : ResultPayload) (received : ℕ)
    (x : RecordedResult × Repository) : Type 0 where
  pub after : CommandRecord
  pub stored : get x.1 p.command_id ≡ some after
  pub recorded : Recorded c after p received
  pub others : (k : ℕ) → k ≢ p.command_id → get x.1 k ≡ get r k
  pub duplicate : x.0.is_duplicate ≡ is_some c.result
  pub late : x.0.is_late ≡ is_late c.state

with_receipt-command_id :
    (c : CommandRecord) (p : ResultPayload) (received : ℕ)
    → (with_receipt c p received).command_id ≡ c.command_id
unfolding with_receipt transition
with_receipt-command_id c p received = ground arith

pub ResultOf-stored :
    (r : Repository) (c : CommandRecord) (p : ResultPayload) (received : ℕ)
    → c.command_id ≡ p.command_id
    → ResultOf r c p received (answer c p received, save r (with_receipt c p received))
unfolding get save
ResultOf-stored r c p received same = record {
  after = with_receipt c p received;
  stored =
      let home : (with_receipt c p received).command_id ≡ p.command_id =
        ground (arith, with_receipt-command_id c p received) in
      ground (
        arith,
        home,
        lookup-insert ℕ_discrete p.command_id (with_receipt c p received).command_id
            (with_receipt c p received) r,
      );
  recorded = with_receipt-Recorded c p received;
  others = λ k other.
      let home : (with_receipt c p received).command_id ≡ p.command_id =
        ground (arith, with_receipt-command_id c p received) in
      ground (
        arith,
        home,
        lookup-insert ℕ_discrete k (with_receipt c p received).command_id
            (with_receipt c p received) r,
      );
  duplicate = refl;
  late = refl;
}

pub record_result-ResultOf :
    (r : Repository) (p : ResultPayload) (received : ℕ) (c : CommandRecord)
    → IsValid r
    → get r p.command_id ≡ some c
    → ((c.creator_account_id ≡ p.creator_account_id)
        × (x : RecordedResult × Repository) × (record_result r p received ≡ ok x)
        × ResultOf r c p received x)
      ⊎ ((c.creator_account_id ≢ p.creator_account_id)
          × (record_result r p received ≡ err account_conflict))
unfolding record_result record_for
record_result-ResultOf r p received c v found =
    elim (String-discrete c.creator_account_id p.creator_account_id) [
      | yes same ↦ inl (
        same,
        (answer c p received, save r (with_receipt c p received)),
        ground (arith, found, same),
        ResultOf-stored r c p received (get-IsRecord r p.command_id c v found).0,
      )
      | no other ↦ inr (other, ground (arith, found, other))
    ]

-- On a valid repository, a command that an Agent has accepted stays accepted, whatever result is recorded for it: the
-- result that accepted it is the one that counts.
pub record_result-accepted :
    (r : Repository) (p : ResultPayload) (received : ℕ) (c : CommandRecord)
    → IsValid r
    → get r p.command_id ≡ some c
    → c.state ≡ accepted
    → Ensures
        (λ x. (d : CommandRecord) × (get x.1 p.command_id ≡ some d) × (d.state ≡ accepted))
        (record_result r p received)
record_result-accepted r p received c v found taken =
    elim (record_result-ResultOf r p received c v found) [
      | inl (same, x, runs, h) ↦
          let had : is_some c.result ≡ true =
            (get-IsRecord r p.command_id c v found).1.reported_result (rw taken refl) in
          rw runs (h.after, h.stored, rw (h.recorded.state, had) taken)
      | inr (other, runs) ↦ rw runs tt
    ]
