-- ===== src/Commands/Preservation.antt =====
-- Every call of the service keeps the repository valid.
use onlyfans_conversational.Prelude.{
  ℕ, ◌+◌, String, String-discrete, ℕ_discrete, Option, none, some, List, [], ◌∷◌, Bool, true, false,
  All, ◌≡◌, refl, ok, Ensures, Ensures-if, Ensures-then, arith, leb, not, holds, Bool-cases,
  raise_if, inl, inr,
}
use onlyfans_conversational.Prelude.Dict
use onlyfans_conversational.Prelude.Dict.{lookup-insert_self}
use onlyfans_conversational.Commands.Types.{
  CommandState, failed, unknown, CommandRecord, CommandDeliveryTarget, CommandSender,
  ExecutePayload, Repository, Validator, ResultPayload, MessageSendAction, policy_required,
  already_exists, policy_forbids_reissue, not_reissuable,
}
use onlyfans_conversational.Commands.Repository.{get, save, list}
use onlyfans_conversational.Commands.Service.{
  transition, required, save_and_get, after_delivery, deliver, execute_payload, new_record,
  IssueRequest, issue, reissue, reissuable, validate_action, validate_deadline, is_some,
}
use onlyfans_conversational.Commands.Results.{
  orphan_record, record_for, with_receipt, record_result, is_due, expired_record, expire_each,
  expire,
}
use onlyfans_conversational.Commands.Invariant.{
  IsRecord, IsValid, transition-IsRecord, save-IsValid, get-IsRecord, with_receipt-IsRecord,
  is_reported,
}

pub save_and_get-eq : (r : Repository) (c : CommandRecord) → save_and_get r c ≡ ok (c, save r c)
unfolding save_and_get get save
save_and_get-eq r c = ground (arith, lookup-insert_self ℕ_discrete c.command_id c r)

-- What a call returns: a record that is well formed and stored as returned.
abbrev pub IsSaved : ℕ → CommandRecord × Repository → Type 0
IsSaved k x = (x.0.command_id ≡ k) × IsRecord x.0 × IsValid x.1 × (get x.1 k ≡ some x.0)

save_and_get-IsSaved :
    (r : Repository) (c : CommandRecord)
    → IsValid r
    → IsRecord c
    → Ensures (IsSaved c.command_id) (save_and_get r c)
save_and_get-IsSaved r c v h = rw (save_and_get-eq r c) (
  refl,
  h,
  save-IsValid r c v h,
  unfold get save in lookup-insert_self ℕ_discrete c.command_id c r,
)

-- What other tasks do while a delivery is awaited keeps the repository valid.
abbrev pub Keeps : CommandSender → Type 0
Keeps sender = (p : ExecutePayload) (r : Repository) → IsValid r → IsValid (sender p r).1

abbrev pub KeepsAny : Option CommandSender → Type 0
KeepsAny none = Unit
KeepsAny (some sender) = Keeps sender

transition-IsSaved :
    (r : Repository) (c : CommandRecord) (state : CommandState) (at : ℕ) (detail : Option String)
    → IsValid r
    → IsRecord c
    → is_reported state ≡ false
    → Ensures (IsSaved c.command_id) (save_and_get r (transition c state at detail))
unfolding transition
transition-IsSaved r c state at detail v h free =
    save_and_get-IsSaved r (transition c state at detail) v
      (transition-IsRecord c state at detail h free)

-- The record as it is sent out.
abbrev pub sent_record : CommandRecord → CommandDeliveryTarget → ℕ → CommandRecord
sent_record c target attempts = record c {
  connection_id = some target.connection_id;
  fencing_token = some target.fencing_token;
  delivery_attempts = attempts;
}

sent_record-IsRecord :
    (c : CommandRecord) (target : CommandDeliveryTarget) (attempts : ℕ)
    → IsRecord c
    → IsRecord (sent_record c target attempts)
sent_record-IsRecord c target attempts h = record {
  last_logged = h.last_logged;
  counted = h.counted;
  receipted = h.receipted;
  reason_late = h.reason_late;
  reported_result = h.reported_result;
  delivered = λ e. cc;
}

after_delivery-IsSaved :
    (c : CommandRecord) (later : ℕ) (x : Bool × Repository)
    → IsRecord c
    → IsValid x.1
    → Ensures (IsSaved c.command_id) (after_delivery c later x)
unfolding after_delivery
after_delivery-IsSaved c later (true, r) h v =
    transition-IsSaved r c failed later (some "delivery_failed") v h refl
after_delivery-IsSaved c later (false, r) h v = save_and_get-IsSaved r c v h

deliver-IsSaved :
    (r : Repository) (c : CommandRecord) (now : ℕ) (target : Option CommandDeliveryTarget)
    (sender : Option CommandSender) (reason : String) (attempts later : ℕ)
    → IsValid r
    → IsRecord c
    → KeepsAny sender
    → Ensures (IsSaved c.command_id) (deliver r c now target sender reason attempts later)
unfolding deliver
deliver-IsSaved r c now none sender reason attempts later v h k =
    Ensures-if _ (leb c.deadline now) _ _
      (λ _. transition-IsSaved r c unknown now (some "deadline_expired") v h refl)
      (λ _. transition-IsSaved r c failed now (some reason) v h refl)
deliver-IsSaved r c now (some target) none reason attempts later v h k =
    Ensures-if _ (leb c.deadline now) _ _
      (λ _. transition-IsSaved r c unknown now (some "deadline_expired") v h refl)
      (λ _. transition-IsSaved r c failed now (some reason) v h refl)
deliver-IsSaved r c now (some target) (some sender) reason attempts later v h k =
    let sent = sent_record c target attempts in
    let sent-ok = sent_record-IsRecord c target attempts h in
    Ensures-if _ (leb c.deadline now) _ _
      (λ _. transition-IsSaved r c unknown now (some "deadline_expired") v h refl)
      (λ _.
        Ensures-if _ (not (holds (String-discrete target.creator_account_id c.creator_account_id)))
          _ _ (λ _. transition-IsSaved r c failed now (some "delivery_identity_conflict") v h refl)
          (λ _.
            after_delivery-IsSaved sent later (sender (execute_payload sent target) (save r sent))
              sent-ok
              (k (execute_payload sent target) (save r sent) (save-IsValid r sent v sent-ok))))

new_record-IsRecord :
    (k : ℕ) (account : String) (action : MessageSendAction) (deadline : ℕ) (policy : String)
    (now : ℕ)
    → IsRecord (new_record k account action deadline policy now)
new_record-IsRecord k account action deadline policy now = record {
  last_logged = refl;
  counted = refl;
  receipted = refl;
  reason_late = λ e. refl;
  reported_result = λ e. cc;
  delivered = λ e. refl;
}

-- Issuing on a valid repository raises, or returns a well-formed record that is stored as
-- returned, in a repository that is valid again, if whatever runs while the delivery is awaited
-- keeps it valid.
pub issue-IsSaved :
    (validator : Validator) (r : Repository) (q : IssueRequest)
    → IsValid r
    → KeepsAny q.sender
    → Ensures (IsSaved q.command_id) (issue validator r q)
unfolding issue
issue-IsSaved validator r q v k =
    Ensures-then (IsSaved q.command_id) (validate_action validator q.action) _ λ action _.
      let c =
        new_record q.command_id q.creator_account_id action q.deadline.at q.idempotency_policy
          q.now in
      let h =
        new_record-IsRecord q.command_id q.creator_account_id action q.deadline.at
          q.idempotency_policy q.now in
      Ensures-then (IsSaved q.command_id) (validate_deadline q.deadline) _ λ _ _.
        Ensures-then (IsSaved q.command_id)
          (raise_if (not (holds (String-discrete q.idempotency_policy "deduplicate")))
            policy_required)
          _
          λ _ _.
            Ensures-then (IsSaved q.command_id)
              (raise_if (is_some (get r q.command_id)) (already_exists q.command_id)) _
              λ _ _.
                deliver-IsSaved (save r c) c q.now q.target q.sender q.unavailable_reason 1 q.later
                  (save-IsValid r c v h) h k

required-IsRecord :
    (r : Repository) (k : ℕ) (c : CommandRecord)
    → IsValid r
    → required r k ≡ ok c
    → (c.command_id ≡ k) × IsRecord c
unfolding required
required-IsRecord r k c v e = get-IsRecord r k c v (ground arith)

-- Redelivering raises, or returns a well-formed record that is stored as returned, in a valid
-- repository, if the repository was valid and whatever runs while the delivery is awaited keeps it
-- valid.
pub reissue-IsSaved :
    (r : Repository) (k : ℕ) (target : Option CommandDeliveryTarget) (sender : Option CommandSender)
    (reason : String) (now later : ℕ)
    → IsValid r
    → KeepsAny sender
    → Ensures (IsSaved k) (reissue r k target sender reason now later)
unfolding reissue
reissue-IsSaved r k target sender reason now later v keeps =
    Ensures-then (IsSaved k) (required r k) _ λ c found.
      Ensures-then (IsSaved k)
        (raise_if (not (holds (String-discrete c.idempotency_policy "deduplicate")))
          policy_forbids_reissue)
        _
        λ _ _.
          Ensures-then (IsSaved k) (raise_if (not (reissuable c.state)) (not_reissuable c.state)) _
            λ _ _.
              let (same, h) = required-IsRecord r k c v found in
              rw (← same) (
                deliver-IsSaved r c now target sender reason (c.delivery_attempts + 1) later v h
                  keeps)

orphan_record-IsRecord : (p : ResultPayload) (received : ℕ) → IsRecord (orphan_record p received)
orphan_record-IsRecord p received = record {
  last_logged = refl;
  counted = refl;
  receipted = refl;
  reason_late = λ e. cc;
  reported_result = λ e. cc;
  delivered = λ e. refl;
}

pub record_for-IsRecord :
    (o : Option CommandRecord) (p : ResultPayload) (received : ℕ) (c : CommandRecord)
    → ((d : CommandRecord) → o ≡ some d → (d.command_id ≡ p.command_id) × IsRecord d)
    → record_for o p received ≡ ok c
    → (c.command_id ≡ p.command_id) × IsRecord c
unfolding record_for
record_for-IsRecord none p received c h e =
    let same : orphan_record p received ≡ c = cc in
    rw (← same) (refl, orphan_record-IsRecord p received)
record_for-IsRecord (some d) p received c h e =
    let same : d ≡ c = ground arith in rw (← same) (h d refl)

-- Recording a result keeps a valid repository valid, also for a command that was never issued.
pub record_result-IsValid :
    (r : Repository) (p : ResultPayload) (received : ℕ)
    → IsValid r
    → Ensures (λ x. IsValid x.1) (record_result r p received)
unfolding record_result
record_result-IsValid r p received v =
    Ensures-then (λ x. IsValid x.1) (record_for (get r p.command_id) p received) _
      λ c found. save-IsValid r (with_receipt c p received) v (
        with_receipt-IsRecord c p received
          (record_for-IsRecord (get r p.command_id) p received c
            (λ d. get-IsRecord r p.command_id d v) found).1)

expire_each-IsValid :
    (now : ℕ) (cs : List CommandRecord) (r : Repository)
    → All IsRecord cs
    → IsValid r
    → IsValid (expire_each now cs r).1
unfolding expire_each
expire_each-IsValid now [] r h v = v
expire_each-IsValid now (c ∷ cs) r h v = elim (Bool-cases (is_due now c)) [
  | inl due ↦ rw due (
      expire_each-IsValid now cs (save r (expired_record now c)) h.1 (
        save-IsValid r (expired_record now c) v
          (transition-IsRecord c unknown now (some "deadline_expired") h.0 refl)))
  | inr kept ↦ rw kept (expire_each-IsValid now cs r h.1 v)
]

values-IsRecord : (r : Repository) → IsValid r → All IsRecord (Dict.values r)
values-IsRecord [] v = tt
values-IsRecord (e ∷ r) v = (v.0.1, values-IsRecord r v.1)

-- Expiring keeps a valid repository valid.
pub expire-IsValid : (now : ℕ) (r : Repository) → IsValid r → IsValid (expire now r).1
unfolding expire list
expire-IsValid now r v = expire_each-IsValid now (Dict.values r) r (values-IsRecord r v) v
