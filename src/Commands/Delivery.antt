-- ===== src/Commands/Delivery.antt =====
-- When a command reaches a browser: the fence around a delivery.
use onlyfans_conversational.Prelude.{
  ℕ, ℕ_discrete, String, String-discrete, Option, some, Bool, true, false, ◌≡◌, ◌⊎◌, inl, inr, refl,
  arith, leb, not, holds, Bool-cases, Ensures, Ensures-if,
}
use onlyfans_conversational.Prelude.Dict.{lookup-insert_self}
use onlyfans_conversational.Commands.Types.{
  CommandState, failed, unknown, CommandRecord, CommandDeliveryTarget, CommandSender,
  ExecutePayload, Repository,
}
use onlyfans_conversational.Commands.Repository.{get, save}
use onlyfans_conversational.Commands.Service.{
  transition, save_and_get, after_delivery, deliver, execute_payload,
}
use onlyfans_conversational.Commands.Preservation.{save_and_get-eq, sent_record}

-- The target may receive the command at this time: an independent description.
pub record MayReceive (c : CommandRecord) (now : ℕ) (target : CommandDeliveryTarget) : Type 0 where
  pub in_time : leb c.deadline now ≡ false
  pub same_account : target.creator_account_id ≡ c.creator_account_id

-- The payload is the stored command's, and carries the fence of the target.
pub record Fenced (c : CommandRecord) (target : CommandDeliveryTarget) (p : ExecutePayload)
    (r : Repository) : Type 0 where
  pub connection : p.connection_id ≡ target.connection_id
  pub fence : p.fencing_token ≡ target.fencing_token
  pub account : p.creator_account_id ≡ c.creator_account_id
  pub command : p.command_id ≡ c.command_id
  pub deadline : p.deadline ≡ c.deadline
  pub stored :
      (s : CommandRecord) × (get r c.command_id ≡ some s)
      × (s.state ≡ c.state)
      × (s.connection_id ≡ some p.connection_id)
      × (s.fencing_token ≡ some p.fencing_token)

-- A delivery to a live target either happens or not. It happens only in time and for the target's
-- own account: the sender then gets one payload that carries the target's connection and fence,
-- with the record stored under that fence beforehand. Otherwise the outcome does not depend on
-- the sender at all.
pub deliver-Fenced :
    (r : Repository) (c : CommandRecord) (now : ℕ) (target : CommandDeliveryTarget)
    (reason : String) (attempts later : ℕ)
    → (MayReceive c now target
        × (p : ExecutePayload) × (before : Repository) × (sent : CommandRecord) × Fenced c target p
            before
        × ((sender : CommandSender)
            → deliver r c now (some target) (some sender) reason attempts later
              ≡ after_delivery sent later (sender p before)))
      ⊎ ((¬ MayReceive c now target)
          × ((a b : CommandSender)
              → deliver r c now (some target) (some a) reason attempts later
                ≡ deliver r c now (some target) (some b) reason attempts later))
unfolding deliver execute_payload
deliver-Fenced r c now target reason attempts later = elim (Bool-cases (leb c.deadline now)) [
  | inl over ↦ inr ((λ m. ground (arith, m.in_time, over)), λ a b. rw over refl)
  | inr in_time ↦ elim (String-discrete target.creator_account_id c.creator_account_id) [
    | no other ↦ inr ((λ m. other m.same_account), λ a b. ground (arith, in_time, other))
    | yes same ↦
        let sent = sent_record c target attempts in
        inl (
          record { in_time = in_time; same_account = same },
          execute_payload sent target,
          save r sent,
          sent,
          record {
            connection = refl;
            fence = refl;
            account = same;
            command = refl;
            deadline = refl;
            stored = (
              sent,
              unfold get save in lookup-insert_self ℕ_discrete c.command_id sent r,
              refl,
              refl,
              refl,
            );
          },
          λ sender. ground (arith, in_time, same),
        )
  ]
]

-- The result and the receipts of a record are those of another.
abbrev pub SameResult : CommandRecord → CommandRecord → Type 0
SameResult c d = (d.result ≡ c.result) × (d.receipts ≡ c.receipts)

save_and_get-SameResult :
    (r : Repository) (c d : CommandRecord)
    → d.command_id ≡ c.command_id
    → SameResult c d
    → Ensures (λ x. SameResult c x.0 × (get x.1 c.command_id ≡ some x.0)) (save_and_get r d)
save_and_get-SameResult r c d same h =
    rw (save_and_get-eq r d)
      (h, rw (← same) (unfold get save in lookup-insert_self ℕ_discrete d.command_id d r))

transition-SameResult :
    (r : Repository) (c d : CommandRecord) (state : CommandState) (at : ℕ) (detail : Option String)
    → d.command_id ≡ c.command_id
    → SameResult c d
    → Ensures
        (λ x. SameResult c x.0 × (get x.1 c.command_id ≡ some x.0))
        (save_and_get r (transition d state at detail))
unfolding transition
transition-SameResult r c d state at detail same h =
    save_and_get-SameResult r c (transition d state at detail) same h

after_delivery-SameResult :
    (c d : CommandRecord) (later : ℕ) (x : Bool × Repository)
    → d.command_id ≡ c.command_id
    → SameResult c d
    → Ensures (λ y. SameResult c y.0 × (get y.1 c.command_id ≡ some y.0)) (after_delivery d later x)
unfolding after_delivery
after_delivery-SameResult c d later (true, r) same h =
    transition-SameResult r c d failed later (some "delivery_failed") same h
after_delivery-SameResult c d later (false, r) same h = save_and_get-SameResult r c d same h

-- The record that a delivery returns and leaves stored has the result and the receipts of the
-- record that it was called with, whatever other tasks stored for the command while the sender
-- was awaited: a result recorded in between is lost.
pub deliver-SameResult :
    (r : Repository) (c : CommandRecord) (now : ℕ) (target : CommandDeliveryTarget)
    (sender : CommandSender) (reason : String) (attempts later : ℕ)
    → Ensures
        (λ x. SameResult c x.0 × (get x.1 c.command_id ≡ some x.0))
        (deliver r c now (some target) (some sender) reason attempts later)
unfolding deliver
deliver-SameResult r c now target sender reason attempts later =
    let sent = sent_record c target attempts in
    Ensures-if _ (leb c.deadline now) _ _
      (λ _. transition-SameResult r c c unknown now (some "deadline_expired") refl (refl, refl))
      (λ _.
        Ensures-if _ (not (holds (String-discrete target.creator_account_id c.creator_account_id)))
          _ _
          (λ _.
            transition-SameResult r c c failed now (some "delivery_identity_conflict") refl
              (refl, refl))
          (λ _.
            after_delivery-SameResult c sent later
              (sender (execute_payload sent target) (save r sent)) refl (refl, refl)))
