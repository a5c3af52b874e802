-- ===== src/Transport/Fences.antt =====
-- Who may write for an account: one lease, and only while its heartbeat is fresh.
use onlyfans_conversational.Prelude.{
  ℕ, String, String-discrete, ℕ_discrete, none, some, true, All, ◌≡◌, inl, inr, refl, arith, holds,
  if◌then◌else◌, Option-cases,
}
use onlyfans_conversational.Prelude.Dict
use onlyfans_conversational.Prelude.Dict.{Dict, lookup-insert, lookup-insert_self, lookup-erase}
use onlyfans_conversational.Prelude.Entries.{All-lookup}
use onlyfans_conversational.Commands.Types.{CommandDeliveryTarget}
use onlyfans_conversational.Transport.Types.{
  AgentLease, LeaseStatus, connected, stale, disconnected, Status-discrete, Sessions,
}
use onlyfans_conversational.Transport.Leases.{
  with_status, is_current_fence, delivery_to, command_delivery, target_of,
}

-- The active lease of an account is that account's, and stands under its own connection id.
abbrev pub IsOwn : Sessions → String → ℕ → Type 0
IsOwn s account id =
    (l : AgentLease) × (Dict.lookup ℕ_discrete id s.leases ≡ some l)
    × (l.creator_account_id ≡ account)
    × (l.connection_id ≡ id)

abbrev pub IsValid : Sessions → Type 0
IsValid s = All (λ e. IsOwn s e.0 e.1) s.active_agents

pub active-IsOwn :
    (s : Sessions) (account : String) (id : ℕ)
    → IsValid s
    → Dict.lookup String-discrete account s.active_agents ≡ some id
    → IsOwn s account id
active-IsOwn s account id v found =
    All-lookup String-discrete (IsOwn s) account id s.active_agents v found

pub lookup-with_status :
    (k id : ℕ) (status : LeaseStatus) (leases : Dict ℕ AgentLease)
    → Dict.lookup ℕ_discrete k (with_status id status leases)
      ≡ (elim (Dict.lookup ℕ_discrete k leases) [
        | none ↦ none
        | some l ↦ some (if holds (ℕ_discrete k id) then record l { status = status } else l)
      ])
unfolding with_status
lookup-with_status k id status leases = elim (Option-cases (Dict.lookup ℕ_discrete id leases)) [
  | inl gone ↦ elim (ℕ_discrete k id) [
    | yes same ↦ ground (arith, gone, same)
    | no other ↦ elim (Option-cases (Dict.lookup ℕ_discrete k leases)) [
      | inl e ↦ ground (arith, gone, other, e)
      | inr (l, e) ↦ ground (arith, gone, other, e)
    ]
  ]
  | inr (m, found) ↦
      let inserted = lookup-insert ℕ_discrete k id (record m { status = status }) leases in
      elim (ℕ_discrete k id) [
        | yes same ↦ ground (arith, found, same, inserted)
        | no other ↦ elim (Option-cases (Dict.lookup ℕ_discrete k leases)) [
          | inl e ↦ ground (arith, found, other, inserted, e)
          | inr (l, e) ↦ ground (arith, found, other, inserted, e)
        ]
      ]
]

pub delivered_of_status :
    (l : AgentLease) (x : LeaseStatus) (target : CommandDeliveryTarget)
    → l.status ≡ x
    → (delivery_to (some l)).0 ≡ some target
    → (l.status ≡ connected) × (target_of l ≡ target)
delivered_of_status l connected target e h = (e, ground (arith, e, h))
delivered_of_status l stale target e h = absurd (ground (arith, e, h))
delivered_of_status l disconnected target e h = absurd (ground (arith, e, h))

current_of_active :
    (s : Sessions) (l : AgentLease)
    → Dict.lookup ℕ_discrete l.connection_id s.leases ≡ some l
    → Dict.lookup String-discrete l.creator_account_id s.active_agents ≡ some l.connection_id
    → l.status ≡ connected
    → is_current_fence s l.connection_id ≡ true
unfolding is_current_fence Status-discrete
current_of_active s l found active live = ground (arith, found, active, live)

-- A command is delivered only to the current fence of its account, with that lease's token.
pub command_delivery-fence :
    (s : Sessions) (account : String) (target : CommandDeliveryTarget)
    → IsValid s
    → (command_delivery s account).0 ≡ some target
    → (target.creator_account_id ≡ account)
      × (is_current_fence s target.connection_id ≡ true)
      × (l : AgentLease) × (Dict.lookup ℕ_discrete target.connection_id s.leases ≡ some l)
      × (l.fencing_token ≡ target.fencing_token)
      × (l.status ≡ connected)
unfolding command_delivery
command_delivery-fence s account target v got =
    elim (Option-cases (Dict.lookup String-discrete account s.active_agents)) [
      | inl gone ↦ absurd (ground (arith, gone, got))
      | inr (id, active) ↦
          let (l, found, own, named) = active-IsOwn s account id v active in
          let lease_found : (delivery_to (some l)).0 ≡ some target =
            ground (arith, active, found, got) in
          let (live, same) = delivered_of_status l l.status target refl lease_found in
          let here : Dict.lookup ℕ_discrete l.connection_id s.leases ≡ some l = rw named found in
          let kept : Dict.lookup String-discrete l.creator_account_id s.active_agents
              ≡ some l.connection_id =
            rw (own, named) active in
          rw (← same) (own, current_of_active s l here kept live, l, here, refl, live)
    ]
