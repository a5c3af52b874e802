-- ===== src/Transport/Steps.antt =====
-- What one step of `expire` may do to the leases.
use onlyfans_conversational.Prelude.{
  ℕ, ◌*◌, String, String-discrete, ℕ_discrete, Option, some, false, ◌≡◌, ◌⊎◌, inl, inr, ◌∙◌, arith,
  ap, not, holds, Bool-cases, Option-cases,
}
use onlyfans_conversational.Prelude.Dict
use onlyfans_conversational.Prelude.Dict.{Dict, lookup-insert, lookup-erase}
use onlyfans_conversational.Transport.Types.{
  AgentLease, LeaseStatus, connected, disconnected, Status-discrete, Sessions,
}
use onlyfans_conversational.Transport.Leases.{
  with_status, is_active, is_aged, retired_lease, desired_status, expire_found,
}
use onlyfans_conversational.Transport.Fences.{lookup-with_status}

-- The active lease of the account, if it is connected, has a heartbeat within its timeout.
abbrev pub IsFresh : ℕ → Sessions → String → Type 0
IsFresh now s a =
    (id : ℕ) (l : AgentLease)
    → Dict.lookup String-discrete a s.active_agents ≡ some id
    → Dict.lookup ℕ_discrete id s.leases ≡ some l
    → l.status ≡ connected
    → is_aged now l l.lease_timeout_seconds ≡ false

-- What one step may do: leases only change their status, and become connected only when fresh;
-- active leases only go away.
pub record Step (now : ℕ) (s s' : Sessions) : Type 0 where
  pub leases :
      (k : ℕ) (l : AgentLease)
      → Dict.lookup ℕ_discrete k s'.leases ≡ some l
      → l.status ≡ connected
      → (Dict.lookup ℕ_discrete k s.leases ≡ some l)
        ⊎ (is_aged now l l.lease_timeout_seconds ≡ false)
  pub active :
      (a : String) (k : ℕ)
      → Dict.lookup String-discrete a s'.active_agents ≡ some k
      → Dict.lookup String-discrete a s.active_agents ≡ some k

pub Step-IsFresh :
    (now : ℕ) (s s' : Sessions) (a : String) → Step now s s' → IsFresh now s a → IsFresh now s' a
Step-IsFresh now s s' a step h id l active found live = elim (step.leases id l found live) [
  | inl before ↦ h id l (step.active a id active) before live
  | inr fresh ↦ fresh
]

pub Step-unchanged : (now : ℕ) (s : Sessions) → Step now s s
Step-unchanged now s = record { leases = λ k l found live. inl found; active = λ a k found. found }

Step-with_status :
    (now : ℕ) (s : Sessions) (id : ℕ) (m : AgentLease) (status : LeaseStatus)
    → Dict.lookup ℕ_discrete id s.leases ≡ some m
    → (status ≡ connected → is_aged now m m.lease_timeout_seconds ≡ false)
    → Step now s (record s { leases = with_status id status s.leases })
Step-with_status now s id m status at fresh = record {
  leases = λ k l found live.
      let step = lookup-with_status k id status s.leases in
      elim (ℕ_discrete k id) [
        | yes same ↦
            let changed : Path (Option AgentLease) (some (record m { status = status })) (some l) =
              ground (arith, step, same, at, found) in
            let lease_is : record m { status = status } ≡ l = cc in
            inr (rw (← lease_is) (fresh (ap (λ x. x.status) lease_is ∙ live)))
        | no other ↦ inl (elim (Option-cases (Dict.lookup ℕ_discrete k s.leases)) [
          | inl e ↦ ground (arith, step, other, found, e)
          | inr (n, e) ↦ ground (arith, step, other, found, e)
        ])
      ];
  active = λ a k found. found;
}

Step-retired :
    (now : ℕ) (s : Sessions) (a : String) (id : ℕ) (m : AgentLease)
    → Dict.lookup ℕ_discrete id s.leases ≡ some m
    → Step now s (retired_lease s a id)
Step-retired now s a id m at = record {
  leases = (Step-with_status now s id m disconnected at (λ e. absurd (ground arith))).leases;
  active = λ b k found. ground (arith, lookup-erase String-discrete b a s.active_agents, found);
}

pub desired-fresh :
    (now : ℕ) (m : AgentLease)
    → desired_status now m ≡ connected
    → is_aged now m m.lease_timeout_seconds ≡ false
desired-fresh now m h = ground arith

pub Step-expire_found :
    (now : ℕ) (s : Sessions) (a : String) (id : ℕ) (m : AgentLease)
    → Dict.lookup ℕ_discrete id s.leases ≡ some m
    → Step now s (expire_found now s a id (some m))
Step-expire_found now s a id m at =
    elim (Bool-cases (is_aged now m (m.lease_timeout_seconds * 2))) [
      | inl aged ↦ elim (Bool-cases (is_active s a id)) [
        | inl active ↦ rw (aged, active) (Step-retired now s a id m at)
        | inr passive ↦ rw (aged, passive) (Step-unchanged now s)
      ]
      | inr young ↦ elim (Bool-cases (holds (Status-discrete m.status disconnected))) [
        | inl gone ↦ rw (young, gone) (Step-unchanged now s)
        | inr there ↦
            elim (Bool-cases (not (holds (Status-discrete (desired_status now m) m.status)))) [
              | inl moves ↦
                  rw (young, there, moves)
                    (Step-with_status now s id m (desired_status now m) at (desired-fresh now m))
              | inr stays ↦ rw (young, there, stays) (Step-unchanged now s)
            ]
      ]
    ]
