-- ===== src/Transport/Handover.antt =====
-- What binding an Agent does: the new lease is the only one that may write for its account.
use onlyfans_conversational.Prelude.{
  All, ℕ, String, String-discrete, ℕ_discrete, Option, none, some, true, false, ◌≡◌, ◌≢◌, refl, sym,
  ◌∙◌, arith, holds, if◌then◌else◌, Option-cases, inl, inr, ite,
}
use onlyfans_conversational.Prelude.Dict
use onlyfans_conversational.Prelude.Dict.{Dict, lookup-insert, lookup-insert_self}
use onlyfans_conversational.Prelude.Entries.{All-insert, All-imp}
use onlyfans_conversational.Transport.Types.{
  AgentLease, connected, disconnected, Status-discrete, Sessions,
}
use onlyfans_conversational.Transport.Leases.{retire, take_over, is_current_fence}
use onlyfans_conversational.Transport.Fences.{IsOwn, IsValid, active-IsOwn, lookup-with_status}

-- The lease that a retirement leaves at a connection id, from the one before.
abbrev pub retired_at : Option ℕ → ℕ → Option AgentLease → Option AgentLease
retired_at none k o = o
retired_at (some p) k none = none
retired_at (some p) k (some l) =
    some (if holds (ℕ_discrete k p) then record l { status = disconnected } else l)

lookup-retire :
    (k : ℕ) (previous : Option ℕ) (leases : Dict ℕ AgentLease)
    → Dict.lookup ℕ_discrete k (retire previous leases)
      ≡ retired_at previous k (Dict.lookup ℕ_discrete k leases)
lookup-retire k none leases = refl
lookup-retire k (some p) leases =
    let step = lookup-with_status k p disconnected leases in
    elim (Option-cases (Dict.lookup ℕ_discrete k leases)) [
      | inl e ↦ ground (arith, step, e)
      | inr (l, e) ↦ ground (arith, step, e)
    ]

module _ (s : Sessions) (lease : AgentLease) where
  abbrev account : String
  account = lease.creator_account_id

  abbrev id : ℕ
  id = lease.connection_id

  abbrev previous : Option ℕ
  previous = Dict.lookup String-discrete account s.active_agents

  lookup-take_over :
      (k : ℕ)
      → Dict.lookup ℕ_discrete k (take_over s lease).leases
        ≡ ite
            (ℕ_discrete k id)
            (some lease)
            (retired_at previous k (Dict.lookup ℕ_discrete k s.leases))
  unfolding take_over
  lookup-take_over k = ground (
    arith,
    lookup-insert ℕ_discrete k id lease (retire previous s.leases),
    lookup-retire k previous s.leases,
  )

  active-take_over :
      (a : String)
      → Dict.lookup String-discrete a (take_over s lease).active_agents
        ≡ ite (String-discrete a account) (some id) (Dict.lookup String-discrete a s.active_agents)
  unfolding take_over
  active-take_over a = lookup-insert String-discrete a account id s.active_agents

  new_lease-current : lease.status ≡ connected → is_current_fence (take_over s lease) id ≡ true
  unfolding is_current_fence Status-discrete
  new_lease-current live = ground (arith, live, lookup-take_over id, active-take_over account)

  old_lease-fenced :
      (k : ℕ) (l : AgentLease)
      → k ≢ id
      → Dict.lookup ℕ_discrete k (take_over s lease).leases ≡ some l
      → l.creator_account_id ≡ account
      → is_current_fence (take_over s lease) k ≡ false
  unfolding is_current_fence
  old_lease-fenced k l other found same =
      ground (arith, found, same, other, active-take_over account)

  other_lease-kept :
      (k : ℕ) (l : AgentLease)
      → IsValid s
      → Dict.lookup ℕ_discrete id s.leases ≡ none
      → Dict.lookup ℕ_discrete k s.leases ≡ some l
      → l.creator_account_id ≢ account
      → Dict.lookup ℕ_discrete k (take_over s lease).leases ≡ some l
  other_lease-kept k l v fresh found other = elim (ℕ_discrete k id) [
    | yes same ↦ absurd (ground (arith, same, fresh, found))
    | no apart ↦ elim (Option-cases previous) [
      | inl gone ↦ ground (arith, lookup-take_over k, apart, gone, found)
      | inr (p, active) ↦
          let (m, at, own, named) = active-IsOwn s account p v active in
          elim (ℕ_discrete k p) [
            | yes same ↦
                let equal : Path (Option AgentLease) (some m) (some l) =
                  sym at ∙ rw (← same) found in
                let lease_is : m ≡ l = cc in absurd (other (rw (← lease_is) own))
            | no distinct ↦ ground (arith, lookup-take_over k, apart, active, found, distinct)
          ]
    ]
  ]

  other_lease-current :
      (k : ℕ) (l : AgentLease)
      → IsValid s
      → Dict.lookup ℕ_discrete id s.leases ≡ none
      → Dict.lookup ℕ_discrete k s.leases ≡ some l
      → l.creator_account_id ≢ account
      → is_current_fence (take_over s lease) k ≡ is_current_fence s k
  unfolding is_current_fence
  other_lease-current k l v fresh found other =
      let kept = other_lease-kept k l v fresh found other in
      ground (arith, kept, found, other, active-take_over l.creator_account_id)

  -- On valid sessions, a connected lease under a fresh connection id takes its account over: it is
  -- the current fence, every other lease of the account is fenced out, and a lease of another
  -- account is the current fence exactly if it was.
  pub take_over-fence :
      IsValid s
      → Dict.lookup ℕ_discrete id s.leases ≡ none
      → lease.status ≡ connected
      → (is_current_fence (take_over s lease) id ≡ true)
        × ((k : ℕ) (l : AgentLease)
            → k ≢ id
            → Dict.lookup ℕ_discrete k (take_over s lease).leases ≡ some l
            → l.creator_account_id ≡ account
            → is_current_fence (take_over s lease) k ≡ false)
        × ((k : ℕ) (l : AgentLease)
            → Dict.lookup ℕ_discrete k s.leases ≡ some l
            → l.creator_account_id ≢ account
            → is_current_fence (take_over s lease) k ≡ is_current_fence s k)
  take_over-fence v fresh live =
      (new_lease-current live, old_lease-fenced, λ k l. other_lease-current k l v fresh)

  IsOwn-kept :
      (a : String) (k : ℕ)
      → Dict.lookup ℕ_discrete id s.leases ≡ none
      → IsOwn s a k
      → IsOwn (take_over s lease) a k
  IsOwn-kept a k fresh (l, found, own, named) = elim (ℕ_discrete k id) [
    | yes same ↦ absurd (ground (arith, same, fresh, found))
    | no apart ↦ elim (Option-cases previous) [
      | inl gone ↦ (l, ground (arith, lookup-take_over k, apart, gone, found), own, named)
      | inr (p, active) ↦ elim (ℕ_discrete k p) [
        | yes retired ↦ (
          record l { status = disconnected },
          ground (arith, lookup-take_over k, apart, active, found, retired),
          own,
          named,
        )
        | no kept ↦ (l, ground (arith, lookup-take_over k, apart, active, found, kept), own, named)
      ]
    ]
  ]

  IsOwn-new : IsOwn (take_over s lease) account id
  IsOwn-new = (lease, ground (arith, lookup-take_over id), refl, refl)

  -- Taking an account over under a fresh connection id keeps valid sessions valid.
  pub take_over-IsValid :
      IsValid s → Dict.lookup ℕ_discrete id s.leases ≡ none → IsValid (take_over s lease)
  take_over-IsValid v fresh =
      let valid : All (λ e. IsOwn (take_over s lease) e.0 e.1)
          (Dict.insert String-discrete account id s.active_agents) =
        All-insert String-discrete (λ e. IsOwn (take_over s lease) e.0 e.1) account id
          s.active_agents IsOwn-new
          (All-imp (λ e. IsOwn s e.0 e.1) (λ e. IsOwn (take_over s lease) e.0 e.1) s.active_agents
            (λ e h. IsOwn-kept e.0 e.1 fresh h) v) in
      unfold take_over in valid
