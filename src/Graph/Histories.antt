-- ===== src/Graph/Histories.antt =====
-- The calls of the graph repository (app/analytics/graph_store.py) one after the other.
use onlyfans_conversational.Prelude.{
  ℕ, String, String-discrete, ℕ_discrete, Option, none, some, Bool, true, ◌≡◌, ◌≢◌, ◌||◌, ◌&&◌,
  refl, not, holds, leb, if-cases, arith, ap, ◌∙◌, sym,
}
use onlyfans_conversational.Prelude.Dict
use onlyfans_conversational.Graph.Repository.{
  GenerationStatus, MemoryGeneration, GraphRepository, Retention, GraphError, new_repository,
  Changed, is_building, is_validated, find, save, with_status, is_leased, is_leased_by,
  begin_generation, same_generation, replace_active, activate_over, activate_found, activate,
  is_unpublished, retire_found, discard_generation, reclaim_expired_generation, build_found,
  refresh, validate,
}
use onlyfans_conversational.Graph.Activity.{
  find_active, IsActive, collect-IsActive, save-IsActive, IsVacant-none, IsVacant-retired,
  promote-IsActive,
}

-- One call; a new generation has a new id.
pub data GraphStep (is_account_ref : String → Bool) (retention : Retention) (r : GraphRepository)
    : GraphRepository → Type 0 where
  begins :
      (partition : String) (revision : ℕ) (token : String) (lease k now : ℕ)
      → find k r ≡ none
      → GraphStep is_account_ref retention r
          (begin_generation is_account_ref partition revision token lease k now r).1
  validates :
      (token : String) (now k : ℕ) → GraphStep is_account_ref retention r (validate token now k r).1
  refreshes :
      (lease : ℕ) (token : String) (now k : ℕ)
      → GraphStep is_account_ref retention r (refresh lease token now k r).1
  activates :
      (k : ℕ) (expected : Option ℕ) (token : Option String) (now : ℕ)
      → GraphStep is_account_ref retention r (activate retention k expected token now r).1
  discards :
      (k : ℕ) (token : String) (now : ℕ)
      → GraphStep is_account_ref retention r (discard_generation retention k token now r).1
  reclaims :
      (k now : ℕ)
      → GraphStep is_account_ref retention r (reclaim_expired_generation retention k now r).1

pub data GraphReach (is_account_ref : String → Bool) (retention : Retention)
    : GraphRepository → Type 0 where
  new : GraphReach is_account_ref retention new_repository
  next :
      {r r' : GraphRepository}
      → GraphReach is_account_ref retention r
      → GraphStep is_account_ref retention r r'
      → GraphReach is_account_ref retention r'

abbrev IsActiveAfter : Changed → Type 0
IsActiveAfter answer = IsActive answer.1

unpublished :
    (status : GenerationStatus) → is_unpublished status ≡ true → status ≢ GenerationStatus.active
unpublished GenerationStatus.building h e = cc
unpublished GenerationStatus.validated h e = cc
unpublished GenerationStatus.active h e = cc
unpublished GenerationStatus.retired h e = cc

building-only :
    (status : GenerationStatus) → is_building status ≡ true → status ≢ GenerationStatus.active
building-only status h = unpublished status (ground (arith, h))

validated-only :
    (status : GenerationStatus) → is_validated status ≡ true → status ≢ GenerationStatus.active
validated-only status h = unpublished status (ground (arith, h))

same_generation-eq : (a b : Option ℕ) → same_generation a b ≡ true → a ≡ b
same_generation-eq none none h = refl
same_generation-eq none (some k) h = cc
same_generation-eq (some j) none h = cc
same_generation-eq (some j) (some k) h = ground (arith, h)

module _ (retention : Retention) (r : GraphRepository) (h : IsActive r) (k : ℕ) where
  -- What is found under `k`, if it is `g`, is not active.
  passive :
      (g : MemoryGeneration)
      → find k r ≡ some g
      → g.status ≢ GenerationStatus.active
      → (m : MemoryGeneration) → find k r ≡ some m
      → m.status ≢ GenerationStatus.active
  passive g at inactive m found is =
      let both : Path (Option MemoryGeneration) (some g) (some m) = sym at ∙ found in
      let g_is : g ≡ m = cc in inactive (ap (λ x. x.status) g_is ∙ is)

  retire-IsActive :
      (o : Option MemoryGeneration) (allowed : MemoryGeneration → Bool) (refusal : GraphError)
      → find k r ≡ o
      → IsActiveAfter (retire_found o allowed refusal retention k r)
  retire-IsActive none allowed refusal at = h
  retire-IsActive (some g) allowed refusal at =
      if-cases IsActiveAfter (is_unpublished g.status && allowed g) _ _
        (λ may. collect-IsActive retention g.partition_key _ (
          save-IsActive k (with_status GenerationStatus.retired g) r h (λ e. cc)
            (passive g at (unpublished g.status (ground (arith, may))))))
        (λ _. h)

  build-IsActive :
      (o : Option MemoryGeneration) (change : MemoryGeneration → MemoryGeneration) (token : String)
      (now : ℕ)
      → find k r ≡ o
      → ((g : MemoryGeneration)
          → is_building g.status ≡ true
          → (change g).status ≢ GenerationStatus.active)
      → IsActiveAfter (build_found o change token now k r)
  build-IsActive none change token now at quiet = h
  build-IsActive (some g) change token now at quiet =
      if-cases IsActiveAfter (is_building g.status && is_leased g token now) _ _
        (λ may.
          let is : is_building g.status ≡ true = ground (arith, may) in
          save-IsActive k (change g) r h (quiet g is) (passive g at (building-only g.status is)))
        (λ _. h)

  replace-IsActive :
      (o : Option MemoryGeneration) (e : ℕ) (g : MemoryGeneration)
      → find e r ≡ o
      → find_active g.partition_key r ≡ some e
      → find k r ≡ some g
      → g.status ≢ GenerationStatus.active
      → IsActiveAfter (replace_active o retention e k g r)
  unfolding find save
  replace-IsActive none e g there named at inactive = h
  replace-IsActive (some previous) e g there named at inactive =
      let (old, old_found, is, _) = h.recorded g.partition_key e named in
      let apart : k ≢ e =
        (λ same. passive g at inactive old (ap (λ x. find x r) same ∙ old_found) is) in
      let retired = with_status GenerationStatus.retired previous in
      promote-IsActive retention k g (save e retired r)
        (IsVacant-retired g.partition_key e previous r h named there)
        (ground (arith, Dict.lookup-insert ℕ_discrete k e retired r.generations, apart, at))
        inactive

  activate-IsActive :
      (o : Option MemoryGeneration) (expected : Option ℕ) (token : Option String) (now : ℕ)
      → find k r ≡ o
      → IsActiveAfter (activate_found o retention k expected token now r)
  activate-IsActive none expected token now at = h
  activate-IsActive (some g) expected token now at =
      let current = Dict.lookup String-discrete g.partition_key r.active_generations in
      if-cases IsActiveAfter (not (is_validated g.status)) _ _ (λ _. h)
        (λ valid.
          let inactive = validated-only g.status (ground (arith, valid)) in
          if-cases IsActiveAfter (not (is_leased_by g token now)) _ _ (λ _. h)
            (λ _.
              if-cases IsActiveAfter (not (same_generation current expected)) _ _ (λ _. h)
                (λ unchanged.
                  over expected inactive
                    (same_generation-eq current expected (ground (arith, unchanged))))))
    where
      over :
          (expected : Option ℕ)
          → g.status ≢ GenerationStatus.active
          → find_active g.partition_key r ≡ expected
          → IsActiveAfter (activate_over expected retention k g r)
      over none inactive e =
          promote-IsActive retention k g r (IsVacant-none g.partition_key r h e) at inactive
      over (some j) inactive e = replace-IsActive _ j g refl e at inactive

GraphStep-IsActive :
    (is_account_ref : String → Bool) (retention : Retention) (r r' : GraphRepository)
    → IsActive r
    → GraphStep is_account_ref retention r r'
    → IsActive r'
unfolding begin_generation validate refresh activate discard_generation reclaim_expired_generation
GraphStep-IsActive ref retention r r' h (begins partition revision token lease k now fresh) =
    if-cases IsActiveAfter
      (holds (String-discrete partition "") || leb lease 0 || not (ref partition)) _ _ (λ _. h)
      (λ _. save-IsActive k _ r h (λ e. cc) (λ m found is. absurd (ground (arith, found, fresh))))
GraphStep-IsActive ref retention r r' h (validates token now k) =
    build-IsActive retention r h k _ (with_status GenerationStatus.validated) token now refl
      (λ g is e. cc)
GraphStep-IsActive ref retention r r' h (refreshes lease token now k) =
    build-IsActive retention r h k _ _ token now refl (λ g is. building-only g.status is)
GraphStep-IsActive ref retention r r' h (activates k expected token now) =
    activate-IsActive retention r h k _ expected token now refl
GraphStep-IsActive ref retention r r' h (discards k token now) =
    retire-IsActive retention r h k _ _ _ refl
GraphStep-IsActive ref retention r r' h (reclaims k now) =
    retire-IsActive retention r h k _ _ _ refl

-- Whatever calls a graph repository has had, each partition has at most one active generation: the
-- one that is recorded as active is there, is the partition's own and is active, no collection has
-- removed it, and no other generation of the partition is active.
pub GraphReach-IsActive :
    (is_account_ref : String → Bool) (retention : Retention) (r : GraphRepository)
    → GraphReach is_account_ref retention r
    → IsActive r
unfolding find Dict.lookup
GraphReach-IsActive ref retention r new = record {
  recorded = λ p k at. cc;
  alone = λ k g found is. cc;
}
GraphReach-IsActive ref retention r (next {r = earlier} reach step) =
    GraphStep-IsActive ref retention earlier r (GraphReach-IsActive ref retention earlier reach)
      step
