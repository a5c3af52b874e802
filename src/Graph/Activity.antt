-- ===== src/Graph/Activity.antt =====
-- At most one generation of a partition is active (app/analytics/graph_store.py).
use onlyfans_conversational.Prelude.{
  ℕ, String, String-discrete, ℕ_discrete, Option, none, some, ◌≡◌, ◌≢◌, ◌⊎◌, refl, inl, inr, arith,
  ap, ◌∙◌, sym,
}
use onlyfans_conversational.Prelude.Dict
use onlyfans_conversational.Prelude.Dict.{lookup-insert}
use onlyfans_conversational.Graph.Repository.{
  GenerationStatus, MemoryGeneration, GraphRepository, Retention, find, save, with_status, collect,
  promote,
}
use onlyfans_conversational.Graph.Collection.{find-collect}

abbrev pub find_active : String → GraphRepository → Option ℕ
find_active p r = Dict.lookup String-discrete p r.active_generations

-- The active generation of a partition that is recorded is there, is its own and is active; and
-- every active generation is the one recorded of its partition.
pub record IsActive (r : GraphRepository) : Type 0 where
  pub recorded :
      (p : String) (k : ℕ)
      → find_active p r ≡ some k
      → (g : MemoryGeneration) × (find k r ≡ some g)
        × (g.status ≡ GenerationStatus.active)
        × (g.partition_key ≡ p)
  pub alone :
      (k : ℕ) (g : MemoryGeneration)
      → find k r ≡ some g
      → g.status ≡ GenerationStatus.active
      → find_active g.partition_key r ≡ some k

find-save :
    (j k : ℕ) (g m : MemoryGeneration) (r : GraphRepository)
    → find j (save k g r) ≡ some m
    → ((j ≡ k) × (g ≡ m)) ⊎ ((j ≢ k) × (find j r ≡ some m))
unfolding find save
find-save j k g m r found =
    let step = lookup-insert ℕ_discrete j k g r.generations in
    elim (ℕ_discrete j k) [
      | yes e ↦
          let here : Path (Option MemoryGeneration) (some g) (some m) =
            ground (arith, step, e, found) in
          inl (e, cc)
      | no e ↦ inr (e, ground (arith, step, e, found))
    ]

find-save_other :
    (j k : ℕ) (g m : MemoryGeneration) (r : GraphRepository)
    → j ≢ k
    → find j r ≡ some m
    → find j (save k g r) ≡ some m
unfolding find save
find-save_other j k g m r apart found =
    ground (arith, lookup-insert ℕ_discrete j k g r.generations, apart, found)

find-save_self : (k : ℕ) (g : MemoryGeneration) (r : GraphRepository) → find k (save k g r) ≡ some g
unfolding find save
find-save_self k g r = Dict.lookup-insert_self ℕ_discrete k g r.generations

pub collect-IsActive :
    (retention : Retention) (p : String) (r : GraphRepository)
    → IsActive r
    → IsActive (collect retention p r)
unfolding collect
collect-IsActive retention p r h = record {
  recorded = λ q k at.
      let (g, found, is, own) = h.recorded q k at in
      elim (find-collect retention p r k) [
        | inl kept ↦ (g, kept ∙ found, is, own)
        | inr (retired, gone) ↦ absurd (ground (arith, retired, found, is))
      ];
  alone = λ k g found is. elim (find-collect retention p r k) [
    | inl kept ↦ h.alone k g (sym kept ∙ found) is
    | inr (retired, gone) ↦ absurd (ground (arith, gone, found))
  ];
}

-- An entry that is not active is replaced by one that is not active.
pub save-IsActive :
    (k : ℕ) (g : MemoryGeneration) (r : GraphRepository)
    → IsActive r
    → g.status ≢ GenerationStatus.active
    → ((m : MemoryGeneration) → find k r ≡ some m → m.status ≢ GenerationStatus.active)
    → IsActive (save k g r)
unfolding save
save-IsActive k g r h inactive before = record {
  recorded = λ p j at.
      let (m, found, is, own) = h.recorded p j at in
      elim (ℕ_discrete j k) [
        | yes e ↦ absurd (before m (rw (← e) found) is)
        | no e ↦ (m, find-save_other j k g m r e found, is, own)
      ];
  alone = λ j m found is. elim (find-save j k g m r found) [
    | inl (_, g_is) ↦ absurd (inactive (ap (λ x. x.status) g_is ∙ is))
    | inr (_, old) ↦ h.alone j m old is
  ];
}

-- No generation of the partition is active; all else is in order.
pub record IsVacant (p : String) (r : GraphRepository) : Type 0 where
  pub recorded :
      (q : String) (k : ℕ)
      → q ≢ p
      → find_active q r ≡ some k
      → (g : MemoryGeneration) × (find k r ≡ some g)
        × (g.status ≡ GenerationStatus.active)
        × (g.partition_key ≡ q)
  pub alone :
      (k : ℕ) (g : MemoryGeneration)
      → find k r ≡ some g
      → g.status ≡ GenerationStatus.active
      → (g.partition_key ≢ p) × (find_active g.partition_key r ≡ some k)

pub IsVacant-none :
    (p : String) (r : GraphRepository) → IsActive r → find_active p r ≡ none → IsVacant p r
IsVacant-none p r h absent = record {
  recorded = λ q k apart at. h.recorded q k at;
  alone = λ k g found is.
      let own = h.alone k g found is in (λ e. absurd (ground (arith, own, absent, e)), own);
}

pub IsVacant-retired :
    (p : String) (e : ℕ) (previous : MemoryGeneration) (r : GraphRepository)
    → IsActive r
    → find_active p r ≡ some e
    → find e r ≡ some previous
    → IsVacant p (save e (with_status GenerationStatus.retired previous) r)
unfolding save
IsVacant-retired p e previous r h at there =
    let (old, old_found, _, old_own) = h.recorded p e at in
    record {
      recorded = λ q k apart found.
          let (g, g_found, is, own) = h.recorded q k found in
          elim (ℕ_discrete k e) [
            | yes same ↦
                let both : Path (Option MemoryGeneration) (some old) (some g) =
                  sym old_found ∙ ap (λ x. find x r) (sym same) ∙ g_found in
                let old_is : old ≡ g = cc in
                absurd (apart (sym own ∙ ap (λ x. x.partition_key) (sym old_is) ∙ old_own))
            | no other ↦ (g, find-save_other k e _ g r other g_found, is, own)
          ];
      alone = λ k g found is.
          elim (find-save k e (with_status GenerationStatus.retired previous) g r found) [
            | inl (_, g_is) ↦
                let state : GenerationStatus.retired ≡ GenerationStatus.active =
                  ap (λ x. x.status) g_is ∙ is in
                absurd (cc)
            | inr (other, before) ↦
                let own = h.alone k g before is in
                (
                  λ same.
                      let both : Path (Option ℕ) (some k) (some e) =
                        sym own ∙ ap (λ x. find_active x r) same ∙ at in
                      other (cc),
                  own,
                )
          ];
    }

pub promote-IsActive :
    (retention : Retention) (k : ℕ) (g : MemoryGeneration) (r : GraphRepository)
    → IsVacant g.partition_key r
    → find k r ≡ some g
    → g.status ≢ GenerationStatus.active
    → IsActive (promote retention k g r)
unfolding promote save find
promote-IsActive retention k g r h there inactive =
    let p = g.partition_key in
    let new = with_status GenerationStatus.active g in
    collect-IsActive retention p
      (record (save k new r) {
        active_generations = Dict.insert String-discrete p k r.active_generations;
      })
      (record {
        recorded = λ q j at.
            let step = lookup-insert String-discrete q p k r.active_generations in
            elim (String-discrete q p) [
              | yes e ↦
                  let both : Path (Option ℕ) (some k) (some j) = ground (arith, step, e, at) in
                  let j_is : k ≡ j = cc in
                  (
                    new,
                    ap (λ x. find x (save k new r)) (sym j_is) ∙ find-save_self k new r,
                    refl,
                    sym e,
                  )
              | no e ↦
                  let (m, found, is, own) = h.recorded q j e (ground (arith, step, e, at)) in
                  elim (ℕ_discrete j k) [
                    | yes same ↦
                        let both : Path (Option MemoryGeneration) (some g) (some m) =
                          sym there ∙ ap (λ x. find x r) (sym same) ∙ found in
                        let g_is : g ≡ m = cc in absurd (inactive (ap (λ x. x.status) g_is ∙ is))
                    | no other ↦ (m, find-save_other j k new m r other found, is, own)
                  ]
            ];
        alone = λ j m found is.
            let step = lookup-insert String-discrete m.partition_key p k r.active_generations in
            elim (find-save j k new m r found) [
              | inl (j_is, m_is) ↦
                  let own : p ≡ m.partition_key = ap (λ x. x.partition_key) m_is in
                  ground (arith, step, own, j_is)
              | inr (_, old) ↦
                  let (apart, own) = h.alone j m old is in ground (arith, step, apart, own)
            ];
      })
