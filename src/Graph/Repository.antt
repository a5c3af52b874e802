-- ===== src/Graph/Repository.antt =====
-- `InMemoryGraphRepository` of app/analytics/graph_store.py and the leases of its writers, without
-- the nodes and edges of a generation. A generation's id is a UUID, whose texts and numbers are
-- ordered alike: here it is the number. A clock reading and a new UUID are arguments; whether a
-- partition's key is an opaque account reference is a parameter.
use onlyfans_conversational.Prelude.{
  ℕ, zero, suc, ◌+◌, String, String-discrete, ℕ_discrete, Option, none, some, Bool, true, false,
  List, [], ◌∷◌, ◌&&◌, ◌||◌, not, holds, filter, if◌then◌else◌, leb, ltb, Result, ok, err,
}
use onlyfans_conversational.Prelude.Dict
use onlyfans_conversational.Prelude.Dict.{Dict}
use onlyfans_conversational.Prelude.Sorting.{sort}

pub data GenerationStatus : Type 0 where
  building validated active retired : GenerationStatus

pub record MemoryGeneration : Type 0 where
  pub partition_key : String
  pub source_revision : ℕ
  pub owner_token : String
  pub lease_expires_at : ℕ
  pub status : GenerationStatus

pub record GraphRepository : Type 0 where
  pub generations : Dict ℕ MemoryGeneration
  pub active_generations : Dict String ℕ

pub record Retention : Type 0 where
  pub rollback_retention : ℕ
  pub gc_batch_size : ℕ

pub data GraphError : Type 0 where
  input_invalid generation_missing not_validated ownership_lost active_generation_changed
        not_reclaimable :
      GraphError

abbrev pub new_repository : GraphRepository
new_repository = record { generations = []; active_generations = [] }

abbrev pub Changed : Type 0
Changed = Result GraphError Unit × GraphRepository

abbrev pub is_building : GenerationStatus → Bool
is_building GenerationStatus.building = true
is_building _ = false

abbrev pub is_validated : GenerationStatus → Bool
is_validated GenerationStatus.validated = true
is_validated _ = false

abbrev pub is_retired : GenerationStatus → Bool
is_retired GenerationStatus.retired = true
is_retired _ = false

unfoldable pub find : ℕ → GraphRepository → Option MemoryGeneration
find k r = Dict.lookup ℕ_discrete k r.generations

unfoldable pub save : ℕ → MemoryGeneration → GraphRepository → GraphRepository
save k g r = record r { generations = Dict.insert ℕ_discrete k g r.generations }

abbrev pub with_status : GenerationStatus → MemoryGeneration → MemoryGeneration
with_status status g = record g { status = status }

-- The owner's token is right and its lease has not run out.
abbrev pub is_leased : MemoryGeneration → String → ℕ → Bool
is_leased g token now = holds (String-discrete g.owner_token token) && ltb now g.lease_expires_at

unfoldable pub begin_generation :
    (String → Bool) → String → ℕ → String → ℕ → ℕ → ℕ → GraphRepository → Changed
begin_generation is_account_ref partition revision token lease k now r =
    if holds (String-discrete partition "") || leb lease 0 || not (is_account_ref partition)
    then (err input_invalid, r)
    else (
      ok tt,
      save k
          (record {
            partition_key = partition;
            source_revision = revision;
            owner_token = token;
            lease_expires_at = now + lease;
            status = GenerationStatus.building;
          })
          r,
    )

abbrev pub take {ℓ} : {A : Type ℓ} → ℕ → List A → List A
take zero xs = []
take (suc n) [] = []
take (suc n) (x ∷ xs) = x ∷ take n xs

abbrev pub drop {ℓ} : {A : Type ℓ} → ℕ → List A → List A
drop zero xs = xs
drop (suc n) [] = []
drop (suc n) (x ∷ xs) = drop n xs

abbrev pub is_retired_of : String → Option MemoryGeneration → Bool
is_retired_of partition none = false
is_retired_of partition (some g) =
    holds (String-discrete g.partition_key partition) && is_retired g.status

-- The generations that `_collect_locked` removes, in its order.
unfoldable pub collected : Retention → String → GraphRepository → List ℕ
collected retention partition r = take retention.gc_batch_size (
    drop retention.rollback_retention (
      sort (λ j k. leb k j)
        (filter (λ k. is_retired_of partition (find k r)) (Dict.keys r.generations))))

unfoldable pub erase_all : List ℕ → Dict ℕ MemoryGeneration → Dict ℕ MemoryGeneration
erase_all [] d = d
erase_all (k ∷ ks) d = erase_all ks (Dict.erase ℕ_discrete k d)

-- `_collect_locked`
unfoldable pub collect : Retention → String → GraphRepository → GraphRepository
collect retention partition r = record r {
  generations = erase_all (collected retention partition r) r.generations;
}

abbrev pub same_generation : Option ℕ → Option ℕ → Bool
same_generation none none = true
same_generation none (some k) = false
same_generation (some j) none = false
same_generation (some j) (some k) = holds (ℕ_discrete j k)

-- Of `activate`, whose owner token may be none.
abbrev pub is_leased_by : MemoryGeneration → Option String → ℕ → Bool
is_leased_by g none now = false
is_leased_by g (some token) now = is_leased g token now

-- The tail of `activate`, from its first change on.
unfoldable pub promote : Retention → ℕ → MemoryGeneration → GraphRepository → GraphRepository
promote retention k g r =
    let promoted = save k (with_status GenerationStatus.active g) r in
    collect retention g.partition_key (record promoted {
      active_generations =
          Dict.insert String-discrete g.partition_key k promoted.active_generations;
    })

abbrev pub replace_active :
    Option MemoryGeneration → Retention → ℕ → ℕ → MemoryGeneration → GraphRepository → Changed
replace_active none retention e k g r = (err generation_missing, r)
replace_active (some previous) retention e k g r =
    (ok tt, promote retention k g (save e (with_status GenerationStatus.retired previous) r))

abbrev pub activate_over : Option ℕ → Retention → ℕ → MemoryGeneration → GraphRepository → Changed
activate_over none retention k g r = (ok tt, promote retention k g r)
activate_over (some e) retention k g r = replace_active (find e r) retention e k g r

abbrev pub activate_found :
    Option MemoryGeneration
    → Retention
    → ℕ
    → Option ℕ
    → Option String
    → ℕ
    → GraphRepository
    → Changed
activate_found none retention k expected token now r = (err generation_missing, r)
activate_found (some g) retention k expected token now r =
    if not (is_validated g.status)
    then (err not_validated, r)
    else if not (is_leased_by g token now)
    then (err ownership_lost, r)
    else if not (
        same_generation (Dict.lookup String-discrete g.partition_key r.active_generations) expected)
    then (err active_generation_changed, r)
    else activate_over expected retention k g r

unfoldable pub activate : Retention → ℕ → Option ℕ → Option String → ℕ → GraphRepository → Changed
activate retention k expected token now r =
    activate_found (find k r) retention k expected token now r

abbrev pub is_unpublished : GenerationStatus → Bool
is_unpublished status = is_building status || is_validated status

abbrev pub retire_found :
    Option MemoryGeneration
    → (MemoryGeneration → Bool)
    → GraphError
    → Retention
    → ℕ
    → GraphRepository
    → Changed
retire_found none allowed refusal retention k r = (err generation_missing, r)
retire_found (some g) allowed refusal retention k r =
    if is_unpublished g.status && allowed g
    then (
      ok tt,
      collect retention g.partition_key (save k (with_status GenerationStatus.retired g) r),
    )
    else (err refusal, r)

unfoldable pub discard_generation : Retention → ℕ → String → ℕ → GraphRepository → Changed
discard_generation retention k token now r =
    retire_found (find k r) (λ g. is_leased g token now) ownership_lost retention k r

unfoldable pub reclaim_expired_generation : Retention → ℕ → ℕ → GraphRepository → Changed
reclaim_expired_generation retention k now r =
    retire_found (find k r) (λ g. leb g.lease_expires_at now) not_reclaimable retention k r

abbrev pub build_found :
    Option MemoryGeneration
    → (MemoryGeneration → MemoryGeneration)
    → String
    → ℕ
    → ℕ
    → GraphRepository
    → Changed
build_found none change token now k r = (err generation_missing, r)
build_found (some g) change token now k r =
    if is_building g.status && is_leased g token now
    then (ok tt, save k (change g) r)
    else (err ownership_lost, r)

-- A writer's `refresh`
unfoldable pub refresh : ℕ → String → ℕ → ℕ → GraphRepository → Changed
refresh lease token now k r =
    build_found (find k r) (λ g. record g { lease_expires_at = now + lease }) token now k r

-- A writer's `validate`, once the generation's content has passed
unfoldable pub validate : String → ℕ → ℕ → GraphRepository → Changed
validate token now k r =
    build_found (find k r) (with_status GenerationStatus.validated) token now k r
