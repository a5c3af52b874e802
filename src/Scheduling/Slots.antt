-- ===== src/Scheduling/Slots.antt =====
-- The bound of `_OwnedBoundedExecutor` (app/analytics/scheduling.py), whatever order its calls and
-- the pool's callbacks come in.
use onlyfans_conversational.Prelude.{
  ℕ, ◌+◌, Bool, List, [], ◌∷◌, ◌≡◌, refl, arith, length, filter, not, holds, ℕ_discrete, Bool-cases,
  inl, inr, false, true, suc, leb, Result, ok, err,
}
use onlyfans_conversational.Prelude.Membership.{elem}
use onlyfans_conversational.Scheduling.Executor.{
  Executor, SubmitError, new_executor, acquire, submit_locked, completed, begin_shutdown,
}

-- The calls of `submit` that are in their second step, after the semaphore's answer.
abbrev pub waiting_after : Result SubmitError Unit → ℕ → ℕ
waiting_after (ok done) waiting = suc waiting
waiting_after (err e) waiting = waiting

-- One step of a call of the executor, with the number of calls that took a slot and wait for the lock; a
-- future that the pool makes is a new one.
pub data ExecutorStep : Executor × ℕ → Executor × ℕ → Type 0 where
  acquiring :
      {e : Executor} {waiting : ℕ}
      → ExecutorStep (e, waiting) ((acquire e).1, waiting_after (acquire e).0 waiting)
  submitting :
      {e : Executor} {waiting : ℕ} (takes : Bool) (future : ℕ)
      → elem ℕ_discrete future e.futures ≡ false
      → ExecutorStep (e, suc waiting) ((submit_locked takes future e).1, waiting)
  completing :
      {e : Executor} {waiting : ℕ} (future : ℕ)
      → ExecutorStep (e, waiting) (completed future e, waiting)
  closing : {e : Executor} {waiting : ℕ} → ExecutorStep (e, waiting) ((begin_shutdown e).1, waiting)

pub data ExecutorReach (max_tasks : ℕ) : Executor × ℕ → Type 0 where
  new : ExecutorReach max_tasks (new_executor max_tasks, 0)
  next :
      {x y : Executor × ℕ}
      → ExecutorReach max_tasks x
      → ExecutorStep x y
      → ExecutorReach max_tasks y

-- No future is listed twice.
abbrev IsUnique : List ℕ → Type 0
IsUnique [] = Unit
IsUnique (x ∷ xs) = (elem ℕ_discrete x xs ≡ false) × IsUnique xs

abbrev without : ℕ → List ℕ → List ℕ
without x xs = filter (λ f. not (holds (ℕ_discrete f x))) xs

without-absent : (x : ℕ) (xs : List ℕ) → elem ℕ_discrete x xs ≡ false → without x xs ≡ xs
unfolding elem ℕ_discrete
without-absent x [] h = refl
without-absent x (y ∷ ys) h = ground (arith, without-absent x ys)

length-without :
    (x : ℕ) (xs : List ℕ)
    → IsUnique xs
    → elem ℕ_discrete x xs ≡ true
    → length (without x xs) + 1 ≡ length xs
unfolding elem
length-without x [] u h = cc
length-without x (y ∷ ys) u h = elim (ℕ_discrete y x) [
  | yes e ↦ ground (arith, without-absent x ys, u.0, e)
  | no e ↦ ground (arith, length-without x ys u.1)
]

elem-without :
    (y x : ℕ) (xs : List ℕ)
    → elem ℕ_discrete y xs ≡ false
    → elem ℕ_discrete y (without x xs) ≡ false
unfolding elem
elem-without y x [] h = refl
elem-without y x (z ∷ zs) h = ground (arith, elem-without y x zs)

without-IsUnique : (x : ℕ) (xs : List ℕ) → IsUnique xs → IsUnique (without x xs)
without-IsUnique x [] u = tt
without-IsUnique x (y ∷ ys) u = ground (arith, without-IsUnique x ys u.1, elem-without y x ys u.0)

-- Every slot that is not free belongs to one future, or to one call that waits for the lock.
abbrev pub IsAccounted : ℕ → Executor × ℕ → Type 0
IsAccounted max_tasks (e, waiting) =
    (e.slots + length e.futures + waiting ≡ max_tasks) × IsUnique e.futures

ExecutorStep-IsAccounted :
    (max_tasks : ℕ) (x y : Executor × ℕ)
    → IsAccounted max_tasks x
    → ExecutorStep x y
    → IsAccounted max_tasks y
unfolding acquire submit_locked completed begin_shutdown
ExecutorStep-IsAccounted n x y h (acquiring {e = e} {waiting = waiting}) =
    elim (Bool-cases (leb e.slots 0)) [
      | inl none_free ↦ rw none_free h
      | inr free ↦ rw free (ground (arith, h.0, free), h.1)
    ]
ExecutorStep-IsAccounted n x y h (submitting {e = e} takes future fresh) =
    elim (Bool-cases e.shutdown) [
      | inl shut ↦ rw shut (omega (arith, h.0), h.1)
      | inr running ↦ elim (Bool-cases takes) [
        | inl taken ↦ rw (running, taken) (omega (arith, h.0), (fresh, h.1))
        | inr refused ↦ rw (running, refused) (omega (arith, h.0), h.1)
      ]
    ]
ExecutorStep-IsAccounted n x y h (completing {e = e} future) =
    elim (Bool-cases (elem ℕ_discrete future e.futures)) [
      | inl known ↦ rw known (
        ground (arith, length-without future e.futures h.1 known, h.0),
        without-IsUnique future e.futures h.1,
      )
      | inr absent ↦ rw absent h
    ]
ExecutorStep-IsAccounted n x y h closing = h

-- However submissions, completions and a shutdown follow each other and interleave, the free slots,
-- the futures held and the calls that took a slot and wait for the lock always add up to
-- `max_tasks`, and no future is held twice: the semaphore is released exactly once for each slot
-- taken, also on the error paths of `submit`.
pub ExecutorReach-IsAccounted :
    (max_tasks : ℕ) (x : Executor × ℕ) → ExecutorReach max_tasks x → IsAccounted max_tasks x
ExecutorReach-IsAccounted n x new = (omega arith, tt)
ExecutorReach-IsAccounted n x (next {x = before} reach step) =
    ExecutorStep-IsAccounted n before x (ExecutorReach-IsAccounted n before reach) step
