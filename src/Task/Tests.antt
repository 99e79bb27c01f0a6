-- ===== src/Task/Tests.antt =====
-- Tests of the tasks.
use snow.Base.{
  Option, Result, Returns, [], arith, if◌then◌else◌, none, ok, some, suc, zero, ℕ, ◌%◌, ◌+◌, ◌==◌,
  ◌∷◌,
}
use snow.Task.{new_task, parallel_for_each}
use snow.Task.Parallel.{Looped, ThrowsValues, parallel_for_each-visits, visits}
use snow.Value.{Word}

-- The state is how many calls there were; the calls at odd counts throw their count.
abbrev odd_throws : ℕ → ℕ → Option Word × ℕ
odd_throws s i = (if s % 2 == 0 then none else some s, suc s)

odd_throws-ThrowsValues : ThrowsValues odd_throws
odd_throws-ThrowsValues zero i e h = cc
odd_throws-ThrowsValues (suc s) i e h = ground arith

parallel_for_each-visits_example :
    Returns
      (Looped (λ es. 24) (1 ∷ 3 ∷ []) (new_task ∷ []) 4)
      (parallel_for_each (λ es. 24) odd_throws 4 (new_task ∷ []) 0)
unfolding visits
parallel_for_each-visits_example =
    parallel_for_each-visits (λ es. 24) odd_throws 4 (new_task ∷ []) 0 odd_throws-ThrowsValues

abbrev counts : ℕ → Word → Result (Word × ℕ)
counts s closure = ok (closure + 1, suc s)
