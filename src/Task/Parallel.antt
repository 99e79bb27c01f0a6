-- ===== src/Task/Parallel.antt =====
-- Every element of a parallel loop is visited, and what its callbacks throw is thrown again at the end.
use snow.Base.{
  List, Option, Returns, Returns-bind, [], ap, arith, length, none, ok, refl, returns, some, subst,
  suc, zero, ℕ, ◌+◌, ◌<◌, ◌∙◌, ◌∷◌, ◌≡◌, ◌≢◌,
}
use snow.Exception.{throw_exception}
use snow.Task.{
  SnTask, abort_current_task, collect_exceptions, ends_task, leave_task, new_task,
  parallel_for_each, rethrown, run_tasks,
}
use snow.Value.{Word, null}

-- The loop without tasks: the callback for each index in order, and what it threw.
unfoldable pub visits {ℓ} : {S : Type ℓ} → (S → ℕ → Option Word × S) → (i k : ℕ) → S → List Word × S
visits func i zero s = ([], s)
visits func i (suc k) s =
    let (e, t) = func s i in
    let (es, u) = visits func (i + 1) k t in (elim e [ none ↦ es | some x ↦ x ∷ es ], u)

-- No callback throws NULL, which is how a task says that nothing ended it.
abbrev pub ThrowsValues {ℓ} : {S : Type ℓ} → (S → ℕ → Option Word × S) → Type ℓ
ThrowsValues {S} func = (s : S) (i : ℕ) (e : Word) → (func s i).0 ≡ some e → e ≢ null

abbrev ended : Option Word → SnTask
ended none = new_task
ended (some e) = record { exception = e; task_handlers = [] }

ends_task-ended :
    (ts : List SnTask) (e : Option Word) → ends_task (new_task ∷ ts) e ≡ ok (ended e ∷ ts)
unfolding ends_task throw_exception abort_current_task
ends_task-ended ts none = refl
ends_task-ended ts (some e) = refl

collect_ended :
    (e : Option Word) (ts : List SnTask)
    → ((x : Word) → e ≡ some x → x ≢ null)
    → collect_exceptions (ended e ∷ ts)
      ≡ elim e [ none ↦ collect_exceptions ts | some x ↦ x ∷ collect_exceptions ts ]
unfolding collect_exceptions
collect_ended none ts h = refl
collect_ended (some zero) ts h = absurd (h 0 refl refl)
collect_ended (some (suc e)) ts h = ground arith

run_tasks-visits {ℓ} :
    {S : Type ℓ} (func : S → ℕ → Option Word × S) (i k : ℕ) (current : List SnTask) (s : S)
    → ThrowsValues func
    → Returns
        (λ (tasks, after, t).
          (collect_exceptions tasks ≡ (visits func i k s).0)
          × (after ≡ current)
          × (t ≡ (visits func i k s).1))
        (run_tasks func i k current s)
unfolding run_tasks visits leave_task collect_exceptions
run_tasks-visits func i zero current s h = returns (refl, refl, refl)
run_tasks-visits func i (suc k) current s h = rw (ends_task-ended current (func s i).0) (
    Returns-bind (run_tasks-visits func (i + 1) k current (func s i).1 h)
      (λ (tasks, after, u) (q, a, b). returns (
        collect_ended (func s i).0 tasks (h s i)
            ∙ ap (λ es. elim (func s i).0 [ none ↦ es | some x ↦ x ∷ es ]) q,
        a,
        b,
      )))

-- What is thrown for what the callbacks threw: nothing, the one exception, or an array of several.
pub data Rethrows (array_object : List Word → Word) : List Word → Option Word → Type 0 where
  no_exception : Rethrows array_object [] none
  one_exception : (e : Word) → Rethrows array_object (e ∷ []) (some e)
  several_exceptions :
      (es : List Word) → 1 < length es → Rethrows array_object es (some (array_object es))

rethrown-Rethrows :
    (array_object : List Word → Word) (es : List Word)
    → Rethrows array_object es (rethrown array_object es)
unfolding rethrown
rethrown-Rethrows array_object [] = no_exception
rethrown-Rethrows array_object (e ∷ []) = one_exception e
rethrown-Rethrows array_object (e ∷ f ∷ es) = several_exceptions (e ∷ f ∷ es) (omega arith)

-- What a parallel loop leaves: what it throws, the tasks and the state.
abbrev pub Looped {ℓ} :
    {S : Type ℓ}
    → (List Word → Word)
    → List Word
    → List SnTask
    → S
    → Option Word × List SnTask × S
    → Type ℓ
Looped array_object es current s (x, after, t) =
    Rethrows array_object es x × (after ≡ current) × (t ≡ s)

-- If no callback throws NULL, a parallel loop calls the callback once for each index, in order and also
-- after a throw, with the caller's task current again at the end. Then it returns if none threw, throws
-- again what one threw, and throws an array of what several threw.
pub parallel_for_each-visits {ℓ} :
    {S : Type ℓ} (array_object : List Word → Word) (func : S → ℕ → Option Word × S) (n : ℕ)
    (current : List SnTask) (s : S)
    → ThrowsValues func
    → Returns
        (Looped array_object (visits func 0 n s).0 current (visits func 0 n s).1)
        (parallel_for_each array_object func n current s)
unfolding parallel_for_each
parallel_for_each-visits array_object func n current s h =
    Returns-bind (run_tasks-visits func 0 n current s h) (λ (tasks, after, t) (q, a, b). returns (
      subst (λ es. Rethrows array_object es (rethrown array_object (collect_exceptions tasks))) q
          (rethrown-Rethrows array_object (collect_exceptions tasks)),
      a,
      b,
    ))
