-- ===== src/Task.antt =====
-- snow/task-serial.c and the task stack of snow/task.c: a task for each element of a parallel loop, run one
-- after the other, the exceptions that end them, deferred tasks, and the barrier of the collector.
-- The tasks are a list, the current one first. A callback, which is a parameter, returns, or throws a value
-- out of all handlers of its own; it leaves the tasks as it found them.
pub mod Parallel
pub mod Deferred
mod Tests
use snow.Base.{
  Bool, List, Option, Result, [], assert, false, fault, if◌then◌else◌, none, not, ok, some, suc,
  trap, true, zero, ℕ, ◌+◌, ◌==◌, ◌>>=◌, ◌>>◌, ◌∷◌,
}
use snow.Exception.{Control, aborts, comes_back, restores, throw_exception}
use snow.Value.{Word, null}

-- `SnTask`: the exception that ended it, and its exception handlers.
pub record SnTask : Type 0 where
  pub exception : Word
  pub task_handlers : List Word

-- A task of zeros, as `memset` leaves it.
abbrev pub new_task : SnTask
new_task = record { exception = null; task_handlers = [] }

-- `snow_abort_current_task` up to the jump back to the base of the task
unfoldable pub abort_current_task : List SnTask → Word → Result (List SnTask)
abort_current_task [] exception = trap
abort_current_task (t ∷ ts) exception = do
  assert (t.exception == null)
  ok (record t { exception = exception } ∷ ts)

-- `snow_throw_exception` in the current task, if there is no handler: back at the base.
unfoldable pub ends_task : List SnTask → Option Word → Result (List SnTask)
ends_task ts none = ok ts
ends_task [] (some e) = fault
ends_task (t ∷ ts) (some e) = after_throw (throw_exception t.task_handlers e)
  where
    after_throw : List Word × Control (Unit {0}) → Result (List SnTask)
    after_throw (hs, aborts x) = abort_current_task (record t { task_handlers = hs } ∷ ts) x
    after_throw (hs, restores) = fault
    after_throw (hs, comes_back u) = fault

-- `current_task = task->previous`
unfoldable pub leave_task : List SnTask → Result (SnTask × List SnTask)
leave_task [] = fault
leave_task (t ∷ ts) = ok (t, ts)

-- The loop of `snow_parallel_for_each` over the indices `i … i + k`; the tasks that ended, in order.
unfoldable pub run_tasks {ℓ} :
    {S : Type ℓ}
    → (S → ℕ → Option Word × S)
    → (i k : ℕ) → List SnTask
    → S
    → Result (List SnTask × List SnTask × S)
run_tasks func i zero current s = ok ([], current, s)
run_tasks func i (suc k) current s = do
  (e, t) ← ok (func s i)
  during ← ends_task (new_task ∷ current) e
  (task, previous) ← leave_task during
  (tasks, after, u) ← run_tasks func (i + 1) k previous t
  ok (task ∷ tasks, after, u)

-- The first loop of `collect_exceptions_and_rethrow`
unfoldable pub collect_exceptions : List SnTask → List Word
collect_exceptions [] = []
collect_exceptions (t ∷ ts) =
    let rest = collect_exceptions ts in if t.exception == null then rest else t.exception ∷ rest

-- What is thrown again; `array_object` gives the new object of an array.
unfoldable pub rethrown : (List Word → Word) → List Word → Option Word
rethrown array_object [] = none
rethrown array_object (e ∷ []) = some e
rethrown array_object (e ∷ f ∷ es) = some (array_object (e ∷ f ∷ es))

-- `snow_parallel_for_each`, with the exception that it throws in the caller's task
unfoldable pub parallel_for_each {ℓ} :
    {S : Type ℓ}
    → (List Word → Word)
    → (S → ℕ → Option Word × S)
    → ℕ
    → List SnTask
    → S
    → Result (Option Word × List SnTask × S)
parallel_for_each array_object func num_elements current s = do
  (tasks, after, t) ← run_tasks func 0 num_elements current s
  ok (rethrown array_object (collect_exceptions tasks), after, t)

-- `snow_with_each_task_do`, from the current task down
unfoldable pub with_each_task_do {ℓ} : {S : Type ℓ} → (S → SnTask → S) → List SnTask → S → S
with_each_task_do func [] s = s
with_each_task_do func (t ∷ ts) s = with_each_task_do func ts (func s t)

-- `snow_gc_barrier_enter` and `snow_gc_barrier_leave`
unfoldable pub gc_barrier_enter : Bool → Result Bool
gc_barrier_enter barrier = do assert (not barrier); ok true

unfoldable pub gc_barrier_leave : Bool → Result Bool
gc_barrier_leave barrier = do assert barrier; ok false

-- `SnDeferredTask`
pub record DeferredTask : Type 0 where
  pub closure : Word
  pub task_result : Word

unfoldable pub deferred_call : Word → DeferredTask
deferred_call closure = record { closure = closure; task_result = null }

-- `snow_deferred_task_wait`; `call` is the call of a closure without arguments.
unfoldable pub deferred_task_wait {ℓ} :
    {S : Type ℓ}
    → (S → Word → Result (Word × S))
    → DeferredTask
    → S
    → Result (Word × DeferredTask × S)
deferred_task_wait call task s =
    if task.task_result == null
    then (do (w, t) ← call s task.closure; ok (w, record task { task_result = w }, t))
    else ok (task.task_result, task, s)
