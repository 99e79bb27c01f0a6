-- ===== src/Task/Deferred.antt =====
-- A deferred task calls its closure at the first wait, and has the result from then on.
use snow.Base.{Result, arith, ok, refl, suc, zero, ℕ, ◌>>=◌, ◌≡◌, ◌≢◌}
use snow.Task.{DeferredTask, deferred_call, deferred_task_wait}
use snow.Value.{Word, null}

-- `n` waits one after the other, and the last result.
abbrev pub wait_times {ℓ} :
    {S : Type ℓ}
    → (S → Word → Result (Word × S))
    → ℕ
    → Word
    → DeferredTask
    → S
    → Result (Word × DeferredTask × S)
wait_times call zero w task s = ok (w, task, s)
wait_times call (suc n) w task s = do
  (v, task', t) ← deferred_task_wait call task s
  wait_times call n v task' t

wait_done {ℓ} :
    {S : Type ℓ} (call : S → Word → Result (Word × S)) (task : DeferredTask) (s : S)
    → task.task_result ≢ null
    → deferred_task_wait call task s ≡ ok (task.task_result, task, s)
unfolding deferred_task_wait
wait_done call task s h = ground arith

wait_times_done {ℓ} :
    {S : Type ℓ} (call : S → Word → Result (Word × S)) (n : ℕ) (task : DeferredTask) (s : S)
    → task.task_result ≢ null
    → wait_times call n task.task_result task s ≡ ok (task.task_result, task, s)
wait_times_done call zero task s h = refl
wait_times_done call (suc n) task s h =
    rw (wait_done call task s h) (wait_times_done call n task s h)

-- However often a new deferred task is waited for, its closure is called once: every wait returns what
-- the call returned, if that is not NULL, and the state is the one after the call.
pub deferred_task_wait-deferred_call {ℓ} :
    {S : Type ℓ} (call : S → Word → Result (Word × S)) (n : ℕ) (closure v w : Word) (s t : S)
    → call s closure ≡ ok (w, t)
    → w ≢ null
    → wait_times call (suc n) v (deferred_call closure) s
      ≡ ok (w, record { closure = closure; task_result = w }, t)
unfolding deferred_task_wait deferred_call
deferred_task_wait-deferred_call call n closure v w s t c h =
    rw c (wait_times_done call n (record { closure = closure; task_result = w }) t h)
