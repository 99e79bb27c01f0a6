-- ===== src/Threads.antt =====
-- snow/task-dispatch.c: the list of the states of the threads. A pointer is a number, 0 is NULL; the
-- list's lock is held over each function. A state's semaphore and the thread's own data are not followed.
pub mod Finalize
pub mod Linked
pub mod Start
mod Tests
use snow.Base.{
  List, Option, Result, [], assert, if◌then◌else◌, none, ok, some, suc, zero, ℕ, ◌==◌, ◌>>=◌, ◌>>◌,
  ◌∷◌,
}

-- `SnDispatchThreadState`
pub record ThreadState : Type 0 where
  pub current_task : ℕ
  pub previous : ℕ
  pub next : ℕ

-- Memory, and the variable `state`, the first of the list.
pub record Dispatch : Type 0 where
  pub at : ℕ → ThreadState
  pub state : ℕ

abbrev pub write : (ℕ → ThreadState) → ℕ → ThreadState → ℕ → ThreadState
write m a t = λ x. if x == a then t else m x

-- `p->previous = q` and `p->next = q`
abbrev pub set_previous : (ℕ → ThreadState) → ℕ → ℕ → ℕ → ThreadState
set_previous m p q = write m p (record (m p) { previous = q })

abbrev pub set_next : (ℕ → ThreadState) → ℕ → ℕ → ℕ → ThreadState
set_next m p q = write m p (record (m p) { next = q })

-- The rest of `init_thread`, from `if (s->next)` on.
unfoldable pub link_first : (ℕ → ThreadState) → (s next : ℕ) → Result Dispatch
link_first m s next = if next == 0 then ok (record { at = m; state = s }) else (do
  _ ← assert ((m next).previous == 0)
  ok (record { at = set_previous m next s; state = s }))

-- `init_thread`, with the new memory at `s`
unfoldable pub init_thread : Dispatch → ℕ → Result Dispatch
unfolding link_first
init_thread d s =
    link_first (write d.at s (record { current_task = 0; previous = 0; next = d.state })) s d.state

unfoldable pub unlink_next : (ℕ → ThreadState) → ℕ → ℕ → ThreadState
unlink_next m s = if (m s).next == 0 then m else set_previous m (m s).next (m s).previous

unfoldable pub unlink_previous : (ℕ → ThreadState) → ℕ → ℕ → ThreadState
unlink_previous m s = if (m s).previous == 0 then m else set_next m (m s).previous (m s).next

-- `finalize_thread`
unfoldable pub finalize_thread : Dispatch → ℕ → Dispatch
finalize_thread d s =
    let m = unlink_previous (unlink_next d.at s) s in record { at = m; state = (m s).next }

abbrev and_visit : ℕ → Option (List ℕ) → Option (List ℕ)
and_visit s none = none
and_visit s (some rest) = some (s ∷ rest)

unfoldable pub visit_from : (fuel : ℕ) → (ℕ → ThreadState) → ℕ → Option (List ℕ)
visit_from zero m s = none
visit_from (suc fuel) m s =
    let rest = and_visit s (visit_from fuel m (m s).next) in if s == 0 then some [] else rest

-- `with_each_thread_do`: the states that the function is called with.
unfoldable pub each_thread : ℕ → Dispatch → Option (List ℕ)
unfolding visit_from
each_thread fuel d = visit_from fuel d.at d.state
