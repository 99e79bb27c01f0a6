-- ===== src/Threads/Tests.antt =====
-- Tests of the list of threads.
use snow.Base.{Returns, [], arith, if◌then◌else◌, refl, some, trap, ◌==◌, ◌∷◌, ◌≡◌}
use snow.Threads.{Dispatch, each_thread, finalize_thread, init_thread, unlink_next, unlink_previous}
use snow.Threads.Finalize.{finalize_thread-visits}
use snow.Threads.Linked.{IsThreads}
use snow.Threads.Start.{init_thread-IsThreads}

-- Three threads, at 8, 16 and 24.
abbrev three : Dispatch
three = record {
  at = λ a.
      if a == 8
      then record { current_task = 0; previous = 0; next = 16 }
      else if a == 16
      then record { current_task = 0; previous = 8; next = 24 }
      else record { current_task = 0; previous = 16; next = 0 };
  state = 8;
}

three-IsThreads : IsThreads three (8 ∷ 16 ∷ 24 ∷ [])
three-IsThreads = record {
  linked = (
    refl,
    λ e. omega arith,
    refl,
    (refl, λ e. omega arith, refl, (refl, λ e. omega arith, refl, refl)),
  );
  distinct = ((λ e. omega arith, (λ e. omega arith, tt)), ((λ e. omega arith, tt), (tt, tt)));
}

finalize_thread-visits_example : each_thread 4 (finalize_thread three 16) ≡ some (24 ∷ [])
finalize_thread-visits_example =
    finalize_thread-visits three (8 ∷ []) 16 (24 ∷ []) 4 three-IsThreads (omega arith)

init_thread-IsThreads_example :
    Returns (λ e. IsThreads e (32 ∷ 8 ∷ 16 ∷ 24 ∷ [])) (init_thread three 32)
init_thread-IsThreads_example =
    init_thread-IsThreads three (8 ∷ 16 ∷ 24 ∷ []) 32 three-IsThreads (λ e. omega arith)
      (λ e. omega arith, (λ e. omega arith, (λ e. omega arith, tt)))

-- When the second of three threads has ended, no thread can be added.
cannot_start : init_thread (finalize_thread three 16) 32 ≡ trap
unfolding finalize_thread init_thread unlink_next unlink_previous
cannot_start = refl
