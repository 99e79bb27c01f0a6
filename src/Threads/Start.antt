-- ===== src/Threads/Start.antt =====
-- The list of threads before and after a thread starts (`init_thread`).
use snow.Base.{
  List, Returns, [], ap, arith, false, ok, refl, returns, subst, sym, true, ℕ, ◌==◌, ◌∙◌, ◌∷◌, ◌≡◌,
  ◌≢◌,
}
use snow.Threads.{Dispatch, ThreadState, init_thread, set_previous, write}
use snow.Threads.Linked.{IsThreads, Linked, Linked-write, NotIn, relinked, write_other, write_same}

-- A new state, in front of `x`.
abbrev fresh : ℕ → ThreadState
fresh x = record { current_task = 0; previous = 0; next = x }

init_thread-first :
    (m : ℕ → ThreadState) (s : ℕ)
    → s ≢ 0
    → Returns (λ e. IsThreads e (s ∷ [])) (init_thread (record { at = m; state = 0 }) s)
unfolding init_thread
init_thread-first m s nonzero =
    let e = write_same m s (fresh 0) in
    returns (record {
      linked = (
        refl,
        nonzero,
        ap (λ (r : ThreadState). r.previous) e,
        ap (λ (r : ThreadState). r.next) e,
      );
      distinct = (tt, tt);
    })

init_thread-next :
    (m : ℕ → ThreadState) (s x : ℕ) (xs : List ℕ)
    → IsThreads (record { at = m; state = x }) (x ∷ xs)
    → s ≢ 0
    → NotIn s (x ∷ xs)
    → Returns (λ e. IsThreads e (s ∷ x ∷ xs)) (init_thread (record { at = m; state = x }) s)
unfolding init_thread
init_thread-next m s x xs t nonzero new =
    let m₁ = write m s (fresh x) in
    let away : (x == 0) ≡ false = ground (arith, t.linked.1) in
    let here : m₁ x ≡ m x = write_other m s x (fresh x) new.0 in
    let none_before : ((m₁ x).previous == 0) ≡ true =
      ap (λ (r : ThreadState). r.previous == 0) here ∙ ap (λ v. v == 0) t.linked.2 in
    let done : init_thread (record { at = m; state = x }) s
        ≡ ok (record { at = set_previous m₁ x s; state = s }) =
      rw away (rw none_before refl) in
    let at_s : set_previous m₁ x s s ≡ fresh x =
      write_other m₁ x s _ (λ e. new.0 (sym e)) ∙ write_same m s (fresh x) in
    let rest : Linked (set_previous m₁ x s) s x (x ∷ xs) =
      relinked m₁ 0 x s xs t.distinct.0 (Linked-write m s (fresh x) 0 x (x ∷ xs) new t.linked) in
    subst (Returns (λ e. IsThreads e (s ∷ x ∷ xs))) (sym done) (
      returns (record {
        linked = (
          refl,
          nonzero,
          ap (λ (r : ThreadState). r.previous) at_s,
          subst (λ h. Linked (set_previous m₁ x s) s h (x ∷ xs))
              (sym (ap (λ (r : ThreadState). r.next) at_s)) rest,
        );
        distinct = (new, t.distinct);
      }))

-- A new thread whose state is new memory goes before the others, and the list stays linked.
pub init_thread-IsThreads :
    (d : Dispatch) (xs : List ℕ) (s : ℕ)
    → IsThreads d xs
    → s ≢ 0
    → NotIn s xs
    → Returns (λ e. IsThreads e (s ∷ xs)) (init_thread d s)
init_thread-IsThreads d [] s t nonzero new =
    subst
      (λ h. Returns (λ e. IsThreads e (s ∷ [])) (init_thread (record { at = d.at; state = h }) s))
      (sym t.linked) (init_thread-first d.at s nonzero)
init_thread-IsThreads d (x ∷ xs) s t nonzero new =
    let e : d.state ≡ x = t.linked.0 in
    subst
      (λ h.
        Returns (λ e. IsThreads e (s ∷ x ∷ xs)) (init_thread (record { at = d.at; state = h }) s))
      (sym e)
      (init_thread-next d.at s x xs
        (record { linked = (refl, t.linked.1, t.linked.2, t.linked.3); distinct = t.distinct })
        nonzero new)
