-- ===== src/Threads/Finalize.antt =====
-- The list of threads before and after a thread ends (`finalize_thread`).
use snow.Base.{
  Bool-cases, List, [], ap, arith, false, inl, inr, length, refl, some, subst, suc, sym, trap, true,
  zero, ℕ, ◌++◌, ◌<◌, ◌==◌, ◌∙◌, ◌∷◌, ◌≡◌, ◌≢◌,
}
use snow.Threads.{
  Dispatch, ThreadState, each_thread, finalize_thread, init_thread, set_previous, unlink_next,
  unlink_previous, visit_from,
}
use snow.Threads.Linked.{Distinct, IsThreads, Linked, Linked-write, NotIn, relinked, write_other}

NotIn_zero : (m : ℕ → ThreadState) (before h : ℕ) (xs : List ℕ) → Linked m before h xs → NotIn 0 xs
NotIn_zero m before h [] l = tt
NotIn_zero m before h (p ∷ ps) (e, n, b, l) = (n, NotIn_zero m p (m p).next ps l)

-- What is known of a state in the middle of a list, whatever stands before it.
abbrev Middle : (ℕ → ThreadState) → ℕ → List ℕ → Type 0
Middle m p after =
    NotIn (m p).previous (p ∷ after) × Linked m p (m p).next after × (p ≢ 0) × Distinct (p ∷ after)

middle :
    (m : ℕ → ThreadState) (pr h p : ℕ) (before after : List ℕ)
    → Linked m pr h (before ++ p ∷ after)
    → Distinct (before ++ p ∷ after)
    → NotIn pr (before ++ p ∷ after)
    → Middle m p after
middle m pr h p [] after (e, z, b, l) d n = (subst (λ v. NotIn v (p ∷ after)) (sym b) n, l, z, d)
middle m pr h p (q ∷ before) after (e, z, b, l) (nq, d) n =
    middle m q (m q).next p before after l d nq

unlink_previous-Linked :
    (m : ℕ → ThreadState) (p before h : ℕ) (xs : List ℕ)
    → NotIn (m p).previous (p ∷ xs)
    → Linked m before h xs
    → Linked (unlink_previous m p) before h xs × (unlink_previous m p p ≡ m p)
unfolding unlink_previous
unlink_previous-Linked m p before h xs (n, ns) l = elim (Bool-cases ((m p).previous == 0)) [
  | inl e ↦ rw e (l, refl)
  | inr e ↦
      rw e (Linked-write m (m p).previous _ before h xs ns l, write_other m (m p).previous p _ n)
]

unlink_next-Linked :
    (m : ℕ → ThreadState) (p : ℕ) (after : List ℕ)
    → Linked m p (m p).next after
    → Distinct (p ∷ after)
    → Linked (unlink_next m p) (m p).previous (m p).next after × (unlink_next m p p ≡ m p)
unfolding unlink_next
unlink_next-Linked m p [] e d =
    let last : ((m p).next == 0) ≡ true = ground arith in rw last (e, refl)
unlink_next-Linked m p (a ∷ as') l ((n, _), (na, _)) =
    let e : (m p).next ≡ a = l.0 in
    let away : ((m p).next == 0) ≡ false = ground (arith, l.1) in
    let there = subst (λ h. Linked m p h (a ∷ as')) e l in
    let new : Linked (set_previous m (m p).next (m p).previous) (m p).previous (m p).next
        (a ∷ as') =
      subst (λ h. Linked (set_previous m h (m p).previous) (m p).previous h (a ∷ as')) (sym e)
        (relinked m p a (m p).previous as' na there) in
    let m_is : unlink_next m p ≡ set_previous m (m p).next (m p).previous = rw away refl in
    subst (λ (k : ℕ → ThreadState). Linked k (m p).previous (m p).next (a ∷ as') × (k p ≡ m p))
      (sym m_is) (new, write_other m (m p).next p _ (λ x. n (sym (x ∙ e))))

-- Unlinking keeps the list behind the state, whose first now has the previous one of the state.
unlinked :
    (m : ℕ → ThreadState) (p : ℕ) (after : List ℕ)
    → Middle m p after
    → Linked (unlink_previous (unlink_next m p) p) (m p).previous (m p).next after
      × (unlink_previous (unlink_next m p) p p ≡ m p)
unlinked m p after (n, l, z, d) =
    let (l₁, e₁) = unlink_next-Linked m p after l d in
    let (l₂, e₂) =
      unlink_previous-Linked (unlink_next m p) p (m p).previous (m p).next after
        (subst (λ (t : ThreadState). NotIn t.previous (p ∷ after)) (sym e₁) n) l₁ in
    (l₂, e₂ ∙ e₁)

visit-Linked :
    (fuel : ℕ) (m : ℕ → ThreadState) (before h : ℕ) (xs : List ℕ)
    → length xs < fuel
    → Linked m before h xs
    → visit_from fuel m h ≡ some xs
unfolding visit_from
visit-Linked zero m before h xs f l = absurd (omega arith)
visit-Linked (suc fuel) m before h [] f e = rw e refl
visit-Linked (suc fuel) m before h (p ∷ ps) f (e, z, b, l) =
    let away : (p == 0) ≡ false = ground arith in
    rw (e, away) (rw (visit-Linked fuel m p (m p).next ps (omega arith) l) refl)

-- The previous state is no NULL when a state stands before.
previous_set :
    (m : ℕ → ThreadState) (pr h p : ℕ) (before after : List ℕ)
    → Linked m pr h (before ++ p ∷ after)
    → pr ≢ 0
    → (m p).previous ≢ 0
previous_set m pr h p [] after (e, z, b, l) n = rw b n
previous_set m pr h p (q ∷ before) after (e, z, b, l) n =
    previous_set m q (m q).next p before after l z

init_thread-again :
    (m : ℕ → ThreadState) (v h s : ℕ) (x : ℕ) (xs : List ℕ)
    → Linked m v h (x ∷ xs)
    → v ≢ 0
    → s ≢ x
    → init_thread (record { at = m; state = h }) s ≡ trap
unfolding init_thread
init_thread-again m v h s x xs (e, z, b, l) v_set other =
    let away : (x == 0) ≡ false = ground arith in
    let o : (x == s) ≡ false = ground arith in
    let nonzero : (v == 0) ≡ false = ground arith in rw (e, away) (rw o (rw (b, nonzero) refl))

abbrev zero_out : (d : Dispatch) (xs : List ℕ) → IsThreads d xs → NotIn 0 xs
zero_out d xs t = NotIn_zero d.at 0 d.state xs t.linked

next_same :
    (d : Dispatch) (before : List ℕ) (p : ℕ) (after : List ℕ)
    → IsThreads d (before ++ p ∷ after)
    → Linked (finalize_thread d p).at (d.at p).previous (d.at p).next after
      × ((finalize_thread d p).state ≡ (d.at p).next)
unfolding finalize_thread
next_same d before p after t =
    let mid = middle d.at 0 d.state p before after t.linked t.distinct (zero_out d _ t) in
    let (l, same) = unlinked d.at p after mid in (l, ap (λ (r : ThreadState). r.next) same)

-- When a thread ends, with distinct states in a list that is linked in both directions, the states behind
-- its own are all that is visited from then on, with more fuel than them: those before it are lost.
pub finalize_thread-visits :
    (d : Dispatch) (before : List ℕ) (p : ℕ) (after : List ℕ) (fuel : ℕ)
    → IsThreads d (before ++ p ∷ after)
    → length after < fuel
    → each_thread fuel (finalize_thread d p) ≡ some after
unfolding each_thread
finalize_thread-visits d before p after fuel t f =
    let (l, same) = next_same d before p after t in
    rw same (visit-Linked fuel (finalize_thread d p).at (d.at p).previous (d.at p).next after f l)

-- If there were states on both sides, the next new thread, at another address than the next state, fails
-- an assertion.
pub finalize_thread-init_thread :
    (d : Dispatch) (q : ℕ) (qs : List ℕ) (p x : ℕ) (xs : List ℕ) (s : ℕ)
    → IsThreads d ((q ∷ qs) ++ p ∷ x ∷ xs)
    → s ≢ x
    → init_thread (finalize_thread d p) s ≡ trap
finalize_thread-init_thread d q qs p x xs s t other =
    let (l, same) = next_same d (q ∷ qs) p (x ∷ xs) t in
    let before = previous_set d.at q (d.at q).next p qs (x ∷ xs) t.linked.3 t.linked.1 in
    let m = (finalize_thread d p).at in
    subst (λ h. init_thread (record { at = m; state = h }) s ≡ trap) (sym same)
      (init_thread-again m (d.at p).previous (d.at p).next s x xs l before other)
