-- ===== src/Codegen/Slots/Calls.antt =====
-- What calls and try statements do to the temporaries.
use snow.Base.{Option, arith, none, refl, some, ℕ, ◌+◌, ◌∷◌, ◌≡◌}
use snow.Codegen.{M}
use snow.Codegen.Ops.{Target}
use snow.Codegen.Nodes.Calls.{
  Called, closure, compile_arguments, compile_call_node, compile_called, member_of, push_named,
  push_unnamed,
}
use snow.Codegen.Slots.Rules.{Loses, Quiet-Loses, Uses-cast, Uses-then}
use snow.Codegen.Slots.Quiet.{codes-Quiet}
use snow.Codegen.Slots.Branches.{child_then}
use snow.Codegen.Slots.Steps.{Uses-Quiet-then, free_then, free_tmp-Uses, reserve_then}

abbrev pub LosesCalled : ℕ → Called → Type 0
LosesCalled n (member_of m name) = Loses n m
LosesCalled n (closure m) = Loses n m

abbrev pub LosesArguments : ℕ → Option (ℕ × (ℕ → M (Unit {0}))) → Type 0
LosesArguments n none = n ≡ 0
LosesArguments n (some (k, pushes)) = (t : ℕ) → Loses n (pushes t)

module _ (target : Target) where
  compile_called-Loses :
      (n s f : ℕ) (called : Called)
      → LosesCalled n called
      → Loses n (compile_called target s f called)
  unfolding compile_called
  compile_called-Loses n s f (member_of m name) p slots =
      child_then (p slots) (Quiet-Loses (codes-Quiet target _) slots)
  compile_called-Loses n s f (closure m) p slots =
      Uses-Quiet-then (codes-Quiet target _)
        (child_then (p slots) (Quiet-Loses (codes-Quiet target _) slots))

  pub push_named-Loses :
      {n : ℕ} {m : M (Unit {0})} (t name : ℕ) → Loses n m → Loses n (push_named target t name m)
  unfolding push_named
  push_named-Loses t name p slots = child_then (p slots) (Quiet-Loses (codes-Quiet target _) slots)

  pub push_unnamed-Loses :
      {n : ℕ} {m : M (Unit {0})} (t : ℕ) → Loses n m → Loses n (push_unnamed target t m)
  unfolding push_unnamed
  push_unnamed-Loses t p slots = child_then (p slots) (Quiet-Loses (codes-Quiet target _) slots)

  compile_arguments-Loses :
      (n t : ℕ) (arguments : Option (ℕ × (ℕ → M (Unit {0}))))
      → LosesArguments n arguments
      → Loses n (compile_arguments target t arguments)
  unfolding compile_arguments
  compile_arguments-Loses n t none e slots =
      Uses-cast (omega (arith, e)) (Quiet-Loses (codes-Quiet target _) slots)
  compile_arguments-Loses n t (some (k, pushes)) p slots =
      Uses-Quiet-then (codes-Quiet target _)
        (child_then (p t slots) (Quiet-Loses (codes-Quiet target _) slots))

  pub compile_call_node-Loses :
      (n k : ℕ) (called : Called) (arguments : Option (ℕ × (ℕ → M (Unit {0}))))
      → LosesCalled n called
      → LosesArguments k arguments
      → Loses (n + k) (compile_call_node target called arguments)
  unfolding compile_call_node
  compile_call_node-Loses n k called arguments p q slots = reserve_then λ s. reserve_then λ f.
      Uses-then (compile_called-Loses n s f called p (f ∷ s ∷ slots)) (
        reserve_then λ a. Uses-cast (omega arith) (
          Uses-then (compile_arguments-Loses k a arguments q (a ∷ f ∷ s ∷ slots)) (
            Uses-Quiet-then (codes-Quiet target _) (
              free_then a {rest = f ∷ s ∷ slots} (λ u. refl, refl)
                (free_then s {rest = f ∷ slots} (λ u. omega arith, refl)
                  (free_tmp-Uses f (λ u. refl, refl)))))))
