-- ===== src/Codegen/Slots/Nodes.antt =====
-- What each type of node does to the temporaries, given what its children do.
use snow.Base.{Bool, Option, arith, false, none, refl, some, true, ℕ, ◌+◌, ◌∷◌, ◌≡◌}
use snow.Codegen.{M, ◌>>◌}
use snow.Codegen.Ops.{Target}
use snow.Codegen.Nodes.{
  assign_at, assign_new, assign_outer, compile_closure, compile_current_scope, compile_literal,
  compile_local, compile_local_assignment, compile_local_at, compile_member,
  compile_member_assignment, compile_outer_local, compile_return, compile_self, optional,
}
use snow.Codegen.Slots.Rules.{
  Loses, Quiet, Quiet-Loses, Quiet-bind, Quiet-then, Uses-cast, Uses-then,
}
use snow.Codegen.Slots.Quiet.{
  add_return-Quiet, codes-Quiet, define-Quiet, if-Quiet, is_global-Quiet, jmp-Quiet,
  local_index-Quiet, pure-Quiet, store_add-Quiet, variable_reference-Quiet,
}
use snow.Function.{FunctionDescription}
use snow.Value.{Word}
use snow.Codegen.Slots.Steps.{Uses-Quiet-bind, Uses-Quiet-then, free_tmp-Uses, reserve_then}

-- A child that may be missing loses nothing then.
abbrev pub LosesOptional : ℕ → Option (M (Unit {0})) → Type 0
LosesOptional n none = n ≡ 0
LosesOptional n (some m) = Loses n m

pub optional-Loses : {n : ℕ} (m : Option (M (Unit {0}))) → LosesOptional n m → Loses n (optional m)
optional-Loses none h slots = Uses-cast (omega (arith, h)) (Quiet-Loses (pure-Quiet tt) slots)
optional-Loses (some m) h slots = h slots

module _ (target : Target) where
  pub compile_literal-Quiet : (v : Word) → Quiet (compile_literal target v)
  unfolding compile_literal
  compile_literal-Quiet v =
      if-Quiet _ (Quiet-bind (store_add-Quiet _) λ key. codes-Quiet target _) (codes-Quiet target _)

  pub compile_closure-Quiet : (desc : FunctionDescription) → Quiet (compile_closure target desc)
  unfolding compile_closure
  compile_closure-Quiet desc = Quiet-bind (store_add-Quiet _) λ key. codes-Quiet target _

  pub compile_self-Quiet : Quiet (compile_self target)
  unfolding compile_self
  compile_self-Quiet = codes-Quiet target _

  pub compile_current_scope-Quiet : Quiet (compile_current_scope target)
  unfolding compile_current_scope
  compile_current_scope-Quiet = codes-Quiet target _

  pub compile_return-Loses :
      {n : ℕ} (value : Option (M (Unit {0})))
      → LosesOptional n value
      → Loses n (compile_return target value)
  unfolding compile_return
  compile_return-Loses none h slots = Uses-cast (omega (arith, h)) (
      Quiet-Loses
        (Quiet-then (codes-Quiet target _) (Quiet-bind jmp-Quiet λ ref. add_return-Quiet ref))
        slots)
  compile_return-Loses (some value) h slots =
      Uses-cast (omega arith)
        (Uses-then (h slots) (Quiet-Loses (Quiet-bind jmp-Quiet λ ref. add_return-Quiet ref) slots))

  compile_outer_local-Quiet : (name : ℕ) (r : Option ℕ) → Quiet (compile_outer_local target name r)
  unfolding compile_outer_local
  compile_outer_local-Quiet name none = codes-Quiet target _
  compile_outer_local-Quiet name (some n) = codes-Quiet target _

  compile_local_at-Quiet : (name : ℕ) (idx : Option ℕ) → Quiet (compile_local_at target name idx)
  unfolding compile_local_at
  compile_local_at-Quiet name none =
      Quiet-bind (variable_reference-Quiet name) λ r. compile_outer_local-Quiet name r
  compile_local_at-Quiet name (some n) = codes-Quiet target _

  pub compile_local-Quiet : (name : ℕ) → Quiet (compile_local target name)
  unfolding compile_local
  compile_local-Quiet name =
      Quiet-bind (local_index-Quiet name) λ idx. compile_local_at-Quiet name idx

  module _ {n : ℕ} (name : ℕ) {value : M (Unit {0})} (h : Loses n value) where
    value_then : {m : M (Unit {0})} → Quiet m → Loses n (value >> m)
    value_then q slots = Uses-cast (omega arith) (Uses-then (h slots) (Quiet-Loses q slots))

    assign_new-Loses : (global : Bool) → Loses n (assign_new target name value global)
    unfolding assign_new
    assign_new-Loses false slots =
        Uses-Quiet-bind (define-Quiet name) λ idx. value_then (codes-Quiet target _) slots
    assign_new-Loses true slots = value_then (codes-Quiet target _) slots

    assign_outer-Loses : (r : Option ℕ) → Loses n (assign_outer target name value r)
    unfolding assign_outer
    assign_outer-Loses (some i) slots = value_then (codes-Quiet target _) slots
    assign_outer-Loses none slots =
        Uses-Quiet-bind is_global-Quiet λ global. assign_new-Loses global slots

    assign_at-Loses : (idx : Option ℕ) → Loses n (assign_at target name value idx)
    unfolding assign_at
    assign_at-Loses (some i) slots = value_then (codes-Quiet target _) slots
    assign_at-Loses none slots =
        Uses-Quiet-bind (variable_reference-Quiet name) λ r. assign_outer-Loses r slots

    pub compile_local_assignment-Loses : Loses n (compile_local_assignment target name value)
    unfolding compile_local_assignment
    compile_local_assignment-Loses slots = Uses-Quiet-bind (local_index-Quiet name) λ idx.
        Uses-cast (omega arith)
          (Uses-then (assign_at-Loses idx slots) (Quiet-Loses (codes-Quiet target _) slots))

    pub compile_member-Loses : Loses n (compile_member target value name)
    unfolding compile_member
    compile_member-Loses slots = value_then (codes-Quiet target _) slots

  pub compile_member_assignment-Loses :
      {n k : ℕ} {self value : M (Unit {0})} (name : ℕ)
      → Loses n self
      → Loses k value
      → Loses (n + k) (compile_member_assignment target self name value)
  unfolding compile_member_assignment
  compile_member_assignment-Loses name p q slots = reserve_then λ t. Uses-then (p (t ∷ slots)) (
      Uses-Quiet-then (codes-Quiet target _) (
        Uses-cast (omega arith) (
          Uses-then (q (t ∷ slots))
            (Uses-Quiet-then (codes-Quiet target _) (free_tmp-Uses t (λ u. refl, refl))))))
