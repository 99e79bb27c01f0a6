-- ===== src/Codegen/Slots/Branches.antt =====
-- What the nodes with jumps do to the temporaries.
use snow.Base.{List, Option, arith, refl, ℕ, ◌+◌, ◌∷◌}
use snow.Codegen.{M, ◌>>◌}
use snow.Codegen.Ops.{Target}
use snow.Codegen.Nodes.Branches.{
  compile_and, compile_if_else, compile_loop, compile_not, compile_or, compile_xor,
}
use snow.Codegen.Slots.Rules.{
  Loses, Quiet-Loses, Quiet-bind, Quiet-then, Uses, Uses-cast, Uses-then,
}
use snow.Codegen.Slots.Quiet.{bind-Quiet, codes-Quiet, j-Quiet, jmp-Quiet, link-Quiet}
use snow.Codegen.Slots.Nodes.{LosesOptional, optional-Loses}
use snow.Codegen.Slots.Steps.{Uses-Quiet-bind, Uses-Quiet-then, free_then, lost_two, reserve_then}

-- A child before a step that loses nothing more.
pub child_then :
    {m k : M (Unit {0})} {n : ℕ} {before after : List ℕ}
    → Uses before before n m
    → Uses before after 0 k
    → Uses before after n (m >> k)
child_then p q = Uses-cast (omega arith) (Uses-then p q)

module _ (target : Target) where
  pub compile_if_else-Loses :
      {m : M (Unit {0})} {n : ℕ} (k l : ℕ) (body else_body : Option (M (Unit {0})))
      → Loses n m
      → LosesOptional k body
      → LosesOptional l else_body
      → Loses (n + (k + l)) (compile_if_else target m body else_body)
  unfolding compile_if_else
  compile_if_else-Loses k l body else_body p q r slots = Uses-then (p slots) (
      Uses-Quiet-then (codes-Quiet target _) (
        Uses-Quiet-bind (j-Quiet _) λ false_jump. Uses-then (optional-Loses body q slots) (
          Uses-Quiet-bind jmp-Quiet λ after_jump. Uses-Quiet-bind bind-Quiet λ if_false.
            child_then (optional-Loses else_body r slots) (
              Quiet-Loses
                (Quiet-bind bind-Quiet λ after.
                  Quiet-then (link-Quiet false_jump if_false) (link-Quiet after_jump after))
                slots))))

  module _ {n k : ℕ} {m m' : M (Unit {0})} (p : Loses n m) (q : Loses k m') where
    pub compile_loop-Loses : Loses (n + k) (compile_loop target m m')
    unfolding compile_loop
    compile_loop-Loses slots = Uses-Quiet-bind bind-Quiet λ cond. Uses-then (p slots) (
        Uses-Quiet-then (codes-Quiet target _) (
          Uses-Quiet-bind (j-Quiet _) λ after_jmp. child_then (q slots) (
            Quiet-Loses
              (Quiet-bind jmp-Quiet λ cond_jmp.
                Quiet-bind bind-Quiet
                  λ after. Quiet-then (link-Quiet after_jmp after) (link-Quiet cond_jmp cond))
              slots)))

    pub compile_and-Loses : Loses (n + k) (compile_and target m m')
    unfolding compile_and
    compile_and-Loses slots = reserve_then λ t. Uses-then (p (t ∷ slots)) (
        Uses-Quiet-then (codes-Quiet target _) (
          free_then t (λ u. refl, refl)
            (Uses-Quiet-bind (j-Quiet _) λ jump.
              child_then (q slots)
                (Quiet-Loses (Quiet-bind bind-Quiet λ label. link-Quiet jump label) slots))))

    pub compile_or-Loses : Loses (n + k) (compile_or target m m')
    unfolding compile_or
    compile_or-Loses slots = reserve_then λ t. Uses-then (p (t ∷ slots)) (
        Uses-Quiet-then (codes-Quiet target _) (
          free_then t (λ u. refl, refl)
            (Uses-Quiet-bind (j-Quiet _) λ jump.
              child_then (q slots)
                (Quiet-Loses (Quiet-bind bind-Quiet λ label. link-Quiet jump label) slots))))

    -- The two temporaries are lost.
    pub compile_xor-Loses : Loses (2 + (n + k)) (compile_xor target m m')
    unfolding compile_xor
    compile_xor-Loses slots = reserve_then λ l. reserve_then λ r. lost_two r l slots (
        Uses-then (p (r ∷ l ∷ slots)) (
          Uses-Quiet-then (codes-Quiet target _) (
            child_then (q (r ∷ l ∷ slots)) (
              Quiet-Loses
                (Quiet-then (codes-Quiet target _) (
                  Quiet-bind (j-Quiet _) λ both_ref. Quiet-then (codes-Quiet target _) (
                    Quiet-bind (j-Quiet _) λ left_ref. Quiet-then (codes-Quiet target _) (
                      Quiet-bind jmp-Quiet λ done_ref1. Quiet-bind bind-Quiet λ left_true.
                        Quiet-then (codes-Quiet target _) (
                          Quiet-bind jmp-Quiet λ done_ref2. Quiet-bind bind-Quiet λ both.
                            Quiet-then (codes-Quiet target _) (
                              Quiet-bind bind-Quiet λ done. Quiet-then (link-Quiet both_ref both) (
                                Quiet-then (link-Quiet left_ref left_true) (
                                  Quiet-then (link-Quiet done_ref1 done)
                                    (link-Quiet done_ref2 done)))))))))
                (r ∷ l ∷ slots)))))

  pub compile_not-Loses : {n : ℕ} {m : M (Unit {0})} → Loses n m → Loses n (compile_not target m)
  unfolding compile_not
  compile_not-Loses p slots = child_then (p slots) (
      Quiet-Loses
        (Quiet-then (codes-Quiet target _) (
          Quiet-bind (j-Quiet _) λ false_jump. Quiet-then (codes-Quiet target _) (
            Quiet-bind jmp-Quiet λ after_jump. Quiet-bind bind-Quiet λ if_false.
              Quiet-then (codes-Quiet target _) (
                Quiet-bind bind-Quiet λ after.
                  Quiet-then (link-Quiet false_jump if_false) (link-Quiet after_jump after)))))
        slots)
