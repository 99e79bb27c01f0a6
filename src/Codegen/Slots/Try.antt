-- ===== src/Codegen/Slots/Try.antt =====
-- What try statements do to the temporaries.
use snow.Asm.{Label, LabelRef}
use snow.Base.{List, Option, arith, none, refl, some, ℕ, ◌+◌, ◌∷◌, ◌≡◌}
use snow.Codegen.{M, free_tmp, ◌>>◌}
use snow.Codegen.Ops.{Target}
use snow.Codegen.Nodes.Try.{
  CatchClause, assign_exception, catch_condition, compile_catch, compile_try, link_optional,
}
use snow.Codegen.Slots.Rules.{
  Loses, Quiet, Quiet-Loses, Quiet-bind, Quiet-then, Uses, Uses-bind, Uses-cast, Uses-then,
}
use snow.Codegen.Slots.Quiet.{bind-Quiet, codes-Quiet, j-Quiet, jmp-Quiet, link-Quiet, pure-Quiet}
use snow.Codegen.Slots.Nodes.{
  LosesOptional, compile_local-Quiet, compile_local_assignment-Loses, compile_member-Loses,
  optional-Loses,
}
use snow.Codegen.Slots.Steps.{
  Uses-Quiet-bind, Uses-Quiet-then, free_then, free_tmp-Uses, reserve_then,
}

abbrev pub LosesCatch : ℕ → Option CatchClause → Type 0
LosesCatch n none = n ≡ 0
LosesCatch n (some clause) =
    (k : ℕ) × (l : ℕ) × (k + l ≡ n) × LosesOptional k clause.condition × Loses l clause.body

link_optional-Quiet : (ref : Option LabelRef) (label : Label) → Quiet (link_optional ref label)
link_optional-Quiet none label = pure-Quiet tt
link_optional-Quiet (some ref) label = link-Quiet ref label

-- The three slots of a try statement are freed in the order in which they were reserved.
free_three :
    (v h x : ℕ) (slots : List ℕ)
    → Uses (x ∷ h ∷ v ∷ slots) slots 0 (free_tmp v >> (free_tmp h >> free_tmp x))
free_three v h x slots =
    free_then v {rest = x ∷ h ∷ slots} (λ u. omega arith, refl)
      (free_then h {rest = x ∷ slots} (λ u. omega arith, refl) (free_tmp-Uses x (λ u. refl, refl)))

module _ (target : Target) where
  assign_exception-Loses : (parameter : Option ℕ) → Loses 0 (assign_exception target parameter)
  unfolding assign_exception
  assign_exception-Loses none slots = Quiet-Loses (pure-Quiet tt) slots
  assign_exception-Loses (some name) slots =
      compile_local_assignment-Loses target name
        (compile_member-Loses target _ (λ l. Quiet-Loses (compile_local-Quiet target _) l)) slots

  catch_condition-Loses :
      (n : ℕ) (condition : Option (M (Unit {0})))
      → LosesOptional n condition
      → Loses n (catch_condition target condition)
  unfolding catch_condition
  catch_condition-Loses n none e slots =
      Uses-cast (omega (arith, e)) (Quiet-Loses (pure-Quiet none) slots)
  catch_condition-Loses n (some m) p slots = Uses-cast (omega arith) (
      Uses-then (p slots) (
        Quiet-Loses
          (Quiet-then (codes-Quiet target _) (Quiet-bind (j-Quiet _) λ ref. pure-Quiet (some ref)))
          slots))

  compile_catch-Loses :
      (n : ℕ) (value handler propagated : ℕ) (catch : Option CatchClause)
      → LosesCatch n catch
      → Loses n (compile_catch target value handler propagated catch)
  unfolding compile_catch
  compile_catch-Loses n value handler propagated none e slots =
      Uses-cast (omega (arith, e))
        (Quiet-Loses (Quiet-then (codes-Quiet target _) (pure-Quiet none)) slots)
  compile_catch-Loses n value handler propagated (some clause) (k, l, e, p, q) slots =
      reserve_then λ t. Uses-Quiet-then (codes-Quiet target _) (
        Uses-Quiet-bind (j-Quiet _) λ catch_catch_jmp. Uses-cast (omega (arith, e)) (
          Uses-then (assign_exception-Loses clause.parameter (t ∷ slots)) (
            Uses-bind {k = l} (catch_condition-Loses k clause.condition p (t ∷ slots)) λ failed.
              Uses-cast (omega arith) (
                Uses-then (q (t ∷ slots)) (
                  Uses-Quiet-then (codes-Quiet target _) (
                    Uses-Quiet-bind jmp-Quiet λ inner_ensure_jmp.
                      Uses-Quiet-bind bind-Quiet λ catch_catch.
                        Uses-Quiet-then (codes-Quiet target _) (
                          Uses-Quiet-then (link-Quiet catch_catch_jmp catch_catch) (
                            Uses-Quiet-then (link_optional-Quiet failed catch_catch) (
                              free_then t (λ u. refl, refl)
                                (Quiet-Loses (pure-Quiet (some inner_ensure_jmp)) slots))))))))))

  pub compile_try-Loses :
      {m : M (Unit {0})} {n : ℕ} (k l : ℕ) (catch : Option CatchClause)
      (ensure_body : Option (M (Unit {0})))
      → Loses n m
      → LosesCatch k catch
      → LosesOptional l ensure_body
      → Loses (n + (k + l)) (compile_try target m catch ensure_body)
  unfolding compile_try
  compile_try-Loses k l catch ensure_body p q r slots = reserve_then λ v. reserve_then λ h.
      reserve_then λ x. Uses-Quiet-then (codes-Quiet target _) (
        Uses-Quiet-bind (j-Quiet _) λ catch_jmp. Uses-then (p (x ∷ h ∷ v ∷ slots)) (
          Uses-Quiet-then (codes-Quiet target _) (
            Uses-Quiet-bind jmp-Quiet λ outer_ensure_jmp. Uses-Quiet-bind bind-Quiet λ catch_label.
              Uses-bind (compile_catch-Loses k v h x catch q (x ∷ h ∷ v ∷ slots)) λ inner.
                Uses-Quiet-bind bind-Quiet λ ensure. Uses-Quiet-then (codes-Quiet target _) (
                  Uses-cast (omega arith) (
                    Uses-then (optional-Loses ensure_body r (x ∷ h ∷ v ∷ slots)) (
                      Uses-Quiet-then (codes-Quiet target _) (
                        Uses-Quiet-bind (j-Quiet _) λ skip_jmp.
                          Uses-Quiet-then (codes-Quiet target _) (
                            Uses-Quiet-bind bind-Quiet λ skip.
                              Uses-Quiet-then (codes-Quiet target _) (
                                Uses-Quiet-then (link-Quiet catch_jmp catch_label) (
                                  Uses-Quiet-then (link-Quiet outer_ensure_jmp ensure) (
                                    Uses-Quiet-then (link-Quiet skip_jmp skip) (
                                      Uses-Quiet-then (link_optional-Quiet inner ensure)
                                        (free_three v h x slots)))))))))))))
