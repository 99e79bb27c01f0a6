-- ===== src/Codegen/Slots/Tree.antt =====
-- The temporaries after a whole tree is compiled.
use snow.Base.{List, Option, Result, [], fault, none, ok, refl, thrown, trap, ℕ, ◌+◌}
use snow.Codegen.{Cgx, M, trap_here}
use snow.Codegen.Ops.{Callee, Target}
use snow.Codegen.Compile.{
  call_arguments, catch_clause, compile_child, compile_chunks, compile_description,
  compile_function, compile_node, compile_nodes, compile_parallel, compile_pushes, described,
}
use snow.Codegen.Tree.{
  CallArguments, Catch, Child, Node, Nodes, absent, and_node, and_then, break_node, call_node,
  catch_node, catching_with, continue_node, current_scope, function_node, given, if_else, literal,
  local, local_assignment, loop, member, member_assignment, no_arguments, no_catch, none_left,
  not_node, or_node, parallel_fork, parallel_thread, present, return_node, self_node, sequence,
  try_node, xor_node,
}
use snow.Codegen.Nodes.Calls.{closure, member_of}
use snow.Codegen.Slots.Branches.{
  compile_and-Loses, compile_if_else-Loses, compile_loop-Loses, compile_not-Loses, compile_or-Loses,
  compile_xor-Loses,
}
use snow.Codegen.Slots.Calls.{
  LosesArguments, compile_call_node-Loses, push_named-Loses, push_unnamed-Loses,
}
use snow.Codegen.Slots.Nodes.{
  LosesOptional, compile_closure-Quiet, compile_current_scope-Quiet, compile_literal-Quiet,
  compile_local-Quiet, compile_local_assignment-Loses, compile_member-Loses,
  compile_member_assignment-Loses, compile_return-Loses, compile_self-Quiet,
}
use snow.Codegen.Slots.Quiet.{codes-Quiet, pure-Quiet, store_add-Quiet}
use snow.Codegen.Slots.Rules.{
  After, Loses, Lost, Quiet, Quiet-Loses, Quiet-bind, SameSlots, Slots, Uses-then,
}
use snow.Codegen.Slots.Try.{LosesCatch, compile_try-Loses}
use snow.Function.{FunctionDescription}

-- Two for each `xor` in a tree, but not in the functions that are defined in it.
unfoldable mutual
  pub xor_slots : Node → ℕ
  xor_slots (literal v) = 0
  xor_slots (sequence ns) = xor_slots_all ns
  xor_slots (function_node arguments body) = 0
  xor_slots (return_node value) = xor_slots_child value
  xor_slots break_node = 0
  xor_slots continue_node = 0
  xor_slots self_node = 0
  xor_slots current_scope = 0
  xor_slots (local name) = 0
  xor_slots (member self name) = xor_slots self
  xor_slots (local_assignment name value) = xor_slots value
  xor_slots (member_assignment self name value) = xor_slots self + xor_slots value
  xor_slots (if_else expr body else_body) =
      xor_slots expr + (xor_slots_child body + xor_slots_child else_body)
  xor_slots (call_node func arguments) = xor_slots func + xor_slots_arguments arguments
  xor_slots (loop while_true body) = xor_slots while_true + xor_slots body
  xor_slots (try_node body catch ensure) =
      xor_slots body + (xor_slots_catch catch + xor_slots_child ensure)
  xor_slots (catch_node catch) = 0
  xor_slots (and_node left right) = xor_slots left + xor_slots right
  xor_slots (or_node left right) = xor_slots left + xor_slots right
  xor_slots (xor_node left right) = 2 + (xor_slots left + xor_slots right)
  xor_slots (not_node expr) = xor_slots expr
  xor_slots (parallel_thread seq) = 0
  xor_slots (parallel_fork seq) = 0

  pub xor_slots_all : Nodes → ℕ
  xor_slots_all none_left = 0
  xor_slots_all (and_then n ns) = xor_slots n + xor_slots_all ns

  pub xor_slots_child : Child → ℕ
  xor_slots_child absent = 0
  xor_slots_child (present n) = xor_slots n

  pub xor_slots_arguments : CallArguments → ℕ
  xor_slots_arguments no_arguments = 0
  xor_slots_arguments (given ns) = xor_slots_all ns

  pub xor_slots_catch : Catch → ℕ
  xor_slots_catch no_catch = 0
  xor_slots_catch (catching_with parameter condition body) =
      xor_slots_child condition + xor_slots body

trap_here-Loses : (n : ℕ) → Loses n (trap_here {A = Unit {0}})
trap_here-Loses n slots = record { run = λ held s h. tt }

described-SameSlots :
    (target : Target) (s : Cgx) (r : Result (Unit {0} × Cgx))
    → After (λ _ s'. SameSlots s s') (described target s r)
described-SameSlots target s (ok (_, s')) = (refl, refl)
described-SameSlots target s trap = tt
described-SameSlots target s fault = tt
described-SameSlots target s thrown = tt

module _ (target : Target) where
  compile_description-Quiet :
      (arguments : Option (List ℕ)) (body : M (Unit {0}))
      → Quiet (compile_description target arguments body)
  unfolding compile_description
  compile_description-Quiet arguments body = record { keeps = λ s. described-SameSlots target s _ }

  compile_function-Quiet :
      (arguments : Option (List ℕ)) (body : M (Unit {0}))
      → Quiet (compile_function target arguments body)
  unfolding compile_function
  compile_function-Quiet arguments body =
      Quiet-bind (compile_description-Quiet arguments body)
        λ desc. compile_closure-Quiet target desc

  compile_parallel-Quiet :
      (invoke : Callee) (descriptions : List FunctionDescription)
      → Quiet (compile_parallel target invoke descriptions)
  unfolding compile_parallel
  compile_parallel-Quiet invoke descriptions =
      Quiet-bind (store_add-Quiet _) λ key. codes-Quiet target _

  compile_chunks-Quiet : (ns : Nodes) → Quiet (compile_chunks target ns)
  unfolding compile_node
  compile_chunks-Quiet none_left = pure-Quiet []
  compile_chunks-Quiet (and_then n ns) =
      Quiet-bind (compile_description-Quiet none (compile_node target n))
        λ desc. Quiet-bind (compile_chunks-Quiet ns) λ descriptions. pure-Quiet _

  mutual
    unfolding compile_node xor_slots

    compile_node-Loses : (n : Node) → Loses (xor_slots n) (compile_node target n)
    compile_node-Loses (literal v) slots = Quiet-Loses (compile_literal-Quiet target v) slots
    compile_node-Loses (sequence ns) slots = compile_nodes-Loses ns slots
    compile_node-Loses (function_node arguments body) slots =
        Quiet-Loses (compile_function-Quiet arguments _) slots
    compile_node-Loses (return_node value) slots =
        compile_return-Loses target (compile_child target value) (compile_child-Loses value) slots
    compile_node-Loses break_node slots = trap_here-Loses 0 slots
    compile_node-Loses continue_node slots = trap_here-Loses 0 slots
    compile_node-Loses self_node slots = Quiet-Loses (compile_self-Quiet target) slots
    compile_node-Loses current_scope slots = Quiet-Loses (compile_current_scope-Quiet target) slots
    compile_node-Loses (local name) slots = Quiet-Loses (compile_local-Quiet target name) slots
    compile_node-Loses (member self name) slots =
        compile_member-Loses target name (compile_node-Loses self) slots
    compile_node-Loses (local_assignment name value) slots =
        compile_local_assignment-Loses target name (compile_node-Loses value) slots
    compile_node-Loses (member_assignment self name value) slots =
        compile_member_assignment-Loses target name (compile_node-Loses self)
          (compile_node-Loses value) slots
    compile_node-Loses (if_else expr body else_body) slots =
        compile_if_else-Loses target _ _ (compile_child target body)
          (compile_child target else_body) (compile_node-Loses expr) (compile_child-Loses body)
          (compile_child-Loses else_body) slots
    compile_node-Loses (call_node (member self name) arguments) slots =
        compile_call_node-Loses target _ _ (member_of (compile_node target self) name)
          (call_arguments target arguments) (compile_node-Loses self)
          (call_arguments-Loses arguments) slots
    compile_node-Loses (call_node func arguments) slots =
        compile_call_node-Loses target _ _ (closure (compile_node target func))
          (call_arguments target arguments) (compile_node-Loses func)
          (call_arguments-Loses arguments) slots
    compile_node-Loses (loop while_true body) slots =
        compile_loop-Loses target (compile_node-Loses while_true) (compile_node-Loses body) slots
    compile_node-Loses (try_node body catch ensure) slots =
        compile_try-Loses target _ _ (catch_clause target catch) (compile_child target ensure)
          (compile_node-Loses body) (catch_clause-Loses catch) (compile_child-Loses ensure) slots
    compile_node-Loses (catch_node catch) slots = trap_here-Loses 0 slots
    compile_node-Loses (and_node left right) slots =
        compile_and-Loses target (compile_node-Loses left) (compile_node-Loses right) slots
    compile_node-Loses (or_node left right) slots =
        compile_or-Loses target (compile_node-Loses left) (compile_node-Loses right) slots
    compile_node-Loses (xor_node left right) slots =
        compile_xor-Loses target (compile_node-Loses left) (compile_node-Loses right) slots
    compile_node-Loses (not_node expr) slots =
        compile_not-Loses target (compile_node-Loses expr) slots
    compile_node-Loses (parallel_thread seq) slots =
        Quiet-Loses (Quiet-bind (compile_chunks-Quiet seq) λ d. compile_parallel-Quiet _ d) slots
    compile_node-Loses (parallel_fork seq) slots =
        Quiet-Loses (Quiet-bind (compile_chunks-Quiet seq) λ d. compile_parallel-Quiet _ d) slots

    pub compile_nodes-Loses : (ns : Nodes) → Loses (xor_slots_all ns) (compile_nodes target ns)
    compile_nodes-Loses none_left slots = Quiet-Loses (pure-Quiet tt) slots
    compile_nodes-Loses (and_then n ns) slots =
        Uses-then (compile_node-Loses n slots) (compile_nodes-Loses ns slots)

    compile_child-Loses :
        (child : Child) → LosesOptional (xor_slots_child child) (compile_child target child)
    compile_child-Loses absent = refl
    compile_child-Loses (present n) = compile_node-Loses n

    call_arguments-Loses :
        (arguments : CallArguments)
        → LosesArguments (xor_slots_arguments arguments) (call_arguments target arguments)
    call_arguments-Loses no_arguments = refl
    call_arguments-Loses (given ns) = λ t. compile_pushes-Loses ns t

    compile_pushes-Loses :
        (ns : Nodes) (t : ℕ) → Loses (xor_slots_all ns) (compile_pushes target ns t)
    compile_pushes-Loses none_left t slots = Quiet-Loses (pure-Quiet tt) slots
    compile_pushes-Loses (and_then (local_assignment name value) ns) t slots =
        Uses-then (push_named-Loses target t name (compile_node-Loses value) slots)
          (compile_pushes-Loses ns t slots)
    compile_pushes-Loses (and_then n ns) t slots =
        Uses-then (push_unnamed-Loses target t (compile_node-Loses n) slots)
          (compile_pushes-Loses ns t slots)

    catch_clause-Loses :
        (catch : Catch) → LosesCatch (xor_slots_catch catch) (catch_clause target catch)
    catch_clause-Loses no_catch = refl
    catch_clause-Loses (catching_with parameter condition body) = (
      xor_slots_child condition,
      xor_slots body,
      refl,
      compile_child-Loses condition,
      compile_node-Loses body,
    )

-- Where each slot of the frame is held once or free once, it is so after a node is compiled, whenever that
-- returns: the same slots are held, and lost ones, two for each xor outside the functions in the node.
pub compile_node-kept :
    (target : Target) (n : Node) (held : List ℕ) (s : Cgx)
    → Slots held s
    → After (λ _ s'. Lost held (xor_slots n) s') (compile_node target n s)
compile_node-kept target n held s h = (compile_node-Loses target n []).run held s h
