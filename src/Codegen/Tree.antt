-- ===== src/Codegen/Tree.antt =====
-- snow/ast.h: the syntax trees. A node's children have the types that the parser gives them; a child that
-- may be NULL is a `Child`.
use snow.Base.{List, Option, ℕ}
use snow.Value.{Word}

mutual
  -- `SnAstNode`, by its type
  pub data Node : Type 0 where
    literal : Word → Node
    sequence : Nodes → Node
    function_node : Option (List ℕ) → Nodes → Node
    return_node : Child → Node
    break_node continue_node self_node current_scope : Node
    local : ℕ → Node
    member : Node → ℕ → Node
    local_assignment : ℕ → Node → Node
    member_assignment : Node → ℕ → Node → Node
    if_else : Node → Child → Child → Node
    call_node : Node → CallArguments → Node
    loop : Node → Node → Node
    try_node : Node → Catch → Child → Node
    catch_node : Catch → Node
    and_node or_node xor_node : Node → Node → Node
    not_node : Node → Node
    parallel_thread parallel_fork : Nodes → Node

  pub data Nodes : Type 0 where
    none_left : Nodes
    and_then : Node → Nodes → Nodes

  pub data Child : Type 0 where
    absent : Child
    present : Node → Child

  -- The sequence of the arguments of a call, or NULL.
  pub data CallArguments : Type 0 where
    no_arguments : CallArguments
    given : Nodes → CallArguments

  -- The node of a catch: its parameter, condition and body.
  pub data Catch : Type 0 where
    no_catch : Catch
    catching_with : Option ℕ → Child → Node → Catch
