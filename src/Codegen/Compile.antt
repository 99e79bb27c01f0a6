-- ===== src/Codegen/Compile.antt =====
-- snow/codegen-x86_64.c and snow/codegen.c: `codegen_compile_root` and `codegen_compile_node` on the tree.
use snow.Asm.{Label, LabelRef, instr_xi}
use snow.Base.{
  Bool, List, Option, Result, [], fault, if◌then◌else◌, length, none, ok, pos, some, suc, thrown,
  trap, true, ℕ, ◌%◌, ◌*◌, ◌+◌, ◌/◌, ◌==◌, ◌^◌, ◌∷◌,
}
use snow.LinkBuffer.{LinkBuffer, copy_data, linkbuffer_modify, linkbuffer_size}
use snow.Codegen.{
  Cgx, M, create_codegen, functions, nothing, pure, store_add, trap_here, ◌>>=◌, ◌>>◌,
}
use snow.Codegen.Nodes.{
  compile_closure, compile_current_scope, compile_literal, compile_local, compile_local_assignment,
  compile_member, compile_member_assignment, compile_return, compile_self, define,
}
use snow.Codegen.Nodes.Branches.{
  compile_and, compile_if_else, compile_loop, compile_not, compile_or, compile_xor,
}
use snow.Codegen.Nodes.Calls.{closure, compile_call_node, member_of, push_named, push_unnamed}
use snow.Codegen.Nodes.Try.{CatchClause, compile_try}
use snow.Codegen.Ops.{
  Callee, Target, asms, bind, call_of, codes, ins, invoke_parallel_forks, invoke_parallel_threads,
  leave, link, mov, mov_id, mov_rev, pop, push, ret, store_get, xor,
}
use snow.Codegen.Tree.{
  CallArguments, Catch, Child, Node, Nodes, absent, and_node, and_then, break_node, call_node,
  catch_node, catching_with, continue_node, current_scope, function_node, given, if_else, literal,
  local, local_assignment, loop, member, member_assignment, no_arguments, no_catch, none_left,
  not_node, or_node, parallel_fork, parallel_thread, present, return_node, self_node, sequence,
  try_node, xor_node,
}
use snow.Function.{FunctionDescription, create_function_description, define_local}
use snow.Operands.{make_address, r13, r14, rax, rbp, rdi, rsi, rsp}

-- `ASM(sub_id, 0, RSP)`: the offset of the size of the stack frame.
abbrev pub at_offset : Cgx → Result (ℕ × LinkBuffer) → Result (ℕ × Cgx)
at_offset s (ok (offset, lb)) = ok (offset, record s { buffer = lb })
at_offset s trap = trap
at_offset s fault = fault
at_offset s thrown = thrown

unfoldable pub reserve_stack : M ℕ
reserve_stack s = at_offset s (instr_xi 129 5 s.buffer (pos 0) rsp)

-- The arguments become locals.
unfoldable pub define_arguments : List ℕ → M (Unit {0})
define_arguments [] = nothing
define_arguments (a ∷ as') = do _ ← define a; define_arguments as'

unfoldable pub name_arguments : Option (List ℕ) → M (Unit {0})
name_arguments none s = ok (tt, s)
name_arguments (some names) s =
    define_arguments names (record s { result = record s.result { argument_names = some names } })

unfoldable pub link_all : List LabelRef → Label → M (Unit {0})
link_all [] label = nothing
link_all (ref ∷ refs) label = link ref label >> link_all refs label

unfoldable pub link_returns : Label → M (Unit {0})
link_returns label s = link_all s.returns label s

-- `num_temporaries * sizeof(VALUE)`, rounded up to 16
unfoldable pub stack_size : ℕ → ℕ
stack_size n = n * 8 + n * 8 % 16

abbrev pub with_size : Cgx → Result (ℕ × LinkBuffer) → Result (Unit {0} × Cgx)
with_size s (ok (_, lb)) = ok (tt, record s { buffer = lb })
with_size s trap = trap
with_size s fault = fault
with_size s thrown = thrown

-- The low four bytes of the size replace the immediate.
unfoldable pub link_stack_size : ℕ → M (Unit {0})
link_stack_size offset s =
    let size : ℕ = stack_size s.num_temporaries in
    if size % 16 == 0
    then with_size s (
        linkbuffer_modify s.buffer offset 4
          (size % 256 ∷ (size / 2 ^ 8 % 256) ∷ (size / 2 ^ 16 % 256) ∷ (size / 2 ^ 24 % 256) ∷ []))
    else trap

-- The test at the end: if there is a list of freed temporaries, it holds all.
unfoldable pub temporaries_freed : Cgx → Bool
temporaries_freed s = elim s.tmp_freelist [ none ↦ true | some ts ↦ length ts == s.num_temporaries ]

unfoldable pub check_temporaries : M (Unit {0})
check_temporaries s = if temporaries_freed s then ok (tt, s) else trap

module _ (target : Target) where
  open target use {context_locals, symbol_it}

  -- `codegen_compile_root` up to its last test
  unfoldable pub compile_frame : Option (List ℕ) → M (Unit {0}) → M (Unit {0})
  compile_frame arguments body = do
    asms (push rbp ∷ mov rsp rbp ∷ [])
    stack_size_offset ← reserve_stack
    asms (
        push r13
        ∷ push r14
        ∷ mov rdi r13
        ∷ mov_rev r14 (make_address r13 (pos context_locals))
        ∷ [])
    name_arguments arguments
    asms (xor rax rax ∷ [])
    body
    return_label ← bind
    asms (pop r14 ∷ pop r13 ∷ leave ∷ ret ∷ [])
    link_returns return_label
    link_stack_size stack_size_offset

  -- `codegen_compile_root`
  unfoldable pub compile_root : Option (List ℕ) → M (Unit {0}) → M (Unit {0})
  compile_root arguments body = do compile_frame arguments body; check_temporaries

  -- The finished description, with the code of the buffer; the store goes on.
  abbrev pub described : Cgx → Result (Unit {0} × Cgx) → Result (FunctionDescription × Cgx)
  described s (ok (_, s')) = ok (
    record s'.result { func = copy_data s'.buffer (linkbuffer_size s'.buffer) },
    record s { store = s'.store },
  )
  described s trap = trap
  described s fault = fault
  described s thrown = thrown

  -- `snow_create_codegen` and `snow_codegen_compile_description`
  unfoldable pub compile_description : Option (List ℕ) → M (Unit {0}) → M FunctionDescription
  unfolding create_function_description define_local create_codegen
  compile_description arguments body s =
      let (_, desc) = define_local create_function_description symbol_it in
      described s (compile_root arguments body (create_codegen desc (s.result ∷ s.parents) s.store))

  -- SN_AST_FUNCTION
  unfoldable pub compile_function : Option (List ℕ) → M (Unit {0}) → M (Unit {0})
  compile_function arguments body = do
    desc ← compile_description arguments body
    compile_closure target desc

  -- SN_AST_PARALLEL_THREAD and SN_AST_PARALLEL_FORK, behind the compilation of the functions
  unfoldable pub compile_parallel : Callee → List FunctionDescription → M (Unit {0})
  compile_parallel invoke descriptions = do
    key ← store_add (functions descriptions)
    codes target (
        ins (mov_id (pos key) rdi)
        ∷ call_of store_get
        ∷ ins (mov rax rdi)
        ∷ ins (mov r13 rsi)
        ∷ call_of invoke
        ∷ [])

  abbrev node_count : Nodes → ℕ
  node_count none_left = 0
  node_count (and_then n ns) = suc (node_count ns)

  -- `codegen_compile_node`: the type of the function's node decides between a member call and a closure
  -- call.
  unfoldable mutual
    pub compile_node : Node → M (Unit {0})
    compile_node (literal v) = compile_literal target v
    compile_node (sequence ns) = compile_nodes ns
    compile_node (function_node arguments body) = compile_function arguments (compile_nodes body)
    compile_node (return_node value) = compile_return target (compile_child value)
    compile_node break_node = trap_here
    compile_node continue_node = trap_here
    compile_node self_node = compile_self target
    compile_node current_scope = compile_current_scope target
    compile_node (local name) = compile_local target name
    compile_node (member self name) = compile_member target (compile_node self) name
    compile_node (local_assignment name value) =
        compile_local_assignment target name (compile_node value)
    compile_node (member_assignment self name value) =
        compile_member_assignment target (compile_node self) name (compile_node value)
    compile_node (if_else expr body else_body) =
        compile_if_else target (compile_node expr) (compile_child body) (compile_child else_body)
    compile_node (call_node (member self name) arguments) =
        compile_call_node target (member_of (compile_node self) name) (call_arguments arguments)
    compile_node (call_node func arguments) =
        compile_call_node target (closure (compile_node func)) (call_arguments arguments)
    compile_node (loop while_true body) =
        compile_loop target (compile_node while_true) (compile_node body)
    compile_node (try_node body catch ensure) =
        compile_try target (compile_node body) (catch_clause catch) (compile_child ensure)
    compile_node (catch_node catch) = trap_here
    compile_node (and_node left right) = compile_and target (compile_node left) (compile_node right)
    compile_node (or_node left right) = compile_or target (compile_node left) (compile_node right)
    compile_node (xor_node left right) = compile_xor target (compile_node left) (compile_node right)
    compile_node (not_node expr) = compile_not target (compile_node expr)
    compile_node (parallel_thread seq) = do
      descriptions ← compile_chunks seq
      compile_parallel invoke_parallel_threads descriptions
    compile_node (parallel_fork seq) = do
      descriptions ← compile_chunks seq
      compile_parallel invoke_parallel_forks descriptions

    pub compile_nodes : Nodes → M (Unit {0})
    compile_nodes none_left = nothing
    compile_nodes (and_then n ns) = compile_node n >> compile_nodes ns

    pub compile_child : Child → Option (M (Unit {0}))
    compile_child absent = none
    compile_child (present n) = some (compile_node n)

    pub call_arguments : CallArguments → Option (ℕ × (ℕ → M (Unit {0})))
    call_arguments no_arguments = none
    call_arguments (given ns) = some (node_count ns, compile_pushes ns)

    -- The type of an argument's node decides whether it has a name.
    pub compile_pushes : Nodes → ℕ → M (Unit {0})
    compile_pushes none_left tmp_args = nothing
    compile_pushes (and_then (local_assignment name value) ns) tmp_args =
        push_named target tmp_args name (compile_node value) >> compile_pushes ns tmp_args
    compile_pushes (and_then n ns) tmp_args =
        push_unnamed target tmp_args (compile_node n) >> compile_pushes ns tmp_args

    pub catch_clause : Catch → Option CatchClause
    catch_clause no_catch = none
    catch_clause (catching_with parameter condition body) = some (record {
      parameter = parameter;
      condition = compile_child condition;
      body = compile_node body;
    })

    -- Each node of the sequence is the body of a function without arguments.
    pub compile_chunks : Nodes → M (List FunctionDescription)
    compile_chunks none_left = pure []
    compile_chunks (and_then n ns) = do
      desc ← compile_description none (compile_node n)
      descriptions ← compile_chunks ns
      pure (desc ∷ descriptions)
