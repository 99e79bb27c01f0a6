-- ===== src/Lib.antt =====
-- Snow, the run-time system of a dynamic language in C: its values, containers, allocators, the heaps of
-- its collector and its exceptions.
--
-- A VALUE is a word: an immediate with a tag in the low bits, or an object's address (Value). Arrays of
-- VALUEs (Array) live in memory from the collector, which Memory models as cells that may not have been
-- written yet. Maps (Map), symbols (Symbol) and the arguments of calls (Arguments) are built on arrays:
-- the names of arguments are symbols, and named arguments can be put into a map. The code generator
-- collects its bytes in link buffers (LinkBuffer), from which strings (Str) can be made. Exceptions
-- (Exception) are thrown to the stack of handlers of a task. Objects (Object) have members in a map,
-- properties, a prototype and included modules in arrays. Blocks of one size come from a free list
-- (FixedAlloc); all else comes from heaps (GcHeap), which the collector keeps in lists and finds by
-- address (Gc), and whose live objects it marks (Mark), moves or finalizes (Sweep) and follows (Minor);
-- memory comes from it (Alloc) between a head and a tail by which the start of an object is found
-- (Header). Programs call functions of arrays (ArrayObject) and numbers (Number); a parallel loop runs
-- its callback in a task for each element (Task), so that an exception ends that task only. The code
-- generator (Codegen) turns a syntax tree into machine code: it emits instructions through the assembler
-- (Asm), which pushes their bytes to a link buffer, and describes functions (Function) with their locals
-- and the variables that they use of enclosing functions.
--
-- The files and the code:
--   Base          lists, integers and tests over the native numbers; a result type for C functions that
--                 return, trap (a failed ASSERT, TRAP), touch memory that is not theirs, or throw
--   Value         snow/intern.h (int_to_value, snow_typeof, ...), snow/object.h, snow_eval_truth
--   Memory        blobs of VALUEs, as snow_gc_alloc_blob returns them
--   Array         snow/array-intern.h (array_grow, array_get, array_set, array_erase, array_push, array_pop,
--                 array_find, array_find_or_add, array_clear) and the constructors of snow/array.c
--   ArrayObject   snow/array.c: the functions that programs call (_array_get, _array_map, _array_select, ...)
--   Map           snow/map.c (snow_map_get, snow_map_set, map_keys, ...)
--   Symbol        snow/symbol.c (snow_symbol is `intern`)
--   LinkBuffer    snow/linkbuffer.c
--   Str           snow/str.c (snow_create_string, strlen_locale, snow_format_string, string_buffer_to_string, ...)
--   Arguments     snow/arguments.c
--   Exception     snow/exception.c, snow/exception.h and the handler stack of snow/task.c
--   Object        snow/object.c (snow_object_get_member, snow_object_set_member, snow_object_include, ...)
--   Number        snow/numeric.c (numeric_plus, numeric_divide, numeric_less_than, ...)
--   Task          snow/task-serial.c and snow/task.c (snow_parallel_for_each, snow_abort_current_task,
--                 snow_deferred_task_wait, ...)
--   Threads       the list of threads of snow/task-dispatch.c (init_thread, finalize_thread,
--                 with_each_thread_do)
--   FixedAlloc    snow/fixed-alloc.c
--   GcHeap        snow/gcheap.h
--   Gc            the sizes of snow/gc.h; gc_alloc_chunk, gc_free_chunk and gc_find_heap of snow/gc.c
--   Mark          the mark phase of snow/gc.c (gc_with_object_do, gc_mark_root, gc_with_stack_do, ...)
--   Header        heads, tails and checksums of allocations in snow/gc.c (gc_init_allocation,
--                 gc_looks_like_allocation, gc_find_object_start, ...)
--   Alloc         gc_alloc, snow_gc_set_free_func and snow_gc_allocated_size of snow/gc.c
--   Sweep         gc_transplant, gc_finalize_object, gc_sweep_nurseries, ... of snow/gc.c
--   Minor         gc_reset_or_save_nurseries and the pointers of gc_update_root of snow/gc.c
--   Operands      registers, operands and addresses of snow/asm-x86_64.h
--   Asm           snow/asm-x86_64.h (emit_instr, asm_mov_id, asm_j, asm_bind, asm_link, ...), snow/asm.h
--   Function      the descriptions of functions in snow/function.c
--   Codegen       snow/codegen.c and snow/codegen-x86_64.c: temporaries and variables; Codegen/Tree is the
--                 syntax tree, Codegen/Ops has ASM and CALL, Codegen/Nodes the cases of
--                 codegen_compile_node, Codegen/Compile the recursion and codegen_compile_root.
--                 Codegen/Machine is the specification of a processor, for inlined code
-- The definitions stand in the file of a part, its theorems in the files below it, named for what they
-- prove. A definition has the name of the C function, without the prefix snow_ where that is no other's.
--
-- State is passed explicitly: a function that changes an object returns the object that it leaves. Words,
-- indices and addresses are numbers, with the wrap-around of the C types written out; where a theorem
-- excludes it, a hypothesis bounds the size. What the code takes from elsewhere is an argument: the
-- address that malloc returns, the contents of memory, the comparison of a map, the blocks of a try
-- statement, the closures that are called, the arithmetic of floats, the addresses of the functions that
-- compiled code calls and the offsets of fields. Loops are recursion on the list or
-- the count that they go over. The others take fuel: the protocol of snow_begin_try one for each return of
-- snow_save_execution_state, of which four are enough, since a statement comes back at most for the catch
-- block, for the ensure block and after a throw in it; the searches of Object one for each module or
-- prototype on the way, of which one more than the depth is enough; the loops over an array that a closure
-- may change one for each round, of which one more than the elements is enough; marking one for each object
-- on the way, of which one more than the objects is enough; the search for the start of an object one for
-- each 16 bytes up to it; counting characters one round for each byte and one to stop; visiting the
-- threads one for each and one to stop. A result without enough fuel is a trap, or none.
--
-- Not modelled: the generated parser and scanner, what compiled code does besides the inlined test of
-- truth, continuations (stack switching), classes, what closures do to memory, major collections,
-- the barriers of threads, locks, and the glue to the operating system. They are input for other tools, assembly,
-- output, or parts that build on the ones here.
pub mod Base
pub mod Value
pub mod Memory
pub mod Array
pub mod LinkBuffer
pub mod Map
pub mod Arguments
pub mod FixedAlloc
pub mod Symbol
pub mod Exception
pub mod GcHeap
pub mod Gc
pub mod Object
pub mod ArrayObject
pub mod Number
pub mod Task
pub mod Threads
pub mod Mark
pub mod Header
pub mod Alloc
pub mod Operands
pub mod Asm
pub mod Function
pub mod Codegen
pub mod Sweep
pub mod Minor
pub mod Str
