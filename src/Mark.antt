-- ===== src/Mark.antt =====
-- snow/gc.c: the marking of what the roots reach. Marking writes the flags of objects and the counts of
-- heaps, and reads everything else: the search for a word's heap and object, and the contents of objects,
-- are parameters that do not change. The search of the code is `find_object` of Header/Find.
pub mod Members
pub mod Lists
pub mod Live
pub mod Step
pub mod Reach
pub mod Everything
mod Tests
use snow.Base.{
  Bool, List, Option, Result, [], assert, false, if◌then◌else◌, map, none, not, ok, some, suc, trap,
  true, zero, ℕ, ◌%◌, ◌&&◌, ◌+◌, ◌==◌, ◌>>=◌, ◌>>◌, ◌||◌, ◌∷◌,
}
use snow.Array.{u32_mod}
use snow.Object.{is_normal_type}
use snow.Value.{
  ObjectType, Word, arguments_type, array_type, ast_type, class_type, codegen_type, context_type,
  continuation_type, exception_type, function_description_type, function_type, is_object, map_type,
  object_type, pointer_type, string_type,
}

-- `SnGCFlags`, by its bits
pub record GcFlags : Type 0 where
  pub gc_mark : Bool
  pub gc_transplanted : Bool
  pub gc_updated : Bool
  pub gc_indefinite : Bool

-- `SnGCAllocType`
pub data AllocType : Type 0 where
  gc_invalid gc_object gc_blob gc_atomic : AllocType

-- The VALUEs inside of objects that the collector visits, named for the members of the structs.
pub data Slot : Type 0 where
  slot_prototype slot_members slot_property_names slot_property_data slot_included_modules : Slot
  slot_instance_prototype slot_desc slot_declaration_context slot_description slot_thrown_by : Slot
  slot_return_to slot_please_clean slot_context slot_static_parent slot_function slot_self : Slot
  slot_local_names slot_locals slot_args slot_names slot_args_data slot_defined_locals : Slot
  slot_argument_names slot_string_data slot_array_data slot_map_data slot_codegen_parent : Slot
  slot_codegen_result slot_variable_names slot_codegen_root slot_pointer : Slot
  slot_variable : ℕ → Slot
  slot_child : ℕ → Slot

-- What is known of an allocation: `count` is `num_variable_references` of a function and `size` of a
-- syntax tree; `blob_words` has the words of a blob.
pub record Allocation : Type 0 where
  pub alloc_type : AllocType
  pub type : ObjectType
  pub count : ℕ
  pub slot_at : Slot → Word
  pub blob_words : List Word

-- The slots numbered `i … i + k`
unfoldable pub numbered : (ℕ → Slot) → (i k : ℕ) → List Slot
numbered make i zero = []
numbered make i (suc k) = make i ∷ numbered make (i + 1) k

-- The first switch of `gc_with_object_do`, and the second.
abbrev pub normal_slots : ObjectType → ℕ → Result (List Slot)
normal_slots object_type n = ok []
normal_slots class_type n = ok (slot_instance_prototype ∷ [])
normal_slots function_type n =
    ok (slot_desc ∷ slot_declaration_context ∷ numbered slot_variable 0 n)
normal_slots exception_type n = ok (slot_description ∷ slot_thrown_by ∷ [])
normal_slots other n = trap

abbrev pub thin_slots : ObjectType → ℕ → Result (List Slot)
thin_slots continuation_type n = ok (slot_return_to ∷ slot_please_clean ∷ slot_context ∷ [])
thin_slots context_type n = ok (
    slot_static_parent ∷ slot_function ∷ slot_self ∷ slot_local_names ∷ slot_locals ∷ slot_args
    ∷ [])
thin_slots arguments_type n = ok (slot_names ∷ slot_args_data ∷ [])
thin_slots function_description_type n = ok (slot_defined_locals ∷ slot_argument_names ∷ [])
thin_slots string_type n = ok (slot_string_data ∷ [])
thin_slots array_type n = ok (slot_array_data ∷ [])
thin_slots map_type n = ok (slot_map_data ∷ [])
thin_slots codegen_type n =
    ok (slot_codegen_parent ∷ slot_codegen_result ∷ slot_variable_names ∷ slot_codegen_root ∷ [])
thin_slots pointer_type n = ok (slot_pointer ∷ [])
thin_slots ast_type n = ok (numbered slot_child 0 n)
thin_slots other n = trap

-- The slots that `gc_with_object_do` acts on, in order.
unfoldable pub object_slots : Word → ObjectType → ℕ → Result (List Slot)
object_slots object t n = do
  assert (is_object object)
  if is_normal_type t
      then (do
        more ← normal_slots t n
        ok (
            slot_prototype ∷ slot_members ∷ slot_property_names ∷ slot_property_data
            ∷ slot_included_modules ∷ more))
      else thin_slots t n

-- The words behind an object that marking goes to, by the type of the allocation.
abbrev pub words_in : Word → Allocation → AllocType → Result (List Word)
words_in object a gc_object = do
  slots ← object_slots object a.type a.count
  ok (map a.slot_at slots)
words_in object a gc_blob = ok a.blob_words
words_in object a gc_atomic = ok []
words_in object a gc_invalid = ok []

unfoldable pub contents : Word → Allocation → Result (List Word)
contents object a = words_in object a a.alloc_type

abbrev pub is_stale : AllocType → Bool
is_stale gc_invalid = true
is_stale other = false

-- What marking changes: the flags of objects, and the counts of heaps and of the statistics, which are
-- `uint32_t` and wrap around.
pub record Marks : Type 0 where
  pub flags_at : Word → GcFlags
  pub num_indefinite : ℕ → ℕ
  pub num_reachable : ℕ → ℕ
  pub stats_indefinites : ℕ
  pub stats_survived : ℕ

abbrev pub update {ℓ} : {A : Type ℓ} → (ℕ → A) → ℕ → A → ℕ → A
update f k a = λ x. if x == k then a else f x

-- `new_flags`
abbrev pub marked_flags : Bool → GcFlags → GcFlags
marked_flags on_stack flags = record flags {
  gc_mark = true;
  gc_indefinite = flags.gc_indefinite || on_stack;
}

-- `flags != new_flags`
abbrev pub adds_flags : Bool → GcFlags → Bool
adds_flags on_stack flags = not flags.gc_mark || (on_stack && not flags.gc_indefinite)

abbrev pub count_indefinite : Bool → ℕ → Marks → Marks
count_indefinite false heap s = s
count_indefinite true heap s = record s {
  num_indefinite = update s.num_indefinite heap ((s.num_indefinite heap + 1) % u32_mod);
  stats_indefinites = (s.stats_indefinites + 1) % u32_mod;
}

abbrev pub count_reachable : ℕ → Marks → Marks
count_reachable heap s = record s {
  num_reachable = update s.num_reachable heap ((s.num_reachable heap + 1) % u32_mod);
  stats_survived = (s.stats_survived + 1) % u32_mod;
}

-- Setting the flags of an object of a heap, and counting it
unfoldable pub set_marks : Bool → ℕ → Word → Marks → Marks
set_marks on_stack heap object s =
    let flags = s.flags_at object in
    if adds_flags on_stack flags
    then count_reachable heap (
        count_indefinite (flags.gc_indefinite || on_stack) heap
          (record s { flags_at = update s.flags_at object (marked_flags on_stack flags) }))
    else s

-- An action on each word, in order.
unfoldable pub each_word {ℓ} : {S : Type ℓ} → (Word → S → Result S) → List Word → S → Result S
each_word action [] s = ok s
each_word action (w ∷ ws) s = do t ← action w s; each_word action ws t

-- A stack: its ends and the words from the bottom to the top.
pub record Stack : Type 0 where
  pub stack_bottom : Word
  pub stack_top : Word
  pub stack_words : List Word

-- `find` is `gc_find_heap` and `gc_find_object_start`, `heap_of` the heap of an object.
module _ (find : Word → Option Word) (heap_of : Word → ℕ) (allocation_at : Word → Allocation)
    (maybe_contains : Word → Bool) where
  -- `gc_mark_root`; fuel for the depth of the recursion, which traps when it is used up.
  unfoldable pub mark_root : ℕ → Bool → Word → Marks → Result Marks
  mark_root zero on_stack w s = trap
  mark_root (suc n) on_stack w s = elim (find w) [
    | none ↦ ok s
    | some object ↦
        let a = allocation_at object in
        let t = set_marks on_stack (heap_of object) object s in
        if is_stale a.alloc_type
        then ok s
        else if (s.flags_at object).gc_mark
        then ok t
        else (do ws ← contents object a; each_word (λ v u. mark_root n false v u) ws t)
  ]

  -- The loop of `gc_with_stack_do`
  unfoldable pub stack_words_do {ℓ} :
      {S : Type ℓ} → (Word → S → Result S) → List Word → S → Result S
  stack_words_do action [] s = ok s
  stack_words_do action (w ∷ ws) s = do
    t ← if maybe_contains w then action w s else ok s
    stack_words_do action ws t

  unfoldable pub with_stack_do {ℓ} : {S : Type ℓ} → (Word → S → Result S) → Stack → S → Result S
  with_stack_do action stack s = do
    assert (stack.stack_bottom % 16 == 0)
    assert (stack.stack_top % 16 == 0)
    stack_words_do action stack.stack_words s

  -- `do_task_stack` for each task
  unfoldable pub task_stacks_do {ℓ} :
      {S : Type ℓ} → (Word → S → Result S) → List Stack → S → Result S
  task_stacks_do action [] s = ok s
  task_stacks_do action (stack ∷ stacks) s = do
    assert (not (stack.stack_top == 0) && not (stack.stack_bottom == 0))
    t ← with_stack_do action stack s
    task_stacks_do action stacks t

  -- `gc_with_everything_do(gc_mark_root)`: the stacks of the tasks, then the definite roots.
  unfoldable pub mark_everything : ℕ → List Stack → List Word → Marks → Result Marks
  mark_everything n stacks roots s = do
    t ← task_stacks_do (mark_root n true) stacks s
    each_word (mark_root n false) roots t
