-- ===== src/Codegen/Slots/Root.antt =====
-- The last test of `codegen_compile_root`: whether all temporaries were freed.
use snow.Asm.{Label, LabelRef}
use snow.Base.{
  Bool-cases, List, Option, Option-cases, Result, [], ap, arith, false, fault, inl, inr, length,
  length-append, none, ok, refl, some, subst, thrown, trap, ℕ, ◌%◌, ◌+◌, ◌<◌, ◌==◌, ◌↔◌, ◌∷◌, ◌≡◌,
  ◌≢◌,
}
use snow.Codegen.{Cgx, M, Stored, continue_with, create_codegen, freelist, ◌>>=◌, ◌>>◌}
use snow.Codegen.Ops.{Target}
use snow.Codegen.Compile.{
  at_offset, check_temporaries, compile_frame, compile_nodes, compile_root, define_arguments,
  link_all, link_returns, link_stack_size, name_arguments, reserve_stack, stack_size,
  temporaries_freed, with_size,
}
use snow.Codegen.Tree.{Nodes}
use snow.Codegen.Slots.Tree.{compile_nodes-Loses, xor_slots_all}
use snow.Function.{FunctionDescription}
use snow.LinkBuffer.{LinkBuffer}
use snow.Codegen.Slots.Branches.{child_then}
use snow.Codegen.Slots.Quiet.{asms-Quiet, bind-Quiet, define-Quiet, link-Quiet, pure-Quiet}
use snow.Codegen.Slots.Rules.{
  After, Loses, Lost, Quiet, Quiet-Loses, Quiet-bind, Quiet-then, SameSlots, Slots,
}
use snow.Codegen.Slots.Steps.{Uses-Quiet-bind, Uses-Quiet-then}

at_offset-SameSlots :
    (s : Cgx) (r : Result (ℕ × LinkBuffer)) → After (λ _ s'. SameSlots s s') (at_offset s r)
at_offset-SameSlots s (ok (offset, lb)) = (refl, refl)
at_offset-SameSlots s trap = tt
at_offset-SameSlots s fault = tt
at_offset-SameSlots s thrown = tt

reserve_stack-Quiet : Quiet reserve_stack
unfolding reserve_stack
reserve_stack-Quiet = record { keeps = λ s. at_offset-SameSlots s _ }

define_arguments-Quiet : (names : List ℕ) → Quiet (define_arguments names)
unfolding define_arguments
define_arguments-Quiet [] = pure-Quiet tt
define_arguments-Quiet (a ∷ names) = Quiet-bind (define-Quiet a) λ i. define_arguments-Quiet names

name_arguments-Quiet : (arguments : Option (List ℕ)) → Quiet (name_arguments arguments)
unfolding name_arguments
name_arguments-Quiet none = pure-Quiet tt
name_arguments-Quiet (some names) = record {
  keeps = λ s.
      (define_arguments-Quiet names).keeps
        (record s { result = record s.result { argument_names = some names } });
}

link_all-Quiet : (refs : List LabelRef) (label : Label) → Quiet (link_all refs label)
unfolding link_all
link_all-Quiet [] label = pure-Quiet tt
link_all-Quiet (ref ∷ refs) label = Quiet-then (link-Quiet ref label) (link_all-Quiet refs label)

link_returns-Quiet : (label : Label) → Quiet (link_returns label)
unfolding link_returns
link_returns-Quiet label = record { keeps = λ s. (link_all-Quiet s.returns label).keeps s }

with_size-SameSlots :
    (s : Cgx) (r : Result (ℕ × LinkBuffer)) → After (λ _ s'. SameSlots s s') (with_size s r)
with_size-SameSlots s (ok (n, lb)) = (refl, refl)
with_size-SameSlots s trap = tt
with_size-SameSlots s fault = tt
with_size-SameSlots s thrown = tt

link_stack_size-Quiet : (offset : ℕ) → Quiet (link_stack_size offset)
unfolding link_stack_size
link_stack_size-Quiet offset = record {
  keeps = λ s. elim (Bool-cases (stack_size s.num_temporaries % 16 == 0)) [
    | inl e ↦ rw e (with_size-SameSlots s _)
    | inr e ↦ rw e tt
  ];
}

compile_frame-Loses :
    (target : Target) (arguments : Option (List ℕ)) (body : Nodes)
    → Loses (xor_slots_all body) (compile_frame target arguments (compile_nodes target body))
unfolding compile_frame
compile_frame-Loses target arguments body slots = Uses-Quiet-then (asms-Quiet _) (
    Uses-Quiet-bind reserve_stack-Quiet λ offset. Uses-Quiet-then (asms-Quiet _) (
      Uses-Quiet-then (name_arguments-Quiet arguments) (
        Uses-Quiet-then (asms-Quiet _) (
          child_then (compile_nodes-Loses target body slots) (
            Quiet-Loses
              (Quiet-bind bind-Quiet λ label.
                Quiet-then (asms-Quiet _)
                  (Quiet-then (link_returns-Quiet label) (link_stack_size-Quiet offset)))
              slots)))))

-- The test, by what was lost.
freed-lost :
    (s : Cgx) (n : ℕ)
    → Lost [] n s
    → ((temporaries_freed s ≡ false) ↔ (0 < n) × (s.tmp_freelist ≢ none))
unfolding temporaries_freed
freed-lost s n (lost, e, h) = elim (Option-cases s.tmp_freelist) [
  | inl f ↦ rw f (λ k. absurd (ground arith), λ (_, g). absurd (g refl))
  | inr (ts, f) ↦
      let l : n + length ts ≡ s.num_temporaries =
        omega (arith, e, h.all, length-append lost [], ap (λ o. length (freelist o)) f) in
      rw f (λ k. (ground arith, λ g. cc), λ (k, _). ground arith)
]

pub fresh :
    (desc : FunctionDescription) (parents : List FunctionDescription) (store : List Stored)
    → Slots [] (create_codegen desc parents store)
unfolding create_codegen
fresh desc parents store = record { once = λ u. ground arith; all = omega arith }

checked : (s : Cgx) → (check_temporaries s ≡ trap) ↔ (temporaries_freed s ≡ false)
unfolding check_temporaries
checked s = (λ h. ground arith, λ h. rw h refl)

root-frame :
    (target : Target) (arguments : Option (List ℕ)) (body : M (Unit {0})) (s₀ s : Cgx)
    → compile_frame target arguments body s₀ ≡ ok (tt, s)
    → compile_root target arguments body s₀ ≡ check_temporaries s
unfolding compile_root ◌>>◌ ◌>>=◌ continue_with
root-frame target arguments body s₀ s e = rw e refl

frame-lost :
    (target : Target) (arguments : Option (List ℕ)) (body : Nodes) (s₀ s : Cgx)
    → Slots [] s₀
    → compile_frame target arguments (compile_nodes target body) s₀ ≡ ok (tt, s)
    → Lost [] (xor_slots_all body) s
frame-lost target arguments body s₀ s h e =
    subst (After (λ _ s'. Lost [] (xor_slots_all body) s')) e
      ((compile_frame-Loses target arguments body []).run [] s₀ h)

-- When the code of a function's body is made up to the last test, the generator then fails its assertion
-- exactly if the body has an xor outside the functions in it and a temporary was ever freed.
pub compile_root-trap :
    (target : Target) (arguments : Option (List ℕ)) (body : Nodes) (desc : FunctionDescription)
    (parents : List FunctionDescription) (store : List Stored) (s : Cgx)
    → compile_frame target arguments (compile_nodes target body) (create_codegen desc parents store)
      ≡ ok (tt, s)
    → ((compile_root target arguments
            (compile_nodes target body)
            (create_codegen desc parents store)
          ≡ trap)
        ↔ (0 < xor_slots_all body) × (s.tmp_freelist ≢ none))
compile_root-trap target arguments body desc parents store s e =
    let s₀ : Cgx = create_codegen desc parents store in
    let lost = frame-lost target arguments body s₀ s (fresh desc parents store) e in
    let test = freed-lost s (xor_slots_all body) lost in
    rw (root-frame target arguments (compile_nodes target body) s₀ s e)
      (λ h. test.0 ((checked s).0 h), λ h. (checked s).1 (test.1 h))
