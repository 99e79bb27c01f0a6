-- ===== src/Codegen/Slots/Quiet.antt =====
-- The steps that only emit code, or look a name up, leave the temporaries alone.
use snow.Asm.{Cond, Label, LabelRef, asm_bind, asm_j, asm_jmp, asm_label}
use snow.Base.{
  Bool, Bool-cases, List, Option, Option-cases, Result, [], arith, false, fault, if◌then◌else◌, inl,
  inr, length, none, ok, refl, some, thrown, trap, true, ℕ, ◌==◌, ◌∷◌,
}
use snow.LinkBuffer.{LinkBuffer}
use snow.Codegen.{Cgx, M, Stored, find_variable, new_reference, pure, store_add, variable_reference}
use snow.Codegen.Ops.{
  Callee, Instr, Line, Target, array_get, asm, asms, bind, call_of, codes, compile_call,
  inlined_array_get, inlined_eval_truth, ins, j, jmp, link, on_buffer, snow_eval_truth, with_buffer,
  with_label, with_ref,
}
use snow.Codegen.Nodes.{add_return, define, is_global, local_index}
use snow.Codegen.Slots.Rules.{After, Quiet, Quiet-bind, Quiet-then, SameSlots}
use snow.Function.{add_variable_reference, index_of}

pub pure-Quiet : {A : Type 0} (a : A) → Quiet (pure a)
pure-Quiet a = record { keeps = λ s. (refl, refl) }

with_buffer-SameSlots :
    (s : Cgx) (r : Result LinkBuffer) → After (λ _ s'. SameSlots s s') (with_buffer s r)
with_buffer-SameSlots s (ok lb) = (refl, refl)
with_buffer-SameSlots s trap = tt
with_buffer-SameSlots s fault = tt
with_buffer-SameSlots s thrown = tt

with_ref-SameSlots :
    (s : Cgx) (r : Result (LabelRef × LinkBuffer)) → After (λ _ s'. SameSlots s s') (with_ref s r)
with_ref-SameSlots s (ok (ref, lb)) = (refl, refl)
with_ref-SameSlots s trap = tt
with_ref-SameSlots s fault = tt
with_ref-SameSlots s thrown = tt

with_label-SameSlots :
    (s : Cgx) (r : Result Label) → After (λ _ s'. SameSlots s s') (with_label s r)
with_label-SameSlots s (ok l) = (refl, refl)
with_label-SameSlots s trap = tt
with_label-SameSlots s fault = tt
with_label-SameSlots s thrown = tt

pub on_buffer-Quiet : (f : LinkBuffer → Result LinkBuffer) → Quiet (on_buffer f)
unfolding on_buffer
on_buffer-Quiet f = record { keeps = λ s. with_buffer-SameSlots s (f s.buffer) }

pub j-Quiet : (cc : Cond) → Quiet (j cc)
unfolding j
j-Quiet cc = record { keeps = λ s. with_ref-SameSlots s (asm_j s.buffer cc) }

pub jmp-Quiet : Quiet jmp
unfolding jmp
jmp-Quiet = record { keeps = λ s. with_ref-SameSlots s (asm_jmp s.buffer) }

pub bind-Quiet : Quiet bind
unfolding bind
bind-Quiet = record { keeps = λ s. with_label-SameSlots s (asm_bind s.buffer asm_label) }

pub link-Quiet : (ref : LabelRef) (label : Label) → Quiet (link ref label)
unfolding link
link-Quiet ref label = on_buffer-Quiet _

pub asms-Quiet : (is : List Instr) → Quiet (asms is)
unfolding asms
asms-Quiet [] = pure-Quiet tt
asms-Quiet (instr ∷ is) = Quiet-then (on_buffer-Quiet (asm instr)) (asms-Quiet is)

inlined_eval_truth-Quiet : Quiet inlined_eval_truth
unfolding inlined_eval_truth
inlined_eval_truth-Quiet = Quiet-then (asms-Quiet _) (
    Quiet-bind (j-Quiet _) λ was_true_jmp1. Quiet-then (asms-Quiet _) (
      Quiet-bind (j-Quiet _) λ was_true_jmp2. Quiet-then (asms-Quiet _) (
        Quiet-bind bind-Quiet λ was_true.
          Quiet-then (link-Quiet was_true_jmp1 was_true) (link-Quiet was_true_jmp2 was_true))))

pub if-Quiet : {A : Type 0} (b : Bool) {m k : M A} → Quiet m → Quiet k → Quiet (if b then m else k)
if-Quiet true p q = p
if-Quiet false p q = q

module _ (target : Target) where
  inlined_array_get-Quiet : Quiet (inlined_array_get target)
  unfolding inlined_array_get
  inlined_array_get-Quiet = Quiet-then (asms-Quiet _) (
      if-Quiet target.debug
        (Quiet-then (asms-Quiet _) (
          Quiet-bind (j-Quiet _) λ jump.
            Quiet-then (asms-Quiet _) (Quiet-bind bind-Quiet λ label. link-Quiet jump label)))
        (asms-Quiet _))

  compile_call-Quiet : (callee : Callee) → Quiet (compile_call target callee)
  unfolding compile_call
  compile_call-Quiet snow_eval_truth = inlined_eval_truth-Quiet
  compile_call-Quiet array_get = inlined_array_get-Quiet
  compile_call-Quiet callee = asms-Quiet _

  pub codes-Quiet : (lines : List Line) → Quiet (codes target lines)
  unfolding codes
  codes-Quiet [] = pure-Quiet tt
  codes-Quiet (ins instr ∷ lines) = Quiet-then (on_buffer-Quiet (asm instr)) (codes-Quiet lines)
  codes-Quiet (call_of callee ∷ lines) = Quiet-then (compile_call-Quiet callee) (codes-Quiet lines)

pub store_add-Quiet : (v : Stored) → Quiet (store_add v)
unfolding store_add
store_add-Quiet v = record { keeps = λ s. (refl, refl) }

pub local_index-Quiet : (name : ℕ) → Quiet (local_index name)
unfolding local_index
local_index-Quiet name = record { keeps = λ s. (refl, refl) }

pub define-Quiet : (name : ℕ) → Quiet (define name)
unfolding define
define-Quiet name = record { keeps = λ s. (refl, refl) }

pub add_return-Quiet : (ref : LabelRef) → Quiet (add_return ref)
unfolding add_return
add_return-Quiet ref = record { keeps = λ s. (refl, refl) }

pub is_global-Quiet : Quiet is_global
unfolding is_global
is_global-Quiet = record { keeps = λ s. ground arith }

new_reference-SameSlots :
    (name : ℕ) (found : Option (ℕ × ℕ)) (s : Cgx)
    → After (λ _ s'. SameSlots s s') (new_reference name found s)
unfolding new_reference
new_reference-SameSlots name none s = (refl, refl)
new_reference-SameSlots name (some (level, index)) s =
    elim (Bool-cases
      (length s.variable_reference_names == (add_variable_reference s.result level index).0)) [
        | inl e ↦ rw e (refl, refl)
        | inr e ↦ rw e tt
      ]

pub variable_reference-Quiet : (name : ℕ) → Quiet (variable_reference name)
unfolding variable_reference
variable_reference-Quiet name = record {
  keeps = λ s. elim (Option-cases (index_of name s.variable_reference_names)) [
    | inl e ↦
        rw (e, After) (new_reference-SameSlots name (find_variable (s.result ∷ s.parents) name 0) s)
    | inr (n, e) ↦ rw (e, After) (refl, refl)
  ];
}
