-- ===== src/Function.antt =====
-- snow/function.c and snow/function.h: the descriptions of functions, which the code generator fills.
-- Arrays of symbols are lists here.
use snow.Base.{
  List, Option, [], if◌then◌else◌, length, none, some, suc, ℕ, ◌%◌, ◌++◌, ◌==◌, ◌^◌, ◌∷◌,
}
use snow.LinkBuffer.{Byte}

-- A reference to a variable of an enclosing function: the level of its context and its index there.
pub record VariableReference : Type 0 where
  pub context_level : ℕ
  pub variable_index : ℕ

-- `SnFunctionDescription`: `func` is the compiled code.
pub record FunctionDescription : Type 0 where
  pub func : List Byte
  pub defined_locals : List ℕ
  pub argument_names : Option (List ℕ)
  pub variable_references : List VariableReference

unfoldable pub create_function_description : FunctionDescription
create_function_description = record {
  func = [];
  defined_locals = [];
  argument_names = none;
  variable_references = [];
}

abbrev next_index : Option ℕ → Option ℕ
next_index none = none
next_index (some i) = some (suc i)

-- `array_find`: the index of a symbol, if it is there.
unfoldable pub index_of : ℕ → List ℕ → Option ℕ
index_of a [] = none
index_of a (x ∷ xs) = if x == a then some 0 else next_index (index_of a xs)

unfoldable pub get_local_index : FunctionDescription → ℕ → Option ℕ
get_local_index desc name = index_of name desc.defined_locals

-- The index of the local, and the description with it.
unfoldable pub define_local : FunctionDescription → ℕ → ℕ × FunctionDescription
define_local desc name = elim (index_of name desc.defined_locals) [
  | some i ↦ (i, desc)
  | none ↦ (
    length desc.defined_locals,
    record desc { defined_locals = desc.defined_locals ++ name ∷ [] },
  )
]

-- The count of references is a `uint16_t`. Where it wraps around, the first reference is overwritten; the
-- caller then fails an assertion.
unfoldable pub add_variable_reference : FunctionDescription → ℕ → ℕ → ℕ × FunctionDescription
add_variable_reference desc level index = (
  length desc.variable_references % 2 ^ 16,
  record desc {
    variable_references =
        desc.variable_references ++ record { context_level = level; variable_index = index } ∷ [];
  },
)
