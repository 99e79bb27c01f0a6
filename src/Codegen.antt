-- ===== src/Codegen.antt =====
-- snow/codegen.c and snow/codegen-x86_64.c: the code generator. A step takes the state of the generator and
-- returns the next one, or traps, or runs into the fault of a link buffer.
pub mod Tree
pub mod Ops
pub mod Nodes
pub mod Compile
pub mod Slots
pub mod Machine
mod Tests
use snow.Asm.{LabelRef}
use snow.Base.{
  List, Option, Result, [], fault, if◌then◌else◌, length, negsuc, none, ok, pos, some, suc, thrown,
  trap, ℕ, ◌*◌, ◌++◌, ◌+◌, ◌==◌, ◌∷◌,
}
use snow.Function.{FunctionDescription, add_variable_reference, get_local_index, index_of}
use snow.LinkBuffer.{LinkBuffer, init_linkbuffer}
use snow.Value.{Word, int_to_value}
use snow.Operands.{SnOp, make_address, rbp}

-- What compiled code gets back from `snow_store_get`.
pub data Stored : Type 0 where
  constant : Word → Stored
  description : FunctionDescription → Stored
  functions : List FunctionDescription → Stored

-- `SnCodegenX` with its `SnCodegen`, the descriptions of the enclosing functions, nearest first, and the
-- store of the runtime. `returns` is the list of the offsets in that link buffer; the end of the array
-- `tmp_freelist` is the head of the list.
pub record Cgx : Type 0 where
  pub buffer : LinkBuffer
  pub returns : List LabelRef
  pub num_temporaries : ℕ
  pub tmp_freelist : Option (List ℕ)
  pub result : FunctionDescription
  pub variable_reference_names : List ℕ
  pub parents : List FunctionDescription
  pub store : List Stored

-- A step of the generator, with a value.
abbrev pub M : Type 0 → Type 0
M A = Cgx → Result (A × Cgx)

unfoldable pub continue_with : {A B : Type 0} → Result (A × Cgx) → (A → M B) → Result (B × Cgx)
continue_with (ok (a, s)) f = f a s
continue_with trap f = trap
continue_with fault f = fault
continue_with thrown f = thrown

infixl 5 ◌>>=◌ ◌>>◌
unfoldable pub ◌>>=◌ : {A B : Type 0} → M A → (A → M B) → M B
unfolding continue_with
◌>>=◌ m f s = continue_with (m s) f

unfoldable pub ◌>>◌ : {B : Type 0} → M (Unit {0}) → M B → M B
unfolding ◌>>=◌
m >> k = m >>= λ _. k

abbrev pub pure : {A : Type 0} → A → M A
pure a s = ok (a, s)

abbrev pub nothing : M (Unit {0})
nothing = pure tt

abbrev pub trap_here : {A : Type 0} → M A
trap_here s = trap

-- `codegen_init` and `snow_create_codegen`, with an empty result
unfoldable pub create_codegen : FunctionDescription → List FunctionDescription → List Stored → Cgx
create_codegen result parents store = record {
  buffer = init_linkbuffer 1024;
  returns = [];
  num_temporaries = 0;
  tmp_freelist = none;
  result = result;
  variable_reference_names = [];
  parents = parents;
  store = store;
}

abbrev pub freelist : Option (List ℕ) → List ℕ
freelist none = []
freelist (some ts) = ts

-- The last number of `tmp_freelist`, or a new one.
unfoldable pub reserve_from : List ℕ → M ℕ
reserve_from [] s = ok (s.num_temporaries, record s { num_temporaries = s.num_temporaries + 1 })
reserve_from (t ∷ ts) s = ok (t, record s { tmp_freelist = some ts })

unfoldable pub reserve_tmp : M ℕ
unfolding reserve_from
reserve_tmp s = reserve_from (freelist s.tmp_freelist) s

unfoldable pub free_tmp : ℕ → M (Unit {0})
free_tmp t s = ok (tt, record s { tmp_freelist = some (t ∷ freelist s.tmp_freelist) })

-- `ADDRESS(RBP, -(tmp+1) * sizeof(VALUE))`
abbrev pub temporary : ℕ → SnOp
temporary t = make_address rbp (negsuc (8 * t + 7))

-- `snow_store_add`: the key of the value.
unfoldable pub store_add : Stored → M Word
store_add v s = ok (int_to_value (pos (length s.store)), record s { store = s.store ++ v ∷ [] })

-- The first enclosing function, counted from `level`, that has the local.
unfoldable pub find_variable : List FunctionDescription → ℕ → ℕ → Option (ℕ × ℕ)
unfolding get_local_index index_of
find_variable [] name level = none
find_variable (d ∷ ds) name level =
    let rest = find_variable ds name (suc level) in
    elim (get_local_index d name) [ some i ↦ some (level, i) | none ↦ rest ]

-- The rest of `codegen_variable_reference` where the name is new.
unfoldable pub new_reference : ℕ → Option (ℕ × ℕ) → M (Option ℕ)
unfolding add_variable_reference
new_reference name none s = ok (none, s)
new_reference name (some (level, index)) s =
    let (i, desc) = add_variable_reference s.result level index in
    if length s.variable_reference_names == i
    then ok (
      some i,
      record s {
        result = desc;
        variable_reference_names = s.variable_reference_names ++ name ∷ [];
      },
    )
    else trap

unfoldable pub variable_reference : ℕ → M (Option ℕ)
unfolding index_of find_variable new_reference
variable_reference name s = elim (index_of name s.variable_reference_names) [
  | some i ↦ ok (some i, s)
  | none ↦ new_reference name (find_variable (s.result ∷ s.parents) name 0) s
]
