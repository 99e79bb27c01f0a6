-- ===== src/Symbol.antt =====
-- snow/symbol.c: a symbol is the index of its name in the symbol table, an array of strings that only
-- grows. A name is a C string, the list of its bytes before the terminating zero; the table's lock is
-- taken and released by each function, so each is one step.
pub mod Table
mod Tests
use snow.Base.{
  Bool, List, Option, Result, [], assert, false, fault, get_elem?, if◌then◌else◌, length, ltb, none,
  ok, some, sym, true, ℕ, ◌&&◌, ◌++◌, ◌+◌, ◌==◌, ◌>>◌, ◌∷◌,
}
use snow.Value.{Word, symbol_to_value}

-- A C string.
abbrev pub Name : Type 0
Name = List ℕ

abbrev pub SymbolTable : Type 0
SymbolTable = List Name

-- `strcmp(a, b) == 0`
unfoldable pub same_name : Name → Name → Bool
same_name [] [] = true
same_name [] (y ∷ ys) = false
same_name (x ∷ xs) [] = false
same_name (x ∷ xs) (y ∷ ys) = (x == y) && same_name xs ys

-- The loop of `snow_symbol` over the table, from index `i` on.
unfoldable pub find_symbol : Name → SymbolTable → ℕ → Option ℕ
find_symbol name [] i = none
find_symbol name (s ∷ table) i = if same_name name s then some i else find_symbol name table (i + 1)

-- `snow_symbol`: the symbol, and the table after the call.
unfoldable pub intern : SymbolTable → Name → ℕ × SymbolTable
intern table name = elim (find_symbol name table 0) [
  | some i ↦ (i, table)
  | none ↦ (length table, table ++ name ∷ [])
]

-- `snow_symbol_to_string`; an unknown symbol fails an assertion.
unfoldable pub symbol_to_string : SymbolTable → ℕ → Result Name
symbol_to_string table sym = do
  assert (ltb sym (length table))
  elim (get_elem? table sym) [ none ↦ fault | some s ↦ ok s ]

-- `snow_vsymbol`
unfoldable pub vsymbol : SymbolTable → Name → Word × SymbolTable
vsymbol table name = let (sym, table') = intern table name in (symbol_to_value sym, table')

-- A program's calls of `snow_symbol`, in order.
unfoldable pub intern_all : SymbolTable → List Name → List ℕ × SymbolTable
intern_all table [] = ([], table)
intern_all table (name ∷ names) =
    let (sym, table') = intern table name in
    let (syms, last) = intern_all table' names in (sym ∷ syms, last)
