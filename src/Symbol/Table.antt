-- ===== src/Symbol/Table.antt =====
-- The symbol table: interning and naming are inverse to one another, and symbols never change.
use snow.Symbol.{Name, SymbolTable, find_symbol, intern, intern_all, same_name, symbol_to_string}
use snow.Base.{
  Bool-cases, List, Option, [], ap, arith, get_elem?, inl, inr, length, none, ok, refl, some, subst,
  suc, sym, true, zero, ℕ, ◌++◌, ◌+◌, ◌<◌, ◌↔◌, ◌∙◌, ◌∷◌, ◌≡◌, ◌≢◌,
}

pub same_name_iff : (a b : Name) → (same_name a b ≡ true) ↔ (a ≡ b)
unfolding same_name
same_name_iff [] [] = (λ h. refl, λ h. refl)
same_name_iff [] (y ∷ ys) = (λ h. cc, λ h. cc)
same_name_iff (x ∷ xs) [] = (λ h. cc, λ h. cc)
same_name_iff (x ∷ xs) (y ∷ ys) =
    let (to, from) = same_name_iff xs ys in (λ h. ground (arith, to), λ h. ground (arith, from))

-- No two entries of the table are the same name.
abbrev pub NotIn : Name → SymbolTable → Type 0
NotIn name [] = Unit
NotIn name (s ∷ table) = (name ≢ s) × NotIn name table

abbrev pub IsUnique : SymbolTable → Type 0
IsUnique [] = Unit
IsUnique (s ∷ table) = NotIn s table × IsUnique table

-- What the search says: where the name is, or that it is nowhere.
data Search (name : Name) (i : ℕ) (table : SymbolTable) : Option ℕ → Type 0 where
  hit : (k n : ℕ) → n ≡ i + k → get_elem? table k ≡ some name → Search name i table (some n)
  miss : NotIn name table → Search name i table none

Search-cons :
    {name : Name} {i : ℕ} {table : SymbolTable} {o : Option ℕ} (s : Name)
    → name ≢ s
    → Search name (i + 1) table o
    → Search name i (s ∷ table) o
Search-cons s ne (hit k n e at) = hit (suc k) n (omega (arith, e)) at
Search-cons s ne (miss out) = miss (ne, out)

find_symbol-Search :
    (name : Name) (table : SymbolTable) (i : ℕ) → Search name i table (find_symbol name table i)
unfolding find_symbol
find_symbol-Search name [] i = miss tt
find_symbol-Search name (s ∷ table) i = elim (Bool-cases (same_name name s)) [
  | inl e ↦ rw e (hit 0 i (omega arith) (ap some (sym ((same_name_iff name s).0 e))))
  | inr e ↦ rw e (
      Search-cons s (λ q. cc (e, (same_name_iff name s).1 q))
        (find_symbol-Search name table (i + 1)))
]

get_elem?-append_end {ℓ} :
    {A : Type ℓ} (xs : List A) (x : A) → get_elem? (xs ++ x ∷ []) (length xs) ≡ some x
get_elem?-append_end [] x = refl
get_elem?-append_end (y ∷ xs) x = get_elem?-append_end xs x

get_elem?-append_left {ℓ} :
    {A : Type ℓ} (xs ys : List A) (i : ℕ) {x : A}
    → get_elem? xs i ≡ some x
    → get_elem? (xs ++ ys) i ≡ some x
get_elem?-append_left [] ys i e = cc
get_elem?-append_left (y ∷ xs) ys zero e = e
get_elem?-append_left (y ∷ xs) ys (suc i) e = get_elem?-append_left xs ys i e

NotIn-append :
    (name s : Name) (table : SymbolTable)
    → NotIn name table
    → name ≢ s
    → NotIn name (table ++ s ∷ [])
NotIn-append name s [] h ne = (ne, tt)
NotIn-append name s (t ∷ table) (a, h) ne = (a, NotIn-append name s table h ne)

IsUnique-append :
    (table : SymbolTable) (name : Name)
    → IsUnique table
    → NotIn name table
    → IsUnique (table ++ name ∷ [])
IsUnique-append [] name u h = (tt, tt)
IsUnique-append (s ∷ table) name (a, u) (ne, h) =
    (NotIn-append s name table a (λ e. ne (sym e)), IsUnique-append table name u h)

-- The facts of one call, by the outcome of the search.
record Interned (table : SymbolTable) (name : Name) (out : ℕ × SymbolTable) : Type 0 where
  pub named : get_elem? out.1 out.0 ≡ some name
  pub kept : (i : ℕ) (s : Name) → get_elem? table i ≡ some s → get_elem? out.1 i ≡ some s
  pub unique : IsUnique table → IsUnique out.1

by-Search :
    {table : SymbolTable} {name : Name} {o : Option ℕ}
    → Search name 0 table o
    → Interned table name
        (elim o [ some i ↦ (i, table) | none ↦ (length table, table ++ name ∷ []) ])
by-Search {table} {name} (hit k n e at) = record {
  named = let q : k ≡ n = omega (arith, e) in subst (λ m. get_elem? table m ≡ some name) q at;
  kept = λ i s q. q;
  unique = λ u. u;
}
by-Search {table} {name} (miss out) = record {
  named = get_elem?-append_end table name;
  kept = λ i s q. get_elem?-append_left table (name ∷ []) i q;
  unique = λ u. IsUnique-append table name u out;
}

intern-Interned : (table : SymbolTable) (name : Name) → Interned table name (intern table name)
unfolding intern
intern-Interned table name = by-Search (find_symbol-Search name table 0)

lt_of_get_elem? {ℓ} :
    {A : Type ℓ} (xs : List A) (i : ℕ) {x : A} → get_elem? xs i ≡ some x → i < length xs
lt_of_get_elem? [] i e = cc
lt_of_get_elem? (y ∷ xs) zero e = omega arith
lt_of_get_elem? (y ∷ xs) (suc i) e = omega (arith, lt_of_get_elem? xs i e)

string_at :
    (table : SymbolTable) (i : ℕ) (s : Name)
    → (symbol_to_string table i ≡ ok s) ↔ (get_elem? table i ≡ some s)
unfolding symbol_to_string
string_at table i s = (λ h. ground arith, λ h. ground (arith, lt_of_get_elem? table i h))

-- The symbol of a name is read back as that name, and a symbol that had a name keeps it.
pub symbol_to_string-intern :
    (table : SymbolTable) (name s : Name) (i : ℕ)
    → let (sym, table') = intern table name in
      (symbol_to_string table' sym ≡ ok name)
      × (symbol_to_string table i ≡ ok s → symbol_to_string table' i ≡ ok s)
symbol_to_string-intern table name s i =
    let f = intern-Interned table name in
    let (sym, table') = intern table name in
    (
      (string_at table' sym name).1 f.named,
      λ h. (string_at table' i s).1 (f.kept i s ((string_at table i s).0 h)),
    )

not-at :
    (name : Name) (table : SymbolTable) (i : ℕ) → NotIn name table → get_elem? table i ≢ some name
not-at name [] i h e = cc
not-at name (s ∷ table) zero (ne, h) e = ne (cc)
not-at name (s ∷ table) (suc i) (ne, h) e = not-at name table i h e

unique_index :
    (table : SymbolTable) (i j : ℕ) (name : Name)
    → IsUnique table
    → get_elem? table i ≡ some name
    → get_elem? table j ≡ some name
    → i ≡ j
unique_index [] i j name u p q = cc
unique_index (s ∷ table) zero zero name u p q = refl
unique_index (s ∷ table) zero (suc j) name (a, u) p q = absurd (not-at s table j a (cc))
unique_index (s ∷ table) (suc i) zero name (a, u) p q = absurd (not-at s table i a (cc))
unique_index (s ∷ table) (suc i) (suc j) name (a, u) p q =
    ap suc (unique_index table i j name u p q)

-- In a table with no name twice, two names get the same symbol exactly if they are equal, and the
-- table stays without repetition.
pub intern-injective :
    (table : SymbolTable) (a b : Name)
    → IsUnique table
    → let (sym_a, t) = intern table a in
      let (sym_b, t') = intern t b in ((sym_a ≡ sym_b) ↔ (a ≡ b)) × IsUnique t'
intern-injective table a b u =
    let f = intern-Interned table a in
    let (sym_a, t) = intern table a in
    let g = intern-Interned t b in
    let (sym_b, t') = intern t b in
    let at_a : get_elem? t' sym_a ≡ some a = g.kept sym_a a f.named in
    let last = g.unique (f.unique u) in
    (
      (
        λ e. cc (ap (get_elem? t') e, at_a, g.named),
        λ e. unique_index t' sym_a sym_b b last (at_a ∙ ap some e) g.named,
      ),
      last,
    )

-- The names of symbols, one by one.
abbrev pub Names : SymbolTable → List ℕ → List Name → Type 0
Names table [] [] = Unit
Names table [] (name ∷ names) = ⊥
Names table (sym ∷ syms) [] = ⊥
Names table (sym ∷ syms) (name ∷ names) =
    (symbol_to_string table sym ≡ ok name) × Names table syms names

kept_by_all :
    (table : SymbolTable) (names : List Name) (i : ℕ) (s : Name)
    → symbol_to_string table i ≡ ok s
    → symbol_to_string (intern_all table names).1 i ≡ ok s
unfolding intern_all
kept_by_all table [] i s h = h
kept_by_all table (name ∷ names) i s h =
    kept_by_all (intern table name).1 names i s ((symbol_to_string-intern table name s i).1 h)

-- After any sequence of calls every symbol that they returned still has its name.
pub intern_all-Names :
    (table : SymbolTable) (names : List Name)
    → let (syms, last) = intern_all table names in Names last syms names
unfolding intern_all
intern_all-Names table [] = tt
intern_all-Names table (name ∷ names) = (
  kept_by_all (intern table name).1 names (intern table name).0 name
      ((symbol_to_string-intern table name name 0).0),
  intern_all-Names (intern table name).1 names,
)
