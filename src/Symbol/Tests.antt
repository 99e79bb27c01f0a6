-- ===== src/Symbol/Tests.antt =====
-- Tests of the symbol table.
use snow.Base.{[], ◌↔◌, ◌∷◌, ◌≡◌}
use snow.Symbol.{Name, find_symbol, intern, same_name}
use snow.Symbol.Table.{IsUnique, intern-injective}

abbrev foo : Name
foo = 102 ∷ 111 ∷ 111 ∷ []

abbrev bar : Name
bar = 98 ∷ 97 ∷ 114 ∷ []

intern-injective_example :
    ((0 ≡ (intern (foo ∷ []) bar).0) ↔ (foo ≡ bar)) × IsUnique (intern (foo ∷ []) bar).1
unfolding intern find_symbol same_name
intern-injective_example = intern-injective (foo ∷ []) foo bar (tt, tt)
