-- ===== src/Exception/Tests.antt =====
-- Tests of the exceptions, after src/test/exception.c.
use snow.Base.{[], arith, none, ok, some, ◌∷◌, ◌≡◌}
use snow.Exception.{
  Blocks, catching, comes_back, ensuring, restores, try_catch_ensure, try_statement, trying,
}
use snow.Exception.Protocol.{NeverNull, try_catch_ensure-statement, try_statement-statement}
use snow.Value.{null}

-- The catch block throws 161, as in `throws_in_catch`.
abbrev throws_in_catch : Blocks
throws_in_catch = record {
  try_block = some 121;
  catch_block = λ e. some 161;
  ensure_block = λ e. none;
}

throws_in_catch-NeverNull : NeverNull throws_in_catch
throws_in_catch-NeverNull = record {
  from_try = λ e. ground (arith, e);
  from_catch = λ x e. ground (arith, e);
  from_ensure = λ x e. ground (arith, e);
}

try_statement-statement_example :
    try_statement 4 throws_in_catch (null ∷ [])
    ≡ ok (record {
      ran = trying ∷ catching ∷ ensuring ∷ [];
      handlers = 161 ∷ [];
      control = restores;
    })
try_statement-statement_example =
    try_statement-statement 0 throws_in_catch (null ∷ []) throws_in_catch-NeverNull

try_catch_ensure-statement_example :
    try_catch_ensure (some 121) (λ e. none) (some none) []
    ≡ record { ran = trying ∷ catching ∷ ensuring ∷ []; handlers = []; control = comes_back tt }
try_catch_ensure-statement_example = try_catch_ensure-statement (some 121) (λ e. none) none []
