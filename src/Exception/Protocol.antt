-- ===== src/Exception/Protocol.antt =====
-- What a statement of snow/exception.c does with its blocks, whichever of them throw.
use snow.Base.{
  List, Option, [], ap, arith, false, inl, inr, none, ok, refl, some, suc, true, ℕ, ◌++◌, ◌==◌, ◌∷◌,
  ◌≡◌, ◌≢◌, ◌⊎◌,
}
use snow.Exception.{
  Blocks, Ended, Resumption, TryState, aborts, block_ends, catcher, catching, comes_back,
  current_exception, end_try, ensure_then, ensuring, pop_exception_handler, restores, resume_try,
  throw_exception, try_catch_ensure, try_finish_resumptions, try_prepare_resumption_iteration,
  try_setup_resumptions, try_statement, trying,
}
use snow.Value.{Word, null}

-- No block throws NULL, which the protocol reads as nothing to propagate.
pub record NeverNull (b : Blocks) : Type 0 where
  pub from_try : b.try_block ≢ some null
  pub from_catch : (e : Word) → b.catch_block e ≢ some null
  pub from_ensure : (e : Word) → b.ensure_block e ≢ some null

-- An exception goes on to the handlers outside of the statement.
abbrev pub leaves : List Resumption → List Word → Option Word → Ended
leaves ran [] none = record { ran = ran; handlers = []; control = comes_back tt }
leaves ran (h ∷ hs) none = record { ran = ran; handlers = h ∷ hs; control = comes_back tt }
leaves ran [] (some e) = record { ran = ran; handlers = []; control = aborts e }
leaves ran (h ∷ hs) (some e) = record { ran = ran; handlers = e ∷ hs; control = restores }

-- The first exception wins.
abbrev pub first_of : Option Word → Option Word → Option Word
first_of (some e) other = some e
first_of none other = other

abbrev pub or_else : Option Word → Word → Word
or_else none e = e
or_else (some f) e = f

-- Try; on an exception catch it; then ensure, once and in any case. What ensure throws goes on, or else
-- what catch threw.
abbrev pub statement : Option Word → (Word → Option Word) → (Word → Option Word) → List Word → Ended
statement none catch_block ensure_block hs =
    leaves (trying ∷ ensuring ∷ []) hs (first_of (ensure_block null) none)
statement (some e) catch_block ensure_block hs =
    leaves (trying ∷ catching ∷ ensuring ∷ []) hs
      (first_of (ensure_block (or_else (catch_block e) e)) (catch_block e))

Option-cases {ℓ} : {A : Type ℓ} → (o : Option A) → (o ≡ none) ⊎ ((a : A) × (o ≡ some a))
Option-cases none = inl refl
Option-cases (some a) = inr (a, refl)

abbrev in_block : Resumption → Word → TryState
in_block r p = record {
  started = true;
  iteration_was_prepared = true;
  resumption_state = r;
  exception_to_propagate = p;
}

not_null : {e : Word} → (some e ≢ some null) → (e == null) ≡ false
not_null {e} nn = let ne : e ≢ null = λ z. nn (ap some z) in ground (arith, ne)

-- The end of the ensure block, which threw `o`, with `q` to propagate from the catch block.
ensure_ends :
    (n : ℕ) (b : Blocks) (ran : List Resumption) (x : Word) (hs : List Word) (o q : Option Word)
    → o ≢ some null
    → q ≢ some null
    → block_ends
        (λ s k. resume_try (suc n) b ran s k)
        ran
        (in_block ensuring (or_else q null))
        (x ∷ hs)
        o
      ≡ ok (leaves ran hs (first_of o q))
unfolding resume_try try_prepare_resumption_iteration end_try try_finish_resumptions throw_exception
    current_exception pop_exception_handler
ensure_ends n b ran x [] none none oo nq = refl
ensure_ends n b ran x (h ∷ hs) none none oo nq = refl
ensure_ends n b ran x [] none (some f) oo nq = rw (not_null nq) refl
ensure_ends n b ran x (h ∷ hs) none (some f) oo nq = rw (not_null nq) refl
ensure_ends n b ran x [] (some e) q oo nq = rw (not_null oo) refl
ensure_ends n b ran x (h ∷ hs) (some e) q oo nq = rw (not_null oo) refl

catch_ends :
    (n : ℕ) (b : Blocks) (e : Word) (hs : List Word) (o : Option Word)
    → o ≢ some null
    → ((x : Word) → b.ensure_block x ≢ some null)
    → block_ends
        (λ s k. resume_try (suc (suc n)) b (trying ∷ catching ∷ []) s k)
        (trying ∷ catching ∷ [])
        (in_block catching null)
        (e ∷ hs)
        o
      ≡ ok (
          leaves (trying ∷ catching ∷ ensuring ∷ []) hs (first_of (b.ensure_block (or_else o e)) o))
unfolding resume_try try_prepare_resumption_iteration end_try try_finish_resumptions throw_exception
    current_exception pop_exception_handler
catch_ends n b e hs none oo ne =
    ensure_ends n b (trying ∷ catching ∷ ensuring ∷ []) e hs (b.ensure_block e) none (ne e) oo
catch_ends n b e hs (some f) oo ne =
    ensure_ends n b (trying ∷ catching ∷ ensuring ∷ []) f hs (b.ensure_block f) (some f) (ne f) oo

try_ends :
    (n : ℕ) (b : Blocks) (hs : List Word) (o : Option Word)
    → o ≢ some null
    → ((x : Word) → b.catch_block x ≢ some null)
    → ((x : Word) → b.ensure_block x ≢ some null)
    → block_ends
        (λ s k. resume_try (suc (suc (suc n))) b (trying ∷ []) s k)
        (trying ∷ [])
        (in_block trying null)
        (null ∷ hs)
        o
      ≡ ok (statement o b.catch_block b.ensure_block hs)
unfolding resume_try try_prepare_resumption_iteration end_try try_finish_resumptions throw_exception
    current_exception pop_exception_handler
try_ends n b hs none oo nc ne =
    ensure_ends (suc n) b (trying ∷ ensuring ∷ []) null hs (b.ensure_block null) none (ne null) oo
try_ends n b hs (some e) oo nc ne = catch_ends n b e hs (b.catch_block e) (nc e) ne

-- If no block throws NULL, a statement of `snow_begin_try` with fuel for four iterations ends: try runs,
-- on an exception catch, then ensure once, the handlers outside are current again, and what ensure
-- threw, or else what catch threw, goes to them.
pub try_statement-statement :
    (n : ℕ) (b : Blocks) (hs : List Word)
    → NeverNull b
    → try_statement (suc (suc (suc (suc n)))) b hs
      ≡ ok (statement b.try_block b.catch_block b.ensure_block hs)
unfolding try_statement try_setup_resumptions resume_try try_prepare_resumption_iteration end_try
    current_exception
try_statement-statement n b hs real =
    try_ends n b hs b.try_block real.from_try real.from_catch real.from_ensure

ensure_then-leaves :
    (ensure_func : Option Word) (ran : List Resumption) (hs : List Word) (o : Option Word)
    → ensure_then (some ensure_func) ran hs o
      ≡ leaves (ran ++ ensuring ∷ []) hs (first_of ensure_func o)
unfolding ensure_then throw_exception
ensure_then-leaves none ran [] none = refl
ensure_then-leaves none ran [] (some e) = refl
ensure_then-leaves none ran (h ∷ hs) none = refl
ensure_then-leaves none ran (h ∷ hs) (some e) = refl
ensure_then-leaves (some x) ran [] o = refl
ensure_then-leaves (some x) ran (h ∷ hs) o = refl

catcher-same : (e : Word) (hs : List Word) (o : Option Word) → catcher e hs o ≡ o
unfolding throw_exception
catcher-same e hs none = refl
catcher-same e hs (some f) = refl

-- `snow_try_catch_ensure` with an ensure function runs try, on an exception catch, then ensure once,
-- restores the handlers outside, and throws on to them what ensure threw, or else what catch threw;
-- here NULL is an exception like any other.
pub try_catch_ensure-statement :
    (try_func : Option Word) (catch_func : Word → Option Word) (ensure_func : Option Word)
    (hs : List Word)
    → try_catch_ensure try_func catch_func (some ensure_func) hs
      ≡ statement try_func catch_func (λ e. ensure_func) hs
unfolding try_catch_ensure throw_exception
try_catch_ensure-statement none catch_func ensure_func hs =
    ensure_then-leaves ensure_func (trying ∷ []) hs none
try_catch_ensure-statement (some e) catch_func ensure_func hs =
    rw (catcher-same e hs (catch_func e))
      (ensure_then-leaves ensure_func (trying ∷ catching ∷ []) hs (catch_func e))
