-- ===== src/Exception.antt =====
-- snow/exception.c and the handler stack of snow/task.c: throwing, `snow_try_catch_ensure`, and the
-- resumption protocol of `snow_begin_try` and `snow_end_try`, as src/test/exception.c uses it.
-- A handler is the exception that it holds; a task's handlers are a list, the current one first.
-- The blocks are parameters: a block runs through, or throws the value it gives.
pub mod Protocol
mod Tests
use snow.Base.{
  Bool, List, Option, Result, [], assert, false, fault, if◌then◌else◌, none, ok, some, suc, trap,
  true, zero, ℕ, ◌++◌, ◌==◌, ◌>>=◌, ◌>>◌, ◌∷◌,
}
use snow.Value.{Word, null}

-- `SnTryResumptionState`
pub data Resumption : Type 0 where
  trying : Resumption
  catching : Resumption
  ensuring : Resumption

-- `SnTryState`
pub record TryState : Type 0 where
  pub started : Bool
  pub iteration_was_prepared : Bool
  pub resumption_state : Resumption
  pub exception_to_propagate : Word

-- Where a call leaves the control: it returns, it restores the execution state that the handler that was
-- current has saved, or it aborts the task.
pub data Control {ℓ} (A : Type ℓ) : Type ℓ where
  comes_back : A → Control A
  restores : Control A
  aborts : Word → Control A

unfoldable pub throw_exception {ℓ} : {A : Type ℓ} → List Word → Word → List Word × Control A
throw_exception [] exception = ([], aborts exception)
throw_exception (h ∷ hs) exception = (exception ∷ hs, restores)

unfoldable pub current_exception : List Word → Result Word
current_exception [] = fault
current_exception (h ∷ hs) = ok h

unfoldable pub pop_exception_handler : List Word → Result (List Word)
pop_exception_handler [] = fault
pop_exception_handler (h ∷ hs) = ok hs

abbrev pub propagate {ℓ} :
    {A : Type ℓ} → TryState → List Word → A → TryState × List Word × Control A
propagate state hs a =
    if state.exception_to_propagate == null
    then (state, hs, comes_back a)
    else (let (rest, c) = throw_exception hs state.exception_to_propagate in (state, rest, c))

-- `a` is what the caller goes on with if nothing is thrown.
unfoldable pub try_finish_resumptions {ℓ} :
    {A : Type ℓ} → TryState → List Word → A → Result (TryState × List Word × Control A)
try_finish_resumptions state hs a = do
  assert state.started
  rest ← pop_exception_handler hs
  ok (propagate (record state { started = false }) rest a)

unfoldable pub try_setup_resumptions : List Word → TryState × List Word
try_setup_resumptions hs = (
  record {
    started = true;
    iteration_was_prepared = false;
    resumption_state = trying;
    exception_to_propagate = null;
  },
  null ∷ hs,
)

abbrev pub prepared : TryState → List Word → Result (TryState × List Word × Control Resumption)
prepared state hs =
    ok (record state { iteration_was_prepared = true }, hs, comes_back state.resumption_state)

abbrev pub prepare_for :
    Resumption → TryState → List Word → Result (TryState × List Word × Control Resumption)
prepare_for trying state hs =
    if state.iteration_was_prepared
    then prepared (record state { resumption_state = catching }) hs
    else prepared state hs
prepare_for catching state hs =
    if state.iteration_was_prepared
    then (do
      exception ← current_exception hs
      prepared (record state { exception_to_propagate = exception; resumption_state = ensuring })
          hs)
    else prepared (record state { resumption_state = ensuring }) hs
prepare_for ensuring state hs =
    if state.iteration_was_prepared
    then (do
      exception ← current_exception hs
      (after, rest, c) ←
          try_finish_resumptions (record state { exception_to_propagate = exception }) hs ensuring
      ok (record after { iteration_was_prepared = true }, rest, c))
    else prepared state hs

unfoldable pub try_prepare_resumption_iteration :
    TryState → List Word → Result (TryState × List Word × Control Resumption)
try_prepare_resumption_iteration state hs = do
  assert state.started
  prepare_for state.resumption_state state hs

abbrev pub end_for :
    Resumption → TryState → List Word → Result (TryState × List Word × Control (Unit {0}))
end_for trying state hs = do
  exception ← current_exception hs
  ok (record state { resumption_state = ensuring }, hs, restores)
end_for catching state hs = do
  exception ← current_exception hs
  ok (record state { resumption_state = ensuring }, hs, restores)
end_for ensuring state hs = try_finish_resumptions state hs tt

unfoldable pub end_try : TryState → List Word → Result (TryState × List Word × Control (Unit {0}))
end_try state hs = do
  assert state.started
  assert state.iteration_was_prepared
  end_for state.resumption_state (record state { iteration_was_prepared = false }) hs

-- How a whole statement ends: the blocks that ran, the handlers afterwards, and where the control goes.
pub record Ended : Type 0 where
  pub ran : List Resumption
  pub handlers : List Word
  pub control : Control (Unit {0})

-- The blocks of a `switch (snow_begin_try(&state))`; catch and ensure can read `snow_current_exception`.
pub record Blocks : Type 0 where
  pub try_block : Option Word
  pub catch_block : Word → Option Word
  pub ensure_block : Word → Option Word

abbrev pub run_block : Blocks → Resumption → Word → Option Word
run_block b trying exception = b.try_block
run_block b catching exception = b.catch_block exception
run_block b ensuring exception = b.ensure_block exception

-- The state restored is the statement's own as long as its handler is the current one.
abbrev pub lands :
    (TryState → List Word → Result Ended)
    → List Resumption
    → TryState
    → List Word
    → Control (Unit {0})
    → Result Ended
lands again ran state hs restores =
    if state.started
    then again state hs
    else ok (record { ran = ran; handlers = hs; control = restores })
lands again ran state hs (comes_back u) =
    ok (record { ran = ran; handlers = hs; control = comes_back u })
lands again ran state hs (aborts e) = ok (record { ran = ran; handlers = hs; control = aborts e })

abbrev pub block_ends :
    (TryState → List Word → Result Ended)
    → List Resumption
    → TryState
    → List Word
    → Option Word
    → Result Ended
block_ends again ran state hs none = do
  (after, rest, c) ← end_try state hs
  lands again ran after rest c
block_ends again ran state hs (some e) =
    let (rest, c) = throw_exception hs e in lands again ran state rest c

abbrev pub enters :
    Blocks
    → (List Resumption → TryState → List Word → Result Ended)
    → List Resumption
    → TryState
    → List Word
    → Control Resumption
    → Result Ended
enters b again ran state hs (comes_back r) = do
  exception ← current_exception hs
  block_ends (again (ran ++ r ∷ [])) (ran ++ r ∷ []) state hs (run_block b r exception)
enters b again ran state hs restores = ok (record { ran = ran; handlers = hs; control = restores })
enters b again ran state hs (aborts e) =
    ok (record { ran = ran; handlers = hs; control = aborts e })

-- From each return of `snow_save_execution_state` to the next; it traps when the fuel is used up.
unfoldable pub resume_try : ℕ → Blocks → List Resumption → TryState → List Word → Result Ended
resume_try zero b ran state hs = trap
resume_try (suc n) b ran state hs = do
  (after, rest, c) ← try_prepare_resumption_iteration state hs
  enters b (λ more s k. resume_try n b more s k) ran after rest c

-- `switch (snow_begin_try(&state)) { ... } snow_end_try(&state);`
unfoldable pub try_statement : ℕ → Blocks → List Word → Result Ended
try_statement n b hs =
    let (state, with_handler) = try_setup_resumptions hs in resume_try n b [] state with_handler

-- The end of `snow_try_catch_ensure`: the ensure function, if there is one, then the exception to throw on.
unfoldable pub ensure_then :
    Option (Option Word) → List Resumption → List Word → Option Word → Ended
ensure_then none ran hs none = record { ran = ran; handlers = hs; control = comes_back tt }
ensure_then none ran hs (some e) =
    let (rest, c) = throw_exception hs e in record { ran = ran; handlers = rest; control = c }
ensure_then (some none) ran hs none = record {
  ran = ran ++ ensuring ∷ [];
  handlers = hs;
  control = comes_back tt;
}
ensure_then (some none) ran hs (some e) =
    let (rest, c) = throw_exception hs e in
    record { ran = ran ++ ensuring ∷ []; handlers = rest; control = c }
ensure_then (some (some x)) ran hs e =
    let (rest, c) = throw_exception hs x in
    record { ran = ran ++ ensuring ∷ []; handlers = rest; control = c }

-- The exception that the handler in front holds, read by name.
abbrev pub held : List Word → Word
held [] = null
held (h ∷ hs) = h

-- What the catch function throws, the catcher holds: a handler of its own in front of `handler`.
abbrev pub catcher : Word → List Word → Option Word → Option Word
catcher handler previous none = none
catcher handler previous (some e) =
    some (held (throw_exception {A = Unit {0}} (null ∷ handler ∷ previous) e).0)

-- `previous` is `handler.previous`, which is the current handler again before the ensure function runs.
unfoldable pub try_catch_ensure :
    Option Word → (Word → Option Word) → Option (Option Word) → List Word → Ended
try_catch_ensure none catch_func ensure_func previous =
    ensure_then ensure_func (trying ∷ []) previous none
try_catch_ensure (some e) catch_func ensure_func previous =
    let handler = held (throw_exception {A = Unit {0}} (null ∷ previous) e).0 in
    ensure_then ensure_func (trying ∷ catching ∷ []) previous
      (catcher handler previous (catch_func handler))
