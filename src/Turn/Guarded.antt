-- ===== src/Turn/Guarded.antt =====
-- The guards of executeToolCalls in application/agent_turn.go: what a turn that must be refused
-- asks of Zeus.
use zeus_client_golang.Shared.{
  String, true, List, [], ◌∷◌, Option, none, some, contains, ◌≡◌, refl, inl, inr, Bool-cases,
}
use zeus_client_golang.Shared.Json.{Fields}
use zeus_client_golang.Turn.{
  ToolCall, Failure, Reply, VerbRequest, VerbHopResult, Ports, MiddlewareContext, bool_data,
  denied_verbs, ctx_err,
}
use zeus_client_golang.Turn.Tools.{
  ExecuteToolOpts, Execution, Call, is_terminate, take, max_tool_calls_per_round, no_outcome,
  set_summary,
}
use zeus_client_golang.Turn.Calls.{
  read_call, terminate_call, refuse_call, guarded_call, run_call, run_calls, run_one, unless_failed,
  execute_tool_calls, Step,
}

abbrev pub Zeus : Type 0 → Type 0
Zeus S = VerbRequest → S → Reply VerbHopResult × S

abbrev pub MustRefuse : {F : Type 0} → MiddlewareContext F → Type 0
MustRefuse c = bool_data "hooks_must_refuse" c ≡ true

module _ {S F : Type 0} where
  -- No hook before a call takes the refusal of the turn back.
  abbrev pub KeepsRefusal : Ports S F → Type 0
  KeepsRefusal p =
      (c : MiddlewareContext F) (name : String) (args : Fields) (s : S)
      → MustRefuse c
      → MustRefuse (p.before_zeus c name args s).0

  guarded_call-refused :
      (p : Ports S F) (v : Zeus S) (o : ExecuteToolOpts) (c : Call) (e : Execution S F)
      → MustRefuse e.mw
      → (guarded_call (record p { call_verb = v }) o c e ≡ guarded_call p o c e)
        × MustRefuse (guarded_call p o c e).0.mw
        × ((guarded_call p o c e).1 ≡ none)
  unfolding guarded_call refuse_call
  guarded_call-refused p v o c e refused = elim (Bool-cases (contains c.name (denied_verbs e.mw))) [
    | inl denied ↦ rw denied (refl, refused, refl)
    | inr allowed ↦ rw (allowed, refused) (refl, refused, refl)
  ]

  run_call-refused :
      (p : Ports S F) (v : Zeus S) (o : ExecuteToolOpts) (tc : Fields) (e : Execution S F)
      → KeepsRefusal p
      → MustRefuse e.mw
      → (run_call (record p { call_verb = v }) o tc e ≡ run_call p o tc e)
        × MustRefuse (run_call p o tc e).0.mw
  unfolding run_call read_call terminate_call
  run_call-refused p v o tc e keeps refused =
      let read = read_call p tc e.world in
      elim (Bool-cases (is_terminate read.0.name)) [
        | inl ends ↦ rw ends (refl, refused)
        | inr other ↦
            let hooked = p.before_zeus e.mw read.0.name read.0.args read.1 in
            let kept = keeps e.mw read.0.name read.0.args read.1 refused in
            let called =
              guarded_call-refused p v o (record read.0 { args = hooked.1 })
                (record e {
                  out = set_summary hooked.1 (set_summary read.0.args e.out);
                  mw = hooked.0;
                  world = hooked.2;
                })
                kept in
            rw other (called.0, called.1)
      ]

  unless_failed_same :
      (f : Option Failure) (next next' : Step S F) (e : Execution S F)
      → next e ≡ next' e
      → unless_failed f next e ≡ unless_failed f next' e
  unfolding unless_failed
  unless_failed_same none next next' e same = same
  unless_failed_same (some err) next next' e same = refl

  run_calls-refused :
      (p : Ports S F) (v : Zeus S) (o : ExecuteToolOpts) (tcs : List ToolCall) (e : Execution S F)
      → KeepsRefusal p
      → MustRefuse e.mw
      → run_calls (record p { call_verb = v }) o tcs e ≡ run_calls p o tcs e
  unfolding run_calls run_one ctx_err
  run_calls-refused p v o [] e keeps refused = refl
  run_calls-refused p v o (none ∷ tcs) e keeps refused =
      let ended = ctx_err p e.world in
      let e' = record e { world = ended.1 } in
      unless_failed_same ended.0 _ (run_calls p o tcs) e'
        (run_calls-refused p v o tcs e' keeps refused)
  run_calls-refused p v o (some tc ∷ tcs) e keeps refused =
      let ended = ctx_err p e.world in
      let e' = record e { world = ended.1 } in
      let (same, kept) = run_call-refused p v o tc e' keeps refused in
      let done = run_call p o tc e' in
      unless_failed_same ended.0 _ (run_one p o (some tc) (run_calls p o tcs)) e' (
        rw same (
          unless_failed_same done.1 _ (run_calls p o tcs) done.0
            (run_calls-refused p v o tcs done.0 keeps kept)))

  -- If the turn must be refused when executeToolCalls starts, and no hook before a call takes that
  -- back, then its result does not depend on Zeus: with any other Zeus in its place the outcome,
  -- the messages, the notes and the state outside are the same.
  pub refused_reaches_no_zeus :
      (p : Ports S F) (v : Zeus S) (o : ExecuteToolOpts) (tcs : List ToolCall) (e : Execution S F)
      → KeepsRefusal p
      → MustRefuse e.mw
      → execute_tool_calls (record p { call_verb = v }) o tcs e ≡ execute_tool_calls p o tcs e
  unfolding execute_tool_calls
  refused_reaches_no_zeus p v o tcs e keeps refused =
      let entered = record e { out = no_outcome } in
      rw (run_calls-refused p v o (take max_tool_calls_per_round tcs) entered keeps refused) refl
