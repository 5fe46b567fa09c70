-- ===== src/Turn/CallBounds.antt =====
-- How often executeToolCalls of application/agent_turn.go calls Zeus.
use zeus_client_golang.Shared.Text.{trim_space}
use zeus_client_golang.Shared.{
  ◌-◌, ◌==◌, ℕ, zero, suc, ◌≤◌, List, [], ◌∷◌, Option, none, some, contains, length, ◌≡◌, refl, inl,
  inr, arith, Bool-cases,
}
use zeus_client_golang.Shared.Json.{Fields, get}
use zeus_client_golang.Turn.{
  ToolCall, Failure, Reply, answered, failed, VerbHopResult, Ports, bool_data, denied_verbs,
  ctx_err,
}
use zeus_client_golang.Turn.Json.{as_text}
use zeus_client_golang.Turn.Tools.{
  ExecuteToolOpts, Execution, Call, is_terminate, ends_round, verb_request, take,
  max_tool_calls_per_round, no_outcome, failed_hop, set_summary,
}
use zeus_client_golang.Turn.Calls.{
  read_call, terminate_call, refuse_call, record_hop, finish_hop, take_reply, call_zeus,
  guarded_call, run_call, run_calls, run_one, unless_failed, close_round, execute_tool_calls, Step,
}
use zeus_client_golang.Turn.Meter.{Within, IsMetered, same, chain, chain_to, wider}

module _ {S F : Type 0} (llm zeus : S → ℕ) (p : Ports S F) (m : IsMetered llm zeus p) where
  read_call-Within : (tc : Fields) (s : S) → Within llm zeus 0 0 s (read_call p tc s).1
  unfolding read_call
  read_call-Within tc s = elim (Bool-cases (trim_space (as_text (get "id" tc)) == "")) [
    | inl h ↦ rw h (m.names s)
    | inr h ↦ rw h (same llm zeus s)
  ]

  finish_hop-Within :
      (o : ExecuteToolOpts) (c : Call) (hop : VerbHopResult) (n : ℕ) (e : Execution S F)
      → Within llm zeus 0 0 e.world (finish_hop p o c hop n e).world
  unfolding finish_hop record_hop
  finish_hop-Within o c hop n e = m.after_calls e.mw c.name hop.status_code hop.body e.world

  -- The call itself has been made.
  take_reply-Within :
      (o : ExecuteToolOpts) (c : Call) (n : ℕ) (r : Reply VerbHopResult) (e : Execution S F)
      → Within llm zeus 0 0 e.world (take_reply p o c n r e).0.world
  unfolding take_reply
  take_reply-Within o c n (answered hop) e =
      let ended = p.now_ms e.world in
      chain llm zeus 0 0 0 0 e.world ended.1 _ (m.times e.world)
        (finish_hop-Within o c hop (ended.0 - n) (record e { world = ended.1 }))
  take_reply-Within o c n (failed err) e = elim (Bool-cases (ends_round err)) [
    | inl ends ↦ rw ends (same llm zeus e.world)
    | inr goes_on ↦
        let ended = p.now_ms e.world in
        rw goes_on (
          chain llm zeus 0 0 0 0 e.world ended.1 _ (m.times e.world)
            (finish_hop-Within o c (failed_hop err) (ended.0 - n) (record e { world = ended.1 })))
  ]

  guarded_call-Within :
      (o : ExecuteToolOpts) (c : Call) (e : Execution S F)
      → Within llm zeus 0 1 e.world (guarded_call p o c e).0.world
  unfolding guarded_call refuse_call call_zeus
  guarded_call-Within o c e = elim (Bool-cases (contains c.name (denied_verbs e.mw))) [
    | inl denied ↦
        rw denied (
          wider llm zeus 0 0 0 1 e.world e.world (omega arith) (omega arith)
            (same llm zeus e.world))
    | inr allowed ↦ elim (Bool-cases (bool_data "hooks_must_refuse" e.mw)) [
      | inl refused ↦
          rw (allowed, refused)
            (wider llm zeus 0 0 0 1 e.world e.world (omega arith) (omega arith)
              (same llm zeus e.world))
      | inr free ↦
          let started = p.now_ms e.world in
          let replied = p.call_verb (verb_request o c) started.1 in
          rw (allowed, free)
            (chain llm zeus 0 1 0 0 e.world replied.1 _
              (chain llm zeus 0 0 0 1 e.world started.1 replied.1 (m.times e.world)
                (m.calls (verb_request o c) started.1))
              (take_reply-Within o c started.0 replied.0 (record e { world = replied.1 })))
    ]
  ]

  run_call-Within :
      (o : ExecuteToolOpts) (tc : Fields) (e : Execution S F)
      → Within llm zeus 0 1 e.world (run_call p o tc e).0.world
  unfolding run_call terminate_call
  run_call-Within o tc e =
      let read = read_call p tc e.world in
      let hooked = p.before_zeus e.mw read.0.name read.0.args read.1 in
      elim (Bool-cases (is_terminate read.0.name)) [
        | inl ends ↦ rw ends (
            wider llm zeus 0 0 0 1 e.world read.1 (omega arith) (omega arith)
              (read_call-Within tc e.world))
        | inr other ↦ rw other (
            chain llm zeus 0 0 0 1 e.world hooked.2 _
              (chain llm zeus 0 0 0 0 e.world read.1 hooked.2 (read_call-Within tc e.world)
                (m.before_calls e.mw read.0.name read.0.args read.1))
              (guarded_call-Within o (record read.0 { args = hooked.1 })
                (record e {
                  out = set_summary hooked.1 (set_summary read.0.args e.out);
                  mw = hooked.0;
                  world = hooked.2;
                })))
      ]

  unless_failed-Within :
      (n : ℕ) (f : Option Failure) (next : Step S F) (e : Execution S F)
      → Within llm zeus 0 n e.world (next e).0.world
      → Within llm zeus 0 n e.world (unless_failed f next e).0.world
  unfolding unless_failed
  unless_failed-Within n none next e w = w
  unless_failed-Within n (some err) next e w =
      wider llm zeus 0 0 0 n e.world e.world (omega arith) (omega arith) (same llm zeus e.world)

  run_one-Within :
      (o : ExecuteToolOpts) (tc : ToolCall) (tcs : List ToolCall) (e : Execution S F)
      → ((e' : Execution S F)
          → Within llm zeus 0 (length tcs) e'.world (run_calls p o tcs e').0.world)
      → Within llm zeus 0 (suc (length tcs)) e.world (run_one p o tc (run_calls p o tcs) e).0.world
  unfolding run_one
  run_one-Within o none tcs e ih =
      wider llm zeus 0 (length tcs) 0 (suc (length tcs)) e.world _ (omega arith) (omega arith)
        (ih e)
  run_one-Within o (some tc) tcs e ih =
      let done = run_call p o tc e in
      chain_to llm zeus 0 1 0 (length tcs) 0 (suc (length tcs)) e.world done.0.world _ (omega arith)
        (omega arith) (run_call-Within o tc e)
        (unless_failed-Within (length tcs) done.1 (run_calls p o tcs) done.0 (ih done.0))

  run_calls-Within :
      (o : ExecuteToolOpts) (tcs : List ToolCall) (e : Execution S F)
      → Within llm zeus 0 (length tcs) e.world (run_calls p o tcs e).0.world
  unfolding run_calls ctx_err
  run_calls-Within o [] e = same llm zeus e.world
  run_calls-Within o (tc ∷ tcs) e =
      let ended = ctx_err p e.world in
      let e' = record e { world = ended.1 } in
      chain_to llm zeus 0 0 0 (suc (length tcs)) 0 (suc (length tcs)) e.world ended.1 _
        (omega arith) (omega arith) (m.checks e.world)
        (unless_failed-Within (suc (length tcs)) ended.0 (run_one p o tc (run_calls p o tcs)) e'
          (run_one-Within o tc tcs e' (run_calls-Within o tcs)))

  length-take : (n : ℕ) (tcs : List ToolCall) → length (take n tcs) ≤ n
  length-take zero tcs = omega arith
  length-take (suc n) [] = omega arith
  length-take (suc n) (tc ∷ tcs) = omega (arith, length-take n tcs)

  close_round_same : (e : Execution S F) (f : Option Failure) → (close_round e f).0.world ≡ e.world
  unfolding close_round
  close_round_same e none = refl
  close_round_same e (some err) = refl

  pub execute_tool_calls-Within :
      (o : ExecuteToolOpts) (tcs : List ToolCall) (e : Execution S F)
      → Within llm zeus 0 8 e.world (execute_tool_calls p o tcs e).0.world
  unfolding execute_tool_calls
  execute_tool_calls-Within o tcs e =
      let entered = record e { out = no_outcome } in
      let done = run_calls p o (take max_tool_calls_per_round tcs) entered in
      rw (close_round_same done.0 done.1) (
        wider llm zeus 0 (length (take 8 tcs)) 0 8 e.world done.0.world (omega arith)
          (length-take 8 tcs) (run_calls-Within o (take 8 tcs) entered))
