-- ===== src/Turn/Calls.antt =====
-- executeToolCalls of application/agent_turn.go: the calls of one answer of the model.
use zeus_client_golang.Shared.{
  ℕ, ◌-◌, String, true, ◌&&◌, ◌||◌, not, List, [], ◌∷◌, ◌++◌, Option, none, some, if◌then◌else◌,
  ◌==◌, contains,
}
use zeus_client_golang.Shared.Int.{pos}
use zeus_client_golang.Shared.Text.{trim_space}
use zeus_client_golang.Shared.Encode.{marshal}
use zeus_client_golang.Shared.Json.{Fields, str, num, obj, end, field, get}
use zeus_client_golang.Turn.{
  ToolCall, Failure, MiddlewareContext, VerbHopResult, Reply, answered, failed, Ports, ctx_err,
  bool_data, denied_verbs,
}
use zeus_client_golang.Turn.Json.{
  as_text, fields_of, is_end, parse_tool_args, verb_body_without_rewind, is_empty_json_value,
  has_turn_complete, truncate_tool_json,
}
use zeus_client_golang.Turn.Tools.{
  max_tool_calls_per_round, ExecuteToolOpts, no_outcome, Execution, Call, is_terminate,
  tool_message, verb_request, failed_hop, ends_round, set_summary, hop_record, complete_turn,
  count_data, tool_step, trusted_body, take, without_return, with_terminal, tool_body_override,
  without,
}

abbrev pub Step : Type 0 → Type 0 → Type 0
Step S F = Execution S F → Execution S F × Option Failure

module _ {S F : Type 0} where
  -- The text and the body of an answer after the hooks.
  unfoldable pub overridden :
      Ports S F → MiddlewareContext F → String → Fields → (String × Fields) × MiddlewareContext F
  unfolding tool_body_override
  overridden p c content body = elim (tool_body_override c) [
    | none ↦ ((content, body), c)
    | some ov ↦ (
      (ov, trusted_body (p.unmarshal ov)),
      record c { values = without "tool_body_override" c.values },
    )
  ]

  unfoldable pub read_call : Ports S F → Fields → S → Call × S
  unfolding as_text get trim_space verb_body_without_rewind parse_tool_args
  read_call p tc s =
      let fn = fields_of (get "function" tc) in
      let args = verb_body_without_rewind (parse_tool_args p.unmarshal (get "arguments" fn)) in
      let id = trim_space (as_text (get "id" tc)) in
      let name = trim_space (as_text (get "name" fn)) in
      let (fresh, s') = p.new_zeus_req_id s in
      if id == ""
      then (record { name = name; args = args; id = fresh }, s')
      else (record { name = name; args = args; id = id }, s)

  -- A call answered without Zeus.
  abbrev pub answer_call : Call → String → Fields → Execution S F → Execution S F
  answer_call c content step e = record e {
    messages = e.messages ++ (tool_message c content ∷ []);
    out = record e.out { steps = e.out.steps ++ (step ∷ []) };
  }

  unfoldable pub terminate_call : ExecuteToolOpts → Call → Execution S F → Execution S F
  unfolding as_text get tool_message marshal
  terminate_call o c e =
      let done = record e {
        out = record e.out {
          return_seen = true;
          terminal_summary = as_text (get "summary" c.args);
          return_args = some c.args;
          terminate_via = "return";
        };
      } in
      let step =
        field "round" (num (pos o.round_n))
          (field "type" (str c.name) (field "args" (obj c.args) end)) in
      answer_call c (marshal (obj c.args)) step done

  unfoldable pub refuse_call :
      ExecuteToolOpts → String → String → Call → Execution S F → Execution S F
  unfolding tool_message marshal
  refuse_call o error kind c e =
      let content = marshal (obj (field "error" (str error) (field "verb" (str c.name) end))) in
      let step =
        field "round" (num (pos o.round_n))
          (field "type" (str kind) (field "name" (str c.name) (field "args" (obj c.args) end))) in
      answer_call c content step e

  -- What a call that Zeus answered leaves: its message, its hop, its step and its counts.
  unfoldable pub record_hop :
      ExecuteToolOpts → Call → VerbHopResult → ℕ → String → Fields → Execution S F → Execution S F
  unfolding truncate_tool_json tool_message hop_record is_empty_json_value trim_space
      has_turn_complete complete_turn count_data
  record_hop o c hop ms full body e =
      let (content, cut) = truncate_tool_json full in
      let empty = not hop.is_ok || is_empty_json_value (obj body) || trim_space content == "" in
      let logged = record e.out {
        hops = e.out.hops ++ (hop_record o c hop ms body content ∷ []);
        steps = e.out.steps ++ (tool_step o c hop ms ∷ []);
      } in
      let counted = count_data c.name empty logged in
      record e {
        messages = e.messages ++ (tool_message c content ∷ []);
        notes = if cut then e.notes ++ ("tool_json_truncated" ∷ []) else e.notes;
        out =
            if c.name == "pipeline" && has_turn_complete body
            then complete_turn body c.args counted
            else counted;
      }

  unfoldable pub finish_hop :
      Ports S F → ExecuteToolOpts → Call → VerbHopResult → ℕ → Execution S F → Execution S F
  unfolding overridden record_hop marshal
  finish_hop p o c hop ms e =
      let content = if is_end hop.body then hop.error else marshal (obj hop.body) in
      let after = p.after_zeus e.mw c.name hop.status_code hop.body e.world in
      let final = overridden p after.0 content after.1 in
      record_hop o c hop ms final.0.0 final.0.1 (record e { mw = final.1; world = after.2 })

  -- The answer to a call, or its error, with the time when the call was made.
  unfoldable pub take_reply :
      Ports S F
      → ExecuteToolOpts
      → Call
      → ℕ
      → Reply VerbHopResult
      → Execution S F
      → Execution S F × Option Failure
  unfolding finish_hop
  take_reply p o c started (answered hop) e =
      let ended = p.now_ms e.world in
      (finish_hop p o c hop (ended.0 - started) (record e { world = ended.1 }), none)
  take_reply p o c started (failed err) e =
      let ended = p.now_ms e.world in
      if ends_round err then (e, some err) else (
        finish_hop p o c (failed_hop err) (ended.0 - started) (record e { world = ended.1 }),
        none,
      )

  unfoldable pub call_zeus :
      Ports S F → ExecuteToolOpts → Call → Execution S F → Execution S F × Option Failure
  unfolding verb_request take_reply
  call_zeus p o c e =
      let started = p.now_ms e.world in
      let replied = p.call_verb (verb_request o c) started.1 in
      take_reply p o c started.0 replied.0 (record e { world = replied.1 })

  -- A call after the hook that may rewrite its arguments.
  unfoldable pub guarded_call :
      Ports S F → ExecuteToolOpts → Call → Execution S F → Execution S F × Option Failure
  unfolding denied_verbs bool_data refuse_call call_zeus
  guarded_call p o c e =
      if contains c.name (denied_verbs e.mw)
      then (refuse_call o "verb_denied" "denied" c e, none)
      else if bool_data "hooks_must_refuse" e.mw
      then (refuse_call o "turn_refused" "refused" c e, none)
      else call_zeus p o c e

  unfoldable pub run_call :
      Ports S F → ExecuteToolOpts → Fields → Execution S F → Execution S F × Option Failure
  unfolding read_call terminate_call guarded_call
  run_call p o tc e =
      let read = read_call p tc e.world in
      let c = read.0 in
      let seen = record e { out = set_summary c.args e.out; world = read.1 } in
      if is_terminate c.name
      then (terminate_call o c seen, none)
      else (let hooked = p.before_zeus seen.mw c.name c.args seen.world in
          let c' = record c { args = hooked.1 } in
          guarded_call p o c'
            (record seen { mw = hooked.0; world = hooked.2; out = set_summary c'.args seen.out }))

  -- `if err != nil { return out, err }`, and the rest
  unfoldable pub unless_failed : Option Failure → Step S F → Step S F
  unless_failed (some err) next e = (e, some err)
  unless_failed none next e = next e

  unfoldable pub run_one : Ports S F → ExecuteToolOpts → ToolCall → Step S F → Step S F
  unfolding run_call unless_failed
  run_one p o none next e = next e
  run_one p o (some tc) next e = let done = run_call p o tc e in unless_failed done.1 next done.0

  unfoldable pub run_calls : Ports S F → ExecuteToolOpts → List ToolCall → Step S F
  unfolding ctx_err run_one unless_failed
  run_calls p o [] e = (e, none)
  run_calls p o (tc ∷ tcs) e =
      let ended = ctx_err p e.world in
      unless_failed ended.0 (run_one p o tc (run_calls p o tcs)) (record e { world = ended.1 })

  unfoldable pub close_round : Execution S F → Option Failure → Execution S F × Option Failure
  close_round e (some err) = (record e { out = without_return e.out }, some err)
  close_round e none = (record e { out = with_terminal e.out }, none)

  unfoldable pub execute_tool_calls :
      Ports S F → ExecuteToolOpts → List ToolCall → Execution S F → Execution S F × Option Failure
  unfolding run_calls close_round
  execute_tool_calls p o tcs e =
      let done =
        run_calls p o (take max_tool_calls_per_round tcs) (record e { out = no_outcome }) in
      close_round done.0 done.1
