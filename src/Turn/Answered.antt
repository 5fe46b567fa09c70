-- ===== src/Turn/Answered.antt =====
-- The messages that executeToolCalls of application/agent_turn.go adds for the calls of a model.
use mathlib.Core.List.{append_assoc, append-nil}
use zeus_client_golang.Shared.{
  ℕ, String, List, [], ◌∷◌, ◌++◌, Option, none, some, ◌==◌, contains, ◌≡◌, ◌≢◌, refl, sym, ap, ◌∙◌,
  inl, inr, arith, eq_iff, Bool-cases,
}
use zeus_client_golang.Shared.Text.{trim_space}
use zeus_client_golang.Shared.Encode.{marshal}
use zeus_client_golang.Shared.Json.{Fields, obj, str, get}
use zeus_client_golang.Turn.{
  Messages, ToolCall, Failure, Reply, VerbHopResult, answered, failed, Ports, bool_data,
  denied_verbs, ctx_err,
}
use zeus_client_golang.Turn.Json.{as_text, fields_of}
use zeus_client_golang.Turn.Tools.{
  ExecuteToolOpts, Execution, Call, tool_message, is_terminate, ends_round, verb_request, take,
  max_tool_calls_per_round, no_outcome,
}
use zeus_client_golang.Turn.Calls.{
  read_call, terminate_call, refuse_call, record_hop, finish_hop, take_reply, call_zeus,
  guarded_call, run_call, run_calls, run_one, unless_failed, close_round, Step, execute_tool_calls,
}

abbrev pub call_name : Fields → String
call_name tc = trim_space (as_text (get "name" (fields_of (get "function" tc))))

abbrev pub call_id : Fields → String
call_id tc = trim_space (as_text (get "id" tc))

-- A message of a tool that names the call, and has its id where the call has one.
abbrev pub IsAnswer : Fields → Fields → Type 0
IsAnswer tc m =
    (get "role" m ≡ str "tool")
    × (get "name" m ≡ str (call_name tc))
    × (call_id tc ≢ "" → get "tool_call_id" m ≡ str (call_id tc))

-- One answer for each call, in the order of the calls.
abbrev pub Answers : List ToolCall → Messages → Type 0
Answers [] ms = ms ≡ []
Answers (none ∷ tcs) ms = Answers tcs ms
Answers (some tc ∷ tcs) [] = ⊥
Answers (some tc ∷ tcs) (m ∷ ms) = IsAnswer tc m × Answers tcs ms

abbrev Reads : Fields → Call → Type 0
Reads tc c = (c.name ≡ call_name tc) × (call_id tc ≢ "" → c.id ≡ call_id tc)

tool_message-IsAnswer :
    (tc : Fields) (c : Call) (content : String) → Reads tc c → IsAnswer tc (tool_message c content)
unfolding tool_message get
tool_message-IsAnswer tc c content (named, known) =
    (refl, ap str named, λ has_id. ap str (known has_id))

module _ {S F : Type 0} where
  read_call-Reads : (p : Ports S F) (tc : Fields) (s : S) → Reads tc (read_call p tc s).0
  unfolding read_call
  read_call-Reads p tc s = elim (Bool-cases (call_id tc == "")) [
    | inl missing ↦
        rw missing (refl, λ has_id. absurd (has_id ((eq_iff (call_id tc) "").0 missing)))
    | inr known ↦ rw known (refl, λ has_id. refl)
  ]

  -- The messages grow by the answer to a call.
  abbrev Adds : Call → Execution S F → Execution S F × Option Failure → Type 0
  Adds c e r =
      r.1 ≡ none → (content : String) × (r.0.messages ≡ e.messages ++ (tool_message c content ∷ []))

  take_reply-Adds :
      (p : Ports S F) (o : ExecuteToolOpts) (c : Call) (n : ℕ) (r : Reply VerbHopResult)
      (e : Execution S F)
      → Adds c e (take_reply p o c n r e)
  unfolding take_reply finish_hop record_hop
  take_reply-Adds p o c n (answered hop) e = λ passed. (_, refl)
  take_reply-Adds p o c n (failed err) e = elim (Bool-cases (ends_round err)) [
    | inl ends ↦ rw ends (λ passed. ground (arith, passed))
    | inr goes_on ↦ rw goes_on (λ passed. (_, refl))
  ]

  guarded_call-Adds :
      (p : Ports S F) (o : ExecuteToolOpts) (c : Call) (e : Execution S F)
      → Adds c e (guarded_call p o c e)
  unfolding guarded_call refuse_call
  guarded_call-Adds p o c e = elim (Bool-cases (contains c.name (denied_verbs e.mw))) [
    | inl denied ↦ rw denied (λ passed. (_, refl))
    | inr allowed ↦ elim (Bool-cases (bool_data "hooks_must_refuse" e.mw)) [
      | inl refused ↦ rw (allowed, refused) (λ passed. (_, refl))
      | inr free ↦
          let started = p.now_ms e.world in
          let replied = p.call_verb (verb_request o c) started.1 in
          rw (allowed, free, call_zeus)
            (take_reply-Adds p o c started.0 replied.0 (record e { world = replied.1 }))
    ]
  ]

  run_call-Adds :
      (p : Ports S F) (o : ExecuteToolOpts) (tc : Fields) (e : Execution S F)
      → (run_call p o tc e).1 ≡ none
      → (m : Fields) × ((run_call p o tc e).0.messages ≡ e.messages ++ (m ∷ [])) × IsAnswer tc m
  unfolding run_call terminate_call
  run_call-Adds p o tc e =
      let read = read_call p tc e.world in
      let (named, known) = read_call-Reads p tc e.world in
      elim (Bool-cases (is_terminate read.0.name)) [
        | inl ends ↦ rw ends (λ passed.
            (_, refl, tool_message-IsAnswer tc read.0 (marshal (obj read.0.args)) (named, known)))
        | inr other ↦ rw other (λ passed.
            let hooked = p.before_zeus e.mw read.0.name read.0.args read.1 in
            let c = record read.0 { args = hooked.1 } in
            let (content, grown) = guarded_call-Adds p o c _ passed in
            (_, grown, tool_message-IsAnswer tc c content (named, known)))
      ]

  unless_failed-passed :
      (f : Option Failure) (next : Step S F) (e : Execution S F)
      → (unless_failed f next e).1 ≡ none
      → (f ≡ none) × (unless_failed f next e ≡ next e)
  unfolding unless_failed
  unless_failed-passed none next e passed = (refl, refl)
  unless_failed-passed (some err) next e passed = absurd (ground (arith, passed))

  -- The messages of an execution after some answers to the calls.
  abbrev Grows : List ToolCall → Execution S F → Execution S F × Option Failure → Type 0
  Grows tcs e r = (ms : Messages) × (r.0.messages ≡ e.messages ++ ms) × Answers tcs ms

  run_calls-Answers :
      (p : Ports S F) (o : ExecuteToolOpts) (tcs : List ToolCall) (e : Execution S F)
      → (run_calls p o tcs e).1 ≡ none
      → Grows tcs e (run_calls p o tcs e)
  unfolding run_calls run_one
  run_calls-Answers p o [] e passed = ([], sym (append-nil e.messages), refl)
  run_calls-Answers p o (none ∷ tcs) e passed =
      let ended = ctx_err p e.world in
      let e' = record e { world = ended.1 } in
      let (_, same) = unless_failed-passed ended.0 (run_calls p o tcs) e' passed in
      rw same (run_calls-Answers p o tcs e' (rw same at passed))
  run_calls-Answers p o (some tc ∷ tcs) e passed =
      let ended = ctx_err p e.world in
      let e' = record e { world = ended.1 } in
      let (_, same) =
        unless_failed-passed ended.0 (run_one p o (some tc) (run_calls p o tcs)) e' passed in
      let done = run_call p o tc e' in
      let later : (unless_failed done.1 (run_calls p o tcs) done.0).1 ≡ none = rw same at passed in
      let (called, same') = unless_failed-passed done.1 (run_calls p o tcs) done.0 later in
      let (m, first, answer) = run_call-Adds p o tc e' called in
      let (ms, rest, answers) = run_calls-Answers p o tcs done.0 (rw same' at later) in
      rw (same, same')
        (
          m ∷ ms,
          rest ∙ ap (λ l. l ++ ms) first ∙ append_assoc e.messages (m ∷ []) ms,
          (answer, answers),
        )

  close_round_lem :
      (e : Execution S F) (f : Option Failure)
      → ((close_round e f).0.messages ≡ e.messages) × ((close_round e f).1 ≡ f)
  unfolding close_round
  close_round_lem e none = (refl, refl)
  close_round_lem e (some err) = (refl, refl)

  -- If executeToolCalls returns no error, then the messages have grown by exactly one message of a
  -- tool for each of the first eight calls that is not nil, in the order of the calls, with the
  -- name of the call and with its id where it has one, whatever the hooks and Zeus answer.
  pub execute_tool_calls-Answers :
      (p : Ports S F) (o : ExecuteToolOpts) (tcs : List ToolCall) (e : Execution S F)
      → (execute_tool_calls p o tcs e).1 ≡ none
      → (ms : Messages) × ((execute_tool_calls p o tcs e).0.messages ≡ e.messages ++ ms)
        × Answers (take max_tool_calls_per_round tcs) ms
  unfolding execute_tool_calls
  execute_tool_calls-Answers p o tcs e passed =
      let entered = record e { out = no_outcome } in
      let done = run_calls p o (take max_tool_calls_per_round tcs) entered in
      let (same, failure) = close_round_lem done.0 done.1 in
      let (ms, grown, answers) =
        run_calls-Answers p o (take max_tool_calls_per_round tcs) entered (sym failure ∙ passed) in
      (ms, same ∙ grown, answers)
