-- ===== src/Turn/Examples.antt =====
-- Turns of a model that always asks for the same calls.
use zeus_client_golang.Shared.{
  ℕ, suc, true, false, [], ◌∷◌, ◌++◌, none, some, ◌≡◌, leb, ◌==◌, if◌then◌else◌, refl, arith,
}
use zeus_client_golang.Shared.Maps.{lookup}
use zeus_client_golang.Shared.Int.{pos, pos_part}
use zeus_client_golang.Shared.Json.{str, obj, arr, end, field, nil, cons}
use zeus_client_golang.Turn.{
  bool_data, Messages, ToolCall, MiddlewareContext, flag, LlmResponse, VerbHopResult, answered,
  Ports,
}
use zeus_client_golang.Turn.Tools.{
  ExecuteToolOpts, Execution, no_outcome, take, max_tool_calls_per_round,
}
use zeus_client_golang.Turn.Calls.{execute_tool_calls}
use zeus_client_golang.Turn.Answered.{Answers, execute_tool_calls-Answers}
use zeus_client_golang.Turn.Guarded.{KeepsRefusal, MustRefuse, refused_reaches_no_zeus}
use zeus_client_golang.Policy.{Floats, map_message}
use zeus_client_golang.Turn.Final.{
  FinalPorts, FinalOpts, finish_turn, layer_of_return, turn_refused, turn_max_rounds,
}
use zeus_client_golang.Turn.Refusal.{refused_turn_shows_refusal, refusal_for}
use zeus_client_golang.Shared.Pattern.{contains_text}
use zeus_client_golang.Turn.State.{RoundOpts, TurnState}
use zeus_client_golang.Turn.Loop.{run_rounds}
use zeus_client_golang.Turn.Meter.{Within, IsMetered}
use zeus_client_golang.Turn.Bounds.{calls_bounded}

-- The calls of the model and of Zeus so far.
record Calls : Type 0 where
  llm : ℕ
  zeus : ℕ

abbrev find_call : ToolCall
find_call = some (
    field "id" (str "c1")
      (field "function" (obj (field "name" (str "find") (field "arguments" (obj end) end))) end))

abbrev rows : VerbHopResult
rows = record {
  is_ok = true;
  status_code = pos 200;
  req_id = "r1";
  body = field "rows" (arr (cons (str "x") nil)) end;
  error = "";
  url = "http://zeus";
  bytes_in = pos 0;
  bytes_out = pos 0;
  has_bytes = false;
}

abbrev asks_twice : LlmResponse
asks_twice = record { content = ""; tool_calls = find_call ∷ find_call ∷ []; usage = end }

abbrev counted : Ports Calls ℕ
counted = record {
  ctx_ended = λ s. (none, s);
  complete = λ r s. (answered asks_twice, record s { llm = suc s.llm });
  call_verb = λ r s. (answered rows, record s { zeus = suc s.zeus });
  new_zeus_req_id = λ s. ("fresh", s);
  now_ms = λ s. (0, s);
  before_llm = λ c ms s. (c, ms, s);
  after_llm = λ c r s. (c, r, s);
  before_zeus = λ c n m s. (c, m, s);
  after_zeus = λ c n k m s. (c, m, s);
  unmarshal = λ s. none;
  parse_pipeline_envelope = λ s. none;
}

abbrev execute_opts : ExecuteToolOpts
execute_opts = record {
  target = record { bucket = "b"; scope = "s"; collection = "c" };
  mode = "";
  round_n = 1;
  chat_id = "chat";
  turn_id = "turn";
  force_trace = false;
  rewind = false;
  chat_session_id = "";
  brief_sha12 = "";
  mini_sha12 = "";
}

abbrev context : MiddlewareContext ℕ
context = record { turn_id = "turn"; user_msg = "hi"; round = 1; notes = []; values = [] }

abbrev refusing : MiddlewareContext ℕ
refusing = record context { values = ("hooks_must_refuse", flag true) ∷ [] }

abbrev none_yet : Calls
none_yet = record { llm = 0; zeus = 0 }

abbrev execution : MiddlewareContext ℕ → Execution Calls ℕ
execution c = record { out = no_outcome; messages = []; notes = []; mw = c; world = none_yet }

find_passes :
    (execute_tool_calls counted execute_opts (find_call ∷ []) (execution context)).1 ≡ none
unfolding execute_tool_calls lookup
find_passes = refl

execute_tool_calls-Answers_example :
    (ms : Messages) × ((execute_tool_calls counted execute_opts
        (find_call ∷ [])
        (execution context)).0.messages
      ≡ [] ++ ms)
    × Answers (take max_tool_calls_per_round (find_call ∷ [])) ms
execute_tool_calls-Answers_example =
    execute_tool_calls-Answers counted execute_opts (find_call ∷ []) (execution context) find_passes

counted-KeepsRefusal : KeepsRefusal counted
counted-KeepsRefusal c name args s refused = refused

refusing-MustRefuse : MustRefuse refusing
unfolding bool_data lookup
refusing-MustRefuse = refl

refused_reaches_no_zeus_example :
    execute_tool_calls
      (record counted { call_verb = λ r s. (answered rows, s) })
      execute_opts
      (find_call ∷ [])
      (execution refusing)
    ≡ execute_tool_calls counted execute_opts (find_call ∷ []) (execution refusing)
refused_reaches_no_zeus_example =
    refused_reaches_no_zeus counted (λ r s. (answered rows, s)) execute_opts (find_call ∷ [])
      (execution refusing) counted-KeepsRefusal refusing-MustRefuse

counted-IsMetered : IsMetered (λ s. s.llm) (λ s. s.zeus) counted
counted-IsMetered = record {
  asks = λ r s. (omega arith, omega arith);
  calls = λ r s. (omega arith, omega arith);
  checks = λ s. (omega arith, omega arith);
  names = λ s. (omega arith, omega arith);
  times = λ s. (omega arith, omega arith);
  before_asks = λ c ms s. (omega arith, omega arith);
  after_asks = λ c r s. (omega arith, omega arith);
  before_calls = λ c n m s. (omega arith, omega arith);
  after_calls = λ c n k m s. (omega arith, omega arith);
}

abbrev round_opts : RoundOpts
round_opts = record {
  model = "m";
  tools = [];
  zeus_wired = true;
  ai_process_result = true;
  force_return_rounds_left = pos 1;
  tool_trail_enabled = true;
  tool_trail_inject = true;
  tool_trail_max_entries = pos 16;
  execute = execute_opts;
}

abbrev turn_state : TurnState Calls ℕ
turn_state = record {
  world = none_yet;
  mw = context;
  messages = [];
  notes = [];
  steps = [];
  hops = [];
  trail = [];
  answer = "";
  last_return_args = none;
  last_terminate_via = "client_terminate";
  rounds_done = 0;
}

-- Three rounds of two calls each.
three_rounds : (run_rounds counted round_opts 3 1 turn_state).0.world.zeus ≡ 6
unfolding run_rounds lookup
three_rounds = refl

calls_bounded_example :
    Within
      (λ s. s.llm)
      (λ s. s.zeus)
      4
      24
      none_yet
      (run_rounds counted round_opts 3 1 turn_state).0.world
calls_bounded_example =
    calls_bounded (λ s. s.llm) (λ s. s.zeus) counted counted-IsMetered round_opts 3 1 turn_state

-- A turn whose message the hooks take for a jailbreak.
abbrev hundredths : Floats
hundredths = record { Float = ℕ; zero = 0; at_least_half = leb 50 }

abbrev final_ports : FinalPorts Calls ℕ
final_ports = record {
  peel_layer_a_summary = λ s. none;
  user_facing_answer = λ s t. s;
  inspect_jailbreak = λ c s. c;
  float_data = λ d. 90;
  to_float = pos_part;
  on_turn_end = λ c s w. (c, w);
}

abbrev final_opts : FinalOpts
final_opts = record {
  policy = record { messages = []; sticky_flags = []; soft_require_policy_action = false };
  parse = record { output_request = end; app_output_on_error = "" };
  pack_schema = none;
  brand_inject = false;
}

no_wish :
    contains_text
      (refusal_for final_opts.policy (layer_of_return hundredths final_ports final_opts none))
      "wish_i_knew"
    ≡ false
unfolding contains_text map_message layer_of_return lookup
no_wish = refl

refused_turn_shows_refusal_example :
    ((finish_turn hundredths final_ports final_opts none "secret" "direct" [] refusing
        none_yet).answer
      ≡ refusal_for final_opts.policy (layer_of_return hundredths final_ports final_opts none))
    × ((finish_turn hundredths final_ports final_opts none "secret" "direct" [] refusing
          none_yet).status
        ≡ (if "direct" == "max_rounds" then turn_max_rounds else turn_refused))
refused_turn_shows_refusal_example =
    refused_turn_shows_refusal hundredths final_ports final_opts none "secret" "direct" [] refusing
      none_yet refusing-MustRefuse no_wish
