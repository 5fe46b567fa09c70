-- ===== src/Turn/Tools.antt =====
-- The parts of executeToolCalls in application/agent_turn.go: what one call of the model's answer
-- leaves in the messages, the hops and the outcome of the round.
use zeus_client_golang.Shared.{
  ℕ, zero, suc, String, Bool, true, false, ◌&&◌, ◌||◌, not, List, [], ◌∷◌, Option, none, some,
  if◌then◌else◌, ◌==◌,
}
use zeus_client_golang.Shared.Int.{pos}
use zeus_client_golang.Shared.Maps.{Dict, lookup, put}
use zeus_client_golang.Shared.Text.{trim_space, concat}
use zeus_client_golang.Shared.Json.{Value, Fields, str, bool, num, obj, end, field, get, get?, set}
use zeus_client_golang.Errors.{Error}
use zeus_client_golang.Errors.Codes.{cancelled, context_deadline}
use zeus_client_golang.Session.Client.{DataTarget, put_if}
use zeus_client_golang.Turn.{
  Messages, Failure, ctx_err_as_domain, failure_text, Datum, text, MiddlewareContext, VerbRequest,
  VerbHopResult,
}
use zeus_client_golang.Turn.Json.{
  text_of, is_obj, is_end, summary_from_terminal, clip_str, or_analytics, non_blank_text,
}
use zeus_client_golang.Turn.Meta.{extract_pipeline_meta}

abbrev pub max_tool_calls_per_round : ℕ
max_tool_calls_per_round = 8

abbrev trace_snippet_max : ℕ
trace_snippet_max = 2000

-- The fields of executeToolOpts that stay the same for a round.
pub record ExecuteToolOpts : Type 0 where
  pub target : DataTarget
  pub mode : String
  pub round_n : ℕ
  pub chat_id : String
  pub turn_id : String
  pub force_trace : Bool
  pub rewind : Bool
  pub chat_session_id : String
  pub brief_sha12 : String
  pub mini_sha12 : String

pub record ToolRoundOutcome : Type 0 where
  pub return_seen : Bool
  pub terminal_summary : String
  pub tool_arg_summary : String
  pub tools_executed : ℕ
  pub tools_with_data : ℕ
  pub tools_with_payload : ℕ
  pub tools_empty : ℕ
  pub hops : List Fields
  pub steps : List Fields
  pub return_args : Option Fields
  pub terminate_via : String

abbrev pub no_outcome : ToolRoundOutcome
no_outcome = record {
  return_seen = false;
  terminal_summary = "";
  tool_arg_summary = "";
  tools_executed = 0;
  tools_with_data = 0;
  tools_with_payload = 0;
  tools_empty = 0;
  hops = [];
  steps = [];
  return_args = none;
  terminate_via = "";
}

-- What the loop over the calls changes: the outcome with the locals returnSeen and finalSummary,
-- which stand in its fields return_seen and terminal_summary, and what lies outside of the loop.
pub record Execution (S F : Type 0) : Type 0 where
  pub out : ToolRoundOutcome
  pub messages : Messages
  pub notes : List String
  pub mw : MiddlewareContext F
  pub world : S

-- A call with its name, its arguments and its id.
pub record Call : Type 0 where
  pub name : String
  pub args : Fields
  pub id : String

abbrev pub is_terminate : String → Bool
is_terminate name = name == "return" || name == "return_result"

abbrev is_orientation : String → Bool
is_orientation name = name == "describe" || name == "explain"

unfoldable pub tool_message : Call → String → Fields
tool_message c content = field "role" (str "tool") (
    field "tool_call_id" (str c.id) (field "name" (str c.name) (field "content" (str content) end)))

abbrev target_scope : DataTarget → String
target_scope t = if t.bucket == "" then "" else concat (t.bucket ∷ "/" ∷ t.scope ∷ [])

-- CorrelationHeaders of adapters/zeushttp/headers.go, for a call of an agent
unfoldable pub correlation_headers : ExecuteToolOpts → String → Dict String
unfolding or_analytics trim_space
correlation_headers o call_id =
    put_if (not (trim_space o.mini_sha12 == "")) "X-Zeus-Mini-Sha12" (trim_space o.mini_sha12) (
      put_if (not (trim_space o.brief_sha12 == "")) "X-Zeus-Brief-Sha12" (trim_space o.brief_sha12)
        (put_if (not (trim_space o.chat_session_id == "")) "X-Zeus-Chat-Session-Id"
          (trim_space o.chat_session_id)
          (put "X-Zeus-Trace-Class" "agent" (
            put_if o.force_trace "X-Zeus-Trace" "1" (
              put "X-Zeus-Mode" (or_analytics o.mode) (
                put_if (not (call_id == "")) "X-Zeus-Call-Id" call_id (
                  put_if (not (o.turn_id == "")) "X-Zeus-Turn-Id" o.turn_id
                    (put_if (not (o.chat_id == "")) "X-Zeus-Chat-Id" o.chat_id []))))))))

unfoldable pub verb_request : ExecuteToolOpts → Call → VerbRequest
unfolding correlation_headers or_analytics
verb_request o c = record {
  verb = c.name;
  body = c.args;
  target = o.target;
  mode_header = or_analytics o.mode;
  headers = correlation_headers o c.id;
  allow_pipeline = true;
  rewind = o.rewind;
}

-- The result of a call that Zeus did not answer.
abbrev pub failed_hop : Failure → VerbHopResult
failed_hop e = record {
  is_ok = false;
  status_code = pos 0;
  req_id = "";
  body = end;
  error = failure_text e;
  url = "";
  bytes_in = pos 0;
  bytes_out = pos 0;
  has_bytes = false;
}

abbrev is_context_code : Option Error → Bool
is_context_code none = false
is_context_code (some e) = e.code == cancelled || e.code == context_deadline

-- Whether an error of a call ends the round: a cancelled or late context.
abbrev pub ends_round : Failure → Bool
ends_round e = is_context_code (ctx_err_as_domain e)

abbrev pub set_summary : Fields → ToolRoundOutcome → ToolRoundOutcome
set_summary args out = elim (non_blank_text (get "summary" args)) [
  | none ↦ out
  | some s ↦ record out { tool_arg_summary = s }
]

abbrev set_all : Fields → Fields → Fields
set_all end m = m
set_all (field k v rest) m = set k v (set_all rest m)

-- hopRec
unfoldable pub hop_record : ExecuteToolOpts → Call → VerbHopResult → ℕ → Fields → String → Fields
unfolding clip_str concat set extract_pipeline_meta
hop_record o c hop ms body content =
    let base = field "req_id" (str hop.req_id) (
      field "name" (str c.name) (
        field "path_class" (str c.name) (
          field "status" (num hop.status_code) (
            field "ok" (bool hop.is_ok) (
              field "ms" (num (pos ms)) (
                field "url" (str hop.url) (
                  field "error" (str hop.error) (
                    field "snippet" (str (clip_str content trace_snippet_max))
                      (field "scope" (str (target_scope o.target)) end))))))))) in
    let sized =
      if hop.has_bytes
      then set "bytes.out" (num hop.bytes_out) (set "bytes.in" (num hop.bytes_in) base)
      else base in
    let with_meta = set_all (extract_pipeline_meta body) sized in
    if is_end body then with_meta else set "result_json" (obj body) with_meta

abbrev fill : String → Fields → Fields → Fields
fill k body cand = elim (get? k cand) [
  | some _ ↦ cand
  | none ↦ elim (get? k body) [ none ↦ cand | some v ↦ set k v cand ]
]

-- The arguments of a pipeline that ends the turn, with what is missing taken from its answer.
unfoldable pub pipeline_candidate : Fields → Fields → Fields
unfolding get? set
pipeline_candidate args body = fill "policy_action" body (
    fill "confidence" body
      (fill "decomposition" body (fill "query_decomposition" body (fill "summary" body args))))

abbrev is_text : Option String → Bool
is_text none = false
is_text (some _) = true

abbrev is_some_text : Option String → Bool
is_some_text none = false
is_some_text (some s) = not (s == "")

unfoldable pub is_complete_return : Fields → Bool
unfolding get
is_complete_return cand =
    (is_some_text (text_of (get "summary" cand)) && is_obj (get "query_decomposition" cand))
    && (is_obj (get "decomposition" cand) && is_text (text_of (get "confidence" cand)))

unfoldable pub complete_turn : Fields → Fields → ToolRoundOutcome → ToolRoundOutcome
unfolding summary_from_terminal pipeline_candidate is_complete_return
complete_turn body args out =
    let summary =
      if out.terminal_summary == ""
      then summary_from_terminal body args
      else out.terminal_summary in
    let seen = record out { return_seen = true; terminal_summary = summary } in
    let cand = pipeline_candidate args body in
    if is_complete_return cand
    then record seen { return_args = some cand; terminate_via = "pipeline" }
    else seen

unfoldable pub count_data : String → Bool → ToolRoundOutcome → ToolRoundOutcome
count_data name empty out =
    if empty
    then record out { tools_executed = suc out.tools_executed; tools_empty = suc out.tools_empty }
    else record out {
      tools_executed = suc out.tools_executed;
      tools_with_data = suc out.tools_with_data;
      tools_with_payload =
          if is_orientation name then out.tools_with_payload else suc out.tools_with_payload;
    }

abbrev pub tool_step : ExecuteToolOpts → Call → VerbHopResult → ℕ → Fields
tool_step o c hop ms = field "round" (num (pos o.round_n)) (
    field "type" (str "tool") (
      field "name" (str c.name) (
        field "args" (obj c.args) (
          field "status" (num hop.status_code)
            (field "ms" (num (pos ms)) (field "req_id" (str hop.req_id) end))))))

abbrev pub untrusted : Fields
untrusted = field "error" (str "untrusted_tool_payload") end

abbrev pub trusted_body : Option Value → Fields
trusted_body (some (obj m)) = m
trusted_body _ = untrusted

abbrev pub take {ℓ} : {A : Type ℓ} → ℕ → List A → List A
take zero xs = []
take (suc n) [] = []
take (suc n) (x ∷ xs) = x ∷ take n xs

-- An error leaves returnSeen and finalSummary out of the outcome.
abbrev pub without_return : ToolRoundOutcome → ToolRoundOutcome
without_return out = record out { return_seen = false; terminal_summary = "" }

abbrev pub with_terminal : ToolRoundOutcome → ToolRoundOutcome
with_terminal out = if out.return_seen then out else record out { terminal_summary = "" }

module _ {F : Type 0} where
  abbrev override_text : Option (Datum F) → Option String
  override_text (some (text t)) = if trim_space t == "" then none else some t
  override_text _ = none

  -- The text that a hook has put in place of an answer.
  unfoldable pub tool_body_override : MiddlewareContext F → Option String
  unfolding trim_space
  tool_body_override c = override_text (lookup "tool_body_override" c.values)

  abbrev pub without : String → Dict (Datum F) → Dict (Datum F)
  without k [] = []
  without k ((j, v) ∷ m) = let rest = without k m in if j == k then rest else (j, v) ∷ rest
