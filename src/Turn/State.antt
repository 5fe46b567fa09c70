-- ===== src/Turn/State.antt =====
-- The variables of RunAgentTurn in application/agent_turn.go that its loop changes, and the
-- messages and rows that a round adds.
use zeus_client_golang.Shared.{
  ℕ, suc, String, Bool, ◌&&◌, ◌||◌, List, [], ◌∷◌, ◌++◌, Option, none, some, if◌then◌else◌, ◌==◌,
  contains, length, is_empty,
}
use zeus_client_golang.Shared.Int.{ℤ, pos}
use zeus_client_golang.Shared.Maps.{lookup}
use zeus_client_golang.Shared.Text.{trim_space, concat, join}
use zeus_client_golang.Shared.Encode.{marshal}
use zeus_client_golang.Shared.Json.{
  Value, Fields, Items, str, bool, num, null, obj, arr, end, field, nil, cons, get,
}
use zeus_client_golang.Errors.{Error, typed, with_message, with_cause}
use zeus_client_golang.Errors.Codes
use zeus_client_golang.ToolTrail.{trail_entry_from_hop}
use zeus_client_golang.Turn.{
  Messages, ToolCall, Failure, ctx_err_as_domain, failure_text, Datum, texts, value,
  MiddlewareContext, LlmRequest,
}
use zeus_client_golang.Turn.Json.{is_empty_json_value, tool_call_name, flag_of}
use zeus_client_golang.Turn.Tools.{ExecuteToolOpts}

abbrev pub insight_instruction : String
insight_instruction =
    "Zeus tool results (including row/data payloads) are already in this conversation. Analyze that evidence and write a clear, useful answer for the operator: what was found, notable names/counts/patterns, and any caveats. Do not call tools. Do not re-run the same successful pipeline or invent rows/fields not present in the tool results. Prefer concrete details from the data over a one-line abstract summary."

abbrev pub cheap_final_static_answer : String
cheap_final_static_answer = "Zeus returned data. See structured results in the UI."

abbrev agent_turn_component : String
agent_turn_component = "application.agent_turn"

-- What stays the same for the rounds of a turn; `execute` has the options of its calls.
pub record RoundOpts : Type 0 where
  pub model : String
  pub tools : List Fields
  pub zeus_wired : Bool
  pub ai_process_result : Bool
  pub force_return_rounds_left : ℤ
  pub tool_trail_enabled : Bool
  pub tool_trail_inject : Bool
  pub tool_trail_max_entries : ℤ
  pub execute : ExecuteToolOpts

-- The variables of RunAgentTurn that its loop changes.
pub record TurnState (S F : Type 0) : Type 0 where
  pub world : S
  pub mw : MiddlewareContext F
  pub messages : Messages
  pub notes : List String
  pub steps : List Fields
  pub hops : List Fields
  pub trail : List Fields
  pub answer : String
  pub last_return_args : Option Fields
  pub last_terminate_via : String
  pub rounds_done : ℕ

-- How a round ends: the next one follows, the loop is left with an exit kind, the model has
-- failed, or the context is over.
pub data Verdict : Type 0 where
  next_round : Verdict
  exit : String → Verdict
  llm_failed : Error → Verdict
  loop_failed : Failure → Verdict

-- llmErrAsDomain
unfoldable pub llm_err_as_domain : Failure → Error
unfolding ctx_err_as_domain failure_text typed
llm_err_as_domain e = elim (ctx_err_as_domain e) [
  | some de ↦ de
  | none ↦
      typed "llm" Codes.agent_llm_request_failed agent_turn_component
        (with_message (failure_text e) ∷ with_cause (failure_text e) ∷ [])
]

abbrev pub text_message : String → String → Fields
text_message role content = field "role" (str role) (field "content" (str content) end)

abbrev to_items : List ToolCall → Items
to_items [] = nil
to_items (none ∷ tcs) = cons null (to_items tcs)
to_items (some m ∷ tcs) = cons (obj m) (to_items tcs)

abbrev pub call_names : List ToolCall → Items
call_names [] = nil
call_names (tc ∷ tcs) = cons (tool_call_name tc) (call_names tcs)

abbrev pub assistant_message : String → List ToolCall → Fields
assistant_message content tcs = field "role" (str "assistant") (
    field "content" (if trim_space content == "" then null else str content)
      (field "tool_calls" (arr (to_items tcs)) end))

-- mapsToAny and anyToMaps
abbrev pub maps_to_any : Messages → List Value
maps_to_any [] = []
maps_to_any (m ∷ ms) = obj m ∷ maps_to_any ms

abbrev pub any_to_maps : List Value → Messages
any_to_maps [] = []
any_to_maps (obj m ∷ vs) = m ∷ any_to_maps vs
any_to_maps (str _ ∷ vs) = any_to_maps vs
any_to_maps (bool _ ∷ vs) = any_to_maps vs
any_to_maps (num _ ∷ vs) = any_to_maps vs
any_to_maps (null ∷ vs) = any_to_maps vs
any_to_maps (arr _ ∷ vs) = any_to_maps vs

unfoldable pub trail_of : List Fields → List Fields → List Fields
unfolding trail_entry_from_hop is_empty_json_value get
trail_of [] trail = trail
trail_of (hop ∷ hops) trail =
    let empty = flag_of (get "ok" hop) && is_empty_json_value (get "snippet" hop) in
    trail_of hops (trail ++ (trail_entry_from_hop hop (suc (length trail)) empty ∷ []))

-- syntheticPipelineCall
abbrev pub synthetic_pipeline_call : String → Fields → Fields
synthetic_pipeline_call id args = field "id" (str id) (
    field "type" (str "function") (
      field "function"
        (obj (field "name" (str "pipeline") (field "arguments" (str (marshal (obj args))) end)))
        end))

abbrev item_texts : Items → List String
item_texts nil = []
item_texts (cons (str s) xs) = s ∷ item_texts xs
item_texts (cons _ xs) = item_texts xs

abbrev pub llm_request : RoundOpts → List Fields → Messages → LlmRequest
llm_request o tools messages = record {
  messages = messages;
  model = o.model;
  tools = tools;
  temperature = some 0;
  conv_id = o.execute.chat_id;
}

abbrev pub llm_step : ℕ → List ToolCall → Fields → Fields
llm_step rnd tcs usage = field "round" (num (pos rnd)) (
    field "type" (str "llm")
      (field "tool_calls" (arr (call_names tcs)) (field "usage" (obj usage) end)))

abbrev pub or_text : String → String → String
or_text s t = if s == "" then t else s

abbrev pub updated_args : Option Fields → Option Fields → Option Fields
updated_args none old = old
updated_args (some m) old = some m

module _ {F : Type 0} where
  -- asStringSlice
  abbrev string_slice : Option (Datum F) → List String
  string_slice (some (texts ts)) = ts
  string_slice (some (value (arr xs))) = item_texts xs
  string_slice _ = []

  -- appendJailbreakHitNote
  unfoldable pub append_jailbreak_hit_note : List String → MiddlewareContext F → List String
  unfolding join concat
  append_jailbreak_hit_note notes c =
      let hits = string_slice (lookup "jailbreak_hits" c.values) in
      let note = concat ("jailbreak.hits=" ∷ join "," hits ∷ []) in
      if is_empty hits || contains note notes then notes else notes ++ (note ∷ [])
