-- ===== src/Turn/Json.antt =====
-- The helpers of application/agent_turn.go that read maps of JSON, and ExtractPipelineMeta of
-- application/projectors/session_trace.go.
use zeus_client_golang.Shared.{
  ℕ, zero, suc, ◌+◌, String, Bool, true, false, ◌&&◌, ◌||◌, not, List, [], ◌∷◌, Option, none, some,
  if◌then◌else◌, ◌==◌, leb, nat_eq, length, drop, ◌-◌,
}
use zeus_client_golang.Shared.Maps.{Dict, put}
use zeus_client_golang.Shared.Text.{trim_space, concat}
use zeus_client_golang.Shared.Print.{sprint, byte_length, take_bytes}
use zeus_client_golang.Shared.Json.{
  Value, Fields, str, bool, null, obj, arr, end, field, nil, get, get?, filter_keys,
}
use zeus_client_golang.Turn.{Messages, ToolCall}

-- asString of application/typeahead.go
unfoldable pub as_text : Value → String
unfolding sprint
as_text null = ""
as_text (str s) = s
as_text v = if sprint v == "<nil>" then "" else sprint v

-- v.(string), with its second result
abbrev pub text_of : Value → Option String
text_of (str s) = some s
text_of _ = none

-- v.(map[string]any), with a nil map where the assertion fails
abbrev pub fields_of : Value → Fields
fields_of (obj m) = m
fields_of _ = end

abbrev pub is_obj : Value → Bool
is_obj (obj m) = true
is_obj _ = false

abbrev pub flag_of : Value → Bool
flag_of (bool b) = b
flag_of _ = false

abbrev pub is_end : Fields → Bool
is_end end = true
is_end (field _ _ _) = false

-- strings.TrimSpace of a text that is there and not blank
abbrev non_blank : Option String → Option String
non_blank none = none
non_blank (some s) = if trim_space s == "" then none else some (trim_space s)

unfoldable pub non_blank_text : Value → Option String
non_blank_text v = non_blank (text_of v)

-- toolCallName
unfoldable pub tool_call_name : ToolCall → Value
unfolding as_text
tool_call_name none = null
tool_call_name (some m) =
    let n = as_text (get "name" (fields_of (get "function" m))) in if n == "" then null else str n

-- catalogToolNames
unfoldable pub catalog_tool_names : List Fields → Dict Bool
unfolding as_text
catalog_tool_names [] = []
catalog_tool_names (t ∷ ts) =
    let fn = if is_obj (get "function" t) then fields_of (get "function" t) else t in
    let n = as_text (get "name" fn) in
    let rest = catalog_tool_names ts in if n == "" then rest else put n true rest

abbrev object_of : Option Value → Fields
object_of none = end
object_of (some v) = fields_of v

-- parseToolArgs
unfoldable pub parse_tool_args : (String → Option Value) → Value → Fields
parse_tool_args unmarshal (obj m) = m
parse_tool_args unmarshal (str s) = object_of (unmarshal s)
parse_tool_args unmarshal _ = end

-- VerbBodyWithoutRewind of adapters/zeushttp/headers.go
unfoldable pub verb_body_without_rewind : Fields → Fields
unfolding filter_keys
verb_body_without_rewind m = filter_keys (λ k. not (k == "rewind")) m

abbrev pub first_of : Option Value → Option Value → Option Value
first_of none v = v
first_of (some v) w = some v

abbrev pub payload_of : Fields → Option Value
payload_of m = first_of (get? "rows" m) (
    first_of (get? "items" m) (
      first_of (get? "results" m)
        (first_of (get? "entities" m) (first_of (get? "data" m) (get? "result" m)))))

-- isEmptyJSONValue; it looks into a value no deeper than the value is, so the depth is fuel enough
unfoldable mutual
  pub depth : Value → ℕ
  depth (obj m) = suc (depth_fields m)
  depth _ = 1

  pub depth_fields : Fields → ℕ
  depth_fields end = 0
  depth_fields (field k v m) = depth v + depth_fields m

abbrev pub if_found : (Value → Bool) → Option Value → Bool
if_found f none = false
if_found f (some v) = f v

unfoldable pub empty_within : ℕ → Value → Bool
unfolding get? trim_space
empty_within zero v = false
empty_within (suc n) null = true
empty_within (suc n) (str s) = trim_space s == ""
empty_within (suc n) (arr nil) = true
empty_within (suc n) (obj end) = true
empty_within (suc n) (obj (field k v m)) = if_found (empty_within n) (payload_of (field k v m))
empty_within (suc n) _ = false

unfoldable pub is_empty_json_value : Value → Bool
unfolding depth empty_within
is_empty_json_value v = empty_within (depth v) v

-- hasTurnComplete
unfoldable pub has_turn_complete : Fields → Bool
unfolding get
has_turn_complete body = flag_of (get "turn_complete" body)

abbrev text_or : Option String → String → String
text_or none t = t
text_or (some s) t = s

-- summaryFromTerminal
unfoldable pub summary_from_terminal : Fields → Fields → String
unfolding non_blank_text get
summary_from_terminal body args = text_or (non_blank_text (get "summary" body)) (
    text_or (non_blank_text (get "answer" body)) (
      text_or (non_blank_text (get "message" body))
        (trim_space (text_or (text_of (get "summary" args)) ""))))

abbrev is_assistant : String → Fields → Bool
is_assistant content m =
    as_text (get "role" m) == "assistant" && as_text (get "content" m) == content

abbrev any_assistant : String → Messages → Bool
any_assistant content [] = false
any_assistant content (m ∷ ms) = is_assistant content m || any_assistant content ms

-- recentAssistantHas: among the last three messages
unfoldable pub recent_assistant_has : Messages → String → Bool
recent_assistant_has ms content = any_assistant content (drop (length ms - 3) ms)

abbrev pub max_tool_json_bytes : ℕ
max_tool_json_bytes = 65536

-- truncateToolJSON, with whether it cuts
unfoldable pub truncate_tool_json : String → String × Bool
unfolding byte_length take_bytes
truncate_tool_json text =
    if leb (byte_length text) max_tool_json_bytes
    then (text, false)
    else (concat (take_bytes max_tool_json_bytes text ∷ "\n…[truncated]" ∷ []), true)

-- clipStr
unfoldable pub clip_str : String → ℕ → String
unfolding byte_length take_bytes
clip_str s n = if nat_eq n 0 || leb (byte_length s) n then s else take_bytes n s

-- orAnalytics
unfoldable pub or_analytics : String → String
or_analytics mode = if trim_space mode == "" then "analytics" else mode
