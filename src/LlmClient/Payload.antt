-- ===== src/LlmClient/Payload.antt =====
-- adapters/llmopenai/payload.go, and the decoding of an answer in adapters/llmopenai/client.go.
use zeus_client_golang.Shared.{
  ℕ, String, Bool, true, false, ◌&&◌, ◌||◌, List, [], ◌∷◌, Option, none, some, if◌then◌else◌, ◌==◌,
  ltb, nat_eq,
}
use zeus_client_golang.Shared.Int.{ℤ}
use zeus_client_golang.Shared.Maps.{Dict}
use zeus_client_golang.Shared.Text.{codes, trim_space}
use zeus_client_golang.Shared.Pattern.{starts_with, to_lower}
use zeus_client_golang.Shared.Print.{byte_length, take_bytes}
use zeus_client_golang.Shared.Json.{
  Value, Fields, Items, str, null, obj, arr, end, nil, cons, get, as_map,
}
use zeus_client_golang.Turn.{ToolCall, LlmResponse}

-- The library functions that read an answer. `scan_millis` reads a number of seconds by
-- fmt.Sscanf with "%f", and gives its milliseconds in whole, or none where there is no such number
-- or it is negative.
pub record Decoder : Type 0 where
  pub valid : String → Bool
  pub unmarshal : String → Option Value
  pub scan_millis : String → Option ℤ

abbrev equal_codes : List ℕ → List ℕ → Bool
equal_codes [] [] = true
equal_codes (a ∷ s) (b ∷ t) = nat_eq a b && equal_codes s t
equal_codes _ _ = false

-- strings.EqualFold with a name that has no i, k or s
abbrev equal_fold : String → String → Bool
equal_fold s t = equal_codes (to_lower (codes s)) (to_lower (codes t))

-- headerFold
unfoldable pub header_fold : Dict String → String → String
unfolding to_lower
header_fold [] name = ""
header_fold ((k, v) ∷ h) name =
    let rest = header_fold h name in if equal_fold k name then v else rest

abbrev value_or_text : Option Value → String → Value
value_or_text none raw = str (if ltb 2000 (byte_length raw) then take_bytes 2000 raw else raw)
value_or_text (some v) raw = v

-- decodeLLMBody
unfoldable pub decode_llm_body : Decoder → Dict String → String → Value
unfolding header_fold starts_with byte_length take_bytes
decode_llm_body d headers raw =
    let ct = header_fold headers "Content-Type" in
    if starts_with (codes "application/json") (to_lower (codes ct)) || d.valid raw
    then value_or_text (d.unmarshal raw) raw
    else value_or_text none raw

-- parseRetryAfter
unfoldable pub parse_retry_after : Decoder → Dict String → Option ℤ
unfolding header_fold trim_space
parse_retry_after d headers =
    let raw = trim_space (header_fold headers "Retry-After") in
    if raw == "" then none else d.scan_millis raw

unfoldable pub stringify : Value → String
stringify (str s) = s
stringify _ = ""

abbrev content_of : Value → String
content_of (str s) = s
content_of null = ""
content_of v = stringify v

-- The items that are objects; a list of maps, which only Go code builds, is not among the values.
abbrev maps_of : Items → List ToolCall
maps_of nil = []
maps_of (cons (obj m) xs) = some m ∷ maps_of xs
maps_of (cons _ xs) = maps_of xs

abbrev tool_calls_of : Value → List ToolCall
tool_calls_of (arr xs) = maps_of xs
tool_calls_of _ = []

abbrev message_in : Value → Option Fields
message_in (arr (cons (obj choice) _)) = as_map (get "message" choice)
message_in _ = none

abbrev fields_or_end : Option Fields → Fields
fields_or_end none = end
fields_or_end (some m) = m

abbrev response_of : Option Fields → Fields → LlmResponse
unfolding stringify
response_of none usage = record { content = ""; tool_calls = []; usage = usage }
response_of (some msg) usage = record {
  content = content_of (get "content" msg);
  tool_calls = tool_calls_of (get "tool_calls" msg);
  usage = usage;
}

-- ParseCompletionResponse; the copy of the body in Raw is not modelled.
unfoldable pub parse_completion_response : Fields → LlmResponse
unfolding response_of get as_map
parse_completion_response body =
    response_of (message_in (get "choices" body)) (fields_or_end (as_map (get "usage" body)))
