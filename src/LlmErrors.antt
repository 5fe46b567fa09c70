-- ===== src/LlmErrors.antt =====
-- domain/llm_classify.go: the class of a failed call of a language model, and the retry budget.
pub mod Patterns
pub mod Budget
pub mod Classes
mod Examples
use zeus_client_golang.Shared.{
  ℕ, String, Bool, true, false, ◌&&◌, ◌||◌, not, List, [], ◌∷◌, Option, none, some, if◌then◌else◌,
  ◌==◌, leb, nat_eq,
}
use zeus_client_golang.Shared.Int.{ℤ, pos, negsuc, add_int, ◌≤?◌, ◌<?◌, clamp_zero}
use zeus_client_golang.Shared.Text.{trim_space, concat, codes}
use zeus_client_golang.Shared.Pattern.{search, to_lower, contains_codes}
use zeus_client_golang.Shared.Print.{sprint, byte_length, take_bytes}
use zeus_client_golang.Shared.Json.{Value, Fields, str, bool, num, null, obj, arr, get, field, end}
use zeus_client_golang.Errors.{default_retryable}
use zeus_client_golang.Errors.Codes
use zeus_client_golang.LlmErrors.Patterns.{
  quota_re, rate_re, ctx_re, filt_re, tool_re, over_re, bill_re,
}

pub data LlmErrorClass : Type 0 where
  rate_limit quota_exhausted auth context_length content_filter provider_overload : LlmErrorClass
  provider_unavailable timeout invalid_request tool_schema unknown : LlmErrorClass

unfoldable pub class_name : LlmErrorClass → String
class_name rate_limit = "rate_limit"
class_name quota_exhausted = "quota_exhausted"
class_name auth = "auth"
class_name context_length = "context_length"
class_name content_filter = "content_filter"
class_name provider_overload = "provider_overload"
class_name provider_unavailable = "provider_unavailable"
class_name timeout = "timeout"
class_name invalid_request = "invalid_request"
class_name tool_schema = "tool_schema"
class_name unknown = "unknown"

-- classToCode and ErrorCodeForClass
unfoldable pub error_code_for_class : LlmErrorClass → Codes.Code
error_code_for_class rate_limit = Codes.llm_rate_limit
error_code_for_class quota_exhausted = Codes.llm_quota_exhausted
error_code_for_class auth = Codes.llm_auth
error_code_for_class context_length = Codes.llm_context_length
error_code_for_class content_filter = Codes.llm_content_filter
error_code_for_class provider_overload = Codes.llm_provider_overload
error_code_for_class provider_unavailable = Codes.llm_provider_unavailable
error_code_for_class timeout = Codes.agent_llm_timeout
error_code_for_class invalid_request = Codes.llm_invalid_request
error_code_for_class tool_schema = Codes.llm_tool_schema
error_code_for_class unknown = Codes.agent_llm_request_failed

-- `http_status` is none where the pointer is nil.
pub record LlmClassification : Type 0 where
  pub error_class : LlmErrorClass
  pub code : Codes.Code
  pub retryable : Bool
  pub http_status : Option ℤ
  pub provider_code : String
  pub provider_type : String
  pub message_preview : String

abbrev text_or_null : String → Value
text_or_null s = if s == "" then null else str s

abbrev status_or_null : Option ℤ → Value
status_or_null none = null
status_or_null (some n) = num n

-- ToMeta
unfoldable pub to_meta : LlmClassification → Fields
unfolding class_name
to_meta c = field "llm.error_class" (str (class_name c.error_class)) (
    field "error.code" (str c.code) (
      field "error.retryable" (bool c.retryable) (
        field "http.status_code" (status_or_null c.http_status) (
          field "llm.provider_code" (text_or_null c.provider_code)
            (field "llm.provider_type" (text_or_null c.provider_type) end)))))

pub record RetryBudget : Type 0 where
  pub max_attempts : ℤ
  pub max_extra_ms : ℤ
  pub attempts_used : ℤ
  pub ms_used : ℤ

abbrev pub default_retry_budget_extra_ms : ℤ
default_retry_budget_extra_ms = pos 30000

unfoldable pub new_retry_budget : ℤ → RetryBudget
unfolding clamp_zero
new_retry_budget max = record {
  max_attempts = clamp_zero max;
  max_extra_ms = default_retry_budget_extra_ms;
  attempts_used = pos 0;
  ms_used = pos 0;
}

-- Allow, for a budget that is not nil.
unfoldable pub allow : RetryBudget → Bool → ℤ → Bool
unfolding clamp_zero add_int
allow b retryable delay_ms =
    if not retryable
    then false
    else if b.max_attempts ≤? b.attempts_used
    then false
    else if pos 0 <? b.max_extra_ms && b.max_extra_ms <? add_int b.ms_used (clamp_zero delay_ms)
    then false
    else true

unfoldable pub consume : ℤ → RetryBudget → RetryBudget
unfolding add_int
consume delay_ms b = record b {
  attempts_used = add_int b.attempts_used (pos 1);
  ms_used = (if pos 0 <? delay_ms then add_int b.ms_used delay_ms else b.ms_used);
}

pub record ClassifyOpts : Type 0 where
  pub status : ℤ
  pub has_status : Bool
  pub body : Value
  pub transport_error : Bool
  pub timed_out : Bool

unfoldable pub clip_preview : String → ℕ → String
unfolding byte_length take_bytes
clip_preview s n = if nat_eq n 0 || leb (byte_length s) n then s else take_bytes n s

-- asOptString
unfoldable pub as_opt_string : Value → String
unfolding sprint
as_opt_string null = ""
as_opt_string v = sprint v

unfoldable pub first_string : List Value → String
unfolding sprint
first_string [] = ""
first_string (null ∷ vals) = first_string vals
first_string (v ∷ vals) =
    let rest = first_string vals in
    if not (sprint v == "") && not (sprint v == "<nil>") then sprint v else rest

-- nonEmpty, and the join of what it keeps by spaces
unfoldable pub non_empty : List String → List String
non_empty [] = []
non_empty (p ∷ parts) = let rest = non_empty parts in if not (p == "") then p ∷ rest else rest

abbrev pub join_words : List String → String
join_words [] = ""
join_words (w ∷ []) = w
join_words (w ∷ (v ∷ ws)) = concat (w ∷ " " ∷ join_words (v ∷ ws) ∷ [])

pub record ErrorFields : Type 0 where
  pub code : String
  pub typ : String
  pub msg : String

abbrev pub error_fields : String → String → String → ErrorFields
error_fields c t m = record { code = c; typ = t; msg = m }

-- The fields of a body without a JSON object at "error".
unfoldable pub top_level_fields : Fields → ErrorFields
unfolding get as_opt_string first_string clip_preview sprint
top_level_fields m =
    let c = as_opt_string (get "code" m) in
    let t = as_opt_string (get "type" m) in
    let msg = first_string (get "message" m ∷ get "error_message" m ∷ []) in
    if not (c == "") || not (t == "") || not (msg == "")
    then error_fields c t (clip_preview msg 500)
    else error_fields "" "" (clip_preview (sprint (obj m)) 500)

unfoldable pub object_fields : Value → Fields → ErrorFields
unfolding top_level_fields
object_fields (str s) m = error_fields "" "" (clip_preview s 500)
object_fields (obj em) m =
    error_fields (as_opt_string (get "code" em)) (as_opt_string (get "type" em))
      (clip_preview (first_string (get "message" em ∷ [])) 500)
object_fields _ m = top_level_fields m

-- extractLLMErrorFields
unfoldable pub extract_llm_error_fields : Value → ErrorFields
unfolding object_fields
extract_llm_error_fields (str s) = error_fields "" "" (clip_preview s 500)
extract_llm_error_fields (obj m) = object_fields (get "error" m) m
extract_llm_error_fields null = error_fields "" "" ""
extract_llm_error_fields v = error_fields "" "" (clip_preview (sprint v) 500)

abbrev pub is_status : ℤ → ℕ → Bool
is_status (pos n) k = nat_eq n k
is_status (negsuc n) k = false

abbrev pub has_lower : String → String → Bool
has_lower s needle = contains_codes (codes needle) (to_lower (codes s))

-- The tests for an exhausted quota on a 429.
unfoldable pub quota_on_429 : ErrorFields → String → Bool
quota_on_429 f text =
    has_lower f.code "insufficient_quota"
    || has_lower f.typ "insufficient_quota"
    || search quota_re (to_lower (codes text))

unfoldable pub class_401_403 : String → LlmErrorClass
class_401_403 text =
    if search bill_re (codes text) || search quota_re (codes text) then quota_exhausted else auth

unfoldable pub class_5xx : ℤ → String → LlmErrorClass
class_5xx st text =
    if is_status st 503 && search over_re (codes text)
    then provider_overload
    else if search over_re (codes text) && has_lower text "capacity"
    then provider_overload
    else provider_unavailable

unfoldable pub class_400_422 : ErrorFields → String → LlmErrorClass
class_400_422 f text =
    if search ctx_re (codes text)
    then context_length
    else if search filt_re (codes text)
    then content_filter
    else if has_lower f.code "tool"
    then tool_schema
    else if search tool_re (codes text)
        && (has_lower text "schema"
            || has_lower text "tool_choice"
            || has_lower text "invalid"
            || has_lower text "function")
    then tool_schema
    else invalid_request

-- The class for a status that was received.
unfoldable pub class_of_status : ℤ → ErrorFields → String → LlmErrorClass
unfolding quota_on_429 class_401_403 class_5xx class_400_422
class_of_status st f text =
    if is_status st 402
    then quota_exhausted
    else if is_status st 401 || is_status st 403
    then class_401_403 text
    else if is_status st 429
    then (if quota_on_429 f text then quota_exhausted else rate_limit)
    else if is_status st 529
    then provider_overload
    else if is_status st 500 || is_status st 502 || is_status st 503 || is_status st 504
    then class_5xx st text
    else if is_status st 400 || is_status st 422
    then class_400_422 f text
    else if search rate_re (codes text) && pos 400 ≤? st
    then rate_limit
    else unknown

abbrev pub error_text : ErrorFields → String
error_text f = trim_space (join_words (non_empty (f.code ∷ f.typ ∷ f.msg ∷ [])))

unfoldable pub choose_class : ClassifyOpts → ErrorFields → LlmErrorClass
unfolding class_of_status
choose_class opts f =
    if opts.timed_out
    then timeout
    else if opts.transport_error || not opts.has_status
    then provider_unavailable
    else class_of_status opts.status f (error_text f)

-- The closure `fin`.
unfoldable pub fin : ClassifyOpts → ErrorFields → LlmErrorClass → LlmClassification
unfolding error_code_for_class clip_preview
fin opts f cls = record {
  error_class = cls;
  code = error_code_for_class cls;
  retryable = default_retryable (error_code_for_class cls);
  http_status = (if opts.has_status then some opts.status else none);
  provider_code = f.code;
  provider_type = f.typ;
  message_preview = clip_preview f.msg 240;
}

unfoldable pub classify_llm_failure : ClassifyOpts → LlmClassification
unfolding extract_llm_error_fields choose_class fin
classify_llm_failure opts =
    let f = extract_llm_error_fields opts.body in fin opts f (choose_class opts f)

unfoldable pub classify_http : ℤ → Value → LlmClassification
unfolding classify_llm_failure
classify_http st b = classify_llm_failure (record {
  status = st;
  has_status = true;
  body = b;
  transport_error = false;
  timed_out = false;
})
