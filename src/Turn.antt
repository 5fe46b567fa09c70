-- ===== src/Turn.antt =====
-- application/agent_turn.go: the turn of an agent. The requests and answers of the language model
-- and of Zeus, the hooks of middleware.go, and the state that a turn changes.
pub mod Json
pub mod Depth
pub mod Meta
pub mod Tools
pub mod Calls
pub mod State
pub mod Endings
pub mod Loop
pub mod Answered
pub mod Guarded
pub mod Meter
pub mod CallBounds
pub mod Spending
pub mod Bounds
pub mod Final
pub mod Refusal
mod Examples
use zeus_client_golang.Shared.{ℕ, String, Bool, true, false, List, [], ◌∷◌, Option, none, some}
use zeus_client_golang.Shared.Int.{ℤ}
use zeus_client_golang.Shared.Maps.{Dict, lookup}
use zeus_client_golang.Shared.Json.{Value, Fields}
use zeus_client_golang.Shared.Text.{concat}
use zeus_client_golang.Errors.{
  Error, ContextError, canceled, deadline_exceeded, other, from_context,
}
use zeus_client_golang.Session.Client.{DataTarget}

-- The fields of maps that are nil read as those of the empty one, and a nil map of a list is none.
abbrev pub Messages : Type 0
Messages = List Fields

abbrev pub ToolCall : Type 0
ToolCall = Option Fields

-- Go's `error`: one of the client's, or another of the standard library.
pub data Failure : Type 0 where
  domain_error : Error → Failure
  other_error : ContextError → Failure

unfoldable pub ctx_err_as_domain : Failure → Option Error
unfolding from_context
ctx_err_as_domain (domain_error e) = some e
ctx_err_as_domain (other_error e) = from_context (some e)

abbrev context_text : ContextError → String
context_text (canceled t) = t
context_text (deadline_exceeded t) = t
context_text (other t) = t

-- err.Error()
unfoldable pub failure_text : Failure → String
unfolding concat
failure_text (domain_error e) = concat ("[" ∷ e.code ∷ "] " ∷ e.message ∷ [])
failure_text (other_error e) = context_text e

-- A value of MiddlewareContext.Data; `number` is a float64.
pub data Datum (F : Type 0) : Type 0 where
  flag : Bool → Datum F
  number : F → Datum F
  text : String → Datum F
  texts : List String → Datum F
  names : Dict Bool → Datum F
  value : Value → Datum F

pub record MiddlewareContext (F : Type 0) : Type 0 where
  pub turn_id : String
  pub user_msg : String
  pub round : ℕ
  pub notes : List String
  pub values : Dict (Datum F)

pub record LlmRequest : Type 0 where
  pub messages : Messages
  pub model : String
  pub tools : List Fields
  pub temperature : Option ℕ
  pub conv_id : String

pub record LlmResponse : Type 0 where
  pub content : String
  pub tool_calls : List ToolCall
  pub usage : Fields

-- The fields of the request that a turn sets.
pub record VerbRequest : Type 0 where
  pub verb : String
  pub body : Fields
  pub target : DataTarget
  pub mode_header : String
  pub headers : Dict String
  pub allow_pipeline : Bool
  pub rewind : Bool

pub record VerbHopResult : Type 0 where
  pub is_ok : Bool
  pub status_code : ℤ
  pub req_id : String
  pub body : Fields
  pub error : String
  pub url : String
  pub bytes_in : ℤ
  pub bytes_out : ℤ
  pub has_bytes : Bool

pub data Reply {ℓ} (A : Type ℓ) : Type ℓ where
  answered : A → Reply A
  failed : Failure → Reply A

-- What a turn calls, on a state `S` of all that is outside of it: the context, the model, Zeus,
-- the source of ids, the clock in milliseconds, and the chain of middleware. A hook gives back the
-- maps that it is handed as it leaves them.
pub record Ports (S F : Type 0) : Type 0 where
  pub ctx_ended : S → Option ContextError × S
  pub complete : LlmRequest → S → Reply LlmResponse × S
  pub call_verb : VerbRequest → S → Reply VerbHopResult × S
  pub new_zeus_req_id : S → String × S
  pub now_ms : S → ℕ × S
  pub before_llm : MiddlewareContext F → Messages → S → MiddlewareContext F × Messages × S
  pub after_llm : MiddlewareContext F → LlmResponse → S → MiddlewareContext F × LlmResponse × S
  pub before_zeus : MiddlewareContext F → String → Fields → S → MiddlewareContext F × Fields × S
  pub after_zeus : MiddlewareContext F → String → ℤ → Fields → S → MiddlewareContext F × Fields × S
  -- json.Unmarshal
  pub unmarshal : String → Option Value
  -- domain.ParsePipelineEnvelope
  pub parse_pipeline_envelope : String → Option Fields

-- ctxErr
unfoldable pub ctx_err : {S F : Type 0} → Ports S F → S → Option Failure × S
unfolding from_context
ctx_err p s =
    let (ended, s') = p.ctx_ended s in
    (
      elim ended [
        | none ↦ none
        | some e ↦ elim (from_context (some e)) [
          | none ↦ some (other_error e)
          | some de ↦ some (domain_error de)
        ]
      ],
      s',
    )

module _ {F : Type 0} where
  abbrev as_flag : Option (Datum F) → Bool
  as_flag (some (flag b)) = b
  as_flag _ = false

  -- boolData
  unfoldable pub bool_data : String → MiddlewareContext F → Bool
  bool_data k c = as_flag (lookup k c.values)

  abbrev as_texts : Option (Datum F) → List String
  as_texts (some (texts ts)) = ts
  as_texts _ = []

  -- Data["denied_verbs"].([]string)
  unfoldable pub denied_verbs : MiddlewareContext F → List String
  denied_verbs c = as_texts (lookup "denied_verbs" c.values)

  -- takeNotes
  unfoldable pub take_notes : MiddlewareContext F → List String × MiddlewareContext F
  take_notes c = (c.notes, record c { notes = [] })
