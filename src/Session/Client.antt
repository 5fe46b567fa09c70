-- ===== src/Session/Client.antt =====
-- The requests and answers of application/session_lifecycle.go, the HTTP client of a session as an
-- interface with a state of its own, and the helpers of the lifecycle.
use zeus_client_golang.Shared.{
  ℕ, String, Bool, true, false, not, List, [], ◌∷◌, Option, none, some, if◌then◌else◌, ◌==◌, nat_eq,
}
use zeus_client_golang.Shared.Int.{ℤ, pos, negsuc, int64}
use zeus_client_golang.Shared.Maps.{Dict, put, put_all}
use zeus_client_golang.Shared.Parse.{digits_from}
use zeus_client_golang.Shared.Text.{trim_space, concat, codes}
use zeus_client_golang.Shared.Print.{sprint}
use zeus_client_golang.Shared.Json.{
  Value, Fields, Items, str, num, obj, end, field, nil, cons, get, as_string,
}
use zeus_client_golang.Errors.{
  Error, ContextError, canceled, deadline_exceeded, other, from_context, new_session,
  new_zeus_transport, with_message, with_details,
}
use zeus_client_golang.Errors.Codes
use zeus_client_golang.Session.{SessionHandle}

-- Go's `error`: one of the client's, or another by its text.
pub data GoError : Type 0 where
  client_error : Error → GoError
  go_error : String → GoError

-- A pair of a value and an error, both of which the caller reads.
pub record Outcome {ℓ} (A : Type ℓ) : Type ℓ where
  pub value : A
  pub failure : Option GoError

pub record DataTarget : Type 0 where
  pub bucket : String
  pub scope : String
  pub collection : String

pub record SessionHttpResult : Type 0 where
  pub is_ok : Bool
  pub status_code : ℤ
  pub body : Fields
  pub url : String
  pub req_id : String
  pub error : String

pub record SessionCreateRequest : Type 0 where
  pub contract_id : String
  pub contract_hash : String
  pub chat_request : Fields
  pub conversation : Items
  pub headers : Dict String
  pub mode : String
  pub target : DataTarget
  pub rewind : Bool

pub record SessionContinueRequest : Type 0 where
  pub session_id : String
  pub client_round : ℤ
  pub chat_request : Fields
  pub new_turns : Items
  pub headers : Dict String
  pub mode : String
  pub target : DataTarget
  pub rewind : Bool

-- The methods of zeushttp.SessionClient, each on the state of the client and its server.
pub record SessionClient (S : Type 0) : Type 0 where
  pub create_session : SessionCreateRequest → S → Outcome SessionHttpResult × S
  -- A session that is gone is none.
  pub rehydrate : String → ℕ → String → Dict String → DataTarget → S → Outcome (Option Fields) × S
  pub continue_turn : SessionContinueRequest → S → Outcome SessionHttpResult × S
  pub last_req_id : S → String

-- A map that is nil reads as the empty one.
pub record SetupOptions : Type 0 where
  pub chat_request : Fields
  pub user_message : String
  pub prior : Option SessionHandle
  pub contract_id : String
  pub bound_contract_hash : String
  pub mode : String
  pub chat_id : String
  pub enable_sessions : Bool
  pub headers : Dict String
  pub turn_id : String
  pub force_trace : Bool
  pub rewind : Bool
  pub brief_sha12 : String
  pub mini_sha12 : String

pub record CommitOptions : Type 0 where
  pub chat_request : Fields
  pub produced_delta : Items
  pub mode : String
  pub headers : Dict String
  pub turn_id : String
  pub force_trace : Bool
  pub rewind : Bool
  pub brief_sha12 : String
  pub mini_sha12 : String

pub record CommitResult : Type 0 where
  pub is_ok : Bool
  pub handle : SessionHandle
  pub turn_req_id : String
  pub error : String
  pub status : ℤ

-- The state of the lifecycle: its client's, and its own lines of log.
pub record World (S : Type 0) : Type 0 where
  pub client_state : S
  pub logs : List String

abbrev pub empty_handle : SessionHandle
empty_handle = record {
  session_id = "";
  round = pos 0;
  chat_id = "";
  contract_id = "";
  contract_hash = "";
  contract_status = "";
  mode = "";
  created = false;
  rehydrated = false;
  recovered_from = "";
  enabled = false;
  create_req_id = "";
  error = "";
}

abbrev pub returns {ℓ} : {A : Type ℓ} → A → Option GoError → Outcome A
returns v e = record { value = v; failure = e }

abbrev pub put_if : Bool → String → String → Dict String → Dict String
put_if b k v h = if b then put k v h else h

-- sessionHopHeaders, with the fields that CorrelationHeaders gets from it
unfoldable pub session_hop_headers :
    String → String → Bool → Dict String → String → String → String → Dict String
session_hop_headers chat_id turn_id force_trace extra session_id brief mini = put_all extra (
    put_if (not (trim_space mini == "")) "X-Zeus-Mini-Sha12" (trim_space mini) (
      put_if (not (trim_space brief == "")) "X-Zeus-Brief-Sha12" (trim_space brief) (
        put_if (not (trim_space session_id == "")) "X-Zeus-Chat-Session-Id" (trim_space session_id)
          (put "X-Zeus-Trace-Class" "session" (
            put_if force_trace "X-Zeus-Trace" "1" (
              put_if (not (turn_id == "")) "X-Zeus-Turn-Id" turn_id
                (put_if (not (chat_id == "")) "X-Zeus-Chat-Id" chat_id [])))))))

abbrev pub is_empty_map : Fields → Bool
is_empty_map end = true
is_empty_map (field _ _ _) = false

abbrev is_zero : ℤ → Bool
is_zero (pos n) = nat_eq n 0
is_zero (negsuc n) = false

-- The number that a loop has read, which wraps around at the end as it would at each digit.
abbrev or_default : Option ℕ → ℤ → ℤ
or_default none def = def
or_default (some n) def = let w = int64 (pos n) in if is_zero w then def else w

-- jsonInt
unfoldable pub json_int : Value → ℤ → ℤ
unfolding int64
json_int (num (pos n)) def = if nat_eq n 0 then def else pos n
json_int (num (negsuc n)) def = negsuc n
json_int (str s) def = or_default (digits_from 0 (codes s)) def
json_int _ def = def

abbrev pub first_non_empty : String → String → String
first_non_empty a b = if not (a == "") then a else b

-- fmt.Sprintf("HTTP %d", …)
abbrev pub http_status_text : ℤ → String
http_status_text n = concat ("HTTP " ∷ sprint (num n) ∷ [])

abbrev is_conflict : ℤ → Bool
is_conflict (pos n) = nat_eq n 409
is_conflict (negsuc n) = false

abbrev pub session_life_component : String
session_life_component = "application.session_lifecycle"

-- The error of a refused call: 409 asks for a contract, and every other status has `code`.
unfoldable pub refusal : Codes.Code → SessionHttpResult → String → Error
refusal code result msg =
    let details =
      ("http.status_code", sprint (num result.status_code))
      ∷ (if not (result.req_id == "") then ("req_id", result.req_id) ∷ [] else []) in
    if is_conflict result.status_code
    then new_zeus_transport Codes.zeus_contract_required session_life_component
        (with_message msg ∷ with_details details ∷ [])
    else new_session code session_life_component (with_message msg ∷ with_details details ∷ [])

abbrev pub refusal_text : SessionHttpResult → String
refusal_text result =
    if result.error == "" then http_status_text result.status_code else result.error

abbrev pub not_wired : Codes.Code → Error
not_wired code =
    new_session code session_life_component (with_message "session client not wired" ∷ [])

abbrev context_text : ContextError → String
context_text (canceled t) = t
context_text (deadline_exceeded t) = t
context_text (other t) = t

abbrev pub context_failure : ContextError → GoError
context_failure e = elim (from_context (some e)) [
  | none ↦ go_error (context_text e)
  | some de ↦ client_error de
]

abbrev pub role_of : Value → String
role_of (obj m) = as_string (get "role" m)
role_of _ = ""

-- The turns of a delta that are no messages of the user.
unfoldable pub without_user : Items → Items
without_user nil = nil
without_user (cons v xs) =
    let rest = without_user xs in if role_of v == "user" then rest else cons v rest

abbrev pub is_nil : Items → Bool
is_nil nil = true
is_nil (cons _ _) = false
