-- ===== src/LlmClient.antt =====
-- adapters/llmopenai/client.go: a completion of the language model, with its retries.
pub mod Payload
pub mod Retries
pub mod Requests
mod Examples
use zeus_client_golang.Shared.{
  ℕ, zero, suc, ◌*◌, String, Bool, true, false, ◌&&◌, not, List, [], ◌∷◌, ◌++◌, Option, none, some,
  if◌then◌else◌, ◌==◌, ltb, leb,
}
use zeus_client_golang.Shared.Int.{ℤ, pos, negsuc, ◌<?◌, pos_part, int64}
use zeus_client_golang.Shared.Maps.{Dict, put}
use zeus_client_golang.Shared.Print.{sprint, byte_length, take_bytes}
use zeus_client_golang.Shared.Json.{Value, Fields, obj, end, field, str}
use zeus_client_golang.Errors.{
  Error, ContextError, from_context, typed, with_retryable, with_details,
}
use zeus_client_golang.Errors.Codes.{cancelled, context_deadline, timeout}
use zeus_client_golang.LlmErrors.{
  LlmClassification, ClassifyOpts, RetryBudget, new_retry_budget, allow, consume,
  classify_llm_failure, classify_http, to_meta,
}
use zeus_client_golang.LlmClient.Payload.{
  Decoder, decode_llm_body, parse_retry_after, parse_completion_response,
}
use zeus_client_golang.Turn.{
  Failure, domain_error, other_error, LlmResponse, Reply, answered, failed,
}

-- An answer of the server with its status, headers and text, or an error of the transport.
pub data HttpReply : Type 0 where
  response : ℤ → Dict String → String → HttpReply
  broken : Failure → HttpReply

-- What the loop calls, on a state of all that is outside of it. `jitter` is a random part of a
-- delay, and the last three write to the journal and the log.
pub record ClientPorts (S : Type 0) : Type 0 where
  pub ctx_ended : S → Option ContextError × S
  pub request : S → HttpReply × S
  pub jitter : ℤ → S → ℤ × S
  pub sleep : ℤ → S → Option Failure × S
  pub decoder : Decoder
  pub journal_round : Bool → ℕ → Option LlmClassification → S → S
  pub emit_finished : LlmResponse → S → S
  pub emit_failed : LlmClassification → S → S

-- config.RetryPolicy
pub record RetryPolicy : Type 0 where
  pub max_attempts : ℤ
  pub base_delay_ms : ℤ
  pub max_delay_ms : ℤ
  pub jitter : Bool

-- The fields of the client that its errors name.
pub record ClientOpts : Type 0 where
  pub provider : String
  pub model : String
  pub base_url_host : String
  pub retry : RetryPolicy
  pub budget : Option RetryBudget

-- budgetForCall
unfoldable pub budget_for_call : ClientOpts → RetryBudget
unfolding new_retry_budget
budget_for_call o = elim o.budget [
  | none ↦ new_retry_budget o.retry.max_attempts
  | some b ↦ record b {
    attempts_used = pos 0;
    ms_used = pos 0;
    max_extra_ms =
        if not (pos 0 <? b.max_extra_ms) && not (b.max_extra_ms <? pos 0)
        then pos 30000
        else b.max_extra_ms;
  }
]

abbrev double : ℕ → ℤ → ℤ
double zero a = a
double (suc n) (pos m) = double n (pos (2 * m))
double (suc n) (negsuc m) = double n (negsuc (suc (2 * m)))

-- base * 2^shift, with a shift of at most 16, at 64 bits
abbrev shifted : ℤ → ℕ → ℤ
shifted base attempt = int64 (double (if ltb 16 attempt then 16 else attempt) base)

abbrev from_header : Option ℤ → ℤ → ℤ
from_header none def = def
from_header (some ms) def = ms

abbrev not_negative : ℤ → ℤ
not_negative a = if a <? pos 0 then pos 0 else a

-- The delay before the random part.
unfoldable pub base_delay : RetryPolicy → ℕ → Option ℤ → ℤ
unfolding int64
base_delay p attempt retry_after =
    let base = from_header retry_after (shifted p.base_delay_ms attempt) in
    if pos 0 <? p.max_delay_ms && p.max_delay_ms <? base then p.max_delay_ms else base

module _ {S : Type 0} where
  -- backoffMS
  unfoldable pub backoff_ms : ClientPorts S → RetryPolicy → ℕ → Option ℤ → S → ℤ × S
  unfolding base_delay
  backoff_ms c p attempt retry_after s =
      let base = base_delay p attempt retry_after in
      let drawn = c.jitter base s in
      if p.jitter && pos 0 <? base then (not_negative drawn.0, drawn.1) else (not_negative base, s)

abbrev transport_opts : Bool → ClassifyOpts
transport_opts late = record {
  status = pos 0;
  has_status = false;
  body = Value.null;
  transport_error = not late;
  timed_out = late;
}

-- classifyTransport
unfoldable pub classify_transport : Failure → LlmClassification
unfolding classify_llm_failure
classify_transport (domain_error e) =
    classify_llm_failure
      (transport_opts (if e.code == context_deadline then true else e.code == timeout))
classify_transport (other_error e) = classify_llm_failure (transport_opts false)

abbrev details_of : Fields → Dict String
details_of end = []
details_of (field k v m) = put k (sprint v) (details_of m)

abbrev preview : String → Dict String → Dict String
preview s m =
    if s == ""
    then m
    else put "llm.message_preview" (if ltb 200 (byte_length s) then take_bytes 200 s else s) m

-- The error of raiseClassified
unfoldable pub classified_error : ClientOpts → LlmClassification → Error
unfolding typed to_meta put sprint byte_length take_bytes
classified_error o cls =
    let details = preview cls.message_preview (
      put "llm.base_url_host" o.base_url_host
        (put "llm.model" o.model (put "llm.provider" o.provider (details_of (to_meta cls))))) in
    typed "llm" cls.code "adapters.llm_openai_compatible"
      (with_retryable cls.retryable ∷ with_details details ∷ [])

abbrev ended_failure : Option ContextError → Option Failure
ended_failure none = none
ended_failure (some e) = elim (from_context (some e)) [
  | none ↦ some (other_error e)
  | some de ↦ some (domain_error de)
]

abbrev is_cancellation : Failure → Bool
is_cancellation (domain_error e) = e.code == cancelled
is_cancellation (other_error e) = false

-- The result of a loop on fuel: none where the fuel has run out.
abbrev pub Attempts : Type 0 → Type 0
Attempts S = Option (Reply LlmResponse) × S

module _ {S : Type 0} where
  unfoldable pub after_sleep : Option Failure → (S → Attempts S) → S → Attempts S
  after_sleep none next s = next s
  after_sleep (some err) next s = (some (failed err), s)

  -- Another try where the budget allows it, and the error of the class otherwise.
  unfoldable pub retry_or_raise :
      ClientPorts S
      → ClientOpts
      → LlmClassification
      → ℤ
      → RetryBudget
      → (RetryBudget → S → Attempts S)
      → S
      → Attempts S
  unfolding allow consume after_sleep classified_error
  retry_or_raise c o cls delay b next s =
      let slept = c.sleep delay s in
      if allow b cls.retryable delay
      then after_sleep slept.0 (next (consume delay b)) slept.1
      else (some (failed (domain_error (classified_error o cls))), c.emit_failed cls s)

  unfoldable pub take_body : ClientPorts S → ClientOpts → ℕ → Value → S → Attempts S
  unfolding classify_http classified_error parse_completion_response
  take_body c o attempt (obj m) s =
      let parsed = parse_completion_response m in
      (some (answered parsed), c.emit_finished parsed (c.journal_round true attempt none s))
  take_body c o attempt v s =
      let cls = classify_http (pos 500) v in
      (
        some (failed (domain_error (classified_error o cls))),
        c.emit_failed cls (c.journal_round false attempt (some cls) s),
      )

  unfoldable pub handle_reply :
      ClientPorts S
      → ClientOpts
      → ℕ
      → RetryBudget
      → HttpReply
      → (RetryBudget → S → Attempts S)
      → S
      → Attempts S
  unfolding classify_transport classify_http backoff_ms retry_or_raise take_body decode_llm_body
      parse_retry_after
  handle_reply c o attempt b (broken err) next s =
      let cls = classify_transport err in
      let noted = c.journal_round false attempt (some cls) s in
      let delayed = backoff_ms c o.retry attempt none noted in
      if is_cancellation err
      then (some (failed err), noted)
      else retry_or_raise c o cls delayed.0 b next delayed.1
  handle_reply c o attempt b (response status headers raw) next s =
      let body = decode_llm_body c.decoder headers raw in
      let cls = classify_http status body in
      let noted = c.journal_round false attempt (some cls) s in
      let delayed = backoff_ms c o.retry attempt (parse_retry_after c.decoder headers) noted in
      if status <? pos 400
      then take_body c o attempt body s
      else retry_or_raise c o cls delayed.0 b next delayed.1

  unfoldable pub unless_ended : Option Failure → (S → Attempts S) → S → Attempts S
  unless_ended none next s = next s
  unless_ended (some err) next s = (some (failed err), s)

  -- The loop, which makes at most so many requests as it has fuel.
  unfoldable pub run_attempts : ClientPorts S → ClientOpts → ℕ → ℕ → RetryBudget → S → Attempts S
  unfolding handle_reply unless_ended from_context
  run_attempts c o zero attempt b s = (none, s)
  run_attempts c o (suc fuel) attempt b s =
      let ended = c.ctx_ended s in
      unless_ended (ended_failure ended.0)
        (λ s'.
          let replied = c.request s' in
          handle_reply c o attempt b replied.0 (run_attempts c o fuel (suc attempt)) replied.1)
        ended.1

  unfoldable pub complete : ClientPorts S → ClientOpts → S → Attempts S
  unfolding run_attempts budget_for_call
  complete c o s =
      let b = budget_for_call o in run_attempts c o (suc (pos_part b.max_attempts)) 0 b s
