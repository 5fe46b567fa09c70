-- ===== src/LlmErrors/Classes.antt =====
-- ClassifyLlmFailure of domain/llm_classify.go: which failures have which class, and which are
-- tried again.
use zeus_client_golang.Errors.Codes.{code_catalog}
use zeus_client_golang.Shared.{
  String, Bool, true, false, ◌&&◌, ◌||◌, not, ◌≡◌, ◌↔◌, refl, arith, if◌then◌else◌, sym, ◌∙◌,
}
use zeus_client_golang.Shared.Int.{ℤ, pos, negsuc, ◌≤?◌}
use zeus_client_golang.Shared.Text.{codes}
use zeus_client_golang.Shared.Json.{Value}
use zeus_client_golang.Shared.Pattern.{search}
use zeus_client_golang.Errors.{default_retryable, by_code, index}
use zeus_client_golang.Shared.Maps.{lookup, put}
use zeus_client_golang.LlmErrors.Patterns.{rate_re}
use zeus_client_golang.LlmErrors.{
  LlmErrorClass, rate_limit, quota_exhausted, auth, context_length, content_filter,
  provider_overload, provider_unavailable, timeout, invalid_request, tool_schema, unknown,
  ClassifyOpts, ErrorFields, extract_llm_error_fields, error_text, error_code_for_class,
  quota_on_429, is_status, class_401_403, class_5xx, class_400_422, class_of_status, choose_class,
  fin, classify_llm_failure, classify_http,
}

-- The classes that pass by themselves.
abbrev pub is_transient : LlmErrorClass → Bool
is_transient rate_limit = true
is_transient provider_overload = true
is_transient provider_unavailable = true
is_transient timeout = true
is_transient _ = false

retryable_of_class :
    (c : LlmErrorClass) → default_retryable (error_code_for_class c) ≡ is_transient c
unfolding error_code_for_class default_retryable by_code lookup index code_catalog put
retryable_of_class rate_limit = refl
retryable_of_class quota_exhausted = refl
retryable_of_class auth = refl
retryable_of_class context_length = refl
retryable_of_class content_filter = refl
retryable_of_class provider_overload = refl
retryable_of_class provider_unavailable = refl
retryable_of_class timeout = refl
retryable_of_class invalid_request = refl
retryable_of_class tool_schema = refl
retryable_of_class unknown = refl

class_401_403_lem : (t : String) → is_transient (class_401_403 t) ≡ false
unfolding class_401_403
class_401_403_lem t = ground arith

class_400_422_lem : (f : ErrorFields) (t : String) → is_transient (class_400_422 f t) ≡ false
unfolding class_400_422
class_400_422_lem f t = ground arith

class_5xx_lem : (st : ℤ) (t : String) → is_transient (class_5xx st t) ≡ true
unfolding class_5xx
class_5xx_lem st t = ground arith

abbrev pub is_server_error : ℤ → Bool
is_server_error st =
    is_status st 529 || is_status st 500 || is_status st 502 || is_status st 503 || is_status st 504

-- The client errors that have a class of their own, 429 apart.
abbrev pub is_client_error : ℤ → Bool
is_client_error st =
    is_status st 400 || is_status st 401 || is_status st 402 || is_status st 403 || is_status st 422

class_of_status-transient :
    (st : ℤ) (f : ErrorFields) (t : String)
    → is_transient (class_of_status st f t) ≡ (
        if is_client_error st
        then false
        else if is_status st 429
        then not (quota_on_429 f t)
        else if is_server_error st
        then true
        else search rate_re (codes t) && pos 400 ≤? st)
unfolding class_of_status
class_of_status-transient (pos n) f t =
    ground (arith, class_401_403_lem t, class_400_422_lem f t, class_5xx_lem (pos n) t)
class_of_status-transient (negsuc n) f t = ground arith

-- A failure with an HTTP status is retryable exactly so: never for 400, 401, 402, 403 and 422, for
-- 429 unless the body tells of an exhausted quota, always for 500, 502, 503, 504 and 529, and for
-- any other status if it is at least 400 and the text matches the pattern of rate limits.
pub retryable_exact :
    (st : ℤ) (body : Value)
    → (classify_http st body).retryable ≡ (
        if is_client_error st
        then false
        else if is_status st 429
        then not (
            quota_on_429
              (extract_llm_error_fields body)
              (error_text (extract_llm_error_fields body)))
        else if is_server_error st
        then true
        else search rate_re (codes (error_text (extract_llm_error_fields body))) && pos 400 ≤? st)
unfolding classify_http classify_llm_failure choose_class class_of_status fin
retryable_exact st body =
    retryable_of_class _
    ∙ class_of_status-transient st (extract_llm_error_fields body)
        (error_text (extract_llm_error_fields body))

-- A failure by timeout, by the transport or without a status is retryable, and its class is
-- timeout if it timed out and provider_unavailable otherwise, whatever its body and status.
pub transport_failure_retryable :
    (opts : ClassifyOpts)
    → (opts.timed_out || opts.transport_error || not opts.has_status) ≡ true
    → ((classify_llm_failure opts).retryable ≡ true)
      × ((classify_llm_failure opts).error_class
          ≡ (if opts.timed_out then timeout else provider_unavailable))
unfolding classify_llm_failure choose_class fin
transport_failure_retryable opts h =
    ground (arith, h, retryable_of_class (choose_class opts (extract_llm_error_fields opts.body)))

abbrev is_rate_limit : LlmErrorClass → Bool
is_rate_limit rate_limit = true
is_rate_limit _ = false

is_rate_limit_lem : (c : LlmErrorClass) → (c ≡ rate_limit) ↔ (is_rate_limit c ≡ true)
is_rate_limit_lem rate_limit = ((λ h. refl), (λ h. refl))
is_rate_limit_lem quota_exhausted = ground arith
is_rate_limit_lem auth = ground arith
is_rate_limit_lem context_length = ground arith
is_rate_limit_lem content_filter = ground arith
is_rate_limit_lem provider_overload = ground arith
is_rate_limit_lem provider_unavailable = ground arith
is_rate_limit_lem timeout = ground arith
is_rate_limit_lem invalid_request = ground arith
is_rate_limit_lem tool_schema = ground arith
is_rate_limit_lem unknown = ground arith

not_rate_limit :
    (st : ℤ) (f : ErrorFields) (t : String)
    → (is_rate_limit (class_401_403 t) ≡ false)
      × (is_rate_limit (class_400_422 f t) ≡ false)
      × (is_rate_limit (class_5xx st t) ≡ false)
unfolding class_401_403 class_400_422 class_5xx
not_rate_limit st f t = (ground arith, ground arith, ground arith)

class_of_status-rate_limit :
    (st : ℤ) (f : ErrorFields) (t : String)
    → is_rate_limit (class_of_status st f t) ≡ (
        if is_status st 429
        then not (quota_on_429 f t)
        else (not (is_client_error st || is_server_error st) && search rate_re (codes t))
          && pos 400 ≤? st)
unfolding class_of_status
class_of_status-rate_limit (pos n) f t = ground (arith, not_rate_limit (pos n) f t)
class_of_status-rate_limit (negsuc n) f t = ground arith

-- A failure with an HTTP status has the class rate_limit if and only if the status is 429 and
-- nothing tells of an exhausted quota, or the status is at least 400, is none of the statuses with
-- a class of their own, and the text matches the pattern of rate limits; so an exhausted quota on
-- a 429 is never taken for a rate limit.
pub rate_limit_exact :
    (st : ℤ) (body : Value)
    → ((classify_http st body).error_class ≡ rate_limit) ↔ (
        (if is_status st 429
          then not (
              quota_on_429
                (extract_llm_error_fields body)
                (error_text (extract_llm_error_fields body)))
          else (not (is_client_error st || is_server_error st)
              && search rate_re (codes (error_text (extract_llm_error_fields body))))
            && pos 400 ≤? st)
        ≡ true)
unfolding classify_http classify_llm_failure choose_class fin
rate_limit_exact st body =
    let f = extract_llm_error_fields body in
    let same = class_of_status-rate_limit st f (error_text f) in
    let iff = is_rate_limit_lem (class_of_status st f (error_text f)) in
    ((λ h. sym same ∙ iff.0 h), (λ h. iff.1 (same ∙ h)))
