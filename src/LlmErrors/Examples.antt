-- ===== src/LlmErrors/Examples.antt =====
-- The classes of failures and the retry budget at concrete values.
use zeus_client_golang.Shared.{
  true, false, ◌&&◌, not, ◌≡◌, refl, List, [], ◌∷◌, if◌then◌else◌, leb, arith,
}
use zeus_client_golang.Shared.Int.{pos, negsuc, ◌≤ℤ◌, ◌≤?◌, pos_part}
use zeus_client_golang.Shared.Text.{codes, trim_space}
use zeus_client_golang.Shared.Json.{Value, str, null, obj, field, end}
use zeus_client_golang.Shared.Pattern.{search, contains_codes, to_lower}
use zeus_client_golang.LlmErrors.Patterns.{rate_re}
use zeus_client_golang.LlmErrors.{
  ClassifyOpts, new_retry_budget, classify_http, extract_llm_error_fields, error_text, quota_on_429,
  is_status, rate_limit, quota_exhausted, non_empty,
}
use zeus_client_golang.LlmErrors.Budget.{
  retry_all, retries_bounded, retries_run_out, failures_at_once, Failure,
}
use zeus_client_golang.LlmErrors.Classes.{retryable_exact, is_client_error, is_server_error}

abbrev quota_body : Value
quota_body =
    obj (field "error" (obj (field "message" (str "You exceeded your current Quota") end)) end)

quota_is_exhausted : (classify_http (pos 429) quota_body).error_class ≡ quota_exhausted
unfolding classify_http contains_codes to_lower search trim_space non_empty
quota_is_exhausted = refl

throttled : (classify_http (pos 418) (str "too many requests")).error_class ≡ rate_limit
unfolding classify_http search trim_space non_empty
throttled = refl

retryable_exact_example : (classify_http (pos 503) quota_body).retryable ≡ (
    if is_client_error (pos 503)
    then false
    else if is_status (pos 503) 429
    then not (
        quota_on_429
          (extract_llm_error_fields quota_body)
          (error_text (extract_llm_error_fields quota_body)))
    else if is_server_error (pos 503)
    then true
    else search rate_re (codes (error_text (extract_llm_error_fields quota_body)))
      && pos 400 ≤? pos 503)
retryable_exact_example = retryable_exact (pos 503) quota_body

abbrev no_answer : ClassifyOpts
no_answer = record {
  status = pos 0;
  has_status = false;
  body = null;
  transport_error = false;
  timed_out = false;
}

abbrev failures : List Failure
failures = (true, pos 20000) ∷ (false, pos 1) ∷ (true, pos 20000) ∷ (true, negsuc 4) ∷ []

retries_bounded_example :
    ((retry_all (new_retry_budget (pos 2)) failures).attempts_used ≤ℤ pos (pos_part (pos 2)))
    × ((retry_all (new_retry_budget (pos 2)) failures).ms_used ≤ℤ pos 30000)
retries_bounded_example =
    retries_bounded (pos 2) failures (ground arith)
      (ground arith, (ground arith, (ground arith, (ground arith, tt))))

retries_run_out_example :
    (retry_all (new_retry_budget (pos 2)) (failures_at_once 3)).attempts_used
    ≡ pos (if leb 3 2 then 3 else 2)
retries_run_out_example = retries_run_out 2 3 (ground arith)
