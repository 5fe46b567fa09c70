-- ===== src/LlmClient/Examples.antt =====
-- A server that is never available.
use zeus_client_golang.Shared.{
  ℕ, zero, suc, ◌+◌, ◌≤◌, Option, none, some, true, false, [], ◌≡◌, ◌≢◌, if◌then◌else◌, refl, arith,
}
use zeus_client_golang.Shared.Int.{pos, pos_part}
use zeus_client_golang.Shared.Json.{end}
use zeus_client_golang.LlmErrors.{new_retry_budget}
use zeus_client_golang.LlmClient.Payload.{parse_completion_response}
use zeus_client_golang.Shared.{true, String, ◌∷◌, some}
use zeus_client_golang.Shared.Json.{Fields, str, obj, arr, field, nil, cons}
use zeus_client_golang.LlmClient.{
  ClientPorts, ClientOpts, response, complete, run_attempts, budget_for_call,
}
use zeus_client_golang.LlmClient.Retries.{complete_ends}
use zeus_client_golang.LlmClient.Requests.{IsRequestCounter, requests_bounded}

-- The state is the number of requests so far.
abbrev ports : ClientPorts ℕ
ports = record {
  ctx_ended = λ s. (none, s);
  request = λ s. (response (pos 503) (("retry-after", "2") ∷ []) "{}", s + 1);
  jitter = λ d s. (d, s);
  sleep = λ d s. (none, s);
  decoder = record {
    valid = λ s. true;
    unmarshal = λ s. some (obj end);
    scan_millis = λ s. some (pos 2000);
  };
  journal_round = λ b a k s. s;
  emit_finished = λ r s. s;
  emit_failed = λ k s. s;
}

abbrev opts : ClientOpts
opts = record {
  provider = "openai";
  model = "m";
  base_url_host = "localhost";
  retry = record {
    max_attempts = pos 2;
    base_delay_ms = pos 100;
    max_delay_ms = pos 1000;
    jitter = false;
  };
  budget = none;
}

abbrev ports_count : IsRequestCounter (λ s. s) ports
ports_count = record {
  checks = λ s. omega arith;
  asks = λ s. omega arith;
  draws = λ d s. omega arith;
  sleeps = λ d s. omega arith;
  notes = λ b a k s. omega arith;
  finishes = λ r s. omega arith;
  fails = λ k s. omega arith;
}

three_requests : (complete ports opts 0).1 ≡ 3
unfolding complete zeus_client_golang.Errors.default_retryable zeus_client_golang.Shared.Maps.lookup
    zeus_client_golang.Errors.by_code zeus_client_golang.Errors.index
    zeus_client_golang.Errors.Codes.code_catalog zeus_client_golang.Shared.Pattern.search
    zeus_client_golang.Shared.Text.trim_space zeus_client_golang.LlmErrors.non_empty
three_requests = refl

complete_ends_example : (complete ports opts 0).0 ≢ none
complete_ends_example = complete_ends ports opts 0 (unfold budget_for_call in ground arith)

requests_bounded_example :
    (run_attempts ports opts 7 0 (budget_for_call opts) 0).1
    ≤ 0 + suc (pos_part (budget_for_call opts).max_attempts)
requests_bounded_example =
    requests_bounded (λ s. s) ports ports_count opts 7 0 (unfold budget_for_call in ground arith)

-- The answer of a server with a text and no calls.
abbrev written : String → Fields
written t =
    field "choices" (arr (cons (obj (field "message" (obj (field "content" (str t) end)) end)) nil))
      end

written_read : (parse_completion_response (written "hello")).content ≡ "hello"
unfolding parse_completion_response
written_read = refl
