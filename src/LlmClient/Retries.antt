-- ===== src/LlmClient/Retries.antt =====
-- How often a completion of adapters/llmopenai/client.go asks the server, and that it ends.
use zeus_client_golang.Shared.{
  ℕ, zero, suc, ◌≤◌, Bool, true, false, Option, none, some, ◌≡◌, ◌≢◌, refl, inl, inr, arith,
  Bool-cases, Option-cases, ◌∙◌, ◌+◌,
}
use zeus_client_golang.Shared.Int.{ℤ, pos, ◌<?◌, ◌≤?◌, pos_part, int64_limit, add_int_pos}
use zeus_client_golang.Shared.Json.{Value, str, bool, num, null, obj, arr}
use zeus_client_golang.LlmErrors.{
  LlmClassification, RetryBudget, allow, consume, new_retry_budget, classify_http,
}
use zeus_client_golang.Turn.{Failure}
use zeus_client_golang.LlmClient.Payload.{decode_llm_body, parse_retry_after}
use zeus_client_golang.LlmClient.{
  HttpReply, response, broken, ClientPorts, ClientOpts, Attempts, after_sleep, retry_or_raise,
  take_body, handle_reply, unless_ended, run_attempts, complete, classify_transport,
  is_cancellation, backoff_ms, ended_failure, budget_for_call,
}

-- A budget of which n retries are used and m more are left.
abbrev pub Left : ℕ → RetryBudget → Type 0
Left m b = (n : ℕ) × (b.attempts_used ≡ pos n) × (pos_part b.max_attempts ≤ n + m)

allow_below :
    (b : RetryBudget) (r : Bool) (d : ℤ)
    → allow b r d ≡ true
    → (b.max_attempts ≤? b.attempts_used) ≡ false
unfolding allow
allow_below b true d allowed = elim (Bool-cases (b.max_attempts ≤? b.attempts_used)) [
  | inl spent ↦ absurd (ground (arith, rw spent at allowed))
  | inr below ↦ below
]
allow_below b false d allowed = absurd (ground (arith, allowed))

pub spent_refused : (b : RetryBudget) (r : Bool) (d : ℤ) → Left 0 b → allow b r d ≢ true
spent_refused b r d (n, used, fits) allowed =
    let below = allow_below b r d allowed in
    let below' = rw used at below in ground (arith, below', fits)

-- The maximum of a budget, which `Consume` keeps, is a value of 64 bits.
abbrev pub IsInt64Budget : RetryBudget → Type 0
IsInt64Budget b = suc (pos_part b.max_attempts) ≤ int64_limit

pub consume-Left :
    (m : ℕ) (b : RetryBudget) (r : Bool) (d : ℤ)
    → IsInt64Budget b
    → allow b r d ≡ true
    → Left (suc m) b
    → Left m (consume d b)
unfolding consume
consume-Left m b r d small allowed (n, used, fits) =
    let below = allow_below b r d allowed in
    let below' = rw used at below in
    let counted = add_int_pos n 1 (ground (arith, below', small)) in
    (suc n, rw used (counted ∙ ground arith), omega (arith, fits))

pub consume-IsInt64Budget :
    (b : RetryBudget) (d : ℤ) → IsInt64Budget b → IsInt64Budget (consume d b)
unfolding consume
consume-IsInt64Budget b d small = small

module _ {S : Type 0} where
  abbrev Ends : Attempts S → Type 0
  Ends r = r.0 ≢ none

  take_body-Ends :
      (c : ClientPorts S) (o : ClientOpts) (a : ℕ) (v : Value) (s : S) → Ends (take_body c o a v s)
  unfolding take_body
  take_body-Ends c o a (obj m) s e = ground (arith, e)
  take_body-Ends c o a (str x) s e = ground (arith, e)
  take_body-Ends c o a (bool x) s e = ground (arith, e)
  take_body-Ends c o a (num x) s e = ground (arith, e)
  take_body-Ends c o a null s e = ground (arith, e)
  take_body-Ends c o a (arr xs) s e = ground (arith, e)

  after_sleep-Ends :
      (f : Option Failure) (next : S → Attempts S) (s : S)
      → Ends (next s)
      → Ends (after_sleep f next s)
  unfolding after_sleep
  after_sleep-Ends none next s h e = h e
  after_sleep-Ends (some err) next s h e = ground (arith, e)

  retry_or_raise-Ends :
      (c : ClientPorts S) (o : ClientOpts) (cls : LlmClassification) (d : ℤ) (b : RetryBudget)
      (next : RetryBudget → S → Attempts S) (s : S)
      → (allow b cls.retryable d ≡ true → (s' : S) → Ends (next (consume d b) s'))
      → Ends (retry_or_raise c o cls d b next s)
  unfolding retry_or_raise
  retry_or_raise-Ends c o cls d b next s h = elim (Bool-cases (allow b cls.retryable d)) [
    | inl allowed ↦
        let slept = c.sleep d s in
        rw allowed (after_sleep-Ends slept.0 (next (consume d b)) slept.1 (h allowed slept.1))
    | inr refused ↦ rw refused (λ e. ground (arith, e))
  ]

  handle_reply-Ends :
      (c : ClientPorts S) (o : ClientOpts) (a : ℕ) (b : RetryBudget) (r : HttpReply)
      (next : RetryBudget → S → Attempts S) (s : S)
      → ((q : Bool) (d : ℤ) → allow b q d ≡ true → (s' : S) → Ends (next (consume d b) s'))
      → Ends (handle_reply c o a b r next s)
  unfolding handle_reply
  handle_reply-Ends c o a b (broken err) next s h = elim (Bool-cases (is_cancellation err)) [
    | inl over ↦ rw over (λ e. ground (arith, e))
    | inr on ↦
        let cls = classify_transport err in
        let delayed = backoff_ms c o.retry a none (c.journal_round false a (some cls) s) in
        rw on (retry_or_raise-Ends c o cls delayed.0 b next delayed.1 (h cls.retryable delayed.0))
  ]
  handle_reply-Ends c o a b (response status headers raw) next s h =
      let body = decode_llm_body c.decoder headers raw in
      elim (Bool-cases (status <? pos 400)) [
        | inl good ↦ rw good (take_body-Ends c o a body s)
        | inr bad ↦
            let cls = classify_http status body in
            let delayed =
              backoff_ms c o.retry a (parse_retry_after c.decoder headers)
                (c.journal_round false a (some cls) s) in
            rw bad
              (retry_or_raise-Ends c o cls delayed.0 b next delayed.1 (h cls.retryable delayed.0))
      ]

  unless_ended-Ends :
      (f : Option Failure) (next : S → Attempts S) (s : S)
      → ((s' : S) → Ends (next s'))
      → Ends (unless_ended f next s)
  unfolding unless_ended
  unless_ended-Ends none next s h e = h s e
  unless_ended-Ends (some err) next s h e = ground (arith, e)

  run_attempts-Ends :
      (c : ClientPorts S) (o : ClientOpts) (m a : ℕ) (b : RetryBudget) (s : S)
      → IsInt64Budget b
      → Left m b
      → Ends (run_attempts c o (suc m) a b s)
  unfolding run_attempts
  run_attempts-Ends c o zero a b s small left =
      unless_ended-Ends (ended_failure (c.ctx_ended s).0) _ (c.ctx_ended s).1 (λ s'.
        handle_reply-Ends c o a b (c.request s').0 (run_attempts c o 0 (suc a)) (c.request s').1
          (λ q d allowed s''. absurd (spent_refused b q d left allowed)))
  run_attempts-Ends c o (suc m) a b s small left =
      unless_ended-Ends (ended_failure (c.ctx_ended s).0) _ (c.ctx_ended s).1 (λ s'.
        handle_reply-Ends c o a b (c.request s').0 (run_attempts c o (suc m) (suc a))
          (c.request s').1
          (λ q d allowed s''.
            run_attempts-Ends c o m (suc a) (consume d b) s'' (consume-IsInt64Budget b d small)
              (consume-Left m b q d small allowed left)))

fresh_budget : (o : ClientOpts) → (budget_for_call o).attempts_used ≡ pos 0
unfolding budget_for_call new_retry_budget
fresh_budget o = elim (Option-cases o.budget) [
  | inl none_given ↦ rw none_given refl
  | inr (b, given) ↦ rw given refl
]

pub fresh_budget-Left :
    (o : ClientOpts) → Left (pos_part (budget_for_call o).max_attempts) (budget_for_call o)
fresh_budget-Left o = (0, fresh_budget o, omega arith)

-- If the maximum of the budget is a value of 64 bits, then the loop of a completion, on fuel for
-- one request more than the budget allows retries, never runs out of it: a completion ends with an
-- answer or an error, whatever the server, the transport and the context do.
pub complete_ends :
    {S : Type 0} (c : ClientPorts S) (o : ClientOpts) (s : S)
    → IsInt64Budget (budget_for_call o)
    → (complete c o s).0 ≢ none
unfolding complete
complete_ends c o s small =
    run_attempts-Ends c o (pos_part (budget_for_call o).max_attempts) 0 (budget_for_call o) s small
      (fresh_budget-Left o)
