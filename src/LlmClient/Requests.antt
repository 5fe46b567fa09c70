-- ===== src/LlmClient/Requests.antt =====
-- How many requests a completion of adapters/llmopenai/client.go makes.
use zeus_client_golang.Shared.{
  ◌≡◌, ℕ, zero, suc, ◌+◌, ◌≤◌, Bool, true, false, ◌&&◌, Option, none, some, inl, inr, arith,
  Bool-cases,
}
use zeus_client_golang.Shared.Int.{ℤ, pos, ◌<?◌, pos_part}
use zeus_client_golang.Shared.Json.{Value, str, bool, num, null, obj, arr}
use zeus_client_golang.LlmErrors.{LlmClassification, RetryBudget, allow, consume, classify_http}
use zeus_client_golang.Turn.{Failure, LlmResponse}
use zeus_client_golang.LlmClient.Payload.{decode_llm_body, parse_retry_after}
use zeus_client_golang.LlmClient.{
  HttpReply, response, broken, ClientPorts, ClientOpts, RetryPolicy, Attempts, after_sleep,
  retry_or_raise, take_body, handle_reply, unless_ended, run_attempts, classify_transport,
  is_cancellation, backoff_ms, base_delay, ended_failure, budget_for_call,
}
use zeus_client_golang.LlmClient.Retries.{
  Left, spent_refused, IsInt64Budget, consume-Left, consume-IsInt64Budget, fresh_budget-Left,
}

module _ {S : Type 0} (count : S → ℕ) where
  -- The counter counts: only a request raises it, by no more than one.
  pub record IsRequestCounter (c : ClientPorts S) : Type 0 where
    pub checks : (s : S) → count (c.ctx_ended s).1 ≤ count s
    pub asks : (s : S) → count (c.request s).1 ≤ count s + 1
    pub draws : (d : ℤ) (s : S) → count (c.jitter d s).1 ≤ count s
    pub sleeps : (d : ℤ) (s : S) → count (c.sleep d s).1 ≤ count s
    pub notes :
        (b : Bool) (a : ℕ) (k : Option LlmClassification) (s : S)
        → count (c.journal_round b a k s) ≤ count s
    pub finishes : (r : LlmResponse) (s : S) → count (c.emit_finished r s) ≤ count s
    pub fails : (k : LlmClassification) (s : S) → count (c.emit_failed k s) ≤ count s

  module _ (c : ClientPorts S) (counts : IsRequestCounter c) where
    -- The bound that holds of each retry that the budget allows.
    abbrev Bounds : ℕ → RetryBudget → (RetryBudget → S → Attempts S) → Type 0
    Bounds n b next =
        (q : Bool) (d : ℤ) (s : S)
        → allow b q d ≡ true
        → count (next (consume d b) s).1 ≤ count s + n

    backoff_bound :
        (p : RetryPolicy) (a : ℕ) (r : Option ℤ) (s : S) → count (backoff_ms c p a r s).1 ≤ count s
    unfolding backoff_ms
    backoff_bound p a r s = elim (Bool-cases (p.jitter && pos 0 <? base_delay p a r)) [
      | inl drawn ↦ rw drawn (counts.draws (base_delay p a r) s)
      | inr fixed ↦ rw fixed (omega arith)
    ]

    body_bound :
        (o : ClientOpts) (a : ℕ) (v : Value) (s : S) → count (take_body c o a v s).1 ≤ count s
    unfolding take_body
    body_bound o a (obj x) s = omega (arith, counts.notes true a none s, counts.finishes _ _)
    body_bound o a (str x) s = omega (arith, counts.notes false a _ s, counts.fails _ _)
    body_bound o a (bool x) s = omega (arith, counts.notes false a _ s, counts.fails _ _)
    body_bound o a (num x) s = omega (arith, counts.notes false a _ s, counts.fails _ _)
    body_bound o a null s = omega (arith, counts.notes false a _ s, counts.fails _ _)
    body_bound o a (arr x) s = omega (arith, counts.notes false a _ s, counts.fails _ _)

    sleep_bound :
        (n : ℕ) (f : Option Failure) (next : S → Attempts S) (s : S)
        → count (next s).1 ≤ count s + n
        → count (after_sleep f next s).1 ≤ count s + n
    unfolding after_sleep
    sleep_bound n none next s h = h
    sleep_bound n (some err) next s h = omega arith

    retry_bound :
        (n : ℕ) (o : ClientOpts) (cls : LlmClassification) (d : ℤ) (b : RetryBudget)
        (next : RetryBudget → S → Attempts S) (s : S)
        → Bounds n b next
        → count (retry_or_raise c o cls d b next s).1 ≤ count s + n
    unfolding retry_or_raise
    retry_bound n o cls d b next s h = elim (Bool-cases (allow b cls.retryable d)) [
      | inl allowed ↦
          let slept = c.sleep d s in
          let later =
            sleep_bound n slept.0 (next (consume d b)) slept.1
              (h cls.retryable d slept.1 allowed) in
          rw allowed (omega (arith, later, counts.sleeps d s))
      | inr refused ↦ rw refused (omega (arith, counts.fails cls s))
    ]

    reply_bound :
        (n : ℕ) (o : ClientOpts) (a : ℕ) (b : RetryBudget) (r : HttpReply)
        (next : RetryBudget → S → Attempts S) (s : S)
        → Bounds n b next
        → count (handle_reply c o a b r next s).1 ≤ count s + n
    unfolding handle_reply
    reply_bound n o a b (broken err) next s h =
        let cls = classify_transport err in
        let noted = c.journal_round false a (some cls) s in
        let delayed = backoff_ms c o.retry a none noted in
        let note = counts.notes false a (some cls) s in
        elim (Bool-cases (is_cancellation err)) [
          | inl over ↦ rw over (omega (arith, note))
          | inr on ↦ rw on (
              omega (
                arith,
                note,
                backoff_bound o.retry a none noted,
                retry_bound n o cls delayed.0 b next delayed.1 h,
              ))
        ]
    reply_bound n o a b (response status headers raw) next s h =
        let body = decode_llm_body c.decoder headers raw in
        let after = parse_retry_after c.decoder headers in
        let cls = classify_http status body in
        let noted = c.journal_round false a (some cls) s in
        let delayed = backoff_ms c o.retry a after noted in
        elim (Bool-cases (status <? pos 400)) [
          | inl good ↦ rw good (omega (arith, body_bound o a body s))
          | inr bad ↦ rw bad (
              omega (
                arith,
                counts.notes false a (some cls) s,
                backoff_bound o.retry a after noted,
                retry_bound n o cls delayed.0 b next delayed.1 h,
              ))
        ]

    ended_bound :
        (n : ℕ) (f : Option Failure) (next : S → Attempts S) (s : S)
        → ((s' : S) → count (next s').1 ≤ count s' + n)
        → count (unless_ended f next s).1 ≤ count s + n
    unfolding unless_ended
    ended_bound n none next s h = h s
    ended_bound n (some err) next s h = omega arith

    round_bound :
        (o : ClientOpts) (n m a : ℕ) (b : RetryBudget) (s : S)
        → Bounds m b (run_attempts c o n (suc a))
        → count (run_attempts c o (suc n) a b s).1 ≤ count s + suc m
    unfolding run_attempts
    round_bound o n m a b s retries =
        let ended = c.ctx_ended s in
        omega (
          arith,
          counts.checks s,
          ended_bound (suc m) (ended_failure ended.0)
              (λ s'.
                handle_reply c o a b (c.request s').0 (run_attempts c o n (suc a)) (c.request s').1)
              ended.1
              (λ s'. omega (
                arith,
                counts.asks s',
                reply_bound m o a b (c.request s').0 (run_attempts c o n (suc a)) (c.request s').1
                    retries,
              )),
        )

    -- A retry needs the permission of the budget, so the bound does not depend on the fuel.
    attempts_bound :
        (o : ClientOpts) (n m a : ℕ) (b : RetryBudget) (s : S)
        → IsInt64Budget b
        → Left m b
        → count (run_attempts c o n a b s).1 ≤ count s + suc m
    attempts_bound o zero m a b s small left = unfold run_attempts in omega arith
    attempts_bound o (suc n) zero a b s small left =
        round_bound o n zero a b s (λ q d s' allowed. absurd (spent_refused b q d left allowed))
    attempts_bound o (suc n) (suc m) a b s small left =
        round_bound o n (suc m) a b s (λ q d s' allowed.
          attempts_bound o n m (suc a) (consume d b) s' (consume-IsInt64Budget b d small)
            (consume-Left m b q d small allowed left))

    -- If a counter counts the requests, one each and nothing else, and the maximum of the budget
    -- is a value of 64 bits, then the loop of a completion makes at most one request more than its
    -- budget allows retries, on any fuel, whatever the server, the transport and the context do.
    pub requests_bounded :
        (o : ClientOpts) (fuel : ℕ) (s : S)
        → IsInt64Budget (budget_for_call o)
        → count (run_attempts c o fuel 0 (budget_for_call o) s).1
          ≤ count s + suc (pos_part (budget_for_call o).max_attempts)
    requests_bounded o fuel s small =
        attempts_bound o fuel (pos_part (budget_for_call o).max_attempts) 0 (budget_for_call o) s
          small (fresh_budget-Left o)
