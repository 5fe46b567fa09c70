-- ===== src/Turn/Meter.antt =====
-- Counters of the calls that RunAgentTurn in application/agent_turn.go makes of its ports.
use zeus_client_golang.Shared.{ℕ, ◌+◌, ◌≤◌, String, arith}
use zeus_client_golang.Shared.Int.{ℤ}
use zeus_client_golang.Shared.Json.{Fields}
use zeus_client_golang.Turn.{
  Messages, LlmRequest, LlmResponse, VerbRequest, Ports, MiddlewareContext,
}

module _ {S : Type 0} (llm zeus : S → ℕ) where
  -- From one state to a later one there are at most so many calls of the model and of Zeus.
  abbrev pub Within : ℕ → ℕ → S → S → Type 0
  Within a b s t = (llm t ≤ llm s + a) × (zeus t ≤ zeus s + b)

  -- The counters count: only a call of the model raises the first, and only a call of Zeus the
  -- second, and by no more than one.
  pub record IsMetered {F : Type 0} (p : Ports S F) : Type 0 where
    pub asks : (r : LlmRequest) (s : S) → Within 1 0 s (p.complete r s).1
    pub calls : (r : VerbRequest) (s : S) → Within 0 1 s (p.call_verb r s).1
    pub checks : (s : S) → Within 0 0 s (p.ctx_ended s).1
    pub names : (s : S) → Within 0 0 s (p.new_zeus_req_id s).1
    pub times : (s : S) → Within 0 0 s (p.now_ms s).1
    pub before_asks :
        (c : MiddlewareContext F) (ms : Messages) (s : S) → Within 0 0 s (p.before_llm c ms s).2
    pub after_asks :
        (c : MiddlewareContext F) (r : LlmResponse) (s : S) → Within 0 0 s (p.after_llm c r s).2
    pub before_calls :
        (c : MiddlewareContext F) (n : String) (m : Fields) (s : S)
        → Within 0 0 s (p.before_zeus c n m s).2
    pub after_calls :
        (c : MiddlewareContext F) (n : String) (k : ℤ) (m : Fields) (s : S)
        → Within 0 0 s (p.after_zeus c n k m s).2

  pub same : (s : S) → Within 0 0 s s
  same s = (omega arith, omega arith)

  pub chain :
      (a b c d : ℕ) (r s t : S) → Within a b r s → Within c d s t → Within (a + c) (b + d) r t
  chain a b c d r s t first later =
      (omega (arith, first.0, later.0), omega (arith, first.1, later.1))

  pub wider : (a b c d : ℕ) (s t : S) → a ≤ c → b ≤ d → Within a b s t → Within c d s t
  wider a b c d s t h k w = (omega (arith, w.0, h), omega (arith, w.1, k))

  pub chain_to :
      (a b c d k l : ℕ) (r s t : S)
      → a + c ≤ k
      → b + d ≤ l
      → Within a b r s
      → Within c d s t
      → Within k l r t
  chain_to a b c d k l r s t h j first later =
      wider (a + c) (b + d) k l r t h j (chain a b c d r s t first later)
