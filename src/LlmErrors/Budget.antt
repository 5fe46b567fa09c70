-- ===== src/LlmErrors/Budget.antt =====
-- The retry budget of domain/llm_classify.go over a list of requests.
use zeus_client_golang.Shared.{
  ℕ, Bool, true, false, ◌&&◌, ◌≡◌, refl, List, [], ◌∷◌, if◌then◌else◌, arith, ◌+◌, ◌≤◌, zero, suc,
  leb, Bool-cases, All, inl, inr,
}
use zeus_client_golang.Shared.Int.{
  ℤ, pos, negsuc, ◌≤ℤ◌, clamp_zero, pos_part, int64_limit, add_int, add_int_pos,
}
use zeus_client_golang.LlmErrors.{RetryBudget, new_retry_budget, allow, consume}

-- A failure, and the delay before the next try.
abbrev pub Failure : Type 0
Failure = Bool × ℤ

-- A turn that retries after each failure that the budget allows.
abbrev pub retry : RetryBudget → Failure → RetryBudget
retry b (retryable, delay) = if allow b retryable delay then consume delay b else b

abbrev pub retry_all : RetryBudget → List Failure → RetryBudget
retry_all b [] = b
retry_all b (f ∷ fs) = retry_all (retry b f) fs

-- A budget whose counters are not negative.
abbrev pub budget : ℕ → ℕ → ℕ → ℕ → RetryBudget
budget k e n t = record {
  max_attempts = pos k;
  max_extra_ms = pos e;
  attempts_used = pos n;
  ms_used = pos t;
}

clamp_zero_lem : (d : ℤ) → clamp_zero d ≡ pos (pos_part d)
unfolding clamp_zero
clamp_zero_lem (pos j) = ground arith
clamp_zero_lem (negsuc j) = ground arith

allow-budget :
    (k e n t : ℕ) (d : ℤ)
    → 1 ≤ e
    → suc (t + pos_part d) ≤ int64_limit
    → allow (budget k e n t) true d ≡ (leb (suc n) k && leb (t + pos_part d) e)
unfolding allow
allow-budget k e n t d h fits =
    let waited : add_int (pos t) (clamp_zero d) ≡ pos (t + pos_part d) =
      rw (clamp_zero_lem d) (add_int_pos t (pos_part d) fits) in
    elim (Bool-cases (leb (suc n) k && leb (t + pos_part d) e)) [
      | inl more ↦ ground (arith, waited)
      | inr spent ↦ ground (arith, waited)
    ]

consume-budget :
    (k e n t : ℕ) (d : ℤ)
    → suc (suc n) ≤ int64_limit
    → suc (t + pos_part d) ≤ int64_limit
    → consume d (budget k e n t) ≡ budget k e (suc n) (t + pos_part d)
unfolding consume
consume-budget k e n t (pos j) used waited =
    rw (add_int_pos n 1 (omega arith), add_int_pos t j waited) (ground arith)
consume-budget k e n t (negsuc j) used waited = rw (add_int_pos n 1 (omega arith)) (ground arith)

-- A budget that keeps its limits.
abbrev pub InBudget : ℕ → ℕ → RetryBudget → Type 0
InBudget k e b = (n : ℕ) × (t : ℕ) × (n ≤ k) × (t ≤ e) × (b ≡ budget k e n t)

retry_allowed :
    (k e n t : ℕ) (d : ℤ)
    → 1 ≤ e
    → suc k ≤ int64_limit
    → suc (e + pos_part d) ≤ int64_limit
    → n ≤ k
    → t ≤ e
    → InBudget k e (retry (budget k e n t) (true, d))
retry_allowed k e n t d h small fits u w =
    elim (Bool-cases (leb (suc n) k && leb (t + pos_part d) e)) [
      | inl more ↦
          rw
            (
              allow-budget k e n t d h (omega arith),
              more,
              consume-budget k e n t d (ground arith) (omega arith),
            )
            (suc n, t + pos_part d, ground arith, ground arith, refl)
      | inr spent ↦ rw (allow-budget k e n t d h (omega arith), spent) (n, t, u, w, refl)
    ]

not_retried : (b : RetryBudget) (d : ℤ) → retry b (false, d) ≡ b
unfolding allow
not_retried b d = refl

-- A delay that can be added to a time of at most e milliseconds without a wrap-around.
abbrev pub FitsAfter : ℕ → Failure → Type 0
FitsAfter e f = suc (e + pos_part f.1) ≤ int64_limit

retry-InBudget :
    (k e : ℕ) (b : RetryBudget) (f : Failure)
    → 1 ≤ e
    → suc k ≤ int64_limit
    → FitsAfter e f
    → InBudget k e b
    → InBudget k e (retry b f)
retry-InBudget k e b (true, d) h small fits (n, t, u, w, same) =
    rw same (retry_allowed k e n t d h small fits u w)
retry-InBudget k e b (false, d) h small fits i = rw (not_retried b d) i

retry_all-InBudget :
    (k e : ℕ) (b : RetryBudget) (fs : List Failure)
    → 1 ≤ e
    → suc k ≤ int64_limit
    → All (FitsAfter e) fs
    → InBudget k e b
    → InBudget k e (retry_all b fs)
retry_all-InBudget k e b [] h small fits i = i
retry_all-InBudget k e b (f ∷ fs) h small fits i =
    retry_all-InBudget k e (retry b f) fs h small fits.1 (retry-InBudget k e b f h small fits.0 i)

new_retry_budget_lem : (max : ℤ) → new_retry_budget max ≡ budget (pos_part max) 30000 0 0
unfolding new_retry_budget
new_retry_budget_lem (pos k) = unfold clamp_zero in ground arith
new_retry_budget_lem (negsuc k) = unfold clamp_zero in ground arith

-- If the allowed number of retries is a value of 64 bits and no delay is above the greatest such
-- value less 30000, then a turn with a new budget that retries after each failure that Allow
-- admits, and records each retry by Consume, never makes more retries than the allowed number
-- (none if that is negative), nor waits for more than 30000 milliseconds in all, whatever the
-- failures.
pub retries_bounded :
    (max : ℤ) (fs : List Failure)
    → suc (pos_part max) ≤ int64_limit
    → All (FitsAfter 30000) fs
    → ((retry_all (new_retry_budget max) fs).attempts_used ≤ℤ pos (pos_part max))
      × ((retry_all (new_retry_budget max) fs).ms_used ≤ℤ pos 30000)
retries_bounded max fs small fits =
    let (n, t, u, w, same) =
      retry_all-InBudget (pos_part max) 30000 (budget (pos_part max) 30000 0 0) fs (ground arith)
        small fits (0, 0, ground arith, ground arith, refl) in
    rw (new_retry_budget_lem max, same) (ground arith)

-- Failures that may be retried at once.
abbrev pub failures_at_once : ℕ → List Failure
failures_at_once zero = []
failures_at_once (suc n) = (true, pos 0) ∷ failures_at_once n

retries_run_out_from :
    (k m n : ℕ)
    → m ≤ k
    → suc k ≤ int64_limit
    → (retry_all (budget k 30000 m 0) (failures_at_once n)).attempts_used
      ≡ pos (if leb (m + n) k then m + n else k)
retries_run_out_from k m zero h small = ground arith
retries_run_out_from k m (suc n) h small = ground (
  arith,
  retries_run_out_from k (suc m) n,
  retries_run_out_from k m n h small,
  allow-budget k 30000 m 0 (pos 0),
  consume-budget k 30000 m 0 (pos 0),
)

-- If max is a value of 64 bits, then a new budget of max retries lets a turn make n retries after
-- n retryable failures without delay if n is at most max, and exactly max if n is greater.
pub retries_run_out :
    (max n : ℕ)
    → suc max ≤ int64_limit
    → (retry_all (new_retry_budget (pos max)) (failures_at_once n)).attempts_used
      ≡ pos (if leb n max then n else max)
retries_run_out max n small =
    rw (new_retry_budget_lem (pos max)) (ground (arith, retries_run_out_from max 0 n))
