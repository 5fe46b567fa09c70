-- ===== src/LlmErrors/Patterns.antt =====
-- The regular expressions of domain/llm_classify.go, all with the flag (?i).
use zeus_client_golang.Shared.{List, [], ◌∷◌, ◌++◌}
use zeus_client_golang.Shared.Pattern.{Piece, literal, separator, any_one, plural}

abbrev pub quota_re : List (List Piece)
quota_re =
    (literal "insufficient" ++ separator ++ literal "quota")
    ∷ (literal "quota" ++ separator ++ literal "exceeded")
    ∷ (literal "billing")
    ∷ (literal "credit")
    ∷ (literal "spend" ++ any_one ++ literal "limit")
    ∷ (literal "payment")
    ∷ (literal "out of credits")
    ∷ (literal "exceeded your current quota")
    ∷ []

abbrev pub rate_re : List (List Piece)
rate_re =
    (literal "rate" ++ separator ++ literal "limit")
    ∷ (literal "too many requests")
    ∷ (literal "tokens per minute")
    ∷ (literal "requests per minute")
    ∷ (literal "rpm")
    ∷ (literal "tpm")
    ∷ []

abbrev pub ctx_re : List (List Piece)
ctx_re =
    (literal "context" ++ separator ++ literal "length")
    ∷ (literal "maximum context")
    ∷ (literal "max" ++ separator ++ literal "tokens")
    ∷ (literal "token" ++ any_one ++ literal "limit")
    ∷ (literal "too many tokens")
    ∷ (literal "prompt is too long")
    ∷ (literal "context window")
    ∷ (literal "max_model_len")
    ∷ (literal "input is too long")
    ∷ []

abbrev pub filt_re : List (List Piece)
filt_re =
    (literal "content" ++ separator ++ literal "filter")
    ∷ (literal "content" ++ separator ++ literal "policy")
    ∷ (literal "safety")
    ∷ (literal "moderation")
    ∷ (literal "blocked by")
    ∷ []

abbrev pub tool_re : List (List Piece)
tool_re =
    (literal "tool" ++ separator ++ literal "choice")
    ∷ (literal "tool" ++ plural ++ literal " were")
    ∷ (literal "function" ++ separator ++ literal "call")
    ∷ (literal "tool" ++ separator ++ literal "schema")
    ∷ (literal "invalid tools")
    ∷ (literal "function" ++ plural)
    ∷ []

abbrev pub over_re : List (List Piece)
over_re =
    (literal "overload")
    ∷ (literal "capacity")
    ∷ (literal "overloaded")
    ∷ (literal "try again later")
    ∷ []

abbrev pub bill_re : List (List Piece)
bill_re =
    (literal "billing") ∷ (literal "payment") ∷ (literal "credit") ∷ (literal "subscription") ∷ []
