-- ===== src/Lib.antt =====
-- Verification of the Zeus client for Go (github.com/koten-ai/zeus_client_golang).
--
-- The client talks to Zeus data servers on behalf of language-model agents. Pure rules live in
-- domain/, the orchestration of turns and sessions in application/, adapters to servers, files and
-- runtimes of jobs in adapters/, and the public surface in api/. A turn sets up a durable session,
-- runs the model and the tools, decides by the policy table what the user sees, and commits what the
-- turn produced; a job runs several such units. This library models the rules and state machines
-- that the rest calls.
--
-- Parts and files:
--   Shared      numbers, maps, texts, JSON values, patterns, fmt and strings of Go
--   Errors      domain/codes.go and domain/errors.go: the catalogue of codes and the error value;
--               every other part returns its errors
--   Jobs        domain/jobs.go: budgets, unit maps and their validation, public views of units
--   JobsFake    adapters/jobsfake/runtime.go: the runtime of jobs, cut into the sections that run
--               under its mutex, with the interleavings of Run and other goroutines as a step
--               relation (JobsFake.Steps)
--   Rules       domain/rules.go: the rules against jailbreaks and the merges of rules
--   Policy      domain/policy.go: the decision after a turn, from Layer A (domain/layer_a.go), the
--               hooks and the triggered rules
--   LlmErrors   domain/llm_classify.go: the class of a failed call of a model and the retry budget
--   Contract    domain/contract.go: the hash of a catalog and its stamp
--   Session     domain/session.go, with application/session_lifecycle.go in Session.Client (types and
--               the interface of the HTTP client), Session.Lifecycle (Setup) and Session.Commit
--   Journal     domain/journal/spans.go and the append of domain/journal/journal.go: nested spans;
--               the payloads of domain/journal/payload.go (Journal.Payload)
--   ToolTrail   domain/tool_trail.go: the rows of a turn's calls and their block in the system message
--   LayerA      domain/layer_a.go: the arguments with which a model ends a turn, parsed and validated
--   Turn        application/agent_turn.go: the interface of a turn to the model, Zeus and the hooks of
--               application/middleware.go (Turn), readings of JSON (Turn.Json) and of the answers of
--               pipelines in application/projectors/session_trace.go (Turn.Meta), executeToolCalls
--               (Turn.Tools and Turn.Calls), the rounds of RunAgentTurn (Turn.State, Turn.Endings and
--               Turn.Loop), which use ToolTrail, and what it does after them (Turn.Final), which uses
--               LayerA and Policy
--   LlmClient   adapters/llmopenai/client.go: the retries of a completion, with the classes and the
--               budget of LlmErrors, and the decoding of its answers with adapters/llmopenai/payload.go
--               (LlmClient.Payload)
-- In a part the definitions stand in the file of the part's name (and in those named here), and the
-- files below it hold theorems, with their runs on concrete inputs in Examples. A function of the
-- source has the same name in snake case, and a method takes its receiver as an argument.
--
-- How Go is read:
--   - int is an integer (Shared.Int) that wraps around at 64 bits where the code adds up delays,
--     retries and rounds, shifts a delay or reads a number from digits (int64, add_int); the other
--     numbers are lengths, positions and counts, whose wrap-around is not modelled;
--   - fmt.Sprint writes a number in decimal digits, also a float64 of 1e6 and more, for which Go writes
--     an exponent;
--   - a string is a text of whole characters, so s[:n] leaves out a character that it would split;
--   - a map is an association list, and a loop over a map goes through it in one fixed order;
--   - a map that is nil reads as an empty one, and a pointer that may be nil is an Option;
--   - map[string]any is Fields, and any is Value, with whole numbers only;
--   - the Details of an error are rendered texts;
--   - the regular expressions are lists of alternatives of literal and optional characters, matched
--     by Shared.Pattern with the case folding of (?i).
-- Parameters stand for SHA-256 and MD5 digests (in hexadecimal digits), the comparison of float64
-- scores with one half, the functions that run a unit of a job, the HTTP client of a session, and
-- for a turn the model, Zeus, the clock, new ids, json.Unmarshal, the hooks, which may not panic,
-- the assessment of jailbreaks and the recognition of Layer A and pipelines in plain text, and for
-- a completion the transport, sleeping, the random part of a delay, json.Valid, json.Unmarshal,
-- fmt.Sscanf and the writes to the journal and the log. Where a theorem assumes something of a
-- parameter, the assumption is one of its hypotheses.
--
-- The recursions are structural but for three. Shared.Print.digits has fuel for the digits of a
-- number, and digits_lem shows that a number is enough for its own digits. Turn.Json.empty_within
-- looks into a value on fuel, which is the depth of the value; Turn.Depth shows that this is
-- enough. LlmClient.run_attempts has fuel for one request more than the budget allows retries, and
-- LlmClient.Retries shows that this is enough. The loop of a turn recurs on the rounds that are
-- left.
--
-- Not modelled: input and output, the start and the report of a turn, the units of application/,
-- catalogs, configuration, the redaction of secrets and the other adapters.
pub mod Shared
pub mod Errors
pub mod Jobs
pub mod JobsFake
pub mod Rules
pub mod Policy
pub mod LlmErrors
pub mod Contract
pub mod Session
pub mod Journal
pub mod ToolTrail
pub mod Turn
pub mod LayerA
pub mod LlmClient
