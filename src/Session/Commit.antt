-- ===== src/Session/Commit.antt =====
-- application/session_lifecycle.go: Commit sends what a turn produced to its session.
use zeus_client_golang.Shared.{
  String, Bool, true, false, ◌||◌, not, Option, none, some, if◌then◌else◌, ◌==◌,
}
use zeus_client_golang.Shared.Int.{ℤ, pos, add_int}
use zeus_client_golang.Shared.Json.{Items}
use zeus_client_golang.Errors.{ContextError}
use zeus_client_golang.Errors.Codes
use zeus_client_golang.Session.{SessionHandle, no_updates, with_updates}
use zeus_client_golang.Session.Client.{
  client_error, Outcome, DataTarget, SessionHttpResult, SessionContinueRequest, SessionClient,
  CommitOptions, CommitResult, World, returns, session_hop_headers, refusal, refusal_text,
  not_wired, context_failure, without_user, is_nil,
}
use zeus_client_golang.Session.Lifecycle.{emit, mode_or_default}

abbrev pub commit_result : Bool → SessionHandle → String → String → ℤ → CommitResult
commit_result b h req_id e st = record {
  is_ok = b;
  handle = h;
  turn_req_id = req_id;
  error = e;
  status = st;
}

-- The round that a turn has, and what it sends.
unfoldable pub turn_round : SessionHandle → ℤ
unfolding add_int
turn_round h = if h.created then add_int h.round (pos 1) else h.round

unfoldable pub turn_turns : SessionHandle → CommitOptions → Items
unfolding without_user
turn_turns h opts = if h.created then without_user opts.produced_delta else opts.produced_delta

unfoldable pub continue_request :
    DataTarget → SessionHandle → CommitOptions → SessionContinueRequest
unfolding session_hop_headers turn_round turn_turns
continue_request target h opts = record {
  session_id = h.session_id;
  client_round = turn_round h;
  chat_request = opts.chat_request;
  new_turns = turn_turns h opts;
  headers =
      session_hop_headers h.chat_id opts.turn_id opts.force_trace opts.headers h.session_id
        opts.brief_sha12 opts.mini_sha12;
  mode = mode_or_default opts.mode;
  target = target;
  rewind = opts.rewind;
}

module _ {S : Type 0} where
  unfoldable pub committed_from :
      SessionHandle → Outcome SessionHttpResult → World S → Outcome CommitResult × World S
  unfolding emit refusal with_updates turn_round
  committed_from h answer w = elim answer.failure [
    | some e ↦ (
      returns (commit_result false h answer.value.req_id "" answer.value.status_code) (some e),
      w,
    )
    | none ↦
        if answer.value.is_ok
        then (
          returns
              (commit_result true
                (with_updates h (record no_updates {
                  round = some (turn_round h);
                  created = some false;
                  rehydrated = some false;
                  error = some "";
                }))
                answer.value.req_id "" answer.value.status_code)
              none,
          emit "info" "zeus_client.session.committed" w,
        )
        else (
          returns
              (commit_result false
                (with_updates h (record no_updates { error = some (refusal_text answer.value) }))
                answer.value.req_id (refusal_text answer.value) answer.value.status_code)
              (some (
                client_error (
                  refusal Codes.session_continue_failed answer.value (refusal_text answer.value)))),
          emit "error" "zeus_client.session.failed" w,
        )
  ]

  unfoldable pub commit_turn :
      SessionClient S
      → DataTarget
      → SessionHandle
      → CommitOptions
      → World S
      → Outcome CommitResult × World S
  unfolding committed_from continue_request turn_turns
  commit_turn client target h opts w =
      if is_nil (turn_turns h opts)
      then (
        returns
            (commit_result true
              (with_updates h
                (record no_updates { round = some (turn_round h); created = some false }))
              "" "" (pos 0))
            none,
        w,
      )
      else (let (answer, s) =
            client.continue_turn (continue_request target h opts) w.client_state in
          committed_from h answer (record w { client_state = s }))

  -- Commit; `none` for the client is a lifecycle that has none.
  unfoldable pub commit :
      Option (SessionClient S)
      → DataTarget
      → Option ContextError
      → SessionHandle
      → CommitOptions
      → World S
      → Outcome CommitResult × World S
  unfolding commit_turn
  commit client target (some ended) h opts w =
      (returns (commit_result false h "" "" (pos 0)) (some (context_failure ended)), w)
  commit client target none h opts w =
      if not h.enabled || h.session_id == ""
      then (returns (commit_result true h "" "" (pos 0)) none, w)
      else elim client [
        | none ↦ (
          returns (commit_result false h "" "" (pos 0))
              (some (client_error (not_wired Codes.session_commit_failed))),
          w,
        )
        | some c ↦ commit_turn c target h opts w
      ]
