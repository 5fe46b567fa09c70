-- ===== src/Session/Lifecycle.antt =====
-- application/session_lifecycle.go: Setup creates or rehydrates a session, Commit sends a turn.
use zeus_client_golang.Shared.{
  String, Bool, true, false, ◌&&◌, not, [], ◌∷◌, ◌++◌, Option, none, some, if◌then◌else◌, ◌==◌,
}
use zeus_client_golang.Shared.Int.{pos, ◌≤?◌, ◌<?◌, add_int}
use zeus_client_golang.Shared.Maps.{Dict}
use zeus_client_golang.Shared.Text.{trim_space, concat}
use zeus_client_golang.Shared.Json.{Value, Fields, str, obj, end, field, nil, cons, get, as_string}
use zeus_client_golang.Errors.{ContextError}
use zeus_client_golang.Errors.Codes
use zeus_client_golang.Contract.{
  extract_stamped_hash, compute_contract_hash, resolve_session_contract_hash,
}
use zeus_client_golang.Session.{
  SessionHandle, normalize_contract_status, contract_status_from_rehydrate,
}
use zeus_client_golang.Session.Client.{
  client_error, Outcome, DataTarget, SessionHttpResult, SessionCreateRequest, SessionClient,
  SetupOptions, World, empty_handle, returns, session_hop_headers, is_empty_map, json_int,
  first_non_empty, refusal, refusal_text, not_wired, context_failure,
}

module _ {S : Type 0} where
  unfoldable pub emit : String → String → World S → World S
  emit level msg w = record w { logs = w.logs ++ concat (level ∷ " " ∷ msg ∷ []) ∷ [] }

module _ {S : Type 0} (client : SessionClient S) (target : DataTarget) where
  unfoldable pub create_request :
      Fields → String → String → String → String → Dict String → Bool → SessionCreateRequest
  create_request chat_req user_message contract_id contract_hash mode headers rewind = record {
    contract_id = contract_id;
    contract_hash = contract_hash;
    chat_request = chat_req;
    conversation =
        (if not (user_message == "")
          then cons (obj (field "role" (str "user") (field "content" (str user_message) end))) nil
          else nil);
    headers = headers;
    mode = mode;
    target = target;
    rewind = rewind;
  }

  -- What `create` makes of the answer of the server.
  unfoldable pub created_from :
      SessionCreateRequest
      → String
      → String
      → SessionHttpResult
      → World S
      → Outcome SessionHandle × World S
  unfolding emit refusal json_int
  created_from req chat_id recovered_from result w =
      if result.is_ok
      then (let round = json_int (get "round" result.body) (pos 1) in
          (
            returns
                (record {
                  session_id = trim_space (as_string (get "session_id" result.body));
                  round = (if round ≤? pos 0 then pos 1 else round);
                  chat_id = chat_id;
                  contract_id = req.contract_id;
                  contract_hash = req.contract_hash;
                  contract_status =
                      normalize_contract_status (as_string (get "contract_status" result.body));
                  mode = req.mode;
                  created = true;
                  rehydrated = false;
                  recovered_from = recovered_from;
                  enabled = true;
                  create_req_id = result.req_id;
                  error = "";
                })
                none,
            emit "info" "zeus_client.session.created" w,
          ))
      else (
        returns
            (record {
              session_id = "";
              round = pos 1;
              chat_id = chat_id;
              contract_id = req.contract_id;
              contract_hash = req.contract_hash;
              contract_status = "none";
              mode = req.mode;
              created = false;
              rehydrated = false;
              recovered_from = recovered_from;
              enabled = true;
              create_req_id = result.req_id;
              error = refusal_text result;
            })
            (some
              (client_error (refusal Codes.session_create_failed result (refusal_text result)))),
        emit "error" "zeus_client.session.failed" w,
      )

  unfoldable pub answer_create :
      SessionCreateRequest
      → String
      → String
      → Outcome SessionHttpResult
      → World S
      → Outcome SessionHandle × World S
  unfolding created_from
  answer_create req chat_id recovered_from answer w = elim answer.failure [
    | some e ↦ (returns empty_handle (some e), w)
    | none ↦ created_from req chat_id recovered_from answer.value w
  ]

  unfoldable pub create :
      SessionCreateRequest → String → String → World S → Outcome SessionHandle × World S
  unfolding answer_create
  create req chat_id recovered_from w =
      let (answer, s) = client.create_session req w.client_state in
      answer_create req chat_id recovered_from answer (record w { client_state = s })

  -- The handle of a session that the server still has.
  unfoldable pub rehydrated_from :
      SetupOptions
      → SessionHandle
      → String
      → String
      → Fields
      → World S
      → Outcome SessionHandle × World S
  unfolding emit json_int add_int
  rehydrated_from opts prior session_hash mode reh w =
      let round = json_int (get "round" reh) prior.round in
      (
        returns
            (record {
              session_id = trim_space prior.session_id;
              round = (if pos 0 <? round then add_int round (pos 1) else pos 1);
              chat_id = first_non_empty opts.chat_id prior.chat_id;
              contract_id = trim_space opts.contract_id;
              contract_hash = session_hash;
              contract_status =
                  contract_status_from_rehydrate (trim_space opts.contract_id) session_hash reh;
              mode = mode;
              created = false;
              rehydrated = true;
              recovered_from = "";
              enabled = true;
              create_req_id = "";
              error = "";
            })
            none,
        emit "info" "zeus_client.session.rehydrated" w,
      )

  -- A session that is gone is created anew in the same turn.
  unfoldable pub answer_rehydrate :
      SetupOptions
      → SessionHandle
      → String
      → String
      → SessionCreateRequest
      → Outcome (Option Fields)
      → World S
      → Outcome SessionHandle × World S
  unfolding rehydrated_from create
  answer_rehydrate opts prior session_hash mode req answer w = elim answer.failure [
    | some e ↦ (returns empty_handle (some e), w)
    | none ↦ elim answer.value [
      | some reh ↦ rehydrated_from opts prior session_hash mode reh w
      | none ↦
          create req (first_non_empty opts.chat_id prior.chat_id) (trim_space prior.session_id) w
    ]
  ]

  unfoldable pub rehydrate_prior :
      SetupOptions
      → SessionHandle
      → String
      → String
      → SessionCreateRequest
      → World S
      → Outcome SessionHandle × World S
  unfolding answer_rehydrate
  rehydrate_prior opts prior session_hash mode req w =
      let (answer, s) =
        client.rehydrate (trim_space prior.session_id) 6 mode req.headers target w.client_state in
      answer_rehydrate opts prior session_hash mode req answer (record w { client_state = s })

abbrev pub mode_or_default : String → String
mode_or_default mode = if mode == "" then "analytics" else mode

-- sessionHashFor; `marshal_md5` is as for the contract's hash.
unfoldable pub session_hash_for : (Value → Option String) → Fields → String → String
session_hash_for marshal_md5 chat_req bound =
    (resolve_session_contract_hash bound (extract_stamped_hash chat_req) (
      if is_empty_map chat_req then "" else compute_contract_hash marshal_md5 (some chat_req))).hash

-- The handle while durable sessions are off.
unfoldable pub disabled_handle : SetupOptions → String → String → SessionHandle
disabled_handle opts session_hash mode = record empty_handle {
  round = pos 1;
  chat_id = opts.chat_id;
  contract_id = trim_space opts.contract_id;
  contract_hash = session_hash;
  contract_status = (if not (trim_space opts.contract_id == "") then "match" else "none");
  mode = mode;
}

abbrev pub prior_or_empty : Option SessionHandle → SessionHandle
prior_or_empty none = empty_handle
prior_or_empty (some h) = h

abbrev pub switches_mode : SessionHandle → String → Bool
switches_mode prior mode =
    not (trim_space prior.mode == "") && not (trim_space prior.mode == trim_space mode)

module _ {S : Type 0} (marshal_md5 : Value → Option String) (target : DataTarget) where
  -- Setup with a client, once the context is live and durable sessions are on.
  unfoldable pub setup_session :
      SessionClient S → SetupOptions → World S → Outcome SessionHandle × World S
  unfolding create rehydrate_prior session_hash_for session_hop_headers create_request
  setup_session client opts w =
      let prior = prior_or_empty opts.prior in
      let mode = mode_or_default opts.mode in
      let session_hash = session_hash_for marshal_md5 opts.chat_request opts.bound_contract_hash in
      let headers =
        session_hop_headers opts.chat_id opts.turn_id opts.force_trace opts.headers
          (trim_space prior.session_id) opts.brief_sha12 opts.mini_sha12 in
      let req =
        create_request client target opts.chat_request opts.user_message
          (trim_space opts.contract_id) session_hash mode headers opts.rewind in
      if trim_space prior.session_id == ""
      then create client target req opts.chat_id "" w
      else if switches_mode prior mode
      then create client target req (first_non_empty opts.chat_id prior.chat_id) "" w
      else rehydrate_prior client target opts prior session_hash mode req w

  -- Setup; `none` for the client is a lifecycle that has none.
  unfoldable pub setup :
      Option (SessionClient S)
      → Option ContextError
      → SetupOptions
      → World S
      → Outcome SessionHandle × World S
  unfolding setup_session disabled_handle
  setup client (some ended) opts w = (returns empty_handle (some (context_failure ended)), w)
  setup client none opts w =
      if not opts.enable_sessions
      then (
        returns
            (disabled_handle opts
              (session_hash_for marshal_md5 opts.chat_request opts.bound_contract_hash)
              (mode_or_default opts.mode))
            none,
        w,
      )
      else elim client [
        | none ↦
            (returns empty_handle (some (client_error (not_wired Codes.session_create_failed))), w)
        | some c ↦ setup_session c opts w
      ]
