-- ===== src/Session/Identity.antt =====
-- Where the id of a session comes from in Setup of application/session_lifecycle.go.
use zeus_client_golang.Shared.{
  String, true, false, ◌≡◌, ◌⊎◌, inl, inr, refl, Option, none, some, ◌==◌, Bool-cases, Option-cases,
}
use zeus_client_golang.Shared.Text.{trim_space}
use zeus_client_golang.Shared.Maps.{Dict}
use zeus_client_golang.Shared.Json.{Value, Fields, get, as_string}
use zeus_client_golang.Errors.{ContextError}
use zeus_client_golang.Session.{SessionHandle}
use zeus_client_golang.Session.Client.{
  DataTarget, SessionCreateRequest, SessionClient, SetupOptions, World, first_non_empty,
}
use zeus_client_golang.Session.Lifecycle.{
  created_from, answer_create, create, rehydrated_from, answer_rehydrate, rehydrate_prior,
  setup_session, setup, prior_or_empty, switches_mode, mode_or_default, disabled_handle,
}

module _ {S : Type 0} (client : SessionClient S) (target : DataTarget) where
  -- A handle whose id stands in an answer of the server to a call that creates a session.
  abbrev pub IsMinted : SessionHandle → Type 0
  IsMinted h =
      (req : SessionCreateRequest) × (s : S) × ((client.create_session req s).0.failure ≡ none)
      × ((client.create_session req s).0.value.is_ok ≡ true)
      × (h.created ≡ true)
      × (h.rehydrated ≡ false)
      × (h.session_id
          ≡ trim_space (as_string (get "session_id" (client.create_session req s).0.value.body)))

  -- A handle with the prior id, which the server has answered to know.
  abbrev pub IsKept : String → SessionHandle → Type 0
  IsKept prior_id h =
      (mode : String) × (headers : Dict String) × (s : S) × (reh : Fields) × ((client.rehydrate
          prior_id 6 mode headers target s).0.failure
        ≡ none)
      × ((client.rehydrate prior_id 6 mode headers target s).0.value ≡ some reh)
      × (h.created ≡ false)
      × (h.rehydrated ≡ true)
      × (h.session_id ≡ prior_id)

  abbrev pub IsServed : String → SessionHandle → Type 0
  IsServed prior_id h = (h.session_id ≡ "") ⊎ (IsMinted h ⊎ IsKept prior_id h)

  create-IsServed :
      (prior_id : String) (req : SessionCreateRequest) (chat_id recovered : String) (w : World S)
      → IsServed prior_id (create client target req chat_id recovered w).0.value
  unfolding create answer_create created_from
  create-IsServed prior_id req chat_id recovered w =
      let answer = (client.create_session req w.client_state).0 in
      elim (Option-cases answer.failure) [
        | inr (e, failed) ↦ rw failed (inl refl)
        | inl passed ↦ elim (Bool-cases answer.value.is_ok) [
          | inr refused ↦ rw (passed, refused) (inl refl)
          | inl accepted ↦
              rw (passed, accepted)
                (inr (inl (req, w.client_state, passed, accepted, refl, refl, refl)))
        ]
      ]

  rehydrate_prior-IsServed :
      (opts : SetupOptions) (prior : SessionHandle) (hash mode : String)
      (req : SessionCreateRequest) (w : World S)
      → IsServed
          (trim_space prior.session_id)
          (rehydrate_prior client target opts prior hash mode req w).0.value
  unfolding rehydrate_prior answer_rehydrate rehydrated_from
  rehydrate_prior-IsServed opts prior hash mode req w =
      let prior_id = trim_space prior.session_id in
      let pair = client.rehydrate prior_id 6 mode req.headers target w.client_state in
      elim (Option-cases pair.0.failure) [
        | inr (e, failed) ↦ rw failed (inl refl)
        | inl passed ↦ elim (Option-cases pair.0.value) [
          | inl gone ↦
              rw (passed, gone)
                (create-IsServed prior_id req (first_non_empty opts.chat_id prior.chat_id) prior_id
                  (record w { client_state = pair.1 }))
          | inr (reh, found) ↦
              rw (passed, found)
                (inr
                  (inr (mode, req.headers, w.client_state, reh, passed, found, refl, refl, refl)))
        ]
      ]

  setup_session-IsServed :
      (marshal_md5 : Value → Option String) (opts : SetupOptions) (w : World S)
      → IsServed
          (trim_space (prior_or_empty opts.prior).session_id)
          (setup_session marshal_md5 target client opts w).0.value
  unfolding setup_session
  setup_session-IsServed marshal_md5 opts w =
      let prior = prior_or_empty opts.prior in
      elim (Bool-cases (trim_space prior.session_id == "")) [
        | inl fresh ↦ rw fresh (create-IsServed _ _ _ _ w)
        | inr known ↦ elim (Bool-cases (switches_mode prior (mode_or_default opts.mode))) [
          | inl switched ↦ rw (known, switched) (create-IsServed _ _ _ _ w)
          | inr same ↦ rw (known, same) (rehydrate_prior-IsServed opts prior _ _ _ w)
        ]
      ]

-- Whatever the client of a session answers, the handle that Setup returns has an empty session id,
-- or is marked as created and not rehydrated and has the trimmed id of an accepted answer to a
-- call that creates a session, or is marked as rehydrated and not created and has the trimmed id
-- of the prior handle, which an answer of the server has confirmed.
pub session_id_never_invented :
    {S : Type 0} (client : SessionClient S) (target : DataTarget)
    → (marshal_md5 : Value → Option String) (ended : Option ContextError) (opts : SetupOptions)
      (w : World S)
    → IsServed client target
        (trim_space (prior_or_empty opts.prior).session_id)
        (setup marshal_md5 target (some client) ended opts w).0.value
unfolding setup disabled_handle
session_id_never_invented client target marshal_md5 (some e) opts w = inl refl
session_id_never_invented client target marshal_md5 none opts w =
    elim (Bool-cases opts.enable_sessions) [
      | inl on ↦ rw on (setup_session-IsServed client target marshal_md5 opts w)
      | inr off ↦ rw off (inl refl)
    ]
