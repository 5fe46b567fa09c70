-- ===== src/Session/Rounds.antt =====
-- The rounds of a session through Setup and Commit of application/session_lifecycle.go.
use zeus_client_golang.Shared.{
  String, suc, ◌+◌, ◌≤◌, true, false, ◌||◌, not, ◌≡◌, ◌≢◌, ◌⊎◌, inl, inr, refl, Option, none, some,
  arith, eq_ne, if_false, if◌then◌else◌, ◌==◌, Bool-cases, Option-cases, ap, sym, ◌∙◌,
}
use zeus_client_golang.Shared.Int.{
  ℤ, pos, negsuc, add_int, add_int_pos, int64_limit, pos_part, ◌≤ℤ◌, ◌≤?◌, ◌<?◌,
}
use zeus_client_golang.Shared.Text.{trim_space}
use zeus_client_golang.Shared.Json.{Value, Fields, get}
use zeus_client_golang.Shared.Maps.{Dict}
use zeus_client_golang.Errors.{ContextError}
use zeus_client_golang.Session.{SessionHandle, with_updates}
use zeus_client_golang.Session.Client.{
  Outcome, DataTarget, SessionHttpResult, SessionCreateRequest, SessionClient, SetupOptions,
  CommitOptions, CommitResult, World, first_non_empty, is_nil, json_int,
}
use zeus_client_golang.Session.Lifecycle.{
  created_from, answer_create, create, rehydrated_from, answer_rehydrate, rehydrate_prior,
  setup_session, setup, prior_or_empty, switches_mode, mode_or_default,
}
use zeus_client_golang.Session.Commit.{
  turn_round, turn_turns, committed_from, commit_turn, commit, continue_request,
}

-- What holds of the result of a commit: after a success the handle has the round of the turn and
-- is no longer new, and after a failure it has its old round.
abbrev pub Commits : SessionHandle → Outcome CommitResult → Type 0
Commits h r =
    (r.value.handle.session_id ≡ h.session_id)
    × (r.value.handle.enabled ≡ h.enabled)
    × (((r.failure ≡ none)
          × (r.value.is_ok ≡ true)
          × (r.value.handle.round ≡ turn_round h)
          × (r.value.handle.created ≡ false))
        ⊎ ((r.failure ≢ none)
            × (r.value.is_ok ≡ false)
            × (r.value.handle.round ≡ h.round)
            × (r.value.handle.created ≡ h.created)))

module _ {S : Type 0} where
  committed_from-Commits :
      (h : SessionHandle) (answer : Outcome SessionHttpResult) (w : World S)
      → Commits h (committed_from h answer w).0
  unfolding committed_from with_updates
  committed_from-Commits h answer w = elim (Option-cases answer.failure) [
    | inr (e, failed) ↦ rw failed (refl, refl, inr (ground arith, refl, refl, refl))
    | inl passed ↦ elim (Bool-cases answer.value.is_ok) [
      | inl accepted ↦ rw (passed, accepted) (refl, refl, inl (refl, refl, refl, refl))
      | inr refused ↦ rw (passed, refused) (refl, refl, inr (ground arith, refl, refl, refl))
    ]
  ]

  commit_turn-Commits :
      (client : SessionClient S) (target : DataTarget) (h : SessionHandle) (opts : CommitOptions)
      (w : World S)
      → Commits h (commit_turn client target h opts w).0
  unfolding commit_turn with_updates
  commit_turn-Commits client target h opts w = elim (Bool-cases (is_nil (turn_turns h opts))) [
    | inl nothing ↦ rw nothing (refl, refl, inl (refl, refl, refl, refl))
    | inr some_turns ↦ rw some_turns (
        let pair = client.continue_turn (continue_request target h opts) w.client_state in
        committed_from-Commits h pair.0 (record w { client_state = pair.1 }))
  ]

  commit_live :
      (client : SessionClient S) (target : DataTarget) (h : SessionHandle) (opts : CommitOptions)
      (w : World S)
      → h.enabled ≡ true
      → h.session_id ≢ ""
      → commit (some client) target none h opts w ≡ commit_turn client target h opts w
  unfolding commit
  commit_live client target h opts w on known =
      if_false (not h.enabled || h.session_id == "") _ _
        (ground (arith, on, eq_ne h.session_id "" known))

-- A commit of an enabled handle with a session id, whatever the client answers, either returns no
-- error, is ok and gives the handle the round of the turn and marks it as not new, or returns an
-- error, is not ok and leaves the round and that mark as they were; the session id and the
-- enabling stay in both cases.
pub commit_exact :
    {S : Type 0} (client : SessionClient S) (target : DataTarget) (ended : Option ContextError)
    → (h : SessionHandle) (opts : CommitOptions) (w : World S) → h.enabled ≡ true
    → h.session_id ≢ ""
    → Commits h (commit (some client) target ended h opts w).0
commit_exact client target (some e) h opts w on known =
    unfold commit in (refl, refl, inr (ground arith, refl, refl, refl))
commit_exact client target none h opts w on known =
    rw (commit_live client target h opts w on known) (commit_turn-Commits client target h opts w)

advances_once :
    (h : SessionHandle) (a b : Outcome CommitResult)
    → Commits h a
    → Commits a.value.handle b
    → a.failure ≡ none
    → b.failure ≡ none
    → b.value.handle.round ≡ (if h.created then add_int h.round (pos 1) else h.round)
unfolding turn_round
advances_once h a b (_, _, inr (fails, _, _, _)) _ passed _ = absurd (fails passed)
advances_once h a b (_, _, inl _) (_, _, inr (fails, _, _, _)) _ passed = absurd (fails passed)
advances_once h a b (_, _, inl (_, _, r, c)) (_, _, inl (_, _, r', _)) _ _ = r' ∙ rw c r

-- For an enabled handle with a session id, after two commits in a row that both succeed the round
-- of the handle is one more than before, at 64 bits, if the session was just created, and the same
-- as before otherwise.
pub commit_advances_once :
    {S : Type 0} (client : SessionClient S) (target : DataTarget)
    → (h : SessionHandle) (first second : CommitOptions) (w : World S) → h.enabled ≡ true
    → h.session_id ≢ ""
    → (commit (some client) target none h first w).0.failure ≡ none
    → (commit
        (some client)
        target
        none
        (commit (some client) target none h first w).0.value.handle
        second
        (commit (some client) target none h first w).1).0.failure
      ≡ none
    → (commit
        (some client)
        target
        none
        (commit (some client) target none h first w).0.value.handle
        second
        (commit (some client) target none h first w).1).0.value.handle.round
      ≡ (if h.created then add_int h.round (pos 1) else h.round)
commit_advances_once client target h first second w on known ok1 ok2 =
    let one = commit (some client) target none h first w in
    let a = commit_exact client target none h first w on known in
    advances_once h one.0 (commit (some client) target none one.0.value.handle second one.1).0 a
      (commit_exact client target none one.0.value.handle second one.1 (a.1 ∙ on)
        (λ e. known (sym a.0 ∙ e)))
      ok1 ok2

-- A handle of a session that is on.
abbrev pub IsReady : SessionHandle → Type 0
IsReady h =
    (pos 1 ≤ℤ h.round)
    × (h.enabled ≡ true)
    × (((h.created ≡ true) × (h.rehydrated ≡ false))
        ⊎ ((h.created ≡ false) × (h.rehydrated ≡ true) × (h.recovered_from ≡ "")))

abbrev ReadyUnlessFails : Outcome SessionHandle → Type 0
ReadyUnlessFails r = r.failure ≡ none → IsReady r.value

round_positive : (r : ℤ) → pos 1 ≤ℤ (if r ≤? pos 0 then pos 1 else r)
round_positive (pos n) = ground arith
round_positive (negsuc n) = ground arith

-- One more than the round is a value of 64 bits.
abbrev HasNext : ℤ → Type 0
HasNext r = suc (suc (pos_part r)) ≤ int64_limit

next_round_positive :
    (r : ℤ) → HasNext r → pos 1 ≤ℤ (if pos 0 <? r then add_int r (pos 1) else pos 1)
next_round_positive (pos n) small =
    let more : add_int (pos n) (pos 1) ≡ pos (n + 1) = add_int_pos n 1 (omega (arith, small)) in
    rw more (ground arith)
next_round_positive (negsuc n) small = ground arith

-- Every round that the client gives for a session that the server still has is below the greatest
-- value of 64 bits; where it gives none, the round of the prior handle counts.
module _ {S : Type 0} where
  abbrev pub RoundsHaveNext : SessionClient S → DataTarget → SessionHandle → Type 0
  RoundsHaveNext client target prior =
      (id mode : String) (headers : Dict String) (s : S) (reh : Fields)
      → (client.rehydrate id 6 mode headers target s).0.value ≡ some reh
      → HasNext (json_int (get "round" reh) prior.round)

module _ {S : Type 0} (client : SessionClient S) (target : DataTarget) where
  create-ready :
      (req : SessionCreateRequest) (chat_id recovered : String) (w : World S)
      → ReadyUnlessFails (create client target req chat_id recovered w).0
  unfolding create answer_create created_from
  create-ready req chat_id recovered w =
      let answer = (client.create_session req w.client_state).0 in
      elim (Option-cases answer.failure) [
        | inr (e, failed) ↦ rw failed (λ h. ground arith)
        | inl passed ↦ elim (Bool-cases answer.value.is_ok) [
          | inr refused ↦ rw (passed, refused) (λ h. ground arith)
          | inl accepted ↦
              rw (passed, accepted)
                (λ h. (
                  round_positive (json_int (get "round" answer.value.body) (pos 1)),
                  refl,
                  inl (refl, refl),
                ))
        ]
      ]

  rehydrate_prior-ready :
      (opts : SetupOptions) (prior : SessionHandle) (hash mode : String)
      (req : SessionCreateRequest) (w : World S)
      → RoundsHaveNext client target prior
      → ReadyUnlessFails (rehydrate_prior client target opts prior hash mode req w).0
  unfolding rehydrate_prior answer_rehydrate rehydrated_from
  rehydrate_prior-ready opts prior hash mode req w small =
      let prior_id = trim_space prior.session_id in
      let pair = client.rehydrate prior_id 6 mode req.headers target w.client_state in
      elim (Option-cases pair.0.failure) [
        | inr (e, failed) ↦ rw failed (λ h. ground arith)
        | inl passed ↦ elim (Option-cases pair.0.value) [
          | inl gone ↦
              rw (passed, gone)
                (create-ready req (first_non_empty opts.chat_id prior.chat_id) prior_id
                  (record w { client_state = pair.1 }))
          | inr (reh, found) ↦
              rw (passed, found)
                (λ h. (
                  next_round_positive (json_int (get "round" reh) prior.round)
                      (small prior_id mode req.headers w.client_state reh found),
                  refl,
                  inr (refl, refl, refl),
                ))
        ]
      ]

  setup_session-ready :
      (marshal_md5 : Value → Option String) (opts : SetupOptions) (w : World S)
      → RoundsHaveNext client target (prior_or_empty opts.prior)
      → ReadyUnlessFails (setup_session marshal_md5 target client opts w).0
  unfolding setup_session
  setup_session-ready marshal_md5 opts w small =
      let prior = prior_or_empty opts.prior in
      elim (Bool-cases (trim_space prior.session_id == "")) [
        | inl fresh ↦ rw fresh (create-ready _ _ _ w)
        | inr known ↦ elim (Bool-cases (switches_mode prior (mode_or_default opts.mode))) [
          | inl switched ↦ rw (known, switched) (create-ready _ _ _ w)
          | inr same ↦ rw (known, same) (rehydrate_prior-ready opts prior _ _ _ w small)
        ]
      ]

  setup_live :
      (marshal_md5 : Value → Option String) (opts : SetupOptions) (w : World S)
      → opts.enable_sessions ≡ true
      → setup marshal_md5 target (some client) none opts w
        ≡ setup_session marshal_md5 target client opts w
  unfolding setup
  setup_live marshal_md5 opts w on = if_false (not opts.enable_sessions) _ _ (ground (arith, on))

-- If durable sessions are on, every round that the client gives for a session that the server
-- still has (or that of the prior handle where it gives none) is below the greatest value of 64
-- bits, and Setup returns no error, then the round of the handle is at least 1, the handle is
-- enabled, and it was either created and not rehydrated, or rehydrated and not created, and then
-- it is not marked as recovered.
pub setup-IsReady :
    {S : Type 0} (client : SessionClient S) (target : DataTarget)
    → (marshal_md5 : Value → Option String) (ended : Option ContextError) (opts : SetupOptions)
      (w : World S)
    → RoundsHaveNext client target (prior_or_empty opts.prior)
    → opts.enable_sessions ≡ true
    → (setup marshal_md5 target (some client) ended opts w).0.failure ≡ none
    → IsReady (setup marshal_md5 target (some client) ended opts w).0.value
setup-IsReady client target marshal_md5 (some e) opts w small on passed =
    unfold setup in ground (arith, passed)
setup-IsReady client target marshal_md5 none opts w small on passed =
    let live = setup_live client target marshal_md5 opts w on in
    rw live (
      setup_session-ready client target marshal_md5 opts w small
        (sym (ap (λ r. r.0.failure) live) ∙ passed))
