-- ===== src/Turn/Bounds.antt =====
-- How often the loop of RunAgentTurn in application/agent_turn.go calls the model and Zeus.
use zeus_client_golang.Shared.{
  ◌++◌, ℕ, zero, suc, ◌+◌, ◌*◌, List, [], ◌∷◌, Option, none, some, ◌≡◌, refl, ◌∙◌, inl, inr, arith,
  Bool-cases, is_empty, not, ◌&&◌,
}
use zeus_client_golang.Shared.Json.{Fields}
use zeus_client_golang.Turn.{
  ToolCall, Failure, Reply, answered, failed, LlmResponse, Ports, ctx_err, bool_data,
}
use zeus_client_golang.Turn.Tools.{ToolRoundOutcome, no_outcome, Execution}
use zeus_client_golang.Turn.Calls.{execute_tool_calls}
use zeus_client_golang.Turn.State.{
  assistant_message, RoundOpts, TurnState, Verdict, next_round, exit, llm_failed, loop_failed,
  llm_request, llm_step,
}
use zeus_client_golang.Turn.Endings.{log_step, collect_notes}
use zeus_client_golang.Turn.Loop.{
  recover_calls, urge_return, show_trail, prepare_round, calls_of, answer_directly, record_outcome,
  take_outcome, run_tools, follow_calls, take_llm_reply, round_entered, run_round, unless_left,
  run_rounds,
}
use zeus_client_golang.Shared.Maps.{has}
use zeus_client_golang.Turn.Json.{catalog_tool_names}
use zeus_client_golang.Turn.Meter.{Within, IsMetered, same, chain, chain_to, wider}
use zeus_client_golang.Turn.CallBounds.{execute_tool_calls-Within}
use zeus_client_golang.Turn.Spending.{
  Spends, settle_round-Spends, urge_return_same, show_trail_same,
}

module _ {S F : Type 0} (llm zeus : S → ℕ) (p : Ports S F) (m : IsMetered llm zeus p) where
  idle : (a b : ℕ) (s : S) → Within llm zeus a b s s
  idle a b s = wider llm zeus 0 0 a b s s (omega arith) (omega arith) (same llm zeus s)

  -- What was spent before a part of a round.
  after :
      (a b c d : ℕ) (st st' : TurnState S F) (r : TurnState S F × Verdict)
      → Within llm zeus a b st.world st'.world
      → Spends llm zeus p m c d st' r
      → Spends llm zeus p m (a + c) (b + d) st r
  after a b c d st st' r w spent = (
    (λ e. chain llm zeus a b c d st.world st'.world r.0.world w (spent.0 e)),
    chain_to llm zeus a b (suc c) d (suc (a + c)) (b + d) st.world st'.world r.0.world (omega arith)
        (omega arith) w spent.1,
  )

  take_outcome-Spends :
      (o : RoundOpts) (rnd : ℕ) (f : Option Failure) (out : ToolRoundOutcome) (st : TurnState S F)
      → Spends llm zeus p m 0 0 st (take_outcome p o rnd f out st)
  unfolding take_outcome record_outcome collect_notes
  take_outcome-Spends o rnd none out st =
      settle_round-Spends llm zeus p m o rnd out (record_outcome out st)
  take_outcome-Spends o rnd (some err) out st = ((λ e. ground (arith, e)), idle 1 0 st.world)

  run_tools-Spends :
      (o : RoundOpts) (rnd : ℕ) (tcs : List ToolCall) (st : TurnState S F)
      → Spends llm zeus p m 0 8 st (run_tools p o rnd tcs st)
  unfolding run_tools
  run_tools-Spends o rnd tcs st =
      let start : Execution S F = record {
        out = no_outcome;
        messages = st.messages;
        notes = st.notes;
        mw = st.mw;
        world = st.world;
      } in
      let opts = record o.execute { round_n = rnd } in
      let done = execute_tool_calls p opts tcs start in
      let st' = record st {
        messages = done.0.messages;
        notes = done.0.notes;
        mw = done.0.mw;
        world = done.0.world;
      } in
      after 0 8 0 0 st st' (take_outcome p o rnd done.1 done.0.out st')
        (execute_tool_calls-Within llm zeus p m opts tcs start)
        (take_outcome-Spends o rnd done.1 done.0.out st')

  follow_calls-Spends :
      (o : RoundOpts) (rnd : ℕ) (resp : LlmResponse) (tcs : List ToolCall) (st : TurnState S F)
      → Spends llm zeus p m 0 8 st (follow_calls p o rnd resp tcs st)
  unfolding follow_calls answer_directly
  follow_calls-Spends o rnd resp [] st = ((λ e. ground (arith, e)), idle 1 8 st.world)
  follow_calls-Spends o rnd resp (tc ∷ tcs) st = elim (Bool-cases o.zeus_wired) [
    | inl wired ↦ rw wired (
        run_tools-Spends o rnd (tc ∷ tcs) (record st {
          messages = st.messages ++ (assistant_message resp.content (tc ∷ tcs) ∷ []);
        }))
    | inr missing ↦ rw missing ((λ e. ground (arith, e)), idle 1 8 st.world)
  ]

  recover_calls-Within :
      (o : RoundOpts) (env : Option Fields) (st : TurnState S F)
      → Within llm zeus 0 0 st.world (recover_calls p o env st).1.world
  unfolding recover_calls
  recover_calls-Within o none st = idle 0 0 st.world
  recover_calls-Within o (some env) st =
      elim (Bool-cases (
        (o.zeus_wired && has "pipeline" (catalog_tool_names o.tools))
        && not (bool_data "hooks_must_refuse" st.mw))) [
          | inl recovers ↦ rw recovers (m.names st.world)
          | inr ignored ↦ rw ignored (idle 0 0 st.world)
        ]

  calls_of-Within :
      (o : RoundOpts) (resp : LlmResponse) (st : TurnState S F)
      → Within llm zeus 0 0 st.world (calls_of p o resp st).1.world
  unfolding calls_of
  calls_of-Within o resp st = elim (Bool-cases (not (is_empty resp.tool_calls))) [
    | inl calls ↦ rw calls (idle 0 0 st.world)
    | inr no_calls ↦
        rw no_calls (recover_calls-Within o (p.parse_pipeline_envelope resp.content) st)
  ]

  take_llm_reply-Spends :
      (o : RoundOpts) (rnd : ℕ) (r : Reply LlmResponse) (st : TurnState S F)
      → Spends llm zeus p m 0 8 st (take_llm_reply p o rnd r st)
  unfolding take_llm_reply collect_notes
  take_llm_reply-Spends o rnd (failed err) st = ((λ e. ground (arith, e)), idle 1 8 st.world)
  take_llm_reply-Spends o rnd (answered resp) st =
      let hooked = p.after_llm st.mw resp st.world in
      let heard = collect_notes (record st { mw = hooked.0; world = hooked.2 }) in
      let kept = record hooked.1 { content = resp.content } in
      let found = calls_of p o kept heard in
      let asked = log_step (llm_step rnd found.0 kept.usage) found.1 in
      after 0 0 0 8 st asked (follow_calls p o rnd kept found.0 asked)
        (chain llm zeus 0 0 0 0 st.world hooked.2 found.1.world (m.after_asks st.mw resp st.world)
          (calls_of-Within o kept heard))
        (follow_calls-Spends o rnd kept found.0 asked)

  prepare_round-Within :
      (o : RoundOpts) (n rnd : ℕ) (st : TurnState S F)
      → Within llm zeus 0 0 st.world (prepare_round p o n rnd st).world
  unfolding prepare_round collect_notes
  prepare_round-Within o n rnd st =
      let entered = record st { rounds_done = rnd; mw = record st.mw { round = rnd } } in
      let shown = show_trail o (urge_return o n rnd entered) in
      let here : shown.world ≡ st.world =
        show_trail_same o (urge_return o n rnd entered) ∙ urge_return_same o n rnd entered in
      let hooked = p.before_llm shown.mw shown.messages shown.world in
      chain llm zeus 0 0 0 0 st.world shown.world hooked.2 (rw here (same llm zeus st.world))
        (m.before_asks shown.mw shown.messages shown.world)

  round_entered-Spends :
      (o : RoundOpts) (n rnd : ℕ) (f : Option Failure) (st : TurnState S F)
      → Spends llm zeus p m 1 8 st (round_entered p o n rnd f st)
  unfolding round_entered
  round_entered-Spends o n rnd (some err) st = ((λ e. ground (arith, e)), idle 2 8 st.world)
  round_entered-Spends o n rnd none st =
      let ready = prepare_round p o n rnd st in
      let request = llm_request o o.tools ready.messages in
      let reply = p.complete request ready.world in
      let replied = record ready { world = reply.1 } in
      after 1 0 0 8 st replied (take_llm_reply p o rnd reply.0 replied)
        (chain llm zeus 0 0 1 0 st.world ready.world reply.1 (prepare_round-Within o n rnd st)
          (m.asks request ready.world))
        (take_llm_reply-Spends o rnd reply.0 replied)

  run_round-Spends :
      (o : RoundOpts) (n rnd : ℕ) (st : TurnState S F)
      → Spends llm zeus p m 1 8 st (run_round p o n rnd st)
  unfolding run_round ctx_err
  run_round-Spends o n rnd st =
      let ended = ctx_err p st.world in
      let checked = record st { world = ended.1 } in
      after 0 0 1 8 st checked (round_entered p o n rnd ended.0 checked) (m.checks st.world)
        (round_entered-Spends o n rnd ended.0 checked)

  unless_left-Within :
      (n : ℕ) (v : Verdict) (next : TurnState S F → TurnState S F × Verdict)
      (st st' : TurnState S F)
      → Spends llm zeus p m 1 8 st (st', v)
      → Within llm zeus (suc n) (8 * n) st'.world (next st').0.world
      → Within llm zeus (suc (suc n)) (8 * suc n) st.world (unless_left v next st').0.world
  unfolding unless_left
  unless_left-Within n next_round next st st' spent later =
      chain_to llm zeus 1 8 (suc n) (8 * n) (suc (suc n)) (8 * suc n) st.world st'.world
        (next st').0.world (omega arith) (omega arith) (spent.0 refl) later
  unless_left-Within n (exit kind) next st st' spent later =
      wider llm zeus 2 8 (suc (suc n)) (8 * suc n) st.world st'.world (omega arith) (omega arith)
        spent.1
  unless_left-Within n (llm_failed e) next st st' spent later =
      wider llm zeus 2 8 (suc (suc n)) (8 * suc n) st.world st'.world (omega arith) (omega arith)
        spent.1
  unless_left-Within n (loop_failed e) next st st' spent later =
      wider llm zeus 2 8 (suc (suc n)) (8 * suc n) st.world st'.world (omega arith) (omega arith)
        spent.1

  -- The loop of a turn with n rounds left ends, and if two counters count the calls of the model
  -- and of Zeus, one each and nothing else, then it calls the model at most n + 1 times and Zeus
  -- at most 8 n times, whatever the model, Zeus and the hooks answer.
  pub calls_bounded :
      (o : RoundOpts) (n rnd : ℕ) (st : TurnState S F)
      → Within llm zeus (suc n) (8 * n) st.world (run_rounds p o n rnd st).0.world
  unfolding run_rounds
  calls_bounded o zero rnd st = idle 1 0 st.world
  calls_bounded o (suc n) rnd st =
      let done = run_round p o n rnd st in
      unless_left-Within n done.1 (run_rounds p o n (suc rnd)) st done.0
        (run_round-Spends o n rnd st) (calls_bounded o n (suc rnd) done.0)
