-- ===== src/Turn/Loop.antt =====
-- The loop of RunAgentTurn in application/agent_turn.go: rounds of one call of the model and the
-- calls of tools that it asks for.
use zeus_client_golang.Shared.{
  ℕ, zero, suc, String, ◌&&◌, not, List, [], ◌∷◌, ◌++◌, Option, none, some, if◌then◌else◌, ltb,
  is_empty,
}
use zeus_client_golang.Shared.Int.{pos, ◌≤?◌}
use zeus_client_golang.Shared.Maps.{has}
use zeus_client_golang.Shared.Text.{trim_space, concat}
use zeus_client_golang.Shared.Print.{decimal, sprint}
use zeus_client_golang.Shared.Json.{Fields, str, num, end, field}
use zeus_client_golang.ToolTrail.{render_trail_inject, upsert_trail_on_system}
use zeus_client_golang.Turn.{
  ToolCall, Failure, LlmResponse, Reply, answered, failed, Ports, ctx_err, bool_data,
}
use zeus_client_golang.Turn.Json.{catalog_tool_names}
use zeus_client_golang.Turn.Tools.{ToolRoundOutcome, no_outcome}
use zeus_client_golang.Turn.Calls.{execute_tool_calls}
use zeus_client_golang.Turn.State.{
  RoundOpts, TurnState, Verdict, next_round, exit, llm_failed, loop_failed, llm_err_as_domain,
  assistant_message, maps_to_any, any_to_maps, trail_of, llm_request, llm_step, or_text,
  updated_args, synthetic_pipeline_call, append_jailbreak_hit_note,
}
use zeus_client_golang.Turn.Endings.{note, say, log_step, collect_notes, settle_round}

module _ {S F : Type 0} where
  unfoldable pub urge_return : RoundOpts → ℕ → ℕ → TurnState S F → TurnState S F
  unfolding concat decimal sprint
  urge_return o remaining rnd st =
      if pos remaining ≤? o.force_return_rounds_left && ltb 1 rnd
      then say "user"
          "SYSTEM: Round budget nearly exhausted. Terminate now with the return tool (required four fields)."
          (note
            (concat (
              "force_return: remaining="
              ∷ decimal remaining
              ∷ " <= "
              ∷ sprint (num o.force_return_rounds_left)
              ∷ []))
            st)
      else st

  unfoldable pub show_trail : RoundOpts → TurnState S F → TurnState S F
  unfolding render_trail_inject upsert_trail_on_system
  show_trail o st =
      if not (is_empty st.trail) && o.tool_trail_enabled && o.tool_trail_inject
      then record st {
        messages = any_to_maps (
            upsert_trail_on_system (maps_to_any st.messages)
              (render_trail_inject st.trail o.tool_trail_max_entries));
      }
      else st

  -- A round up to the call of the model.
  unfoldable pub prepare_round : Ports S F → RoundOpts → ℕ → ℕ → TurnState S F → TurnState S F
  unfolding urge_return show_trail collect_notes
  prepare_round p o remaining rnd st =
      let entered = record st { rounds_done = rnd; mw = record st.mw { round = rnd } } in
      let shown = show_trail o (urge_return o remaining rnd entered) in
      let hooked = p.before_llm shown.mw shown.messages shown.world in
      collect_notes (record shown { mw = hooked.0; messages = hooked.1; world = hooked.2 })

  abbrev recovered : String → Fields → TurnState S F → List ToolCall × TurnState S F
  recovered id env st = (
    some (synthetic_pipeline_call id env) ∷ [],
    note "recovered pipeline envelope from model content as pipeline tool call" st,
  )

  -- The call that the content of an answer spells.
  unfoldable pub recover_calls :
      Ports S F → RoundOpts → Option Fields → TurnState S F → List ToolCall × TurnState S F
  unfolding catalog_tool_names bool_data
  recover_calls p o none st = ([], st)
  recover_calls p o (some env) st =
      let fresh = p.new_zeus_req_id st.world in
      if (o.zeus_wired && has "pipeline" (catalog_tool_names o.tools))
        && not (bool_data "hooks_must_refuse" st.mw)
      then recovered fresh.0 env (record st { world = fresh.1 })
      else ([], st)

  unfoldable pub calls_of :
      Ports S F → RoundOpts → LlmResponse → TurnState S F → List ToolCall × TurnState S F
  unfolding recover_calls
  calls_of p o resp st =
      if not (is_empty resp.tool_calls)
      then (resp.tool_calls, st)
      else recover_calls p o (p.parse_pipeline_envelope resp.content) st

  -- An answer without calls ends the loop.
  unfoldable pub answer_directly : String → TurnState S F → TurnState S F × Verdict
  unfolding trim_space
  answer_directly content st =
      let answer = or_text (trim_space content) "(model returned no content)" in
      (say "assistant" answer (record st { answer = answer }), exit "direct")

  unfoldable pub record_outcome : ToolRoundOutcome → TurnState S F → TurnState S F
  unfolding trail_of collect_notes append_jailbreak_hit_note
  record_outcome out st =
      let noted = collect_notes (record st {
        hops = st.hops ++ out.hops;
        steps = st.steps ++ out.steps;
        trail = trail_of out.hops st.trail;
      }) in
      record noted {
        notes = append_jailbreak_hit_note noted.notes noted.mw;
        last_return_args = updated_args out.return_args st.last_return_args;
        last_terminate_via = or_text out.terminate_via st.last_terminate_via;
      }

  unfoldable pub take_outcome :
      Ports S F
      → RoundOpts
      → ℕ
      → Option Failure
      → ToolRoundOutcome
      → TurnState S F
      → TurnState S F × Verdict
  unfolding record_outcome settle_round
  take_outcome p o rnd (some err) out st =
      (record st { hops = st.hops ++ out.hops; steps = st.steps ++ out.steps }, loop_failed err)
  take_outcome p o rnd none out st = settle_round p o rnd out (record_outcome out st)

  unfoldable pub run_tools :
      Ports S F → RoundOpts → ℕ → List ToolCall → TurnState S F → TurnState S F × Verdict
  unfolding take_outcome execute_tool_calls
  run_tools p o rnd tcs st =
      let done =
        execute_tool_calls p (record o.execute { round_n = rnd }) tcs
          (record {
            out = no_outcome;
            messages = st.messages;
            notes = st.notes;
            mw = st.mw;
            world = st.world;
          }) in
      take_outcome p o rnd done.1 done.0.out (record st {
        messages = done.0.messages;
        notes = done.0.notes;
        mw = done.0.mw;
        world = done.0.world;
      })

  unfoldable pub follow_calls :
      Ports S F
      → RoundOpts
      → ℕ
      → LlmResponse
      → List ToolCall
      → TurnState S F
      → TurnState S F × Verdict
  unfolding answer_directly run_tools
  follow_calls p o rnd resp [] st = answer_directly resp.content st
  follow_calls p o rnd resp (tc ∷ tcs) st =
      let asked = record st {
        messages = st.messages ++ (assistant_message resp.content (tc ∷ tcs) ∷ []);
      } in
      if o.zeus_wired then run_tools p o rnd (tc ∷ tcs) asked else (
        note "zeus port missing; cannot execute tools"
            (record asked { answer = "Zeus port not configured for tool calls" }),
        exit "error",
      )

  unfoldable pub take_llm_reply :
      Ports S F → RoundOpts → ℕ → Reply LlmResponse → TurnState S F → TurnState S F × Verdict
  unfolding llm_err_as_domain concat collect_notes calls_of follow_calls
  take_llm_reply p o rnd (failed err) st =
      let de = llm_err_as_domain err in
      (
        log_step
            (field "round" (num (pos rnd))
              (field "type" (str "llm_error") (field "code" (str de.code) end)))
            (note (concat ("llm_error: " ∷ de.code ∷ [])) st),
        llm_failed de,
      )
  take_llm_reply p o rnd (answered resp) st =
      let hooked = p.after_llm st.mw resp st.world in
      let heard = collect_notes (record st { mw = hooked.0; world = hooked.2 }) in
      let kept = record hooked.1 { content = resp.content } in
      let found = calls_of p o kept heard in
      follow_calls p o rnd kept found.0 (log_step (llm_step rnd found.0 kept.usage) found.1)

  unfoldable pub round_entered :
      Ports S F → RoundOpts → ℕ → ℕ → Option Failure → TurnState S F → TurnState S F × Verdict
  unfolding prepare_round take_llm_reply
  round_entered p o remaining rnd (some err) st = (st, loop_failed err)
  round_entered p o remaining rnd none st =
      let ready = prepare_round p o remaining rnd st in
      let reply = p.complete (llm_request o o.tools ready.messages) ready.world in
      take_llm_reply p o rnd reply.0 (record ready { world = reply.1 })

  unfoldable pub run_round : Ports S F → RoundOpts → ℕ → ℕ → TurnState S F → TurnState S F × Verdict
  unfolding ctx_err round_entered
  run_round p o remaining rnd st =
      let ended = ctx_err p st.world in
      round_entered p o remaining rnd ended.0 (record st { world = ended.1 })

  abbrev run_out : TurnState S F → TurnState S F × Verdict
  run_out st = (
    note "max_rounds exceeded"
        (record st { answer = "Ran out of tool rounds before the model produced a final answer." }),
    exit "max_rounds",
  )

  -- Whether another round follows.
  unfoldable pub unless_left :
      Verdict → (TurnState S F → TurnState S F × Verdict) → TurnState S F → TurnState S F × Verdict
  unless_left next_round next st = next st
  unless_left (exit kind) next st = (st, exit kind)
  unless_left (llm_failed e) next st = (st, llm_failed e)
  unless_left (loop_failed e) next st = (st, loop_failed e)

  -- The rounds from `rnd` on, of which so many are left.
  unfoldable pub run_rounds :
      Ports S F → RoundOpts → ℕ → ℕ → TurnState S F → TurnState S F × Verdict
  unfolding run_round unless_left
  run_rounds p o zero rnd st = run_out st
  run_rounds p o (suc remaining) rnd st =
      let done = run_round p o remaining rnd st in
      unless_left done.1 (run_rounds p o remaining (suc rnd)) done.0
