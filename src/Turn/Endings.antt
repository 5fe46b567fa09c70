-- ===== src/Turn/Endings.antt =====
-- How a round of RunAgentTurn in application/agent_turn.go ends the loop, with insightHop.
use zeus_client_golang.Shared.{ℕ, String, ◌&&◌, not, [], ◌∷◌, ◌++◌, if◌then◌else◌, ◌==◌, ltb}
use zeus_client_golang.Shared.Int.{pos}
use zeus_client_golang.Shared.Text.{trim_space, concat}
use zeus_client_golang.Shared.Print.{byte_length}
use zeus_client_golang.Shared.Json.{Fields, str, num, obj, end, field}
use zeus_client_golang.Turn.{LlmResponse, Reply, answered, failed, Ports, bool_data, take_notes}
use zeus_client_golang.Turn.Json.{recent_assistant_has}
use zeus_client_golang.Turn.Tools.{ToolRoundOutcome}
use zeus_client_golang.Turn.State.{
  insight_instruction, cheap_final_static_answer, RoundOpts, TurnState, Verdict, next_round, exit,
  llm_err_as_domain, text_message, llm_request, or_text,
}

module _ {S F : Type 0} where
  abbrev pub note : String → TurnState S F → TurnState S F
  note n st = record st { notes = st.notes ++ (n ∷ []) }

  abbrev pub say : String → String → TurnState S F → TurnState S F
  say role content st = record st { messages = st.messages ++ (text_message role content ∷ []) }

  abbrev pub log_step : Fields → TurnState S F → TurnState S F
  log_step step st = record st { steps = st.steps ++ (step ∷ []) }

  -- notes = append(notes, mwCtx.takeNotes()...)
  unfoldable pub collect_notes : TurnState S F → TurnState S F
  unfolding take_notes
  collect_notes st =
      let taken = take_notes st.mw in record st { notes = st.notes ++ taken.0; mw = taken.1 }

  -- insightHop
  unfoldable pub take_insight : ℕ → Reply LlmResponse → TurnState S F → String × TurnState S F
  unfolding trim_space byte_length llm_err_as_domain concat
  take_insight rnd (failed err) st =
      ("", note (concat ("insight_failed: " ∷ (llm_err_as_domain err).code ∷ [])) st)
  take_insight rnd (answered resp) st =
      let content = trim_space resp.content in
      if content == "" then ("", note "force_final_empty: ai_process_result_insight" st) else (
        content,
        log_step
            (field "round" (num (pos rnd)) (
              field "type" (str "force_final") (
                field "cause" (str "ai_process_result_insight") (
                  field "content_len" (num (pos (byte_length content)))
                    (field "usage" (obj resp.usage) end)))))
            (say "assistant" content st),
      )

  unfoldable pub insight_hop : Ports S F → RoundOpts → ℕ → TurnState S F → String × TurnState S F
  unfolding take_insight
  insight_hop p o rnd st =
      let asked =
        note "force_final: ai_process_result_insight" (say "user" insight_instruction st) in
      let reply = p.complete (llm_request o [] asked.messages) asked.world in
      take_insight rnd reply.0 (record asked { world = reply.1 })

  unfoldable pub say_once : String → TurnState S F → TurnState S F
  unfolding recent_assistant_has
  say_once content st =
      if recent_assistant_has st.messages content then st else say "assistant" content st

  unfoldable pub say_terminal : String → TurnState S F → TurnState S F
  unfolding say_once
  say_terminal terminal st =
      let answering = record st { answer = terminal } in
      if not (terminal == "") then say_once terminal answering else answering

  -- The end of a round in which a call has ended the turn.
  unfoldable pub finish_returned :
      Ports S F → RoundOpts → ℕ → ToolRoundOutcome → TurnState S F → TurnState S F × Verdict
  unfolding insight_hop say_terminal trim_space
  finish_returned p o rnd out st =
      let terminal = trim_space out.terminal_summary in
      if o.ai_process_result
      then (let hop = insight_hop p o rnd st in
          (
            note "ai_process_result=true after terminating Zeus tool; insight synthesis"
                (record hop.1 { answer = or_text (trim_space hop.0) terminal }),
            exit "insight",
          ))
      else (
        note "ai_process_result=false after terminate; cheap terminal envelope"
            (say_terminal terminal st),
        exit "cheap_terminal",
      )

  -- The end of a round without an insight that got rows from Zeus.
  unfoldable pub finish_cheaply : ToolRoundOutcome → TurnState S F → TurnState S F × Verdict
  unfolding bool_data say_once trim_space
  finish_cheaply out st =
      if bool_data "hooks_must_refuse" st.mw
      then (note "jailbreak.cheap_path_leak" (record st { answer = "" }), exit "hooks_refuse")
      else (let answer = or_text (trim_space out.tool_arg_summary) cheap_final_static_answer in
          (
            note "ai_process_result=false after Zeus data; thin final without second LLM hop"
                (record (say_once answer (record st { answer = answer })) {
                  last_terminate_via = "cheap_final";
                }),
            exit "cheap_final",
          ))

  -- What follows from the outcome of a round.
  unfoldable pub settle_round :
      Ports S F → RoundOpts → ℕ → ToolRoundOutcome → TurnState S F → TurnState S F × Verdict
  unfolding finish_returned finish_cheaply bool_data
  settle_round p o rnd out st =
      if out.return_seen
      then finish_returned p o rnd out st
      else if not o.ai_process_result && ltb 0 out.tools_with_payload
      then finish_cheaply out st
      else if bool_data "hooks_must_refuse" st.mw
      then (note "jailbreak.abort_turn" st, exit "hooks_refuse")
      else (st, next_round)
