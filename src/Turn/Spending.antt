-- ===== src/Turn/Spending.antt =====
-- How often the end of a round of RunAgentTurn in application/agent_turn.go calls the model.
use zeus_client_golang.Shared.{
  ltb, ℕ, suc, String, Bool, true, false, [], if◌then◌else◌, ◌==◌, ◌≡◌, ◌≢◌, refl, inl, inr, arith,
  Bool-cases, not, ◌&&◌,
}
use zeus_client_golang.Shared.Text.{trim_space}
use zeus_client_golang.Turn.{Reply, answered, failed, LlmResponse, Ports, bool_data}
use zeus_client_golang.Turn.Tools.{ToolRoundOutcome}
use zeus_client_golang.Turn.State.{
  cheap_final_static_answer, or_text, RoundOpts, TurnState, Verdict, next_round, exit, llm_request,
  insight_instruction,
}
use zeus_client_golang.Turn.Endings.{
  say_terminal, note, say, take_insight, insight_hop, say_once, finish_returned, finish_cheaply,
  settle_round,
}
use zeus_client_golang.Turn.Loop.{urge_return, show_trail}
use zeus_client_golang.Turn.Meter.{Within, IsMetered, same, wider}

module _ {S F : Type 0} where
  world_of_if :
      (b : Bool) (s : S) (x y : TurnState S F)
      → x.world ≡ s
      → y.world ≡ s
      → (if b then x else y).world ≡ s
  world_of_if true s x y h k = h
  world_of_if false s x y h k = k

  say_once_same : (content : String) (st : TurnState S F) → (say_once content st).world ≡ st.world
  unfolding say_once
  say_once_same content st = world_of_if _ st.world _ _ refl refl

  say_terminal_same :
      (content : String) (st : TurnState S F) → (say_terminal content st).world ≡ st.world
  unfolding say_terminal
  say_terminal_same content st =
      let answering = record st { answer = content } in
      world_of_if (not (content == "")) st.world (say_once content answering) answering
        (say_once_same content answering) refl

  pub urge_return_same :
      (o : RoundOpts) (n rnd : ℕ) (st : TurnState S F) → (urge_return o n rnd st).world ≡ st.world
  unfolding urge_return
  urge_return_same o n rnd st = world_of_if _ st.world _ _ refl refl

  pub show_trail_same : (o : RoundOpts) (st : TurnState S F) → (show_trail o st).world ≡ st.world
  unfolding show_trail
  show_trail_same o st = world_of_if _ st.world _ _ refl refl

  take_insight_same :
      (rnd : ℕ) (r : Reply LlmResponse) (st : TurnState S F)
      → (take_insight rnd r st).1.world ≡ st.world
  unfolding take_insight
  take_insight_same rnd (failed err) st = refl
  take_insight_same rnd (answered resp) st = elim (Bool-cases (trim_space resp.content == "")) [
    | inl h ↦ rw h refl
    | inr h ↦ rw h refl
  ]

module _ {S F : Type 0} (llm zeus : S → ℕ) (p : Ports S F) (m : IsMetered llm zeus p) where
  -- What a part of a round spends: less if another round follows.
  abbrev pub Spends : ℕ → ℕ → TurnState S F → TurnState S F × Verdict → Type 0
  Spends a b st r =
      (r.1 ≡ next_round → Within llm zeus a b st.world r.0.world)
      × Within llm zeus (suc a) b st.world r.0.world

  exit_goes_on : (kind : String) → exit kind ≢ next_round
  exit_goes_on kind e = ground (arith, e)

  pub unchanged : (s t : S) → t ≡ s → Within llm zeus 1 0 s t
  unchanged s t e = rw e (wider llm zeus 0 0 1 0 s s (omega arith) (omega arith) (same llm zeus s))

  insight_hop-Within :
      (o : RoundOpts) (rnd : ℕ) (st : TurnState S F)
      → Within llm zeus 1 0 st.world (insight_hop p o rnd st).1.world
  unfolding insight_hop
  insight_hop-Within o rnd st =
      let asked =
        note "force_final: ai_process_result_insight" (say "user" insight_instruction st) in
      let reply = p.complete (llm_request o [] asked.messages) asked.world in
      rw (take_insight_same rnd reply.0 (record asked { world = reply.1 }))
        (m.asks (llm_request o [] asked.messages) asked.world)

  finish_returned-Spends :
      (o : RoundOpts) (rnd : ℕ) (out : ToolRoundOutcome) (st : TurnState S F)
      → Spends 0 0 st (finish_returned p o rnd out st)
  unfolding finish_returned
  finish_returned-Spends o rnd out st = elim (Bool-cases o.ai_process_result) [
    | inl on ↦ rw on ((λ e. absurd (exit_goes_on "insight" e)), insight_hop-Within o rnd st)
    | inr off ↦ rw off (
      (λ e. absurd (exit_goes_on "cheap_terminal" e)),
      unchanged st.world (say_terminal (trim_space out.terminal_summary) st).world
          (say_terminal_same (trim_space out.terminal_summary) st),
    )
  ]

  finish_cheaply-Spends :
      (out : ToolRoundOutcome) (st : TurnState S F) → Spends 0 0 st (finish_cheaply out st)
  unfolding finish_cheaply
  finish_cheaply-Spends out st = elim (Bool-cases (bool_data "hooks_must_refuse" st.mw)) [
    | inl refused ↦
        rw refused ((λ e. absurd (exit_goes_on "hooks_refuse" e)), unchanged st.world st.world refl)
    | inr free ↦
        let answer = or_text (trim_space out.tool_arg_summary) cheap_final_static_answer in
        let answering = record st { answer = answer } in
        rw free (
          (λ e. absurd (exit_goes_on "cheap_final" e)),
          unchanged st.world (say_once answer answering).world (say_once_same answer answering),
        )
  ]

  pub settle_round-Spends :
      (o : RoundOpts) (rnd : ℕ) (out : ToolRoundOutcome) (st : TurnState S F)
      → Spends 0 0 st (settle_round p o rnd out st)
  unfolding settle_round
  settle_round-Spends o rnd out st = elim (Bool-cases out.return_seen) [
    | inl returned ↦ rw returned (finish_returned-Spends o rnd out st)
    | inr goes_on ↦ elim (Bool-cases (not o.ai_process_result && ltb 0 out.tools_with_payload)) [
      | inl payload ↦ rw (goes_on, payload) (finish_cheaply-Spends out st)
      | inr none_yet ↦ elim (Bool-cases (bool_data "hooks_must_refuse" st.mw)) [
        | inl refused ↦
            rw (goes_on, none_yet, refused)
              ((λ e. absurd (exit_goes_on "hooks_refuse" e)), unchanged st.world st.world refl)
        | inr free ↦
            rw (goes_on, none_yet, free)
              ((λ e. same llm zeus st.world), unchanged st.world st.world refl)
      ]
    ]
  ]
