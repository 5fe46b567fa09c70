-- ===== src/Turn/Final.antt =====
-- RunAgentTurn of application/agent_turn.go after its loop: Layer A, the decision of the policy
-- table, the answer for the user and the status of the turn.
use zeus_client_golang.Shared.{
  String, Bool, ◌&&◌, ◌||◌, not, List, [], ◌∷◌, ◌++◌, Option, none, some, if◌then◌else◌, ◌==◌,
}
use zeus_client_golang.Shared.Int.{ℤ}
use zeus_client_golang.Shared.Maps.{lookup}
use zeus_client_golang.Shared.Text.{trim_space}
use zeus_client_golang.Shared.Pattern.{contains_text}
use zeus_client_golang.Shared.Json.{Fields, null, end, nil}
use zeus_client_golang.Policy.{
  Floats, LayerA, PolicySettings, DecidePolicyOpts, PolicyDecision, decide_policy, policy_refuse,
  policy_clarify, policy_error,
}
use zeus_client_golang.LayerA.{ParseLayerAOpts, parse_layer_a, apply_pack_schema}
use zeus_client_golang.Turn.{Datum, MiddlewareContext, bool_data, take_notes}

-- What the end of a turn calls: PeelLayerASummary, UserFacingAnswer without a text of the user
-- interface, InspectJailbreak, floatData, the conversion of an int, and the hooks.
pub record FinalPorts (S F : Type 0) : Type 0 where
  pub peel_layer_a_summary : String → Option String
  pub user_facing_answer : String → String → String
  pub inspect_jailbreak : MiddlewareContext F → String → MiddlewareContext F
  pub float_data : Option (Datum F) → F
  pub to_float : ℤ → F
  pub on_turn_end : MiddlewareContext F → String → S → MiddlewareContext F × S

-- The settings that the end of a turn reads; `brand_inject` says whether there is a company context.
pub record FinalOpts : Type 0 where
  pub policy : PolicySettings
  pub parse : ParseLayerAOpts
  pub pack_schema : Option Fields
  pub brand_inject : Bool

-- TurnStatus
pub data TurnStatus : Type 0 where
  turn_ok turn_error turn_refused turn_clarify turn_max_rounds : TurnStatus

pub record Ending (S F : Type 0) : Type 0 where
  pub answer : String
  pub status : TurnStatus
  pub layer : Option (LayerA F)
  pub decision : Option (PolicyDecision F)
  pub notes : List String
  pub mw : MiddlewareContext F
  pub world : S

abbrev pub refused_layer : {F : Type 0} → LayerA F
refused_layer = record {
  summary = "";
  query_decomposition = none;
  decomposition = none;
  confidence = "";
  policy_action = "";
  business_rules_triggers = [];
  app_output = none;
  jail_break_attempt = none;
  wish_i_knew = nil;
  data_gaps = nil;
  entity_refs = null;
  node_refs = null;
  provenance = null;
  raw = end;
  errors = "hooks_must_refuse" ∷ [];
  warnings = [];
}

module _ {F : Type 0} where
  abbrev summary_of : Option (LayerA F) → String
  summary_of none = ""
  summary_of (some layer) = layer.summary

  abbrev pub or_refused : Bool → Option (LayerA F) → Option (LayerA F)
  or_refused refuse (some layer) = some layer
  or_refused refuse none = if refuse then some refused_layer else none

  -- The answer under a decision.
  unfoldable pub decided_answer : String → Option (PolicyDecision F) → String
  unfolding trim_space
  decided_answer answer none = answer
  decided_answer answer (some d) =
      if (d.forced && (d.policy == policy_refuse || d.policy == policy_error))
        || trim_space answer == ""
      then (if d.ui_text == "" then answer else d.ui_text)
      else if d.policy == policy_clarify && not (d.ui_text == "")
      then d.ui_text
      else answer

  -- A text that names wish_i_knew gives way to the summary.
  unfoldable pub hide_wish : Option (LayerA F) → String → String
  unfolding contains_text
  hide_wish layer answer =
      if contains_text answer "wish_i_knew" && not (summary_of layer == "")
      then summary_of layer
      else answer

  abbrev decided_status : Option (PolicyDecision F) → TurnStatus
  decided_status none = turn_ok
  decided_status (some d) =
      if d.policy == policy_refuse
      then turn_refused
      else if d.policy == policy_clarify
      then turn_clarify
      else if d.policy == policy_error
      then turn_error
      else turn_ok

  unfoldable pub status_of : String → Option (PolicyDecision F) → TurnStatus
  status_of exit_kind d = if exit_kind == "max_rounds" then turn_max_rounds else decided_status d

module _ {S : Type 0} (fl : Floats) (p : FinalPorts S fl.Float) where
  unfoldable pub layer_of_return : FinalOpts → Option Fields → Option (LayerA fl.Float)
  unfolding parse_layer_a apply_pack_schema
  layer_of_return o none = none
  layer_of_return o (some args) =
      some (apply_pack_schema (parse_layer_a p.to_float args o.parse) o.pack_schema)

  abbrev or_facing : Option String → String → String
  or_facing none facing = facing
  or_facing (some peeled) facing = peeled

  unfoldable pub pre_policy : String → Option (LayerA fl.Float) → String
  pre_policy answer layer =
      or_facing (p.peel_layer_a_summary answer) (p.user_facing_answer answer (summary_of layer))

  abbrev pub decide_opts : FinalOpts → MiddlewareContext fl.Float → DecidePolicyOpts fl.Float
  decide_opts o c = record {
    settings = o.policy;
    hooks_jailbreak_score = p.float_data (lookup "hooks_jailbreak_score" c.values);
    hooks_must_refuse = bool_data "hooks_must_refuse" c;
    brand_inject_present = o.brand_inject;
  }

  unfoldable pub decide :
      FinalOpts
      → MiddlewareContext fl.Float
      → Option (LayerA fl.Float)
      → Option (PolicyDecision fl.Float)
  unfolding decide_policy bool_data
  decide o c none = none
  decide o c (some layer) = some (decide_policy fl layer (decide_opts o c))

  unfoldable pub finish_turn :
      FinalOpts
      → Option Fields
      → String
      → String
      → List String
      → MiddlewareContext fl.Float
      → S
      → Ending S fl.Float
  unfolding layer_of_return pre_policy decide decided_answer hide_wish status_of take_notes
      bool_data
  finish_turn o return_args answer exit_kind notes c s =
      let parsed = layer_of_return o return_args in
      let shown = pre_policy answer parsed in
      let inspected = p.inspect_jailbreak c shown in
      let layer = or_refused (bool_data "hooks_must_refuse" inspected) parsed in
      let decision = decide o inspected layer in
      let final = hide_wish layer (decided_answer shown decision) in
      let hooked = p.on_turn_end inspected final s in
      let taken = take_notes hooked.0 in
      record {
        answer = final;
        status = status_of exit_kind decision;
        layer = layer;
        decision = decision;
        notes = notes ++ taken.0;
        mw = taken.1;
        world = hooked.1;
      }
