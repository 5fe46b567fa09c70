-- ===== src/Turn/Refusal.antt =====
-- What the user sees of a turn that must be refused, in application/agent_turn.go.
use zeus_client_golang.Shared.{
  ◌∙◌, ap, String, Bool, true, false, ◌&&◌, not, Option, none, some, if◌then◌else◌, ◌==◌, ◌≡◌, refl,
  inl, inr, arith, Bool-cases, List,
}
use zeus_client_golang.Shared.Pattern.{contains_text}
use zeus_client_golang.Shared.Json.{Fields}
use zeus_client_golang.Shared.Maps.{lookup}
use zeus_client_golang.Policy.{
  Floats, LayerA, PolicySettings, PolicyDecision, decide_policy, choose_row, map_message, message,
  row, policy_refuse, or_text, default_message_jailbreak_soft, text_or_empty,
}
use zeus_client_golang.Turn.{MiddlewareContext, bool_data}
use zeus_client_golang.Turn.Final.{
  FinalPorts, FinalOpts, turn_refused, turn_max_rounds, refused_layer, or_refused, decided_answer,
  hide_wish, status_of, layer_of_return, pre_policy, decide_opts, decide, finish_turn,
}

abbrev layer_or_refused : {F : Type 0} → Option (LayerA F) → LayerA F
layer_or_refused none = refused_layer
layer_or_refused (some layer) = layer

-- What the user is told in a turn that is refused: the summary of the model if the model itself has
-- chosen to refuse and has written one, and else the message of the settings or the default one.
abbrev pub message_of_refusal : PolicySettings → String
message_of_refusal settings =
    or_text (text_or_empty (lookup "message_jailbreak_soft" settings.messages))
      default_message_jailbreak_soft

abbrev pub refusal_for : {F : Type 0} → PolicySettings → Option (LayerA F) → String
refusal_for settings none = message_of_refusal settings
refusal_for settings (some layer) =
    if layer.policy_action == "refuse" && not (layer.summary == "")
    then layer.summary
    else message_of_refusal settings

refusal_for_lem :
    {F : Type 0} (settings : PolicySettings) (layer : Option (LayerA F))
    → map_message policy_refuse settings (layer_or_refused layer) ≡ refusal_for settings layer
unfolding map_message message
refusal_for_lem settings none = refl
refusal_for_lem settings (some layer) = ground arith

refusal_text-not_empty :
    {F : Type 0} (settings : PolicySettings) (layer : LayerA F)
    → (map_message policy_refuse settings layer == "") ≡ false
unfolding map_message
refusal_text-not_empty settings layer =
    elim (Bool-cases (not (layer.summary == "") && layer.policy_action == policy_refuse)) [
      | inl own ↦ rw own (ground (arith, own))
      | inr other ↦ elim (Bool-cases (message "message_jailbreak_soft" settings == "")) [
        | inl missing ↦ rw (other, missing) refl
        | inr given ↦ rw (other, given) given
      ]
    ]

or_refused_lem :
    {F : Type 0} (b : Bool) (layer : Option (LayerA F))
    → b ≡ true
    → or_refused b layer ≡ some (layer_or_refused layer)
or_refused_lem b none h = rw h refl
or_refused_lem b (some layer) h = refl

refused_answer :
    {F : Type 0} (answer : String) (d : PolicyDecision F)
    → d.forced ≡ true
    → d.policy ≡ policy_refuse
    → (d.ui_text == "") ≡ false
    → decided_answer answer (some d) ≡ d.ui_text
unfolding decided_answer
refused_answer answer d forced refuse text = rw (forced, refuse, text) refl

shown_text :
    {F : Type 0} (layer : Option (LayerA F)) (text : String)
    → contains_text text "wish_i_knew" ≡ false
    → hide_wish layer text ≡ text
unfolding hide_wish
shown_text layer text clean = rw clean refl

refused_status :
    {F : Type 0} (exit_kind : String) (d : PolicyDecision F)
    → d.policy ≡ policy_refuse
    → status_of exit_kind (some d)
      ≡ (if exit_kind == "max_rounds" then turn_max_rounds else turn_refused)
unfolding status_of
refused_status exit_kind d refuse = rw refuse refl

module _ {S : Type 0} (fl : Floats) (p : FinalPorts S fl.Float) where
  refused_row :
      (o : FinalOpts) (c : MiddlewareContext fl.Float) (layer : LayerA fl.Float)
      → bool_data "hooks_must_refuse" c ≡ true
      → choose_row fl layer (decide_opts fl p o c) ≡ row policy_refuse true "hooks_must_refuse"
  unfolding choose_row
  refused_row o c layer refused = rw refused refl

  refused_end :
      (o : FinalOpts) (c : MiddlewareContext fl.Float) (layer : LayerA fl.Float)
      (shown exit_kind : String)
      → bool_data "hooks_must_refuse" c ≡ true
      → (decided_answer shown (decide fl p o c (some layer))
          ≡ map_message policy_refuse o.policy layer)
        × (status_of exit_kind (decide fl p o c (some layer))
            ≡ (if exit_kind == "max_rounds" then turn_max_rounds else turn_refused))
  unfolding decide decide_policy
  refused_end o c layer shown exit_kind refused =
      let e = refused_row o c layer refused in
      let d = decide_policy fl layer (decide_opts fl p o c) in
      let refuse : d.policy ≡ policy_refuse = ap (λ r. r.policy) e in
      let text : d.ui_text ≡ map_message policy_refuse o.policy layer =
        ap (λ r. map_message r.policy o.policy layer) e in
      (
        refused_answer shown d (ap (λ r. r.forced) e) refuse
              (rw text (refusal_text-not_empty o.policy layer))
            ∙ text,
        refused_status exit_kind d refuse,
      )

  -- If the hooks demand a refusal once the text of a turn has been inspected, then the text of
  -- refusal is the summary of the model if the model itself chose to refuse and wrote one, and
  -- else the message of the settings, or the default one where the settings have none; and if that
  -- text does not contain wish_i_knew, then it is the answer for the user, whatever other text the
  -- model has written, and the status is refused, or max_rounds where the rounds have run out.
  pub refused_turn_shows_refusal :
      (o : FinalOpts) (args : Option Fields) (answer exit_kind : String) (notes : List String)
      (c : MiddlewareContext fl.Float) (s : S)
      → bool_data "hooks_must_refuse"
          (p.inspect_jailbreak c (pre_policy fl p answer (layer_of_return fl p o args)))
        ≡ true
      → contains_text (refusal_for o.policy (layer_of_return fl p o args)) "wish_i_knew" ≡ false
      → ((finish_turn fl p o args answer exit_kind notes c s).answer
          ≡ refusal_for o.policy (layer_of_return fl p o args))
        × ((finish_turn fl p o args answer exit_kind notes c s).status
            ≡ (if exit_kind == "max_rounds" then turn_max_rounds else turn_refused))
  unfolding finish_turn
  refused_turn_shows_refusal o args answer exit_kind notes c s refused clean =
      let parsed = layer_of_return fl p o args in
      let shown = pre_policy fl p answer parsed in
      let inspected = p.inspect_jailbreak c shown in
      let layer = layer_or_refused parsed in
      let text = refusal_for_lem o.policy parsed in
      let (answered, status) = refused_end o inspected layer shown exit_kind refused in
      rw (or_refused_lem (bool_data "hooks_must_refuse" inspected) parsed refused, answered, text)
        (shown_text (some layer) (refusal_for o.policy parsed) clean, status)
