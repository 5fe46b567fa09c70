-- ===== src/Policy/Table.antt =====
-- DecidePolicy and StickyOrFlags of domain/policy.go.
use zeus_client_golang.Shared.{
  String, Bool, true, false, ◌&&◌, ◌||◌, ◌≡◌, ◌≢◌, ◌↔◌, ◌⊎◌, inl, inr, refl, List, [], ◌∷◌, none,
  some, arith, eq_iff, if◌then◌else◌, is_empty, is_empty_lem,
}
use zeus_client_golang.Shared.Maps.{Dict, lookup, IsUnique, lookup-put, lookup_of_has, put-IsUnique}
use zeus_client_golang.Policy.Conditions.{
  IsRuleTriggered, IsScoreHigh, IsFilled, IsNoPolicy, rule_hit, score_high, jailbreak,
  is_incomplete_lem, is_policy_lem,
}
use zeus_client_golang.Policy.{
  Floats, LayerA, DecidePolicyOpts, Row, set_flags, sticky_or_flags, is_set, jailbreak_keys_hit,
  is_incomplete, score_hit, choose_row, decide_policy, map_message, message, or_text,
  default_message_jailbreak_soft, default_message_failure, policy_refuse, policy_answer, is_policy,
  row, policy_error, policy_clarify,
}

lookup-set_flags :
    (m out : Dict Bool) (k : String)
    → IsUnique m
    → lookup k (set_flags m out) ≡ (if is_set k m then some true else lookup k out)
unfolding set_flags is_set lookup
lookup-set_flags [] out k u = refl
lookup-set_flags ((j, v) ∷ m) out k u = ground (
  arith,
  lookup-set_flags m out k u.1,
  lookup-put j k true (set_flags m out),
  lookup_of_has j m u.0,
  eq_iff j k,
)

sticky_or_flags_exact :
    (prior triggers : Dict Bool) (k : String)
    → IsUnique prior
    → IsUnique triggers
    → lookup k (sticky_or_flags prior triggers)
      ≡ (if is_set k prior || is_set k triggers then some true else none)
unfolding sticky_or_flags
sticky_or_flags_exact prior triggers k u w =
    unfold lookup in
    ground
      (arith, lookup-set_flags triggers (set_flags prior []) k w, lookup-set_flags prior [] k u)

-- The rows of the table, each with what it tests.
abbrev RowOf : (fl : Floats) → LayerA fl.Float → DecidePolicyOpts fl.Float → Row → Type 0
RowOf fl layer opts r =
    ((opts.hooks_must_refuse ≡ true) × (r ≡ row policy_refuse true "hooks_must_refuse"))
    ⊎ (((opts.hooks_must_refuse ≡ false)
          × (is_empty layer.errors ≡ false)
          × (r ≡ row policy_error true "layer_a_validation_failed"))
        ⊎ (((opts.hooks_must_refuse ≡ false)
              × (is_empty layer.errors ≡ true)
              × ((jailbreak_keys_hit layer.business_rules_triggers && score_hit fl layer opts)
                  ≡ true)
              × (r ≡ row policy_refuse true "jailbreak_triggers_and_score"))
            ⊎ ((opts.hooks_must_refuse ≡ false)
                × (is_empty layer.errors ≡ true)
                × ((jailbreak_keys_hit layer.business_rules_triggers && score_hit fl layer opts)
                    ≡ false)
                × (((is_policy layer.policy_action ≡ true)
                      × (r ≡ row layer.policy_action false "model_policy_action"))
                    ⊎ (((is_policy layer.policy_action ≡ false)
                          × (is_incomplete layer ≡ true)
                          × (r ≡ row policy_clarify false "incomplete_layer_a"))
                        ⊎ ((is_policy layer.policy_action ≡ false)
                            × (is_incomplete layer ≡ false)
                            × (r ≡ row policy_answer false "default_answer")))))))

choose_row-cases :
    (fl : Floats) (layer : LayerA fl.Float) (opts : DecidePolicyOpts fl.Float)
    → RowOf fl layer opts (choose_row fl layer opts)
unfolding choose_row
choose_row-cases fl layer opts = ground arith

must_refuse_row :
    (fl : Floats) (layer : LayerA fl.Float) (opts : DecidePolicyOpts fl.Float)
    → ((decide_policy fl layer opts).must_refuse ≡ true) ↔ (
        (opts.hooks_must_refuse ≡ true)
        ⊎ ((layer.errors ≡ [])
            × (jailbreak_keys_hit layer.business_rules_triggers ≡ true)
            × (score_hit fl layer opts ≡ true)))
unfolding decide_policy
must_refuse_row fl layer opts = elim (choose_row-cases fl layer opts) [
  | inl (h, e) ↦ rw e (ground arith)
  | inr (inl (h, b, e)) ↦ rw e (ground arith)
  | inr (inr (inl (h, b, j, e))) ↦ rw e (ground (arith, is_empty_lem layer.errors b))
  | inr (inr (inr (h, b, j, inl (a, e)))) ↦ rw e (ground arith)
  | inr (inr (inr (h, b, j, inr (inl (a, i, e))))) ↦ rw e (ground arith)
  | inr (inr (inr (h, b, j, inr (inr (a, i, e))))) ↦ rw e (ground arith)
]

answer_row :
    (fl : Floats) (layer : LayerA fl.Float) (opts : DecidePolicyOpts fl.Float)
    → ((decide_policy fl layer opts).policy ≡ policy_answer) ↔ (
        (opts.hooks_must_refuse ≡ false)
        × (layer.errors ≡ [])
        × ((jailbreak_keys_hit layer.business_rules_triggers && score_hit fl layer opts) ≡ false)
        × ((layer.policy_action ≡ policy_answer)
            ⊎ ((is_policy layer.policy_action ≡ false) × (is_incomplete layer ≡ false))))
unfolding decide_policy
answer_row fl layer opts = elim (choose_row-cases fl layer opts) [
  | inl (c, e) ↦ rw e (ground (arith, eq_iff policy_refuse policy_answer))
  | inr (inl (c, b, e)) ↦ rw e (ground (arith, eq_iff policy_error policy_answer))
  | inr (inr (inl (c, b, j, e))) ↦ rw e (ground (arith, eq_iff policy_refuse policy_answer))
  | inr (inr (inr (c, b, j, inl (a, e)))) ↦
      rw e (ground (arith, eq_iff layer.policy_action policy_answer, is_empty_lem layer.errors b))
  | inr (inr (inr (c, b, j, inr (inl (a, i, e))))) ↦ rw e (
      ground (arith, eq_iff policy_clarify policy_answer, eq_iff layer.policy_action policy_answer))
  | inr (inr (inr (c, b, j, inr (inr (a, i, e))))) ↦
      rw e (ground (arith, eq_iff layer.policy_action policy_answer, is_empty_lem layer.errors b))
]

-- DecidePolicy demands a refusal if and only if the hooks demand one, or Layer A has no errors,
-- some key of the rules of the SDK is set to true in the triggers, and the score of the hooks or
-- that of Layer A, which is zero where Layer A has none, is at least one half.
pub must_refuse_exact :
    (fl : Floats) (layer : LayerA fl.Float) (opts : DecidePolicyOpts fl.Float)
    → ((decide_policy fl layer opts).must_refuse ≡ true) ↔ (
        (opts.hooks_must_refuse ≡ true)
        ⊎ ((layer.errors ≡ [])
            × IsRuleTriggered layer.business_rules_triggers
            × IsScoreHigh fl layer opts))
must_refuse_exact fl layer opts =
    let base = must_refuse_row fl layer opts in
    let rule = rule_hit layer.business_rules_triggers in
    let score = score_high fl layer opts in
    (
      (λ h. elim (base.0 h) [
        | inl hooks ↦ inl hooks
        | inr (clean, hit, high) ↦ inr (clean, rule.0 hit, score.0 high)
      ]),
      (λ h. base.1 (elim h [
        | inl hooks ↦ inl hooks
        | inr (clean, hit, high) ↦ inr (clean, rule.1 hit, score.1 high)
      ])),
    )

-- The decision is "answer" if and only if the hooks demand no refusal, Layer A has no errors, it
-- is not the case that some key of the rules of the SDK is set to true in the triggers and one of
-- the two scores is at least one half, and the action of the model is "answer", or is none of
-- "answer", "clarify", "refuse" and "error" while both decompositions are there and not empty.
pub answer_guarded :
    (fl : Floats) (layer : LayerA fl.Float) (opts : DecidePolicyOpts fl.Float)
    → ((decide_policy fl layer opts).policy ≡ policy_answer) ↔ (
        (opts.hooks_must_refuse ≡ false)
        × (layer.errors ≡ [])
        × (¬ (IsRuleTriggered layer.business_rules_triggers × IsScoreHigh fl layer opts))
        × ((layer.policy_action ≡ policy_answer)
            ⊎ (IsNoPolicy layer.policy_action
                × IsFilled layer.query_decomposition
                × IsFilled layer.decomposition)))
answer_guarded fl layer opts =
    let base = answer_row fl layer opts in
    let bad = jailbreak fl layer opts in
    let unknown = is_policy_lem layer.policy_action in
    let full = is_incomplete_lem layer in
    (
      (λ h.
          let (hooks, clean, calm, action) = base.0 h in
          (
            hooks,
            clean,
            bad.0 calm,
            elim action [
              | inl own ↦ inl own
              | inr (other, complete) ↦
                  (let objects = full.0 complete in inr (unknown.0 other, objects.0, objects.1))
            ],
          )),
      (λ (hooks, clean, calm, action). base.1 (
        hooks,
        clean,
        bad.1 calm,
        elim action [
          | inl own ↦ inl own
          | inr (other, query, plan) ↦ inr (unknown.1 other, full.1 (query, plan))
        ],
      )),
    )

-- When the decision is forced and the model did not itself choose to refuse, the text for the user
-- is the configured or default message of the refusal or of the failure, never the summary of the
-- model.
pub forced_hides_model_text :
    (fl : Floats) (layer : LayerA fl.Float) (opts : DecidePolicyOpts fl.Float)
    → (decide_policy fl layer opts).forced ≡ true
    → layer.policy_action ≢ policy_refuse
    → (decide_policy fl layer opts).ui_text ≡ (
        if (decide_policy fl layer opts).must_refuse
        then or_text (message "message_jailbreak_soft" opts.settings) default_message_jailbreak_soft
        else or_text (message "message_failure" opts.settings) default_message_failure)
unfolding decide_policy map_message
forced_hides_model_text fl layer opts h ne = elim (choose_row-cases fl layer opts) [
  | inl (c, e) ↦
      let h2 : true ≡ true = rw e at h in
      rw e (ground (arith, eq_iff layer.policy_action policy_refuse))
  | inr (inl (c, b, e)) ↦
      let h2 : true ≡ true = rw e at h in
      rw e (ground (arith, eq_iff layer.policy_action policy_refuse))
  | inr (inr (inl (c, b, j, e))) ↦
      let h2 : true ≡ true = rw e at h in
      rw e (ground (arith, eq_iff layer.policy_action policy_refuse))
  | inr (inr (inr (c, b, j, inl (a, e)))) ↦ let h2 : false ≡ true = rw e at h in ground arith
  | inr (inr (inr (c, b, j, inr (inl (a, i, e))))) ↦
      let h2 : false ≡ true = rw e at h in ground arith
  | inr (inr (inr (c, b, j, inr (inr (a, i, e))))) ↦
      let h2 : false ≡ true = rw e at h in ground arith
]

-- The flags after a list of turns, each with its triggers.
abbrev pub flags_after : Dict Bool → List (Dict Bool) → Dict Bool
flags_after prior [] = prior
flags_after prior (t ∷ ts) = flags_after (sticky_or_flags prior t) ts

abbrev pub AllUnique : List (Dict Bool) → Type 0
AllUnique [] = Unit
AllUnique (t ∷ ts) = IsUnique t × AllUnique ts

abbrev pub set_in_some : String → List (Dict Bool) → Bool
set_in_some k [] = false
set_in_some k (t ∷ ts) = is_set k t || set_in_some k ts

set_flags-IsUnique : (m out : Dict Bool) → IsUnique out → IsUnique (set_flags m out)
unfolding set_flags
set_flags-IsUnique [] out u = u
set_flags-IsUnique ((j, v) ∷ m) out u =
    ground (arith, set_flags-IsUnique m out u, put-IsUnique j true (set_flags m out))

-- Over any list of turns, a sticky flag is set at the end if and only if it was set at the start
-- or by the triggers of some turn, if no map lists a key twice.
pub flag_never_clears :
    (prior : Dict Bool) (turns : List (Dict Bool)) (k : String)
    → IsUnique prior
    → AllUnique turns
    → is_set k (flags_after prior turns) ≡ (is_set k prior || set_in_some k turns)
unfolding is_set sticky_or_flags
flag_never_clears prior [] k u w = ground arith
flag_never_clears prior (t ∷ ts) k u w = ground (
  arith,
  flag_never_clears (sticky_or_flags prior t) ts k
      (set_flags-IsUnique t (set_flags prior []) (set_flags-IsUnique prior [] tt)) w.1,
  sticky_or_flags_exact prior t k u w.0,
)
