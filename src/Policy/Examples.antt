-- ===== src/Policy/Examples.antt =====
-- The policy table at concrete turns. The scores here are hundredths.
use zeus_client_golang.Rules.{sdk_default_jailbreak_rules}
use zeus_client_golang.Shared.{
  ℕ, String, Bool, true, false, ◌||◌, ◌≡◌, eq_iff, ◌↔◌, ◌⊎◌, refl, [], ◌∷◌, List, some, none,
  if◌then◌else◌, arith, leb,
}
use zeus_client_golang.Shared.Maps.{Dict, lookup, IsUnique, has}
use zeus_client_golang.Shared.Json.{end, field, str, null, nil}
use zeus_client_golang.Policy.{
  Floats, LayerA, DecidePolicyOpts, is_set, jailbreak_keys_hit, decide_policy, policy_answer,
  policy_refuse, message, or_text, default_message_jailbreak_soft, default_message_failure,
  any_key_set,
}
use zeus_client_golang.Policy.Conditions.{IsRuleTriggered, IsScoreHigh, IsFilled, IsNoPolicy}
use zeus_client_golang.Policy.Table.{
  must_refuse_exact, answer_guarded, forced_hides_model_text, flag_never_clears, flags_after,
  set_in_some,
}

abbrev hundredths : Floats
hundredths = record { Float = ℕ; zero = 0; at_least_half = leb 50 }

abbrev layer : List String → LayerA ℕ
layer problems = record {
  summary = "Two rooms are free.";
  query_decomposition = some (field "intent" (str "rooms") end);
  decomposition = some (field "step" (str "list") end);
  confidence = "high";
  policy_action = "answer";
  business_rules_triggers = ("tone", true) ∷ ("unit", false) ∷ [];
  app_output = none;
  jail_break_attempt = some 20;
  wish_i_knew = nil;
  data_gaps = nil;
  entity_refs = null;
  node_refs = null;
  provenance = null;
  raw = end;
  errors = problems;
  warnings = [];
}

abbrev options : DecidePolicyOpts ℕ
options = record {
  settings = record {
    messages = ("message_failure", "Please try again.") ∷ [];
    sticky_flags = ("seen", true) ∷ [];
    soft_require_policy_action = true;
  };
  hooks_jailbreak_score = 10;
  hooks_must_refuse = false;
  brand_inject_present = false;
}

abbrev prior : Dict Bool
prior = ("tone", false) ∷ ("seen", true) ∷ []

abbrev triggers : Dict Bool
triggers = ("tone", true) ∷ []

prior-IsUnique : IsUnique prior
unfolding has lookup
prior-IsUnique = (refl, (refl, tt))

triggers-IsUnique : IsUnique triggers
unfolding has lookup
triggers-IsUnique = (refl, tt)

flag_never_clears_example :
    is_set "seen" (flags_after prior (triggers ∷ [] ∷ []))
    ≡ (is_set "seen" prior || set_in_some "seen" (triggers ∷ [] ∷ []))
flag_never_clears_example =
    flag_never_clears prior (triggers ∷ [] ∷ []) "seen" prior-IsUnique (triggers-IsUnique, (tt, tt))

must_refuse_exact_example : ((decide_policy hundredths (layer []) options).must_refuse ≡ true) ↔ (
    (false ≡ true)
    ⊎ (((layer []).errors ≡ [])
        × IsRuleTriggered ((layer []).business_rules_triggers)
        × IsScoreHigh hundredths (layer []) options))
must_refuse_exact_example = must_refuse_exact hundredths (layer []) options

answers : (decide_policy hundredths (layer []) options).policy ≡ policy_answer
unfolding decide_policy jailbreak_keys_hit any_key_set sdk_default_jailbreak_rules is_set lookup
answers = refl

answer_guarded_example : ((decide_policy hundredths (layer []) options).policy ≡ policy_answer) ↔ (
    (false ≡ false)
    × ((layer []).errors ≡ [])
    × (¬ (
        IsRuleTriggered ((layer []).business_rules_triggers)
        × IsScoreHigh hundredths (layer []) options))
    × (("answer" ≡ policy_answer)
        ⊎ (IsNoPolicy "answer"
            × IsFilled (layer []).query_decomposition
            × IsFilled (layer []).decomposition)))
answer_guarded_example = answer_guarded hundredths (layer []) options

forces : (decide_policy hundredths (layer ("no summary" ∷ [])) options).forced ≡ true
unfolding decide_policy
forces = refl

forced_hides_model_text_example :
    (decide_policy hundredths (layer ("no summary" ∷ [])) options).ui_text ≡ (
      if (decide_policy hundredths (layer ("no summary" ∷ [])) options).must_refuse
      then or_text
          (message "message_jailbreak_soft" (options.settings))
          default_message_jailbreak_soft
      else or_text (message "message_failure" (options.settings)) default_message_failure)
forced_hides_model_text_example =
    forced_hides_model_text hundredths (layer ("no summary" ∷ [])) options forces
      (λ e. ground (arith, eq_iff "answer" policy_refuse))
