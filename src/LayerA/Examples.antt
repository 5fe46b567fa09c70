-- ===== src/LayerA/Examples.antt =====
-- Returns of a model, complete and not.
use zeus_client_golang.Shared.{◌↔◌, ℕ, true, false, [], none, ◌≡◌, refl, arith, leb}
use zeus_client_golang.Shared.Int.{pos_part}
use zeus_client_golang.Shared.Json.{Fields, str, obj, end, field, get}
use zeus_client_golang.Policy.{
  Floats, DecidePolicyOpts, decide_policy, policy_error, or_text, message, default_message_failure,
}
use zeus_client_golang.LayerA.{ParseLayerAOpts, required_errors, parse_layer_a, apply_pack_schema}
use zeus_client_golang.LayerA.Required.{IsComplete, required_exact, incomplete_is_error}

abbrev hundredths : Floats
hundredths = record { Float = ℕ; zero = 0; at_least_half = leb 50 }

abbrev full : Fields
full = field "summary" (str " Two rooms. ") (
    field "query_decomposition" (obj end)
      (field "query_understanding" (obj end) (field "confidence" (str "med") end)))

full_passes : required_errors full ≡ []
unfolding required_errors
full_passes = refl

required_exact_example : (required_errors full ≡ []) ↔ IsComplete full
required_exact_example = required_exact full

abbrev parse_options : ParseLayerAOpts
parse_options = record { output_request = end; app_output_on_error = "" }

abbrev options : DecidePolicyOpts ℕ
options = record {
  settings = record { messages = []; sticky_flags = []; soft_require_policy_action = false };
  hooks_jailbreak_score = 0;
  hooks_must_refuse = false;
  brand_inject_present = false;
}

empty-IsComplete : ¬ IsComplete end
unfolding get
empty-IsComplete ((s, text, ne), _, _, _) = ground (arith, text)

incomplete_is_error_example :
    ((decide_policy hundredths
        (apply_pack_schema (parse_layer_a pos_part end parse_options) none)
        options).policy
      ≡ policy_error)
    × ((decide_policy hundredths
          (apply_pack_schema (parse_layer_a pos_part end parse_options) none)
          options).forced
        ≡ true)
    × ((decide_policy hundredths
          (apply_pack_schema (parse_layer_a pos_part end parse_options) none)
          options).ui_text
        ≡ or_text (message "message_failure" options.settings) default_message_failure)
incomplete_is_error_example =
    incomplete_is_error hundredths pos_part end parse_options none options empty-IsComplete refl
