-- ===== src/Rules/Examples.antt =====
-- Rule merges at concrete maps.
use zeus_client_golang.Shared.Text.{trim_space}
use zeus_client_golang.Shared.{String, true, false, ◌≡◌, ◌↔◌, refl, [], ◌∷◌}
use zeus_client_golang.Shared.Maps.{Dict, lookup, put, put_all, has, or_else}
use zeus_client_golang.Errors.{ok}
use zeus_client_golang.Rules.{
  MergeRulesOptions, sdk_pack, merge_rules, append_session_rules, is_jailbreak_rule, filter_request,
  overlay, is_blank, sdk_default_jailbreak_rules, append_rules,
}
use zeus_client_golang.Rules.Merge.{
  kept, merge_rules_exact, jailbreak_rule_protected, merge_rules_succeeds, blanks_protected,
}
use zeus_client_golang.Rules.Append.{append_session_rules_exact}

abbrev tenant_rules : Dict String
tenant_rules = ("tone", "Be polite.") ∷ ("no_secrets", "Tenant text.") ∷ []

abbrev request_rules : Dict String
request_rules = ("tone", "Be brief.") ∷ ("no_secrets", "Never mind.") ∷ ("unit", "   ") ∷ []

abbrev request : MergeRulesOptions
request = record {
  tenant_rules = tenant_rules;
  request_rules = request_rules;
  override_defaults = false;
}

abbrev merged : Dict String
merged =
    overlay false (("tone", "Be brief.") ∷ ("unit", "   ") ∷ [])
      (put_all tenant_rules (sdk_pack true))

merges : merge_rules request true ≡ ok merged
unfolding merge_rules filter_request overlay is_jailbreak_rule is_blank sdk_pack
    sdk_default_jailbreak_rules has lookup trim_space put
merges = refl

merge_rules_exact_example :
    lookup "tone" merged
    ≡ or_else
        (kept false "tone" (lookup "tone" request_rules))
        (or_else (lookup "tone" tenant_rules) (lookup "tone" (sdk_pack true)))
merge_rules_exact_example = merge_rules_exact request true merged "tone" merges

protected : is_jailbreak_rule "no_secrets" ≡ true
unfolding is_jailbreak_rule sdk_default_jailbreak_rules has lookup
protected = refl

jailbreak_rule_protected_example :
    (lookup "no_secrets" merged
      ≡ or_else
          (lookup "no_secrets" tenant_rules)
          (lookup "no_secrets" sdk_default_jailbreak_rules))
    × (has "no_secrets" merged ≡ true)
jailbreak_rule_protected_example =
    jailbreak_rule_protected tenant_rules request_rules merged "no_secrets" protected merges

merge_rules_succeeds_example :
    ((pack : Dict String) × (merge_rules request true ≡ ok pack))
    ↔ (blanks_protected request_rules ≡ false)
merge_rules_succeeds_example = merge_rules_succeeds tenant_rules request_rules true

appends :
    append_session_rules (("tone", "Be polite.") ∷ []) (("unit", "Use metres.") ∷ [])
    ≡ ok (("tone", "Be polite.") ∷ ("unit", "Use metres.") ∷ [])
unfolding append_session_rules append_rules lookup put_all put
appends = refl

abbrev polite : Dict String
polite = ("tone", "Be polite.") ∷ []

abbrev metres : Dict String
metres = ("unit", "Use metres.") ∷ []

append_session_rules_exact_example :
    (lookup "unit" (("tone", "Be polite.") ∷ metres)
      ≡ or_else (lookup "unit" polite) (lookup "unit" metres))
    × (lookup "unit" (("tone", "Be polite.") ∷ metres)
        ≡ or_else (lookup "unit" metres) (lookup "unit" polite))
append_session_rules_exact_example =
    append_session_rules_exact polite metres (("tone", "Be polite.") ∷ metres) "unit" appends
