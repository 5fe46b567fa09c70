-- ===== src/Policy.antt =====
-- domain/policy.go: the policy table that runs after every terminated turn. The scores are Go
-- floats, of which the table asks only whether they reach one half.
pub mod Conditions
pub mod Table
mod Examples
use zeus_client_golang.Shared.{
  ℕ, String, Bool, true, false, ◌&&◌, ◌||◌, not, List, [], ◌∷◌, Option, none, some, if◌then◌else◌,
  ◌==◌, is_empty,
}
use zeus_client_golang.Shared.Maps.{Dict, lookup, put, put_all}
use zeus_client_golang.Shared.Json.{Value, Fields, Items, end, field, str, null, set}
use zeus_client_golang.Rules.{sdk_default_jailbreak_rules}

-- float64
pub record Floats : Type 1 where
  pub Float : Type 0
  pub zero : Float
  -- x >= 0.5
  pub at_least_half : Float → Bool

-- domain.LayerA; `app_output` and the decompositions are none where the Go maps are nil
pub record LayerA (F : Type 0) : Type 0 where
  pub summary : String
  pub query_decomposition : Option Fields
  pub decomposition : Option Fields
  pub confidence : String
  pub policy_action : String
  pub business_rules_triggers : Dict Bool
  pub app_output : Option Fields
  pub jail_break_attempt : Option F
  pub wish_i_knew : Items
  pub data_gaps : Items
  pub entity_refs : Value
  pub node_refs : Value
  pub provenance : Value
  pub raw : Fields
  pub errors : List String
  pub warnings : List String

pub record PolicySettings : Type 0 where
  pub messages : Dict String
  pub sticky_flags : Dict Bool
  pub soft_require_policy_action : Bool

pub record DecidePolicyOpts (F : Type 0) : Type 0 where
  pub settings : PolicySettings
  pub hooks_jailbreak_score : F
  pub hooks_must_refuse : Bool
  pub brand_inject_present : Bool

pub record PolicyDecision (F : Type 0) : Type 0 where
  pub policy : String
  pub ui_text : String
  pub flags : Dict Bool
  pub hooks_jailbreak_score : F
  pub must_refuse : Bool
  pub forced : Bool
  pub reason : String
  pub soft_require_policy_action_missing : Bool

abbrev pub policy_answer : String
policy_answer = "answer"

abbrev pub policy_clarify : String
policy_clarify = "clarify"

abbrev pub policy_refuse : String
policy_refuse = "refuse"

abbrev pub policy_error : String
policy_error = "error"

abbrev pub default_message_jailbreak_soft : String
default_message_jailbreak_soft =
    "I can only help with questions about our product using store data. I can't ignore those limits or invent offers that are not in our system."

abbrev pub default_message_failure : String
default_message_failure = "Sorry — I can't complete that request. Could you rephrase what you need?"

-- The loops of StickyOrFlags: the flags that are set.
unfoldable pub set_flags : Dict Bool → Dict Bool → Dict Bool
set_flags [] out = out
set_flags ((k, v) ∷ m) out = let rest = set_flags m out in if v then put k true rest else rest

unfoldable pub sticky_or_flags : Dict Bool → Dict Bool → Dict Bool
unfolding set_flags
sticky_or_flags prior triggers = set_flags triggers (set_flags prior [])

abbrev pub bool_or_false : Option Bool → Bool
bool_or_false none = false
bool_or_false (some b) = b

abbrev pub text_or_empty : Option String → String
text_or_empty none = ""
text_or_empty (some s) = s

-- m[k] of a `map[string]bool`
unfoldable pub is_set : String → Dict Bool → Bool
is_set k m = bool_or_false (lookup k m)

unfoldable pub any_key_set : Dict String → Dict Bool → Bool
any_key_set [] triggers = false
any_key_set ((k, _) ∷ rules) triggers = is_set k triggers || any_key_set rules triggers

-- JailbreakKeysHit
unfoldable pub jailbreak_keys_hit : Dict Bool → Bool
jailbreak_keys_hit triggers = any_key_set sdk_default_jailbreak_rules triggers

unfoldable pub message : String → PolicySettings → String
message k settings = text_or_empty (lookup k settings.messages)

abbrev pub or_text : String → String → String
or_text s t = if s == "" then t else s

abbrev is_end : Fields → Bool
is_end end = true
is_end (field _ _ _) = false

-- incompleteObject
unfoldable pub incomplete_object : Option Fields → Bool
incomplete_object none = true
incomplete_object (some m) = is_end m

module _ {F : Type 0} where
  unfoldable pub is_incomplete : LayerA F → Bool
  unfolding incomplete_object
  is_incomplete layer =
      incomplete_object layer.query_decomposition || incomplete_object layer.decomposition

  -- MapMessage
  unfoldable pub map_message : String → PolicySettings → LayerA F → String
  unfolding message
  map_message policy settings layer =
      if policy == policy_refuse
      then (if not (layer.summary == "") && layer.policy_action == policy_refuse
          then layer.summary
          else or_text (message "message_jailbreak_soft" settings) default_message_jailbreak_soft)
      else if policy == policy_error
      then or_text (message "message_failure" settings) default_message_failure
      else if policy == policy_clarify
      then or_text layer.summary (message "message_clarify" settings)
      else layer.summary

-- The row of the table that a turn falls on.
pub record Row : Type 0 where
  pub policy : String
  pub forced : Bool
  pub reason : String

abbrev pub row : String → Bool → String → Row
row p f r = record { policy = p; forced = f; reason = r }

abbrev pub is_policy : String → Bool
is_policy a = a == policy_answer || a == policy_clarify || a == policy_refuse || a == policy_error

module _ (fl : Floats) where
  abbrev pub attempt : Option fl.Float → fl.Float
  attempt none = fl.zero
  attempt (some x) = x

  unfoldable pub score_hit : LayerA fl.Float → DecidePolicyOpts fl.Float → Bool
  score_hit layer opts =
      fl.at_least_half (attempt layer.jail_break_attempt)
      || fl.at_least_half opts.hooks_jailbreak_score

  -- The `switch` of DecidePolicy.
  unfoldable pub choose_row : LayerA fl.Float → DecidePolicyOpts fl.Float → Row
  choose_row layer opts =
      if opts.hooks_must_refuse
      then row policy_refuse true "hooks_must_refuse"
      else if not (is_empty layer.errors)
      then row policy_error true "layer_a_validation_failed"
      else if jailbreak_keys_hit layer.business_rules_triggers && score_hit layer opts
      then row policy_refuse true "jailbreak_triggers_and_score"
      else if is_policy layer.policy_action
      then row layer.policy_action false "model_policy_action"
      else if is_incomplete layer
      then row policy_clarify false "incomplete_layer_a"
      else row policy_answer false "default_answer"

  unfoldable pub decide_policy :
      LayerA fl.Float → DecidePolicyOpts fl.Float → PolicyDecision fl.Float
  unfolding choose_row
  decide_policy layer opts =
      let r = choose_row layer opts in
      record {
        policy = r.policy;
        ui_text = map_message r.policy opts.settings layer;
        flags = sticky_or_flags opts.settings.sticky_flags layer.business_rules_triggers;
        hooks_jailbreak_score = opts.hooks_jailbreak_score;
        must_refuse = r.policy == policy_refuse && r.forced;
        forced = r.forced;
        reason = r.reason;
        soft_require_policy_action_missing =
            opts.settings.soft_require_policy_action
            && opts.brand_inject_present
            && layer.policy_action == "";
      }
