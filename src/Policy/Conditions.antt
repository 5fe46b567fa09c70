-- ===== src/Policy/Conditions.antt =====
-- What the tests of DecidePolicy of domain/policy.go look for, said without them.
use zeus_client_golang.Rules.{sdk_default_jailbreak_rules}
use zeus_client_golang.Shared.{
  String, Bool, true, false, ◌&&◌, ◌≡◌, ◌≢◌, ◌↔◌, ◌⊎◌, inl, inr, refl, [], ◌∷◌, Option, none, some,
  arith, eq_iff, ◌==◌, Bool-cases, Option-cases,
}
use zeus_client_golang.Shared.Maps.{Dict, lookup, has}
use zeus_client_golang.Shared.Json.{Value, Fields, end, field}
use zeus_client_golang.Policy.{
  Floats, LayerA, DecidePolicyOpts, any_key_set, is_set, jailbreak_keys_hit, score_hit, is_policy,
  is_incomplete, incomplete_object,
}

-- Which rules of the SDK the turn has triggered, and which scores are high, without the tests of
-- the code.
abbrev pub IsRuleTriggered : Dict Bool → Type 0
IsRuleTriggered triggers =
    (k : String) × (has k sdk_default_jailbreak_rules ≡ true) × (lookup k triggers ≡ some true)

abbrev pub IsScoreHigh : (fl : Floats) → LayerA fl.Float → DecidePolicyOpts fl.Float → Type 0
IsScoreHigh fl layer opts =
    (fl.at_least_half opts.hooks_jailbreak_score ≡ true)
    ⊎ (((x : fl.Float) × (layer.jail_break_attempt ≡ some x) × (fl.at_least_half x ≡ true))
        ⊎ ((layer.jail_break_attempt ≡ none) × (fl.at_least_half fl.zero ≡ true)))

any_key_set-lookup :
    (rules : Dict String) (triggers : Dict Bool)
    → any_key_set rules triggers ≡ true
    → (k : String) × (has k rules ≡ true) × (lookup k triggers ≡ some true)
unfolding any_key_set is_set has lookup
any_key_set-lookup [] triggers h = absurd (ground (arith, h))
any_key_set-lookup ((j, t) ∷ rules) triggers h = elim (Option-cases (lookup j triggers)) [
  | inl missing ↦
      let (k, known, hit) = any_key_set-lookup rules triggers (ground (arith, h, missing)) in
      (k, ground (arith, known), hit)
  | inr (true, found) ↦ (j, ground (arith, eq_iff j j), found)
  | inr (false, found) ↦
      let (k, known, hit) = any_key_set-lookup rules triggers (ground (arith, h, found)) in
      (k, ground (arith, known), hit)
]

lookup-any_key_set :
    (rules : Dict String) (triggers : Dict Bool) (k : String)
    → has k rules ≡ true
    → lookup k triggers ≡ some true
    → any_key_set rules triggers ≡ true
unfolding any_key_set is_set has
lookup-any_key_set [] triggers k known hit = absurd (unfold lookup in ground (arith, known))
lookup-any_key_set ((j, t) ∷ rules) triggers k known hit = elim (Bool-cases (j == k)) [
  | inl same ↦ rw ((eq_iff j k).0 same, hit) refl
  | inr other ↦
      let rest : has k rules ≡ true = unfold lookup in ground (arith, known, other) in
      ground (arith, lookup-any_key_set rules triggers k rest hit)
]

pub rule_hit :
    (triggers : Dict Bool) → (jailbreak_keys_hit triggers ≡ true) ↔ IsRuleTriggered triggers
unfolding jailbreak_keys_hit
rule_hit triggers = (
  any_key_set-lookup sdk_default_jailbreak_rules triggers,
  (λ (k, known, hit). lookup-any_key_set sdk_default_jailbreak_rules triggers k known hit),
)

pub score_high :
    (fl : Floats) (layer : LayerA fl.Float) (opts : DecidePolicyOpts fl.Float)
    → (score_hit fl layer opts ≡ true) ↔ IsScoreHigh fl layer opts
unfolding score_hit
score_high fl layer opts = (
  (λ h. elim (Bool-cases (fl.at_least_half opts.hooks_jailbreak_score)) [
    | inl hooks ↦ inl hooks
    | inr low ↦ elim (Option-cases layer.jail_break_attempt) [
      | inl missing ↦ inr (inr (missing, (let h' = rw missing at h in ground (arith, h', low))))
      | inr (x, found) ↦ inr (inl (x, found, (let h' = rw found at h in ground (arith, h', low))))
    ]
  ]),
  (λ h. elim h [
    | inl hooks ↦ ground (arith, hooks)
    | inr (inl (x, e, high)) ↦ rw e (ground (arith, high))
    | inr (inr (e, high)) ↦ rw e (ground (arith, high))
  ]),
)

pub jailbreak :
    (fl : Floats) (layer : LayerA fl.Float) (opts : DecidePolicyOpts fl.Float)
    → ((jailbreak_keys_hit layer.business_rules_triggers && score_hit fl layer opts) ≡ false)
      ↔ (¬ (IsRuleTriggered layer.business_rules_triggers × IsScoreHigh fl layer opts))
jailbreak fl layer opts =
    let rule = rule_hit layer.business_rules_triggers in
    let score = score_high fl layer opts in
    (
      (λ h (hit, high). ground (arith, h, rule.1 hit, score.1 high)),
      (λ h. elim (Bool-cases (jailbreak_keys_hit layer.business_rules_triggers)) [
        | inr missed ↦ rw missed refl
        | inl hit ↦ elim (Bool-cases (score_hit fl layer opts)) [
          | inr low ↦ rw (hit, low) refl
          | inl high ↦ absurd (h (rule.0 hit, score.0 high))
        ]
      ]),
    )

-- An object that is there and has an entry.
abbrev pub IsFilled : Option Fields → Type 0
IsFilled m = (k : String) × (v : Value) × (rest : Fields) × (m ≡ some (field k v rest))

incomplete_object_lem : (m : Option Fields) → (incomplete_object m ≡ false) ↔ IsFilled m
unfolding incomplete_object
incomplete_object_lem none = ((λ h. ground (arith, h)), (λ (k, v, rest, e). ground (arith, e)))
incomplete_object_lem (some end) =
    ((λ h. ground (arith, h)), (λ (k, v, rest, e). ground (arith, e)))
incomplete_object_lem (some (field k v rest)) = ((λ h. (k, v, rest, refl)), (λ h. refl))

pub is_incomplete_lem :
    {F : Type 0} (layer : LayerA F)
    → (is_incomplete layer ≡ false)
      ↔ (IsFilled layer.query_decomposition × IsFilled layer.decomposition)
unfolding is_incomplete
is_incomplete_lem layer =
    let query = incomplete_object_lem layer.query_decomposition in
    let plan = incomplete_object_lem layer.decomposition in
    (
      (λ h. (query.0 (ground (arith, h)), plan.0 (ground (arith, h)))),
      (λ (q, p). ground (arith, query.1 q, plan.1 p)),
    )

-- An action that names no policy.
abbrev pub IsNoPolicy : String → Type 0
IsNoPolicy a = (a ≢ "answer") × (a ≢ "clarify") × (a ≢ "refuse") × (a ≢ "error")

pub is_policy_lem : (a : String) → (is_policy a ≡ false) ↔ IsNoPolicy a
is_policy_lem a = (
  (λ h. (
    (λ e. ground (arith, h, eq_iff a "answer")),
    (λ e. ground (arith, h, eq_iff a "clarify")),
    (λ e. ground (arith, h, eq_iff a "refuse")),
    (λ e. ground (arith, h, eq_iff a "error")),
  )),
  (λ (w, x, y, z). ground (
    arith,
    w,
    x,
    y,
    z,
    eq_iff a "answer",
    eq_iff a "clarify",
    eq_iff a "refuse",
    eq_iff a "error",
  )),
)
