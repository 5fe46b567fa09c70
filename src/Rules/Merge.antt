-- ===== src/Rules/Merge.antt =====
-- MergeRules and MergeRulesFrozen of domain/rules.go, key by key.
use zeus_client_golang.Shared.{
  String, Bool, true, false, ◌&&◌, ◌||◌, not, ◌≡◌, ◌↔◌, refl, [], ◌∷◌, Option, none, some, arith,
  eq_iff, eq_refl, is_empty, ap, ◌∙◌, if◌then◌else◌, ◌==◌, Bool-cases, inl, inr,
}
use zeus_client_golang.Shared.Maps.{
  Dict, lookup, put, put_all, has, or_else, IsUnique, lookup-put, lookup-put_all, put-IsUnique,
  lookup_of_has, has-lookup,
}
use zeus_client_golang.Errors.{Result, ok, err, ok_of_bind, ◌>>=◌}
use zeus_client_golang.Rules.{
  MergeRulesOptions, sdk_default_jailbreak_rules, is_jailbreak_rule, is_blank, filter_request,
  overlay, sdk_pack, merge_rules, merge_overlay_frozen, merge_rules_frozen, cannot_clear,
}

-- The text of a request rule that reaches the pack.
abbrev keep_if : Bool → Option String → Option String
keep_if true o = o
keep_if false o = none

abbrev pub kept : Bool → String → Option String → Option String
kept override k none = none
kept override k (some text) =
    if (not (is_jailbreak_rule k) || override) && (not (is_blank text) || override)
    then some text
    else none

abbrev unblank : Bool → Option String → Option String
unblank override none = none
unblank override (some text) = if not (is_blank text) || override then some text else none

lookup-overlay :
    (override : Bool) (filtered pack : Dict String) (k : String)
    → IsUnique filtered
    → lookup k (overlay override filtered pack)
      ≡ or_else (unblank override (lookup k filtered)) (lookup k pack)
unfolding overlay lookup
lookup-overlay override [] pack k u = refl
lookup-overlay override ((j, v) ∷ filtered) pack k u = ground (
  arith,
  lookup-overlay override filtered pack k,
  lookup-put j k v (overlay override filtered pack),
  lookup_of_has j filtered,
  eq_iff j k,
)

-- What the loop over the request's rules does with one of them.
abbrev kept_rule : Bool → String → String → Dict String → Result (Dict String)
kept_rule override j text kept =
    if is_jailbreak_rule j && not override
    then (if is_blank text then err (cannot_clear j) else ok kept)
    else ok (put j text kept)

filter_request-IsUnique :
    (override : Bool) (req filtered : Dict String)
    → filter_request override req ≡ ok filtered
    → IsUnique filtered
unfolding filter_request
filter_request-IsUnique override [] filtered h = ground arith
filter_request-IsUnique override ((j, text) ∷ req) filtered h =
    let (kept, first, rest) =
      ok_of_bind (filter_request override req) (kept_rule override j text) filtered h in
    ground (arith, filter_request-IsUnique override req kept first, put-IsUnique j text kept)

lookup-filter_request :
    (override : Bool) (req filtered : Dict String) (k : String)
    → filter_request override req ≡ ok filtered
    → lookup k filtered ≡ keep_if (not (is_jailbreak_rule k) || override) (lookup k req)
unfolding filter_request lookup
lookup-filter_request override [] filtered k h = ground arith
lookup-filter_request override ((j, text) ∷ req) filtered k h =
    let (kept, first, rest) =
      ok_of_bind (filter_request override req) (kept_rule override j text) filtered h in
    elim (Bool-cases (j == k)) [
      | inl same ↦ rw ((eq_iff j k).0 same) (
          let rest' : kept_rule override k text kept ≡ ok filtered =
            rw ((eq_iff j k).0 same) at rest in
          ground (
            arith,
            lookup-filter_request override req kept k first,
            lookup-put k k text kept,
            eq_refl k,
          ))
      | inr other ↦
          ground (
            arith,
            other,
            lookup-filter_request override req kept k first,
            lookup-put j k text kept,
          )
    ]

merge_request :
    (override : Bool) (req under pack : Dict String) (k : String)
    → (filter_request override req >>= λ filtered. ok (overlay override filtered under)) ≡ ok pack
    → lookup k pack ≡ or_else (kept override k (lookup k req)) (lookup k under)
merge_request override req under pack k h =
    let (filtered, passed, written) =
      ok_of_bind (filter_request override req) (λ filtered. ok (overlay override filtered under))
        pack h in
    ground (
      arith,
      written,
      lookup-filter_request override req filtered k passed,
      lookup-overlay override filtered under k
          (filter_request-IsUnique override req filtered passed),
    )

-- If MergeRules succeeds, the pack holds at every key the text of the request if the request may
-- set it (with the override always, else only a text that is not blank at a key that is no rule of
-- the SDK), else the text of the tenant, else that of the SDK if it is included.
pub merge_rules_exact :
    (opts : MergeRulesOptions) (include_sdk : Bool) (pack : Dict String) (k : String)
    → merge_rules opts include_sdk ≡ ok pack
    → lookup k pack
      ≡ or_else
          (kept opts.override_defaults k (lookup k opts.request_rules))
          (or_else (lookup k opts.tenant_rules) (lookup k (sdk_pack include_sdk)))
unfolding merge_rules
merge_rules_exact opts include_sdk pack k h = go opts.request_rules h
  where
    under : Dict String
    under = put_all opts.tenant_rules (sdk_pack include_sdk)

    go :
        (req : Dict String)
        → (if is_empty req
            then ok under
            else (filter_request opts.override_defaults req >>= λ filtered.
                ok (overlay opts.override_defaults filtered under)))
          ≡ ok pack
        → lookup k pack
          ≡ or_else
              (kept opts.override_defaults k (lookup k req))
              (or_else (lookup k opts.tenant_rules) (lookup k (sdk_pack include_sdk)))
    go [] e =
        unfold lookup in
        ground (arith, lookup-put_all k opts.tenant_rules (sdk_pack include_sdk), e)
    go (x ∷ req) e =
        merge_request opts.override_defaults (x ∷ req) under pack k e
        ∙ ap (or_else (kept opts.override_defaults k (lookup k (x ∷ req))))
            (lookup-put_all k opts.tenant_rules (sdk_pack include_sdk))

-- If MergeRules succeeds without the override and with the rules of the SDK included, then for
-- every rule of the SDK the pack holds the text of the tenant if the tenant has one and else the
-- text of the SDK, whatever the request asks; so no such rule is ever missing.
pub jailbreak_rule_protected :
    (tenant req : Dict String) (pack : Dict String) (k : String)
    → is_jailbreak_rule k ≡ true
    → merge_rules
        (record { tenant_rules = tenant; request_rules = req; override_defaults = false })
        true
      ≡ ok pack
    → (lookup k pack ≡ or_else (lookup k tenant) (lookup k sdk_default_jailbreak_rules))
      × (has k pack ≡ true)
unfolding is_jailbreak_rule has sdk_pack
jailbreak_rule_protected tenant req pack k jb h = ground (
  arith,
  merge_rules_exact
      (record { tenant_rules = tenant; request_rules = req; override_defaults = false }) true pack k
      h,
)

-- A rule of the request that would blank a rule of the SDK.
abbrev pub blanks_protected : Dict String → Bool
blanks_protected [] = false
blanks_protected ((k, text) ∷ req) = (is_jailbreak_rule k && is_blank text) || blanks_protected req

filter_request_total :
    (req : Dict String)
    → blanks_protected req ≡ false
    → (filtered : Dict String) × (filter_request false req ≡ ok filtered)
unfolding filter_request
filter_request_total [] h = ([], refl)
filter_request_total ((k, text) ∷ req) h =
    let (kept, passed) = filter_request_total req (ground arith) in
    (if is_jailbreak_rule k then kept else put k text kept, rw passed (ground arith))

filter_request_unblanked :
    (req filtered : Dict String)
    → filter_request false req ≡ ok filtered
    → blanks_protected req ≡ false
unfolding filter_request
filter_request_unblanked [] filtered h = refl
filter_request_unblanked ((k, text) ∷ req) filtered h =
    let (kept, first, rest) =
      ok_of_bind (filter_request false req) (kept_rule false k text) filtered h in
    ground (arith, filter_request_unblanked req kept first)

-- Without the override, MergeRules succeeds if and only if the request gives no blank text for a
-- rule of the SDK.
pub merge_rules_succeeds :
    (tenant req : Dict String) (include_sdk : Bool)
    → ((pack : Dict String) × (merge_rules
            (record { tenant_rules = tenant; request_rules = req; override_defaults = false })
            include_sdk
          ≡ ok pack))
      ↔ (blanks_protected req ≡ false)
unfolding merge_rules
merge_rules_succeeds tenant [] include_sdk =
    ((λ h. refl), (λ h. (put_all tenant (sdk_pack include_sdk), refl)))
merge_rules_succeeds tenant (x ∷ req) include_sdk =
    let under = put_all tenant (sdk_pack include_sdk) in
    (
      (λ h.
          let (filtered, passed, _) =
            ok_of_bind (filter_request false (x ∷ req))
              (λ filtered. ok (overlay false filtered under)) h.0 h.1 in
          filter_request_unblanked (x ∷ req) filtered passed),
      (λ h.
          let (filtered, passed) = filter_request_total (x ∷ req) h in
          (overlay false filtered under, rw passed refl)),
    )

merge_overlay_frozen_lem :
    (frozen : Bool) (over out : Dict String) (k : String)
    → IsUnique over
    → lookup k (merge_overlay_frozen frozen over out) ≡ (
        if frozen
        then or_else (lookup k out) (lookup k over)
        else or_else (lookup k over) (lookup k out))
unfolding merge_overlay_frozen lookup
merge_overlay_frozen_lem frozen [] out k u = ground arith
merge_overlay_frozen_lem frozen ((j, v) ∷ over) out k u =
    let rest = merge_overlay_frozen frozen over out in
    ground (
      arith,
      merge_overlay_frozen_lem frozen over out k u.1,
      has-lookup j rest,
      lookup-put j k v rest,
      lookup_of_has j over u.0,
      eq_iff j k,
    )

-- If the keys of the overlay are distinct, as in every Go map, then at every key MergeRulesFrozen
-- prefers the text of the base if it is frozen, and that of the overlay if it is not, and takes
-- the other one where the preferred one is missing.
pub merge_rules_frozen_exact :
    (base over : Dict String) (frozen : Bool) (k : String)
    → IsUnique over
    → lookup k (merge_rules_frozen base over frozen) ≡ (
        if frozen
        then or_else (lookup k base) (lookup k over)
        else or_else (lookup k over) (lookup k base))
unfolding merge_rules_frozen
merge_rules_frozen_exact base over frozen k u =
    merge_overlay_frozen_lem frozen over (put_all base []) k u
    ∙ unfold lookup in ground (arith, lookup-put_all k base [])
