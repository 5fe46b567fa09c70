-- ===== src/LayerA/Required.antt =====
-- What ParseLayerA of domain/layer_a.go accepts, and what the policy table makes of the rest.
use zeus_client_golang.Shared.{
  is_empty_lem, ap, eq_ne, String, Bool, true, false, not, List, [], ◌∷◌, ◌++◌, Option, none, some,
  if◌then◌else◌, ◌==◌, ◌≡◌, ◌≢◌, ◌⊎◌, ◌↔◌, inl, inr, refl, arith, eq_iff, Bool-cases, is_empty,
}
use zeus_client_golang.Shared.Int.{ℤ}
use zeus_client_golang.Shared.Maps.{or_else}
use zeus_client_golang.Shared.Text.{trim_space}
use zeus_client_golang.Shared.Json.{
  get?, Value, Fields, str, bool, num, null, obj, arr, get, as_map, as_string,
}
use zeus_client_golang.Policy.{
  row, Floats, LayerA, DecidePolicyOpts, choose_row, decide_policy, map_message, message, or_text,
  policy_error, default_message_failure,
}
use zeus_client_golang.LayerA.{
  ParseLayerAOpts, is_confidence, error_if, is_missing, decomposition_of, required_errors,
  parse_layer_a, apply_pack_schema, add_missing, required_keys,
}

-- A text that is not blank.
abbrev pub HasText : Value → Type 0
HasText v = (s : String) × (v ≡ str s) × (trim_space s ≢ "")

abbrev pub IsObject : Value → Type 0
IsObject v = (m : Fields) × (v ≡ obj m)

-- One of the three grades.
abbrev pub IsGrade : Value → Type 0
IsGrade v = (v ≡ str "high") ⊎ ((v ≡ str "med") ⊎ (v ≡ str "low"))

-- The four parts that a model must give.
abbrev pub IsComplete : Fields → Type 0
IsComplete args =
    HasText (get "summary" args)
    × IsObject (get "query_decomposition" args)
    × (IsObject (get "decomposition" args) ⊎ IsObject (get "query_understanding" args))
    × IsGrade (get "confidence" args)

four_passed :
    (a b c d : Bool) (j k m n : String)
    → error_if a j ++ error_if b k ++ error_if c m ++ error_if d n ≡ []
    → (a ≡ false) × (b ≡ false) × (c ≡ false) × (d ≡ false)
four_passed true b c d j k m n h = absurd (ground (arith, h))
four_passed false true c d j k m n h = absurd (ground (arith, h))
four_passed false false true d j k m n h = absurd (ground (arith, h))
four_passed false false false true j k m n h = absurd (ground (arith, h))
four_passed false false false false j k m n h = (refl, refl, refl, refl)

as_string-HasText : (v : Value) → (trim_space (as_string v) == "") ≡ false → HasText v
unfolding as_string trim_space
as_string-HasText (str s) h = (s, refl, λ e. ground (arith, h, e, eq_iff (trim_space s) ""))
as_string-HasText (bool b) h = absurd (ground (arith, h))
as_string-HasText (num n) h = absurd (ground (arith, h))
as_string-HasText null h = absurd (ground (arith, h))
as_string-HasText (obj m) h = absurd (ground (arith, h))
as_string-HasText (arr xs) h = absurd (ground (arith, h))

as_map-IsObject : (v : Value) → is_missing (as_map v) ≡ false → IsObject v
unfolding as_map
as_map-IsObject (str s) h = absurd (ground (arith, h))
as_map-IsObject (bool b) h = absurd (ground (arith, h))
as_map-IsObject (num n) h = absurd (ground (arith, h))
as_map-IsObject null h = absurd (ground (arith, h))
as_map-IsObject (obj m) h = (m, refl)
as_map-IsObject (arr xs) h = absurd (ground (arith, h))

or_else-IsObject :
    (v w : Value) → is_missing (or_else (as_map v) (as_map w)) ≡ false → IsObject v ⊎ IsObject w
unfolding as_map
or_else-IsObject (obj m) w h = inl (m, refl)
or_else-IsObject (str s) w h = inr (as_map-IsObject w h)
or_else-IsObject (bool b) w h = inr (as_map-IsObject w h)
or_else-IsObject (num n) w h = inr (as_map-IsObject w h)
or_else-IsObject null w h = inr (as_map-IsObject w h)
or_else-IsObject (arr xs) w h = inr (as_map-IsObject w h)

is_confidence-IsGrade : (v : Value) → not (is_confidence (as_string v)) ≡ false → IsGrade v
unfolding as_string
is_confidence-IsGrade (str s) h = elim (Bool-cases (s == "high")) [
  | inl high ↦ inl (ap str ((eq_iff s "high").0 high))
  | inr low ↦ elim (Bool-cases (s == "med")) [
    | inl med ↦ inr (inl (ap str ((eq_iff s "med").0 med)))
    | inr lower ↦ inr (inr (ap str ((eq_iff s "low").0 (ground (arith, h, low, lower)))))
  ]
]
is_confidence-IsGrade (bool b) h = absurd (ground (arith, h))
is_confidence-IsGrade (num n) h = absurd (ground (arith, h))
is_confidence-IsGrade null h = absurd (ground (arith, h))
is_confidence-IsGrade (obj m) h = absurd (ground (arith, h))
is_confidence-IsGrade (arr xs) h = absurd (ground (arith, h))

required_errors-IsComplete : (args : Fields) → required_errors args ≡ [] → IsComplete args
unfolding required_errors
required_errors-IsComplete args h =
    let (summary, query, parts, grade) =
      four_passed (trim_space (as_string (get "summary" args)) == "")
        (is_missing (as_map (get "query_decomposition" args))) (is_missing (decomposition_of args))
        (not (is_confidence (as_string (get "confidence" args)))) _ _ _ _ h in
    (
      as_string-HasText (get "summary" args) summary,
      as_map-IsObject (get "query_decomposition" args) query,
      or_else-IsObject (get "decomposition" args) (get "query_understanding" args) parts,
      is_confidence-IsGrade (get "confidence" args) grade,
    )

parts_found :
    (v w : Value) → IsObject v ⊎ IsObject w → is_missing (or_else (as_map v) (as_map w)) ≡ false
unfolding as_map
parts_found v w (inl (m, e)) = rw e refl
parts_found (obj m) w (inr (k, e)) = refl
parts_found (str s) w (inr (k, e)) = rw e refl
parts_found (bool b) w (inr (k, e)) = rw e refl
parts_found (num n) w (inr (k, e)) = rw e refl
parts_found null w (inr (k, e)) = rw e refl
parts_found (arr xs) w (inr (k, e)) = rw e refl

grade_found : (v : Value) → IsGrade v → not (is_confidence (as_string v)) ≡ false
unfolding as_string
grade_found v (inl e) = rw e refl
grade_found v (inr (inl e)) = rw e refl
grade_found v (inr (inr e)) = rw e refl

complete_passes : (args : Fields) → IsComplete args → required_errors args ≡ []
unfolding required_errors as_string as_map
complete_passes args ((s, text, ne), (m, query), parts, grade) =
    let parts' = parts_found (get "decomposition" args) (get "query_understanding" args) parts in
    let grade' = grade_found (get "confidence" args) grade in
    rw (text, query, eq_ne (trim_space s) "" ne, parts', grade') refl

-- ParseLayerA finds no fault in the four required fields of an object exactly if its summary is a
-- text that is not blank, its query_decomposition is an object, its decomposition or its
-- query_understanding is an object, and its confidence is one of the texts high, med and low.
pub required_exact : (args : Fields) → (required_errors args ≡ []) ↔ IsComplete args
required_exact args = (required_errors-IsComplete args, complete_passes args)

append_not_empty : (xs ys : List String) → is_empty xs ≡ false → is_empty (xs ++ ys) ≡ false
append_not_empty [] ys h = absurd (ground (arith, h))
append_not_empty (x ∷ xs) ys h = refl

if_not_empty :
    (b : Bool) (xs ys : List String)
    → is_empty xs ≡ false
    → is_empty ys ≡ false
    → is_empty (if b then xs else ys) ≡ false
if_not_empty true xs ys h k = h
if_not_empty false xs ys h k = k

keeps_errors :
    {F : Type 0} (layer : LayerA F) (ks errors : List String)
    → is_empty errors ≡ false
    → is_empty (add_missing layer ks errors) ≡ false
unfolding add_missing
keeps_errors layer [] errors h = h
keeps_errors layer (k ∷ ks) errors h =
    keeps_errors layer ks _ (if_not_empty _ (errors ++ _) errors (append_not_empty errors _ h) h)

module _ (fl : Floats) where
  schema_keeps_errors :
      (layer : LayerA fl.Float) (schema : Option Fields)
      → is_empty layer.errors ≡ false
      → is_empty (apply_pack_schema layer schema).errors ≡ false
  unfolding apply_pack_schema
  schema_keeps_errors layer none h = h
  schema_keeps_errors layer (some schema) h =
      keeps_errors layer (required_keys (get? "required" schema)) layer.errors h

  parse_finds :
      (to_float : ℤ → fl.Float) (args : Fields) (po : ParseLayerAOpts)
      → is_empty (required_errors args) ≡ false
      → is_empty (parse_layer_a to_float args po).errors ≡ false
  unfolding parse_layer_a
  parse_finds to_float args po h =
      append_not_empty (required_errors args ++ _) _ (append_not_empty (required_errors args) _ h)

  error_row :
      (layer : LayerA fl.Float) (opts : DecidePolicyOpts fl.Float)
      → opts.hooks_must_refuse ≡ false
      → is_empty layer.errors ≡ false
      → choose_row fl layer opts ≡ row policy_error true "layer_a_validation_failed"
  unfolding choose_row
  error_row layer opts free wrong = rw (free, wrong) refl

incomplete_found : (args : Fields) → ¬ IsComplete args → is_empty (required_errors args) ≡ false
incomplete_found args incomplete = elim (Bool-cases (is_empty (required_errors args))) [
  | inl empty ↦
      absurd
        (incomplete (required_errors-IsComplete args (is_empty_lem (required_errors args) empty)))
  | inr found ↦ found
]

-- If the arguments that end a turn lack one of the four required parts and the hooks do not demand
-- a refusal, then after ParseLayerA and ApplyPackSchema, with any schema and any options,
-- DecidePolicy forces the policy "error", and the text for the user is the message of failure or
-- its default.
pub incomplete_is_error :
    (fl : Floats) (to_float : ℤ → fl.Float) (args : Fields) (po : ParseLayerAOpts)
    → (schema : Option Fields) (opts : DecidePolicyOpts fl.Float) → ¬ IsComplete args
    → opts.hooks_must_refuse ≡ false
    → ((decide_policy fl (apply_pack_schema (parse_layer_a to_float args po) schema) opts).policy
        ≡ policy_error)
      × ((decide_policy fl (apply_pack_schema (parse_layer_a to_float args po) schema) opts).forced
          ≡ true)
      × ((decide_policy fl (apply_pack_schema (parse_layer_a to_float args po) schema) opts).ui_text
          ≡ or_text (message "message_failure" opts.settings) default_message_failure)
unfolding decide_policy map_message
incomplete_is_error fl to_float args po schema opts incomplete free =
    let layer = parse_layer_a to_float args po in
    let wrong =
      schema_keeps_errors fl layer schema
        (parse_finds fl to_float args po (incomplete_found args incomplete)) in
    rw (error_row fl (apply_pack_schema layer schema) opts free wrong) (refl, refl, refl)
