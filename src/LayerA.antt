-- ===== src/LayerA.antt =====
-- domain/layer_a.go: the arguments with which a model ends a turn, parsed into Layer A. A number in
-- them is a float64, as json.Unmarshal reads it.
pub mod Required
mod Examples
use zeus_client_golang.Shared.{
  ℕ, String, Bool, true, false, ◌&&◌, ◌||◌, not, List, [], ◌∷◌, ◌++◌, Option, none, some,
  if◌then◌else◌, ◌==◌, nat_eq, contains, is_empty,
}
use zeus_client_golang.Shared.Int.{ℤ, pos, negsuc}
use zeus_client_golang.Shared.Maps.{Dict, put, lookup, or_else}
use zeus_client_golang.Shared.Text.{trim_space, concat, codes}
use zeus_client_golang.Shared.Pattern.{to_lower}
use zeus_client_golang.Shared.Print.{sprint}
use zeus_client_golang.Shared.Json.{
  Value, Fields, Items, str, bool, num, null, obj, arr, end, field, nil, cons, get, get?, set,
  as_map, as_string,
}
use zeus_client_golang.Policy.{LayerA}

pub record ParseLayerAOpts : Type 0 where
  pub output_request : Fields
  pub app_output_on_error : String

abbrev is_nil : Items → Bool
is_nil nil = true
is_nil (cons _ _) = false

abbrev is_end : Fields → Bool
is_end end = true
is_end (field _ _ _) = false

abbrev is_zero : ℤ → Bool
is_zero (pos n) = nat_eq n 0
is_zero (negsuc n) = false

-- pyBool
unfoldable pub py_bool : Value → Bool
py_bool null = false
py_bool (bool b) = b
py_bool (str s) = not (s == "")
py_bool (arr xs) = not (is_nil xs)
py_bool (obj m) = not (is_end m)
py_bool (num n) = not (is_zero n)

-- pyTypeName
unfoldable pub py_type_name : Value → String
py_type_name null = "NoneType"
py_type_name (str _) = "str"
py_type_name (bool _) = "bool"
py_type_name (num _) = "float"
py_type_name (obj _) = "dict"
py_type_name (arr _) = "list"

abbrev flags_of : Fields → Dict Bool
flags_of end = []
flags_of (field k v m) = put k (py_bool v) (flags_of m)

-- NormalizeTriggers: the flags, and the errors.
unfoldable pub normalize_triggers : Value → Dict Bool × List String
unfolding py_bool put py_type_name concat
normalize_triggers null = ([], [])
normalize_triggers (obj m) = (flags_of m, [])
normalize_triggers (arr _) =
    ([], "business_rules_triggers must be an object {id: bool}; arrays rejected" ∷ [])
normalize_triggers v = (
  [],
  concat ("business_rules_triggers must be an object {id: bool}; got " ∷ py_type_name v ∷ []) ∷ [],
)

abbrev codes_equal : List ℕ → List ℕ → Bool
codes_equal [] [] = true
codes_equal [] (_ ∷ _) = false
codes_equal (_ ∷ _) [] = false
codes_equal (c ∷ s) (d ∷ t) = nat_eq c d && codes_equal s t

abbrev is_name : List ℕ → String → Bool
is_name s t = codes_equal s (codes t)

abbrev is_str : Value → Bool
is_str (str _) = true
is_str _ = false

abbrev is_num : Value → Bool
is_num (num _) = true
is_num _ = false

abbrev is_bool : Value → Bool
is_bool (bool _) = true
is_bool _ = false

abbrev is_obj : Value → Bool
is_obj (obj _) = true
is_obj _ = false

abbrev is_arr : Value → Bool
is_arr (arr _) = true
is_arr _ = false

abbrev is_null : Value → Bool
is_null null = true
is_null _ = false

-- valueMatchesType; a float64 is no integer
unfoldable pub value_matches_type : Value → String → Bool
unfolding to_lower trim_space
value_matches_type val type_name =
    let tn = to_lower (codes (trim_space type_name)) in
    if is_name tn "" || is_name tn "string" || is_name tn "str"
    then is_str val
    else if is_name tn "number" || is_name tn "float"
    then is_num val
    else if is_name tn "integer" || is_name tn "int"
    then false
    else if is_name tn "boolean" || is_name tn "bool"
    then is_bool val
    else if is_name tn "object" || is_name tn "dict"
    then is_obj val
    else if is_name tn "array" || is_name tn "list"
    then is_arr val
    else if is_name tn "null"
    then is_null val
    else true

abbrev pub Checked : Type 0
Checked = Option Fields × List String

abbrev with_field : String → Value → Checked → Checked
with_field k v (none, errors) = (none, errors)
with_field k v (some m, errors) = (some (set k v m), errors)

abbrev or_string : String → String
or_string t = if t == "" then "string" else t

unfoldable pub check_field : Bool → String → Option Fields → Option Value → Checked → Checked
unfolding value_matches_type py_type_name concat set as_string get
check_field strip name none val rest = rest
check_field strip name (some spec) none rest = rest
check_field strip name (some spec) (some val) rest =
    let tname = or_string (as_string (get "type" spec)) in
    let msg = concat (
      "app_output."
      ∷ name
      ∷ " type mismatch: expected "
      ∷ tname
      ∷ ", got "
      ∷ py_type_name val
      ∷ []) in
    if value_matches_type val tname
    then with_field name val rest
    else if strip
    then (rest.0, msg ∷ rest.1)
    else (none, msg ∷ [])

unfoldable pub check_fields : Bool → Fields → Fields → Checked
unfolding check_field as_map get?
check_fields strip end m = (some end, [])
check_fields strip (field name spec specs) m =
    check_field strip name (as_map spec) (get? name m) (check_fields strip specs m)

abbrev refused_output : Bool → String → Checked
refused_output strip msg = (if strip then some end else none, msg ∷ [])

-- ValidateAppOutput
unfoldable pub validate_app_output : Value → Option Fields → String → Checked
unfolding check_fields py_type_name concat
validate_app_output null specs on_error = (none, [])
validate_app_output (obj m) none on_error = (some m, [])
validate_app_output (obj m) (some specs) on_error =
    check_fields (on_error == "" || on_error == "strip") specs m
validate_app_output v none on_error =
    refused_output (on_error == "" || on_error == "strip")
      "app_output present but no output_request.app.fields"
validate_app_output v (some specs) on_error =
    refused_output (on_error == "" || on_error == "strip")
      (concat ("app_output must be object, got " ∷ py_type_name v ∷ []))

abbrev pub is_confidence : String → Bool
is_confidence c = c == "high" || c == "med" || c == "low"

abbrev error_if : Bool → String → List String
error_if b msg = if b then msg ∷ [] else []

abbrev is_missing : Option Fields → Bool
is_missing none = true
is_missing (some _) = false

abbrev pub decomposition_of : Fields → Option Fields
decomposition_of args =
    or_else (as_map (get "decomposition" args)) (as_map (get "query_understanding" args))

-- The errors of the four required fields.
unfoldable pub required_errors : Fields → List String
unfolding get as_string as_map trim_space
required_errors args =
    error_if (trim_space (as_string (get "summary" args)) == "")
      "required field summary missing or empty"
    ++ error_if (is_missing (as_map (get "query_decomposition" args)))
        "required field query_decomposition must be an object"
    ++ error_if (is_missing (decomposition_of args))
        "required field decomposition must be an object"
    ++ error_if (not (is_confidence (as_string (get "confidence" args))))
        "required field confidence must be one of high|med|low"

abbrev items_of : Value → Items
items_of (arr xs) = xs
items_of _ = nil

-- The warning about a wish_i_knew that is neither a list nor null.
abbrev wish_warnings : Value → List String
wish_warnings (arr _) = []
wish_warnings null = []
wish_warnings _ = "wish_i_knew ignored (expected array of objects)" ∷ []

abbrev nested : String → Option Fields → Option Fields
nested k none = none
nested k (some m) = as_map (get k m)

abbrev pub fields_spec : Fields → Option Fields
fields_spec output_request = nested "fields" (as_map (get "app" output_request))

abbrev float_of : {F : Type 0} → (ℤ → F) → Value → Option F
float_of to_float (num n) = some (to_float n)
float_of to_float _ = none

-- ParseLayerA of an object
unfoldable pub parse_layer_a : {F : Type 0} → (ℤ → F) → Fields → ParseLayerAOpts → LayerA F
unfolding required_errors normalize_triggers validate_app_output get as_string as_map trim_space
parse_layer_a to_float args opts =
    let summary = as_string (get "summary" args) in
    let confidence = as_string (get "confidence" args) in
    let triggers = normalize_triggers (get "business_rules_triggers" args) in
    let app =
      validate_app_output (get "app_output" args) (fields_spec opts.output_request)
        opts.app_output_on_error in
    let fails = opts.app_output_on_error == "fail" in
    record {
      summary = trim_space summary;
      query_decomposition = as_map (get "query_decomposition" args);
      decomposition = decomposition_of args;
      confidence = if is_confidence confidence then confidence else "";
      policy_action = trim_space (as_string (get "policy_action" args));
      business_rules_triggers = triggers.0;
      app_output = app.0;
      jail_break_attempt = float_of to_float (get "jail_break_attempt" args);
      wish_i_knew = items_of (get "wish_i_knew" args);
      data_gaps = items_of (get "data_gaps" args);
      entity_refs = get "entity_refs" args;
      node_refs = get "node_refs" args;
      provenance = get "provenance" args;
      raw = args;
      errors = required_errors args ++ triggers.1 ++ (if fails then app.1 else []);
      warnings = wish_warnings (get "wish_i_knew" args) ++ (if fails then [] else app.1);
    }

abbrev required_keys : Option Value → List String
required_keys (some (arr xs)) = printed xs
  where
    printed : Items → List String
    printed nil = []
    printed (cons v vs) = sprint v ∷ printed vs
required_keys _ = "summary" ∷ "query_decomposition" ∷ "decomposition" ∷ "confidence" ∷ []

module _ {F : Type 0} where
  -- Whether the layer lacks a field that a schema may require; other keys are not tracked.
  unfoldable pub lacks : LayerA F → String → Bool
  lacks layer k =
      (k == "summary" && layer.summary == "")
      || (k == "query_decomposition" && is_missing layer.query_decomposition)
      || (k == "decomposition" && is_missing layer.decomposition)
      || (k == "confidence" && layer.confidence == "")

  unfoldable pub add_missing : LayerA F → List String → List String → List String
  unfolding lacks concat
  add_missing layer [] errors = errors
  add_missing layer (k ∷ ks) errors =
      let msg = concat ("pack schema required field " ∷ k ∷ " missing" ∷ []) in
      add_missing layer ks
        (if lacks layer k && not (contains msg errors) then errors ++ (msg ∷ []) else errors)

  -- ApplyPackSchema; none is the nil schema
  unfoldable pub apply_pack_schema : LayerA F → Option Fields → LayerA F
  unfolding add_missing sprint get?
  apply_pack_schema layer none = layer
  apply_pack_schema layer (some schema) = record layer {
    errors = add_missing layer (required_keys (get? "required" schema)) layer.errors;
  }
