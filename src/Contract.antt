-- ===== src/Contract.antt =====
-- domain/contract.go: the hash of a catalog's contract, and the stamp that the Hub puts on it.
pub mod Stamp
pub mod Digest
pub mod Heal
mod Examples
use zeus_client_golang.Shared.{
  ℕ, String, Bool, true, false, ◌&&◌, ◌||◌, not, List, [], ◌∷◌, Option, none, some, if◌then◌else◌,
  ◌==◌, leb, nat_eq, contains,
}
use zeus_client_golang.Shared.Text.{trim_space, trim_right, concat, codes}
use zeus_client_golang.Shared.Pattern.{before, contains_text, starts_with}
use zeus_client_golang.Shared.Json.{
  Value, Fields, Items, str, bool, num, null, obj, arr, end, field, nil, cons, get, set, as_string,
  as_map,
}
use zeus_client_golang.Errors.{
  Error, Result, ok, err, new_contract, new_catalog, with_message, with_details,
}
use zeus_client_golang.Errors.Codes

abbrev pub contract_component : String
contract_component = "domain.contract"

abbrev pub scope_brief_marker : String
scope_brief_marker = "\n\n## SCOPE BRIEF"

abbrev pub mini_schema_marker : String
mini_schema_marker = "\n\n## MINI-SCHEMA"

abbrev pub is_trailing_ws : ℕ → Bool
is_trailing_ws c = (nat_eq c 32 || nat_eq c 9) || (nat_eq c 10 || nat_eq c 13)

abbrev pub runtime_knob_keys : List String
runtime_knob_keys =
    "targets" ∷ "model" ∷ "tool_choice" ∷ "temperature" ∷ "top_p" ∷ "max_tokens" ∷ []

abbrev pub or_text : String → String → String
or_text s t = if s == "" then t else s

-- The text before the first of the markers, without the spaces at its end.
abbrev pub cut_at : Option String → String → String
cut_at none s = s
cut_at (some p) s = trim_right is_trailing_ws p

unfoldable pub strip_scope_brief : String → String
strip_scope_brief s =
    cut_at (before (codes scope_brief_marker) s) (cut_at (before (codes mini_schema_marker) s) s)

-- The keys that stripForHash leaves out.
unfoldable pub is_excluded : String → Bool
is_excluded k =
    starts_with (codes "_") (codes k)
    || contains k runtime_knob_keys
    || (k == "guidance" || k == "contract" || k == "metadata")

unfoldable mutual
  pub strip_for_hash : Value → Value
  strip_for_hash (obj m) = obj (strip_fields m)
  strip_for_hash (arr xs) = arr (strip_items xs)
  strip_for_hash (str s) = str (strip_scope_brief s)
  strip_for_hash v = v

  pub strip_fields : Fields → Fields
  strip_fields end = end
  strip_fields (field k v m) =
      let rest = strip_fields m in if is_excluded k then rest else field k (strip_for_hash v) rest

  pub strip_items : Items → Items
  strip_items nil = nil
  strip_items (cons v xs) = cons (strip_for_hash v) (strip_items xs)

abbrev strip_content : Value → Value
strip_content (str s) = str (strip_scope_brief s)
strip_content v = v

-- The content of a system message is cut before the map is walked; a text is left as it is then.
unfoldable mutual
  pub canonicalize : Value → Value
  canonicalize (obj m) = obj (canonicalize_fields (as_string (get "role" m) == "system") m)
  canonicalize (arr xs) = arr (canonicalize_items xs)
  canonicalize v = v

  pub canonicalize_fields : Bool → Fields → Fields
  canonicalize_fields system end = end
  canonicalize_fields system (field k v m) =
      let w = canonicalize v in
      field k (if system && k == "content" then strip_content w else w)
        (canonicalize_fields system m)

  pub canonicalize_items : Items → Items
  canonicalize_items nil = nil
  canonicalize_items (cons v xs) = cons (canonicalize v) (canonicalize_items xs)

-- ComputeContractHash. `marshal_md5` is the digest of the JSON encoding in hexadecimal digits, and
-- none where there is no encoding.
abbrev prefixed : Option String → String
prefixed none = ""
prefixed (some sum) = concat ("md5:" ∷ sum ∷ [])

unfoldable pub compute_contract_hash : (Value → Option String) → Option Fields → String
unfolding strip_for_hash canonicalize
compute_contract_hash marshal_md5 none = ""
compute_contract_hash marshal_md5 (some m) =
    prefixed (marshal_md5 (canonicalize (strip_for_hash (obj m))))

unfoldable pub real_hash : String → String
real_hash h =
    if trim_space h == "" || contains_text (trim_space h) "TO_BE_FILLED" then "" else trim_space h

abbrev pub fields_or_empty : Option Fields → Fields
fields_or_empty none = end
fields_or_empty (some m) = m

-- What ExtractStampedHash reads from one candidate; a value that is no map is skipped.
unfoldable pub hash_in : Fields → String
unfolding real_hash
hash_in m =
    or_text (real_hash (as_string (get "hash" (fields_or_empty (as_map (get "contract" m))))))
      (or_text (real_hash (as_string (get "_hash" m))) (real_hash (as_string (get "hash" m))))

unfoldable pub extract_stamped_hash : Fields → String
unfolding hash_in
extract_stamped_hash doc = or_text (hash_in doc) (
    or_text (hash_in (fields_or_empty (as_map (get "stamped_chat_request" doc))))
      (hash_in (fields_or_empty (as_map (get "stamped" doc)))))

unfoldable pub extract_contract_id : Fields → String
extract_contract_id doc =
    trim_space (as_string (get "id" (fields_or_empty (as_map (get "contract" doc)))))

pub record SessionHashChoice : Type 0 where
  pub hash : String
  pub source : String

abbrev pub choice : String → String → SessionHashChoice
choice h s = record { hash = h; source = s }

unfoldable pub resolve_session_contract_hash : String → String → String → SessionHashChoice
resolve_session_contract_hash bound stamped payload =
    if not (payload == "")
    then (if not (stamped == "") && stamped == payload
        then choice payload "stamped_matches_payload"
        else if not (bound == "") && bound == payload
        then choice payload "config_matches_payload"
        else choice payload "payload_hash")
    else if not (stamped == "")
    then choice stamped "stamped_fallback"
    else choice bound "config_fallback"

abbrev has_stamp : Option Fields → List (String × String)
has_stamp none = []
has_stamp (some doc) =
    ("has_stamp", if extract_stamped_hash doc == "" then "false" else "true") ∷ []

-- InventProductionHash
unfoldable pub invent_production_hash : Option Fields → Result String
invent_production_hash doc = err (
    new_contract Codes.contract_hash_invent_forbidden contract_component (
      with_message "contract hash invent forbidden"
      ∷ with_details (("hash_source", "computed") ∷ has_stamp doc)
      ∷ []))

abbrev pub hash_missing : Error
hash_missing =
    new_catalog Codes.contract_hash_missing contract_component
      (with_message "contract hash missing on stamped catalog" ∷ [])

unfoldable pub prefer_stamped_for_production : String → String → Result String
unfolding invent_production_hash
prefer_stamped_for_production stamped local_compute =
    if not (trim_space stamped == "")
    then ok (trim_space stamped)
    else if not (trim_space local_compute == "")
    then invent_production_hash none
    else err hash_missing

unfoldable pub stamped_hash : Fields → Result String
unfolding extract_stamped_hash
stamped_hash doc =
    if extract_stamped_hash doc == "" then err hash_missing else ok (extract_stamped_hash doc)

-- A prompt without its spaces at the end, where that changes it and no brief follows it.
unfoldable pub rstripped : Value → Option String
rstripped (str s) =
    if not (s == "")
      && not (contains_text s (trim_space scope_brief_marker))
      && not (contains_text s (trim_space mini_schema_marker))
      && not (trim_right is_trailing_ws s == s)
    then some (trim_right is_trailing_ws s)
    else none
rstripped _ = none

abbrev pub with_text : String → Option String → Fields → Option Value
with_text k none m = none
with_text k (some s) m = some (obj (set k (str s) m))

abbrev with_first : Items → Option Value → Option Value
with_first xs none = none
with_first xs (some v) = some (arr (cons v xs))

unfoldable pub rstrip_first_message : Value → Option Value
unfolding rstripped
rstrip_first_message (arr (cons (obj msg) xs)) =
    with_first xs (with_text "content" (rstripped (get "content" msg)) msg)
rstrip_first_message _ = none

unfoldable pub rstrip_instructions : Value → Option Value
unfolding rstripped
rstrip_instructions (obj instr) =
    with_text "system_prompt" (rstripped (get "system_prompt" instr)) instr
rstrip_instructions _ = none

abbrev pub set_some : String → Option Value → Fields → Fields
set_some k none m = m
set_some k (some v) m = set k v m

abbrev is_change : Option Value → Bool
is_change none = false
is_change (some _) = true

-- rstripSystemPromptSurfaces; cloneJSON copies a value that is never shared here.
unfoldable pub rstrip_system_prompt_surfaces : Fields → Fields × Bool
unfolding rstrip_first_message rstrip_instructions
rstrip_system_prompt_surfaces doc =
    let messages = rstrip_first_message (get "messages" doc) in
    let instructions = rstrip_instructions (get "instructions" doc) in
    (
      set_some "instructions" instructions (set_some "messages" messages doc),
      is_change messages || is_change instructions,
    )

abbrev rewrite_contract : String → String → Option Fields → Fields → Fields
rewrite_contract old fresh none doc = doc
rewrite_contract old fresh (some cb) doc =
    if trim_space (as_string (get "hash" cb)) == old
    then set "contract" (obj (set "hash" (str fresh) cb)) doc
    else doc

abbrev pub rewrite_key : String → String → String → Fields → Fields
rewrite_key k old fresh doc =
    if trim_space (as_string (get k doc)) == old then set k (str fresh) doc else doc

unfoldable pub rewrite_embedded_hash : Fields → String → String → Fields
rewrite_embedded_hash doc old fresh =
    if old == "" || fresh == "" || old == fresh
    then doc
    else rewrite_key "hash" old fresh (
        rewrite_key "_hash" old fresh
          (rewrite_contract old fresh (as_map (get "contract" doc)) doc))

-- HealTrailingWSStampDrift, for a document that is not nil.
unfoldable pub heal_trailing_ws_stamp_drift : (Value → Option String) → Fields → Fields
unfolding extract_stamped_hash compute_contract_hash rstrip_system_prompt_surfaces
    rewrite_embedded_hash
heal_trailing_ws_stamp_drift marshal_md5 doc =
    let stamped = extract_stamped_hash doc in
    let raw = compute_contract_hash marshal_md5 (some doc) in
    let (normalized, changed) = rstrip_system_prompt_surfaces doc in
    let norm = compute_contract_hash marshal_md5 (some normalized) in
    if stamped == "" || not (stamped == raw) || not changed || norm == "" || norm == raw
    then doc
    else rewrite_embedded_hash normalized stamped norm
