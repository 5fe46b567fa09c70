-- ===== src/Contract/Examples.antt =====
-- Stamps and hashes of concrete documents. The digest here tells two prompts apart.
use zeus_client_golang.Shared.{
  ap, ◌∙◌, String, true, ◌≡◌, ◌≢◌, refl, [], ◌∷◌, Option, some, arith, eq_iff, ◌==◌, if◌then◌else◌,
  Bool-cases, inl, inr, sym,
}
use zeus_client_golang.Shared.Text.{concat, trim_space}
use zeus_client_golang.Shared.Pattern.{contains_text, starts_with, before}
use zeus_client_golang.Shared.Json.{
  Value, Fields, str, obj, field, end, get, set, as_string, as_map,
}
use zeus_client_golang.Errors.{ok}
use zeus_client_golang.Contract.{
  fields_or_empty, real_hash, extract_stamped_hash, stamped_hash, compute_contract_hash,
  heal_trailing_ws_stamp_drift, is_excluded, strip_scope_brief,
}
use zeus_client_golang.Contract.Stamp.{first_real, stamp_places, extract_stamped_hash_exact}
use zeus_client_golang.Contract.Digest.{hash-prune_fields, prune_fields}
use zeus_client_golang.Contract.Heal.{heal_keeps_agreement, heal_breaks_wrapped_stamp, IsUnstamped}

abbrev prompt_of : Value → String
prompt_of (obj m) =
    as_string (get "system_prompt" (fields_or_empty (as_map (get "instructions" m))))
prompt_of _ = ""

abbrev prompt_digest : Value → Option String
prompt_digest v = some (if prompt_of v == "Be kind." then "90ab" else "2c1743")

abbrev contract : Fields
contract = field "hash" (str " md5:2c1743 ") end

abbrev document : Fields
document =
    field "contract" (obj contract)
      (field "instructions" (obj (field "system_prompt" (str "Be kind. \n") end)) end)

extract_stamped_hash_exact_example :
    extract_stamped_hash document ≡ first_real (stamp_places document)
extract_stamped_hash_exact_example = extract_stamped_hash_exact document

has_stamp : stamped_hash document ≡ ok "md5:2c1743"
unfolding stamped_hash trim_space as_string get as_map contains_text
has_stamp = refl

knob : is_excluded "temperature" ≡ true
unfolding is_excluded starts_with
knob = refl

hash-prune_fields_example :
    compute_contract_hash prompt_digest (some (prune_fields document))
    ≡ compute_contract_hash prompt_digest (some document)
hash-prune_fields_example = hash-prune_fields prompt_digest document

digest_of_document : compute_contract_hash prompt_digest (some document) ≡ "md5:2c1743"
unfolding compute_contract_hash concat as_string get as_map is_excluded starts_with
    strip_scope_brief before
digest_of_document = refl

is_real : real_hash (concat ("md5:" ∷ "90ab" ∷ [])) ≡ concat ("md5:" ∷ "90ab" ∷ [])
unfolding real_hash concat trim_space contains_text
is_real = refl

is_real_too : real_hash (concat ("md5:" ∷ "2c1743" ∷ [])) ≡ concat ("md5:" ∷ "2c1743" ∷ [])
unfolding real_hash concat trim_space contains_text
is_real_too = refl

hex_digest :
    (v : Value) (sum : String)
    → prompt_digest v ≡ some sum
    → real_hash (concat ("md5:" ∷ sum ∷ [])) ≡ concat ("md5:" ∷ sum ∷ [])
hex_digest v sum e = elim (Bool-cases (prompt_of v == "Be kind.")) [
  | inl kind ↦ let same : "90ab" ≡ sum = ground (arith, e, kind) in rw (sym same) is_real
  | inr other ↦ let same : "2c1743" ≡ sum = ground (arith, e, other) in rw (sym same) is_real_too
]

heals :
    get "contract" (heal_trailing_ws_stamp_drift prompt_digest document)
    ≡ obj (field "hash" (str "md5:90ab") end)
unfolding heal_trailing_ws_stamp_drift get trim_space as_string as_map contains_text concat
    is_excluded strip_scope_brief set
heals = refl

stamp_agrees :
    real_hash (as_string (get "hash" contract))
    ≡ compute_contract_hash prompt_digest (some document)
unfolding real_hash compute_contract_hash get as_string concat trim_space as_map contains_text
    is_excluded strip_scope_brief
stamp_agrees = refl

no_hash_key : trim_space (as_string (get "hash" document)) ≡ ""
unfolding trim_space get as_string
no_hash_key = refl

heal_keeps_agreement_example :
    extract_stamped_hash (heal_trailing_ws_stamp_drift prompt_digest document)
    ≡ compute_contract_hash prompt_digest
        (some (heal_trailing_ws_stamp_drift prompt_digest document))
unfolding get
heal_keeps_agreement_example =
    heal_keeps_agreement prompt_digest document contract hex_digest refl stamp_agrees
      (λ e. ground (arith, e, digest_of_document, eq_iff "md5:2c1743" ""))
      (λ e. ground (arith, e, digest_of_document, no_hash_key, eq_iff "" "md5:2c1743"))

abbrev wrapped : Fields
wrapped =
    field "stamped" (obj (field "contract" (obj contract) end))
      (field "instructions" (obj (field "system_prompt" (str "Be kind. \n") end)) end)

wrapped-IsUnstamped : IsUnstamped wrapped
unfolding get as_map as_string trim_space
wrapped-IsUnstamped = (refl, refl, refl)

prompt_before : prompt_of (obj wrapped) ≡ "Be kind. \n"
unfolding get as_map as_string
prompt_before = refl

prompt_after : prompt_of (obj (heal_trailing_ws_stamp_drift prompt_digest wrapped)) ≡ "Be kind."
unfolding heal_trailing_ws_stamp_drift get as_map as_string trim_space contains_text concat
    is_excluded strip_scope_brief set
prompt_after = refl

wrapped_changes : heal_trailing_ws_stamp_drift prompt_digest wrapped ≢ wrapped
wrapped_changes e =
    let same : "Be kind." ≡ "Be kind. \n" =
      sym prompt_after ∙ ap (λ m. prompt_of (obj m)) e ∙ prompt_before in
    ground (arith, same, eq_iff "Be kind." "Be kind. \n")

heal_breaks_wrapped_stamp_example :
    (extract_stamped_hash wrapped ≡ compute_contract_hash prompt_digest (some wrapped))
    × (extract_stamped_hash (heal_trailing_ws_stamp_drift prompt_digest wrapped)
        ≢ compute_contract_hash prompt_digest
            (some (heal_trailing_ws_stamp_drift prompt_digest wrapped)))
heal_breaks_wrapped_stamp_example =
    heal_breaks_wrapped_stamp prompt_digest wrapped wrapped-IsUnstamped wrapped_changes
