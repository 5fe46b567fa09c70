-- ===== src/Contract/Stamp.antt =====
-- The stamps of domain/contract.go: where they are read, and that none is made up.
use zeus_client_golang.Shared.{
  String, true, false, ◌||◌, ◌≡◌, ◌≢◌, ◌↔◌, ◌⊎◌, inl, inr, refl, List, [], ◌∷◌, arith, eq_iff,
  if◌then◌else◌, ◌==◌, ◌∙◌, ap, sym,
}
use zeus_client_golang.Shared.Text.{trim_space}
use zeus_client_golang.Shared.Pattern.{contains_text}
use zeus_client_golang.Shared.Json.{Fields, get, as_string, as_map}
use zeus_client_golang.Errors.{ok}
use zeus_client_golang.Contract.{
  SessionHashChoice, choice, real_hash, fields_or_empty, hash_in, extract_stamped_hash, or_text,
  resolve_session_contract_hash, prefer_stamped_for_production, stamped_hash,
  invent_production_hash,
}

-- The nine places of a stamp, the most important one first.
abbrev places_in : Fields → List String → List String
places_in m more =
    as_string (get "hash" (fields_or_empty (as_map (get "contract" m))))
    ∷ as_string (get "_hash" m)
    ∷ as_string (get "hash" m)
    ∷ more

abbrev pub stamp_places : Fields → List String
stamp_places doc = places_in doc (
    places_in (fields_or_empty (as_map (get "stamped_chat_request" doc)))
      (places_in (fields_or_empty (as_map (get "stamped" doc))) []))

-- The first text of a list that is neither blank nor a placeholder, without the spaces around it.
abbrev pub first_real : List String → String
first_real [] = ""
first_real (h ∷ hs) =
    if trim_space h == "" || contains_text (trim_space h) "TO_BE_FILLED"
    then first_real hs
    else trim_space h

pub real_hash-cases :
    (h : String)
    → (((trim_space h == "" || contains_text (trim_space h) "TO_BE_FILLED") ≡ true)
        × (real_hash h ≡ ""))
      ⊎ (((trim_space h == "" || contains_text (trim_space h) "TO_BE_FILLED") ≡ false)
          × (real_hash h ≡ trim_space h)
          × ((trim_space h == "") ≡ false)
          × (contains_text (trim_space h) "TO_BE_FILLED" ≡ false))
unfolding real_hash
real_hash-cases h = ground arith

or_real :
    (h : String) (hs : List String) → or_text (real_hash h) (first_real hs) ≡ first_real (h ∷ hs)
or_real h hs = elim (real_hash-cases h) [
  | inl (bad, e) ↦ rw (e, bad) refl
  | inr (good, e, filled, _) ↦ rw (e, good, filled) refl
]

or_text_assoc : (r s t : String) → or_text (or_text r s) t ≡ or_text r (or_text s t)
or_text_assoc r s t = ground arith

or_real_three :
    (a b c : String) (more : List String)
    → or_text (or_text (real_hash a) (or_text (real_hash b) (real_hash c))) (first_real more)
      ≡ first_real (a ∷ b ∷ c ∷ more)
or_real_three a b c more =
    or_text_assoc (real_hash a) (or_text (real_hash b) (real_hash c)) (first_real more)
    ∙ ap (or_text (real_hash a)) (
        or_text_assoc (real_hash b) (real_hash c) (first_real more)
        ∙ ap (or_text (real_hash b)) (or_real c more)
        ∙ or_real b (c ∷ more))
    ∙ or_real a (b ∷ c ∷ more)

hash_in-places :
    (m : Fields) (more : List String)
    → or_text (hash_in m) (first_real more) ≡ first_real (places_in m more)
unfolding hash_in
hash_in-places m more =
    or_real_three (as_string (get "hash" (fields_or_empty (as_map (get "contract" m)))))
      (as_string (get "_hash" m)) (as_string (get "hash" m)) more

or_text_empty : (s : String) → or_text s "" ≡ s
or_text_empty s = ground (arith, eq_iff s "")

-- ExtractStampedHash returns the first text that is neither blank nor a placeholder, trimmed, of
-- the nine places contract.hash, _hash and hash in the document, then in its stamped_chat_request,
-- then in its stamped part, and the empty text if there is none.
pub extract_stamped_hash_exact :
    (doc : Fields) → extract_stamped_hash doc ≡ first_real (stamp_places doc)
unfolding extract_stamped_hash
extract_stamped_hash_exact doc =
    let wrapped = fields_or_empty (as_map (get "stamped_chat_request" doc)) in
    let stamped = fields_or_empty (as_map (get "stamped" doc)) in
    ap (λ t. or_text (hash_in doc) (or_text (hash_in wrapped) t))
      (sym (or_text_empty (hash_in stamped)) ∙ hash_in-places stamped [])
    ∙ ap (or_text (hash_in doc)) (hash_in-places wrapped (places_in stamped []))
    ∙ hash_in-places doc (places_in wrapped (places_in stamped []))

first_real-cases :
    (hs : List String)
    → (first_real hs ≡ "")
      ⊎ (((first_real hs == "") ≡ false) × (contains_text (first_real hs) "TO_BE_FILLED" ≡ false))
first_real-cases [] = inl refl
first_real-cases (h ∷ hs) = elim (real_hash-cases h) [
  | inl (bad, _) ↦ rw bad (first_real-cases hs)
  | inr (good, _, filled, real) ↦ rw good (inr (filled, real))
]

-- A hash that StampedHash returns is not empty and does not contain the placeholder TO_BE_FILLED.
pub stamped_hash_real :
    (doc : Fields) (h : String)
    → stamped_hash doc ≡ ok h
    → (h ≢ "") × (contains_text h "TO_BE_FILLED" ≡ false)
unfolding stamped_hash
stamped_hash_real doc h e = ground (
  arith,
  first_real-cases (stamp_places doc),
  extract_stamped_hash_exact doc,
  eq_iff (extract_stamped_hash doc) "",
  e,
)

-- PreferStampedForProduction returns a hash if and only if it is the stamp without the spaces
-- around it and is not empty: a locally computed hash is never returned in its place.
pub prefer_stamped_exact :
    (stamped local_compute h : String)
    → (prefer_stamped_for_production stamped local_compute ≡ ok h)
      ↔ ((trim_space stamped ≡ h) × (h ≢ ""))
unfolding prefer_stamped_for_production invent_production_hash
prefer_stamped_exact stamped local_compute h =
    ground (arith, eq_iff (trim_space stamped) "", eq_iff h "")

-- The five answers, each with what is tested for it.
abbrev IsAnswer : String → String → String → SessionHashChoice → Type 0
IsAnswer bound stamped payload c =
    (((payload == "") ≡ false)
      × ((stamped == payload) ≡ true)
      × (c ≡ choice payload "stamped_matches_payload"))
    ⊎ ((((payload == "") ≡ false)
          × ((stamped == payload) ≡ false)
          × (c ≡ choice payload "config_matches_payload"))
        ⊎ ((((payload == "") ≡ false)
              × ((stamped == payload) ≡ false)
              × (c ≡ choice payload "payload_hash"))
            ⊎ ((((payload == "") ≡ true)
                  × ((stamped == "") ≡ false)
                  × (c ≡ choice stamped "stamped_fallback"))
                ⊎ (((payload == "") ≡ true)
                    × ((stamped == "") ≡ true)
                    × (c ≡ choice bound "config_fallback")))))

resolve-cases :
    (bound stamped payload : String)
    → IsAnswer bound stamped payload (resolve_session_contract_hash bound stamped payload)
unfolding resolve_session_contract_hash
resolve-cases bound stamped payload =
    ground (arith, eq_iff payload "", eq_iff stamped payload, eq_iff stamped "")

-- ResolveSessionContractHash picks the payload hash if it is not empty, else the stamped one if
-- that is not empty, else the bound one; and it reports that the stamp matches the payload if and
-- only if the payload hash is not empty and equals the stamp.
pub resolve_session_contract_hash_exact :
    (bound stamped payload : String)
    → ((resolve_session_contract_hash bound stamped payload).hash
        ≡ or_text payload (or_text stamped bound))
      × (((resolve_session_contract_hash bound stamped payload).source ≡ "stamped_matches_payload")
          ↔ ((payload ≢ "") × (stamped ≡ payload)))
resolve_session_contract_hash_exact bound stamped payload =
    let p = eq_iff payload "" in
    let m = eq_iff stamped payload in
    elim (resolve-cases bound stamped payload) [
      | inl (filled, same, e) ↦ rw e (ground (arith, p, m))
      | inr (inl (filled, other, e)) ↦
          rw e (ground (arith, p, m, eq_iff "config_matches_payload" "stamped_matches_payload"))
      | inr (inr (inl (filled, other, e))) ↦
          rw e (ground (arith, p, m, eq_iff "payload_hash" "stamped_matches_payload"))
      | inr (inr (inr (inl (blank, stamp, e)))) ↦
          rw e (ground (arith, p, m, eq_iff "stamped_fallback" "stamped_matches_payload"))
      | inr (inr (inr (inr (blank, none_left, e)))) ↦
          rw e (ground (arith, p, m, eq_iff "config_fallback" "stamped_matches_payload"))
    ]
