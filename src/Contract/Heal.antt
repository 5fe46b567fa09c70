-- ===== src/Contract/Heal.antt =====
-- HealTrailingWSStampDrift of domain/contract.go.
use zeus_client_golang.Shared.Pattern.{starts_with}
use zeus_client_golang.Shared.{
  String, Bool, true, false, ◌||◌, not, ◌≡◌, ◌≢◌, ◌⊎◌, inl, inr, refl, [], ◌∷◌, Option, none, some,
  arith, eq_iff, eq_ne, if◌then◌else◌, ◌==◌, Option-cases, sym, ◌∙◌,
}
use zeus_client_golang.Shared.Text.{trim_space, concat}
use zeus_client_golang.Shared.Json.{Value, Fields, str, obj, get, set, as_string, as_map, get-set}
use zeus_client_golang.Contract.{
  real_hash, hash_in, extract_stamped_hash, compute_contract_hash, heal_trailing_ws_stamp_drift,
  rewrite_embedded_hash, rewrite_key, rstrip_system_prompt_surfaces, set_some, canonicalize,
  strip_for_hash, rstrip_first_message, rstrip_instructions, is_excluded,
}
use zeus_client_golang.Contract.Stamp.{real_hash-cases}
use zeus_client_golang.Contract.Digest.{hash_ignores_excluded}

-- The document of a heal, which differs from the given one only where a stamp was rewritten.
abbrev pub normalized : Fields → Fields
normalized doc = (rstrip_system_prompt_surfaces doc).0

guard-cases :
    (s r n : String) (changed : Bool) (x y : Fields)
    → ((if s == "" || not (s == r) || not changed || n == "" || n == r then x else y) ≡ x)
      ⊎ ((s ≡ r)
          × ((s == "") ≡ false)
          × ((n == "") ≡ false)
          × ((s == n) ≡ false)
          × ((if s == "" || not (s == r) || not changed || n == "" || n == r then x else y) ≡ y))
guard-cases s r n changed x y = ground (arith, eq_iff s r, eq_iff n r, eq_iff s n)

heal-cases :
    (marshal_md5 : Value → Option String) (doc : Fields)
    → (heal_trailing_ws_stamp_drift marshal_md5 doc ≡ doc)
      ⊎ ((extract_stamped_hash doc ≡ compute_contract_hash marshal_md5 (some doc))
          × ((extract_stamped_hash doc == "") ≡ false)
          × ((compute_contract_hash marshal_md5 (some (normalized doc)) == "") ≡ false)
          × ((extract_stamped_hash doc == compute_contract_hash marshal_md5 (some (normalized doc)))
              ≡ false)
          × (heal_trailing_ws_stamp_drift marshal_md5 doc
              ≡ rewrite_embedded_hash
                  (normalized doc)
                  (extract_stamped_hash doc)
                  (compute_contract_hash marshal_md5 (some (normalized doc)))))
unfolding heal_trailing_ws_stamp_drift
heal-cases marshal_md5 doc =
    let norm = compute_contract_hash marshal_md5 (some (normalized doc)) in
    guard-cases (extract_stamped_hash doc) (compute_contract_hash marshal_md5 (some doc)) norm
      (rstrip_system_prompt_surfaces doc).1 doc
      (rewrite_embedded_hash (normalized doc) (extract_stamped_hash doc) norm)

get-set_some :
    (k j : String) (o : Option Value) (m : Fields)
    → (k == j) ≡ false
    → get j (set_some k o m) ≡ get j m
get-set_some k j none m h = refl
get-set_some k j (some v) m h = rw (get-set k j v m, h) refl

get-normalized :
    (k : String) (doc : Fields)
    → ("messages" == k) ≡ false
    → ("instructions" == k) ≡ false
    → get k (normalized doc) ≡ get k doc
unfolding rstrip_system_prompt_surfaces
get-normalized k doc nm ni =
    let messages = rstrip_first_message (get "messages" doc) in
    get-set_some "instructions" k (rstrip_instructions (get "instructions" doc))
      (set_some "messages" messages doc) ni
    ∙ get-set_some "messages" k messages doc nm

rewrite_key_lem :
    (k old fresh : String) (doc : Fields)
    → (trim_space (as_string (get k doc)) == old) ≡ false
    → rewrite_key k old fresh doc ≡ doc
rewrite_key_lem k old fresh doc h = rw h refl

-- The document with a new stamp at "contract", and at "_hash" if the old one stood there too.
abbrev restamped : Fields → Fields → String → String → Fields
restamped doc cb old fresh =
    rewrite_key "_hash" old fresh (set "contract" (obj (set "hash" (str fresh) cb)) doc)

get-restamped :
    (k : String) (doc cb : Fields) (old fresh : String)
    → ("contract" == k) ≡ false
    → ("_hash" == k) ≡ false
    → get k (restamped doc cb old fresh) ≡ get k doc
get-restamped k doc cb old fresh hc hh =
    let stamp = obj (set "hash" (str fresh) cb) in
    ground (
      arith,
      get-set "contract" k stamp doc,
      get-set "_hash" k (str fresh) (set "contract" stamp doc),
      hc,
      hh,
    )

rewrite-restamped :
    (doc cb : Fields) (old fresh : String)
    → get "contract" doc ≡ obj cb
    → (trim_space (as_string (get "hash" cb)) == old) ≡ true
    → (trim_space (as_string (get "hash" doc)) == old) ≡ false
    → (old == "" || fresh == "" || old == fresh) ≡ false
    → rewrite_embedded_hash doc old fresh ≡ restamped doc cb old fresh
unfolding rewrite_embedded_hash trim_space as_string get as_map set
rewrite-restamped doc cb old fresh hc here away differs =
    rw (differs, hc, here)
      (rewrite_key_lem "hash" old fresh (restamped doc cb old fresh)
        (rw (get-restamped "hash" doc cb old fresh refl refl) away))

compute-restamped :
    (marshal_md5 : Value → Option String) (doc cb : Fields) (old fresh : String)
    → compute_contract_hash marshal_md5 (some (restamped doc cb old fresh))
      ≡ compute_contract_hash marshal_md5 (some doc)
unfolding is_excluded starts_with
compute-restamped marshal_md5 doc cb old fresh =
    let stamp = obj (set "hash" (str fresh) cb) in
    ground (
      arith,
      hash_ignores_excluded marshal_md5 "contract" stamp doc refl,
      hash_ignores_excluded marshal_md5 "_hash" (str fresh) (set "contract" stamp doc) refl,
    )

extract_of_contract :
    (doc cb : Fields) (h : String)
    → get "contract" doc ≡ obj cb
    → real_hash (as_string (get "hash" cb)) ≡ h
    → (h == "") ≡ false
    → extract_stamped_hash doc ≡ h
unfolding extract_stamped_hash hash_in as_map
extract_of_contract doc cb h hc real filled = rw (hc, real, filled, filled) refl

extract-restamped :
    (doc cb : Fields) (old fresh : String)
    → real_hash fresh ≡ fresh
    → (fresh == "") ≡ false
    → extract_stamped_hash (restamped doc cb old fresh) ≡ fresh
unfolding as_string
extract-restamped doc cb old fresh real filled =
    let stamp = obj (set "hash" (str fresh) cb) in
    extract_of_contract (restamped doc cb old fresh) (set "hash" (str fresh) cb) fresh
      (ground (
        arith,
        get-set "contract" "contract" stamp doc,
        get-set "_hash" "contract" (str fresh) (set "contract" stamp doc),
      ))
      (rw (get-set "hash" "hash" (str fresh) cb) real) filled

real_compute :
    (marshal_md5 : Value → Option String) (doc : Fields)
    → ((v : Value) (sum : String)
        → marshal_md5 v ≡ some sum
        → real_hash (concat ("md5:" ∷ sum ∷ [])) ≡ concat ("md5:" ∷ sum ∷ []))
    → real_hash (compute_contract_hash marshal_md5 (some doc))
      ≡ compute_contract_hash marshal_md5 (some doc)
unfolding compute_contract_hash
real_compute marshal_md5 doc hex =
    let body = canonicalize (strip_for_hash (obj doc)) in
    elim (Option-cases (marshal_md5 body)) [
      | inl fails ↦ rw fails (unfold real_hash trim_space in refl)
      | inr (sum, found) ↦ rw found (hex body sum found)
    ]

real_hash_trimmed : (h r : String) → real_hash h ≡ r → (r == "") ≡ false → trim_space h ≡ r
real_hash_trimmed h r e filled = elim (real_hash-cases h) [
  | inl (_, blank) ↦ ground (arith, e, blank, filled, eq_iff r "")
  | inr (_, same, _, _) ↦ sym same ∙ e
]

-- If the digest yields texts that are real stamps after "md5:", and the stamp of a document stands
-- in its contract and is the hash of the document, which is not empty and is not also the text at
-- "hash", then after HealTrailingWSStampDrift the stamp of the document is still its hash.
pub heal_keeps_agreement :
    (marshal_md5 : Value → Option String) (doc cb : Fields)
    → ((v : Value) (sum : String)
        → marshal_md5 v ≡ some sum
        → real_hash (concat ("md5:" ∷ sum ∷ [])) ≡ concat ("md5:" ∷ sum ∷ []))
    → get "contract" doc ≡ obj cb
    → real_hash (as_string (get "hash" cb)) ≡ compute_contract_hash marshal_md5 (some doc)
    → compute_contract_hash marshal_md5 (some doc) ≢ ""
    → trim_space (as_string (get "hash" doc)) ≢ compute_contract_hash marshal_md5 (some doc)
    → extract_stamped_hash (heal_trailing_ws_stamp_drift marshal_md5 doc)
      ≡ compute_contract_hash marshal_md5 (some (heal_trailing_ws_stamp_drift marshal_md5 doc))
heal_keeps_agreement marshal_md5 doc cb hex hc agrees ne away =
    let raw = compute_contract_hash marshal_md5 (some doc) in
    let norm = compute_contract_hash marshal_md5 (some (normalized doc)) in
    let stamp = extract_of_contract doc cb raw hc agrees (eq_ne raw "" ne) in
    let trimmed = real_hash_trimmed (as_string (get "hash" cb)) raw agrees (eq_ne raw "" ne) in
    elim (heal-cases marshal_md5 doc) [
      | inl same ↦ rw same stamp
      | inr (_, filled, norm_filled, differs, healed) ↦
          let rewritten =
            healed
            ∙ rewrite-restamped (normalized doc) cb (extract_stamped_hash doc) norm
                (get-normalized "contract" doc refl refl ∙ hc)
                (ground (
                  arith,
                  stamp,
                  trimmed,
                  eq_iff (trim_space (as_string (get "hash" cb))) (extract_stamped_hash doc),
                ))
                (rw (get-normalized "hash" doc refl refl, stamp)
                  (eq_ne (trim_space (as_string (get "hash" doc))) raw away))
                (ground (arith, filled, norm_filled, differs)) in
          rw rewritten (
            extract-restamped (normalized doc) cb (extract_stamped_hash doc) norm
              (real_compute marshal_md5 (normalized doc) hex) norm_filled
            ∙ sym
                (compute-restamped marshal_md5 (normalized doc) cb (extract_stamped_hash doc) norm))
    ]

extract-normalized :
    (doc : Fields) → extract_stamped_hash (normalized doc) ≡ extract_stamped_hash doc
unfolding extract_stamped_hash hash_in
extract-normalized doc =
    rw
      (
        get-normalized "contract" doc refl refl,
        get-normalized "_hash" doc refl refl,
        get-normalized "hash" doc refl refl,
        get-normalized "stamped_chat_request" doc refl refl,
        get-normalized "stamped" doc refl refl,
      )
      refl

-- A document without a stamp of its own.
abbrev pub IsUnstamped : Fields → Type 0
IsUnstamped doc =
    (as_map (get "contract" doc) ≡ none)
    × (trim_space (as_string (get "_hash" doc)) ≡ "")
    × (trim_space (as_string (get "hash" doc)) ≡ "")

rewrite-unstamped :
    (doc : Fields) (old fresh : String)
    → IsUnstamped doc
    → (old == "") ≡ false
    → rewrite_embedded_hash doc old fresh ≡ doc
unfolding rewrite_embedded_hash
rewrite-unstamped doc old fresh (c, u, h) filled =
    let away : ("" == old) ≡ false = ground (arith, filled, eq_iff "" old, eq_iff old "") in
    ground (
      arith,
      c,
      rewrite_key_lem "_hash" old fresh doc (rw u away),
      rewrite_key_lem "hash" old fresh doc (rw h away),
    )

-- If a document has no contract and blank texts at "_hash" and "hash", so that its stamp can only
-- stand in its stamped_chat_request or stamped part, and HealTrailingWSStampDrift changes the
-- document, then its stamp was its hash before, and is not its hash afterwards.
pub heal_breaks_wrapped_stamp :
    (marshal_md5 : Value → Option String) (doc : Fields)
    → IsUnstamped doc
    → heal_trailing_ws_stamp_drift marshal_md5 doc ≢ doc
    → (extract_stamped_hash doc ≡ compute_contract_hash marshal_md5 (some doc))
      × (extract_stamped_hash (heal_trailing_ws_stamp_drift marshal_md5 doc)
          ≢ compute_contract_hash marshal_md5 (some (heal_trailing_ws_stamp_drift marshal_md5 doc)))
heal_breaks_wrapped_stamp marshal_md5 doc (c, u, h) changes = elim (heal-cases marshal_md5 doc) [
  | inl same ↦ absurd (changes same)
  | inr (agrees, filled, norm_filled, differs, healed) ↦
      let norm = compute_contract_hash marshal_md5 (some (normalized doc)) in
      let kept =
        healed
        ∙ rewrite-unstamped (normalized doc) (extract_stamped_hash doc) norm
            (rw
              (
                get-normalized "contract" doc refl refl,
                get-normalized "_hash" doc refl refl,
                get-normalized "hash" doc refl refl,
              )
              (c, u, h))
            filled in
      (
        agrees,
        rw kept (λ e. ground (
          arith,
          differs,
          eq_iff (extract_stamped_hash doc) norm,
          sym (extract-normalized doc) ∙ e,
        )),
      )
]
