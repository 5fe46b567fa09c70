-- ===== src/ToolTrail.antt =====
-- domain/tool_trail.go: the calls of a turn as rows, and their block in the system message.
pub mod Upsert
pub mod Splice
mod Examples
use zeus_client_golang.Shared.{
  ℕ, zero, suc, String, Bool, true, false, ◌&&◌, ◌||◌, not, List, [], ◌∷◌, ◌++◌, Option, none, some,
  if◌then◌else◌, ◌==◌, leb, nat_eq,
}
use zeus_client_golang.Shared.Int.{ℤ, pos, negsuc, ◌≤?◌, ◌<?◌}
use zeus_client_golang.Shared.Text.{trim_space, trim_right, concat, codes, join}
use zeus_client_golang.Shared.Pattern.{to_lower, contains_codes, before}
use zeus_client_golang.Shared.Print.{sprint}
use zeus_client_golang.Shared.Parse.{atoi, parse_bool}
use zeus_client_golang.Shared.Json.{
  Value, Fields, str, bool, num, null, obj, arr, end, get, set, as_string,
}

abbrev pub trail_heading : String
trail_heading = "ZEUS_TOOL_TRAIL (this turn):"

abbrev is_status : ℤ → ℕ → Bool
is_status (pos n) m = nat_eq n m
is_status (negsuc n) m = false

unfoldable pub error_class_for : Bool → ℤ → String → String
error_class_for is_ok status err =
    if is_ok
    then ""
    else if is_status status 409
    then "contract_mismatch"
    else if is_status status 429
        || is_status status 503
        || contains_codes (codes "timeout") (to_lower (codes err))
    then "retryable_later"
    else if pos 400 ≤? status && status <? pos 500
    then "do_not_retry_same_args"
    else "zeus_error"

unfoldable pub trail_hint : Bool → Bool → String → String
trail_hint is_ok empty error_class =
    if is_ok && empty
    then "empty"
    else if is_ok
    then "success"
    else if error_class == "contract_mismatch" || error_class == "do_not_retry_same_args"
    then "do_not_retry_same_args"
    else if error_class == "retryable_later"
    then "retryable_later"
    else ""

unfoldable pub as_bool : Value → Bool
unfolding parse_bool
as_bool (bool b) = b
as_bool (str s) = parse_bool s
as_bool _ = false

abbrev or_zero : Option ℤ → ℤ
or_zero none = pos 0
or_zero (some n) = n

unfoldable pub as_int : Value → ℤ
unfolding atoi
as_int (num n) = n
as_int (str s) = or_zero (atoi s)
as_int _ = pos 0

abbrev is_null : Value → Bool
is_null null = true
is_null _ = false

-- fmt.Sprint(hop["error"]), "" for nil and for a text that reads as nil
abbrev pub error_text : Value → String
error_text v = if is_null v then "" else if sprint v == "<nil>" then "" else sprint v

abbrev pub set_if : Bool → String → Value → Fields → Fields
set_if b k v m = if b then set k v m else m

abbrev first_text : String → String → String
first_text s t = if s == "" then t else s

-- The status of a hop, and its verb, each under either of two names.
abbrev pub hop_status : Fields → ℤ
hop_status hop =
    let n = as_int (get "status" hop) in if is_status n 0 then as_int (get "status_code" hop) else n

abbrev pub hop_verb : Fields → String
hop_verb hop =
    first_text (trim_space (as_string (get "name" hop))) (trim_space (as_string (get "verb" hop)))

abbrev pub hop_class : Fields → String
hop_class hop =
    error_class_for (as_bool (get "ok" hop)) (hop_status hop) (error_text (get "error" hop))

unfoldable pub trail_entry_from_hop : Fields → ℕ → Bool → Fields
trail_entry_from_hop hop seq empty =
    let is_ok = as_bool (get "ok" hop) in
    let klass = hop_class hop in
    let verb = hop_verb hop in
    let req_id = as_string (get "req_id" hop) in
    let hint = trail_hint is_ok empty klass in
    let path = first_text (as_string (get "url" hop)) (as_string (get "path" hop)) in
    set_if (not (path == "")) "path" (str path) (
      set_if (not (hint == "")) "hint" (str hint) (
        set_if (not (klass == "")) "error_class" (str klass) (
          set_if (not (req_id == "")) "req_id" (str req_id) (
            set_if (not (is_status (hop_status hop) 0)) "http_status" (num (hop_status hop)) (
              set_if (not (verb == "")) "l0" (str (concat ("zeus." ∷ verb ∷ []))) (
                set_if (not (verb == "")) "verb" (str verb)
                  (set "ok" (bool is_ok) (set "seq" (num (pos seq)) end))))))))

abbrev pub take {ℓ} : {A : Type ℓ} → ℕ → List A → List A
take zero xs = []
take (suc n) [] = []
take (suc n) (x ∷ xs) = x ∷ take n xs

-- A bit of a line, left out where its value is "".
abbrev labelled : String → String → List String
labelled label s = if s == "" then [] else concat (label ∷ s ∷ []) ∷ []

abbrev pub trail_line : Fields → String
trail_line e =
    let seq = if is_null (get "seq" e) then "?" else sprint (get "seq" e) in
    let l0 = first_text (first_text (as_string (get "l0" e)) (as_string (get "verb" e))) "hop" in
    join " " (
      concat (seq ∷ "." ∷ [])
        ∷ l0
        ∷ (if as_bool (get "ok" e) then "ok" else "fail")
        ∷ labelled "req_id=" (as_string (get "req_id" e))
      ++ labelled "" (as_string (get "error_class" e))
      ++ labelled "hint=" (as_string (get "hint" e)))

abbrev trail_lines : List Fields → List String
trail_lines [] = []
trail_lines (e ∷ es) = trail_line e ∷ trail_lines es

abbrev pub clamp : ℤ → ℕ
clamp (pos n) = n
clamp (negsuc n) = 0

abbrev pub block_of : List Fields → String
block_of [] = ""
block_of (e ∷ es) = join "\n" (trail_heading ∷ trail_lines (e ∷ es))

unfoldable pub render_trail_inject : List Fields → ℤ → String
unfolding join
render_trail_inject entries max_entries = block_of (take (clamp max_entries) entries)

abbrev pub is_trailing_ws : ℕ → Bool
is_trailing_ws c = ((nat_eq c 32 || nat_eq c 9) || nat_eq c 10) || nat_eq c 13

abbrev pub or_whole : Option String → String → String
or_whole none s = s
or_whole (some h) s = h

-- The content with the snippet in place of the block that it holds, or at its end.
unfoldable pub splice_trail : String → String → String
unfolding before trim_right
splice_trail content snippet = concat (
    trim_right is_trailing_ws (or_whole (before (codes trail_heading) content) content)
    ∷ "\n\n"
    ∷ snippet
    ∷ [])

-- messages[0]["content"] = …
abbrev pub upsert_first : Value → String → Value
upsert_first (obj sys) snippet =
    if as_string (get "role" sys) == "system"
    then obj (set "content" (str (splice_trail (as_string (get "content" sys)) snippet)) sys)
    else obj sys
upsert_first v snippet = v

unfoldable pub upsert_trail_on_system : List Value → String → List Value
unfolding splice_trail
upsert_trail_on_system [] snippet = []
upsert_trail_on_system (m ∷ ms) snippet =
    if snippet == "" then m ∷ ms else upsert_first m snippet ∷ ms
