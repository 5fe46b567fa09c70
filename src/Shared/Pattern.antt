-- ===== src/Shared/Pattern.antt =====
-- Searches in texts: the functions of Go's `strings`, and the regular expressions with `(?i)` that
-- the client writes, which are alternatives of runs of literal and optional characters.
use Prim.Native.Nat.{ℕ, ◌+◌}
use Prim.Native.Char.{Char}
use Prim.Native.String.{String}
use mathlib.Core.Path.{◌≡◌, refl}
use mathlib.Core.Bool.{Bool, true, false, ◌&&◌, ◌||◌, not}
use mathlib.Core.Option.{Option, none, some}
use mathlib.Core.List.{List, [], ◌∷◌, ◌++◌}
use zeus_client_golang.Shared.Tests.{leb, nat_eq, if◌then◌else◌}
use zeus_client_golang.Shared.Text.{codes}

unfoldable pub starts_with : List ℕ → List ℕ → Bool
starts_with [] s = true
starts_with (c ∷ p) [] = false
starts_with (c ∷ p) (d ∷ s) = nat_eq c d && starts_with p s

abbrev cons_all : Char → Option String → Option String
cons_all c none = none
cons_all c (some s) = some (String.◌∷◌ c s)

-- s[:i] for i = strings.Index(s, p), where that is not -1
unfoldable pub before : List ℕ → String → Option String
unfolding starts_with
before p String.[] = if starts_with p [] then some "" else none
before p (String.◌∷◌ c s) =
    let rest = before p s in
    if starts_with p (codes (String.◌∷◌ c s)) then some "" else cons_all c rest

abbrev is_found : Option String → Bool
is_found none = false
is_found (some _) = true

-- strings.Contains
unfoldable pub contains_text : String → String → Bool
unfolding before
contains_text s p = is_found (before (codes p) s)

-- A character of a pattern, or a class of which one character may stand there.
pub data Piece : Type 0 where
  one : ℕ → Piece
  maybe : (ℕ → Bool) → Piece

-- The folding of `(?i)`: the characters that fold to a letter of ASCII.
unfoldable pub fold : ℕ → ℕ
fold c =
    if leb 65 c && leb c 90
    then c + 32
    else if nat_eq c 0x17f
    then 115
    else if nat_eq c 0x212a
    then 107
    else c

-- A match of the whole pattern at the start of the text.
unfoldable pub matches : List Piece → List ℕ → Bool
unfolding fold
matches [] s = true
matches (one c ∷ p) [] = false
matches (one c ∷ p) (d ∷ s) = nat_eq c (fold d) && matches p s
matches (maybe f ∷ p) [] = matches p []
matches (maybe f ∷ p) (d ∷ s) = matches p (d ∷ s) || (f d && matches p s)

unfoldable pub matches_one : List (List Piece) → List ℕ → Bool
unfolding matches
matches_one [] s = false
matches_one (p ∷ ps) s = matches p s || matches_one ps s

-- MatchString
unfoldable pub search : List (List Piece) → List ℕ → Bool
unfolding matches_one
search ps [] = matches_one ps []
search ps (c ∷ s) = matches_one ps (c ∷ s) || search ps s

abbrev literal_codes : List ℕ → List Piece
literal_codes [] = []
literal_codes (c ∷ s) = one c ∷ literal_codes s

-- A run of literal characters in lower case.
abbrev pub literal : String → List Piece
literal s = literal_codes (codes s)

-- [_\s-]?
abbrev pub separator : List Piece
separator =
    maybe (λ c.
      (((nat_eq c 95 || nat_eq c 45) || nat_eq c 32) || (nat_eq c 9 || nat_eq c 10))
      || (nat_eq c 12 || nat_eq c 13))
    ∷ []

-- .?
abbrev pub any_one : List Piece
any_one = maybe (λ c. not (nat_eq c 10)) ∷ []

-- s?
abbrev pub plural : List Piece
plural = maybe (λ c. nat_eq (fold c) 115) ∷ []

-- strings.ToLower, on the characters whose lower case is in ASCII; the others are not looked for.
unfoldable pub to_lower : List ℕ → List ℕ
to_lower [] = []
to_lower (c ∷ s) =
    (if leb 65 c && leb c 90
      then c + 32
      else if nat_eq c 0x130
      then 105
      else if nat_eq c 0x212a
      then 107
      else c)
    ∷ to_lower s

-- strings.Contains, on code points
unfoldable pub contains_codes : List ℕ → List ℕ → Bool
unfolding starts_with
contains_codes p [] = starts_with p []
contains_codes p (c ∷ s) = starts_with p (c ∷ s) || contains_codes p s

search_example :
    search ((literal "rate" ++ separator ++ literal "limit") ∷ []) (codes "Your RATE-limit") ≡ true
unfolding search
search_example = refl

contains_text_example : contains_text "md5:TO_BE_FILLED" "TO_BE" ≡ true
unfolding contains_text
contains_text_example = refl
