-- ===== src/Shared/Text.antt =====
-- The functions of Go's `strings` that the client uses, over the native texts.
use Prim.Native.Nat.{ℕ, zero, suc, ◌/◌, ◌%◌}
use Prim.Native.Char.{Char, code}
use Prim.Native.String.{String, ◌++◌}
use mathlib.Core.Path.{◌≡◌, refl}
use mathlib.Core.Bool.{Bool, ◌&&◌, ◌||◌}
use mathlib.Core.List.{List, [], ◌∷◌}
use zeus_client_golang.Shared.Tests.{leb, nat_eq, if◌then◌else◌}

-- The code points of a text.
abbrev pub codes : String → List ℕ
codes String.[] = []
codes (String.◌∷◌ c s) = code c ∷ codes s

-- unicode.IsSpace
unfoldable pub is_space : ℕ → Bool
is_space c =
    (leb 9 c && leb c 13)
    || nat_eq c 32
    || nat_eq c 0x85
    || nat_eq c 0xa0
    || nat_eq c 0x1680
    || (leb 0x2000 c && leb c 0x200a)
    || nat_eq c 0x2028
    || nat_eq c 0x2029
    || nat_eq c 0x202f
    || nat_eq c 0x205f
    || nat_eq c 0x3000

unfoldable pub trim_left : (ℕ → Bool) → String → String
trim_left p String.[] = String.[]
trim_left p (String.◌∷◌ c s) =
    let rest = trim_left p s in if p (code c) then rest else String.◌∷◌ c s

abbrev cons_unless : Bool → Char → String → String
cons_unless b c String.[] = if b then String.[] else String.◌∷◌ c String.[]
cons_unless b c (String.◌∷◌ d s) = String.◌∷◌ c (String.◌∷◌ d s)

unfoldable pub trim_right : (ℕ → Bool) → String → String
trim_right p String.[] = String.[]
trim_right p (String.◌∷◌ c s) = cons_unless (p (code c)) c (trim_right p s)

-- strings.TrimSpace
unfoldable pub trim_space : String → String
unfolding trim_left trim_right is_space
trim_space s = trim_right is_space (trim_left is_space s)

trim_space_example : trim_space " a b\n" ≡ "a b"
unfolding trim_space
trim_space_example = refl

-- a + b + …
unfoldable pub concat : List String → String
concat [] = ""
concat (s ∷ rest) = s ++ concat rest

abbrev pub nth_or_empty : List String → ℕ → String
nth_or_empty [] n = ""
nth_or_empty (s ∷ rest) zero = s
nth_or_empty (s ∷ rest) (suc n) = nth_or_empty rest n

abbrev pub hex_digit : ℕ → String
hex_digit = nth_or_empty (
    "0" ∷ "1" ∷ "2" ∷ "3" ∷ "4" ∷ "5" ∷ "6" ∷ "7" ∷ "8" ∷ "9" ∷ "a" ∷ "b" ∷ "c" ∷ "d" ∷ "e" ∷ "f"
    ∷ [])

abbrev escape : Char → String
escape c =
    let n = code c in
    if nat_eq n 34
    then "\\\""
    else if nat_eq n 92
    then "\\\\"
    else if nat_eq n 7
    then "\\a"
    else if nat_eq n 8
    then "\\b"
    else if nat_eq n 9
    then "\\t"
    else if nat_eq n 10
    then "\\n"
    else if nat_eq n 11
    then "\\v"
    else if nat_eq n 12
    then "\\f"
    else if nat_eq n 13
    then "\\r"
    else if leb n 31 || nat_eq n 127
    then "\\x" ++ hex_digit (n / 16) ++ hex_digit (n % 16)
    else String.◌∷◌ c String.[]

abbrev escape_all : String → String
escape_all String.[] = ""
escape_all (String.◌∷◌ c s) = escape c ++ escape_all s

-- `%q` of `fmt`, for texts whose characters beyond ASCII are printable
unfoldable pub quote : String → String
quote s = "\"" ++ escape_all s ++ "\""

quote_example : quote "a\"b\n" ≡ "\"a\\\"b\\n\""
unfolding quote
quote_example = refl

-- strings.Join
unfoldable pub join : String → List String → String
join sep [] = ""
join sep (s ∷ []) = s
join sep (s ∷ (t ∷ rest)) = s ++ sep ++ join sep (t ∷ rest)
