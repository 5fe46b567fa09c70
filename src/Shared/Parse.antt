-- ===== src/Shared/Parse.antt =====
-- Numbers and truth values read from texts, as Go's `strconv` does; a number has no upper bound.
use Prim.Native.Nat.{ℕ, zero, suc, ◌+◌, ◌-◌, ◌*◌}
use Prim.Native.String.{String}
use mathlib.Core.Path.{◌≡◌, refl}
use mathlib.Core.Bool.{Bool, ◌&&◌, ◌||◌}
use mathlib.Core.Option.{Option, none, some}
use mathlib.Core.List.{List, [], ◌∷◌}
use zeus_client_golang.Shared.Tests.{leb, nat_eq, ◌==◌, if◌then◌else◌}
use zeus_client_golang.Shared.Text.{codes}
use zeus_client_golang.Shared.Int.{ℤ, pos, negsuc}

-- The decimal digits of a text from a number on, none where another character stands.
abbrev pub digits_from : ℕ → List ℕ → Option ℕ
digits_from n [] = some n
digits_from n (c ∷ cs) =
    let rest = digits_from (n * 10 + (c - 48)) cs in if leb 48 c && leb c 57 then rest else none

abbrev negative : Option ℕ → Option ℤ
negative none = none
negative (some zero) = some (pos 0)
negative (some (suc n)) = some (negsuc n)

abbrev positive : Option ℕ → Option ℤ
positive none = none
positive (some n) = some (pos n)

abbrev some_digits : List ℕ → Option ℕ
some_digits [] = none
some_digits (c ∷ cs) = digits_from 0 (c ∷ cs)

abbrev signed_digits : List ℕ → Option ℤ
signed_digits [] = none
signed_digits (c ∷ cs) =
    if nat_eq c 45
    then negative (some_digits cs)
    else if nat_eq c 43
    then positive (some_digits cs)
    else positive (some_digits (c ∷ cs))

-- strconv.Atoi
unfoldable pub atoi : String → Option ℤ
atoi s = signed_digits (codes s)

-- strconv.ParseBool, whose value is false where it fails
unfoldable pub parse_bool : String → Bool
parse_bool s = s == "1" || s == "t" || s == "T" || s == "true" || s == "TRUE" || s == "True"

atoi_example : atoi "-429" ≡ some (negsuc 428)
unfolding atoi
atoi_example = refl
