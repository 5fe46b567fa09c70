-- ===== src/Shared/Print.antt =====
-- `fmt.Sprint` for the values of JSON, and texts clipped to a number of bytes.
use Prim.Native.Nat.{ℕ, zero, suc, ◌+◌, ◌-◌, ◌*◌, ◌/◌, ◌%◌, ◌<◌, Ordering}
use Prim.Native.Char.{code}
use Prim.Native.String.{String, ◌++◌, compare as text_compare}
use mathlib.Core.Path.{◌≡◌, refl}
use mathlib.Core.Bool.{Bool, true, false}
use mathlib.Core.List.{List, [], ◌∷◌}
use native.Mathlib.Omega.{arith}
use zeus_client_golang.Shared.Tests.{leb, nat_eq, if◌then◌else◌}
use zeus_client_golang.Shared.Text.{hex_digit}
use zeus_client_golang.Shared.Int.{pos, negsuc}
use zeus_client_golang.Shared.Json.{
  Value, Fields, Items, str, bool, num, null, obj, arr, end, field, nil, cons,
}

-- The digits of a number, the last one first; `fuel` bounds their count.
unfoldable pub digits : ℕ → ℕ → List ℕ
digits zero n = []
digits (suc fuel) n = let rest = digits fuel (n / 10) in if nat_eq n 0 then [] else n % 10 ∷ rest

abbrev value_of : List ℕ → ℕ
value_of [] = 0
value_of (d ∷ ds) = d + 10 * value_of ds

-- A number has no more digits than its value, so this fuel is enough.
pub digits_lem : (fuel n : ℕ) → n < suc fuel → value_of (digits fuel n) ≡ n
unfolding digits
digits_lem zero n h = ground arith
digits_lem (suc fuel) n h = ground (arith, digits_lem fuel (n / 10) (omega (arith, h)))

abbrev write : List ℕ → String → String
write [] acc = acc
write (d ∷ ds) acc = write ds (hex_digit d ++ acc)

unfoldable pub decimal : ℕ → String
unfolding digits
decimal n = if nat_eq n 0 then "0" else write (digits n n) ""

-- Bytes compare as code points do in UTF-8.
abbrev text_leb : String → String → Bool
text_leb s t = elim (text_compare s t) [ Ordering.gt ↦ false | _ ↦ true ]

-- The printed entries of a map, which `fmt` sorts by key.
abbrev pub insert_entry : String → String → List (String × String) → List (String × String)
insert_entry k v [] = (k, v) ∷ []
insert_entry k v ((j, w) ∷ m) =
    if text_leb k j then (k, v) ∷ (j, w) ∷ m else (j, w) ∷ insert_entry k v m

abbrev join_entries : List (String × String) → String
join_entries [] = ""
join_entries ((k, v) ∷ []) = k ++ ":" ++ v
join_entries ((k, v) ∷ (e ∷ m)) = k ++ ":" ++ v ++ " " ++ join_entries (e ∷ m)

abbrev space_after : Items → String
space_after nil = ""
space_after (cons _ _) = " "

-- Whole numbers below 10^21, which Go prints without an exponent.
unfoldable mutual
  unfolding decimal

  pub sprint : Value → String
  sprint (str s) = s
  sprint (bool true) = "true"
  sprint (bool false) = "false"
  sprint (num (pos n)) = decimal n
  sprint (num (negsuc n)) = "-" ++ decimal (suc n)
  sprint null = "<nil>"
  sprint (obj m) = "map[" ++ join_entries (entries m) ++ "]"
  sprint (arr xs) = "[" ++ sprint_items xs ++ "]"

  pub entries : Fields → List (String × String)
  entries end = []
  entries (field k v m) = insert_entry k (sprint v) (entries m)

  pub sprint_items : Items → String
  sprint_items nil = ""
  sprint_items (cons v xs) = sprint v ++ space_after xs ++ sprint_items xs

-- The bytes of a character in UTF-8.
abbrev pub char_bytes : ℕ → ℕ
char_bytes c = if leb c 0x7f then 1 else if leb c 0x7ff then 2 else if leb c 0xffff then 3 else 4

unfoldable pub byte_length : String → ℕ
byte_length String.[] = 0
byte_length (String.◌∷◌ c s) = char_bytes (code c) + byte_length s

-- s[:n], but for a character that the cut would split, which is left out whole
unfoldable pub take_bytes : ℕ → String → String
take_bytes n String.[] = ""
take_bytes n (String.◌∷◌ c s) =
    let rest = take_bytes (n - char_bytes (code c)) s in
    if leb (char_bytes (code c)) n then String.◌∷◌ c rest else ""

sprint_example :
    sprint
      (obj (field "b" (num (pos 429)) (field "a" (arr (cons null (cons (bool true) nil))) end)))
    ≡ "map[a:[<nil> true] b:429]"
unfolding sprint
sprint_example = refl
