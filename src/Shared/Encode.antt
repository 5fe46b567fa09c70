-- ===== src/Shared/Encode.antt =====
-- The texts that `json.Marshal` writes: keys in order, no blanks, and `<`, `>` and `&` escaped.
use Prim.Native.Nat.{suc, ◌/◌, ◌%◌}
use Prim.Native.Char.{Char, code}
use Prim.Native.String.{String, ◌++◌}
use mathlib.Core.Path.{◌≡◌, refl}
use mathlib.Core.Bool.{true, false, ◌||◌}
use mathlib.Core.List.{List, [], ◌∷◌}
use zeus_client_golang.Shared.Tests.{leb, nat_eq, if◌then◌else◌}
use zeus_client_golang.Shared.Text.{hex_digit, concat}
use zeus_client_golang.Shared.Int.{pos, negsuc}
use zeus_client_golang.Shared.Print.{decimal, insert_entry}
use zeus_client_golang.Shared.Json.{
  Value, Fields, Items, str, bool, num, null, obj, arr, end, field, nil, cons,
}

abbrev escape : Char → String
escape c =
    let n = code c in
    if nat_eq n 34
    then "\\\""
    else if nat_eq n 92
    then "\\\\"
    else if nat_eq n 8
    then "\\b"
    else if nat_eq n 9
    then "\\t"
    else if nat_eq n 10
    then "\\n"
    else if nat_eq n 12
    then "\\f"
    else if nat_eq n 13
    then "\\r"
    else if ((leb n 31 || nat_eq n 38) || nat_eq n 60) || nat_eq n 62
    then "\\u00" ++ hex_digit (n / 16) ++ hex_digit (n % 16)
    else if nat_eq n 0x2028
    then "\\u2028"
    else if nat_eq n 0x2029
    then "\\u2029"
    else String.◌∷◌ c String.[]

abbrev escape_all : String → String
escape_all String.[] = ""
escape_all (String.◌∷◌ c s) = escape c ++ escape_all s

abbrev quoted : String → String
quoted s = concat ("\"" ∷ escape_all s ∷ "\"" ∷ [])

abbrev write_fields : List (String × String) → String
write_fields [] = ""
write_fields ((k, v) ∷ []) = concat (quoted k ∷ ":" ∷ v ∷ [])
write_fields ((k, v) ∷ (e ∷ m)) = concat (quoted k ∷ ":" ∷ v ∷ "," ∷ write_fields (e ∷ m) ∷ [])

abbrev comma_after : Items → String
comma_after nil = ""
comma_after (cons _ _) = ","

unfoldable mutual
  unfolding decimal concat

  pub marshal : Value → String
  marshal (str s) = quoted s
  marshal (bool true) = "true"
  marshal (bool false) = "false"
  marshal (num (pos n)) = decimal n
  marshal (num (negsuc n)) = "-" ++ decimal (suc n)
  marshal null = "null"
  marshal (obj m) = "{" ++ write_fields (encoded m) ++ "}"
  marshal (arr xs) = "[" ++ marshal_items xs ++ "]"

  encoded : Fields → List (String × String)
  encoded end = []
  encoded (field k v m) = insert_entry k (marshal v) (encoded m)

  marshal_items : Items → String
  marshal_items nil = ""
  marshal_items (cons v xs) = marshal v ++ comma_after xs ++ marshal_items xs

marshal_example :
    marshal
      (obj (field "b" (str "<\n") (field "a" (arr (cons null (cons (num (pos 12)) nil))) end)))
    ≡ "{\"a\":[null,12],\"b\":\"\\u003c\\n\"}"
unfolding marshal
marshal_example = refl
