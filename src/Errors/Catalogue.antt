-- ===== src/Errors/Catalogue.antt =====
-- The catalogue of domain/codes.go against its lookups.
use zeus_client_golang.Shared.{
  String, Bool, true, false, ◌≡◌, refl, List, [], ◌∷◌, none, some, arith, eq_iff, if◌then◌else◌,
  contains, ◌==◌, Bool-cases, inl, inr,
}
use zeus_client_golang.Shared.Maps.{Dict, lookup, put, has-put, has}
use zeus_client_golang.Errors.Codes.{Code, CodeInfo, code_catalog}
use zeus_client_golang.Errors.{codes_of, index, by_code, all_codes, is_six_digits, parse_code}

has-index :
    (s : Code) (infos : List CodeInfo) (m : Dict CodeInfo)
    → has s (index infos m) ≡ (if contains s (codes_of infos) then true else has s m)
unfolding index
has-index s [] m = refl
has-index s (i ∷ rest) m = ground (arith, has-index s rest (put i.code i m), has-put i.code s i m)

has-by_code : (s : Code) → has s by_code ≡ contains s all_codes
unfolding by_code all_codes has lookup
has-by_code s = ground (arith, has-index s code_catalog [])

abbrev six_digits_each : List Code → Bool
six_digits_each [] = true
six_digits_each (c ∷ cs) = if is_six_digits c then six_digits_each cs else false

six_digits_of_contains :
    (s : Code) (cs : List Code)
    → six_digits_each cs ≡ true
    → contains s cs ≡ true
    → is_six_digits s ≡ true
six_digits_of_contains s [] h c = cc
six_digits_of_contains s (x ∷ cs) h c = elim (Bool-cases (x == s)) [
  | inl e ↦ rw (← (eq_iff x s).0 e) (ground arith)
  | inr e ↦ ground (arith, six_digits_of_contains s cs)
]

all_codes_six_digits : six_digits_each all_codes ≡ true
unfolding all_codes code_catalog
all_codes_six_digits = refl

-- ParseCode accepts exactly the codes of the catalogue: a text is parsed, to itself, if AllCodes
-- lists it, and is refused otherwise, so the test for six digits refuses none of the codes.
pub parse_code_exact : (s : String) → parse_code s ≡ (if contains s all_codes then some s else none)
unfolding parse_code
parse_code_exact s =
    ground (arith, has-by_code s, six_digits_of_contains s all_codes all_codes_six_digits)
