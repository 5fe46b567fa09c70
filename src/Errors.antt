-- ===== src/Errors.antt =====
-- domain/errors.go and the lookups of domain/codes.go: the client's error value.
pub mod Codes
pub mod Catalogue
mod Examples
use zeus_client_golang.Shared.{
  ℕ, String, Bool, true, false, ◌&&◌, List, [], ◌∷◌, map, Option, none, some, leb, nat_eq,
  if◌then◌else◌, length, ◌≡◌, refl, ◌⊎◌, inl, inr,
}
use zeus_client_golang.Shared.Maps.{Dict, lookup, put, put_all, has}
use zeus_client_golang.Shared.Text.{codes}
use zeus_client_golang.Errors.Codes.{Code, CodeInfo, code_catalog, cancelled, context_deadline}

-- `init`: the slice is read in order, so a later entry overwrites an earlier one.
unfoldable pub index : List CodeInfo → Dict CodeInfo → Dict CodeInfo
index [] m = m
index (i ∷ rest) m = index rest (put i.code i m)

unfoldable pub by_code : Dict CodeInfo
by_code = index code_catalog []

abbrev pub codes_of : List CodeInfo → List Code
codes_of [] = []
codes_of (i ∷ rest) = i.code ∷ codes_of rest

unfoldable pub all_codes : List Code
all_codes = codes_of code_catalog

abbrev pub all_digits : List ℕ → Bool
all_digits [] = true
all_digits (c ∷ s) = (leb b'0' c && leb c b'9') && all_digits s

-- The lengths in bytes and in characters differ only for texts that fail the digit test.
abbrev pub is_six_digits : String → Bool
is_six_digits s = nat_eq (length (codes s)) 6 && all_digits (codes s)

unfoldable pub parse_code : String → Option Code
parse_code s = if is_six_digits s then (if has s by_code then some s else none) else none

abbrev retryable_of : Option CodeInfo → Bool
retryable_of none = false
retryable_of (some i) = i.retryable

abbrev message_of : Option CodeInfo → String
message_of none = "unknown client error"
message_of (some i) = i.message

abbrev type_of : Option CodeInfo → String
type_of none = "internal"
type_of (some i) = i.typ

unfoldable pub default_retryable : Code → Bool
default_retryable c = retryable_of (lookup c by_code)

unfoldable pub public_message : Code → String
public_message c = message_of (lookup c by_code)

unfoldable pub default_type : Code → String
default_type c = type_of (lookup c by_code)

-- The values of `Details` are rendered texts, and `Cause` is the text of the wrapped error.
pub record Error : Type 0 where
  pub code : Code
  pub message : String
  pub typ : String
  pub component : String
  pub retryable : Bool
  pub cause_event_id : String
  pub details : Dict String
  pub cause : Option String

-- `Option` of errors.go
pub data ErrorOption : Type 0 where
  with_message : String → ErrorOption
  with_retryable : Bool → ErrorOption
  with_cause_event_id : String → ErrorOption
  with_details : Dict String → ErrorOption
  with_cause : String → ErrorOption
  with_type : String → ErrorOption

unfoldable pub apply_option : ErrorOption → Error → Error
apply_option (with_message m) e = record e { message = m }
apply_option (with_retryable r) e = record e { retryable = r }
apply_option (with_cause_event_id i) e = record e { cause_event_id = i }
apply_option (with_details []) e = e
apply_option (with_details (d ∷ ds)) e = record e { details = put_all (d ∷ ds) [] }
apply_option (with_cause c) e = record e { cause = some c }
apply_option (with_type t) e = record e { typ = t }

unfoldable pub apply_options : List ErrorOption → Error → Error
unfolding apply_option
apply_options [] e = e
apply_options (o ∷ os) e = apply_options os (apply_option o e)

unfoldable pub new : Code → String → List ErrorOption → Error
unfolding apply_options
new c component opts = apply_options opts (record {
  code = c;
  message = public_message c;
  typ = default_type c;
  component = component;
  retryable = default_retryable c;
  cause_event_id = "";
  details = [];
  cause = none;
})

unfoldable pub typed : String → Code → String → List ErrorOption → Error
unfolding new
typed t c component opts = record (new c component opts) { typ = t }

unfoldable pub new_catalog : Code → String → List ErrorOption → Error
unfolding typed
new_catalog c component opts = typed "catalog" c component opts

unfoldable pub new_contract : Code → String → List ErrorOption → Error
unfolding typed
new_contract c component opts = typed "contract" c component opts

unfoldable pub new_session : Code → String → List ErrorOption → Error
unfolding typed
new_session c component opts = typed "session" c component opts

unfoldable pub new_zeus_transport : Code → String → List ErrorOption → Error
unfolding typed
new_zeus_transport c component opts = typed "zeus_http" c component opts

unfoldable pub new_validation : Code → String → List ErrorOption → Error
unfolding typed
new_validation c component opts = typed "invalid_argument" c component opts

unfoldable pub new_job : Code → String → List ErrorOption → Error
unfolding typed
new_job c component opts = typed "jobs" c component opts

-- What an error chain holds, as `errors.Is` finds it, with the text of the error.
pub data ContextError : Type 0 where
  canceled deadline_exceeded other : String → ContextError

unfoldable pub from_context : Option ContextError → Option Error
unfolding new
from_context none = none
from_context (some (canceled text)) = some (new cancelled "context" (with_cause text ∷ []))
from_context (some (deadline_exceeded text)) =
    some (new context_deadline "context" (with_cause text ∷ []))
from_context (some (other _)) = none

-- A Go pair `(value, error)` whose value is read only if the error is nil.
pub data Result {ℓ} (A : Type ℓ) : Type ℓ where
  ok : A → Result A
  err : Error → Result A

pub Result-cases {ℓ} :
    {A : Type ℓ} (m : Result A) → ((a : A) × (m ≡ ok a)) ⊎ ((e : Error) × (m ≡ err e))
Result-cases (ok a) = inl (a, refl)
Result-cases (err e) = inr (e, refl)

-- `if err != nil { return err }`, and the rest of the function
module _ {ℓ κ} {A : Type ℓ} {B : Type κ} where
  infixl 10 ◌>>=◌
  abbrev pub ◌>>=◌ : Result A → (A → Result B) → Result B
  m >>= next = elim m [ err e ↦ err e | ok a ↦ next a ]

  -- A chain that succeeds has a first part that does.
  pub ok_of_bind :
      (m : Result A) (next : A → Result B) (b : B)
      → (m >>= next) ≡ ok b
      → (a : A) × (m ≡ ok a) × (next a ≡ ok b)
  ok_of_bind (err e) next b h = cc
  ok_of_bind (ok a) next b h = (a, refl, h)
