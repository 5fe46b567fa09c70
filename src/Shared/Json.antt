-- ===== src/Shared/Json.antt =====
-- Go's `any` as the client builds it from JSON, and `map[string]any`.
use Prim.Native.String.{String}
use mathlib.Core.Path.{◌≡◌, refl}
use mathlib.Core.Bool.{Bool}
use mathlib.Core.Option.{Option, none, some}
use mathlib.Core.Logic.{inl, inr}
use native.Mathlib.Omega.{arith}
use text.Mathlib.TextEquality.{eq_iff}
use zeus_client_golang.Shared.Tests.{Bool-cases, ◌==◌, if◌then◌else◌}
use zeus_client_golang.Shared.Int.{ℤ}

-- Numbers are integers; no modelled function reads a fraction.
mutual
  -- map[string]any
  pub data Fields : Type 0 where
    end : Fields
    field : String → Value → Fields → Fields

  -- []any
  pub data Items : Type 0 where
    nil : Items
    cons : Value → Items → Items

  pub data Value : Type 0 where
    str : String → Value
    bool : Bool → Value
    num : ℤ → Value
    null : Value
    obj : Fields → Value
    arr : Items → Value

-- m[k], with its second result
unfoldable pub get? : String → Fields → Option Value
get? k end = none
get? k (field j v m) = if j == k then some v else get? k m

-- m[k]: nil where the key is missing
abbrev pub value_or_null : Option Value → Value
value_or_null none = null
value_or_null (some v) = v

unfoldable pub get : String → Fields → Value
unfolding get?
get k m = value_or_null (get? k m)

-- m[k] = v
unfoldable pub set : String → Value → Fields → Fields
set k v end = field k v end
set k v (field j w m) = if j == k then field k v m else field j w (set k v m)

-- v.(string), "" where the assertion fails
unfoldable pub as_string : Value → String
as_string (str s) = s
as_string _ = ""

-- v.(map[string]any)
unfoldable pub as_map : Value → Option Fields
as_map (obj m) = some m
as_map _ = none

pub get?-set :
    (k j : String) (v : Value) (m : Fields)
    → get? j (set k v m) ≡ (if k == j then some v else get? j m)
unfolding get? set
get?-set k j v end = refl
get?-set k j v (field i w m) = ground (arith, eq_iff k j, eq_iff i k, eq_iff i j, get?-set k j v m)

pub get-set :
    (k j : String) (v : Value) (m : Fields) → get j (set k v m) ≡ (if k == j then v else get j m)
unfolding get
get-set k j v m = ground (arith, get?-set k j v m)

-- The fields whose key passes a test.
unfoldable pub filter_keys : (String → Bool) → Fields → Fields
filter_keys p end = end
filter_keys p (field k v m) = let rest = filter_keys p m in if p k then field k v rest else rest

pub get?-filter_keys :
    (p : String → Bool) (k : String) (m : Fields)
    → get? k (filter_keys p m) ≡ (if p k then get? k m else none)
unfolding get? filter_keys
get?-filter_keys p k end = ground arith
get?-filter_keys p k (field j v m) = elim (Bool-cases (j == k)) [
  | inl same ↦ rw ((eq_iff j k).0 same) (ground (arith, get?-filter_keys p k m))
  | inr differs ↦ ground (arith, get?-filter_keys p k m)
]
