-- ===== src/Turn/Depth.antt =====
-- The fuel of isEmptyJSONValue in application/agent_turn.go.
use zeus_client_golang.Shared.{
  Bool, ℕ, zero, suc, ◌≤◌, String, Option, none, some, ◌==◌, ◌≡◌, refl, inl, inr, arith, Bool-cases,
}
use zeus_client_golang.Shared.Json.{
  Value, Fields, str, bool, num, null, obj, arr, end, field, nil, cons, get?,
}
use zeus_client_golang.Turn.Json.{
  depth, depth_fields, first_of, payload_of, if_found, empty_within, is_empty_json_value,
}

get?-depth : (k : String) (m : Fields) (w : Value) → get? k m ≡ some w → depth w ≤ depth_fields m
unfolding get? depth
get?-depth k end w h = absurd (ground (arith, h))
get?-depth k (field j v m) w h = elim (Bool-cases (j == k)) [
  | inl here ↦ let e : v ≡ w = ground (arith, h, here) in rw e (omega arith)
  | inr later ↦
      let rest : get? k m ≡ some w = ground (arith, h, later) in
      omega (arith, get?-depth k m w rest)
]

-- A bound on the depth of the value that is found.
abbrev IsWithin : ℕ → Option Value → Type 0
IsWithin n o = (w : Value) → o ≡ some w → depth w ≤ n

first_of-IsWithin :
    (n : ℕ) (a b : Option Value) → IsWithin n a → IsWithin n b → IsWithin n (first_of a b)
first_of-IsWithin n none b h k = k
first_of-IsWithin n (some v) b h k = h

payload_of-IsWithin : (m : Fields) → IsWithin (depth_fields m) (payload_of m)
payload_of-IsWithin m =
    let n = depth_fields m in
    first_of-IsWithin n (get? "rows" m) _ (get?-depth "rows" m) (
      first_of-IsWithin n (get? "items" m) _ (get?-depth "items" m) (
        first_of-IsWithin n (get? "results" m) _ (get?-depth "results" m) (
          first_of-IsWithin n (get? "entities" m) _ (get?-depth "entities" m) (
            first_of-IsWithin n (get? "data" m) (get? "result" m) (get?-depth "data" m)
              (get?-depth "result" m)))))

if_found_same :
    (f g : Value → Bool) (o : Option Value)
    → ((w : Value) → o ≡ some w → f w ≡ g w)
    → if_found f o ≡ if_found g o
if_found_same f g none h = refl
if_found_same f g (some v) h = h v refl

depth_not_zero : (v : Value) → 1 ≤ depth v
unfolding depth
depth_not_zero (str s) = omega arith
depth_not_zero (bool b) = omega arith
depth_not_zero (num n) = omega arith
depth_not_zero null = omega arith
depth_not_zero (obj m) = omega arith
depth_not_zero (arr xs) = omega arith

-- Any two amounts of fuel that reach the depth of a value give the same.
pub empty_within_lem :
    (n k : ℕ) (v : Value) → depth v ≤ n → depth v ≤ k → empty_within n v ≡ empty_within k v
unfolding empty_within depth
empty_within_lem zero k v h j = absurd (omega (arith, h, depth_not_zero v))
empty_within_lem (suc n) zero v h j = absurd (omega (arith, j, depth_not_zero v))
empty_within_lem (suc n) (suc k) (str s) h j = refl
empty_within_lem (suc n) (suc k) (bool b) h j = refl
empty_within_lem (suc n) (suc k) (num z) h j = refl
empty_within_lem (suc n) (suc k) null h j = refl
empty_within_lem (suc n) (suc k) (arr nil) h j = refl
empty_within_lem (suc n) (suc k) (arr (cons x xs)) h j = refl
empty_within_lem (suc n) (suc k) (obj end) h j = refl
empty_within_lem (suc n) (suc k) (obj (field i v m)) h j =
    if_found_same (empty_within n) (empty_within k) (payload_of (field i v m)) (λ w e.
      let within = payload_of-IsWithin (field i v m) w e in
      empty_within_lem n k w (omega (arith, h, within)) (omega (arith, j, within)))

-- isEmptyJSONValue looks into the first list or object of an object under one of its keys.
pub is_empty_json_value_lem :
    (k : String) (v : Value) (m : Fields)
    → is_empty_json_value (obj (field k v m))
      ≡ if_found is_empty_json_value (payload_of (field k v m))
unfolding is_empty_json_value empty_within depth
is_empty_json_value_lem k v m =
    if_found_same (empty_within (depth_fields (field k v m))) is_empty_json_value
      (payload_of (field k v m))
      (λ w e.
        empty_within_lem (depth_fields (field k v m)) (depth w) w
          (payload_of-IsWithin (field k v m) w e) (omega arith))
