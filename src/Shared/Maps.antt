-- ===== src/Shared/Maps.antt =====
-- A Go `map[string]V` as an association list. Go leaves the order of `range` open; the loops
-- here go from the last entry to the first, so an earlier entry of the list wins, as in `lookup`.
use Prim.Native.String.{String}
use mathlib.Core.Path.{◌≡◌, refl}
use mathlib.Core.Bool.{Bool, true, false}
use mathlib.Core.Option.{Option, none, some}
use mathlib.Core.List.{List, [], ◌∷◌}
use mathlib.Core.Logic.{inl, inr}
use native.Mathlib.Omega.{arith}
use text.Mathlib.TextEquality.{eq_iff}
use zeus_client_golang.Shared.Tests.{Bool-cases, ◌==◌, if◌then◌else◌}

abbrev pub Dict {ℓ} : Type ℓ → Type ℓ
Dict V = List (String × V)

module _ {ℓ} {V : Type ℓ} where
  -- m[k], with its second result
  unfoldable pub lookup : String → Dict V → Option V
  lookup k [] = none
  lookup k ((j, v) ∷ m) = if j == k then some v else lookup k m

  -- m[k] = v
  unfoldable pub put : String → V → Dict V → Dict V
  put k v [] = (k, v) ∷ []
  put k v ((j, w) ∷ m) = if j == k then (k, v) ∷ m else (j, w) ∷ put k v m

  abbrev pub or_else : Option V → Option V → Option V
  or_else none y = y
  or_else (some v) y = some v

  -- for k, v := range src { dst[k] = v }
  unfoldable pub put_all : Dict V → Dict V → Dict V
  put_all [] dst = dst
  put_all ((k, v) ∷ src) dst = put k v (put_all src dst)

  abbrev pub is_some : Option V → Bool
  is_some none = false
  is_some (some _) = true

  unfoldable pub has : String → Dict V → Bool
  has k m = is_some (lookup k m)

  pub lookup-put :
      (k j : String) (v : V) (m : Dict V)
      → lookup j (put k v m) ≡ (if k == j then some v else lookup j m)
  unfolding lookup put
  lookup-put k j v [] = refl
  lookup-put k j v ((i, w) ∷ m) =
      ground (arith, eq_iff k j, eq_iff i k, eq_iff i j, lookup-put k j v m)

  pub lookup-put_all :
      (j : String) (src dst : Dict V)
      → lookup j (put_all src dst) ≡ or_else (lookup j src) (lookup j dst)
  unfolding lookup put_all
  lookup-put_all j [] dst = refl
  lookup-put_all j ((k, v) ∷ src) dst =
      ground (arith, lookup-put k j v (put_all src dst), lookup-put_all j src dst)

  pub has-put :
      (k j : String) (v : V) (m : Dict V) → has j (put k v m) ≡ (if k == j then true else has j m)
  unfolding has
  has-put k j v m = ground (arith, lookup-put k j v m)

  pub has-put_all :
      (j : String) (src dst : Dict V)
      → has j (put_all src dst) ≡ (if has j src then true else has j dst)
  unfolding has
  has-put_all j src dst = ground (arith, lookup-put_all j src dst)

  -- No key stands twice, as in every Go map.
  abbrev pub IsUnique : Dict V → Type 0
  IsUnique [] = Unit
  IsUnique ((k, v) ∷ m) = (has k m ≡ false) × IsUnique m

  pub put-IsUnique : (k : String) (v : V) (m : Dict V) → IsUnique m → IsUnique (put k v m)
  unfolding put has lookup
  put-IsUnique k v [] u = (refl, tt)
  put-IsUnique k v ((j, w) ∷ m) u = elim (Bool-cases (j == k)) [
    | inl same ↦ rw (same, put) (rw ((eq_iff j k).0 same) at u.0, u.1)
    | inr other ↦
        rw (other, put)
          (ground (arith, has-put k j v m, eq_iff j k, eq_iff k j), put-IsUnique k v m u.1)
  ]

  pub lookup_of_has : (k : String) (m : Dict V) → has k m ≡ false → lookup k m ≡ none
  unfolding has
  lookup_of_has k m h = ground arith

  pub has-lookup : (k : String) (m : Dict V) → has k m ≡ is_some (lookup k m)
  unfolding has
  has-lookup k m = refl
