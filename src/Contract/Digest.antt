-- ===== src/Contract/Digest.antt =====
-- ComputeContractHash of domain/contract.go: which parts of a document its hash does not see.
use zeus_client_golang.Shared.{
  ℕ, String, Bool, true, false, ◌||◌, ◌==◌, List, [], ◌∷◌, nat_eq, ◌≡◌, refl, Option, some, arith,
  eq_iff, if◌then◌else◌, ap,
}
use zeus_client_golang.Shared.Json.{
  Value, Fields, Items, str, bool, num, null, obj, arr, end, field, nil, cons, set,
}
use zeus_client_golang.Shared.Text.{codes}
use zeus_client_golang.Shared.Pattern.{starts_with}
use zeus_client_golang.Contract.{
  is_excluded, strip_for_hash, strip_fields, strip_items, compute_contract_hash,
}

pub strip_fields-set :
    (k : String) (v : Value) (m : Fields)
    → is_excluded k ≡ true
    → strip_fields (set k v m) ≡ strip_fields m
unfolding strip_for_hash set
strip_fields-set k v end h = ground arith
strip_fields-set k v (field j w m) h = ground (arith, strip_fields-set k v m h, eq_iff j k)

-- ComputeContractHash of a document does not change when a top-level entry with an excluded key is
-- written or overwritten.
pub hash_ignores_excluded :
    (marshal_md5 : Value → Option String) (k : String) (v : Value) (doc : Fields)
    → is_excluded k ≡ true
    → compute_contract_hash marshal_md5 (some (set k v doc))
      ≡ compute_contract_hash marshal_md5 (some doc)
unfolding compute_contract_hash strip_for_hash
hash_ignores_excluded marshal_md5 k v doc h = rw (strip_fields-set k v doc h) refl

abbrev begins_with_underscore : List ℕ → Bool
begins_with_underscore [] = false
begins_with_underscore (c ∷ s) = nat_eq c 95

-- The keys that the hash does not see, written out.
abbrev pub is_unhashed : String → Bool
is_unhashed k =
    begins_with_underscore (codes k)
    || ("targets" == k
        || "model" == k
        || "tool_choice" == k
        || "temperature" == k
        || "top_p" == k
        || "max_tokens" == k)
    || (k == "guidance" || k == "contract" || k == "metadata")

underscore : (s : List ℕ) → starts_with (codes "_") s ≡ begins_with_underscore s
unfolding starts_with
underscore [] = refl
underscore (c ∷ s) = ground arith

is_excluded_lem : (k : String) → is_excluded k ≡ is_unhashed k
unfolding is_excluded
is_excluded_lem k = rw (underscore (codes k)) (ground arith)

-- A value without the entries with such a key, at any depth.
mutual
  pub prune : Value → Value
  prune (obj m) = obj (prune_fields m)
  prune (arr xs) = arr (prune_items xs)
  prune v = v

  pub prune_fields : Fields → Fields
  prune_fields end = end
  prune_fields (field k v m) =
      let rest = prune_fields m in if is_unhashed k then rest else field k (prune v) rest

  pub prune_items : Items → Items
  prune_items nil = nil
  prune_items (cons v xs) = cons (prune v) (prune_items xs)

mutual
  unfolding strip_for_hash prune

  strip_for_hash-prune : (v : Value) → strip_for_hash (prune v) ≡ strip_for_hash v
  strip_for_hash-prune (obj m) = ap obj (strip_fields-prune_fields m)
  strip_for_hash-prune (arr xs) = ap arr (strip_items-prune_items xs)
  strip_for_hash-prune (str s) = refl
  strip_for_hash-prune (bool b) = refl
  strip_for_hash-prune (num n) = refl
  strip_for_hash-prune null = refl

  strip_fields-prune_fields : (m : Fields) → strip_fields (prune_fields m) ≡ strip_fields m
  strip_fields-prune_fields end = refl
  strip_fields-prune_fields (field k v m) =
      ground (arith, strip_fields-prune_fields m, strip_for_hash-prune v, is_excluded_lem k)

  strip_items-prune_items : (xs : Items) → strip_items (prune_items xs) ≡ strip_items xs
  strip_items-prune_items nil = refl
  strip_items-prune_items (cons v xs) =
      ground (arith, strip_items-prune_items xs, strip_for_hash-prune v)

-- ComputeContractHash of a document does not change when every entry is removed, at any depth,
-- whose key begins with an underscore or is targets, model, tool_choice, temperature, top_p,
-- max_tokens, guidance, contract or metadata.
pub hash-prune_fields :
    (marshal_md5 : Value → Option String) (doc : Fields)
    → compute_contract_hash marshal_md5 (some (prune_fields doc))
      ≡ compute_contract_hash marshal_md5 (some doc)
unfolding compute_contract_hash strip_for_hash
hash-prune_fields marshal_md5 doc = rw (strip_fields-prune_fields doc) refl
