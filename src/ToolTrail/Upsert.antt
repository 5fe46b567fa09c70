-- ===== src/ToolTrail/Upsert.antt =====
-- UpsertTrailOnSystem of domain/tool_trail.go, called again with a later trail.
use zeus_client_golang.Shared.{
  String, true, List, [], ◌∷◌, ◌==◌, ◌≡◌, ◌≢◌, refl, ap, ◌∙◌, inl, inr, arith, Bool-cases, eq_iff,
  eq_ne,
}
use zeus_client_golang.Shared.Int.{ℤ}
use zeus_client_golang.Shared.Text.{codes, join}
use zeus_client_golang.Shared.Pattern.{starts_with}
use zeus_client_golang.Shared.Json.{
  Value, Fields, str, bool, num, null, obj, arr, end, field, get, set, as_string, get-set,
}
use zeus_client_golang.ToolTrail.{
  trail_heading, take, clamp, block_of, render_trail_inject, splice_trail, upsert_first,
  upsert_trail_on_system,
}
use zeus_client_golang.ToolTrail.Splice.{splice_again, starts_with-longer}

set_again : (k : String) (v w : Value) (m : Fields) → set k v (set k w m) ≡ set k v m
unfolding set
set_again k v w end = ground (arith, eq_iff k k)
set_again k v w (field j u m) = ground (arith, eq_iff k k, set_again k v w m)

block-starts :
    (es : List Fields)
    → block_of es ≢ ""
    → starts_with (codes trail_heading) (codes (block_of es)) ≡ true
unfolding join
block-starts [] h = absurd (h refl)
block-starts (e ∷ es) h =
    starts_with-longer (codes trail_heading) trail_heading _ (unfold starts_with in refl)

-- A block is empty or starts with the heading.
render-starts :
    (es : List Fields) (n : ℤ)
    → render_trail_inject es n ≢ ""
    → starts_with (codes trail_heading) (codes (render_trail_inject es n)) ≡ true
unfolding render_trail_inject
render-starts es n h = block-starts (take (clamp n) es) h

upsert_first_again :
    (m : Value) (s t : String)
    → starts_with (codes trail_heading) (codes s) ≡ true
    → upsert_first (upsert_first m s) t ≡ upsert_first m t
unfolding as_string splice_trail
upsert_first_again (obj sys) s t starts =
    elim (Bool-cases (as_string (get "role" sys) == "system")) [
      | inl system ↦
          let content = as_string (get "content" sys) in
          let x = str (splice_trail content s) in
          rw
            (
              system,
              upsert_first,
              get-set "content" "role" x sys,
              system,
              get-set "content" "content" x sys,
            )
            (ap obj (
              ap (λ c. set "content" (str c) (set "content" x sys))
                (splice_again content s t starts)
              ∙ set_again "content" (str (splice_trail content t)) x sys))
      | inr other ↦ rw (other, upsert_first, other) refl
    ]
upsert_first_again (str x) s t starts = refl
upsert_first_again (bool x) s t starts = refl
upsert_first_again (num x) s t starts = refl
upsert_first_again null s t starts = refl
upsert_first_again (arr x) s t starts = refl

-- For every list of messages, if the block rendered from a later trail is not empty, then splicing
-- it in after an earlier block gives the same messages as splicing it in alone: the later block
-- takes the place of the earlier one, and nothing else of the system message changes.
pub upsert_replaces :
    (ms : List Value) (early late : List Fields) (n k : ℤ)
    → render_trail_inject late k ≢ ""
    → upsert_trail_on_system
        (upsert_trail_on_system ms (render_trail_inject early n))
        (render_trail_inject late k)
      ≡ upsert_trail_on_system ms (render_trail_inject late k)
unfolding upsert_trail_on_system
upsert_replaces [] early late n k some_rows = refl
upsert_replaces (m ∷ ms) early late n k some_rows =
    elim (Bool-cases (render_trail_inject early n == "")) [
      | inl nothing ↦ rw (nothing) refl
      | inr something ↦
          rw (something, upsert_trail_on_system, eq_ne (render_trail_inject late k) "" some_rows)
            (ap (λ v. v ∷ ms)
              (upsert_first_again m (render_trail_inject early n) (render_trail_inject late k) (
                render-starts early n
                  (λ e. ground (arith, e, something, eq_iff (render_trail_inject early n) "")))))
    ]
