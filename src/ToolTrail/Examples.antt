-- ===== src/ToolTrail/Examples.antt =====
-- Trails of two calls.
use zeus_client_golang.Shared.Pattern.{contains_codes, to_lower}
use zeus_client_golang.Shared.Print.{sprint}
use zeus_client_golang.Shared.Text.{concat, trim_space}
use zeus_client_golang.Shared.{String, false, [], ◌∷◌, ◌≡◌, ◌≢◌, refl, sym, ◌∙◌, arith, eq_iff}
use zeus_client_golang.Shared.Int.{pos}
use zeus_client_golang.Shared.Json.{
  Value, Fields, str, bool, num, obj, end, field, set, get, as_string,
}
use zeus_client_golang.ToolTrail.{
  trail_entry_from_hop, render_trail_inject, upsert_trail_on_system, as_bool, as_int, trail_hint,
  error_class_for,
}
use zeus_client_golang.ToolTrail.Upsert.{upsert_replaces}

abbrev slow_hop : Fields
slow_hop =
    field "name" (str "find")
      (field "ok" (bool false) (field "status" (num (pos 503)) (field "req_id" (str "r1") end)))

abbrev row_of : Fields → Fields
row_of hop = trail_entry_from_hop hop 1 false

trail_of_slow_hop :
    render_trail_inject (row_of slow_hop ∷ []) (pos 4)
    ≡ "ZEUS_TOOL_TRAIL (this turn):\n1. zeus.find fail req_id=r1 retryable_later hint=retryable_later"
unfolding render_trail_inject trail_entry_from_hop concat get as_string trail_hint as_bool
    error_class_for as_int set trim_space sprint
trail_of_slow_hop = refl

abbrev messages : Value
messages = obj (field "role" (str "system") (field "content" (str "Be brief. \n") end))

abbrev block : String
block = "ZEUS_TOOL_TRAIL (this turn):\n1. hop fail zeus_error"

block_shown : render_trail_inject (row_of end ∷ []) (pos 4) ≡ block
unfolding render_trail_inject trail_entry_from_hop concat get as_string trail_hint as_bool
    error_class_for as_int contains_codes to_lower set trim_space sprint
block_shown = refl

some_block : render_trail_inject (row_of end ∷ []) (pos 4) ≢ ""
some_block e =
    let empty : block ≡ "" = sym block_shown ∙ e in ground (arith, empty, eq_iff block "")

upsert_replaces_example :
    upsert_trail_on_system
      (upsert_trail_on_system (messages ∷ []) (render_trail_inject (row_of slow_hop ∷ []) (pos 4)))
      (render_trail_inject (row_of end ∷ []) (pos 4))
    ≡ upsert_trail_on_system (messages ∷ []) (render_trail_inject (row_of end ∷ []) (pos 4))
upsert_replaces_example =
    upsert_replaces (messages ∷ []) (row_of slow_hop ∷ []) (row_of end ∷ []) (pos 4) (pos 4)
      some_block
