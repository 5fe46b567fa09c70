-- ===== src/Turn/Meta.antt =====
-- ExtractPipelineMeta of application/projectors/session_trace.go.
use zeus_client_golang.Shared.{
  ℕ, suc, String, Bool, true, false, ◌&&◌, not, Option, none, some, if◌then◌else◌, ◌≡◌, refl,
}
use zeus_client_golang.Shared.Int.{ℤ, pos, ◌+ℤ◌}
use zeus_client_golang.Shared.Maps.{is_some}
use zeus_client_golang.Shared.Text.{trim_space}
use zeus_client_golang.Shared.Parse.{atoi}
use zeus_client_golang.Shared.Print.{sprint}
use zeus_client_golang.Shared.Json.{
  Value, Fields, Items, str, num, null, obj, arr, end, field, nil, cons, get, get?, set,
}

abbrev is_null : Value → Bool
is_null null = true
is_null _ = false

-- asMap and asSlice
abbrev map_of : Value → Option Fields
map_of (obj m) = some m
map_of _ = none

abbrev slice_of : Value → Option Items
slice_of (arr xs) = some xs
slice_of _ = none

-- asInt of the projectors
unfoldable pub int_of : Value → Option ℤ
unfolding atoi trim_space
int_of (num n) = some n
int_of (str s) = atoi (trim_space s)
int_of _ = none

abbrev set_some : String → Option Value → Fields → Fields
set_some k none m = m
set_some k (some v) m = set k v m

abbrev non_null : Value → Option Value
non_null v = if is_null v then none else some v

-- A field that is set only where it is not there yet.
abbrev set_new : String → Option Value → Fields → Fields
set_new k v m = if is_some (get? k m) then m else set_some k v m

abbrev num_of : Option ℤ → Option Value
num_of none = none
num_of (some n) = some (num n)

abbrev add_size : Option ℤ → Option ℤ → Option ℤ
add_size none total = total
add_size (some n) none = some n
add_size (some n) (some total) = some (n +ℤ total)

abbrev cost_size : Value → Option ℤ
cost_size (obj m) = int_of (get "result_size" m)
cost_size _ = none

-- The sum of the sizes that stand in the costs of the steps.
unfoldable pub total_size : Items → Option ℤ
unfolding int_of ◌+ℤ◌
total_size nil = none
total_size (cons c cs) = add_size (cost_size c) (total_size cs)

abbrev with_costs : Option Items → Fields → Fields
with_costs none out = out
with_costs (some costs) out =
    set_some "result_size" (num_of (total_size costs)) (set "step_costs" (arr costs) out)

abbrev with_meta : Option Fields → Fields → Fields
with_meta none out = out
with_meta (some meta) out = set_some "ms_meta" (num_of (int_of (get "elapsed_ms" meta))) (
    set_some "steps_executed" (non_null (get "steps_executed" meta))
      (with_costs (slice_of (get "step_costs" meta)) out))

abbrev count : Items → ℕ
count nil = 0
count (cons _ xs) = suc (count xs)

abbrev count_of : Option Items → Value
count_of none = null
count_of (some xs) = num (pos (count xs))

abbrev or_value : Value → Value → Value
or_value v w = if is_null v then w else v

abbrev returned_count : Fields → Value
returned_count result = or_value (get "returned_count" result) (
    or_value (count_of (slice_of (get "items" result)))
      (count_of (slice_of (get "node_ids" result))))

abbrev with_result : Option Fields → Fields → Fields
with_result none out = out
with_result (some result) out = set_new "result_size" (num_of (int_of (returned_count result))) out

abbrev error_value : Value → Value
error_value (obj em) =
    or_value (get "message" em) (or_value (get "code" em) (str (sprint (obj em))))
error_value v = str (sprint v)

abbrev with_error : Value → Fields → Fields
with_error null out = out
with_error e out = set "error" (error_value e) out

abbrev status_text : Value → Option Value
status_text (str s) = some (str s)
status_text _ = none

abbrev nested_meta : Option Fields → Option Fields
nested_meta none = none
nested_meta (some m) = map_of (get "meta" m)

abbrev status_if : Bool → Fields → Fields
status_if b root = if b then set_some "pipeline_status" (non_null (get "status" root)) end else end

-- The fields of a pipeline's answer that a hop shows.
unfoldable pub extract_pipeline_meta : Fields → Fields
unfolding total_size int_of get sprint set get?
extract_pipeline_meta root =
    let top = map_of (get "meta" root) in
    let wrapped = map_of (get "data" root) in
    let out = status_if (not (is_some top) && is_some wrapped) root in
    let meta = if is_some top then top else nested_meta wrapped in
    with_error (get "error" root) (
      with_result (map_of (get "result" root))
        (set_new "pipeline_status" (status_text (get "status" root)) (with_meta meta out)))

extract_pipeline_meta_example :
    get "result_size"
      (extract_pipeline_meta (field "result" (obj (field "items" (arr (cons null nil)) end)) end))
    ≡ num (pos 1)
unfolding get extract_pipeline_meta
extract_pipeline_meta_example = refl
