-- ===== src/Journal.antt =====
-- domain/journal/journal.go and domain/journal/spans.go: the append-only list of events and the
-- tracer of spans that writes to it. The ids and the time of an event are arguments.
pub mod Payload
pub mod FirstWrite
pub mod Nesting
mod Examples
use zeus_client_golang.Shared.{
  ℕ, String, Bool, true, false, not, List, [], ◌∷◌, ◌++◌, Option, none, some, if◌then◌else◌, ◌==◌,
  contains, length,
}
use zeus_client_golang.Shared.Int.{ℤ}
use zeus_client_golang.Shared.Json.{Fields, str, field, end, set}

pub record JournalEvent : Type 0 where
  pub event_id : String
  pub ts_ms : ℤ
  pub typ : String
  pub component : String
  pub turn_id : String
  pub span_id : String
  pub parent_span_id : String
  pub event_data : Fields
  pub payload_refs : List String

pub record SpanHandle : Type 0 where
  pub span_id : String
  pub parent_span_id : String
  pub name : String
  pub turn_id : String

-- The journal of the tracer is its list of events; the last span of the slice `stack` comes first.
pub record SpanTracer : Type 0 where
  pub journal : List JournalEvent
  pub turn_id : String
  pub component : String
  pub stack : List String

-- What uuid and the clock give for one event.
pub record Mint : Type 0 where
  pub event_id : String
  pub now : ℤ

abbrev pub default_span_component : String
default_span_component = "domain.journal.spans"

unfoldable pub new_span_tracer : List JournalEvent → String → SpanTracer
new_span_tracer journal turn = record {
  journal = journal;
  turn_id = turn;
  component = default_span_component;
  stack = [];
}

unfoldable pub append : JournalEvent → SpanTracer → SpanTracer
append e t = record t { journal = t.journal ++ e ∷ [] }

-- for k, v := range data { merged[k] = v }
unfoldable pub merge_data : Fields → Fields → Fields
merge_data end merged = merged
merge_data (field k v entries) merged = set k v (merge_data entries merged)

abbrev pub top_or_empty : List String → String
top_or_empty [] = ""
top_or_empty (id ∷ _) = id

abbrev pub parent_of : String → List String → String
parent_of parent stack = if parent == "" then top_or_empty stack else parent

unfoldable pub started_event :
    Mint → String → String → String → Fields → String → String → JournalEvent
started_event m span_id name parent entries component turn = record {
  event_id = m.event_id;
  ts_ms = m.now;
  typ = "span.started";
  component = component;
  turn_id = turn;
  span_id = span_id;
  parent_span_id = parent;
  event_data = merge_data entries (field "name" (str name) end);
  payload_refs = [];
}

abbrev pub span_handle : String → String → String → String → SpanHandle
span_handle span_id name parent turn = record {
  span_id = span_id;
  parent_span_id = parent;
  name = name;
  turn_id = turn;
}

abbrev push : String → SpanTracer → SpanTracer
push id t = record t { stack = id ∷ t.stack }

-- Start, with the id of the new span.
unfoldable pub start_span :
    Mint → String → String → String → Fields → SpanTracer → SpanHandle × SpanTracer
unfolding append started_event
start_span m span_id name parent entries t =
    let linked = parent_of parent t.stack in
    (
      span_handle span_id name linked t.turn_id,
      push span_id (append (started_event m span_id name linked entries t.component t.turn_id) t),
    )

-- The loop that takes the lowest span of that id out of the stack.
unfoldable pub remove_lowest : String → List String → List String
remove_lowest id [] = []
remove_lowest id (s ∷ stack) =
    let rest = remove_lowest id stack in
    if contains id stack then s ∷ rest else if s == id then stack else s ∷ rest

unfoldable pub close_span : String → List String → List String
unfolding remove_lowest
close_span id [] = []
close_span id (s ∷ stack) = if s == id then stack else remove_lowest id (s ∷ stack)

unfoldable pub ended_event : Mint → SpanHandle → String → Fields → String → JournalEvent
ended_event m h status entries component = record {
  event_id = m.event_id;
  ts_ms = m.now;
  typ = "span.ended";
  component = component;
  turn_id = h.turn_id;
  span_id = h.span_id;
  parent_span_id = h.parent_span_id;
  event_data = merge_data entries (
      field "name" (str h.name) (field "status" (str (if status == "" then "ok" else status)) end));
  payload_refs = [];
}

abbrev with_stack : List String → SpanTracer → SpanTracer
with_stack stack t = record t { stack = stack }

-- End
unfoldable pub end_span : Mint → SpanHandle → String → Fields → SpanTracer → SpanTracer
unfolding append ended_event close_span
end_span m h status entries t =
    append (ended_event m h status entries t.component)
      (with_stack (close_span h.span_id t.stack) t)
