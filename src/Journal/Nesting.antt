-- ===== src/Journal/Nesting.antt =====
-- Spans that are started and ended in a nested order, as calls are.
use zeus_client_golang.Shared.{String, ◌≡◌, refl, List, [], ◌∷◌, ◌++◌, eq_refl, ap, sym, ◌∙◌}
use mathlib.Core.List.{append_assoc, append-nil}
use zeus_client_golang.Shared.Json.{Fields}
use zeus_client_golang.Journal.{
  JournalEvent, SpanHandle, SpanTracer, Mint, append, start_span, end_span, close_span,
  started_event, ended_event, span_handle, top_or_empty,
}

pub record Span : Type 0 where
  pub span_id : String
  pub name : String
  pub started : Mint
  pub ended : Mint
  pub start_data : Fields
  pub end_data : Fields
  pub status : String

-- Spans one after the other, each with the spans inside it.
pub data Spans : Type 0 where
  no_spans : Spans
  span : Span → Spans → Spans → Spans

-- Each span is started without a parent, and ended after the spans inside it.
abbrev pub trace : Spans → SpanTracer → SpanTracer
trace no_spans t = t
trace (span s inside after) t =
    let (h, opened) = start_span s.started s.span_id s.name "" s.start_data t in
    trace after (end_span s.ended h s.status s.end_data (trace inside opened))

-- The events that such a trace should write under a parent.
abbrev pub nested_events : String → String → String → Spans → List JournalEvent
nested_events component turn parent no_spans = []
nested_events component turn parent (span s inside after) =
    started_event s.started s.span_id s.name parent s.start_data component turn
    ∷ (nested_events component turn s.span_id inside
        ++ ended_event s.ended (span_handle s.span_id s.name parent turn) s.status s.end_data
            component
          ∷ nested_events component turn parent after)

abbrev pub extended : List JournalEvent → SpanTracer → SpanTracer
extended es t = record t { journal = t.journal ++ es }

assoc_events :
    (j : List JournalEvent) (e : JournalEvent) (es : List JournalEvent) (e' : JournalEvent)
    (fs : List JournalEvent)
    → (((j ++ e ∷ []) ++ es) ++ e' ∷ []) ++ fs ≡ j ++ e ∷ (es ++ e' ∷ fs)
assoc_events j e es e' fs =
    append_assoc ((j ++ e ∷ []) ++ es) (e' ∷ []) fs
    ∙ append_assoc (j ++ e ∷ []) es (e' ∷ fs)
    ∙ append_assoc j (e ∷ []) (es ++ e' ∷ fs)

close_span-top : (id : String) (below : List String) → close_span id (id ∷ below) ≡ below
unfolding close_span
close_span-top id below = rw (eq_refl id) refl

-- A span at the top of the stack is closed by taking it off.
end-started :
    (m : Mint) (h : SpanHandle) (status : String) (entries : Fields) (t : SpanTracer)
    (below : List String)
    → t.stack ≡ h.span_id ∷ below
    → end_span m h status entries t ≡ record t {
      journal = t.journal ++ ended_event m h status entries t.component ∷ [];
      stack = below;
    }
unfolding end_span append
end-started m h status entries t below top =
    ap
      (λ stack. record t {
        journal = t.journal ++ ended_event m h status entries t.component ∷ [];
        stack = stack;
      })
      (ap (close_span h.span_id) top ∙ close_span-top h.span_id below)

-- If spans are started without a parent and ended in a nested order, from any state of the tracer,
-- then the stack and the rest of the tracer are as before and the journal has grown by exactly one
-- started and one ended event for each span, those of the spans inside it between them, each with
-- the span around it as its parent, or at the outermost level the span that was on top of the
-- stack.
pub trace-nested_events :
    (spans : Spans) (t : SpanTracer)
    → trace spans t ≡ extended (nested_events t.component t.turn_id (top_or_empty t.stack) spans) t
unfolding start_span append
trace-nested_events no_spans t = ap (λ j. record t { journal = j }) (sym (append-nil t.journal))
trace-nested_events (span s inside after) t =
    let parent = top_or_empty t.stack in
    let (h, opened) = start_span s.started s.span_id s.name "" s.start_data t in
    let first =
      started_event s.started s.span_id s.name parent s.start_data t.component t.turn_id in
    let last = ended_event s.ended h s.status s.end_data t.component in
    let inner = nested_events t.component t.turn_id s.span_id inside in
    let closed = extended (last ∷ []) (extended inner (extended (first ∷ []) t)) in
    ap (λ u. trace after (end_span s.ended h s.status s.end_data u))
      (trace-nested_events inside opened)
    ∙ ap (λ u. trace after u)
        (end-started s.ended h s.status s.end_data (extended inner opened) t.stack refl)
    ∙ trace-nested_events after closed
    ∙ ap (λ j. record t { journal = j })
        (assoc_events t.journal first inner last (nested_events t.component t.turn_id parent after))
