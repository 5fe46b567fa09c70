-- ===== src/Journal/Examples.antt =====
-- Two spans inside a third.
use zeus_client_golang.Shared.{String, ◌≡◌, refl, [], length}
use zeus_client_golang.Shared.Int.{pos}
use zeus_client_golang.Shared.Json.{end}
use zeus_client_golang.Journal.{Mint, new_span_tracer, top_or_empty, end_span, start_span}
use zeus_client_golang.Shared.{◌∷◌, some, All, arith, eq_iff}
use zeus_client_golang.Shared.Print.{decimal}
use zeus_client_golang.Journal.Payload.{
  Bytes, new_payload_store, get_bytes, get_record, put_payload, bytes_of,
}
use zeus_client_golang.Journal.FirstWrite.{
  Write, write_all, first_write, first_write_kept, IsNoCollision, get_bytes-put_payload,
}
use zeus_client_golang.Journal.Nesting.{
  Span, Spans, no_spans, span, trace, nested_events, extended, trace-nested_events,
}

abbrev minted : String → Mint
minted id = record { event_id = id; now = pos 7 }

abbrev a_span : String → Span
a_span id = record {
  span_id = id;
  name = "step";
  started = minted "evt_1";
  ended = minted "evt_2";
  start_data = end;
  end_data = end;
  status = "";
}

abbrev turn : Spans
turn =
    span (a_span "span_a")
      (span (a_span "span_b") no_spans (span (a_span "span_c") no_spans no_spans)) no_spans

six_events : length (trace turn (new_span_tracer [] "t")).journal ≡ 6
unfolding new_span_tracer end_span start_span
six_events = refl

trace-nested_events_example :
    trace turn (new_span_tracer [] "t")
    ≡ extended
        (nested_events
          (new_span_tracer [] "t").component
          (new_span_tracer [] "t").turn_id
          (top_or_empty (new_span_tracer [] "t").stack)
          turn)
        (new_span_tracer [] "t")
trace-nested_events_example = trace-nested_events turn (new_span_tracer [] "t")

-- In place of a digest, the number of bytes, so that some bytes collide.
abbrev size_of : Bytes → String
size_of raw = decimal (length raw)

abbrev one_byte : Write
one_byte = record { raw = 7 ∷ []; content_type = "text/plain"; kind = "" }

abbrev other_byte : Write
other_byte = record { raw = 8 ∷ []; content_type = ""; kind = "" }

abbrev two_bytes : Write
two_bytes = record { raw = 8 ∷ 9 ∷ []; content_type = ""; kind = "tool" }

first_write_kept_example :
    (get_record "sha256:1" (write_all size_of (one_byte ∷ other_byte ∷ []) new_payload_store)
      ≡ first_write size_of "sha256:1" (one_byte ∷ other_byte ∷ []))
    × (get_bytes "sha256:1" (write_all size_of (one_byte ∷ other_byte ∷ []) new_payload_store)
        ≡ bytes_of (first_write size_of "sha256:1" (one_byte ∷ other_byte ∷ [])))
first_write_kept_example = first_write_kept size_of "sha256:1" (one_byte ∷ other_byte ∷ [])

first_byte_stays :
    get_bytes "sha256:1" (write_all size_of (one_byte ∷ other_byte ∷ []) new_payload_store)
    ≡ some (7 ∷ [])
unfolding get_bytes new_payload_store put_payload decimal
first_byte_stays = refl

no_collision : All (IsNoCollision size_of two_bytes.raw) (one_byte ∷ [])
unfolding zeus_client_golang.Journal.Payload.ref_of decimal
no_collision = (λ e. absurd (ground (arith, (eq_iff "sha256:1" "sha256:2").1 e)), tt)

get_bytes-put_payload_example :
    (let r =
        put_payload size_of two_bytes.raw two_bytes.content_type two_bytes.kind
          (write_all size_of (one_byte ∷ []) new_payload_store) in
      get_bytes r.0 r.1)
    ≡ some two_bytes.raw
get_bytes-put_payload_example = get_bytes-put_payload size_of (one_byte ∷ []) two_bytes no_collision
