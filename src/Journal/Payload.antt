-- ===== src/Journal/Payload.antt =====
-- domain/journal/payload.go: the payloads of a journal in memory, stored under their digest, with
-- PutPayload, GetPayload and PayloadItems of domain/journal/journal.go on them.
use zeus_client_golang.Shared.{
  ℕ, String, List, [], ◌∷◌, Option, none, some, if◌then◌else◌, ◌==◌, length,
}
use zeus_client_golang.Shared.Text.{concat}
use zeus_client_golang.Shared.Maps.{Dict, lookup, has, put}

-- []byte
abbrev pub Bytes : Type 0
Bytes = List ℕ

pub record PayloadMeta : Type 0 where
  pub ref : String
  pub content_type : String
  pub kind : String
  pub sha256 : String
  pub size : ℕ

-- PayloadRecord, and storedPayload, which has the same fields
pub record PayloadRecord : Type 0 where
  pub meta : PayloadMeta
  pub bytes : Bytes

-- InMemoryPayloadStore
abbrev pub PayloadStore : Type 0
PayloadStore = Dict PayloadRecord

unfoldable pub new_payload_store : PayloadStore
new_payload_store = []

-- The ref of a digest in hexadecimal digits.
unfoldable pub ref_of : String → String
unfolding concat
ref_of digest = concat ("sha256:" ∷ digest ∷ [])

abbrev pub unless_empty : String → String → String
unless_empty s def = if s == "" then def else s

unfoldable pub stored_payload : String → Bytes → String → String → PayloadRecord
stored_payload digest raw content_type kind = record {
  meta = record {
    ref = ref_of digest;
    content_type = unless_empty content_type "application/octet-stream";
    kind = unless_empty kind "blob";
    sha256 = digest;
    size = length raw;
  };
  bytes = raw;
}

-- InMemoryPayloadStore.Put, with the digest of a text of bytes in hexadecimal digits
unfoldable pub put_bytes :
    (Bytes → String) → Bytes → String → String → PayloadStore → String × PayloadStore
unfolding ref_of stored_payload has put
put_bytes sum raw content_type kind s =
    let digest = sum raw in
    let ref = ref_of digest in
    if has ref s then (ref, s) else (ref, put ref (stored_payload digest raw content_type kind) s)

abbrev pub bytes_of : Option PayloadRecord → Option Bytes
bytes_of none = none
bytes_of (some r) = some r.bytes

-- InMemoryPayloadStore.Get
unfoldable pub get_bytes : String → PayloadStore → Option Bytes
unfolding lookup
get_bytes ref s = bytes_of (lookup ref s)

-- InMemoryPayloadStore.Meta
unfoldable pub get_record : String → PayloadStore → Option PayloadRecord
unfolding lookup
get_record ref s = lookup ref s

-- InMemoryPayloadStore.Items
unfoldable pub items : PayloadStore → Dict PayloadMeta
items [] = []
items ((k, r) ∷ s) = (k, r.meta) ∷ items s

-- InMemoryJournal.PutPayload
unfoldable pub put_payload :
    (Bytes → String) → Bytes → String → String → PayloadStore → String × PayloadStore
unfolding put_bytes
put_payload sum raw content_type kind s =
    put_bytes sum raw (unless_empty content_type "application/octet-stream")
      (unless_empty kind "blob") s
