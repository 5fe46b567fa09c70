-- ===== src/Journal/FirstWrite.antt =====
-- What the payloads of domain/journal/payload.go hold after a history of writes.
use zeus_client_golang.Shared.{
  String, List, [], ◌∷◌, Option, none, some, if◌then◌else◌, ◌==◌, ◌≡◌, refl, inl, inr, All, arith,
  eq_iff, Bool-cases,
}
use zeus_client_golang.Shared.Maps.{lookup, has, put, lookup-put, or_else}
use zeus_client_golang.Journal.Payload.{
  Bytes, PayloadRecord, PayloadMeta, PayloadStore, new_payload_store, ref_of, unless_empty,
  stored_payload, put_bytes, bytes_of, get_bytes, get_record, put_payload,
}

-- The arguments of one call of PutPayload.
pub record Write : Type 0 where
  pub raw : Bytes
  pub content_type : String
  pub kind : String

abbrev meta_of : Option PayloadRecord → Option PayloadMeta
meta_of none = none
meta_of (some r) = some r.meta

abbrev once : String → PayloadRecord → PayloadStore → String × PayloadStore
once k r s = if has k s then (k, s) else (k, put k r s)

store_once :
    (k j : String) (r : PayloadRecord) (s : PayloadStore)
    → lookup j (once k r s).1 ≡ or_else (lookup j s) (if k == j then some r else none)
unfolding has
store_once k j r s = elim (Bool-cases (k == j)) [
  | inl same ↦ rw ((eq_iff k j).0 same) (ground (arith, lookup-put j j r s, eq_iff j j))
  | inr other ↦ ground (arith, lookup-put k j r s, other)
]

unless_empty_twice : (s def : String) → unless_empty (unless_empty s def) def ≡ unless_empty s def
unless_empty_twice s def = ground arith

module _ (sum : Bytes → String) where
  abbrev pub write : Write → PayloadStore → PayloadStore
  write w s = (put_payload sum w.raw w.content_type w.kind s).1

  abbrev pub write_all : List Write → PayloadStore → PayloadStore
  write_all [] s = s
  write_all (w ∷ ws) s = write_all ws (write w s)

  abbrev written : Write → PayloadRecord
  written w = stored_payload (sum w.raw) w.raw w.content_type w.kind

  -- The record of the first write with the ref.
  unfoldable pub first_write : String → List Write → Option PayloadRecord
  first_write ref [] = none
  first_write ref (w ∷ ws) =
      if ref_of (sum w.raw) == ref then some (written w) else first_write ref ws

  defaults_twice :
      (w : Write)
      → stored_payload
          (sum w.raw)
          w.raw
          (unless_empty w.content_type "application/octet-stream")
          (unless_empty w.kind "blob")
        ≡ written w
  unfolding stored_payload
  defaults_twice w =
      rw
        (
          unless_empty_twice w.content_type "application/octet-stream",
          unless_empty_twice w.kind "blob",
        )
        refl

  lookup-write :
      (ref : String) (w : Write) (s : PayloadStore)
      → lookup ref (write w s)
        ≡ or_else (lookup ref s) (if ref_of (sum w.raw) == ref then some (written w) else none)
  unfolding put_payload put_bytes has
  lookup-write ref w s = rw (← defaults_twice w) (
      store_once (ref_of (sum w.raw)) ref
        (stored_payload (sum w.raw) w.raw (unless_empty w.content_type "application/octet-stream")
          (unless_empty w.kind "blob"))
        s)

  lookup-write_all :
      (ref : String) (ws : List Write) (s : PayloadStore)
      → lookup ref (write_all ws s) ≡ or_else (lookup ref s) (first_write ref ws)
  unfolding first_write
  lookup-write_all ref [] s = ground arith
  lookup-write_all ref (w ∷ ws) s =
      ground (arith, lookup-write ref w s, lookup-write_all ref ws (write w s))

  -- Whatever the digest, after any history of PutPayload on a new store, Meta and Get of a ref
  -- give the record and the bytes of the first write of the history that has the ref, its empty
  -- content type and kind replaced by the defaults, and nothing where no write has it.
  pub first_write_kept :
      (ref : String) (ws : List Write)
      → (get_record ref (write_all ws new_payload_store) ≡ first_write ref ws)
        × (get_bytes ref (write_all ws new_payload_store) ≡ bytes_of (first_write ref ws))
  unfolding get_record get_bytes new_payload_store
  first_write_kept ref ws = let held = lookup-write_all ref ws [] in (held, rw held refl)

  -- Only the same bytes have the same ref.
  abbrev pub IsNoCollision : Bytes → Write → Type 0
  IsNoCollision raw w = ref_of (sum w.raw) ≡ ref_of (sum raw) → w.raw ≡ raw

  put_ref :
      (w : Write) (s : PayloadStore)
      → (put_payload sum w.raw w.content_type w.kind s).0 ≡ ref_of (sum w.raw)
  unfolding put_payload put_bytes
  put_ref w s = elim (Bool-cases (has (ref_of (sum w.raw)) s)) [
    | inl present ↦ rw present refl
    | inr missing ↦ rw missing refl
  ]

  first_bytes :
      (ws : List Write) (w : Write)
      → All (IsNoCollision w.raw) ws
      → bytes_of (or_else (first_write (ref_of (sum w.raw)) ws) (some (written w))) ≡ some w.raw
  unfolding first_write stored_payload
  first_bytes [] w h = refl
  first_bytes (v ∷ ws) w h = elim (Bool-cases (ref_of (sum v.raw) == ref_of (sum w.raw))) [
    | inl same ↦ rw same (rw (h.0 ((eq_iff (ref_of (sum v.raw)) (ref_of (sum w.raw))).0 same)) refl)
    | inr other ↦ rw other (first_bytes ws w h.1)
  ]

  -- If, after any history of PutPayload on a new store, a payload is put with which no payload of
  -- the history collides (the same ref has the same bytes), then Get of the ref that PutPayload
  -- returns gives its bytes.
  pub get_bytes-put_payload :
      (ws : List Write) (w : Write)
      → All (IsNoCollision w.raw) ws
      → (let r = put_payload sum w.raw w.content_type w.kind (write_all ws new_payload_store) in
          get_bytes r.0 r.1)
        ≡ some w.raw
  unfolding get_bytes new_payload_store
  get_bytes-put_payload ws w none_collide =
      let s = write_all ws new_payload_store in
      let ref = ref_of (sum w.raw) in
      rw (put_ref w s, lookup-write ref w s, lookup-write_all ref ws [], (eq_iff ref ref).1 refl)
        (first_bytes ws w none_collide)
