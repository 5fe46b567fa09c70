-- ===== src/Session.antt =====
-- domain/session.go: the handle of a durable session and the status of its contract.
pub mod Client
pub mod Lifecycle
pub mod Identity
pub mod Rounds
pub mod Commit
mod Examples
use zeus_client_golang.Shared.{
  String, Bool, true, false, ◌&&◌, ◌||◌, not, Option, none, some, if◌then◌else◌, ◌==◌,
}
use zeus_client_golang.Shared.Int.{ℤ}
use zeus_client_golang.Shared.Text.{trim_space}
use zeus_client_golang.Shared.Json.{Fields, get, as_string}

pub record SessionHandle : Type 0 where
  pub session_id : String
  pub round : ℤ
  pub chat_id : String
  pub contract_id : String
  pub contract_hash : String
  pub contract_status : String
  pub mode : String
  pub created : Bool
  pub rehydrated : Bool
  pub recovered_from : String
  pub enabled : Bool
  pub create_req_id : String
  pub error : String

-- The fields that are none keep the value of the handle.
pub record SessionHandleUpdates : Type 0 where
  pub session_id : Option String
  pub round : Option ℤ
  pub chat_id : Option String
  pub contract_id : Option String
  pub contract_hash : Option String
  pub contract_status : Option String
  pub mode : Option String
  pub created : Option Bool
  pub rehydrated : Option Bool
  pub recovered_from : Option String
  pub enabled : Option Bool
  pub create_req_id : Option String
  pub error : Option String

abbrev pub no_updates : SessionHandleUpdates
no_updates = record {
  session_id = none;
  round = none;
  chat_id = none;
  contract_id = none;
  contract_hash = none;
  contract_status = none;
  mode = none;
  created = none;
  rehydrated = none;
  recovered_from = none;
  enabled = none;
  create_req_id = none;
  error = none;
}

abbrev pub updated {ℓ} : {A : Type ℓ} → Option A → A → A
updated none old = old
updated (some v) old = v

unfoldable pub with_updates : SessionHandle → SessionHandleUpdates → SessionHandle
with_updates h upd = record {
  session_id = updated upd.session_id h.session_id;
  round = updated upd.round h.round;
  chat_id = updated upd.chat_id h.chat_id;
  contract_id = updated upd.contract_id h.contract_id;
  contract_hash = updated upd.contract_hash h.contract_hash;
  contract_status = updated upd.contract_status h.contract_status;
  mode = updated upd.mode h.mode;
  created = updated upd.created h.created;
  rehydrated = updated upd.rehydrated h.rehydrated;
  recovered_from = updated upd.recovered_from h.recovered_from;
  enabled = updated upd.enabled h.enabled;
  create_req_id = updated upd.create_req_id h.create_req_id;
  error = updated upd.error h.error;
}

unfoldable pub normalize_contract_status : String → String
normalize_contract_status raw =
    if raw == "" then "none" else if raw == "ok" || raw == "match" then "match" else raw

-- A nil map reads as the empty one.
unfoldable pub contract_status_from_rehydrate : String → String → Fields → String
contract_status_from_rehydrate contract_id session_hash reh =
    let reh_hash = as_string (get "hash" reh) in
    let reh_cid = as_string (get "contract_id" reh) in
    let cid = trim_space contract_id in
    let want = trim_space session_hash in
    if cid == "" && reh_cid == ""
    then "none"
    else if not (want == "") && not (reh_hash == "")
    then (if want == reh_hash then "match" else "drift")
    else if not (cid == "") || not (reh_cid == "")
    then "match"
    else "none"
