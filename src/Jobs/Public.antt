-- ===== src/Jobs/Public.antt =====
-- `ToPublicDict` of domain/jobs.go: what a unit and an event show outside the client.
use zeus_client_golang.Shared.{
  String, Bool, true, false, ◌≡◌, ◌≢◌, List, [], ◌∷◌, none, some, arith, eq_iff, contains, not,
  ◌==◌, if◌then◌else◌,
}
use zeus_client_golang.Shared.Json.{
  Value, Fields, bool, str, obj, end, field, get?, set, get?-filter_keys, filter_keys,
}
use zeus_client_golang.Jobs.{
  UnitConfig, UnitKind, agent_turn, zeus_direct, http_json, other, is_none,
}

abbrev pub unit_llm_public_keys : List String
unit_llm_public_keys = "model" ∷ "api_key_env" ∷ "temperature" ∷ "base_url" ∷ "provider" ∷ []

-- string(u.Kind)
abbrev pub kind_text : UnitKind → String
kind_text agent_turn = "agent_turn"
kind_text zeus_direct = "zeus_direct"
kind_text http_json = "http_json"
kind_text (other s) = s

unfoldable pub is_public_key : String → Bool
is_public_key k = contains k unit_llm_public_keys

-- The loop over `u.LLM`.
unfoldable pub public_llm : Fields → Fields
public_llm m = filter_keys is_public_key m

abbrev set_if : Bool → String → Value → Fields → Fields
set_if true k v m = set k v m
set_if false k v m = m

-- UnitConfig.ToPublicDict
unfoldable pub unit_public_dict : UnitConfig → Fields
unfolding set
unit_public_dict u = set_if (not (u.token_env == "")) "token_env" (str u.token_env) (
    set_if (not (u.password_env == "")) "password_env" (str u.password_env) (
      field "unit_id" (str u.unit_id) (
        field "kind" (str (kind_text u.kind)) (
          field "goal" (str u.goal) (
            field "zeus_url" (str u.zeus_url) (
              field "bucket" (str u.bucket) (
                field "scope" (str u.scope) (
                  field "collection" (str u.collection) (
                    field "auth_mode" (str u.auth_mode) (
                      field "catalog_mode" (str u.catalog_mode) (
                        field "base_id" (str u.base_id) (
                          field "llm" (obj (public_llm u.llm)) (
                            field "has_chat_request" (bool (not (is_none u.chat_request))) (
                              field "share_session_id" (bool (not (u.share_session_id == "")))
                                end))))))))))))))

-- The llm part of the public view of a unit holds exactly the values of the keys model,
-- api_key_env, temperature, base_url and provider.
pub public_llm_exact :
    (k : String) (m : Fields)
    → get? k (public_llm m) ≡ (if contains k unit_llm_public_keys then get? k m else none)
unfolding public_llm is_public_key
public_llm_exact k m = get?-filter_keys is_public_key k m

secret_dropped :
    (k : String) (v : Value) (m : Fields)
    → is_public_key k ≡ false
    → public_llm (field k v m) ≡ public_llm m
unfolding public_llm filter_keys
secret_dropped k v m h = rw h

-- The public view of a unit with a non-empty durable session and a chat request does not change if
-- a field with a key that is not public is put in front of llm, and the user name, the session id
-- (for another non-empty one), the chat request and the call are replaced by any others.
pub unit_public_dict_hides :
    (u : UnitConfig) (k : String) (v : Value) (user : String) (sid : String) (doc : Fields)
    (call : Fields)
    → contains k unit_llm_public_keys ≡ false
    → sid ≢ ""
    → u.share_session_id ≢ ""
    → u.chat_request ≢ none
    → unit_public_dict (record u {
      llm = field k v u.llm;
      username = user;
      share_session_id = sid;
      chat_request = some doc;
      call = call;
    })
      ≡ unit_public_dict u
unfolding unit_public_dict is_public_key
unit_public_dict_hides u k v user sid doc call h hs hu hc =
    ground (arith, secret_dropped k v u.llm, eq_iff sid "", eq_iff u.share_session_id "")
