-- ===== src/Errors/Codes.antt =====
-- domain/codes.go: the family error codes and their catalogue.
use zeus_client_golang.Shared.{String, Bool, true, false, List, [], ◌∷◌}

-- `type Code string`
abbrev pub Code : Type 0
Code = String

abbrev pub unknown : Code
unknown = "000001"

abbrev pub not_implemented : Code
not_implemented = "000002"

abbrev pub invalid_argument : Code
invalid_argument = "000003"

abbrev pub precondition_failed : Code
precondition_failed = "000004"

abbrev pub timeout : Code
timeout = "000005"

abbrev pub cancelled : Code
cancelled = "000006"

abbrev pub internal_invariant : Code
internal_invariant = "000007"

abbrev pub feature_disabled : Code
feature_disabled = "000008"

abbrev pub client_rate_limited : Code
client_rate_limited = "000009"

abbrev pub context_deadline : Code
context_deadline = "000010"

abbrev pub config_path_not_found : Code
config_path_not_found = "010001"

abbrev pub config_not_readable : Code
config_not_readable = "010002"

abbrev pub config_parse_failed : Code
config_parse_failed = "010003"

abbrev pub config_normalize_failed : Code
config_normalize_failed = "010004"

abbrev pub config_invalid : Code
config_invalid = "010006"

abbrev pub zeus_url_missing : Code
zeus_url_missing = "010007"

abbrev pub zeus_auth_mode_invalid : Code
zeus_auth_mode_invalid = "010008"

abbrev pub zeus_auth_incomplete : Code
zeus_auth_incomplete = "010009"

abbrev pub llm_base_url_missing : Code
llm_base_url_missing = "010010"

abbrev pub llm_model_missing : Code
llm_model_missing = "010011"

abbrev pub llm_api_key_missing : Code
llm_api_key_missing = "010012"

abbrev pub catalog_not_found : Code
catalog_not_found = "030001"

abbrev pub catalog_parse_failed : Code
catalog_parse_failed = "030002"

abbrev pub catalog_lineage_unknown : Code
catalog_lineage_unknown = "030003"

abbrev pub contract_hash_missing : Code
contract_hash_missing = "030004"

abbrev pub contract_hash_invent_forbidden : Code
contract_hash_invent_forbidden = "030005"

abbrev pub contract_bind_mismatch : Code
contract_bind_mismatch = "030006"

abbrev pub catalog_sync_failed : Code
catalog_sync_failed = "030007"

abbrev pub session_create_failed : Code
session_create_failed = "040001"

abbrev pub session_continue_failed : Code
session_continue_failed = "040002"

abbrev pub session_rehydrate_failed : Code
session_rehydrate_failed = "040003"

abbrev pub session_id_missing : Code
session_id_missing = "040004"

abbrev pub session_durable_disabled : Code
session_durable_disabled = "040005"

abbrev pub session_commit_failed : Code
session_commit_failed = "040006"

abbrev pub agent_memory_recall_failed : Code
agent_memory_recall_failed = "040008"

abbrev pub agent_memory_write_failed : Code
agent_memory_write_failed = "040009"

abbrev pub agent_memory_unavailable : Code
agent_memory_unavailable = "040010"

abbrev pub agent_turn_failed : Code
agent_turn_failed = "050001"

abbrev pub agent_message_empty : Code
agent_message_empty = "050002"

abbrev pub agent_max_rounds : Code
agent_max_rounds = "050003"

abbrev pub agent_llm_request_failed : Code
agent_llm_request_failed = "050004"

abbrev pub agent_llm_timeout : Code
agent_llm_timeout = "050005"

abbrev pub agent_tool_plan_invalid : Code
agent_tool_plan_invalid = "050006"

abbrev pub agent_terminate_missing : Code
agent_terminate_missing = "050007"

abbrev pub agent_hooks_aborted : Code
agent_hooks_aborted = "050008"

abbrev pub llm_rate_limit : Code
llm_rate_limit = "050010"

abbrev pub llm_quota_exhausted : Code
llm_quota_exhausted = "050011"

abbrev pub llm_auth : Code
llm_auth = "050012"

abbrev pub llm_context_length : Code
llm_context_length = "050013"

abbrev pub llm_content_filter : Code
llm_content_filter = "050014"

abbrev pub llm_provider_overload : Code
llm_provider_overload = "050015"

abbrev pub llm_provider_unavailable : Code
llm_provider_unavailable = "050016"

abbrev pub llm_invalid_request : Code
llm_invalid_request = "050017"

abbrev pub llm_tool_schema : Code
llm_tool_schema = "050018"

abbrev pub zeus_transport : Code
zeus_transport = "060001"

abbrev pub zeus_http4xx : Code
zeus_http4xx = "060002"

abbrev pub zeus_http5xx : Code
zeus_http5xx = "060003"

abbrev pub zeus_contract_required : Code
zeus_contract_required = "060004"

abbrev pub zeus_auth_failed : Code
zeus_auth_failed = "060005"

abbrev pub zeus_verb_not_allowed : Code
zeus_verb_not_allowed = "060006"

abbrev pub zeus_search_invalid : Code
zeus_search_invalid = "060007"

abbrev pub zeus_response_parse : Code
zeus_response_parse = "060008"

abbrev pub zeus_req_id_missing : Code
zeus_req_id_missing = "060009"

abbrev pub zeus_pipeline_not_on_direct : Code
zeus_pipeline_not_on_direct = "060010"

abbrev pub policy_refuse : Code
policy_refuse = "070002"

abbrev pub layer_a_validate_failed : Code
layer_a_validate_failed = "090001"

abbrev pub auth_failed : Code
auth_failed = "100001"

abbrev pub auth_session_unavailable : Code
auth_session_unavailable = "100002"

abbrev pub jobs_unavailable : Code
jobs_unavailable = "130001"

abbrev pub jobs_invalid_unit_map : Code
jobs_invalid_unit_map = "130002"

abbrev pub jobs_budget_invalid : Code
jobs_budget_invalid = "130003"

abbrev pub jobs_not_found : Code
jobs_not_found = "130004"

abbrev pub jobs_watch_failed : Code
jobs_watch_failed = "130005"

abbrev pub jobs_unit_failed : Code
jobs_unit_failed = "130010"

abbrev pub units_catalog_missing : Code
units_catalog_missing = "130011"

abbrev pub units_inject_missing : Code
units_inject_missing = "130012"

abbrev pub units_isolation : Code
units_isolation = "130013"

abbrev pub internal_bug : Code
internal_bug = "990001"

pub record CodeInfo : Type 0 where
  pub code : Code
  pub message : String
  pub retryable : Bool
  pub typ : String

abbrev info : Code → String → Bool → String → CodeInfo
info c m r t = record { code = c; message = m; retryable = r; typ = t }

unfoldable pub code_catalog : List CodeInfo
code_catalog =
    info unknown "unknown client error" false "internal"
    ∷ info not_implemented "not implemented in this language SDK" false "not_implemented"
    ∷ info invalid_argument "invalid argument" false "invalid_argument"
    ∷ info precondition_failed "precondition failed" false "precondition"
    ∷ info timeout "timeout (client-side deadline)" true "timeout"
    ∷ info cancelled "cancelled" false "cancelled"
    ∷ info internal_invariant "internal invariant violated" false "internal"
    ∷ info feature_disabled "feature disabled by config/flag" false "disabled"
    ∷ info client_rate_limited "rate limited (client)" true "rate_limited"
    ∷ info context_deadline "context deadline exceeded" true "timeout"
    ∷ info config_path_not_found "config path not found" false "config"
    ∷ info config_not_readable "config path not readable" false "config"
    ∷ info config_parse_failed "config file parse failed" false "config"
    ∷ info config_normalize_failed "config normalize failed" false "config"
    ∷ info config_invalid "config mapping invalid" false "config"
    ∷ info zeus_url_missing "zeus.url missing or empty" false "config"
    ∷ info zeus_auth_mode_invalid "zeus.auth_mode invalid" false "config"
    ∷ info zeus_auth_incomplete "zeus auth fields incomplete for auth_mode" false "config"
    ∷ info llm_base_url_missing "llm.base_url missing (agent required)" false "config"
    ∷ info llm_model_missing "llm.model missing (agent required)" false "config"
    ∷ info llm_api_key_missing "llm.api_key missing" false "config"
    ∷ info catalog_not_found "catalog not found for mode/base_id" false "catalog"
    ∷ info catalog_parse_failed "catalog parse failed" false "catalog"
    ∷ info catalog_lineage_unknown "catalog lineage unknown" false "catalog"
    ∷ info contract_hash_missing "contract hash missing on stamped catalog" false "catalog"
    ∷ info contract_hash_invent_forbidden "contract hash invent forbidden" false "catalog"
    ∷ info contract_bind_mismatch "contract bind mismatch for scope" false "catalog"
    ∷ info catalog_sync_failed "catalog sync failed" false "catalog"
    ∷ info session_create_failed "session create failed" false "session"
    ∷ info session_continue_failed "session continue failed" false "session"
    ∷ info session_rehydrate_failed "session rehydrate failed" false "session"
    ∷ info session_id_missing "session id missing" false "session"
    ∷ info session_durable_disabled "durable sessions disabled" false "session"
    ∷ info session_commit_failed "session commit/trace failed" false "session"
    ∷ info agent_memory_recall_failed "agent memory recall failed" true "session"
    ∷ info agent_memory_write_failed "agent memory write failed" false "session"
    ∷ info agent_memory_unavailable "agent memory API unavailable" false "session"
    ∷ info agent_turn_failed "agent turn failed" false "agent"
    ∷ info agent_message_empty "agent message empty" false "agent"
    ∷ info agent_max_rounds "agent max_rounds exceeded" false "agent"
    ∷ info agent_llm_request_failed "agent LLM request failed" false "agent"
    ∷ info agent_llm_timeout "agent LLM timeout" true "agent"
    ∷ info agent_tool_plan_invalid "agent tool plan invalid" false "agent"
    ∷ info agent_terminate_missing "agent terminate missing" false "agent"
    ∷ info agent_hooks_aborted "agent hooks aborted turn" false "agent"
    ∷ info llm_rate_limit "llm rate limited (throttle)" true "agent"
    ∷ info llm_quota_exhausted "llm quota exhausted (billing/spend)" false "agent"
    ∷ info llm_auth "llm auth failed" false "agent"
    ∷ info llm_context_length "llm context length exceeded" false "agent"
    ∷ info llm_content_filter "llm content filter" false "agent"
    ∷ info llm_provider_overload "llm provider overload" true "agent"
    ∷ info llm_provider_unavailable "llm provider unavailable" true "agent"
    ∷ info llm_invalid_request "llm invalid request" false "agent"
    ∷ info llm_tool_schema "llm tool schema rejected" false "agent"
    ∷ info zeus_transport "zeus HTTP transport error" true "zeus_http"
    ∷ info zeus_http4xx "zeus HTTP 4xx" false "zeus_http"
    ∷ info zeus_http5xx "zeus HTTP 5xx" true "zeus_http"
    ∷ info zeus_contract_required "zeus contract_required (409 class)" false "zeus_http"
    ∷ info zeus_auth_failed "zeus auth failed" false "zeus_http"
    ∷ info zeus_verb_not_allowed "zeus verb not allow-listed" false "zeus_http"
    ∷ info zeus_search_invalid "zeus search invalid args" false "zeus_http"
    ∷ info zeus_response_parse "zeus response parse failed" false "zeus_http"
    ∷ info zeus_req_id_missing "zeus req_id missing on response" false "zeus_http"
    ∷ info zeus_pipeline_not_on_direct "zeus pipeline not on direct surface" false "zeus_http"
    ∷ info policy_refuse "policy forced refuse" false "policy"
    ∷ info layer_a_validate_failed "layer A validation failed" false "layer_a"
    ∷ info auth_failed "auth failed" false "auth"
    ∷ info auth_session_unavailable "auth session unavailable" true "auth"
    ∷ info jobs_unavailable "multi-agent capability unavailable" false "jobs"
    ∷ info jobs_invalid_unit_map "invalid unit map / missing scope" false "jobs"
    ∷ info jobs_budget_invalid "job budget invalid" false "jobs"
    ∷ info jobs_not_found "job not found" false "jobs"
    ∷ info jobs_watch_failed "job watch transport failed" false "jobs"
    ∷ info jobs_unit_failed "job failed (unit error)" false "jobs"
    ∷ info units_catalog_missing "agent unit missing catalog pin" false "jobs"
    ∷ info units_inject_missing "agent unit missing required inject" false "jobs"
    ∷ info units_isolation "unit isolation violation" false "jobs"
    ∷ info internal_bug "internal client bug" false "internal"
    ∷ []
