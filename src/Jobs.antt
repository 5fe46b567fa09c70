-- ===== src/Jobs.antt =====
-- domain/jobs.go: the configuration of a job's units, its budgets, and the checks that are made
-- before any unit runs.
pub mod Isolation
pub mod Failures
pub mod Public
mod Examples
use zeus_client_golang.Shared.{
  ℕ, String, Bool, true, false, ◌&&◌, ◌||◌, not, List, [], ◌∷◌, Option, none, some, if◌then◌else◌,
  contains, ◌==◌,
}
use zeus_client_golang.Shared.Maps.{Dict, lookup, put}
use zeus_client_golang.Shared.Int.{ℤ, pos, ◌<?◌}
use zeus_client_golang.Shared.Json.{Value, Fields}
use zeus_client_golang.Errors.{Error, Result, err, ◌>>=◌, new_job, with_message}
use zeus_client_golang.Errors.Codes

abbrev jobs_component : String
jobs_component = "domain.jobs"

pub data UnitKind : Type 0 where
  agent_turn zeus_direct http_json : UnitKind
  -- any other text
  other : String → UnitKind

pub data UnitStatus : Type 0 where
  ok error timeout cancelled dead_end : UnitStatus

pub record JobBudgets : Type 0 where
  pub max_workers : ℤ
  pub wall_ms : ℤ
  pub max_waves : ℤ
  pub max_replans : ℤ
  pub max_evidence_keys : ℤ
  pub disable_early_cancel : Bool

unfoldable pub default_job_budgets : JobBudgets
default_job_budgets = record {
  max_workers = pos 4;
  wall_ms = pos 120_000;
  max_waves = pos 4;
  max_replans = pos 2;
  max_evidence_keys = pos 32;
  disable_early_cancel = false;
}

pub budget_invalid : Error
budget_invalid = new_job Codes.jobs_budget_invalid jobs_component []

-- JobBudgets.Validate
unfoldable pub validate_budgets : JobBudgets → Result (Unit {0})
validate_budgets b =
    if (b.max_workers <? pos 1) || (b.wall_ms <? pos 1) || (b.max_waves <? pos 1)
    then err budget_invalid
    else Result.ok tt

-- `chat_request` is `none` where the Go map is nil.
pub record UnitConfig : Type 0 where
  pub unit_id : String
  pub kind : UnitKind
  pub goal : String
  pub zeus_url : String
  pub bucket : String
  pub scope : String
  pub collection : String
  pub auth_mode : String
  pub password_env : String
  pub token_env : String
  pub username : String
  pub catalog_mode : String
  pub base_id : String
  pub chat_request : Option Fields
  pub llm : Fields
  pub call : Fields
  pub share_session_id : String
  pub max_rounds : ℤ

pub record UnitResult : Type 0 where
  pub unit_id : String
  pub status : UnitStatus
  pub answer : String
  pub req_ids : List String
  pub artifacts : Fields
  pub error_code : String
  pub is_dead_end : Bool
  pub plan_epoch : ℤ

pub invalid_unit_map : Error
invalid_unit_map = new_job Codes.jobs_invalid_unit_map jobs_component []

pub not_implemented : Error
not_implemented =
    new_job Codes.not_implemented jobs_component
      (with_message "http_json units are not implemented in this SDK train" ∷ [])

pub catalog_missing : Error
catalog_missing = new_job Codes.units_catalog_missing jobs_component []

pub isolation_violation : Error
isolation_violation = new_job Codes.units_isolation jobs_component []

-- The two maps of the loop of ValidateUnitMap: the ids met, and the unit of each shared session.
pub record Seen : Type 0 where
  pub ids : List String
  pub sessions : Dict String

abbrev pub is_none : Option Fields → Bool
is_none none = true
is_none (some _) = false

unfoldable pub lacks_target : UnitConfig → Bool
lacks_target u = u.zeus_url == "" || u.bucket == "" || u.scope == "" || u.collection == ""

unfoldable pub lacks_pin : UnitConfig → Bool
lacks_pin u = u.base_id == "" && u.catalog_mode == "" && is_none u.chat_request

-- The end of the loop's body: the unit's shared session.
unfoldable pub check_session : Seen → UnitConfig → Result Seen
check_session s u =
    if u.share_session_id == "" then Result.ok s else elim (lookup u.share_session_id s.sessions) [
      | none ↦ Result.ok (record s { sessions = put u.share_session_id u.unit_id s.sessions })
      | some prev ↦
          if prev == u.unit_id
          then Result.ok (record s { sessions = put u.share_session_id u.unit_id s.sessions })
          else err isolation_violation
    ]

unfoldable pub check_target : Seen → UnitConfig → Result Seen
check_target s u = if lacks_target u then err invalid_unit_map else check_session s u

-- The `switch u.Kind` and what follows it.
unfoldable pub check_kind : UnitKind → Seen → UnitConfig → Result Seen
unfolding check_target
check_kind http_json s u = err not_implemented
check_kind (other _) s u = err invalid_unit_map
check_kind zeus_direct s u = check_target s u
check_kind agent_turn s u =
    if lacks_target u
    then err invalid_unit_map
    else if lacks_pin u
    then err catalog_missing
    else check_session s u

-- One round of the loop.
unfoldable pub check_unit : Seen → UnitConfig → Result Seen
unfolding check_kind
check_unit s u =
    if u.unit_id == "" || contains u.unit_id s.ids
    then err invalid_unit_map
    else check_kind u.kind (record s { ids = u.unit_id ∷ s.ids }) u

unfoldable pub validate_from : Seen → List UnitConfig → Result (Unit {0})
validate_from s [] = Result.ok tt
validate_from s (u ∷ us) = check_unit s u >>= λ s'. validate_from s' us

abbrev pub nothing_seen : Seen
nothing_seen = record { ids = []; sessions = [] }

unfoldable pub validate_unit_map : List UnitConfig → Result (Unit {0})
unfolding validate_from
validate_unit_map [] = err invalid_unit_map
validate_unit_map (u ∷ us) = validate_from nothing_seen (u ∷ us)
