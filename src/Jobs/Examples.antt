-- ===== src/Jobs/Examples.antt =====
-- The theorems about domain/jobs.go at concrete units.
use zeus_client_golang.Shared.{All, ◌≢◌, ◌↔◌, String, ◌≡◌, refl, [], ◌∷◌, some, inr, arith, eq_iff}
use zeus_client_golang.Shared.Int.{pos}
use zeus_client_golang.Shared.Json.{str, end, field}
use zeus_client_golang.Errors.{ok}
use zeus_client_golang.Jobs.{
  UnitConfig, zeus_direct, default_job_budgets, validate_budgets, validate_unit_map,
}
use zeus_client_golang.Jobs.Isolation.{AllApart, IsRunnable, validate_unit_map_exact}
use zeus_client_golang.Jobs.Public.{unit_public_dict, unit_public_dict_hides}

abbrev direct_unit : String → String → UnitConfig
direct_unit id sid = record {
  unit_id = id;
  kind = zeus_direct;
  goal = "";
  zeus_url = "http://zeus";
  bucket = "b";
  scope = "s";
  collection = "c";
  auth_mode = "none";
  password_env = "";
  token_env = "";
  username = "";
  catalog_mode = "";
  base_id = "";
  chat_request = some end;
  llm = end;
  call = end;
  share_session_id = sid;
  max_rounds = pos 0;
}

direct_unit-IsRunnable : (sid : String) → IsRunnable (direct_unit "a" sid)
direct_unit-IsRunnable sid = record {
  named = ground (arith, eq_iff "a" "");
  implemented = inr refl;
  on_url = ground (arith, eq_iff "http://zeus" "");
  in_bucket = ground (arith, eq_iff "b" "");
  in_scope = ground (arith, eq_iff "s" "");
  in_collection = ground (arith, eq_iff "c" "");
  pinned = λ e. cc;
}

other_unit-IsRunnable : (sid : String) → IsRunnable (direct_unit "z" sid)
other_unit-IsRunnable sid = record {
  named = ground (arith, eq_iff "z" "");
  implemented = inr refl;
  on_url = ground (arith, eq_iff "http://zeus" "");
  in_bucket = ground (arith, eq_iff "b" "");
  in_scope = ground (arith, eq_iff "s" "");
  in_collection = ground (arith, eq_iff "c" "");
  pinned = λ e. cc;
}

validate_unit_map_exact_example : (validate_unit_map (direct_unit "a" "sid" ∷ []) ≡ ok tt) ↔ (
    (direct_unit "a" "sid" ∷ [] ≢ [])
    × All IsRunnable (direct_unit "a" "sid" ∷ [])
    × AllApart (direct_unit "a" "sid" ∷ []))
validate_unit_map_exact_example = validate_unit_map_exact (direct_unit "a" "sid" ∷ [])

default_job_budgets_valid : validate_budgets default_job_budgets ≡ ok tt
unfolding validate_budgets default_job_budgets
default_job_budgets_valid = refl

unit_public_dict_hides_example :
    unit_public_dict (record (direct_unit "a" "sid") {
      llm = field "api_key" (str "sk-1") end;
      username = "root";
      share_session_id = "other";
      chat_request = some (field "k" (str "v") end);
      call = field "verb" (str "get") end;
    })
    ≡ unit_public_dict (direct_unit "a" "sid")
unit_public_dict_hides_example =
    unit_public_dict_hides (direct_unit "a" "sid") "api_key" (str "sk-1") "root" "other"
      (field "k" (str "v") end) (field "verb" (str "get") end) refl
      (ground (arith, eq_iff "other" "")) (ground (arith, eq_iff "sid" "")) (λ e. cc)
