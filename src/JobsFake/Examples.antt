-- ===== src/JobsFake/Examples.antt =====
-- The theorems about adapters/jobsfake at concrete jobs.
use zeus_client_golang.Shared.{
  ◌==◌, true, false, ◌≡◌, refl, [], ◌∷◌, none, some, arith, eq_refl, drop,
}
use zeus_client_golang.Shared.Maps.{lookup, put, lookup-put}
use zeus_client_golang.Shared.Int.{pos}
use zeus_client_golang.Shared.Json.{end}
use zeus_client_golang.Errors.{ok, err}
use zeus_client_golang.Jobs.{UnitConfig, UnitResult, zeus_direct}
use zeus_client_golang.Jobs
use zeus_client_golang.JobsFake.{
  should_stop, handle, next_event, new, watch, mark_cancelled, unavailable, start, events_of,
  running_snapshot, is_cancelled, emit, register,
}
use zeus_client_golang.JobsFake.Run.{run_units, System, run}
use zeus_client_golang.JobsFake.Steps.{Reach, here, next, mark}
use zeus_client_golang.JobsFake.Invariant.{
  IsConsecutive, started, events-IsConsecutive, cancelled_for_good, status_of,
  cancelled_starts_no_unit, has_unit_ahead,
}
use zeus_client_golang.JobsFake.Watch.{watch_resumes}
use zeus_client_golang.JobsFake.Outcome.{
  finished, summaries_of, run-outcome, run_error_leaves_running, quiet, pure, outcome, job_started,
}

abbrev unit : UnitConfig
unit = record {
  unit_id = "u";
  kind = zeus_direct;
  goal = "";
  zeus_url = "http://zeus";
  bucket = "b";
  scope = "s";
  collection = "c";
  auth_mode = "none";
  password_env = "";
  token_env = "";
  username = "";
  catalog_mode = "";
  base_id = "";
  chat_request = none;
  llm = end;
  call = end;
  share_session_id = "";
  max_rounds = pos 0;
}

abbrev begun : System
begun = started "job_1" "goal" (pos 7) (unit ∷ []) new

abbrev marked : System
marked = record begun { rt = mark_cancelled "job_1" begun.rt }

begun-marked : Reach "job_1" begun marked
begun-marked = next here (mark begun "job_1" (unfold start register emit new in refl))

marked_flag : is_cancelled "job_1" marked.rt ≡ true
unfolding mark_cancelled is_cancelled
marked_flag = ground (arith, eq_refl "job_1", lookup-put "job_1" "job_1" true begun.rt.flags)

events-IsConsecutive_example : IsConsecutive 1 (events_of "job_1" marked.rt)
events-IsConsecutive_example =
    events-IsConsecutive "job_1" "goal" (pos 7) (unit ∷ []) new marked begun-marked

cancelled_for_good_example : status_of "job_1" marked.rt ≡ "cancelled"
cancelled_for_good_example =
    cancelled_for_good "job_1" "goal" (pos 7) (unit ∷ []) new marked marked begun-marked marked_flag
      here

cancelled_starts_no_unit_example : has_unit_ahead marked.phase ≡ false
cancelled_starts_no_unit_example =
    cancelled_starts_no_unit "job_1" marked marked marked_flag refl here

first_event : lookup "job_1" begun.rt.events ≡ some (job_started "job_1" "goal" (pos 7) ∷ [])
unfolding start register emit events_of next_event new lookup put
first_event = refl

watch_resumes_example :
    watch "job_1" 1 begun.rt ≡ ok (drop 1 (job_started "job_1" "goal" (pos 7) ∷ []))
watch_resumes_example =
    watch_resumes "job_1" "goal" (pos 7) (unit ∷ []) new begun
      (job_started "job_1" "goal" (pos 7) ∷ []) 1 here first_event

abbrev failed_result : UnitResult
failed_result = record {
  unit_id = "u";
  status = Jobs.error;
  answer = "";
  req_ids = [];
  artifacts = end;
  error_code = "060001";
  is_dead_end = false;
  plan_epoch = pos 0;
}

run-outcome_example :
    let (r', res) =
      run true (quiet (λ u. failed_result)) "job_1" "goal" (pos 7) (pos 9) (unit ∷ []) new in
    (res ≡ ok (handle "job_1"))
    × (lookup "job_1" r'.snaps
        ≡ some (record {
          job_id = "job_1";
          status = outcome (failed_result ∷ []);
          seq = 2;
          is_partial = outcome (failed_result ∷ []) == "partial";
          unit_summaries = summaries_of (failed_result ∷ []);
          answer = "";
        }))
    × (events_of "job_1" r'
        ≡ job_started "job_1" "goal" (pos 7)
          ∷ finished "job_1" (pos 9) (outcome (failed_result ∷ []))
          ∷ [])
run-outcome_example =
    run-outcome (λ u. failed_result) "job_1" "goal" (pos 7) (pos 9) (unit ∷ []) new
      (unfold new in refl)

run_error_leaves_running_example :
    (lookup "job_1"
        (run true
          (pure (λ u. err unavailable))
          "job_1"
          "goal"
          (pos 7)
          (pos 9)
          (unit ∷ [])
          new).0.snaps
      ≡ some (running_snapshot "job_1"))
    × (events_of "job_1"
          (run true (pure (λ u. err unavailable)) "job_1" "goal" (pos 7) (pos 9) (unit ∷ []) new).0
        ≡ job_started "job_1" "goal" (pos 7) ∷ [])
run_error_leaves_running_example =
    run_error_leaves_running (λ u. err unavailable) "job_1" "goal" (pos 7) (pos 9) (unit ∷ []) new
      unavailable
      (unfold run run_units start register emit new should_stop is_cancelled events_of next_event
          lookup put in
        refl)
