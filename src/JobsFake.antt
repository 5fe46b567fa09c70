-- ===== src/JobsFake.antt =====
-- adapters/jobsfake/runtime.go: the sequential job runtime. Each function here is one section
-- that the code runs under its mutex, or the code between two of them; other goroutines may act
-- between any two sections (JobsFake/Steps).
pub mod Run
pub mod Steps
pub mod Invariant
pub mod Outcome
pub mod Watch
mod Examples
use zeus_client_golang.Shared.{
  ℕ, ◌+◌, String, Bool, true, false, ◌&&◌, ◌||◌, not, List, [], ◌∷◌, ◌++◌, Option, none, some,
  if◌then◌else◌, contains, ◌==◌, length, ltb, select,
}
use zeus_client_golang.Shared.Maps.{Dict, lookup, put}
use zeus_client_golang.Shared.Int.{ℤ}
use zeus_client_golang.Shared.Json.{Value, Fields, null, str, end, field}
use zeus_client_golang.Errors.{Error, Result, err, ◌>>=◌, new_job}
use zeus_client_golang.Errors.Codes
use zeus_client_golang.Jobs.{
  UnitConfig, UnitStatus, UnitResult, ok, error, timeout, cancelled, dead_end,
}

abbrev fake_jobs_component : String
fake_jobs_component = "adapters.jobs_fake"

-- domain.JobEvent; the fields that this runtime leaves at zero are left out
pub record JobEvent : Type 0 where
  pub seq : ℕ
  pub typ : String
  pub job_id : String
  pub ts_ms : ℤ
  pub payload : Fields

pub record JobSnapshot : Type 0 where
  pub job_id : String
  pub status : String
  pub seq : ℕ
  pub is_partial : Bool
  pub unit_summaries : List Fields
  pub answer : String

pub record JobHandle : Type 0 where
  pub job_id : String
  pub status : String
  pub seq : ℕ

-- `cancels` holds the jobs with a CancelFunc, `stopped` those whose context is cancelled.
pub record Runtime : Type 0 where
  pub closed : Bool
  pub snaps : Dict JobSnapshot
  pub events : Dict (List JobEvent)
  pub cancels : List String
  pub flags : Dict Bool
  pub stopped : List String

unfoldable pub new : Runtime
new = record { closed = false; snaps = []; events = []; cancels = []; flags = []; stopped = [] }

pub not_found : Error
not_found = new_job Codes.jobs_not_found fake_jobs_component []

pub unavailable : Error
unavailable = new_job Codes.jobs_unavailable fake_jobs_component []

abbrev pub events_or_nil : Option (List JobEvent) → List JobEvent
events_or_nil none = []
events_or_nil (some es) = es

abbrev pub flag_or_false : Option Bool → Bool
flag_or_false none = false
flag_or_false (some b) = b

unfoldable pub events_of : String → Runtime → List JobEvent
events_of id r = events_or_nil (lookup id r.events)

-- The event that `emit` appends.
unfoldable pub next_event : String → String → ℤ → Fields → Runtime → JobEvent
next_event id typ now payload r = record {
  seq = length (events_of id r) + 1;
  typ = typ;
  job_id = id;
  ts_ms = now;
  payload = payload;
}

unfoldable pub emit : String → String → ℤ → Fields → Runtime → Runtime
unfolding next_event
emit id typ now payload r = record r {
  events = put id (events_of id r ++ next_event id typ now payload r ∷ []) r.events;
}

unfoldable pub is_cancelled : String → Runtime → Bool
is_cancelled id r = flag_or_false (lookup id r.flags)

abbrev pub running_snapshot : String → JobSnapshot
running_snapshot id = record {
  job_id = id;
  status = "running";
  seq = 0;
  is_partial = false;
  unit_summaries = [];
  answer = "";
}

-- The first section of `Run`: the job's entries.
unfoldable pub register : String → Runtime → Runtime
register id r = record r {
  cancels = id ∷ r.cancels;
  events = put id [] r.events;
  flags = put id false r.flags;
  snaps = put id (running_snapshot id) r.snaps;
}

-- The start of `Run`, with the job's first event.
unfoldable pub start : String → String → ℤ → Runtime → Runtime
unfolding register emit
start id goal now r = emit id "job.started" now (field "goal" (str goal) end) (register id r)

-- `r.isCancelled(jobID) || jobCtx.Err() != nil`
unfoldable pub should_stop : String → Runtime → Bool
unfolding is_cancelled
should_stop id r = is_cancelled id r || contains id r.stopped

-- The job context's CancelFunc.
unfoldable pub stop : String → Runtime → Runtime
stop id r = record r { stopped = id ∷ r.stopped }

-- The variables of the loop of `Run`.
pub record Progress : Type 0 where
  pub summaries : List Fields
  pub any_ok : Bool
  pub any_err : Bool

abbrev pub no_progress : Progress
no_progress = record { summaries = []; any_ok = false; any_err = false }

abbrev pub status_text : UnitStatus → String
status_text ok = "ok"
status_text error = "error"
status_text timeout = "timeout"
status_text cancelled = "cancelled"
status_text dead_end = "dead_end"

abbrev pub is_ok : UnitStatus → Bool
is_ok ok = true
is_ok _ = false

unfoldable pub summary : UnitResult → Fields
summary u = field "unit_id" (str u.unit_id) (
    field "status" (str (status_text u.status))
      (field "error_code" (if u.error_code == "" then null else str u.error_code) end))

-- What the loop's body does with a unit's result.
unfoldable pub add_result : Progress → UnitResult → Progress
add_result p u = record {
  summaries = p.summaries ++ summary u ∷ [];
  any_ok = p.any_ok || is_ok u.status;
  any_err = p.any_err || not (is_ok u.status);
}

-- The `switch` after the loop.
unfoldable pub final_status : Bool → Progress → String
final_status is_stopped p =
    if is_stopped
    then "cancelled"
    else if p.any_err && p.any_ok
    then "partial"
    else if p.any_err
    then "error"
    else "ok"

-- The last section of `Run`, with the `seq` of the job's last event.
unfoldable pub publish : String → String → ℕ → Progress → Runtime → Runtime
unfolding is_cancelled
publish id status seq p r =
    let final : String = if is_cancelled id r then "cancelled" else status in
    record r {
      snaps =
          put id
            (record {
              job_id = id;
              status = final;
              seq = seq;
              is_partial = final == "partial";
              unit_summaries = p.summaries;
              answer = "";
            })
            r.snaps;
    }

unfoldable pub handle : String → JobHandle
handle id = record { job_id = id; status = "running"; seq = 1 }

unfoldable pub watch : String → ℕ → Runtime → Result (List JobEvent)
watch id after r = elim (lookup id r.events) [
  | none ↦ err not_found
  | some es ↦ Result.ok (select (λ e. ltb after e.seq) es)
]

unfoldable pub get : String → Runtime → Result JobSnapshot
get id r = elim (lookup id r.snaps) [ none ↦ err not_found | some s ↦ Result.ok s ]

abbrev pub snap_or_zero : Option JobSnapshot → JobSnapshot
snap_or_zero none = record (running_snapshot "") { status = "" }
snap_or_zero (some s) = s

-- The snapshot that `Cancel` writes.
unfoldable pub cancelled_snapshot : String → Runtime → JobSnapshot
cancelled_snapshot id r = record (snap_or_zero (lookup id r.snaps)) {
  job_id = id;
  status = "cancelled";
}

-- The section of `Cancel`.
unfoldable pub mark_cancelled : String → Runtime → Runtime
unfolding cancelled_snapshot
mark_cancelled id r = record r {
  flags = put id true r.flags;
  snaps = put id (cancelled_snapshot id r) r.snaps;
}

-- `Cancel`: the section, then the CancelFunc.
unfoldable pub cancel : String → Runtime → Runtime × Result JobSnapshot
unfolding mark_cancelled stop
cancel id r =
    if contains id r.cancels
    then (stop id (mark_cancelled id r), Result.ok (cancelled_snapshot id r))
    else (r, err not_found)

-- `Close`: the flag, then every CancelFunc.
unfoldable pub close : Runtime → Runtime
close r = if r.closed then r else record r { closed = true; stopped = r.cancels ++ r.stopped }
