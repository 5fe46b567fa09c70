-- ===== src/JobsFake/Outcome.antt =====
-- What a call of `Run` on the fake runtime leaves when nothing disturbs it.
use zeus_client_golang.Shared.{
  ◌+◌, String, Bool, true, false, ◌&&◌, ◌||◌, not, ◌≡◌, ◌∙◌, ap, refl, List, [], ◌∷◌, ◌++◌, some,
  arith, eq_refl, contains, if◌then◌else◌, ◌==◌, length, Bool-cases, inl, inr,
}
use mathlib.Core.List.{append-nil, append_assoc}
use zeus_client_golang.Shared.Maps.{lookup, lookup-put}
use zeus_client_golang.Shared.Int.{ℤ}
use zeus_client_golang.Shared.Json.{Fields, field, str, end}
use zeus_client_golang.Errors.{Error, Result, ok, err, Result-cases}
use zeus_client_golang.Jobs.{UnitConfig, UnitResult}
use zeus_client_golang.JobsFake.{
  Runtime, JobEvent, Progress, no_progress, add_result, summary, is_ok, should_stop, is_cancelled,
  start, register, emit, events_of, next_event, handle, final_status, stop, running_snapshot,
  events_or_nil,
}
use zeus_client_golang.JobsFake.Run.{run_units, run, finish, finish_if_ok}

-- A unit runner that gives each unit its result and leaves the runtime alone.
abbrev pub quiet : (UnitConfig → UnitResult) → UnitConfig → Runtime → Runtime × Result UnitResult
quiet f u r = (r, ok (f u))

abbrev pub all_ok : List UnitResult → Bool
all_ok [] = true
all_ok (u ∷ us) = is_ok u.status && all_ok us

abbrev pub some_ok : List UnitResult → Bool
some_ok [] = false
some_ok (u ∷ us) = is_ok u.status || some_ok us

-- The outcome of a job: every unit succeeded, some did, or none.
abbrev pub outcome : List UnitResult → String
outcome us = if all_ok us then "ok" else if some_ok us then "partial" else "error"

abbrev pub results : (UnitConfig → UnitResult) → List UnitConfig → List UnitResult
results f [] = []
results f (u ∷ us) = f u ∷ results f us

abbrev pub summaries_of : List UnitResult → List Fields
summaries_of [] = []
summaries_of (u ∷ us) = summary u ∷ summaries_of us

-- The loop's variables after the results.
abbrev after_results : Progress → List UnitResult → Progress
after_results p us = record {
  summaries = p.summaries ++ summaries_of us;
  any_ok = p.any_ok || some_ok us;
  any_err = p.any_err || not (all_ok us);
}

after_results-add :
    (p : Progress) (v : UnitResult) (us : List UnitResult)
    → after_results (add_result p v) us ≡ after_results p (v ∷ us)
unfolding add_result
after_results-add p v us =
    ground (arith, append_assoc p.summaries (summary v ∷ []) (summaries_of us))

run_units-quiet :
    (id : String) (f : UnitConfig → UnitResult) (us : List UnitConfig) (p : Progress) (r : Runtime)
    → should_stop id r ≡ false
    → run_units id (quiet f) us p r ≡ (r, ok (after_results p (results f us)))
unfolding run_units
run_units-quiet id f [] p r h = ground (arith, append-nil p.summaries)
run_units-quiet id f (u ∷ us) p r h =
    rw (h, run_units)
      (rw (← after_results-add p (f u) (results f us))
        (run_units-quiet id f us (add_result p (f u)) r h))

should_stop-start :
    (id goal : String) (now : ℤ) (r : Runtime)
    → contains id r.stopped ≡ false
    → should_stop id (start id goal now r) ≡ false
unfolding should_stop start register emit
should_stop-start id goal now r h = ground (arith, eq_refl id, lookup-put id id false r.flags)

final_status-outcome :
    (us : List UnitResult) → final_status false (after_results no_progress us) ≡ outcome us
unfolding final_status
final_status-outcome [] = refl
final_status-outcome (u ∷ us) = ground (arith)

abbrev pub job_started : String → String → ℤ → JobEvent
job_started id goal now = record {
  seq = 1;
  typ = "job.started";
  job_id = id;
  ts_ms = now;
  payload = field "goal" (str goal) end;
}

events-start :
    (id goal : String) (now : ℤ) (r : Runtime)
    → lookup id (start id goal now r).events ≡ some (job_started id goal now ∷ [])
unfolding start register emit events_of next_event
events-start id goal now r = simp (lookup-put, eq_refl)

cancelled-start :
    (id goal : String) (now : ℤ) (r : Runtime) → is_cancelled id (start id goal now r) ≡ false
unfolding is_cancelled start register emit
cancelled-start id goal now r = simp (lookup-put, eq_refl)

finish-quiet :
    (id : String) (now : ℤ) (p : Progress) (r : Runtime)
    → should_stop id r ≡ false
    → is_cancelled id r ≡ false
    → (lookup id (finish id now p r).0.snaps
        ≡ some (record {
          job_id = id;
          status = final_status false p;
          seq = length (events_of id r) + 1;
          is_partial = final_status false p == "partial";
          unit_summaries = p.summaries;
          answer = "";
        }))
      × (events_of id (finish id now p r).0
          ≡ events_of id r
            ++ next_event id "job.finished" now (field "status" (str (final_status false p)) end) r
              ∷ [])
      × ((finish id now p r).1 ≡ ok (handle id))
unfolding finish events_of is_cancelled
finish-quiet id now p r h c =
    (simp (h, c, lookup-put, eq_refl), simp (h, lookup-put, eq_refl), refl)

abbrev pub finished : String → ℤ → String → JobEvent
finished id now status = record {
  seq = 2;
  typ = "job.finished";
  job_id = id;
  ts_ms = now;
  payload = field "status" (str status) end;
}

finish-started :
    (id : String) (now : ℤ) (p : Progress) (r : Runtime) (status : String) (e : JobEvent)
    → should_stop id r ≡ false
    → is_cancelled id r ≡ false
    → events_of id r ≡ e ∷ []
    → final_status false p ≡ status
    → ((finish id now p r).1 ≡ ok (handle id))
      × (lookup id (finish id now p r).0.snaps
          ≡ some (record {
            job_id = id;
            status = status;
            seq = 2;
            is_partial = status == "partial";
            unit_summaries = p.summaries;
            answer = "";
          }))
      × (events_of id (finish id now p r).0 ≡ e ∷ finished id now status ∷ [])
unfolding next_event
finish-started id now p r status e h c ev fs =
    let q = finish-quiet id now p r h c in (q.2, q.0 ∙ simp (ev, fs), q.1 ∙ simp (ev, fs))

-- For a runtime with a unit runner, units that give the results f and leave the runtime alone, a
-- job id whose context is not cancelled, and any list of units, Run returns the handle of the job;
-- the snapshot then has the status "ok" if every unit succeeded, "partial" if only some did and
-- "error" otherwise, the summaries of all units in the order of the request, and the number 2 of
-- the last event; and the events of the job are job.started and job.finished with that status.
pub run-outcome :
    (f : UnitConfig → UnitResult) (id goal : String) (now later : ℤ) (us : List UnitConfig)
    (r : Runtime)
    → contains id r.stopped ≡ false
    → let (r', res) = run true (quiet f) id goal now later us r in
      let rs = results f us in
      (res ≡ ok (handle id))
      × (lookup id r'.snaps
          ≡ some (record {
            job_id = id;
            status = outcome rs;
            seq = 2;
            is_partial = outcome rs == "partial";
            unit_summaries = summaries_of rs;
            answer = "";
          }))
      × (events_of id r' ≡ job_started id goal now ∷ finished id later (outcome rs) ∷ [])
unfolding run
run-outcome f id goal now later us r h =
    let rs = results f us in
    let s = start id goal now r in
    let going = should_stop-start id goal now r h in
    rw (run_units-quiet id f us no_progress s going) (
      finish-started id later (after_results no_progress rs) s (outcome rs)
        (job_started id goal now) going (cancelled-start id goal now r)
        (unfold events_of in rw (events-start id goal now r)) (final_status-outcome rs))

-- A unit runner that leaves the runtime alone, and may fail.
abbrev pub pure :
    (UnitConfig → Result UnitResult) → UnitConfig → Runtime → Runtime × Result UnitResult
pure g u r = (r, g u)

run_units-pure :
    (id : String) (g : UnitConfig → Result UnitResult) (us : List UnitConfig) (p : Progress)
    (r : Runtime)
    → ((run_units id (pure g) us p r).0.snaps ≡ r.snaps)
      × ((run_units id (pure g) us p r).0.events ≡ r.events)
unfolding run_units
run_units-pure id g [] p r = (refl, refl)
run_units-pure id g (u ∷ us) p r = elim (Bool-cases (should_stop id r)) [
  | inl halt ↦ rw (halt, run_units) (refl, refl)
  | inr going ↦ elim (Result-cases (g u)) [
    | inl (v, e) ↦ rw (going, run_units, e) (run_units-pure id g us (add_result p v) r)
    | inr (x, e) ↦ rw (going, run_units, e) (unfold stop in (refl, refl))
  ]
]

unfinished :
    (id : String) (now : ℤ) (r : Runtime) (m : Result Progress) (e : Error)
    → (finish_if_ok id now (r, m)).1 ≡ err e
    → (finish_if_ok id now (r, m)).0 ≡ r
unfolding finish
unfinished id now r (ok p) e h = cc
unfinished id now r (err x) e h = refl

-- If the units leave the runtime alone and Run returns an error, because a unit did, then the
-- snapshot of the job still reads "running" and its only event is job.started.
pub run_error_leaves_running :
    (g : UnitConfig → Result UnitResult) (id goal : String) (now later : ℤ) (us : List UnitConfig)
    (r : Runtime) (e : Error)
    → (run true (pure g) id goal now later us r).1 ≡ err e
    → (lookup id (run true (pure g) id goal now later us r).0.snaps ≡ some (running_snapshot id))
      × (events_of id (run true (pure g) id goal now later us r).0 ≡ job_started id goal now ∷ [])
unfolding run
run_error_leaves_running g id goal now later us r e h =
    let s = start id goal now r in
    let (r', m) = run_units id (pure g) us no_progress s in
    let (kept, logged) = run_units-pure id g us no_progress s in
    rw (unfinished id later r' m e h) (
      ap (lookup id) kept ∙ unfold start register emit in simp (lookup-put, eq_refl),
      unfold events_of in
          (ap (λ m. events_or_nil (lookup id m)) logged ∙ rw (events-start id goal now r)),
    )
