-- ===== src/JobsFake/Run.antt =====
-- `Run` of adapters/jobsfake/runtime.go, cut where it gives up the mutex, and the whole call.
use zeus_client_golang.Shared.{
  ℕ, ◌+◌, String, Bool, true, false, ◌&&◌, not, List, [], ◌∷◌, if◌then◌else◌, is_empty, length,
  contains,
}
use zeus_client_golang.Shared.Int.{ℤ}
use zeus_client_golang.Shared.Json.{str, end, field}
use zeus_client_golang.Errors.{Result, ok, err}
use zeus_client_golang.Jobs.{UnitConfig, UnitResult}
use zeus_client_golang.JobsFake.{
  Runtime, JobHandle, Progress, no_progress, unavailable, emit, events_of, start, should_stop,
  is_cancelled, stop, add_result, final_status, publish, handle,
}

-- Where a call of `Run` stands, after the job has started.
pub data Phase : Type 0 where
  -- at the head of the loop
  looping : List UnitConfig → Progress → Phase
  -- the cancel flag is read for the unit, and is not set
  flag_read : UnitConfig → List UnitConfig → Progress → Phase
  -- the context is read too, and is not done
  starting : UnitConfig → List UnitConfig → Progress → Phase
  -- in AgentTurn or ZeusDirect
  in_unit : UnitConfig → List UnitConfig → Progress → Phase
  -- behind the loop
  ended : Progress → Phase
  -- behind the loop, the cancel flag is read and is not set
  ended_flag_read : Progress → Phase
  -- the status is chosen
  decided : Progress → String → Phase
  -- job.finished is written, with its seq
  emitted : Progress → String → ℕ → Phase
  returned : Result JobHandle → Phase

-- The runtime, and one call of `Run` on it.
pub record System : Type 0 where
  pub rt : Runtime
  pub phase : Phase

-- A step of the call itself, at the time `now`.
unfoldable pub advance_phase : String → ℤ → Phase → Runtime → System
advance_phase id now (looping [] p) r = record { rt = r; phase = ended p }
advance_phase id now (looping (u ∷ us) p) r = record {
  rt = r;
  phase = if is_cancelled id r then ended p else flag_read u us p;
}
advance_phase id now (flag_read u us p) r = record {
  rt = r;
  phase = if contains id r.stopped then ended p else starting u us p;
}
advance_phase id now (starting u us p) r = record { rt = r; phase = in_unit u us p }
advance_phase id now (in_unit u us p) r = record { rt = r; phase = in_unit u us p }
advance_phase id now (ended p) r = record {
  rt = r;
  phase = if is_cancelled id r then decided p (final_status true p) else ended_flag_read p;
}
advance_phase id now (ended_flag_read p) r = record {
  rt = r;
  phase = decided p (final_status (contains id r.stopped) p);
}
advance_phase id now (decided p status) r = record {
  rt = emit id "job.finished" now (field "status" (str status) end) r;
  phase = emitted p status (length (events_of id r) + 1);
}
advance_phase id now (emitted p status seq) r = record {
  rt = publish id status seq p r;
  phase = returned (ok (handle id));
}
advance_phase id now (returned h) r = record { rt = r; phase = returned h }

unfoldable pub advance : String → ℤ → System → System
unfolding advance_phase
advance id now s = advance_phase id now s.phase s.rt

-- AgentTurn or ZeusDirect comes back with `res`.
unfoldable pub unit_returns :
    String → List UnitConfig → Progress → Result UnitResult → Runtime → System
unit_returns id us p (ok u) r = record { rt = r; phase = looping us (add_result p u) }
unit_returns id us p (err e) r = record { rt = stop id r; phase = returned (err e) }

-- The loop of `Run`. A unit may act on the runtime while it runs.
unfoldable pub run_units :
    String
    → (UnitConfig → Runtime → Runtime × Result UnitResult)
    → List UnitConfig
    → Progress
    → Runtime
    → Runtime × Result Progress
run_units id runner [] p r = (r, ok p)
run_units id runner (u ∷ us) p r = elim (should_stop id r) [
  | true ↦ (r, ok p)
  | false ↦
      let (r', res) = runner u r in
      elim res [ ok v ↦ run_units id runner us (add_result p v) r' | err e ↦ (stop id r', err e) ]
]

-- What `Run` does behind its loop.
unfoldable pub finish : String → ℤ → Progress → Runtime → Runtime × Result JobHandle
unfolding emit publish
finish id now p r =
    let status = final_status (should_stop id r) p in
    let r' = emit id "job.finished" now (field "status" (str status) end) r in
    (publish id status (length (events_of id r) + 1) p r', ok (handle id))

abbrev pub finish_if_ok : String → ℤ → Runtime × Result Progress → Runtime × Result JobHandle
finish_if_ok id now (r, ok p) = finish id now p r
finish_if_ok id now (r, err e) = (r, err e)

-- `Run`, for a job id that is minted by the caller of this function. `wired` says that the
-- runtime has a unit runner, and `now` and `later` are what the clock gives for its two events.
unfoldable pub run :
    Bool
    → (UnitConfig → Runtime → Runtime × Result UnitResult)
    → String
    → String
    → ℤ
    → ℤ
    → List UnitConfig
    → Runtime
    → Runtime × Result JobHandle
unfolding start run_units finish stop
run wired runner id goal now later units r =
    if not wired && not (is_empty units)
    then (stop id (start id goal now r), err unavailable)
    else finish_if_ok id later (run_units id runner units no_progress (start id goal now r))
