-- ===== src/JobsFake/Invariant.antt =====
-- What holds of a job of the fake runtime at every moment of every interleaving.
use zeus_client_golang.Shared.{
  ℕ, suc, ◌+◌, String, Bool, true, false, ◌≡◌, ◌≢◌, ◌⊎◌, inl, inr, refl, List, [], ◌∷◌, ◌++◌, arith,
  eq_iff, eq_refl, eq_ne, if◌then◌else◌, ◌==◌, length, Bool-cases,
}
use zeus_client_golang.Shared.Maps.{lookup, lookup-put}
use zeus_client_golang.Shared.Int.{ℤ}
use zeus_client_golang.Shared.Json.{Fields, field, str, end}
use zeus_client_golang.Errors.{Result, ok, err}
use zeus_client_golang.Jobs.{UnitConfig, UnitResult}
use zeus_client_golang.JobsFake.{
  Runtime, JobEvent, JobSnapshot, Progress, emit, events_of, next_event, register, publish, stop,
  start, running_snapshot, mark_cancelled, cancelled_snapshot, is_cancelled, snap_or_zero,
  no_progress,
}
use zeus_client_golang.JobsFake.Run.{
  Phase, System, looping, flag_read, starting, in_unit, ended, ended_flag_read, decided, emitted,
  returned, advance, unit_returns, advance_phase,
}
use zeus_client_golang.JobsFake.Steps.{
  Step, Reach, own, unit_done, mark, context_done, close_flag, other_register, other_emit,
  other_publish, here, next,
}

-- The events carry the numbers n, n + 1, and so on.
abbrev pub IsConsecutive : ℕ → List JobEvent → Type 0
IsConsecutive n [] = Unit
IsConsecutive n (e ∷ es) = (e.seq ≡ n) × IsConsecutive (suc n) es

IsConsecutive-append :
    (n : ℕ) (es : List JobEvent) (e : JobEvent)
    → IsConsecutive n es
    → e.seq ≡ length es + n
    → IsConsecutive n (es ++ e ∷ [])
IsConsecutive-append n [] e h q = (omega arith, tt)
IsConsecutive-append n (x ∷ es) e h q = (h.0, IsConsecutive-append (suc n) es e h.1 (omega arith))

unfoldable pub status_of : String → Runtime → String
status_of id r = (snap_or_zero (lookup id r.snaps)).status

abbrev is_returned : Phase → Bool
is_returned (returned _) = true
is_returned _ = false

-- What holds of job `id` at every moment.
pub record Inv (id : String) (r : Runtime) : Type 0 where
  pub consecutive : IsConsecutive 1 (events_of id r)
  pub sticky : is_cancelled id r ≡ true → status_of id r ≡ "cancelled"

emit_other :
    (id j typ : String) (now : ℤ) (payload : Fields) (r : Runtime)
    → j ≢ id
    → events_of id (emit j typ now payload r) ≡ events_of id r
unfolding emit events_of
emit_other id j typ now payload r h = ground (
  arith,
  lookup-put j id (events_of j r ++ next_event j typ now payload r ∷ []) r.events,
  eq_iff j id,
)

emit_own :
    (id typ : String) (now : ℤ) (payload : Fields) (r : Runtime)
    → events_of id (emit id typ now payload r)
      ≡ events_of id r ++ next_event id typ now payload r ∷ []
unfolding emit events_of
emit_own id typ now payload r = ground (
  arith,
  lookup-put id id (events_of id r ++ next_event id typ now payload r ∷ []) r.events,
  eq_iff id id,
)

emit-Inv :
    (id j typ : String) (now : ℤ) (payload : Fields) (r : Runtime)
    → Inv id r
    → Inv id (emit j typ now payload r)
emit-Inv id j typ now payload r v = record {
  consecutive = elim (Bool-cases (j == id)) [
    | inl same ↦ rw ((eq_iff j id).0 same) (
        rw (emit_own id typ now payload r) (
          IsConsecutive-append 1 (events_of id r) (next_event id typ now payload r) v.consecutive
            (unfold next_event in refl)))
    | inr differs ↦
        rw (emit_other id j typ now payload r (ground (arith, eq_iff j id))) v.consecutive
  ];
  sticky = unfold emit is_cancelled status_of in v.sticky;
}

ne_of_eq : (j id : String) → (j == id) ≡ false → j ≢ id
ne_of_eq j id h e = ground (arith, eq_iff j id)

register_other :
    (id j : String) (r : Runtime) → (j == id) ≡ false → Inv id r → Inv id (register j r)
unfolding register is_cancelled status_of events_of
register_other id j r h v = record {
  consecutive = rw (lookup-put, h) (v.consecutive);
  sticky = λ e. ground (
    arith,
    v.sticky,
    h,
    lookup-put j id false r.flags,
    lookup-put j id (running_snapshot j) r.snaps,
  );
}

register-Inv : (id j : String) (r : Runtime) → (j ≡ id) ⊎ Inv id r → Inv id (register j r)
unfolding register is_cancelled status_of events_of
register-Inv id j r v = elim (Bool-cases (j == id)) [
  | inl same ↦ record {
    consecutive = rw ((eq_iff j id).0 same, lookup-put, eq_refl) tt;
    sticky = rw ((eq_iff j id).0 same, lookup-put, eq_refl) (λ h. cc);
  }
  | inr differs ↦
      register_other id j r differs
        (elim v [ inl same ↦ absurd (ne_of_eq j id differs same) | inr w ↦ w ])
]

abbrev published : String → String → ℕ → Progress → Runtime → JobSnapshot
published j status seq p r =
    let final : String = if is_cancelled j r then "cancelled" else status in
    record {
      job_id = j;
      status = final;
      seq = seq;
      is_partial = final == "partial";
      unit_summaries = p.summaries;
      answer = "";
    }

publish-Inv :
    (id j status : String) (seq : ℕ) (p : Progress) (r : Runtime)
    → Inv id r
    → Inv id (publish j status seq p r)
unfolding publish is_cancelled status_of events_of
publish-Inv id j status seq p r v = record {
  consecutive = v.consecutive;
  sticky = λ h.
      ground (arith, v.sticky h, eq_iff j id, lookup-put j id (published j status seq p r) r.snaps);
}

mark-Inv : (id j : String) (r : Runtime) → Inv id r → Inv id (mark_cancelled j r)
unfolding mark_cancelled is_cancelled status_of events_of
mark-Inv id j r v = record {
  consecutive = v.consecutive;
  sticky = λ h. ground (
    arith,
    v.sticky,
    eq_iff j id,
    lookup-put j id true r.flags,
    lookup-put j id (cancelled_snapshot j r) r.snaps,
  );
}

start-Inv : (id goal : String) (now : ℤ) (r : Runtime) → Inv id (start id goal now r)
unfolding start
start-Inv id goal now r =
    emit-Inv id id "job.started" now (field "goal" (str goal) end) (register id r)
      (register-Inv id id r (inl refl))

advance_phase-Inv :
    (id : String) (now : ℤ) (ph : Phase) (r : Runtime)
    → Inv id r
    → Inv id (advance_phase id now ph r).rt
unfolding advance_phase
advance_phase-Inv id now (looping [] p) r v = v
advance_phase-Inv id now (looping (u ∷ us) p) r v = v
advance_phase-Inv id now (flag_read u us p) r v = v
advance_phase-Inv id now (starting u us p) r v = v
advance_phase-Inv id now (in_unit u us p) r v = v
advance_phase-Inv id now (ended_flag_read p) r v = v
advance_phase-Inv id now (ended p) r v = v
advance_phase-Inv id now (decided p status) r v =
    emit-Inv id id "job.finished" now (field "status" (str status) end) r v
advance_phase-Inv id now (emitted p status seq) r v = publish-Inv id id status seq p r v
advance_phase-Inv id now (returned h) r v = v

stop-Inv : (id j : String) (r : Runtime) → Inv id r → Inv id (stop j r)
unfolding stop is_cancelled status_of events_of
stop-Inv id j r v = record { consecutive = v.consecutive; sticky = v.sticky }

close_flag-Inv : (id : String) (r : Runtime) → Inv id r → Inv id (record r { closed = true })
unfolding is_cancelled status_of events_of
close_flag-Inv id r v = record { consecutive = v.consecutive; sticky = v.sticky }

unit_returns-Inv :
    (id : String) (us : List UnitConfig) (p : Progress) (res : Result UnitResult) (r : Runtime)
    → Inv id r
    → Inv id (unit_returns id us p res r).rt
unfolding unit_returns
unit_returns-Inv id us p (ok u) r v = v
unit_returns-Inv id us p (err e) r v = stop-Inv id id r v

pub Step-Inv : (id : String) {s t : System} → Step id s t → Inv id s.rt → Inv id t.rt
unfolding advance
Step-Inv id (own s now) v = advance_phase-Inv id now s.phase s.rt v
Step-Inv id (unit_done s u us p res e) v = unit_returns-Inv id us p res s.rt v
Step-Inv id (mark s j c) v = mark-Inv id j s.rt v
Step-Inv id (context_done s j) v = stop-Inv id j s.rt v
Step-Inv id (close_flag s) v = close_flag-Inv id s.rt v
Step-Inv id (other_register s j ne) v = register_other id j s.rt (eq_ne j id ne) v
Step-Inv id (other_emit s j typ now payload ne) v = emit-Inv id j typ now payload s.rt v
Step-Inv id (other_publish s j status seq p ne) v = publish-Inv id j status seq p s.rt v

Reach-Inv : (id : String) {s t : System} → Inv id s.rt → Reach id s t → Inv id t.rt
Reach-Inv id v here = v
Reach-Inv id v (next r st) = Step-Inv id st (Reach-Inv id v r)

-- Where `Run` stands once the job has started.
abbrev pub started : String → String → ℤ → List UnitConfig → Runtime → System
started id goal now units r = record { rt = start id goal now r; phase = looping units no_progress }

-- At every moment of every interleaving of Run with other goroutines, the events of the started
-- job are numbered 1, 2, 3, and so on, with no gap and no repetition.
pub events-IsConsecutive :
    (id goal : String) (now : ℤ) (units : List UnitConfig) (r : Runtime) (t : System)
    → Reach id (started id goal now units r) t
    → IsConsecutive 1 (events_of id t.rt)
events-IsConsecutive id goal now units r t path =
    (Reach-Inv id (start-Inv id goal now r) path).consecutive

advance_cancelled :
    (id : String) (now : ℤ) (ph : Phase) (r : Runtime)
    → is_cancelled id r ≡ true
    → is_cancelled id (advance_phase id now ph r).rt ≡ true
unfolding advance_phase is_cancelled emit publish
advance_cancelled id now (looping [] p) r h = h
advance_cancelled id now (looping (u ∷ us) p) r h = h
advance_cancelled id now (flag_read u us p) r h = h
advance_cancelled id now (starting u us p) r h = h
advance_cancelled id now (in_unit u us p) r h = h
advance_cancelled id now (ended_flag_read p) r h = h
advance_cancelled id now (ended p) r h = h
advance_cancelled id now (decided p status) r h = h
advance_cancelled id now (emitted p status seq) r h = h
advance_cancelled id now (returned q) r h = h

-- The flag that Cancel sets is never taken back.
Step-cancelled :
    (id : String) {s t : System}
    → Step id s t
    → is_cancelled id s.rt ≡ true
    → is_cancelled id t.rt ≡ true
unfolding advance
Step-cancelled id (own s now) h = advance_cancelled id now s.phase s.rt h
Step-cancelled id (unit_done s u us p (ok v) e) h = unfold unit_returns in h
Step-cancelled id (unit_done s u us p (err v) e) h = unfold unit_returns stop is_cancelled in h
Step-cancelled id (mark s j c) h =
    unfold mark_cancelled is_cancelled in ground (arith, lookup-put j id true s.rt.flags)
Step-cancelled id (context_done s j) h = unfold stop is_cancelled in h
Step-cancelled id (close_flag s) h = unfold is_cancelled in h
Step-cancelled id (other_register s j ne) h =
    unfold register is_cancelled in ground (arith, eq_iff j id, lookup-put j id false s.rt.flags)
Step-cancelled id (other_emit s j typ now payload ne) h = unfold emit is_cancelled in h
Step-cancelled id (other_publish s j status seq p ne) h = unfold publish is_cancelled in h

Reach-cancelled :
    (id : String) {s t : System}
    → is_cancelled id s.rt ≡ true
    → Reach id s t
    → is_cancelled id t.rt ≡ true
Reach-cancelled id h here = h
Reach-cancelled id h (next r st) = Step-cancelled id st (Reach-cancelled id h r)

-- Once the cancel flag of a started job is set, which Cancel does, the snapshot of the job reads
-- "cancelled" at every later moment of every interleaving of Run with other goroutines, also after
-- Run has published its own outcome.
pub cancelled_for_good :
    (id goal : String) (now : ℤ) (units : List UnitConfig) (r : Runtime) (t u : System)
    → Reach id (started id goal now units r) t
    → is_cancelled id t.rt ≡ true
    → Reach id t u
    → status_of id u.rt ≡ "cancelled"
cancelled_for_good id goal now units r t u path h rest =
    (Reach-Inv id (Reach-Inv id (start-Inv id goal now r) path) rest).sticky
      (Reach-cancelled id h rest)

-- `Run` has read the cancel flag for a unit that it has not finished.
abbrev pub has_unit_ahead : Phase → Bool
has_unit_ahead (flag_read _ _ _) = true
has_unit_ahead (starting _ _ _) = true
has_unit_ahead (in_unit _ _ _) = true
has_unit_ahead _ = false

advance_between :
    (id : String) (now : ℤ) (ph : Phase) (r : Runtime)
    → is_cancelled id r ≡ true
    → has_unit_ahead ph ≡ false
    → has_unit_ahead (advance_phase id now ph r).phase ≡ false
unfolding advance_phase
advance_between id now (looping [] p) r h b = refl
advance_between id now (looping (u ∷ us) p) r h b = ground arith
advance_between id now (flag_read u us p) r h b = ground (arith, b)
advance_between id now (starting u us p) r h b = ground (arith, b)
advance_between id now (in_unit u us p) r h b = b
advance_between id now (ended p) r h b = ground arith
advance_between id now (ended_flag_read p) r h b = refl
advance_between id now (decided p status) r h b = refl
advance_between id now (emitted p status seq) r h b = refl
advance_between id now (returned q) r h b = refl

Step-between :
    (id : String) {s t : System}
    → Step id s t
    → is_cancelled id s.rt ≡ true
    → has_unit_ahead s.phase ≡ false
    → has_unit_ahead t.phase ≡ false
unfolding advance
Step-between id (own s now) h b = advance_between id now s.phase s.rt h b
Step-between id (unit_done s u us p (ok v) e) h b = unfold unit_returns in refl
Step-between id (unit_done s u us p (err v) e) h b = unfold unit_returns in refl
Step-between id (mark s j c) h b = b
Step-between id (context_done s j) h b = b
Step-between id (close_flag s) h b = b
Step-between id (other_register s j ne) h b = b
Step-between id (other_emit s j typ now payload ne) h b = b
Step-between id (other_publish s j status seq p ne) h b = b

-- If the cancel flag of a job is set while Run neither runs a unit nor has read the flag as clear
-- for a unit that it is about to start, then at every later moment of every interleaving Run does
-- neither, so it starts no further unit.
pub cancelled_starts_no_unit :
    (id : String) (s t : System)
    → is_cancelled id s.rt ≡ true
    → has_unit_ahead s.phase ≡ false
    → Reach id s t
    → has_unit_ahead t.phase ≡ false
cancelled_starts_no_unit id s t h b path = go path
  where
    go : {u : System} → Reach id s u → has_unit_ahead u.phase ≡ false
    go here = b
    go (next r st) = Step-between id st (Reach-cancelled id h r) (go r)
