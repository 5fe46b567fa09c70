-- ===== src/JobsFake/Steps.antt =====
-- Interleavings: one call of `Run` on the fake runtime, while other goroutines cancel jobs, close
-- the runtime and run jobs of their own.
use zeus_client_golang.Shared.{ℕ, String, true, ◌≡◌, ◌≢◌, List, contains}
use zeus_client_golang.Shared.Int.{ℤ}
use zeus_client_golang.Shared.Json.{Fields}
use zeus_client_golang.Errors.{Result}
use zeus_client_golang.Jobs.{UnitConfig, UnitResult}
use zeus_client_golang.JobsFake.{Progress, emit, register, publish, stop, mark_cancelled}
use zeus_client_golang.JobsFake.Run.{System, in_unit, advance, unit_returns}

-- One step of the system in which `Run` works on job `id`.
pub data Step (id : String) : System → System → Type 0 where
  own : (s : System) (now : ℤ) → Step id s (advance id now s)
  unit_done :
      (s : System) (u : UnitConfig) (us : List UnitConfig) (p : Progress) (res : Result UnitResult)
      → s.phase ≡ in_unit u us p
      → Step id s (unit_returns id us p res s.rt)
  mark :
      (s : System) (j : String)
      → contains j s.rt.cancels ≡ true
      → Step id s (record s { rt = mark_cancelled j s.rt })
  context_done : (s : System) (j : String) → Step id s (record s { rt = stop j s.rt })
  close_flag : (s : System) → Step id s (record s { rt = record s.rt { closed = true } })
  other_register :
      (s : System) (j : String) → j ≢ id → Step id s (record s { rt = register j s.rt })
  other_emit :
      (s : System) (j typ : String) (now : ℤ) (payload : Fields)
      → j ≢ id
      → Step id s (record s { rt = emit j typ now payload s.rt })
  other_publish :
      (s : System) (j status : String) (seq : ℕ) (p : Progress)
      → j ≢ id
      → Step id s (record s { rt = publish j status seq p s.rt })

pub data Reach (id : String) (s : System) : System → Type 0 where
  here : Reach id s s
  next : {t u : System} → Reach id s t → Step id t u → Reach id s u
