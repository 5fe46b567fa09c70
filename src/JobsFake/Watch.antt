-- ===== src/JobsFake/Watch.antt =====
-- `Watch` of adapters/jobsfake/runtime.go: a reader that has seen k events resumes after them.
use zeus_client_golang.Shared.{
  ℕ, zero, suc, ◌+◌, ◌≤◌, String, Bool, ◌≡◌, ap, refl, List, [], ◌∷◌, some, arith, select, drop,
  ltb,
}
use zeus_client_golang.Shared.Maps.{lookup}
use zeus_client_golang.Shared.Int.{ℤ}
use zeus_client_golang.Errors.{ok}
use zeus_client_golang.Jobs.{UnitConfig}
use zeus_client_golang.JobsFake.{Runtime, JobEvent, watch, events_of}
use zeus_client_golang.JobsFake.Run.{System}
use zeus_client_golang.JobsFake.Steps.{Reach}
use zeus_client_golang.JobsFake.Invariant.{IsConsecutive, started, events-IsConsecutive}

abbrev later : ℕ → JobEvent → Bool
later k e = ltb k e.seq

select_all :
    (k n : ℕ) (es : List JobEvent) → suc k ≤ n → IsConsecutive n es → select (later k) es ≡ es
select_all k n [] h c = refl
select_all k n (e ∷ es) h c = ground (arith, select_all k (suc n) es)

select-drop :
    (k n m : ℕ) (es : List JobEvent)
    → m ≡ n + k
    → IsConsecutive (suc n) es
    → select (later m) es ≡ drop k es
select-drop zero n m es q c = select_all m (suc n) es (omega arith) c
select-drop (suc k) n m [] q c = refl
select-drop (suc k) n m (e ∷ es) q c = ground (arith, select-drop k (suc n) m es)

-- At every moment of every interleaving, if the runtime holds the events es of the started job,
-- Watch from k yields exactly es without its first k events, in order.
pub watch_resumes :
    (id goal : String) (now : ℤ) (units : List UnitConfig) (r : Runtime) (t : System)
    (es : List JobEvent) (k : ℕ)
    → Reach id (started id goal now units r) t
    → lookup id t.rt.events ≡ some es
    → watch id k t.rt ≡ ok (drop k es)
unfolding watch events_of
watch_resumes id goal now units r t es k path found =
    let c = events-IsConsecutive id goal now units r t path in
    rw (found, watch) (ap ok (select-drop k 0 k es (omega arith) (rw found at c)))
