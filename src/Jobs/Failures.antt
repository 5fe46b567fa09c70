-- ===== src/Jobs/Failures.antt =====
-- Which error ValidateUnitMap and JobBudgets.Validate report.
use zeus_client_golang.Shared.{
  String, true, false, ◌≡◌, ◌≢◌, ◌⊎◌, ◌↔◌, inl, inr, refl, List, [], ◌∷◌, ◌++◌, arith, eq_iff, All,
  contains, Option-cases, ◌==◌, if◌then◌else◌,
}
use zeus_client_golang.Shared.Maps.{lookup, lookup-put, has}
use zeus_client_golang.Shared.Int.{pos, ◌≤ℤ◌}
use zeus_client_golang.Errors.{ok, err}
use zeus_client_golang.Jobs.{
  UnitConfig, Seen, nothing_seen, JobBudgets, validate_budgets, budget_invalid, check_session,
  check_unit, validate_from, validate_unit_map, isolation_violation,
}
use zeus_client_golang.Jobs.Isolation.{
  IsRunnable, AllApart, IsFresh, IsKnown, after, after-IsKnown, check_unit_complete, join-All,
  All-IsFresh, targeted, pinned_lem,
}

-- JobBudgets.Validate accepts exactly the budgets with at least one worker, one millisecond of
-- wall time and one wave, and refuses every other with the error 130003.
pub validate_budgets_exact :
    (b : JobBudgets)
    → ((validate_budgets b ≡ ok tt)
        ↔ ((pos 1 ≤ℤ b.max_workers) × (pos 1 ≤ℤ b.wall_ms) × (pos 1 ≤ℤ b.max_waves)))
      × ((validate_budgets b ≡ ok tt) ⊎ (validate_budgets b ≡ err budget_invalid))
unfolding validate_budgets
validate_budgets_exact b = (((λ h. ground arith), (λ h. ground arith)), ground arith)

-- What the loop keeps of a list of units.
abbrev after_all : Seen → List UnitConfig → Seen
after_all s [] = s
after_all s (u ∷ us) = after_all (after s u) us

validate_from-append :
    (s : Seen) (us rest : List UnitConfig)
    → All IsRunnable us
    → All (IsFresh s) us
    → AllApart us
    → validate_from s (us ++ rest) ≡ validate_from (after_all s us) rest
unfolding validate_from
validate_from-append s [] rest r f a = refl
validate_from-append s (u ∷ us) rest r f a =
    rw (check_unit_complete s u r.0 f.0)
      (validate_from-append (after s u) us rest r.1 (join-All s u us f.1 a.0) a.1)

after_all-IsKnown : (s : Seen) (us : List UnitConfig) → IsKnown s → IsKnown (after_all s us)
after_all-IsKnown s [] h = h
after_all-IsKnown s (u ∷ us) h = after_all-IsKnown (after s u) us (after-IsKnown s u h)

abbrev pub unit_ids : List UnitConfig → List String
unit_ids [] = []
unit_ids (u ∷ us) = u.unit_id ∷ unit_ids us

abbrev pub unit_sessions : List UnitConfig → List String
unit_sessions [] = []
unit_sessions (u ∷ us) = u.share_session_id ∷ unit_sessions us

ids-after_all :
    (s : Seen) (us : List UnitConfig) (k : String)
    → contains k s.ids ≡ false
    → contains k (unit_ids us) ≡ false
    → contains k (after_all s us).ids ≡ false
ids-after_all s [] k h g = h
ids-after_all s (u ∷ us) k h g = ids-after_all (after s u) us k (ground arith) (ground arith)

sessions-after :
    (s : Seen) (u : UnitConfig) (k : String)
    → k ≢ ""
    → has k (after s u).sessions ≡ (if u.share_session_id == k then true else has k s.sessions)
unfolding has
sessions-after s u k h = ground (
  arith,
  lookup-put u.share_session_id k u.unit_id s.sessions,
  eq_iff u.share_session_id "",
  eq_iff u.share_session_id k,
)

sessions-after_all :
    (s : Seen) (us : List UnitConfig) (k : String)
    → k ≢ ""
    → (has k s.sessions ≡ true) ⊎ (contains k (unit_sessions us) ≡ true)
    → has k (after_all s us).sessions ≡ true
sessions-after_all s [] k ne h = ground arith
sessions-after_all s (u ∷ us) k ne h =
    sessions-after_all (after s u) us k ne (ground (arith, sessions-after s u k ne))

check_unit_shared :
    (s : Seen) (u : UnitConfig)
    → IsKnown s
    → IsRunnable u
    → contains u.unit_id s.ids ≡ false
    → u.share_session_id ≢ ""
    → has u.share_session_id s.sessions ≡ true
    → check_unit s u ≡ err isolation_violation
unfolding check_unit check_session has
check_unit_shared s u known r new shared occupied =
    elim (Option-cases (lookup u.share_session_id s.sessions)) [
      | inl absent ↦ cc
      | inr (p, found) ↦ ground (
        arith,
        found,
        known u.share_session_id p found,
        eq_iff u.unit_id "",
        eq_iff u.share_session_id "",
        eq_iff p u.unit_id,
        targeted u,
        pinned_lem u,
      )
    ]

-- After a prefix of units that are runnable and pairwise apart, a runnable unit with a new id that
-- shares the non-empty durable session of an earlier unit is refused with the error 130013,
-- whatever units follow it.
pub shared_session_refused :
    (us rest : List UnitConfig) (u : UnitConfig)
    → All IsRunnable us
    → AllApart us
    → IsRunnable u
    → contains u.unit_id (unit_ids us) ≡ false
    → u.share_session_id ≢ ""
    → contains u.share_session_id (unit_sessions us) ≡ true
    → validate_unit_map (us ++ u ∷ rest) ≡ err isolation_violation
unfolding validate_unit_map
shared_session_refused [] rest u rs a r new shared seen = cc
shared_session_refused (v ∷ vs) rest u rs a r new shared seen =
    let us : List UnitConfig = v ∷ vs in
    let s = after_all nothing_seen us in
    rw (validate_from-append nothing_seen us (u ∷ rest) rs (All-IsFresh us) a) (
      unfold validate_from in
      rw (
        check_unit_shared s u (after_all-IsKnown nothing_seen us (λ k p. unfold lookup in cc)) r
          (ids-after_all nothing_seen us u.unit_id refl new) shared
          (sessions-after_all nothing_seen us u.share_session_id shared (inr seen))))
