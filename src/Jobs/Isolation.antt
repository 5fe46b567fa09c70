-- ===== src/Jobs/Isolation.antt =====
-- ValidateUnitMap of domain/jobs.go against the isolation law for units that run in parallel.
use zeus_client_golang.Shared.{
  String, true, false, ◌≡◌, ◌≢◌, ◌⊎◌, ◌↔◌, inl, inr, refl, List, [], ◌∷◌, none, some, arith, eq_iff,
  All, contains, Option-cases, ◌==◌, if◌then◌else◌,
}
use zeus_client_golang.Shared.Maps.{lookup, put, lookup-put}
use zeus_client_golang.Errors.{ok, ok_of_bind}
use zeus_client_golang.Jobs.{
  UnitConfig, agent_turn, zeus_direct, Seen, nothing_seen, check_session, check_unit, validate_from,
  validate_unit_map, lacks_target, lacks_pin,
}

-- A unit that may run: it has an id, a kind that is implemented, a full target and, for an agent
-- turn, a catalog pin.
pub record IsRunnable (u : UnitConfig) : Type 0 where
  pub named : u.unit_id ≢ ""
  pub implemented : (u.kind ≡ agent_turn) ⊎ (u.kind ≡ zeus_direct)
  pub on_url : u.zeus_url ≢ ""
  pub in_bucket : u.bucket ≢ ""
  pub in_scope : u.scope ≢ ""
  pub in_collection : u.collection ≢ ""
  pub pinned :
      u.kind ≡ agent_turn → (u.base_id ≢ "") ⊎ (u.catalog_mode ≢ "") ⊎ (u.chat_request ≢ none)

-- Two units share neither an id nor a durable session.
abbrev pub IsApart : UnitConfig → UnitConfig → Type 0
IsApart u v =
    (u.unit_id ≢ v.unit_id)
    × ((u.share_session_id ≡ "") ⊎ (u.share_session_id ≢ v.share_session_id))

abbrev pub AllApart : List UnitConfig → Type 0
AllApart [] = Unit
AllApart (u ∷ us) = All (IsApart u) us × AllApart us

-- Nothing that the loop has met clashes with the unit.
abbrev pub IsFresh : Seen → UnitConfig → Type 0
IsFresh s u =
    (contains u.unit_id s.ids ≡ false)
    × ((u.share_session_id ≡ "") ⊎ (lookup u.share_session_id s.sessions ≡ none))

-- What the loop keeps of a unit.
abbrev pub after : Seen → UnitConfig → Seen
after s u = record {
  ids = u.unit_id ∷ s.ids;
  sessions =
      if u.share_session_id == "" then s.sessions else put u.share_session_id u.unit_id s.sessions;
}

-- A session's unit is one of the ids met.
abbrev pub IsKnown : Seen → Type 0
IsKnown s = (k p : String) → lookup k s.sessions ≡ some p → contains p s.ids ≡ true

pub after-IsKnown : (s : Seen) (u : UnitConfig) → IsKnown s → IsKnown (after s u)
after-IsKnown s u h k p e =
    ground (arith, h k p, lookup-put u.share_session_id k u.unit_id s.sessions, eq_iff u.unit_id p)

check_session_sound :
    (s : Seen) (u : UnitConfig) (t : Seen)
    → lookup u.share_session_id s.sessions ≢ some u.unit_id
    → check_session s u ≡ ok t
    → ((u.share_session_id ≡ "") ⊎ (lookup u.share_session_id s.sessions ≡ none))
      × (t ≡ record s {
        sessions =
            if u.share_session_id == ""
            then s.sessions
            else put u.share_session_id u.unit_id s.sessions;
      })
unfolding check_session
check_session_sound s u t h e = elim (Option-cases (lookup u.share_session_id s.sessions)) [
  | inl fresh ↦ ground (arith, fresh, eq_iff u.share_session_id "")
  | inr (prev, found) ↦ ground (arith, found, eq_iff u.share_session_id "", eq_iff prev u.unit_id)
]

check_session_complete :
    (s : Seen) (u : UnitConfig)
    → (u.share_session_id ≡ "") ⊎ (lookup u.share_session_id s.sessions ≡ none)
    → check_session s u
      ≡ ok (record s {
        sessions =
            if u.share_session_id == ""
            then s.sessions
            else put u.share_session_id u.unit_id s.sessions;
      })
unfolding check_session
check_session_complete s u h = ground (arith, eq_iff u.share_session_id "")

pub targeted :
    (u : UnitConfig)
    → (lacks_target u ≡ false)
      ↔ ((u.zeus_url ≢ "") × (u.bucket ≢ "") × (u.scope ≢ "") × (u.collection ≢ ""))
unfolding lacks_target
targeted u = (
  (λ h.
      ground (
        arith,
        eq_iff u.zeus_url "",
        eq_iff u.bucket "",
        eq_iff u.scope "",
        eq_iff u.collection "",
      )),
  (λ h.
      ground (
        arith,
        eq_iff u.zeus_url "",
        eq_iff u.bucket "",
        eq_iff u.scope "",
        eq_iff u.collection "",
      )),
)

pub pinned_lem :
    (u : UnitConfig)
    → (lacks_pin u ≡ false) ↔ ((u.base_id ≢ "") ⊎ (u.catalog_mode ≢ "") ⊎ (u.chat_request ≢ none))
unfolding lacks_pin
pinned_lem u = (
  (λ h. ground (arith, eq_iff u.base_id "", eq_iff u.catalog_mode "")),
  (λ h. ground (arith, eq_iff u.base_id "", eq_iff u.catalog_mode "")),
)

-- A unit that passes its round is runnable and fresh.
check_unit_sound :
    (s : Seen) (u : UnitConfig) (t : Seen)
    → IsKnown s
    → check_unit s u ≡ ok t
    → IsRunnable u × IsFresh s u × (t ≡ after s u)
unfolding check_unit
check_unit_sound s u t known e = ground (
  arith,
  eq_iff u.unit_id "",
  known u.share_session_id u.unit_id,
  check_session_sound (record s { ids = u.unit_id ∷ s.ids }) u t,
  targeted u,
  pinned_lem u,
)

pub check_unit_complete :
    (s : Seen) (u : UnitConfig) → IsRunnable u → IsFresh s u → check_unit s u ≡ ok (after s u)
unfolding check_unit
check_unit_complete s u r f = ground (
  arith,
  eq_iff u.unit_id "",
  eq_iff u.share_session_id "",
  targeted u,
  pinned_lem u,
  check_session_complete (record s { ids = u.unit_id ∷ s.ids }) u,
)

-- A later unit is fresh after `u` exactly if it was fresh before and is apart from `u`.
after-IsFresh : (s : Seen) (u v : UnitConfig) → IsFresh s v → IsApart u v → IsFresh (after s u) v
after-IsFresh s u v f a = ground (
  arith,
  eq_iff u.unit_id v.unit_id,
  eq_iff u.share_session_id "",
  lookup-put u.share_session_id v.share_session_id u.unit_id s.sessions,
  eq_iff u.share_session_id v.share_session_id,
)

after-IsApart : (s : Seen) (u v : UnitConfig) → IsFresh (after s u) v → IsFresh s v × IsApart u v
after-IsApart s u v f = ground (
  arith,
  eq_iff u.unit_id v.unit_id,
  eq_iff u.share_session_id "",
  lookup-put u.share_session_id v.share_session_id u.unit_id s.sessions,
  eq_iff u.share_session_id v.share_session_id,
)

split-All :
    (s : Seen) (u : UnitConfig) (us : List UnitConfig)
    → All (IsFresh (after s u)) us
    → All (IsFresh s) us × All (IsApart u) us
split-All s u [] h = (tt, tt)
split-All s u (v ∷ us) h =
    let (f, a) = after-IsApart s u v h.0 in
    let (fs, as') = split-All s u us h.1 in ((f, fs), (a, as'))

pub join-All :
    (s : Seen) (u : UnitConfig) (us : List UnitConfig)
    → All (IsFresh s) us
    → All (IsApart u) us
    → All (IsFresh (after s u)) us
join-All s u [] f a = tt
join-All s u (v ∷ us) f a = (after-IsFresh s u v f.0 a.0, join-All s u us f.1 a.1)

validate_from_sound :
    (s : Seen) (us : List UnitConfig)
    → IsKnown s
    → validate_from s us ≡ ok tt
    → All IsRunnable us × All (IsFresh s) us × AllApart us
unfolding validate_from
validate_from_sound s [] known e = (tt, tt, tt)
validate_from_sound s (u ∷ us) known e =
    let (t, passed, rest) = ok_of_bind (check_unit s u) (λ s'. validate_from s' us) tt e in
    let (runnable, fresh, kept) = check_unit_sound s u t known passed in
    let (rs, fs, apart) =
      validate_from_sound (after s u) us (after-IsKnown s u known) (rw kept at rest) in
    let (fs', apart') = split-All s u us fs in ((runnable, rs), (fresh, fs'), (apart', apart))

pub validate_from_complete :
    (s : Seen) (us : List UnitConfig)
    → All IsRunnable us
    → All (IsFresh s) us
    → AllApart us
    → validate_from s us ≡ ok tt
unfolding validate_from
validate_from_complete s [] r f a = refl
validate_from_complete s (u ∷ us) r f a =
    rw (check_unit_complete s u r.0 f.0)
      (validate_from_complete (after s u) us r.1 (join-All s u us f.1 a.0) a.1)

pub All-IsFresh : (us : List UnitConfig) → All (IsFresh nothing_seen) us
unfolding lookup
All-IsFresh [] = tt
All-IsFresh (u ∷ us) = ((refl, inr refl), All-IsFresh us)

-- ValidateUnitMap accepts a unit map if and only if it is not empty, each unit is runnable (it has
-- an id, the kind agent_turn or zeus_direct, a Zeus URL, bucket, scope and collection, and a
-- catalog pin if it is an agent turn), and no two units share an id or a non-empty durable session
-- id.
pub validate_unit_map_exact :
    (us : List UnitConfig)
    → (validate_unit_map us ≡ ok tt) ↔ ((us ≢ []) × All IsRunnable us × AllApart us)
unfolding validate_unit_map
validate_unit_map_exact [] = ((λ e. cc), (λ h. absurd (h.0 refl)))
validate_unit_map_exact (u ∷ us) = (
  (λ e.
      let (r, _, a) = validate_from_sound nothing_seen (u ∷ us) (λ k p. unfold lookup in cc) e in
      ((λ ne. cc), r, a)),
  (λ h. validate_from_complete nothing_seen (u ∷ us) h.1 (All-IsFresh (u ∷ us)) h.2),
)
