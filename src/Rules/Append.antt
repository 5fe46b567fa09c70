-- ===== src/Rules/Append.antt =====
-- AppendSessionRules and FreezeSessionRules of domain/rules.go: rules are only added mid-session.
use zeus_client_golang.Shared.{
  String, ◌≡◌, ◌≢◌, [], ◌∷◌, some, arith, eq_iff, if◌then◌else◌, Option-cases, inl, inr,
}
use zeus_client_golang.Shared.Maps.{Dict, lookup, put, put_all, or_else, lookup-put, lookup-put_all}
use zeus_client_golang.Errors.{Error, Result, ok, err, ok_of_bind, Result-cases}
use zeus_client_golang.Rules.{append_rules, append_session_rules, differs, already_frozen}

abbrev write_new : String → String → Dict String → Result (Dict String)
write_new k v rest = if differs (lookup k rest) v then err (already_frozen k) else ok (put k v rest)

append_rules_lem :
    (add frozen out : Dict String) (k : String)
    → append_rules add frozen ≡ ok out
    → lookup k out ≡ or_else (lookup k frozen) (lookup k add)
unfolding append_rules lookup
append_rules_lem [] frozen out k h = ground arith
append_rules_lem ((j, v) ∷ add) frozen out k h =
    let (rest, first, last) = ok_of_bind (append_rules add frozen) (write_new j v) out h in
    let below = append_rules_lem add frozen rest k first in
    elim (Option-cases (lookup j rest)) [
      | inl fresh ↦ ground (arith, below, last, fresh, lookup-put j k v rest, eq_iff j k)
      | inr (prev, found) ↦
          ground (arith, below, last, found, lookup-put j k v rest, eq_iff j k, eq_iff prev v)
    ]

append_rules_added :
    (add frozen out : Dict String) (k : String)
    → append_rules add frozen ≡ ok out
    → lookup k out ≡ or_else (lookup k add) (lookup k frozen)
unfolding append_rules lookup
append_rules_added [] frozen out k h = ground arith
append_rules_added ((j, v) ∷ add) frozen out k h =
    let (rest, first, last) = ok_of_bind (append_rules add frozen) (write_new j v) out h in
    ground
      (arith, append_rules_added add frozen rest k first, last, lookup-put j k v rest, eq_iff j k)

-- If AppendSessionRules succeeds, its result holds at every key the frozen text, or the added one
-- where there is none, and equally the added text, or the frozen one where there is none: nothing
-- frozen is lost or changed, and every addition is there.
pub append_session_rules_exact :
    (frozen additions out : Dict String) (k : String)
    → append_session_rules frozen additions ≡ ok out
    → (lookup k out ≡ or_else (lookup k frozen) (lookup k additions))
      × (lookup k out ≡ or_else (lookup k additions) (lookup k frozen))
unfolding append_session_rules lookup
append_session_rules_exact frozen additions out k h = ground (
  arith,
  append_rules_lem additions (put_all frozen []) out k h,
  append_rules_added additions (put_all frozen []) out k h,
  lookup-put_all k frozen [],
)

-- AppendSessionRules fails when an added rule has the key of a frozen rule and another text.
pub append_session_rules_conflict :
    (frozen additions : Dict String) (k prev v : String)
    → lookup k frozen ≡ some prev
    → lookup k additions ≡ some v
    → prev ≢ v
    → (e : Error) × (append_session_rules frozen additions ≡ err e)
append_session_rules_conflict frozen additions k prev v kept new ne =
    elim (Result-cases (append_session_rules frozen additions)) [
      | inl (out, done) ↦
          absurd
            (ne (ground (arith, append_session_rules_exact frozen additions out k done, kept, new)))
      | inr failed ↦ failed
    ]
