-- ===== src/Setup/Plan/Planned.antt =====
-- `compute` of src/setup/plan/mod.rs against the plan of Spec.
use styrn.Common.{
  Fresh, Fresh-cons, Fresh-none, Distinct, Option-cases, Result-cases, ◌≡◌, ◌≢◌, ◌↔◌, ◌⊎◌, inl, inr,
  refl, true, false, Option, none, some, String, List, [], ◌∷◌, All, Result, ok, err, arith, not,
  ◌&&◌,
}
use styrn.Setup.Plan.Defs.{
  ProbeStatus, ProbeObservation, get, is_absent, human_required, is_healthy, DesiredBehavior,
  converge, exceptional, adopt_or_defer, DesiredChange, PlanError, PlanEntry, PlanOperation, create,
  reconfigure, done, needs_human, skipped, remove, DesiredAction,
}
use styrn.Setup.Plan.Compute.{
  check_observation, check_changes, entry_of, chosen_action, chosen_entry, entries, outcome,
  compute, planned, planned_check, is_unknowable, accepts_unknowable, mismatched,
}
use styrn.Setup.Plan.Spec.{seen, wanted, wanted_entry, wanted_plan, wanted_check, entry_with}

-- The checks on a status and the action that is chosen for it agree with the table.
abbrev Agrees : DesiredBehavior → ProbeStatus → Type 0
Agrees b s =
    ((is_unknowable s && not (accepts_unknowable b)) ≡ false
      → mismatched b s ≡ false
      → chosen_action b s ≡ wanted b (seen s))
    × (((is_unknowable s && not (accepts_unknowable b)) ≡ true) ⊎ (mismatched b s ≡ true)
        → wanted b (seen s) ≡ none)

agrees : (b : DesiredBehavior) (s : ProbeStatus) → Agrees b s
agrees (converge c r d) s = ground arith
agrees (exceptional action is_absent) s = ground arith
agrees (exceptional action human_required) s = ground arith
agrees (exceptional action is_healthy) s = ground arith
agrees (adopt_or_defer d h) s = ground arith

planned_check-eq :
    (operation : PlanOperation) (description : String)
    → planned_check description operation ≡ wanted_check operation description
planned_check-eq create description = refl
planned_check-eq reconfigure description = refl
planned_check-eq done description = refl
planned_check-eq needs_human description = refl
planned_check-eq skipped description = refl
planned_check-eq remove description = refl

-- The action that is planned is the one that was desired.
entry_of-eq :
    (change : DesiredChange) (action : DesiredAction)
    → entry_of change action ≡ entry_with change action
unfolding planned
entry_of-eq change action = rw (planned_check-eq action.operation action.description) refl

checked :
    (change : DesiredChange) (o : Option ProbeObservation) (entry : PlanEntry)
    → check_observation change.behavior o ≡ ok tt
    → chosen_entry change o ≡ some entry
    → wanted_entry change o ≡ some entry
unfolding check_observation
checked change none entry h k = cc
checked change (some o) entry h k = elim (Option-cases (chosen_action change.behavior o.status)) [
  | inl e ↦ absurd (ground arith)
  | inr (action, e) ↦ ground (arith, agrees change.behavior o.status, entry_of-eq change action)
]

checks :
    (change : DesiredChange) (o : Option ProbeObservation) (entry : PlanEntry)
    → wanted_entry change o ≡ some entry
    → (check_observation change.behavior o ≡ ok tt) × (chosen_entry change o ≡ some entry)
unfolding check_observation
checks change none entry h = cc
checks change (some o) entry h = elim (Option-cases (wanted change.behavior (seen o.status))) [
  | inl e ↦ absurd (ground arith)
  | inr (action, e) ↦ ground (arith, agrees change.behavior o.status, entry_of-eq change action)
]

never :
    (b : DesiredBehavior) (s : ProbeStatus)
    → (is_unknowable s && not (accepts_unknowable b)) ≡ false
    → chosen_action b s ≢ none
never (converge c r d) s h = ground arith
never (exceptional action required) s h = cc
never (adopt_or_defer d h) s k = cc

-- A change that passes the checks has an action: `unreachable!` is not reached.
chosen :
    (change : DesiredChange) (o : Option ProbeObservation)
    → check_observation change.behavior o ≡ ok tt
    → (e : PlanEntry) × (chosen_entry change o ≡ some e)
unfolding check_observation
chosen change none h = cc
chosen change (some o) h = elim (Option-cases (chosen_action change.behavior o.status)) [
  | inl nothing ↦ absurd (never change.behavior o.status (ground arith) nothing)
  | inr (a, e) ↦ (entry_of change a, rw (chosen_entry, e) refl)
]

abbrev subject_of : DesiredChange → String
subject_of c = c.subject

abbrev Checked : List ProbeObservation → List DesiredChange → Type 0
Checked observed cs = All (λ c. check_observation c.behavior (get c.subject observed) ≡ ok tt) cs

check_changes_iff :
    (subjects : List String) (observed : List ProbeObservation) (cs : List DesiredChange)
    → (check_changes subjects observed cs ≡ ok tt)
      ↔ (Fresh subject_of subjects cs × Distinct subject_of cs × Checked observed cs)
unfolding check_changes
check_changes_iff subjects observed [] = (λ h. (tt, tt, tt), λ h. refl)
check_changes_iff subjects observed (c ∷ cs) = ground (
  arith,
  check_changes_iff (c.subject ∷ subjects) observed cs,
  Fresh-cons subject_of c.subject subjects cs,
)

some_is_not_none {ℓ} : {A : Type ℓ} {a : A} → ◌≡◌ {A = Option A} none (some a) → ⊥
some_is_not_none h = cc

made_by_entries :
    (observed : List ProbeObservation) (cs : List DesiredChange)
    → Checked observed cs
    → (es : List PlanEntry) × (entries observed cs ≡ some es) × (wanted_plan observed cs ≡ some es)
unfolding entries
made_by_entries observed [] h = ([], refl, refl)
made_by_entries observed (c ∷ cs) (here, later) =
    let o = get c.subject observed in
    let (e, one) = chosen c o here in
    let (es, made, asked) = made_by_entries observed cs later in
    let same = checked c o e here one in
    (e ∷ es, ground (arith, one, made), ground (arith, same, asked))

wanted_plan-passes :
    (observed : List ProbeObservation) (cs : List DesiredChange) (es : List PlanEntry)
    → wanted_plan observed cs ≡ some es
    → Checked observed cs
wanted_plan-passes observed [] es h = tt
wanted_plan-passes observed (c ∷ cs) es h =
    elim (Option-cases (wanted_entry c (get c.subject observed))) [
      | inl nothing ↦ absurd (some_is_not_none (rw nothing at h))
      | inr (e, one) ↦ elim (Option-cases (wanted_plan observed cs)) [
        | inl nothing ↦ absurd (some_is_not_none (rw (one, nothing) at h))
        | inr (rest, more) ↦
            ((checks c (get c.subject observed) e one).0, wanted_plan-passes observed cs rest more)
      ]
    ]

-- `compute` never panics: it gives a plan or an error.
pub compute_total :
    (observed : List ProbeObservation) (changes : List DesiredChange)
    → (r : Result PlanError (List PlanEntry)) × (compute observed changes ≡ some r)
unfolding compute
compute_total observed changes = elim (Result-cases (check_changes [] observed changes)) [
  | inl passed ↦
      let (_, _, fine) = (check_changes_iff [] observed changes).0 passed in
      let (es, made, _) = made_by_entries observed changes fine in (ok es, rw (passed, made) refl)
  | inr (e, refused) ↦ (err e, rw refused refl)
]

outcome-eq-ok :
    (r : Result PlanError (Unit {0})) (made : Option (List PlanEntry)) (es : List PlanEntry)
    → outcome r made ≡ some (ok es)
    → (r ≡ ok tt) × (made ≡ some es)
outcome-eq-ok (ok x) none es h = cc
outcome-eq-ok (ok x) (some made) es h = ground arith
outcome-eq-ok (err e) made es h = cc

-- A plan is computed exactly when no two changes have one subject and every change asks for an
-- action in the state that was observed of its subject, and it holds these actions, with all that they
-- say of themselves, one for each change and in the order of the changes.
pub compute_iff :
    (observed : List ProbeObservation) (changes : List DesiredChange) (es : List PlanEntry)
    → (compute observed changes ≡ some (ok es))
      ↔ (Distinct (λ c. c.subject) changes × (wanted_plan observed changes ≡ some es))
unfolding compute
compute_iff observed changes es = (
  λ h.
      let (passed, made) =
        outcome-eq-ok (check_changes [] observed changes) (entries observed changes) es h in
      let (_, one_each, fine) = (check_changes_iff [] observed changes).0 passed in
      let (es', same, asked) = made_by_entries observed changes fine in
      (one_each, ground (arith, made, same, asked)),
  λ h.
      let fine = wanted_plan-passes observed changes es h.1 in
      let passed =
        (check_changes_iff [] observed changes).1 (Fresh-none subject_of changes, h.0, fine) in
      let (es', same, asked) = made_by_entries observed changes fine in
      rw (passed, same) (ground (arith, asked, h.1)),
)
