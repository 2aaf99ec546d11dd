-- ===== src/Setup/Plan/Compute.antt =====
-- `SetupPlan::compute` of src/setup/plan/mod.rs, and `Action::planned` of src/setup/action/mod.rs.
use styrn.Common.{
  contains, Bool, true, false, not, ◌&&◌, Option, none, some, String, List, [], ◌∷◌, Result, ok,
  err, ◌>>=◌, ◌>>◌, ok_or, refuse_if, if◌then◌else◌,
}
use styrn.Setup.Plan.Defs.{
  PlanOperation, create, reconfigure, done, needs_human, skipped, remove, ProbeStatus, absent,
  present, tailscale_present, broken, unknowable, ProbeObservation, get, DesiredAction,
  ExceptionalObservation, is_absent, human_required, is_healthy, DesiredBehavior, converge,
  exceptional, adopt_or_defer, DesiredChange, PlanError, duplicate_desired_subject,
  missing_observation, unknowable_observation, exceptional_observation_mismatch, warning,
  ActionCheck, is_done, todo, asks_human, FoundationAction, PlanEntry,
}

abbrev pub is_unknowable : ProbeStatus → Bool
is_unknowable (unknowable reason) = true
is_unknowable _ = false

abbrev pub healthy_status : ProbeStatus → Bool
healthy_status (present version healthy) = healthy
healthy_status (tailscale_present version healthy posture) = healthy
healthy_status _ = false

-- The behaviors that accept an observation that could not be made.
abbrev pub accepts_unknowable : DesiredBehavior → Bool
accepts_unknowable (exceptional action human_required) = true
accepts_unknowable (adopt_or_defer finished human) = true
accepts_unknowable _ = false

abbrev pub matches_required : ExceptionalObservation → ProbeStatus → Bool
matches_required is_absent absent = true
matches_required is_absent _ = false
matches_required human_required absent = true
matches_required human_required (broken reason) = true
matches_required human_required (unknowable reason) = true
matches_required human_required _ = false
matches_required is_healthy status = healthy_status status

abbrev pub mismatched : DesiredBehavior → ProbeStatus → Bool
mismatched (exceptional action required) status = not (matches_required required status)
mismatched _ status = false

-- The checks of the first loop on one change, whose observation is given.
unfoldable pub check_observation :
    DesiredBehavior → Option ProbeObservation → Result PlanError (Unit {0})
check_observation behavior observed = do
  observation ← ok_or observed missing_observation
  refuse_if (is_unknowable observation.status && not (accepts_unknowable behavior))
      unknowable_observation
  refuse_if (mismatched behavior observation.status) exceptional_observation_mismatch

-- The first loop; the first argument is the set `subjects`.
unfoldable pub check_changes :
    List String → List ProbeObservation → List DesiredChange → Result PlanError (Unit {0})
unfolding contains check_observation
check_changes subjects observed [] = ok tt
check_changes subjects observed (change ∷ changes) =
    let rest = check_changes (change.subject ∷ subjects) observed changes in
    do
      refuse_if (contains change.subject subjects) duplicate_desired_subject
      check_observation change.behavior (get change.subject observed)
      rest

-- `None` is `unreachable!`.
abbrev pub chosen_action : DesiredBehavior → ProbeStatus → Option DesiredAction
chosen_action (converge creates repairs finished) absent = some creates
chosen_action (converge creates repairs finished) (present version true) = some finished
chosen_action (converge creates repairs finished) (present version false) = some repairs
chosen_action (converge creates repairs finished) (tailscale_present version true posture) =
    some finished
chosen_action (converge creates repairs finished) (tailscale_present version false posture) =
    some repairs
chosen_action (converge creates repairs finished) (broken reason) = some repairs
chosen_action (converge creates repairs finished) (unknowable reason) = none
chosen_action (exceptional action required) status = some action
chosen_action (adopt_or_defer finished human) status =
    some (if healthy_status status then finished else human)

abbrev pub planned_check : String → PlanOperation → ActionCheck
planned_check description create = todo
planned_check description reconfigure = todo
planned_check description remove = todo
planned_check description done = is_done
planned_check description skipped = is_done
planned_check description needs_human =
    asks_human (record { severity = warning; instructions = description; fragment = none })

-- `DesiredAction::into_action`, which is `Action::planned`.
unfoldable pub planned : DesiredAction → FoundationAction
planned action = record {
  name = action.name;
  description = action.description;
  privilege = action.privilege;
  operation = action.operation;
  check = planned_check action.description action.operation;
}

abbrev pub entry_of : DesiredChange → DesiredAction → PlanEntry
entry_of change action = record {
  subject = change.subject;
  component = change.component;
  action = planned action;
}

-- The entry of one change; `none` is a panic of `expect` or `unreachable!`.
abbrev pub chosen_entry : DesiredChange → Option ProbeObservation → Option PlanEntry
chosen_entry change none = none
chosen_entry change (some observation) = elim (chosen_action change.behavior observation.status) [
  | none ↦ none
  | some action ↦ some (entry_of change action)
]

abbrev push_entry : Option PlanEntry → Option (List PlanEntry) → Option (List PlanEntry)
push_entry (some entry) (some entries) = some (entry ∷ entries)
push_entry _ _ = none

unfoldable pub entries : List ProbeObservation → List DesiredChange → Option (List PlanEntry)
unfolding planned
entries observed [] = some []
entries observed (change ∷ changes) =
    push_entry (chosen_entry change (get change.subject observed)) (entries observed changes)

abbrev pub outcome :
    Result PlanError (Unit {0})
    → Option (List PlanEntry)
    → Option (Result PlanError (List PlanEntry))
outcome (err e) made = some (err e)
outcome (ok _) none = none
outcome (ok _) (some made) = some (ok made)

-- `SetupPlan::compute`; `none` is a panic.
unfoldable pub compute :
    List ProbeObservation → List DesiredChange → Option (Result PlanError (List PlanEntry))
unfolding check_changes entries
compute observed changes = outcome (check_changes [] observed changes) (entries observed changes)
