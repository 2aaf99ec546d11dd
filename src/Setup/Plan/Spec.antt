-- ===== src/Setup/Plan/Spec.antt =====
-- What the plan of src/setup/plan/mod.rs should be: which action a behavior asks for in a state.
use styrn.Common.{true, false, String, Option, none, some, List, [], ◌∷◌}
use styrn.Setup.Plan.Defs.{
  ProbeStatus, absent, present, tailscale_present, broken, unknowable, ProbeObservation, get,
  DesiredAction, is_absent, human_required, is_healthy, DesiredBehavior, converge, exceptional,
  adopt_or_defer, DesiredChange, PlanEntry, PlanOperation, create, reconfigure, done, needs_human,
  skipped, remove, ActionCheck, is_done, todo, asks_human, warning,
}

-- The states that a plan tells apart.
pub data Seen : Type 0 where
  missing sound unsound failed unknown : Seen

abbrev pub seen : ProbeStatus → Seen
seen absent = missing
seen (present version true) = sound
seen (present version false) = unsound
seen (tailscale_present version true posture) = sound
seen (tailscale_present version false posture) = unsound
seen (broken reason) = failed
seen (unknowable reason) = unknown

-- The action that a behavior asks for in a state; a behavior that asks for none is refused.
abbrev pub wanted : DesiredBehavior → Seen → Option DesiredAction
wanted (converge creates repairs finished) missing = some creates
wanted (converge creates repairs finished) sound = some finished
wanted (converge creates repairs finished) unsound = some repairs
wanted (converge creates repairs finished) failed = some repairs
wanted (converge creates repairs finished) unknown = none
wanted (exceptional action is_absent) missing = some action
wanted (exceptional action is_absent) _ = none
wanted (exceptional action human_required) missing = some action
wanted (exceptional action human_required) failed = some action
wanted (exceptional action human_required) unknown = some action
wanted (exceptional action human_required) _ = none
wanted (exceptional action is_healthy) sound = some action
wanted (exceptional action is_healthy) _ = none
wanted (adopt_or_defer finished human) sound = some finished
wanted (adopt_or_defer finished human) _ = some human

-- What an action is shown to wait for: nothing where it is done or left out, a human where it says
-- so, and otherwise its turn.
abbrev pub wanted_check : PlanOperation → String → ActionCheck
wanted_check done description = is_done
wanted_check skipped description = is_done
wanted_check needs_human description =
    asks_human (record { severity = warning; instructions = description; fragment = none })
wanted_check create description = todo
wanted_check reconfigure description = todo
wanted_check remove description = todo

-- The entry of a change with an action: all that the action says of itself, for the subject and the
-- component of the change.
abbrev pub entry_with : DesiredChange → DesiredAction → PlanEntry
entry_with change action = record {
  subject = change.subject;
  component = change.component;
  action = record {
    name = action.name;
    description = action.description;
    privilege = action.privilege;
    operation = action.operation;
    check = wanted_check action.operation action.description;
  };
}

abbrev pub wanted_with : DesiredChange → Option DesiredAction → Option PlanEntry
wanted_with change none = none
wanted_with change (some action) = some (entry_with change action)

-- The entry that a change asks for, by what was observed of its subject.
abbrev pub wanted_entry : DesiredChange → Option ProbeObservation → Option PlanEntry
wanted_entry change none = none
wanted_entry change (some observation) =
    wanted_with change (wanted change.behavior (seen observation.status))

abbrev pub add_entry : Option PlanEntry → Option (List PlanEntry) → Option (List PlanEntry)
add_entry (some e) (some es) = some (e ∷ es)
add_entry _ _ = none

-- The entries that changes ask for, in their order, where every one asks for an entry.
abbrev pub wanted_plan : List ProbeObservation → List DesiredChange → Option (List PlanEntry)
wanted_plan observed [] = some []
wanted_plan observed (c ∷ cs) =
    add_entry (wanted_entry c (get c.subject observed)) (wanted_plan observed cs)
