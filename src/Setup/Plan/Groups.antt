-- ===== src/Setup/Plan/Groups.antt =====
-- The groups of `format_plan` of src/setup/plan/mod.rs, and the marks in them.
use mathlib.Core.List.{append_assoc, append-nil}
use styrn.Common.{
  ◌≡◌, ◌≢◌, sym, ap, ◌∙◌, String, str_eq, eq_iff, List, [], ◌∷◌, ◌++◌, All, arith, if◌then◌else◌,
}
use styrn.Setup.Plan.Defs.{PlanOperation, skipped, done, DesiredAction, PlanEntry}
use styrn.Setup.Plan.Desired.{same_operation}
use styrn.Setup.Plan.Compute.{planned}
use styrn.Setup.Plan.Format.{shown_operation, Group, add_to_groups, group}

-- What the first group of a component holds.
abbrev pub entries_in : String → List Group → List (PlanEntry × PlanOperation)
entries_in component [] = []
entries_in component (g ∷ gs) =
    if str_eq g.component component then g.entries else entries_in component gs

-- The entries of a component, in the order of the plan.
abbrev pub entries_of : String → List PlanEntry → List (PlanEntry × PlanOperation)
entries_of component [] = []
entries_of component (e ∷ es) =
    if str_eq e.component component
    then (e, shown_operation e) ∷ entries_of component es
    else entries_of component es

-- No two groups have one component.
abbrev pub OnePerComponent : List Group → Type 0
OnePerComponent [] = Unit
OnePerComponent (g ∷ gs) = All (λ h. h.component ≢ g.component) gs × OnePerComponent gs

entries_in-add_to_groups :
    (component : String) (e : PlanEntry) (op : PlanOperation) (gs : List Group)
    → entries_in component (add_to_groups e op gs)
      ≡ entries_in component gs ++ (if str_eq e.component component then (e, op) ∷ [] else [])
unfolding add_to_groups
entries_in-add_to_groups component e op [] = ground arith
entries_in-add_to_groups component e op (g ∷ gs) = ground (
  arith,
  entries_in-add_to_groups component e op gs,
  eq_iff g.component e.component,
  eq_iff g.component component,
  eq_iff e.component component,
  append-nil g.entries,
  append-nil (entries_in component gs),
)

not_added :
    (c : String) (e : PlanEntry) (op : PlanOperation) (gs : List Group)
    → e.component ≢ c
    → All (λ h. h.component ≢ c) gs
    → All (λ h. h.component ≢ c) (add_to_groups e op gs)
unfolding add_to_groups
not_added c e op [] ne h = (ne, tt)
not_added c e op (g ∷ gs) ne (here, later) = ground (arith, not_added c e op gs ne later)

OnePerComponent-add_to_groups :
    (e : PlanEntry) (op : PlanOperation) (gs : List Group)
    → OnePerComponent gs
    → OnePerComponent (add_to_groups e op gs)
unfolding add_to_groups
OnePerComponent-add_to_groups e op [] h = (tt, tt)
OnePerComponent-add_to_groups e op (g ∷ gs) (here, later) = ground (
  arith,
  OnePerComponent-add_to_groups e op gs later,
  not_added g.component e op gs,
  eq_iff g.component e.component,
)

entries_in-group_from :
    (component : String) (gs : List Group) (es : List PlanEntry)
    → entries_in component (group gs es) ≡ entries_in component gs ++ entries_of component es
unfolding group
entries_in-group_from component gs [] = sym (append-nil (entries_in component gs))
entries_in-group_from component gs (e ∷ es) =
    entries_in-group_from component (add_to_groups e (shown_operation e) gs) es
    ∙ ap (λ t. t ++ entries_of component es)
        (entries_in-add_to_groups component e (shown_operation e) gs)
    ∙ ground (
      arith,
      append-nil (entries_in component gs),
      append_assoc (entries_in component gs) ((e, shown_operation e) ∷ [])
          (entries_of component es),
    )

group_one_each :
    (gs : List Group) (es : List PlanEntry) → OnePerComponent gs → OnePerComponent (group gs es)
unfolding group
group_one_each gs [] h = h
group_one_each gs (e ∷ es) h =
    group_one_each (add_to_groups e (shown_operation e) gs) es
      (OnePerComponent-add_to_groups e (shown_operation e) gs h)

-- The groups of a plan have different components, and the group of a component holds the entries of
-- the component in the order of the plan, each with the operation that is shown, and nothing else.
pub group_lem :
    (es : List PlanEntry)
    → OnePerComponent (group [] es)
      × ((component : String) → entries_in component (group [] es) ≡ entries_of component es)
group_lem es = (group_one_each [] es tt, λ component. entries_in-group_from component [] es)

-- The operation that is shown for a planned action is its own, but for a skipped one, which is
-- shown as done: the mark of a skipped change is never printed.
pub shown_operation-planned :
    (subject component : String) (a : DesiredAction)
    → (shown_operation (record { subject = subject; component = component; action = planned a })
        ≡ (if same_operation a.operation skipped then done else a.operation))
unfolding planned
shown_operation-planned subject component a = ground arith
