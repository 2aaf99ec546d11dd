-- ===== src/Setup/Plan/Format.antt =====
-- `format_plan` of src/setup/plan/mod.rs: the text of a plan, by components.
use Prim.Native.String
use styrn.Common.{String, str_eq, List, [], ◌∷◌, ◌++◌, if◌then◌else◌}
use styrn.Setup.Plan.Defs.{
  Privilege, plain, root, admin, PlanOperation, create, reconfigure, done, needs_human, skipped,
  remove, ActionCheck, is_done, todo, asks_human, PlanEntry,
}

abbrev pub display_operation : PlanOperation → ActionCheck → PlanOperation
display_operation desired is_done = done
display_operation desired todo = desired
display_operation desired (asks_human human) = needs_human

unfoldable pub operation_mark : PlanOperation → String
operation_mark create = "+"
operation_mark reconfigure = "~"
operation_mark done = "✓"
operation_mark needs_human = "!"
operation_mark skipped = "."
operation_mark remove = "-"

-- The operation that is shown for an entry. The check of a planned action never fails.
abbrev pub shown_operation : PlanEntry → PlanOperation
shown_operation entry = display_operation entry.action.operation entry.action.check

-- The entries of one component, each with the operation that is shown.
pub record Group : Type 0 where
  pub component : String
  pub entries : List (PlanEntry × PlanOperation)

unfoldable pub add_to_groups : PlanEntry → PlanOperation → List Group → List Group
add_to_groups entry operation [] =
    record { component = entry.component; entries = (entry, operation) ∷ [] } ∷ []
add_to_groups entry operation (g ∷ gs) =
    let later = add_to_groups entry operation gs in
    if str_eq g.component entry.component
    then record g { entries = g.entries ++ ((entry, operation) ∷ []) } ∷ gs
    else g ∷ later

-- The first loop; the first argument is `groups`.
unfoldable pub group : List Group → List PlanEntry → List Group
unfolding add_to_groups
group groups [] = groups
group groups (entry ∷ entries) = group (add_to_groups entry (shown_operation entry) groups) entries

abbrev badge : Privilege → String
badge plain = ""
badge root = " [sudo]"
badge admin = " [admin]"

abbrev pub entry_line : PlanEntry × PlanOperation → String
entry_line (entry, operation) = String.◌++◌ "  " (
    String.◌++◌ (operation_mark operation) (
      String.◌++◌ " "
        (String.◌++◌ entry.action.description (String.◌++◌ (badge entry.action.privilege) "\n"))))

abbrev entry_lines : List (PlanEntry × PlanOperation) → String
entry_lines [] = ""
entry_lines (e ∷ es) = String.◌++◌ (entry_line e) (entry_lines es)

abbrev group_lines : List Group → String
group_lines [] = ""
group_lines (g ∷ gs) =
    String.◌++◌ g.component
      (String.◌++◌ ":\n" (String.◌++◌ (entry_lines g.entries) (group_lines gs)))

unfoldable pub format_plan : List PlanEntry → String
unfolding group
format_plan entries = group_lines (group [] entries)
