-- ===== src/Setup/Plan/Desired.antt =====
-- How desired actions and changes are made: `DesiredAction::new` and the constructors of
-- `DesiredChange` of src/setup/plan/mod.rs. The check of static texts is the parameter
-- `is_safe_text`.
use styrn.Common.{
  ℕ, Bool, true, false, not, ◌&&◌, ◌||◌, String, str_eq, List, [], ◌∷◌, all, any, ◌==◌, Result, ok,
  err, ◌>>=◌, ◌>>◌, refuse_if, if◌then◌else◌,
}
use styrn.Common.Text.{codes, is_lower, is_digit, split}
use styrn.Setup.Plan.Defs.{
  Privilege, plain, root, admin, PlanOperation, create, reconfigure, done, needs_human, skipped,
  remove, DesiredAction, ExceptionalObservation, is_absent, human_required, is_healthy, converge,
  exceptional, adopt_or_defer, DesiredChange, PlanError, invalid_action, invalid_component,
  invalid_cross_link,
}

-- Whether the last character is not a dash.
abbrev no_dash_end : List ℕ → Bool
no_dash_end [] = true
no_dash_end (c ∷ []) = not (c == b'-')
no_dash_end (c ∷ d ∷ cs) = no_dash_end (d ∷ cs)

abbrev pub valid_action_name_segment : List ℕ → Bool
valid_action_name_segment [] = false
valid_action_name_segment (c ∷ cs) =
    is_lower c && no_dash_end (c ∷ cs) && all (λ d. is_lower d || is_digit d || d == b'-') cs

-- `value.split('.').count() >= 2`.
abbrev two_or_more : List (List ℕ) → Bool
two_or_more (first ∷ second ∷ more) = true
two_or_more _ = false

unfoldable pub valid_action_name : String → Bool
unfolding split
valid_action_name value =
    let segments = split b'.' (codes value) in
    two_or_more segments && all valid_action_name_segment segments

abbrev pub same_operation : PlanOperation → PlanOperation → Bool
same_operation create create = true
same_operation reconfigure reconfigure = true
same_operation done done = true
same_operation needs_human needs_human = true
same_operation skipped skipped = true
same_operation remove remove = true
same_operation _ _ = false

abbrev pub unprivileged : Privilege → Bool
unprivileged plain = true
unprivileged root = false
unprivileged admin = false

module _ (is_safe_text : String → Bool) where
  unfoldable pub DesiredAction_new :
      String → String → String → Privilege → PlanOperation → Result PlanError DesiredAction
  DesiredAction_new subject name description privilege operation = do
    refuse_if (not (valid_action_name name && is_safe_text name)) invalid_action
    refuse_if (not (is_safe_text description)) invalid_action
    ok (record {
      subject = subject;
      name = name;
      description = description;
      privilege = privilege;
      operation = operation;
    })

  -- `ComponentName::parse`.
  abbrev pub parse_component : String → Result PlanError String
  parse_component value = if is_safe_text value then ok value else err invalid_component

  abbrev pub is_foreign : String → DesiredAction → Bool
  is_foreign subject action = not (str_eq action.subject subject)

  unfoldable pub change_adopt_or_defer :
      String → String → DesiredAction → DesiredAction → Result PlanError DesiredChange
  change_adopt_or_defer subject component finished human = do
    refuse_if
        (any (λ a. is_foreign subject a || not (unprivileged a.privilege)) (finished ∷ human ∷ [])
          || not (same_operation finished.operation done)
          || not (same_operation human.operation needs_human))
        invalid_cross_link
    name ← parse_component component
    ok (record { subject = subject; component = name; behavior = adopt_or_defer finished human })

  unfoldable pub change_converge :
      String
      → String
      → DesiredAction
      → DesiredAction
      → DesiredAction
      → Result PlanError DesiredChange
  change_converge subject component creates repairs finished = do
    name ← parse_component component
    refuse_if
        (any (is_foreign subject) (creates ∷ repairs ∷ finished ∷ [])
          || not (same_operation creates.operation create)
          || not (same_operation repairs.operation reconfigure)
          || not (same_operation finished.operation done))
        invalid_cross_link
    ok (record {
      subject = subject;
      component = name;
      behavior = converge creates repairs finished;
    })

  unfoldable pub change_exceptional :
      String
      → String
      → DesiredAction
      → PlanOperation
      → ExceptionalObservation
      → Result PlanError DesiredChange
  change_exceptional subject component action expected required = do
    refuse_if (is_foreign subject action || not (same_operation action.operation expected))
        invalid_cross_link
    name ← parse_component component
    ok (record { subject = subject; component = name; behavior = exceptional action required })

  abbrev pub change_needs_human : String → String → DesiredAction → Result PlanError DesiredChange
  change_needs_human subject component action =
      change_exceptional subject component action needs_human human_required

  abbrev pub change_skipped : String → String → DesiredAction → Result PlanError DesiredChange
  change_skipped subject component action =
      change_exceptional subject component action skipped is_absent

  abbrev pub change_remove : String → String → DesiredAction → Result PlanError DesiredChange
  change_remove subject component action =
      change_exceptional subject component action remove is_healthy
