-- ===== src/Setup/Plan/Linked.antt =====
-- The desired changes of src/setup/plan/mod.rs, by the ways in which they are made.
use styrn.Common.{◌≡◌, Bool, true, String, eq_iff, ok, arith}
use styrn.Setup.Plan.Defs.{
  plain, PlanOperation, create, reconfigure, done, needs_human, skipped, remove, DesiredAction,
  ExceptionalObservation, is_absent, human_required, is_healthy, DesiredBehavior, converge,
  exceptional, adopt_or_defer, DesiredChange,
}
use styrn.Setup.Plan.Desired.{
  change_adopt_or_defer, change_converge, change_exceptional, change_needs_human, change_skipped,
  change_remove,
}

-- The action is about the subject and does the operation.
abbrev pub IsFor : String → PlanOperation → DesiredAction → Type 0
IsFor subject operation a = (a.subject ≡ subject) × (a.operation ≡ operation)

-- The operation of an exceptional change.
abbrev pub operation_for : ExceptionalObservation → PlanOperation
operation_for is_absent = skipped
operation_for human_required = needs_human
operation_for is_healthy = remove

abbrev pub Links : String → DesiredBehavior → Type 0
Links subject (converge creates repairs finished) =
    IsFor subject create creates × IsFor subject reconfigure repairs × IsFor subject done finished
Links subject (exceptional action required) = IsFor subject (operation_for required) action
Links subject (adopt_or_defer finished human) =
    IsFor subject done finished
    × IsFor subject needs_human human
    × (finished.privilege ≡ plain)
    × (human.privilege ≡ plain)

module _ (is_safe_text : String → Bool) where
  -- The ways in which the program makes a desired change.
  pub data Built : DesiredChange → Type 0 where
    by_converge :
        (subject component : String) (c r d : DesiredAction) (change : DesiredChange)
        → change_converge is_safe_text subject component c r d ≡ ok change
        → Built change
    by_needs_human :
        (subject component : String) (a : DesiredAction) (change : DesiredChange)
        → change_needs_human is_safe_text subject component a ≡ ok change
        → Built change
    by_skipped :
        (subject component : String) (a : DesiredAction) (change : DesiredChange)
        → change_skipped is_safe_text subject component a ≡ ok change
        → Built change
    by_remove :
        (subject component : String) (a : DesiredAction) (change : DesiredChange)
        → change_remove is_safe_text subject component a ≡ ok change
        → Built change
    by_adopt_or_defer :
        (subject component : String) (d h : DesiredAction) (change : DesiredChange)
        → change_adopt_or_defer is_safe_text subject component d h ≡ ok change
        → Built change

  exceptional-Links :
      (subject component : String) (a : DesiredAction) (required : ExceptionalObservation)
      (change : DesiredChange)
      → change_exceptional is_safe_text subject component a (operation_for required) required
        ≡ ok change
      → Links change.subject change.behavior × (is_safe_text change.component ≡ true)
  unfolding change_exceptional
  exceptional-Links subject component a is_absent change h =
      ground (arith, eq_iff a.subject subject)
  exceptional-Links subject component a human_required change h =
      ground (arith, eq_iff a.subject subject)
  exceptional-Links subject component a is_healthy change h =
      ground (arith, eq_iff a.subject subject)

  -- The actions of a change are about its subject and do what their places say, the actions of a
  -- change that adopts or defers need no privilege, and the name of the component is safe text.
  pub Built-Links :
      (change : DesiredChange)
      → Built change
      → Links change.subject change.behavior × (is_safe_text change.component ≡ true)
  unfolding change_converge change_adopt_or_defer
  Built-Links _ (by_converge s component c r d change h) =
      ground (arith, eq_iff c.subject s, eq_iff r.subject s, eq_iff d.subject s)
  Built-Links _ (by_needs_human s component a change h) =
      exceptional-Links s component a human_required change h
  Built-Links _ (by_skipped s component a change h) =
      exceptional-Links s component a is_absent change h
  Built-Links _ (by_remove s component a change h) =
      exceptional-Links s component a is_healthy change h
  Built-Links _ (by_adopt_or_defer s component d p change h) =
      ground (arith, eq_iff d.subject s, eq_iff p.subject s)
