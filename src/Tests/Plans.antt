-- ===== src/Tests/Plans.antt =====
-- Examples for the setup plan.
use styrn.Common.{
  ℕ, Distinct, ◌≡◌, ◌↔◌, refl, Bool, true, false, none, some, String, List, [], ◌∷◌, ok,
}
use styrn.Setup.Plan.Defs.{
  warning, plain, PlanOperation, create, reconfigure, done, skipped, absent, present,
  ProbeObservation, get, DesiredAction, converge, exceptional, is_absent, DesiredChange, PlanEntry,
}
use styrn.Setup.Plan.Desired.{change_converge}
use styrn.Setup.Plan.Compute.{compute, planned}
use styrn.Setup.Plan.Spec.{wanted_plan}
use styrn.Setup.Plan.Planned.{compute_iff}
use styrn.Setup.Plan.Format.{group}
use styrn.Setup.Plan.Groups.{OnePerComponent, entries_in, entries_of, group_lem}
use styrn.Setup.Pending.{PendingAction, PendingOutcome, evaluate}
use styrn.Setup.Pending.Projection.{
  Draft, as_warning, project_manifest, HoldsPending, project_manifest_iff,
}
use styrn.Setup.Pending.Reports.{IsReported, evaluate_lem}
use styrn.Setup.Plan.Linked.{Links, by_converge, Built-Links}

abbrev action : String → PlanOperation → DesiredAction
action subject operation = record {
  subject = subject;
  name = "tool.step";
  description = "install the tool";
  privilege = plain;
  operation = operation;
}

abbrev tool : DesiredChange
tool = record {
  subject = "tool.one";
  component = "tools";
  behavior =
      converge (action "tool.one" create) (action "tool.one" reconfigure) (action "tool.one" done);
}

abbrev extra : DesiredChange
extra = record {
  subject = "tool.two";
  component = "extras";
  behavior = exceptional (action "tool.two" skipped) is_absent;
}

abbrev observed : List ProbeObservation
observed =
    record { id = "tool.two"; status = absent }
    ∷ record { id = "tool.one"; status = present none false }
    ∷ []

abbrev plan : List PlanEntry
plan =
    record {
      subject = "tool.one";
      component = "tools";
      action = planned (action "tool.one" reconfigure);
    }
    ∷ record {
      subject = "tool.two";
      component = "extras";
      action = planned (action "tool.two" skipped);
    }
    ∷ []

compute_iff_example : (compute observed (tool ∷ extra ∷ []) ≡ some (ok plan)) ↔ (
    Distinct (λ c. c.subject) (tool ∷ extra ∷ [])
    × (wanted_plan observed (tool ∷ extra ∷ []) ≡ some plan))
compute_iff_example = compute_iff observed (tool ∷ extra ∷ []) plan

-- The plan is computed.
compute-plan : compute observed (tool ∷ extra ∷ []) ≡ some (ok plan)
unfolding compute get
compute-plan = refl

group_lem_example :
    OnePerComponent (group [] plan)
    × ((component : String) → entries_in component (group [] plan) ≡ entries_of component plan)
group_lem_example = group_lem plan

abbrev all_safe : String → Bool
all_safe value = true

tool_built :
    change_converge all_safe "tool.one" "tools"
      (action "tool.one" create)
      (action "tool.one" reconfigure)
      (action "tool.one" done)
    ≡ ok tool
unfolding change_converge
tool_built = refl

Built-Links_example : Links tool.subject tool.behavior × (all_safe tool.component ≡ true)
Built-Links_example = Built-Links all_safe tool (
    by_converge "tool.one" "tools" (action "tool.one" create) (action "tool.one" reconfigure)
      (action "tool.one" done) tool tool_built)

abbrev by_hand : PendingAction
by_hand = record {
  id = "macos.remote-login";
  needs_human = record { severity = warning; instructions = "turn it on"; fragment = none };
}

abbrev as_written : String → String
as_written time = time

evaluate_lem_example :
    (o : PendingOutcome) × (evaluate as_written true "2026-01-01T12:00:00Z" (by_hand ∷ []) ≡ ok o)
    × IsReported true (by_hand ∷ []) o
evaluate_lem_example = evaluate_lem as_written true "2026-01-01T12:00:00Z" (by_hand ∷ []) (refl, tt)

abbrev draft : Draft ℕ
draft = record { rest = 7; pending_actions = none }

abbrev projected_draft : Draft ℕ
projected_draft = record draft {
  pending_actions =
      some
        (record { id = "macos.remote-login"; severity = as_warning; message = "turn it on" } ∷ []);
}

project_manifest_iff_example : (project_manifest draft (by_hand ∷ []) ≡ ok projected_draft) ↔ (
    Distinct (λ p. p.id) (by_hand ∷ [])
    × (projected_draft.rest ≡ draft.rest)
    × HoldsPending (by_hand ∷ []) projected_draft.pending_actions)
project_manifest_iff_example = project_manifest_iff draft projected_draft (by_hand ∷ [])
