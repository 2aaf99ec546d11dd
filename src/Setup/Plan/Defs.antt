-- ===== src/Setup/Plan/Defs.antt =====
-- The data of a setup plan: desired changes and actions of src/setup/plan/mod.rs, observations of
-- src/setup/probe_wire.rs and src/setup/probe/mod.rs, and the planned actions of
-- src/setup/action/mod.rs. The identifier of a probe, the name of an action and the name of a
-- component are the texts in them.
use styrn.Common.{Bool, Option, none, some, String, str_eq, List, [], ◌∷◌, if◌then◌else◌}

-- `Privilege`; `plain` is `Privilege::None`.
pub data Privilege : Type 0 where
  plain root admin : Privilege

pub data PlanOperation : Type 0 where
  create reconfigure done needs_human skipped remove : PlanOperation

pub data TailscaleMode : Type 0 where
  gui tailscaled service : TailscaleMode

pub record TailscalePosture : Type 0 where
  pub mode : TailscaleMode
  pub persistent : Bool
  pub unattended : Bool

pub data ProbeStatus : Type 0 where
  absent : ProbeStatus
  present : (version : Option String) (healthy : Bool) → ProbeStatus
  tailscale_present :
      (version : Option String) (healthy : Bool) (posture : TailscalePosture) → ProbeStatus
  broken : (reason : String) → ProbeStatus
  unknowable : (reason : String) → ProbeStatus

-- `ProbeObservation`, with the identifier of its descriptor.
pub record ProbeObservation : Type 0 where
  pub id : String
  pub status : ProbeStatus

-- `ObservedState::get`.
unfoldable pub get : String → List ProbeObservation → Option ProbeObservation
get id [] = none
get id (o ∷ os) = if str_eq o.id id then some o else get id os

pub record DesiredAction : Type 0 where
  pub subject : String
  pub name : String
  pub description : String
  pub privilege : Privilege
  pub operation : PlanOperation

-- `ExceptionalObservation`: `Absent`, `HumanRequired` and `Healthy`.
pub data ExceptionalObservation : Type 0 where
  is_absent human_required is_healthy : ExceptionalObservation

pub data DesiredBehavior : Type 0 where
  converge : (creates repairs finished : DesiredAction) → DesiredBehavior
  exceptional : (action : DesiredAction) (required : ExceptionalObservation) → DesiredBehavior
  adopt_or_defer : (finished human : DesiredAction) → DesiredBehavior

pub record DesiredChange : Type 0 where
  pub subject : String
  pub component : String
  pub behavior : DesiredBehavior

pub data PlanError : Type 0 where
  invalid_action invalid_component invalid_cross_link duplicate_desired_subject : PlanError
  missing_observation unknowable_observation exceptional_observation_mismatch : PlanError

pub data PendingSeverity : Type 0 where
  info warning error : PendingSeverity

-- `NeedsHuman`; its script fragment names a deferred action.
pub record NeedsHuman : Type 0 where
  pub severity : PendingSeverity
  pub instructions : String
  pub fragment : Option String

-- `ActionCheck`: `Done`, `Todo` and `NeedsHuman`.
pub data ActionCheck : Type 0 where
  is_done todo : ActionCheck
  asks_human : NeedsHuman → ActionCheck

-- `FoundationAction`, the only kind of action that a plan is computed with.
pub record FoundationAction : Type 0 where
  pub name : String
  pub description : String
  pub privilege : Privilege
  pub operation : PlanOperation
  pub check : ActionCheck

pub record PlanEntry : Type 0 where
  pub subject : String
  pub component : String
  pub action : FoundationAction
