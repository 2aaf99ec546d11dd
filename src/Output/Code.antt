-- ===== src/Output/Code.antt =====
-- `ErrorCode` of src/output/mod.rs: the stable error codes, their names and their exit statuses.
use styrn.Common.{
  ◌≡◌, ◌↔◌, refl, ap, Option, none, some, String, str_eq, eq_iff, List, [], ◌∷◌, arith,
  if◌then◌else◌,
}
use styrn.Output.Exit.{
  StyrnExit, usage, unreachable, authentication, remote_execution, resource_admission,
  capability_unavailable, protocol, partial_fleet, timeout, agent_harness, workflow, setup,
}

pub data ErrorCode : Type 0 where
  usage_invalid_argument usage_config_invalid transport_unreachable : ErrorCode
  transport_auth_failed transport_session_lost protocol_incompatible : ErrorCode
  protocol_malformed remote_execution_failed machine_manifest_invalid : ErrorCode
  resource_memory_admission_denied resource_cpu_admission_denied resource_disk_admission_denied :
      ErrorCode
  resource_heavy_exclusivity_denied resource_job_disk_limit_exceeded resource_host_disk_floor :
      ErrorCode
  capability_unsatisfied capability_substrate_unregistered job_not_found : ErrorCode
  job_timeout job_cancelled job_workflow_failed : ErrorCode
  job_supervisor_lost agent_not_found agent_harness_error : ErrorCode
  project_profile_invalid project_workflow_not_declared project_revision_unresolved : ErrorCode
  project_worktree_dirty fleet_partial internal_error : ErrorCode
  setup_probe_failed setup_plan_invalid setup_confirmation_required : ErrorCode
  setup_elevation_required setup_apply_failed setup_needs_human : ErrorCode
  setup_unsupported_os setup_receipt_conflict setup_adopt_mismatch : ErrorCode

-- `ErrorCode::ALL`.
abbrev pub all_codes : List ErrorCode
all_codes =
    usage_invalid_argument ∷ usage_config_invalid ∷ transport_unreachable ∷ transport_auth_failed
    ∷ transport_session_lost ∷ protocol_incompatible ∷ protocol_malformed ∷ remote_execution_failed
    ∷ machine_manifest_invalid ∷ resource_memory_admission_denied ∷ resource_cpu_admission_denied
    ∷ resource_disk_admission_denied ∷ resource_heavy_exclusivity_denied
    ∷ resource_job_disk_limit_exceeded ∷ resource_host_disk_floor ∷ capability_unsatisfied
    ∷ capability_substrate_unregistered ∷ job_not_found ∷ job_timeout ∷ job_cancelled
    ∷ job_workflow_failed ∷ job_supervisor_lost ∷ agent_not_found ∷ agent_harness_error
    ∷ project_profile_invalid ∷ project_workflow_not_declared ∷ project_revision_unresolved
    ∷ project_worktree_dirty ∷ fleet_partial ∷ internal_error ∷ setup_probe_failed
    ∷ setup_plan_invalid ∷ setup_confirmation_required ∷ setup_elevation_required
    ∷ setup_apply_failed ∷ setup_needs_human ∷ setup_unsupported_os ∷ setup_receipt_conflict
    ∷ setup_adopt_mismatch ∷ []

unfoldable pub as_str : ErrorCode → String
as_str usage_invalid_argument = "usage.invalid_argument"
as_str usage_config_invalid = "usage.config_invalid"
as_str transport_unreachable = "transport.unreachable"
as_str transport_auth_failed = "transport.auth_failed"
as_str transport_session_lost = "transport.session_lost"
as_str protocol_incompatible = "protocol.incompatible"
as_str protocol_malformed = "protocol.malformed"
as_str remote_execution_failed = "remote.execution_failed"
as_str machine_manifest_invalid = "machine.manifest_invalid"
as_str resource_memory_admission_denied = "resource.memory_admission_denied"
as_str resource_cpu_admission_denied = "resource.cpu_admission_denied"
as_str resource_disk_admission_denied = "resource.disk_admission_denied"
as_str resource_heavy_exclusivity_denied = "resource.heavy_exclusivity_denied"
as_str resource_job_disk_limit_exceeded = "resource.job_disk_limit_exceeded"
as_str resource_host_disk_floor = "resource.host_disk_floor"
as_str capability_unsatisfied = "capability.unsatisfied"
as_str capability_substrate_unregistered = "capability.substrate_unregistered"
as_str job_not_found = "job.not_found"
as_str job_timeout = "job.timeout"
as_str job_cancelled = "job.cancelled"
as_str job_workflow_failed = "job.workflow_failed"
as_str job_supervisor_lost = "job.supervisor_lost"
as_str agent_not_found = "agent.not_found"
as_str agent_harness_error = "agent.harness_error"
as_str project_profile_invalid = "project.profile_invalid"
as_str project_workflow_not_declared = "project.workflow_not_declared"
as_str project_revision_unresolved = "project.revision_unresolved"
as_str project_worktree_dirty = "project.worktree_dirty"
as_str fleet_partial = "fleet.partial"
as_str internal_error = "internal.error"
as_str setup_probe_failed = "setup.probe_failed"
as_str setup_plan_invalid = "setup.plan_invalid"
as_str setup_confirmation_required = "setup.confirmation_required"
as_str setup_elevation_required = "setup.elevation_required"
as_str setup_apply_failed = "setup.apply_failed"
as_str setup_needs_human = "setup.needs_human"
as_str setup_unsupported_os = "setup.unsupported_os"
as_str setup_receipt_conflict = "setup.receipt_conflict"
as_str setup_adopt_mismatch = "setup.adopt_mismatch"

unfoldable pub exit_code : ErrorCode → StyrnExit
exit_code usage_invalid_argument = usage
exit_code usage_config_invalid = usage
exit_code transport_unreachable = unreachable
exit_code transport_auth_failed = authentication
exit_code transport_session_lost = unreachable
exit_code protocol_incompatible = protocol
exit_code protocol_malformed = protocol
exit_code remote_execution_failed = remote_execution
exit_code machine_manifest_invalid = usage
exit_code resource_memory_admission_denied = resource_admission
exit_code resource_cpu_admission_denied = resource_admission
exit_code resource_disk_admission_denied = resource_admission
exit_code resource_heavy_exclusivity_denied = resource_admission
exit_code resource_job_disk_limit_exceeded = workflow
exit_code resource_host_disk_floor = workflow
exit_code capability_unsatisfied = capability_unavailable
exit_code capability_substrate_unregistered = capability_unavailable
exit_code job_not_found = usage
exit_code job_timeout = timeout
exit_code job_cancelled = workflow
exit_code job_workflow_failed = workflow
exit_code job_supervisor_lost = workflow
exit_code agent_not_found = usage
exit_code agent_harness_error = agent_harness
exit_code project_profile_invalid = usage
exit_code project_workflow_not_declared = usage
exit_code project_revision_unresolved = usage
exit_code project_worktree_dirty = usage
exit_code fleet_partial = partial_fleet
exit_code internal_error = StyrnExit.internal_error
exit_code setup_probe_failed = setup
exit_code setup_plan_invalid = setup
exit_code setup_confirmation_required = setup
exit_code setup_elevation_required = setup
exit_code setup_apply_failed = setup
exit_code setup_needs_human = setup
exit_code setup_unsupported_os = setup
exit_code setup_receipt_conflict = setup
exit_code setup_adopt_mismatch = setup

-- The `find` of `from_str`.
find_code : String → List ErrorCode → Option ErrorCode
find_code value [] = none
find_code value (c ∷ cs) = if str_eq (as_str c) value then some c else find_code value cs

unfoldable pub from_str : String → Option ErrorCode
unfolding find_code as_str
from_str value = find_code value all_codes

from_str-as_str : (c : ErrorCode) → from_str (as_str c) ≡ some c
unfolding from_str
from_str-as_str usage_invalid_argument = refl
from_str-as_str _ = refl

find_code_sound :
    (value : String) (cs : List ErrorCode) (c : ErrorCode)
    → find_code value cs ≡ some c
    → as_str c ≡ value
unfolding find_code
find_code_sound value [] c h = cc
find_code_sound value (x ∷ cs) c h =
    ground (arith, eq_iff (as_str x) value, find_code_sound value cs c)

-- A code is read back from a text exactly when the text is its name: the names are distinct, and
-- `from_str` gives nothing for every other text.
pub from_str_iff : (value : String) (c : ErrorCode) → (from_str value ≡ some c) ↔ (as_str c ≡ value)
from_str_iff value c = (
  λ h. find_code_sound value all_codes c (unfold from_str in h),
  λ h. cc (ap from_str h, from_str-as_str c),
)
