-- ===== src/Manifest/Validate.antt =====
-- `MachineManifest::validate` and `to_json_value` of src/manifest/mod.rs. The base64 of the fingerprint
-- is the parameter `Base64`; in the other parameters see Scan.
pub mod Fields
pub mod Worker
pub mod Parts
pub mod Laws
use styrn.Common.{
  ℕ, suc, ◌==◌, Bool, true, false, not, ◌&&◌, ◌||◌, Option, none, some, String, str_eq, contains,
  List, [], ◌∷◌, ltb, length, any, all, is_empty, Result, ok, err, ◌>>=◌, ◌>>◌, ok_or, refuse_if,
  if◌then◌else◌,
}
use styrn.Common.Text.{codes, empty_text}
use styrn.Common.Chars.{strip_prefix, chars_eq, is_some}
use styrn.Json.Defs.{Value}
use Prim.Native.String
use styrn.Platform.Principal.{
  PrincipalKind, unix_uid, windows_sid, WorkerAccountPolicy, WorkerIsolation, shared_user,
  dedicated_account, WorkerPrincipal, WorkerPrincipal_new, isolation,
}
use styrn.Manifest.Defs.{
  ManifestError, validation, MachineRole, OperatingSystem, linux, macos, windows, InstallationScope,
  system, user, WorkerIdentityMode, WorkerIdentity, Transport, Paths, DetectedResources,
  ResourcePolicy, Resources, Ssh, PendingAction, MachineManifest,
}
use styrn.Manifest.Scan.{scan_secret_free, prune_nulls}
use styrn.Manifest.Paths.{validate_for}
use styrn.Manifest.Wire.{wire_value}

abbrev pub Checked : Type 0
Checked = Result ManifestError (Unit {0})

abbrev pub done : Checked
done = ok tt

-- `if bad { return invalid(message) }`.
abbrev pub refuse : Bool → String → Checked
refuse bad message = refuse_if bad (validation message)

abbrev pub non_empty : String → String → Checked
non_empty name value = refuse (empty_text value) (String.◌++◌ name " must not be empty")

abbrev pub same_role : MachineRole → MachineRole → Bool
same_role MachineRole.controller MachineRole.controller = true
same_role MachineRole.worker MachineRole.worker = true
same_role _ _ = false

abbrev pub has_role : MachineRole → List MachineRole → Bool
has_role role roles = any (same_role role) roles

-- How often a role is in the list.
unfoldable pub count_role : MachineRole → List MachineRole → ℕ
count_role role [] = 0
count_role role (r ∷ roles) =
    let rest = count_role role roles in if same_role r role then suc rest else rest

abbrev pub repeats_role : List MachineRole → MachineRole → Bool
repeats_role roles role = ltb 1 (count_role role roles)

abbrev pub policy_of : WorkerIdentityMode → WorkerAccountPolicy
policy_of WorkerIdentityMode.current_user = WorkerAccountPolicy.current_user
policy_of WorkerIdentityMode.dedicated = WorkerAccountPolicy.dedicated

abbrev pub same_isolation : WorkerIsolation → WorkerIsolation → Bool
same_isolation shared_user shared_user = true
same_isolation dedicated_account dedicated_account = true
same_isolation _ _ = false

abbrev pub or_validation {ℓ} : {A : Type ℓ} → Result String A → Result ManifestError A
or_validation (ok a) = ok a
or_validation (err message) = err (validation message)

abbrev pub policy_message : String
policy_message = "worker_identity mode and isolation must describe the same account policy"

-- `WorkerIdentity::principal`.
unfoldable pub principal_of : WorkerIdentity → Result ManifestError WorkerPrincipal
unfolding WorkerPrincipal_new
principal_of identity = do
  principal ← or_validation (
      WorkerPrincipal_new identity.principal_kind identity.principal_id identity.name
        (policy_of identity.mode))
  refuse (not (same_isolation (isolation principal) identity.isolation)) policy_message
  ok principal

abbrev pub same_kind : PrincipalKind → PrincipalKind → Bool
same_kind unix_uid unix_uid = true
same_kind windows_sid windows_sid = true
same_kind _ _ = false

abbrev pub expected_kind : OperatingSystem → PrincipalKind
expected_kind windows = windows_sid
expected_kind _ = unix_uid

abbrev pub same_policy : WorkerIdentityMode → WorkerIsolation → Bool
same_policy WorkerIdentityMode.current_user shared_user = true
same_policy WorkerIdentityMode.dedicated dedicated_account = true
same_policy _ _ = false

abbrev pub is_dedicated : WorkerIdentityMode → Bool
is_dedicated WorkerIdentityMode.dedicated = true
is_dedicated _ = false

abbrev pub is_system : InstallationScope → Bool
is_system system = true
is_system _ = false

-- `transport.user.as_deref() == Some(name)`.
abbrev pub is_user : String → Option String → Bool
is_user name none = false
is_user name (some other) = str_eq other name

-- The checks of a worker's identity.
unfoldable pub check_identity :
    OperatingSystem → InstallationScope → Option Transport → WorkerIdentity → Checked
unfolding principal_of
check_identity os scope transport identity = do
  principal ← principal_of identity
  refuse (not (same_kind principal.principal_kind (expected_kind os)))
      "worker_identity.principal_kind does not match platform.os"
  refuse (not (same_policy identity.mode identity.isolation)) policy_message
  refuse (is_dedicated identity.mode && not (is_system scope))
      "dedicated worker identity requires system installation scope"
  refuse (not (is_system scope) && is_dedicated identity.mode)
      "user installation scope requires current-user worker identity"
  route ← ok_or transport (validation "transport is required when roles contains worker")
  refuse (not (is_user principal.name route.user)) "transport.user must equal worker_identity.name"

unfoldable pub check_worker : MachineManifest → InstallationScope → Checked
unfolding check_identity
check_worker m scope =
    if has_role MachineRole.worker m.roles
    then (ok_or m.worker_identity
          (validation "worker_identity is required when roles contains worker")
        >>= check_identity m.host.os scope m.transport)
    else refuse (is_some m.worker_identity) "worker_identity requires a worker role"

abbrev pub check_path_names : Paths → Checked
check_path_names paths = do
  non_empty "paths.root" paths.root
  non_empty "paths.repos" paths.repos
  non_empty "paths.jobs" paths.jobs
  non_empty "paths.cache" paths.cache
  non_empty "paths.artifacts" paths.artifacts
  non_empty "paths.logs" paths.logs

abbrev pub is_zero : Option ℕ → Bool
is_zero none = false
is_zero (some n) = n == 0

abbrev pub check_transport : Option Transport → Checked
check_transport none = done
check_transport (some transport) = do
  non_empty "transport.host" transport.host
  refuse (is_zero transport.port) "transport.port must be in 1..=65535"
  elim transport.user [ none ↦ done | some name ↦ non_empty "transport.user" name ]

-- `STANDARD_NO_PAD` of the crate base64: the bytes of a text, and the text of bytes.
pub record Base64 : Type 0 where
  pub decode : List ℕ → Option (List ℕ)
  pub encode : List ℕ → List ℕ

abbrev fingerprint_message : String
fingerprint_message = "ssh.host_key_fingerprint must be a canonical SHA256 fingerprint"

module _ (base64 : Base64) where
  unfoldable pub check_fingerprint : String → Checked
  unfolding strip_prefix chars_eq
  check_fingerprint fingerprint = do
    encoded ←
        ok_or (strip_prefix (codes "SHA256:") (codes fingerprint)) (validation fingerprint_message)
    digest ← ok_or (base64.decode encoded) (validation fingerprint_message)
    refuse (not (length digest == 32) || not (chars_eq (base64.encode digest) encoded))
        fingerprint_message

  abbrev pub check_ssh : Option Ssh → Checked
  check_ssh none = done
  check_ssh (some ssh) = elim ssh.host_key_fingerprint [
    | none ↦ done
    | some text ↦ check_fingerprint text
  ]

abbrev pub check_detected : Option DetectedResources → Checked
check_detected none = done
check_detected (some detected) =
    refuse (is_zero detected.logical_cpus) "resources.detected.logical_cpus must be at least 1"

abbrev pub same_bool : Bool → Bool → Bool
same_bool true b = b
same_bool false b = not b

abbrev pub is_above_99 : Option ℕ → Bool
is_above_99 none = false
is_above_99 (some percent) = ltb 99 percent

abbrev pub check_policy : Option ResourcePolicy → Checked
check_policy none = done
check_policy (some policy) = do
  refuse (same_bool (is_some policy.reserved_disk_bytes) (is_some policy.reserved_disk_percent))
      "resources.policy requires exactly one disk reserve selector"
  refuse (is_above_99 policy.reserved_disk_percent)
      "resources.policy.reserved_disk_percent must be in 0..=99"
  refuse (is_zero policy.max_parallel_compile_jobs)
      "resources.policy.max_parallel_compile_jobs must be at least 1"
  refuse (is_zero policy.max_parallel_test_jobs)
      "resources.policy.max_parallel_test_jobs must be at least 1"
  refuse (is_zero policy.max_heavy_jobs) "resources.policy.max_heavy_jobs must be at least 1"

abbrev pub check_resources : Option Resources → Checked
check_resources none = done
check_resources (some resources) =
    check_detected resources.detected >> check_policy resources.policy

-- The loop over the actions; the first argument is `ids`.
unfoldable pub check_actions : List String → List PendingAction → Checked
unfolding contains
check_actions ids [] = done
check_actions ids (action ∷ actions) = do
  non_empty "pending_actions.id" action.id
  non_empty "pending_actions.message" action.message
  refuse (contains action.id ids) "pending action identifiers must be unique"
  check_actions (action.id ∷ ids) actions

abbrev pub check_pending : Option (List PendingAction) → Checked
check_pending none = done
check_pending (some actions) = check_actions [] actions

module _ (base64 : Base64) (is_object_header : List ℕ → Bool) (quote : String → String) where
  -- What follows once the scope is known.
  unfoldable pub validate_within : MachineManifest → InstallationScope → Checked
  unfolding check_worker count_role validate_for check_fingerprint check_actions scan_secret_free
      wire_value
  validate_within m scope = do
    non_empty "name" m.name
    refuse (is_empty m.roles) "roles must not be empty"
    refuse (any (repeats_role m.roles) m.roles) "roles must be unique"
    check_worker m scope
    non_empty "platform.hostname" m.host.hostname
    check_path_names m.paths
    validate_for m.paths m.host.os scope
    check_transport m.transport
    check_ssh base64 m.ssh
    check_resources m.resources
    check_pending m.pending_actions
    scan_secret_free is_object_header quote (wire_value m) "$"

  unfoldable pub validate : MachineManifest → Checked
  unfolding validate_within
  validate m = do
    refuse (not (m.schema_version == 1)) "schema_version must be 1"
    refuse (not (m.machine_id.version == 7) || not m.machine_id.is_rfc4122)
        "machine_id must be an RFC UUIDv7"
    scope ← ok_or m.installation (validation "installation is required")
    validate_within m scope

module _ (is_object_header : List ℕ → Bool) (quote : String → String) where
  unfoldable pub to_json_value : MachineManifest → Result ManifestError Value
  unfolding scan_secret_free wire_value prune_nulls
  to_json_value m = do
    scan_secret_free is_object_header quote (wire_value m) "$"
    ok (prune_nulls (wire_value m))
