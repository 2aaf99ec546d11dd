-- ===== src/Manifest/Projection.antt =====
-- The manifest without an identifier of src/manifest/mod.rs, which setup derives for a worker, and what a
-- store asks of a manifest. What the platform tells of its accounts and directories is `HostSystem`; the
-- two kinds of a projection are one record, and the scope of the first stands apart.
pub mod Store
pub mod Same
pub mod Bound
pub mod Laws
use styrn.Common.{
  ℕ, Bool, true, false, not, ◌&&◌, ◌||◌, Option, none, some, String, str_eq, List, Result, ok, err,
  ◌>>=◌, ◌>>◌, ok_or, if◌then◌else◌,
}
use styrn.Platform.Principal.{
  WorkerAccountPolicy, WorkerIsolation, shared_user, dedicated_account, WorkerPrincipal, isolation,
}
use styrn.Manifest.Defs.{
  ManifestError, validation, Uuid, MachineRole, OperatingSystem, linux, macos, windows,
  InstallationScope, system, user, Platform, WorkerIdentityMode, WorkerIdentity, Transport, Paths,
  Controller, Worker, Resources, Scheduling, Tailscale, Ssh, Herdr, Agent, Toolchain, Cache,
  Install, Desktop, PendingAction, MachineManifest,
}
use styrn.Manifest.Validate.{
  Checked, refuse, Base64, has_role, same_isolation, same_kind, is_dedicated, is_system, is_user,
  principal_of, validate,
}

pub record MachineManifestDraft : Type 0 where
  pub schema_version : ℕ
  pub name : String
  pub roles : List MachineRole
  pub host : Platform
  pub installation : Option InstallationScope
  pub worker_identity : Option WorkerIdentity
  pub transport : Option Transport
  pub paths : Paths
  pub controller : Option Controller
  pub worker : Option Worker
  pub resources : Option Resources
  pub capabilities : Option (List (String × Bool))
  pub scheduling : Option Scheduling
  pub tailscale : Option Tailscale
  pub ssh : Option Ssh
  pub herdr : Option Herdr
  pub agents : Option (List (String × Agent))
  pub toolchains : Option (List (String × Toolchain))
  pub caches : Option (List (String × Cache))
  pub install : Option Install
  pub desktop : Option Desktop
  pub pending_actions : Option (List PendingAction)

unfoldable pub with_machine_id : MachineManifestDraft → Uuid → MachineManifest
with_machine_id draft machine_id = record {
  schema_version = draft.schema_version;
  machine_id = machine_id;
  name = draft.name;
  roles = draft.roles;
  host = draft.host;
  installation = draft.installation;
  worker_identity = draft.worker_identity;
  transport = draft.transport;
  paths = draft.paths;
  controller = draft.controller;
  worker = draft.worker;
  resources = draft.resources;
  capabilities = draft.capabilities;
  scheduling = draft.scheduling;
  tailscale = draft.tailscale;
  ssh = draft.ssh;
  herdr = draft.herdr;
  agents = draft.agents;
  toolchains = draft.toolchains;
  caches = draft.caches;
  install = draft.install;
  desktop = draft.desktop;
  pending_actions = draft.pending_actions;
}

-- `WorkerDirectoryLayout`; a path is its text, or `none` where it is no Unicode.
pub record WorkerDirectoryLayout : Type 0 where
  pub scope : InstallationScope
  pub principal : WorkerPrincipal
  pub root : Option String
  pub repos : Option String
  pub jobs : Option String
  pub cache : Option String
  pub artifacts : Option String
  pub logs : Option String

-- What the machine tells: `native_operating_system`, `verify_worker_principal`,
-- `resolve_current_worker_principal` and `resolve_worker_directory_layout`.
pub record HostSystem : Type 0 where
  pub native : OperatingSystem
  pub is_verified : WorkerPrincipal → Bool
  pub current : Option WorkerPrincipal
  pub layout : InstallationScope → WorkerPrincipal → Option WorkerDirectoryLayout

pub record WorkerManifestProjection : Type 0 where
  pub operating_system : OperatingSystem
  pub principal : WorkerPrincipal
  pub worker_identity : WorkerIdentity
  pub transport_user : String
  pub paths : Paths

abbrev pub same_os : OperatingSystem → OperatingSystem → Bool
same_os linux linux = true
same_os macos macos = true
same_os windows windows = true
same_os _ _ = false

abbrev pub same_account : WorkerAccountPolicy → WorkerAccountPolicy → Bool
same_account WorkerAccountPolicy.current_user WorkerAccountPolicy.current_user = true
same_account WorkerAccountPolicy.dedicated WorkerAccountPolicy.dedicated = true
same_account _ _ = false

abbrev pub same_principal : WorkerPrincipal → WorkerPrincipal → Bool
same_principal a b =
    same_kind a.principal_kind b.principal_kind
    && str_eq a.principal_id b.principal_id
    && str_eq a.name b.name
    && same_account a.account_policy b.account_policy

abbrev pub same_mode : WorkerIdentityMode → WorkerIdentityMode → Bool
same_mode a b = if is_dedicated a then is_dedicated b else not (is_dedicated b)

abbrev pub same_paths : Paths → Paths → Bool
same_paths a b =
    str_eq a.root b.root
    && str_eq a.repos b.repos
    && str_eq a.jobs b.jobs
    && str_eq a.cache b.cache
    && str_eq a.artifacts b.artifacts
    && str_eq a.logs b.logs

abbrev pub is_scope : InstallationScope → Option InstallationScope → Bool
is_scope scope none = false
is_scope scope (some other) = if is_system scope then is_system other else not (is_system other)

abbrev pub is_missing {ℓ} : {A : Type ℓ} → Option A → Bool
is_missing none = true
is_missing (some a) = false

-- The checks of the draft for a worker, in the scope and with the message of its kind.
abbrev pub validate_base : HostSystem → InstallationScope → String → MachineManifestDraft → Checked
validate_base host scope message base = do
  refuse (not (is_scope scope base.installation) || not (has_role MachineRole.worker base.roles))
      message
  refuse (not (same_os base.host.os host.native))
      "current-user worker manifest projection requires the native host platform"
  refuse (is_missing base.transport)
      "current-user worker manifest projection requires an existing transport"

abbrev pub user_draft_message : String
user_draft_message = "current-user worker manifest projection requires a user-scope worker draft"

unfoldable pub validate_current_user_projection_base : HostSystem → MachineManifestDraft → Checked
validate_current_user_projection_base host base = validate_base host user user_draft_message base

unfoldable pub validate_dedicated_projection_base : HostSystem → MachineManifestDraft → Checked
validate_dedicated_projection_base host base =
    validate_base host system
      "dedicated worker manifest projection requires a system-scope worker draft" base

abbrev pub current_principal_message : String
current_principal_message =
    "current-user worker manifest projection requires the current native principal"

unfoldable pub validate_current_native_principal : HostSystem → WorkerPrincipal → Checked
validate_current_native_principal host principal = do
  refuse
      (not (same_account principal.account_policy WorkerAccountPolicy.current_user)
        || not (same_isolation (isolation principal) shared_user)
        || not (host.is_verified principal))
      current_principal_message
  current ← ok_or host.current (validation current_principal_message)
  refuse (not (same_principal current principal)) current_principal_message

abbrev pub mode_of : WorkerAccountPolicy → WorkerIdentityMode
mode_of WorkerAccountPolicy.current_user = WorkerIdentityMode.current_user
mode_of WorkerAccountPolicy.dedicated = WorkerIdentityMode.dedicated

abbrev pub worker_identity_for : WorkerPrincipal → WorkerIdentity
worker_identity_for principal = record {
  mode = mode_of principal.account_policy;
  principal_kind = principal.principal_kind;
  principal_id = principal.principal_id;
  name = principal.name;
  isolation = isolation principal;
}

abbrev pub exact : Option String → Result ManifestError String
exact path =
    ok_or path (validation "worker directory paths cannot be represented exactly in the manifest")

unfoldable pub exact_manifest_paths : WorkerDirectoryLayout → Result ManifestError Paths
exact_manifest_paths layout = do
  root ← exact layout.root
  repos ← exact layout.repos
  jobs ← exact layout.jobs
  cache ← exact layout.cache
  artifacts ← exact layout.artifacts
  logs ← exact layout.logs
  ok (record {
    root = root;
    repos = repos;
    jobs = jobs;
    cache = cache;
    artifacts = artifacts;
    logs = logs;
  })

abbrev pub projected : HostSystem → WorkerPrincipal → Paths → WorkerManifestProjection
projected host principal paths = record {
  operating_system = host.native;
  principal = principal;
  worker_identity = worker_identity_for principal;
  transport_user = principal.name;
  paths = paths;
}

unfoldable pub derive_from_verified_layout :
    HostSystem
    → WorkerPrincipal
    → WorkerDirectoryLayout
    → Result ManifestError WorkerManifestProjection
unfolding exact_manifest_paths
derive_from_verified_layout host principal layout = do
  refuse (is_system layout.scope) user_draft_message
  refuse (not (same_principal layout.principal principal)) current_principal_message
  paths ← exact_manifest_paths layout
  ok (projected host principal paths)

unfoldable pub derive_current_user :
    HostSystem
    → MachineManifestDraft
    → WorkerPrincipal
    → Result ManifestError WorkerManifestProjection
unfolding validate_current_user_projection_base validate_current_native_principal
    derive_from_verified_layout
derive_current_user host base principal = do
  validate_current_user_projection_base host base
  validate_current_native_principal host principal
  layout ←
      ok_or (host.layout user principal)
        (validation "worker directory paths cannot be represented exactly in the manifest")
  derive_from_verified_layout host principal layout

abbrev pub dedicated_message : String
dedicated_message = "dedicated worker manifest principal does not match the selected account"

unfoldable pub derive_dedicated :
    HostSystem
    → WorkerPrincipal
    → WorkerDirectoryLayout
    → Result ManifestError WorkerManifestProjection
unfolding exact_manifest_paths
derive_dedicated host principal layout = do
  refuse
      (not (same_account principal.account_policy WorkerAccountPolicy.dedicated)
        || not (same_isolation (isolation principal) dedicated_account)
        || not (is_system layout.scope)
        || not (same_principal layout.principal principal))
      dedicated_message
  paths ← exact_manifest_paths layout
  ok (projected host principal paths)

-- The draft with the values of the projection, and of a transport with its user.
abbrev pub filled_with :
    InstallationScope
    → WorkerManifestProjection
    → MachineManifestDraft
    → Transport
    → MachineManifestDraft
filled_with scope projection base route = record base {
  installation = some scope;
  host = record base.host { os = projection.operating_system };
  worker_identity = some projection.worker_identity;
  transport = some (record route { user = some projection.transport_user });
  paths = projection.paths;
}

-- `none` where an `expect` panics.
unfoldable pub filled :
    InstallationScope
    → WorkerManifestProjection
    → MachineManifestDraft
    → Option MachineManifestDraft
filled scope projection base = elim base.installation [
  | none ↦ none
  | some old ↦ elim base.transport [
    | none ↦ none
    | some route ↦ some (filled_with scope projection base route)
  ]
]
