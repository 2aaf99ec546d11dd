-- ===== src/Manifest/Defs.antt =====
-- The types of src/manifest/mod.rs. A UUID is its version, whether its variant is that of RFC 4122,
-- and its text; a `BTreeMap` is the list of its entries in the order of their keys; an instant is
-- the text that chrono writes.
use styrn.Common.{ℕ, Bool, Option, String, List}
use styrn.Common.Int.{ℤ}
use styrn.Platform.Principal.{PrincipalKind, WorkerIsolation}

pub data ManifestError : Type 0 where
  json : ManifestError
  secret : String → String → ManifestError
  validation : String → ManifestError

pub record Uuid : Type 0 where
  pub version : ℕ
  pub is_rfc4122 : Bool
  pub hyphenated : String

pub data MachineRole : Type 0 where
  controller worker : MachineRole

pub data OperatingSystem : Type 0 where
  linux macos windows : OperatingSystem

pub data Architecture : Type 0 where
  x86_64 aarch64 : Architecture

pub data TransportKind : Type 0 where
  ssh : TransportKind

pub data TailscaleMode : Type 0 where
  service gui tailscaled : TailscaleMode

pub data InstallChannel : Type 0 where
  direct homebrew winget scoop chocolatey apt cargo unknown : InstallChannel

pub data PendingSeverity : Type 0 where
  info warning error : PendingSeverity

pub data WorkerIdentityMode : Type 0 where
  current_user dedicated : WorkerIdentityMode

pub data DesktopKind : Type 0 where
  rdp screen_sharing vnc none : DesktopKind

-- `InstallationScope` of src/platform/mod.rs.
pub data InstallationScope : Type 0 where
  system user : InstallationScope

pub record Platform : Type 0 where
  pub os : OperatingSystem
  pub arch : Architecture
  pub hostname : String
  pub headless : Option Bool

pub record Transport : Type 0 where
  pub kind : TransportKind
  pub host : String
  pub port : Option ℕ
  pub user : Option String

pub record Paths : Type 0 where
  pub root : String
  pub repos : String
  pub jobs : String
  pub cache : String
  pub artifacts : String
  pub logs : String

pub record Controller : Type 0 where
  pub enabled : Option Bool
  pub inventory : Option String

pub record Worker : Type 0 where
  pub enabled : Option Bool
  pub accept_jobs : Option Bool

pub record DetectedResources : Type 0 where
  pub logical_cpus : Option ℕ
  pub memory_bytes : Option ℕ
  pub disk_bytes : Option ℕ

pub record ResourcePolicy : Type 0 where
  pub reserved_memory_bytes : Option ℕ
  pub reserved_disk_bytes : Option ℕ
  pub reserved_disk_percent : Option ℕ
  pub reserved_cpus : Option ℕ
  pub max_parallel_compile_jobs : Option ℕ
  pub max_parallel_test_jobs : Option ℕ
  pub max_heavy_jobs : Option ℕ
  pub max_job_disk_bytes : Option ℕ

pub record Resources : Type 0 where
  pub detected : Option DetectedResources
  pub policy : Option ResourcePolicy

pub record Scheduling : Type 0 where
  pub priority : Option ℤ
  pub prefer_remote_workers : Option Bool

pub record Tailscale : Type 0 where
  pub installed : Option Bool
  pub mode : Option TailscaleMode
  pub unattended : Option Bool

pub record Ssh : Type 0 where
  pub installed : Option Bool
  pub server : Option Bool
  pub public_key_auth : Option Bool
  pub host_key_fingerprint : Option String

pub record Herdr : Type 0 where
  pub installed : Option Bool
  pub enabled : Option Bool
  pub session : Option String
  pub autostart : Option String

pub record Agent : Type 0 where
  pub installed : Option Bool
  pub command : Option String
  pub sandbox : Option String
  pub shell : Option String

pub record Toolchain : Type 0 where
  pub installed : Option Bool
  pub host : Option String
  pub version : Option String

pub record Cache : Type 0 where
  pub installed : Option Bool
  pub max_bytes : Option ℕ

pub record Install : Type 0 where
  pub channel : InstallChannel
  pub version : Option String
  pub installed_at : Option String

pub record Desktop : Type 0 where
  pub kind : Option DesktopKind
  pub enabled : Option Bool

pub record PendingAction : Type 0 where
  pub id : String
  pub severity : PendingSeverity
  pub message : String

pub record WorkerIdentity : Type 0 where
  pub mode : WorkerIdentityMode
  pub principal_kind : PrincipalKind
  pub principal_id : String
  pub name : String
  pub isolation : WorkerIsolation

-- `installation` is the scope, the one field of `Installation`.
pub record MachineManifest : Type 0 where
  pub schema_version : ℕ
  pub machine_id : Uuid
  pub name : String
  pub roles : List MachineRole
  pub host : Platform
  pub installation : Option InstallationScope
  pub worker_identity : Option WorkerIdentity
  pub transport : Option Transport
  pub paths : Paths
  pub controller : Option Controller
  pub worker : Option Worker
  pub resources : Option Resources
  pub capabilities : Option (List (String × Bool))
  pub scheduling : Option Scheduling
  pub tailscale : Option Tailscale
  pub ssh : Option Ssh
  pub herdr : Option Herdr
  pub agents : Option (List (String × Agent))
  pub toolchains : Option (List (String × Toolchain))
  pub caches : Option (List (String × Cache))
  pub install : Option Install
  pub desktop : Option Desktop
  pub pending_actions : Option (List PendingAction)
