-- ===== src/Manifest/Wire.antt =====
-- How src/manifest/mod.rs writes a manifest as JSON: the derived `Serialize` of its types. A field that is
-- `None` is null, or is left out where the type says so.
use styrn.Common.{ℕ, Option, some, String, List, [], ◌∷◌}
use styrn.Common.Int.{ℤ, pos, negsuc}
use styrn.Json.Defs.{
  Value, null, bool, number, text, array, object, Items, nil, cons, Fields, end, field, pos_int,
  neg_int,
}
use styrn.Platform.Principal.{PrincipalKind, WorkerIsolation}
use styrn.Manifest.Defs.{
  MachineManifest, MachineRole, OperatingSystem, Architecture, TransportKind, TailscaleMode,
  InstallChannel, PendingSeverity, WorkerIdentityMode, InstallationScope, DesktopKind, Platform,
  Transport, Paths, Controller, Worker, DetectedResources, ResourcePolicy, Resources, Scheduling,
  Tailscale, Ssh, Herdr, Agent, Toolchain, Cache, Install, Desktop, PendingAction, WorkerIdentity,
}

abbrev pub or_null {ℓ} : {A : Type ℓ} → (A → Value) → Option A → Value
or_null write Option.none = null
or_null write (some a) = write a

abbrev pub unless_none {ℓ} : {A : Type ℓ} → String → (A → Value) → Option A → Fields → Fields
unless_none key write Option.none rest = rest
unless_none key write (some a) rest = field key (write a) rest

abbrev count : ℕ → Value
count n = number (pos_int n)

abbrev int_value : ℤ → Value
int_value (pos n) = number (pos_int n)
int_value (negsuc n) = number (neg_int n)

pub items_of {ℓ} : {A : Type ℓ} → (A → Value) → List A → Items
items_of write [] = nil
items_of write (x ∷ xs) = cons (write x) (items_of write xs)

pub fields_of {ℓ} : {A : Type ℓ} → (A → Value) → List (String × A) → Fields
fields_of write [] = end
fields_of write ((key, x) ∷ xs) = field key (write x) (fields_of write xs)

abbrev map_value {ℓ} : {A : Type ℓ} → (A → Value) → List (String × A) → Value
map_value write xs = object (fields_of write xs)

abbrev pub role_text : MachineRole → Value
role_text MachineRole.controller = text "controller"
role_text MachineRole.worker = text "worker"

abbrev pub os_text : OperatingSystem → Value
os_text OperatingSystem.linux = text "linux"
os_text OperatingSystem.macos = text "macos"
os_text OperatingSystem.windows = text "windows"

abbrev pub arch_text : Architecture → Value
arch_text Architecture.x86_64 = text "x86_64"
arch_text Architecture.aarch64 = text "aarch64"

abbrev pub transport_text : TransportKind → Value
transport_text TransportKind.ssh = text "ssh"

abbrev pub tailscale_text : TailscaleMode → Value
tailscale_text TailscaleMode.service = text "service"
tailscale_text TailscaleMode.gui = text "gui"
tailscale_text TailscaleMode.tailscaled = text "tailscaled"

abbrev pub channel_text : InstallChannel → Value
channel_text InstallChannel.direct = text "direct"
channel_text InstallChannel.homebrew = text "homebrew"
channel_text InstallChannel.winget = text "winget"
channel_text InstallChannel.scoop = text "scoop"
channel_text InstallChannel.chocolatey = text "chocolatey"
channel_text InstallChannel.apt = text "apt"
channel_text InstallChannel.cargo = text "cargo"
channel_text InstallChannel.unknown = text "unknown"

abbrev pub severity_text : PendingSeverity → Value
severity_text PendingSeverity.info = text "info"
severity_text PendingSeverity.warning = text "warning"
severity_text PendingSeverity.error = text "error"

abbrev pub mode_text : WorkerIdentityMode → Value
mode_text WorkerIdentityMode.current_user = text "current-user"
mode_text WorkerIdentityMode.dedicated = text "dedicated"

abbrev pub kind_text : PrincipalKind → Value
kind_text PrincipalKind.unix_uid = text "unix-uid"
kind_text PrincipalKind.windows_sid = text "windows-sid"

abbrev pub isolation_text : WorkerIsolation → Value
isolation_text WorkerIsolation.shared_user = text "shared-user"
isolation_text WorkerIsolation.dedicated_account = text "dedicated-account"

abbrev pub scope_text : InstallationScope → Value
scope_text InstallationScope.user = text "user"
scope_text InstallationScope.system = text "system"

abbrev pub desktop_text : DesktopKind → Value
desktop_text DesktopKind.rdp = text "rdp"
desktop_text DesktopKind.screen_sharing = text "screen-sharing"
desktop_text DesktopKind.vnc = text "vnc"
desktop_text DesktopKind.none = text "none"

pub platform_value : Platform → Value
platform_value r = object (
    field "os" (os_text r.os) (
      field "arch" (arch_text r.arch)
        (field "hostname" (text r.hostname) (field "headless" (or_null bool r.headless) end))))

pub transport_value : Transport → Value
transport_value r = object (
    field "kind" (transport_text r.kind) (
      field "host" (text r.host)
        (field "port" (or_null count r.port) (field "user" (or_null text r.user) end))))

pub paths_value : Paths → Value
paths_value r = object (
    field "root" (text r.root) (
      field "repos" (text r.repos) (
        field "jobs" (text r.jobs) (
          field "cache" (text r.cache)
            (field "artifacts" (text r.artifacts) (field "logs" (text r.logs) end))))))

pub controller_value : Controller → Value
controller_value r =
    object
      (field "enabled" (or_null bool r.enabled) (field "inventory" (or_null text r.inventory) end))

pub worker_value : Worker → Value
worker_value r = object (
    field "enabled" (or_null bool r.enabled) (field "accept_jobs" (or_null bool r.accept_jobs) end))

pub detected_value : DetectedResources → Value
detected_value r = object (
    field "logical_cpus" (or_null count r.logical_cpus) (
      field "memory_bytes" (or_null count r.memory_bytes)
        (field "disk_bytes" (or_null count r.disk_bytes) end)))

pub policy_value : ResourcePolicy → Value
policy_value r = object (
    field "reserved_memory_bytes" (or_null count r.reserved_memory_bytes) (
      field "reserved_disk_bytes" (or_null count r.reserved_disk_bytes) (
        field "reserved_disk_percent" (or_null count r.reserved_disk_percent) (
          field "reserved_cpus" (or_null count r.reserved_cpus) (
            field "max_parallel_compile_jobs" (or_null count r.max_parallel_compile_jobs) (
              field "max_parallel_test_jobs" (or_null count r.max_parallel_test_jobs) (
                field "max_heavy_jobs" (or_null count r.max_heavy_jobs)
                  (field "max_job_disk_bytes" (or_null count r.max_job_disk_bytes) end))))))))

pub resources_value : Resources → Value
resources_value r = object (
    field "detected" (or_null detected_value r.detected)
      (field "policy" (or_null policy_value r.policy) end))

pub scheduling_value : Scheduling → Value
scheduling_value r = object (
    field "priority" (or_null int_value r.priority)
      (field "prefer_remote_workers" (or_null bool r.prefer_remote_workers) end))

pub tailscale_value : Tailscale → Value
tailscale_value r = object (
    field "installed" (or_null bool r.installed) (
      field "mode" (or_null tailscale_text r.mode)
        (field "unattended" (or_null bool r.unattended) end)))

pub ssh_value : Ssh → Value
ssh_value r = object (
    field "installed" (or_null bool r.installed) (
      field "server" (or_null bool r.server) (
        field "public_key_auth" (or_null bool r.public_key_auth)
          (field "host_key_fingerprint" (or_null text r.host_key_fingerprint) end))))

pub herdr_value : Herdr → Value
herdr_value r = object (
    field "installed" (or_null bool r.installed) (
      field "enabled" (or_null bool r.enabled) (
        field "session" (or_null text r.session)
          (field "autostart" (or_null text r.autostart) end))))

pub agent_value : Agent → Value
agent_value r = object (
    field "installed" (or_null bool r.installed) (
      field "command" (or_null text r.command)
        (field "sandbox" (or_null text r.sandbox) (field "shell" (or_null text r.shell) end))))

pub toolchain_value : Toolchain → Value
toolchain_value r = object (
    field "installed" (or_null bool r.installed)
      (field "host" (or_null text r.host) (field "version" (or_null text r.version) end)))

pub cache_value : Cache → Value
cache_value r = object (
    field "installed" (or_null bool r.installed)
      (field "max_bytes" (or_null count r.max_bytes) end))

pub install_value : Install → Value
install_value r = object (
    field "channel" (channel_text r.channel) (
      field "version" (or_null text r.version)
        (field "installed_at" (or_null text r.installed_at) end)))

pub desktop_value : Desktop → Value
desktop_value r =
    object
      (field "kind" (or_null desktop_text r.kind) (field "enabled" (or_null bool r.enabled) end))

pub pending_value : PendingAction → Value
pending_value r = object (
    field "id" (text r.id)
      (field "severity" (severity_text r.severity) (field "message" (text r.message) end)))

pub identity_value : WorkerIdentity → Value
identity_value r = object (
    field "mode" (mode_text r.mode) (
      field "principal_kind" (kind_text r.principal_kind) (
        field "principal_id" (text r.principal_id)
          (field "name" (text r.name) (field "isolation" (isolation_text r.isolation) end)))))

abbrev installation_value : InstallationScope → Value
installation_value scope = object (field "scope" (scope_text scope) end)

abbrev pending_values : List PendingAction → Value
pending_values actions = array (items_of pending_value actions)

-- `wire` and `wire_value`.
unfoldable pub wire_value : MachineManifest → Value
unfolding items_of fields_of platform_value transport_value paths_value controller_value
    worker_value detected_value policy_value resources_value scheduling_value tailscale_value
    ssh_value herdr_value agent_value toolchain_value cache_value install_value desktop_value
    pending_value identity_value
wire_value m = object (
    field "schema_version" (count m.schema_version) (
      field "machine_id" (text m.machine_id.hyphenated) (
        field "name" (text m.name) (
          field "roles" (array (items_of role_text m.roles)) (
            field "platform" (platform_value m.host) (
              field "installation" (or_null installation_value m.installation) (
                unless_none "worker_identity" identity_value m.worker_identity (
                  unless_none "transport" transport_value m.transport (
                    field "paths" (paths_value m.paths) (
                      unless_none "controller" controller_value m.controller (
                        unless_none "worker" worker_value m.worker (
                          unless_none "resources" resources_value m.resources (
                            unless_none "capabilities" (map_value bool) m.capabilities (
                              unless_none "scheduling" scheduling_value m.scheduling (
                                unless_none "tailscale" tailscale_value m.tailscale (
                                  unless_none "ssh" ssh_value m.ssh (
                                    unless_none "herdr" herdr_value m.herdr (
                                      unless_none "agents" (map_value agent_value) m.agents (
                                        unless_none "toolchains" (map_value toolchain_value)
                                          m.toolchains
                                          (unless_none "caches" (map_value cache_value) m.caches (
                                            unless_none "install" install_value m.install (
                                              unless_none "desktop" desktop_value m.desktop (
                                                unless_none "pending_actions" pending_values
                                                  m.pending_actions end)))))))))))))))))))))))
