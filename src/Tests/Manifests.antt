-- ===== src/Tests/Manifests.antt =====
-- Examples for the manifest of a machine and the account of its worker.
use mathlib.Core.List.{Memᴰ}
use styrn.Common.{
  ℕ, ◌≡◌, ◌↔◌, refl, Bool, true, false, none, some, String, List, [], ◌∷◌, ◌++◌, ok, err,
}
use styrn.Common.Text.{codes}
use styrn.Common.Chars.{to_lower, last_char, chars_eq}
use styrn.Json.Defs.{Value, text, object, field, end, null}
use styrn.Platform.Principal.{
  WorkerPrincipal, WorkerAccountPolicy, unix_uid, shared_user, validate_windows_sid,
}
use styrn.Platform.Principal.Sid.{IsSid, validate_windows_sid_iff}
use styrn.Manifest.Defs.{
  MachineManifest, MachineRole, OperatingSystem, InstallationScope, Paths, ManifestError,
  Architecture, WorkerIdentityMode, TransportKind, PendingSeverity,
}
use styrn.Manifest.Secrets.{
  is_private_key, is_compact_jwt, is_forbidden_secret_name, contains_credential_prefix,
  contains_labeled_credential, labels, none_or_not, is_name_char,
}
use styrn.Manifest.Secrets.Prefixes.{HoldsCredential, contains_credential_prefix_iff}
use styrn.Manifest.Secrets.Labels.{IsCredentialValue, contains_labeled_credential-assignment}
use styrn.Manifest.Scan.{scan_secret_free, prune_nulls}
use styrn.Manifest.Scan.Laws.{
  is_clean, IsRedacted, scan_secret_free_iff, scan_secret_free-IsRedacted,
}
use styrn.Manifest.Scan.Pruned.{is_pruned}
use styrn.Manifest.Paths.{validate_for, child_path, opposite_scope_family}
use styrn.Manifest.Paths.Children.{IsNativePath, validate_for_iff}
use styrn.Manifest.Wire.{wire_value}
use styrn.Manifest.Projection.{MachineManifestDraft, HostSystem, with_machine_id}
use styrn.Manifest.Projection.Store.{
  canonical_current_user, validate_manifest_binding_with, derive_user_candidate,
}
use styrn.Manifest.Projection.Laws.{derive_user_candidate-bound}
use styrn.Manifest.Validate.{Base64, validate, to_json_value}
use styrn.Manifest.Validate.Laws.{IsValid, validate_iff, validate-to_json_value}

-- No text decodes.
abbrev base64 : Base64
base64 = record { decode = λ s. none; encode = λ bytes. [] }

abbrev pub no_header : List ℕ → Bool
no_header segment = false

abbrev quoted : String → String
quoted key = key

abbrev paths : Paths
paths = record {
  root = "/home/a/.local/share/styrn";
  repos = "/home/a/.local/share/styrn/repos";
  jobs = "/home/a/.local/share/styrn/jobs";
  cache = "/home/a/.local/share/styrn/cache";
  artifacts = "/home/a/.local/share/styrn/artifacts";
  logs = "/home/a/.local/share/styrn/logs";
}

-- A worker of the current user, with no port and one pending action.
abbrev manifest : MachineManifest
manifest = record {
  schema_version = 1;
  machine_id = record {
    version = 7;
    is_rfc4122 = true;
    hyphenated = "018f0d3e-7e3a-7000-8000-000000000001";
  };
  name = "worker-1";
  roles = MachineRole.worker ∷ [];
  host = record {
    os = OperatingSystem.linux;
    arch = Architecture.x86_64;
    hostname = "worker-1";
    headless = some true;
  };
  installation = some InstallationScope.user;
  worker_identity = some (record {
    mode = WorkerIdentityMode.current_user;
    principal_kind = unix_uid;
    principal_id = "1000";
    name = "a";
    isolation = shared_user;
  });
  transport = some (record {
    kind = TransportKind.ssh;
    host = "worker-1.example";
    port = none;
    user = some "a";
  });
  paths = paths;
  controller = none;
  worker = some (record { enabled = some true; accept_jobs = none });
  resources = none;
  capabilities = some (("rust", true) ∷ []);
  scheduling = none;
  tailscale = none;
  ssh = none;
  herdr = none;
  agents = none;
  toolchains = none;
  caches = none;
  install = none;
  desktop = none;
  pending_actions = some (
      record {
        id = "restart";
        severity = PendingSeverity.warning;
        message = "Restart the service.";
      }
      ∷ []);
}

validate_iff_example :
    (validate base64 no_header quoted manifest ≡ ok tt) ↔ IsValid base64 no_header quoted manifest
validate_iff_example = validate_iff base64 no_header quoted manifest

validated : validate base64 no_header quoted manifest ≡ ok tt
unfolding validate is_private_key is_compact_jwt is_forbidden_secret_name
validated = refl

validate-to_json_value_example :
    (value : Value) × (to_json_value no_header quoted manifest ≡ ok value)
    × (value ≡ prune_nulls (wire_value manifest))
    × (is_pruned value ≡ true)
    × (is_clean no_header value ≡ true)
validate-to_json_value_example = validate-to_json_value base64 no_header quoted manifest validated

validate_for_iff_example :
    (validate_for paths OperatingSystem.linux InstallationScope.user ≡ ok tt) ↔ (
      IsNativePath OperatingSystem.linux (codes paths.root)
      × (paths.repos ≡ child_path OperatingSystem.linux paths.root "repos")
      × (paths.jobs ≡ child_path OperatingSystem.linux paths.root "jobs")
      × (paths.cache ≡ child_path OperatingSystem.linux paths.root "cache")
      × (paths.artifacts ≡ child_path OperatingSystem.linux paths.root "artifacts")
      × (paths.logs ≡ child_path OperatingSystem.linux paths.root "logs")
      × (opposite_scope_family OperatingSystem.linux InstallationScope.user (codes paths.root)
          ≡ false))
validate_for_iff_example = validate_for_iff paths OperatingSystem.linux InstallationScope.user

-- A field that is null beside one with a forbidden name.
abbrev leaking : Value
leaking = object (field "port" null (field "password" (text "x") end))

refused :
    scan_secret_free no_header quoted leaking "$"
    ≡ err (ManifestError.secret "$.password" "forbidden secret-bearing field name")
unfolding scan_secret_free is_private_key is_compact_jwt is_forbidden_secret_name
refused = refl

scan_secret_free_iff_example :
    (scan_secret_free no_header quoted leaking "$" ≡ ok tt) ↔ (is_clean no_header leaking ≡ true)
scan_secret_free_iff_example = scan_secret_free_iff no_header quoted leaking "$"

scan_secret_free-IsRedacted_example :
    IsRedacted no_header quoted "$" (scan_secret_free no_header quoted leaking "$")
scan_secret_free-IsRedacted_example = scan_secret_free-IsRedacted no_header quoted leaking "$"

abbrev token : List ℕ
token = codes "see ghp_0123456789abcdef"

contains_credential_prefix_iff_example :
    (contains_credential_prefix token ≡ true) ↔ HoldsCredential (to_lower token)
contains_credential_prefix_iff_example = contains_credential_prefix_iff token

abbrev sentence : List ℕ
sentence = codes "my Password=hunter2"

spelled : to_lower sentence ≡ codes "my " ++ (codes "password" ++ (b'=' ∷ codes "hunter2"))
unfolding to_lower
spelled = refl

behind_space : none_or_not is_name_char (last_char none (codes "my ")) ≡ true
unfolding last_char
behind_space = refl

hunter-IsCredentialValue : IsCredentialValue (codes "hunter2")
unfolding last_char chars_eq
hunter-IsCredentialValue = (refl, refl, refl)

password-labels : Memᴰ (codes "password") labels
password-labels = Memᴰ.tail (
    Memᴰ.tail
      (Memᴰ.tail (Memᴰ.tail (Memᴰ.tail (Memᴰ.tail (Memᴰ.tail (Memᴰ.tail (Memᴰ.head refl))))))))

contains_labeled_credential-assignment_example : contains_labeled_credential sentence ≡ true
contains_labeled_credential-assignment_example =
    contains_labeled_credential-assignment sentence (codes "password") (codes "my ")
      (codes "hunter2") b'=' password-labels spelled behind_space refl hunter-IsCredentialValue

abbrev sid : List ℕ
sid = codes "S-1-5-21-1001"

validate_windows_sid_iff_example : (validate_windows_sid sid ≡ ok tt) ↔ IsSid sid
validate_windows_sid_iff_example = validate_windows_sid_iff sid

abbrev account : WorkerPrincipal
account = record {
  principal_kind = unix_uid;
  principal_id = "1000";
  name = "a";
  account_policy = WorkerAccountPolicy.current_user;
}

-- A machine with one account, whose paths are those above.
abbrev computer : HostSystem
computer = record {
  native = OperatingSystem.linux;
  is_verified = λ principal. true;
  current = some account;
  layout = λ scope principal. some (record {
    scope = scope;
    principal = principal;
    root = some paths.root;
    repos = some paths.repos;
    jobs = some paths.jobs;
    cache = some paths.cache;
    artifacts = some paths.artifacts;
    logs = some paths.logs;
  });
}

-- A worker without an identity, whose transport has no user.
abbrev base : MachineManifestDraft
base = record {
  schema_version = manifest.schema_version;
  name = manifest.name;
  roles = manifest.roles;
  host = manifest.host;
  installation = manifest.installation;
  worker_identity = none;
  transport =
      some
        (record { kind = TransportKind.ssh; host = "worker-1.example"; port = none; user = none });
  paths = record paths { root = "/tmp/old" };
  controller = manifest.controller;
  worker = manifest.worker;
  resources = manifest.resources;
  capabilities = manifest.capabilities;
  scheduling = manifest.scheduling;
  tailscale = manifest.tailscale;
  ssh = manifest.ssh;
  herdr = manifest.herdr;
  agents = manifest.agents;
  toolchains = manifest.toolchains;
  caches = manifest.caches;
  install = manifest.install;
  desktop = manifest.desktop;
  pending_actions = manifest.pending_actions;
}

abbrev derived : MachineManifestDraft
derived = record base {
  worker_identity = manifest.worker_identity;
  transport = manifest.transport;
  paths = paths;
}

derivation :
    derive_user_candidate base64 no_header quoted computer manifest.machine_id base account
    ≡ some (ok derived)
unfolding derive_user_candidate is_private_key is_compact_jwt is_forbidden_secret_name
derivation = refl

derive_user_candidate-bound_example :
    validate_manifest_binding_with computer InstallationScope.user account canonical_current_user
      (with_machine_id derived manifest.machine_id)
    ≡ ok tt
derive_user_candidate-bound_example =
    derive_user_candidate-bound base64 no_header quoted computer manifest.machine_id base account
      derived derivation manifest.machine_id
