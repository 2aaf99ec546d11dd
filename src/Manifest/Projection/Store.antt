-- ===== src/Manifest/Projection/Store.antt =====
-- The candidates for the manifest of a worker, and `validate_manifest_binding_with` of a store, in
-- src/manifest/mod.rs.
use styrn.Common.{
  ℕ, Bool, false, not, ◌&&◌, ◌||◌, Option, none, some, String, str_eq, List, Result, ok, err, ◌>>=◌,
  ◌>>◌, ok_or, if◌then◌else◌,
}
use styrn.Platform.Principal.{dedicated_account, WorkerPrincipal}
use styrn.Manifest.Defs.{
  ManifestError, validation, Uuid, MachineRole, InstallationScope, system, user, WorkerIdentity,
  Transport, MachineManifest,
}
use styrn.Manifest.Validate.{
  Checked, done, refuse, Base64, has_role, same_isolation, same_kind, is_dedicated, is_system,
  is_user, principal_of, validate,
}
use styrn.Manifest.Projection.{
  MachineManifestDraft, with_machine_id, HostSystem, WorkerManifestProjection, same_os,
  same_principal, same_mode, same_paths, validate_dedicated_projection_base,
  validate_current_native_principal, derive_from_verified_layout, derive_current_user,
  derive_dedicated, filled, dedicated_message,
}

-- `transport.user` of the manifest is the name.
abbrev pub logs_in_as : String → Option Transport → Bool
logs_in_as name none = false
logs_in_as name (some route) = is_user name route.user

abbrev pub principal_message : String
principal_message = "manifest worker identity does not match its store principal"

abbrev pub same_identity : WorkerIdentity → WorkerIdentity → Bool
same_identity a b =
    same_mode a.mode b.mode
    && same_kind a.principal_kind b.principal_kind
    && str_eq a.principal_id b.principal_id
    && str_eq a.name b.name
    && same_isolation a.isolation b.isolation

unfoldable pub validate_user_worker_manifest_projection :
    MachineManifest → WorkerIdentity → WorkerManifestProjection → Checked
unfolding principal_of
validate_user_worker_manifest_projection manifest identity projection = do
  refuse (not (same_os manifest.host.os projection.operating_system))
      "user worker manifest platform does not match the native host"
  principal ← principal_of identity
  refuse
      (not (same_principal principal projection.principal)
        || not (same_identity identity projection.worker_identity))
      principal_message
  refuse (not (logs_in_as projection.transport_user manifest.transport))
      "transport.user must equal worker_identity.name"
  refuse (not (same_paths manifest.paths projection.paths))
      "user worker manifest paths do not match the store's canonical layout"

unfoldable pub validate_dedicated_worker_manifest_projection :
    MachineManifest → WorkerIdentity → WorkerManifestProjection → Checked
unfolding principal_of
validate_dedicated_worker_manifest_projection manifest identity projection = do
  refuse (not (same_os manifest.host.os projection.operating_system))
      "dedicated worker manifest platform does not match the native host"
  principal ← principal_of identity
  refuse
      (not (same_principal principal projection.principal)
        || not (is_dedicated identity.mode)
        || not (same_isolation identity.isolation dedicated_account))
      dedicated_message
  refuse (not (logs_in_as projection.transport_user manifest.transport))
      "transport.user must equal worker_identity.name"
  refuse (not (same_paths manifest.paths projection.paths))
      "dedicated worker manifest paths do not match the canonical system layout"

-- `map_err` to one message.
abbrev pub as_message {ℓ} : {A : Type ℓ} → String → Result ManifestError A → Result ManifestError A
as_message message (ok a) = ok a
as_message message (err e) = err (validation message)

abbrev pub user_paths_message : String
user_paths_message = "user worker manifest paths do not match the store's canonical layout"

unfoldable pub canonical_current_user_store_projection :
    HostSystem → WorkerPrincipal → Result ManifestError WorkerManifestProjection
unfolding validate_current_native_principal derive_from_verified_layout
canonical_current_user_store_projection host principal = do
  validate_current_native_principal host principal
  layout ← ok_or (host.layout user principal) (validation user_paths_message)
  as_message user_paths_message (derive_from_verified_layout host principal layout)

-- `WorkerManifestLayoutBinding`; a handle is the account that verifying it again gives.
pub data WorkerManifestLayoutBinding : Type 0 where
  principal_only canonical_current_user : WorkerManifestLayoutBinding
  canonical_dedicated : Option WorkerPrincipal → WorkerManifestLayoutBinding

abbrev pub dedicated_paths_message : String
dedicated_paths_message = "dedicated worker manifest paths do not match the canonical system layout"

unfoldable pub validate_layout_binding :
    HostSystem
    → WorkerPrincipal
    → WorkerManifestLayoutBinding
    → MachineManifest
    → WorkerIdentity
    → Checked
unfolding principal_of canonical_current_user_store_projection
    validate_user_worker_manifest_projection derive_dedicated
    validate_dedicated_worker_manifest_projection
validate_layout_binding host principal principal_only manifest identity = do
  own ← principal_of identity
  refuse (not (same_principal own principal)) principal_message
validate_layout_binding host principal canonical_current_user manifest identity = do
  projection ← canonical_current_user_store_projection host principal
  validate_user_worker_manifest_projection manifest identity projection
validate_layout_binding host principal (canonical_dedicated handle) manifest identity = do
  account ← ok_or handle (validation dedicated_message)
  layout ← ok_or (host.layout system account) (validation dedicated_paths_message)
  projection ← derive_dedicated host account layout
  validate_dedicated_worker_manifest_projection manifest identity projection

abbrev pub same_scope : InstallationScope → InstallationScope → Bool
same_scope a b = if is_system a then is_system b else not (is_system b)

-- For a store whose security is that of the system or of a user, which binds its account.
unfoldable pub validate_manifest_binding_with :
    HostSystem
    → InstallationScope
    → WorkerPrincipal
    → WorkerManifestLayoutBinding
    → MachineManifest
    → Checked
unfolding validate_layout_binding
validate_manifest_binding_with host scope principal binding manifest = do
  own ← ok_or manifest.installation (validation "installation is required")
  refuse (not (same_scope own scope)) "manifest installation scope does not match its store"
  (if not (has_role MachineRole.worker manifest.roles)
      then done
      else (ok_or manifest.worker_identity (validation "worker_identity is required")
          >>= validate_layout_binding host principal binding manifest))

module _ (base64 : Base64) (is_object_header : List ℕ → Bool) (quote : String → String) where
  -- `from_projection` of both kinds, with the scope of its kind; the identifier is that of
  -- `Uuid::now_v7`, and `none` is a panic.
  unfoldable pub from_projection :
      InstallationScope
      → Uuid
      → MachineManifestDraft
      → WorkerManifestProjection
      → Option (Result ManifestError MachineManifestDraft)
  unfolding filled with_machine_id validate
  from_projection scope now base projection = elim (filled scope projection base) [
    | none ↦ none
    | some draft ↦
        some (validate base64 is_object_header quote (with_machine_id draft now) >> ok draft)
  ]

  -- `CurrentUserWorkerManifestCandidate::derive`.
  unfoldable pub derive_user_candidate :
      HostSystem
      → Uuid
      → MachineManifestDraft
      → WorkerPrincipal
      → Option (Result ManifestError MachineManifestDraft)
  unfolding derive_current_user from_projection
  derive_user_candidate host now base principal = elim (derive_current_user host base principal) [
    | err e ↦ some (err e)
    | ok projection ↦ from_projection user now base projection
  ]

  -- `DedicatedWorkerManifestCandidate::derive` on Unix; the last argument is the account that verifying
  -- the handle again gives.
  unfoldable pub derive_dedicated_candidate :
      HostSystem
      → Uuid
      → MachineManifestDraft
      → Option WorkerPrincipal
      → Option (Result ManifestError MachineManifestDraft)
  unfolding validate_dedicated_projection_base derive_dedicated from_projection
  derive_dedicated_candidate host now base handle =
      elim (validate_dedicated_projection_base host base
        >> (ok_or handle (validation dedicated_message) >>= λ account.
            ok_or (host.layout system account) (validation dedicated_paths_message) >>= λ layout.
            derive_dedicated host account layout)) [
              | err e ↦ some (err e)
              | ok projection ↦ from_projection system now base projection
            ]
