-- ===== src/Manifest/Projection/Bound.antt =====
-- The steps of a candidate of src/manifest/mod.rs, and the store on one.
use styrn.Common.{
  ◌≡◌, refl, sym, ◌∙◌, ◌⊎◌, inl, inr, not, ◌||◌, some, String, Result, ok, err, ◌>>=◌, ◌>>◌,
  >>=-eq-ok, >>-eq-ok, ok_or-eq-ok, ok_or, Option-cases, Bool-cases, arith, if◌then◌else◌,
}
use styrn.Platform.Principal.{
  WorkerAccountPolicy, WorkerPrincipal, WorkerPrincipal_new, isolation, validate_principal_name,
  validate_principal_id,
}
use styrn.Manifest.Defs.{
  ManifestError, validation, Uuid, MachineRole, InstallationScope, user, WorkerIdentity, Paths,
  Transport, MachineManifest,
}
use styrn.Manifest.Validate.{
  done, refuse, has_role, same_isolation, principal_of, or_validation, policy_of, is_system,
  policy_message,
}
use styrn.Manifest.Projection.{
  MachineManifestDraft, with_machine_id, WorkerDirectoryLayout, HostSystem,
  WorkerManifestProjection, same_os, same_principal, same_paths, validate_current_native_principal,
  worker_identity_for, exact_manifest_paths, filled_with, projected, user_draft_message,
  current_principal_message, mode_of, derive_from_verified_layout, derive_current_user,
  validate_current_user_projection_base, filled,
}
use styrn.Manifest.Projection.Store.{
  validate_user_worker_manifest_projection, canonical_current_user_store_projection,
  canonical_current_user, validate_manifest_binding_with, same_identity, same_scope, logs_in_as,
  as_message, user_paths_message, principal_message,
}
use styrn.Manifest.Projection.Same.{
  str_eq_refl, same_os_refl, same_isolation_refl, same_principal_refl, same_identity_refl,
  same_paths_refl,
}

policy_of-mode_of : (a : WorkerAccountPolicy) → policy_of (mode_of a) ≡ a
policy_of-mode_of WorkerAccountPolicy.current_user = refl
policy_of-mode_of WorkerAccountPolicy.dedicated = refl

WorkerPrincipal_new-eq :
    (p : WorkerPrincipal)
    → WorkerPrincipal_new p.principal_kind p.principal_id p.name p.account_policy ≡ (
        validate_principal_name p.name
        >> (validate_principal_id p.principal_kind p.principal_id >> ok p))
unfolding WorkerPrincipal_new
WorkerPrincipal_new-eq p = refl

principal_of-eq :
    (identity : WorkerIdentity)
    → principal_of identity ≡ (
        or_validation (
          WorkerPrincipal_new identity.principal_kind identity.principal_id identity.name
            (policy_of identity.mode))
        >>= λ principal.
            refuse (not (same_isolation (isolation principal) identity.isolation)) policy_message
            >> ok principal)
unfolding principal_of
principal_of-eq identity = refl

-- The account of an identity is the one that it was made for.
pub principal_of-worker_identity_for :
    (p : WorkerPrincipal)
    → validate_principal_name p.name ≡ ok tt
    → validate_principal_id p.principal_kind p.principal_id ≡ ok tt
    → principal_of (worker_identity_for p) ≡ ok p
principal_of-worker_identity_for p named identified =
    let made : WorkerPrincipal_new p.principal_kind p.principal_id p.name p.account_policy ≡ ok p =
      WorkerPrincipal_new-eq p ∙ rw (named, identified) refl in
    principal_of-eq (worker_identity_for p)
    ∙ rw (policy_of-mode_of p.account_policy, made, same_isolation_refl (isolation p)) refl

derive_from_verified_layout-eq :
    (host : HostSystem) (p : WorkerPrincipal) (layout : WorkerDirectoryLayout)
    → derive_from_verified_layout host p layout ≡ (
        refuse (is_system layout.scope) user_draft_message
        >> (refuse (not (same_principal layout.principal p)) current_principal_message
            >> (exact_manifest_paths layout >>= λ paths. ok (projected host p paths))))
unfolding derive_from_verified_layout
derive_from_verified_layout-eq host p layout = refl

pub derive_from_verified_layout-projected :
    (host : HostSystem) (p : WorkerPrincipal) (layout : WorkerDirectoryLayout)
    {projection : WorkerManifestProjection}
    → derive_from_verified_layout host p layout ≡ ok projection
    → (paths : Paths) × (projected host p paths ≡ projection)
derive_from_verified_layout-projected host p layout h =
    let (_, named) =
      >>-eq-ok (refuse (is_system layout.scope) user_draft_message) _
        (sym (derive_from_verified_layout-eq host p layout) ∙ h) in
    let (_, read) =
      >>-eq-ok (refuse (not (same_principal layout.principal p)) current_principal_message) _
        named in
    let (paths, _, made) =
      >>=-eq-ok (exact_manifest_paths layout) (λ x. ok (projected host p x)) read in
    (paths, ground arith)

pub Result-split :
    {A : Type 0} (r : Result ManifestError A)
    → ((a : A) × (r ≡ ok a)) ⊎ ((e : ManifestError) × (r ≡ err e))
Result-split (ok a) = inl (a, refl)
Result-split (err e) = inr (e, refl)

-- A base that is accepted has an installation and a transport.
pub checked-filled :
    (host : HostSystem) (base : MachineManifestDraft) (projection : WorkerManifestProjection)
    → validate_current_user_projection_base host base ≡ ok tt
    → (old : InstallationScope) × (route : Transport) × (filled user projection base
        ≡ some (filled_with user projection base route))
unfolding filled validate_current_user_projection_base
checked-filled host base projection h = elim (Option-cases base.installation) [
  | inl e ↦ absurd (ground arith)
  | inr (old, e) ↦ elim (Option-cases base.transport) [
    | inl f ↦ absurd (ground arith)
    | inr (route, f) ↦ (old, route, rw (e, f) refl)
  ]
]

abbrev representation_message : String
representation_message = "worker directory paths cannot be represented exactly in the manifest"

derive_current_user-eq :
    (host : HostSystem) (base : MachineManifestDraft) (p : WorkerPrincipal)
    → derive_current_user host base p ≡ (
        validate_current_user_projection_base host base
        >> (validate_current_native_principal host p
            >> (ok_or (host.layout user p) (validation representation_message) >>= λ layout.
                derive_from_verified_layout host p layout)))
unfolding derive_current_user
derive_current_user-eq host base p = refl

pub derive_current_user-checked :
    (host : HostSystem) (base : MachineManifestDraft) (p : WorkerPrincipal)
    {projection : WorkerManifestProjection}
    → derive_current_user host base p ≡ ok projection
    → validate_current_user_projection_base host base ≡ ok tt
derive_current_user-checked host base p h =
    (>>-eq-ok (validate_current_user_projection_base host base) _
      (sym (derive_current_user-eq host base p) ∙ h)).0

-- What the derivation of a projection went through.
pub derive_current_user-steps :
    (host : HostSystem) (base : MachineManifestDraft) (p : WorkerPrincipal)
    {projection : WorkerManifestProjection}
    → derive_current_user host base p ≡ ok projection
    → (validate_current_native_principal host p ≡ ok tt)
      × ((layout : WorkerDirectoryLayout) × (host.layout user p ≡ some layout)
          × (derive_from_verified_layout host p layout ≡ ok projection))
derive_current_user-steps host base p h =
    let (_, checked) =
      >>-eq-ok (validate_current_user_projection_base host base) _
        (sym (derive_current_user-eq host base p) ∙ h) in
    let (native, resolved) = >>-eq-ok (validate_current_native_principal host p) _ checked in
    let (layout, found, derived) =
      >>=-eq-ok (ok_or (host.layout user p) (validation representation_message))
        (derive_from_verified_layout host p) resolved in
    (
      native,
      (layout, ok_or-eq-ok (host.layout user p) (validation representation_message) found, derived),
    )

pub filled-some :
    (scope : InstallationScope) (projection : WorkerManifestProjection)
    (base draft : MachineManifestDraft)
    → filled scope projection base ≡ some draft
    → (route : Transport) × (filled_with scope projection base route ≡ draft)
unfolding filled
filled-some scope projection base draft h = elim (Option-cases base.installation) [
  | inl e ↦ absurd (ground arith)
  | inr (old, e) ↦ elim (Option-cases base.transport) [
    | inl f ↦ absurd (ground arith)
    | inr (route, f) ↦ (route, ground arith)
  ]
]

validate_user_worker_manifest_projection-eq :
    (manifest : MachineManifest) (identity : WorkerIdentity) (projection : WorkerManifestProjection)
    → validate_user_worker_manifest_projection manifest identity projection ≡ (
        refuse
          (not (same_os manifest.host.os projection.operating_system))
          "user worker manifest platform does not match the native host"
        >> (principal_of identity >>= λ principal.
            refuse
              (not (same_principal principal projection.principal)
                || not (same_identity identity projection.worker_identity))
              principal_message
            >> (refuse
                  (not (logs_in_as projection.transport_user manifest.transport))
                  "transport.user must equal worker_identity.name"
                >> refuse (not (same_paths manifest.paths projection.paths)) user_paths_message)))
unfolding validate_user_worker_manifest_projection
validate_user_worker_manifest_projection-eq manifest identity projection = refl

pub canonical_current_user_store_projection-eq :
    (host : HostSystem) (p : WorkerPrincipal)
    → canonical_current_user_store_projection host p ≡ (
        validate_current_native_principal host p
        >> (ok_or (host.layout user p) (validation user_paths_message) >>= λ layout.
            as_message user_paths_message (derive_from_verified_layout host p layout)))
unfolding canonical_current_user_store_projection
canonical_current_user_store_projection-eq host p = refl

validate_manifest_binding_with-eq :
    (host : HostSystem) (p : WorkerPrincipal) (manifest : MachineManifest)
    → validate_manifest_binding_with host user p canonical_current_user manifest ≡ (
        ok_or manifest.installation (validation "installation is required") >>= λ own.
        refuse (not (same_scope own user)) "manifest installation scope does not match its store"
        >> (if not (has_role MachineRole.worker manifest.roles)
            then done
            else (ok_or manifest.worker_identity (validation "worker_identity is required")
                >>= λ identity. canonical_current_user_store_projection host p >>= λ projection.
                    validate_user_worker_manifest_projection manifest identity projection)))
unfolding validate_manifest_binding_with
validate_manifest_binding_with-eq host p manifest = refl

module _ (host : HostSystem) (p : WorkerPrincipal) (paths : Paths) (base : MachineManifestDraft)
    (route : Transport) (machine_id : Uuid) where
  abbrev pub candidate : MachineManifestDraft
  candidate = filled_with user (projected host p paths) base route

  candidate-matches :
      principal_of (worker_identity_for p) ≡ ok p
      → validate_user_worker_manifest_projection
          (with_machine_id candidate machine_id)
          (worker_identity_for p)
          (projected host p paths)
        ≡ ok tt
  unfolding with_machine_id
  candidate-matches made =
      validate_user_worker_manifest_projection-eq (with_machine_id candidate machine_id)
        (worker_identity_for p) (projected host p paths)
      ∙ rw
          (
            same_os_refl host.native,
            made,
            same_principal_refl p,
            same_identity_refl (worker_identity_for p),
            str_eq_refl p.name,
            same_paths_refl paths,
          )
          refl

  -- The store derives the projection again, and its values are those of the candidate.
  pub candidate-bound :
      principal_of (worker_identity_for p) ≡ ok p
      → canonical_current_user_store_projection host p ≡ ok (projected host p paths)
      → validate_manifest_binding_with host user p canonical_current_user
          (with_machine_id candidate machine_id)
        ≡ ok tt
  unfolding with_machine_id
  candidate-bound made derived =
      validate_manifest_binding_with-eq host p (with_machine_id candidate machine_id)
      ∙ elim (Bool-cases (has_role MachineRole.worker base.roles)) [
        | inl works ↦ rw (works, derived) (candidate-matches made)
        | inr idle ↦ rw idle refl
      ]
