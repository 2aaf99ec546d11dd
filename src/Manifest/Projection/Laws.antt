-- ===== src/Manifest/Projection/Laws.antt =====
-- What a derived candidate of src/manifest/mod.rs has to do with the store of its account.
use styrn.Common.{
  ℕ, ◌≡◌, refl, sym, ap, ◌∙◌, inl, inr, Bool, none, some, String, List, Result, ok, err, ◌>>◌,
  >>-eq-ok, Option-cases, arith,
}
use mathlib.Core.Path.{subst}
use styrn.Platform.Principal.{WorkerPrincipal}
use styrn.Manifest.Defs.{
  ManifestError, Uuid, InstallationScope, user, WorkerIdentity, Paths, Transport, MachineManifest,
}
use styrn.Manifest.Validate.{Base64, principal_of, validate}
use styrn.Manifest.Validate.Worker.{HasSoundWorker, IsSoundIdentity}
use styrn.Manifest.Validate.Laws.{validate_iff}
use styrn.Manifest.Projection.{
  MachineManifestDraft, with_machine_id, HostSystem, WorkerManifestProjection, worker_identity_for,
  filled_with, projected, derive_current_user, filled,
}
use styrn.Manifest.Projection.Store.{
  canonical_current_user_store_projection, canonical_current_user, validate_manifest_binding_with,
  from_projection, derive_user_candidate,
}
use styrn.Manifest.Projection.Bound.{
  principal_of-worker_identity_for, derive_from_verified_layout-projected, Result-split,
  derive_current_user-steps, derive_current_user-checked, checked-filled, filled-some,
  canonical_current_user_store_projection-eq, candidate-bound,
}

sound_identity :
    (m : MachineManifest) (scope : InstallationScope) (identity : WorkerIdentity)
    → m.worker_identity ≡ some identity
    → HasSoundWorker m scope
    → IsSoundIdentity m.host.os scope m.transport identity
sound_identity m scope identity e (inl (works, (other, f, sound))) =
    let same : other ≡ identity = ground arith in
    subst (λ (i : WorkerIdentity). IsSoundIdentity m.host.os scope m.transport i) same sound
sound_identity m scope identity e (inr (idle, f)) = absurd (ground arith)

module _ (base64 : Base64) (is_object_header : List ℕ → Bool) (quote : String → String) where
  derive_user_candidate-eq :
      (host : HostSystem) (now : Uuid) (base : MachineManifestDraft) (p : WorkerPrincipal)
      → derive_user_candidate base64 is_object_header quote host now base p
        ≡ elim (derive_current_user host base p) [
          | err e ↦ some (err e)
          | ok projection ↦ from_projection base64 is_object_header quote user now base projection
        ]
  unfolding derive_user_candidate
  derive_user_candidate-eq host now base p = refl

  from_projection-eq :
      (scope : InstallationScope) (now : Uuid) (base : MachineManifestDraft)
      (projection : WorkerManifestProjection)
      → from_projection base64 is_object_header quote scope now base projection
        ≡ elim (filled scope projection base) [
          | none ↦ none
          | some draft ↦
              some (validate base64 is_object_header quote (with_machine_id draft now) >> ok draft)
        ]
  unfolding from_projection
  from_projection-eq scope now base projection = refl

  -- A candidate is the base with the values of the projection, and it is valid.
  from_projection-valid :
      (scope : InstallationScope) (now : Uuid) (base draft : MachineManifestDraft)
      (projection : WorkerManifestProjection)
      → from_projection base64 is_object_header quote scope now base projection ≡ some (ok draft)
      → (route : Transport) × (filled_with scope projection base route ≡ draft)
        × (validate base64 is_object_header quote (with_machine_id draft now) ≡ ok tt)
  from_projection-valid scope now base draft projection h =
      elim (Option-cases (filled scope projection base)) [
        | inl e ↦
            let failed : from_projection base64 is_object_header quote scope now base projection
                ≡ none =
              from_projection-eq scope now base projection ∙ rw e refl in
            absurd (ground arith)
        | inr (own, e) ↦
            let made : from_projection base64 is_object_header quote scope now base projection
                ≡ some
                    (validate base64 is_object_header quote (with_machine_id own now) >> ok own) =
              from_projection-eq scope now base projection ∙ rw e refl in
            let checked : (validate base64 is_object_header quote (with_machine_id own now)
                  >> ok own)
                ≡ ok draft =
              ground arith in
            let (valid, kept) =
              >>-eq-ok (validate base64 is_object_header quote (with_machine_id own now)) (ok own)
                checked in
            let same : own ≡ draft = ground arith in
            let (route, full) = filled-some scope projection base own e in
            (
              route,
              full ∙ same,
              subst
                  (λ (d : MachineManifestDraft).
                    validate base64 is_object_header quote (with_machine_id d now) ≡ ok tt)
                  same valid,
            )
      ]

  valid-principal :
      (host : HostSystem) (now : Uuid) (base : MachineManifestDraft) (p : WorkerPrincipal)
      (paths : Paths) (route : Transport)
      → validate base64 is_object_header quote
          (with_machine_id (filled_with user (projected host p paths) base route) now)
        ≡ ok tt
      → principal_of (worker_identity_for p) ≡ ok p
  unfolding with_machine_id
  valid-principal host now base p paths route h =
      let m = with_machine_id (filled_with user (projected host p paths) base route) now in
      let (_, _, _, (scope, _, valid)) = (validate_iff base64 is_object_header quote m).0 h in
      let sound = sound_identity m scope (worker_identity_for p) refl valid.1.1.1.0 in
      principal_of-worker_identity_for p sound.0 sound.1

  -- A candidate that is derived for the account of the current user is accepted by the store of that
  -- account, in the scope of a user and with the canonical layout, whatever its identifier.
  pub derive_user_candidate-bound :
      (host : HostSystem) (now : Uuid) (base : MachineManifestDraft) (p : WorkerPrincipal)
      (draft : MachineManifestDraft)
      → derive_user_candidate base64 is_object_header quote host now base p ≡ some (ok draft)
      → (machine_id : Uuid)
      → validate_manifest_binding_with host user p canonical_current_user
          (with_machine_id draft machine_id)
        ≡ ok tt
  derive_user_candidate-bound host now base p draft h machine_id =
      elim (Result-split (derive_current_user host base p)) [
        | inr (e, failed) ↦
            let refused : derive_user_candidate base64 is_object_header quote host now base p
                ≡ some (err e) =
              derive_user_candidate-eq host now base p ∙ rw failed refl in
            absurd (ground arith)
        | inl (projection, derived) ↦
            let made : from_projection base64 is_object_header quote user now base projection
                ≡ some (ok draft) =
              sym (derive_user_candidate-eq host now base p ∙ rw derived refl) ∙ h in
            let (native, (layout, found, resolved)) =
              derive_current_user-steps host base p derived in
            let (paths, same) = derive_from_verified_layout-projected host p layout resolved in
            let (route, full, valid) =
              from_projection-valid user now base draft (projected host p paths) (
                subst
                  (λ (x : WorkerManifestProjection).
                    from_projection base64 is_object_header quote user now base x ≡ some (ok draft))
                  (sym same) made) in
            let stored : canonical_current_user_store_projection host p
                ≡ ok (projected host p paths) =
              canonical_current_user_store_projection-eq host p
              ∙ rw
                  (
                    native,
                    found,
                    resolved ∙ ap (λ (x : WorkerManifestProjection). Result.ok x) (sym same),
                  )
                  refl in
            subst
              (λ (d : MachineManifestDraft).
                validate_manifest_binding_with host user p canonical_current_user
                  (with_machine_id d machine_id)
                ≡ ok tt)
              full
              (candidate-bound host p paths base route machine_id
                (valid-principal host now base p paths route (
                  subst
                    (λ (d : MachineManifestDraft).
                      validate base64 is_object_header quote (with_machine_id d now) ≡ ok tt)
                    (sym full) valid))
                stored)
      ]

  -- The derivation of a candidate for the current user does not panic.
  pub derive_user_candidate_total :
      (host : HostSystem) (now : Uuid) (base : MachineManifestDraft) (p : WorkerPrincipal)
      → (result : Result ManifestError MachineManifestDraft) × (derive_user_candidate base64
            is_object_header quote host now base p
          ≡ some result)
  derive_user_candidate_total host now base p =
      elim (Result-split (derive_current_user host base p)) [
        | inr (e, failed) ↦ (err e, derive_user_candidate-eq host now base p ∙ rw failed refl)
        | inl (projection, derived) ↦
            let (_, route, e) =
              checked-filled host base projection
                (derive_current_user-checked host base p derived) in
            let draft = filled_with user projection base route in
            (
              (validate base64 is_object_header quote (with_machine_id draft now) >> ok draft),
              derive_user_candidate-eq host now base p
                  ∙ rw derived (from_projection-eq user now base projection ∙ rw e refl),
            )
      ]
