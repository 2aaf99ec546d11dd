-- ===== src/Manifest/Validate/Worker.antt =====
-- The checks of a worker's identity in src/manifest/mod.rs.
use styrn.Common.{
  ◌≡◌, refl, sym, ◌∙◌, ◌↔◌, ◌⊎◌, inl, inr, true, false, not, ◌&&◌, Option, none, some, String,
  eq_iff, Result, ok, err, ◌>>=◌, ◌>>◌, ok_or, Option-cases, Bool-cases, arith,
}
use mathlib.Core.Path.{subst}
use styrn.Common.Chars.{is_some}
use styrn.Platform.Principal.{
  WorkerIsolation, shared_user, dedicated_account, WorkerPrincipal, isolation,
  validate_principal_name, validate_principal_id,
}
use styrn.Manifest.Defs.{
  validation, MachineRole, OperatingSystem, InstallationScope, WorkerIdentityMode, WorkerIdentity,
  Transport, MachineManifest,
}
use styrn.Manifest.Validate.{
  Checked, refuse, has_role, policy_of, same_isolation, or_validation, policy_message, same_kind,
  expected_kind, same_policy, is_dedicated, is_system, is_user, check_identity, check_worker,
}

-- The account's isolation.
abbrev pub isolation_for : WorkerIdentityMode → WorkerIsolation
isolation_for WorkerIdentityMode.current_user = shared_user
isolation_for WorkerIdentityMode.dedicated = dedicated_account

-- The session of SSH logs in as the account.
abbrev pub LogsInAs : Option Transport → String → Type 0
LogsInAs transport name = (route : Transport) × (transport ≡ some route) × (route.user ≡ some name)

module _ (os : OperatingSystem) (scope : InstallationScope) (transport : Option Transport)
    (identity : WorkerIdentity) where
  abbrev principal_record : WorkerPrincipal
  principal_record = record {
    principal_kind = identity.principal_kind;
    principal_id = identity.principal_id;
    name = identity.name;
    account_policy = policy_of identity.mode;
  }

  -- The chain of checks, over the results of those of the name and of the identifier.
  abbrev identity_checks : Result String (Unit {0}) → Result String (Unit {0}) → Checked
  identity_checks named numbered = do
    principal ← do
      principal ← or_validation (named >> (numbered >> ok principal_record))
      refuse (not (same_isolation (isolation principal) identity.isolation)) policy_message
      ok principal
    refuse (not (same_kind principal.principal_kind (expected_kind os)))
        "worker_identity.principal_kind does not match platform.os"
    refuse (not (same_policy identity.mode identity.isolation)) policy_message
    refuse (is_dedicated identity.mode && not (is_system scope))
        "dedicated worker identity requires system installation scope"
    refuse (not (is_system scope) && is_dedicated identity.mode)
        "user installation scope requires current-user worker identity"
    route ← ok_or transport (validation "transport is required when roles contains worker")
    refuse (not (is_user principal.name route.user))
        "transport.user must equal worker_identity.name"

  check_identity-eq :
      check_identity os scope transport identity
      ≡ identity_checks
          (validate_principal_name identity.name)
          (validate_principal_id identity.principal_kind identity.principal_id)
  unfolding check_identity
  check_identity-eq = refl

  -- What the checks of the fields say.
  abbrev IsConsistent : Type 0
  IsConsistent =
      (identity.principal_kind ≡ expected_kind os)
      × (identity.isolation ≡ isolation_for identity.mode)
      × (is_dedicated identity.mode ≡ true → is_system scope ≡ true)
      × LogsInAs transport identity.name

  is_user_iff : (o : Option String) → (is_user identity.name o ≡ true) ↔ (o ≡ some identity.name)
  is_user_iff none = ground arith
  is_user_iff (some other) = ground (arith, eq_iff other identity.name)

  checks-IsConsistent : identity_checks (ok tt) (ok tt) ≡ ok tt → IsConsistent
  checks-IsConsistent h = elim (Option-cases transport) [
    | inl e ↦ absurd (ground arith)
    | inr (route, e) ↦ (
      ground arith,
      ground arith,
      λ d. ground arith,
      (route, e, (is_user_iff route.user).0 (ground arith)),
    )
  ]

  IsConsistent-checks : IsConsistent → identity_checks (ok tt) (ok tt) ≡ ok tt
  IsConsistent-checks (kind, isolated, scoped, (route, e, logs_in)) =
      ground (arith, (is_user_iff route.user).1 logs_in)

  checks_iff :
      (named numbered : Result String (Unit {0}))
      → (identity_checks named numbered ≡ ok tt)
        ↔ ((named ≡ ok tt) × (numbered ≡ ok tt) × IsConsistent)
  checks_iff (err e) numbered = (λ h. absurd (ground arith), λ all. absurd (ground (arith, all.0)))
  checks_iff (ok _) (err e) = (λ h. absurd (ground arith), λ all. absurd (ground (arith, all.1)))
  checks_iff (ok _) (ok _) = (
    λ h. (refl, refl, checks-IsConsistent h),
    λ (_, _, consistent). IsConsistent-checks consistent,
  )

  -- An account of the system that the platform can name, whose kind is that of the system, whose
  -- isolation is that of the mode, which is dedicated only where the scope is that of the system, and
  -- under whose name the transport logs in.
  abbrev pub IsSoundIdentity : Type 0
  IsSoundIdentity =
      (validate_principal_name identity.name ≡ ok tt)
      × (validate_principal_id identity.principal_kind identity.principal_id ≡ ok tt)
      × IsConsistent

  pub check_identity_iff : (check_identity os scope transport identity ≡ ok tt) ↔ IsSoundIdentity
  check_identity_iff =
      let whole =
        checks_iff (validate_principal_name identity.name)
          (validate_principal_id identity.principal_kind identity.principal_id) in
      (λ h. whole.0 (sym check_identity-eq ∙ h), λ sound. check_identity-eq ∙ whole.1 sound)

-- A worker has a sound identity, and a machine that is no worker has none.
abbrev pub HasSoundWorker : MachineManifest → InstallationScope → Type 0
HasSoundWorker m scope =
    ((has_role MachineRole.worker m.roles ≡ true)
      × ((identity : WorkerIdentity) × (m.worker_identity ≡ some identity)
          × IsSoundIdentity m.host.os scope m.transport identity))
    ⊎ ((has_role MachineRole.worker m.roles ≡ false) × (m.worker_identity ≡ none))

is_some-none : {A : Type 0} (o : Option A) → is_some o ≡ false → o ≡ none
is_some-none none h = refl
is_some-none (some a) h = absurd (ground arith)

pub check_worker_iff :
    (m : MachineManifest) (scope : InstallationScope)
    → (check_worker m scope ≡ ok tt) ↔ HasSoundWorker m scope
check_worker_iff m scope = elim (Bool-cases (has_role MachineRole.worker m.roles)) [
  | inl works ↦ elim (Option-cases m.worker_identity) [
    | inl e ↦
        let fails : check_worker m scope
            ≡ err (validation "worker_identity is required when roles contains worker") =
          unfold check_worker in rw (works, e) refl in
        (λ h. absurd (ground arith), λ sound. absurd (ground arith))
    | inr (identity, e) ↦
        let steps : check_worker m scope ≡ check_identity m.host.os scope m.transport identity =
          unfold check_worker in rw (works, e) refl in
        let sound = check_identity_iff m.host.os scope m.transport identity in
        (
          λ h. inl (works, (identity, e, sound.0 (sym steps ∙ h))),
          λ h. elim h [
            | inl (_, (other, f, good)) ↦
                let same : other ≡ identity = ground arith in
                steps
                ∙ sound.1 (
                    subst (λ (i : WorkerIdentity). IsSoundIdentity m.host.os scope m.transport i)
                      same good)
            | inr (idle, _) ↦ absurd (ground arith)
          ],
        )
  ]
  | inr idle ↦
      let steps : check_worker m scope
          ≡ refuse (is_some m.worker_identity) "worker_identity requires a worker role" =
        unfold check_worker in rw idle refl in
      (
        λ h. inr (idle, is_some-none m.worker_identity (ground arith)),
        λ sound. elim sound [
          | inl (works, _) ↦ absurd (ground arith)
          | inr (_, e) ↦ steps ∙ rw e refl
        ],
      )
]
