-- ===== src/Manifest/Projection/Same.antt =====
-- The comparisons of src/manifest/mod.rs find a value equal to itself.
use styrn.Common.{◌≡◌, refl, true, String, str_eq}
use text.Mathlib.TextEquality.{eq_iff}
use styrn.Platform.Principal.{
  PrincipalKind, unix_uid, windows_sid, WorkerAccountPolicy, WorkerIsolation, shared_user,
  dedicated_account, WorkerPrincipal,
}
use styrn.Manifest.Defs.{
  OperatingSystem, linux, macos, windows, WorkerIdentityMode, WorkerIdentity, Paths,
}
use styrn.Manifest.Validate.{same_isolation, same_kind}
use styrn.Manifest.Projection.{same_os, same_account, same_principal, same_paths, same_mode}
use styrn.Manifest.Projection.Store.{same_identity}

pub str_eq_refl : (s : String) → str_eq s s ≡ true
str_eq_refl s = (eq_iff s s).1 refl

pub same_os_refl : (os : OperatingSystem) → same_os os os ≡ true
same_os_refl linux = refl
same_os_refl macos = refl
same_os_refl windows = refl

same_kind_refl : (kind : PrincipalKind) → same_kind kind kind ≡ true
same_kind_refl unix_uid = refl
same_kind_refl windows_sid = refl

pub same_isolation_refl : (i : WorkerIsolation) → same_isolation i i ≡ true
same_isolation_refl shared_user = refl
same_isolation_refl dedicated_account = refl

same_account_refl : (a : WorkerAccountPolicy) → same_account a a ≡ true
same_account_refl WorkerAccountPolicy.current_user = refl
same_account_refl WorkerAccountPolicy.dedicated = refl

same_mode_refl : (mode : WorkerIdentityMode) → same_mode mode mode ≡ true
same_mode_refl WorkerIdentityMode.current_user = refl
same_mode_refl WorkerIdentityMode.dedicated = refl

pub same_principal_refl : (p : WorkerPrincipal) → same_principal p p ≡ true
same_principal_refl p =
    rw (same_kind_refl p.principal_kind, str_eq_refl p.principal_id, str_eq_refl p.name)
      (same_account_refl p.account_policy)

pub same_identity_refl : (identity : WorkerIdentity) → same_identity identity identity ≡ true
same_identity_refl identity =
    rw
      (
        same_mode_refl identity.mode,
        same_kind_refl identity.principal_kind,
        str_eq_refl identity.principal_id,
        str_eq_refl identity.name,
      )
      (same_isolation_refl identity.isolation)

pub same_paths_refl : (paths : Paths) → same_paths paths paths ≡ true
same_paths_refl paths =
    rw
      (
        str_eq_refl paths.root,
        str_eq_refl paths.repos,
        str_eq_refl paths.jobs,
        str_eq_refl paths.cache,
        str_eq_refl paths.artifacts,
        str_eq_refl paths.logs,
      )
      refl
