-- ===== src/Manifest/Paths/Children.antt =====
-- `validate_native_manifest_path` and `Paths::validate_for` of src/manifest/mod.rs as a whole.
use Prim.Native.String
use styrn.Common.{
  ℕ, ◌≡◌, refl, sym, ap, ◌∙◌, ◌↔◌, inl, inr, Bool, true, false, String, str_eq, eq_iff, List, [],
  ◌∷◌, ◌++◌, Result, ok, ◌>>◌, refuse_if, Result-cases, >>-eq-ok, Bool-cases, Option-cases, ◌⊎◌,
  and-true, ◌&&◌, arith,
}
use mathlib.Core.Path.{subst}
use styrn.Common.Text.{codes}
use styrn.Common.Chars.{
  chars_eq, chars_eq_iff, starts_with, strip_prefix_iff, ends_with, split_once, to_upper,
  strip_prefix,
}
use styrn.Common.Matching.{codes-append}
use styrn.Manifest.Defs.{
  ManifestError, validation, OperatingSystem, linux, macos, windows, InstallationScope, Paths,
}
use styrn.Manifest.Paths.{
  validate_native_manifest_path, validate_child, validate_for, opposite_scope_family,
  unix_is_or_descendant, child_path, slash, is_bad_windows_component,
  is_reserved_windows_device_name,
}
use styrn.Manifest.Paths.Unix.{IsUnixPath, IsUnixPath-iff, child-IsUnixPath, is_unix_component}
use styrn.Manifest.Paths.Windows.{
  IsWindowsPath, IsWindowsPath-iff, child-IsWindowsPath, is_windows_component,
}

-- A normalized absolute path of the system.
abbrev pub IsNativePath : OperatingSystem → List ℕ → Type 0
IsNativePath linux value = IsUnixPath value
IsNativePath macos value = IsUnixPath value
IsNativePath windows value = IsWindowsPath value

-- A path is accepted exactly when it is a normalized absolute path of the system: on Unix one or more
-- components, each behind a slash; on Windows a drive and one or more components, each behind a
-- backslash.
pub validate_native_manifest_path_iff :
    (name value : String) (os : OperatingSystem)
    → (validate_native_manifest_path name value os ≡ ok tt) ↔ IsNativePath os (codes value)
unfolding validate_native_manifest_path
validate_native_manifest_path_iff name value linux =
    ground (arith, (IsUnixPath-iff (codes value)).0, (IsUnixPath-iff (codes value)).1)
validate_native_manifest_path_iff name value macos =
    ground (arith, (IsUnixPath-iff (codes value)).0, (IsUnixPath-iff (codes value)).1)
validate_native_manifest_path_iff name value windows =
    ground (arith, (IsWindowsPath-iff (codes value)).0, (IsWindowsPath-iff (codes value)).1)

child_codes :
    (root separator leaf : String)
    → codes (String.◌++◌ root (String.◌++◌ separator leaf))
      ≡ codes root ++ (codes separator ++ codes leaf)
child_codes root separator leaf =
    codes-append root (String.◌++◌ separator leaf)
    ∙ ap (λ (s : List ℕ). codes root ++ s) (codes-append separator leaf)

-- A name of a child is a component on every system.
abbrev pub is_child_name : String → Bool
is_child_name leaf = is_unix_component (codes leaf) && is_windows_component (codes leaf)

child_of :
    (os : OperatingSystem) (root leaf : String)
    → is_unix_component (codes leaf) ≡ true
    → is_windows_component (codes leaf) ≡ true
    → IsNativePath os (codes root)
    → IsNativePath os (codes (child_path os root leaf))
child_of linux root leaf on_unix on_windows h =
    rw (child_codes root "/" leaf) (child-IsUnixPath (codes root) (codes leaf) on_unix h)
child_of macos root leaf on_unix on_windows h =
    rw (child_codes root "/" leaf) (child-IsUnixPath (codes root) (codes leaf) on_unix h)
child_of windows root leaf on_unix on_windows h =
    rw (child_codes root "\\" leaf) (child-IsWindowsPath (codes root) (codes leaf) on_windows h)

child-IsNativePath :
    (os : OperatingSystem) (root leaf : String)
    → is_child_name leaf ≡ true
    → IsNativePath os (codes root)
    → IsNativePath os (codes (child_path os root leaf))
child-IsNativePath os root leaf named h =
    let (on_unix, on_windows) =
      and-true (is_unix_component (codes leaf)) (is_windows_component (codes leaf)) named in
    child_of os root leaf on_unix on_windows h

-- `validate_child` under a root that is accepted.
child_iff :
    (os : OperatingSystem) (root name value leaf : String)
    → is_child_name leaf ≡ true
    → IsNativePath os (codes root)
    → (validate_child os root name value leaf ≡ ok tt) ↔ (value ≡ child_path os root leaf)
unfolding validate_child
child_iff os root name value leaf named h =
    elim (Bool-cases (str_eq value (child_path os root leaf))) [
      | inl e ↦
          let same : value ≡ child_path os root leaf =
            (eq_iff value (child_path os root leaf)).0 e in
          let accepted = (validate_native_manifest_path_iff name value os).1 (
            subst (λ (v : String). IsNativePath os (codes v)) (sym same)
              (child-IsNativePath os root leaf named h)) in
          rw (accepted, e) (λ _. same, λ _. refl)
      | inr e ↦ ground (
        arith,
        eq_iff value (child_path os root leaf),
        Result-cases (validate_native_manifest_path name value os),
      )
    ]

abbrev done : Result ManifestError (Unit {0})
done = ok tt

module _ (e : ManifestError) {other : Bool} {a b c d g : Result ManifestError (Unit {0})} where
  chain_iff :
      {Root A B C D G : Type 0}
      → (a ≡ done) ↔ A
      → (b ≡ done) ↔ B
      → (c ≡ done) ↔ C
      → (d ≡ done) ↔ D
      → (g ≡ done) ↔ G
      → Root
      → ((a >> (b >> (c >> (d >> (g >> (refuse_if other e >> done)))))) ≡ done)
        ↔ (Root × A × B × C × D × G × (other ≡ false))
  chain_iff p q r s t root = (
    λ h.
        let (ok_a, h1) = >>-eq-ok a (b >> (c >> (d >> (g >> (refuse_if other e >> done))))) h in
        let (ok_b, h2) = >>-eq-ok b (c >> (d >> (g >> (refuse_if other e >> done)))) h1 in
        let (ok_c, h3) = >>-eq-ok c (d >> (g >> (refuse_if other e >> done))) h2 in
        let (ok_d, h4) = >>-eq-ok d (g >> (refuse_if other e >> done)) h3 in
        let (ok_g, h5) = >>-eq-ok g (refuse_if other e >> done) h4 in
        (root, p.0 ok_a, q.0 ok_b, r.0 ok_c, s.0 ok_d, t.0 ok_g, ground arith),
    λ (_, x, y, z, v, w, same). rw (p.1 x, q.1 y, r.1 z, s.1 v, t.1 w, same) refl,
  )

-- The names of the children.
names_fine :
    (is_child_name "repos" ≡ true)
    × (is_child_name "jobs" ≡ true)
    × (is_child_name "cache" ≡ true)
    × (is_child_name "artifacts" ≡ true)
    × (is_child_name "logs" ≡ true)
unfolding is_bad_windows_component is_reserved_windows_device_name chars_eq ends_with split_once
    to_upper strip_prefix
names_fine = (refl, refl, refl, refl, refl)

abbrev pub HasSoundPaths : Paths → OperatingSystem → InstallationScope → Type 0
HasSoundPaths paths os scope =
    IsNativePath os (codes paths.root)
    × (paths.repos ≡ child_path os paths.root "repos")
    × (paths.jobs ≡ child_path os paths.root "jobs")
    × (paths.cache ≡ child_path os paths.root "cache")
    × (paths.artifacts ≡ child_path os paths.root "artifacts")
    × (paths.logs ≡ child_path os paths.root "logs")
    × (opposite_scope_family os scope (codes paths.root) ≡ false)

-- The paths of a manifest are accepted exactly when the root is a normalized absolute path of the
-- system that does not belong to the other scope, and each of the five others is the root, one
-- separator and its name.
pub validate_for_iff :
    (paths : Paths) (os : OperatingSystem) (scope : InstallationScope)
    → (validate_for paths os scope ≡ ok tt) ↔ (
        IsNativePath os (codes paths.root)
        × (paths.repos ≡ child_path os paths.root "repos")
        × (paths.jobs ≡ child_path os paths.root "jobs")
        × (paths.cache ≡ child_path os paths.root "cache")
        × (paths.artifacts ≡ child_path os paths.root "artifacts")
        × (paths.logs ≡ child_path os paths.root "logs")
        × (opposite_scope_family os scope (codes paths.root) ≡ false))
unfolding validate_for
validate_for_iff paths os scope =
    let root = paths.root in
    let root_iff = validate_native_manifest_path_iff "paths.root" root os in
    let (repos, jobs, cache, artifacts, logs) = names_fine in
    elim (Result-cases (validate_native_manifest_path "paths.root" root os)) [
      | inl passed ↦
          let h = root_iff.0 passed in
          rw passed (
            chain_iff (validation "paths.root conflicts with installation.scope or platform.os")
              (child_iff os root "paths.repos" paths.repos "repos" repos h)
              (child_iff os root "paths.jobs" paths.jobs "jobs" jobs h)
              (child_iff os root "paths.cache" paths.cache "cache" cache h)
              (child_iff os root "paths.artifacts" paths.artifacts "artifacts" artifacts h)
              (child_iff os root "paths.logs" paths.logs "logs" logs h) h)
      | inr (e, failed) ↦
          rw failed (λ z. absurd (ground arith), λ all. absurd (ground (arith, root_iff.1 all.0)))
    ]

-- A path is the base or lies below it exactly when it is the base, or the base, a slash and more.
pub unix_is_or_descendant_iff :
    (path base : List ℕ)
    → (unix_is_or_descendant path base ≡ true)
      ↔ ((path ≡ base) ⊎ ((rest : List ℕ) × (path ≡ base ++ (slash ∷ rest))))
unfolding unix_is_or_descendant
unix_is_or_descendant_iff path base = (
  λ h. elim (Bool-cases (chars_eq path base)) [
    | inl e ↦ inl ((chars_eq_iff path base).0 e)
    | inr off ↦ elim (Option-cases (strip_prefix base path)) [
      | inl e ↦ absurd (ground arith)
      | inr (behind, e) ↦
          inr (below behind ((strip_prefix_iff base path behind).0 e) (ground arith))
    ]
  ],
  λ h. elim h [
    | inl e ↦ ground (arith, (chars_eq_iff path base).1 e)
    | inr (rest, e) ↦ rw ((strip_prefix_iff base path (slash ∷ rest)).1 e) (ground arith)
  ],
)
  where
    below :
        (behind : List ℕ)
        → path ≡ base ++ behind
        → starts_with (slash ∷ []) behind ≡ true
        → (rest : List ℕ) × (path ≡ base ++ (slash ∷ rest))
    below [] e h = absurd (ground arith)
    below (c ∷ rest) e h = (rest, ground arith)
