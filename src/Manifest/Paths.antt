-- ===== src/Manifest/Paths.antt =====
-- `Paths::validate_for` and the checks of a path of src/manifest/mod.rs.
pub mod Unix
pub mod Windows
pub mod Children
use Prim.Native.String
use styrn.Common.{
  ℕ, ◌==◌, Bool, true, false, not, ◌&&◌, ◌||◌, Option, none, some, String, str_eq, List, [], ◌∷◌,
  ◌++◌, all, any, is_empty, Result, ok, err, ◌>>◌, refuse_if, if◌then◌else◌,
}
use styrn.Common.Text.{codes, is_control, in_range, is_upper, is_lower, split, has_control}
use styrn.Common.Chars.{
  to_lower, to_upper, chars_eq, starts_with, strip_prefix, ends_with, ends_with_text, split_once,
  contains_text, any_match,
}
use styrn.Manifest.Defs.{
  ManifestError, validation, OperatingSystem, linux, macos, windows, InstallationScope, system,
  user, Paths,
}
use styrn.Manifest.Secrets.{is_one_of}

abbrev pub backslash : ℕ
backslash = 92

abbrev pub slash : ℕ
slash = b'/'

abbrev pub dots : List (List ℕ)
dots = codes "." ∷ codes ".." ∷ []

-- `skip(1)` of the pieces.
abbrev pub skip_first {ℓ} : {A : Type ℓ} → List A → List A
skip_first [] = []
skip_first (x ∷ xs) = xs

abbrev pub is_bad_unix_component : List ℕ → Bool
is_bad_unix_component component = is_empty component || is_one_of dots component

unfoldable pub is_bad_unix_path : List ℕ → Bool
unfolding starts_with ends_with split chars_eq
is_bad_unix_path value =
    not (starts_with (slash ∷ []) value)
    || ends_with slash value
    || any (λ (c : ℕ). c == backslash) value
    || any is_bad_unix_component (skip_first (split slash value))

abbrev pub device_names : List (List ℕ)
device_names = codes "CON" ∷ codes "PRN" ∷ codes "AUX" ∷ codes "NUL" ∷ []

-- `"1" | … | "9" | "¹" | "²" | "³"`.
abbrev pub is_device_number : List ℕ → Bool
is_device_number (c ∷ []) = in_range b'1' b'9' c || c == 185 || c == 178 || c == 179
is_device_number _ = false

-- `strip_prefix("COM").or_else(|| strip_prefix("LPT"))`.
abbrev pub device_number : List ℕ → Option (List ℕ)
device_number stem = elim (strip_prefix (codes "COM") stem) [
  | none ↦ strip_prefix (codes "LPT") stem
  | some number ↦ some number
]

abbrev pub stem_of : List ℕ → List ℕ
stem_of component = elim (split_once b'.' component) [
  | none ↦ component
  | some (stem, extension) ↦ stem
]

unfoldable pub is_reserved_windows_device_name : List ℕ → Bool
unfolding split_once to_upper chars_eq strip_prefix
is_reserved_windows_device_name component =
    let stem = to_upper (stem_of component) in
    is_one_of device_names stem
    || elim (device_number stem) [ none ↦ false | some number ↦ is_device_number number ]

-- `'<' | '>' | '"' | '|' | '?' | '*'`.
abbrev pub is_forbidden_char : ℕ → Bool
is_forbidden_char c = c == b'<' || c == b'>' || c == 34 || c == b'|' || c == b'?' || c == b'*'

unfoldable pub is_bad_windows_component : List ℕ → Bool
unfolding chars_eq ends_with is_reserved_windows_device_name
is_bad_windows_component component =
    is_empty component
    || is_one_of dots component
    || ends_with b'.' component
    || ends_with b' ' component
    || any is_forbidden_char component
    || is_reserved_windows_device_name component

-- The first three bytes are those of a drive, and others follow.
unfoldable pub is_bad_windows_path : List ℕ → Bool
unfolding ends_with split is_bad_windows_component
is_bad_windows_path (drive ∷ colon ∷ root ∷ rest) =
    is_empty rest
    || not (is_lower drive || is_upper drive)
    || not (colon == b':')
    || not (root == backslash)
    || ends_with backslash (drive ∷ colon ∷ root ∷ rest)
    || any (λ (c : ℕ). c == slash) (drive ∷ colon ∷ root ∷ rest)
    || any (λ (c : ℕ). c == b':') rest
    || any is_bad_windows_component (split backslash rest)
is_bad_windows_path _ = true

abbrev pub refused_path : OperatingSystem → List ℕ → Bool
refused_path linux value = is_bad_unix_path value
refused_path macos value = is_bad_unix_path value
refused_path windows value = is_bad_windows_path value

abbrev pub path_rule : OperatingSystem → String
path_rule windows = " must be a normalized absolute Windows drive path"
path_rule _ = " must be a normalized absolute Unix path"

unfoldable pub validate_native_manifest_path :
    String → String → OperatingSystem → Result ManifestError (Unit {0})
unfolding is_bad_unix_path is_bad_windows_path
validate_native_manifest_path name value os = do
  refuse_if (has_control value) (validation (String.◌++◌ name " contains control characters"))
  refuse_if (refused_path os (codes value)) (validation (String.◌++◌ name (path_rule os)))
  ok tt

-- The rest of the text begins with the separator.
abbrev pub begins_below : ℕ → Option (List ℕ) → Bool
begins_below separator none = false
begins_below separator (some rest) = starts_with (separator ∷ []) rest

unfoldable pub unix_is_or_descendant : List ℕ → List ℕ → Bool
unfolding chars_eq strip_prefix starts_with
unix_is_or_descendant path base = chars_eq path base || begins_below slash (strip_prefix base path)

unfoldable pub windows_is_or_descendant : List ℕ → List ℕ → Bool
unfolding to_lower chars_eq strip_prefix starts_with
windows_is_or_descendant path base =
    chars_eq (to_lower path) (to_lower base)
    || begins_below backslash (strip_prefix (to_lower base) (to_lower path))

-- `eq_ignore_ascii_case`.
abbrev pub same_letters : List ℕ → List ℕ → Bool
same_letters s t = chars_eq (to_lower s) (to_lower t)

unfoldable pub windows_has_component : List ℕ → List ℕ → Bool
unfolding split to_lower chars_eq
windows_has_component path expected =
    any (λ (component : List ℕ). same_letters component expected)
      (skip_first (split backslash path))

-- `windows(2)` of the components.
unfoldable pub any_pair : List ℕ → List ℕ → List (List ℕ) → Bool
unfolding to_lower chars_eq
any_pair first second [] = false
any_pair first second (a ∷ []) = false
any_pair first second (a ∷ b ∷ more) =
    same_letters a first && same_letters b second || any_pair first second (b ∷ more)

unfoldable pub windows_has_component_pair : List ℕ → List ℕ → List ℕ → Bool
unfolding any_pair split
windows_has_component_pair path first second =
    any_pair first second (skip_first (split backslash path))

unfoldable pub opposite_scope_family : OperatingSystem → InstallationScope → List ℕ → Bool
unfolding unix_is_or_descendant windows_is_or_descendant windows_has_component
    windows_has_component_pair ends_with_text any_match
opposite_scope_family linux user root =
    unix_is_or_descendant root (codes "/srv/styrn") || unix_is_or_descendant root (codes "/Users")
opposite_scope_family linux system root =
    any (unix_is_or_descendant root) (codes "/home" ∷ codes "/Users" ∷ codes "/root" ∷ [])
    || ends_with_text (codes "/.local/share") root
    || contains_text (codes "/.local/share/") root
opposite_scope_family macos user root =
    any (unix_is_or_descendant root)
      (codes "/Users/Shared/Styrn" ∷ codes "/Library/Application Support/Styrn" ∷ [])
opposite_scope_family macos system root =
    unix_is_or_descendant root (codes "/Users")
    && not (unix_is_or_descendant root (codes "/Users/Shared"))
opposite_scope_family windows user root =
    windows_is_or_descendant root (codes "C:\\Styrn")
    || windows_has_component root (codes "programdata")
opposite_scope_family windows system root =
    windows_has_component root (codes "users")
    || windows_has_component_pair root (codes "appdata") (codes "local")

abbrev pub separator_of : OperatingSystem → String
separator_of windows = "\\"
separator_of _ = "/"

abbrev pub child_path : OperatingSystem → String → String → String
child_path os root leaf = String.◌++◌ root (String.◌++◌ (separator_of os) leaf)

-- One round of the loop over the children.
unfoldable pub validate_child :
    OperatingSystem → String → String → String → String → Result ManifestError (Unit {0})
unfolding validate_native_manifest_path
validate_child os root name value leaf = do
  validate_native_manifest_path name value os
  refuse_if (not (str_eq value (child_path os root leaf))) (
      validation
        (String.◌++◌ name (String.◌++◌ " must be the " (String.◌++◌ leaf " child of paths.root"))))
  ok tt

unfoldable pub validate_for :
    Paths → OperatingSystem → InstallationScope → Result ManifestError (Unit {0})
unfolding validate_native_manifest_path validate_child opposite_scope_family
validate_for paths os scope = do
  validate_native_manifest_path "paths.root" paths.root os
  validate_child os paths.root "paths.repos" paths.repos "repos"
  validate_child os paths.root "paths.jobs" paths.jobs "jobs"
  validate_child os paths.root "paths.cache" paths.cache "cache"
  validate_child os paths.root "paths.artifacts" paths.artifacts "artifacts"
  validate_child os paths.root "paths.logs" paths.logs "logs"
  refuse_if (opposite_scope_family os scope (codes paths.root))
      (validation "paths.root conflicts with installation.scope or platform.os")
  ok tt
