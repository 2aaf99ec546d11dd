-- ===== src/Transport/HostKey/Select.antt =====
-- `PinnedHostKey::select_scan` and `verify_scanned_host_key` of src/transport/ssh.rs.
pub mod Matches
pub mod Order
pub mod Laws
pub mod Choice
use styrn.Common.{
  ℕ, zero, suc, ◌==◌, Bool, true, false, not, ◌&&◌, ◌||◌, Option, none, some, List, [], ◌∷◌, ◌++◌,
  ltb, length, any, is_empty, Result, ok, err, ◌>>=◌, ◌>>◌, ok_or, refuse_if, if◌then◌else◌,
}
use styrn.Common.Chars.{chars_eq}
use styrn.Common.Utf8.{is_utf8}
use styrn.Transport.HostKey.{
  TransportError, authentication, PinnedHostKey, Checked, KeyCrates, max_keyscan_bytes, lines,
  algorithm_priority, validate_fingerprint, read_line,
}

-- One entry of `seen`.
abbrev pub same_key : PinnedHostKey → PinnedHostKey → Bool
same_key key other = chars_eq key.algorithm other.algorithm && chars_eq key.base64 other.base64

-- `if seen.insert(…) { keys.push(key) }`.
abbrev pub add_key : List PinnedHostKey → Option PinnedHostKey → List PinnedHostKey
add_key keys none = keys
add_key keys (some key) = if any (same_key key) keys then keys else keys ++ key ∷ []

-- The algorithm's priority is the least so far.
abbrev pub least : Option ℕ → ℕ → ℕ
least none n = n
least (some m) n = if ltb n m then n else m

-- `iter().map(…).min()`.
unfoldable pub best_priority : List PinnedHostKey → Option ℕ
best_priority [] = none
best_priority (key ∷ keys) = some (least (best_priority keys) (algorithm_priority key.algorithm))

unfoldable pub keep : (PinnedHostKey → Bool) → List PinnedHostKey → List PinnedHostKey
keep p [] = []
keep p (key ∷ keys) = let rest = keep p keys in if p key then key ∷ rest else rest

-- The first of the matches, which has to be the only one.
abbrev pub only_one : List PinnedHostKey → Result TransportError PinnedHostKey
only_one (key ∷ []) = ok key
only_one _ = err authentication

abbrev pub has_fingerprint : List ℕ → PinnedHostKey → Bool
has_fingerprint requested key = chars_eq key.fingerprint requested

abbrev pub has_priority : ℕ → PinnedHostKey → Bool
has_priority priority key = algorithm_priority key.algorithm == priority

unfoldable pub choose : Option (List ℕ) → List PinnedHostKey → Result TransportError PinnedHostKey
unfolding keep best_priority chars_eq
choose (some requested) keys = only_one (keep (has_fingerprint requested) keys)
choose none keys = do
  priority ← ok_or (best_priority keys) authentication
  only_one (keep (has_priority priority) keys)

abbrev pub key_eq : PinnedHostKey → PinnedHostKey → Bool
key_eq key other = same_key key other && chars_eq key.fingerprint other.fingerprint

module _ (crates : KeyCrates) where
  -- The loop over the lines.
  unfoldable pub scan_lines :
      List PinnedHostKey → List (List ℕ) → Result TransportError (List PinnedHostKey)
  unfolding read_line
  scan_lines keys [] = ok keys
  scan_lines keys (line ∷ more) =
      read_line crates line >>= λ found. scan_lines (add_key keys found) more

  abbrev pub validate_requested : Option (List ℕ) → Result TransportError (Option (List ℕ))
  validate_requested none = ok none
  validate_requested (some fingerprint) = do
    requested ← validate_fingerprint crates fingerprint
    ok (some requested)

  unfoldable pub select_scan : List ℕ → Option (List ℕ) → Result TransportError PinnedHostKey
  unfolding scan_lines lines choose validate_fingerprint
  select_scan bytes fingerprint = do
    refuse_if (is_empty bytes || ltb max_keyscan_bytes (length bytes) || not (is_utf8 bytes))
        authentication
    requested ← validate_requested fingerprint
    keys ← scan_lines [] (lines bytes)
    choose requested keys

  unfoldable pub verify_scanned_host_key : PinnedHostKey → List ℕ → Checked
  unfolding select_scan
  verify_scanned_host_key expected scan = do
    observed ← select_scan scan (some expected.fingerprint)
    refuse_if (not (key_eq observed expected)) authentication
