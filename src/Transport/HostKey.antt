-- ===== src/Transport/HostKey.antt =====
-- `PinnedHostKey` of src/transport/ssh.rs: the choice of a host's key from what `ssh-keyscan` prints. The
-- crates base64 and sha2 are the parameter `KeyCrates`; a text of the scan is the list of its code points.
pub mod Wire
pub mod Select
use styrn.Common.{
  ℕ, zero, suc, ◌+◌, ◌*◌, ◌-◌, ◌==◌, Bool, true, false, not, ◌&&◌, ◌||◌, Option, none, some, String,
  len, List, [], ◌∷◌, ◌++◌, ltb, leb, length, all, any, is_empty, Result, ok, err, ◌>>=◌, ◌>>◌,
  ok_or, refuse_if, if◌then◌else◌,
}
use styrn.Common.Text.{codes, split}
use styrn.Common.Chars.{chars_eq, starts_with, strip_prefix, words_from}
use styrn.Output.Code.{
  ErrorCode, capability_unsatisfied, transport_unreachable, transport_auth_failed,
}

-- `TransportErrorKind`.
pub data TransportError : Type 0 where
  capability_unavailable unreachable authentication : TransportError

abbrev pub code : TransportError → ErrorCode
code capability_unavailable = capability_unsatisfied
code unreachable = transport_unreachable
code authentication = transport_auth_failed

pub record PinnedHostKey : Type 0 where
  pub algorithm : List ℕ
  pub base64 : List ℕ
  pub fingerprint : List ℕ

abbrev pub Checked : Type 0
Checked = Result TransportError (Unit {0})

-- `STANDARD` and `STANDARD_NO_PAD` of base64, `Sha256::digest` of sha2.
pub record KeyCrates : Type 0 where
  pub decode : List ℕ → Option (List ℕ)
  pub encode : List ℕ → List ℕ
  pub decode_no_pad : List ℕ → Option (List ℕ)
  pub encode_no_pad : List ℕ → List ℕ
  pub sha256 : List ℕ → List ℕ

abbrev pub max_keyscan_bytes : ℕ
max_keyscan_bytes = 1024 * 1024

-- `str::lines`: the pieces that a newline ends, without a carriage return at their end, and the rest if
-- it is not empty.
unfoldable pub strip_return : List ℕ → List ℕ
strip_return [] = []
strip_return (c ∷ []) = if c == 13 then [] else c ∷ []
strip_return (c ∷ d ∷ s) = c ∷ strip_return (d ∷ s)

unfoldable pub ended_lines : List (List ℕ) → List (List ℕ)
unfolding strip_return
ended_lines [] = []
ended_lines (last ∷ []) = if is_empty last then [] else last ∷ []
ended_lines (line ∷ next ∷ more) = strip_return line ∷ ended_lines (next ∷ more)

unfoldable pub lines : List ℕ → List (List ℕ)
unfolding ended_lines split
lines text = ended_lines (split 10 text)

-- `char::is_ascii_whitespace`.
abbrev pub is_ascii_whitespace : ℕ → Bool
is_ascii_whitespace c = c == 32 || c == 9 || c == 10 || c == 12 || c == 13

abbrev pub ed25519 : List ℕ
ed25519 = codes "ssh-ed25519"

abbrev pub nistp256 : List ℕ
nistp256 = codes "ecdsa-sha2-nistp256"

abbrev pub rsa : List ℕ
rsa = codes "ssh-rsa"

abbrev pub algorithm_priority : List ℕ → ℕ
algorithm_priority algorithm =
    if chars_eq algorithm ed25519
    then 0
    else if chars_eq algorithm nistp256
    then 1
    else if chars_eq algorithm rsa
    then 2
    else 255

abbrev pub is_supported : List ℕ → Bool
is_supported algorithm =
    chars_eq algorithm ed25519 || chars_eq algorithm nistp256 || chars_eq algorithm rsa

-- `wire.get(4..4 + length)` and the rest.
unfoldable pub take_bytes : ℕ → List ℕ → Option (List ℕ × List ℕ)
take_bytes zero s = some ([], s)
take_bytes (suc n) [] = none
take_bytes (suc n) (c ∷ s) = elim (take_bytes n s) [
  | none ↦ none
  | some (taken, rest) ↦ some (c ∷ taken, rest)
]

unfoldable pub take_ssh_string : List ℕ → Result TransportError (List ℕ × List ℕ)
unfolding take_bytes
take_ssh_string (a ∷ b ∷ c ∷ d ∷ wire) =
    ok_or (take_bytes (((a * 256 + b) * 256 + c) * 256 + d) wire) authentication
take_ssh_string _ = err authentication

abbrev pub begins_with : ℕ → List ℕ → Bool
begins_with c [] = false
begins_with c (d ∷ s) = d == c

-- What stands behind the name of the algorithm.
unfoldable pub validate_key_body : List ℕ → List ℕ → Checked
unfolding take_ssh_string chars_eq
validate_key_body algorithm wire =
    if chars_eq algorithm ed25519
    then (do
      (key, rest) ← take_ssh_string wire
      refuse_if (not (length key == 32) || not (is_empty rest)) authentication)
    else if chars_eq algorithm nistp256
    then (do
      (curve, wire') ← take_ssh_string wire
      refuse_if (not (chars_eq curve (codes "nistp256"))) authentication
      (point, rest) ← take_ssh_string wire'
      refuse_if (not (length point == 65) || not (begins_with 4 point) || not (is_empty rest))
          authentication)
    else if chars_eq algorithm rsa
    then (do
      (exponent, wire') ← take_ssh_string wire
      (modulus, rest) ← take_ssh_string wire'
      refuse_if (is_empty exponent || ltb (length modulus) 256 || not (is_empty rest))
          authentication)
    else err authentication

unfoldable pub validate_public_key_wire : List ℕ → List ℕ → Checked
unfolding validate_key_body
validate_public_key_wire algorithm wire = do
  (name, rest) ← take_ssh_string wire
  refuse_if (not (chars_eq name algorithm)) authentication
  validate_key_body algorithm rest

module _ (crates : KeyCrates) where
  unfoldable pub validate_fingerprint : List ℕ → Result TransportError (List ℕ)
  unfolding strip_prefix chars_eq
  validate_fingerprint value = do
    encoded ← ok_or (strip_prefix (codes "SHA256:") value) authentication
    refuse_if (not (length encoded == 43) || any (λ (c : ℕ). c == b'=') encoded) authentication
    decoded ← ok_or (crates.decode_no_pad encoded) authentication
    refuse_if (not (length decoded == 32) || not (chars_eq (crates.encode_no_pad decoded) encoded))
        authentication
    ok value

  abbrev pub fingerprint_of : List ℕ → List ℕ
  fingerprint_of wire = codes "SHA256:" ++ crates.encode_no_pad (crates.sha256 wire)

  -- The key of a line with three fields whose algorithm is supported.
  unfoldable pub key_of : List ℕ → List ℕ → Result TransportError PinnedHostKey
  unfolding validate_public_key_wire chars_eq
  key_of algorithm encoded = do
    refuse_if (ltb (16 * 1024) (length encoded)) authentication
    wire ← ok_or (crates.decode encoded) authentication
    validate_public_key_wire algorithm wire
    refuse_if (not (chars_eq (crates.encode wire) encoded)) authentication
    ok (record {
      algorithm = algorithm;
      base64 = crates.encode wire;
      fingerprint = fingerprint_of wire;
    })

  abbrev pub some_key :
      Result TransportError PinnedHostKey → Result TransportError (Option PinnedHostKey)
  some_key (ok key) = ok (some key)
  some_key (err e) = err e

  abbrev pub read_fields : List (List ℕ) → Result TransportError (Option PinnedHostKey)
  read_fields (host ∷ algorithm ∷ encoded ∷ []) =
      if ltb 512 (length host)
      then err authentication
      else if is_supported algorithm
      then some_key (key_of algorithm encoded)
      else ok none
  read_fields _ = err authentication

  -- One round of the loop: `none` where it goes on.
  unfoldable pub read_line : List ℕ → Result TransportError (Option PinnedHostKey)
  unfolding key_of words_from starts_with
  read_line line =
      if is_empty line || starts_with (codes "#") line
      then ok none
      else read_fields (words_from is_ascii_whitespace [] line)
