-- ===== src/Transport/HostKey/Wire.antt =====
-- The keys of the lines that src/transport/ssh.rs reads.
use styrn.Common.{
  ℕ, ◌*◌, ◌≡◌, refl, sym, ap, ◌∙◌, inl, inr, Bool, true, not, ◌||◌, Option, none, some, List, [],
  ◌∷◌, ltb, length, is_empty, Result, ok, err, ◌>>=◌, ◌>>◌, >>=-eq-ok, refuse_if-eq-ok, >>-eq-ok,
  ok_or-eq-ok, ok_or, refuse_if, Bool-cases, arith, if◌then◌else◌,
}
use mathlib.Core.Path.{subst}
use styrn.Common.Text.{codes}
use styrn.Common.Chars.{chars_eq, chars_eq_iff, starts_with, words_from}
use styrn.Transport.HostKey.{
  TransportError, authentication, PinnedHostKey, KeyCrates, is_ascii_whitespace, is_supported,
  validate_public_key_wire, fingerprint_of, key_of, some_key, read_fields, read_line,
}

module _ (crates : KeyCrates) where
  -- The base64 of a key is that of bytes that are a public key of its algorithm, and its fingerprint is
  -- theirs.
  abbrev pub IsSoundKey : PinnedHostKey → Type 0
  IsSoundKey key =
      (wire : List ℕ) × (crates.decode key.base64 ≡ some wire)
      × (crates.encode wire ≡ key.base64)
      × (validate_public_key_wire key.algorithm wire ≡ ok tt)
      × (key.fingerprint ≡ fingerprint_of crates wire)
      × (is_supported key.algorithm ≡ true)

  key_of-eq :
      (algorithm encoded : List ℕ)
      → key_of crates algorithm encoded ≡ (
          refuse_if (ltb (16 * 1024) (length encoded)) authentication
          >> (ok_or (crates.decode encoded) authentication >>= λ wire.
              validate_public_key_wire algorithm wire
              >> (refuse_if (not (chars_eq (crates.encode wire) encoded)) authentication
                  >> ok (record {
                    algorithm = algorithm;
                    base64 = crates.encode wire;
                    fingerprint = fingerprint_of crates wire;
                  }))))
  unfolding key_of
  key_of-eq algorithm encoded = refl

  abbrev found : PinnedHostKey → Result TransportError PinnedHostKey
  found key = ok key

  found-injective : {a b : PinnedHostKey} → found a ≡ found b → a ≡ b
  found-injective e = cc

  sound :
      (algorithm encoded wire : List ℕ) (key : PinnedHostKey)
      → is_supported algorithm ≡ true
      → crates.decode encoded ≡ some wire
      → validate_public_key_wire algorithm wire ≡ ok tt
      → crates.encode wire ≡ encoded
      → record {
        algorithm = algorithm;
        base64 = crates.encode wire;
        fingerprint = fingerprint_of crates wire;
      }
        ≡ key
      → IsSoundKey key
  sound algorithm encoded wire key supported decoded valid canonical made =
      subst IsSoundKey made
        (wire, ap crates.decode canonical ∙ decoded, refl, valid, refl, supported)

  key_of-IsSoundKey :
      (algorithm encoded : List ℕ) (key : PinnedHostKey)
      → is_supported algorithm ≡ true
      → key_of crates algorithm encoded ≡ ok key
      → IsSoundKey key
  key_of-IsSoundKey algorithm encoded key supported h =
      let (_, later) =
        refuse_if-eq-ok (ltb (16 * 1024) (length encoded)) authentication _
          (sym (key_of-eq algorithm encoded) ∙ h) in
      let (wire, decoded, checked) =
        >>=-eq-ok (ok_or (crates.decode encoded) authentication) _ later in
      let (valid, last) = >>-eq-ok (validate_public_key_wire algorithm wire) _ checked in
      let (canonical, made) =
        refuse_if-eq-ok (not (chars_eq (crates.encode wire) encoded)) authentication _ last in
      sound algorithm encoded wire key supported
        (ok_or-eq-ok (crates.decode encoded) authentication decoded) valid
        ((chars_eq_iff (crates.encode wire) encoded).0 (ground arith)) (found-injective made)

  read_line-eq :
      (line : List ℕ)
      → read_line crates line ≡ (
          if is_empty line || starts_with (codes "#") line
          then ok none
          else read_fields crates (words_from is_ascii_whitespace [] line))
  unfolding read_line
  read_line-eq line = refl

  short_host :
      (b : Bool) {r : Result TransportError (Option PinnedHostKey)} {found : Option PinnedHostKey}
      → (if b then err authentication else r) ≡ ok found
      → r ≡ ok found
  short_host b h = ground arith

  not_skipped :
      (b : Bool) {r : Result TransportError (Option PinnedHostKey)} {key : PinnedHostKey}
      → (if b then ok none else r) ≡ ok (some key)
      → r ≡ ok (some key)
  not_skipped b h = ground arith

  some_key-eq :
      (r : Result TransportError PinnedHostKey) (key : PinnedHostKey)
      → some_key crates r ≡ ok (some key)
      → r ≡ ok key
  some_key-eq (ok k) key h = cc
  some_key-eq (err e) key h = absurd (ground arith)

  read_fields-IsSoundKey :
      (fields : List (List ℕ)) (key : PinnedHostKey)
      → read_fields crates fields ≡ ok (some key)
      → IsSoundKey key
  read_fields-IsSoundKey [] key h = absurd (ground arith)
  read_fields-IsSoundKey (host ∷ []) key h = absurd (ground arith)
  read_fields-IsSoundKey (host ∷ algorithm ∷ []) key h = absurd (ground arith)
  read_fields-IsSoundKey (host ∷ algorithm ∷ encoded ∷ []) key h =
      elim (Bool-cases (is_supported algorithm)) [
        | inl supported ↦ key_of-IsSoundKey algorithm encoded key supported (
            some_key-eq (key_of crates algorithm encoded) key
              (short_host (ltb 512 (length host)) (rw supported at h)))
        | inr other ↦ absurd (ground arith)
      ]
  read_fields-IsSoundKey (host ∷ algorithm ∷ encoded ∷ other ∷ more) key h = absurd (ground arith)

  -- A line that gives a key gives a sound one.
  pub read_line-IsSoundKey :
      (line : List ℕ) (key : PinnedHostKey) → read_line crates line ≡ ok (some key) → IsSoundKey key
  read_line-IsSoundKey line key h =
      read_fields-IsSoundKey (words_from is_ascii_whitespace [] line) key
        (not_skipped (is_empty line || starts_with (codes "#") line) (sym (read_line-eq line) ∙ h))
