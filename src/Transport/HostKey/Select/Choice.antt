-- ===== src/Transport/HostKey/Select/Choice.antt =====
-- The choices of `select_scan` and `verify_scanned_host_key` of src/transport/ssh.rs.
use styrn.Common.{
  ℕ, ◌≡◌, refl, sym, ◌∙◌, ◌⊎◌, inl, inr, true, not, ◌||◌, Option, none, some, List, [], ltb, length,
  is_empty, Result, ok, ◌>>=◌, ◌>>◌, >>=-eq-ok, refuse_if-eq-ok, ok_or-eq-ok, ok_or, refuse_if,
  Bool-cases, arith,
}
use mathlib.Core.List.{Memᴰ}
use mathlib.Core.List.Memᴰ
use mathlib.Core.Path.{subst}
use styrn.Common.Chars.{chars_eq_iff}
use styrn.Common.Utf8.{is_utf8}
use styrn.Transport.HostKey.{
  is_supported, TransportError, authentication, PinnedHostKey, KeyCrates, max_keyscan_bytes, lines,
  validate_fingerprint,
}
use styrn.Transport.HostKey.Wire.{IsSoundKey, read_line-IsSoundKey}
use styrn.Transport.HostKey.Select.{
  best_priority, keep, only_one, has_fingerprint, has_priority, choose, key_eq, scan_lines,
  validate_requested, select_scan, verify_scanned_host_key,
}
use styrn.Transport.HostKey.Select.Order.{Outranks, ranked}
use styrn.Transport.HostKey.Select.Matches.{only-match, best_priority-le}
use styrn.Transport.HostKey.Select.Laws.{Offers, Scanned, scan_lines-Scanned, key_path}

abbrev asked : Option (List ℕ) → Result TransportError (Option (List ℕ))
asked o = ok o

requested_value :
    (value fingerprint : List ℕ) (requested : Option (List ℕ))
    → value ≡ fingerprint
    → asked (some value) ≡ asked requested
    → requested ≡ some fingerprint
requested_value value fingerprint requested e h = cc

choose-some :
    (requested : List ℕ) (keys : List PinnedHostKey)
    → choose (some requested) keys ≡ only_one (keep (has_fingerprint requested) keys)
unfolding choose
choose-some requested keys = refl

choose-none :
    (keys : List PinnedHostKey)
    → choose none keys ≡ (
        ok_or (best_priority keys) authentication >>= λ priority.
        only_one (keep (has_priority priority) keys))
unfolding choose
choose-none keys = refl

module _ (crates : KeyCrates) where
  select_scan-eq :
      (bytes : List ℕ) (fingerprint : Option (List ℕ))
      → select_scan crates bytes fingerprint ≡ (
          refuse_if
            (is_empty bytes || ltb max_keyscan_bytes (length bytes) || not (is_utf8 bytes))
            authentication
          >> (validate_requested crates fingerprint >>= λ requested.
              scan_lines crates [] (lines bytes) >>= λ keys. choose requested keys))
  unfolding select_scan
  select_scan-eq bytes fingerprint = refl

  -- What a choice was made from.
  abbrev ChosenFrom : List ℕ → Option (List ℕ) → PinnedHostKey → Type 0
  ChosenFrom bytes fingerprint key =
      (requested : Option (List ℕ)) × (keys : List PinnedHostKey) × (validate_requested crates
          fingerprint
        ≡ ok requested)
      × Scanned crates [] (lines bytes) keys
      × (choose requested keys ≡ ok key)

  select_scan-ChosenFrom :
      (bytes : List ℕ) (fingerprint : Option (List ℕ)) (key : PinnedHostKey)
      → select_scan crates bytes fingerprint ≡ ok key
      → ChosenFrom bytes fingerprint key
  select_scan-ChosenFrom bytes fingerprint key h =
      let (_, later) =
        refuse_if-eq-ok
          (is_empty bytes || ltb max_keyscan_bytes (length bytes) || not (is_utf8 bytes))
          authentication _ (sym (select_scan-eq bytes fingerprint) ∙ h) in
      let (requested, e, scanning) = >>=-eq-ok (validate_requested crates fingerprint) _ later in
      let (keys, scanned, chosen) = >>=-eq-ok (scan_lines crates [] (lines bytes)) _ scanning in
      (requested, keys, e, scan_lines-Scanned crates [] (lines bytes) keys tt scanned, chosen)

  offered :
      (bytes : List ℕ) (keys : List PinnedHostKey) (key : PinnedHostKey)
      → Scanned crates [] (lines bytes) keys
      → Memᴰ key keys
      → Offers crates (lines bytes) key
  offered bytes keys key (_, only, _) member = elim (only key member) [
    | inl nothing ↦ absurd (Memᴰ.not-nil nothing)
    | inr offer ↦ offer
  ]

  validate_fingerprint-eq-ok :
      (value requested : List ℕ)
      → validate_fingerprint crates value ≡ ok requested
      → requested ≡ value
  unfolding validate_fingerprint
  validate_fingerprint-eq-ok value requested h = ground arith

  requested_lem :
      (fingerprint : List ℕ) (requested : Option (List ℕ))
      → validate_requested crates (some fingerprint) ≡ ok requested
      → requested ≡ some fingerprint
  requested_lem fingerprint requested h =
      let (value, e, made) = >>=-eq-ok (validate_fingerprint crates fingerprint) _ h in
      requested_value value fingerprint requested (validate_fingerprint-eq-ok fingerprint value e)
        made

  requested_none :
      (requested : Option (List ℕ))
      → validate_requested crates none ≡ ok requested
      → requested ≡ none
  requested_none requested h = cc

  -- The key that is chosen for a fingerprint stands in a line of the scan, has that fingerprint, and
  -- is the only key of the scan that has it.
  pub select_scan-requested :
      (bytes fingerprint : List ℕ) (key : PinnedHostKey)
      → select_scan crates bytes (some fingerprint) ≡ ok key
      → Offers crates (lines bytes) key
        × (key.fingerprint ≡ fingerprint)
        × ((other : PinnedHostKey)
            → Offers crates (lines bytes) other
            → other.fingerprint ≡ fingerprint
            → other ≡ key)
  select_scan-requested bytes fingerprint key h =
      let (requested, keys, e, scanned, chosen) =
        select_scan-ChosenFrom bytes (some fingerprint) key h in
      let asked = requested_lem fingerprint requested e in
      let one = subst (λ (o : Option (List ℕ)). choose o keys ≡ ok key) asked chosen in
      let ((member, holds), unique) =
        only-match (has_fingerprint fingerprint) keys key
          (sym (choose-some fingerprint keys) ∙ one) in
      (
        offered bytes keys key scanned member,
        (chars_eq_iff key.fingerprint fingerprint).0 holds,
        λ other offer same.
            unique other (scanned.2 other (inr offer))
              ((chars_eq_iff other.fingerprint fingerprint).1 same),
      )

  offered-supported :
      (bytes : List ℕ) (key : PinnedHostKey)
      → Offers crates (lines bytes) key
      → is_supported key.algorithm ≡ true
  offered-supported bytes key (line, at, read) =
      let (wire, _, _, _, _, supported) = read_line-IsSoundKey crates line key read in supported

  -- Where no fingerprint is asked for, the key that is chosen stands in a line of the scan, and every
  -- other key of the scan is of an algorithm that is outranked: Ed25519 is before ECDSA, and both are
  -- before RSA.
  pub select_scan-best :
      (bytes : List ℕ) (key : PinnedHostKey)
      → select_scan crates bytes none ≡ ok key
      → Offers crates (lines bytes) key
        × ((other : PinnedHostKey)
            → Offers crates (lines bytes) other
            → Outranks key.algorithm other.algorithm ⊎ (other ≡ key))
  select_scan-best bytes key h =
      let (requested, keys, e, scanned, chosen) = select_scan-ChosenFrom bytes none key h in
      let one =
        subst (λ (o : Option (List ℕ)). choose o keys ≡ ok key) (requested_none requested e)
          chosen in
      let (priority, best, last) =
        >>=-eq-ok (ok_or (best_priority keys) authentication) _ (sym (choose-none keys) ∙ one) in
      let least = ok_or-eq-ok (best_priority keys) authentication best in
      let ((member, holds), unique) = only-match (has_priority priority) keys key last in
      (
        offered bytes keys key scanned member,
        λ other offer.
            let inside = scanned.2 other (inr offer) in
            let le = best_priority-le keys priority other least inside in
            elim (Bool-cases (has_priority priority other)) [
              | inl same ↦ inr (unique other inside same)
              | inr differs ↦ inl (
                  ranked key.algorithm other.algorithm
                    (offered-supported bytes key (offered bytes keys key scanned member))
                    (offered-supported bytes other offer) (ground arith))
            ],
      )

  verify-eq :
      (expected : PinnedHostKey) (scan : List ℕ)
      → verify_scanned_host_key crates expected scan ≡ (
          select_scan crates scan (some expected.fingerprint) >>= λ observed.
          refuse_if (not (key_eq observed expected)) authentication)
  unfolding verify_scanned_host_key
  verify-eq expected scan = refl

  key_eq-eq : (a b : PinnedHostKey) → key_eq a b ≡ true → a ≡ b
  key_eq-eq a b h =
      key_path a b (ground (arith, chars_eq_iff a.algorithm b.algorithm))
        (ground (arith, chars_eq_iff a.base64 b.base64))
        (ground (arith, chars_eq_iff a.fingerprint b.fingerprint))

  -- A host is trusted only if its scan shows the pinned key itself: in a line of its own, sound, and
  -- as the only key with its fingerprint.
  pub verify_scanned_host_key-Offers :
      (expected : PinnedHostKey) (scan : List ℕ)
      → verify_scanned_host_key crates expected scan ≡ ok tt
      → Offers crates (lines scan) expected
        × IsSoundKey crates expected
        × ((other : PinnedHostKey)
            → Offers crates (lines scan) other
            → other.fingerprint ≡ expected.fingerprint
            → other ≡ expected)
  verify_scanned_host_key-Offers expected scan h =
      let (observed, selected, same) =
        >>=-eq-ok (select_scan crates scan (some expected.fingerprint)) _
          (sym (verify-eq expected scan) ∙ h) in
      let e = key_eq-eq observed expected (ground arith) in
      let (offer, _, unique) = select_scan-requested scan expected.fingerprint observed selected in
      let (line, at, read) = subst (Offers crates (lines scan)) e offer in
      (
        (line, at, read),
        read_line-IsSoundKey crates line expected read,
        λ other given fits. unique other given fits ∙ e,
      )
