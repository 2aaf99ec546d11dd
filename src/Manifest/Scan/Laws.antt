-- ===== src/Manifest/Scan/Laws.antt =====
-- What `scan_secret_free` of src/manifest/mod.rs accepts, and what its errors show.
use styrn.Common.{
  ℕ, ◌+◌, ◌≡◌, refl, sym, ◌↔◌, inl, inr, Bool, true, false, not, ◌&&◌, String, List, Result, ok,
  err, ◌>>◌, Result-cases, Bool-cases, arith,
}
use mathlib.Core.Path.{subst}
use styrn.Common.Text.{codes}
use styrn.Common.Decimal.{decimal}
use styrn.Json.Defs.{
  Value, null, bool, number, text, array, object, Items, nil, cons, Fields, end, field,
}
use styrn.Manifest.Defs.{ManifestError, secret}
use styrn.Manifest.Secrets.{is_private_key, is_compact_jwt, is_forbidden_secret_name}
use styrn.Manifest.Scan.{
  in_brackets, redacted_key_path, json_field_path, check_text, check_key, scan_secret_free,
  scan_items, scan_fields,
}

module _ (is_object_header : List ℕ → Bool) where
  -- A text that is no key material and no token.
  abbrev pub is_clean_text : String → Bool
  is_clean_text value =
      not (is_private_key (codes value)) && not (is_compact_jwt is_object_header (codes value))

  abbrev pub is_clean_key : String → Bool
  is_clean_key key = is_clean_text key && not (is_forbidden_secret_name (codes key))

  -- Every key in the value is clean, and every text.
  unfoldable mutual
    pub is_clean : Value → Bool
    is_clean null = true
    is_clean (bool b) = true
    is_clean (number n) = true
    is_clean (text value) = is_clean_text value
    is_clean (array values) = are_clean_items values
    is_clean (object fs) = are_clean_fields fs

    pub are_clean_items : Items → Bool
    are_clean_items nil = true
    are_clean_items (cons v vs) = is_clean v && are_clean_items vs

    pub are_clean_fields : Fields → Bool
    are_clean_fields end = true
    are_clean_fields (field key v fs) = (is_clean_key key && is_clean v) && are_clean_fields fs

  module _ (quote : String → String) where
    check_text_iff :
        (value path : String)
        → (check_text is_object_header value path ≡ ok tt) ↔ (is_clean_text value ≡ true)
    check_text_iff value path = ground arith

    check_key_iff :
        (key path field_path : String)
        → (check_key is_object_header key path field_path ≡ ok tt) ↔ (is_clean_key key ≡ true)
    check_key_iff key path field_path = ground arith

    mutual
      unfolding scan_secret_free is_clean

      value_iff :
          (v : Value) (path : String)
          → (scan_secret_free is_object_header quote v path ≡ ok tt) ↔ (is_clean v ≡ true)
      value_iff null path = ground arith
      value_iff (bool b) path = ground arith
      value_iff (number n) path = ground arith
      value_iff (text value) path = check_text_iff value path
      value_iff (array values) path = items_iff values 0 path
      value_iff (object fs) path = fields_iff fs path

      items_iff :
          (vs : Items) (index : ℕ) (path : String)
          → (scan_items is_object_header quote vs index path ≡ ok tt) ↔ (are_clean_items vs ≡ true)
      items_iff nil index path = ground arith
      items_iff (cons v vs) index path = ground (
        arith,
        value_iff v (in_brackets path (decimal index)),
        items_iff vs (index + 1) path,
        Result-cases (scan_secret_free is_object_header quote v (in_brackets path (decimal index))),
      )

      fields_iff :
          (fs : Fields) (path : String)
          → (scan_fields is_object_header quote fs path ≡ ok tt) ↔ (are_clean_fields fs ≡ true)
      fields_iff end path = ground arith
      fields_iff (field key v fs) path =
          let own = json_field_path quote path key in
          elim (Result-cases (check_key is_object_header key path own)) [
            | inl passed ↦
                rw (passed, (check_key_iff key path own).0 passed)
                  (ground (
                    arith,
                    value_iff v own,
                    fields_iff fs path,
                    Result-cases (scan_secret_free is_object_header quote v own),
                  ))
            | inr (e, failed) ↦ rw failed (ground (arith, check_key_iff key path own))
          ]

    -- A value passes the scan exactly when no key in it, at any depth, is key material, a token or a
    -- forbidden name, and no text in it is key material or a token.
    pub scan_secret_free_iff :
        (v : Value) (path : String)
        → (scan_secret_free is_object_header quote v path ≡ ok tt) ↔ (is_clean v ≡ true)
    scan_secret_free_iff v path = value_iff v path

    -- The path `p` is that of a value below `path`: the keys on the way are no key material and no
    -- token, and one that is stands redacted at the end.
    pub data Leads (p : String) : String → Type 0 where
      here : {path : String} → p ≡ path → Leads p path
      redacted : {path : String} → p ≡ redacted_key_path path → Leads p path
      item : {path : String} (index : ℕ) → Leads p (in_brackets path (decimal index)) → Leads p path
      member :
          {path : String} (key : String)
          → is_clean_text key ≡ true
          → Leads p (json_field_path quote path key)
          → Leads p path

    -- An error that shows only such a path.
    abbrev pub IsRedacted : String → Result ManifestError (Unit {0}) → Type 0
    IsRedacted path (ok passed) = Unit
    IsRedacted path (err (secret p reason)) = Leads p path
    IsRedacted path (err e) = ⊥

    check_text-IsRedacted :
        (value path : String) → IsRedacted path (check_text is_object_header value path)
    check_text-IsRedacted value path = elim (Bool-cases (is_private_key (codes value))) [
      | inl e ↦ rw e (here refl)
      | inr e ↦ elim (Bool-cases (is_compact_jwt is_object_header (codes value))) [
        | inl f ↦ rw (e, f) (here refl)
        | inr f ↦ rw (e, f) tt
      ]
    ]

    secret_key-err :
        (key path own : String)
        → is_clean_text key ≡ false
        → (reason : String) × (check_key is_object_header key path own
            ≡ err (secret (redacted_key_path path) reason))
    secret_key-err key path own h = elim (Bool-cases (is_private_key (codes key))) [
      | inl e ↦ ("private key material in object key", ground arith)
      | inr e ↦ ("JWT-shaped credential in object key", ground arith)
    ]

    check_key-IsRedacted :
        (key path : String)
        → IsRedacted path (check_key is_object_header key path (json_field_path quote path key))
    check_key-IsRedacted key path =
        let own = json_field_path quote path key in
        let checked = check_key is_object_header key path own in
        elim (Bool-cases (is_clean_text key)) [
          | inl clean ↦ elim (Bool-cases (is_forbidden_secret_name (codes key))) [
            | inl e ↦
                let failed : checked ≡ err (secret own "forbidden secret-bearing field name") =
                  ground arith in
                subst (IsRedacted path) (sym failed) (member key clean (here refl))
            | inr e ↦
                let passed : checked ≡ ok tt = ground arith in
                subst (IsRedacted path) (sym passed) tt
          ]
          | inr e ↦
              let (reason, failed) = secret_key-err key path own e in
              subst (IsRedacted path) (sym failed) (redacted refl)
        ]

    passed_key :
        (key path own : String)
        → check_key is_object_header key path own ≡ ok tt
        → is_clean_text key ≡ true
    passed_key key path own passed = ground arith

    -- A check of a place further down, and then the rest.
    IsRedacted-then :
        (path below : String)
        → ((p : String) → Leads p below → Leads p path)
        → (first rest : Result ManifestError (Unit {0})) → IsRedacted below first
        → IsRedacted path rest
        → IsRedacted path (first >> rest)
    IsRedacted-then path below up (ok passed) rest h g = g
    IsRedacted-then path below up (err (secret p reason)) rest h g = up p h
    IsRedacted-then path below up (err e) rest h g = absurd h

    mutual
      unfolding scan_secret_free

      value-IsRedacted :
          (v : Value) (path : String)
          → IsRedacted path (scan_secret_free is_object_header quote v path)
      value-IsRedacted null path = tt
      value-IsRedacted (bool b) path = tt
      value-IsRedacted (number n) path = tt
      value-IsRedacted (text value) path = check_text-IsRedacted value path
      value-IsRedacted (array values) path = items-IsRedacted values 0 path
      value-IsRedacted (object fs) path = fields-IsRedacted fs path

      items-IsRedacted :
          (vs : Items) (index : ℕ) (path : String)
          → IsRedacted path (scan_items is_object_header quote vs index path)
      items-IsRedacted nil index path = tt
      items-IsRedacted (cons v vs) index path =
          IsRedacted-then path (in_brackets path (decimal index)) (λ p. item index)
            (scan_secret_free is_object_header quote v (in_brackets path (decimal index)))
            (scan_items is_object_header quote vs (index + 1) path)
            (value-IsRedacted v (in_brackets path (decimal index)))
            (items-IsRedacted vs (index + 1) path)

      fields-IsRedacted :
          (fs : Fields) (path : String)
          → IsRedacted path (scan_fields is_object_header quote fs path)
      fields-IsRedacted end path = tt
      fields-IsRedacted (field key v fs) path =
          let own = json_field_path quote path key in
          elim (Result-cases (check_key is_object_header key path own)) [
            | inl passed ↦ rw passed (
                IsRedacted-then path own (λ p. member key (passed_key key path own passed))
                  (scan_secret_free is_object_header quote v own)
                  (scan_fields is_object_header quote fs path) (value-IsRedacted v own)
                  (fields-IsRedacted fs path))
            | inr (e, failed) ↦
                rw failed (subst (IsRedacted path) failed (check_key-IsRedacted key path))
          ]

    -- An error of the scan is about a place below `path`, shown without any key that is key material
    -- or a token.
    pub scan_secret_free-IsRedacted :
        (v : Value) (path : String)
        → IsRedacted path (scan_secret_free is_object_header quote v path)
    scan_secret_free-IsRedacted v path = value-IsRedacted v path
