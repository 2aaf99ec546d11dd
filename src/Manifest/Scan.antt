-- ===== src/Manifest/Scan.antt =====
-- `scan_secret_free` and `prune_nulls` of src/manifest/mod.rs, on the fields of an object in the order
-- in which serde_json's map gives them. `quote` is `serde_json::to_string` of a key.
pub mod Laws
pub mod Pruned
use Prim.Native.String
use styrn.Common.{
  ℕ, suc, ◌+◌, ◌==◌, ◌≡◌, refl, ◌↔◌, Bool, true, false, not, ◌&&◌, ◌||◌, Option, none, some, String,
  List, [], ◌∷◌, ◌++◌, all, Result, ok, err, ◌>>◌, Result-cases, Bool-cases, arith, if◌then◌else◌,
}
use styrn.Common.Text.{codes, is_alphanumeric}
use styrn.Common.Decimal.{decimal}
use styrn.Json.Defs.{
  Value, null, bool, number, text, array, object, Items, nil, cons, Fields, end, field,
}
use styrn.Manifest.Defs.{ManifestError, secret}
use styrn.Manifest.Secrets.{is_private_key, is_compact_jwt, is_forbidden_secret_name}

abbrev pub in_brackets : String → String → String
in_brackets path inside = String.◌++◌ path (String.◌++◌ "[" (String.◌++◌ inside "]"))

abbrev pub redacted_key_path : String → String
redacted_key_path parent = String.◌++◌ parent "[redacted-secret-key]"

abbrev is_plain_key_char : ℕ → Bool
is_plain_key_char c = is_alphanumeric c || c == b'_'

module _ (quote : String → String) where
  abbrev pub json_field_path : String → String → String
  json_field_path parent key =
      if all is_plain_key_char (codes key)
      then String.◌++◌ parent (String.◌++◌ "." key)
      else in_brackets parent (quote key)

module _ (is_object_header : List ℕ → Bool) where
  abbrev pub secret_shaped_key_reason : String → Option String
  secret_shaped_key_reason key =
      if is_private_key (codes key)
      then some "private key material in object key"
      else if is_compact_jwt is_object_header (codes key)
      then some "JWT-shaped credential in object key"
      else none

  abbrev pub check_text : String → String → Result ManifestError (Unit {0})
  check_text value path =
      if is_private_key (codes value)
      then err (secret path "private key material")
      else if is_compact_jwt is_object_header (codes value)
      then err (secret path "JWT-shaped credential")
      else ok tt

  -- The checks of a key, under the path of its object and its own path.
  abbrev pub check_key : String → String → String → Result ManifestError (Unit {0})
  check_key key path field_path = elim (secret_shaped_key_reason key) [
    | some reason ↦ err (secret (redacted_key_path path) reason)
    | none ↦
        if is_forbidden_secret_name (codes key)
        then err (secret field_path "forbidden secret-bearing field name")
        else ok tt
  ]

  module _ (quote : String → String) where
    unfoldable mutual
      pub scan_secret_free : Value → String → Result ManifestError (Unit {0})
      scan_secret_free null path = ok tt
      scan_secret_free (bool b) path = ok tt
      scan_secret_free (number n) path = ok tt
      scan_secret_free (text value) path = check_text value path
      scan_secret_free (array values) path = scan_items values 0 path
      scan_secret_free (object fs) path = scan_fields fs path

      pub scan_items : Items → ℕ → String → Result ManifestError (Unit {0})
      scan_items nil index path = ok tt
      scan_items (cons v vs) index path =
          scan_secret_free v (in_brackets path (decimal index)) >> scan_items vs (index + 1) path

      pub scan_fields : Fields → String → Result ManifestError (Unit {0})
      scan_fields end path = ok tt
      scan_fields (field key v fs) path =
          check_key key path (json_field_path quote path key)
          >> (scan_secret_free v (json_field_path quote path key) >> scan_fields fs path)

-- `values.retain(|_, value| !value.is_null())` and the walk of `prune_nulls`.
abbrev pub is_null : Value → Bool
is_null null = true
is_null _ = false

unfoldable mutual
  pub prune_nulls : Value → Value
  prune_nulls null = null
  prune_nulls (bool b) = bool b
  prune_nulls (number n) = number n
  prune_nulls (text value) = text value
  prune_nulls (array values) = array (prune_items values)
  prune_nulls (object fs) = object (prune_fields fs)

  pub prune_items : Items → Items
  prune_items nil = nil
  prune_items (cons v vs) = cons (prune_nulls v) (prune_items vs)

  pub prune_fields : Fields → Fields
  prune_fields end = end
  prune_fields (field key v fs) =
      let kept = field key (prune_nulls v) (prune_fields fs) in
      let rest = prune_fields fs in if is_null v then rest else kept
