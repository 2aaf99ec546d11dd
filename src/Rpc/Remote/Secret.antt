-- ===== src/Rpc/Remote/Secret.antt =====
-- `remote_value_contains_secret` and `validate_remote_value` of src/rpc/mod.rs.
use Prim.Native.String
use styrn.Common.{
  ◌≡◌, refl, Bool, false, ◌||◌, String, List, [], ◌∷◌, ◌++◌, any, Result, ok, err, arith,
  if◌then◌else◌,
}
use styrn.Json.Defs.{
  Value, null, bool, number, text, array, object, Items, nil, cons, Fields, end, field,
}
use styrn.Output.Code.{ErrorCode, protocol_malformed}

-- `format!("{key}: {text}")`.
abbrev pub labelled : String → String → String
labelled key value = String.◌++◌ key (String.◌++◌ ": " value)

module _ (is_secret : String → Bool) where
  abbrev pub labels_secret : String → Value → Bool
  labels_secret key (text value) = is_secret (labelled key value)
  labels_secret key _ = false

  unfoldable mutual
    pub contains_secret : Value → Bool
    contains_secret null = false
    contains_secret (bool b) = false
    contains_secret (number n) = false
    contains_secret (text value) = is_secret value
    contains_secret (array values) = items_contain_secret values
    contains_secret (object fs) = fields_contain_secret fs

    pub items_contain_secret : Items → Bool
    items_contain_secret nil = false
    items_contain_secret (cons v vs) = contains_secret v || items_contain_secret vs

    pub fields_contain_secret : Fields → Bool
    fields_contain_secret end = false
    fields_contain_secret (field key v fs) =
        (is_secret key || labels_secret key v || contains_secret v) || fields_contain_secret fs

  unfoldable pub validate_remote_value : Value → Result ErrorCode (Unit {0})
  unfolding contains_secret
  validate_remote_value value = if contains_secret value then err protocol_malformed else ok tt

abbrev pub label_texts : String → Value → List String
label_texts key (text value) = labelled key value ∷ []
label_texts key _ = []

-- Every text that a value shows: its keys, its texts, and a text with the key before it.
unfoldable mutual
  pub texts : Value → List String
  texts null = []
  texts (bool b) = []
  texts (number n) = []
  texts (text value) = value ∷ []
  texts (array values) = item_texts values
  texts (object fs) = field_texts fs

  pub item_texts : Items → List String
  item_texts nil = []
  item_texts (cons v vs) = texts v ++ item_texts vs

  pub field_texts : Fields → List String
  field_texts end = []
  field_texts (field key v fs) = (key ∷ label_texts key v) ++ texts v ++ field_texts fs

any-append : (p : String → Bool) (xs ys : List String) → any p (xs ++ ys) ≡ (any p xs || any p ys)
any-append p [] ys = refl
any-append p (x ∷ xs) ys = ground (arith, any-append p xs ys)

any-label_texts :
    (is_secret : String → Bool) (key : String) (v : Value)
    → any is_secret (label_texts key v) ≡ labels_secret is_secret key v
any-label_texts is_secret key (text value) = ground arith
any-label_texts is_secret key null = refl
any-label_texts is_secret key (bool b) = refl
any-label_texts is_secret key (number n) = refl
any-label_texts is_secret key (array values) = refl
any-label_texts is_secret key (object fs) = refl

module _ (is_secret : String → Bool) where
  mutual
    unfolding contains_secret texts

    value_secret-eq : (v : Value) → contains_secret is_secret v ≡ any is_secret (texts v)
    value_secret-eq null = refl
    value_secret-eq (bool b) = refl
    value_secret-eq (number n) = refl
    value_secret-eq (text value) = ground arith
    value_secret-eq (array values) = items_contain_secret-eq values
    value_secret-eq (object fs) = fields_contain_secret-eq fs

    items_contain_secret-eq :
        (vs : Items) → items_contain_secret is_secret vs ≡ any is_secret (item_texts vs)
    items_contain_secret-eq nil = refl
    items_contain_secret-eq (cons v vs) = ground (
      arith,
      value_secret-eq v,
      items_contain_secret-eq vs,
      any-append is_secret (texts v) (item_texts vs),
    )

    fields_contain_secret-eq :
        (fs : Fields) → fields_contain_secret is_secret fs ≡ any is_secret (field_texts fs)
    fields_contain_secret-eq end = refl
    fields_contain_secret-eq (field key v fs) = ground (
      arith,
      value_secret-eq v,
      fields_contain_secret-eq fs,
      any-label_texts is_secret key v,
      any-append is_secret (key ∷ label_texts key v) (texts v ++ field_texts fs),
      any-append is_secret (texts v) (field_texts fs),
    )

  -- The walk over a value finds a secret exactly when one of its keys, its texts or its labelled
  -- texts is one.
  pub contains_secret-eq : (v : Value) → contains_secret is_secret v ≡ any is_secret (texts v)
  contains_secret-eq v = value_secret-eq v
