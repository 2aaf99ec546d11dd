-- ===== src/Json/Visitor.antt =====
-- `UniqueValue` and `UniqueVisitor` of src/rpc/frame.rs. The events that serde_json reads from a
-- text are the nodes of a `Value` whose objects may repeat a field.
pub mod Laws
use styrn.Common.{Bool, true, not, ◌&&◌, Option, none, some, String, if◌then◌else◌}
use styrn.Json.Defs.{
  Value, null, bool, number, text, array, object, Items, nil, cons, Fields, end, field,
  contains_key, append_fields,
}

infixl 5 ◌>>=◌
abbrev pub ◌>>=◌ {ℓ κ} : {A : Type ℓ} {B : Type κ} → Option A → (A → Option B) → Option B
none >>= f = none
some a >>= f = f a

-- `Map::insert` of a key that is not there.
abbrev pub insert : String → Value → Fields → Fields
insert k v fs = append_fields fs (field k v end)

unfoldable mutual
  pub visit : Value → Option Value
  visit null = some null
  visit (bool b) = some (bool b)
  visit (number n) = some (number n)
  visit (text s) = some (text s)
  visit (array vs) = do values ← visit_seq vs; some (array values)
  visit (object fs) = do values ← visit_map end fs; some (object values)

  pub visit_seq : Items → Option Items
  visit_seq nil = some nil
  visit_seq (cons v vs) = do w ← visit v; ws ← visit_seq vs; some (cons w ws)

  -- The first argument is the map built so far.
  pub visit_map : Fields → Fields → Option Fields
  visit_map values end = some values
  visit_map values (field k v fs) =
      if contains_key k values then none else do w ← visit v; visit_map (insert k w values) fs

-- What the visitor is meant to decide: no object of the value, at any depth, repeats a field.
unfoldable mutual
  pub distinct : Value → Bool
  distinct null = true
  distinct (bool b) = true
  distinct (number n) = true
  distinct (text s) = true
  distinct (array vs) = distinct_items vs
  distinct (object fs) = distinct_fields fs

  pub distinct_items : Items → Bool
  distinct_items nil = true
  distinct_items (cons v vs) = distinct v && distinct_items vs

  pub distinct_fields : Fields → Bool
  distinct_fields end = true
  distinct_fields (field k v fs) = not (contains_key k fs) && distinct v && distinct_fields fs
