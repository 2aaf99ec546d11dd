-- ===== src/Json/Visitor/Laws.antt =====
-- The visitor of src/rpc/frame.rs against a plain test for repeated fields.
use styrn.Common.{
  ◌≡◌, refl, Bool, true, not, ◌&&◌, none, some, String, arith, eq_iff, if◌then◌else◌,
}
use styrn.Json.Defs.{
  Value, null, bool, number, text, array, object, Items, nil, cons, Fields, end, field,
  contains_key, append_fields,
}
use styrn.Json.Visitor.{
  visit, visit_seq, visit_map, insert, distinct, distinct_items, distinct_fields,
}

-- No key of the second object is a key of the first.
disjoint : Fields → Fields → Bool
disjoint values end = true
disjoint values (field k v fs) = not (contains_key k values) && disjoint values fs

contains_key-insert :
    (j k : String) (v : Value) (fs : Fields)
    → contains_key j (insert k v fs)
      ≡ (if contains_key j fs then true else contains_key j (field k v end))
unfolding contains_key
contains_key-insert j k v end = refl
contains_key-insert j k v (field i w fs) = ground (arith, contains_key-insert j k v fs)

disjoint-insert :
    (k : String) (v : Value) (values fs : Fields)
    → disjoint (insert k v values) fs ≡ (disjoint values fs && not (contains_key k fs))
unfolding disjoint contains_key
disjoint-insert k v values end = refl
disjoint-insert k v values (field j w fs) =
    ground (
      arith,
      contains_key-insert j k v values,
      eq_iff k j,
      eq_iff j k,
      disjoint-insert k v values fs,
    )

append_fields-insert :
    (k : String) (v : Value) (values fs : Fields)
    → append_fields (insert k v values) fs ≡ append_fields values (field k v fs)
append_fields-insert k v end fs = refl
append_fields-insert k v (field j w values) fs = cc (append_fields-insert k v values fs)

append_fields-right : (fs : Fields) → append_fields fs end ≡ fs
append_fields-right end = refl
append_fields-right (field k v fs) = cc (append_fields-right fs)

append_fields-end : (fs : Fields) → append_fields end fs ≡ fs
append_fields-end fs = refl

disjoint-end : (fs : Fields) → disjoint end fs ≡ true
unfolding disjoint contains_key
disjoint-end end = refl
disjoint-end (field k v fs) = disjoint-end fs

mutual
  unfolding visit distinct disjoint

  visit_lem : (v : Value) → visit v ≡ (if distinct v then some v else none)
  visit_lem null = refl
  visit_lem (bool b) = refl
  visit_lem (number n) = refl
  visit_lem (text s) = refl
  visit_lem (array vs) = ground (arith, visit_seq_lem vs)
  visit_lem (object fs) =
      ground (arith, visit_map_lem end fs, disjoint-end fs, append_fields-end fs)

  visit_seq_lem : (vs : Items) → visit_seq vs ≡ (if distinct_items vs then some vs else none)
  visit_seq_lem nil = refl
  visit_seq_lem (cons v vs) = ground (arith, visit_lem v, visit_seq_lem vs)

  visit_map_lem :
      (values fs : Fields)
      → visit_map values fs ≡ (
          if disjoint values fs && distinct_fields fs then some (append_fields values fs) else none)
  visit_map_lem values end = cc (append_fields-right values)
  visit_map_lem values (field k v fs) = ground (
    arith,
    visit_lem v,
    visit_map_lem (insert k v values) fs,
    disjoint-insert k v values fs,
    append_fields-insert k v values fs,
  )

-- The visitor accepts a value exactly when no object in it repeats a field, and then returns it.
pub visit-eq : (v : Value) → visit v ≡ (if distinct v then some v else none)
visit-eq = visit_lem
