-- ===== src/Manifest/Scan/Pruned.antt =====
-- `prune_nulls` of src/manifest/mod.rs behind the scan.
use styrn.Common.{
  ℕ, ◌≡◌, refl, ◌↔◌, inl, inr, Bool, true, false, not, ◌&&◌, List, Bool-cases, and-true, arith,
}
use mathlib.Core.Path.{subst}
use styrn.Json.Defs.{
  Value, null, bool, number, text, array, object, Items, nil, cons, Fields, end, field,
}
use styrn.Manifest.Scan.{is_null, prune_nulls, prune_items, prune_fields}
use styrn.Manifest.Scan.Laws.{is_clean_key, is_clean, are_clean_items, are_clean_fields}

-- No object in the value, at any depth, has a field that is null.
unfoldable mutual
  pub is_pruned : Value → Bool
  is_pruned null = true
  is_pruned (bool b) = true
  is_pruned (number n) = true
  is_pruned (text value) = true
  is_pruned (array values) = are_pruned_items values
  is_pruned (object fs) = are_pruned_fields fs

  pub are_pruned_items : Items → Bool
  are_pruned_items nil = true
  are_pruned_items (cons v vs) = is_pruned v && are_pruned_items vs

  pub are_pruned_fields : Fields → Bool
  are_pruned_fields end = true
  are_pruned_fields (field key v fs) = (not (is_null v) && is_pruned v) && are_pruned_fields fs

is_null-prune_nulls : (v : Value) → is_null (prune_nulls v) ≡ is_null v
unfolding prune_nulls
is_null-prune_nulls null = refl
is_null-prune_nulls (bool b) = refl
is_null-prune_nulls (number n) = refl
is_null-prune_nulls (text value) = refl
is_null-prune_nulls (array values) = refl
is_null-prune_nulls (object fs) = refl

mutual
  unfolding is_pruned prune_nulls

  value_pruned : (v : Value) → is_pruned (prune_nulls v) ≡ true
  value_pruned null = refl
  value_pruned (bool b) = refl
  value_pruned (number n) = refl
  value_pruned (text value) = refl
  value_pruned (array values) = items_pruned values
  value_pruned (object fs) = fields_pruned fs

  items_pruned : (vs : Items) → are_pruned_items (prune_items vs) ≡ true
  items_pruned nil = refl
  items_pruned (cons v vs) = ground (arith, value_pruned v, items_pruned vs)

  fields_pruned : (fs : Fields) → are_pruned_fields (prune_fields fs) ≡ true
  fields_pruned end = refl
  fields_pruned (field key v fs) = elim (Bool-cases (is_null v)) [
    | inl e ↦ rw e (fields_pruned fs)
    | inr e ↦ rw e (ground (arith, is_null-prune_nulls v, value_pruned v, fields_pruned fs))
  ]

pub prune_nulls-is_pruned : (v : Value) → is_pruned (prune_nulls v) ≡ true
prune_nulls-is_pruned v = value_pruned v

mutual
  unfolding is_pruned prune_nulls

  value_fixed : (v : Value) → is_pruned v ≡ true → prune_nulls v ≡ v
  value_fixed null h = refl
  value_fixed (bool b) h = refl
  value_fixed (number n) h = refl
  value_fixed (text value) h = refl
  value_fixed (array values) h = rw (items_fixed values h) refl
  value_fixed (object fs) h = rw (fields_fixed fs h) refl

  items_fixed : (vs : Items) → are_pruned_items vs ≡ true → prune_items vs ≡ vs
  items_fixed nil h = refl
  items_fixed (cons v vs) h =
      let (first, rest) = and-true (is_pruned v) (are_pruned_items vs) h in
      rw (value_fixed v first, items_fixed vs rest) refl

  fields_fixed : (fs : Fields) → are_pruned_fields fs ≡ true → prune_fields fs ≡ fs
  fields_fixed end h = refl
  fields_fixed (field key v fs) h =
      let (first, rest) = and-true (not (is_null v) && is_pruned v) (are_pruned_fields fs) h in
      let (some_value, inside) = and-true (not (is_null v)) (is_pruned v) first in
      let e : is_null v ≡ false = ground arith in
      rw (e, value_fixed v inside, fields_fixed fs rest) refl

module _ (is_object_header : List ℕ → Bool) where
  mutual
    unfolding is_clean prune_nulls

    value_clean :
        (v : Value)
        → is_clean is_object_header v ≡ true
        → is_clean is_object_header (prune_nulls v) ≡ true
    value_clean null h = h
    value_clean (bool b) h = h
    value_clean (number n) h = h
    value_clean (text value) h = h
    value_clean (array values) h = items_clean values h
    value_clean (object fs) h = fields_clean fs h

    items_clean :
        (vs : Items)
        → are_clean_items is_object_header vs ≡ true
        → are_clean_items is_object_header (prune_items vs) ≡ true
    items_clean nil h = h
    items_clean (cons v vs) h = ground (arith, value_clean v, items_clean vs)

    fields_clean :
        (fs : Fields)
        → are_clean_fields is_object_header fs ≡ true
        → are_clean_fields is_object_header (prune_fields fs) ≡ true
    fields_clean end h = h
    fields_clean (field key v fs) h =
        let (first, rest) =
          and-true (is_clean_key is_object_header key && is_clean is_object_header v)
            (are_clean_fields is_object_header fs) h in
        let (named, inside) =
          and-true (is_clean_key is_object_header key) (is_clean is_object_header v) first in
        elim (Bool-cases (is_null v)) [
          | inl e ↦ rw e (fields_clean fs rest)
          | inr e ↦ rw (e, named, value_clean v inside) (fields_clean fs rest)
        ]

  pub prune_nulls-is_clean :
      (v : Value)
      → is_clean is_object_header v ≡ true
      → is_clean is_object_header (prune_nulls v) ≡ true
  prune_nulls-is_clean v h = value_clean v h

-- Pruning twice is pruning once, and what it leaves alone is exactly what holds no field that is
-- null.
pub prune_nulls_fixed_iff :
    (v : Value)
    → (prune_nulls (prune_nulls v) ≡ prune_nulls v) × ((prune_nulls v ≡ v) ↔ (is_pruned v ≡ true))
prune_nulls_fixed_iff v = (
  value_fixed (prune_nulls v) (value_pruned v),
  (λ e. subst (λ (w : Value). is_pruned w ≡ true) e (value_pruned v), value_fixed v),
)
