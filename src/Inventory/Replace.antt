-- ===== src/Inventory/Replace.antt =====
-- `replace_exact` of src/inventory/store.rs.
use styrn.Common.{
  ℕ, suc, ◌≡◌, ◌≢◌, refl, sym, ap, ◌∙◌, ◌↔◌, inl, inr, Bool, true, false, some, String, List, [],
  ◌∷◌, length, arith, Bool-cases, All, Distinct, if◌then◌else◌, str_eq, Result, ok, not, ◌||◌,
  ◌>>=◌, ◌>>◌, ok_or, refuse_if, >>=-eq-ok, refuse_if-eq-ok, ok_or-eq-ok,
}
use mathlib.Core.Path.{subst}
use text.Mathlib.TextEquality.{eq_iff}
use styrn.Inventory.Names.{name_lt}
use styrn.Inventory.Document.{
  InventoryError, argument, config, InventoryHost, valid_host, validate_hosts, find_host, host_eq,
  same_uuid, replace_named, replace_exact,
}
use styrn.Inventory.Sorted.{name_of, id_of, Ascending, All-map}
use styrn.Inventory.Laws.{IsInventory, not-false, validate_hosts_iff}

-- The relation holds from each element to every later one.
abbrev Pairwise : (InventoryHost → InventoryHost → Type 0) → List InventoryHost → Type 0
Pairwise R [] = Unit
Pairwise R (h ∷ hosts) = All (R h) hosts × Pairwise R hosts

Ascending-Pairwise :
    (hosts : List InventoryHost)
    → Ascending hosts ↔ Pairwise (λ h k. name_lt h.name k.name ≡ true) hosts
Ascending-Pairwise [] = (λ h. h, λ h. h)
Ascending-Pairwise (k ∷ hosts) =
    (λ h. (h.0, (Ascending-Pairwise hosts).0 h.1), λ h. (h.0, (Ascending-Pairwise hosts).1 h.1))

Distinct-Pairwise :
    (key : InventoryHost → String) (hosts : List InventoryHost)
    → Distinct key hosts ↔ Pairwise (λ h k. key k ≢ key h) hosts
Distinct-Pairwise key [] = (λ h. h, λ h. h)
Distinct-Pairwise key (k ∷ hosts) = (
  λ h. (h.0, (Distinct-Pairwise key hosts).0 h.1),
  λ h. (h.0, (Distinct-Pairwise key hosts).1 h.1),
)

module _ (name : String) (current : InventoryHost) where
  find_host-All :
      (P : InventoryHost → Type 0) (hosts : List InventoryHost)
      → find_host name hosts ≡ some current
      → All P hosts
      → P current
  unfolding find_host
  find_host-All P [] e h = absurd (ground arith)
  find_host-All P (k ∷ hosts) e h = elim (Bool-cases (str_eq k.name name)) [
    | inl here ↦ subst P (ground arith) h.0
    | inr later ↦ find_host-All P hosts (ground arith) h.1
  ]

  pub find_host-name :
      (hosts : List InventoryHost) → find_host name hosts ≡ some current → current.name ≡ name
  unfolding find_host
  find_host-name [] e = absurd (ground arith)
  find_host-name (k ∷ hosts) e = elim (Bool-cases (str_eq k.name name)) [
    | inl here ↦
        let same : k ≡ current = ground arith in ap name_of (sym same) ∙ (eq_iff k.name name).0 here
    | inr later ↦ find_host-name hosts (ground arith)
  ]

  module _ (replacement : InventoryHost) where
    replace_named-All :
        (P : InventoryHost → Type 0) (hosts : List InventoryHost)
        → P replacement
        → All P hosts
        → All P (replace_named name replacement hosts)
    unfolding replace_named
    replace_named-All P [] p h = tt
    replace_named-All P (k ∷ hosts) p h = elim (Bool-cases (str_eq k.name name)) [
      | inl here ↦ rw here (p, h.1)
      | inr later ↦ rw later (h.0, replace_named-All P hosts p h.1)
    ]

    length-replace_named :
        (hosts : List InventoryHost) → length (replace_named name replacement hosts) ≡ length hosts
    unfolding replace_named
    length-replace_named [] = refl
    length-replace_named (k ∷ hosts) = elim (Bool-cases (str_eq k.name name)) [
      | inl here ↦ rw here refl
      | inr later ↦ rw later (ap suc (length-replace_named hosts))
    ]

    -- The replacement stands to the others as the host that it replaces.
    replace_named-Pairwise :
        (R : InventoryHost → InventoryHost → Type 0) (hosts : List InventoryHost)
        → find_host name hosts ≡ some current
        → ((k : InventoryHost) → R current k → R replacement k)
        → ((k : InventoryHost) → R k current → R k replacement)
        → Pairwise R hosts
        → Pairwise R (replace_named name replacement hosts)
    unfolding replace_named find_host
    replace_named-Pairwise R [] e left right h = tt
    replace_named-Pairwise R (k ∷ hosts) e left right h = elim (Bool-cases (str_eq k.name name)) [
      | inl here ↦
          let same : k ≡ current = ground arith in
          rw here (All-map hosts (λ y r. left y (subst (λ z. R z y) same r)) h.0, h.1)
      | inr later ↦
          let found : find_host name hosts ≡ some current = ground arith in
          rw later (
            replace_named-All (R k) hosts (right k (find_host-All (R k) hosts found h.0)) h.0,
            replace_named-Pairwise R hosts found left right h.1,
          )
    ]

    find_host-replace_named :
        (j : String) (hosts : List InventoryHost)
        → replacement.name ≡ name
        → find_host name hosts ≡ some current
        → find_host j (replace_named name replacement hosts)
          ≡ (if str_eq name j then some replacement else find_host j hosts)
    unfolding replace_named find_host
    find_host-replace_named j [] same e = absurd (ground arith)
    find_host-replace_named j (k ∷ hosts) same e = elim (Bool-cases (str_eq k.name name)) [
      | inl here ↦ ground (arith, eq_iff k.name name, eq_iff k.name j, eq_iff name j)
      | inr later ↦ ground (
        arith,
        find_host-replace_named j hosts same,
        eq_iff k.name name,
        eq_iff k.name j,
        eq_iff name j,
      )
    ]

replace_exact-eq :
    (hosts : List InventoryHost) (expected replacement : InventoryHost)
    → replace_exact hosts expected replacement ≡ (
        refuse_if
          (not (str_eq expected.name replacement.name)
            || not (same_uuid expected.machine_id replacement.machine_id))
          argument
        >> (ok_or (find_host expected.name hosts) config >>= λ current.
            refuse_if (not (host_eq current expected)) config
            >> ok (replace_named expected.name replacement hosts)))
unfolding replace_exact
replace_exact-eq hosts expected replacement = refl

neither_not : (a b : Bool) → (not a || not b) ≡ false → (a ≡ true) × (b ≡ true)
neither_not a b e = ground arith

ok_path :
    (a b : List InventoryHost) (r : Result InventoryError (List InventoryHost))
    → ok a ≡ r
    → r ≡ ok b
    → a ≡ b
ok_path a b r g e = ground arith

replace_exact-cases :
    (hosts : List InventoryHost) (expected replacement : InventoryHost) {after : List InventoryHost}
    → replace_exact hosts expected replacement ≡ ok after
    → (current : InventoryHost) × (find_host expected.name hosts ≡ some current)
      × (host_eq current expected ≡ true)
      × (str_eq expected.name replacement.name ≡ true)
      × (same_uuid expected.machine_id replacement.machine_id ≡ true)
      × (after ≡ replace_named expected.name replacement hosts)
replace_exact-cases hosts expected replacement e =
    let same =
      not (str_eq expected.name replacement.name)
      || not (same_uuid expected.machine_id replacement.machine_id) in
    let (same_e, looked) =
      refuse_if-eq-ok same argument _ (sym (replace_exact-eq hosts expected replacement) ∙ e) in
    let (current, found, checked) =
      >>=-eq-ok (ok_or (find_host expected.name hosts) config) _ looked in
    let (equal_e, result) = refuse_if-eq-ok (not (host_eq current expected)) config _ checked in
    (
      current,
      ok_or-eq-ok (find_host expected.name hosts) config found,
      not-false (host_eq current expected) equal_e,
      (neither_not (str_eq expected.name replacement.name)
          (same_uuid expected.machine_id replacement.machine_id) same_e).0,
      (neither_not (str_eq expected.name replacement.name)
          (same_uuid expected.machine_id replacement.machine_id) same_e).1,
      sym (ok_path _ _ (ok (replace_named expected.name replacement hosts)) refl result),
    )

host_eq-same_uuid : (a b : InventoryHost) → host_eq a b ≡ true → id_of a ≡ id_of b
unfolding host_eq
host_eq-same_uuid a b e = ground (arith, eq_iff (id_of a) (id_of b))

-- When `replace_exact` does not refuse, and the replacement is a valid host, the hosts are still an
-- inventory that the validation accepts: a lookup finds the replacement under its name, and under
-- every other name what it found before.
pub replace_exact-IsInventory :
    (is_object_header : List ℕ → Bool) (hosts : List InventoryHost)
    (expected replacement : InventoryHost) (after : List InventoryHost)
    → IsInventory is_object_header hosts
    → valid_host is_object_header replacement ≡ true
    → replace_exact hosts expected replacement ≡ ok after
    → (validate_hosts is_object_header after ≡ true)
      × ((j : String)
          → find_host j after
            ≡ (if str_eq replacement.name j then some replacement else find_host j hosts))
replace_exact-IsInventory is_object_header hosts expected replacement after
      (small, valid, names, ids, ascending) accepted e =
    let (current, found, equal, name_e, id_e, result) =
      replace_exact-cases hosts expected replacement e in
    let at_name : expected.name ≡ replacement.name =
      (eq_iff expected.name replacement.name).0 name_e in
    let names_eq : current.name ≡ replacement.name =
      find_host-name expected.name current hosts found ∙ at_name in
    let ids_eq : id_of current ≡ id_of replacement =
      host_eq-same_uuid current expected equal
      ∙ (eq_iff (id_of expected) (id_of replacement)).0 id_e in
    let pairwise = replace_named-Pairwise expected.name current replacement in
    let replaced = replace_named expected.name replacement hosts in
    rw result (
      (validate_hosts_iff is_object_header replaced).1 (
        ground (arith, small, length-replace_named expected.name current replacement hosts),
        replace_named-All expected.name current replacement
            (λ h. valid_host is_object_header h ≡ true) hosts accepted valid,
        (Distinct-Pairwise name_of replaced).1 (
            pairwise (λ h k. name_of k ≢ name_of h) hosts found
              (λ k differ. subst (λ n. name_of k ≢ n) names_eq differ)
              (λ k differ. subst (λ n. n ≢ name_of k) names_eq differ)
              ((Distinct-Pairwise name_of hosts).0 names)),
        (Distinct-Pairwise id_of replaced).1 (
            pairwise (λ h k. id_of k ≢ id_of h) hosts found
              (λ k differ. subst (λ n. id_of k ≢ n) ids_eq differ)
              (λ k differ. subst (λ n. n ≢ id_of k) ids_eq differ)
              ((Distinct-Pairwise id_of hosts).0 ids)),
        (Ascending-Pairwise replaced).1 (
            pairwise (λ h k. name_lt h.name k.name ≡ true) hosts found
              (λ k less. subst (λ n. name_lt n k.name ≡ true) names_eq less)
              (λ k less. subst (λ n. name_lt k.name n ≡ true) names_eq less)
              ((Ascending-Pairwise hosts).0 ascending)),
      ),
      λ j.
          subst
            (λ n.
              find_host j replaced ≡ (if str_eq n j then some replacement else find_host j hosts))
            at_name
            (find_host-replace_named expected.name current replacement j hosts (sym at_name) found),
    )
