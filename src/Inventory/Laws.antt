-- ===== src/Inventory/Laws.antt =====
-- What `validate` asks of the hosts of src/inventory/store.rs, and what adding a host keeps.
use styrn.Common.{
  ℕ, ◌+◌, ◌==◌, ◌≡◌, ◌≢◌, ◌↔◌, ◌⊎◌, refl, sym, ◌∙◌, inl, inr, Bool, true, false, not, ◌||◌, Option,
  none, some, String, List, [], ◌∷◌, ◌++◌, length, leb, arith, All, All-append, Distinct, Fresh,
  Fresh-cons, Fresh-none, contains, if◌then◌else◌, str_eq, ok,
}
use text.Mathlib.TextEquality.{eq_iff}
use styrn.Common.Text.{codes}
use styrn.Inventory.Names.{name_lt, codes_lt_trans}
use styrn.Inventory.Document.{
  InventoryHost, max_hosts, valid_host, is_not_after, validate_from, validate_hosts, find_host,
  find_conflict, upsert_exact, sort_hosts,
}
use styrn.Inventory.Sorted.{
  name_of, id_of, Ascending, All-map, sort_hosts-All, sort_hosts-Distinct, sort_hosts-Ascending,
  length-sort_hosts, find_host-sort_hosts,
}

-- At most 1024 hosts in the order of their names, no name and no machine twice, and each valid.
abbrev pub IsInventory : (List ℕ → Bool) → List InventoryHost → Type 0
IsInventory is_object_header hosts =
    (leb (length hosts) max_hosts ≡ true)
    × All (λ h. valid_host is_object_header h ≡ true) hosts
    × Distinct name_of hosts
    × Distinct id_of hosts
    × Ascending hosts

-- The hosts come after the previous one, each after the one before.
abbrev After : Option String → List InventoryHost → Type 0
After previous [] = Unit
After previous (h ∷ hosts) = (is_not_after previous h.name ≡ false) × After (some h.name) hosts

pub not-false : (b : Bool) → not b ≡ false → b ≡ true
not-false true e = refl
not-false false e = absurd (ground arith)

After-Ascending :
    (p : String) (hosts : List InventoryHost)
    → After (some p) hosts
    → All (λ k. name_lt p k.name ≡ true) hosts × Ascending hosts
After-Ascending p [] h = (tt, tt)
After-Ascending p (k ∷ hosts) h =
    let below = After-Ascending k.name hosts h.1 in
    let first = not-false (name_lt p k.name) h.0 in
    (
      (
        first,
        All-map hosts
            (λ y later. codes_lt_trans (codes p) (codes k.name) (codes y.name) first later) below.0,
      ),
      below,
    )

Ascending-After :
    (previous : Option String) (hosts : List InventoryHost)
    → All (λ k. is_not_after previous k.name ≡ false) hosts
    → Ascending hosts
    → After previous hosts
Ascending-After previous [] h ascending = tt
Ascending-After previous (k ∷ hosts) h ascending = (
  h.0,
  Ascending-After (some k.name) hosts (All-map hosts (λ y e. rw e refl) ascending.0) ascending.1,
)

After-none : (hosts : List InventoryHost) → After none hosts ↔ Ascending hosts
After-none [] = (λ h. tt, λ h. tt)
After-none (k ∷ hosts) = (
  λ h. After-Ascending k.name hosts h.1,
  λ h. (refl, Ascending-After (some k.name) hosts (All-map hosts (λ y e. rw e refl) h.0) h.1),
)

-- `find` passes over a list where nothing has the name or the machine.
find_conflict-none :
    (host : InventoryHost) (hosts : List InventoryHost)
    → find_conflict host hosts ≡ none
    → All (λ k. k.name ≢ host.name) hosts × All (λ k. id_of k ≢ id_of host) hosts
unfolding find_conflict
find_conflict-none host [] e = (tt, tt)
find_conflict-none host (k ∷ hosts) e =
    ground
      (arith, find_conflict-none host hosts, eq_iff k.name host.name, eq_iff (id_of k) (id_of host))

Distinct-append :
    (key : InventoryHost → String) (hosts : List InventoryHost) (host : InventoryHost)
    → Distinct key hosts
    → All (λ k. key k ≢ key host) hosts
    → Distinct key (hosts ++ host ∷ [])
Distinct-append key [] host h new = (tt, tt)
Distinct-append key (k ∷ hosts) host h new = (
  All-append (λ y. key y ≢ key k) hosts (host ∷ []) h.0 ((λ e. new.0 (sym e)), tt),
  Distinct-append key hosts host h.1 new.1,
)

length-add :
    (hosts : List InventoryHost) (host : InventoryHost)
    → length (hosts ++ host ∷ []) ≡ length hosts + 1
length-add [] host = refl
length-add (k ∷ hosts) host = ground (arith, length-add hosts host)

find_host-add :
    (j : String) (hosts : List InventoryHost) (host : InventoryHost)
    → All (λ k. k.name ≢ host.name) hosts
    → find_host j (hosts ++ host ∷ [])
      ≡ (if str_eq host.name j then some host else find_host j hosts)
unfolding find_host
find_host-add j [] host new = refl
find_host-add j (k ∷ hosts) host new =
    ground (arith, find_host-add j hosts host new.1, eq_iff k.name j, eq_iff host.name j, new.0)

-- What `upsert_exact` does: it adds a host that is new, or finds the host as it is.
upsert_exact-cases :
    (hosts : List InventoryHost) (host : InventoryHost) {after : List InventoryHost} {added : Bool}
    → upsert_exact hosts host ≡ ok (after, added)
    → ((added ≡ false) × (after ≡ hosts))
      ⊎ ((added ≡ true)
          × (find_conflict host hosts ≡ none)
          × ((length hosts == max_hosts) ≡ false)
          × (after ≡ sort_hosts (hosts ++ host ∷ [])))
unfolding upsert_exact
upsert_exact-cases hosts host e = ground arith

all_tests :
    (v n i a rest : Bool)
    → ((if not v || n || i || a then false else rest) ≡ true)
      ↔ ((v ≡ true) × (n ≡ false) × (i ≡ false) × (a ≡ false) × (rest ≡ true))
all_tests v n i a rest = ground arith

module _ (is_object_header : List ℕ → Bool) where
  validate_from_iff :
      (names machine_ids : List String) (previous : Option String) (hosts : List InventoryHost)
      → (validate_from is_object_header names machine_ids previous hosts ≡ true) ↔ (
          All (λ h. valid_host is_object_header h ≡ true) hosts
          × (Fresh name_of names hosts × Distinct name_of hosts)
          × (Fresh id_of machine_ids hosts × Distinct id_of hosts)
          × After previous hosts)
  unfolding validate_from
  validate_from_iff names machine_ids previous [] = ground arith
  validate_from_iff names machine_ids previous (h ∷ hosts) =
      let rest = validate_from_iff (h.name ∷ names) (id_of h ∷ machine_ids) (some h.name) hosts in
      let by_name = Fresh-cons name_of h.name names hosts in
      let by_id = Fresh-cons id_of (id_of h) machine_ids hosts in
      let tests =
        all_tests (valid_host is_object_header h) (contains h.name names)
          (contains (id_of h) machine_ids) (is_not_after previous h.name)
          (validate_from is_object_header (h.name ∷ names) (id_of h ∷ machine_ids) (some h.name)
            hosts) in
      (
        λ e.
            let (v, n, i, a, r) = tests.0 e in
            let (valid, (fresh_names, distinct_names), (fresh_ids, distinct_ids), later) =
              rest.0 r in
            (
              (v, valid),
              ((n, (by_name.0 fresh_names).0), ((by_name.0 fresh_names).1, distinct_names)),
              ((i, (by_id.0 fresh_ids).0), ((by_id.0 fresh_ids).1, distinct_ids)),
              (a, later),
            ),
        λ (
          (v, valid),
          ((n, fresh_names), (other_names, distinct_names)),
          ((i, fresh_ids), (other_ids, distinct_ids)),
          (a, later),
        ).
            tests.1 (
              v,
              n,
              i,
              a,
              rest.1 (
                valid,
                (by_name.1 (fresh_names, other_names), distinct_names),
                (by_id.1 (fresh_ids, other_ids), distinct_ids),
                later,
              ),
            ),
      )

  -- The validation of an inventory accepts exactly the lists of at most 1024 valid hosts, in the
  -- order of their names, where no name and no machine occurs twice.
  pub validate_hosts_iff :
      (hosts : List InventoryHost)
      → (validate_hosts is_object_header hosts ≡ true) ↔ IsInventory is_object_header hosts
  unfolding validate_hosts
  validate_hosts_iff hosts = ground (
    arith,
    validate_from_iff [] [] none hosts,
    Fresh-none name_of hosts,
    Fresh-none id_of hosts,
    After-none hosts,
  )

  -- Adding a valid host to an inventory, when `upsert_exact` does not refuse it, gives an inventory
  -- that its validation accepts; a lookup there finds the added host under its name, and under every
  -- other name what it found before; when nothing is added the hosts are the same.
  pub upsert_exact-IsInventory :
      (hosts : List InventoryHost) (host : InventoryHost) (after : List InventoryHost)
      (added : Bool)
      → IsInventory is_object_header hosts
      → valid_host is_object_header host ≡ true
      → upsert_exact hosts host ≡ ok (after, added)
      → (validate_hosts is_object_header after ≡ true)
        × ((added ≡ true)
            → (j : String)
            → find_host j after ≡ (if str_eq host.name j then some host else find_host j hosts))
        × ((added ≡ false) → after ≡ hosts)
  upsert_exact-IsInventory hosts host after added (small, valid, names, ids, ascending) accepted e =
      elim (upsert_exact-cases hosts host e) [
        | inl (kept, same) ↦ (
          rw same ((validate_hosts_iff hosts).1 (small, valid, names, ids, ascending)),
          λ a. absurd (ground arith),
          λ a. same,
        )
        | inr (grown, no_conflict, room, sorted) ↦
            let new = find_conflict-none host hosts no_conflict in
            let distinct = Distinct-append name_of hosts host names new.0 in
            (
              rw sorted (
                  (validate_hosts_iff (sort_hosts (hosts ++ host ∷ []))).1 (
                    ground (
                      arith,
                      small,
                      room,
                      length-sort_hosts (hosts ++ host ∷ []),
                      length-add hosts host,
                    ),
                    sort_hosts-All (λ h. valid_host is_object_header h ≡ true) (hosts ++ host ∷ [])
                        (All-append (λ h. valid_host is_object_header h ≡ true) hosts (host ∷ [])
                          valid (accepted, tt)),
                    sort_hosts-Distinct name_of (hosts ++ host ∷ []) distinct,
                    sort_hosts-Distinct id_of (hosts ++ host ∷ [])
                        (Distinct-append id_of hosts host ids new.1),
                    sort_hosts-Ascending (hosts ++ host ∷ []) distinct,
                  )),
              λ a j. rw sorted (
                  find_host-sort_hosts j (hosts ++ host ∷ []) distinct
                  ∙ find_host-add j hosts host new.0),
              λ a. absurd (ground arith),
            )
      ]
