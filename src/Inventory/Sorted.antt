-- ===== src/Inventory/Sorted.antt =====
-- `sort_by` on the hosts of src/inventory/store.rs: what sorting keeps, and what it reaches.
use styrn.Common.{
  suc, ◌≡◌, ◌≢◌, refl, sym, ap, ◌∙◌, inl, inr, true, false, some, String, List, [], ◌∷◌, length,
  arith, Bool-cases, All, Distinct, if◌then◌else◌, str_eq,
}
use text.Mathlib.TextEquality.{eq_iff}
use styrn.Common.Text.{codes}
use styrn.Common.Matching.{codes-injective}
use styrn.Inventory.Names.{name_lt, codes_lt_trans, codes_lt_total}
use styrn.Inventory.Document.{InventoryHost, insert_host, sort_hosts, find_host}

abbrev pub name_of : InventoryHost → String
name_of host = host.name

abbrev pub id_of : InventoryHost → String
id_of host = host.machine_id.hyphenated

-- Each name is smaller than every later one.
abbrev pub Ascending : List InventoryHost → Type 0
Ascending [] = Unit
Ascending (h ∷ hosts) = All (λ k. name_lt h.name k.name ≡ true) hosts × Ascending hosts

pub All-map {ℓ κ μ} :
    {A : Type ℓ} {P : A → Type κ} {Q : A → Type μ} (xs : List A)
    → ((x : A) → P x → Q x)
    → All P xs
    → All Q xs
All-map [] step h = tt
All-map (x ∷ xs) step h = (step x h.0, All-map xs step h.1)

module _ {κ} (P : InventoryHost → Type κ) where
  pub insert_host-All :
      (host : InventoryHost) (hosts : List InventoryHost)
      → P host
      → All P hosts
      → All P (insert_host host hosts)
  unfolding insert_host
  insert_host-All host [] p h = (p, tt)
  insert_host-All host (k ∷ hosts) p h = elim (Bool-cases (name_lt k.name host.name)) [
    | inl e ↦ rw e (h.0, insert_host-All host hosts p h.1)
    | inr e ↦ rw e (p, h)
  ]

  pub sort_hosts-All : (hosts : List InventoryHost) → All P hosts → All P (sort_hosts hosts)
  unfolding sort_hosts
  sort_hosts-All [] h = tt
  sort_hosts-All (k ∷ hosts) h = insert_host-All k (sort_hosts hosts) h.0 (sort_hosts-All hosts h.1)

module _ (key : InventoryHost → String) where
  insert_host-Distinct :
      (host : InventoryHost) (hosts : List InventoryHost)
      → All (λ k. key k ≢ key host) hosts
      → Distinct key hosts
      → Distinct key (insert_host host hosts)
  unfolding insert_host
  insert_host-Distinct host [] new h = (tt, tt)
  insert_host-Distinct host (k ∷ hosts) new h = elim (Bool-cases (name_lt k.name host.name)) [
    | inl e ↦ rw e (
      insert_host-All (λ y. key y ≢ key k) host hosts (λ e. new.0 (sym e)) h.0,
      insert_host-Distinct host hosts new.1 h.1,
    )
    | inr e ↦ rw e (new, h)
  ]

  pub sort_hosts-Distinct :
      (hosts : List InventoryHost) → Distinct key hosts → Distinct key (sort_hosts hosts)
  unfolding sort_hosts
  sort_hosts-Distinct [] h = tt
  sort_hosts-Distinct (k ∷ hosts) h =
      insert_host-Distinct k (sort_hosts hosts) (sort_hosts-All (λ y. key y ≢ key k) hosts h.0)
        (sort_hosts-Distinct hosts h.1)

length-insert_host :
    (host : InventoryHost) (hosts : List InventoryHost)
    → length (insert_host host hosts) ≡ suc (length hosts)
unfolding insert_host
length-insert_host host [] = refl
length-insert_host host (k ∷ hosts) = elim (Bool-cases (name_lt k.name host.name)) [
  | inl e ↦ rw e (ap suc (length-insert_host host hosts))
  | inr e ↦ rw e refl
]

pub length-sort_hosts : (hosts : List InventoryHost) → length (sort_hosts hosts) ≡ length hosts
unfolding sort_hosts
length-sort_hosts [] = refl
length-sort_hosts (k ∷ hosts) =
    length-insert_host k (sort_hosts hosts) ∙ ap suc (length-sort_hosts hosts)

name_lt_other : (a b : String) → name_lt a b ≡ false → a ≢ b → name_lt b a ≡ true
name_lt_other a b h differ =
    codes_lt_total (codes a) (codes b) h (λ e. differ (codes-injective a b e))

insert_host-Ascending :
    (host : InventoryHost) (hosts : List InventoryHost)
    → All (λ k. k.name ≢ host.name) hosts
    → Ascending hosts
    → Ascending (insert_host host hosts)
unfolding insert_host
insert_host-Ascending host [] new h = (tt, tt)
insert_host-Ascending host (k ∷ hosts) new h = elim (Bool-cases (name_lt k.name host.name)) [
  | inl before ↦ rw before (
    insert_host-All (λ y. name_lt k.name y.name ≡ true) host hosts before h.0,
    insert_host-Ascending host hosts new.1 h.1,
  )
  | inr after ↦
      let first = name_lt_other k.name host.name after new.0 in
      rw after (
        (
          first,
          All-map hosts
              (λ y later.
                codes_lt_trans (codes host.name) (codes k.name) (codes y.name) first later)
              h.0,
        ),
        h,
      )
]

pub sort_hosts-Ascending :
    (hosts : List InventoryHost) → Distinct name_of hosts → Ascending (sort_hosts hosts)
unfolding sort_hosts
sort_hosts-Ascending [] h = tt
sort_hosts-Ascending (k ∷ hosts) h =
    insert_host-Ascending k (sort_hosts hosts) (sort_hosts-All (λ y. y.name ≢ k.name) hosts h.0)
      (sort_hosts-Ascending hosts h.1)

find_host-insert_host :
    (j : String) (host : InventoryHost) (hosts : List InventoryHost)
    → All (λ k. k.name ≢ host.name) hosts
    → find_host j (insert_host host hosts) ≡ find_host j (host ∷ hosts)
unfolding insert_host find_host
find_host-insert_host j host [] new = refl
find_host-insert_host j host (k ∷ hosts) new = elim (Bool-cases (name_lt k.name host.name)) [
  | inl before ↦ rw before (
      ground (
        arith,
        find_host-insert_host j host hosts new.1,
        eq_iff k.name j,
        eq_iff host.name j,
        new.0,
      ))
  | inr after ↦ rw after refl
]

pub find_host-sort_hosts :
    (j : String) (hosts : List InventoryHost)
    → Distinct name_of hosts
    → find_host j (sort_hosts hosts) ≡ find_host j hosts
unfolding sort_hosts find_host
find_host-sort_hosts j [] h = refl
find_host-sort_hosts j (k ∷ hosts) h =
    find_host-insert_host j k (sort_hosts hosts) (sort_hosts-All (λ y. y.name ≢ k.name) hosts h.0)
    ∙ ap (λ r. if str_eq k.name j then some k else r) (find_host-sort_hosts j hosts h.1)
