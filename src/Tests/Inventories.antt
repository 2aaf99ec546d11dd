-- ===== src/Tests/Inventories.antt =====
-- Examples for the hosts that a controller knows.
use styrn.Common.{◌≡◌, refl, true, false, some, String, [], ◌∷◌, ok, str_eq, if◌then◌else◌}
use styrn.Manifest.Defs.{Uuid}
use styrn.Manifest.Secrets.{is_private_key, is_compact_jwt}
use styrn.Inventory.Document.{
  InventoryHost, StoredSsh, cache_file, valid_host, validate_hosts, find_host, upsert_exact,
  replace_exact,
}
use styrn.Inventory.Laws.{IsInventory, upsert_exact-IsInventory}
use styrn.Inventory.Replace.{replace_exact-IsInventory}
use styrn.Tests.Hosts.{pinned}
use styrn.Tests.Manifests.{no_header}

abbrev first_id : Uuid
first_id = record {
  version = 7;
  is_rfc4122 = true;
  hyphenated = "018f0d3e-7e3a-7000-8000-000000000001";
}

abbrev second_id : Uuid
second_id = record {
  version = 7;
  is_rfc4122 = true;
  hyphenated = "018f0d3e-7e3a-7000-8000-000000000002";
}

abbrev connection : StoredSsh
connection = record {
  host = "worker.example";
  user = "a";
  port = 22;
  identity = "/home/a/.ssh/id";
  host_key = pinned;
}

abbrev first : InventoryHost
first = record {
  name = "alpha";
  machine_id = first_id;
  manifest_cache = cache_file first_id;
  transport = connection;
}

abbrev second : InventoryHost
second = record {
  name = "beta";
  machine_id = second_id;
  manifest_cache = cache_file second_id;
  transport = connection;
}

-- The same machine, at another port.
abbrev moved : InventoryHost
moved = record second { transport = record connection { port = 2022 } }

second-IsInventory : IsInventory no_header (second ∷ [])
unfolding valid_host is_private_key is_compact_jwt
second-IsInventory = (refl, (refl, tt), (tt, tt), (tt, tt), (tt, tt))

first_valid : valid_host no_header first ≡ true
unfolding valid_host is_private_key is_compact_jwt
first_valid = refl

moved_valid : valid_host no_header moved ≡ true
unfolding valid_host is_private_key is_compact_jwt
moved_valid = refl

added_first : upsert_exact (second ∷ []) first ≡ ok (first ∷ second ∷ [], true)
unfolding upsert_exact
added_first = refl

upsert_exact-IsInventory_example :
    (validate_hosts no_header (first ∷ second ∷ []) ≡ true)
    × ((true ≡ true)
        → (j : String)
        → find_host j (first ∷ second ∷ [])
          ≡ (if str_eq first.name j then some first else find_host j (second ∷ [])))
    × ((true ≡ false) → first ∷ second ∷ [] ≡ second ∷ [])
upsert_exact-IsInventory_example =
    upsert_exact-IsInventory no_header (second ∷ []) first (first ∷ second ∷ []) true
      second-IsInventory first_valid added_first

replaced : replace_exact (second ∷ []) second moved ≡ ok (moved ∷ [])
unfolding replace_exact
replaced = refl

replace_exact-IsInventory_example :
    (validate_hosts no_header (moved ∷ []) ≡ true)
    × ((j : String)
        → find_host j (moved ∷ [])
          ≡ (if str_eq moved.name j then some moved else find_host j (second ∷ [])))
replace_exact-IsInventory_example =
    replace_exact-IsInventory no_header (second ∷ []) second moved (moved ∷ []) second-IsInventory
      moved_valid replaced
