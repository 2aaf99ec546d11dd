-- ===== src/Inventory/Document.antt =====
-- `InventoryDocument` of src/inventory/store.rs: its hosts, and the operations on them. `is_object_header`
-- is that of the search for secrets.
use Prim.Native.String
use styrn.Common.{
  ℕ, ◌==◌, Bool, true, false, not, ◌&&◌, ◌||◌, Option, none, some, String, str_eq, contains, len,
  List, [], ◌∷◌, ◌++◌, leb, length, Result, ok, err, ◌>>=◌, ◌>>◌, ok_or, refuse_if, if◌then◌else◌,
}
use styrn.Common.Text.{codes, empty_text, has_control, split}
use styrn.Common.Chars.{chars_eq}
use styrn.Manifest.Defs.{Uuid}
use styrn.Manifest.Secrets.{contains_secret_shaped_text}
use styrn.Transport.HostKey.{PinnedHostKey, TransportError}
use styrn.Transport.HostKey.Select.{key_eq}
use styrn.Transport.Target.{RpcTarget, RpcTarget_new, validate_ssh_destination}
use styrn.Inventory.Names.{name_lt, codes_lt}

-- `InventoryErrorKind`.
pub data InventoryError : Type 0 where
  argument config : InventoryError

abbrev pub max_hosts : ℕ
max_hosts = 1024

-- A path is the text that it was accepted with.
pub record StoredSsh : Type 0 where
  pub host : String
  pub user : String
  pub port : ℕ
  pub identity : String
  pub host_key : PinnedHostKey

pub record InventoryHost : Type 0 where
  pub name : String
  pub machine_id : Uuid
  pub manifest_cache : String
  pub transport : StoredSsh

abbrev pub or_argument {ℓ} : {A : Type ℓ} → Result TransportError A → Result InventoryError A
or_argument (ok a) = ok a
or_argument (err e) = err argument

unfoldable pub rpc_target : StoredSsh → Result TransportError RpcTarget
unfolding RpcTarget_new
rpc_target ssh = RpcTarget_new ssh.host ssh.user ssh.port (some ssh.identity) ssh.host_key

unfoldable pub StoredSsh_new :
    String → String → ℕ → Option String → PinnedHostKey → Result InventoryError StoredSsh
unfolding validate_ssh_destination RpcTarget_new
StoredSsh_new host user port identity host_key = do
  or_argument (validate_ssh_destination host user port)
  target ← or_argument (RpcTarget_new host user port identity host_key)
  path ← ok_or identity argument
  ok (record { host = host; user = user; port = port; identity = path; host_key = host_key })

-- `Uuid` has one text for each value.
abbrev pub same_uuid : Uuid → Uuid → Bool
same_uuid a b = str_eq a.hyphenated b.hyphenated

-- `format!("manifests/{machine_id}.toml")`.
abbrev pub cache_file : Uuid → String
cache_file machine_id = String.◌++◌ "manifests/" (String.◌++◌ machine_id.hyphenated ".toml")

-- The components of an absolute path: `PathBuf` compares these.
unfoldable pub components_of : List (List ℕ) → List (List ℕ)
components_of [] = []
components_of ([] ∷ pieces) = components_of pieces
components_of ((c ∷ s) ∷ pieces) =
    let rest = components_of pieces in if chars_eq (c ∷ s) (codes ".") then rest else (c ∷ s) ∷ rest

unfoldable pub pieces_eq : List (List ℕ) → List (List ℕ) → Bool
unfolding chars_eq
pieces_eq [] [] = true
pieces_eq [] (t ∷ ts) = false
pieces_eq (s ∷ ss) [] = false
pieces_eq (s ∷ ss) (t ∷ ts) = chars_eq s t && pieces_eq ss ts

unfoldable pub same_path : String → String → Bool
unfolding components_of pieces_eq split
same_path a b =
    pieces_eq (components_of (split b'/' (codes a))) (components_of (split b'/' (codes b)))

-- The derived `PartialEq`.
unfoldable pub ssh_eq : StoredSsh → StoredSsh → Bool
unfolding same_path chars_eq
ssh_eq a b =
    str_eq a.host b.host
    && str_eq a.user b.user
    && a.port == b.port
    && same_path a.identity b.identity
    && key_eq a.host_key b.host_key

unfoldable pub host_eq : InventoryHost → InventoryHost → Bool
unfolding ssh_eq
host_eq a b =
    str_eq a.name b.name
    && same_uuid a.machine_id b.machine_id
    && str_eq a.manifest_cache b.manifest_cache
    && ssh_eq a.transport b.transport

-- `sort_by` on the names, which is stable: each host goes before the later ones that are not smaller.
unfoldable pub insert_host : InventoryHost → List InventoryHost → List InventoryHost
unfolding codes_lt
insert_host host [] = host ∷ []
insert_host host (h ∷ hosts) =
    let later = h ∷ insert_host host hosts in
    if name_lt h.name host.name then later else host ∷ h ∷ hosts

unfoldable pub sort_hosts : List InventoryHost → List InventoryHost
unfolding insert_host
sort_hosts [] = []
sort_hosts (h ∷ hosts) = insert_host h (sort_hosts hosts)

-- `iter().find(|host| host.name == name)`.
unfoldable pub find_host : String → List InventoryHost → Option InventoryHost
find_host name [] = none
find_host name (h ∷ hosts) =
    let later = find_host name hosts in if str_eq h.name name then some h else later

-- `find` of a host with the name or the machine.
unfoldable pub find_conflict : InventoryHost → List InventoryHost → Option InventoryHost
find_conflict host [] = none
find_conflict host (h ∷ hosts) =
    let later = find_conflict host hosts in
    if str_eq h.name host.name || same_uuid h.machine_id host.machine_id then some h else later

unfoldable pub select : List InventoryHost → Option String → Result InventoryError InventoryHost
unfolding find_host
select hosts (some name) = ok_or (find_host name hosts) argument
select (h ∷ []) none = ok h
select hosts none = err argument

-- The document after it, and whether the host is new; an error leaves the document as it was.
unfoldable pub upsert_exact :
    List InventoryHost → InventoryHost → Result InventoryError (List InventoryHost × Bool)
unfolding find_conflict host_eq sort_hosts
upsert_exact hosts host = elim (find_conflict host hosts) [
  | some existing ↦ if host_eq existing host then ok (hosts, false) else err config
  | none ↦
      if length hosts == max_hosts then err argument else ok (sort_hosts (hosts ++ host ∷ []), true)
]

-- `*current = replacement` at the first host of the name.
unfoldable pub replace_named : String → InventoryHost → List InventoryHost → List InventoryHost
replace_named name replacement [] = []
replace_named name replacement (h ∷ hosts) =
    let rest = replace_named name replacement hosts in
    if str_eq h.name name then replacement ∷ hosts else h ∷ rest

unfoldable pub replace_exact :
    List InventoryHost → InventoryHost → InventoryHost → Result InventoryError (List InventoryHost)
unfolding find_host host_eq replace_named
replace_exact hosts expected replacement = do
  refuse_if
      (not (str_eq expected.name replacement.name)
        || not (same_uuid expected.machine_id replacement.machine_id))
      argument
  current ← ok_or (find_host expected.name hosts) config
  refuse_if (not (host_eq current expected)) config
  ok (replace_named expected.name replacement hosts)

abbrev pub is_result_ok {ℓ} : {A : Type ℓ} → Result TransportError A → Bool
is_result_ok (ok a) = true
is_result_ok (err e) = false

-- `previous.is_some_and(|previous| previous >= name)`.
abbrev pub is_not_after : Option String → String → Bool
is_not_after none name = false
is_not_after (some previous) name = not (name_lt previous name)

module _ (is_object_header : List ℕ → Bool) where
  unfoldable pub valid_name : String → Bool
  unfolding contains_secret_shaped_text
  valid_name value =
      not (empty_text value)
      && leb (len value) 255
      && not (has_control value)
      && not (contains_secret_shaped_text is_object_header value)

  unfoldable pub InventoryHost_new : String → Uuid → StoredSsh → Result InventoryError InventoryHost
  unfolding valid_name
  InventoryHost_new name machine_id transport = do
    refuse_if (not (valid_name name) || not (machine_id.version == 7) || not machine_id.is_rfc4122)
        argument
    ok (record {
      name = name;
      machine_id = machine_id;
      manifest_cache = cache_file machine_id;
      transport = transport;
    })

  -- What is asked of one host.
  unfoldable pub valid_host : InventoryHost → Bool
  unfolding valid_name rpc_target
  valid_host host =
      valid_name host.name
      && str_eq host.manifest_cache (cache_file host.machine_id)
      && is_result_ok (rpc_target host.transport)

  -- The loop; the first arguments are `names`, `machine_ids` and `previous`.
  unfoldable pub validate_from :
      List String → List String → Option String → List InventoryHost → Bool
  unfolding valid_host contains codes_lt
  validate_from names machine_ids previous [] = true
  validate_from names machine_ids previous (host ∷ hosts) =
      let rest =
        validate_from (host.name ∷ names) (host.machine_id.hyphenated ∷ machine_ids)
          (some host.name) hosts in
      if not (valid_host host)
        || contains host.name names
        || contains host.machine_id.hyphenated machine_ids
        || is_not_after previous host.name
      then false
      else rest

  unfoldable pub validate_hosts : List InventoryHost → Bool
  unfolding validate_from
  validate_hosts hosts = leb (length hosts) max_hosts && validate_from [] [] none hosts

  unfoldable pub InventoryDocument_new :
      List InventoryHost → Result InventoryError (List InventoryHost)
  unfolding sort_hosts validate_hosts
  InventoryDocument_new hosts = do
    refuse_if (not (validate_hosts (sort_hosts hosts))) argument
    ok (sort_hosts hosts)
