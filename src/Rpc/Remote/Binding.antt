-- ===== src/Rpc/Remote/Binding.antt =====
-- `ExpectedPeer` and `validate_hello_manifest_binding` of src/rpc/mod.rs, on the fields of a manifest
-- that it reads.
use styrn.Common.{
  ℕ, ◌≡◌, ◌↔◌, Bool, true, false, not, ◌||◌, Option, none, some, String, str_eq, eq_iff, len, ltb,
  ◌==◌, Result, ok, err, arith, if◌then◌else◌,
}
use styrn.Common.Text.{empty_text, has_control}
use styrn.Output.Code.{ErrorCode, protocol_malformed, usage_invalid_argument}
use styrn.Rpc.Frame.Defs.{UuidCrate, ServerHello}

pub record ExpectedPeer : Type 0 where
  pub machine_id : ℕ
  pub name : String
  pub user : String

-- `ExpectedPeer::new`.
unfoldable pub ExpectedPeer_new : UuidCrate → ℕ → String → String → Result ErrorCode ExpectedPeer
ExpectedPeer_new uuid machine_id name user =
    if not (uuid.get_version_num machine_id == 7)
      || empty_text name
      || ltb 255 (len name)
      || empty_text user
      || ltb 255 (len user)
      || has_control name
      || has_control user
    then err usage_invalid_argument
    else ok (record { machine_id = machine_id; name = name; user = user })

-- The fields of `MachineManifest` that are compared; `transport_user` is the user of the transport,
-- where there is one, and `identity_name` the name of the worker's identity.
pub record MachineManifest : Type 0 where
  pub schema_version : ℕ
  pub machine_id : ℕ
  pub name : String
  pub transport_user : Option String
  pub identity_name : Option String

abbrev pub is_user : Option String → String → Bool
is_user none user = false
is_user (some name) user = str_eq name user

unfoldable pub validate_hello_manifest_binding :
    ServerHello → MachineManifest → ExpectedPeer → Result ErrorCode (Unit {0})
validate_hello_manifest_binding hello manifest expected =
    if not (hello.machine_id == manifest.machine_id)
      || not (str_eq hello.name manifest.name)
      || not (hello.manifest_schema_version == manifest.schema_version)
      || not (hello.machine_id == expected.machine_id)
      || not (str_eq hello.name expected.name)
      || not (is_user manifest.transport_user expected.user)
      || not (is_user manifest.identity_name expected.user)
    then err protocol_malformed
    else ok tt

is_user_iff : (o : Option String) (user : String) → (is_user o user ≡ true) ↔ (o ≡ some user)
is_user_iff none user = ground arith
is_user_iff (some name) user = ground (arith, eq_iff name user)

-- A worker is accepted exactly when its hello, its manifest and the expected peer name one machine,
-- the manifest has the schema of the hello, and its transport and its identity are the expected
-- user's.
pub validate_hello_manifest_binding_iff :
    (hello : ServerHello) (manifest : MachineManifest) (expected : ExpectedPeer)
    → (validate_hello_manifest_binding hello manifest expected ≡ ok tt) ↔ (
        (manifest.machine_id ≡ expected.machine_id)
        × (manifest.name ≡ expected.name)
        × (hello.machine_id ≡ expected.machine_id)
        × (hello.name ≡ expected.name)
        × (hello.manifest_schema_version ≡ manifest.schema_version)
        × (manifest.transport_user ≡ some expected.user)
        × (manifest.identity_name ≡ some expected.user))
unfolding validate_hello_manifest_binding
validate_hello_manifest_binding_iff hello manifest expected = ground (
  arith,
  eq_iff hello.name manifest.name,
  eq_iff hello.name expected.name,
  is_user_iff manifest.transport_user expected.user,
  is_user_iff manifest.identity_name expected.user,
)
