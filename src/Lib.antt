-- ===== src/Lib.antt =====
-- Styrn runs commands on a fleet of worker machines. A controller (the command line, src/cli) opens
-- an SSH session to a worker, on which the worker runs `styrn serve`; the two exchange one JSON
-- frame to a line (src/rpc). Every command prints one envelope and ends with one process status
-- (src/output).
--
-- The parts, in the order of the data flow:
--   * Json: the values of serde_json, and the visitor of src/rpc/frame.rs that refuses an object with
--     a repeated field (Json/Visitor).
--   * Output: the statuses, error codes, diagnostics and envelopes of src/output/mod.rs.
--   * Rpc/Frame: the frames of src/rpc/frame.rs. `serialize` is the `Serialize` of `Frame`, `decode`
--     is `decode` from the events of the text on; Raw is the derived `Deserialize` of `RawFrame`.
--   * Rpc/Wire: `FrameReader::read` and `FrameWriter::write`, on a `Source` (the bytes to come, and
--     whether the read behind them fails) and a `Sink` (the bytes written, the room that is left, and
--     whether a flush succeeds).
--   * Rpc/Negotiation, Rpc/Id, Rpc/Errors: the choice of a protocol, the request identifiers and the
--     errors of src/rpc/mod.rs.
--   * Rpc/Server: `serve_manifest` of src/rpc/server.rs. A round of its loop is `turn`, from a
--     `Session` to the next one or to the result; what a method does is the parameter `handle`.
--   * Rpc/Process, Rpc/Client: `RpcProcess` of src/transport/mod.rs and `RpcClient` of src/rpc/mod.rs:
--     `connect`, `request` (here `call`), `terminate` and `finish` (here `finish_session`).
--   * Rpc/Exchange: the two sides together.
--   * Rpc/Remote: what the two sides accept beside the frames: texts without secrets, the arguments and
--     the captured output of a command, the report of a doctor, and the binding of a hello to a manifest
--     and an expected peer (src/rpc/mod.rs).
--   * Rpc/Methods: `handle_request` of src/rpc/server.rs and `RpcClient::exec` of src/rpc/mod.rs. What a
--     worker does outside the protocol (its manifest, its status, its doctor, running a command) is a
--     `Worker` of functions.
--   * Setup/Plan: src/setup/plan/mod.rs: the desired changes (Desired), `SetupPlan::compute` (Compute)
--     and `format_plan` (Format). A panic of `compute` would be the result `none`.
--   * Setup/Pending: `PendingPolicy::evaluate` and `project_manifest` (Projection) of
--     src/setup/pending.rs.
--   * Manifest: the manifest of a machine, src/manifest/mod.rs: its types (Defs), the search for secrets
--     (Secrets for texts, Scan for JSON values), the paths (Paths), how it is written as JSON (Wire) and
--     `MachineManifest::validate` and `to_json_value` (Validate). `Installation` is its one field.
--     Projection has the manifests that setup derives for a worker, and the check that a store makes of a
--     manifest (Projection/Store); what the platform tells of accounts and directories is `HostSystem`.
--   * Platform/Principal: `WorkerPrincipal` of src/platform/mod.rs, the account that a worker runs as.
--   * Transport: Address is the parser of IPv6 addresses that `validate_host` calls; HostKey is
--     `PinnedHostKey` of src/transport/ssh.rs, with the choice of a key and its verification in Select;
--     Target is `RpcTarget` of src/transport/mod.rs and the arguments of OpenSSH.
--   * Inventory: `InventoryDocument` of src/inventory/store.rs, the hosts that a controller knows, as a
--     list (Document), its order (Names, Sorted) and its operations (Laws, Replace). An operation that
--     fails gives no list, and the document is as it was.
--   * Resources: `MachineStatus::validate_for_client` of src/resources/mod.rs, with an `f32` as its bits.
--   * Rpc/Remote/Leaks joins the search for secrets to the arguments of a command.
--   * Tests: concrete stand-ins for the crates, and an example for each result.
--
-- Loops. `read_until` runs on the limit of the reader, which the source passes to `take`; `loop` runs
-- on fuel, and the bytes of the input are enough of it, since each round that goes on consumes a line.
-- All else is by recursion on the data.
--
-- Numbers. Identifiers are 64-bit and the overflow check of `next_id` is written out; `u32` and `u64`
-- fields are refused out of range where they are read. Lengths are those of texts held in memory.
--
-- Parameters. The crates `uuid` (`UuidCrate`) and `serde_json` (`JsonCrate`) are records of
-- functions; `UuidLaws` and `IsWritten` state what is used of their documentation: a written
-- identifier is read back, and a written value is one line of UTF-8 that is read back. chrono's
-- `to_rfc3339` is a function into text. The crates base64 and sha2 are `KeyCrates` and `Base64`,
-- `serde_json::to_string` of a key is `quote`, and whether the header of a token decodes to an object
-- (base64, serde_json) is `is_object_header`; nothing is assumed of them. Rpc and Setup hold for every
-- predicate in the place of the search for secrets, which is modelled in Manifest/Secrets, and of the
-- check of static texts (`validate_static_text` of src/setup/probe_wire.rs), which is not. A text is a
-- Unicode string whose `len` counts UTF-8 bytes as in Rust.
--
-- Not modelled: the threads and signals of child processes, the order of serde_json's maps, the fixed
-- texts of error messages that nothing compares, TOML, the files and locks of the manifest and of the
-- inventory, the system calls of the three operating systems,
-- and the setup code that changes a machine.
pub mod Common
pub mod Inventory
pub mod Json
pub mod Manifest
pub mod Output
pub mod Platform
pub mod Resources
pub mod Rpc
pub mod Setup
pub mod Tests
pub mod Transport
