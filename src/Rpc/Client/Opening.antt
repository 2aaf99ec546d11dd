-- ===== src/Rpc/Client/Opening.antt =====
-- How a session is opened and finished: `connect` and `finish` of src/rpc/mod.rs.
use styrn.Common.{
  ℕ, ◌≡◌, ◌≢◌, ◌↔◌, refl, sym, ap, true, false, Option, none, some, String, Result, ok, err, arith,
}
use styrn.Output.Code.{ErrorCode}
use styrn.Rpc.Frame.Defs.{UuidCrate, ServerHello, Frame, server_hello, client_hello, FrameResult}
use styrn.Rpc.Wire.{JsonCrate}
use styrn.Rpc.Negotiation.{
  protocol_min, protocol_max, supported_schema, Speaks, highest_protocol_intersection,
  negotiate_server_hello,
}
use styrn.Rpc.Process.{Process, abort, finish, read_frame, write_frame}
use styrn.Rpc.Client.{Client, chosen, negotiated, greeted, connect, finish_session}
use styrn.Rpc.Client.Session.{IsAborted}

negotiate_server_hello-Speaks :
    (hello : ServerHello) (v : ℕ)
    → negotiate_server_hello hello ≡ ok v
    → (v ≡ 1)
      × Speaks protocol_min protocol_max hello.protocol_min hello.protocol_max v
      × (hello.manifest_schema_version ≡ supported_schema)
unfolding negotiate_server_hello highest_protocol_intersection
negotiate_server_hello-Speaks hello v h = ground arith

module _ (uuid : UuidCrate) (json : JsonCrate) (styrn_version : String) where
  -- What a session that was opened with `process` starts from.
  pub record IsOpened (process : Process) (c : Client) : Type 0 where
    pub hello_read : (read_frame uuid json process).0 ≡ ok (some (server_hello c.hello))
    pub speaks : Speaks protocol_min protocol_max c.hello.protocol_min c.hello.protocol_max 1
    pub schema : c.hello.manifest_schema_version ≡ supported_schema
    pub selected :
        write_frame uuid json
          (client_hello (record { protocol = 1; styrn_version = styrn_version }))
          (read_frame uuid json process).1
        ≡ (ok tt, c.process)
    pub is_open : c.terminated ≡ false
    pub first_request : c.next_id ≡ 1

  -- The outcome of `connect`, and the process that it leaves.
  abbrev pub Opens : Process → Result ErrorCode Client × Process → Type 0
  Opens process (ok c, left) = IsOpened process c × (c.process ≡ left)
  Opens process (err code, left) = IsAborted left

  abort-IsAborted : (p : Process) → IsAborted (abort p)
  unfolding abort
  abort-IsAborted p = record { no_child = refl; no_input = refl; no_stderr = refl }

  chosen-Opens :
      (process : Process) (hello : ServerHello) (w : FrameResult (Unit {0}) × Process)
      → (read_frame uuid json process).0 ≡ ok (some (server_hello hello))
      → Speaks protocol_min protocol_max hello.protocol_min hello.protocol_max 1
      → hello.manifest_schema_version ≡ supported_schema
      → write_frame uuid json
          (client_hello (record { protocol = 1; styrn_version = styrn_version }))
          (read_frame uuid json process).1
        ≡ w
      → Opens process (chosen uuid json styrn_version hello w)
  chosen-Opens process hello (ok x, left) r s m w = (
    record {
      hello_read = r;
      speaks = s;
      schema = m;
      selected = w;
      is_open = refl;
      first_request = refl;
    },
    refl,
  )
  chosen-Opens process hello (err e, left) r s m w = abort-IsAborted left

  negotiated-Opens :
      (process : Process) (hello : ServerHello) (n : Result ErrorCode ℕ)
      → (read_frame uuid json process).0 ≡ ok (some (server_hello hello))
      → negotiate_server_hello hello ≡ n
      → Opens process (negotiated uuid json styrn_version hello n (read_frame uuid json process).1)
  negotiated-Opens process hello (ok v) r n =
      let (one, speaks, schema) = negotiate_server_hello-Speaks hello v n in
      rw one (
        chosen-Opens process hello
          (write_frame uuid json
            (client_hello (record { protocol = 1; styrn_version = styrn_version }))
            (read_frame uuid json process).1)
          r (rw one at speaks) schema refl)
  negotiated-Opens process hello (err code) r n = abort-IsAborted _

  greeted-Opens :
      (process : Process) (r : FrameResult (Option Frame) × Process)
      → read_frame uuid json process ≡ r
      → Opens process (greeted uuid json styrn_version r)
  greeted-Opens process (ok (some (server_hello hello)), left) h =
      rw (sym (ap (λ r. r.1) h))
        (negotiated-Opens process hello (negotiate_server_hello hello) (ap (λ r. r.0) h) refl)
  greeted-Opens process (ok (some frame), left) h = abort-IsAborted left
  greeted-Opens process (ok none, left) h = abort-IsAborted left
  greeted-Opens process (err e, left) h = abort-IsAborted left

  -- Opening a session either gives a client, for a worker whose hello was read, whose versions
  -- include the controller's and whose manifest has the supported schema, after the selection was
  -- written and with nothing asked yet, or it reports an error and the process is aborted.
  pub connect-Opens : (process : Process) → Opens process (connect uuid json styrn_version process)
  unfolding connect
  connect-Opens process = greeted-Opens process (read_frame uuid json process) refl

-- Finishing a session succeeds exactly when it is open, its child is waited for and succeeds, and
-- the thread on its standard error, where there is one, can be joined.
pub finish_session_iff :
    (c : Client)
    → (finish_session c ≡ ok tt) ↔ (
        (c.terminated ≡ false)
        × (c.process.child ≡ some (record { wait = some true }))
        × (c.process.stderr ≢ some false))
unfolding finish_session finish
finish_session_iff c = (λ h. ground arith, λ h. ground arith)
