-- ===== src/Rpc/Methods/Exec.antt =====
-- A remote command from the controller to the worker and back: `RpcClient::exec` of src/rpc/mod.rs
-- and the method `exec.run` of src/rpc/server.rs.
use styrn.Common.{
  ◌^◌, ◌<◌, ◌≡◌, ◌⊎◌, inl, inr, refl, Bool, false, some, String, List, [], ◌∷◌, Result, ok, err,
  Result-cases, arith,
}
use styrn.Common.Int.{ℤ, pos, negsuc}
use styrn.Json.Defs.{Value, get}
use styrn.Output.Code.{ErrorCode}
use styrn.Rpc.Frame.Defs.{UuidCrate}
use styrn.Rpc.Wire.{JsonCrate}
use styrn.Rpc.Client.{Client, call}
use styrn.Rpc.Client.Session.{Ends, call-Ends, terminate-IsClosed}
use styrn.Rpc.Remote.Argv.{validate_exec_argv}
use styrn.Rpc.Remote.Capture.{ExecResult, sanitize_for_client}
use styrn.Rpc.Methods.{
  exec_value, read_exec, text_items, exec_params, read_texts, read_exec_params, Worker,
  handle_request, sanitized, after_call, finish_exec, exec,
}

abbrev pub FitsI32 : ℤ → Type 0
FitsI32 (pos n) = n < 2 ^ 31
FitsI32 (negsuc n) = n < 2 ^ 31

-- What holds of a result by the types of its fields.
pub record IsMachine (r : ExecResult) : Type 0 where
  pub status : FitsI32 r.exit_code
  pub duration : r.duration_ms < 2 ^ 64

read_texts-text_items : (ss : List String) → read_texts (text_items ss) ≡ some ss
unfolding read_texts
read_texts-text_items [] = refl
read_texts-text_items (s ∷ ss) = rw (read_texts-text_items ss) refl

-- A result is read back from its JSON form.
pub read_exec-exec_value : (r : ExecResult) → IsMachine r → read_exec (exec_value r) ≡ some r
unfolding read_exec exec_value get
read_exec-exec_value r h = ground arith

module _ (is_secret : String → Bool) where
  -- The worker runs the argument vector that a controller asks for, where it is valid, and returns
  -- the result.
  handle_request-exec_params :
      (worker : Worker) (argv : List String) (r : ExecResult)
      → validate_exec_argv is_secret argv ≡ ok tt
      → worker.run_exec argv ≡ some r
      → handle_request is_secret worker "exec.run" (exec_params argv) ≡ ok (exec_value r)
  unfolding handle_request read_exec_params
  handle_request-exec_params worker argv r valid runs =
      ground (arith, read_texts-text_items argv, valid, runs)

  finish_exec-Ends :
      (c : Client) (r : Result ErrorCode ExecResult)
      → c.terminated ≡ false
      → Ends (finish_exec is_secret c r).0 (finish_exec is_secret c r).1
  finish_exec-Ends c (ok r) h = h
  finish_exec-Ends c (err code) h = inr (terminate-IsClosed c h)

  after_call-Ends :
      (called : Result ErrorCode Value × Client)
      → Ends called.0 called.1
      → Ends (after_call is_secret called).0 (after_call is_secret called).1
  unfolding read_exec
  after_call-Ends (ok v, c) h = finish_exec-Ends c (sanitized is_secret (read_exec v)) h
  after_call-Ends (err code, c) h = h

  module _ (uuid : UuidCrate) (json : JsonCrate) where
    -- A remote command on an open session either is refused for its arguments, and then nothing is
    -- sent and the session is as it was, or it ends as a call does: with a result on an open
    -- session, with `remote.execution_failed` on an open session, or with a terminated session.
    pub exec-Ends :
        (argv : List String) (c : Client)
        → c.terminated ≡ false
        → ((code : ErrorCode) × (validate_exec_argv is_secret argv ≡ err code)
            × (exec is_secret uuid json argv c ≡ (err code, c)))
          ⊎ Ends (exec is_secret uuid json argv c).0 (exec is_secret uuid json argv c).1
    unfolding exec
    exec-Ends argv c h = elim (Result-cases (validate_exec_argv is_secret argv)) [
      | inl valid ↦ inr (
          rw valid (
            after_call-Ends (call uuid json "exec.run" (exec_params argv) c)
              (call-Ends uuid json "exec.run" (exec_params argv) c h)))
      | inr (code, refused) ↦ inl (code, refused, rw refused refl)
    ]

    -- Where the worker runs a valid command and the controller's call returns what the worker
    -- answers, the controller gets the sanitized result of the command, or, where the result is
    -- refused, an error, and the session is terminated.
    pub exec-handle_request :
        (worker : Worker) (argv : List String) (r : ExecResult) (answer : Value) (c after : Client)
        → validate_exec_argv is_secret argv ≡ ok tt
        → worker.run_exec argv ≡ some r
        → IsMachine r
        → handle_request is_secret worker "exec.run" (exec_params argv) ≡ ok answer
        → call uuid json "exec.run" (exec_params argv) c ≡ (ok answer, after)
        → exec is_secret uuid json argv c
          ≡ finish_exec is_secret after (sanitize_for_client is_secret r)
    unfolding exec
    exec-handle_request worker argv r answer c after valid runs machine answers calls =
        let made = handle_request-exec_params worker argv r valid runs in
        let same : answer ≡ exec_value r = ground (arith, answers, made) in
        rw (valid, calls, same, read_exec-exec_value r machine) refl
