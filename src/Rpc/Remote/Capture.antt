-- ===== src/Rpc/Remote/Capture.antt =====
-- `ExecResult` of src/rpc/mod.rs: what the controller shows of a remote command.
use styrn.Common.{
  ℕ, ◌*◌, ◌≤◌, ◌≡◌, ◌⊎◌, Bool, true, false, ◌||◌, String, len, ltb, Result, ok, err, arith,
  if◌then◌else◌,
}
use styrn.Common.Int.{ℤ}
use styrn.Output.Code.{ErrorCode, protocol_malformed}

abbrev pub max_exec_capture_bytes : ℕ
max_exec_capture_bytes = 1024 * 1024

abbrev pub redacted_output : String
redacted_output = "[redacted secret-shaped output]"

pub record ExecResult : Type 0 where
  pub exit_code : ℤ
  pub stdout : String
  pub stderr : String
  pub duration_ms : ℕ
  pub stdout_lossy : Bool
  pub stderr_lossy : Bool
  pub stdout_redacted : Bool
  pub stderr_redacted : Bool

module _ (is_secret : String → Bool) where
  unfoldable pub sanitize_remote_capture : String → Bool → String × Bool
  sanitize_remote_capture capture redacted =
      if redacted || is_secret capture then (redacted_output, true) else (capture, redacted)

  abbrev pub with_captures : ExecResult → String × Bool → String × Bool → ExecResult
  with_captures r (stdout, stdout_redacted) (stderr, stderr_redacted) = record r {
    stdout = stdout;
    stderr = stderr;
    stdout_redacted = stdout_redacted;
    stderr_redacted = stderr_redacted;
  }

  unfoldable pub sanitize_for_client : ExecResult → Result ErrorCode ExecResult
  unfolding sanitize_remote_capture
  sanitize_for_client r =
      if ltb max_exec_capture_bytes (len r.stdout) || ltb max_exec_capture_bytes (len r.stderr)
      then err protocol_malformed
      else ok (
          with_captures r (sanitize_remote_capture r.stdout r.stdout_redacted)
            (sanitize_remote_capture r.stderr r.stderr_redacted))

  -- A capture that may be shown: it is redacted as a whole, and says so, or it holds no secret and
  -- is the worker's own.
  abbrev pub IsShown : String → String → Bool → Type 0
  IsShown received capture redacted =
      ((redacted ≡ true) × (capture ≡ redacted_output))
      ⊎ ((redacted ≡ false)
          × (capture ≡ received)
          × (is_secret capture ≡ false)
          × (len capture ≤ max_exec_capture_bytes))

  -- Each capture of a result that the controller accepts may be shown, and the status, the duration
  -- and the marks of lossy text are the worker's.
  pub sanitize_for_client-IsShown :
      (r s : ExecResult)
      → sanitize_for_client r ≡ ok s
      → IsShown r.stdout s.stdout s.stdout_redacted
        × IsShown r.stderr s.stderr s.stderr_redacted
        × (s.exit_code ≡ r.exit_code)
        × (s.duration_ms ≡ r.duration_ms)
        × (s.stdout_lossy ≡ r.stdout_lossy)
        × (s.stderr_lossy ≡ r.stderr_lossy)
  unfolding sanitize_for_client
  sanitize_for_client-IsShown r s h = ground arith
