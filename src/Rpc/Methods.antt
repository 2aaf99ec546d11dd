-- ===== src/Rpc/Methods.antt =====
-- The method `exec.run`: `handle_request` of src/rpc/server.rs and `RpcClient::exec` of
-- src/rpc/mod.rs. What the other methods do, and running a command, are parameters.
pub mod Exec
use styrn.Common.{
  ℕ, ◌^◌, Bool, true, false, Option, none, some, String, str_eq, List, [], ◌∷◌, ltb, Result, ok,
  err, if◌then◌else◌,
}
use styrn.Common.Int.{ℤ, pos, negsuc}
use styrn.Json.Defs.{
  Value, null, bool, number, text, array, object, pos_int, neg_int, Items, nil, cons, Fields, end,
  field, get, as_str,
}
use styrn.Output.Code.{ErrorCode, protocol_malformed}
use styrn.Output.Envelope.{int_value}
use styrn.Rpc.Frame.Defs.{UuidCrate}
use styrn.Rpc.Frame.Raw.{read_u64, read_bool, ◌>>?◌}
use styrn.Rpc.Wire.{JsonCrate}
use styrn.Rpc.Server.{HandlerError, malformed, remote}
use styrn.Rpc.Client.{Client, call, terminate}
use styrn.Rpc.Remote.Argv.{validate_exec_argv}
use styrn.Rpc.Remote.Capture.{ExecResult, sanitize_for_client}

-- How serde reads an `i32`.
abbrev pub read_i32 : Value → Option ℤ
read_i32 (number (pos_int n)) = if ltb n (2 ^ 31) then some (pos n) else none
read_i32 (number (neg_int n)) = if ltb n (2 ^ 31) then some (negsuc n) else none
read_i32 _ = none

-- The derived `Serialize` of `ExecResult`.
unfoldable pub exec_value : ExecResult → Value
exec_value r = object (
    field "exit_code" (int_value r.exit_code) (
      field "stdout" (text r.stdout) (
        field "stderr" (text r.stderr) (
          field "duration_ms" (number (pos_int r.duration_ms)) (
            field "stdout_lossy" (bool r.stdout_lossy) (
              field "stderr_lossy" (bool r.stderr_lossy) (
                field "stdout_redacted" (bool r.stdout_redacted)
                  (field "stderr_redacted" (bool r.stderr_redacted) end))))))))

-- The derived `Deserialize` of `ExecResult`, on its eight fields.
abbrev pub read_fields :
    Option Value
    → Option Value
    → Option Value
    → Option Value
    → Option Value
    → Option Value
    → Option Value
    → Option Value
    → Option ExecResult
read_fields exit_code stdout stderr duration stdout_lossy stderr_lossy stdout_redacted
      stderr_redacted =
    (exit_code >>? read_i32) >>? λ code. (stdout >>? as_str) >>? λ out.
    (stderr >>? as_str) >>? λ errors. (duration >>? read_u64) >>? λ ms.
    (stdout_lossy >>? read_bool) >>? λ out_lossy. (stderr_lossy >>? read_bool) >>? λ err_lossy.
    (stdout_redacted >>? read_bool) >>? λ out_redacted.
    (stderr_redacted >>? read_bool) >>? λ err_redacted. some (record {
      exit_code = code;
      stdout = out;
      stderr = errors;
      duration_ms = ms;
      stdout_lossy = out_lossy;
      stderr_lossy = err_lossy;
      stdout_redacted = out_redacted;
      stderr_redacted = err_redacted;
    })

unfoldable pub read_exec : Value → Option ExecResult
unfolding get
read_exec (object fs) =
    read_fields (get "exit_code" fs) (get "stdout" fs) (get "stderr" fs) (get "duration_ms" fs)
      (get "stdout_lossy" fs) (get "stderr_lossy" fs) (get "stdout_redacted" fs)
      (get "stderr_redacted" fs)
read_exec (array (cons a (cons b (cons c (cons d (cons e (cons f (cons g (cons h nil))))))))) =
    read_fields (some a) (some b) (some c) (some d) (some e) (some f) (some g) (some h)
read_exec _ = none

abbrev pub text_items : List String → Items
text_items [] = nil
text_items (s ∷ ss) = cons (text s) (text_items ss)

-- `json!({ "argv": argv })`.
abbrev pub exec_params : List String → Value
exec_params argv = object (field "argv" (array (text_items argv)) end)

unfoldable pub read_texts : Items → Option (List String)
read_texts nil = some []
read_texts (cons (text s) vs) = read_texts vs >>? λ ss. some (s ∷ ss)
read_texts _ = none

abbrev read_argv : Value → Option (List String)
read_argv (array vs) = read_texts vs
read_argv _ = none

-- The derived `Deserialize` of `ExecParams`, which denies unknown fields.
unfoldable pub read_exec_params : Value → Option (List String)
unfolding read_texts
read_exec_params (object (field key v end)) = if str_eq key "argv" then read_argv v else none
read_exec_params (array (cons v nil)) = read_argv v
read_exec_params _ = none

-- `parse_empty`.
abbrev pub parse_empty : Value → Bool
parse_empty (object end) = true
parse_empty _ = false

-- What a worker does outside the protocol: the text of its manifest, its status, its doctor on the
-- parameters of the method, and running a command; `none` is an error.
pub record Worker : Type 0 where
  pub to_toml : Option String
  pub machine_status : Option Value
  pub machine_doctor : Value → Result HandlerError Value
  pub run_exec : List String → Option ExecResult

abbrev or_remote : Option Value → Result HandlerError Value
or_remote none = err remote
or_remote (some v) = ok v

abbrev toml_value : Option String → Option Value
toml_value none = none
toml_value (some toml) = some (object (field "toml" (text toml) end))

abbrev ran : Option ExecResult → Result HandlerError Value
ran none = err remote
ran (some r) = ok (exec_value r)

module _ (is_secret : String → Bool) where
  abbrev handle_argv :
      Worker → List String → Result ErrorCode (Unit {0}) → Result HandlerError Value
  handle_argv worker argv (ok _) = ran (worker.run_exec argv)
  handle_argv worker argv (err code) = err malformed

  abbrev pub handle_exec : Worker → Option (List String) → Result HandlerError Value
  handle_exec worker none = err malformed
  handle_exec worker (some argv) = handle_argv worker argv (validate_exec_argv is_secret argv)

  unfoldable pub handle_request : Worker → String → Value → Result HandlerError Value
  unfolding exec_value read_exec_params
  handle_request worker method params =
      if str_eq method "machine.manifest"
      then (if parse_empty params then or_remote (toml_value worker.to_toml) else err malformed)
      else if str_eq method "machine.status"
      then (if parse_empty params then or_remote worker.machine_status else err malformed)
      else if str_eq method "machine.doctor"
      then worker.machine_doctor params
      else if str_eq method "exec.run"
      then handle_exec worker (read_exec_params params)
      else err malformed

  -- `result.map_err(|error| self.terminate(error))`.
  abbrev pub finish_exec :
      Client → Result ErrorCode ExecResult → Result ErrorCode ExecResult × Client
  finish_exec client (ok r) = (ok r, client)
  finish_exec client (err code) = (err code, terminate client)

  abbrev pub sanitized : Option ExecResult → Result ErrorCode ExecResult
  sanitized none = err protocol_malformed
  sanitized (some r) = sanitize_for_client is_secret r

  abbrev pub after_call : Result ErrorCode Value × Client → Result ErrorCode ExecResult × Client
  after_call (ok v, client) = finish_exec client (sanitized (read_exec v))
  after_call (err code, client) = (err code, client)

  module _ (uuid : UuidCrate) (json : JsonCrate) where
    abbrev exec_checked :
        List String → Client → Result ErrorCode (Unit {0}) → Result ErrorCode ExecResult × Client
    exec_checked argv client (err code) = (err code, client)
    exec_checked argv client (ok _) =
        after_call (call uuid json "exec.run" (exec_params argv) client)

    -- `RpcClient::exec`.
    unfoldable pub exec : List String → Client → Result ErrorCode ExecResult × Client
    unfolding read_exec
    exec argv client = exec_checked argv client (validate_exec_argv is_secret argv)
