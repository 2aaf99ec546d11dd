-- ===== src/Rpc/Remote/Argv.antt =====
-- `validate_exec_argv` of src/rpc/mod.rs; the sum in it is a `usize`.
use styrn.Common.{
  ℕ, ◌+◌, ◌*◌, ◌≤◌, ◌≡◌, ◌↔◌, Bool, true, false, ◌||◌, String, List, [], ◌∷◌, len, length, ltb, All,
  Result, ok, err, arith, if◌then◌else◌,
}
use styrn.Common.Text.{empty_text}
use styrn.Output.Code.{ErrorCode, usage_invalid_argument}

abbrev pub max_exec_arguments : ℕ
max_exec_arguments = 256

abbrev pub max_exec_argument_bytes : ℕ
max_exec_argument_bytes = 32 * 1024

abbrev pub max_exec_total_bytes : ℕ
max_exec_total_bytes = 256 * 1024

-- The first argument is missing or empty.
abbrev pub no_program : List String → Bool
no_program [] = true
no_program (program ∷ arguments) = empty_text program

abbrev pub total_bytes : List String → ℕ
total_bytes [] = 0
total_bytes (argument ∷ arguments) = len argument + total_bytes arguments

module _ (is_secret : String → Bool) where
  -- The loop; the first argument is `total`.
  unfoldable pub validate_arguments : ℕ → List String → Result ErrorCode (Unit {0})
  validate_arguments total [] = ok tt
  validate_arguments total (argument ∷ arguments) =
      let rest = validate_arguments (total + len argument) arguments in
      if ltb max_exec_argument_bytes (len argument) || is_secret argument
      then err usage_invalid_argument
      else if ltb max_exec_total_bytes (total + len argument)
      then err usage_invalid_argument
      else rest

  unfoldable pub validate_exec_argv : List String → Result ErrorCode (Unit {0})
  unfolding validate_arguments
  validate_exec_argv argv =
      if no_program argv || ltb max_exec_arguments (length argv)
      then err usage_invalid_argument
      else validate_arguments 0 argv

  -- An argument that may be sent.
  abbrev pub IsSendableArgument : String → Type 0
  IsSendableArgument argument =
      (len argument ≤ max_exec_argument_bytes) × (is_secret argument ≡ false)

  validate_arguments_iff :
      (total : ℕ) (argv : List String)
      → total ≤ max_exec_total_bytes
      → (validate_arguments total argv ≡ ok tt)
        ↔ (All IsSendableArgument argv × (total + total_bytes argv ≤ max_exec_total_bytes))
  unfolding validate_arguments
  validate_arguments_iff total [] le = ground arith
  validate_arguments_iff total (argument ∷ arguments) le =
      ground (arith, validate_arguments_iff (total + len argument) arguments)

  -- An argument vector is accepted exactly when it has a program whose name is not empty, at most
  -- 256 arguments, each of at most 32 KiB and free of secrets, and at most 256 KiB in all.
  pub validate_exec_argv_iff :
      (argv : List String)
      → (validate_exec_argv argv ≡ ok tt) ↔ (
          (no_program argv ≡ false)
          × (length argv ≤ max_exec_arguments)
          × All IsSendableArgument argv
          × (total_bytes argv ≤ max_exec_total_bytes))
  unfolding validate_exec_argv
  validate_exec_argv_iff argv = ground (arith, validate_arguments_iff 0 argv)
