-- ===== src/Rpc/Remote/Leaks.antt =====
-- What the two sides of a session send and show, with the search of src/manifest/mod.rs for secret-shaped
-- text in its place.
use styrn.Common.{◌≡◌, ◌≢◌, refl, ◌∙◌, Bool, true, ◌||◌, String, List, [], ℕ, any, ok, arith}
use mathlib.Core.List.{Memᴰ}
use styrn.Common.Text.{codes, is_whitespace}
use styrn.Common.Chars.{to_lower, to_upper, contains_text, words_from, trim_matches}
use styrn.Common.Members.{All-Memᴰ}
use styrn.Manifest.Secrets.{
  is_private_key, key_markers, is_compact_jwt, contains_credential_prefix,
  contains_labeled_credential, is_secret_word, contains_secret_codes, contains_secret_shaped_text,
}
use styrn.Manifest.Secrets.Prefixes.{HoldsCredential, contains_credential_prefix_iff}
use styrn.Rpc.Remote.Argv.{validate_exec_argv, validate_exec_argv_iff, IsSendableArgument}

module _ (is_object_header : List ℕ → Bool) where
  secret_parts-eq :
      (value : List ℕ)
      → contains_secret_codes is_object_header value ≡ (
          is_private_key value
          || any (λ (marker : List ℕ). contains_text marker (to_upper value)) key_markers
          || is_compact_jwt is_object_header (trim_matches is_whitespace value)
          || contains_credential_prefix value
          || contains_labeled_credential value
          || any (is_secret_word is_object_header) (words_from is_whitespace [] value))
  unfolding contains_secret_codes
  secret_parts-eq value = refl

  fourth : (a b c d e f : Bool) → d ≡ true → (a || b || c || d || e || f) ≡ true
  fourth a b c d e f h = ground arith

  shaped-eq :
      (value : String)
      → contains_secret_shaped_text is_object_header value
        ≡ contains_secret_codes is_object_header (codes value)
  unfolding contains_secret_shaped_text
  shaped-eq value = refl

  credential-secret :
      (value : String)
      → HoldsCredential (to_lower (codes value))
      → contains_secret_shaped_text is_object_header value ≡ true
  credential-secret value held =
      shaped-eq value
      ∙ secret_parts-eq (codes value)
      ∙ fourth (is_private_key (codes value))
          (any (λ (marker : List ℕ). contains_text marker (to_upper (codes value))) key_markers)
          (is_compact_jwt is_object_header (trim_matches is_whitespace (codes value)))
          (contains_credential_prefix (codes value)) (contains_labeled_credential (codes value))
          (any (is_secret_word is_object_header) (words_from is_whitespace [] (codes value)))
          ((contains_credential_prefix_iff (codes value)).1 held)

  -- No argument vector that holds a credential in one of its arguments is sent or run.
  pub validate_exec_argv-HoldsCredential :
      (argv : List String) (argument : String)
      → Memᴰ argument argv
      → HoldsCredential (to_lower (codes argument))
      → validate_exec_argv (contains_secret_shaped_text is_object_header) argv ≢ ok tt
  validate_exec_argv-HoldsCredential argv argument member held passed =
      let (_, _, sendable, _) =
        (validate_exec_argv_iff (contains_secret_shaped_text is_object_header) argv).0 passed in
      let free =
        (All-Memᴰ (IsSendableArgument (contains_secret_shaped_text is_object_header)) member
          sendable).1 in
      absurd (ground (arith, free, credential-secret argument held))
