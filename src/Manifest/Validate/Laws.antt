-- ===== src/Manifest/Validate/Laws.antt =====
-- `MachineManifest::validate` of src/manifest/mod.rs as a whole, and what it lets out as JSON.
use styrn.Common.{
  ℕ, ◌==◌, ◌≡◌, ◌≢◌, refl, sym, ◌∙◌, ◌↔◌, inl, inr, Bool, true, false, not, ◌||◌, Option, none,
  some, String, List, any, is_empty, ok, ◌>>=◌, ◌>>◌, >>-iff, refuse_if-eq-ok, ok_or, Option-cases,
  arith,
}
use styrn.Json.Defs.{Value}
use styrn.Manifest.Defs.{validation, InstallationScope, MachineManifest}
use styrn.Manifest.Scan.{scan_secret_free, prune_nulls}
use styrn.Manifest.Scan.Laws.{is_clean, scan_secret_free_iff}
use styrn.Manifest.Scan.Pruned.{is_pruned, prune_nulls-is_pruned, prune_nulls-is_clean}
use styrn.Manifest.Paths.{validate_for}
use styrn.Manifest.Paths.Children.{HasSoundPaths, validate_for_iff}
use styrn.Manifest.Wire.{wire_value}
use styrn.Manifest.Validate.{
  Checked, refuse, non_empty, repeats_role, check_worker, check_path_names, check_transport, Base64,
  check_ssh, check_resources, check_pending, validate_within, validate, to_json_value,
}
use styrn.Manifest.Validate.Fields.{HasUniqueRoles, unique_roles_iff}
use styrn.Manifest.Validate.Worker.{HasSoundWorker, check_worker_iff}
use styrn.Manifest.Validate.Parts.{
  IsWritten, HasWrittenPaths, HasSoundTransport, HasSoundSsh, HasSoundResources, HasSoundPending,
  non_empty_iff, refuse_iff, path_names_iff, transport_iff, ssh_iff, resources_iff, pending_iff,
}

module _ (base64 : Base64) (is_object_header : List ℕ → Bool) (quote : String → String) where
  module _ (m : MachineManifest) (scope : InstallationScope) where
    validate_within-eq : validate_within base64 is_object_header quote m scope ≡ (
        non_empty "name" m.name
        >> (refuse (is_empty m.roles) "roles must not be empty"
            >> (refuse (any (repeats_role m.roles) m.roles) "roles must be unique"
                >> (check_worker m scope
                    >> (non_empty "platform.hostname" m.host.hostname
                        >> (check_path_names m.paths
                            >> (validate_for m.paths m.host.os scope
                                >> (check_transport m.transport
                                    >> (check_ssh base64 m.ssh
                                        >> (check_resources m.resources
                                            >> (check_pending m.pending_actions
                                                >> scan_secret_free is_object_header quote
                                                    (wire_value m)
                                                    "$")))))))))))
    unfolding validate_within
    validate_within-eq = refl

    -- What is asked of a manifest in its scope.
    abbrev pub IsValidWithin : Type 0
    IsValidWithin =
        IsWritten m.name
        × ((is_empty m.roles ≡ false)
            × (HasUniqueRoles m.roles
                × (HasSoundWorker m scope
                    × (IsWritten m.host.hostname
                        × (HasWrittenPaths m.paths
                            × (HasSoundPaths m.paths m.host.os scope
                                × (HasSoundTransport m.transport
                                    × (HasSoundSsh base64 m.ssh
                                        × (HasSoundResources m.resources
                                            × (HasSoundPending m.pending_actions
                                                × (is_clean is_object_header (wire_value m)
                                                    ≡ true)))))))))))

    unique_iff :
        (refuse (any (repeats_role m.roles) m.roles) "roles must be unique" ≡ ok tt)
        ↔ HasUniqueRoles m.roles
    unique_iff =
        let checked = refuse_iff (any (repeats_role m.roles) m.roles) "roles must be unique" in
        let unique = unique_roles_iff m.roles in
        (λ h. unique.0 (checked.0 h), λ h. checked.1 (unique.1 h))

    within_iff : (validate_within base64 is_object_header quote m scope ≡ ok tt) ↔ IsValidWithin
    within_iff = rw validate_within-eq (
        >>-iff (non_empty_iff "name" m.name) (
          >>-iff (refuse_iff (is_empty m.roles) "roles must not be empty") (
            >>-iff unique_iff (
              >>-iff (check_worker_iff m scope) (
                >>-iff (non_empty_iff "platform.hostname" m.host.hostname) (
                  >>-iff (path_names_iff m.paths) (
                    >>-iff (validate_for_iff m.paths m.host.os scope) (
                      >>-iff (transport_iff m.transport) (
                        >>-iff (ssh_iff base64 m.ssh) (
                          >>-iff (resources_iff m.resources) (
                            >>-iff (pending_iff m.pending_actions) (
                              scan_secret_free_iff is_object_header quote (wire_value m)
                                "$"))))))))))))

  -- A manifest that may be used: its scheme, a UUID of version 7, a scope, and what is asked in it.
  abbrev pub IsValid : MachineManifest → Type 0
  IsValid m =
      (m.schema_version ≡ 1)
      × (m.machine_id.version ≡ 7)
      × (m.machine_id.is_rfc4122 ≡ true)
      × ((scope : InstallationScope) × (m.installation ≡ some scope) × IsValidWithin m scope)

  validate_of_scope :
      (m : MachineManifest) (scope : InstallationScope)
      → m.schema_version ≡ 1
      → m.machine_id.version ≡ 7
      → m.machine_id.is_rfc4122 ≡ true
      → m.installation ≡ some scope
      → validate base64 is_object_header quote m
        ≡ validate_within base64 is_object_header quote m scope
  unfolding validate
  validate_of_scope m scope e f g h = rw (e, f, g, h) refl

  validate-eq :
      (m : MachineManifest)
      → validate base64 is_object_header quote m ≡ (
          refuse (not (m.schema_version == 1)) "schema_version must be 1"
          >> (refuse
                (not (m.machine_id.version == 7) || not m.machine_id.is_rfc4122)
                "machine_id must be an RFC UUIDv7"
              >> (ok_or m.installation (validation "installation is required")
                  >>= validate_within base64 is_object_header quote m)))
  unfolding validate
  validate-eq m = refl

  missing_scope :
      (o : Option InstallationScope) (next : InstallationScope → Checked)
      → o ≡ none
      → (ok_or o (validation "installation is required") >>= next) ≢ ok tt
  missing_scope none next e h = cc
  missing_scope (some scope) next e h = cc

  -- What a manifest that passes has before its scope is asked for.
  validated_head :
      (m : MachineManifest)
      → validate base64 is_object_header quote m ≡ ok tt
      → (m.schema_version ≡ 1)
        × (m.machine_id.version ≡ 7)
        × (m.machine_id.is_rfc4122 ≡ true)
        × (m.installation ≢ none)
  validated_head m h =
      let (versioned, later) =
        refuse_if-eq-ok (not (m.schema_version == 1)) _ _ (sym (validate-eq m) ∙ h) in
      let (identified, last) =
        refuse_if-eq-ok (not (m.machine_id.version == 7) || not m.machine_id.is_rfc4122) _ _
          later in
      (
        ground arith,
        ground arith,
        ground arith,
        λ missing. absurd (missing_scope m.installation _ missing last),
      )

  -- A manifest is accepted exactly when it is valid: every field is as its type asks, the worker's
  -- identity, the transport, the paths and the scope agree, no two pending actions share an identifier,
  -- and in its JSON no key is key material, a token or a forbidden name and no text is key material or a
  -- token.
  pub validate_iff :
      (m : MachineManifest) → (validate base64 is_object_header quote m ≡ ok tt) ↔ IsValid m
  validate_iff m = (
    λ h.
        let (e, f, g, installed) = validated_head m h in
        elim (Option-cases m.installation) [
          | inl missing ↦ absurd (installed missing)
          | inr (scope, k) ↦ (
            e,
            f,
            g,
            (scope, k, (within_iff m scope).0 (sym (validate_of_scope m scope e f g k) ∙ h)),
          )
        ],
    λ (e, f, g, (scope, k, valid)).
        validate_of_scope m scope e f g k ∙ (within_iff m scope).1 valid,
  )

  scanned :
      (m : MachineManifest) (scope : InstallationScope)
      → IsValidWithin m scope
      → scan_secret_free is_object_header quote (wire_value m) "$" ≡ ok tt
  scanned m scope (_, (_, (_, (_, (_, (_, (_, (_, (_, (_, (_, clean))))))))))) =
      (scan_secret_free_iff is_object_header quote (wire_value m) "$").1 clean

  json-eq :
      (m : MachineManifest)
      → to_json_value is_object_header quote m ≡ (
          scan_secret_free is_object_header quote (wire_value m) "$"
          >> ok (prune_nulls (wire_value m)))
  unfolding to_json_value
  json-eq m = refl

  shown :
      (m : MachineManifest) (scope : InstallationScope)
      → IsValidWithin m scope
      → to_json_value is_object_header quote m ≡ ok (prune_nulls (wire_value m))
  shown m scope valid = json-eq m ∙ rw (scanned m scope valid) refl

  -- The JSON of a valid manifest is let out; it has no field that is null, no key in it is key
  -- material, a token or a forbidden name, and no text in it is key material or a token.
  pub validate-to_json_value :
      (m : MachineManifest)
      → validate base64 is_object_header quote m ≡ ok tt
      → (value : Value) × (to_json_value is_object_header quote m ≡ ok value)
        × (value ≡ prune_nulls (wire_value m))
        × (is_pruned value ≡ true)
        × (is_clean is_object_header value ≡ true)
  validate-to_json_value m h =
      let (_, _, _, (scope, _, valid)) = (validate_iff m).0 h in
      let clean : is_clean is_object_header (wire_value m) ≡ true =
        (scan_secret_free_iff is_object_header quote (wire_value m) "$").0
          (scanned m scope valid) in
      (
        prune_nulls (wire_value m),
        shown m scope valid,
        refl,
        prune_nulls-is_pruned (wire_value m),
        prune_nulls-is_clean is_object_header (wire_value m) clean,
      )
