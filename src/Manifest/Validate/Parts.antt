-- ===== src/Manifest/Validate/Parts.antt =====
-- The parts of `MachineManifest::validate` of src/manifest/mod.rs, check by check.
use Prim.Native.String
use styrn.Common.{
  ◌≡◌, ◌↔◌, Bool, false, not, Option, none, some, String, Distinct, List, All, ok, >>-iff,
  refuse_if_iff, arith,
}
use styrn.Common.Text.{empty_text}
use styrn.Common.Chars.{is_some}
use styrn.Manifest.Defs.{
  validation, Transport, Paths, DetectedResources, ResourcePolicy, Resources, Ssh, PendingAction,
}
use styrn.Manifest.Validate.{
  done, refuse, non_empty, check_path_names, is_zero, is_above_99, check_transport, Base64,
  check_fingerprint, check_ssh, check_detected, check_policy, check_resources, check_pending,
}
use styrn.Manifest.Validate.Fields.{
  IsFingerprint, check_fingerprint_iff, IsDescribed, check_actions_iff,
}

abbrev pub IsWritten : String → Type 0
IsWritten text = empty_text text ≡ false

abbrev pub HasWrittenPaths : Paths → Type 0
HasWrittenPaths paths =
    IsWritten paths.root
    × (IsWritten paths.repos
        × (IsWritten paths.jobs
            × (IsWritten paths.cache × (IsWritten paths.artifacts × IsWritten paths.logs))))

abbrev pub is_blank_user : Option String → Bool
is_blank_user none = false
is_blank_user (some name) = empty_text name

-- A host, a port that is not 0 and a user that is not empty, where they are given.
abbrev pub HasSoundTransport : Option Transport → Type 0
HasSoundTransport none = Unit
HasSoundTransport (some transport) =
    IsWritten transport.host
    × (is_zero transport.port ≡ false)
    × (is_blank_user transport.user ≡ false)

abbrev pub HasSoundFingerprint : Base64 → Option String → Type 0
HasSoundFingerprint base64 none = Unit
HasSoundFingerprint base64 (some text) = IsFingerprint base64 text

abbrev pub HasSoundSsh : Base64 → Option Ssh → Type 0
HasSoundSsh base64 none = Unit
HasSoundSsh base64 (some ssh) = HasSoundFingerprint base64 ssh.host_key_fingerprint

abbrev pub HasProcessors : Option DetectedResources → Type 0
HasProcessors none = Unit
HasProcessors (some detected) = is_zero detected.logical_cpus ≡ false

-- One of the two reserves of disk, at most 99 percent, and no limit of 0.
abbrev pub HasSoundPolicy : Option ResourcePolicy → Type 0
HasSoundPolicy none = Unit
HasSoundPolicy (some policy) =
    (is_some policy.reserved_disk_bytes ≡ not (is_some policy.reserved_disk_percent))
    × (is_above_99 policy.reserved_disk_percent ≡ false)
    × (is_zero policy.max_parallel_compile_jobs ≡ false)
    × (is_zero policy.max_parallel_test_jobs ≡ false)
    × (is_zero policy.max_heavy_jobs ≡ false)

abbrev pub HasSoundResources : Option Resources → Type 0
HasSoundResources none = Unit
HasSoundResources (some resources) =
    HasProcessors resources.detected × HasSoundPolicy resources.policy

abbrev pub HasSoundPending : Option (List PendingAction) → Type 0
HasSoundPending none = Unit
HasSoundPending (some actions) =
    All IsDescribed actions × Distinct (λ (action : PendingAction). action.id) actions

pub non_empty_iff : (name value : String) → (non_empty name value ≡ ok tt) ↔ IsWritten value
non_empty_iff name value =
    refuse_if_iff (empty_text value) (validation (String.◌++◌ name " must not be empty"))

pub refuse_iff : (bad : Bool) (message : String) → (refuse bad message ≡ ok tt) ↔ (bad ≡ false)
refuse_iff bad message = refuse_if_iff bad (validation message)

pub path_names_iff : (paths : Paths) → (check_path_names paths ≡ ok tt) ↔ HasWrittenPaths paths
path_names_iff paths = >>-iff (non_empty_iff "paths.root" paths.root) (
    >>-iff (non_empty_iff "paths.repos" paths.repos) (
      >>-iff (non_empty_iff "paths.jobs" paths.jobs) (
        >>-iff (non_empty_iff "paths.cache" paths.cache) (
          >>-iff (non_empty_iff "paths.artifacts" paths.artifacts)
            (non_empty_iff "paths.logs" paths.logs)))))

pub transport_iff :
    (transport : Option Transport)
    → (check_transport transport ≡ ok tt) ↔ HasSoundTransport transport
transport_iff none = ground arith
transport_iff (some transport) = ground arith

fingerprint_iff :
    (base64 : Base64) (o : Option String)
    → (elim o [ none ↦ done | some text ↦ check_fingerprint base64 text ] ≡ ok tt)
      ↔ HasSoundFingerprint base64 o
fingerprint_iff base64 none = ground arith
fingerprint_iff base64 (some text) = check_fingerprint_iff base64 text

pub ssh_iff :
    (base64 : Base64) (o : Option Ssh) → (check_ssh base64 o ≡ ok tt) ↔ HasSoundSsh base64 o
ssh_iff base64 none = ground arith
ssh_iff base64 (some ssh) = fingerprint_iff base64 ssh.host_key_fingerprint

detected_iff : (o : Option DetectedResources) → (check_detected o ≡ ok tt) ↔ HasProcessors o
detected_iff none = ground arith
detected_iff (some detected) = ground arith

policy_iff : (o : Option ResourcePolicy) → (check_policy o ≡ ok tt) ↔ HasSoundPolicy o
policy_iff none = ground arith
policy_iff (some policy) = ground arith

pub resources_iff : (o : Option Resources) → (check_resources o ≡ ok tt) ↔ HasSoundResources o
resources_iff none = ground arith
resources_iff (some resources) =
    >>-iff (detected_iff resources.detected) (policy_iff resources.policy)

pub pending_iff : (o : Option (List PendingAction)) → (check_pending o ≡ ok tt) ↔ HasSoundPending o
pending_iff none = ground arith
pending_iff (some actions) = check_actions_iff actions
