-- ===== src/Rpc/Remote/Doctor.antt =====
-- `WorkerDoctorReport::validate_for_client` of src/rpc/mod.rs, and `ProbeId::parse` of
-- src/setup/probe_values.rs.
use styrn.Common.{
  contains, Fresh, Fresh-cons, Fresh-none, Distinct, ℕ, ◌≤◌, ◌≡◌, ◌↔◌, refl, Bool, true, false, not,
  ◌&&◌, ◌||◌, Option, none, some, String, str_eq, eq_iff, List, [], ◌∷◌, len, length, ltb, leb, all,
  is_empty, ◌==◌, All, Result, ok, err, arith, if◌then◌else◌,
}
use styrn.Common.Text.{codes, empty_text, has_control, is_lower, is_digit, split}
use styrn.Output.Code.{ErrorCode, protocol_malformed}

-- The last byte is a letter or a digit.
abbrev pub ends_well : List ℕ → Bool
ends_well [] = false
ends_well (c ∷ []) = is_lower c || is_digit c
ends_well (c ∷ d ∷ cs) = ends_well (d ∷ cs)

abbrev pub begins_well : List ℕ → Bool
begins_well [] = false
begins_well (c ∷ cs) = is_lower c

unfoldable pub valid_probe_id_segment : List ℕ → Bool
valid_probe_id_segment segment =
    begins_well segment
    && ends_well segment
    && all (λ c. is_lower c || is_digit c || c == b'-') segment

unfoldable pub valid_probe_id : String → Bool
unfolding valid_probe_id_segment split
valid_probe_id value =
    let segments = split b'.' (codes value) in
    leb 2 (length segments) && all valid_probe_id_segment segments

pub data FindingState : Type 0 where
  pass fail unknown : FindingState

pub data Severity : Type 0 where
  info warning error : Severity

pub record Remediation : Type 0 where
  pub summary : String
  pub styrn_args : Option (List String)

pub record Finding : Type 0 where
  pub id : String
  pub state : FindingState
  pub severity : Severity
  pub message : String
  pub remediation : Option Remediation

pub record DoctorReport : Type 0 where
  pub findings : List Finding
  pub coverage : String
  pub complete : Bool

-- `arguments != ["machine", "init"]`.
abbrev pub is_machine_init : List String → Bool
is_machine_init (command ∷ action ∷ []) = str_eq command "machine" && str_eq action "init"
is_machine_init _ = false

module _ (is_secret : String → Bool) where
  abbrev pub bad_text : String → Bool
  bad_text value = empty_text value || ltb 1024 (len value) || has_control value || is_secret value

  abbrev pub bad_args : Option (List String) → Bool
  bad_args none = false
  bad_args (some arguments) = not (is_machine_init arguments)

  abbrev pub bad_remediation : Option Remediation → Bool
  bad_remediation none = false
  bad_remediation (some r) = bad_text r.summary || bad_args r.styrn_args

  abbrev pub bad_finding : List String → Finding → Bool
  bad_finding ids f =
      not (valid_probe_id f.id)
      || contains f.id ids
      || bad_text f.message
      || bad_remediation f.remediation

  -- The loop; the first argument is `ids`.
  unfoldable pub validate_findings : List String → List Finding → Result ErrorCode (Unit {0})
  unfolding contains
  validate_findings ids [] = ok tt
  validate_findings ids (f ∷ fs) =
      let rest = validate_findings (f.id ∷ ids) fs in
      if bad_finding ids f then err protocol_malformed else rest

  unfoldable pub validate_for_client : DoctorReport → Result ErrorCode (Unit {0})
  unfolding validate_findings
  validate_for_client report =
      if not (str_eq report.coverage "phase1_minimum")
        || report.complete
        || is_empty report.findings
        || ltb 64 (length report.findings)
      then err protocol_malformed
      else validate_findings [] report.findings

  -- A finding that may be shown, apart from the others.
  pub record IsShowable (f : Finding) : Type 0 where
    pub named : valid_probe_id f.id ≡ true
    pub spoken : bad_text f.message ≡ false
    pub remedied : bad_remediation f.remediation ≡ false

  abbrev id_of : Finding → String
  id_of f = f.id

  validate_findings_iff :
      (ids : List String) (fs : List Finding)
      → (validate_findings ids fs ≡ ok tt)
        ↔ (Fresh id_of ids fs × Distinct id_of fs × All IsShowable fs)
  unfolding validate_findings
  validate_findings_iff ids [] = (λ h. (tt, tt, tt), λ h. refl)
  validate_findings_iff ids (f ∷ fs) =
      ground (arith, validate_findings_iff (f.id ∷ ids) fs, Fresh-cons id_of f.id ids fs)

  -- A report is accepted exactly when it is a partial one of the known coverage, with 1 to 64
  -- findings under different identifiers, each of which may be shown.
  pub validate_for_client_iff :
      (report : DoctorReport)
      → (validate_for_client report ≡ ok tt) ↔ (
          (report.coverage ≡ "phase1_minimum")
          × (report.complete ≡ false)
          × (1 ≤ length report.findings)
          × (length report.findings ≤ 64)
          × Distinct (λ f. f.id) report.findings
          × All IsShowable report.findings)
  unfolding validate_for_client
  validate_for_client_iff report = ground (
    arith,
    validate_findings_iff [] report.findings,
    Fresh-none id_of report.findings,
    eq_iff report.coverage "phase1_minimum",
  )
