-- ===== src/Resources.antt =====
-- What a controller accepts as the status of a machine: `MachineStatus::validate_for_client` of
-- src/resources/mod.rs. An `f32` is its 32 bits; chrono's `parse_from_rfc3339` and the search for secrets
-- are parameters.
use styrn.Common.{
  ℕ, ◌^◌, ◌/◌, ◌%◌, ◌*◌, ◌==◌, ◌≤◌, ◌≡◌, ◌≢◌, sym, ap, ◌∙◌, ◌↔◌, ◌⊎◌, inl, inr, refl, Bool, true,
  false, not, ◌&&◌, ◌||◌, Option, none, some, String, str_eq, len, ltb, leb, Result, ok, err, arith,
  if◌then◌else◌,
}
use text.Mathlib.TextEquality.{eq_iff}
use styrn.Common.Text.{empty_text, has_control}
use styrn.Manifest.Defs.{Uuid}

pub record CpuStatus : Type 0 where
  pub logical : ℕ
  pub load_percent : ℕ

pub record MemoryStatus : Type 0 where
  pub total_bytes : ℕ
  pub available_bytes : ℕ

pub record DiskStatus : Type 0 where
  pub root : String
  pub free_bytes : ℕ

pub record JobStatus : Type 0 where
  pub running : ℕ
  pub heavy_running : ℕ

pub record SubstrateStatus : Type 0 where
  pub kind : Option String
  pub state : String
  pub session : Option String

pub record MachineStatus : Type 0 where
  pub machine_id : Uuid
  pub time : String
  pub cpu : CpuStatus
  pub memory : MemoryStatus
  pub disk : DiskStatus
  pub jobs : JobStatus
  pub substrate : SubstrateStatus

pub data StatusError : Type 0 where
  status_error : StatusError

-- `is_finite`: the eight bits of the exponent are not all set.
abbrev pub is_finite : ℕ → Bool
is_finite bits = not ((bits / 2 ^ 23) % 256 == 255)

-- The bits of 100.0, and of -0.0.
abbrev pub hundred : ℕ
hundred = 1120403456

abbrev pub minus_zero : ℕ
minus_zero = 2 ^ 31

-- `(0.0..=100.0).contains`: floats without a sign are in the order of their bits.
abbrev pub is_percent : ℕ → Bool
is_percent bits = leb bits hundred || bits == minus_zero

abbrev pub is_herdr : Option String → Bool
is_herdr none = false
is_herdr (some kind) = str_eq kind "herdr"

abbrev pub is_given {ℓ} : {A : Type ℓ} → Option A → Bool
is_given none = false
is_given (some a) = true

not_given : (o : Option String) → is_given o ≡ false → o ≡ none
not_given none h = refl
not_given (some a) h = absurd (ground arith)

given : (o : Option String) → is_given o ≡ true → (a : String) × (o ≡ some a)
given none h = absurd (ground arith)
given (some a) h = (a, refl)

herdr : (o : Option String) → is_herdr o ≡ true → o ≡ some "herdr"
herdr none h = absurd (ground arith)
herdr (some a) h = ap (λ (b : String). Option.some b) ((eq_iff a "herdr").0 h)

small-finite : (bits : ℕ) → (bits ≤ hundred) ⊎ (bits ≡ minus_zero) → ((bits / 2 ^ 23) % 256) ≢ 255
small-finite bits (inl le) = omega arith
small-finite bits (inr e) = omega arith

-- A float up to 100 is finite.
percent_iff :
    (bits : ℕ)
    → ((is_finite bits ≡ true) × (is_percent bits ≡ true))
      ↔ ((bits ≤ hundred) ⊎ (bits ≡ minus_zero))
percent_iff bits = ground (arith, small-finite bits)

module _ (is_rfc3339 is_secret : String → Bool) where
  abbrev pub valid_session : Option String → Bool
  valid_session none = true
  valid_session (some session) =
      not (empty_text session)
      && leb (len session) 255
      && not (has_control session)
      && not (is_secret session)

  unfoldable pub valid_substrate_status : SubstrateStatus → Bool
  valid_substrate_status status =
      valid_session status.session
      && (if str_eq status.state "none"
          then not (is_given status.kind) && not (is_given status.session)
          else if str_eq status.state "registered"
          then is_herdr status.kind
          else if str_eq status.state "active"
          then is_herdr status.kind && is_given status.session
          else false)

  unfoldable pub validate_for_client : MachineStatus → Uuid → Result StatusError (Unit {0})
  unfolding valid_substrate_status
  validate_for_client status expected_machine_id =
      if not (str_eq status.machine_id.hyphenated expected_machine_id.hyphenated)
        || not (is_rfc3339 status.time)
        || ltb 64 (len status.time)
        || status.cpu.logical == 0
        || not (is_finite status.cpu.load_percent)
        || not (is_percent status.cpu.load_percent)
        || status.memory.total_bytes == 0
        || ltb status.memory.total_bytes status.memory.available_bytes
        || empty_text status.disk.root
        || ltb (32 * 1024) (len status.disk.root)
        || has_control status.disk.root
        || is_secret status.disk.root
        || ltb status.jobs.running status.jobs.heavy_running
        || not (valid_substrate_status status.substrate)
      then err status_error
      else ok tt

  -- What an accepted session is: none, or a shown name.
  abbrev pub IsSession : Option String → Type 0
  IsSession none = Unit
  IsSession (some session) =
      (empty_text session ≡ false)
      × (len session ≤ 255)
      × (has_control session ≡ false)
      × (is_secret session ≡ false)

  -- No substrate, a registered one, or an active one with its session.
  abbrev pub IsSubstrate : SubstrateStatus → Type 0
  IsSubstrate status =
      ((status.state ≡ "none") × (status.kind ≡ none) × (status.session ≡ none))
      ⊎ (((status.state ≡ "registered") × (status.kind ≡ some "herdr") × IsSession status.session)
          ⊎ ((status.state ≡ "active")
              × (status.kind ≡ some "herdr")
              × ((session : String) × (status.session ≡ some session) × IsSession (some session))))

  IsSession-iff : (session : Option String) → (valid_session session ≡ true) ↔ IsSession session
  IsSession-iff none = (λ h. tt, λ h. refl)
  IsSession-iff (some session) = ground arith

  -- The test of a state, over the results of the comparisons.
  accepted_state :
      (status : SubstrateStatus)
      → valid_substrate_status status ≡ true
      → (valid_session status.session ≡ true)
        × (((str_eq status.state "none" ≡ true)
              × (is_given status.kind ≡ false)
              × (is_given status.session ≡ false))
            ⊎ (((str_eq status.state "registered" ≡ true) × (is_herdr status.kind ≡ true))
                ⊎ ((str_eq status.state "active" ≡ true)
                    × (is_herdr status.kind ≡ true)
                    × (is_given status.session ≡ true))))
  unfolding valid_substrate_status
  accepted_state status h = ground arith

  IsSubstrate-valid_substrate_status :
      (status : SubstrateStatus) → IsSubstrate status → valid_substrate_status status ≡ true
  unfolding valid_substrate_status
  IsSubstrate-valid_substrate_status status (inl (state, kind, session)) =
      rw (state, kind, session) refl
  IsSubstrate-valid_substrate_status status (inr (inl (state, kind, session))) =
      rw (state, kind, (IsSession-iff status.session).1 session) refl
  IsSubstrate-valid_substrate_status status (inr (inr (state, kind, (session, e, good)))) =
      rw (state, kind, e, (IsSession-iff (some session)).1 good) refl

  pub valid_substrate_status_iff :
      (status : SubstrateStatus) → (valid_substrate_status status ≡ true) ↔ IsSubstrate status
  valid_substrate_status_iff status = (
    λ h.
        let (session, state) = accepted_state status h in
        elim state [
          | inl (name, kind, no_session) ↦ inl (
            (eq_iff status.state "none").0 name,
            not_given status.kind kind,
            not_given status.session no_session,
          )
          | inr (inl (name, kind)) ↦ inr (
              inl (
                (eq_iff status.state "registered").0 name,
                herdr status.kind kind,
                (IsSession-iff status.session).0 session,
              ))
          | inr (inr (name, kind, shown)) ↦
              let (shown_name, e) = given status.session shown in
              inr (
                inr (
                  (eq_iff status.state "active").0 name,
                  herdr status.kind kind,
                  (
                    shown_name,
                    e,
                    (IsSession-iff (some shown_name)).0 (ap valid_session (sym e) ∙ session),
                  ),
                ))
        ],
    IsSubstrate-valid_substrate_status status,
  )

  -- What the controller asks of a status: that it is of the machine it asked, at an instant, with a load in
  -- percent, no more memory or heavy jobs than there are, a root that can be shown, and a substrate.
  abbrev pub IsAcceptable : MachineStatus → Uuid → Type 0
  IsAcceptable status expected =
      (status.machine_id.hyphenated ≡ expected.hyphenated)
      × (is_rfc3339 status.time ≡ true)
      × (len status.time ≤ 64)
      × (status.cpu.logical ≢ 0)
      × ((status.cpu.load_percent ≤ hundred) ⊎ (status.cpu.load_percent ≡ minus_zero))
      × (status.memory.total_bytes ≢ 0)
      × (status.memory.available_bytes ≤ status.memory.total_bytes)
      × (empty_text status.disk.root ≡ false)
      × (len status.disk.root ≤ 32768)
      × (has_control status.disk.root ≡ false)
      × (is_secret status.disk.root ≡ false)
      × (status.jobs.heavy_running ≤ status.jobs.running)
      × IsSubstrate status.substrate

  -- A status is accepted exactly when it is of the machine that was asked, at an instant in at most 64
  -- bytes, with a load in percent, no more memory and heavy jobs than there are, a root that can be shown,
  -- and no substrate, a registered one or an active one with its session.
  pub accepted_status_iff :
      (status : MachineStatus) (expected : Uuid)
      → (validate_for_client status expected ≡ ok tt) ↔ IsAcceptable status expected
  unfolding validate_for_client
  accepted_status_iff status expected = ground (
    arith,
    eq_iff status.machine_id.hyphenated expected.hyphenated,
    percent_iff status.cpu.load_percent,
    valid_substrate_status_iff status.substrate,
  )
