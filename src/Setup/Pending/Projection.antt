-- ===== src/Setup/Pending/Projection.antt =====
-- `project_manifest` of src/setup/pending.rs: the pending actions of a manifest.
use styrn.Common.{
  contains, Fresh, Fresh-cons, Fresh-none, Distinct, ◌≡◌, ◌↔◌, ◌∙◌, ap, refl, Bool, true, false,
  Option, none, some, String, List, [], ◌∷◌, Result, ok, err, ◌>>◌, arith, if◌then◌else◌,
}
use styrn.Setup.Plan.Defs.{PendingSeverity, info, warning, error}
use styrn.Setup.Pending.{PendingAction}

-- `manifest::PendingSeverity`.
pub data ManifestSeverity : Type 0 where
  as_info as_warning as_error : ManifestSeverity

abbrev pub manifest_severity : PendingSeverity → ManifestSeverity
manifest_severity info = as_info
manifest_severity warning = as_warning
manifest_severity error = as_error

-- `manifest::PendingAction`.
pub record ManifestPending : Type 0 where
  pub id : String
  pub severity : ManifestSeverity
  pub message : String

-- `MachineManifestDraft`, with the other fields as one.
pub record Draft (Rest : Type 0) : Type 0 where
  pub rest : Rest
  pub pending_actions : Option (List ManifestPending)

pub data PendingError : Type 0 where
  duplicate_id : PendingError

-- `validate_unique_pending`; the first argument is `ids`.
unfoldable pub unique_from : List String → List PendingAction → Bool
unfolding contains
unique_from ids [] = true
unique_from ids (p ∷ ps) =
    let rest = unique_from (p.id ∷ ids) ps in if contains p.id ids then false else rest

unfoldable pub validate_unique_pending : List PendingAction → Result PendingError (Unit {0})
unfolding unique_from
validate_unique_pending pending = if unique_from [] pending then ok tt else err duplicate_id

abbrev pub projected : List PendingAction → List ManifestPending
projected [] = []
projected (p ∷ ps) =
    record {
      id = p.id;
      severity = manifest_severity p.needs_human.severity;
      message = p.needs_human.instructions;
    }
    ∷ projected ps

-- `(!projected.is_empty()).then_some(projected)`.
abbrev pub unless_empty : List ManifestPending → Option (List ManifestPending)
unless_empty [] = none
unless_empty (p ∷ ps) = some (p ∷ ps)

abbrev id_of : PendingAction → String
id_of p = p.id

unique_from_iff :
    (ids : List String) (ps : List PendingAction)
    → (unique_from ids ps ≡ true) ↔ (Fresh id_of ids ps × Distinct id_of ps)
unfolding unique_from
unique_from_iff ids [] = (λ h. (tt, tt), λ h. refl)
unique_from_iff ids (p ∷ ps) =
    ground (arith, unique_from_iff (p.id ∷ ids) ps, Fresh-cons id_of p.id ids ps)

-- A severity of a setup and that of a manifest by the same name.
pub data IsSeverity : PendingSeverity → ManifestSeverity → Type 0 where
  both_info : IsSeverity info as_info
  both_warning : IsSeverity warning as_warning
  both_error : IsSeverity error as_error

-- An entry of a manifest that stands for the action.
abbrev pub StandsFor : PendingAction → ManifestPending → Type 0
StandsFor p entry =
    (entry.id ≡ p.id)
    × IsSeverity p.needs_human.severity entry.severity
    × (entry.message ≡ p.needs_human.instructions)

-- One entry for each action, in their order.
abbrev pub StandForAll : List PendingAction → List ManifestPending → Type 0
StandForAll [] [] = Unit
StandForAll [] (entry ∷ entries) = ⊥
StandForAll (p ∷ ps) [] = ⊥
StandForAll (p ∷ ps) (entry ∷ entries) = StandsFor p entry × StandForAll ps entries

-- The pending actions that a manifest has: none where there are none.
abbrev pub HoldsPending : List PendingAction → Option (List ManifestPending) → Type 0
HoldsPending [] held = held ≡ none
HoldsPending (p ∷ ps) held =
    (entries : List ManifestPending) × (held ≡ some entries) × StandForAll (p ∷ ps) entries

manifest_severity-IsSeverity : (s : PendingSeverity) → IsSeverity s (manifest_severity s)
manifest_severity-IsSeverity info = both_info
manifest_severity-IsSeverity warning = both_warning
manifest_severity-IsSeverity error = both_error

IsSeverity-eq :
    {s : PendingSeverity} {t : ManifestSeverity} → IsSeverity s t → t ≡ manifest_severity s
IsSeverity-eq both_info = refl
IsSeverity-eq both_warning = refl
IsSeverity-eq both_error = refl

projected-StandForAll : (ps : List PendingAction) → StandForAll ps (projected ps)
projected-StandForAll [] = tt
projected-StandForAll (p ∷ ps) =
    ((refl, manifest_severity-IsSeverity p.needs_human.severity, refl), projected-StandForAll ps)

entry_path :
    (a b : ManifestPending) → a.id ≡ b.id → a.severity ≡ b.severity → a.message ≡ b.message → a ≡ b
entry_path a b i s m = cc

StandForAll-eq :
    (ps : List PendingAction) (entries : List ManifestPending)
    → StandForAll ps entries
    → entries ≡ projected ps
StandForAll-eq [] [] h = refl
StandForAll-eq [] (entry ∷ entries) h = absurd h
StandForAll-eq (p ∷ ps) [] h = absurd h
StandForAll-eq (p ∷ ps) (entry ∷ entries) ((i, s, m), later) =
    let same = entry_path entry _ i (IsSeverity-eq s) m in
    let rest = StandForAll-eq ps entries later in cc

HoldsPending-iff :
    (ps : List PendingAction) (held : Option (List ManifestPending))
    → HoldsPending ps held ↔ (held ≡ unless_empty (projected ps))
HoldsPending-iff [] held = (λ h. h, λ h. h)
HoldsPending-iff (p ∷ ps) held = (
  λ (entries, e, all).
      e ∙ ap (λ (l : List ManifestPending). Option.some l) (StandForAll-eq (p ∷ ps) entries all),
  λ e. (projected (p ∷ ps), e, projected-StandForAll (p ∷ ps)),
)

module _ {Rest : Type 0} where
  -- The draft that is left; an error leaves it as it was.
  unfoldable pub project_manifest :
      Draft Rest → List PendingAction → Result PendingError (Draft Rest)
  unfolding validate_unique_pending
  project_manifest draft pending = do
    validate_unique_pending pending
    ok (record draft { pending_actions = unless_empty (projected pending) })

  draft_path : (a b : Draft Rest) → a.rest ≡ b.rest → a.pending_actions ≡ b.pending_actions → a ≡ b
  draft_path a b r h = cc

  project_manifest-eq :
      (draft after : Draft Rest) (pending : List PendingAction)
      → (project_manifest draft pending ≡ ok after) ↔ (
          Distinct (λ p. p.id) pending
          × (after ≡ record draft { pending_actions = unless_empty (projected pending) }))
  unfolding project_manifest
  project_manifest-eq draft after pending =
      ground (arith, unique_from_iff [] pending, Fresh-none id_of pending)

  -- A draft is made exactly when no two pending actions have one identifier. It is the old one apart
  -- from its pending actions, which are none where there are none, and otherwise one entry for each
  -- action in their order, with its identifier, its severity and its instructions.
  pub project_manifest_iff :
      (draft after : Draft Rest) (pending : List PendingAction)
      → (project_manifest draft pending ≡ ok after) ↔ (
          Distinct (λ p. p.id) pending
          × (after.rest ≡ draft.rest)
          × HoldsPending pending after.pending_actions)
  project_manifest_iff draft after pending =
      let made = project_manifest-eq draft after pending in
      let held = HoldsPending-iff pending after.pending_actions in
      (
        λ h.
            let (distinct, e) = made.0 h in
            (
              distinct,
              ap (λ (d : Draft Rest). d.rest) e,
              held.1 (ap (λ (d : Draft Rest). d.pending_actions) e),
            ),
        λ (distinct, r, holds). made.1 (distinct, draft_path after _ r (held.0 holds)),
      )
