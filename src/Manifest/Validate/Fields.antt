-- ===== src/Manifest/Validate/Fields.antt =====
-- The checks of src/manifest/mod.rs on the roles, the fingerprint, the resources and the pending actions.
use styrn.Common.{
  ℕ, ◌≤◌, ◌≡◌, refl, sym, ap, ◌∙◌, ◌↔◌, inl, inr, Bool, false, ◌&&◌, ◌||◌, some, String, Fresh,
  Distinct, Fresh-cons, Fresh-none, List, [], ◌∷◌, ◌++◌, ltb, length, any, All, ok, Option-cases,
  arith,
}
use styrn.Common.Text.{codes, empty_text}
use styrn.Common.Chars.{strip_prefix, strip_prefix_iff, chars_eq_iff}
use styrn.Manifest.Defs.{MachineRole, PendingAction}
use styrn.Manifest.Validate.{
  Base64, has_role, count_role, repeats_role, check_fingerprint, check_actions,
}

-- Both roles stand in the list at most once.
abbrev pub HasUniqueRoles : List MachineRole → Type 0
HasUniqueRoles roles =
    (count_role MachineRole.controller roles ≤ 1) × (count_role MachineRole.worker roles ≤ 1)

has_role-count :
    (role : MachineRole) (roles : List MachineRole)
    → has_role role roles ≡ ltb 0 (count_role role roles)
unfolding count_role
has_role-count role [] = refl
has_role-count MachineRole.controller (MachineRole.controller ∷ roles) = ground arith
has_role-count MachineRole.controller (MachineRole.worker ∷ roles) =
    has_role-count MachineRole.controller roles
has_role-count MachineRole.worker (MachineRole.worker ∷ roles) = ground arith
has_role-count MachineRole.worker (MachineRole.controller ∷ roles) =
    has_role-count MachineRole.worker roles

any-roles :
    (p : MachineRole → Bool) (roles : List MachineRole)
    → any p roles ≡ (
        has_role MachineRole.controller roles && p MachineRole.controller
        || has_role MachineRole.worker roles && p MachineRole.worker)
any-roles p [] = refl
any-roles p (MachineRole.controller ∷ roles) = ground (arith, any-roles p roles)
any-roles p (MachineRole.worker ∷ roles) = ground (arith, any-roles p roles)

pub unique_roles_iff :
    (roles : List MachineRole) → (any (repeats_role roles) roles ≡ false) ↔ HasUniqueRoles roles
unique_roles_iff roles = ground (
  arith,
  any-roles (repeats_role roles) roles,
  has_role-count MachineRole.controller roles,
  has_role-count MachineRole.worker roles,
)

-- `SHA256:` and the base64 of 32 bytes.
abbrev pub IsFingerprint : Base64 → String → Type 0
IsFingerprint base64 fingerprint =
    (digest : List ℕ) × (codes fingerprint ≡ codes "SHA256:" ++ base64.encode digest)
    × (length digest ≡ 32)
    × (base64.decode (base64.encode digest) ≡ some digest)

pub check_fingerprint_iff :
    (base64 : Base64) (fingerprint : String)
    → (check_fingerprint base64 fingerprint ≡ ok tt) ↔ IsFingerprint base64 fingerprint
unfolding check_fingerprint
check_fingerprint_iff base64 fingerprint = (
  λ h. elim (Option-cases (strip_prefix (codes "SHA256:") (codes fingerprint))) [
    | inl e ↦ absurd (ground arith)
    | inr (encoded, e) ↦ elim (Option-cases (base64.decode encoded)) [
      | inl f ↦ absurd (ground arith)
      | inr (digest, f) ↦
          let same : base64.encode digest ≡ encoded =
            ground (arith, chars_eq_iff (base64.encode digest) encoded) in
          (
            digest,
            (strip_prefix_iff (codes "SHA256:") (codes fingerprint) encoded).0 e
                ∙ ap (λ (s : List ℕ). codes "SHA256:" ++ s) (sym same),
            ground arith,
            ap base64.decode same ∙ f,
          )
    ]
  ],
  λ (digest, e, size, f).
      rw ((strip_prefix_iff (codes "SHA256:") (codes fingerprint) (base64.encode digest)).1 e, f)
        (ground (arith, chars_eq_iff (base64.encode digest) (base64.encode digest))),
)

-- Neither the identifier nor the message of an action is empty.
abbrev pub IsDescribed : PendingAction → Type 0
IsDescribed action = (empty_text action.id ≡ false) × (empty_text action.message ≡ false)

abbrev action_id : PendingAction → String
action_id action = action.id

check_actions_from_iff :
    (ids : List String) (actions : List PendingAction)
    → (check_actions ids actions ≡ ok tt)
      ↔ (All IsDescribed actions × Fresh action_id ids actions × Distinct action_id actions)
unfolding check_actions
check_actions_from_iff ids [] = ground arith
check_actions_from_iff ids (action ∷ actions) = ground (
  arith,
  check_actions_from_iff (action.id ∷ ids) actions,
  Fresh-cons action_id action.id ids actions,
)

pub check_actions_iff :
    (actions : List PendingAction)
    → (check_actions [] actions ≡ ok tt) ↔ (All IsDescribed actions × Distinct action_id actions)
check_actions_iff actions =
    ground (arith, check_actions_from_iff [] actions, Fresh-none action_id actions)
