-- ===== src/Transport/HostKey/Select/Order.antt =====
-- Which keys src/transport/ssh.rs prefers.
use mathlib.Core.Path.{subst}
use styrn.Common.{ℕ, ◌≤◌, ◌<◌, ◌≡◌, refl, ◌⊎◌, inl, inr, Bool, true, false, ◌||◌, List, arith}
use styrn.Common.Text.{codes}
use styrn.Common.Chars.{chars_eq, chars_eq_iff}
use styrn.Transport.HostKey.{ed25519, nistp256, rsa, is_supported, algorithm_priority}

-- The order of the algorithms of a key.
pub data Outranks : List ℕ → List ℕ → Type 0 where
  ed25519_before_ecdsa : Outranks (codes "ssh-ed25519") (codes "ecdsa-sha2-nistp256")
  ed25519_before_rsa : Outranks (codes "ssh-ed25519") (codes "ssh-rsa")
  ecdsa_before_rsa : Outranks (codes "ecdsa-sha2-nistp256") (codes "ssh-rsa")

abbrev IsNamed : List ℕ → Type 0
IsNamed a = (a ≡ ed25519) ⊎ ((a ≡ nistp256) ⊎ (a ≡ rsa))

IsNamed-of :
    (a : List ℕ) (x y z : Bool)
    → (x ≡ true → a ≡ ed25519)
    → (y ≡ true → a ≡ nistp256)
    → (z ≡ true → a ≡ rsa)
    → (x || y || z) ≡ true
    → IsNamed a
IsNamed-of a true y z f g k h = inl (f refl)
IsNamed-of a false true z f g k h = inr (inl (g refl))
IsNamed-of a false false true f g k h = inr (inr (k refl))
IsNamed-of a false false false f g k h = absurd (ground arith)

supported-IsNamed : (a : List ℕ) → is_supported a ≡ true → IsNamed a
supported-IsNamed a h =
    IsNamed-of a (chars_eq a ed25519) (chars_eq a nistp256) (chars_eq a rsa)
      (chars_eq_iff a ed25519).0 (chars_eq_iff a nistp256).0 (chars_eq_iff a rsa).0 h

priorities :
    (algorithm_priority ed25519 ≡ 0)
    × (algorithm_priority nistp256 ≡ 1)
    × (algorithm_priority rsa ≡ 2)
unfolding chars_eq
priorities = (refl, refl, refl)

below :
    (a b x y : List ℕ)
    → a ≡ x
    → b ≡ y
    → algorithm_priority a < algorithm_priority b
    → algorithm_priority x < algorithm_priority y
below a b x y e f less =
    subst (λ (v : List ℕ). algorithm_priority x < algorithm_priority v) f
      (subst (λ (u : List ℕ). algorithm_priority u < algorithm_priority b) e less)

not_below :
    (m n : ℕ) (x y : List ℕ)
    → algorithm_priority x ≡ m
    → algorithm_priority y ≡ n
    → n ≤ m
    → algorithm_priority x < algorithm_priority y
    → ⊥
not_below m n x y e f le less = absurd (omega (arith, e, f, le, less))

Outranks-of : (a b x y : List ℕ) → a ≡ x → b ≡ y → Outranks x y → Outranks a b
Outranks-of a b x y e f o = rw (e, f) o

named_ranked :
    (a b : List ℕ)
    → IsNamed a
    → IsNamed b
    → algorithm_priority a < algorithm_priority b
    → Outranks a b
named_ranked a b (inl e) (inl f) less = absurd (
    not_below 0 0 ed25519 ed25519 priorities.0 priorities.0 (omega arith)
      (below a b ed25519 ed25519 e f less))
named_ranked a b (inl e) (inr (inl f)) less =
    Outranks-of a b ed25519 nistp256 e f ed25519_before_ecdsa
named_ranked a b (inl e) (inr (inr f)) less = Outranks-of a b ed25519 rsa e f ed25519_before_rsa
named_ranked a b (inr (inl e)) (inl f) less = absurd (
    not_below 1 0 nistp256 ed25519 priorities.1 priorities.0 (omega arith)
      (below a b nistp256 ed25519 e f less))
named_ranked a b (inr (inl e)) (inr (inl f)) less = absurd (
    not_below 1 1 nistp256 nistp256 priorities.1 priorities.1 (omega arith)
      (below a b nistp256 nistp256 e f less))
named_ranked a b (inr (inl e)) (inr (inr f)) less =
    Outranks-of a b nistp256 rsa e f ecdsa_before_rsa
named_ranked a b (inr (inr e)) (inl f) less = absurd (
    not_below 2 0 rsa ed25519 priorities.2 priorities.0 (omega arith)
      (below a b rsa ed25519 e f less))
named_ranked a b (inr (inr e)) (inr (inl f)) less = absurd (
    not_below 2 1 rsa nistp256 priorities.2 priorities.1 (omega arith)
      (below a b rsa nistp256 e f less))
named_ranked a b (inr (inr e)) (inr (inr f)) less =
    absurd
      (not_below 2 2 rsa rsa priorities.2 priorities.2 (omega arith) (below a b rsa rsa e f less))

pub ranked :
    (a b : List ℕ)
    → is_supported a ≡ true
    → is_supported b ≡ true
    → algorithm_priority a < algorithm_priority b
    → Outranks a b
ranked a b first second less =
    named_ranked a b (supported-IsNamed a first) (supported-IsNamed b second) less
