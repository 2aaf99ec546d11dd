-- ===== src/Transport/HostKey/Select/Matches.antt =====
-- The matches among the keys that src/transport/ssh.rs read.
use styrn.Common.{
  ℕ, ◌≤◌, ◌≡◌, refl, sym, inl, inr, Bool, true, false, Option, none, some, List, [], ◌∷◌, ok,
  Bool-cases, Option-cases, arith,
}
use mathlib.Core.List.{Memᴰ}
use mathlib.Core.List.Memᴰ
use mathlib.Core.Path.{subst}
use styrn.Transport.HostKey.{PinnedHostKey, algorithm_priority}
use styrn.Transport.HostKey.Select.{least, best_priority, keep, only_one}

keep-Memᴰ :
    (p : PinnedHostKey → Bool) (keys : List PinnedHostKey) (key : PinnedHostKey)
    → Memᴰ key keys
    → p key ≡ true
    → Memᴰ key (keep p keys)
unfolding keep
keep-Memᴰ p [] key member h = member
keep-Memᴰ p (k ∷ keys) key (Memᴰ.head e) h =
    let holds : p k ≡ true = subst (λ (x : PinnedHostKey). p x ≡ true) e h in rw holds (Memᴰ.head e)
keep-Memᴰ p (k ∷ keys) key (Memᴰ.tail member) h = elim (Bool-cases (p k)) [
  | inl kept ↦ rw kept (Memᴰ.tail (keep-Memᴰ p keys key member h))
  | inr left ↦ rw left (keep-Memᴰ p keys key member h)
]

keep_head :
    (p : PinnedHostKey → Bool) (key : PinnedHostKey) (keys : List PinnedHostKey)
    → p key ≡ true
    → keep p (key ∷ keys) ≡ key ∷ keep p keys
unfolding keep
keep_head p key keys h = rw h refl

keep_tail :
    (p : PinnedHostKey → Bool) (key : PinnedHostKey) (keys : List PinnedHostKey)
    → p key ≡ false
    → keep p (key ∷ keys) ≡ keep p keys
unfolding keep
keep_tail p key keys h = rw h refl

Memᴰ-keep :
    (p : PinnedHostKey → Bool) (keys : List PinnedHostKey) (key : PinnedHostKey)
    → Memᴰ key (keep p keys)
    → Memᴰ key keys × (p key ≡ true)
unfolding keep
Memᴰ-keep p [] key member = absurd (Memᴰ.not-nil member)
Memᴰ-keep p (k ∷ keys) key member = elim (Bool-cases (p k)) [
  | inl kept ↦
      elim (Memᴰ.cases_cons
        (subst (λ (l : List PinnedHostKey). Memᴰ key l) (keep_head p k keys kept) member)) [
          | inl e ↦ (Memᴰ.head e, subst (λ (x : PinnedHostKey). p x ≡ true) (sym e) kept)
          | inr later ↦
              let (inside, holds) = Memᴰ-keep p keys key later in (Memᴰ.tail inside, holds)
        ]
  | inr left ↦
      let (inside, holds) =
        Memᴰ-keep p keys key
          (subst (λ (l : List PinnedHostKey). Memᴰ key l) (keep_tail p k keys left) member) in
      (Memᴰ.tail inside, holds)
]

only_one-eq-ok :
    (keys : List PinnedHostKey) (key : PinnedHostKey) → only_one keys ≡ ok key → keys ≡ key ∷ []
only_one-eq-ok [] key h = absurd (ground arith)
only_one-eq-ok (k ∷ []) key h = ground arith
only_one-eq-ok (k ∷ other ∷ keys) key h = absurd (ground arith)

-- The one match is a match, and every match is that one.
pub only-match :
    (p : PinnedHostKey → Bool) (keys : List PinnedHostKey) (key : PinnedHostKey)
    → only_one (keep p keys) ≡ ok key
    → (Memᴰ key keys × (p key ≡ true))
      × ((other : PinnedHostKey) → Memᴰ other keys → p other ≡ true → other ≡ key)
only-match p keys key h =
    let e = only_one-eq-ok (keep p keys) key h in
    (
      Memᴰ-keep p keys key
          (subst (λ (l : List PinnedHostKey). Memᴰ key l) (sym e) (Memᴰ.head refl)),
      λ other member holds. Memᴰ.eq_of_singleton (
          subst (λ (l : List PinnedHostKey). Memᴰ other l) e (keep-Memᴰ p keys other member holds)),
    )

head_le : (o : Option ℕ) (k n : ℕ) → some (least o k) ≡ some n → n ≤ k
head_le none k n h = ground arith
head_le (some m) k n h = ground arith

tail_le :
    (o : Option ℕ) (k m n : ℕ) {l : ℕ} → o ≡ some m → some (least o k) ≡ some n → m ≤ l → n ≤ l
tail_le none k m n e h le = absurd (ground arith)
tail_le (some j) k m n e h le = ground arith

best_priority-none :
    (keys : List PinnedHostKey) (key : PinnedHostKey) → best_priority keys ≡ none → ¬ Memᴰ key keys
unfolding best_priority
best_priority-none [] key h member = Memᴰ.not-nil member
best_priority-none (k ∷ keys) key h member = absurd (ground arith)

pub best_priority-le :
    (keys : List PinnedHostKey) (n : ℕ) (key : PinnedHostKey)
    → best_priority keys ≡ some n
    → Memᴰ key keys
    → n ≤ algorithm_priority key.algorithm
unfolding best_priority
best_priority-le [] n key h member = absurd (ground arith)
best_priority-le (k ∷ keys) n key h (Memᴰ.head e) =
    subst (λ (x : PinnedHostKey). n ≤ algorithm_priority x.algorithm) (sym e)
      (head_le (best_priority keys) (algorithm_priority k.algorithm) n h)
best_priority-le (k ∷ keys) n key h (Memᴰ.tail member) = elim (Option-cases (best_priority keys)) [
  | inl e ↦ absurd (best_priority-none keys key e member)
  | inr (m, e) ↦
      tail_le (best_priority keys) (algorithm_priority k.algorithm) m n e h
        (best_priority-le keys m key e member)
]
