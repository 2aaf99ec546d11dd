-- ===== src/Transport/HostKey/Select/Laws.antt =====
-- Which key src/transport/ssh.rs takes from a scan.
use styrn.Common.{
  ℕ, ◌≡◌, refl, sym, ap, ◌∙◌, ◌⊎◌, inl, inr, true, Option, none, some, List, [], ◌∷◌, any, All,
  All-append, Result, ok, ◌>>=◌, >>=-eq-ok, Bool-cases, arith,
}
use mathlib.Core.List.{Memᴰ}
use mathlib.Core.List.Memᴰ
use mathlib.Core.Path.{subst}
use styrn.Common.Chars.{chars_eq_iff}
use styrn.Common.Members.{any-Memᴰ, All-Memᴰ}
use styrn.Transport.HostKey.{TransportError, PinnedHostKey, KeyCrates, read_line, fingerprint_of}
use styrn.Transport.HostKey.Wire.{IsSoundKey, read_line-IsSoundKey}
use styrn.Transport.HostKey.Select.{same_key, add_key, scan_lines}

pub key_path :
    (a b : PinnedHostKey)
    → a.algorithm ≡ b.algorithm
    → a.base64 ≡ b.base64
    → a.fingerprint ≡ b.fingerprint
    → a ≡ b
key_path a b e f g = ground arith

some-injective : {A : Type 0} {a b : A} → some a ≡ some b → a ≡ b
some-injective e = cc

module _ (crates : KeyCrates) where
  -- A line of the text gives the key.
  abbrev pub Offers : List (List ℕ) → PinnedHostKey → Type 0
  Offers text key = (line : List ℕ) × Memᴰ line text × (read_line crates line ≡ ok (some key))

  -- Sound keys of one algorithm and base64 are one key.
  same_key-eq :
      (a b : PinnedHostKey)
      → IsSoundKey crates a
      → IsSoundKey crates b
      → same_key a b ≡ true
      → a ≡ b
  same_key-eq a b (wire, decoded, _, _, shown, _) (wire', decoded', _, _, shown', _) h =
      let e : a.algorithm ≡ b.algorithm = ground (arith, chars_eq_iff a.algorithm b.algorithm) in
      let f : a.base64 ≡ b.base64 = ground (arith, chars_eq_iff a.base64 b.base64) in
      let w : wire ≡ wire' = some-injective (sym decoded ∙ ap crates.decode f ∙ decoded') in
      key_path a b e f (shown ∙ ap (fingerprint_of crates) w ∙ sym shown')

  add_key-All :
      (keys : List PinnedHostKey) (key : PinnedHostKey)
      → All (IsSoundKey crates) keys
      → IsSoundKey crates key
      → All (IsSoundKey crates) (add_key keys (some key))
  add_key-All keys key all_sound sound = elim (Bool-cases (any (same_key key) keys)) [
    | inl seen ↦ rw seen all_sound
    | inr new ↦ rw new (All-append (IsSoundKey crates) keys (key ∷ []) all_sound (sound, tt))
  ]

  add_key-Memᴰ :
      (keys : List PinnedHostKey) (key : PinnedHostKey)
      → All (IsSoundKey crates) keys
      → IsSoundKey crates key
      → Memᴰ key (add_key keys (some key))
  add_key-Memᴰ keys key all_sound sound = elim (Bool-cases (any (same_key key) keys)) [
    | inl seen ↦
        let (other, member, same) = any-Memᴰ (same_key key) keys seen in
        let e = same_key-eq key other sound (All-Memᴰ (IsSoundKey crates) member all_sound) same in
        rw seen (Memᴰ.cast e member)
    | inr new ↦ rw new (Memᴰ.append_right keys (Memᴰ.head refl))
  ]

  add_key_keeps :
      (keys : List PinnedHostKey) (found : Option PinnedHostKey) (key : PinnedHostKey)
      → Memᴰ key keys
      → Memᴰ key (add_key keys found)
  add_key_keeps keys none key member = member
  add_key_keeps keys (some other) key member = elim (Bool-cases (any (same_key other) keys)) [
    | inl seen ↦ rw seen member
    | inr new ↦ rw new (Memᴰ.append_left (other ∷ []) member)
  ]

  add_key-cases :
      (keys : List PinnedHostKey) (other key : PinnedHostKey)
      → Memᴰ key (add_key keys (some other))
      → Memᴰ key keys ⊎ (key ≡ other)
  add_key-cases keys other key member = elim (Bool-cases (any (same_key other) keys)) [
    | inl seen ↦ inl (rw seen at member)
    | inr new ↦ elim (Memᴰ.append_cases keys (rw new at member)) [
      | inl old ↦ inl old
      | inr last ↦ inr (Memᴰ.eq_of_singleton last)
    ]
  ]

  -- What the loop has at the end: the keys it began with and those of the lines, all of them sound.
  abbrev pub Scanned : List PinnedHostKey → List (List ℕ) → List PinnedHostKey → Type 0
  Scanned keys text result =
      All (IsSoundKey crates) result
      × ((key : PinnedHostKey) → Memᴰ key result → Memᴰ key keys ⊎ Offers text key)
      × ((key : PinnedHostKey) → Memᴰ key keys ⊎ Offers text key → Memᴰ key result)

  scan_lines-nil : (keys : List PinnedHostKey) → scan_lines crates keys [] ≡ ok keys
  unfolding scan_lines
  scan_lines-nil keys = refl

  scan_lines-cons :
      (keys : List PinnedHostKey) (line : List ℕ) (more : List (List ℕ))
      → scan_lines crates keys (line ∷ more)
        ≡ (read_line crates line >>= λ found. scan_lines crates (add_key keys found) more)
  unfolding scan_lines
  scan_lines-cons keys line more = refl

  abbrev listed : List PinnedHostKey → Result TransportError (List PinnedHostKey)
  listed keys = ok keys

  listed-injective : {a b : List PinnedHostKey} → listed a ≡ listed b → a ≡ b
  listed-injective e = cc

  abbrev read_some : PinnedHostKey → Result TransportError (Option PinnedHostKey)
  read_some key = ok (some key)

  read_some-injective : {a b : PinnedHostKey} → read_some a ≡ read_some b → a ≡ b
  read_some-injective e = cc

  offers_none :
      (l line : List ℕ) (key : PinnedHostKey)
      → l ≡ line
      → read_line crates line ≡ ok none
      → read_line crates l ≡ ok (some key)
      → ⊥
  offers_none l line key here e f = cc

  offers_same :
      (l line : List ℕ) (key other : PinnedHostKey)
      → l ≡ line
      → read_line crates line ≡ ok (some other)
      → read_line crates l ≡ ok (some key)
      → key ≡ other
  offers_same l line key other here e f =
      read_some-injective (sym f ∙ ap (read_line crates) here ∙ e)

  Scanned-none :
      (keys : List PinnedHostKey) (line : List ℕ) (more : List (List ℕ))
      (result : List PinnedHostKey)
      → read_line crates line ≡ ok none
      → Scanned keys more result
      → Scanned keys (line ∷ more) result
  Scanned-none keys line more result e (sound, only, covers) = (
    sound,
    λ key member. elim (only key member) [
      | inl old ↦ inl old
      | inr (l, at, f) ↦ inr (l, Memᴰ.tail at, f)
    ],
    λ key given. elim given [
      | inl old ↦ covers key (inl old)
      | inr (l, at, f) ↦ elim (Memᴰ.cases_cons at) [
        | inl here ↦ absurd (offers_none l line key here e f)
        | inr later ↦ covers key (inr (l, later, f))
      ]
    ],
  )

  Scanned-some :
      (keys : List PinnedHostKey) (line : List ℕ) (more : List (List ℕ))
      (result : List PinnedHostKey) (other : PinnedHostKey)
      → All (IsSoundKey crates) keys
      → IsSoundKey crates other
      → read_line crates line ≡ ok (some other)
      → Scanned (add_key keys (some other)) more result
      → Scanned keys (line ∷ more) result
  Scanned-some keys line more result other all_sound sound_other e (sound, only, covers) = (
    sound,
    λ key member. elim (only key member) [
      | inl added ↦ elim (add_key-cases keys other key added) [
        | inl old ↦ inl old
        | inr same ↦
            inr (line, Memᴰ.head refl, e ∙ ap (λ (k : PinnedHostKey). read_some k) (sym same))
      ]
      | inr (l, at, f) ↦ inr (l, Memᴰ.tail at, f)
    ],
    λ key given. elim given [
      | inl old ↦ covers key (inl (add_key_keeps keys (some other) key old))
      | inr (l, at, f) ↦ elim (Memᴰ.cases_cons at) [
        | inl here ↦ covers key (
            inl (
              Memᴰ.cast (offers_same l line key other here e f)
                (add_key-Memᴰ keys other all_sound sound_other)))
        | inr later ↦ covers key (inr (l, later, f))
      ]
    ],
  )

  step :
      (keys : List PinnedHostKey) (line : List ℕ) (more : List (List ℕ))
      (result : List PinnedHostKey) (found : Option PinnedHostKey)
      → All (IsSoundKey crates) keys
      → read_line crates line ≡ ok found
      → scan_lines crates (add_key keys found) more ≡ ok result
      → (All (IsSoundKey crates) (add_key keys found)
          → scan_lines crates (add_key keys found) more ≡ ok result
          → Scanned (add_key keys found) more result)
      → Scanned keys (line ∷ more) result
  step keys line more result none sound e later ih =
      Scanned-none keys line more result e (ih sound later)
  step keys line more result (some other) sound e later ih =
      let sound_other = read_line-IsSoundKey crates line other e in
      Scanned-some keys line more result other sound sound_other e
        (ih (add_key-All keys other sound sound_other) later)

  pub scan_lines-Scanned :
      (keys : List PinnedHostKey) (text : List (List ℕ)) (result : List PinnedHostKey)
      → All (IsSoundKey crates) keys
      → scan_lines crates keys text ≡ ok result
      → Scanned keys text result
  scan_lines-Scanned keys [] result sound h =
      let e = listed-injective (sym (scan_lines-nil keys) ∙ h) in
      subst (Scanned keys []) e (
        sound,
        λ key member. inl member,
        λ key given. elim given [ inl old ↦ old | inr (l, at, f) ↦ absurd (Memᴰ.not-nil at) ],
      )
  scan_lines-Scanned keys (line ∷ more) result sound h =
      let (found, e, later) =
        >>=-eq-ok (read_line crates line) _ (sym (scan_lines-cons keys line more) ∙ h) in
      step keys line more result found sound e later
        (scan_lines-Scanned (add_key keys found) more result)
