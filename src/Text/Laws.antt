-- ===== src/Text/Laws.antt =====
-- What equality, `contains`, `strip_prefix` and `split_once` of texts compute.
use pv_matter.Common.{
  ℕ, ◌≡◌, refl, ◌↔◌, inl, inr, true, false, [], ◌∷◌, ◌++◌, some, arith, ◌==◌, Bool-cases,
  Option-cases, none,
}
use pv_matter.Text.{Text, text_eq, contains, strip_prefix, split_once, Lacks}

text_eq_sound : (s t : Text) → text_eq s t ≡ true → s ≡ t
unfolding text_eq
text_eq_sound [] [] h = refl
text_eq_sound (a ∷ s) (b ∷ t) h = ground (arith, text_eq_sound s t)
text_eq_sound [] (b ∷ t) h = cc
text_eq_sound (a ∷ s) [] h = cc

pub text_eq_refl : (s : Text) → text_eq s s ≡ true
unfolding text_eq
text_eq_refl [] = refl
text_eq_refl (a ∷ s) = ground (arith, text_eq_refl s)

pub text_eq_iff : (s t : Text) → (text_eq s t ≡ true) ↔ (s ≡ t)
text_eq_iff s t = (text_eq_sound s t, λ e. rw e (text_eq_refl t))

pub contains-eq-false_iff : (c : ℕ) (s : Text) → (contains c s ≡ false) ↔ Lacks c s
unfolding contains
contains-eq-false_iff c [] = ground arith
contains-eq-false_iff c (d ∷ s) = ground (arith, contains-eq-false_iff c s)

pub strip_prefix-append : (p s : Text) → strip_prefix (p ++ s) p ≡ some s
unfolding strip_prefix
strip_prefix-append [] s = refl
strip_prefix-append (c ∷ p) s = ground (arith, strip_prefix-append p s)

pub strip_prefix_sound : (s p : Text) {r : Text} → strip_prefix s p ≡ some r → s ≡ p ++ r
unfolding strip_prefix
strip_prefix_sound s [] h = cc
strip_prefix_sound [] (c ∷ p) h = cc
strip_prefix_sound (d ∷ s) (c ∷ p) {r} h = ground (arith, strip_prefix_sound s p {r = r})

pub split_once-append : (c : ℕ) (a b : Text) → Lacks c a → split_once c (a ++ c ∷ b) ≡ some (a, b)
unfolding split_once
split_once-append c [] b h = ground arith
split_once-append c (d ∷ a) b h = ground (arith, split_once-append c a b h.1)

pub split_once_sound :
    (c : ℕ) (s a b : Text) → split_once c s ≡ some (a, b) → (s ≡ a ++ c ∷ b) × Lacks c a
unfolding split_once
split_once_sound c [] a b h = cc
split_once_sound c (d ∷ s) a b h = elim (Bool-cases (d == c)) [
  | inl same ↦ ground arith
  | inr other ↦ elim (Option-cases (split_once c s)) [
    | inl missed ↦ ground arith
    | inr (p, found) ↦ ground (arith, split_once_sound c s p.0 p.1 found)
  ]
]

pub split_once_of_Lacks : (c : ℕ) (s : Text) → Lacks c s → split_once c s ≡ none
unfolding split_once
split_once_of_Lacks c [] h = refl
split_once_of_Lacks c (d ∷ s) h = ground (arith, split_once_of_Lacks c s h.1)
