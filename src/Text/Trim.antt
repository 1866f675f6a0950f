-- ===== src/Text/Trim.antt =====
-- `trim` removes the white space at both ends, and nothing else.
use pv_matter.Common.{
  ℕ, ◌≡◌, refl, sym, ◌∙◌, inl, inr, true, false, [], ◌∷◌, ◌++◌, ap, Bool-cases, All, All-append,
  append_assoc, append-nil,
}
use pv_matter.Text.{Text, is_whitespace, trim_start, trim_end, put_front, trim}

abbrev pub AllSpace : Text → Type 0
AllSpace s = All (λ c. is_whitespace c ≡ true) s

trim_start-append : (a s : Text) → AllSpace a → trim_start (a ++ s) ≡ trim_start s
unfolding trim_start
trim_start-append [] s h = refl
trim_start-append (c ∷ a) s h = rw h.0 (trim_start-append a s h.1)

trim_end_space : (b : Text) → AllSpace b → trim_end b ≡ []
unfolding trim_end put_front
trim_end_space [] h = refl
trim_end_space (c ∷ b) h = rw (trim_end_space b h.1) (rw h.0)

trim_end-append : (s b : Text) → AllSpace b → trim_end (s ++ b) ≡ trim_end s
unfolding trim_end
trim_end-append [] b h = trim_end_space b h
trim_end-append (c ∷ s) b h = rw (trim_end-append s b h)

-- White space around a text that begins with another character does not change what `trim` returns.
pub trim-append :
    (a s b : Text) (c : ℕ)
    → AllSpace a
    → AllSpace b
    → is_whitespace c ≡ false
    → trim (a ++ (c ∷ s) ++ b) ≡ trim (c ∷ s)
unfolding trim trim_start
trim-append a s b c ha hb h =
    rw (append_assoc, trim_start-append a ((c ∷ s) ++ b) ha) (rw h (trim_end-append (c ∷ s) b hb))

trim_start_split : (s : Text) → (a : Text) × AllSpace a × (s ≡ a ++ trim_start s)
unfolding trim_start
trim_start_split [] = ([], tt, refl)
trim_start_split (c ∷ s) = elim (Bool-cases (is_whitespace c)) [
  | inl space ↦
      let (a, ha, e) = trim_start_split s in
      (c ∷ a, (space, ha), rw space (ap {B = Text} (λ t. c ∷ t) e))
  | inr other ↦ ([], tt, rw other)
]

put_front_split : (c : ℕ) (t : Text) → (b : Text) × AllSpace b × (c ∷ t ≡ put_front c t ++ b)
unfolding put_front
put_front_split c [] = elim (Bool-cases (is_whitespace c)) [
  | inl space ↦ (c ∷ [], (space, tt), rw space)
  | inr other ↦ ([], tt, rw other)
]
put_front_split c (d ∷ t) = ([], tt, rw append-nil)

trim_end_split : (s : Text) → (b : Text) × AllSpace b × (s ≡ trim_end s ++ b)
unfolding trim_end
trim_end_split [] = ([], tt, refl)
trim_end_split (c ∷ s) =
    let (b, hb, e) = trim_end_split s in
    let (b', hb', e') = put_front_split c (trim_end s) in
    (
      b' ++ b,
      All-append _ b' b hb' hb,
      ap {B = Text} (λ t. c ∷ t) e ∙ ap (λ t. t ++ b) e' ∙ append_assoc _ b' b,
    )

-- A text is what `trim` returns, with white space before and behind it.
pub trim_split : (s : Text) → (a b : Text) × AllSpace a × AllSpace b × (s ≡ a ++ trim s ++ b)
unfolding trim
trim_split s =
    let (a, ha, e) = trim_start_split s in
    let (b, hb, e') = trim_end_split (trim_start s) in
    (a, b, ha, hb, e ∙ ap (λ t. a ++ t) e' ∙ sym (append_assoc a _ b))

abbrev pub NoSpace : Text → Type 0
NoSpace s = All (λ c. is_whitespace c ≡ false) s

trim_end_of_NoSpace : (s : Text) → NoSpace s → trim_end s ≡ s
unfolding trim_end put_front
trim_end_of_NoSpace [] h = refl
trim_end_of_NoSpace (c ∷ []) h = rw h.0
trim_end_of_NoSpace (c ∷ d ∷ s) h = rw (trim_end_of_NoSpace (d ∷ s) h.1)

-- A text without white space is what `trim` leaves of it between white space.
pub trim_of_NoSpace : (a s b : Text) → AllSpace a → AllSpace b → NoSpace s → trim (a ++ s ++ b) ≡ s
unfolding trim trim_start
trim_of_NoSpace a [] b ha hb h =
    rw (append-nil, trim_start-append a b ha, ← append-nil b, trim_start-append b [] hb)
trim_of_NoSpace a (c ∷ s) b ha hb h =
    rw (append_assoc, trim_start-append a ((c ∷ s) ++ b) ha)
      (rw h.0 (rw (trim_end-append (c ∷ s) b hb) (trim_end_of_NoSpace (c ∷ s) h)))
