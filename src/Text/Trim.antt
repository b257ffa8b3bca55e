-- ===== src/Text/Trim.antt =====
-- src/lib/text-utils.cc, Trim: what is erased, and what is left.
use opendcd.Prelude.{
  ℕ, ◌≡◌, refl, sym, ap, subst, ◌∙◌, Bool, true, false, Bool-cases, List, [], ◌∷◌, ◌++◌, All, inl,
  inr, arith, if◌then◌else◌,
}
use opendcd.Text.{is_empty, is_one_of, white_chars, erase_end, erase_start, trim}

abbrev pub IsWhite : List ℕ → Type 0
IsWhite s = All (λ c. is_one_of white_chars c ≡ true) s

-- Whether the first and the last character is white.
unfoldable pub starts_white : List ℕ → Bool
starts_white [] = false
starts_white (c ∷ s) = is_one_of white_chars c

unfoldable pub ends_white : List ℕ → Bool
ends_white [] = false
ends_white (c ∷ s) = let rest = ends_white s in if is_empty s then is_one_of white_chars c else rest

pub is_empty-nil : (s : List ℕ) → is_empty s ≡ true → s ≡ []
is_empty-nil [] h = refl
is_empty-nil (c ∷ s) h = ground arith

pub erase_end-cut :
    (s : List ℕ)
    → (after : List ℕ) × (s ≡ erase_end s ++ after)
      × IsWhite after
      × (ends_white (erase_end s) ≡ false)
unfolding erase_end ends_white
erase_end-cut [] = ([], refl, tt, refl)
erase_end-cut (c ∷ s) =
    let (after, e, w, ends) = erase_end-cut s in
    elim (Bool-cases (is_empty (erase_end s))) [
      | inl none' ↦ elim (Bool-cases (is_one_of white_chars c)) [
        | inl white ↦
            rw (none', white)
              (
                c ∷ s,
                refl,
                (
                  white,
                  subst IsWhite (sym (e ∙ ap (λ (xs : List ℕ). xs ++ after) (is_empty-nil _ none')))
                      w,
                ),
                refl,
              )
        | inr black ↦ rw (none', black) (after, ap (λ (xs : List ℕ). c ∷ xs) e, w, rw none' black)
      ]
      | inr some' ↦ rw some' (after, ap (λ (xs : List ℕ). c ∷ xs) e, w, rw some' ends)
    ]

pub erase_start-cut :
    (s : List ℕ)
    → (before : List ℕ) × (s ≡ before ++ erase_start s)
      × IsWhite before
      × (starts_white (erase_start s) ≡ false)
unfolding erase_start starts_white
erase_start-cut [] = ([], refl, tt, refl)
erase_start-cut (c ∷ s) =
    let (before, e, w, starts) = erase_start-cut s in
    elim (Bool-cases (is_one_of white_chars c)) [
      | inl white ↦ rw white (c ∷ before, ap (λ (xs : List ℕ). c ∷ xs) e, (white, w), starts)
      | inr black ↦ rw black ([], refl, tt, black)
    ]

erase_start_black :
    (c : ℕ) (s : List ℕ) → is_one_of white_chars c ≡ false → erase_start (c ∷ s) ≡ c ∷ s
unfolding erase_start
erase_start_black c s h = rw h refl

erase_start_white :
    (c : ℕ) (s : List ℕ) → is_one_of white_chars c ≡ true → erase_start (c ∷ s) ≡ erase_start s
unfolding erase_start
erase_start_white c s h = rw h refl

ends_white_tail : (c : ℕ) (s : List ℕ) → ends_white (c ∷ s) ≡ false → ends_white s ≡ false
unfolding ends_white
ends_white_tail c [] h = refl
ends_white_tail c (d ∷ s) h = h

ends_white-erase_start : (s : List ℕ) → ends_white s ≡ false → ends_white (erase_start s) ≡ false
ends_white-erase_start [] h = unfold erase_start in h
ends_white-erase_start (c ∷ s) h = elim (Bool-cases (is_one_of white_chars c)) [
  | inl white ↦
      subst (λ x. ends_white x ≡ false) (sym (erase_start_white c s white))
        (ends_white-erase_start s (ends_white_tail c s h))
  | inr black ↦ subst (λ x. ends_white x ≡ false) (sym (erase_start_black c s black)) h
]

-- Trim erases white characters at the two ends only, and leaves a string that neither starts nor ends
-- with one.
pub trim_lem :
    (s : List ℕ)
    → (before : List ℕ) × (after : List ℕ) × (s ≡ (before ++ trim s) ++ after)
      × IsWhite before
      × IsWhite after
      × (starts_white (trim s) ≡ false)
      × (ends_white (trim s) ≡ false)
unfolding trim
trim_lem s =
    let (after, e, w, ends) = erase_end-cut s in
    let (before, e', w', starts) = erase_start-cut (erase_end s) in
    (
      before,
      after,
      e ∙ ap (λ (xs : List ℕ). xs ++ after) e',
      w',
      w,
      starts,
      ends_white-erase_start (erase_end s) ends,
    )
