-- ===== src/Text/Trim.antt =====
-- `TrimSpace` of a trimmed text changes nothing.
use mathlib.Core.List.{reverse, reverse-append, reverse-reverse}
use binbox_cli.Base.{
  ℕ, ◌≡◌, refl, sym, ◌∙◌, ap, Bool, true, not, ◌||◌, [], ◌∷◌, ◌++◌, inl, inr, arith, Bool-cases,
}
use binbox_cli.Text.{Text, space1, space2, space3, drop_spaces, trim_space}

module _ (two : ℕ → ℕ → Bool) (three : ℕ → ℕ → ℕ → Bool) where
  -- No encoded space stands in front.
  clean : Text → Bool
  clean [] = true
  clean (a ∷ []) = not (space1 a)
  clean (a ∷ b ∷ []) = not (space1 a || two a b)
  clean (a ∷ b ∷ c ∷ s) = not (space1 a || (two a b || three a b c))

  drop_spaces-clean : (s : Text) → clean s ≡ true → drop_spaces two three s ≡ s
  unfolding clean drop_spaces
  drop_spaces-clean [] h = refl
  drop_spaces-clean (a ∷ []) h = ground arith
  drop_spaces-clean (a ∷ b ∷ []) h = ground arith
  drop_spaces-clean (a ∷ b ∷ c ∷ s) h = ground arith

  clean-drop_spaces : (s : Text) → clean (drop_spaces two three s) ≡ true
  unfolding clean drop_spaces
  clean-drop_spaces [] = refl
  clean-drop_spaces (a ∷ []) = ground arith
  clean-drop_spaces (a ∷ b ∷ []) = ground (arith, clean-drop_spaces (b ∷ []))
  clean-drop_spaces (a ∷ b ∷ c ∷ s) =
      ground (arith, clean-drop_spaces (b ∷ c ∷ s), clean-drop_spaces (c ∷ s), clean-drop_spaces s)

  clean_prefix : (r t : Text) → clean (r ++ t) ≡ true → clean r ≡ true
  unfolding clean
  clean_prefix [] t h = refl
  clean_prefix (a ∷ []) [] h = h
  clean_prefix (a ∷ []) (b ∷ []) h = ground arith
  clean_prefix (a ∷ []) (b ∷ c ∷ t) h = ground arith
  clean_prefix (a ∷ b ∷ []) [] h = h
  clean_prefix (a ∷ b ∷ []) (c ∷ t) h = ground arith
  clean_prefix (a ∷ b ∷ c ∷ s) t h = h

  -- What is dropped stood in front.
  dropped_prefix : (s : Text) → (p : Text) × (s ≡ p ++ drop_spaces two three s)
  unfolding drop_spaces
  dropped_prefix [] = ([], refl)
  dropped_prefix (a ∷ []) = elim (Bool-cases (space1 a)) [
    | inl x ↦ (a ∷ [], rw x refl)
    | inr x ↦ ([], rw x refl)
  ]
  dropped_prefix (a ∷ b ∷ []) = elim (Bool-cases (space1 a)) [
    | inl x ↦ let (p, e) = dropped_prefix (b ∷ []) in (a ∷ p, rw x (ap (◌∷◌ a) e))
    | inr x ↦ elim (Bool-cases (two a b)) [
      | inl y ↦ (a ∷ b ∷ [], rw (x, y) refl)
      | inr y ↦ ([], rw (x, y) refl)
    ]
  ]
  dropped_prefix (a ∷ b ∷ c ∷ s) = elim (Bool-cases (space1 a)) [
    | inl x ↦ let (p, e) = dropped_prefix (b ∷ c ∷ s) in (a ∷ p, rw x (ap (◌∷◌ a) e))
    | inr x ↦ elim (Bool-cases (two a b)) [
      | inl y ↦
          let (p, e) = dropped_prefix (c ∷ s) in
          (a ∷ b ∷ p, rw (x, y) (ap (λ (z : Text). a ∷ b ∷ z) e))
      | inr y ↦ elim (Bool-cases (three a b c)) [
        | inl z ↦
            let (p, e) = dropped_prefix s in
            (a ∷ b ∷ c ∷ p, rw (x, y, z) (ap (λ (w : Text). a ∷ b ∷ c ∷ w) e))
        | inr z ↦ ([], rw (x, y, z) refl)
      ]
    ]
  ]

-- The tests on reversed bytes.
abbrev back2 : ℕ → ℕ → Bool
back2 a b = space2 b a

abbrev back3 : ℕ → ℕ → ℕ → Bool
back3 a b c = space3 c b a

pub trim_space-trim_space : (s : Text) → trim_space (trim_space s) ≡ trim_space s
unfolding trim_space
trim_space-trim_space s =
    let front : Text = drop_spaces space2 space3 s in
    let back : Text = drop_spaces back2 back3 (reverse front) in
    let (p, e) = dropped_prefix back2 back3 (reverse front) in
    let split : front ≡ reverse back ++ reverse p =
      sym (reverse-reverse front) ∙ ap reverse e ∙ reverse-append p back in
    let c : clean space2 space3 (reverse back) ≡ true =
      clean_prefix space2 space3 (reverse back) (reverse p)
        (sym (ap (clean space2 space3) split) ∙ clean-drop_spaces space2 space3 s) in
    ap (λ (t : Text). reverse (drop_spaces back2 back3 (reverse t)))
      (drop_spaces-clean space2 space3 (reverse back) c)
    ∙ ap (λ (t : Text). reverse (drop_spaces back2 back3 t)) (reverse-reverse back)
    ∙ ap reverse
        (drop_spaces-clean back2 back3 back (clean-drop_spaces back2 back3 (reverse front)))
