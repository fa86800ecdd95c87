-- ===== src/Text/Join.antt =====
-- `joinIdentityParts` loses nothing.
use mathlib.Core.Path.{ap₂}
use binbox_cli.Base.{◌≡◌, refl, sym, ◌∙◌, List, [], ◌∷◌, ◌++◌, arith, length}
use binbox_cli.Text.{Text, decimal, join_identity_parts}
use binbox_cli.Text.Decimal.{decimal_injective, decimal-ne-colon, split_at_colon}

append_inj : (xs ys r s : Text) → length xs ≡ length ys → xs ++ r ≡ ys ++ s → (xs ≡ ys) × (r ≡ s)
append_inj [] [] r s h e = (refl, e)
append_inj [] (y ∷ ys) r s h e = absurd (omega arith)
append_inj (x ∷ xs) [] r s h e = absurd (omega arith)
append_inj (x ∷ xs) (y ∷ ys) r s h e =
    let (p, q) = append_inj xs ys r s (omega arith) (ground arith) in (ground arith, q)

colon-ne-nil : (xs r : Text) → [] ≡ xs ++ (b':' ∷ r) → ⊥
colon-ne-nil [] r e = cc
colon-ne-nil (x ∷ xs) r e = cc

join-cons :
    (p : Text) (ps : List Text)
    → join_identity_parts (p ∷ ps) ≡ decimal (length p) ++ (b':' ∷ (p ++ join_identity_parts ps))
unfolding join_identity_parts
join-cons p ps = refl

join-nil : join_identity_parts [] ≡ []
unfolding join_identity_parts
join-nil = refl

-- Two lists of parts with the same joined text are equal, whatever bytes the parts hold.
pub join_identity_parts_injective :
    (ps qs : List Text) → join_identity_parts ps ≡ join_identity_parts qs → ps ≡ qs
join_identity_parts_injective [] [] e = refl
join_identity_parts_injective [] (q ∷ qs) e =
    absurd (colon-ne-nil _ _ (sym join-nil ∙ e ∙ join-cons q qs))
join_identity_parts_injective (p ∷ ps) [] e =
    absurd (colon-ne-nil _ _ (sym join-nil ∙ sym e ∙ join-cons p ps))
join_identity_parts_injective (p ∷ ps) (q ∷ qs) e =
    let (d, r) =
      split_at_colon _ _ _ _ (decimal-ne-colon (length p)) (decimal-ne-colon (length q))
        (sym (join-cons p ps) ∙ e ∙ join-cons q qs) in
    let (same, rest) = append_inj p q _ _ (decimal_injective _ _ d) r in
    ap₂ ◌∷◌ same (join_identity_parts_injective ps qs rest)
