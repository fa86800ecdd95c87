-- ===== src/Text/Decimal.antt =====
-- Decimal numerals: read back, and told apart.
use binbox_cli.Base.{
  ℕ, zero, suc, ◌+◌, ◌-◌, ◌*◌, ◌/◌, ◌<◌, ◌≡◌, ◌≢◌, refl, sym, ap, ◌∙◌, inl, inr, [], ◌∷◌, ◌++◌,
  arith, ltb, Bool-cases, All, All-append,
}
use binbox_cli.Text.{Text, decimal_digits, decimal}

-- The number that a numeral stands for, on top of the digits read before it.
read_from : ℕ → Text → ℕ
read_from acc [] = acc
read_from acc (c ∷ cs) = read_from (acc * 10 + (c - b'0')) cs

read_from-append :
    (acc : ℕ) (xs : Text) (c : ℕ)
    → read_from acc (xs ++ c ∷ []) ≡ read_from acc xs * 10 + (c - b'0')
unfolding read_from
read_from-append acc [] c = refl
read_from-append acc (x ∷ xs) c = read_from-append (acc * 10 + (x - b'0')) xs c

read_from-decimal_digits : (f n : ℕ) → n < f → read_from 0 (decimal_digits f n) ≡ n
unfolding decimal_digits
read_from-decimal_digits zero n h = elim h [ ]
read_from-decimal_digits (suc f) n h = elim (Bool-cases (ltb n 10)) [
  | inl small ↦ rw small (unfold read_from in omega arith)
  | inr large ↦
      rw (large, read_from-append, read_from-decimal_digits f (n / 10) (ground arith)) (omega arith)
]

-- Distinct numbers have distinct numerals.
pub decimal_injective : (n m : ℕ) → decimal n ≡ decimal m → n ≡ m
unfolding decimal
decimal_injective n m e =
    sym (read_from-decimal_digits (n + 1) n (omega arith))
    ∙ ap (read_from 0) e
    ∙ read_from-decimal_digits (m + 1) m (omega arith)

decimal_digits-ne-colon : (f n : ℕ) → All (λ c. c ≢ b':') (decimal_digits f n)
unfolding decimal_digits
decimal_digits-ne-colon zero n = tt
decimal_digits-ne-colon (suc f) n = elim (Bool-cases (ltb n 10)) [
  | inl small ↦ rw small ((λ e. ground arith), tt)
  | inr large ↦
      rw large (All-append _ _ _ (decimal_digits-ne-colon f (n / 10)) ((λ e. omega arith), tt))
]

pub decimal-ne-colon : (n : ℕ) → All (λ c. c ≢ b':') (decimal n)
unfolding decimal
decimal-ne-colon n = decimal_digits-ne-colon (n + 1) n

-- Two texts with no colon, before a colon each: the first colons stand at the same place.
pub split_at_colon :
    (xs ys r s : Text)
    → All (λ c. c ≢ b':') xs
    → All (λ c. c ≢ b':') ys
    → xs ++ (b':' ∷ r) ≡ ys ++ (b':' ∷ s)
    → (xs ≡ ys) × (r ≡ s)
split_at_colon [] [] r s h k e = (refl, ground arith)
split_at_colon [] (y ∷ ys) r s h k e = absurd (k.0 (ground arith))
split_at_colon (x ∷ xs) [] r s h k e = absurd (h.0 (ground arith))
split_at_colon (x ∷ xs) (y ∷ ys) r s h k e =
    let (p, q) = split_at_colon xs ys r s h.1 k.1 (ground arith) in (ground arith, q)
