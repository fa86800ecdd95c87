-- ===== src/Text/Split.antt =====
-- `strings.Split`, `strings.Join` and `strings.Cut` at a separator of one byte.
use binbox_cli.Base.{
  ℕ, ◌≡◌, ◌≢◌, refl, ap, ◌∙◌, List, [], ◌∷◌, ◌++◌, arith, ◌==◌, if◌then◌else◌, All,
}

abbrev Text : Type 0
Text = List ℕ

-- A byte in front of the first piece.
unfoldable pub push_front : ℕ → List Text → List Text
push_front c [] = (c ∷ []) ∷ []
push_front c (w ∷ ws) = (c ∷ w) ∷ ws

-- The pieces between the separators: one more than there are separators.
unfoldable pub split : ℕ → Text → List Text
unfolding push_front
split sep [] = [] ∷ []
split sep (c ∷ s) = let rest = split sep s in if c == sep then [] ∷ rest else push_front c rest

unfoldable pub join : ℕ → List Text → Text
join sep [] = []
join sep (w ∷ []) = w
join sep (w ∷ v ∷ ws) = w ++ (sep ∷ join sep (v ∷ ws))

-- The parts before and behind the first separator.
unfoldable pub cut : ℕ → Text → Text × Text
cut sep [] = ([], [])
cut sep (c ∷ s) = let rest = cut sep s in if c == sep then ([], s) else (c ∷ rest.0, rest.1)

abbrev pub Lacks : ℕ → Text → Type 0
Lacks sep = All (λ c. c ≢ sep)

pub split_lacking : (sep : ℕ) (w : Text) → Lacks sep w → split sep w ≡ w ∷ []
unfolding split
split_lacking sep [] h = refl
split_lacking sep (c ∷ w) h = ground (arith, split_lacking sep w h.1)

pub split-append :
    (sep : ℕ) (w s : Text) → Lacks sep w → split sep (w ++ (sep ∷ s)) ≡ w ∷ split sep s
unfolding split
split-append sep [] s h = ground arith
split-append sep (c ∷ w) s h = ground (arith, split-append sep w s h.1)

-- Pieces without the separator are read back from their joined text.
pub split-join :
    (sep : ℕ) (w : Text) (ws : List Text)
    → All (Lacks sep) (w ∷ ws)
    → split sep (join sep (w ∷ ws)) ≡ w ∷ ws
unfolding join
split-join sep w [] h = split_lacking sep w h.0
split-join sep w (v ∷ ws) h =
    split-append sep w (join sep (v ∷ ws)) h.0 ∙ ap (◌∷◌ w) (split-join sep v ws h.1)

pub cut-append : (sep : ℕ) (w s : Text) → Lacks sep w → cut sep (w ++ (sep ∷ s)) ≡ (w, s)
unfolding cut
cut-append sep [] s h = ground arith
cut-append sep (c ∷ w) s h = ground (arith, cut-append sep w s h.1)
