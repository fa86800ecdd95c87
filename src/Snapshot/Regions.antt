-- ===== src/Snapshot/Regions.antt =====
-- The regions of the browser that a snapshot can store: regionNameRE of runtime_factory.go beside
-- regionPattern of snapshot/model.go, in internal/bb/awsbrowser.
use binbox_cli.Base.{
  ℕ, ◌+◌, ◌≡◌, refl, ap, Bool, true, false, ◌&&◌, List, [], ◌∷◌, arith, Bool-cases, inl, inr, ◌==◌,
  holds_iff,
}
use binbox_cli.Text.{Text, text_dec, ◌=?◌}
use binbox_cli.Text.Split.{split, push_front}
use binbox_cli.Identity.{is_region_name, region_words, global_region}
use binbox_cli.Snapshot.{is_lower, ends_in_digits, region_rest, matches_region, valid_region}

-- The first of some words is two lower-case letters.
unfoldable pub starts_with_letters : List Text → Bool
starts_with_letters ((a ∷ b ∷ []) ∷ ws) = is_lower a && is_lower b
starts_with_letters _ = false

ends_in_digits-region_words :
    (n : ℕ) (ws : List Text) → region_words n ws ≡ true → ends_in_digits ws ≡ true
unfolding region_words ends_in_digits
ends_in_digits-region_words n [] h = absurd cc
ends_in_digits-region_words n (w ∷ []) h = ground arith
ends_in_digits-region_words n (w ∷ v ∷ ws) h =
    ground (arith, ends_in_digits-region_words (n + 1) (v ∷ ws))

region_rest-region_words : (ws : List Text) → region_words 1 ws ≡ true → region_rest ws ≡ true
unfolding region_words region_rest
region_rest-region_words [] h = absurd cc
region_rest-region_words (w ∷ []) h = absurd (ground arith)
region_rest-region_words (w ∷ v ∷ []) h = ground (arith, ends_in_digits-region_words 1 (w ∷ v ∷ []))
region_rest-region_words (w ∷ v ∷ u ∷ ws) h = ends_in_digits-region_words 1 (w ∷ v ∷ u ∷ ws) h

three_letters :
    (a b c : ℕ) (ws : List Text)
    → starts_with_letters (push_front a (push_front b (push_front c ws))) ≡ false
unfolding push_front starts_with_letters
three_letters a b c [] = refl
three_letters a b c (w ∷ ws) = refl

-- The first word of a region of the browser is not empty.
starts_with_dash : (n : ℕ) (ws : List Text) → region_words n ([] ∷ ws) ≡ false
unfolding region_words
starts_with_dash n [] = ground arith
starts_with_dash n (w ∷ ws) = refl

behind_first :
    (w : Text) (ws : List Text) → region_words 0 (w ∷ ws) ≡ true → region_words 1 ws ≡ true
unfolding region_words
behind_first w [] h = absurd (ground arith)
behind_first w (v ∷ ws) h = ground arith

split_dash : (c : ℕ) (s : Text) → (c == b'-') ≡ true → split b'-' (c ∷ s) ≡ [] ∷ split b'-' s
unfolding split
split_dash c s e = rw e refl

split_other :
    (c : ℕ) (s : Text) → (c == b'-') ≡ false → split b'-' (c ∷ s) ≡ push_front c (split b'-' s)
unfolding split
split_other c s e = rw e refl

split_nil : split b'-' [] ≡ [] ∷ []
unfolding split
split_nil = refl

one_word : (w : Text) → region_words 0 (w ∷ []) ≡ false
unfolding region_words
one_word w = ground arith

no_letter : (b : ℕ) → (b == b'-') ≡ true → is_lower b ≡ false
no_letter b e = ground (arith, e)

and_second : (p q r : Bool) → q ≡ false → p && (q && r) ≡ false
and_second p q r h = ground arith

and_third : (p q r s : Bool) → r ≡ false → p && (q && (r && s)) ≡ false
and_third p q r s h = ground arith

and_both : (p q r s : Bool) → r ≡ true → s ≡ true → p && (q && (r && s)) ≡ p && q
and_both p q r s h k = ground arith

-- The two patterns, on the words of the region.
matches_region-words :
    (region : Text)
    → region_words 0 (split b'-' region) ≡ true
    → matches_region region ≡ starts_with_letters (split b'-' region)
unfolding matches_region push_front starts_with_letters
matches_region-words [] h = absurd (cc (rw (split_nil, one_word []) at h))
matches_region-words (a ∷ []) h = elim (Bool-cases (a == b'-')) [
  | inl p ↦ absurd (cc (rw (split_dash a [] p, starts_with_dash 0 _) at h))
  | inr p ↦ absurd (cc (rw (split_other a [] p, split_nil, one_word (a ∷ [])) at h))
]
matches_region-words (a ∷ b ∷ []) h = elim (Bool-cases (a == b'-')) [
  | inl p ↦ absurd (cc (rw (split_dash a (b ∷ []) p, starts_with_dash 0 _) at h))
  | inr p ↦ elim (Bool-cases (b == b'-')) [
    | inl q ↦ absurd (
        cc (
          starts_with_dash 1 [],
          behind_first (a ∷ []) ([] ∷ [])
              (rw (split_other a (b ∷ []) p, split_dash b [] q, split_nil) at h),
        ))
    | inr q ↦ absurd (
        cc (
          rw (split_other a (b ∷ []) p, split_other b [] q, split_nil, one_word (a ∷ b ∷ [])) at h))
  ]
]
matches_region-words (a ∷ b ∷ c ∷ s) h = elim (Bool-cases (a == b'-')) [
  | inl p ↦ absurd (cc (rw (split_dash a (b ∷ c ∷ s) p, starts_with_dash 0 _) at h))
  | inr p ↦ elim (Bool-cases (b == b'-')) [
    | inl q ↦
        rw (split_other a (b ∷ c ∷ s) p, split_dash b (c ∷ s) q)
          (and_second (is_lower a) (is_lower b) _ (no_letter b q))
    | inr q ↦ elim (Bool-cases (c == b'-')) [
      | inl r ↦
          let words : split b'-' (a ∷ b ∷ c ∷ s) ≡ (a ∷ b ∷ []) ∷ split b'-' s =
            rw (split_other a (b ∷ c ∷ s) p, split_other b (c ∷ s) q, split_dash c s r) refl in
          let rest = region_rest-region_words (split b'-' s) (behind_first _ _ (rw words at h)) in
          rw words (and_both (is_lower a) (is_lower b) (c == b'-') _ r rest)
      | inr r ↦
          rw (split_other a (b ∷ c ∷ s) p, split_other b (c ∷ s) q, split_other c s r)
            (rw (three_letters a b c (split b'-' s)) (and_third (is_lower a) (is_lower b) _ _ r))
    ]
  ]
]

global_is_no_region : is_region_name global_region ≡ false
unfolding is_region_name region_words split push_front
global_is_no_region = refl

-- A region that the browser accepts is one that a snapshot can store exactly where the first of
-- its words, which dashes separate, is two lower-case letters.
pub valid_region_iff :
    (region : Text)
    → is_region_name region ≡ true
    → valid_region region ≡ starts_with_letters (split b'-' region)
unfolding valid_region is_region_name
valid_region_iff region h = elim (Bool-cases (region =? global_region)) [
  | inl e ↦
      let same : region ≡ global_region = (holds_iff (text_dec region global_region)).0 e in
      absurd (cc (global_is_no_region, ap is_region_name same))
  | inr e ↦ rw e (matches_region-words region h)
]
