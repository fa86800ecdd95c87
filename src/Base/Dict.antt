-- ===== src/Base/Dict.antt =====
-- A Go map as an association list with one entry for each key.
use Prim.Native.Nat.{ℕ, ◌+◌}
use mathlib.Core.Path.{◌≡◌, refl, sym, ap, ◌∙◌, subst}
use mathlib.Core.Logic.{◌≢◌, ite, if_pos, if_neg, inl, inr}
use mathlib.Core.Bool.{Bool}
use mathlib.Core.Option.{Option, none, some}
use mathlib.Core.List.{List, [], ◌∷◌}
use native.Mathlib.Omega.{arith}
use binbox_cli.Base.Tests.{if◌then◌else◌, Bool-cases}
use binbox_cli.Base.Lists.{length, All}

abbrev pub Map {ℓ} : Type ℓ → Type ℓ → Type ℓ
Map K V = List (K × V)

module _ {ℓ} {K V : Type ℓ} (dec : Discrete K) where
  -- `m[k]` with its second result
  unfoldable pub lookup : K → Map K V → Option V
  lookup k [] = none
  lookup k ((j, v) ∷ m) = ite (dec j k) (some v) (lookup k m)

  -- `m[k] = v`
  unfoldable pub insert : K → V → Map K V → Map K V
  insert k v [] = (k, v) ∷ []
  insert k v ((j, w) ∷ m) = ite (dec j k) ((k, v) ∷ m) ((j, w) ∷ insert k v m)

  -- `delete(m, k)`
  unfoldable pub delete : K → Map K V → Map K V
  delete k [] = []
  delete k ((j, w) ∷ m) = ite (dec j k) (delete k m) ((j, w) ∷ delete k m)

  pub lookup-insert :
      (k j : K) (v : V) (m : Map K V)
      → lookup j (insert k v m) ≡ ite (dec k j) (some v) (lookup j m)
  unfolding lookup insert
  lookup-insert k j v [] = refl
  lookup-insert k j v ((i, w) ∷ m) = ground (arith, lookup-insert k j v m)

  pub lookup-delete :
      (k j : K) (m : Map K V) → lookup j (delete k m) ≡ ite (dec k j) none (lookup j m)
  unfolding lookup delete
  lookup-delete k j [] = ground arith
  lookup-delete k j ((i, w) ∷ m) = ground (arith, lookup-delete k j m)

  pub lookup-insert_same : (k : K) (v : V) (m : Map K V) → lookup k (insert k v m) ≡ some v
  lookup-insert_same k v m = lookup-insert k k v m ∙ if_pos (dec k k) refl _ _

  pub lookup-insert_other :
      (k j : K) (v : V) (m : Map K V) → k ≢ j → lookup j (insert k v m) ≡ lookup j m
  lookup-insert_other k j v m h = lookup-insert k j v m ∙ if_neg (dec k j) h _ _

  pub lookup-delete_same : (k : K) (m : Map K V) → lookup k (delete k m) ≡ none
  lookup-delete_same k m = lookup-delete k k m ∙ if_pos (dec k k) refl _ _

  pub lookup-delete_other : (k j : K) (m : Map K V) → k ≢ j → lookup j (delete k m) ≡ lookup j m
  lookup-delete_other k j m h = lookup-delete k j m ∙ if_neg (dec k j) h _ _

  -- No key of the map is `k`.
  abbrev pub Fresh : K → Map K V → Type ℓ
  Fresh k = All (λ e. e.0 ≢ k)

module _ {ℓ} {K V : Type ℓ} where
  -- Every key has one entry.
  abbrev pub Distinct : Map K V → Type ℓ
  Distinct [] = Unit
  Distinct ((k, v) ∷ m) = All (λ e. e.0 ≢ k) m × Distinct m

  -- The entries that a loop with `delete` under a test leaves.
  unfoldable pub keep : (K → Bool) → Map K V → Map K V
  keep drop [] = []
  keep drop ((j, w) ∷ m) = if drop j then keep drop m else ((j, w) ∷ keep drop m)

  -- How often such a loop deletes.
  unfoldable pub dropped : (K → Bool) → Map K V → ℕ
  dropped drop [] = 0
  dropped drop ((j, w) ∷ m) = (if drop j then 1 else 0) + dropped drop m

  pub length-keep :
      (drop : K → Bool) (m : Map K V) → length (keep drop m) + dropped drop m ≡ length m
  unfolding keep dropped
  length-keep drop [] = omega arith
  length-keep drop ((j, w) ∷ m) = ground (arith, length-keep drop m)

  pub dropped-keep : (drop : K → Bool) (m : Map K V) → dropped drop (keep drop m) ≡ 0
  unfolding keep dropped
  dropped-keep drop [] = refl
  dropped-keep drop ((j, w) ∷ m) = ground (arith, dropped-keep drop m)

module _ {ℓ} {K V : Type ℓ} (dec : Discrete K) where
  pub lookup-keep :
      (drop : K → Bool) (j : K) (m : Map K V)
      → lookup dec j (keep drop m) ≡ (if drop j then none else lookup dec j m)
  unfolding lookup keep
  lookup-keep drop j [] = ground arith
  lookup-keep drop j ((i, w) ∷ m) = elim (dec i j) [
    | yes e ↦ ground (arith, lookup-keep drop j m, ap drop e)
    | no e ↦ ground (arith, lookup-keep drop j m)
  ]

  insert-Fresh :
      (k i : K) (v : V) (m : Map K V) → i ≢ k → Fresh dec i m → Fresh dec i (insert dec k v m)
  unfolding insert
  insert-Fresh k i v [] h f = (λ e. h (sym e), tt)
  insert-Fresh k i v ((j, w) ∷ m) h f = elim (dec j k) [
    | yes e ↦ rw (if_pos _ e) (λ x. h (sym x), f.1)
    | no e ↦ rw (if_neg _ e) (f.0, insert-Fresh k i v m h f.1)
  ]

  pub insert-Distinct : (k : K) (v : V) (m : Map K V) → Distinct m → Distinct (insert dec k v m)
  unfolding insert
  insert-Distinct k v [] d = (tt, tt)
  insert-Distinct k v ((j, w) ∷ m) d = elim (dec j k) [
    | yes e ↦ rw (if_pos _ e) (rw e at d.0, d.1)
    | no e ↦ rw (if_neg _ e) (insert-Fresh k j v m e d.0, insert-Distinct k v m d.1)
  ]

  delete-Fresh : (k i : K) (m : Map K V) → Fresh dec i m → Fresh dec i (delete dec k m)
  unfolding delete
  delete-Fresh k i [] f = tt
  delete-Fresh k i ((j, w) ∷ m) f = elim (dec j k) [
    | yes e ↦ rw (if_pos _ e) (delete-Fresh k i m f.1)
    | no e ↦ rw (if_neg _ e) (f.0, delete-Fresh k i m f.1)
  ]

  pub delete-Distinct : (k : K) (m : Map K V) → Distinct m → Distinct (delete dec k m)
  unfolding delete
  delete-Distinct k [] d = tt
  delete-Distinct k ((j, w) ∷ m) d = elim (dec j k) [
    | yes e ↦ rw (if_pos _ e) (delete-Distinct k m d.1)
    | no e ↦ rw (if_neg _ e) (delete-Fresh k j m d.0, delete-Distinct k m d.1)
  ]

  keep-Fresh : (drop : K → Bool) (i : K) (m : Map K V) → Fresh dec i m → Fresh dec i (keep drop m)
  unfolding keep
  keep-Fresh drop i [] f = tt
  keep-Fresh drop i ((j, w) ∷ m) f = elim (Bool-cases (drop j)) [
    | inl e ↦ rw e (keep-Fresh drop i m f.1)
    | inr e ↦ rw e (f.0, keep-Fresh drop i m f.1)
  ]

  pub keep-Distinct : (drop : K → Bool) (m : Map K V) → Distinct m → Distinct (keep drop m)
  unfolding keep
  keep-Distinct drop [] d = tt
  keep-Distinct drop ((j, w) ∷ m) d = elim (Bool-cases (drop j)) [
    | inl e ↦ rw e (keep-Distinct drop m d.1)
    | inr e ↦ rw e (keep-Fresh drop j m d.0, keep-Distinct drop m d.1)
  ]

  pub lookup-Fresh : (k : K) (m : Map K V) → Fresh dec k m → lookup dec k m ≡ none
  unfolding lookup
  lookup-Fresh k [] f = refl
  lookup-Fresh k ((j, w) ∷ m) f = rw (if_neg (dec j k) f.0) (lookup-Fresh k m f.1)

  lift_entries :
      (k : K) (v : V) (m l : Map K V)
      → All (λ e. e.0 ≢ k) l
      → All (λ e. lookup dec e.0 m ≡ some e.1) l
      → All (λ e. lookup dec e.0 ((k, v) ∷ m) ≡ some e.1) l
  unfolding lookup
  lift_entries k v m [] n h = tt
  lift_entries k v m (e ∷ l) n h =
      (if_neg (dec k e.0) (λ q. n.0 (sym q)) _ _ ∙ h.0, lift_entries k v m l n.1 h.1)

  -- Where every key has one entry, an entry is what its key's lookup finds.
  pub lookup_entries : (m : Map K V) → Distinct m → All (λ e. lookup dec e.0 m ≡ some e.1) m
  unfolding lookup
  lookup_entries [] d = tt
  lookup_entries ((k, v) ∷ m) d =
      (if_pos (dec k k) refl _ _, lift_entries k v m m d.0 (lookup_entries m d.1))

  -- What holds of all entries holds of one that a lookup finds.
  pub All-lookup :
      (P : K × V → Type ℓ) (k : K) (v : V) (m : Map K V)
      → All P m
      → lookup dec k m ≡ some v
      → P (k, v)
  unfolding lookup
  All-lookup P k v [] a h = absurd cc
  All-lookup P k v ((j, w) ∷ m) a h = elim (dec j k) [
    | yes e ↦
        (let same : w ≡ v = cc (rw (if_pos _ e) at h) in
          subst (λ x. P (x, v)) e (subst (λ y. P (j, y)) same a.0))
    | no e ↦ All-lookup P k v m a.1 (rw (if_neg _ e) at h)
  ]
