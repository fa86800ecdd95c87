-- ===== src/Base/Tests.antt =====
-- Boolean tests, the conditional, and case lemmas that keep the equation.
use Prim.Native.Nat.{ℕ, compare, Ordering}
use mathlib.Core.Path.{◌≡◌, refl}
use mathlib.Core.Logic.{◌⊎◌, ◌↔◌, inl, inr}
use mathlib.Core.Bool.{Bool, true, false, not, ◌&&◌, ◌||◌}
use native.Mathlib.Omega.{arith}
use mathlib.Core.Option.{Option, none, some}

abbrev pub ltb : ℕ → ℕ → Bool
ltb a b = elim (compare a b) [ Ordering.lt ↦ true | _ ↦ false ]

abbrev pub leb : ℕ → ℕ → Bool
leb a b = elim (compare a b) [ Ordering.gt ↦ false | _ ↦ true ]

infix 50 ◌==◌
abbrev pub ◌==◌ : ℕ → ℕ → Bool
a == b = elim (compare a b) [ Ordering.eq ↦ true | _ ↦ false ]

infix 1 if◌then◌else◌
abbrev pub if◌then◌else◌ {ℓ} : {A : Type ℓ} → Bool → A → A → A
if true then x else y = x
if false then x else y = y

-- A decided proposition as a test.
abbrev pub holds {ℓ} : {P : Type ℓ} → Dec P → Bool
holds (yes _) = true
holds (no _) = false

pub Bool-cases : (b : Bool) → (b ≡ true) ⊎ (b ≡ false)
Bool-cases true = inl refl
Bool-cases false = inr refl

pub Option-cases {ℓ} : {A : Type ℓ} (o : Option A) → (o ≡ none) ⊎ ((a : A) × (o ≡ some a))
Option-cases none = inl refl
Option-cases (some a) = inr (a, refl)

pub &&_iff :
    {P Q : Type 0} (a b : Bool) → ((a ≡ true) ↔ P) → ((b ≡ true) ↔ Q) → ((a && b) ≡ true) ↔ (P × Q)
&&_iff true true p q = (λ e. (p.0 refl, q.0 refl), λ h. refl)
&&_iff true false p q = (λ e. cc, λ h. q.1 h.1)
&&_iff false b p q = (λ e. cc, λ h. p.1 h.0)

pub ||_iff :
    {P Q : Type 0} (a b : Bool) → ((a ≡ true) ↔ P) → ((b ≡ true) ↔ Q) → ((a || b) ≡ true) ↔ (P ⊎ Q)
||_iff true b p q = (λ e. inl (p.0 refl), λ h. refl)
||_iff false true p q = (λ e. inr (q.0 refl), λ h. refl)
||_iff false false p q = (λ e. cc, λ h. elim h [ inl x ↦ p.1 x | inr y ↦ q.1 y ])

pub not_iff : {P : Type 0} (a : Bool) → ((a ≡ true) ↔ P) → (not a ≡ true) ↔ (¬ P)
not_iff true p = (λ e. cc, λ h. absurd (h (p.0 refl)))
not_iff false p = (λ e h. cc (p.1 h), λ h. refl)

pub false_iff : (◌≡◌ {A = Bool} false true) ↔ ⊥
false_iff = (λ e. cc, λ h. absurd h)

pub ==_iff : (a b : ℕ) → ((a == b) ≡ true) ↔ (a ≡ b)
==_iff a b = ground arith

pub holds_iff : {P : Type 0} (d : Dec P) → (holds d ≡ true) ↔ P
holds_iff (yes p) = (λ e. p, λ h. refl)
holds_iff (no n) = (λ e. cc, λ h. absurd (n h))

-- To prove a property of a test's value on both branches.
pub if-ind {ℓ κ} :
    {A : Type ℓ} (P : A → Type κ) (b : Bool) (x y : A)
    → (b ≡ true → P x)
    → (b ≡ false → P y)
    → P (if b then x else y)
if-ind P true x y h k = h refl
if-ind P false x y h k = k refl
