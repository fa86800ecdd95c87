-- ===== src/Snapshot/Collect/Rows.antt =====
-- The rows of coverage and the observations of one scope are valid. internal/bb/awsbrowser/snapshot/sync.go.
use binbox_cli.Base.{
  ◌≡◌, ◌≢◌, refl, Bool, true, false, not, ◌&&◌, ◌||◌, Option, none, some, List, [], ◌∷◌, ◌++◌,
  if◌then◌else◌, any, all, arith, Bool-cases, inl, inr, subst, ℕ_discrete,
}
use binbox_cli.Text.{
  Text, text, text_dec, ◌=?◌, trim_space, drop_spaces, contains_control, is_control,
}
use binbox_cli.Identity.{is_account_id}
use binbox_cli.Observation.{Time}
use binbox_cli.Snapshot.{valid_text, valid_optional_text, valid_region}
use binbox_cli.Snapshot.Collect.{
  CoverageStatus, succeeded, failed, not_observed, valid_status, Resource, valid_resource,
  valid_observation, Coverage, valid_coverage, Scope, valid_scope, Attempt, stopped, going, ◌>>=◌,
  CollectFailure, collection_error_kind, scope_coverage, wrong_account, wrong_supplement, observe,
  is_succeeded,
}

-- If the attempt goes on, its value has a property.
pub data Gives {ℓ} {A : Type ℓ} (P : A → Type 0) : Attempt A → Type ℓ where
  stops : (failure : CollectFailure) → Gives P (stopped failure)
  gives : (a : A) → P a → Gives P (going a)

pub Gives-bind {ℓ κ} :
    {A : Type ℓ} {B : Type κ} {P : A → Type 0} {Q : B → Type 0} {m : Attempt A}
    (next : A → Attempt B)
    → Gives P m
    → ((a : A) → P a → Gives Q (next a))
    → Gives Q (m >>= next)
Gives-bind next (stops failure) k = stops failure
Gives-bind next (gives a h) k = k a h

pub Gives-if {ℓ} :
    {A : Type ℓ} {P : A → Type 0} (b : Bool) (x y : Attempt A)
    → (b ≡ true → Gives P x)
    → (b ≡ false → Gives P y)
    → Gives P (if b then x else y)
Gives-if true x y h k = h refl
Gives-if false x y h k = k refl

pub Gives-going {ℓ} :
    {A : Type ℓ} {P : A → Type 0} {m : Attempt A} → Gives P m → (a : A) → m ≡ going a → P a
Gives-going (stops failure) a e = absurd (cc e)
Gives-going {P} (gives b h) a e = (let same : b ≡ a = cc e in subst P same h)

pub all-append {ℓ} :
    {A : Type ℓ} (p : A → Bool) (xs ys : List A) → all p (xs ++ ys) ≡ (all p xs && all p ys)
unfolding all
all-append p [] ys = refl
all-append p (x ∷ xs) ys = ground (arith, all-append p xs ys)

pub unknown_valid : valid_optional_text (text "unknown") 256 ≡ true
unfolding valid_optional_text valid_text trim_space drop_spaces contains_control any is_control
    text_dec ℕ_discrete
unknown_valid = refl

pub collection_error_kind_valid :
    (kind : Option Text) → valid_optional_text (collection_error_kind kind) 256 ≡ true
unfolding collection_error_kind
collection_error_kind_valid none = unknown_valid
collection_error_kind_valid (some kind) =
    elim (Bool-cases (valid_optional_text (trim_space kind) 256 && not (trim_space kind =? []))) [
      | inl b ↦ rw (b, collection_error_kind) (ground arith)
      | inr b ↦ rw (b, collection_error_kind) unknown_valid
    ]

pub empty_valid : valid_optional_text [] 256 ≡ true
unfolding valid_optional_text text_dec
empty_valid = refl

pub not_observed_valid :
    (s : Scope)
    → valid_scope s ≡ true
    → s.not_observed ≡ true
    → valid_coverage (scope_coverage s s.account_id not_observed s.reason) ≡ true
unfolding valid_scope valid_coverage valid_status
not_observed_valid s h n = ground arith

-- What a valid scope says of its parts.
pub record HasParts (s : Scope) : Type 0 where
  pub profile : valid_text s.profile 256 ≡ true
  pub account : s.account_id =? [] || is_account_id s.account_id ≡ true
  pub region : valid_region s.region ≡ true
  pub service : valid_text s.service 128 ≡ true

pub valid_scope-HasParts : (s : Scope) → valid_scope s ≡ true → HasParts s
unfolding valid_scope
valid_scope-HasParts s h =
    let (profile, account, region, service) =
      parts (valid_text s.profile 256) (s.account_id =? [] || is_account_id s.account_id)
        (valid_region s.region) (valid_text s.service 128) _ h in
    record { profile = profile; account = account; region = region; service = service }
  where
    parts :
        (a b c d e : Bool)
        → a && (b && (c && (d && e))) ≡ true
        → (a ≡ true) × (b ≡ true) × (c ≡ true) × (d ≡ true)
    parts a b c d e h = ground arith

-- A row of a valid scope.
pub row_valid :
    (s : Scope) (account : Text) (status : CoverageStatus) (kind : Text)
    → valid_scope s ≡ true
    → is_account_id account || (not (is_succeeded status) && account =? []) ≡ true
    → valid_status status ≡ true
    → valid_optional_text kind 256 ≡ true
    → is_succeeded status && not (kind =? []) ≡ false
    → valid_coverage (scope_coverage s account status kind) ≡ true
unfolding valid_coverage
row_valid s account status kind h a v k n =
    let p = valid_scope-HasParts s h in rw (p.profile, a, p.region, p.service, v, k, n) refl

pub wrong_account-is_account_id :
    (s : Scope) (account : Text) → wrong_account s account ≡ false → is_account_id account ≡ true
unfolding wrong_account
wrong_account-is_account_id s account w = left (is_account_id account) _ w
  where
    left : (a b : Bool) → not a || b ≡ false → a ≡ true
    left a b h = ground arith

pub failed_account :
    (s : Scope) (account : Text)
    → valid_scope s ≡ true
    → not (account =? []) && wrong_account s account ≡ false
    → (let given = if account =? [] then s.account_id else account in
        is_account_id given || (true && given =? []))
      ≡ true
failed_account s account h w = elim (Bool-cases (account =? [])) [
  | inl b ↦
      rw b
        (swap (s.account_id =? []) (is_account_id s.account_id) (valid_scope-HasParts s h).account)
  | inr b ↦ rw b (rw (wrong_account-is_account_id s account (rw b at w)) refl)
]
  where
    swap : (a b : Bool) → a || b ≡ true → b || (true && a) ≡ true
    swap a b h = ground arith

pub failed_valid :
    (s : Scope) (account : Text) (kind : Option Text)
    → valid_scope s ≡ true
    → not (account =? []) && wrong_account s account ≡ false
    → valid_coverage (
        scope_coverage s
          (if account =? [] then s.account_id else account)
          failed
          (collection_error_kind kind))
      ≡ true
unfolding valid_status
failed_valid s account kind h w =
    row_valid s _ failed _ h (failed_account s account h w) refl (collection_error_kind_valid kind)
      refl

pub collected_valid :
    (s : Scope) (account : Text)
    → valid_scope s ≡ true
    → wrong_account s account ≡ false
    → valid_coverage (scope_coverage s account succeeded []) ≡ true
unfolding valid_status text_dec
collected_valid s account h w =
    row_valid s account succeeded [] h (rw (wrong_account-is_account_id s account w) refl) refl
      empty_valid refl

pub supplements_valid :
    (s : Scope) (cs : List Coverage)
    → any (wrong_supplement s) cs ≡ false
    → all valid_coverage cs ≡ true
unfolding any all wrong_supplement
supplements_valid s [] h = refl
supplements_valid s (c ∷ cs) h = ground (arith, supplements_valid s cs)

pub observe_valid :
    (s : Scope) (account : Text) (t : Time) (rs : List Resource)
    → valid_scope s ≡ true
    → wrong_account s account ≡ false
    → t ≢ 0
    → all valid_resource rs ≡ true
    → all valid_observation (observe s account t rs) ≡ true
unfolding all observe valid_observation valid_resource valid_scope wrong_account
observe_valid s account t [] h w n r = refl
observe_valid s account t (x ∷ rs) h w n r = ground (arith, observe_valid s account t rs)

pub Gives-both {ℓ} :
    {A : Type ℓ} {P Q : A → Type 0} {m : Attempt A}
    → Gives P m
    → Gives Q m
    → Gives (λ a. P a × Q a) m
Gives-both (stops failure) q = stops failure
Gives-both (gives a h) q = gives a (h, Gives-going q a refl)
