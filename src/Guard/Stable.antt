-- ===== src/Guard/Stable.antt =====
-- What a guarded read commits: a value read wholly under one verified identity.
use binbox_cli.Base.{
  ℕ, ◌≡◌, ◌⊎◌, refl, ◌∙◌, ap, Bool, true, false, not, ◌||◌, Option, none, some, inl, inr, arith,
  Bool-cases, Option-cases, if◌then◌else◌, ◌==◌,
}
use binbox_cli.Errors.{Error, Result, ok, err, context_changed}
use binbox_cli.Text.{◌=?◌}
use binbox_cli.Identity.{Platform, VerifiedIdentity}
use binbox_cli.Guard.{
  Sdk, GuardState, validate_read_identity, is_expired_token, verified_identity, accept_identity,
  revalidate, ensure_current_identity, refresh_and_revalidate, commit_stable_response, read_again,
  then_read_again, read_once, guarded_read,
}

Result-cases {ℓ} :
    {A : Type ℓ} (r : Result A) → ((e : Error) × (r ≡ err e)) ⊎ ((a : A) × (r ≡ ok a))
Result-cases (err e) = inl (e, refl)
Result-cases (ok a) = inr (a, refl)

-- The account and the partition of the guard's identity.
pub record SameAccount (before after : GuardState) : Type 0 where
  pub account : after.identity.account_id ≡ before.identity.account_id
  pub partition : after.identity.partition ≡ before.identity.partition

module _ {W T : Type 0} (env : Platform) (sdk : Sdk W T) where
  -- A returned value is the answer of one read; the generation right behind that read is the one
  -- of the guard's identity, which satisfies the bound identity and was not refuted.
  pub record Committed (bound : Option VerifiedIdentity) (value : T) (g : GuardState) (w : W)
      : Type 0 where
    pub before : W
    pub after : W
    pub answered : sdk.read before ≡ (ok value, after)
    pub stable : sdk.generation after ≡ (g.identity.credential_generation, w)
    pub allowed : validate_read_identity bound g.identity ≡ none
    pub trusted : g.changed ≡ false

  -- An error commits nothing.
  pub Commits : Option VerifiedIdentity → Result T × (GuardState × W) → Type 0
  Commits bound (err e, s) = Unit
  Commits bound (ok value, (g, w)) = Committed bound value g w

  -- A check keeps the account, and where it passes, the flag.
  record Checked (g : GuardState) (r : Option Error × (GuardState × W)) : Type 0 where
    same : SameAccount g r.1.0
    flag : r.0 ≡ none → r.1.0.changed ≡ g.changed

  kept : (g : GuardState) (e : Option Error) (w : W) → Checked g (e, (g, w))
  kept g e w = record { same = record { account = refl; partition = refl }; flag = λ h. refl }

  accept-Checked :
      (g : GuardState) (actual : VerifiedIdentity) (w : W)
      → Checked g (
        (accept_identity env sdk g.identity actual g).0,
        ((accept_identity env sdk g.identity actual g).1, w),
      )
  unfolding accept_identity
  accept-Checked g actual w =
      elim (Bool-cases (
        not (actual.account_id =? g.identity.account_id)
        || not (actual.partition =? g.identity.partition))) [
          | inl b ↦
              rw b (record {
                same = record { account = refl; partition = refl };
                flag = λ h. absurd cc;
              })
          | inr b ↦ rw b (record {
            same = record { account = ground (arith, b); partition = ground (arith, b) };
            flag = λ h. refl;
          })
        ]

  revalidate-Checked : (g : GuardState) (w : W) → Checked g (revalidate env sdk g.identity g w)
  unfolding revalidate
  revalidate-Checked g w = elim (Result-cases (sdk.caller_identity w).0) [
    | inl (e, c) ↦ rw (c, revalidate) (kept g (some e) _)
    | inr (output, c) ↦
        let w' = (sdk.caller_identity w).1 in
        elim (Result-cases (verified_identity env output (sdk.generation w').0)) [
          | inl (e, v) ↦ rw (c, revalidate, v) (kept g (some e) _)
          | inr (actual, v) ↦ rw (c, revalidate, v) (accept-Checked g actual _)
        ]
  ]

  refresh-Checked :
      (g : GuardState) (w : W) → Checked g (refresh_and_revalidate env sdk g.identity g w)
  unfolding refresh_and_revalidate
  refresh-Checked g w = elim (Option-cases (sdk.retrieve w).0) [
    | inl n ↦ rw (n, refresh_and_revalidate) (revalidate-Checked g _)
    | inr (e, s) ↦ rw (s, refresh_and_revalidate) (kept g (some e) _)
  ]

  -- An answer that keeps the account and commits only what the guard allows.
  record Sound (bound : Option VerifiedIdentity) (g : GuardState) (r : Result T × (GuardState × W))
      : Type 0 where
    same : SameAccount g r.1.0
    commits : Commits bound r

  failed-Sound :
      (bound : Option VerifiedIdentity) (g : GuardState) (e : Error) (s : GuardState × W)
      → SameAccount g s.0
      → Sound bound g (err e, s)
  failed-Sound bound g e s h = record { same = h; commits = unfold Commits in tt }

  self : (g : GuardState) → SameAccount g g
  self g = record { account = refl; partition = refl }

  stable-Sound :
      (bound : Option VerifiedIdentity) (g : GuardState) (value : T) (before after : W)
      → sdk.read before ≡ (ok value, after)
      → (sdk.generation after).0 ≡ g.identity.credential_generation
      → validate_read_identity bound g.identity ≡ none
      → g.changed ≡ false
      → Sound bound g (ok value, (g, (sdk.generation after).1))
  stable-Sound bound g value before after r s v c = record {
    same = self g;
    commits =
        unfold Commits in
        record {
          before = before;
          after = after;
          answered = r;
          stable = ap (λ (n : ℕ). (n, (sdk.generation after).1)) s;
          allowed = v;
          trusted = c;
        };
  }

  pair_eq : {A B : Type 0} (p : A × B) (a : A) → p.0 ≡ a → p ≡ (a, p.1)
  pair_eq p a h = cc

  commit-Sound :
      (bound : Option VerifiedIdentity) (g : GuardState) (value : T) (before after : W)
      → sdk.read before ≡ (ok value, after)
      → validate_read_identity bound g.identity ≡ none
      → g.changed ≡ false
      → Sound bound g (commit_stable_response env sdk g.identity value g after)
  unfolding commit_stable_response
  commit-Sound bound g value before after r v c =
      elim (Bool-cases ((sdk.generation after).0 == g.identity.credential_generation)) [
        | inl b ↦ rw b (stable-Sound bound g value before after r (ground (arith, b)) v c)
        | inr b ↦
            let check = revalidate-Checked g (sdk.generation after).1 in
            elim (Option-cases (revalidate env sdk g.identity g (sdk.generation after).1).0) [
              | inl n ↦ rw (b, n) (failed-Sound bound g context_changed _ check.same)
              | inr (e, s) ↦ rw (b, s) (failed-Sound bound g e _ check.same)
            ]
      ]

  read_again-Sound :
      (bound : Option VerifiedIdentity) (g : GuardState) (w : W)
      → g.changed ≡ false
      → Sound bound g (read_again env sdk bound g w)
  unfolding read_again
  read_again-Sound bound g w c = elim (Option-cases (validate_read_identity bound g.identity)) [
    | inr (e, s) ↦ rw (s, read_again) (failed-Sound bound g e _ (self g))
    | inl v ↦ elim (Result-cases (sdk.read w).0) [
      | inl (e, r) ↦ rw (v, read_again, r) (failed-Sound bound g e _ (self g))
      | inr (value, r) ↦
          rw (v, read_again, r)
            (commit-Sound bound g value w _ (pair_eq (sdk.read w) (ok value) r) v c)
    ]
  ]

  through : {a b c : GuardState} → SameAccount a b → SameAccount b c → SameAccount a c
  through p q = record { account = q.account ∙ p.account; partition = q.partition ∙ p.partition }

  then_read_again-Sound :
      (bound : Option VerifiedIdentity) (g : GuardState) (r : Option Error × (GuardState × W))
      → g.changed ≡ false
      → Checked g r
      → Sound bound g (then_read_again env sdk bound r)
  unfolding then_read_again
  then_read_again-Sound bound g (some e, s) c h = failed-Sound bound g e s h.same
  then_read_again-Sound bound g (none, (g', w)) c h =
      let s = read_again-Sound bound g' w (h.flag refl ∙ c) in
      record { same = through h.same s.same; commits = s.commits }

  read_once-Sound :
      (bound : Option VerifiedIdentity) (g : GuardState) (w : W)
      → validate_read_identity bound g.identity ≡ none
      → g.changed ≡ false
      → Sound bound g (read_once env sdk bound g w)
  unfolding read_once
  read_once-Sound bound g w v c = elim (Result-cases (sdk.read w).0) [
    | inl (e, r) ↦ elim (Bool-cases (not (is_expired_token e))) [
      | inl b ↦ rw (r, read_once, b) (failed-Sound bound g e _ (self g))
      | inr b ↦
          rw (r, read_once, b)
            (then_read_again-Sound bound g _ c (refresh-Checked g (sdk.read w).1))
    ]
    | inr (value, r) ↦
        elim (Bool-cases ((sdk.generation (sdk.read w).1).0 == g.identity.credential_generation)) [
          | inl b ↦
              rw (r, read_once, b)
                (stable-Sound bound g value w _ (pair_eq (sdk.read w) (ok value) r)
                  (ground (arith, b)) v c)
          | inr b ↦
              rw (r, read_once, b)
                (then_read_again-Sound bound g _ c
                  (revalidate-Checked g (sdk.generation (sdk.read w).1).1))
        ]
  ]

  current-Checked : (g : GuardState) (w : W) → Checked g (ensure_current_identity env sdk g w)
  unfolding ensure_current_identity
  current-Checked g w = branch w g.changed (some context_changed) (
      branch _ ((sdk.generation w).0 == g.identity.credential_generation) none
        (revalidate-Checked g _))
    where
      branch :
          {r : Option Error × (GuardState × W)} (w' : W) (b : Bool) (e : Option Error)
          → Checked g r
          → Checked g (if b then (e, (g, w')) else r)
      branch w' true e h = kept g e _
      branch w' false e h = h

  current_unchanged :
      (g : GuardState) (w : W) → (ensure_current_identity env sdk g w).0 ≡ none → g.changed ≡ false
  unfolding ensure_current_identity
  current_unchanged g w h = elim (Bool-cases g.changed) [
    | inl b ↦ absurd (cc (rw (b, ensure_current_identity) at h))
    | inr b ↦ b
  ]

  -- A guarded read, whatever AWS answers and whenever credentials are renewed: the account and the
  -- partition of the guard's identity stay. A value that it returns was answered by one read, right
  -- behind which the credential generation was that of the guard's identity; that identity is the
  -- one bound to the read, where one is bound, and the guard was not found to have changed.
  pub guarded_read_stable :
      (canceled : Option Error) (bound : Option VerifiedIdentity) (g : GuardState) (w : W)
      → SameAccount g (guarded_read env sdk canceled bound g w).1.0
        × Commits bound (guarded_read env sdk canceled bound g w)
  unfolding guarded_read
  guarded_read_stable (some e) bound g w = (self g, unfold Commits in tt)
  guarded_read_stable none bound g w =
      let check = current-Checked g w in
      let g' = (ensure_current_identity env sdk g w).1.0 in
      let w' = (ensure_current_identity env sdk g w).1.1 in
      elim (Option-cases (ensure_current_identity env sdk g w).0) [
        | inr (e, s) ↦ rw (s, guarded_read) ((check.same, unfold Commits in tt))
        | inl n ↦ elim (Option-cases (validate_read_identity bound g'.identity)) [
          | inr (e, s) ↦ rw (n, guarded_read, s) ((check.same, unfold Commits in tt))
          | inl v ↦
              let s = read_once-Sound bound g' w' v (check.flag n ∙ current_unchanged g w n) in
              rw (n, guarded_read, v) ((through check.same s.same, s.commits))
        ]
      ]
