-- ===== src/Coordinator/Forget.antt =====
-- What `delete(coordinator.flights, flight.key)` under its test leaves.
use binbox_cli.Base.{
  ℕ, ◌≡◌, ◌≢◌, sym, ◌∙◌, subst, none, some, arith, Bool-cases, Option-cases, inl, inr, ◌==◌, lookup,
  Map, delete, Distinct, lookup-delete_same, lookup-delete_other, delete-Distinct,
}
use binbox_cli.Identity.{QueryKey}
use binbox_cli.Session.State.{query_dec}
use binbox_cli.Coordinator.{forgotten}

-- The entries without that of a flight.
module _ (flights : Map QueryKey ℕ) (id : ℕ) (key : QueryKey) where
  pub forgotten-Distinct : Distinct flights → Distinct (forgotten flights id key)
  unfolding forgotten
  forgotten-Distinct d = elim (Option-cases (lookup query_dec key flights)) [
    | inl n ↦ rw (n, forgotten) d
    | inr (j, e) ↦ elim (Bool-cases (j == id)) [
      | inl b ↦ rw (e, forgotten, b) (delete-Distinct query_dec key flights d)
      | inr b ↦ rw (e, forgotten, b) d
    ]
  ]

  lookup-delete_found :
      (k : QueryKey) (j : ℕ)
      → lookup query_dec k (delete query_dec key flights) ≡ some j
      → (key ≢ k) × (lookup query_dec k flights ≡ some j)
  lookup-delete_found k j h = elim (query_dec key k) [
    | yes e ↦ absurd (
        cc (
          h,
          subst (λ x. lookup query_dec x (delete query_dec key flights) ≡ none) e
              (lookup-delete_same query_dec key flights),
        ))
    | no e ↦ (e, sym (lookup-delete_other query_dec key k flights e) ∙ h)
  ]

  -- What is left was there, and is not the flight's own entry.
  pub forgotten_found :
      (k : QueryKey) (j : ℕ)
      → lookup query_dec k (forgotten flights id key) ≡ some j
      → (lookup query_dec k flights ≡ some j) × (j ≡ id → key ≢ k)
  unfolding forgotten
  forgotten_found k j h = elim (Option-cases (lookup query_dec key flights)) [
    | inl n ↦
        let there = rw (n, forgotten) at h in
        (
          there,
          λ own e. absurd (cc (n, subst (λ x. lookup query_dec x flights ≡ some j) (sym e) there)),
        )
    | inr (i, e) ↦ elim (Bool-cases (i == id)) [
      | inl b ↦
          let (other, there) = lookup-delete_found k j (rw (e, forgotten, b) at h) in
          (there, λ own. other)
      | inr b ↦
          let there = rw (e, forgotten, b) at h in
          (
            there,
            λ own same.
                let mine : some i ≡ some j =
                  sym e ∙ subst (λ x. lookup query_dec x flights ≡ some j) (sym same) there in
                absurd (ground (arith, mine, own)),
          )
    ]
  ]

  -- The other entries stay.
  pub forgotten_others :
      (k : QueryKey) (j : ℕ)
      → lookup query_dec k flights ≡ some j
      → j ≢ id
      → lookup query_dec k (forgotten flights id key) ≡ some j
  unfolding forgotten
  forgotten_others k j h n = elim (Option-cases (lookup query_dec key flights)) [
    | inl z ↦ rw (z, forgotten) h
    | inr (i, e) ↦ elim (Bool-cases (i == id)) [
      | inl b ↦
          rw (e, forgotten, b)
            (lookup-delete_other query_dec key k flights (λ same.
                let mine : some i ≡ some j =
                  sym e ∙ subst (λ x. lookup query_dec x flights ≡ some j) (sym same) h in
                n (ground (arith, mine, b)))
              ∙ h)
      | inr b ↦ rw (e, forgotten, b) h
    ]
  ]
