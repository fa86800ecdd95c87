-- ===== src/Session/Merge.antt =====
-- What `CompleteQuery` makes of the observations of the pages of a refresh: store.go. The pages
-- are a map, so the loop visits them in any order.
use mathlib.Core.List.Permᴰ
use mathlib.Core.List.{Mem, Permᴰ, mem-cons_self, mem-cons_of_mem}
use binbox_cli.Base.{
  ℕ, ◌≡◌, sym, ap, ◌∙◌, some, Option, List, [], ◌∷◌, arith, lookup, lookup-insert, Bool-cases, inl,
  inr, max, Map, refl, ◌⊎◌,
}
use binbox_cli.Identity.{Platform, ResourceKey}
use binbox_cli.Observation.{
  Time, ObservationProvenance, ResourceObservation, ObservedResource, QueryPage, stored_provenance,
  clone_observation,
}
use binbox_cli.Session.State.{SessionStore, resource_dec, provenance_dec, PageOrder}
use binbox_cli.Session.{observations_of, is_newest, upsert_observation, upsert_all, upsert_pages}
use binbox_cli.Session.Newest.{kept_time, newest_time, kept_time-upsert_all, observations-upsert}

-- The newest time among the observations of this key and provenance on all the pages of a map.
unfoldable pub newest_page_time :
    Platform → ResourceKey → ObservationProvenance → Map ℕ QueryPage → Time
newest_page_time env k p [] = 0
newest_page_time env k p ((n, page) ∷ pages) =
    max (newest_time env k p page.resources) (newest_page_time env k p pages)

newest_page_time-Permᴰ :
    (env : Platform) (k : ResourceKey) (p : ObservationProvenance) {m m' : Map ℕ QueryPage}
    → Permᴰ m m'
    → newest_page_time env k p m ≡ newest_page_time env k p m'
unfolding newest_page_time
newest_page_time-Permᴰ env k p Permᴰ.nil = refl
newest_page_time-Permᴰ env k p (Permᴰ.cons {a} {b} e h) = omega (
  arith,
  newest_page_time-Permᴰ env k p h,
  ap (λ (x : ℕ × QueryPage). newest_time env k p x.1.resources) e,
)
newest_page_time-Permᴰ env k p (Permᴰ.swap e e') = omega (
  arith,
  ap (λ (x : ℕ × QueryPage). newest_time env k p x.1.resources) e,
  ap (λ (x : ℕ × QueryPage). newest_time env k p x.1.resources) e',
)
newest_page_time-Permᴰ env k p (Permᴰ.trans h h') =
    newest_page_time-Permᴰ env k p h ∙ newest_page_time-Permᴰ env k p h'

-- The observation kept under a key and a provenance, if there is one.
unfoldable pub kept :
    SessionStore → ResourceKey → ObservationProvenance → Option ResourceObservation
kept store k p = lookup provenance_dec p (observations_of store k)

-- What is kept is what was kept before, or the copy of an observation of this key and provenance
-- that stands in a list.
pub data FromList (env : Platform) (before now : SessionStore) (k : ResourceKey)
    (p : ObservationProvenance) (rs : List ObservedResource) : Type 0 where
  unchanged : kept now k p ≡ kept before k p → FromList env before now k p rs
  replaced :
      (r : ObservedResource)
      → Mem r rs
      → r.key ≡ k
      → stored_provenance env r.observation ≡ p
      → kept now k p ≡ some (clone_observation env r.observation)
      → FromList env before now k p rs

-- The same, for the observations on the pages of a map.
pub data FromPages (env : Platform) (before now : SessionStore) (k : ResourceKey)
    (p : ObservationProvenance) (m : Map ℕ QueryPage) : Type 0 where
  unchanged : kept now k p ≡ kept before k p → FromPages env before now k p m
  replaced :
      (n : ℕ) (page : QueryPage) (r : ObservedResource)
      → Mem (n, page) m
      → Mem r page.resources
      → r.key ≡ k
      → stored_provenance env r.observation ≡ p
      → kept now k p ≡ some (clone_observation env r.observation)
      → FromPages env before now k p m

-- What is kept is a matter of the resources alone.
pub kept_time_same :
    (s s' : SessionStore)
    → s.resources ≡ s'.resources
    → (k : ResourceKey) (p : ObservationProvenance) → kept_time s k p ≡ kept_time s' k p
unfolding kept_time observations_of
kept_time_same s s' e k p = rw e refl

kept_same :
    (s s' : SessionStore)
    → s.resources ≡ s'.resources
    → (k : ResourceKey) (p : ObservationProvenance) → kept s k p ≡ kept s' k p
unfolding kept observations_of
kept_same s s' e k p = rw e refl

pub same-FromPages :
    (env : Platform) (m : Map ℕ QueryPage) (k : ResourceKey) (p : ObservationProvenance)
    {before before' now now' : SessionStore}
    → before'.resources ≡ before.resources
    → now.resources ≡ now'.resources
    → FromPages env before now k p m
    → FromPages env before' now' k p m
same-FromPages env m k p {before} {before'} {now} {now'} b n (FromPages.unchanged same) =
    FromPages.unchanged
      (sym (kept_same now now' n k p) ∙ same ∙ sym (kept_same before' before b k p))
same-FromPages env m k p {before} {before'} {now} {now'} b n
      (FromPages.replaced i page r x y e e' h) =
    FromPages.replaced i page r x y e e' (sym (kept_same now now' n k p) ∙ h)

module _ (env : Platform) where
  kept-upsert_observation :
      (store : SessionStore) (key k : ResourceKey) (p : ObservationProvenance)
      (o : ResourceObservation)
      → (kept (upsert_observation store env key o) k p ≡ kept store k p)
        ⊎ (key ≡ k)
          × (stored_provenance env o ≡ p)
          × (kept (upsert_observation store env key o) k p ≡ some (clone_observation env o))
  unfolding kept
  kept-upsert_observation store key k p o =
      let m = observations_of store key in
      let q = stored_provenance env o in
      elim (resource_dec key k) [
        | no e ↦ inl (ground (arith, observations-upsert env store key k o))
        | yes e ↦ elim (Bool-cases (is_newest m q o)) [
          | inr old ↦ inl (
              ground (
                arith,
                old,
                observations-upsert env store key k o,
                ap (λ i. lookup provenance_dec p (observations_of store i)) e,
              ))
          | inl new ↦ elim (provenance_dec q p) [
            | yes e' ↦ inr (
              e,
              e',
              ground (
                arith,
                new,
                observations-upsert env store key k o,
                lookup-insert provenance_dec q p (clone_observation env o) m,
              ),
            )
            | no e' ↦ inl (
                ground (
                  arith,
                  new,
                  observations-upsert env store key k o,
                  lookup-insert provenance_dec q p (clone_observation env o) m,
                  ap (λ i. lookup provenance_dec p (observations_of store i)) e,
                ))
          ]
        ]
      ]

  upsert_all-FromList :
      (rs : List ObservedResource) (store : SessionStore) (k : ResourceKey)
      (p : ObservationProvenance)
      → FromList env store (upsert_all store env rs) k p rs
  unfolding upsert_all
  upsert_all-FromList [] store k p = FromList.unchanged refl
  upsert_all-FromList (r ∷ rs) store k p =
      elim (upsert_all-FromList rs (upsert_observation store env r.key r.observation) k p) [
        | FromList.replaced r' m e e' h ↦ FromList.replaced r' (mem-cons_of_mem r m) e e' h
        | FromList.unchanged same ↦ elim (kept-upsert_observation store r.key k p r.observation) [
          | inl before ↦ FromList.unchanged (same ∙ before)
          | inr (e, e', h) ↦ FromList.replaced r mem-cons_self e e' (same ∙ h)
        ]
      ]

  upsert_pages-FromPages :
      (m : Map ℕ QueryPage) (store : SessionStore) (k : ResourceKey) (p : ObservationProvenance)
      → FromPages env store (upsert_pages store env m) k p m
  unfolding upsert_pages
  upsert_pages-FromPages [] store k p = FromPages.unchanged refl
  upsert_pages-FromPages ((n, page) ∷ m) store k p =
      elim (upsert_pages-FromPages m (upsert_all store env page.resources) k p) [
        | FromPages.replaced n' page' r i j e e' h ↦
            FromPages.replaced n' page' r (mem-cons_of_mem (n, page) i) j e e' h
        | FromPages.unchanged same ↦ elim (upsert_all-FromList page.resources store k p) [
          | FromList.unchanged before ↦ FromPages.unchanged (same ∙ before)
          | FromList.replaced r j e e' h ↦
              FromPages.replaced n page r mem-cons_self j e e' (same ∙ h)
        ]
      ]

  -- In whatever order the pages are visited, what is kept comes from them.
  pub visited-FromPages :
      (order : PageOrder) (m : Map ℕ QueryPage) (store : SessionStore) (k : ResourceKey)
      (p : ObservationProvenance)
      → FromPages env store (upsert_pages store env (order.visit m)) k p m
  visited-FromPages order m store k p = elim (upsert_pages-FromPages (order.visit m) store k p) [
    | FromPages.unchanged same ↦ FromPages.unchanged same
    | FromPages.replaced n page r i j e e' h ↦
        FromPages.replaced n page r (Permᴰ.mem (order.each_once m) i) j e e' h
  ]

  kept_time-upsert_pages :
      (m : Map ℕ QueryPage) (store : SessionStore) (k : ResourceKey) (p : ObservationProvenance)
      → kept_time (upsert_pages store env m) k p
        ≡ max (newest_page_time env k p m) (kept_time store k p)
  unfolding upsert_pages newest_page_time
  kept_time-upsert_pages [] store k p = omega arith
  kept_time-upsert_pages ((n, page) ∷ m) store k p = omega (
    arith,
    kept_time-upsert_pages m (upsert_all store env page.resources) k p,
    kept_time-upsert_all env page.resources store k p,
  )

  -- In whatever order the pages are visited, no observation on them is lost to an older one.
  pub kept_time_visited :
      (order : PageOrder) (m : Map ℕ QueryPage) (store : SessionStore) (k : ResourceKey)
      (p : ObservationProvenance)
      → kept_time (upsert_pages store env (order.visit m)) k p
        ≡ max (newest_page_time env k p m) (kept_time store k p)
  kept_time_visited order m store k p =
      kept_time-upsert_pages (order.visit m) store k p
      ∙ ap (λ t. max t (kept_time store k p)) (newest_page_time-Permᴰ env k p (order.each_once m))
