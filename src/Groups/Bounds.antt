-- ===== src/Groups/Bounds.antt =====
-- How many regions a region set of a request can name, and which. context_groups.go
-- (ParseRegionSet, CanonicalRegionSet), in internal/bb/awsbrowser.
use binbox_cli.Base.{
  ◌≡◌, ◌≤◌, ap, subst, not, ◌||◌, List, [], ◌∷◌, inl, inr, arith, Bool-cases, length, ltb, ◌==◌,
  All, if◌then◌else◌,
}
use binbox_cli.Errors.{Result, ok, err, bind_ok, invalid_context_groups}
use binbox_cli.Text.{Text, ◌=?◌}
use binbox_cli.Text.Split.{split}
use binbox_cli.Groups.{
  validate_context_selection, contains_string, distinct_regions, canonical_region_set,
  parse_region_set, max_group_regions,
}
use binbox_cli.Groups.Regions.{IsRegion}

-- The loop of `CanonicalRegionSet` looks at every region, also at one it drops.
distinct_regions_checked :
    (xs seen ys : List Text) → distinct_regions seen xs ≡ ok ys → All IsRegion xs
unfolding distinct_regions
distinct_regions_checked [] seen ys h = tt
distinct_regions_checked (x ∷ xs) seen ys h =
    elim (Bool-cases (not (validate_context_selection [] x) || x =? [])) [
      | inl b ↦ absurd (cc (rw b at h))
      | inr b ↦
          let good : IsRegion x = record {
            selected = ground (arith, b);
            nonempty = ground (arith, b);
          } in
          elim (Bool-cases (contains_string seen x)) [
            | inl c ↦ (good, distinct_regions_checked xs seen ys (rw (b, c) at h))
            | inr c ↦
                let (rest, r, e) = bind_ok (distinct_regions (x ∷ seen) xs) _ (rw (b, c) at h) in
                (good, distinct_regions_checked xs (x ∷ seen) rest r)
          ]
    ]

canonical_region_set_checked :
    (regions : List Text) (current value : Text)
    → canonical_region_set regions current ≡ ok value
    → (length regions ≤ max_group_regions) × All IsRegion regions
unfolding canonical_region_set
canonical_region_set_checked regions current value h =
    elim (Bool-cases (
      current =? []
      || (not (validate_context_selection [] current)
          || (length regions == 0 || ltb 16 (length regions))))) [
            | inl b ↦ absurd (cc (rw b at h))
            | inr b ↦
                let (set, d, e) = bind_ok (distinct_regions [] (current ∷ regions)) _ (rw b at h) in
                (ground (arith, b), (distinct_regions_checked (current ∷ regions) [] set d).1)
          ]

-- A set that is read is the text it was read from, cut at the commas.
read_canonical :
    (canonical : Result Text) (value : Text) (set : List Text)
    → (elim canonical [
      | err e ↦ err invalid_context_groups
      | ok c ↦ if not (c =? value) then err invalid_context_groups else ok (split b',' c)
    ])
      ≡ ok set
    → (canonical ≡ ok value) × (split b',' value ≡ set)
read_canonical (err e) value set h = absurd cc
read_canonical (ok c) value set h = elim (Bool-cases (c =? value)) [
  | inl b ↦
      let same : c ≡ value = ground arith in
      let cut : split b',' c ≡ set = cc (rw b at h) in
      (ap ok same, subst (λ (w : Text). split b',' w ≡ set) same cut)
  | inr b ↦ absurd (cc (rw b at h))
]

-- A region set that `ParseRegionSet` reads, whatever the text and the current region, names at
-- most 16 regions, and each is a region name that a context may select.
pub parse_region_set_bounded :
    (value current : Text) (set : List Text)
    → parse_region_set value current ≡ ok set
    → (length set ≤ max_group_regions) × All IsRegion set
unfolding parse_region_set
parse_region_set_bounded value current set h = elim (Bool-cases (value =? [])) [
  | inl b ↦
      let none_named : [] ≡ set = cc (rw b at h) in
      subst (λ (ys : List Text). (length ys ≤ max_group_regions) × All IsRegion ys) none_named
        (omega arith, tt)
  | inr b ↦
      let (c, cut) = read_canonical _ value set (rw b at h) in
      subst (λ (ys : List Text). (length ys ≤ max_group_regions) × All IsRegion ys) cut
        (canonical_region_set_checked (split b',' value) current value c)
]
