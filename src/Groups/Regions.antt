-- ===== src/Groups/Regions.antt =====
-- The round trip of a region set through `CanonicalRegionSet` and `ParseRegionSet`.
-- internal/bb/awsbrowser/context_groups.go.
use binbox_cli.Base.{
  ℕ, ◌+◌, ◌≡◌, ◌≢◌, ◌≤◌, refl, sym, ◌∙◌, ap, subst, Bool, true, false, not, ◌&&◌, ◌||◌, List, [],
  ◌∷◌, ◌++◌, inl, inr, arith, Bool-cases, length, ltb, ◌==◌, All, all, any,
}
use binbox_cli.Errors.{ok, bind_ok}
use binbox_cli.Text.{Text, ◌=?◌, trim_space}
use binbox_cli.Text.Split.{split, join, push_front, Lacks, split-join}
use binbox_cli.Identity.{is_region_name, region_words, is_profile_name, is_digit, is_word}
use binbox_cli.Groups.{
  validate_context_selection, contains_string, distinct_regions, canonical_region_set,
  parse_region_set,
}

-- A region that stands in a set.
pub record IsRegion (w : Text) : Type 0 where
  pub selected : validate_context_selection [] w ≡ true
  pub nonempty : (w =? []) ≡ false

-- A set that the loop returned is a fixed point of it, and holds regions only.
record Settled (seen ys : List Text) : Type 0 where
  again : distinct_regions seen ys ≡ ok ys
  regions : All IsRegion ys

cons-Settled :
    (seen : List Text) (x : Text) (xs : List Text)
    → (not (validate_context_selection [] x) || x =? []) ≡ false
    → contains_string seen x ≡ false
    → Settled (x ∷ seen) xs
    → Settled seen (x ∷ xs)
cons-Settled seen x xs b c s = record {
  again = unfold distinct_regions in rw (b, c, s.again) refl;
  regions = (record { selected = ground (arith, b); nonempty = ground (arith, b) }, s.regions);
}

distinct_regions-Settled :
    (xs seen : List Text) (ys : List Text) → distinct_regions seen xs ≡ ok ys → Settled seen ys
unfolding distinct_regions
distinct_regions-Settled [] seen [] h = record {
  again = unfold distinct_regions in refl;
  regions = tt;
}
distinct_regions-Settled [] seen (y ∷ ys) h = absurd cc
distinct_regions-Settled (x ∷ xs) seen ys h =
    elim (Bool-cases (not (validate_context_selection [] x) || x =? [])) [
      | inl b ↦ absurd (cc (rw b at h))
      | inr b ↦ elim (Bool-cases (contains_string seen x)) [
        | inl c ↦ distinct_regions-Settled xs seen ys (rw (b, c) at h)
        | inr c ↦
            let (rest, r, e) = bind_ok (distinct_regions (x ∷ seen) xs) _ (rw (b, c) at h) in
            let whole : x ∷ rest ≡ ys = cc in
            subst (Settled seen) whole
              (cons-Settled seen x rest b c (distinct_regions-Settled xs (x ∷ seen) rest r))
      ]
    ]

all-Lacks :
    (sep : ℕ) (test : ℕ → Bool) → test sep ≡ false → (w : Text) → all test w ≡ true → Lacks sep w
unfolding all
all-Lacks sep test f [] h = tt
all-Lacks sep test f (c ∷ w) h =
    (λ e. absurd (ground (arith, ap test e)), all-Lacks sep test f w (ground arith))

region_words-Lacks : (n : ℕ) (ws : List Text) → region_words n ws ≡ true → All (Lacks b',') ws
unfolding region_words
region_words-Lacks n [] h = tt
region_words-Lacks n (w ∷ []) h = (all-Lacks b',' is_digit refl w (ground arith), tt)
region_words-Lacks n (w ∷ v ∷ ws) h = (
  all-Lacks b',' is_word refl w (ground arith),
  region_words-Lacks (n + 1) (v ∷ ws) (ground arith),
)

push_front-Lacks :
    (sep c : ℕ) (ws : List Text)
    → All (Lacks sep) (push_front c ws)
    → (c ≢ sep) × All (Lacks sep) ws
unfolding push_front
push_front-Lacks sep c [] h = (h.0.0, tt)
push_front-Lacks sep c (w ∷ ws) h = (h.0.0, (h.0.1, h.1))

split-Lacks :
    (sep other : ℕ) → sep ≢ other → (w : Text) → All (Lacks other) (split sep w) → Lacks other w
unfolding split
split-Lacks sep other ne [] h = tt
split-Lacks sep other ne (c ∷ w) h = elim (Bool-cases (c == sep)) [
  | inl e ↦ let (a, b) = rw e at h in (λ x. ne (ground arith), split-Lacks sep other ne w b)
  | inr e ↦
      let (a, b) = push_front-Lacks other c (split sep w) (rw e at h) in
      (a, split-Lacks sep other ne w b)
]

is_region_name-Lacks : (w : Text) → is_region_name w ≡ true → Lacks b',' w
unfolding is_region_name
is_region_name-Lacks w h =
    split-Lacks b'-' b',' (omega arith) w (region_words-Lacks 0 (split b'-' w) h)

selected_name :
    (p t q empty long name : Bool)
    → not (p || (t || (q || (not empty && (long || not name))))) ≡ true
    → empty ≡ false
    → name ≡ true
selected_name p t q empty long name h e = ground arith

IsRegion-Lacks : (w : Text) → IsRegion w → Lacks b',' w
unfolding validate_context_selection
IsRegion-Lacks w r = is_region_name-Lacks w (
    selected_name (not ([] =? trim_space [])) (not (w =? trim_space w))
      (not ([] =? []) && not (is_profile_name [])) (w =? []) (ltb 64 (length w)) (is_region_name w)
      r.selected r.nonempty)

regions-Lacks : (ws : List Text) → All IsRegion ws → All (Lacks b',') ws
regions-Lacks [] h = tt
regions-Lacks (w ∷ ws) h = (IsRegion-Lacks w h.0, regions-Lacks ws h.1)

-- The loop keeps the current region in front.
first_kept :
    (current : Text) (regions ys : List Text)
    → distinct_regions [] (current ∷ regions) ≡ ok ys
    → (rest : List Text) × (current ∷ rest ≡ ys)
      × ((not (validate_context_selection [] current) || current =? []) ≡ false)
      × (distinct_regions (current ∷ []) regions ≡ ok rest)
unfolding distinct_regions contains_string any
first_kept current regions ys h =
    elim (Bool-cases (not (validate_context_selection [] current) || current =? [])) [
      | inl b ↦ absurd (cc (rw b at h))
      | inr b ↦
          let (rest, r, e) = bind_ok (distinct_regions (current ∷ []) regions) _ (rw b at h) in
          (rest, cc, b, r)
    ]

=?_false : (w : Text) → w ≢ [] → (w =? []) ≡ false
=?_false w h = ground arith

=?_true : (w : Text) → (w =? w) ≡ true
=?_true w = ground arith

-- The first of a set stands twice in front of the loop; the second is dropped.
again_first :
    (current : Text) (rest : List Text)
    → distinct_regions [] (current ∷ rest) ≡ ok (current ∷ rest)
    → distinct_regions [] (current ∷ current ∷ rest) ≡ ok (current ∷ rest)
unfolding distinct_regions contains_string any
again_first current rest h =
    let (rest', e, b, r) = first_kept current rest (current ∷ rest) h in
    let same : rest' ≡ rest = cc in rw (b, =?_true current, r, same) refl

append-ne-nil : (w v : Text) → w ≢ [] → w ++ v ≢ []
append-ne-nil [] v h = λ e. h refl
append-ne-nil (c ∷ w) v h = λ e. cc

join-ne-nil : (w : Text) (ws : List Text) → w ≢ [] → join b',' (w ∷ ws) ≢ []
unfolding join
join-ne-nil w [] h = h
join-ne-nil w (v ∷ ws) h = append-ne-nil w _ h

read_back :
    (current : Text) (rest : List Text)
    → distinct_regions [] (current ∷ rest) ≡ ok (current ∷ rest)
    → All IsRegion (current ∷ rest)
    → length (current ∷ rest) ≤ 16
    → parse_region_set (join b',' (current ∷ rest)) current ≡ ok (current ∷ rest)
unfolding parse_region_set canonical_region_set
read_back current rest again good l =
    let n : (join b',' (current ∷ rest) =? []) ≡ false =
      =?_false _ (join-ne-nil current rest (λ e. absurd (ground (arith, good.0.nonempty)))) in
    let short : ltb 16 (length (current ∷ rest)) ≡ false = ground arith in
    let some_regions : (length (current ∷ rest) == 0) ≡ false = ground arith in
    rw
      (
        n,
        split-join b',' current rest (regions-Lacks (current ∷ rest) good),
        good.0.nonempty,
        good.0.selected,
        some_regions,
        short,
        again_first current rest again,
        =?_true (join b',' (current ∷ rest)),
      )
      (ap ok (split-join b',' current rest (regions-Lacks (current ∷ rest) good)))

-- What is written is the joined set.
written :
    (regions : List Text) (current value : Text) (set ys : List Text)
    → distinct_regions [] (current ∷ regions) ≡ ok set
    → set ≡ ys
    → canonical_region_set regions current ≡ ok value
    → join b',' ys ≡ value
unfolding canonical_region_set
written regions current value set ys d same h =
    elim (Bool-cases (
      current =? []
      || (not (validate_context_selection [] current)
          || (length regions == 0 || ltb 16 (length regions))))) [
            | inl b ↦ absurd (cc (rw b at h))
            | inr b ↦
                let (set', d', e) =
                  bind_ok (distinct_regions [] (current ∷ regions)) _ (rw b at h) in
                let twice : set' ≡ ys = cc in
                let joined : join b',' set' ≡ value = cc in ap (join b',') (sym twice) ∙ joined
          ]

-- Where `CanonicalRegionSet` returns a value, and the loop in it collects at most 16 regions,
-- `ParseRegionSet` reads exactly these regions back from the value.
pub parse_region_set-canonical_region_set :
    (regions : List Text) (current value : Text) (set : List Text)
    → canonical_region_set regions current ≡ ok value
    → distinct_regions [] (current ∷ regions) ≡ ok set
    → length set ≤ 16
    → parse_region_set value current ≡ ok set
unfolding canonical_region_set
parse_region_set-canonical_region_set regions current value set h d l =
    let (rest, e, b, r) = first_kept current regions set d in
    let s : Settled [] (current ∷ rest) =
      subst (Settled []) (sym e) (distinct_regions-Settled (current ∷ regions) [] set d) in
    let v : join b',' (current ∷ rest) ≡ value =
      written regions current value set (current ∷ rest) d (sym e) h in
    let short : length (current ∷ rest) ≤ 16 =
      subst (λ (ys : List Text). length ys ≤ 16) (sym e) l in
    subst (λ (w : Text). parse_region_set w current ≡ ok set) v
      (subst (λ (ys : List Text). parse_region_set (join b',' (current ∷ rest)) current ≡ ok ys) e
        (read_back current rest s.again s.regions short))
