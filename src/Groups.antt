-- ===== src/Groups.antt =====
-- Context groups and region sets. internal/bb/awsbrowser/context_groups.go and messages.go.
-- A document is what the JSON decoder gives; its version is only compared with 1.
pub mod Regions
pub mod Bounds
use binbox_cli.Base.{
  ℕ, zero, suc, ◌+◌, Bool, true, false, not, ◌&&◌, ◌||◌, Option, none, some, List, [], ◌∷◌, ltb,
  ◌==◌, if◌then◌else◌, length, any,
}
use binbox_cli.Errors.{Result, ok, err, ◌>>=◌, invalid_context_groups}
use binbox_cli.Text.{Text, ◌=?◌, trim_space, contains_control}
use binbox_cli.Text.Split.{split, join}
use binbox_cli.Identity.{Platform, is_profile_name, is_region_name}

abbrev pub max_context_groups : ℕ
max_context_groups = 32

abbrev pub max_group_profiles : ℕ
max_group_profiles = 64

abbrev pub max_group_regions : ℕ
max_group_regions = 16

pub record ContextGroup : Type 0 where
  pub name : Text
  pub profiles : List Text
  pub regions : List Text
  pub default_profile : Text
  pub default_region : Text

-- `ValidateContextSelection(profile, region) == nil`
unfoldable pub validate_context_selection : (profile region : Text) → Bool
validate_context_selection profile region = not (
    not (profile =? trim_space profile)
    || (not (region =? trim_space region)
        || ((not (profile =? []) && not (is_profile_name profile))
            || (not (region =? []) && (ltb 64 (length region) || not (is_region_name region))))))

-- `containsString`; also a lookup in a map from strings to true.
unfoldable pub contains_string : List Text → Text → Bool
contains_string values target = any (λ v. v =? target) values

-- `canonicalContextValues`, with the values seen so far.
unfoldable pub canonical_context_values : (Text → Bool) → List Text → List Text → Result (List Text)
canonical_context_values valid seen [] = ok []
canonical_context_values valid seen (value ∷ values) =
    if not (valid value) || contains_string seen value
    then err invalid_context_groups
    else (do rest ← canonical_context_values valid (value ∷ seen) values; ok (value ∷ rest))

-- The loop of `currentFirst`.
unfoldable pub others : List Text → Text → List Text
others [] current = []
others (value ∷ values) current =
    let rest = others values current in if not (value =? current) then value ∷ rest else rest

unfoldable pub current_first : List Text → Text → List Text
current_first values current =
    if not (current =? []) && contains_string values current
    then current ∷ others values current
    else others values current

abbrev pub valid_profile : Text → Bool
valid_profile value = validate_context_selection value [] && not (value =? [])

abbrev pub valid_region : Text → Bool
valid_region value = validate_context_selection [] value && not (value =? [])

-- `values[0]` where the value is empty; the lists that reach it are not.
unfoldable pub or_first : Text → List Text → Text
or_first value [] = value
or_first value (first ∷ rest) = if value =? [] then first else value

unfoldable pub normalize_context_group : ContextGroup → Result ContextGroup
normalize_context_group group =
    let name = trim_space group.name in
    if name =? []
      || (ltb 64 (length name)
          || (contains_control name
              || (length group.profiles == 0
                  || (ltb max_group_profiles (length group.profiles)
                      || (length group.regions == 0
                          || ltb max_group_regions (length group.regions))))))
    then err invalid_context_groups
    else (do
      profiles ← canonical_context_values valid_profile [] group.profiles
      regions ← canonical_context_values valid_region [] group.regions
      let default_profile = or_first group.default_profile profiles
      let default_region = or_first group.default_region regions
      if not (contains_string profiles default_profile)
            || not (contains_string regions default_region)
          then err invalid_context_groups
          else ok (record {
            name = name;
            profiles = current_first profiles default_profile;
            regions = current_first regions default_region;
            default_profile = default_profile;
            default_region = default_region;
          }))

-- The inner loop of `LoadContextGroups`: the profiles seen, or nothing at a repetition.
unfoldable pub add_profiles : List Text → List Text → Option (List Text)
add_profiles seen [] = some seen
add_profiles seen (p ∷ ps) =
    let rest = add_profiles (p ∷ seen) ps in if contains_string seen p then none else rest

module _ (env : Platform) where
  -- The loop of `LoadContextGroups` over the groups of the document.
  unfoldable pub check_groups :
      (seen_names seen_profiles : List Text) → List ContextGroup → Result (List ContextGroup)
  check_groups seen_names seen_profiles [] = ok []
  check_groups seen_names seen_profiles (group ∷ groups) = do
    normalized ← normalize_context_group group
    if contains_string seen_names (env.to_lower normalized.name)
        then err invalid_context_groups
        else elim (add_profiles seen_profiles normalized.profiles) [
          | none ↦ err invalid_context_groups
          | some seen ↦ (do
            rest ← check_groups (env.to_lower normalized.name ∷ seen_names) seen groups
            ok (normalized ∷ rest))
        ]

  -- `LoadContextGroups` behind the decoder.
  unfoldable pub load_context_groups :
      (version : ℕ) → List ContextGroup → Result (List ContextGroup)
  load_context_groups version groups =
      if not (version == 1) || ltb max_context_groups (length groups)
      then err invalid_context_groups
      else check_groups [] [] groups

-- The loop of `CanonicalRegionSet`, with the regions seen so far.
unfoldable pub distinct_regions : List Text → List Text → Result (List Text)
distinct_regions seen [] = ok []
distinct_regions seen (region ∷ regions) =
    if not (validate_context_selection [] region) || region =? []
    then err invalid_context_groups
    else elim (contains_string seen region) [
      | true ↦ distinct_regions seen regions
      | false ↦ (do rest ← distinct_regions (region ∷ seen) regions; ok (region ∷ rest))
    ]

unfoldable pub canonical_region_set : List Text → Text → Result Text
canonical_region_set regions current =
    if current =? []
      || (not (validate_context_selection [] current)
          || (length regions == 0 || ltb max_group_regions (length regions)))
    then err invalid_context_groups
    else (do validated ← distinct_regions [] (current ∷ regions); ok (join b',' validated))

unfoldable pub parse_region_set : (value current : Text) → Result (List Text)
parse_region_set value current =
    if value =? [] then ok [] else elim (canonical_region_set (split b',' value) current) [
      | err e ↦ err invalid_context_groups
      | ok canonical ↦
          if not (canonical =? value) then err invalid_context_groups else ok (split b',' canonical)
    ]
