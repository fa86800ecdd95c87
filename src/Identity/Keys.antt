-- ===== src/Identity/Keys.antt =====
-- Query keys: `NewQueryKey`, `QueryKey.Validate` and the normal form of parameters.
-- internal/bb/awsbrowser/types.go.
use binbox_cli.Base.{
  Bool, true, false, not, ◌&&◌, ◌||◌, Option, none, some, List, [], ◌∷◌, ltb, ◌==◌, if◌then◌else◌,
  length, any,
}
use binbox_cli.Errors.{Error, Result, ok, err, invalid_query_key, ◌>>=◌}
use binbox_cli.Text.{Text, text, ◌=?◌, trim_space, contains_control}
use binbox_cli.Url.{Values, encode, parse_query}
use binbox_cli.Identity.{
  Platform, AwsContext, QueryKey, query_seal, is_none, valid_identifier, validate_context,
}

-- Removes the bytes that the replacer maps to nothing.
unfoldable pub strip_marks : Text → Text
strip_marks [] = []
strip_marks (c ∷ s) =
    let rest = strip_marks s in if c == b'-' || (c == b'_' || c == b'.') then rest else c ∷ rest

unfoldable pub starts_with : Text → Text → Bool
starts_with s [] = true
starts_with [] (p ∷ ps) = false
starts_with (c ∷ s) (p ∷ ps) = c == p && starts_with s ps

-- `strings.Contains`
unfoldable pub contains : Text → Text → Bool
contains [] part = starts_with [] part
contains (c ∷ s) part = starts_with (c ∷ s) part || contains s part

abbrev sensitive_fragments : List Text
sensitive_fragments =
    text "accesskey"
    ∷ text "secret"
    ∷ text "credential"
    ∷ text "password"
    ∷ text "authorization"
    ∷ text "sessiontoken"
    ∷ text "securitytoken"
    ∷ []

-- The order of `sort.Strings`.
unfoldable pub text_lt : Text → Text → Bool
text_lt [] [] = false
text_lt [] (d ∷ t) = true
text_lt (c ∷ s) [] = false
text_lt (c ∷ s) (d ∷ t) = ltb c d || (c == d && text_lt s t)

unfoldable pub insert_sorted : Text × Text → Values → Values
insert_sorted p [] = p ∷ []
insert_sorted p (q ∷ qs) = if text_lt q.0 p.0 then q ∷ insert_sorted p qs else p ∷ q ∷ qs

-- The parameters in the order of their names.
unfoldable pub sort_params : Values → Values
sort_params [] = []
sort_params (p ∷ ps) = insert_sorted p (sort_params ps)

-- Some name stands twice.
unfoldable pub repeats : Values → Bool
repeats [] = false
repeats (p ∷ ps) = any (λ q. q.0 =? p.0) ps || repeats ps

unfoldable pub bad_value : Text → Bool
bad_value value = ltb 4096 (length value) || contains_control value

module _ (env : Platform) where
  unfoldable pub sensitive_param_name : Text → Bool
  sensitive_param_name name =
      let normalized = strip_marks (env.to_lower name) in
      any (λ fragment. contains normalized fragment) sensitive_fragments
      || normalized =? text "token"

  unfoldable pub bad_name : Text → Bool
  bad_name name =
      not (trim_space name =? name) || (not (valid_identifier name) || sensitive_param_name name)

  -- `normalizeQueryParams`, on the entries of the map.
  unfoldable pub normalize_query_params : Values → Result Text
  normalize_query_params [] = ok []
  normalize_query_params (p ∷ ps) =
      if any (λ q. bad_name q.0) (p ∷ ps)
      then err invalid_query_key
      else (let sorted = sort_params (p ∷ ps) in
          if any (λ q. bad_value q.1) sorted then err invalid_query_key else ok (encode sorted))

  unfoldable pub new_query_key : AwsContext → (provider operation : Text) → Values → Result QueryKey
  new_query_key c provider operation params =
      if not (is_none (validate_context env c))
        || (not (valid_identifier provider) || not (valid_identifier operation))
      then err invalid_query_key
      else (do
        params_key ← normalize_query_params params
        let key : QueryKey = record {
          context = c;
          provider = env.to_lower (trim_space provider);
          operation = trim_space operation;
          params_key = params_key;
          seal = [];
        }
        ok (record key { seal = query_seal key }))

  -- The second half of `QueryKey.Validate`: the parameters are in normal form.
  unfoldable pub validate_params : Text → Option Error
  validate_params params_key = elim (parse_query params_key) [
    | none ↦ some invalid_query_key
    | some params ↦
        if repeats params then some invalid_query_key else elim (normalize_query_params params) [
          | err e ↦ some invalid_query_key
          | ok canonical ↦ if not (canonical =? params_key) then some invalid_query_key else none
        ]
  ]

  unfoldable pub validate_query_key : QueryKey → Option Error
  validate_query_key k =
      if not (is_none (validate_context env k.context))
        || (k.seal =? []
            || (not (k.seal =? query_seal k)
                || (not (valid_identifier k.provider) || not (valid_identifier k.operation))))
      then some invalid_query_key
      else validate_params k.params_key
