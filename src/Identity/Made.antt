-- ===== src/Identity/Made.antt =====
-- What the constructors of contexts and keys return passes validation.
use binbox_cli.Base.{
  ◌≡◌, ◌≢◌, refl, sym, ◌∙◌, ap, subst, Bool, true, false, not, ◌||◌, ◌&&◌, Option, none, some, List,
  [], ◌∷◌, ◌++◌, arith, if◌then◌else◌, length,
}
use binbox_cli.Errors.{Error, ok, err, invalid_aws_context, invalid_resource_key}
use binbox_cli.Text.{
  Text, ◌=?◌, text_dec, trim_space, decimal, join_identity_parts, contains_control,
}
use binbox_cli.Text.Trim.{trim_space-trim_space}
use binbox_cli.Identity.{
  Platform, ContextSpec, VerifiedIdentity, AwsContext, ResourceKey, context_seal, resource_seal,
  new_aws_context, validate_context, validate_context_spec, valid_verified_identity, is_none,
  is_partition, is_account_id, valid_region_scope, valid_identifier, valid_resource_id,
  new_canonical_resource_key, new_resource_key, validate_resource_key, global_region,
  is_region_name, SpecError,
}

decimal_part-ne-nil : (w s : Text) → w ++ (b':' ∷ s) ≢ []
decimal_part-ne-nil [] s = λ e. cc
decimal_part-ne-nil (c ∷ w) s = λ e. cc

join_identity_parts-ne-nil : (p : Text) (ps : List Text) → join_identity_parts (p ∷ ps) ≢ []
unfolding join_identity_parts
join_identity_parts-ne-nil p ps = decimal_part-ne-nil (decimal (length p)) _

guard_ok {ℓ} :
    {A : Type ℓ} (b : Bool) (e : Error) (a x : A)
    → (if b then err e else ok a) ≡ ok x
    → (b ≡ false) × (a ≡ x)
guard_ok true e a x h = cc
guard_ok false e a x h = (refl, cc)

context_seal-ne-nil : (c : AwsContext) → context_seal c ≢ []
unfolding context_seal
context_seal-ne-nil c = join_identity_parts-ne-nil _ _

resource_seal-ne-nil : (k : ResourceKey) → resource_seal k ≢ []
unfolding resource_seal
resource_seal-ne-nil k = join_identity_parts-ne-nil _ _

valid_identifier-trim_space : (s : Text) → valid_identifier (trim_space s) ≡ valid_identifier s
unfolding valid_identifier
valid_identifier-trim_space s = rw (trim_space-trim_space s) refl

valid_resource_id-trim_space : (s : Text) → valid_resource_id (trim_space s) ≡ valid_resource_id s
unfolding valid_resource_id
valid_resource_id-trim_space s = rw (trim_space-trim_space s) refl

=?_true : (a b : Text) → a ≡ b → (a =? b) ≡ true
=?_true a b e = ground arith

=?_false : (a b : Text) → a ≢ b → (a =? b) ≡ false
=?_false a b e = ground arith

sealed_context_valid :
    (env : Platform) (c : AwsContext)
    → c.seal ≡ context_seal c
    → (not (
          is_none (
            validate_context_spec
              (record { mode = c.mode; profile = c.profile; region = c.region })))
        || (not (
              valid_verified_identity env (record {
                partition = c.partition;
                account_id = c.account_id;
                principal_arn = c.principal_arn;
                credential_generation = c.credential_gen;
              }))
            || contains_control c.role_name))
      ≡ false
    → validate_context env c ≡ none
unfolding validate_context
sealed_context_valid env c s b =
    let n : (c.seal =? []) ≡ false = =?_false c.seal [] (λ e. context_seal-ne-nil c (sym s ∙ e)) in
    let y : (c.seal =? context_seal c) ≡ true = =?_true _ _ s in rw (n, y, b) refl

-- A context that `NewAWSContext` returns is valid.
pub new_aws_context_valid :
    (env : Platform) (spec : ContextSpec) (identity : VerifiedIdentity) (role : Text)
    (c : AwsContext)
    → new_aws_context env spec identity role ≡ ok c
    → validate_context env c ≡ none
unfolding new_aws_context
new_aws_context_valid env spec identity role c h =
    let (b, e) = guard_ok _ invalid_aws_context _ c h in
    subst (λ (c : AwsContext). validate_context env c ≡ none) e
      (sealed_context_valid env _ (unfold context_seal in refl) b)

sealed_resource_valid :
    (k : ResourceKey)
    → k.seal ≡ resource_seal k
    → (not (is_partition k.partition)
        || (not (is_account_id k.account_id)
            || (not (valid_region_scope k.region)
                || (not (valid_identifier k.type) || not (valid_resource_id k.id)))))
      ≡ false
    → validate_resource_key k ≡ none
unfolding validate_resource_key
sealed_resource_valid k s b =
    let n : (k.seal =? []) ≡ false = =?_false k.seal [] (λ e. resource_seal-ne-nil k (sym s ∙ e)) in
    let y : (k.seal =? resource_seal k) ≡ true = =?_true _ _ s in rw (n, y, b) refl

-- A key that `NewCanonicalResourceKey` returns is valid.
pub new_canonical_resource_key_valid :
    (partition account region type id : Text) (k : ResourceKey)
    → new_canonical_resource_key partition account region type id ≡ ok k
    → validate_resource_key k ≡ none
unfolding new_canonical_resource_key
new_canonical_resource_key_valid partition account region type id k h =
    let (b, e) = guard_ok _ invalid_resource_key _ k h in
    subst (λ (k : ResourceKey). validate_resource_key k ≡ none) e
      (sealed_resource_valid _ (unfold resource_seal in refl) b)

both_true : (a b : Bool) → (a && b) ≡ true → (a ≡ true) × (b ≡ true)
both_true true b h = (refl, h)
both_true false b h = absurd (ground arith)

verified_parts :
    (env : Platform) (i : VerifiedIdentity)
    → valid_verified_identity env i ≡ true
    → (is_account_id i.account_id ≡ true) × (is_partition i.partition ≡ true)
unfolding valid_verified_identity
verified_parts env i h =
    let (a, rest) = both_true _ _ (both_true _ _ h).1 in (a, (both_true _ _ rest).0)

region_test :
    (empty long name : Bool) (e : SpecError) (rest : Option SpecError)
    → is_none (if empty || (long || not name) then some e else rest) ≡ true
    → name ≡ true
region_test false false true e rest h = refl
region_test false false false e rest h = absurd (ground arith)
region_test false true name e rest h = absurd (ground arith)
region_test true long name e rest h = absurd (ground arith)

spec_region :
    (s : ContextSpec) → is_none (validate_context_spec s) ≡ true → is_region_name s.region ≡ true
unfolding validate_context_spec
spec_region s h = region_test _ _ _ _ _ h

two_guards :
    (unsealed bad_spec bad_identity bad_role : Bool) (e : Error)
    → (if unsealed then some e else if bad_spec || (bad_identity || bad_role) then some e else none)
      ≡ none
    → (bad_spec ≡ false) × (bad_identity ≡ false)
two_guards unsealed bad_spec bad_identity bad_role e h = ground arith

not-false : (b : Bool) → not b ≡ false → b ≡ true
not-false b h = ground arith

no_error_of_is_none {ℓ} : {A : Type ℓ} (x : Option A) → is_none x ≡ true → x ≡ none
no_error_of_is_none none h = refl
no_error_of_is_none (some a) h = absurd (ground arith)

-- The global region, or that of the context.
region_scope :
    (region own : Text)
    → is_region_name own ≡ true
    → (not (region =? global_region) && not (region =? own)) ≡ false
    → valid_region_scope region ≡ true
unfolding valid_region_scope
region_scope region own n h = elim (text_dec region own) [
  | yes e ↦ go (region =? global_region) (is_region_name region) (ap is_region_name e ∙ n)
  | no d ↦
      other (region =? global_region) (region =? own) (is_region_name region)
        (=?_false region own d) h
]
  where
    go : (a b : Bool) → b ≡ true → (a || b) ≡ true
    go a b h = ground arith

    other : (a b c : Bool) → b ≡ false → (not a && not b) ≡ false → (a || c) ≡ true
    other a b c h k = ground arith

key_guards :
    (bad_context bad_type bad_id bad_region : Bool)
    → (bad_context || (bad_type || (bad_id || bad_region))) ≡ false
    → (bad_context ≡ false) × (bad_type ≡ false) × (bad_id ≡ false) × (bad_region ≡ false)
key_guards c t i r h = (ground arith, ground arith, ground arith, ground arith)

-- What a valid context says of its fields.
context_parts :
    (env : Platform) (c : AwsContext)
    → validate_context env c ≡ none
    → (is_partition c.partition ≡ true)
      × (is_account_id c.account_id ≡ true)
      × (is_region_name c.region ≡ true)
unfolding validate_context
context_parts env c h =
    let (s, i) = two_guards _ _ _ _ _ h in
    let (a, p) =
      verified_parts env
        (record {
          partition = c.partition;
          account_id = c.account_id;
          principal_arn = c.principal_arn;
          credential_generation = c.credential_gen;
        })
        (not-false _ i) in
    (
      p,
      a,
      spec_region (record { mode = c.mode; profile = c.profile; region = c.region })
          (not-false _ s),
    )

-- A key that `newResourceKey` returns, for whatever region it is called, is valid, and is of the
-- context's account.
pub new_resource_key_valid :
    (env : Platform) (c : AwsContext) (region type id : Text) (k : ResourceKey)
    → new_resource_key env c region type id ≡ ok k
    → (validate_resource_key k ≡ none) × (k.partition ≡ c.partition) × (k.account_id ≡ c.account_id)
unfolding new_resource_key
new_resource_key_valid env c region type id k h =
    let (b, e) = guard_ok _ invalid_resource_key _ k h in
    subst
      (λ (k : ResourceKey).
        (validate_resource_key k ≡ none)
        × (k.partition ≡ c.partition)
        × (k.account_id ≡ c.account_id))
      e (sealed_resource_valid _ (unfold resource_seal in refl) (fields b), refl, refl)
  where
    fields :
        (not (is_none (validate_context env c))
            || (not (valid_identifier type)
                || (not (valid_resource_id id)
                    || (not (region =? global_region) && not (region =? c.region)))))
          ≡ false
        → (not (is_partition c.partition)
            || (not (is_account_id c.account_id)
                || (not (valid_region_scope region)
                    || (not (valid_identifier (trim_space type))
                        || not (valid_resource_id (trim_space id))))))
          ≡ false
    fields b =
        let (v, t, i, r) =
          key_guards (not (is_none (validate_context env c))) (not (valid_identifier type))
            (not (valid_resource_id id)) (not (region =? global_region) && not (region =? c.region))
            b in
        let (p, a, n) = context_parts env c (no_error_of_is_none _ (not-false _ v)) in
        rw
          (
            p,
            a,
            valid_identifier-trim_space type,
            valid_resource_id-trim_space id,
            t,
            i,
            region_scope region c.region n r,
          )
          refl
