-- ===== src/Identity/Seal.antt =====
-- The seals of contexts and keys determine their fields.
-- internal/bb/awsbrowser/contract.go and types.go.
use binbox_cli.Base.{◌≡◌, ◌↔◌, ap, List, [], ◌∷◌}
use binbox_cli.Text.{Text, decimal, join_identity_parts}
use binbox_cli.Text.Decimal.{decimal_injective}
use binbox_cli.Text.Join.{join_identity_parts_injective}
use binbox_cli.Identity.{
  AwsContext, ResourceKey, QueryKey, ContextProvenance, context_seal, resource_seal, query_seal,
  context_provenance,
}

-- Two contexts have the same seal exactly when their provenances, that is all fields but the
-- stored seal, are equal.
pub context_seal_iff :
    (c d : AwsContext)
    → (context_seal c ≡ context_seal d) ↔ (context_provenance c ≡ context_provenance d)
unfolding context_seal
context_seal_iff c d = (
  there,
  λ e.
      ap
        (λ (p : ContextProvenance). join_identity_parts (
          p.mode
          ∷ p.profile
          ∷ p.partition
          ∷ p.account_id
          ∷ p.principal_arn
          ∷ p.role_name
          ∷ p.region
          ∷ decimal p.credential_gen
          ∷ []))
        e,
)
  where
    there :
        join_identity_parts (
            c.mode
            ∷ c.profile
            ∷ c.partition
            ∷ c.account_id
            ∷ c.principal_arn
            ∷ c.role_name
            ∷ c.region
            ∷ decimal c.credential_gen
            ∷ [])
          ≡ join_identity_parts (
              d.mode
              ∷ d.profile
              ∷ d.partition
              ∷ d.account_id
              ∷ d.principal_arn
              ∷ d.role_name
              ∷ d.region
              ∷ decimal d.credential_gen
              ∷ [])
        → context_provenance c ≡ context_provenance d
    there e =
        let same = join_identity_parts_injective _ _ e in
        let number : decimal c.credential_gen ≡ decimal d.credential_gen = cc in
        let n = decimal_injective c.credential_gen d.credential_gen number in cc

-- Two resource keys have the same seal exactly when partition, account, region, type and id are
-- the same.
pub resource_seal_iff :
    (k j : ResourceKey)
    → (resource_seal k ≡ resource_seal j) ↔ (
        (k.partition ≡ j.partition)
        × (k.account_id ≡ j.account_id)
        × (k.region ≡ j.region)
        × (k.type ≡ j.type)
        × (k.id ≡ j.id))
unfolding resource_seal
resource_seal_iff k j = (
  λ e. let same = join_identity_parts_injective _ _ e in (cc, cc, cc, cc, cc),
  λ (a, b, c, d, e). cc,
)

-- Two query keys have the same seal exactly when their contexts have the same provenance and their
-- provider, operation and parameters are the same.
pub query_seal_iff :
    (k j : QueryKey)
    → (query_seal k ≡ query_seal j) ↔ (
        (context_provenance k.context ≡ context_provenance j.context)
        × (k.provider ≡ j.provider)
        × (k.operation ≡ j.operation)
        × (k.params_key ≡ j.params_key))
unfolding query_seal
query_seal_iff k j = (
  λ e.
      let same = join_identity_parts_injective _ _ e in
      let seal : context_seal k.context ≡ context_seal j.context = cc in
      ((context_seal_iff _ _).0 seal, cc, cc, cc),
  λ (c, p, o, q). ap join_identity_parts (parts ((context_seal_iff k.context j.context).1 c) p o q),
)
  where
    parts :
        {a b c d a' b' c' d' : Text}
        → a ≡ a'
        → b ≡ b'
        → c ≡ c'
        → d ≡ d'
        → ◌≡◌ {A = List Text} (a ∷ b ∷ c ∷ d ∷ []) (a' ∷ b' ∷ c' ∷ d' ∷ [])
    parts p q r s = cc
