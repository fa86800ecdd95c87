-- ===== src/Tests/Keys.antt =====
-- The seals of concrete keys.
use binbox_cli.Base.{◌≡◌, ◌↔◌}
use binbox_cli.Identity.{context_seal, context_provenance, resource_seal, query_seal}
use binbox_cli.Identity.Seal.{context_seal_iff, resource_seal_iff, query_seal_iff}
use binbox_cli.Tests.Data.{
  dev_context, other_context, instances, other_instances, instance_key, other_key,
}

context_seal_iff_example :
    (context_seal dev_context ≡ context_seal other_context)
    ↔ (context_provenance dev_context ≡ context_provenance other_context)
context_seal_iff_example = context_seal_iff dev_context other_context

resource_seal_iff_example : (resource_seal instance_key ≡ resource_seal other_key) ↔ (
    (instance_key.partition ≡ other_key.partition)
    × (instance_key.account_id ≡ other_key.account_id)
    × (instance_key.region ≡ other_key.region)
    × (instance_key.type ≡ other_key.type)
    × (instance_key.id ≡ other_key.id))
resource_seal_iff_example = resource_seal_iff instance_key other_key

query_seal_iff_example : (query_seal instances ≡ query_seal other_instances) ↔ (
    (context_provenance instances.context ≡ context_provenance other_instances.context)
    × (instances.provider ≡ other_instances.provider)
    × (instances.operation ≡ other_instances.operation)
    × (instances.params_key ≡ other_instances.params_key))
query_seal_iff_example = query_seal_iff instances other_instances
