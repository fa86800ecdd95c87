-- ===== src/Tests/Store.antt =====
-- The session store at a concrete query.
use binbox_cli.Session.Merge.{newest_page_time, FromPages}
use binbox_cli.Base.{
  ◌≡◌, refl, true, ite, max, Distinct, Fresh, List, none, some, [], ◌∷◌, arith, lookup, insert,
  keep, dropped,
}
use binbox_cli.Observation.{
  QueryPage, clone_page, clone_resources, provenance_of, stored_provenance, observation_provenance,
}
use binbox_cli.Session.State.{
  QueryEntry, SessionStore, ready, stale, throttled, query_dec, resource_dec, provenance_dec,
  set_entry, entry_locked, new_session_store, is_failure, query_resource_count, context_dec,
  context_provenance_dec, in_order,
}
use binbox_cli.Session.{
  returned, observations_of, is_newest, upsert_observation, upsert_all, upsert_pages, in_scope,
  validate_observed, validate_all_observed, queue, begin_load, begin_refresh, commit_to,
  commit_page, complete_entry, complete_query, fail_entry, fail_query, store_observation,
}
use binbox_cli.Session.Refresh.{
  HasResult, accepts, staged_after, commit_all, failed_refresh, completed_refresh, result_entry,
}
use binbox_cli.Session.Newest.{kept_time, newest_time, kept_time-upsert_all}
use binbox_cli.Session.Trace.{StoreCall, call, run_calls, reachable-IsCache}
use binbox_cli.Session.Entries.{IsCache}
use binbox_cli.Session.Invalidate.{
  invalidate, prune, put_unless_empty, account_scope, invalidate_account, invalidate_context,
  invalidate_generation,
}
use binbox_cli.Session.Invalidate.Scopes.{
  Removes, OfAccount, OtherGeneration, invalidate_account-Removes, invalidate_context-Removes,
  invalidate_generation-Removes,
}
use binbox_cli.Identity.{context_provenance, is_partition, is_account_id}
use binbox_cli.Text.{text}
use binbox_cli.Tests.Data.{
  program, platform, instances, instances_valid, dev_context, dev_context_valid, instance_key,
  instance_seen, page_one, page_two, account,
}

unfoldable pub store_program : Unit {0}
unfolding program set_entry entry_locked observations_of is_newest upsert_observation upsert_all
    upsert_pages in_scope validate_observed validate_all_observed queue begin_load begin_refresh
    commit_to commit_page complete_entry complete_query fail_entry fail_query store_observation
    clone_page clone_resources query_resource_count query_dec resource_dec provenance_dec
    context_dec context_provenance_dec stored_provenance observation_provenance lookup insert
    is_failure run_calls call accepts staged_after commit_all kept_time newest_time keep dropped
    invalidate prune put_unless_empty account_scope invalidate_account
store_program = tt

abbrev pub loaded : SessionStore
loaded = record {
  queries =
      (
        instances,
        record {
          state = ready;
          fetched_at = 5;
          refresh_failure = none;
          pages = (1, page_one) ∷ [];
          staged_pages = none;
        },
      )
      ∷ [];
  resources = (instance_key, (provenance_of instance_seen, instance_seen) ∷ []) ∷ [];
}

abbrev entry : QueryEntry
entry = record {
  state = ready;
  fetched_at = 5;
  refresh_failure = none;
  pages = (1, page_one) ∷ [];
  staged_pages = none;
}

pub loads :
    run_calls platform new_session_store (
      StoreCall.begins_load instances
      ∷ StoreCall.commits instances page_one
      ∷ StoreCall.completes in_order instances 5
      ∷ [])
    ≡ returned loaded
unfolding store_program
loads = refl

loaded-HasResult : HasResult platform loaded instances entry
unfolding store_program
loaded-HasResult = record {
  valid = instances_valid;
  here = refl;
  fetched = omega arith;
  complete = refl;
}

throttled_is_failure : is_failure throttled ≡ true
unfolding is_failure
throttled_is_failure = refl

abbrev pages : List QueryPage
pages = page_one ∷ page_two ∷ []

abbrev refreshing_store : SessionStore
refreshing_store = (begin_refresh platform loaded instances).0

failed_refresh_example :
    (s : SessionStore) × (commit_all platform refreshing_store instances pages ≡ returned s)
    × ((fail_query platform s instances throttled 9).1 ≡ none)
    × ((fail_query platform s instances throttled 9).0.resources ≡ loaded.resources)
    × (lookup query_dec instances (fail_query platform s instances throttled 9).0.queries
        ≡ ite
            (query_dec instances instances)
            (some (record entry {
              state = stale;
              staged_pages = none;
              refresh_failure = some (record { state = throttled; observed_at = 9 });
            }))
            (lookup query_dec instances loaded.queries))
failed_refresh_example =
    failed_refresh platform loaded instances entry loaded-HasResult pages throttled 9 instances
      throttled_is_failure (omega arith)

abbrev shown : QueryEntry
shown = result_entry (staged_after platform instances [] pages) 9

completed_refresh_example :
    (s : SessionStore) × (commit_all platform refreshing_store instances pages ≡ returned s)
    × ((complete_query platform in_order s instances 9).1 ≡ none)
    × (kept_time
          (complete_query platform in_order s instances 9).0
          instance_key
          (provenance_of instance_seen)
        ≡ max
            (newest_page_time platform instance_key (provenance_of instance_seen) shown.pages)
            (kept_time loaded instance_key (provenance_of instance_seen)))
    × FromPages platform loaded
        (complete_query platform in_order s instances 9).0
        instance_key
        (provenance_of instance_seen)
        shown.pages
    × (lookup query_dec instances (complete_query platform in_order s instances 9).0.queries
        ≡ ite
            (query_dec instances instances)
            (some shown)
            (lookup query_dec instances loaded.queries))
completed_refresh_example =
    completed_refresh platform loaded instances entry loaded-HasResult pages in_order 9 instances
      instance_key (provenance_of instance_seen) (omega arith)

kept_time-upsert_all_example :
    kept_time
      (upsert_all loaded platform page_one.resources)
      instance_key
      (provenance_of instance_seen)
    ≡ max
        (newest_time platform instance_key (provenance_of instance_seen) page_one.resources)
        (kept_time loaded instance_key (provenance_of instance_seen))
kept_time-upsert_all_example =
    kept_time-upsert_all platform page_one.resources loaded instance_key
      (provenance_of instance_seen)

reachable-IsCache_example : IsCache platform loaded
unfolding store_program
reachable-IsCache_example = reachable-IsCache platform (
    StoreCall.begins_load instances
    ∷ StoreCall.commits instances page_one
    ∷ StoreCall.completes in_order instances 5
    ∷ [])

account_ok : (is_partition (text "aws") ≡ true) × (is_account_id account ≡ true)
unfolding program
account_ok = (refl, refl)

loaded-Distinct : Distinct loaded.resources
unfolding Distinct Fresh
loaded-Distinct = (tt, tt)

invalidate_account-Removes_example :
    Removes loaded
      (invalidate_account loaded (text "aws") account)
      (λ k. (k.context.partition ≡ text "aws") × (k.context.account_id ≡ account))
      (OfAccount (text "aws") account)
invalidate_account-Removes_example =
    invalidate_account-Removes loaded (text "aws") account account_ok.0 account_ok.1 loaded-Distinct

invalidate_generation-Removes_example :
    Removes loaded
      (invalidate_generation platform loaded dev_context)
      (λ k.
        OtherGeneration dev_context k.context.mode k.context.profile k.context.region
          k.context.credential_gen)
      (λ k p.
        OtherGeneration dev_context p.context_provenance.mode p.context_provenance.profile
          p.context_provenance.region p.context_provenance.credential_gen)
invalidate_generation-Removes_example =
    invalidate_generation-Removes platform loaded dev_context dev_context_valid loaded-Distinct

invalidate_context-Removes_example :
    Removes loaded
      (invalidate_context platform loaded dev_context)
      (λ k. k.context ≡ dev_context)
      (λ k p. p.context_provenance ≡ context_provenance dev_context)
invalidate_context-Removes_example =
    invalidate_context-Removes platform loaded dev_context dev_context_valid loaded-Distinct
