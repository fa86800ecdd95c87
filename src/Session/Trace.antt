-- ===== src/Session/Trace.antt =====
-- Every sequence of calls on a new store: no call panics, and the store stays well-formed.
use binbox_cli.Base.{◌≡◌, Bool, true, false, some, List, [], ◌∷◌, arith, if◌then◌else◌, lookup}
use binbox_cli.Text.{Text}
use binbox_cli.Identity.{Platform, AwsContext, ResourceKey, QueryKey}
use binbox_cli.Observation.{Time, ResourceObservation, QueryPage}
use binbox_cli.Session.State.{
  LoadState, QueryEntry, SessionStore, new_session_store, query_dec, PageOrder,
}
use binbox_cli.Session.{
  Run, returned, panicked, Reply, queue, begin_load, begin_refresh, commit_page, complete_query,
  fail_query, store_observation,
}
use binbox_cli.Session.Entries.{
  IsCache, new_session_store-IsCache, queue-IsCache, begin_load-IsCache, begin_refresh-IsCache,
}
use binbox_cli.Session.Commit.{Returns, commit_page-IsCache, store_observation-IsCache}
use binbox_cli.Session.Finish.{complete_query-IsCache, fail_query-IsCache}
use binbox_cli.Session.Invalidate.{
  Scope, invalidate, invalidate_context, invalidate_account, invalidate_generation,
}
use binbox_cli.Session.Invalidate.Exact.{lookup-invalidate}

-- A call of a method; the loop over the pages of a completed refresh runs in any order.
pub data StoreCall : Type 0 where
  queues begins_load begins_refresh : QueryKey → StoreCall
  commits : QueryKey → QueryPage → StoreCall
  completes : PageOrder → QueryKey → Time → StoreCall
  fails : QueryKey → LoadState → Time → StoreCall
  observes : ResourceKey → ResourceObservation → StoreCall
  drops_context drops_generation : AwsContext → StoreCall
  drops_account : (partition account_id : Text) → StoreCall

abbrev after_reply : Run Reply → Run SessionStore
after_reply (returned r) = returned r.0
after_reply panicked = panicked

-- The store after a call, whatever the call replied.
unfoldable pub call : Platform → SessionStore → StoreCall → Run SessionStore
call env s (queues k) = returned (queue env s k).0
call env s (begins_load k) = returned (begin_load env s k).0
call env s (begins_refresh k) = returned (begin_refresh env s k).0
call env s (commits k page) = after_reply (commit_page env s k page)
call env s (completes order k t) = returned (complete_query env order s k t).0
call env s (fails k state t) = returned (fail_query env s k state t).0
call env s (observes k o) = returned (store_observation env s k o).0
call env s (drops_context c) = returned (invalidate_context env s c).0
call env s (drops_generation c) = returned (invalidate_generation env s c).0
call env s (drops_account partition account) = returned (invalidate_account s partition account).0

unfoldable pub run_calls : Platform → SessionStore → List StoreCall → Run SessionStore
run_calls env s [] = returned s
run_calls env s (c ∷ cs) = elim (call env s c) [
  | panicked ↦ panicked
  | returned s' ↦ run_calls env s' cs
]

-- The call returned a store that satisfies `P`.
abbrev pub Leaves : (SessionStore → Type 0) → Run SessionStore → Type 0
Leaves P (returned s) = P s
Leaves P panicked = ⊥

module _ (env : Platform) where
  invalidate-IsCache :
      (scope : Scope) (s : SessionStore) → IsCache env s → IsCache env (invalidate scope s).0
  invalidate-IsCache scope s c = record {
    entry = λ k e h. c.entry k e (shown k h);
    valid_key = λ k e h. c.valid_key k e (shown k h);
  }
    where
      shown :
          (k : QueryKey) {e : QueryEntry}
          → lookup query_dec k (invalidate scope s).0.queries ≡ some e
          → lookup query_dec k s.queries ≡ some e
      shown k h = ground (arith, lookup-invalidate scope s k)

  guarded_invalidate :
      (b : Bool) (scope : Scope) (s : SessionStore)
      → IsCache env s
      → IsCache env (if b then (s, 0) else invalidate scope s).0
  guarded_invalidate true scope s c = c
  guarded_invalidate false scope s c = invalidate-IsCache scope s c

  pub invalidate_context-IsCache :
      (s : SessionStore) (c : AwsContext)
      → IsCache env s
      → IsCache env (invalidate_context env s c).0
  unfolding invalidate_context
  invalidate_context-IsCache s c h = guarded_invalidate _ _ s h

  pub invalidate_generation-IsCache :
      (s : SessionStore) (c : AwsContext)
      → IsCache env s
      → IsCache env (invalidate_generation env s c).0
  unfolding invalidate_generation
  invalidate_generation-IsCache s c h = guarded_invalidate _ _ s h

  after_commit : (r : Run Reply) → Returns (IsCache env) r → Leaves (IsCache env) (after_reply r)
  after_commit (returned r) h = h
  after_commit panicked h = h

  call-IsCache :
      (s : SessionStore) (c : StoreCall) → IsCache env s → Leaves (IsCache env) (call env s c)
  unfolding call invalidate_account
  call-IsCache s (queues k) h = queue-IsCache env k h
  call-IsCache s (begins_load k) h = begin_load-IsCache env k h
  call-IsCache s (begins_refresh k) h = begin_refresh-IsCache env k h
  call-IsCache s (commits k page) h = after_commit _ (commit_page-IsCache env s k page h)
  call-IsCache s (completes order k t) h = complete_query-IsCache env order s k t h
  call-IsCache s (fails k state t) h = fail_query-IsCache env s k state t h
  call-IsCache s (observes k o) h = store_observation-IsCache env s k o h
  call-IsCache s (drops_context c) h = invalidate_context-IsCache s c h
  call-IsCache s (drops_generation c) h = invalidate_generation-IsCache s c h
  call-IsCache s (drops_account partition account) h = guarded_invalidate _ _ s h

  continue :
      (r : Run SessionStore) (next : SessionStore → Run SessionStore)
      → Leaves (IsCache env) r
      → ((s : SessionStore) → IsCache env s → Leaves (IsCache env) (next s))
      → Leaves (IsCache env) (elim r [ panicked ↦ panicked | returned s ↦ next s ])
  continue (returned s) next h k = k s h
  continue panicked next h k = h

  run_calls-IsCache :
      (s : SessionStore) (cs : List StoreCall)
      → IsCache env s
      → Leaves (IsCache env) (run_calls env s cs)
  unfolding run_calls
  run_calls-IsCache s [] h = h
  run_calls-IsCache s (c ∷ cs) h =
      continue (call env s c) (λ s'. run_calls env s' cs) (call-IsCache s c h)
        (λ s' h'. run_calls-IsCache s' cs h')

  -- No sequence of calls on a new store panics, and after any of them the cache is well-formed:
  -- every key is valid; a query has staged pages exactly while it refreshes and a recorded failure
  -- exactly while it is stale; a shown result has a time; a ready query has a resource, and an
  -- empty one has none.
  pub reachable-IsCache :
      (cs : List StoreCall) → Leaves (IsCache env) (run_calls env new_session_store cs)
  reachable-IsCache cs = run_calls-IsCache new_session_store cs (new_session_store-IsCache env)
