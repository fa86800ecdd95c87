-- ===== src/Tests/Reads.antt =====
-- A snapshot of a concrete store.
use binbox_cli.Base.{◌≡◌, refl, true, none, some, [], ◌∷◌}
use binbox_cli.Session.State.{ready, in_order}
use binbox_cli.Session.Trace.{StoreCall}
use binbox_cli.Session.Reads.{
  QuerySnapshot, insert_page, sort_pages, values, sorted_pages, snapshot,
}
use binbox_cli.Session.Reads.Shown.{Agrees, snapshot-Agrees}
use binbox_cli.Tests.Data.{platform, instances, page_one}
use binbox_cli.Tests.Store.{store_program, loaded, loads}

abbrev shown : QuerySnapshot
shown = record { state = ready; fetched_at = 5; refresh_failure = none; pages = page_one ∷ [] }

snapshot_found : snapshot platform loaded instances ≡ (some shown, true)
unfolding store_program insert_page sort_pages values sorted_pages snapshot
snapshot_found = refl

snapshot-Agrees_example : Agrees shown
snapshot-Agrees_example =
    snapshot-Agrees platform
      (StoreCall.begins_load instances
        ∷ StoreCall.commits instances page_one
        ∷ StoreCall.completes in_order instances 5
        ∷ [])
      loaded instances shown loads snapshot_found
