-- ===== src/Rest/Example/PoolTests.antt =====
-- Instances of the theorems on `DeleteCollection` of rest.go: one item, which one worker deletes, and
-- seven items, which none may delete.
use external_crd.Prelude.{
  ℕ, arith, true, false, ◌+◌, ◌*◌, ◌≤◌, ◌<◌, ◌≡◌, refl, ◌⊎◌, Option, none, List, [], ◌∷◌, length,
}
use external_crd.Prelude.Text.{Text, codes, is_empty, str_eq, has_prefix, last_index, contains_byte}
use external_crd.Prelude.Maps.{lookup, put, delete as delete_entry}
use external_crd.Prelude.Outcome.{Outcome, unauthorized}
use external_crd.Rest.User.{get_user, get_cluster_namespace, username_prefix}
use external_crd.Rest.Objects.{UnstructuredList, unstructured}
use external_crd.Rest.Names.{get_resource_name, get_normalized_manifest_name}
use external_crd.Rest.Crud.{create, delete, store_created, created_manifest}
use external_crd.Rest.DryRun.{
  dry_run_create, namespace_refused, dry_run_request, is_namespace_kind, marshalled,
  moves_namespace, normalize_request, prepare, restore,
}
use external_crd.Rest.Manifest.{copy_metadata, transform_manifest, trim_result}
use external_crd.Rest.Collection.{
  workers_number, errs_capacity, Pool, delete_item, delete_named, start, Step, send, close, receive,
  done, fail, leave, Reach, to_process_capacity, here, next, IsFinished, answer, crashes,
}
use external_crd.Rest.Collection.Invariant.{weight, errs_never_full, delete_collection_complete}
use external_crd.Rest.Collection.Progress.{
  steps, delete_collection_terminates, delete_collection_progress,
}
use external_crd.Rest.Collection.Blocked.{distributor_blocked}
use external_crd.Rest.Example.{machinery, backend, Server}
use external_crd.Rest.Example.Requests.{foos, request, stranger, item}

abbrev no_check : Option (Text → Outcome (Unit {0}))
no_check = none

abbrev server : Server
server = (create machinery backend foos request (unstructured item) no_check [] []).1

abbrev begun : Pool Server Text
begun = start machinery backend foos request no_check [] (item ∷ []) server

abbrev finished : Pool Server Text
finished = record begun {
  unsent = [];
  closed = true;
  queued = [];
  idle = 0;
  busy = [];
  handled = item ∷ [];
  server = (delete_item machinery backend foos request no_check [] item server).1;
}

run : Reach machinery backend foos request no_check [] begun finished
unfolding start workers_number to_process_capacity delete_item delete_named create delete get_user
    get_cluster_namespace is_empty codes has_prefix username_prefix last_index str_eq lookup
    dry_run_create namespace_refused store_created put created_manifest get_normalized_manifest_name
    get_resource_name contains_byte dry_run_request is_namespace_kind marshalled moves_namespace
    normalize_request prepare restore copy_metadata transform_manifest trim_result delete_entry
run =
    next
      (next
        (next
          (next (next here (send item [] refl (omega arith) refl))
            (receive item [] 0 refl refl refl))
          (done [] item [] refl refl refl))
        (close refl refl refl))
      (leave 0 refl refl refl refl)

abbrev empty_list : UnstructuredList Text
empty_list = record {
  api_version = [];
  kind = [];
  resource_version = [];
  continue_token = [];
  items = item ∷ [];
}

errs_never_full_example :
    length finished.errs + length finished.busy
    < errs_capacity (workers_number foos.delete_collection_workers (length (item ∷ [])))
errs_never_full_example =
    errs_never_full machinery backend foos request no_check [] (item ∷ []) server finished run

delete_collection_complete_example :
    (finished.unsent ≡ [])
    × (finished.queued ≡ [])
    × ((f : Text → ℕ) → weight f finished.handled ≡ weight f (item ∷ []))
unfolding answer start
delete_collection_complete_example =
    delete_collection_complete machinery backend foos request no_check [] (item ∷ []) server
      finished empty_list empty_list run (record { none_idle = refl; none_busy = refl }) refl

delete_collection_terminates_example :
    steps machinery backend foos request no_check [] run
    ≤ 4 * length (item ∷ [])
      + workers_number foos.delete_collection_workers (length (item ∷ []))
      + 1
delete_collection_terminates_example =
    delete_collection_terminates machinery backend foos request no_check [] (item ∷ []) server
      finished run

delete_collection_progress_example :
    IsFinished machinery backend foos request no_check [] begun
    ⊎ ((q : Pool Server Text) × Step machinery backend foos request no_check [] begun q)
    ⊎ ((i : Text) × (rest : List Text) × (begun.busy ≡ i ∷ rest)
        × ((delete_item machinery backend foos request no_check [] i begun.server).0 ≡ crashes))
delete_collection_progress_example =
    delete_collection_progress machinery backend foos request no_check [] (item ∷ []) server begun
      here

-- Seven items, whose deletes are refused to the stranger: two workers fail at the first two, and the
-- channel has room for four of the five that are left.
abbrev seven : List Text
seven = item ∷ item ∷ item ∷ item ∷ item ∷ item ∷ item ∷ []

abbrev refused_start : Pool Server Text
refused_start = start machinery backend foos stranger no_check [] seven server

abbrev refused : Pool Server Text
refused = record refused_start {
  unsent = item ∷ item ∷ item ∷ item ∷ item ∷ [];
  idle = 0;
  errs = unauthorized ∷ unauthorized ∷ [];
  handled = item ∷ item ∷ [];
}

refused_run : Reach machinery backend foos stranger no_check [] refused_start refused
unfolding start workers_number to_process_capacity delete_item delete_named delete get_user
refused_run =
    next
      (next
        (next
          (next
            (next
              (next here
                (send item (item ∷ item ∷ item ∷ item ∷ item ∷ item ∷ []) refl (omega arith) refl))
              (send item (item ∷ item ∷ item ∷ item ∷ item ∷ []) refl (omega arith) refl))
            (receive item (item ∷ []) 1 refl refl refl))
          (receive item [] 0 refl refl refl))
        (fail [] item (item ∷ []) unauthorized refl refl refl))
      (fail [] item [] unauthorized refl refl refl)

distributor_blocked_example : (refused.closed ≡ false) × (0 < length refused.unsent)
unfolding start workers_number to_process_capacity
distributor_blocked_example =
    distributor_blocked machinery backend foos stranger no_check [] seven server refused refused
      refused_run (record { none_idle = refl; none_busy = refl }) (omega arith) here
